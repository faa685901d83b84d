-- ===== src/Protected/Read/Stored.antt =====
-- src/vfs/scoped/protected.rs: a payload that the pool holds and the index names, as a reader meets it.
use yh_filemanager_vfs_stora.Prelude.{
  ℕ, ◌+◌, ◌-◌, min, max, ◌≤◌, ◌≡◌, refl, ap, ◌∙◌, ◌⊎◌, List, [], ◌++◌, length, length-append, leb,
  Bool-cases, inl, inr, Option, some, Result, ok, arith, true,
}
use yh_filemanager_vfs_stora.Prelude.Int.{ℤ}
use yh_filemanager_vfs_stora.Prelude.Text.{Text}
use yh_filemanager_vfs_stora.Prelude.Bytes.{take, drop, slice}
use yh_filemanager_vfs_stora.Protected.Header.{
  ProtectedMode, obfuscate, encrypt, ProtectedHeader, encode_header,
}
use yh_filemanager_vfs_stora.Protected.Meta.{
  CodecLaws, ProtectedMetaRecord, into_header, meta_from_json, header_from_meta_json,
}
use yh_filemanager_vfs_stora.Protected.Payload.{
  Protection, ProtectedPathPlan, decode_range, decode_obfuscate_range, decode_encrypt_range,
}
use yh_filemanager_vfs_stora.Protected.Payload.Windows.{slice-append_right, slice-append_left}
use yh_filemanager_vfs_stora.Protected.Payload.Encoded.{length-encode_header}
use yh_filemanager_vfs_stora.Protected.Read.{
  VfsError, FileIndexRow, Window, slice_bytes, file_info_from_index, meta_from_index,
  header_from_index, read_window, protected_read_payload_range, verify_window, read_rows,
}
use yh_filemanager_vfs_stora.Protected.Read.Aligned.{slice_bytes-slice}

pub mode-cases : (m : ProtectedMode) → (m ≡ obfuscate) ⊎ (m ≡ encrypt)
mode-cases obfuscate = inl refl
mode-cases encrypt = inr refl

-- The row of the index names the stored payload.
unfoldable pub IsIndexed : FileIndexRow → Text → Text → List ℕ → Type 0
IsIndexed row backend_key meta_json encoded =
    (row.backend_key ≡ some backend_key)
    × (row.protected_meta ≡ some meta_json)
    × (row.physical_size ≡ some (ℤ.pos (length encoded)))

module _ (p : Protection) (pool_read_range : Text → ℕ → ℕ → Result VfsError (List ℕ))
    (get_index_metadata : Text → Result VfsError (Option FileIndexRow)) where
  -- The window between the header and the table.
  pub stored_slice :
      (key : Text) (h : ProtectedHeader) (content table : List ℕ) (first last : ℕ)
      → length h.seed_or_nonce ≡ 16
      → ((start stop : ℕ)
          → pool_read_range key start stop
            ≡ ok (slice_bytes (encode_header h ++ content ++ table) start stop))
      → first ≤ last
      → last ≤ length content
      → pool_read_range key (36 + first) (36 + last) ≡ ok (slice first last content)
  stored_slice key h content table first last n stored f l =
      stored (36 + first) (36 + last)
      ∙ ap (λ s. ok s)
          (slice_bytes-slice _ (36 + first) (36 + last)
            ∙ slice-append_left (36 + first) (36 + last) (encode_header h ++ content) table
                (omega arith)
                (omega (arith, length-append (encode_header h) content, length-encode_header h n))
            ∙ slice-append_right 36 first last (encode_header h) content (length-encode_header h n))

  pub payload_range_read :
      (row : FileIndexRow) (key meta_json : Text) (encoded : List ℕ) (h : ProtectedHeader)
      (m : ProtectedMetaRecord) (window : Window) (start last : ℕ)
      → IsIndexed row key meta_json encoded
      → meta_from_index p pool_read_range get_index_metadata row ≡ ok m
      → header_from_index p pool_read_range get_index_metadata row ≡ ok h
      → read_window p pool_read_range get_index_metadata key h m
          (length encoded)
          start
          (min last h.logical_size)
        ≡ ok window
      → protected_read_payload_range p pool_read_range get_index_metadata row start last
        ≡ ok (h, m, window)
  unfolding protected_read_payload_range IsIndexed
  payload_range_read row key meta_json encoded h m window start last i em eh ew =
      rw (i.0, eh, em, i.2, ew) refl

  pub meta_read :
      (row : FileIndexRow) (key meta_json : Text) (encoded : List ℕ) (m : ProtectedMetaRecord)
      → CodecLaws p.codec
      → IsIndexed row key meta_json encoded
      → p.codec.to_string m ≡ ok meta_json
      → meta_from_index p pool_read_range get_index_metadata row ≡ ok m
  unfolding meta_from_index meta_from_json IsIndexed
  meta_read row key meta_json encoded m laws i e = rw (i.1, laws.json_read_back m meta_json e) refl

  pub header_read :
      (row : FileIndexRow) (key meta_json : Text) (encoded : List ℕ) (m : ProtectedMetaRecord)
      (h : ProtectedHeader)
      → CodecLaws p.codec
      → IsIndexed row key meta_json encoded
      → p.codec.to_string m ≡ ok meta_json
      → into_header p.codec m ≡ ok h
      → header_from_index p pool_read_range get_index_metadata row ≡ ok h
  unfolding header_from_index header_from_meta_json meta_from_json IsIndexed
  header_read row key meta_json encoded m h laws i e f =
      rw (i.1, laws.json_read_back m meta_json e, f) refl

  -- A reader that gets the row, the window, the verification and the range.
  pub read_rows_steps :
      (user_id : Text) (reader : ProtectedPathPlan) (row : FileIndexRow) (key meta_json : Text)
      (encoded : List ℕ) (h : ProtectedHeader) (m : ProtectedMetaRecord) (window : Window)
      (start stop : ℕ) (content : List ℕ)
      → CodecLaws p.codec
      → IsIndexed row key meta_json encoded
      → p.codec.to_string m ≡ ok meta_json
      → into_header p.codec m ≡ ok h
      → stop ≤ h.logical_size
      → read_window p pool_read_range get_index_metadata key h m (length encoded) start stop
        ≡ ok window
      → verify_window p pool_read_range get_index_metadata reader h m window ≡ ok tt
      → decode_range p user_id reader.key_slot_id reader.encrypt_key reader.workers h window.payload
          window.payload_logical_start start stop
        ≡ ok content
      → read_rows p pool_read_range get_index_metadata user_id reader row start stop
        ≡ ok (content, file_info_from_index row)
  unfolding read_rows
  read_rows_steps user_id reader row key meta_json encoded h m window start stop content laws i ej
        ei l ew ev ed =
      let t : min stop h.logical_size ≡ stop = omega arith in
      let parts =
        payload_range_read row key meta_json encoded h m window start stop i
          (meta_read row key meta_json encoded m laws i ej)
          (header_read row key meta_json encoded m h laws i ej ei)
          (ap (read_window p pool_read_range get_index_metadata key h m (length encoded) start) t
            ∙ ew) in
      rw (parts, ev, ed) refl

module _ (p : Protection) (user_id key_slot_id : Text) (encrypt_key : Option (List ℕ)) (workers : ℕ)
    (h : ProtectedHeader) (window plaintext : List ℕ) (first start stop : ℕ)
    (bounds : (start ≤ stop) × (stop ≤ h.logical_size)) where
  -- The clamps of the range do nothing where it is in the file.
  unclamped : max (min stop h.logical_size) (min start h.logical_size) ≡ stop
  unclamped = omega (arith, bounds)

  empty_range : leb stop start ≡ true → [] ≡ slice start stop plaintext
  empty_range e =
      let z : 0 ≡ stop - start = ground (arith, e) in ap (λ n. take n (drop start plaintext)) z

  pub decode_range_obfuscated :
      h.mode ≡ obfuscate
      → decode_obfuscate_range p user_id key_slot_id workers h window first start stop
        ≡ ok (slice start stop plaintext)
      → decode_range p user_id key_slot_id encrypt_key workers h window first start stop
        ≡ ok (slice start stop plaintext)
  unfolding decode_range
  decode_range_obfuscated m e = elim (Bool-cases (leb stop start)) [
    | inl f ↦ rw (unclamped, f) (ap (λ s. ok s) (empty_range f))
    | inr f ↦ rw (unclamped, f, m, unclamped) e
  ]

  pub decode_range_encrypted :
      h.mode ≡ encrypt
      → decode_encrypt_range p encrypt_key h window first start stop
        ≡ ok (slice start stop plaintext)
      → decode_range p user_id key_slot_id encrypt_key workers h window first start stop
        ≡ ok (slice start stop plaintext)
  unfolding decode_range
  decode_range_encrypted m e = elim (Bool-cases (leb stop start)) [
    | inl f ↦ rw (unclamped, f) (ap (λ s. ok s) (empty_range f))
    | inr f ↦ rw (unclamped, f, m, unclamped) e
  ]
