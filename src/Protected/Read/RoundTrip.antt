-- ===== src/Protected/Read/RoundTrip.antt =====
-- src/vfs/scoped/protected.rs: what is read from a stored payload is what was encoded.
use yh_filemanager_vfs_stora.Prelude.{
  ℕ, ◌-◌, min, ◌≤◌, ◌≡◌, refl, ap, subst, ◌∙◌, List, [], length, leb, Bool-cases, inl, inr, false,
  Option, some, Result, ok, err, if◌then◌else◌, arith,
}
use yh_filemanager_vfs_stora.Prelude.Int.{ℤ, pos_part}
use yh_filemanager_vfs_stora.Prelude.Text.{Text, codes}
use yh_filemanager_vfs_stora.Prelude.Bytes.{take, drop, slice, take_all}
use yh_filemanager_vfs_stora.Prelude.Results.{◌>>=◌}
use yh_filemanager_vfs_stora.Protected.Header.{ProtectedHeader}
use yh_filemanager_vfs_stora.Protected.Meta.{CodecLaws}
use yh_filemanager_vfs_stora.Protected.Obfuscate.{MaskingLaws}
use yh_filemanager_vfs_stora.Protected.Encrypt.{CryptoLaws}
use yh_filemanager_vfs_stora.Protected.Payload.{Protection, ProtectedPathPlan, encode_payload}
use yh_filemanager_vfs_stora.Protected.Payload.Encoded.{IsPayload, encode_payload_parts}
use yh_filemanager_vfs_stora.Protected.Read.{
  VfsError, internal, indexed_row, read_range_of, read_all_of, FileIndexRow, slice_bytes,
  file_info_from_index, read_rows, protected_read_all_impl, protected_read_range_impl,
}
use yh_filemanager_vfs_stora.Protected.Read.Stored.{mode-cases, IsIndexed}
use yh_filemanager_vfs_stora.Protected.Read.Obfuscated.{read_rows_obfuscated}
use yh_filemanager_vfs_stora.Protected.Read.Encrypted.{read_rows_encrypted}

module _ (p : Protection) (masking_laws : MaskingLaws p.masking) (crypto_laws : CryptoLaws p.crypto)
    (codec_laws : CodecLaws p.codec) (pool_read_range : Text → ℕ → ℕ → Result VfsError (List ℕ))
    (get_index_metadata : Text → Result VfsError (Option FileIndexRow)) (user_id : Text)
    (plan : ProtectedPathPlan) (seed plaintext encoded : List ℕ) (header : ProtectedHeader)
    (meta_json backend_key normalized : Text) (row : FileIndexRow)
    (bounds : IsPayload plan seed plaintext)
    (encoding : encode_payload p user_id plan seed plaintext ≡ ok (encoded, header, meta_json))
    (indexed : IsIndexed row backend_key meta_json encoded)
    (stored : (first last : ℕ)
      → pool_read_range backend_key first last ≡ ok (slice_bytes encoded first last))
    (found : get_index_metadata normalized ≡ ok (some row))
    (sized : row.size ≡ ℤ.pos (length plaintext)) where
  read_rows-encode_payload :
      (readers start stop : ℕ)
      → start ≤ stop
      → stop ≤ length plaintext
      → read_rows p pool_read_range get_index_metadata user_id
          (record plan { workers = readers })
          row
          start
          stop
        ≡ ok (slice start stop plaintext, file_info_from_index row)
  read_rows-encode_payload readers start stop h l =
      let parts =
        encode_payload_parts p user_id plan seed plaintext encoded header meta_json encoding in
      let e =
        subst (λ z. encode_payload p user_id plan seed plaintext ≡ ok (encoded, z, meta_json))
          parts.7 encoding in
      elim (mode-cases plan.mode) [
        | inl m ↦
            read_rows_obfuscated p masking_laws codec_laws pool_read_range get_index_metadata
              user_id plan seed plaintext bounds m encoded meta_json backend_key row readers start
              stop e indexed stored h l
        | inr m ↦
            read_rows_encrypted p crypto_laws codec_laws pool_read_range get_index_metadata user_id
              plan seed plaintext bounds m encoded meta_json backend_key row readers start stop e
              indexed stored h l
      ]

  row_found : indexed_row p pool_read_range get_index_metadata normalized ≡ ok row
  row_found = rw (found) refl

  -- A reader that stops where the file ends.
  range_taken :
      (reader : ProtectedPathPlan) (start stop : ℕ)
      → (start ≤ stop
          → read_rows p pool_read_range get_index_metadata user_id reader row start stop
            ≡ ok (slice start stop plaintext, file_info_from_index row))
      → (if leb stop start
          then ok ([], file_info_from_index row)
          else read_rows p pool_read_range get_index_metadata user_id reader row start stop)
        ≡ ok (slice start stop plaintext, file_info_from_index row)
  range_taken reader start stop h = elim (Bool-cases (leb stop start)) [
    | inl e ↦
        let z : 0 ≡ stop - start = ground (arith, e) in
        rw (e) (ap (λ n. ok (take n (drop start plaintext), file_info_from_index row)) z)
    | inr e ↦ rw (e) (h (ground (arith, e)))
  ]

  -- A payload whose block size is below 2^32 and whose size leaves room for 2^32 bytes more in a
  -- u64, that was encoded and stored, and whose row in the index names it: a range that is read, by
  -- any number of workers, is that range of the plaintext, cut at its end, in both modes, blocks
  -- and codes included.
  pub protected_read_range-encode_payload :
      (readers start last : ℕ)
      → protected_read_range_impl p pool_read_range get_index_metadata user_id normalized start last
          (record plan { workers = readers })
        ≡ ok (slice start (min last (length plaintext)) plaintext, file_info_from_index row)
  unfolding protected_read_range_impl
  protected_read_range-encode_payload readers start last =
      let reader : ProtectedPathPlan = record plan { workers = readers } in
      let stop = min last (length plaintext) in
      ap
        (λ r.
          r >>= λ z. read_range_of p pool_read_range get_index_metadata user_id reader start last z)
        row_found
      ∙ ap
          (λ n.
            if leb (min last n) start
            then ok ([], file_info_from_index row)
            else read_rows p pool_read_range get_index_metadata user_id reader row start
                (min last n))
          (ap pos_part sized)
      ∙ range_taken reader start stop
          (λ h. read_rows-encode_payload readers start stop h (omega arith))

  -- A payload whose block size is below 2^32 and whose size leaves room for 2^32 bytes more in a
  -- u64, that was encoded and stored, and whose row in the index names it and is that of a file:
  -- reading it, by any number of workers, gives the plaintext.
  pub protected_read_all-encode_payload :
      (readers : ℕ)
      → row.is_dir ≡ false
      → protected_read_all_impl p pool_read_range get_index_metadata user_id normalized
          (record plan { workers = readers })
        ≡ ok (plaintext, file_info_from_index row)
  unfolding protected_read_all_impl
  protected_read_all-encode_payload readers file =
      let reader : ProtectedPathPlan = record plan { workers = readers } in
      ap (λ r. r >>= λ z. read_all_of p pool_read_range get_index_metadata user_id reader z)
        row_found
      ∙ ap
          (λ b.
            if b
            then err (internal (codes "Protected directories cannot be read as files"))
            else read_rows p pool_read_range get_index_metadata user_id reader row 0
                (pos_part row.size))
          file
      ∙ ap (λ n. read_rows p pool_read_range get_index_metadata user_id reader row 0 n)
          (ap pos_part sized)
      ∙ read_rows-encode_payload readers 0 (length plaintext) (omega arith) (omega arith)
      ∙ ap (λ s. ok (s, file_info_from_index row)) (take_all _ plaintext (omega arith))
