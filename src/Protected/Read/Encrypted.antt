-- ===== src/Protected/Read/Encrypted.antt =====
-- src/vfs/scoped/protected.rs: reading what was stored encrypted.
use yh_filemanager_vfs_stora.Prelude.{
  ℕ, ◌+◌, ◌-◌, ◌*◌, ◌/◌, min, ◌≤◌, ◌≡◌, refl, sym, ap, ap₂, subst, ◌∙◌, List, ◌++◌, length,
  length-append, Option, none, some, Result, ok, arith,
}
use yh_filemanager_vfs_stora.Prelude.Text.{Text, text_eq}
use yh_filemanager_vfs_stora.Prelude.Bytes.{slice, length-xor_with}
use yh_filemanager_vfs_stora.Prelude.Results.{◌>>=◌, bind-eq-ok}
use yh_filemanager_vfs_stora.Protected.Header.{encrypt, encode_header}
use yh_filemanager_vfs_stora.Protected.Meta.{
  CodecLaws, ProtectedMetaRecord, from_header, into_header, into_header-from_header,
}
use yh_filemanager_vfs_stora.Protected.Encrypt.{
  CryptoLaws, encrypt_in_place, build_encrypt_mac_table, integrity_chunk_count,
  default_encrypt_integrity_chunk_size, verify_encrypt_window,
}
use yh_filemanager_vfs_stora.Protected.Encrypt.Keystream.{encrypt_in_place-keystream}
use yh_filemanager_vfs_stora.Protected.Payload.{
  Protection, ProtectedPathPlan, ok_or, conceal, authenticate, with_integrity, payload_header,
  encode_payload, decode_encrypt_range,
}
use yh_filemanager_vfs_stora.Protected.Payload.Windows.{slice-append_right, slice_end}
use yh_filemanager_vfs_stora.Protected.Payload.Ranges.{decode_encrypt_window}
use yh_filemanager_vfs_stora.Protected.Payload.Encoded.{
  IsPayload, length-encode_header, payload_header-IsHeader, encode_payload_parts,
}
use yh_filemanager_vfs_stora.Protected.Read.{
  VfsError, FileIndexRow, Window, aligned_end, slice_bytes, file_info_from_index, read_window,
  read_authenticated, verify_window, read_rows,
}
use yh_filemanager_vfs_stora.Protected.Read.Aligned.{slice_bytes-slice, aligned_IsWithin}
use yh_filemanager_vfs_stora.Protected.Read.Stored.{
  IsIndexed, read_rows_steps, stored_slice, decode_range_encrypted,
}
use yh_filemanager_vfs_stora.Protected.Read.Macs.{verify_built}

key_given :
    (message : Text) (given : Option (List ℕ)) (k : List ℕ)
    → ok_or message given ≡ ok k
    → given ≡ some k
key_given message none k e = absurd (cc)
key_given message (some x) k e = cc

module _ (p : Protection) (crypto_laws : CryptoLaws p.crypto) (codec_laws : CodecLaws p.codec)
    (pool_read_range : Text → ℕ → ℕ → Result VfsError (List ℕ))
    (get_index_metadata : Text → Result VfsError (Option FileIndexRow)) (user_id : Text)
    (plan : ProtectedPathPlan) (seed plaintext : List ℕ) (bounds : IsPayload plan seed plaintext)
    (mode : plan.mode ≡ encrypt) where
  concealed :
      (content : List ℕ)
      → conceal p user_id plan seed plaintext ≡ ok content
      → (k : List ℕ) × (plan.encrypt_key ≡ some k)
        × (content ≡ encrypt_in_place p.crypto plaintext k seed)
  unfolding conceal
  concealed content e =
      let q : (ok_or _ plan.encrypt_key >>= λ k. ok (encrypt_in_place p.crypto plaintext k seed))
          ≡ ok content =
        rw (mode) at e in
      let (k, given, done) = bind-eq-ok _ _ q in (k, key_given _ _ k given, cc (done))

  authenticated :
      (content : List ℕ) (before m : ProtectedMetaRecord) (table k : List ℕ)
      → authenticate p plan content before ≡ ok (m, table)
      → plan.encrypt_key ≡ some k
      → (build_encrypt_mac_table p.crypto k default_encrypt_integrity_chunk_size content ≡ ok table)
        × (m ≡ with_integrity p before)
  unfolding authenticate
  authenticated content before m table k e given =
      let q = rw (mode, given) at e in
      let (built, done, same) =
        bind-eq-ok (build_encrypt_mac_table p.crypto k default_encrypt_integrity_chunk_size content)
          (λ t. ok (with_integrity p before, t)) q in
      let pair : ◌≡◌ {A = ProtectedMetaRecord × List ℕ} (with_integrity p before, built)
          (m, table) =
        cc (same) in
      (done ∙ ap (λ t. ok t.1) pair, sym (ap (λ t. t.0) pair))

  -- What is between the header and the table, and what is behind.
  mac_read :
      (key : Text) (content table : List ℕ) (first last : ℕ)
      → ((start stop : ℕ)
          → pool_read_range key start stop
            ≡ ok (
                slice_bytes
                  (encode_header (payload_header p plan seed plaintext) ++ content ++ table)
                  start
                  stop))
      → length content ≡ length plaintext
      → pool_read_range key (36 + length plaintext + first) (
          min
            (36 + length plaintext + last)
            (length (encode_header (payload_header p plan seed plaintext) ++ content ++ table)))
        ≡ ok (slice first last table)
  unfolding IsPayload payload_header
  mac_read key content table first last stored n =
      let before = encode_header (payload_header p plan seed plaintext) in
      stored _ _
      ∙ ap (λ s. ok s)
          (slice_bytes-slice _ _ _
            ∙ slice_end (36 + length plaintext + first) (36 + length plaintext + last)
                (before ++ content ++ table)
            ∙ slice-append_right (36 + length plaintext) first last (before ++ content) table (
                omega (
                  arith,
                  length-append before content,
                  n,
                  length-encode_header (payload_header p plan seed plaintext) bounds.0,
                )))

  -- The window of the range in a payload of `len` bytes.
  abbrev window_of : List ℕ → List ℕ → ℕ → ℕ → ℕ → Window
  window_of content table start stop len =
      let size = default_encrypt_integrity_chunk_size in
      let first = start / size * size in
      let last = min (aligned_end size stop) len in
      let covered = integrity_chunk_count (last - first) size in
      record {
        payload_logical_start = first;
        payload = slice first last content;
        mac_bytes = some (slice (first / size * 32) (first / size * 32 + covered * 32) table);
      }

  read_window_encrypted :
      (key : Text) (content table : List ℕ) (m : ProtectedMetaRecord) (start stop : ℕ)
      → ((first last : ℕ)
          → pool_read_range key first last
            ≡ ok (
                slice_bytes
                  (encode_header (payload_header p plan seed plaintext) ++ content ++ table)
                  first
                  last))
      → length content ≡ length plaintext
      → start ≤ stop
      → stop ≤ length plaintext
      → read_window p pool_read_range get_index_metadata key
          (payload_header p plan seed plaintext)
          (with_integrity p m)
          (length (encode_header (payload_header p plan seed plaintext) ++ content ++ table))
          start
          stop
        ≡ ok (window_of content table start stop (length plaintext))
  unfolding payload_header read_authenticated IsPayload text_eq encode_header
  read_window_encrypted key content table m start stop stored n h k =
      let size = default_encrypt_integrity_chunk_size in
      let first = start / size * size in
      let last = min (aligned_end size stop) (length plaintext) in
      let covered : ℕ = integrity_chunk_count (last - first) size in
      let b =
        aligned_IsWithin size (omega arith) start stop (length plaintext) h k
          (omega (arith, bounds)) in
      let behind : 36 + length plaintext + first / size * 32 + covered * 32
          ≡ 36 + length plaintext + (first / size * 32 + covered * 32) =
        omega arith in
      rw
        (
          mode,
          stored_slice p pool_read_range get_index_metadata key
              (payload_header p plan seed plaintext) content table first last bounds.0 stored
              (omega (arith, b)) (omega (arith, n, b)),
          behind,
          mac_read key content table (first / size * 32) (first / size * 32 + covered * 32) stored
              n,
        )
        refl

  verify_window_encrypted :
      (content table k : List ℕ) (m : ProtectedMetaRecord) (readers start stop : ℕ)
      → plan.encrypt_key ≡ some k
      → build_encrypt_mac_table p.crypto k default_encrypt_integrity_chunk_size content ≡ ok table
      → length content ≡ length plaintext
      → stop ≤ length plaintext
      → verify_window p pool_read_range get_index_metadata
          (record plan { workers = readers })
          (payload_header p plan seed plaintext)
          (with_integrity p m)
          (window_of content table start stop (length plaintext))
        ≡ ok tt
  unfolding payload_header verify_window IsPayload text_eq
  verify_window_encrypted content table k m readers start stop given built n l =
      let size = default_encrypt_integrity_chunk_size in
      let checked =
        subst
          (λ z.
            verify_encrypt_window p.crypto k size
              (window_of content table start stop z).payload_logical_start
              (window_of content table start stop z).payload
              (slice (start / size * size / size * 32)
                (start / size * size / size * 32
                  + integrity_chunk_count (min (aligned_end size stop) z - start / size * size) size
                    * 32)
                table)
            ≡ ok tt)
          n
          (verify_built p.crypto crypto_laws size (omega arith) content start stop
            (omega (arith, bounds)) k table built) in
      rw (mode, given, checked) refl

  pub read_rows_encrypted :
      (encoded : List ℕ) (meta_json key : Text) (row : FileIndexRow) (readers start stop : ℕ)
      → encode_payload p user_id plan seed plaintext
        ≡ ok (encoded, payload_header p plan seed plaintext, meta_json)
      → IsIndexed row key meta_json encoded
      → ((first last : ℕ) → pool_read_range key first last ≡ ok (slice_bytes encoded first last))
      → start ≤ stop
      → stop ≤ length plaintext
      → read_rows p pool_read_range get_index_metadata user_id
          (record plan { workers = readers })
          row
          start
          stop
        ≡ ok (slice start stop plaintext, file_info_from_index row)
  unfolding payload_header IsPayload from_header
  read_rows_encrypted encoded meta_json key row readers start stop e i stored h l =
      let hdr = payload_header p plan seed plaintext in
      let (content, m, table, hidden, tagged, written, whole, same) =
        encode_payload_parts p user_id plan seed plaintext encoded hdr meta_json e in
      let (k, given, c) = concealed content hidden in
      let (built, kept) = authenticated content (from_header p.codec hdr) m table k tagged given in
      let n =
        ap length (c ∙ encrypt_in_place-keystream p.crypto crypto_laws plaintext k seed)
        ∙ length-xor_with (crypto_laws.keystream k seed) plaintext in
      let size = default_encrypt_integrity_chunk_size in
      let first = start / size * size in
      let last = min (aligned_end size stop) (length plaintext) in
      let b =
        aligned_IsWithin size (omega arith) start stop (length plaintext) h l
          (omega (arith, bounds)) in
      let stored_parts =
        subst (λ z. (f g : ℕ) → pool_read_range key f g ≡ ok (slice_bytes z f g)) whole stored in
      read_rows_steps p pool_read_range get_index_metadata user_id
        (record plan { workers = readers }) row key meta_json encoded hdr m
        (window_of content table start stop (length plaintext)) start stop
        (slice start stop plaintext) codec_laws i written
        (ap (into_header p.codec) kept
          ∙ into_header-from_header p.codec codec_laws hdr _ _
              (payload_header-IsHeader p user_id plan seed plaintext bounds))
        l
        (ap₂
            (λ z w.
              read_window p pool_read_range get_index_metadata key hdr z (length w) start stop)
            kept whole
          ∙ read_window_encrypted key content table (from_header p.codec hdr) start stop
              stored_parts n h l)
        (ap
            (λ z.
              verify_window p pool_read_range get_index_metadata (record plan { workers = readers })
                hdr z (window_of content table start stop (length plaintext)))
            kept
          ∙ verify_window_encrypted content table k (from_header p.codec hdr) readers start stop
              given built n l)
        (decode_range_encrypted p user_id plan.key_slot_id plan.encrypt_key readers hdr
          (slice first last content) plaintext first start stop (h, l) mode
          (ap₂ (λ z w. decode_encrypt_range p z hdr (slice first last w) first start stop) given c
            ∙ decode_encrypt_window p crypto_laws k hdr plaintext first start stop last bounds.0 b))
