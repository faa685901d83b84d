-- ===== src/Protected/Read/Obfuscated.antt =====
-- src/vfs/scoped/protected.rs: reading what was stored masked.
use yh_filemanager_vfs_stora.Prelude.{
  ℕ, ◌+◌, ◌*◌, ◌/◌, ◌^◌, min, max, ◌≤◌, ◌<◌, ◌≡◌, refl, sym, ap, subst, ◌∙◌, List, ◌++◌, length,
  Option, none, Result, ok, arith,
}
use yh_filemanager_vfs_stora.Prelude.Text.{Text}
use yh_filemanager_vfs_stora.Prelude.Bytes.{slice}
use yh_filemanager_vfs_stora.Protected.Header.{obfuscate, encode_header}
use yh_filemanager_vfs_stora.Protected.Meta.{
  CodecLaws, ProtectedMetaRecord, from_header, into_header, into_header-from_header,
}
use yh_filemanager_vfs_stora.Protected.Obfuscate.{MaskingLaws, obfuscate_in_place}
use yh_filemanager_vfs_stora.Protected.Payload.{
  Protection, ProtectedPathPlan, conceal, decode_obfuscate_range, authenticate, payload_header,
  encode_payload,
}
use yh_filemanager_vfs_stora.Protected.Payload.Ranges.{
  decode_obfuscate_window, length-obfuscate_in_place,
}
use yh_filemanager_vfs_stora.Protected.Payload.Encoded.{
  IsPayload, payload_header-IsHeader, block_size_kept, encode_payload_parts,
}
use yh_filemanager_vfs_stora.Protected.Read.{
  VfsError, FileIndexRow, Window, aligned_end, slice_bytes, file_info_from_index, read_window,
  read_obfuscated, verify_window, read_rows,
}
use yh_filemanager_vfs_stora.Protected.Read.Aligned.{aligned_IsWithin}
use yh_filemanager_vfs_stora.Protected.Read.Stored.{
  IsIndexed, read_rows_steps, stored_slice, decode_range_obfuscated,
}

module _ (p : Protection) (masking_laws : MaskingLaws p.masking) (codec_laws : CodecLaws p.codec)
    (pool_read_range : Text → ℕ → ℕ → Result VfsError (List ℕ))
    (get_index_metadata : Text → Result VfsError (Option FileIndexRow)) (user_id : Text)
    (plan : ProtectedPathPlan) (seed plaintext : List ℕ) (bounds : IsPayload plan seed plaintext)
    (mode : plan.mode ≡ obfuscate) where
  concealed :
      (content : List ℕ)
      → conceal p user_id plan seed plaintext ≡ ok content
      → content
        ≡ obfuscate_in_place p.masking plaintext user_id plan.key_slot_id seed
            (max (payload_header p plan seed plaintext).block_size 1)
            plan.prng
            plan.workers
  unfolding conceal
  concealed content e =
      let k = block_size_kept p user_id plan seed plaintext bounds in
      let masked : ℕ → List ℕ = λ b.
        obfuscate_in_place p.masking plaintext user_id plan.key_slot_id seed (max b 1) plan.prng
          plan.workers in
      let q : masked plan.block_size ≡ content = cc (rw (mode) at e) in sym q ∙ ap masked (sym k)

  abbrev header_block : ℕ
  header_block = max (payload_header p plan seed plaintext).block_size 1

  block_fits : (stop : ℕ) → stop ≤ length plaintext → length plaintext + header_block < 2 ^ 64
  unfolding IsPayload
  block_fits stop h = omega (arith, bounds, block_size_kept p user_id plan seed plaintext bounds)

  abbrev window_of : List ℕ → ℕ → ℕ → Window
  window_of content start stop = record {
    payload_logical_start = start / header_block * header_block;
    payload =
        slice (start / header_block * header_block)
          (min (aligned_end header_block stop) (length plaintext)) content;
    mac_bytes = none;
  }

  read_window_obfuscated :
      (key : Text) (content table : List ℕ) (m : ProtectedMetaRecord) (physical_size start stop : ℕ)
      → ((first last : ℕ)
          → pool_read_range key first last
            ≡ ok (
                slice_bytes
                  (encode_header (payload_header p plan seed plaintext) ++ content ++ table)
                  first
                  last))
      → length content ≡ length plaintext
      → start ≤ stop
      → stop ≤ length plaintext
      → read_window p pool_read_range get_index_metadata key
          (payload_header p plan seed plaintext)
          m
          physical_size
          start
          stop
        ≡ ok (window_of content start stop)
  unfolding payload_header read_obfuscated IsPayload
  read_window_obfuscated key content table m physical_size start stop stored n h k =
      let b =
        aligned_IsWithin header_block (omega arith) start stop (length plaintext) h k
          (block_fits stop k) in
      rw
        (
          mode,
          stored_slice p pool_read_range get_index_metadata key
              (payload_header p plan seed plaintext) content table
              (start / header_block * header_block)
              (min (aligned_end header_block stop) (length plaintext)) bounds.0 stored
              (omega (arith, b)) (omega (arith, n, b)),
        )
        refl

  pub read_rows_obfuscated :
      (encoded : List ℕ) (meta_json key : Text) (row : FileIndexRow) (readers start stop : ℕ)
      → encode_payload p user_id plan seed plaintext
        ≡ ok (encoded, payload_header p plan seed plaintext, meta_json)
      → IsIndexed row key meta_json encoded
      → ((first last : ℕ) → pool_read_range key first last ≡ ok (slice_bytes encoded first last))
      → start ≤ stop
      → stop ≤ length plaintext
      → read_rows p pool_read_range get_index_metadata user_id
          (record plan { workers = readers })
          row
          start
          stop
        ≡ ok (slice start stop plaintext, file_info_from_index row)
  unfolding verify_window authenticate payload_header IsPayload from_header
  read_rows_obfuscated encoded meta_json key row readers start stop e i stored h k =
      let (content, m, table, hidden, tagged, written, whole, same) =
        encode_payload_parts p user_id plan seed plaintext encoded _ meta_json e in
      let hdr = payload_header p plan seed plaintext in
      let c = concealed content hidden in
      let n =
        ap length c
        ∙ length-obfuscate_in_place p.masking masking_laws user_id plan.key_slot_id seed plan.prng
            header_block plaintext plan.workers in
      let b =
        aligned_IsWithin header_block (omega arith) start stop (length plaintext) h k
          (block_fits stop k) in
      let first = start / header_block * header_block in
      let last = min (aligned_end header_block stop) (length plaintext) in
      let kept : m ≡ from_header p.codec hdr = cc (rw (mode) at tagged) in
      read_rows_steps p pool_read_range get_index_metadata user_id
        (record plan { workers = readers }) row key meta_json encoded hdr m
        (window_of content start stop) start stop (slice start stop plaintext) codec_laws i written
        (ap (into_header p.codec) kept
          ∙ into_header-from_header p.codec codec_laws hdr _ _
              (payload_header-IsHeader p user_id plan seed plaintext bounds))
        k
        (read_window_obfuscated key content table m (length encoded) start stop
          (subst (λ z. (f l : ℕ) → pool_read_range key f l ≡ ok (slice_bytes z f l)) whole stored) n
          h k)
        (rw (mode) refl)
        (decode_range_obfuscated p user_id plan.key_slot_id plan.encrypt_key readers hdr
          (slice first last content) plaintext first start stop (h, k) mode
          (ap
              (λ z.
                decode_obfuscate_range p user_id plan.key_slot_id readers hdr (slice first last z)
                  first start stop)
              c
            ∙ decode_obfuscate_window p masking_laws user_id plan.key_slot_id hdr plaintext
                plan.workers readers first start stop last (start / header_block) refl b))
