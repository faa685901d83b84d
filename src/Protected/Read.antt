-- ===== src/Protected/Read.antt =====
-- src/vfs/scoped/protected.rs: reading a protected file, the whole or a range, through the index
-- and the pool. Both are asked at one moment, so the answers of each are a function here.
pub mod Aligned
pub mod Stored
pub mod Obfuscated
pub mod Macs
pub mod Encrypted
pub mod RoundTrip
use yh_filemanager_vfs_stora.Prelude.{
  ℕ, ◌+◌, ◌-◌, ◌*◌, ◌/◌, ◌^◌, min, max, List, [], length, Bool, true, false, Option, none, some,
  leb, if◌then◌else◌, Result, ok, err,
}
use yh_filemanager_vfs_stora.Prelude.Text.{Text, codes, text_eq}
use yh_filemanager_vfs_stora.Prelude.Bytes.{slice}
use yh_filemanager_vfs_stora.Prelude.Int.{ℤ, pos_part}
use yh_filemanager_vfs_stora.Prelude.Results.{◌>>=◌, map_err}
use yh_filemanager_vfs_stora.Types.{VfsFileInfo}
use yh_filemanager_vfs_stora.Protected.Header.{
  obfuscate, encrypt, ProtectedHeader, protected_header_len,
}
use yh_filemanager_vfs_stora.Protected.Meta.{
  ProtectedMetaRecord, meta_from_json, header_from_meta_json,
  protected_integrity_hmac_sha256_chunked,
}
use yh_filemanager_vfs_stora.Protected.Encrypt.{
  integrity_chunk_count, protected_mac_len, default_encrypt_integrity_chunk_size,
  verify_encrypt_window,
}
use yh_filemanager_vfs_stora.Protected.Payload.{
  Protection, ProtectedPathPlan, decode_range, key_missing,
}

pub data VfsError : Type 0 where
  not_found internal : Text → VfsError

-- The part of a row of the index that reading uses.
pub record FileIndexRow : Type 0 where
  pub name : Text
  pub path : Text
  pub is_dir : Bool
  pub size : ℤ
  pub file_updated_at : Option ℕ
  pub favorite_color : ℕ
  pub file_trashed_at : Option ℕ
  pub original_path : Option Text
  pub backend_key : Option Text
  pub physical_size : Option ℤ
  pub protected_meta : Option Text

unfoldable pub file_info_from_index : FileIndexRow → VfsFileInfo
file_info_from_index row = record {
  name = row.name;
  path = row.path;
  is_dir = row.is_dir;
  size = pos_part row.size;
  modified = row.file_updated_at;
  favorite_color = row.favorite_color;
  has_active_share = none;
  has_active_direct = none;
  trashed_at = row.file_trashed_at;
  original_path = row.original_path;
}

-- `ok_or_else` with an internal error.
abbrev pub required {ℓ} : {A : Type ℓ} → Text → Option A → Result VfsError A
required message none = err (internal message)
required message (some a) = ok a

abbrev pub unwrap_or {ℓ} : {A : Type ℓ} → A → Option A → A
unwrap_or d none = d
unwrap_or d (some a) = a

pub record Window : Type 0 where
  pub payload_logical_start : ℕ
  pub payload : List ℕ
  pub mac_bytes : Option (List ℕ)

-- src/vfs/pool.rs: what the pool takes from a content that it holds in a cache.
unfoldable pub slice_bytes : List ℕ → ℕ → ℕ → List ℕ
slice_bytes content start last =
    let bounded_start = min start (length content) in
    let bounded_end = min last (length content) in
    if leb bounded_end bounded_start then [] else slice bounded_start bounded_end content

-- The end of the last block that the range reaches into. A block of size zero does not occur: the
-- division would fail there.
unfoldable pub aligned_end : ℕ → ℕ → ℕ
aligned_end size logical_end = min (logical_end + (size - 1)) (2 ^ 64 - 1) / size * size

module _ (p : Protection) (pool_read_range : Text → ℕ → ℕ → Result VfsError (List ℕ))
    (get_index_metadata : Text → Result VfsError (Option FileIndexRow)) where
  unfoldable pub meta_from_index : FileIndexRow → Result VfsError ProtectedMetaRecord
  meta_from_index row =
      required (codes "Protected metadata is missing") row.protected_meta >>= λ raw.
      map_err internal (meta_from_json p.codec raw)

  unfoldable pub header_from_index : FileIndexRow → Result VfsError ProtectedHeader
  header_from_index row =
      required (codes "Protected metadata is missing") row.protected_meta >>= λ raw.
      map_err internal (header_from_meta_json p.codec raw)

  unfoldable pub read_obfuscated : Text → ProtectedHeader → ℕ → ℕ → Result VfsError Window
  unfolding aligned_end
  read_obfuscated backend_key header start logical_end =
      let block_size = max header.block_size 1 in
      let aligned_start = start / block_size * block_size in
      let clamped_end = min (aligned_end block_size logical_end) header.logical_size in
      pool_read_range backend_key (protected_header_len + aligned_start)
        (protected_header_len + clamped_end)
      >>= λ payload.
          ok (record { payload_logical_start = aligned_start; payload = payload; mac_bytes = none })

  unfoldable pub read_authenticated :
      Text → ProtectedHeader → ℕ → ℕ → ℕ → ℕ → Result VfsError Window
  unfolding aligned_end integrity_chunk_count
  read_authenticated backend_key header chunk_size physical_size start logical_end =
      let aligned_start = start / chunk_size * chunk_size in
      let clamped_end = min (aligned_end chunk_size logical_end) header.logical_size in
      let start_chunk = aligned_start / chunk_size in
      let covered_chunks = integrity_chunk_count (clamped_end - aligned_start) chunk_size in
      let mac_start =
        protected_header_len + header.logical_size + start_chunk * protected_mac_len in
      let mac_end = mac_start + covered_chunks * protected_mac_len in
      pool_read_range backend_key (protected_header_len + aligned_start)
        (protected_header_len + clamped_end)
      >>= λ payload.
          pool_read_range backend_key mac_start (min mac_end physical_size) >>= λ mac_bytes.
          ok (record {
            payload_logical_start = aligned_start;
            payload = payload;
            mac_bytes = some mac_bytes;
          })

  unfoldable pub read_unauthenticated : Text → ℕ → ℕ → ℕ → Result VfsError Window
  read_unauthenticated backend_key physical_size start logical_end =
      let physical_end =
        min (protected_header_len + logical_end) (max physical_size protected_header_len) in
      pool_read_range backend_key (protected_header_len + start) physical_end >>= λ payload.
      ok (record { payload_logical_start = start; payload = payload; mac_bytes = none })

  abbrev pub is_authenticated : ProtectedMetaRecord → Bool
  is_authenticated m = text_eq m.integrity protected_integrity_hmac_sha256_chunked

  abbrev pub chunk_size_of : ProtectedMetaRecord → ℕ
  chunk_size_of m = unwrap_or default_encrypt_integrity_chunk_size m.integrity_chunk_size

  -- Behind the reading of the row.
  abbrev pub read_window :
      Text → ProtectedHeader → ProtectedMetaRecord → ℕ → ℕ → ℕ → Result VfsError Window
  read_window backend_key header m physical_size start logical_end = elim header.mode [
    | obfuscate ↦ read_obfuscated backend_key header start logical_end
    | encrypt ↦
        if is_authenticated m
        then read_authenticated backend_key header (chunk_size_of m) physical_size start logical_end
        else read_unauthenticated backend_key physical_size start logical_end
  ]

  unfoldable pub protected_read_payload_range :
      FileIndexRow → ℕ → ℕ → Result VfsError (ProtectedHeader × ProtectedMetaRecord × Window)
  unfolding meta_from_index header_from_index read_obfuscated read_authenticated
      read_unauthenticated
  protected_read_payload_range row start last = do
    backend_key ← required (codes "Protected file backend key is missing") row.backend_key
    header ← header_from_index row
    m ← meta_from_index row
    let physical_size = pos_part (unwrap_or (ℤ.pos 0) row.physical_size)
    window ← read_window backend_key header m physical_size start (min last header.logical_size)
    ok (header, m, window)

  -- The verification that both readers do before they decode.
  unfoldable pub verify_window :
      ProtectedPathPlan
      → ProtectedHeader
      → ProtectedMetaRecord
      → Window
      → Result VfsError (Unit {0})
  verify_window plan header m window = elim header.mode [
    | obfuscate ↦ ok tt
    | encrypt ↦
        if is_authenticated m
        then (required key_missing plan.encrypt_key >>= λ key.
            required (codes "Protected MAC bytes are missing") window.mac_bytes >>= λ mac_bytes.
            map_err internal (
              verify_encrypt_window p.crypto key (chunk_size_of m) window.payload_logical_start
                window.payload mac_bytes))
        else ok tt
  ]

  -- What both readers do with the row: the window, its verification, and the range in it.
  unfoldable pub read_rows :
      Text → ProtectedPathPlan → FileIndexRow → ℕ → ℕ → Result VfsError (List ℕ × VfsFileInfo)
  unfolding protected_read_payload_range verify_window file_info_from_index
  read_rows user_id plan row start last = do
    parts ← protected_read_payload_range row start last
    verified ← verify_window plan parts.0 parts.1 parts.2
    content ← map_err internal (
        decode_range p user_id plan.key_slot_id plan.encrypt_key plan.workers parts.0
          parts.2.payload parts.2.payload_logical_start start last)
    ok (content, file_info_from_index row)

  -- Behind the look-up of the row.
  abbrev pub read_all_of :
      Text → ProtectedPathPlan → FileIndexRow → Result VfsError (List ℕ × VfsFileInfo)
  read_all_of user_id plan row =
      if row.is_dir
      then err (internal (codes "Protected directories cannot be read as files"))
      else read_rows user_id plan row 0 (pos_part row.size)

  abbrev pub indexed_row : Text → Result VfsError FileIndexRow
  indexed_row normalized = get_index_metadata normalized >>= λ found. elim found [
    | none ↦ err (not_found normalized)
    | some row ↦ ok row
  ]

  unfoldable pub protected_read_all_impl :
      Text → Text → ProtectedPathPlan → Result VfsError (List ℕ × VfsFileInfo)
  unfolding read_rows
  protected_read_all_impl user_id normalized plan =
      indexed_row normalized >>= λ row. read_all_of user_id plan row

  abbrev pub read_range_of :
      Text → ProtectedPathPlan → ℕ → ℕ → FileIndexRow → Result VfsError (List ℕ × VfsFileInfo)
  read_range_of user_id plan start last row =
      let logical_end = min last (pos_part row.size) in
      if leb logical_end start
      then ok ([], file_info_from_index row)
      else read_rows user_id plan row start logical_end

  unfoldable pub protected_read_range_impl :
      Text → Text → ℕ → ℕ → ProtectedPathPlan → Result VfsError (List ℕ × VfsFileInfo)
  unfolding read_rows file_info_from_index
  protected_read_range_impl user_id normalized start last plan =
      indexed_row normalized >>= λ row. read_range_of user_id plan start last row
