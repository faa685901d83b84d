-- ===== src/Cache/WriteCache.antt =====
-- src/vfs/cache/write_cache.rs: the cache that takes whole files and writes them to the primary
-- storage later. A record is shared (`Arc<PendingWriteRecord>`) by the map of entries and by the
-- tasks at work, so the map holds indices into a heap of records. Times are seconds since 1970;
-- a call reads the clock through its argument `now`. The counters of `global_vfs_metrics`, the
-- journal event and the meta files beside the blobs are left out.
pub mod Heap
pub mod Tasks
pub mod Enqueue
pub mod Flush
pub mod Load
mod Tests
use yh_filemanager_vfs_stora.Prelude.{
  ℕ, zero, suc, ◌+◌, ◌-◌, ◌*◌, ◌/◌, ◌%◌, ◌^◌, min, max, Bool, true, false, not, ◌&&◌, Option, none,
  some, List, [], ◌∷◌, ◌++◌, length, get_elem?, set, leb, ltb, if◌then◌else◌,
}
use yh_filemanager_vfs_stora.Prelude.Int.{ℤ}
use yh_filemanager_vfs_stora.Prelude.Text.{Text, codes, text_eq}
use yh_filemanager_vfs_stora.Prelude.FilePath.{path_file_name}
use yh_filemanager_vfs_stora.Prelude.Table.{Table}
use yh_filemanager_vfs_stora.Prelude.Table
use yh_filemanager_vfs_stora.Types.{VfsFileInfo}
use yh_filemanager_vfs_stora.Cache.Policy.{CachePathPolicy, allows}
use yh_filemanager_vfs_stora.Cache.ReadCache.{ReadCacheManager}

pub data WriteCacheBackend : Type 0 where
  memory local_dir : WriteCacheBackend

pub data PendingWriteState : Type 0 where
  pending flushing abnormal : PendingWriteState

pub data PendingWriteBlob : Type 0 where
  bytes : Text → PendingWriteBlob
  disk : Text → PendingWriteBlob

-- `PendingWriteRecord`, with the fields of its lock's `PendingWriteMutable`.
pub record PendingWriteRecord : Type 0 where
  pub user_id : Text
  pub logical_path : Text
  pub physical_path : Text
  pub parent_physical_path : Text
  pub blob : PendingWriteBlob
  pub size : ℕ
  pub modified_at : ℕ
  pub deadline_at : ℕ
  pub next_retry_at : ℕ
  pub generation : ℕ
  pub retry_count : ℕ
  pub state : PendingWriteState
  pub abnormal_logged : Bool
  pub last_error : Option Text

pub record DirectoryIndexSyncTask : Type 0 where
  pub user_id : Text
  pub logical_parent_path : Text
  pub physical_parent_path : Text
  pub next_sync_at : ℕ
  pub retry_count : ℕ

pub record UserQuotaSyncTask : Type 0 where
  pub user_id : Text
  pub delta : ℤ
  pub next_sync_at : ℕ
  pub retry_count : ℕ

pub record WriteCacheManager : Type 0 where
  pub enabled : Bool
  pub backend : WriteCacheBackend
  pub queue_dir : Text
  pub abnormal_dir : Text
  pub capacity_bytes : ℕ
  pub max_file_size_bytes : ℕ
  pub flush_interval_ms : ℕ
  pub flush_deadline_secs : ℕ
  pub policy : CachePathPolicy
  pub accounted_bytes : ℕ
  pub entries : Table ℕ
  pub records : List PendingWriteRecord
  pub dirty_paths : Table (Unit {0})
  pub dirty_dirs : Table (Unit {0})
  pub index_sync_dirs : Table DirectoryIndexSyncTask
  pub quota_sync_users : Table UserQuotaSyncTask
  pub read_cache : Option ReadCacheManager
  -- The primary storage, and the blobs on the local disk.
  pub primary : Table Text
  pub blob_files : Table Text

abbrev pub u64_mod : ℕ
u64_mod = 2 ^ 64

abbrev pub u32_max : ℕ
u32_max = 2 ^ 32 - 1

abbrev pub u64_max : ℕ
u64_max = 2 ^ 64 - 1

-- `fetch_add` and `fetch_sub`.
unfoldable pub account : ℕ → WriteCacheManager → WriteCacheManager
account n c = record c { accounted_bytes = (c.accounted_bytes + n) % u64_mod }

unfoldable pub discount : ℕ → WriteCacheManager → WriteCacheManager
discount n c = record c { accounted_bytes = (c.accounted_bytes + u64_mod - n % u64_mod) % u64_mod }

-- The counter follows a change of one entry's share.
unfoldable pub reaccount : ℕ → ℕ → WriteCacheManager → WriteCacheManager
unfolding account discount
reaccount previous new c =
    if leb previous new then account (new - previous) c else discount (previous - new) c

-- A change of one record under its lock.
unfoldable pub with_record :
    ℕ → (PendingWriteRecord → PendingWriteRecord) → WriteCacheManager → WriteCacheManager
with_record id f c = elim (get_elem? c.records id) [
  | none ↦ c
  | some r ↦ record c { records = set c.records id (f r) }
]

-- A blob counts against the capacity where the backend keeps it.
unfoldable pub accounted_bytes_for_blob : WriteCacheBackend → PendingWriteRecord → ℕ
accounted_bytes_for_blob backend r = elim backend [
  | memory ↦ elim r.blob [ bytes b ↦ r.size | disk p ↦ 0 ]
  | local_dir ↦ elim r.blob [ bytes b ↦ 0 | disk p ↦ r.size ]
]

unfoldable pub should_cache : WriteCacheManager → Text → ℕ → Bool
should_cache c logical_path size =
    c.enabled
    && allows c.policy logical_path
    && ltb 0 size
    && leb size c.max_file_size_bytes
    && leb size c.capacity_bytes

-- `delay.clamp(lo, hi)`.
abbrev pub clamp : ℕ → ℕ → ℕ → ℕ
clamp lo hi x = min (max x lo) hi

-- The wait before the next attempt: the interval doubles with each failure, six times at most.
unfoldable pub retry_delay_secs : ℕ → ℕ → Bool → ℕ
retry_delay_secs flush_interval_ms retry_count abnormal_logged =
    let base = max (flush_interval_ms / 1000) 1 in
    let delay = min (base * 2 ^ min (retry_count - 1) 6) (2 ^ 63 - 1) in
    if abnormal_logged then clamp 5 300 delay else clamp 1 60 delay

unfoldable pub file_info_from_pending : Text → ℕ → ℕ → VfsFileInfo
unfolding path_file_name
file_info_from_pending path size modified_at = record {
  name = elim (path_file_name path) [ none ↦ path | some name ↦ name ];
  path = path;
  is_dir = false;
  size = size;
  modified = some modified_at;
  favorite_color = 0;
  has_active_share = none;
  has_active_direct = none;
  trashed_at = none;
  original_path = none;
}

unfoldable pub read_blob_bytes : WriteCacheManager → PendingWriteBlob → Option Text
read_blob_bytes c (bytes content) = some content
read_blob_bytes c (disk path) = Table.lookup path c.blob_files

unfoldable pub remove_blob : PendingWriteBlob → WriteCacheManager → WriteCacheManager
remove_blob (bytes content) c = c
remove_blob (disk path) c = record c { blob_files = Table.remove path c.blob_files }

abbrev pub record_of : WriteCacheManager → Text → Option PendingWriteRecord
record_of c path = elim (Table.lookup path c.entries) [
  | none ↦ none
  | some id ↦ get_elem? c.records id
]

unfoldable pub pending_stat : Text → WriteCacheManager → Option VfsFileInfo
unfolding file_info_from_pending
pending_stat path c = elim (record_of c path) [
  | none ↦ none
  | some r ↦ some (file_info_from_pending path r.size r.modified_at)
]

abbrev with_info : Text → PendingWriteRecord → Option Text → Option (Text × VfsFileInfo)
with_info path r none = none
with_info path r (some content) = some (content, file_info_from_pending path r.size r.modified_at)

unfoldable pub pending_read : Text → WriteCacheManager → Option (Text × VfsFileInfo)
unfolding file_info_from_pending read_blob_bytes
pending_read path c = elim (record_of c path) [
  | none ↦ none
  | some r ↦ with_info path r (read_blob_bytes c r.blob)
]

abbrev pub is_flushing : PendingWriteState → Bool
is_flushing flushing = true
is_flushing _ = false

unfoldable pub is_due_for_background_flush : ℕ → PendingWriteRecord → Bool
is_due_for_background_flush now r = not (is_flushing r.state) && leb r.next_retry_at now

-- The infos of the writes that wait in a directory.
unfoldable pub children_of : Text → Table ℕ → List PendingWriteRecord → List VfsFileInfo
unfolding file_info_from_pending
children_of parent [] records = []
children_of parent ((path, id) ∷ entries) records =
    let rest = children_of parent entries records in
    elim (get_elem? records id) [
      | none ↦ rest
      | some r ↦
          if text_eq r.parent_physical_path parent
          then file_info_from_pending r.physical_path r.size r.modified_at ∷ rest
          else rest
    ]

unfoldable pub pending_children : Text → WriteCacheManager → List VfsFileInfo
unfolding children_of
pending_children parent_physical_path c = children_of parent_physical_path c.entries c.records
