-- ===== src/Cache/WriteCache/Enqueue.antt =====
-- `enqueue` and what it calls in src/vfs/cache/write_cache.rs. What happens between two times that
-- the lock of a record is held is one function each, so that other calls can come between. The
-- clock, the unique part of a name and the answers of the local disk are arguments.
pub mod Staged
pub mod Reads
pub mod Failed
use yh_filemanager_vfs_stora.Prelude.{
  ℕ, suc, ◌+◌, ◌-◌, min, Bool, true, false, not, ◌&&◌, Option, none, some, Result, ok, err, List,
  [], ◌∷◌, ◌++◌, length, get_elem?, leb, ◌==◌, if◌then◌else◌,
}
use yh_filemanager_vfs_stora.Prelude.Text.{Text, codes}
use yh_filemanager_vfs_stora.Prelude.FilePath.{parent_or_root, path_starts_with}
use yh_filemanager_vfs_stora.Prelude.Table
use yh_filemanager_vfs_stora.Prelude.Int.{time_after}
use yh_filemanager_vfs_stora.Types.{VfsFileInfo}
use yh_filemanager_vfs_stora.Cache.ReadCache.{DiskReply}
use yh_filemanager_vfs_stora.Cache.ReadCache
use yh_filemanager_vfs_stora.Cache.WriteCache.{
  WriteCacheManager, WriteCacheBackend, memory, local_dir, PendingWriteRecord, PendingWriteBlob,
  bytes, disk, pending, abnormal, u64_max, account, reaccount, with_record,
  accounted_bytes_for_blob, should_cache, file_info_from_pending, remove_blob, record_of,
}
use yh_filemanager_vfs_stora.Cache.WriteCache.Tasks.{mark_dirty}

-- What a caller gives, and what the call finds outside: the times, a fresh name, and whether the
-- disk takes the blob and its meta file.
pub record EnqueueRequest : Type 0 where
  pub user_id : Text
  pub logical_path : Text
  pub physical_path : Text
  pub content : Text

pub record EnqueueReply : Type 0 where
  pub modified_at : ℕ
  pub marked_at : ℕ
  pub unique_name : Text
  pub disk_reply : DiskReply

abbrev pub io_error : Text
io_error = codes "input or output error"

-- `used.saturating_sub(existing).saturating_add(new_size) <= capacity_bytes`.
unfoldable pub can_admit : Text → ℕ → WriteCacheManager → Bool
unfolding accounted_bytes_for_blob
can_admit physical_path new_size c =
    let existing_accounted : ℕ = elim (record_of c physical_path) [
      | none ↦ 0
      | some r ↦ accounted_bytes_for_blob c.backend r
    ] in
    leb (min ((c.accounted_bytes - existing_accounted) + new_size) u64_max) c.capacity_bytes

-- The blob's file and its meta file. One that was written before a failure stays.
unfoldable pub write_file :
    Text → Text → DiskReply → WriteCacheManager → Option PendingWriteBlob × WriteCacheManager
write_file path content reply c =
    let c' =
      if reply.data_written
      then record c { blob_files = Table.insert path content c.blob_files }
      else c in
    (if reply.data_written && reply.meta_written then some (disk path) else none, c')

abbrev pub base_dir : Bool → WriteCacheManager → Text
base_dir spilled c = if spilled then c.abnormal_dir else c.queue_dir

pub data PendingWriteUpdatePlan : Type 0 where
  in_memory : PendingWriteUpdatePlan
  stage_disk : Bool → PendingWriteUpdatePlan

unfoldable pub is_spilled : WriteCacheManager → PendingWriteBlob → Bool
unfolding path_starts_with
is_spilled c (bytes content) = false
is_spilled c (disk path) = path_starts_with path c.abnormal_dir

unfoldable pub plan_of :
    WriteCacheManager → WriteCacheBackend → PendingWriteBlob → PendingWriteUpdatePlan
unfolding is_spilled
plan_of c memory (bytes content) = in_memory
plan_of c local_dir (bytes content) = stage_disk false
plan_of c backend (disk path) = stage_disk (is_spilled c (disk path))

-- What an update writes into the record at once, under its first lock.
unfoldable pub begin_update : ℕ → ℕ → ℕ → PendingWriteRecord → PendingWriteRecord
begin_update size modified_at deadline_at r = record r {
  generation = min (r.generation + 1) u64_max;
  size = size;
  modified_at = modified_at;
  deadline_at = deadline_at;
  next_retry_at = modified_at;
  state = if r.abnormal_logged then abnormal else pending;
  last_error = none;
}

-- Under the second lock: the staged blob replaces the old one, unless a newer update has begun
-- since, which makes the staged one superfluous.
unfoldable pub finish_update : ℕ → ℕ → ℕ → PendingWriteBlob → WriteCacheManager → WriteCacheManager
unfolding reaccount with_record accounted_bytes_for_blob remove_blob
finish_update id generation previous_accounted staged c = elim (get_elem? c.records id) [
  | none ↦ c
  | some r ↦
      if r.generation == generation
      then remove_blob r.blob (
          reaccount previous_accounted
            (accounted_bytes_for_blob c.backend (record r { blob = staged }))
            (with_record id (λ r. record r { blob = staged }) c))
      else remove_blob staged c
]

module _ (cache_hash : Text → Text) where
  unfoldable pub data_path : Text → Text → Text
  data_path root_dir key = root_dir ++ (b'/' ∷ (cache_hash key ++ codes ".bin"))

  unfoldable pub staged_path : Text → Text → Text → Text
  staged_path root_dir key unique_name =
      root_dir ++ (b'/' ∷ (cache_hash key ++ (b'-' ∷ (unique_name ++ codes ".bin"))))

  unfoldable pub store_blob :
      Text
      → Text
      → DiskReply
      → WriteCacheBackend
      → WriteCacheManager
      → Option PendingWriteBlob × WriteCacheManager
  unfolding write_file data_path
  store_blob physical_path content reply memory c = (some (bytes content), c)
  store_blob physical_path content reply local_dir c =
      write_file (data_path c.queue_dir physical_path) content reply c

  unfoldable pub store_staged_blob :
      Bool
      → Text
      → Text
      → Text
      → DiskReply
      → WriteCacheManager
      → Option PendingWriteBlob × WriteCacheManager
  unfolding write_file staged_path
  store_staged_blob spilled physical_path unique_name content reply c =
      write_file (staged_path (base_dir spilled c) physical_path unique_name) content reply c

  unfoldable pub stage :
      PendingWriteUpdatePlan
      → EnqueueRequest
      → EnqueueReply
      → WriteCacheManager
      → Option PendingWriteBlob × WriteCacheManager
  unfolding store_staged_blob
  stage in_memory q a c = (some (bytes q.content), c)
  stage (stage_disk spilled) q a c =
      store_staged_blob spilled q.physical_path a.unique_name q.content a.disk_reply c

  abbrev pub finish_staged :
      ℕ
      → ℕ
      → ℕ
      → Option PendingWriteBlob × WriteCacheManager
      → Result Text (Unit {0}) × WriteCacheManager
  finish_staged id generation previous_accounted (none, c) = (err io_error, c)
  finish_staged id generation previous_accounted (some staged, c) =
      (ok tt, finish_update id generation previous_accounted staged c)

  unfoldable pub update_existing_entry :
      ℕ
      → PendingWriteRecord
      → EnqueueRequest
      → EnqueueReply
      → WriteCacheManager
      → Result Text (Unit {0}) × WriteCacheManager
  unfolding begin_update with_record plan_of stage finish_update accounted_bytes_for_blob
  update_existing_entry id r q a c =
      let r' =
        begin_update (length q.content) a.modified_at
          (time_after a.modified_at c.flush_deadline_secs) r in
      let begun = with_record id (λ _. r') c in
      finish_staged id r'.generation (accounted_bytes_for_blob c.backend r)
        (stage (plan_of c c.backend r.blob) q a begun)

  abbrev pub new_record : EnqueueRequest → EnqueueReply → ℕ → PendingWriteBlob → PendingWriteRecord
  new_record q a deadline_at blob = record {
    user_id = q.user_id;
    logical_path = q.logical_path;
    physical_path = q.physical_path;
    parent_physical_path = parent_or_root q.physical_path;
    blob = blob;
    size = length q.content;
    modified_at = a.modified_at;
    deadline_at = deadline_at;
    next_retry_at = a.modified_at;
    generation = 1;
    retry_count = 0;
    state = pending;
    abnormal_logged = false;
    last_error = none;
  }

  -- A record joins the heap, and its path leads to it.
  unfoldable pub insert_entry : PendingWriteRecord → WriteCacheManager → WriteCacheManager
  unfolding account accounted_bytes_for_blob
  insert_entry r c =
      let c' = account (accounted_bytes_for_blob c.backend r) c in
      record c' {
        records = c.records ++ (r ∷ []);
        entries = Table.insert r.physical_path (length c.records) c.entries;
      }

  abbrev pub accept_new :
      EnqueueRequest
      → EnqueueReply
      → Option PendingWriteBlob × WriteCacheManager
      → Result Text (Option VfsFileInfo) × WriteCacheManager
  accept_new q a (none, c) = (err io_error, c)
  accept_new q a (some blob, c) = (
    ok (some (file_info_from_pending q.physical_path (length q.content) a.modified_at)),
    mark_dirty q.logical_path q.physical_path q.user_id a.marked_at
        (insert_entry (new_record q a (time_after a.modified_at c.flush_deadline_secs) blob) c),
  )

  abbrev pub size_of : Option PendingWriteRecord → ℕ
  size_of none = 0
  size_of (some r) = r.size

  abbrev pub accept_update :
      ℕ
      → EnqueueRequest
      → EnqueueReply
      → Result Text (Unit {0}) × WriteCacheManager
      → Result Text (Option VfsFileInfo) × WriteCacheManager
  accept_update id q a (err e, c) = (err e, c)
  accept_update id q a (ok done, c) = (
    ok (
        some (
          file_info_from_pending q.physical_path (size_of (get_elem? c.records id)) a.modified_at)),
    mark_dirty q.logical_path q.physical_path q.user_id a.marked_at c,
  )

  abbrev pub forget_read : Text → WriteCacheManager → WriteCacheManager
  forget_read physical_path c = elim c.read_cache [
    | none ↦ c
    | some cache ↦ record c { read_cache = some (ReadCache.remove cache_hash physical_path cache) }
  ]

  unfoldable pub admit_entry :
      EnqueueRequest
      → EnqueueReply
      → WriteCacheManager
      → Result Text (Option VfsFileInfo) × WriteCacheManager
  unfolding update_existing_entry store_blob insert_entry
  admit_entry q a c = elim (Table.lookup q.physical_path c.entries) [
    | some id ↦ elim (get_elem? c.records id) [
      | some r ↦ accept_update id q a (update_existing_entry id r q a c)
      | none ↦ (ok none, c)
    ]
    | none ↦ accept_new q a (store_blob q.physical_path q.content a.disk_reply c.backend c)
  ]

  unfoldable pub enqueue :
      EnqueueRequest
      → EnqueueReply
      → WriteCacheManager
      → Result Text (Option VfsFileInfo) × WriteCacheManager
  unfolding should_cache can_admit admit_entry
  enqueue q a c =
      if not (should_cache c q.logical_path (length q.content))
      then (ok none, c)
      else (let c' = forget_read q.physical_path c in
          if not (can_admit q.physical_path (length q.content) c')
          then (ok none, c')
          else admit_entry q a c')
