-- ===== src/Cache/WriteCache/Tasks.antt =====
-- src/vfs/cache/write_cache.rs: the marks of dirty paths, and the tasks that bring the index and
-- the quotas up to date later. The update of a user's used storage
-- (src/business/services/user_settings.rs) is a parameter by its answer.
pub mod Laws
use yh_filemanager_vfs_stora.Prelude.{
  ℕ, ◌+◌, min, Bool, true, false, ◌&&◌, ◌||◌, Option, none, some, List, [], ◌∷◌, ◌++◌, ◌==◌,
  if◌then◌else◌,
}
use yh_filemanager_vfs_stora.Prelude.Int.{ℤ, pos, negsuc, ◌+ℤ◌, wrap_i64}
use yh_filemanager_vfs_stora.Prelude.Text.{
  Text, codes, text_eq, contains, strip_prefix, trim_start_matches, trim_end_matches,
}
use yh_filemanager_vfs_stora.Prelude.FilePath.{parent_or_root}
use yh_filemanager_vfs_stora.Prelude.Table.{Table}
use yh_filemanager_vfs_stora.Prelude.Table
use yh_filemanager_vfs_stora.Types.{VfsFileInfo}
use yh_filemanager_vfs_stora.Cache.Policy.{allows}
use yh_filemanager_vfs_stora.Cache.WriteCache.{
  WriteCacheManager, PendingWriteRecord, DirectoryIndexSyncTask, UserQuotaSyncTask, u32_max,
  retry_delay_secs, file_info_from_pending,
}

abbrev task_key : Text → Text → Text
task_key user_id logical_parent_path = user_id ++ (0xa ∷ logical_parent_path)

unfoldable pub mark_dirty : Text → Text → Text → ℕ → WriteCacheManager → WriteCacheManager
unfolding parent_or_root
mark_dirty logical_path physical_path user_id now c =
    let logical_parent_path = parent_or_root logical_path in
    let physical_parent_path = parent_or_root physical_path in
    record c {
      dirty_paths = Table.insert physical_path tt c.dirty_paths;
      dirty_dirs = Table.insert physical_parent_path tt c.dirty_dirs;
      index_sync_dirs =
          Table.insert (task_key user_id logical_parent_path)
            (record {
              user_id = user_id;
              logical_parent_path = logical_parent_path;
              physical_parent_path = physical_parent_path;
              next_sync_at = now + 1;
              retry_count = 0;
            })
            c.index_sync_dirs;
    }

-- The task of a directory, new or as it was with its time set anew.
abbrev renewed_task :
    PendingWriteRecord → ℕ → Option DirectoryIndexSyncTask → DirectoryIndexSyncTask
renewed_task r next_sync_at (some task) = record task {
  next_sync_at = next_sync_at;
  retry_count = 0;
}
renewed_task r next_sync_at none = record {
  user_id = r.user_id;
  logical_parent_path = parent_or_root r.logical_path;
  physical_parent_path = parent_or_root r.physical_path;
  next_sync_at = next_sync_at;
  retry_count = 0;
}

unfoldable pub schedule_index_sync : PendingWriteRecord → ℕ → WriteCacheManager → WriteCacheManager
schedule_index_sync r now c =
    if allows c.policy r.logical_path
    then (let key = task_key r.user_id (parent_or_root r.logical_path) in
        record c {
          index_sync_dirs =
              Table.insert key (renewed_task r (now + 1) (Table.lookup key c.index_sync_dirs))
                c.index_sync_dirs;
        })
    else c

unfoldable pub is_zero : ℤ → Bool
is_zero (pos n) = n == 0
is_zero (negsuc n) = false

-- Thumbnails do not count against a quota.
unfoldable pub is_exempt : Text → Bool
is_exempt logical_path =
    contains logical_path (codes "/.thumbs") || contains logical_path (codes "/.thumbs_cache")

-- The task with its change added, as an `i64` that wraps around: one whose changes cancel out is
-- dropped.
abbrev pub add_delta : Text → ℤ → ℕ → Option UserQuotaSyncTask → Option UserQuotaSyncTask
add_delta user_id delta now none =
    some (record { user_id = user_id; delta = delta; next_sync_at = now + 1; retry_count = 0 })
add_delta user_id delta now (some task) =
    if is_zero (wrap_i64 (task.delta +ℤ delta))
    then none
    else some (record task {
      delta = wrap_i64 (task.delta +ℤ delta);
      next_sync_at = now + 1;
      retry_count = 0;
    })

abbrev pub put_task :
    Text → Option UserQuotaSyncTask → Table UserQuotaSyncTask → Table UserQuotaSyncTask
put_task user_id none tasks = Table.remove user_id tasks
put_task user_id (some task) tasks = Table.insert user_id task tasks

unfoldable pub schedule_quota_sync : Text → Text → ℤ → ℕ → WriteCacheManager → WriteCacheManager
unfolding is_zero is_exempt
schedule_quota_sync user_id logical_path delta now c =
    if is_zero delta || is_exempt logical_path then c else record c {
      quota_sync_users =
          put_task user_id (add_delta user_id delta now (Table.lookup user_id c.quota_sync_users))
            c.quota_sync_users;
    }

abbrev pub delta_of : Option UserQuotaSyncTask → ℤ
delta_of none = pos 0
delta_of (some task) = task.delta

unfoldable pub pending_quota_delta : Text → WriteCacheManager → ℤ
pending_quota_delta user_id c = delta_of (Table.lookup user_id c.quota_sync_users)

-- The task that is to be tried again, beside what was scheduled meanwhile.
abbrev pub retried_task :
    WriteCacheManager → UserQuotaSyncTask → ℕ → Option UserQuotaSyncTask → UserQuotaSyncTask
retried_task c task now (some current) =
    let count = min (current.retry_count + 1) u32_max in
    record current {
      delta = wrap_i64 (current.delta +ℤ task.delta);
      next_sync_at = now + retry_delay_secs c.flush_interval_ms count false;
      retry_count = count;
    }
retried_task c task now none =
    let count = min (task.retry_count + 1) u32_max in
    record {
      user_id = task.user_id;
      delta = task.delta;
      next_sync_at = now + retry_delay_secs c.flush_interval_ms count false;
      retry_count = count;
    }

-- A task that the worker has taken out of the map; `updated` is the answer of
-- `update_storage_used`, which is called where there is a change to write.
unfoldable pub sync_user_quota :
    Text → UserQuotaSyncTask → Bool → ℕ → WriteCacheManager → Bool × WriteCacheManager
unfolding is_zero
sync_user_quota user_key task updated now c =
    if is_zero task.delta then (true, c) else if updated then (true, c) else (
      false,
      record c {
        quota_sync_users =
            Table.insert user_key
              (retried_task c task now (Table.lookup user_key c.quota_sync_users))
              c.quota_sync_users;
      },
    )

abbrev pub is_dirty_path : Text → WriteCacheManager → Bool
is_dirty_path physical_path c = Table.contains_key physical_path c.dirty_paths

abbrev pub is_dirty_dir : Text → WriteCacheManager → Bool
is_dirty_dir parent_physical_path c = Table.contains_key parent_physical_path c.dirty_dirs

unfoldable pub keep_outside : Text → Table (Unit {0}) → Table (Unit {0})
unfolding parent_or_root
keep_outside parent [] = []
keep_outside parent ((path, u) ∷ paths) =
    let rest = keep_outside parent paths in
    if text_eq (parent_or_root path) parent then rest else (path, u) ∷ rest

unfoldable pub clear_dirty_markers : Text → WriteCacheManager → WriteCacheManager
unfolding keep_outside
clear_dirty_markers physical_parent_path c = record c {
  dirty_dirs = Table.remove physical_parent_path c.dirty_dirs;
  dirty_paths = keep_outside physical_parent_path c.dirty_paths;
}

abbrev logical_of : Option Text → Option Text
logical_of none = none
logical_of (some stripped) = some (trim_end_matches b'/' (b'/' ∷ trim_start_matches b'/' stripped))

unfoldable pub physical_to_logical_path : Text → Text → Option Text
physical_to_logical_path user_id physical_path =
    if text_eq physical_path user_id
    then some (codes "/")
    else logical_of (strip_prefix physical_path (user_id ++ codes "/"))
