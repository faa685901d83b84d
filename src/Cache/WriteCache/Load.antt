-- ===== src/Cache/WriteCache/Load.antt =====
-- `load_existing_entries` of src/vfs/cache/write_cache.rs: at a start, the writes that were waiting
-- on the local disk wait again. A meta file is modelled by the record that its JSON holds, `none`
-- where it cannot be read; the removal of a meta file without its blob is left out.
use yh_filemanager_vfs_stora.Prelude.{
  ℕ, ◌≡◌, ◌∙◌, Bool, true, false, not, Option, none, some, List, [], ◌∷◌, get_elem?-append_last,
  arith, length, if◌then◌else◌,
}
use yh_filemanager_vfs_stora.Prelude.Text.{Text, text_eq_refl}
use yh_filemanager_vfs_stora.Prelude.FilePath.{parent_or_root}
use yh_filemanager_vfs_stora.Prelude.Table.{Table, lookup-insert}
use yh_filemanager_vfs_stora.Prelude.Table
use yh_filemanager_vfs_stora.Cache.WriteCache.{
  WriteCacheManager, WriteCacheBackend, memory, local_dir, PendingWriteRecord, disk, pending,
  abnormal, account, pending_read, file_info_from_pending, read_blob_bytes,
}
use yh_filemanager_vfs_stora.Cache.WriteCache.Tasks.{mark_dirty}
use yh_filemanager_vfs_stora.Cache.WriteCache.Enqueue.{data_path, insert_entry}
use yh_filemanager_vfs_stora.Cache.WriteCache.Enqueue.Staged.{pending_read_found}

pub record PendingWriteDiskMeta : Type 0 where
  pub user_id : Text
  pub logical_path : Text
  pub physical_path : Text
  pub blob_path : Option Text
  pub size : ℕ
  pub modified_at : ℕ
  pub deadline_at : ℕ
  pub generation : ℕ
  pub spilled : Bool

module _ (cache_hash : Text → Text) where
  abbrev pub blob_path_of : Text → PendingWriteDiskMeta → Text
  blob_path_of dir meta_file = elim meta_file.blob_path [
    | none ↦ data_path cache_hash dir meta_file.physical_path
    | some path ↦ path
  ]

  abbrev pub loaded_record : Text → Bool → ℕ → PendingWriteDiskMeta → PendingWriteRecord
  loaded_record dir spilled now m = record {
    user_id = m.user_id;
    logical_path = m.logical_path;
    physical_path = m.physical_path;
    parent_physical_path = parent_or_root m.physical_path;
    blob = disk (blob_path_of dir m);
    size = m.size;
    modified_at = m.modified_at;
    deadline_at = m.deadline_at;
    next_retry_at = now;
    generation = m.generation;
    retry_count = 0;
    state = if spilled then abnormal else pending;
    abnormal_logged = spilled;
    last_error = none;
  }

  unfoldable pub load_entry :
      Text → Bool → ℕ → Option PendingWriteDiskMeta → WriteCacheManager → WriteCacheManager
  unfolding mark_dirty insert_entry data_path
  load_entry dir spilled now none c = c
  load_entry dir spilled now (some m) c =
      if Table.contains_key (blob_path_of dir m) c.blob_files
      then mark_dirty m.logical_path m.physical_path m.user_id now
          (insert_entry cache_hash (loaded_record dir spilled now m) c)
      else c

  unfoldable pub load_entries_from_dir :
      Text → Bool → ℕ → List (Option PendingWriteDiskMeta) → WriteCacheManager → WriteCacheManager
  unfolding load_entry
  load_entries_from_dir dir spilled now [] c = c
  load_entries_from_dir dir spilled now (m ∷ ms) c =
      load_entries_from_dir dir spilled now ms (load_entry dir spilled now m c)

  abbrev pub is_local_dir : WriteCacheBackend → Bool
  is_local_dir memory = false
  is_local_dir local_dir = true

  unfoldable pub load_existing_entries :
      ℕ
      → List (Option PendingWriteDiskMeta)
      → List (Option PendingWriteDiskMeta)
      → WriteCacheManager
      → WriteCacheManager
  unfolding load_entries_from_dir
  load_existing_entries now queued spilled c =
      if not c.enabled
      then c
      else (let c' =
            if is_local_dir c.backend
            then load_entries_from_dir c.queue_dir false now queued c
            else c in
          load_entries_from_dir c.abnormal_dir true now spilled c')

  -- A waiting write whose blob is on the local disk is read again after it was loaded, whether it
  -- was queued or spilled, with the size and the time of its meta file.
  pub pending_read-load_entry :
      (dir : Text) (spilled : Bool) (now : ℕ) (m : PendingWriteDiskMeta) (content : Text)
      (c : WriteCacheManager)
      → Table.lookup (blob_path_of dir m) c.blob_files ≡ some content
      → pending_read m.physical_path (load_entry dir spilled now (some m) c)
        ≡ some (content, file_info_from_pending m.physical_path m.size m.modified_at)
  unfolding load_entry mark_dirty insert_entry account read_blob_bytes
  pending_read-load_entry dir spilled now m content c there =
      let r = loaded_record dir spilled now m in
      let last =
        mark_dirty m.logical_path m.physical_path m.user_id now (insert_entry cache_hash r c) in
      rw (there, load_entry)
        (pending_read_found m.physical_path (length c.records) r content last
          (lookup-insert m.physical_path m.physical_path (length c.records) c.entries
            ∙ ground (arith, text_eq_refl m.physical_path))
          (get_elem?-append_last c.records r) there)
