-- ===== src/Cache/WriteCache/Enqueue/Failed.antt =====
-- src/vfs/cache/write_cache.rs: an update whose content the local disk does not take.
use yh_filemanager_vfs_stora.Prelude.{
  ℕ, ◌≡◌, refl, ◌∙◌, ap, false, none, some, err, get_elem?, length,
}
use yh_filemanager_vfs_stora.Prelude.Int.{time_after}
use yh_filemanager_vfs_stora.Prelude.Text.{Text}
use yh_filemanager_vfs_stora.Prelude.Table
use yh_filemanager_vfs_stora.Cache.ReadCache.{DiskReply}
use yh_filemanager_vfs_stora.Cache.WriteCache.{
  WriteCacheManager, PendingWriteRecord, PendingWriteBlob, disk, with_record, read_blob_bytes,
  pending_read, file_info_from_pending,
}
use yh_filemanager_vfs_stora.Cache.WriteCache.Heap.{
  get_elem?-with_record, with_record_core, read_blob_bytes_same,
}
use yh_filemanager_vfs_stora.Cache.WriteCache.Enqueue.{
  EnqueueRequest, EnqueueReply, begin_update, update_existing_entry, stage, store_staged_blob,
  write_file, plan_of, io_error, is_spilled, staged_path, base_dir,
}
use yh_filemanager_vfs_stora.Cache.WriteCache.Enqueue.Staged.{pending_read_found}

write_file_failed :
    (path content : Text) (reply : DiskReply) (c : WriteCacheManager)
    → reply.data_written ≡ false
    → write_file path content reply c ≡ (none, c)
unfolding write_file
write_file_failed path content reply c failed = rw (failed, write_file) refl

module _ (h : Text → Text) where
  stage_failed :
      (id : ℕ) (blob : PendingWriteBlob) (path : Text) (q : EnqueueRequest) (a : EnqueueReply)
      (c d : WriteCacheManager)
      → blob ≡ disk path
      → a.disk_reply.data_written ≡ false
      → stage h (plan_of d d.backend blob) q a c ≡ (none, c)
  unfolding stage plan_of store_staged_blob
  stage_failed id blob path q a c d e failed =
      rw (e, stage)
        (write_file_failed
          (staged_path h (base_dir (is_spilled d (disk path)) c) q.physical_path a.unique_name)
          q.content a.disk_reply c failed)

  -- An update of an entry whose blob is on the disk, where the disk does not take the new content:
  -- an error is returned, but the old content is read from now on with the size and the time of
  -- the refused one, and the counter of bytes still has the old size.
  pub update_existing_entry_failed :
      (id : ℕ) (r : PendingWriteRecord) (path old : Text) (q : EnqueueRequest) (a : EnqueueReply)
      (c : WriteCacheManager)
      → get_elem? c.records id ≡ some r
      → Table.lookup q.physical_path c.entries ≡ some id
      → r.blob ≡ disk path
      → read_blob_bytes c r.blob ≡ some old
      → a.disk_reply.data_written ≡ false
      → let (e, c') = update_existing_entry h id r q a c in
        (e ≡ err io_error)
        × (pending_read q.physical_path c'
            ≡ some (old, file_info_from_pending q.physical_path (length q.content) a.modified_at))
        × (c'.accounted_bytes ≡ c.accounted_bytes)
  unfolding update_existing_entry begin_update
  update_existing_entry_failed id r path old q a c here there on_disk readable failed =
      let r' =
        begin_update (length q.content) a.modified_at
          (time_after a.modified_at c.flush_deadline_secs) r in
      let begun = with_record id (λ _. r') c in
      let same = with_record_core id (λ _. r') c in
      rw (stage_failed id r.blob path q a begun c on_disk failed, update_existing_entry)
        (
          refl,
          pending_read_found q.physical_path id r' old begun
              (ap (Table.lookup q.physical_path) same.0 ∙ there)
              (get_elem?-with_record id (λ _. r') r c here)
              (read_blob_bytes_same r.blob begun c same.3 ∙ readable),
          same.1,
        )
