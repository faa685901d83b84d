-- ===== src/Cache/WriteCache/Tests.antt =====
-- Concrete runs of the write cache, which show that the hypotheses of its theorems can hold.
use yh_filemanager_vfs_stora.Prelude.{
  ℕ, zero, suc, ◌+◌, ◌≤◌, ◌≡◌, ◌≢◌, refl, true, false, none, some, ok, err, [], ◌∷◌, get_elem?,
  arith,
}
use yh_filemanager_vfs_stora.Prelude.Int.{negsuc, ◌+ℤ◌, wrap_i64}
use yh_filemanager_vfs_stora.Prelude.Text.{
  Text, codes, text_eq, starts_with, ends_with, contains, trim_end_by, rsplit_once,
}
use yh_filemanager_vfs_stora.Prelude.Table
use yh_filemanager_vfs_stora.Types.{VfsFileInfo}
use yh_filemanager_vfs_stora.Cache.Policy.{
  allows, is_temp_namespace_path, is_recycle_bin_path, is_thumbnail_path, extension_allowed,
  normalized_file_extension,
}
use yh_filemanager_vfs_stora.Cache.ReadCache.{DiskReply}
use yh_filemanager_vfs_stora.Cache.WriteCache.{
  WriteCacheManager, PendingWriteRecord, PendingWriteBlob, bytes, disk, memory, pending,
  pending_read, should_cache, file_info_from_pending, accounted_bytes_for_blob, read_blob_bytes,
  UserQuotaSyncTask,
}
use yh_filemanager_vfs_stora.Cache.WriteCache.{is_flushing}
use yh_filemanager_vfs_stora.Cache.WriteCache.Tasks.{
  is_exempt, schedule_quota_sync, pending_quota_delta, sync_user_quota,
}
use yh_filemanager_vfs_stora.Cache.WriteCache.Tasks.Laws.{
  pending_quota_delta-schedule_quota_sync, pending_quota_delta-sync_user_quota,
}
use yh_filemanager_vfs_stora.Cache.WriteCache.Enqueue.{
  EnqueueRequest, EnqueueReply, enqueue, can_admit, admit_entry, update_existing_entry, staged_path,
  begin_update, io_error,
}
use yh_filemanager_vfs_stora.Cache.WriteCache.Enqueue.Reads.{pending_read-enqueue}
use yh_filemanager_vfs_stora.Cache.WriteCache.Flush.{
  FlushReply, flush_entry, close_record, retire_entry, flush_due,
}
use yh_filemanager_vfs_stora.Cache.WriteCache.Flush.Stuck.{close_record_newer}
use yh_filemanager_vfs_stora.Cache.WriteCache.Flush.Refused.{flush_entry_refused}
use yh_filemanager_vfs_stora.Cache.WriteCache.Enqueue.Failed.{update_existing_entry_failed}
use yh_filemanager_vfs_stora.Cache.WriteCache.Flush.Success.{flush_entry_written}
use yh_filemanager_vfs_stora.Cache.WriteCache.Flush.LostUpdate.{enqueue_lost}
use yh_filemanager_vfs_stora.Cache.WriteCache.Load.{
  PendingWriteDiskMeta, load_entry, pending_read-load_entry,
}

abbrev same_text : Text → Text
same_text key = key

abbrev path : Text
path = codes "u/a"

abbrev waiting : PendingWriteBlob → PendingWriteRecord
waiting blob = record {
  user_id = codes "u";
  logical_path = codes "/a";
  physical_path = path;
  parent_physical_path = codes "u";
  blob = blob;
  size = 3;
  modified_at = 5;
  deadline_at = 50;
  next_retry_at = 5;
  generation = 1;
  retry_count = 0;
  state = pending;
  abnormal_logged = false;
  last_error = none;
}

abbrev cache : PendingWriteBlob → WriteCacheManager
cache blob = record {
  enabled = true;
  backend = memory;
  queue_dir = codes "q";
  abnormal_dir = codes "x";
  capacity_bytes = 10;
  max_file_size_bytes = 10;
  flush_interval_ms = 2000;
  flush_deadline_secs = 45;
  policy = record { allow_thumbnail_paths = false; skip_extensions = [] };
  accounted_bytes = 3;
  entries = (path, 0) ∷ [];
  records = waiting blob ∷ [];
  dirty_paths = [];
  dirty_dirs = [];
  index_sync_dirs = [];
  quota_sync_users = [];
  read_cache = none;
  primary = [];
  blob_files = (codes "q/b.bin", codes "old") ∷ [];
}

abbrev in_mem : WriteCacheManager
in_mem = cache (bytes (codes "old"))

abbrev request : EnqueueRequest
request = record {
  user_id = codes "u";
  logical_path = codes "/a";
  physical_path = path;
  content = codes "new!";
}

abbrev taken : DiskReply
taken = record { data_written = true; meta_written = true }

abbrev reply : EnqueueReply
reply = record { modified_at = 8; marked_at = 8; unique_name = codes "1"; disk_reply = taken }

abbrev flush_reply : FlushReply
flush_reply = record {
  started_at = 9;
  stat_before = true;
  write_error = none;
  failed_at = 9;
  stat_after = true;
  last_modified = none;
  finished_at = 9;
  unique_name = codes "2";
  disk_reply = taken;
}

not_staged :
    (id : ℕ) (r : PendingWriteRecord) (dir : Text)
    → get_elem? in_mem.records id ≡ some r
    → r.blob ≢ disk (staged_path same_text dir path (codes "1"))
not_staged zero r dir e = λ d. absurd (cc)
not_staged (suc id) r dir e = absurd (cc)

abbrev after : WriteCacheManager
after = (enqueue same_text request reply in_mem).1

pending_read-enqueue_example :
    pending_read path after ≡ some (codes "new!", file_info_from_pending path 4 8)
unfolding enqueue should_cache allows is_temp_namespace_path is_recycle_bin_path is_thumbnail_path
    extension_allowed normalized_file_extension rsplit_once text_eq starts_with ends_with contains
    trim_end_by can_admit admit_entry update_existing_entry Table.lookup
pending_read-enqueue_example =
    pending_read-enqueue same_text request reply in_mem (file_info_from_pending path 4 8) after
      not_staged refl

abbrev flushed : WriteCacheManager
flushed = (flush_entry same_text 0 false flush_reply in_mem).1

flush_entry_written_example :
    ((flush_entry same_text 0 false flush_reply in_mem).0 ≡ ok tt)
    × (Table.lookup path flushed.primary ≡ some (codes "old"))
    × (pending_read path flushed ≡ none)
    × (flushed.accounted_bytes + 3 ≡ 3)
unfolding read_blob_bytes accounted_bytes_for_blob
flush_entry_written_example =
    flush_entry_written same_text 0 (waiting (bytes (codes "old"))) (codes "old") false flush_reply
      in_mem refl refl refl refl (omega arith) (omega arith)

abbrev without_blob : WriteCacheManager
without_blob = cache (disk (codes "q/gone.bin"))

abbrev updated_record : PendingWriteRecord
updated_record = record (waiting (bytes (codes "old"))) {
  generation = 2;
  size = 4;
  modified_at = 8;
  deadline_at = 53;
  next_retry_at = 8;
}

abbrev updated_meanwhile : WriteCacheManager
updated_meanwhile = record in_mem { records = updated_record ∷ [] }

close_record_newer_example :
    let (closed, c') = close_record 0 1 9 updated_record updated_meanwhile in
    let due = record updated_record { state = pending; next_retry_at = 9 } in
    (closed ≡ false)
    × (get_elem? c'.records 0 ≡ some due)
    × (flush_due false 9 due ≡ true)
    × (c'.entries ≡ in_mem.entries)
    × (c'.accounted_bytes ≡ 3)
    × (c'.blob_files ≡ in_mem.blob_files)
unfolding begin_update
close_record_newer_example =
    close_record_newer 0 4 8 53 9 (waiting (bytes (codes "old"))) updated_meanwhile (omega arith)
      refl

abbrev old_info : VfsFileInfo
old_info = file_info_from_pending path 3 5

enqueue_lost_example :
    let last =
      retire_entry same_text
        (waiting (bytes (codes "old")))
        (codes "old")
        old_info
        0
        flush_reply
        after in
    (pending_read path after ≡ some (codes "new!", file_info_from_pending path 4 8))
    × (pending_read path last ≡ none)
    × (last.primary ≡ [])
unfolding enqueue should_cache allows is_temp_namespace_path is_recycle_bin_path is_thumbnail_path
    extension_allowed normalized_file_extension rsplit_once text_eq starts_with ends_with contains
    trim_end_by can_admit admit_entry update_existing_entry Table.lookup
enqueue_lost_example =
    enqueue_lost same_text (waiting (bytes (codes "old"))) (codes "old") old_info 0 flush_reply
      request reply in_mem (file_info_from_pending path 4 8) after refl not_staged refl

abbrev quota_task : UserQuotaSyncTask
quota_task = record { user_id = codes "u"; delta = negsuc 1; next_sync_at = 3; retry_count = 0 }

pending_quota_delta-sync_user_quota_example :
    pending_quota_delta (codes "u") (sync_user_quota (codes "u") quota_task false 9 in_mem).1
    ≡ wrap_i64 (pending_quota_delta (codes "u") in_mem +ℤ negsuc 1)
unfolding text_eq pending_quota_delta Table.lookup
pending_quota_delta-sync_user_quota_example =
    pending_quota_delta-sync_user_quota (codes "u") (codes "u") quota_task false 9 in_mem
      (omega arith, omega arith) (omega arith, omega arith)

pending_quota_delta-schedule_quota_sync_example :
    pending_quota_delta
      (codes "u")
      (schedule_quota_sync (codes "u") (codes "/a") (negsuc 1) 9 in_mem)
    ≡ wrap_i64 (pending_quota_delta (codes "u") in_mem +ℤ negsuc 1)
unfolding text_eq pending_quota_delta Table.lookup is_exempt contains starts_with
pending_quota_delta-schedule_quota_sync_example =
    pending_quota_delta-schedule_quota_sync (codes "u") (codes "u") (codes "/a") (negsuc 1) 9 in_mem
      (omega arith, omega arith) (omega arith, omega arith)

abbrev disk_meta : PendingWriteDiskMeta
disk_meta = record {
  user_id = codes "u";
  logical_path = codes "/b";
  physical_path = codes "u/b";
  blob_path = some (codes "q/b.bin");
  size = 3;
  modified_at = 5;
  deadline_at = 50;
  generation = 2;
  spilled = false;
}

pending_read-load_entry_example :
    pending_read (codes "u/b") (load_entry same_text (codes "q") false 9 (some disk_meta) in_mem)
    ≡ some (codes "old", file_info_from_pending (codes "u/b") 3 5)
unfolding Table.lookup text_eq
pending_read-load_entry_example =
    pending_read-load_entry same_text (codes "q") false 9 disk_meta (codes "old") in_mem refl

abbrev refused_reply : FlushReply
refused_reply = record flush_reply { write_error = some (codes "busy") }

flush_entry_refused_example :
    let (e, c') = flush_entry same_text 0 false refused_reply in_mem in
    (e ≡ err (codes "busy"))
    × (pending_read path c' ≡ some (codes "old", file_info_from_pending path 3 5))
    × (c'.primary ≡ [])
    × (c'.accounted_bytes ≡ 3)
    × (r' : PendingWriteRecord) × (get_elem? c'.records 0 ≡ some r')
    × (is_flushing r'.state ≡ false)
    × (9 + 1 ≤ r'.next_retry_at)
    × (r'.next_retry_at ≤ 9 + 300)
unfolding read_blob_bytes Table.lookup text_eq
flush_entry_refused_example =
    flush_entry_refused same_text 0 (waiting (bytes (codes "old"))) path (codes "old")
      (codes "busy") false refused_reply in_mem refl refl refl refl refl (omega arith)

abbrev on_disk : WriteCacheManager
on_disk = cache (disk (codes "q/b.bin"))

abbrev full_disk : EnqueueReply
full_disk = record reply { disk_reply = record { data_written = false; meta_written = false } }

update_existing_entry_failed_example :
    let (e, c') =
      update_existing_entry same_text 0
        (waiting (disk (codes "q/b.bin")))
        request
        full_disk
        on_disk in
    (e ≡ err io_error)
    × (pending_read path c' ≡ some (codes "old", file_info_from_pending path 4 8))
    × (c'.accounted_bytes ≡ 3)
unfolding read_blob_bytes Table.lookup text_eq
update_existing_entry_failed_example =
    update_existing_entry_failed same_text 0 (waiting (disk (codes "q/b.bin"))) (codes "q/b.bin")
      (codes "old") request full_disk on_disk refl refl refl refl refl
