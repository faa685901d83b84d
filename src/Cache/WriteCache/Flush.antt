-- ===== src/Cache/WriteCache/Flush.antt =====
-- `flush_entry` and what it calls in src/vfs/cache/write_cache.rs, in the pieces between which
-- other calls can come: what happens while the lock of the record is held is one piece.
pub mod Stuck
pub mod Success
pub mod Refused
pub mod LostUpdate
use yh_filemanager_vfs_stora.Prelude.{
  ℕ, suc, ◌+◌, min, Bool, true, false, not, ◌&&◌, ◌||◌, Option, none, some, Result, ok, err, List,
  [], ◌∷◌, length, get_elem?, leb, ltb, ◌==◌, if◌then◌else◌,
}
use yh_filemanager_vfs_stora.Prelude.Int.{ℤ, sub_ℕ}
use yh_filemanager_vfs_stora.Prelude.Text.{Text, codes}
use yh_filemanager_vfs_stora.Prelude.Table
use yh_filemanager_vfs_stora.Types.{VfsFileInfo}
use yh_filemanager_vfs_stora.Cache.ReadCache.{DiskReply}
use yh_filemanager_vfs_stora.Cache.ReadCache
use yh_filemanager_vfs_stora.Cache.WriteCache.{
  WriteCacheManager, PendingWriteRecord, PendingWriteBlob, bytes, disk, pending, flushing, abnormal,
  u32_max, discount, reaccount, with_record, accounted_bytes_for_blob, file_info_from_pending,
  remove_blob, read_blob_bytes, retry_delay_secs, is_flushing,
}
use yh_filemanager_vfs_stora.Cache.WriteCache.Tasks.{schedule_index_sync, schedule_quota_sync}
use yh_filemanager_vfs_stora.Cache.WriteCache.Enqueue.{is_spilled, store_staged_blob, io_error}

-- What a flush finds outside: the clock at its steps, whether the primary storage answers its two
-- stats and takes the write, and what a spill or the read cache is answered by the local disk.
pub record FlushReply : Type 0 where
  pub started_at : ℕ
  pub stat_before : Bool
  pub write_error : Option Text
  pub failed_at : ℕ
  pub stat_after : Bool
  pub last_modified : Option ℕ
  pub finished_at : ℕ
  pub unique_name : Text
  pub disk_reply : DiskReply

abbrev pub flush_due : Bool → ℕ → PendingWriteRecord → Bool
flush_due force now r = not (is_flushing r.state) && (force || leb r.next_retry_at now)

abbrev pub flush_begun : PendingWriteRecord → PendingWriteRecord
flush_begun r = record r { state = flushing }

-- The size of the file in the primary storage, 0 where it cannot be told.
unfoldable pub stat_size : Bool → Text → WriteCacheManager → ℕ
stat_size false path c = 0
stat_size true path c = elim (Table.lookup path c.primary) [
  | none ↦ 0
  | some content ↦ length content
]

-- A failed write is counted, and the next attempt put off.
unfoldable pub note_failure : ℕ → Text → ℕ → PendingWriteRecord → PendingWriteRecord
unfolding retry_delay_secs
note_failure interval message now r =
    let count = min (r.retry_count + 1) u32_max in
    record r {
      retry_count = count;
      last_error = some message;
      next_retry_at = now + retry_delay_secs interval count r.abnormal_logged;
    }

pub data AbnormalPromotionResult : Type 0 where
  promoted : PendingWriteBlob → AbnormalPromotionResult
  already_abnormal promotion_failed : AbnormalPromotionResult

-- The spilled blob replaces the old one, unless an update has begun since.
unfoldable pub finish_promotion :
    ℕ
    → ℕ
    → ℕ
    → Option PendingWriteBlob × WriteCacheManager
    → AbnormalPromotionResult × WriteCacheManager
unfolding reaccount with_record accounted_bytes_for_blob remove_blob
finish_promotion id generation previous_accounted (none, c) = (promotion_failed, c)
finish_promotion id generation previous_accounted (some staged, c) = elim (get_elem? c.records id) [
  | none ↦ (promotion_failed, c)
  | some r ↦
      if r.generation == generation
      then (let r' : PendingWriteRecord = record r { blob = staged; state = abnormal } in
          (
            promoted r.blob,
            reaccount previous_accounted (accounted_bytes_for_blob c.backend r')
                (with_record id (λ _. r') c),
          ))
      else (promotion_failed, remove_blob staged c)
]

abbrev set_abnormal : PendingWriteRecord → PendingWriteRecord
set_abnormal r = record r { state = abnormal }

unfoldable pub log_abnormal : ℕ → ℕ → PendingWriteRecord → PendingWriteRecord
unfolding retry_delay_secs
log_abnormal interval now r = record r {
  abnormal_logged = true;
  state = abnormal;
  next_retry_at = now + retry_delay_secs interval r.retry_count true;
}

-- The end of a failed flush that was not newly spilled.
unfoldable pub give_back : ℕ → ℕ → ℕ → PendingWriteRecord → PendingWriteRecord
unfolding retry_delay_secs
give_back interval deadline_at now r =
    let retry_at =
      if ltb deadline_at now
      then now + retry_delay_secs interval r.retry_count true
      else r.next_retry_at in
    record r { next_retry_at = retry_at; state = if r.abnormal_logged then abnormal else pending }

unfoldable pub is_logged : Option PendingWriteRecord → Bool
is_logged none = false
is_logged (some r) = r.abnormal_logged

-- What follows the attempt to spill.
unfoldable pub after_promotion :
    ℕ → ℕ → FlushReply → AbnormalPromotionResult × WriteCacheManager → WriteCacheManager
unfolding log_abnormal give_back with_record remove_blob is_logged
after_promotion id deadline_at a (promotion_failed, c) =
    with_record id (give_back c.flush_interval_ms deadline_at a.failed_at) c
after_promotion id deadline_at a (already_abnormal, c) =
    with_record id (λ r. give_back c.flush_interval_ms deadline_at a.failed_at (set_abnormal r)) c
after_promotion id deadline_at a (promoted old, c) =
    if is_logged (get_elem? c.records id)
    then with_record id (give_back c.flush_interval_ms deadline_at a.failed_at) c
    else remove_blob old (with_record id (log_abnormal c.flush_interval_ms a.failed_at) c)

-- The info of the written file, from the storage or else from the record.
unfoldable pub flushed_info : Bool → Option ℕ → Text → ℕ → ℕ → WriteCacheManager → VfsFileInfo
unfolding file_info_from_pending
flushed_info false modified path size modified_at c = file_info_from_pending path size modified_at
flushed_info true modified path size modified_at c = elim (Table.lookup path c.primary) [
  | none ↦ file_info_from_pending path size modified_at
  | some content ↦ record (file_info_from_pending path (length content) modified_at) {
    modified = modified;
  }
]

-- Under the lock after the write: whether what was written is still the newest content. If it is,
-- its bytes are taken off the counter and its blob is deleted; if not, the record is due again.
unfoldable pub close_record :
    ℕ → ℕ → ℕ → PendingWriteRecord → WriteCacheManager → Bool × WriteCacheManager
unfolding with_record discount accounted_bytes_for_blob remove_blob
close_record id generation now r c =
    if r.generation == generation
    then (true, remove_blob r.blob (discount (accounted_bytes_for_blob c.backend r) c))
    else (false, with_record id (λ r. record r { state = pending; next_retry_at = now }) c)

module _ (cache_hash : Text → Text) where
  unfoldable pub promote_to_abnormal :
      ℕ
      → PendingWriteRecord
      → Text
      → FlushReply
      → WriteCacheManager
      → AbnormalPromotionResult × WriteCacheManager
  unfolding is_spilled store_staged_blob finish_promotion with_record accounted_bytes_for_blob
  promote_to_abnormal id r content a c =
      if is_spilled c r.blob
      then (already_abnormal, with_record id set_abnormal c)
      else finish_promotion id r.generation (accounted_bytes_for_blob c.backend r)
          (store_staged_blob cache_hash true r.physical_path a.unique_name content a.disk_reply c)

  unfoldable pub flush_failed :
      ℕ → PendingWriteRecord → Text → Text → FlushReply → WriteCacheManager → WriteCacheManager
  unfolding note_failure with_record promote_to_abnormal after_promotion give_back
  flush_failed id r content message a c =
      let r' = note_failure c.flush_interval_ms message a.failed_at r in
      let c' = with_record id (λ _. r') c in
      if ltb r.deadline_at a.failed_at
      then after_promotion id r.deadline_at a (promote_to_abnormal id r' content a c')
      else with_record id (give_back c.flush_interval_ms r.deadline_at a.failed_at) c'

  abbrev pub keep_read :
      Text → Text → VfsFileInfo → FlushReply → WriteCacheManager → WriteCacheManager
  keep_read path content info a c = elim c.read_cache [
    | none ↦ c
    | some cache ↦ record c {
      read_cache = some (
          ReadCache.put cache_hash path content info a.finished_at a.finished_at a.finished_at
            a.disk_reply cache);
    }
  ]

  -- After the lock is given back: the path leaves the map, the read cache takes the content, and
  -- the index and the quota are brought up to date later.
  unfoldable pub retire_entry :
      PendingWriteRecord
      → Text
      → VfsFileInfo
      → ℕ
      → FlushReply
      → WriteCacheManager
      → WriteCacheManager
  unfolding schedule_index_sync schedule_quota_sync
  retire_entry r content info previous_size a c =
      schedule_quota_sync r.user_id r.logical_path (sub_ℕ info.size previous_size) a.finished_at (
        schedule_index_sync r a.finished_at (
          keep_read r.physical_path content info a
            (record c { entries = Table.remove r.physical_path c.entries })))

  abbrev retire_closed :
      PendingWriteRecord
      → Text
      → VfsFileInfo
      → ℕ
      → FlushReply
      → Bool × WriteCacheManager
      → WriteCacheManager
  retire_closed r content info previous_size a (false, c) = c
  retire_closed r content info previous_size a (true, c) =
      retire_entry r content info previous_size a c

  -- The write to the primary storage, with nothing in between.
  abbrev flush_written :
      ℕ
      → PendingWriteRecord
      → Text
      → ℕ
      → FlushReply
      → Option Text
      → WriteCacheManager
      → Result Text (Unit {0}) × WriteCacheManager
  flush_written id r content previous_size a (some message) c =
      (err message, flush_failed id r content message a c)
  flush_written id r content previous_size a none c =
      let written : WriteCacheManager = record c {
        primary = Table.insert r.physical_path content c.primary;
      } in
      let info =
        flushed_info a.stat_after a.last_modified r.physical_path r.size r.modified_at written in
      (
        ok tt,
        retire_closed r content info previous_size a
            (close_record id r.generation a.finished_at r written),
      )

  abbrev flush_read :
      ℕ
      → PendingWriteRecord
      → FlushReply
      → Option Text
      → WriteCacheManager
      → Result Text (Unit {0}) × WriteCacheManager
  flush_read id r a none c = (err io_error, c)
  flush_read id r a (some content) c =
      flush_written id r content (stat_size a.stat_before r.physical_path c) a a.write_error c

  -- A flush from its first lock to its end, where nothing comes between. A blob that cannot be read
  -- ends it at once.
  unfoldable pub flush_entry :
      ℕ → Bool → FlushReply → WriteCacheManager → Result Text (Unit {0}) × WriteCacheManager
  unfolding with_record read_blob_bytes stat_size flush_failed flushed_info close_record
      retire_entry
  flush_entry id force a c = elim (get_elem? c.records id) [
    | none ↦ (ok tt, c)
    | some r ↦
        if flush_due force a.started_at r
        then flush_read id (flush_begun r) a (read_blob_bytes c r.blob)
            (with_record id (λ _. flush_begun r) c)
        else (ok tt, c)
  ]

  unfoldable pub flush_path :
      Text → FlushReply → WriteCacheManager → Result Text (Unit {0}) × WriteCacheManager
  unfolding flush_entry
  flush_path physical_path a c = elim (Table.lookup physical_path c.entries) [
    | none ↦ (ok tt, c)
    | some id ↦ flush_entry id true a c
  ]
