-- ===== src/Cache/WriteCache/Flush/Stuck.antt =====
-- src/vfs/cache/write_cache.rs: a flush whose blob cannot be read, and the step of a flush that
-- follows the lock of its record.
use yh_filemanager_vfs_stora.Prelude.{
  ℕ, ◌<◌, ◌≡◌, refl, List, [], ◌∷◌, ◌==◌, Bool, true, false, some, get_elem?, arith,
}
use yh_filemanager_vfs_stora.Prelude.Text.{Text}
use yh_filemanager_vfs_stora.Cache.WriteCache.{
  WriteCacheManager, PendingWriteRecord, pending, u64_max,
}
use yh_filemanager_vfs_stora.Cache.WriteCache.Heap.{get_elem?-with_record, with_record_core}
use yh_filemanager_vfs_stora.Cache.WriteCache.Enqueue.{begin_update}
use yh_filemanager_vfs_stora.Cache.WriteCache.Flush.{
  FlushReply, flush_due, flush_entry, close_record,
}

module _ (h : Text → Text) where
  -- Flushes of a record one after the other.
  abbrev pub flush_often : ℕ → List (Bool × FlushReply) → WriteCacheManager → WriteCacheManager
  flush_often id [] c = c
  flush_often id ((force, a) ∷ later) c = flush_often id later (flush_entry h id force a c).1

-- A record that has been updated while its content was written, its generation not at the end of
-- its range, is not taken for written: it stays in the heap and is due again at once, and the
-- entries, the counter and the blobs are as they were.
pub close_record_newer :
    (id size modified_at deadline_at now : ℕ) (r : PendingWriteRecord) (c : WriteCacheManager)
    → r.generation < u64_max
    → let newer = begin_update size modified_at deadline_at r in
      get_elem? c.records id ≡ some newer
      → let (closed, c') = close_record id r.generation now newer c in
        let due = record newer { state = pending; next_retry_at = now } in
        (closed ≡ false)
        × (get_elem? c'.records id ≡ some due)
        × (flush_due false now due ≡ true)
        × (c'.entries ≡ c.entries)
        × (c'.accounted_bytes ≡ c.accounted_bytes)
        × (c'.blob_files ≡ c.blob_files)
unfolding close_record begin_update
close_record_newer id size modified_at deadline_at now r c small here =
    let set_due : PendingWriteRecord → PendingWriteRecord =
      λ s. record s { state = pending; next_retry_at = now } in
    let newer = begin_update size modified_at deadline_at r in
    let core = with_record_core id set_due c in
    let other : (newer.generation == r.generation) ≡ false = ground (arith, small) in
    rw (other)
      (refl, get_elem?-with_record id set_due newer c here, ground arith, core.0, core.1, core.3)
