-- ===== src/Cache/WriteCache/Flush/Success.antt =====
-- src/vfs/cache/write_cache.rs: a flush whose write succeeds, and an enqueue that comes between
-- its last look at the record and the removal of the path.
use yh_filemanager_vfs_stora.Prelude.{
  ℕ, ◌+◌, ◌-◌, ◌%◌, ◌≤◌, ◌<◌, ◌≡◌, refl, ◌∙◌, ap, ap₂, Bool, true, none, some, ok, inl, inr,
  get_elem?, arith, Option-cases,
}
use yh_filemanager_vfs_stora.Prelude.Text.{Text, text_eq_refl}
use yh_filemanager_vfs_stora.Prelude.Table.{lookup-insert, lookup-remove}
use yh_filemanager_vfs_stora.Prelude.Table
use yh_filemanager_vfs_stora.Types.{VfsFileInfo}
use yh_filemanager_vfs_stora.Cache.WriteCache.{
  WriteCacheManager, PendingWriteRecord, with_record, read_blob_bytes, remove_blob, discount,
  accounted_bytes_for_blob, u64_mod, pending_read,
}
use yh_filemanager_vfs_stora.Cache.WriteCache.Heap.{with_record_core, remove_blob_core}
use yh_filemanager_vfs_stora.Cache.WriteCache.Tasks.{schedule_index_sync, schedule_quota_sync}
use yh_filemanager_vfs_stora.Cache.WriteCache.Flush.{
  FlushReply, flush_due, flush_begun, flush_entry, close_record, retire_entry, stat_size,
  flushed_info,
}

schedule_index_core :
    (r : PendingWriteRecord) (now : ℕ) (c : WriteCacheManager)
    → let c' = schedule_index_sync r now c in
      (c'.entries ≡ c.entries) × (c'.accounted_bytes ≡ c.accounted_bytes) × (c'.primary ≡ c.primary)
unfolding schedule_index_sync
schedule_index_core r now c = ground arith

pending_read_missing :
    (path : Text) (c : WriteCacheManager)
    → Table.lookup path c.entries ≡ none
    → pending_read path c ≡ none
unfolding pending_read
pending_read_missing path c e = rw (e, pending_read) refl

restored : (n m : ℕ) → m ≤ n → n < u64_mod → (n + u64_mod - m % u64_mod) % u64_mod + m ≡ n
restored n m le lt = omega arith

module _ (h : Text → Text) where
  -- Retiring an entry removes its path and leaves the storage and the counter.
  pub retire_entry_core :
      (r : PendingWriteRecord) (content : Text) (info : VfsFileInfo) (previous : ℕ) (a : FlushReply)
      (c : WriteCacheManager)
      → let c' = retire_entry h r content info previous a c in
        (c'.entries ≡ Table.remove r.physical_path c.entries)
        × (c'.accounted_bytes ≡ c.accounted_bytes)
        × (c'.primary ≡ c.primary)
  unfolding retire_entry schedule_quota_sync schedule_index_sync
  retire_entry_core r content info previous a c = elim (Option-cases c.read_cache) [
    | inl l ↦ ground (arith, l)
    | inr (cache, l) ↦ ground (arith, l)
  ]

  pub pending_read-retire_entry :
      (r : PendingWriteRecord) (content : Text) (info : VfsFileInfo) (previous : ℕ) (a : FlushReply)
      (c : WriteCacheManager)
      → pending_read r.physical_path (retire_entry h r content info previous a c) ≡ none
  pending_read-retire_entry r content info previous a c =
      pending_read_missing r.physical_path (retire_entry h r content info previous a c) (
        ap (Table.lookup r.physical_path) ((retire_entry_core r content info previous a c).0)
        ∙ lookup-remove r.physical_path r.physical_path c.entries
        ∙ ground (arith, text_eq_refl r.physical_path))

  close_record_same :
      (id now : ℕ) (r : PendingWriteRecord) (c : WriteCacheManager)
      → close_record id r.generation now r c
        ≡ (true, remove_blob r.blob (discount (accounted_bytes_for_blob c.backend r) c))
  unfolding close_record
  close_record_same id now r c = ground (arith)

  -- What a flush that is due leaves, where its blob is read and the storage takes the write.
  flush_entry_taken :
      (id : ℕ) (r : PendingWriteRecord) (content : Text) (force : Bool) (a : FlushReply)
      (c : WriteCacheManager)
      → get_elem? c.records id ≡ some r
      → flush_due force a.started_at r ≡ true
      → read_blob_bytes c r.blob ≡ some content
      → a.write_error ≡ none
      → (d : WriteCacheManager) × (info : VfsFileInfo) × (previous : ℕ) × (flush_entry h id force a
            c
          ≡ (ok tt, retire_entry h (flush_begun r) content info previous a d))
        × (d.primary ≡ Table.insert r.physical_path content c.primary)
        × (d.accounted_bytes
            ≡ (c.accounted_bytes + u64_mod - accounted_bytes_for_blob c.backend r % u64_mod)
              % u64_mod)
  unfolding flush_entry accounted_bytes_for_blob
  flush_entry_taken id r content force a c here due readable taken =
      let begun = with_record id (λ _. flush_begun r) c in
      let written : WriteCacheManager = record begun {
        primary = Table.insert r.physical_path content begun.primary;
      } in
      let same = with_record_core id (λ _. flush_begun r) c in
      let freed = discount (accounted_bytes_for_blob written.backend (flush_begun r)) written in
      let kept = remove_blob_core r.blob freed in
      (
        remove_blob r.blob freed,
        flushed_info a.stat_after a.last_modified r.physical_path r.size r.modified_at written,
        stat_size a.stat_before r.physical_path begun,
        rw (here, due, readable, taken, flush_entry)
            (rw (close_record_same id a.finished_at (flush_begun r) written) refl),
        kept.2 ∙ ap (λ m. Table.insert r.physical_path content m) same.2,
        kept.1
            ∙ ap₂ (λ n b. (n + u64_mod - accounted_bytes_for_blob b r % u64_mod) % u64_mod) same.1
                same.4,
      )

  -- A flush that is due, where the blob is read and the storage takes the write and nothing comes
  -- between: the storage has the content, the path leaves the cache, and the counter goes down by
  -- what the blob counted, if the counter had it.
  pub flush_entry_written :
      (id : ℕ) (r : PendingWriteRecord) (content : Text) (force : Bool) (a : FlushReply)
      (c : WriteCacheManager)
      → get_elem? c.records id ≡ some r
      → flush_due force a.started_at r ≡ true
      → read_blob_bytes c r.blob ≡ some content
      → a.write_error ≡ none
      → accounted_bytes_for_blob c.backend r ≤ c.accounted_bytes
      → c.accounted_bytes < u64_mod
      → let (e, c') = flush_entry h id force a c in
        (e ≡ ok tt)
        × (Table.lookup r.physical_path c'.primary ≡ some content)
        × (pending_read r.physical_path c' ≡ none)
        × (c'.accounted_bytes + accounted_bytes_for_blob c.backend r ≡ c.accounted_bytes)
  flush_entry_written id r content force a c here due readable taken counted small =
      let (d, info, previous, e, p, q) =
        flush_entry_taken id r content force a c here due readable taken in
      let core = retire_entry_core (flush_begun r) content info previous a d in
      let path = r.physical_path in
      rw e (
        refl,
        rw (core.2, p)
            (lookup-insert path path content c.primary ∙ ground (arith, text_eq_refl path)),
        pending_read-retire_entry (flush_begun r) content info previous a d,
        ap (λ n. n + accounted_bytes_for_blob c.backend r) (core.1 ∙ q)
            ∙ restored c.accounted_bytes (accounted_bytes_for_blob c.backend r) counted small,
      )
