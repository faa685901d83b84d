-- ===== src/Cache/WriteCache/Flush/Refused.antt =====
-- src/vfs/cache/write_cache.rs: a flush whose write the storage refuses before the deadline.
use yh_filemanager_vfs_stora.Prelude.{
  ℕ, ◌+◌, ◌≤◌, ◌≡◌, refl, ◌∙◌, ap, ap₂, Bool, true, false, some, err, get_elem?, ltb, arith,
}
use yh_filemanager_vfs_stora.Prelude.Text.{Text}
use yh_filemanager_vfs_stora.Prelude.Table
use yh_filemanager_vfs_stora.Cache.WriteCache.{
  WriteCacheManager, PendingWriteRecord, with_record, read_blob_bytes, is_flushing, pending_read,
  file_info_from_pending,
}
use yh_filemanager_vfs_stora.Cache.WriteCache.Heap.{
  get_elem?-with_record, with_record_core, read_blob_bytes_same,
}
use yh_filemanager_vfs_stora.Cache.WriteCache.Tasks.Laws.{retry_delay_secs_bounds}
use yh_filemanager_vfs_stora.Cache.WriteCache.Enqueue.Staged.{pending_read_found}
use yh_filemanager_vfs_stora.Cache.WriteCache.Flush.{
  FlushReply, flush_due, flush_begun, flush_entry, flush_failed, note_failure, give_back,
}

retry_within :
    (interval deadline now : ℕ) (message : Text) (r : PendingWriteRecord)
    → now ≤ deadline
    → let r' = give_back interval deadline now (note_failure interval message now r) in
      (is_flushing r'.state ≡ false) × (now + 1 ≤ r'.next_retry_at) × (r'.next_retry_at ≤ now + 300)
unfolding give_back note_failure
retry_within interval deadline now message r early = ground (
  arith,
  retry_delay_secs_bounds interval (note_failure interval message now r).retry_count
      r.abnormal_logged,
)

found_back :
    (path : Text) (id : ℕ) (r' r : PendingWriteRecord) (content : Text) (c : WriteCacheManager)
    → Table.lookup path c.entries ≡ some id
    → get_elem? c.records id ≡ some r'
    → (r'.blob ≡ r.blob) × (r'.size ≡ r.size) × (r'.modified_at ≡ r.modified_at)
    → read_blob_bytes c r.blob ≡ some content
    → pending_read path c ≡ some (content, file_info_from_pending path r.size r.modified_at)
found_back path id r' r content c e g same b =
    pending_read_found path id r' content c e g (ap (read_blob_bytes c) same.0 ∙ b)
    ∙ ap₂ (λ n t. some (content, file_info_from_pending path n t)) same.1 same.2

module _ (h : Text → Text) where
  flush_entry_given_back :
      (id : ℕ) (r : PendingWriteRecord) (content message : Text) (force : Bool) (a : FlushReply)
      (c : WriteCacheManager)
      → get_elem? c.records id ≡ some r
      → flush_due force a.started_at r ≡ true
      → read_blob_bytes c r.blob ≡ some content
      → a.write_error ≡ some message
      → a.failed_at ≤ r.deadline_at
      → let begun = with_record id (λ _. flush_begun r) c in
        let i = begun.flush_interval_ms in
        flush_entry h id force a c ≡ (
          err message,
          with_record id
              (give_back i r.deadline_at a.failed_at)
              (with_record id (λ _. note_failure i message a.failed_at (flush_begun r)) begun),
        )
  unfolding flush_entry flush_failed
  flush_entry_given_back id r content message force a c here due readable refused early =
      let in_time : ltb r.deadline_at a.failed_at ≡ false = ground arith in
      rw (here, due, readable, refused, flush_entry) (rw in_time refl)

  -- A flush that is due and whose blob is read, where the storage refuses the write before the
  -- deadline: its error is returned, the content can be read as before, storage and counter are as
  -- they were, and the record is no longer being flushed, but due again in one to three hundred
  -- seconds.
  pub flush_entry_refused :
      (id : ℕ) (r : PendingWriteRecord) (path content message : Text) (force : Bool)
      (a : FlushReply) (c : WriteCacheManager)
      → get_elem? c.records id ≡ some r
      → Table.lookup path c.entries ≡ some id
      → flush_due force a.started_at r ≡ true
      → read_blob_bytes c r.blob ≡ some content
      → a.write_error ≡ some message
      → a.failed_at ≤ r.deadline_at
      → let (e, c') = flush_entry h id force a c in
        (e ≡ err message)
        × (pending_read path c' ≡ some (content, file_info_from_pending path r.size r.modified_at))
        × (c'.primary ≡ c.primary)
        × (c'.accounted_bytes ≡ c.accounted_bytes)
        × (r' : PendingWriteRecord) × (get_elem? c'.records id ≡ some r')
        × (is_flushing r'.state ≡ false)
        × (a.failed_at + 1 ≤ r'.next_retry_at)
        × (r'.next_retry_at ≤ a.failed_at + 300)
  flush_entry_refused id r path content message force a c here there due readable refused early =
      let begun = with_record id (λ _. flush_begun r) c in
      let i = begun.flush_interval_ms in
      let noted = note_failure i message a.failed_at (flush_begun r) in
      let c₁ = with_record id (λ _. noted) begun in
      let back = give_back i r.deadline_at a.failed_at in
      let c₂ = with_record id back c₁ in
      let same = with_record_core id (λ _. flush_begun r) c in
      let same₁ = with_record_core id (λ _. noted) begun in
      let same₂ = with_record_core id back c₁ in
      let last = get_elem?-with_record id back noted c₁ (
        get_elem?-with_record id (λ _. noted) (flush_begun r) begun
          (get_elem?-with_record id (λ _. flush_begun r) r c here)) in
      let within = retry_within i r.deadline_at a.failed_at message (flush_begun r) early in
      rw (flush_entry_given_back id r content message force a c here due readable refused early) (
        refl,
        found_back path id (back noted) r content c₂
            (ap (Table.lookup path) (same₂.0 ∙ same₁.0 ∙ same.0) ∙ there) last
            (unfold note_failure give_back in (refl, refl, refl))
            (read_blob_bytes_same r.blob c₂ c (same₂.3 ∙ same₁.3 ∙ same.3) ∙ readable),
        same₂.2 ∙ same₁.2 ∙ same.2,
        same₂.1 ∙ same₁.1 ∙ same.1,
        back noted,
        last,
        within.0,
        within.1,
        within.2,
      )
