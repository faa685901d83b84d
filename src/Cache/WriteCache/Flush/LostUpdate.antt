-- ===== src/Cache/WriteCache/Flush/LostUpdate.antt =====
-- src/vfs/cache/write_cache.rs: `flush_entry` gives the record's lock back before it removes the
-- path from the map. Here an enqueue comes in between.
use yh_filemanager_vfs_stora.Prelude.{
  ℕ, ◌≡◌, ◌≢◌, refl, sym, ◌∙◌, ap, Option, none, some, Result, ok, err, inl, inr, get_elem?, ◌==◌,
  arith, Bool-cases, Option-cases, length,
}
use yh_filemanager_vfs_stora.Prelude.Text.{Text}
use yh_filemanager_vfs_stora.Prelude.Table
use yh_filemanager_vfs_stora.Prelude.Int.{time_after}
use yh_filemanager_vfs_stora.Types.{VfsFileInfo}
use yh_filemanager_vfs_stora.Cache.ReadCache.{DiskReply}
use yh_filemanager_vfs_stora.Cache.WriteCache.{
  WriteCacheManager, WriteCacheBackend, memory, local_dir, PendingWriteRecord, PendingWriteBlob,
  disk, with_record, account, reaccount, accounted_bytes_for_blob, pending_read, should_cache,
}
use yh_filemanager_vfs_stora.Cache.WriteCache.Heap.{
  with_record_core, remove_blob_core, reaccount_core,
}
use yh_filemanager_vfs_stora.Cache.WriteCache.Tasks.{mark_dirty}
use yh_filemanager_vfs_stora.Cache.WriteCache.Enqueue.Reads.{pending_read-enqueue}
use yh_filemanager_vfs_stora.Cache.WriteCache.Enqueue.{
  staged_path, EnqueueRequest, EnqueueReply, PendingWriteUpdatePlan, in_memory, stage_disk,
  write_file, store_blob, store_staged_blob, stage, begin_update, finish_update, finish_staged,
  insert_entry, accept_new, accept_update, update_existing_entry, admit_entry, enqueue, forget_read,
  can_admit, plan_of,
}
use yh_filemanager_vfs_stora.Cache.WriteCache.Flush.{FlushReply, retire_entry}
use yh_filemanager_vfs_stora.Cache.WriteCache.Flush.Success.{
  retire_entry_core, pending_read-retire_entry,
}

primary-write_file :
    (path content : Text) (reply : DiskReply) (c : WriteCacheManager)
    → (write_file path content reply c).1.primary ≡ c.primary
unfolding write_file
primary-write_file path content reply c = ground arith

primary-finish_update :
    (id generation previous : ℕ) (staged : PendingWriteBlob) (c : WriteCacheManager)
    → (finish_update id generation previous staged c).primary ≡ c.primary
unfolding finish_update
primary-finish_update id generation previous staged c =
    elim (Option-cases (get_elem? c.records id)) [
      | inl l ↦ rw (l, finish_update) refl
      | inr (r, l) ↦ elim (Bool-cases (r.generation == generation)) [
        | inr n ↦ rw (l, n, finish_update) ((remove_blob_core staged c).2)
        | inl y ↦
            let w = with_record id (λ r. record r { blob = staged }) c in
            let new = accounted_bytes_for_blob c.backend (record r { blob = staged }) in
            rw (l, y, finish_update)
              ((remove_blob_core r.blob (reaccount previous new w)).2
                ∙ (reaccount_core previous new w).3
                ∙ (with_record_core id (λ r. record r { blob = staged }) c).2)
      ]
    ]

module _ (h : Text → Text) where
  primary-store_blob :
      (path content : Text) (reply : DiskReply) (b : WriteCacheBackend) (c : WriteCacheManager)
      → (store_blob h path content reply b c).1.primary ≡ c.primary
  unfolding store_blob
  primary-store_blob path content reply memory c = refl
  primary-store_blob path content reply local_dir c = primary-write_file _ content reply c

  primary-stage :
      (plan : PendingWriteUpdatePlan) (q : EnqueueRequest) (a : EnqueueReply)
      (c : WriteCacheManager)
      → (stage h plan q a c).1.primary ≡ c.primary
  unfolding stage store_staged_blob
  primary-stage in_memory q a c = refl
  primary-stage (stage_disk spilled) q a c = primary-write_file _ q.content a.disk_reply c

  primary-accept_new :
      (q : EnqueueRequest) (a : EnqueueReply) (s : Option PendingWriteBlob × WriteCacheManager)
      → (accept_new h q a s).1.primary ≡ s.1.primary
  unfolding insert_entry mark_dirty account
  primary-accept_new q a (none, c) = refl
  primary-accept_new q a (some blob, c) = refl

  primary-accept_update :
      (id : ℕ) (q : EnqueueRequest) (a : EnqueueReply)
      (s : Result Text (Unit {0}) × WriteCacheManager)
      → (accept_update h id q a s).1.primary ≡ s.1.primary
  unfolding mark_dirty
  primary-accept_update id q a (err e, c) = refl
  primary-accept_update id q a (ok t, c) = refl

  primary-finish_staged :
      (id generation previous : ℕ) (s : Option PendingWriteBlob × WriteCacheManager)
      → (finish_staged h id generation previous s).1.primary ≡ s.1.primary
  primary-finish_staged id generation previous (none, c) = refl
  primary-finish_staged id generation previous (some staged, c) =
      primary-finish_update id generation previous staged c

  primary-update_existing_entry :
      (id : ℕ) (r : PendingWriteRecord) (q : EnqueueRequest) (a : EnqueueReply)
      (c : WriteCacheManager)
      → (update_existing_entry h id r q a c).1.primary ≡ c.primary
  unfolding update_existing_entry
  primary-update_existing_entry id r q a c =
      let r' =
        begin_update (length q.content) a.modified_at
          (time_after a.modified_at c.flush_deadline_secs) r in
      let begun = with_record id (λ _. r') c in
      primary-finish_staged id r'.generation (accounted_bytes_for_blob c.backend r)
        (stage h (plan_of c c.backend r.blob) q a begun)
      ∙ primary-stage (plan_of c c.backend r.blob) q a begun
      ∙ (with_record_core id (λ _. r') c).2

  primary-admit_entry :
      (q : EnqueueRequest) (a : EnqueueReply) (c : WriteCacheManager)
      → (admit_entry h q a c).1.primary ≡ c.primary
  unfolding admit_entry
  primary-admit_entry q a c = elim (Option-cases (Table.lookup q.physical_path c.entries)) [
    | inl l ↦
        rw (l, admit_entry)
          (primary-accept_new q a (store_blob h q.physical_path q.content a.disk_reply c.backend c)
            ∙ primary-store_blob q.physical_path q.content a.disk_reply c.backend c)
    | inr (id, l) ↦ elim (Option-cases (get_elem? c.records id)) [
      | inl g ↦ rw (l, g, admit_entry) refl
      | inr (r, g) ↦
          rw (l, g, admit_entry)
            (primary-accept_update id q a (update_existing_entry h id r q a c)
              ∙ primary-update_existing_entry id r q a c)
    ]
  ]

  primary-forget_read :
      (path : Text) (c : WriteCacheManager) → (forget_read h path c).primary ≡ c.primary
  primary-forget_read path c = elim (Option-cases c.read_cache) [
    | inl l ↦ rw l refl
    | inr (cache, l) ↦ rw l refl
  ]

  -- Enqueueing writes nothing to the primary storage.
  pub primary-enqueue :
      (q : EnqueueRequest) (a : EnqueueReply) (c : WriteCacheManager)
      → (enqueue h q a c).1.primary ≡ c.primary
  unfolding enqueue
  primary-enqueue q a c = elim (Bool-cases (should_cache c q.logical_path (length q.content))) [
    | inr off ↦ rw (off, enqueue) refl
    | inl on ↦
        let c₁ = forget_read h q.physical_path c in
        elim (Bool-cases (can_admit q.physical_path (length q.content) c₁)) [
          | inr full ↦ rw (on, full, enqueue) (primary-forget_read q.physical_path c)
          | inl room ↦
              rw (on, room, enqueue)
                (primary-admit_entry q a c₁ ∙ primary-forget_read q.physical_path c)
        ]
  ]

  -- An enqueue that comes after the last look of a flush at the same path's record, and before the
  -- flush removes the path: where it has been accepted, its content was there to be read, and with
  -- the end of the flush it can no longer be read from the cache, while the storage is as the flush
  -- has left it. The name of a staged blob is one that no record has.
  pub enqueue_lost :
      (r : PendingWriteRecord) (content : Text) (info : VfsFileInfo) (previous : ℕ) (b : FlushReply)
      (q : EnqueueRequest) (a : EnqueueReply) (c : WriteCacheManager) (accepted : VfsFileInfo)
      (c' : WriteCacheManager)
      → q.physical_path ≡ r.physical_path
      → ((id : ℕ) (s : PendingWriteRecord) (dir : Text)
          → get_elem? c.records id ≡ some s
          → s.blob ≢ disk (staged_path h dir q.physical_path a.unique_name))
      → enqueue h q a c ≡ (ok (some accepted), c')
      → let last = retire_entry h r content info previous b c' in
        (pending_read q.physical_path c' ≡ some (q.content, accepted))
        × (pending_read q.physical_path last ≡ none)
        × (last.primary ≡ c.primary)
  enqueue_lost r content info previous b q a c accepted c' same fresh e = (
    pending_read-enqueue h q a c accepted c' fresh e,
    ap (λ p. pending_read p (retire_entry h r content info previous b c')) same
        ∙ pending_read-retire_entry h r content info previous b c',
    (retire_entry_core h r content info previous b c').2
        ∙ ap (λ z. z.1.primary) (sym e)
        ∙ primary-enqueue q a c,
  )
