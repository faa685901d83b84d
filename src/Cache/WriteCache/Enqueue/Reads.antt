-- ===== src/Cache/WriteCache/Enqueue/Reads.antt =====
-- src/vfs/cache/write_cache.rs: what has been enqueued is read back.
use yh_filemanager_vfs_stora.Prelude.{
  ℕ, ◌≡◌, ◌≢◌, refl, ◌∙◌, sym, ap, ap₂, ◌&&◌, Option, none, some, ok, inl, inr, get_elem?,
  get_elem?-append_last, arith, Bool-cases, Option-cases, length,
}
use yh_filemanager_vfs_stora.Prelude.Text.{Text, text_eq_refl}
use yh_filemanager_vfs_stora.Prelude.Table.{lookup-insert, lookup-remove}
use yh_filemanager_vfs_stora.Prelude.Table
use yh_filemanager_vfs_stora.Prelude.Int.{time_after}
use yh_filemanager_vfs_stora.Types.{VfsFileInfo}
use yh_filemanager_vfs_stora.Cache.ReadCache.{DiskReply}
use yh_filemanager_vfs_stora.Cache.WriteCache.{
  WriteCacheManager, WriteCacheBackend, memory, local_dir, PendingWriteRecord, PendingWriteBlob,
  bytes, disk, with_record, read_blob_bytes, account, accounted_bytes_for_blob, pending_read,
  should_cache, file_info_from_pending,
}
use yh_filemanager_vfs_stora.Cache.WriteCache.Heap.{get_elem?-with_record, with_record_core}
use yh_filemanager_vfs_stora.Cache.WriteCache.Tasks.{mark_dirty}
use yh_filemanager_vfs_stora.Cache.WriteCache.Enqueue.{
  EnqueueRequest, EnqueueReply, PendingWriteUpdatePlan, in_memory, stage_disk, base_dir, write_file,
  store_blob, store_staged_blob, stage, staged_path, data_path, begin_update, finish_update,
  insert_entry, accept_new, accept_update, update_existing_entry, admit_entry, enqueue, forget_read,
  size_of, finish_staged, can_admit, plan_of, new_record,
}
use yh_filemanager_vfs_stora.Cache.WriteCache.Enqueue.Staged.{
  pending_read_found, Readable, write_file-Readable, read_answer, finish_update_core, ApartFrom,
}

module _ (h : Text → Text) where
  store_blob-Readable :
      (path content : Text) (reply : DiskReply) (b : WriteCacheBackend) (c : WriteCacheManager)
      → Readable content c (store_blob h path content reply b c)
  unfolding store_blob read_blob_bytes
  store_blob-Readable path content reply memory c = (refl, refl, refl)
  store_blob-Readable path content reply local_dir c =
      write_file-Readable (data_path h c.queue_dir path) content reply c

  stage-Readable :
      (plan : PendingWriteUpdatePlan) (q : EnqueueRequest) (a : EnqueueReply)
      (c : WriteCacheManager)
      → Readable q.content c (stage h plan q a c)
  unfolding stage store_staged_blob read_blob_bytes
  stage-Readable in_memory q a c = (refl, refl, refl)
  stage-Readable (stage_disk spilled) q a c =
      write_file-Readable (staged_path h (base_dir spilled c) q.physical_path a.unique_name)
        q.content a.disk_reply c

  accepted_new :
      (q : EnqueueRequest) (a : EnqueueReply) (c : WriteCacheManager) (info : VfsFileInfo)
      (c' : WriteCacheManager) (s : Option PendingWriteBlob × WriteCacheManager)
      → Readable q.content c s
      → accept_new h q a s ≡ (ok (some info), c')
      → pending_read q.physical_path c' ≡ some (q.content, info)
  unfolding insert_entry mark_dirty account read_blob_bytes
  accepted_new q a c info c' (none, d) k e = absurd (cc)
  accepted_new q a c info c' (some blob, d) k e =
      let r = new_record h q a (time_after a.modified_at d.flush_deadline_secs) blob in
      let c₁ = insert_entry h r d in
      let last = mark_dirty q.logical_path q.physical_path q.user_id a.marked_at c₁ in
      read_answer q.physical_path q.content
        (file_info_from_pending q.physical_path (length q.content) a.modified_at) info last c' e
        (pending_read_found q.physical_path (length d.records) r q.content last
          (lookup-insert q.physical_path q.physical_path (length d.records) d.entries
            ∙ ground (arith, text_eq_refl q.physical_path))
          (get_elem?-append_last d.records r) k.2)

  accepted_staged :
      (id previous : ℕ) (r : PendingWriteRecord) (q : EnqueueRequest) (a : EnqueueReply)
      (c : WriteCacheManager) (info : VfsFileInfo) (c' : WriteCacheManager)
      (s : Option PendingWriteBlob × WriteCacheManager)
      → get_elem? c.records id ≡ some r
      → Table.lookup q.physical_path c.entries ≡ some id
      → r.size ≡ length q.content
      → r.modified_at ≡ a.modified_at
      → Readable q.content c s
      → ApartFrom r.blob s.0
      → accept_update h id q a (finish_staged h id r.generation previous s) ≡ (ok (some info), c')
      → pending_read q.physical_path c' ≡ some (q.content, info)
  unfolding mark_dirty read_blob_bytes
  accepted_staged id previous r q a c info c' (none, d) g l size time k apart e = absurd (cc)
  accepted_staged id previous r q a c info c' (some staged, d) g l size time k apart e =
      let path = q.physical_path in
      let r' : PendingWriteRecord = record r { blob = staged } in
      let f = finish_update id r.generation previous staged d in
      let core =
        finish_update_core id previous r staged q.content d (ap (λ rs. get_elem? rs id) k.1 ∙ g) k.2
          apart in
      let last = mark_dirty q.logical_path path q.user_id a.marked_at f in
      read_answer path q.content
        (file_info_from_pending path (size_of h (get_elem? f.records id)) a.modified_at) info last
        c' e
        (pending_read_found path id r' q.content last (ap (Table.lookup path) (core.0 ∙ k.0) ∙ l)
            core.1 core.2
          ∙ ap₂ (λ n t. some (q.content, file_info_from_pending path n t))
              (sym (ap (size_of h) core.1)) time)

  -- The name of a staged blob has not been given to the old one.
  abbrev FreshFor : EnqueueRequest → EnqueueReply → PendingWriteBlob → Type 0
  FreshFor q a blob = (dir : Text) → blob ≢ disk (staged_path h dir q.physical_path a.unique_name)

  write_file-Apart :
      (old : PendingWriteBlob) (path content : Text) (reply : DiskReply) (c : WriteCacheManager)
      → old ≢ disk path
      → ApartFrom old (write_file path content reply c).0
  unfolding write_file
  write_file-Apart (bytes b) path content reply c n =
      elim (Bool-cases (reply.data_written && reply.meta_written)) [
        | inl y ↦ rw (y, write_file) tt
        | inr y ↦ rw (y, write_file) tt
      ]
  write_file-Apart (disk p) path content reply c n =
      elim (Bool-cases (reply.data_written && reply.meta_written)) [
        | inl y ↦ rw (y, write_file) (λ e. n (ap disk e))
        | inr y ↦ rw (y, write_file) tt
      ]

  stage-Apart :
      (old : PendingWriteBlob) (plan : PendingWriteUpdatePlan) (q : EnqueueRequest)
      (a : EnqueueReply) (c : WriteCacheManager)
      → FreshFor q a old
      → ApartFrom old (stage h plan q a c).0
  unfolding stage store_staged_blob
  stage-Apart (bytes b) in_memory q a c n = tt
  stage-Apart (disk p) in_memory q a c n = tt
  stage-Apart old (stage_disk spilled) q a c n =
      write_file-Apart old (staged_path h (base_dir spilled c) q.physical_path a.unique_name)
        q.content a.disk_reply c (n (base_dir spilled c))

  accepted_update :
      (id : ℕ) (r : PendingWriteRecord) (q : EnqueueRequest) (a : EnqueueReply)
      (c : WriteCacheManager) (info : VfsFileInfo) (c' : WriteCacheManager)
      → get_elem? c.records id ≡ some r
      → Table.lookup q.physical_path c.entries ≡ some id
      → FreshFor q a r.blob
      → accept_update h id q a (update_existing_entry h id r q a c) ≡ (ok (some info), c')
      → pending_read q.physical_path c' ≡ some (q.content, info)
  unfolding update_existing_entry begin_update
  accepted_update id r q a c info c' g l fresh e =
      let r' =
        begin_update (length q.content) a.modified_at
          (time_after a.modified_at c.flush_deadline_secs) r in
      let begun = with_record id (λ _. r') c in
      let plan = plan_of c c.backend r.blob in
      accepted_staged id (accounted_bytes_for_blob c.backend r) r' q a begun info c'
        (stage h plan q a begun) (get_elem?-with_record id (λ _. r') r c g)
        (ap (Table.lookup q.physical_path) ((with_record_core id (λ _. r') c).0) ∙ l) refl refl
        (stage-Readable plan q a begun) (stage-Apart r.blob plan q a begun fresh) e

  accepted_entry :
      (q : EnqueueRequest) (a : EnqueueReply) (c : WriteCacheManager) (info : VfsFileInfo)
      (c' : WriteCacheManager)
      → ((id : ℕ) (r : PendingWriteRecord) → get_elem? c.records id ≡ some r → FreshFor q a r.blob)
      → admit_entry h q a c ≡ (ok (some info), c')
      → pending_read q.physical_path c' ≡ some (q.content, info)
  unfolding admit_entry
  accepted_entry q a c info c' fresh e =
      elim (Option-cases (Table.lookup q.physical_path c.entries)) [
        | inl l ↦
            accepted_new q a c info c'
              (store_blob h q.physical_path q.content a.disk_reply c.backend c)
              (store_blob-Readable q.physical_path q.content a.disk_reply c.backend c)
              (rw (l, admit_entry) at e)
        | inr (id, l) ↦ elim (Option-cases (get_elem? c.records id)) [
          | inl g ↦ absurd (cc (rw (l, g, admit_entry) at e))
          | inr (r, g) ↦
              accepted_update id r q a c info c' g l (fresh id r g) (rw (l, g, admit_entry) at e)
        ]
      ]

  records-forget_read :
      (path : Text) (c : WriteCacheManager) → (forget_read h path c).records ≡ c.records
  records-forget_read path c = elim (Option-cases c.read_cache) [
    | inl l ↦ rw l refl
    | inr (cache, l) ↦ rw l refl
  ]

  -- Content that has been accepted is read back, with the info that was returned, whether its path
  -- was new or waited already, and wherever the backend keeps it; the name of a staged blob must
  -- be one that no record has.
  pub pending_read-enqueue :
      (q : EnqueueRequest) (a : EnqueueReply) (c : WriteCacheManager) (info : VfsFileInfo)
      (c' : WriteCacheManager)
      → ((id : ℕ) (r : PendingWriteRecord) (dir : Text)
          → get_elem? c.records id ≡ some r
          → r.blob ≢ disk (staged_path h dir q.physical_path a.unique_name))
      → enqueue h q a c ≡ (ok (some info), c')
      → pending_read q.physical_path c' ≡ some (q.content, info)
  unfolding enqueue
  pending_read-enqueue q a c info c' fresh e =
      elim (Bool-cases (should_cache c q.logical_path (length q.content))) [
        | inr off ↦ absurd (cc (rw (off, enqueue) at e))
        | inl on ↦
            let c₁ = forget_read h q.physical_path c in
            elim (Bool-cases (can_admit q.physical_path (length q.content) c₁)) [
              | inr full ↦ absurd (cc (rw (on, full, enqueue) at e))
              | inl room ↦
                  accepted_entry q a c₁ info c'
                    (λ id r g dir. fresh id r dir (
                      sym (ap (λ rs. get_elem? rs id) (records-forget_read q.physical_path c)) ∙ g))
                    (rw (on, room, enqueue) at e)
            ]
      ]
