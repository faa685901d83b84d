-- ===== src/Cache/WriteCache/Enqueue/Staged.antt =====
-- src/vfs/cache/write_cache.rs: a blob that has been written or staged can be read, and takes the
-- place of the old one.
use yh_filemanager_vfs_stora.Prelude.{
  ℕ, ◌≡◌, refl, ◌∙◌, sym, ap, Option, none, some, Result, ok, inl, inr, get_elem?, ==_iff, arith,
  Bool-cases,
}
use yh_filemanager_vfs_stora.Prelude.Text.{Text, text_eq_refl}
use yh_filemanager_vfs_stora.Prelude.Table.{lookup-insert, lookup-remove}
use yh_filemanager_vfs_stora.Prelude.Table
use yh_filemanager_vfs_stora.Types.{VfsFileInfo}
use yh_filemanager_vfs_stora.Cache.ReadCache.{DiskReply}
use yh_filemanager_vfs_stora.Cache.WriteCache.{
  WriteCacheManager, PendingWriteRecord, PendingWriteBlob, with_record, read_blob_bytes,
  remove_blob, reaccount, accounted_bytes_for_blob, pending_read, file_info_from_pending,
}
use yh_filemanager_vfs_stora.Cache.WriteCache.Heap.{
  get_elem?-with_record, with_record_core, remove_blob_core, reaccount_core, Apart,
  read_blob_bytes-remove_blob, read_blob_bytes_same,
}
use yh_filemanager_vfs_stora.Cache.WriteCache.Enqueue.{write_file, finish_update}

pub pending_read_found :
    (path : Text) (id : ℕ) (r : PendingWriteRecord) (content : Text) (c : WriteCacheManager)
    → Table.lookup path c.entries ≡ some id
    → get_elem? c.records id ≡ some r
    → read_blob_bytes c r.blob ≡ some content
    → pending_read path c ≡ some (content, file_info_from_pending path r.size r.modified_at)
unfolding pending_read
pending_read_found path id r content c e g b = rw (e, g, b, pending_read) refl

-- A blob that has just been written can be read, and nothing else has changed.
abbrev pub Readable :
    Text → WriteCacheManager → Option PendingWriteBlob × WriteCacheManager → Type 0
Readable content c (none, d) = (d.entries ≡ c.entries) × (d.records ≡ c.records)
Readable content c (some blob, d) =
    (d.entries ≡ c.entries) × (d.records ≡ c.records) × (read_blob_bytes d blob ≡ some content)

pub write_file-Readable :
    (path content : Text) (reply : DiskReply) (c : WriteCacheManager)
    → Readable content c (write_file path content reply c)
unfolding write_file read_blob_bytes
write_file-Readable path content reply c = elim (Bool-cases reply.data_written) [
  | inl y ↦ elim (Bool-cases reply.meta_written) [
    | inl z ↦
        rw (y, z, write_file)
          (
            refl,
            refl,
            lookup-insert path path content c.blob_files ∙ ground (arith, text_eq_refl path),
          )
    | inr z ↦ rw (y, z, write_file) (refl, refl)
  ]
  | inr n ↦ rw (n, write_file) (refl, refl)
]

abbrev pub Answer : Type 0
Answer = Result Text (Option VfsFileInfo) × WriteCacheManager

answer_lem :
    (i j : VfsFileInfo) (c d : WriteCacheManager)
    → ◌≡◌ {A = Answer} (ok (some i), c) (ok (some j), d)
    → (i ≡ j) × (c ≡ d)
answer_lem i j c d e = (cc, ap (λ z. z.1) e)

-- An answer whose own state reads back its info.
pub read_answer :
    (path content : Text) (i j : VfsFileInfo) (c d : WriteCacheManager)
    → ◌≡◌ {A = Answer} (ok (some i), c) (ok (some j), d)
    → pending_read path c ≡ some (content, i)
    → pending_read path d ≡ some (content, j)
read_answer path content i j c d e p =
    let (same_info, same) = answer_lem i j c d e in
    ap (pending_read path) (sym same) ∙ p ∙ ap (λ k. some (content, k)) same_info

pub finish_update_same :
    (id previous : ℕ) (r : PendingWriteRecord) (staged : PendingWriteBlob) (c : WriteCacheManager)
    → get_elem? c.records id ≡ some r
    → finish_update id r.generation previous staged c
      ≡ remove_blob r.blob (
          reaccount previous
            (accounted_bytes_for_blob c.backend (record r { blob = staged }))
            (with_record id (λ r. record r { blob = staged }) c))
unfolding finish_update
finish_update_same id previous r staged c here =
    rw (here, finish_update) (ground (arith, ==_iff r.generation r.generation))

pub finish_update_core :
    (id previous : ℕ) (r : PendingWriteRecord) (staged : PendingWriteBlob) (content : Text)
    (c : WriteCacheManager)
    → get_elem? c.records id ≡ some r
    → read_blob_bytes c staged ≡ some content
    → Apart r.blob staged
    → let f = finish_update id r.generation previous staged c in
      (f.entries ≡ c.entries)
      × (get_elem? f.records id ≡ some (record r { blob = staged }))
      × (read_blob_bytes f staged ≡ some content)
finish_update_core id previous r staged content c here readable apart =
    let swap : PendingWriteRecord → PendingWriteRecord = λ r. record r { blob = staged } in
    let w = with_record id swap c in
    let new = accounted_bytes_for_blob c.backend (swap r) in
    let u = reaccount previous new w in
    let same_w = with_record_core id swap c in
    let same_u = reaccount_core previous new w in
    let same = remove_blob_core r.blob u in
    rw (finish_update_same id previous r staged c here) (
      same.0 ∙ same_u.0 ∙ same_w.0,
      ap (λ rs. get_elem? rs id) (same.3 ∙ same_u.1) ∙ get_elem?-with_record id swap r c here,
      read_blob_bytes-remove_blob r.blob staged u apart
          ∙ read_blob_bytes_same staged u c (same_u.2 ∙ same_w.3)
          ∙ readable,
    )

abbrev pub ApartFrom : PendingWriteBlob → Option PendingWriteBlob → Type 0
ApartFrom old none = Unit
ApartFrom old (some staged) = Apart old staged
