-- ===== src/Cache/WriteCache/Heap.antt =====
-- The heap of records of src/vfs/cache/write_cache.rs: a change of one record.
use yh_filemanager_vfs_stora.Prelude.{
  ℕ, ◌≡◌, ◌≢◌, refl, ap, ◌∙◌, some, get_elem?, get_elem?-set, Option-cases, inl, inr, arith,
}
use yh_filemanager_vfs_stora.Prelude.Text.{text_eq_iff}
use yh_filemanager_vfs_stora.Prelude.Table.{lookup-remove}
use yh_filemanager_vfs_stora.Prelude.Table
use yh_filemanager_vfs_stora.Cache.WriteCache.{
  WriteCacheManager, read_blob_bytes, PendingWriteRecord, PendingWriteBlob, bytes, disk,
  with_record, remove_blob, reaccount, account, discount,
}

pub get_elem?-with_record :
    (id : ℕ) (f : PendingWriteRecord → PendingWriteRecord) (r : PendingWriteRecord)
    (c : WriteCacheManager)
    → get_elem? c.records id ≡ some r
    → get_elem? (with_record id f c).records id ≡ some (f r)
unfolding with_record
get_elem?-with_record id f r c here =
    rw (here, with_record) (get_elem?-set c.records id (f r) r here)

-- What the pieces of an operation leave alone.
pub with_record_core :
    (id : ℕ) (f : PendingWriteRecord → PendingWriteRecord) (c : WriteCacheManager)
    → let c' = with_record id f c in
      (c'.entries ≡ c.entries)
      × (c'.accounted_bytes ≡ c.accounted_bytes)
      × (c'.primary ≡ c.primary)
      × (c'.blob_files ≡ c.blob_files)
      × (c'.backend ≡ c.backend)
unfolding with_record
with_record_core id f c = elim (Option-cases (get_elem? c.records id)) [
  | inl l ↦ rw (l, with_record) (refl, refl, refl, refl, refl)
  | inr (r, l) ↦ rw (l, with_record) (refl, refl, refl, refl, refl)
]

pub remove_blob_core :
    (blob : PendingWriteBlob) (c : WriteCacheManager)
    → let c' = remove_blob blob c in
      (c'.entries ≡ c.entries)
      × (c'.accounted_bytes ≡ c.accounted_bytes)
      × (c'.primary ≡ c.primary)
      × (c'.records ≡ c.records)
      × (c'.read_cache ≡ c.read_cache)
      × (c'.policy ≡ c.policy)
unfolding remove_blob
remove_blob_core (bytes b) c = (refl, refl, refl, refl, refl, refl)
remove_blob_core (disk p) c = (refl, refl, refl, refl, refl, refl)

pub reaccount_core :
    (previous new : ℕ) (c : WriteCacheManager)
    → let c' = reaccount previous new c in
      (c'.entries ≡ c.entries)
      × (c'.records ≡ c.records)
      × (c'.blob_files ≡ c.blob_files)
      × (c'.primary ≡ c.primary)
unfolding reaccount account discount
reaccount_core previous new c = ground arith

-- Two blobs that are not the same file.
abbrev pub Apart : PendingWriteBlob → PendingWriteBlob → Type 0
Apart (disk p) (disk q) = p ≢ q
Apart _ _ = Unit

pub read_blob_bytes-remove_blob :
    (old blob : PendingWriteBlob) (c : WriteCacheManager)
    → Apart old blob
    → read_blob_bytes (remove_blob old c) blob ≡ read_blob_bytes c blob
unfolding read_blob_bytes remove_blob
read_blob_bytes-remove_blob (bytes b) blob c n = refl
read_blob_bytes-remove_blob (disk p) (bytes b) c n = refl
read_blob_bytes-remove_blob (disk p) (disk q) c n =
    lookup-remove p q c.blob_files ∙ ground (arith, text_eq_iff p q)

pub read_blob_bytes_same :
    (blob : PendingWriteBlob) (c d : WriteCacheManager)
    → c.blob_files ≡ d.blob_files
    → read_blob_bytes c blob ≡ read_blob_bytes d blob
unfolding read_blob_bytes
read_blob_bytes_same (bytes b) c d e = refl
read_blob_bytes_same (disk p) c d e = ap (Table.lookup p) e
