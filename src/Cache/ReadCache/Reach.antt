-- ===== src/Cache/ReadCache/Reach.antt =====
-- src/vfs/cache/read_cache.rs: what calls of the cache, one after the other, can lead to.
use yh_filemanager_vfs_stora.Prelude.{ℕ, ◌+◌, ◌<◌, ◌≡◌, sym, ap, subst, ◌∙◌, Bool, [], arith}
use yh_filemanager_vfs_stora.Prelude.Text.{Text}
use yh_filemanager_vfs_stora.Prelude.Table.Totals.{Distinct}
use yh_filemanager_vfs_stora.Types.{VfsFileInfo}
use yh_filemanager_vfs_stora.Cache.ReadCache.{
  ReadCacheManager, DiskReply, u64_mod, remove, cleanup_expired_if_due, get, put,
}
use yh_filemanager_vfs_stora.Cache.ReadCache.Accounting.{
  IsConsistent, sizes, remove-IsConsistent, cleanup-Shrinks,
}
use yh_filemanager_vfs_stora.Cache.ReadCache.Reads.{get-IsConsistent, put-IsConsistent}

-- The calls of a client and the sweeps, at any times and with any answers of the file system.
pub data Reach (h : Text → Text) (start : ReadCacheManager) : ReadCacheManager → Type 0 where
  begin : Reach h start start
  then_get :
      {c : ReadCacheManager} (key : Text) (now : ℕ)
      → Reach h start c
      → Reach h start (get h key now c).1
  then_put :
      {c : ReadCacheManager} (key content : Text) (info : VfsFileInfo)
      (swept_at evicted_at created_at : ℕ) (reply : DiskReply)
      → Reach h start c
      → Reach h start (put h key content info swept_at evicted_at created_at reply c)
  then_remove :
      {c : ReadCacheManager} (key : Text) → Reach h start c → Reach h start (remove h key c)
  then_cleanup :
      {c : ReadCacheManager} (force : Bool) (now : ℕ)
      → Reach h start c
      → Reach h start (cleanup_expired_if_due h force now c)

empty-IsConsistent :
    (c : ReadCacheManager)
    → c.entries ≡ []
    → c.accounted_bytes ≡ 0
    → c.capacity_bytes + 1 < u64_mod
    → IsConsistent c
empty-IsConsistent c none_there nothing small =
    let size : sizes c.entries ≡ 0 = ap sizes none_there in
    record {
      distinct = subst Distinct (sym none_there) tt;
      accounted = nothing ∙ sym size;
      bounded = omega (arith, size);
      capacity = small;
    }

module _ (h : Text → Text) (start : ReadCacheManager) where
  -- Whatever calls a cache without entries has taken, one after the other, its counter of bytes is
  -- the sum of the sizes of its entries, the keys are distinct, and the sum is within the capacity.
  pub Reach-IsConsistent :
      (c : ReadCacheManager)
      → start.entries ≡ []
      → start.accounted_bytes ≡ 0
      → start.capacity_bytes + 1 < u64_mod
      → Reach h start c
      → IsConsistent c
  Reach-IsConsistent c e a k begin = empty-IsConsistent start e a k
  Reach-IsConsistent c e a k (then_get {c = d} key now r) =
      get-IsConsistent h key now d (Reach-IsConsistent d e a k r)
  Reach-IsConsistent c e a k (then_put {c = d} key content info s v w reply r) =
      put-IsConsistent h key content info s v w reply d (Reach-IsConsistent d e a k r)
  Reach-IsConsistent c e a k (then_remove {c = d} key r) =
      remove-IsConsistent h key d (Reach-IsConsistent d e a k r)
  Reach-IsConsistent c e a k (then_cleanup {c = d} force now r) =
      (cleanup-Shrinks h force now d).consistent (Reach-IsConsistent d e a k r)
