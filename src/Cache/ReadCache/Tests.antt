-- ===== src/Cache/ReadCache/Tests.antt =====
-- Concrete runs of the read cache and its policy, which show that the hypotheses of their theorems can hold.
use yh_filemanager_vfs_stora.Prelude.{
  ℕ, ◌+◌, ◌≤◌, ◌≡◌, refl, true, false, not, ◌&&◌, ◌||◌, none, some, [], ◌∷◌, arith,
}
use yh_filemanager_vfs_stora.Prelude.Text.{
  Text, codes, text_eq, starts_with, ends_with, contains, trim_end_matches, trim_end_by,
  rsplit_once,
}
use yh_filemanager_vfs_stora.Prelude.Table
use yh_filemanager_vfs_stora.Types.{VfsFileInfo}
use yh_filemanager_vfs_stora.Wal.Recovery.{recovered_info}
use yh_filemanager_vfs_stora.Cache.Policy.{
  CachePathPolicy, allows, is_temp_namespace_path, extension_allowed, normalized_file_extension,
  is_recycle_bin_path, is_thumbnail_path,
}
use yh_filemanager_vfs_stora.Cache.Policy.Segments.{has_segment, allows_iff}
use yh_filemanager_vfs_stora.Cache.ReadCache.{
  ReadCacheManager, ReadCacheEntry, DiskReply, bytes, memory, ensure_capacity, evict, remove,
  oldest, fits, discount, drop_blob, cleanup_expired_if_due, remove_all, expired_keys, get, put,
  should_cache,
}
use yh_filemanager_vfs_stora.Cache.ReadCache.Accounting.{IsConsistent, sizes}
use yh_filemanager_vfs_stora.Cache.ReadCache.Eviction.{ensure_capacity_room, ensure_capacity_lru}
use yh_filemanager_vfs_stora.Cache.ReadCache.Reads.{put-IsConsistent, get-put}
use yh_filemanager_vfs_stora.Cache.ReadCache.Reach.{
  Reach, begin, then_get, then_put, Reach-IsConsistent,
}

abbrev plain_policy : CachePathPolicy
plain_policy = record { allow_thumbnail_paths = false; skip_extensions = codes "tmp" ∷ [] }

abbrev info : VfsFileInfo
info = recovered_info (codes "/a") false 2 none

abbrev entry : Text → ℕ → ReadCacheEntry
entry key accessed = record {
  key = key;
  info = info;
  size = 2;
  last_accessed_at = accessed;
  expires_at = 100;
  blob = bytes (codes "xy");
}

abbrev two_files : ReadCacheManager
two_files = record {
  enabled = true;
  backend = memory;
  root_dir = codes "cache";
  capacity_bytes = 4;
  max_file_size_bytes = 4;
  ttl_secs = 60;
  cleanup_interval_secs = 15;
  policy = plain_policy;
  entries = (codes "/a", entry (codes "/a") 1) ∷ (codes "/b", entry (codes "/b") 5) ∷ [];
  accounted_bytes = 4;
  last_cleanup_ts = 0;
  data_files = [];
  meta_files = [];
}

abbrev same_text : Text → Text
same_text key = key

two_files-IsConsistent : IsConsistent two_files
unfolding Table.lookup text_eq
two_files-IsConsistent = record {
  distinct = (refl, (refl, tt));
  accounted = refl;
  bounded = omega arith;
  capacity = omega arith;
}

allows_iff_example : allows plain_policy (codes "/x/a.tmp") ≡ (
    let normalized = trim_end_matches b'/' (codes "/x/a.tmp") in
    not (is_temp_namespace_path (codes "/x/a.tmp"))
    && not (has_segment (codes ".recycle_bin") (codes "/x/a.tmp"))
    && (false
        || not (
            has_segment (codes ".thumbs") normalized
            || has_segment (codes ".thumbs_cache") normalized))
    && extension_allowed (codes "tmp" ∷ []) (normalized_file_extension (codes "/x/a.tmp")))
allows_iff_example = allows_iff plain_policy (codes "/x/a.tmp")

ensure_capacity_room_example :
    ((ensure_capacity same_text 2 9 two_files).0 ≡ true)
    × (sizes (ensure_capacity same_text 2 9 two_files).1.entries + 2 ≤ 4)
ensure_capacity_room_example =
    ensure_capacity_room same_text 2 9 two_files two_files-IsConsistent (omega arith)

ensure_capacity_lru_example : 1 ≤ 5
unfolding ensure_capacity evict remove oldest fits discount drop_blob cleanup_expired_if_due
    remove_all expired_keys Table.lookup Table.remove text_eq
ensure_capacity_lru_example =
    ensure_capacity_lru same_text 2 9 two_files (codes "/a") (codes "/b") (entry (codes "/a") 1)
      (entry (codes "/b") 5) two_files-IsConsistent refl (omega arith) refl refl

abbrev written : DiskReply
written = record { data_written = true; meta_written = true }

put-IsConsistent_example :
    IsConsistent (put same_text (codes "/c") (codes "xyz") info 9 9 9 written two_files)
put-IsConsistent_example =
    put-IsConsistent same_text (codes "/c") (codes "xyz") info 9 9 9 written two_files
      two_files-IsConsistent

get-put_example :
    (get same_text
      (codes "/c")
      12
      (put same_text (codes "/c") (codes "xyz") info 9 9 9 written two_files)).0
    ≡ some (codes "xyz", info)
unfolding should_cache allows is_temp_namespace_path is_recycle_bin_path is_thumbnail_path
    extension_allowed normalized_file_extension rsplit_once text_eq starts_with ends_with contains
    trim_end_by
get-put_example =
    get-put same_text (codes "/c") (codes "xyz") info 9 9 9 12 written two_files
      two_files-IsConsistent refl (omega arith)

-- Two files are put into an empty cache, which has no room for both, and one is asked for.
abbrev no_files : ReadCacheManager
no_files = record two_files { entries = []; accounted_bytes = 0 }

abbrev calls :
    Reach same_text no_files
      (get same_text (codes "/d") 9 (
        put same_text
          (codes "/d")
          (codes "xy")
          info
          8
          8
          8
          written
          (put same_text (codes "/c") (codes "xyz") info 7 7 7 written no_files))).1
calls = then_get (codes "/d") 9 (
    then_put (codes "/d") (codes "xy") info 8 8 8 written
      (then_put (codes "/c") (codes "xyz") info 7 7 7 written begin))

Reach-IsConsistent_example :
    IsConsistent
      (get same_text (codes "/d") 9 (
        put same_text
          (codes "/d")
          (codes "xy")
          info
          8
          8
          8
          written
          (put same_text (codes "/c") (codes "xyz") info 7 7 7 written no_files))).1
Reach-IsConsistent_example =
    Reach-IsConsistent same_text no_files
      (get same_text (codes "/d") 9 (
        put same_text (codes "/d") (codes "xy") info 8 8 8 written
          (put same_text (codes "/c") (codes "xyz") info 7 7 7 written no_files))).1
      refl refl (omega arith) calls
