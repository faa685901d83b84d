-- ===== src/Cache/ReadCache.antt =====
-- src/vfs/cache/read_cache.rs: the cache of whole files that have been read. Each reading of the
-- clock is an argument of its operation, and so is what the file system answers to a write. The
-- SHA-256 of a key (`cache_hash`) is a parameter. A meta file is modelled by the record that its
-- JSON holds. The counters of `global_vfs_metrics` and the log lines are left out.
pub mod Accounting
pub mod Eviction
pub mod Reads
pub mod Reach
mod Tests
use yh_filemanager_vfs_stora.Prelude.{
  ℕ, zero, suc, ◌+◌, ◌-◌, ◌/◌, ◌%◌, ◌^◌, min, max, Bool, true, false, not, ◌&&◌, ◌||◌, Option, none,
  some, List, [], ◌∷◌, ◌++◌, leb, ltb, if◌then◌else◌, length,
}
use yh_filemanager_vfs_stora.Prelude.Text.{Text, codes}
use yh_filemanager_vfs_stora.Prelude.Table.{Table}
use yh_filemanager_vfs_stora.Prelude.Table
use yh_filemanager_vfs_stora.Prelude.Int.{time_after}
use yh_filemanager_vfs_stora.Types.{VfsFileInfo}
use yh_filemanager_vfs_stora.Cache.Policy.{CachePathPolicy, allows}

abbrev pub u64_mod : ℕ
u64_mod = 2 ^ 64

pub data ReadCacheBackend : Type 0 where
  memory local_dir : ReadCacheBackend

pub data ReadCacheBlob : Type 0 where
  bytes : Text → ReadCacheBlob
  disk : Text → ReadCacheBlob

pub record ReadCacheEntry : Type 0 where
  pub key : Text
  pub info : VfsFileInfo
  pub size : ℕ
  pub last_accessed_at : ℕ
  pub expires_at : ℕ
  pub blob : ReadCacheBlob

pub record ReadCacheDiskMeta : Type 0 where
  pub key : Text
  pub info : VfsFileInfo
  pub size : ℕ
  pub created_at : ℕ
  pub expires_at : ℕ

pub record ReadCacheManager : Type 0 where
  pub enabled : Bool
  pub backend : ReadCacheBackend
  pub root_dir : Text
  pub capacity_bytes : ℕ
  pub max_file_size_bytes : ℕ
  pub ttl_secs : ℕ
  pub cleanup_interval_secs : ℕ
  pub policy : CachePathPolicy
  pub entries : Table ReadCacheEntry
  pub accounted_bytes : ℕ
  pub last_cleanup_ts : ℕ
  -- The directory of the cache on disk: data files, and meta files.
  pub data_files : Table Text
  pub meta_files : Table ReadCacheDiskMeta

-- What the file system answers to the two writes of a `put`.
pub record DiskReply : Type 0 where
  pub data_written : Bool
  pub meta_written : Bool

-- `cleanup_interval_secs` of `new`.
pub cleanup_interval : ℕ → ℕ
cleanup_interval ttl = min (max (ttl / 4) 1) 60

pub should_cache : ReadCacheManager → Text → ℕ → Bool
should_cache c path size =
    c.enabled
    && allows c.policy path
    && ltb 0 size
    && leb size c.max_file_size_bytes
    && leb size c.capacity_bytes

-- `fetch_add` and `fetch_sub` of an `AtomicU64`.
pub account : ℕ → ReadCacheManager → ReadCacheManager
account n c = record c { accounted_bytes = (c.accounted_bytes + n) % u64_mod }

pub discount : ℕ → ReadCacheManager → ReadCacheManager
discount n c = record c { accounted_bytes = (c.accounted_bytes + u64_mod - n % u64_mod) % u64_mod }

-- The entry that `min_by_key(last_accessed_at)` finds: of equal ones the first.
pub oldest : Table ReadCacheEntry → Option (Text × ReadCacheEntry)
oldest [] = none
oldest ((k, e) ∷ m) = elim (oldest m) [
  | none ↦ some (k, e)
  | some (j, f) ↦ if leb e.last_accessed_at f.last_accessed_at then some (k, e) else some (j, f)
]

pub expired_keys : ℕ → Table ReadCacheEntry → List Text
expired_keys now [] = []
expired_keys now ((k, e) ∷ m) =
    let rest = expired_keys now m in if leb e.expires_at now then k ∷ rest else rest

pub delete_files : Text → Text → ReadCacheManager → ReadCacheManager
delete_files data_file meta_file c = record c {
  data_files = Table.remove data_file c.data_files;
  meta_files = Table.remove meta_file c.meta_files;
}

-- `used.saturating_add(required) <= capacity_bytes`.
pub fits : ℕ → ReadCacheManager → Bool
fits required c = leb (min (c.accounted_bytes + required) (u64_mod - 1)) c.capacity_bytes

pub read_blob : ReadCacheManager → ReadCacheBlob → Option Text
read_blob c (bytes b) = some b
read_blob c (disk path) = Table.lookup path c.data_files

pub add_entry :
    Text → Text → VfsFileInfo → ℕ → Option ReadCacheBlob × ReadCacheManager → ReadCacheManager
unfolding account
add_entry key content info created_at (none, c) = c
add_entry key content info created_at (some blob, c) =
    let c' = account (length content) c in
    record c' {
      entries =
          Table.insert key
            (record {
              key = key;
              info = info;
              size = length content;
              last_accessed_at = created_at;
              expires_at = time_after created_at c.ttl_secs;
              blob = blob;
            })
            c.entries;
    }

module _ (cache_hash : Text → Text) where
  pub data_path : Text → Text → Text
  data_path root key = root ++ (b'/' ∷ (cache_hash key ++ codes ".bin"))

  pub meta_path : Text → Text → Text
  meta_path root key = root ++ (b'/' ∷ (cache_hash key ++ codes ".json"))

  pub drop_blob : ReadCacheEntry → ReadCacheBlob → ReadCacheManager → ReadCacheManager
  unfolding delete_files
  drop_blob entry (bytes b) c = c
  drop_blob entry (disk path) c = delete_files path (meta_path c.root_dir entry.key) c

  pub remove : Text → ReadCacheManager → ReadCacheManager
  unfolding drop_blob discount
  remove key c = elim (Table.lookup key c.entries) [
    | none ↦ c
    | some entry ↦
        drop_blob entry entry.blob
          (discount entry.size (record c { entries = Table.remove key c.entries }))
  ]

  pub remove_all : List Text → ReadCacheManager → ReadCacheManager
  remove_all [] c = c
  remove_all (k ∷ ks) c = remove_all ks (remove k c)

  -- `now.saturating_sub(last) < cleanup_interval_secs` skips the sweep unless it is forced.
  pub cleanup_expired_if_due : Bool → ℕ → ReadCacheManager → ReadCacheManager
  cleanup_expired_if_due force now c =
      if not force && ltb (now - c.last_cleanup_ts) c.cleanup_interval_secs
      then c
      else remove_all (expired_keys now c.entries) (record c { last_cleanup_ts = now })

  -- The loop of `ensure_capacity`. Each round removes an entry, so fuel above their number is never
  -- used up.
  pub evict : ℕ → ℕ → ReadCacheManager → Bool × ReadCacheManager
  evict zero required c = (false, c)
  evict (suc fuel) required c = elim (fits required c) [
    | true ↦ (true, c)
    | false ↦ elim (oldest c.entries) [
      | none ↦ (false, c)
      | some (k, e) ↦ evict fuel required (remove k c)
    ]
  ]

  pub ensure_capacity : ℕ → ℕ → ReadCacheManager → Bool × ReadCacheManager
  ensure_capacity required now c =
      let c' = cleanup_expired_if_due true now c in evict (suc (length c'.entries)) required c'

  -- A hit on an entry that has not expired: the access time is written, and the blob is read.
  pub serve :
      Text
      → ReadCacheEntry
      → Option Text
      → ReadCacheManager
      → Option (Text × VfsFileInfo) × ReadCacheManager
  serve key entry none c = (none, remove key c)
  serve key entry (some content) c = (some (content, entry.info), c)

  pub get : Text → ℕ → ReadCacheManager → Option (Text × VfsFileInfo) × ReadCacheManager
  unfolding serve read_blob
  get key now c =
      if not c.enabled || not (allows c.policy key)
      then (none, c)
      else elim (Table.lookup key c.entries) [
        | none ↦ (none, c)
        | some entry ↦
            if leb entry.expires_at now
            then (none, remove key c)
            else serve key entry (read_blob c entry.blob) (record c {
              entries = Table.insert key (record entry { last_accessed_at = now }) c.entries;
            })
      ]

  -- The blob of a new entry: the data, or the path of the file that holds it. Both files are
  -- deleted if one of them could not be written.
  pub store_blob :
      Text
      → Text
      → VfsFileInfo
      → ℕ
      → DiskReply
      → ReadCacheManager
      → ReadCacheBackend
      → Option ReadCacheBlob × ReadCacheManager
  unfolding delete_files data_path meta_path
  store_blob key content info created_at reply c memory = (some (bytes content), c)
  store_blob key content info created_at reply c local_dir =
      let data_file = data_path c.root_dir key in
      let meta_file = meta_path c.root_dir key in
      if reply.data_written && reply.meta_written
      then (
        some (disk data_file),
        record c {
          data_files = Table.insert data_file content c.data_files;
          meta_files =
              Table.insert meta_file
                (record {
                  key = key;
                  info = info;
                  size = length content;
                  created_at = created_at;
                  expires_at = time_after created_at c.ttl_secs;
                })
                c.meta_files;
        },
      )
      else (none, delete_files data_file meta_file c)

  pub put_admitted :
      Text → Text → VfsFileInfo → ℕ → DiskReply → Bool × ReadCacheManager → ReadCacheManager
  unfolding add_entry store_blob
  put_admitted key content info created_at reply (false, c) = c
  put_admitted key content info created_at reply (true, c) =
      add_entry key content info created_at
        (store_blob key content info created_at reply c c.backend)

  -- The clock is read at the sweep, at the eviction and for the new entry.
  pub put : Text → Text → VfsFileInfo → ℕ → ℕ → ℕ → DiskReply → ReadCacheManager → ReadCacheManager
  unfolding put_admitted
  put key content info swept_at evicted_at created_at reply c =
      if not (should_cache c key (length content))
      then c
      else put_admitted key content info created_at reply (
          ensure_capacity (length content) evicted_at
            (cleanup_expired_if_due false swept_at (remove key c)))

  -- A file of the directory at start: `none` where it is no readable meta file.
  load_entry : ℕ → Option (Text × ReadCacheDiskMeta) → ReadCacheManager → ReadCacheManager
  unfolding data_path delete_files account
  load_entry now none c = c
  load_entry now (some (path, meta)) c =
      let data_file = data_path c.root_dir meta.key in
      if leb meta.expires_at now
      then delete_files data_file path c
      else if Table.contains_key data_file c.data_files
      then (let c' = account meta.size c in
          record c' {
            entries =
                Table.insert meta.key
                  (record {
                    key = meta.key;
                    info = meta.info;
                    size = meta.size;
                    last_accessed_at = meta.created_at;
                    expires_at = meta.expires_at;
                    blob = disk data_file;
                  })
                  c.entries;
          })
      else record c { meta_files = Table.remove path c.meta_files }

  load_entries : ℕ → List (Option (Text × ReadCacheDiskMeta)) → ReadCacheManager → ReadCacheManager
  unfolding load_entry
  load_entries now [] c = c
  load_entries now (file ∷ files) c = load_entries now files (load_entry now file c)

  abbrev on_disk : ReadCacheBackend → Bool
  on_disk memory = false
  on_disk local_dir = true

  pub load_existing_entries :
      ℕ → List (Option (Text × ReadCacheDiskMeta)) → ReadCacheManager → ReadCacheManager
  unfolding load_entries
  load_existing_entries now files c =
      if not c.enabled || not (on_disk c.backend)
      then c
      else cleanup_expired_if_due true now (load_entries now files c)
