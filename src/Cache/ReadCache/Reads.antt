-- ===== src/Cache/ReadCache/Reads.antt =====
-- `get`, `put` and `load` of src/vfs/cache/read_cache.rs: what a reader sees, and what each
-- operation keeps.
use yh_filemanager_vfs_stora.Prelude.{
  ℕ, ◌+◌, ◌^◌, ◌≤◌, ◌<◌, ◌≡◌, refl, ◌∙◌, Bool, true, false, not, ◌&&◌, ◌||◌, inl, inr, Option, none,
  some, leb, ltb, if◌then◌else◌, length, arith, Bool-cases, Option-cases,
}
use yh_filemanager_vfs_stora.Prelude.Text.{Text, text_eq_refl}
use yh_filemanager_vfs_stora.Prelude.Table.{Table, lookup-insert, lookup-remove}
use yh_filemanager_vfs_stora.Prelude.Table
use yh_filemanager_vfs_stora.Prelude.Table.Totals.{
  insert-Distinct, total-insert_new, total-insert_old,
}
use yh_filemanager_vfs_stora.Prelude.Int.{time_after, time_after_small}
use yh_filemanager_vfs_stora.Types.{VfsFileInfo}
use yh_filemanager_vfs_stora.Cache.Policy.{allows}
use yh_filemanager_vfs_stora.Cache.ReadCache.{
  ReadCacheManager, ReadCacheEntry, ReadCacheBlob, ReadCacheBackend, DiskReply, bytes, disk, memory,
  local_dir, remove, data_path, read_blob, get, store_blob, add_entry, put_admitted, put,
  should_cache, ensure_capacity, cleanup_expired_if_due,
}
use yh_filemanager_vfs_stora.Cache.ReadCache.Accounting.{
  IsConsistent, Shrinks, Shrinks-trans, Shrinks-missing, settings, sizes, remove_core,
  remove-IsConsistent, cleanup-Shrinks, ensure_capacity-Shrinks,
}
use yh_filemanager_vfs_stora.Cache.ReadCache.Eviction.{ensure_capacity_room}

-- Writing the access time changes no size.
touched-IsConsistent :
    (k : Text) (now : ℕ) (e : ReadCacheEntry) (c : ReadCacheManager)
    → Table.lookup k c.entries ≡ some e
    → IsConsistent c
    → IsConsistent
        (record c { entries = Table.insert k (record e { last_accessed_at = now }) c.entries })
touched-IsConsistent k now e c l i =
    let e' : ReadCacheEntry = record e { last_accessed_at = now } in
    let same = total-insert_old (λ e. e.size) k e' c.entries e l in
    record {
      distinct = insert-Distinct k e' c.entries i.distinct;
      accounted = ground (arith, same, i.accounted);
      bounded = ground (arith, same, i.bounded);
      capacity = i.capacity;
    }

module _ (h : Text → Text) where
  pub get-IsConsistent :
      (k : Text) (now : ℕ) (c : ReadCacheManager) → IsConsistent c → IsConsistent (get h k now c).1
  unfolding get
  get-IsConsistent k now c i = elim (Bool-cases (not c.enabled || not (allows c.policy k))) [
    | inl off ↦ rw (off, get) i
    | inr on ↦ elim (Option-cases (Table.lookup k c.entries)) [
      | inl l ↦ rw (on, l, get) i
      | inr (e, l) ↦ elim (Bool-cases (leb e.expires_at now)) [
        | inl old ↦ rw (on, l, old, get) (remove-IsConsistent h k c i)
        | inr fresh ↦ elim (Option-cases (read_blob c e.blob)) [
          | inl b ↦
              rw (on, l, fresh, b, get)
                (remove-IsConsistent h k _ (touched-IsConsistent k now e c l i))
          | inr (t, b) ↦ rw (on, l, fresh, b, get) (touched-IsConsistent k now e c l i)
        ]
      ]
    ]
  ]

-- The entry that `put` makes.
abbrev new_entry : Text → Text → VfsFileInfo → ℕ → ℕ → ReadCacheBlob → ReadCacheEntry
new_entry key content info created_at ttl blob = record {
  key = key;
  info = info;
  size = length content;
  last_accessed_at = created_at;
  expires_at = time_after created_at ttl;
  blob = blob;
}

add_entry-IsConsistent :
    (key content : Text) (info : VfsFileInfo) (created_at : ℕ) (b : Option ReadCacheBlob)
    (c : ReadCacheManager)
    → IsConsistent c
    → Table.lookup key c.entries ≡ none
    → sizes c.entries + length content ≤ c.capacity_bytes
    → IsConsistent (add_entry key content info created_at (b, c))
unfolding add_entry
add_entry-IsConsistent key content info created_at none c i l room = i
add_entry-IsConsistent key content info created_at (some b) c i l room =
    let e = new_entry key content info created_at c.ttl_secs b in
    let grown = total-insert_new (λ e. e.size) key e c.entries l in
    record {
      distinct = insert-Distinct key e c.entries i.distinct;
      accounted = ground (arith, grown, i.accounted, i.capacity);
      bounded = ground (arith, grown);
      capacity = i.capacity;
    }

module _ (h : Text → Text) where
  store_blob-IsConsistent :
      (key content : Text) (info : VfsFileInfo) (created_at : ℕ) (reply : DiskReply)
      (c : ReadCacheManager) (b : ReadCacheBackend)
      → IsConsistent c
      → IsConsistent (store_blob h key content info created_at reply c b).1
  unfolding store_blob
  store_blob-IsConsistent key content info created_at reply c memory i = i
  store_blob-IsConsistent key content info created_at reply c local_dir i =
      elim (Bool-cases (reply.data_written && reply.meta_written)) [
        | inl e ↦ rw e (record {
          distinct = i.distinct;
          accounted = i.accounted;
          bounded = i.bounded;
          capacity = i.capacity;
        })
        | inr e ↦ rw e (record {
          distinct = i.distinct;
          accounted = i.accounted;
          bounded = i.bounded;
          capacity = i.capacity;
        })
      ]

  store_blob_core :
      (key content : Text) (info : VfsFileInfo) (created_at : ℕ) (reply : DiskReply)
      (c : ReadCacheManager) (b : ReadCacheBackend)
      → ((store_blob h key content info created_at reply c b).1.entries ≡ c.entries)
        × (settings (store_blob h key content info created_at reply c b).1 ≡ settings c)
  unfolding store_blob
  store_blob_core key content info created_at reply c memory = (refl, refl)
  store_blob_core key content info created_at reply c local_dir =
      elim (Bool-cases (reply.data_written && reply.meta_written)) [
        | inl e ↦ rw e (refl, refl)
        | inr e ↦ rw e (refl, refl)
      ]

  put_admitted-IsConsistent :
      (key content : Text) (info : VfsFileInfo) (created_at : ℕ) (reply : DiskReply) (yes_ : Bool)
      (c : ReadCacheManager)
      → IsConsistent c
      → Table.lookup key c.entries ≡ none
      → sizes c.entries + length content ≤ c.capacity_bytes
      → IsConsistent (put_admitted h key content info created_at reply (yes_, c))
  unfolding put_admitted
  put_admitted-IsConsistent key content info created_at reply false c i l room = i
  put_admitted-IsConsistent key content info created_at reply true c i l room =
      let stored = store_blob h key content info created_at reply c c.backend in
      let same = store_blob_core key content info created_at reply c c.backend in
      add_entry-IsConsistent key content info created_at stored.0 stored.1
        (store_blob-IsConsistent key content info created_at reply c c.backend i)
        (ground (arith, same)) (ground (arith, same))

  -- The state in which `put` stores: the old entry is gone, and room has been made.
  abbrev prepared : Text → Text → ℕ → ℕ → ReadCacheManager → Bool × ReadCacheManager
  prepared key content swept_at evicted_at c =
      ensure_capacity h (length content) evicted_at
        (cleanup_expired_if_due h false swept_at (remove h key c))

  prepared-Shrinks :
      (key content : Text) (swept_at evicted_at : ℕ) (c : ReadCacheManager)
      → Shrinks (remove h key c) (prepared key content swept_at evicted_at c).1
  prepared-Shrinks key content swept_at evicted_at c =
      Shrinks-trans (cleanup-Shrinks h false swept_at (remove h key c)) (
        ensure_capacity-Shrinks h (length content) evicted_at
          (cleanup_expired_if_due h false swept_at (remove h key c)))

  prepared_missing :
      (key content : Text) (swept_at evicted_at : ℕ) (c : ReadCacheManager)
      → Table.lookup key (prepared key content swept_at evicted_at c).1.entries ≡ none
  prepared_missing key content swept_at evicted_at c =
      Shrinks-missing key (prepared-Shrinks key content swept_at evicted_at c)
        (ground (arith, remove_core h key c, lookup-remove key key c.entries, text_eq_refl key))

  settings-prepared :
      (key content : Text) (swept_at evicted_at : ℕ) (c : ReadCacheManager)
      → settings (prepared key content swept_at evicted_at c).1 ≡ settings c
  settings-prepared key content swept_at evicted_at c =
      (prepared-Shrinks key content swept_at evicted_at c).settings_same ∙ (remove_core h key c).1

  prepared_room :
      (key content : Text) (swept_at evicted_at : ℕ) (c : ReadCacheManager)
      → IsConsistent c
      → length content ≤ c.capacity_bytes
      → ((prepared key content swept_at evicted_at c).0 ≡ true)
        × (sizes (prepared key content swept_at evicted_at c).1.entries + length content
            ≤ c.capacity_bytes)
  prepared_room key content swept_at evicted_at c i room =
      let r = remove h key c in
      let d = cleanup_expired_if_due h false swept_at r in
      let s = cleanup-Shrinks h false swept_at r in
      let m = ensure_capacity_room h (length content) evicted_at d in
      ground (
        arith,
        s.settings_same,
        remove_core h key c,
        m (s.consistent (remove-IsConsistent h key c i)),
      )

  -- A put keeps the counter of bytes equal to the sum of the sizes of the entries, the keys
  -- distinct and the sum within the capacity.
  pub put-IsConsistent :
      (key content : Text) (info : VfsFileInfo) (swept_at evicted_at created_at : ℕ)
      (reply : DiskReply) (c : ReadCacheManager)
      → IsConsistent c
      → IsConsistent (put h key content info swept_at evicted_at created_at reply c)
  unfolding put
  put-IsConsistent key content info swept_at evicted_at created_at reply c i =
      elim (Bool-cases (should_cache c key (length content))) [
        | inr off ↦ rw (off, put) i
        | inl on ↦
            let p = prepared key content swept_at evicted_at c in
            let room =
              prepared_room key content swept_at evicted_at c i
                (unfold should_cache in ground (arith, on)) in
            rw (on, put)
              (put_admitted-IsConsistent key content info created_at reply p.0 p.1
                ((prepared-Shrinks key content swept_at evicted_at c).consistent
                  (remove-IsConsistent h key c i))
                (prepared_missing key content swept_at evicted_at c)
                (ground (arith, room, settings-prepared key content swept_at evicted_at c)))
      ]

-- Whether the blob of a new entry could be stored.
abbrev pub stored : ReadCacheBackend → DiskReply → Bool
stored memory reply = true
stored local_dir reply = reply.data_written && reply.meta_written

module _ (h : Text → Text) where
  get-put_admitted :
      (key content : Text) (info : VfsFileInfo) (created_at now : ℕ) (reply : DiskReply)
      (c : ReadCacheManager) (b : ReadCacheBackend)
      → c.enabled ≡ true
      → allows c.policy key ≡ true
      → Table.lookup key c.entries ≡ none
      → (get h key now (
          add_entry key content info created_at
            (store_blob h key content info created_at reply c b))).0
        ≡ (if stored b reply && ltb now (time_after created_at c.ttl_secs)
            then some (content, info)
            else none)
  unfolding get add_entry store_blob
  get-put_admitted key content info created_at now reply c memory on ok_ l = ground (
    arith,
    text_eq_refl key,
    lookup-insert key key (new_entry key content info created_at c.ttl_secs (bytes content))
        c.entries,
  )
  get-put_admitted key content info created_at now reply c local_dir on ok_ l =
      let path = data_path h c.root_dir key in
      ground (
        arith,
        text_eq_refl key,
        text_eq_refl path,
        lookup-insert path path content c.data_files,
        lookup-insert key key (new_entry key content info created_at c.ttl_secs (disk path))
            c.entries,
      )

  -- In a consistent cache whose time to live does not lead past the last `i64`: after a `put` of a
  -- file that should be cached, `get` returns its content and its info until the time to live is
  -- over, if the blob could be stored; in every other case it returns nothing.
  pub get-put :
      (key content : Text) (info : VfsFileInfo) (swept_at evicted_at created_at now : ℕ)
      (reply : DiskReply) (c : ReadCacheManager)
      → IsConsistent c
      → should_cache c key (length content) ≡ true
      → created_at + c.ttl_secs < 2 ^ 63
      → (get h key now (put h key content info swept_at evicted_at created_at reply c)).0 ≡ (
          if stored c.backend reply && ltb now (created_at + c.ttl_secs)
          then some (content, info)
          else none)
  unfolding put
  get-put key content info swept_at evicted_at created_at now reply c i on small =
      let p = prepared h key content swept_at evicted_at c in
      let same = settings-prepared h key content swept_at evicted_at c in
      let limits : (length content ≤ c.capacity_bytes)
          × (c.enabled ≡ true)
          × (allows c.policy key ≡ true) =
        unfold should_cache in (ground (arith, on), ground (arith, on), ground (arith, on)) in
      let room = prepared_room h key content swept_at evicted_at c i limits.0 in
      rw (on, room.0)
        (get-put_admitted key content info created_at now reply p.1 p.1.backend
            (ground (arith, same, limits)) (ground (arith, same, limits))
            (prepared_missing h key content swept_at evicted_at c)
          ∙ ground (arith, same, time_after_small created_at c.ttl_secs small))
