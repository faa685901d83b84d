-- ===== src/Cache/ReadCache/Eviction.antt =====
-- `ensure_capacity` of src/vfs/cache/read_cache.rs: the loop ends, makes room, and removes the
-- entries in the order of their last access.
use yh_filemanager_vfs_stora.Prelude.{
  ℕ, zero, suc, ◌+◌, ◌≤◌, ◌<◌, ◌≡◌, refl, ◌∙◌, Bool, true, false, inl, inr, Option, none, some,
  List, any, [], ◌∷◌, leb, if◌then◌else◌, length, arith, Bool-cases, Option-cases,
}
use yh_filemanager_vfs_stora.Prelude.Text.{Text, text_eq, text_eq_refl, text_eq_iff}
use yh_filemanager_vfs_stora.Prelude.Table.{Table, lookup-remove}
use yh_filemanager_vfs_stora.Prelude.Table
use yh_filemanager_vfs_stora.Prelude.Table.Totals.{Distinct, length-remove-lt}
use yh_filemanager_vfs_stora.Cache.ReadCache.{
  ReadCacheManager, ReadCacheEntry, remove, fits, evict, oldest, ensure_capacity,
  cleanup_expired_if_due, remove_all, expired_keys,
}
use yh_filemanager_vfs_stora.Cache.ReadCache.Accounting.{
  IsConsistent, sizes, remove_core, remove-Shrinks, remove-IsConsistent, evict-Shrinks, evict-fits,
  cleanup-Shrinks,
}

-- `oldest` finds an entry of the table, and none was read earlier.
oldest-eq-none : (m : Table ReadCacheEntry) → oldest m ≡ none → m ≡ []
unfolding oldest
oldest-eq-none [] e = refl
oldest-eq-none ((k, v) ∷ m) e = absurd (ground (arith))

lookup-oldest :
    (m : Table ReadCacheEntry) (k : Text) (e : ReadCacheEntry)
    → Distinct m
    → oldest m ≡ some (k, e)
    → Table.lookup k m ≡ some e
unfolding oldest Table.lookup
lookup-oldest [] k e d o = absurd (cc)
lookup-oldest ((j, v) ∷ m) k e d o = elim (Option-cases (oldest m)) [
  | inl n ↦ ground (arith, text_eq_refl k)
  | inr ((i, f), s) ↦ ground (arith, text_eq_refl k, lookup-oldest m i f d.1 s, text_eq_iff j i)
]

oldest-le :
    (m : Table ReadCacheEntry) (k j : Text) (e f : ReadCacheEntry)
    → oldest m ≡ some (k, e)
    → Table.lookup j m ≡ some f
    → e.last_accessed_at ≤ f.last_accessed_at
unfolding oldest Table.lookup
oldest-le [] k j e f o l = absurd (cc)
oldest-le ((i, v) ∷ m) k j e f o l = elim (Option-cases (oldest m)) [
  | inl n ↦ ground (arith, oldest-eq-none m n)
  | inr ((i', f'), s) ↦ ground (arith, oldest-le m i' j f' f s)
]

module _ (h : Text → Text) where
  -- With fuel above the number of entries the loop stops by its tests: it says no only where no
  -- entry is left.
  pub evict_stops :
      (fuel required : ℕ) (c : ReadCacheManager)
      → IsConsistent c
      → length c.entries < fuel
      → (evict h fuel required c).0 ≡ false
      → (fits required (evict h fuel required c).1 ≡ false)
        × ((evict h fuel required c).1.entries ≡ [])
  unfolding evict
  evict_stops zero required c i l n = absurd (omega arith)
  evict_stops (suc fuel) required c i l n = elim (Bool-cases (fits required c)) [
    | inl e ↦ cc (rw (e, evict) at n)
    | inr e ↦ elim (Option-cases (oldest c.entries)) [
      | inl o ↦ rw (e, o, evict) (e, oldest-eq-none c.entries o)
      | inr ((k, f), o) ↦
          rw (e, o, evict)
            (evict_stops fuel required (remove h k c) (remove-IsConsistent h k c i)
              (ground (
                arith,
                remove_core h k c,
                length-remove-lt k c.entries f (lookup-oldest c.entries k f i.distinct o),
              ))
              (rw (e, o, evict) at n))
    ]
  ]

  -- What the loop has removed was read no later than anything that it has left.
  pub evict-le :
      (fuel required : ℕ) (c : ReadCacheManager) (j k : Text) (e f : ReadCacheEntry)
      → IsConsistent c
      → Table.lookup j c.entries ≡ some e
      → Table.lookup j (evict h fuel required c).1.entries ≡ none
      → Table.lookup k (evict h fuel required c).1.entries ≡ some f
      → e.last_accessed_at ≤ f.last_accessed_at
  unfolding evict
  evict-le zero required c j k e f i there gone left = absurd (cc)
  evict-le (suc fuel) required c j k e f i there gone left = elim (Bool-cases (fits required c)) [
    | inl y ↦ absurd (cc (rw (y, evict) at gone))
    | inr n ↦ elim (Option-cases (oldest c.entries)) [
      | inl o ↦ absurd (cc (rw (n, o, evict) at gone))
      | inr ((x, v), o) ↦
          let gone' = rw (n, o, evict) at gone in
          let left' = rw (n, o, evict) at left in
          elim (Bool-cases (text_eq x j)) [
            | inl same ↦ ground (
              arith,
              text_eq_iff x j,
              lookup-oldest c.entries x v i.distinct o,
              oldest-le c.entries x k v f o (
                  (remove-Shrinks h x c).kept k f
                    ((evict-Shrinks h fuel required (remove h x c)).kept k f left')),
            )
            | inr other ↦
                evict-le fuel required (remove h x c) j k e f (remove-IsConsistent h x c i)
                  (ground (arith, remove_core h x c, lookup-remove x j c.entries)) gone' left'
          ]
    ]
  ]

-- An entry that has expired is read as missing.
abbrev pub drop_expired : ℕ → Option ReadCacheEntry → Option ReadCacheEntry
drop_expired now none = none
drop_expired now (some e) = if leb e.expires_at now then none else some e

abbrev listed : Text → List Text → Bool
listed j = any (λ k. text_eq k j)

listed_missing :
    (now : ℕ) (j : Text) (m : Table ReadCacheEntry)
    → Table.lookup j m ≡ none
    → listed j (expired_keys now m) ≡ false
unfolding expired_keys Table.lookup
listed_missing now j [] e = refl
listed_missing now j ((k, v) ∷ m) e = ground (arith, listed_missing now j m)

listed-expired_keys :
    (now : ℕ) (j : Text) (m : Table ReadCacheEntry)
    → Distinct m
    → (if listed j (expired_keys now m) then none else Table.lookup j m)
      ≡ drop_expired now (Table.lookup j m)
unfolding expired_keys Table.lookup
listed-expired_keys now j [] d = refl
listed-expired_keys now j ((k, e) ∷ m) d =
    ground (arith, listed-expired_keys now j m d.1, listed_missing now j m, text_eq_iff k j)

module _ (h : Text → Text) where
  lookup-remove_all :
      (j : Text) (ks : List Text) (c : ReadCacheManager)
      → Table.lookup j (remove_all h ks c).entries
        ≡ (if listed j ks then none else Table.lookup j c.entries)
  unfolding remove_all
  lookup-remove_all j [] c = refl
  lookup-remove_all j (k ∷ ks) c =
      ground (
        arith,
        lookup-remove_all j ks (remove h k c),
        remove_core h k c,
        lookup-remove k j c.entries,
      )

  -- A forced sweep removes exactly the entries that have expired.
  pub lookup-cleanup :
      (now : ℕ) (j : Text) (c : ReadCacheManager)
      → IsConsistent c
      → Table.lookup j (cleanup_expired_if_due h true now c).entries
        ≡ drop_expired now (Table.lookup j c.entries)
  unfolding cleanup_expired_if_due
  lookup-cleanup now j c i =
      lookup-remove_all j (expired_keys now c.entries) (record c { last_cleanup_ts = now })
      ∙ listed-expired_keys now j c.entries i.distinct

  -- Room for a file that is within the capacity is always made: the answer is yes, and the sizes
  -- that are left leave room for the new file.
  pub ensure_capacity_room :
      (required now : ℕ) (c : ReadCacheManager)
      → IsConsistent c
      → required ≤ c.capacity_bytes
      → ((ensure_capacity h required now c).0 ≡ true)
        × (sizes (ensure_capacity h required now c).1.entries + required ≤ c.capacity_bytes)
  unfolding ensure_capacity fits
  ensure_capacity_room required now c i r =
      let d = cleanup_expired_if_due h true now c in
      let fuel = suc (length d.entries) in
      let s = cleanup-Shrinks h true now c in
      let t = evict-Shrinks h fuel required d in
      let last = t.consistent (s.consistent i) in
      elim (Bool-cases (evict h fuel required d).0) [
        | inl yes_ ↦ (
          yes_,
          ground (
            arith,
            evict-fits h fuel required d yes_,
            last.accounted,
            last.bounded,
            last.capacity,
            s.settings_same,
            t.settings_same,
          ),
        )
        | inr no_ ↦ absurd (
            ground (
              arith,
              evict_stops h fuel required d (s.consistent i) (omega arith) no_,
              last.accounted,
              last.capacity,
              s.settings_same,
              t.settings_same,
            ))
      ]

  -- Making room takes away what has expired, and beyond that the entries in the order of their
  -- last access: what is gone and had not expired was read no later than anything that is left.
  pub ensure_capacity_lru :
      (required now : ℕ) (c : ReadCacheManager) (j k : Text) (e f : ReadCacheEntry)
      → IsConsistent c
      → Table.lookup j c.entries ≡ some e
      → now < e.expires_at
      → Table.lookup j (ensure_capacity h required now c).1.entries ≡ none
      → Table.lookup k (ensure_capacity h required now c).1.entries ≡ some f
      → e.last_accessed_at ≤ f.last_accessed_at
  unfolding ensure_capacity
  ensure_capacity_lru required now c j k e f i there fresh gone left =
      let d = cleanup_expired_if_due h true now c in
      evict-le h (suc (length d.entries)) required d j k e f
        ((cleanup-Shrinks h true now c).consistent i) (ground (arith, lookup-cleanup now j c i))
        gone left
