-- ===== src/Cache/ReadCache/Accounting.antt =====
-- src/vfs/cache/read_cache.rs: the counter of bytes agrees with the entries, and stays within the
-- capacity.
use yh_filemanager_vfs_stora.Prelude.{
  ℕ, zero, suc, ◌+◌, ◌-◌, ◌%◌, ◌≤◌, ◌<◌, ◌≡◌, refl, ◌∙◌, ap, sym, Bool, true, not, ◌&&◌, inl, inr,
  none, some, List, [], ◌∷◌, ltb, arith, Bool-cases, Option-cases,
}
use yh_filemanager_vfs_stora.Prelude.Text.{Text}
use yh_filemanager_vfs_stora.Prelude.Table.{Table, lookup-remove}
use yh_filemanager_vfs_stora.Prelude.Table
use yh_filemanager_vfs_stora.Prelude.Table.Totals.{
  Distinct, total, remove-Distinct, total-remove, total-remove-le, remove-eq_self,
}
use yh_filemanager_vfs_stora.Cache.Policy.{CachePathPolicy}
use yh_filemanager_vfs_stora.Cache.ReadCache.{
  ReadCacheManager, ReadCacheEntry, ReadCacheBlob, ReadCacheBackend, bytes, disk, u64_mod, remove,
  remove_all, drop_blob, discount, fits, evict, oldest, cleanup_expired_if_due, expired_keys,
  ensure_capacity,
}

abbrev pub sizes : Table ReadCacheEntry → ℕ
sizes = total (λ e. e.size)

-- The counter is the sum of the sizes, no key stands twice, and the sum is within the capacity,
-- which is below the largest `u64`.
pub record IsConsistent (c : ReadCacheManager) : Type 0 where
  pub distinct : Distinct c.entries
  pub accounted : c.accounted_bytes ≡ sizes c.entries
  pub bounded : sizes c.entries ≤ c.capacity_bytes
  pub capacity : c.capacity_bytes + 1 < u64_mod

-- What no operation changes.
pub record Settings : Type 0 where
  pub enabled : Bool
  pub backend : ReadCacheBackend
  pub root_dir : Text
  pub capacity_bytes : ℕ
  pub max_file_size_bytes : ℕ
  pub ttl_secs : ℕ
  pub policy : CachePathPolicy

abbrev pub settings : ReadCacheManager → Settings
settings c = record {
  enabled = c.enabled;
  backend = c.backend;
  root_dir = c.root_dir;
  capacity_bytes = c.capacity_bytes;
  max_file_size_bytes = c.max_file_size_bytes;
  ttl_secs = c.ttl_secs;
  policy = c.policy;
}

-- Taking a size that is within the sum off the counter does not wrap.
sub_exact : (a n m : ℕ) → m + n ≡ a → a < u64_mod → (a + u64_mod - n % u64_mod) % u64_mod ≡ m
sub_exact a n m e lt = omega arith

module _ (h : Text → Text) where
  pub remove-none :
      (k : Text) (c : ReadCacheManager) → Table.lookup k c.entries ≡ none → remove h k c ≡ c
  unfolding remove
  remove-none k c e = rw (e, remove)

  pub remove-some :
      (k : Text) (c : ReadCacheManager) (v : ReadCacheEntry)
      → Table.lookup k c.entries ≡ some v
      → remove h k c
        ≡ drop_blob h v v.blob (discount v.size (record c { entries = Table.remove k c.entries }))
  unfolding remove
  remove-some k c v e = rw (e, remove)

  entries-drop_blob :
      (v : ReadCacheEntry) (b : ReadCacheBlob) (c : ReadCacheManager)
      → ((drop_blob h v b c).entries ≡ c.entries)
        × ((drop_blob h v b c).accounted_bytes ≡ c.accounted_bytes)
        × (settings (drop_blob h v b c) ≡ settings c)
  unfolding drop_blob
  entries-drop_blob v (bytes b) c = (refl, refl, refl)
  entries-drop_blob v (disk p) c = (refl, refl, refl)

  pub remove_core :
      (k : Text) (c : ReadCacheManager)
      → ((remove h k c).entries ≡ Table.remove k c.entries) × (settings (remove h k c) ≡ settings c)
  unfolding discount
  remove_core k c = elim (Option-cases (Table.lookup k c.entries)) [
    | inl e ↦ ground (arith, remove-none k c e, remove-eq_self k c.entries e)
    | inr (v, e) ↦ ground (
      arith,
      remove-some k c v e,
      entries-drop_blob v v.blob
          (discount v.size (record c { entries = Table.remove k c.entries })),
    )
  ]

  accounted-remove :
      (k : Text) (c : ReadCacheManager)
      → IsConsistent c
      → (remove h k c).accounted_bytes ≡ sizes (Table.remove k c.entries)
  unfolding discount
  accounted-remove k c i = elim (Option-cases (Table.lookup k c.entries)) [
    | inl e ↦ rw (remove-none k c e, remove-eq_self k c.entries e) i.accounted
    | inr (v, e) ↦ ground (
      arith,
      remove-some k c v e,
      entries-drop_blob v v.blob
          (discount v.size (record c { entries = Table.remove k c.entries })),
      total-remove (λ e. e.size) k c.entries v i.distinct e,
      sub_exact c.accounted_bytes v.size (sizes (Table.remove k c.entries)),
    )
  ]

  pub remove-IsConsistent :
      (k : Text) (c : ReadCacheManager) → IsConsistent c → IsConsistent (remove h k c)
  remove-IsConsistent k c i = record {
    distinct = rw ((remove_core k c).0) (remove-Distinct k c.entries i.distinct);
    accounted = accounted-remove k c i ∙ ap sizes (sym ((remove_core k c).0));
    bounded = ground (arith, remove_core k c, total-remove-le (λ e. e.size) k c.entries, i.bounded);
    capacity = ground (arith, remove_core k c, i.capacity);
  }

-- The second state is the first after some removals.
pub record Shrinks (c d : ReadCacheManager) : Type 0 where
  pub settings_same : settings d ≡ settings c
  pub kept :
      (j : Text) (f : ReadCacheEntry)
      → Table.lookup j d.entries ≡ some f
      → Table.lookup j c.entries ≡ some f
  pub consistent : IsConsistent c → IsConsistent d

pub Shrinks-refl : (c : ReadCacheManager) → Shrinks c c
Shrinks-refl c = record { settings_same = refl; kept = λ j f e. e; consistent = λ i. i }

pub Shrinks-trans : {c d e : ReadCacheManager} → Shrinks c d → Shrinks d e → Shrinks c e
Shrinks-trans s t = record {
  settings_same = t.settings_same ∙ s.settings_same;
  kept = λ j f e. s.kept j f (t.kept j f e);
  consistent = λ i. t.consistent (s.consistent i);
}

-- A key that is not there stays away.
pub Shrinks-missing :
    {c d : ReadCacheManager} (j : Text)
    → Shrinks c d
    → Table.lookup j c.entries ≡ none
    → Table.lookup j d.entries ≡ none
Shrinks-missing {c} {d} j s e = elim (Option-cases (Table.lookup j d.entries)) [
  | inl g ↦ g
  | inr (f, g) ↦ absurd (cc (s.kept j f g))
]

kept-remove :
    (k j : Text) (m : Table ReadCacheEntry) (f : ReadCacheEntry)
    → Table.lookup j (Table.remove k m) ≡ some f
    → Table.lookup j m ≡ some f
kept-remove k j m f e = ground (arith, lookup-remove k j m)

module _ (h : Text → Text) where
  pub remove-Shrinks : (k : Text) (c : ReadCacheManager) → Shrinks c (remove h k c)
  remove-Shrinks k c = record {
    settings_same = (remove_core h k c).1;
    kept = λ j f e.
        kept-remove k j c.entries f (ap (Table.lookup j) (sym ((remove_core h k c).0)) ∙ e);
    consistent = remove-IsConsistent h k c;
  }

  pub remove_all-Shrinks : (ks : List Text) (c : ReadCacheManager) → Shrinks c (remove_all h ks c)
  unfolding remove_all
  remove_all-Shrinks [] c = Shrinks-refl c
  remove_all-Shrinks (k ∷ ks) c =
      Shrinks-trans (remove-Shrinks k c) (remove_all-Shrinks ks (remove h k c))

  swept : ℕ → ReadCacheManager → ReadCacheManager
  swept now c = record c { last_cleanup_ts = now }

  swept-Shrinks : (now : ℕ) (c : ReadCacheManager) → Shrinks c (swept now c)
  unfolding swept
  swept-Shrinks now c = record {
    settings_same = refl;
    kept = λ j f e. e;
    consistent = λ i. record {
      distinct = i.distinct;
      accounted = i.accounted;
      bounded = i.bounded;
      capacity = i.capacity;
    };
  }

  pub cleanup-Shrinks :
      (force : Bool) (now : ℕ) (c : ReadCacheManager)
      → Shrinks c (cleanup_expired_if_due h force now c)
  unfolding cleanup_expired_if_due swept
  cleanup-Shrinks force now c =
      elim (Bool-cases (not force && ltb (now - c.last_cleanup_ts) c.cleanup_interval_secs)) [
        | inl e ↦ rw e (Shrinks-refl c)
        | inr e ↦ rw e (
            Shrinks-trans (swept-Shrinks now c)
              (remove_all-Shrinks (expired_keys now c.entries) (swept now c)))
      ]

  pub evict-Shrinks :
      (fuel required : ℕ) (c : ReadCacheManager) → Shrinks c (evict h fuel required c).1
  unfolding evict
  evict-Shrinks zero required c = Shrinks-refl c
  evict-Shrinks (suc fuel) required c = elim (Bool-cases (fits required c)) [
    | inl e ↦ rw (e, evict) (Shrinks-refl c)
    | inr e ↦ elim (Option-cases (oldest c.entries)) [
      | inl o ↦ rw (e, o, evict) (Shrinks-refl c)
      | inr ((k, f), o) ↦
          rw (e, o, evict)
            (Shrinks-trans (remove-Shrinks k c) (evict-Shrinks fuel required (remove h k c)))
    ]
  ]

  pub ensure_capacity-Shrinks :
      (required now : ℕ) (c : ReadCacheManager) → Shrinks c (ensure_capacity h required now c).1
  unfolding ensure_capacity
  ensure_capacity-Shrinks required now c =
      Shrinks-trans (cleanup-Shrinks true now c) (evict-Shrinks _ required _)

  -- The loop says yes only where the new bytes fit.
  pub evict-fits :
      (fuel required : ℕ) (c : ReadCacheManager)
      → (evict h fuel required c).0 ≡ true
      → fits required (evict h fuel required c).1 ≡ true
  unfolding evict
  evict-fits zero required c e = cc
  evict-fits (suc fuel) required c y = elim (Bool-cases (fits required c)) [
    | inl e ↦ rw (e, evict) e
    | inr e ↦ elim (Option-cases (oldest c.entries)) [
      | inl o ↦ cc (rw (e, o, evict) at y)
      | inr ((k, f), o) ↦
          rw (e, o, evict) (evict-fits fuel required (remove h k c) (rw (e, o, evict) at y))
    ]
  ]
