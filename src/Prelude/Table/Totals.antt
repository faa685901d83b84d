-- ===== src/Prelude/Table/Totals.antt =====
-- Tables with distinct keys, and a weight summed over their entries.
use yh_filemanager_vfs_stora.Prelude.Tests.{Bool-cases}
use yh_filemanager_vfs_stora.Prelude.Lists.{length}
use yh_filemanager_vfs_stora.Prelude.Text.{Text, text_eq, text_eq_iff}
use yh_filemanager_vfs_stora.Prelude.Table.{
  Table, lookup, insert, remove, lookup-insert, lookup-remove,
}
use Prim.Native.Nat.{ℕ, ◌+◌, ◌≤◌, ◌<◌}
use mathlib.Core.Path.{◌≡◌, refl}
use mathlib.Core.Logic.{inl, inr}
use mathlib.Core.List.{[], ◌∷◌}
use mathlib.Core.Option.{none, some}
use native.Mathlib.Omega.{arith}

module _ {ℓ} {V : Type ℓ} where
  -- No key stands twice.
  abbrev pub Distinct : Table V → Type ℓ
  Distinct [] = Unit
  Distinct ((k, v) ∷ m) = (lookup k m ≡ none) × Distinct m

  abbrev pub total : (V → ℕ) → Table V → ℕ
  total w [] = 0
  total w ((k, v) ∷ m) = w v + total w m

  pub remove-eq_self : (k : Text) (m : Table V) → lookup k m ≡ none → remove k m ≡ m
  unfolding lookup remove
  remove-eq_self k [] h = refl
  remove-eq_self k ((j, v) ∷ m) h = ground (arith, remove-eq_self k m)

  pub remove-Distinct : (k : Text) (m : Table V) → Distinct m → Distinct (remove k m)
  unfolding remove
  remove-Distinct k [] d = tt
  remove-Distinct k ((j, v) ∷ m) d = elim (Bool-cases (text_eq j k)) [
    | inl e ↦ rw e (remove-Distinct k m d.1)
    | inr e ↦ rw e (
      ground (arith, lookup-remove k j m, text_eq_iff j k, text_eq_iff k j),
      remove-Distinct k m d.1,
    )
  ]

  pub insert-Distinct : (k : Text) (v : V) (m : Table V) → Distinct m → Distinct (insert k v m)
  unfolding insert lookup
  insert-Distinct k v [] d = (refl, tt)
  insert-Distinct k v ((j, w) ∷ m) d = elim (Bool-cases (text_eq j k)) [
    | inl e ↦ rw e d
    | inr e ↦ rw e (
      ground (arith, lookup-insert k j v m, text_eq_iff j k, text_eq_iff k j),
      insert-Distinct k v m d.1,
    )
  ]

  module _ (w : V → ℕ) where
    pub total-remove :
        (k : Text) (m : Table V) (v : V)
        → Distinct m
        → lookup k m ≡ some v
        → total w (remove k m) + w v ≡ total w m
    unfolding lookup remove
    total-remove k [] v d h = absurd (cc)
    total-remove k ((j, u) ∷ m) v d h = elim (Bool-cases (text_eq j k)) [
      | inl e ↦ ground (arith, remove-eq_self k m, text_eq_iff j k)
      | inr e ↦ ground (arith, total-remove k m v d.1)
    ]

    pub total-remove-le : (k : Text) (m : Table V) → total w (remove k m) ≤ total w m
    unfolding remove
    total-remove-le k [] = omega arith
    total-remove-le k ((j, u) ∷ m) = ground (arith, total-remove-le k m)

    pub total-insert_new :
        (k : Text) (v : V) (m : Table V)
        → lookup k m ≡ none
        → total w (insert k v m) ≡ total w m + w v
    unfolding lookup insert
    total-insert_new k v [] h = omega arith
    total-insert_new k v ((j, u) ∷ m) h = ground (arith, total-insert_new k v m)

    pub total-insert_old :
        (k : Text) (v : V) (m : Table V) (u : V)
        → lookup k m ≡ some u
        → total w (insert k v m) + w u ≡ total w m + w v
    unfolding lookup insert
    total-insert_old k v [] u h = absurd (cc)
    total-insert_old k v ((j, t) ∷ m) u h = ground (arith, total-insert_old k v m u)

  pub length-remove-le : (k : Text) (m : Table V) → length (remove k m) ≤ length m
  unfolding remove
  length-remove-le k [] = omega arith
  length-remove-le k ((j, u) ∷ m) = ground (arith, length-remove-le k m)

  pub length-remove-lt :
      (k : Text) (m : Table V) (v : V) → lookup k m ≡ some v → length (remove k m) < length m
  unfolding lookup remove
  length-remove-lt k [] v h = absurd (cc)
  length-remove-lt k ((j, u) ∷ m) v h = ground (arith, length-remove-lt k m v, length-remove-le k m)
