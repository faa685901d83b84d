-- ===== src/Protected/Obfuscate/Order.antt =====
-- src/vfs/protected.rs: the pool's order does not matter, since each chunk is masked once.
use yh_filemanager_vfs_stora.Prelude.{
  ℕ, zero, suc, ◌+◌, ◌≤◌, ◌<◌, ◌≡◌, refl, sym, ap, subst, ◌∙◌, ◌≢◌, List, [], ◌∷◌, arith, length,
  get_elem?, set, Option, none, some, inl, inr, ◌==◌, ltb, ==_iff, Bool-cases, Option-cases,
  get_elem?-set,
}
use yh_filemanager_vfs_stora.Protected.Obfuscate.{mask_chunks, mask_at, mask_scheduled, occurrences}

abbrev map_some {ℓ} : {A : Type ℓ} → (A → A) → Option A → Option A
map_some f none = none
map_some f (some a) = some (f a)

list_ext {ℓ} : {A : Type ℓ} (xs ys : List A) → ((i : ℕ) → get_elem? xs i ≡ get_elem? ys i) → xs ≡ ys
list_ext [] [] h = refl
list_ext [] (y ∷ ys) h = absurd (cc (h 0))
list_ext (x ∷ xs) [] h = absurd (cc (h 0))
list_ext (x ∷ xs) (y ∷ ys) h =
    let e : x ≡ y = cc (h 0) in rw (e, list_ext xs ys (λ i. h (suc i))) refl

get_elem?-set_other {ℓ} :
    {A : Type ℓ} (xs : List A) (i j : ℕ) (v : A) → i ≢ j → get_elem? (set xs i v) j ≡ get_elem? xs j
get_elem?-set_other [] i j v h = refl
get_elem?-set_other (x ∷ xs) zero zero v h = absurd (h refl)
get_elem?-set_other (x ∷ xs) zero (suc j) v h = refl
get_elem?-set_other (x ∷ xs) (suc i) zero v h = refl
get_elem?-set_other (x ∷ xs) (suc i) (suc j) v h = get_elem?-set_other xs i j v (λ e. h (ap suc e))

module _ (mask : ℕ → List ℕ → List ℕ) (start : ℕ) where
  mask_at-none :
      (i : ℕ) (parts : List (List ℕ))
      → get_elem? parts i ≡ none
      → mask_at mask start i parts ≡ parts
  mask_at-none i parts e =
      ap (λ o. elim o [ none ↦ parts | some c ↦ set parts i (mask (start + i) c) ]) e

  mask_at-some :
      (i : ℕ) (parts : List (List ℕ)) (c : List ℕ)
      → get_elem? parts i ≡ some c
      → mask_at mask start i parts ≡ set parts i (mask (start + i) c)
  mask_at-some i parts c e =
      ap (λ o. elim o [ none ↦ parts | some d ↦ set parts i (mask (start + i) d) ]) e

  get_elem?-mask_at :
      (i : ℕ) (parts : List (List ℕ))
      → get_elem? (mask_at mask start i parts) i ≡ map_some (mask (start + i)) (get_elem? parts i)
  get_elem?-mask_at i parts = elim (Option-cases (get_elem? parts i)) [
    | inl e ↦
        cc (ap (λ p. get_elem? p i) (mask_at-none i parts e), ap (map_some (mask (start + i))) e, e)
    | inr (c, e) ↦ cc (
      ap (λ p. get_elem? p i) (mask_at-some i parts c e),
      ap (map_some (mask (start + i))) e,
      get_elem?-set parts i (mask (start + i) c) c e,
    )
  ]

  get_elem?-mask_at_other :
      (i j : ℕ) (parts : List (List ℕ))
      → i ≢ j
      → get_elem? (mask_at mask start i parts) j ≡ get_elem? parts j
  get_elem?-mask_at_other i j parts h = elim (Option-cases (get_elem? parts i)) [
    | inl e ↦ ap (λ p. get_elem? p j) (mask_at-none i parts e)
    | inr (c, e) ↦
        ap (λ p. get_elem? p j) (mask_at-some i parts c e)
        ∙ get_elem?-set_other parts i j (mask (start + i) c) h
  ]

  mask_scheduled_never :
      (order : List ℕ) (j : ℕ) (parts : List (List ℕ))
      → occurrences j order ≡ 0
      → get_elem? (mask_scheduled mask start order parts) j ≡ get_elem? parts j
  mask_scheduled_never [] j parts h = refl
  mask_scheduled_never (i ∷ order) j parts h = elim (Bool-cases (j == i)) [
    | inl e ↦ absurd (omega (arith, rw (e) at h))
    | inr e ↦
        mask_scheduled_never order j (mask_at mask start i parts) (rw (e) at h)
        ∙ get_elem?-mask_at_other i j parts (λ p. ground arith)
  ]

  mask_scheduled_once :
      (order : List ℕ) (j : ℕ) (parts : List (List ℕ))
      → occurrences j order ≡ 1
      → get_elem? (mask_scheduled mask start order parts) j
        ≡ map_some (mask (start + j)) (get_elem? parts j)
  mask_scheduled_once [] j parts h = absurd (omega arith)
  mask_scheduled_once (i ∷ order) j parts h = elim (Bool-cases (j == i)) [
    | inl e ↦
        let same : j ≡ i = (==_iff j i).0 e in
        let k : occurrences j order ≡ 0 = omega (arith, rw (e) at h) in
        mask_scheduled_never order j (mask_at mask start i parts) k
        ∙ subst
            (λ z.
              get_elem? (mask_at mask start z parts) j
              ≡ map_some (mask (start + j)) (get_elem? parts j))
            same (get_elem?-mask_at j parts)
    | inr e ↦
        mask_scheduled_once order j (mask_at mask start i parts) (rw (e) at h)
        ∙ ap (map_some (mask (start + j))) (get_elem?-mask_at_other i j parts (λ p. ground arith))
  ]

get_elem?-mask_chunks :
    (mask : ℕ → List ℕ → List ℕ) (start j : ℕ) (parts : List (List ℕ))
    → get_elem? (mask_chunks mask start parts) j ≡ map_some (mask (start + j)) (get_elem? parts j)
get_elem?-mask_chunks mask start j [] = refl
get_elem?-mask_chunks mask start zero (c ∷ parts) =
    let e : start ≡ start + 0 = omega arith in ap (λ k. some (mask k c)) e
get_elem?-mask_chunks mask start (suc j) (c ∷ parts) =
    let e : suc start + j ≡ start + suc j = omega arith in
    get_elem?-mask_chunks mask (suc start) j parts
    ∙ ap (λ k. map_some (mask k) (get_elem? parts j)) e

get_elem?_past {ℓ} : {A : Type ℓ} (xs : List A) (i : ℕ) → length xs ≤ i → get_elem? xs i ≡ none
get_elem?_past [] i h = refl
get_elem?_past (x ∷ xs) zero h = absurd (omega arith)
get_elem?_past (x ∷ xs) (suc i) h = get_elem?_past xs i (omega arith)

module _ (mask : ℕ → List ℕ → List ℕ) (start : ℕ) where
  mask_scheduled_past :
      (order : List ℕ) (j : ℕ) (parts : List (List ℕ))
      → get_elem? parts j ≡ none
      → get_elem? (mask_scheduled mask start order parts) j ≡ none
  mask_scheduled_past [] j parts h = h
  mask_scheduled_past (i ∷ order) j parts h =
      mask_scheduled_past order j (mask_at mask start i parts) (elim (Bool-cases (j == i)) [
        | inl e ↦
            let same : j ≡ i = (==_iff j i).0 e in
            subst (λ z. get_elem? (mask_at mask start z parts) j ≡ none) same
              (get_elem?-mask_at mask start j parts ∙ ap (map_some (mask (start + j))) h)
        | inr e ↦ get_elem?-mask_at_other mask start i j parts (λ p. ground arith) ∙ h
      ])

  pub mask_scheduled-mask_chunks :
      (order : List ℕ) (parts : List (List ℕ))
      → ((j : ℕ) → j < length parts → occurrences j order ≡ 1)
      → mask_scheduled mask start order parts ≡ mask_chunks mask start parts
  mask_scheduled-mask_chunks order parts once = list_ext _ _ (λ j.
      elim (Bool-cases (ltb j (length parts))) [
        | inl e ↦
            mask_scheduled_once mask start order j parts (once j (ground arith))
            ∙ sym (get_elem?-mask_chunks mask start j parts)
        | inr e ↦
            let past : get_elem? parts j ≡ none = get_elem?_past parts j (ground arith) in
            mask_scheduled_past order j parts past
            ∙ sym (get_elem?-mask_chunks mask start j parts ∙ ap (map_some (mask (start + j))) past)
      ])
