-- ===== src/Prelude/Chunks.antt =====
-- The laws of `chunks`: their number, and that they are the whole.
use native.Mathlib.Nat.{add-div_left, div-eq_of_lt}
use Prim.Native.Nat.{ℕ, zero, suc, ◌+◌, ◌-◌, ◌*◌, ◌/◌, ◌≤◌, ◌<◌}
use mathlib.Core.Path.{◌≡◌, refl, sym, ap, ap₂, ◌∙◌}
use mathlib.Core.Logic.{inl, inr}
use mathlib.Core.List.{List, [], ◌∷◌}
use native.Mathlib.Omega.{arith}
use yh_filemanager_vfs_stora.Prelude.Lists.{length}
use yh_filemanager_vfs_stora.Prelude.Tests.{leb, Bool-cases}
use yh_filemanager_vfs_stora.Prelude.Bytes.{
  take, drop, length-drop, drop-drop, drop_all, take_all, take-take, drop-take, length-take, chunks,
  chunks_fuel,
}

-- `div_ceil`, the divisor being positive.
abbrev pub div_ceil : ℕ → ℕ → ℕ
div_ceil n d = (n + (d - 1)) / d

pub div_ceil-zero : (d : ℕ) → 0 < d → div_ceil 0 d ≡ 0
div_ceil-zero d h = div-eq_of_lt (omega arith)

-- One more for the first `d`, or for the last that are fewer.
pub div_ceil_step : (n d : ℕ) → 0 < d → 0 < n → div_ceil n d ≡ suc (div_ceil (n - d) d)
div_ceil_step n d h p = elim (Bool-cases (leb d n)) [
  | inl e ↦
      let q : n + (d - 1) ≡ d + (n - d + (d - 1)) = ground arith in
      omega (arith, ap (λ k. k / d) q, add-div_left (n - d + (d - 1)) h)
  | inr e ↦
      let q : n + (d - 1) ≡ d + (n - 1) = ground arith in
      let small : (n - d + (d - 1)) / d ≡ 0 = div-eq_of_lt (ground arith) in
      let last : (n - 1) / d ≡ 0 = div-eq_of_lt (ground arith) in
      omega (arith, ap (λ k. k / d) q, add-div_left (n - 1) h, small, last)
]

module _ {ℓ} {A : Type ℓ} (n : ℕ) (n_pos : 0 < n) where
  length-chunks_fuel :
      (f : ℕ) (xs : List A) → length xs ≤ f → length (chunks_fuel f n xs) ≡ div_ceil (length xs) n
  unfolding chunks_fuel
  length-chunks_fuel zero [] h = sym (div_ceil-zero n n_pos)
  length-chunks_fuel zero (x ∷ xs) h = absurd (omega arith)
  length-chunks_fuel (suc f) [] h = sym (div_ceil-zero n n_pos)
  length-chunks_fuel (suc f) (x ∷ xs) h =
      let d = length-drop n (x ∷ xs) in
      let rest = length-chunks_fuel f (drop n (x ∷ xs)) (omega arith) in
      ap suc (rest ∙ ap (λ k. div_ceil k n) d)
      ∙ sym (div_ceil_step (suc (length xs)) n n_pos (omega arith))

  pub length-chunks : (xs : List A) → length (chunks n xs) ≡ div_ceil (length xs) n
  unfolding chunks
  length-chunks xs = length-chunks_fuel (length xs) xs (omega arith)

  chunks_fuel_enough :
      (f g : ℕ) (xs : List A)
      → length xs ≤ f
      → length xs ≤ g
      → chunks_fuel f n xs ≡ chunks_fuel g n xs
  unfolding chunks_fuel
  chunks_fuel_enough zero zero xs p q = refl
  chunks_fuel_enough zero (suc g) [] p q = refl
  chunks_fuel_enough zero (suc g) (x ∷ xs) p q = absurd (omega arith)
  chunks_fuel_enough (suc f) zero [] p q = refl
  chunks_fuel_enough (suc f) zero (x ∷ xs) p q = absurd (omega arith)
  chunks_fuel_enough (suc f) (suc g) [] p q = refl
  chunks_fuel_enough (suc f) (suc g) (x ∷ xs) p q =
      let d = length-drop n (x ∷ xs) in
      ap (λ rest. take n (x ∷ xs) ∷ rest)
        (chunks_fuel_enough f g (drop n (x ∷ xs)) (omega arith) (omega arith))

  chunks_step :
      (x : A) (xs : List A) → chunks n (x ∷ xs) ≡ take n (x ∷ xs) ∷ chunks n (drop n (x ∷ xs))
  unfolding chunks chunks_fuel
  chunks_step x xs =
      let d = length-drop n (x ∷ xs) in
      ap (λ rest. take n (x ∷ xs) ∷ rest)
        (chunks_fuel_enough (length xs) (length (drop n (x ∷ xs))) (drop n (x ∷ xs)) (omega arith)
          (omega arith))

  chunks_some : (ys : List A) → 0 < length ys → chunks n ys ≡ take n ys ∷ chunks n (drop n ys)
  chunks_some [] h = absurd (omega arith)
  chunks_some (y ∷ ys) h = chunks_step y ys

  chunks-nil : ◌≡◌ {A = List (List A)} (chunks n []) []
  unfolding chunks chunks_fuel
  chunks-nil = refl

  -- Chunks are left out from either end by whole numbers of them.
  pub chunks-drop : (k : ℕ) (xs : List A) → chunks n (drop (k * n) xs) ≡ drop k (chunks n xs)
  chunks-drop zero xs = let e : 0 * n ≡ 0 = omega arith in ap (λ k. chunks n (drop k xs)) e
  chunks-drop (suc k) [] =
      ap (λ ys. chunks n ys) (drop_all (suc k * n) [] (omega arith))
      ∙ chunks-nil
      ∙ sym (ap (λ ps. drop (suc k) ps) chunks-nil)
  chunks-drop (suc k) (x ∷ xs) =
      let e : suc k * n ≡ n + k * n = omega arith in
      ap (λ m. chunks n (drop m (x ∷ xs))) e
      ∙ sym (ap (λ ys. chunks n ys) (drop-drop (k * n) n (x ∷ xs)))
      ∙ chunks-drop k (drop n (x ∷ xs))
      ∙ sym (ap (λ ps. drop (suc k) ps) (chunks_step x xs))

  -- The first chunk of a prefix.
  chunks_joined :
      (j : ℕ) (x : A) (xs : List A)
      → chunks n (take (n + j * n) (x ∷ xs))
        ≡ take n (x ∷ xs) ∷ chunks n (take (j * n) (drop n (x ∷ xs)))
  chunks_joined j x xs =
      let whole : List A = x ∷ xs in
      let e : n + j * n - n ≡ j * n = omega arith in
      chunks_some (take (n + j * n) whole) (omega (arith, length-take (n + j * n) whole))
      ∙ ap₂ (λ p ps. p ∷ chunks n ps) (take-take n (n + j * n) whole (omega arith))
          (drop-take n (n + j * n) whole ∙ ap (λ k. take k (drop n whole)) e)

  pub chunks-take : (j : ℕ) (xs : List A) → chunks n (take (j * n) xs) ≡ take j (chunks n xs)
  chunks-take zero xs =
      let e : 0 * n ≡ 0 = omega arith in ap (λ k. chunks n (take k xs)) e ∙ chunks-nil
  chunks-take (suc j) [] =
      ap (λ ys. chunks n ys) (take_all (suc j * n) [] (omega arith))
      ∙ chunks-nil
      ∙ sym (ap (λ ps. take (suc j) ps) chunks-nil)
  chunks-take (suc j) (x ∷ xs) =
      let e : suc j * n ≡ n + j * n = omega arith in
      ap (λ m. chunks n (take m (x ∷ xs))) e
      ∙ chunks_joined j x xs
      ∙ ap (λ ps. take n (x ∷ xs) ∷ ps) (chunks-take j (drop n (x ∷ xs)))
      ∙ sym (ap (λ ps. take (suc j) ps) (chunks_step x xs))
