-- ===== src/Prelude/Bytes.antt =====
-- Byte strings as lists of numbers below 256: slices, chunks, the two orders of an integer's
-- bytes, and the exclusive or with a stream.
use Prim.Native.Nat.{ℕ, zero, suc, ◌+◌, ◌-◌, ◌*◌, ◌/◌, ◌%◌, ◌^◌, ◌≤◌, ◌<◌, min, bit_xor}
use mathlib.Core.Path.{◌≡◌, refl, sym, ap, ap₂, ◌∙◌}
use mathlib.Core.List.{List, [], ◌∷◌, ◌++◌, reverse}
use native.Mathlib.Omega.{arith}
use native.Mathlib.Numerals.{unary_clauses}
use yh_filemanager_vfs_stora.Prelude.Lists.{length}
use yh_filemanager_vfs_stora.Prelude.Bits.{bit_xor_twice}

module _ {ℓ} {A : Type ℓ} where
  abbrev pub take : ℕ → List A → List A
  take zero xs = []
  take (suc n) [] = []
  take (suc n) (x ∷ xs) = x ∷ take n xs

  abbrev pub drop : ℕ → List A → List A
  drop zero xs = xs
  drop (suc n) [] = []
  drop (suc n) (x ∷ xs) = drop n xs

  -- `&xs[first..last]`, in bounds.
  abbrev pub slice : ℕ → ℕ → List A → List A
  slice first last xs = take (last - first) (drop first xs)

  pub take-drop : (n : ℕ) (xs : List A) → take n xs ++ drop n xs ≡ xs
  take-drop zero xs = refl
  take-drop (suc n) [] = refl
  take-drop (suc n) (x ∷ xs) = ap (λ ys. x ∷ ys) (take-drop n xs)

  pub length-take : (n : ℕ) (xs : List A) → length (take n xs) ≡ min n (length xs)
  length-take zero xs = omega arith
  length-take (suc n) [] = omega arith
  length-take (suc n) (x ∷ xs) = omega (arith, length-take n xs)

  pub length-drop : (n : ℕ) (xs : List A) → length (drop n xs) ≡ length xs - n
  length-drop zero xs = omega arith
  length-drop (suc n) [] = omega arith
  length-drop (suc n) (x ∷ xs) = omega (arith, length-drop n xs)

  pub take-append : (n : ℕ) (xs ys : List A) → length xs ≡ n → take n (xs ++ ys) ≡ xs
  take-append zero [] ys h = refl
  take-append zero (x ∷ xs) ys h = absurd (omega arith)
  take-append (suc n) [] ys h = absurd (omega arith)
  take-append (suc n) (x ∷ xs) ys h = ap (λ zs. x ∷ zs) (take-append n xs ys (omega arith))

  pub take-append_within : (n : ℕ) (xs ys : List A) → n ≤ length xs → take n (xs ++ ys) ≡ take n xs
  take-append_within zero xs ys h = refl
  take-append_within (suc n) [] ys h = absurd (omega arith)
  take-append_within (suc n) (x ∷ xs) ys h =
      ap (λ zs. x ∷ zs) (take-append_within n xs ys (omega arith))

  pub drop-append : (n : ℕ) (xs ys : List A) → length xs ≡ n → drop n (xs ++ ys) ≡ ys
  drop-append zero [] ys h = refl
  drop-append zero (x ∷ xs) ys h = absurd (omega arith)
  drop-append (suc n) [] ys h = absurd (omega arith)
  drop-append (suc n) (x ∷ xs) ys h = drop-append n xs ys (omega arith)

  pub drop-append_within :
      (n : ℕ) (xs ys : List A) → n ≤ length xs → drop n (xs ++ ys) ≡ drop n xs ++ ys
  drop-append_within zero xs ys h = refl
  drop-append_within (suc n) [] ys h = absurd (omega arith)
  drop-append_within (suc n) (x ∷ xs) ys h = drop-append_within n xs ys (omega arith)

  pub take_all : (n : ℕ) (xs : List A) → length xs ≤ n → take n xs ≡ xs
  take_all zero [] h = refl
  take_all zero (x ∷ xs) h = absurd (omega arith)
  take_all (suc n) [] h = refl
  take_all (suc n) (x ∷ xs) h = ap (λ zs. x ∷ zs) (take_all n xs (omega arith))

  pub drop_all : (n : ℕ) (xs : List A) → length xs ≤ n → drop n xs ≡ []
  drop_all zero [] h = refl
  drop_all zero (x ∷ xs) h = absurd (omega arith)
  drop_all (suc n) [] h = refl
  drop_all (suc n) (x ∷ xs) h = drop_all n xs (omega arith)

  pub drop-drop : (m n : ℕ) (xs : List A) → drop m (drop n xs) ≡ drop (n + m) xs
  drop-drop m zero xs = ap (λ k. drop k xs) (omega arith)
  drop-drop m (suc n) [] = drop_all m [] (omega arith) ∙ sym (drop_all (suc n + m) [] (omega arith))
  drop-drop m (suc n) (x ∷ xs) =
      let e : suc (n + m) ≡ suc n + m = omega arith in
      drop-drop m n xs ∙ ap (λ k. drop k (x ∷ xs)) e

  pub take-take : (m n : ℕ) (xs : List A) → m ≤ n → take m (take n xs) ≡ take m xs
  take-take zero n xs h = refl
  take-take (suc m) zero xs h = absurd (omega arith)
  take-take (suc m) (suc n) [] h = refl
  take-take (suc m) (suc n) (x ∷ xs) h = ap (λ zs. x ∷ zs) (take-take m n xs (omega arith))

  pub drop-take : (m n : ℕ) (xs : List A) → drop m (take n xs) ≡ take (n - m) (drop m xs)
  drop-take zero n xs = simp unary_clauses refl
  drop-take (suc m) zero xs =
      let e : 0 ≡ 0 - suc m = omega arith in ap (λ k. take k (drop (suc m) xs)) e
  drop-take (suc m) (suc n) [] = sym (take_all (suc n - suc m) [] (omega arith))
  drop-take (suc m) (suc n) (x ∷ xs) = simp unary_clauses (drop-take m n xs)

  -- `chunks`, the last chunk being shorter. Each takes at least one element, so the length is
  -- enough fuel.
  unfoldable pub chunks_fuel : ℕ → ℕ → List A → List (List A)
  chunks_fuel zero n xs = []
  chunks_fuel (suc f) n [] = []
  chunks_fuel (suc f) n (x ∷ xs) = take n (x ∷ xs) ∷ chunks_fuel f n (drop n (x ∷ xs))

  unfoldable pub chunks : ℕ → List A → List (List A)
  unfolding chunks_fuel
  chunks n xs = chunks_fuel (length xs) n xs

  abbrev pub concat : List (List A) → List A
  concat [] = []
  concat (x ∷ xs) = x ++ concat xs

-- `to_le_bytes` and `from_le_bytes`, at any width.
unfoldable pub to_le_bytes : ℕ → ℕ → List ℕ
to_le_bytes zero x = []
to_le_bytes (suc n) x = x % 256 ∷ to_le_bytes n (x / 256)

unfoldable pub from_le_bytes : List ℕ → ℕ
from_le_bytes [] = 0
from_le_bytes (b ∷ bs) = b + 256 * from_le_bytes bs

pub from_le_bytes-to_le_bytes : (n x : ℕ) → x < 256 ^ n → from_le_bytes (to_le_bytes n x) ≡ x
unfolding to_le_bytes from_le_bytes
from_le_bytes-to_le_bytes zero x h = omega arith
from_le_bytes-to_le_bytes (suc n) x h =
    omega (arith, from_le_bytes-to_le_bytes n (x / 256) (omega arith))

pub length-to_le_bytes : (n x : ℕ) → length (to_le_bytes n x) ≡ n
unfolding to_le_bytes
length-to_le_bytes zero x = refl
length-to_le_bytes (suc n) x = ap suc (length-to_le_bytes n (x / 256))

-- Each byte against the one of a stream at its place.
unfoldable pub xor_with : (ℕ → ℕ) → List ℕ → List ℕ
xor_with mask [] = []
xor_with mask (x ∷ xs) = bit_xor x (mask 0) ∷ xor_with (λ i. mask (suc i)) xs

pub length-xor_with : (f : ℕ → ℕ) (xs : List ℕ) → length (xor_with f xs) ≡ length xs
unfolding xor_with
length-xor_with f [] = refl
length-xor_with f (x ∷ xs) = ap suc (length-xor_with (λ i. f (suc i)) xs)

pub xor_with-xor_with : (f : ℕ → ℕ) (xs : List ℕ) → xor_with f (xor_with f xs) ≡ xs
unfolding xor_with
xor_with-xor_with f [] = refl
xor_with-xor_with f (x ∷ xs) =
    rw (bit_xor_twice x (f 0), xor_with-xor_with (λ i. f (suc i)) xs) refl

pub xor_with_agree :
    (f g : ℕ → ℕ) (xs : List ℕ)
    → ((i : ℕ) → i < length xs → f i ≡ g i)
    → xor_with f xs ≡ xor_with g xs
unfolding xor_with
xor_with_agree f g [] h = refl
xor_with_agree f g (x ∷ xs) h =
    rw
      (
        h 0 (omega arith),
        xor_with_agree (λ i. f (suc i)) (λ i. g (suc i)) xs (λ i p. h (suc i) (omega arith)),
      )
      refl

-- The stream `g` is the stream `f` from its byte `n` on.
pub xor_with_split :
    (f g : ℕ → ℕ) (n : ℕ) (xs : List ℕ)
    → ((i : ℕ) → g i ≡ f (n + i))
    → xor_with f xs ≡ xor_with f (take n xs) ++ xor_with g (drop n xs)
unfolding xor_with
xor_with_split f g zero xs h = xor_with_agree f g xs (λ i p. sym (h i ∙ ap f (omega arith)))
xor_with_split f g (suc n) [] h = refl
xor_with_split f g (suc n) (x ∷ xs) h =
    ap (λ ys. bit_xor x (f 0) ∷ ys)
      (xor_with_split (λ i. f (suc i)) g n xs (λ i. h i ∙ ap f (omega arith)))

pub take-xor_with :
    (f : ℕ → ℕ) (n : ℕ) (xs : List ℕ) → take n (xor_with f xs) ≡ xor_with f (take n xs)
unfolding xor_with
take-xor_with f zero xs = refl
take-xor_with f (suc n) [] = refl
take-xor_with f (suc n) (x ∷ xs) =
    ap (λ ys. bit_xor x (f 0) ∷ ys) (take-xor_with (λ i. f (suc i)) n xs)

pub drop-xor_with :
    (f g : ℕ → ℕ) (n : ℕ) (xs : List ℕ)
    → ((i : ℕ) → g i ≡ f (n + i))
    → drop n (xor_with f xs) ≡ xor_with g (drop n xs)
unfolding xor_with
drop-xor_with f g zero xs h = xor_with_agree f g xs (λ i p. sym (h i ∙ ap f (omega arith)))
drop-xor_with f g (suc n) [] h = refl
drop-xor_with f g (suc n) (x ∷ xs) h =
    drop-xor_with (λ i. f (suc i)) g n xs (λ i. h i ∙ ap f (omega arith))

pub xor_with-nil : (f : ℕ → ℕ) → xor_with f [] ≡ []
unfolding xor_with
xor_with-nil f = refl

-- `to_be_bytes` and `from_be_bytes`.
unfoldable pub to_be_bytes : ℕ → ℕ → List ℕ
unfolding to_le_bytes
to_be_bytes n x = reverse (to_le_bytes n x)

unfoldable pub from_be_bytes : List ℕ → ℕ
unfolding from_le_bytes
from_be_bytes bytes = from_le_bytes (reverse bytes)

module _ {ℓ} {A : Type ℓ} where
  -- As many elements as there are.
  pub take_prefix : (n : ℕ) (xs : List A) → take (length (take n xs)) xs ≡ take n xs
  take_prefix zero xs = refl
  take_prefix (suc n) [] = refl
  take_prefix (suc n) (x ∷ xs) = ap (λ ys. x ∷ ys) (take_prefix n xs)

  pub take_split : (m n : ℕ) (xs : List A) → take (m + n) xs ≡ take m xs ++ take n (drop m xs)
  take_split zero n xs = let e : 0 + n ≡ n = omega arith in ap (λ k. take k xs) e
  take_split (suc m) n [] =
      take_all (suc m + n) [] (omega arith) ∙ sym (take_all n [] (omega arith))
  take_split (suc m) n (x ∷ xs) =
      let e : suc m + n ≡ suc (m + n) = omega arith in
      ap (λ k. take k (x ∷ xs)) e ∙ ap (λ ys. x ∷ ys) (take_split m n xs)

  -- A prefix that ends behind the first of two parts.
  pub take_further :
      (m n : ℕ) (xs ys : List A) → length xs ≡ m → xs ++ take n ys ≡ take (m + n) (xs ++ ys)
  take_further m n xs ys h = sym (
      take_split m n (xs ++ ys)
      ∙ ap₂ (λ us vs. us ++ take n vs) (take-append m xs ys h) (drop-append m xs ys h))

  pub take-min : (n : ℕ) (xs : List A) → take (min n (length xs)) xs ≡ take n xs
  take-min n xs = ap (λ k. take k xs) (sym (length-take n xs)) ∙ take_prefix n xs
