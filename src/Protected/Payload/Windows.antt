-- ===== src/Protected/Payload/Windows.antt =====
-- src/vfs/protected.rs: what is read from a window of a masked or an encrypted payload.
use yh_filemanager_vfs_stora.Prelude.{
  ℕ, ◌+◌, ◌-◌, min, ◌≤◌, ◌≡◌, sym, ap, ap₂, ◌∙◌, List, ◌++◌, length, arith,
}
use yh_filemanager_vfs_stora.Prelude.Bytes.{
  take, drop, slice, take-take, drop-take, drop-drop, take-min, drop-append, drop-append_within,
  take-append_within, length-take, length-drop, xor_with, xor_with-xor_with, take-xor_with,
  drop-xor_with,
}

-- A slice of a slice.
pub slice-slice {ℓ} :
    {A : Type ℓ} (first last start stop : ℕ) (xs : List A)
    → first ≤ start
    → start ≤ stop
    → stop ≤ last
    → slice (start - first) (start - first + (stop - start)) (slice first last xs)
      ≡ slice start stop xs
slice-slice first last start stop xs h k l =
    let e : last - first - (start - first) ≡ last - start = omega arith in
    let f : first + (start - first) ≡ start = omega arith in
    let g : start - first + (stop - start) - (start - first) ≡ stop - start = omega arith in
    ap (take (start - first + (stop - start) - (start - first))) (
      drop-take (start - first) (last - first) (drop first xs)
      ∙ ap₂ (λ m ys. take m ys) e (drop-drop (start - first) first xs ∙ ap (λ m. drop m xs) f))
    ∙ take-take _ (last - start) (drop start xs) (omega arith)
    ∙ ap (λ m. take m (drop start xs)) g

-- Undoing the masks on a window of the masked bytes gives the window of the bytes.
pub xor_with_window :
    (f g : ℕ → ℕ) (first last : ℕ) (xs : List ℕ)
    → ((i : ℕ) → g i ≡ f (first + i))
    → xor_with g (slice first last (xor_with f xs)) ≡ slice first last xs
xor_with_window f g first last xs h =
    ap (λ ys. xor_with g (take (last - first) ys)) (drop-xor_with f g first xs h)
    ∙ ap (xor_with g) (take-xor_with g (last - first) (drop first xs))
    ∙ xor_with-xor_with g (slice first last xs)

pub length-slice {ℓ} :
    {A : Type ℓ} (first last : ℕ) (xs : List A)
    → last ≤ length xs
    → length (slice first last xs) ≡ last - first
length-slice first last xs h =
    omega (arith, length-take (last - first) (drop first xs), length-drop first xs)

pub slice-append_right {ℓ} :
    {A : Type ℓ} (n first last : ℕ) (xs ys : List A)
    → length xs ≡ n
    → slice (n + first) (n + last) (xs ++ ys) ≡ slice first last ys
slice-append_right n first last xs ys h =
    let e : n + last - (n + first) ≡ last - first = omega arith in
    ap₂ (λ m zs. take m zs) e
      (sym (drop-drop first n (xs ++ ys)) ∙ ap (drop first) (drop-append n xs ys h))

pub slice-append_left {ℓ} :
    {A : Type ℓ} (first last : ℕ) (xs ys : List A)
    → first ≤ last
    → last ≤ length xs
    → slice first last (xs ++ ys) ≡ slice first last xs
slice-append_left first last xs ys h k =
    ap (take (last - first)) (drop-append_within first xs ys (omega arith))
    ∙ take-append_within (last - first) (drop first xs) ys (omega (arith, length-drop first xs))

-- A slice ends with the list.
pub slice_end {ℓ} :
    {A : Type ℓ} (first last : ℕ) (xs : List A)
    → slice first (min last (length xs)) xs ≡ slice first last xs
slice_end first last xs =
    let n = length-drop first xs in
    let e : min last (length xs) - first ≡ min (last - first) (length (drop first xs)) =
      omega (arith, n) in
    ap (λ m. take m (drop first xs)) e ∙ take-min (last - first) (drop first xs)
