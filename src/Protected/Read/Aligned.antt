-- ===== src/Protected/Read/Aligned.antt =====
-- src/vfs/scoped/protected.rs: the window that a reader asks for is made of whole blocks, and the
-- range is in it.
use native.Mathlib.Nat.{lt-div-mul-add, div-mul-le_self, mul-sub}
use yh_filemanager_vfs_stora.Prelude.{
  ℕ, ◌+◌, ◌-◌, ◌*◌, ◌/◌, ◌^◌, min, ◌≤◌, ◌<◌, ◌≡◌, refl, sym, ap, ◌∙◌, List, length, leb, [], ◌∷◌,
  Bool-cases, inl, inr, arith,
}
use yh_filemanager_vfs_stora.Prelude.Bytes.{take, drop, slice, length-take, length-drop}
use yh_filemanager_vfs_stora.Protected.Payload.Windows.{slice_end}
use yh_filemanager_vfs_stora.Protected.Payload.Ranges.{IsWithin}
use yh_filemanager_vfs_stora.Protected.Read.{aligned_end, slice_bytes}

nil_of_length : (xs : List ℕ) → length xs ≡ 0 → xs ≡ []
nil_of_length [] h = refl
nil_of_length (x ∷ xs) h = absurd (omega arith)

-- The bounds of slice_bytes clamp nothing that a slice would have.
pub slice_bytes-slice :
    (content : List ℕ) (start last : ℕ) → slice_bytes content start last ≡ slice start last content
unfolding slice_bytes
slice_bytes-slice content start last =
    elim (Bool-cases (leb (min last (length content)) (min start (length content)))) [
      | inl e ↦
          let n = length-take (last - start) (drop start content) in
          let d = length-drop start content in
          rw (e) (sym (nil_of_length (slice start last content) (ground (arith, n, d, e))))
      | inr e ↦
          let k : min start (length content) ≡ start = ground (arith, e) in
          rw (e)
            (ap (λ m. slice m (min last (length content)) content) k ∙ slice_end start last content)
    ]

module _ (size : ℕ) (size_pos : 0 < size) where
  pub aligned_end_bound : (stop : ℕ) → stop + size < 2 ^ 64 → stop ≤ aligned_end size stop
  unfolding aligned_end
  aligned_end_bound stop h =
      let e : min (stop + (size - 1)) (2 ^ 64 - 1) ≡ stop + (size - 1) = omega arith in
      let n : ℕ = stop + (size - 1) in
      let b : n < n / size * size + size = lt-div-mul-add size_pos in rw (e) (omega (arith, b))

  pub aligned_IsWithin :
      (start stop len : ℕ)
      → start ≤ stop
      → stop ≤ len
      → len + size < 2 ^ 64
      → IsWithin (start / size * size) start stop (min (aligned_end size stop) len) len
  aligned_IsWithin start stop len h k l =
      let a = aligned_end_bound stop (omega arith) in
      let b = div-mul-le_self start size in (b, h, omega arith, omega arith, omega arith)

  -- The window in whole blocks, the last of which may be cut.
  pub aligned_blocks :
      (start stop : ℕ) (content : List ℕ)
      → stop + size < 2 ^ 64
      → slice (start / size * size) (min (aligned_end size stop) (length content)) content
        ≡ take
            (((stop + (size - 1)) / size - start / size) * size)
            (drop (start / size * size) content)
  unfolding aligned_end
  aligned_blocks start stop content h =
      let e : min (stop + (size - 1)) (2 ^ 64 - 1) ≡ stop + (size - 1) = omega arith in
      let last : ℕ = (stop + (size - 1)) / size in
      let f : (last - start / size) * size ≡ last * size - start / size * size =
        omega (arith, mul-sub size last (start / size)) in
      rw (e) (
        slice_end (start / size * size) ((stop + (size - 1)) / size * size) content
        ∙ ap (λ m. take m (drop (start / size * size) content)) (sym f))
