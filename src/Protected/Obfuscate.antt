-- ===== src/Protected/Obfuscate.antt =====
-- src/vfs/protected.rs: the masking of a payload, block by block, by one thread or by a pool.
-- What the pool and the machine decide is a parameter.
pub mod Order
pub mod Positions
use yh_filemanager_vfs_stora.Prelude.{
  ℕ, zero, suc, ◌+◌, ◌-◌, ◌*◌, ◌/◌, ◌%◌, max, ◌≤◌, ◌<◌, ◌≡◌, refl, sym, ap, ap₂, ◌∙◌, List, [], ◌∷◌,
  ◌++◌, arith, length, get_elem?, set, Option, none, some, ltb, leb, ◌==◌, Bool, true, false, ◌||◌,
  if◌then◌else◌,
}
use yh_filemanager_vfs_stora.Prelude.Text.{Text}
use yh_filemanager_vfs_stora.Prelude.Bytes.{chunks, concat}
use yh_filemanager_vfs_stora.Prelude.Chunks.{div_ceil}
use yh_filemanager_vfs_stora.Protected.Header.{ProtectedPrng}
use yh_filemanager_vfs_stora.Protected.Mask.{apply_mask}

-- Each chunk in turn, under its index.
abbrev pub mask_chunks : (ℕ → List ℕ → List ℕ) → ℕ → List (List ℕ) → List (List ℕ)
mask_chunks mask index [] = []
mask_chunks mask index (chunk ∷ rest) = mask index chunk ∷ mask_chunks mask (suc index) rest

-- The chunks in the order in which the pool comes to them. Each is borrowed by one closure alone,
-- which changes it in place.
abbrev mask_at : (ℕ → List ℕ → List ℕ) → ℕ → ℕ → List (List ℕ) → List (List ℕ)
mask_at mask start i parts = elim (get_elem? parts i) [
  | none ↦ parts
  | some chunk ↦ set parts i (mask (start + i) chunk)
]

abbrev pub mask_scheduled : (ℕ → List ℕ → List ℕ) → ℕ → List ℕ → List (List ℕ) → List (List ℕ)
mask_scheduled mask start [] parts = parts
mask_scheduled mask start (i ∷ order) parts =
    mask_scheduled mask start order (mask_at mask start i parts)

abbrev pub occurrences : ℕ → List ℕ → ℕ
occurrences i [] = 0
occurrences i (x ∷ xs) = let rest = occurrences i xs in if i == x then suc rest else rest

-- `hkdf_sha256` is the crate `hkdf`; `schedule` the order in which a pool comes to so many chunks;
-- `available_parallelism` what the standard library reports, one where it cannot tell.
pub record Masking : Type 0 where
  pub hkdf_sha256 : Option (List ℕ) → List ℕ → List ℕ → List ℕ
  pub available_parallelism : ℕ
  pub schedule : ℕ → List ℕ

-- `par_chunks_mut` and `for_each` come to each chunk once.
pub record MaskingLaws (m : Masking) : Type 0 where
  pub schedule_once : (n i : ℕ) → i < n → occurrences i (m.schedule n) ≡ 1

module _ (m : Masking) where
  abbrev effective_parallel_workers : ℕ → ℕ
  effective_parallel_workers requested =
      if requested == 0 then m.available_parallelism else max requested 1

  unfoldable pub obfuscate_in_place_from_block :
      List ℕ → Text → Text → List ℕ → ℕ → ProtectedPrng → ℕ → ℕ → List ℕ
  obfuscate_in_place_from_block buf user_id key_slot_id seed block_size prng start workers =
      let size = max block_size 1 in
      let chunk_count = div_ceil (length buf) size in
      let effective_workers = effective_parallel_workers workers in
      let mask = apply_mask m.hkdf_sha256 prng user_id key_slot_id seed in
      concat (
        if leb effective_workers 1 || ltb chunk_count 4
        then mask_chunks mask start (chunks size buf)
        else mask_scheduled mask start (m.schedule chunk_count) (chunks size buf))

  unfoldable pub obfuscate_in_place : List ℕ → Text → Text → List ℕ → ℕ → ProtectedPrng → ℕ → List ℕ
  unfolding obfuscate_in_place_from_block
  obfuscate_in_place buf user_id key_slot_id seed block_size prng workers =
      obfuscate_in_place_from_block buf user_id key_slot_id seed block_size prng 0 workers
