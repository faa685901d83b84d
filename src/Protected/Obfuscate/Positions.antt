-- ===== src/Protected/Obfuscate/Positions.antt =====
-- src/vfs/protected.rs: the masked payload by position. The byte `i` is masked by the byte
-- `i % block_size` of the stream of the block `start + i / block_size`, whoever masks it.
use native.Mathlib.Nat.{mod-eq_of_lt, div-eq_of_lt, add-div_left, add-mod_left}
use yh_filemanager_vfs_stora.Prelude.{
  ℕ, zero, suc, max, ◌+◌, ◌/◌, ◌%◌, ◌≤◌, ◌<◌, ◌≡◌, sym, ap, ap₂, ◌∙◌, List, [], ◌∷◌, ◌++◌, arith,
  length, inl, inr, Bool-cases, leb, ltb, ◌||◌,
}
use yh_filemanager_vfs_stora.Prelude.Text.{Text}
use yh_filemanager_vfs_stora.Prelude.Bytes.{
  take, drop, length-take, length-drop, chunks, chunks_fuel, concat, xor_with, xor_with_agree,
  xor_with_split, xor_with-nil,
}
use yh_filemanager_vfs_stora.Prelude.Chunks.{div_ceil, length-chunks}
use yh_filemanager_vfs_stora.Protected.Header.{ProtectedPrng}
use yh_filemanager_vfs_stora.Protected.Mask.{apply_mask}
use yh_filemanager_vfs_stora.Protected.Mask.Stream.{block_stream, apply_mask-stream}
use yh_filemanager_vfs_stora.Protected.Obfuscate.{
  Masking, MaskingLaws, mask_chunks, effective_parallel_workers, obfuscate_in_place_from_block,
}
use yh_filemanager_vfs_stora.Protected.Obfuscate.Order.{mask_scheduled-mask_chunks}

module _ (mask : ℕ → List ℕ → List ℕ) (block : ℕ → ℕ → ℕ)
    (masked : (i : ℕ) (c : List ℕ) → mask i c ≡ xor_with (block i) c) (n : ℕ) (n_pos : 0 < n) where
  -- The stream over the whole, from a block on.
  abbrev positions : ℕ → ℕ → ℕ
  positions start i = block (start + i / n) (i % n)

  positions_first : (start i : ℕ) → i < n → block start i ≡ positions start i
  positions_first start i h =
      let e : start + i / n ≡ start = omega (arith, div-eq_of_lt h) in
      ap₂ block (sym e) (sym (mod-eq_of_lt h))

  positions_later : (start i : ℕ) → positions (suc start) i ≡ positions start (n + i)
  positions_later start i =
      let e : suc start + i / n ≡ start + (n + i) / n = omega (arith, add-div_left i n_pos) in
      ap₂ block e (sym (add-mod_left n i))

  concat-mask_chunks_fuel :
      (f start : ℕ) (xs : List ℕ)
      → length xs ≤ f
      → concat (mask_chunks mask start (chunks_fuel f n xs)) ≡ xor_with (positions start) xs
  unfolding chunks_fuel
  concat-mask_chunks_fuel zero start [] h = sym (xor_with-nil (positions start))
  concat-mask_chunks_fuel zero start (x ∷ xs) h = absurd (omega arith)
  concat-mask_chunks_fuel (suc f) start [] h = sym (xor_with-nil (positions start))
  concat-mask_chunks_fuel (suc f) start (x ∷ xs) h =
      let whole : List ℕ = x ∷ xs in
      let taken = length-take n whole in
      let first =
        masked start (take n whole)
        ∙ xor_with_agree (block start) (positions start) (take n whole)
            (λ i p. positions_first start i (omega arith)) in
      let rest =
        concat-mask_chunks_fuel f (suc start) (drop n whole) (omega (arith, length-drop n whole)) in
      ap₂ ◌++◌ first rest
      ∙ sym
          (xor_with_split (positions start) (positions (suc start)) n whole (positions_later start))

  pub concat-mask_chunks :
      (start : ℕ) (xs : List ℕ)
      → concat (mask_chunks mask start (chunks n xs)) ≡ xor_with (positions start) xs
  unfolding chunks
  concat-mask_chunks start xs = concat-mask_chunks_fuel (length xs) start xs (omega arith)

module _ (m : Masking) (laws : MaskingLaws m) where
  -- The mask of a payload's byte, by its place.
  abbrev pub payload_stream : Text → Text → List ℕ → ℕ → ProtectedPrng → ℕ → ℕ → ℕ
  payload_stream user_id key_slot_id seed block_size prng start i =
      let size = max block_size 1 in
      block_stream m.hkdf_sha256 prng user_id key_slot_id seed (start + i / size) (i % size)

  -- By one thread or by a pool, each byte of a payload is masked by the byte of its block's
  -- stream at its place in the block.
  pub obfuscate_in_place_from_block-stream :
      (buf : List ℕ) (user_id key_slot_id : Text) (seed : List ℕ) (block_size : ℕ)
      (prng : ProtectedPrng) (start workers : ℕ)
      → obfuscate_in_place_from_block m buf user_id key_slot_id seed block_size prng start workers
        ≡ xor_with (payload_stream user_id key_slot_id seed block_size prng start) buf
  unfolding obfuscate_in_place_from_block
  obfuscate_in_place_from_block-stream buf user_id key_slot_id seed block_size prng start workers =
      let size = max block_size 1 in
      let size_pos : 0 < size = omega arith in
      let mask = apply_mask m.hkdf_sha256 prng user_id key_slot_id seed in
      let count = length-chunks size size_pos buf in
      let inorder =
        concat-mask_chunks mask (block_stream m.hkdf_sha256 prng user_id key_slot_id seed)
          (apply_mask-stream m.hkdf_sha256 prng user_id key_slot_id seed) size size_pos start buf in
      elim (Bool-cases
        (leb (effective_parallel_workers m workers) 1 || ltb (div_ceil (length buf) size) 4)) [
          | inl e ↦ rw (e) inorder
          | inr e ↦ rw (e) (
              ap concat (
                mask_scheduled-mask_chunks mask start (m.schedule (div_ceil (length buf) size))
                  (chunks size buf)
                  (λ j h. laws.schedule_once (div_ceil (length buf) size) j (omega arith)))
              ∙ inorder)
        ]
