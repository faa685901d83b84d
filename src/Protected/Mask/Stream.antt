-- ===== src/Protected/Mask/Stream.antt =====
-- src/vfs/protected.rs: the masks against a stream that is described by position. The byte `i` of
-- a block is masked by the byte `i % w` of the number drawn after `i / w` others, `w` bytes each.
use native.Mathlib.Nat.{mod-eq_of_lt, div-eq_of_lt, add-div_left, add-mod_left}
use Prim.Native.Nat.{bit_xor}
use yh_filemanager_vfs_stora.Prelude.{
  ℕ, zero, suc, ◌+◌, ◌/◌, ◌%◌, ◌≤◌, ◌<◌, ◌≡◌, refl, sym, ap, ap₂, ◌∙◌, List, [], ◌∷◌, ◌++◌, arith,
  length, Option,
}
use yh_filemanager_vfs_stora.Prelude.Text.{Text}
use yh_filemanager_vfs_stora.Prelude.Bytes.{
  take, drop, length-take, length-drop, length-to_le_bytes, xor_with, xor_with_agree,
  xor_with_split, xor_with-nil,
}
use yh_filemanager_vfs_stora.Protected.Header.{ProtectedPrng, xorshift, pcg}
use yh_filemanager_vfs_stora.Protected.Mask.{
  xor_zip, mask_words, xorshift_word, pcg_word, xorshift_state, pcg_state, pcg_inc,
  apply_xorshift_mask, apply_pcg_mask, apply_mask, derive_block_material,
}

-- The byte of a word, and zero past its end.
abbrev nth : List ℕ → ℕ → ℕ
nth [] i = 0
nth (x ∷ xs) zero = x
nth (x ∷ xs) (suc i) = nth xs i

xor_zip-nth : (xs ms : List ℕ) → length xs ≤ length ms → xor_zip xs ms ≡ xor_with (nth ms) xs
unfolding xor_with
xor_zip-nth [] ms h = refl
xor_zip-nth (x ∷ xs) [] h = absurd (omega arith)
xor_zip-nth (x ∷ xs) (m ∷ ms) h = ap (λ ys. bit_xor x m ∷ ys) (xor_zip-nth xs ms (omega arith))

module _ (S : Type 0) (next : S → S × List ℕ) where
  -- The word drawn after `n` others.
  abbrev word : ℕ → S → List ℕ
  word zero state = (next state).1
  word (suc n) state = word n (next state).0

  unfoldable pub stream : ℕ → S → ℕ → ℕ
  stream width state i = nth (word (i / width) state) (i % width)

  module _ (width : ℕ) (width_pos : 0 < width)
      (word_width : (state : S) → length (next state).1 ≡ width) where
    stream_first : (state : S) (i : ℕ) → i < width → nth (next state).1 i ≡ stream width state i
    unfolding stream
    stream_first state i h = rw (div-eq_of_lt h, mod-eq_of_lt h) refl

    stream_later :
        (state : S) (i : ℕ) → stream width (next state).0 i ≡ stream width state (width + i)
    unfolding stream
    stream_later state i =
        let q : (width + i) / width ≡ suc (i / width) = omega (arith, add-div_left i width_pos) in
        rw (q, add-mod_left width i) refl

    pub mask_words-stream :
        (f : ℕ) (state : S) (chunk : List ℕ)
        → length chunk ≤ f
        → mask_words S next f state chunk ≡ xor_with (stream width state) chunk
    unfolding mask_words
    mask_words-stream zero state [] h = sym (xor_with-nil (stream width state))
    mask_words-stream zero state (x ∷ xs) h = absurd (omega arith)
    mask_words-stream (suc f) state [] h = sym (xor_with-nil (stream width state))
    mask_words-stream (suc f) state (x ∷ xs) h =
        let drawn = (next state).1 in
        let n = length drawn in
        let e = word_width state in
        let chunk : List ℕ = x ∷ xs in
        let taken = length-take n chunk in
        let first = xor_zip-nth (take n chunk) drawn (omega arith) in
        let agree =
          xor_with_agree (nth drawn) (stream width state) (take n chunk)
            (λ i p. stream_first state i (omega arith)) in
        let rest =
          mask_words-stream f (next state).0 (drop n chunk) (omega (arith, length-drop n chunk)) in
        let split =
          xor_with_split (stream width state) (stream width (next state).0) n chunk
            (λ i. stream_later state i ∙ ap (λ k. stream width state (k + i)) (sym e)) in
        ap₂ ◌++◌ (first ∙ agree) rest ∙ sym split

module _ (hkdf_sha256 : Option (List ℕ) → List ℕ → List ℕ → List ℕ) where
  -- The mask of the byte at a place of a block.
  unfoldable pub block_stream : ProtectedPrng → Text → Text → List ℕ → ℕ → ℕ → ℕ
  block_stream xorshift user_id key_slot_id seed block_index =
      stream ℕ (xorshift_word) 8
        (xorshift_state (derive_block_material hkdf_sha256 user_id key_slot_id seed block_index))
  block_stream pcg user_id key_slot_id seed block_index =
      let material = derive_block_material hkdf_sha256 user_id key_slot_id seed block_index in
      stream ℕ (pcg_word (pcg_inc material)) 4 (pcg_state material)

  pub apply_mask-stream :
      (prng : ProtectedPrng) (user_id key_slot_id : Text) (seed : List ℕ) (block_index : ℕ)
      (chunk : List ℕ)
      → apply_mask hkdf_sha256 prng user_id key_slot_id seed block_index chunk
        ≡ xor_with (block_stream prng user_id key_slot_id seed block_index) chunk
  unfolding apply_mask apply_xorshift_mask apply_pcg_mask block_stream
  apply_mask-stream xorshift user_id key_slot_id seed block_index chunk =
      mask_words-stream ℕ (xorshift_word) 8 (omega arith) (λ state. length-to_le_bytes 8 _)
        (length chunk) _ chunk (omega arith)
  apply_mask-stream pcg user_id key_slot_id seed block_index chunk =
      mask_words-stream ℕ (pcg_word _) 4 (omega arith) (λ state. length-to_le_bytes 4 _)
        (length chunk) _ chunk (omega arith)
