-- ===== src/Protected/Mask.antt =====
-- src/vfs/protected.rs: the stream of bytes that masks an obfuscated block, from one of two
-- generators that are seeded by HKDF-SHA256. The crate `hkdf` is a parameter.
use Prim.Native.Nat.{bit_xor, bit_or}
pub mod Stream
use yh_filemanager_vfs_stora.Prelude.{
  ℕ, zero, suc, ◌+◌, ◌-◌, ◌*◌, ◌/◌, ◌%◌, ◌^◌, ◌≤◌, ◌<◌, ◌≡◌, refl, sym, ap, ◌∙◌, List, [], ◌∷◌,
  ◌++◌, arith, length, if◌then◌else◌, ltb, ◌==◌, map, get_elem?, Option, none, some,
}
use yh_filemanager_vfs_stora.Prelude.Text.{Text, codes}
use yh_filemanager_vfs_stora.Prelude.Bytes.{
  take, drop, slice, to_le_bytes, from_le_bytes, length-to_le_bytes, xor_with,
}
use yh_filemanager_vfs_stora.Protected.Header.{ProtectedPrng, xorshift, pcg}

-- `wrapping_mul` and `<<` on `u64`.
abbrev pub wrapping_mul : ℕ → ℕ → ℕ
wrapping_mul a b = a * b % 2 ^ 64

abbrev pub shift_left : ℕ → ℕ → ℕ
shift_left a n = a * 2 ^ n % 2 ^ 64

abbrev pub rotate_right : ℕ → ℕ → ℕ
rotate_right a n = bit_or (a / 2 ^ n) (a * 2 ^ (32 - n) % 2 ^ 32)

-- The next state and the number drawn.
unfoldable pub xorshift64star_next : ℕ → ℕ × ℕ
xorshift64star_next state =
    let x = bit_xor state (state / 2 ^ 12) in
    let y = bit_xor x (shift_left x 25) in
    let z = bit_xor y (y / 2 ^ 27) in (z, wrapping_mul z 0x2545f4914f6cdd1d)

unfoldable pub pcg32_next : ℕ → ℕ → ℕ × ℕ
pcg32_next inc state =
    let xorshifted = bit_xor (state / 2 ^ 18) state / 2 ^ 27 % 2 ^ 32 in
    let rot = state / 2 ^ 59 in
    ((wrapping_mul state 6364136223846793005 + bit_or inc 1) % 2 ^ 64, rotate_right xorshifted rot)

-- `as_bytes`: the characters of a string in UTF-8.
abbrev utf8_bytes : ℕ → List ℕ
utf8_bytes c =
    if ltb c 0x80
    then c ∷ []
    else if ltb c 0x800
    then (0xc0 + c / 64) ∷ (0x80 + c % 64) ∷ []
    else if ltb c 0x10000
    then (0xe0 + c / 4096) ∷ (0x80 + c / 64 % 64) ∷ (0x80 + c % 64) ∷ []
    else (0xf0 + c / 262144) ∷ (0x80 + c / 4096 % 64) ∷ (0x80 + c / 64 % 64) ∷ (0x80 + c % 64) ∷ []

abbrev pub as_bytes : Text → List ℕ
as_bytes [] = []
as_bytes (c ∷ s) = utf8_bytes c ++ as_bytes s

-- `{}` of a `u64`, which has twenty digits at most.
to_decimal_fuel : ℕ → ℕ → Text
to_decimal_fuel zero n = []
to_decimal_fuel (suc f) n =
    let before = to_decimal_fuel f (n / 10) in
    if ltb n 10 then (b'0' + n) ∷ [] else before ++ (b'0' + n % 10) ∷ []

unfoldable pub to_decimal : ℕ → Text
unfolding to_decimal_fuel
to_decimal n = to_decimal_fuel 20 n

-- `zip` stops at the shorter one, and the bytes of the chunk behind it stay.
abbrev pub xor_zip : List ℕ → List ℕ → List ℕ
xor_zip [] ms = []
xor_zip (x ∷ xs) [] = x ∷ xs
xor_zip (x ∷ xs) (m ∷ ms) = bit_xor x m ∷ xor_zip xs ms

-- The masks of a word at a time: `next` is the generator with the bytes of what it draws. Each
-- word covers at least one byte, so the length of the chunk is enough fuel.
module _ (S : Type 0) (next : S → S × List ℕ) where
  unfoldable pub mask_words : ℕ → S → List ℕ → List ℕ
  mask_words zero state chunk = chunk
  mask_words (suc f) state [] = []
  mask_words (suc f) state (x ∷ xs) =
      let drawn = next state in
      let n = length drawn.1 in
      xor_zip (take n (x ∷ xs)) drawn.1 ++ mask_words f drawn.0 (drop n (x ∷ xs))

-- A generator that starts at zero would stay there, so another constant takes its place.
abbrev or_constant : ℕ → ℕ → ℕ
or_constant constant state = if state == 0 then constant else state

unfoldable pub xorshift_state : List ℕ → ℕ
xorshift_state material = or_constant 0x9e3779b97f4a7c15 (from_le_bytes (slice 0 8 material))

unfoldable pub pcg_state : List ℕ → ℕ
pcg_state material = or_constant 0x853c49e6748fea9b (from_le_bytes (slice 0 8 material))

unfoldable pub pcg_inc : List ℕ → ℕ
pcg_inc material = bit_or (from_le_bytes (slice 8 16 material)) 1

abbrev pub xorshift_word : ℕ → ℕ × List ℕ
xorshift_word state = let drawn = xorshift64star_next state in (drawn.0, to_le_bytes 8 drawn.1)

abbrev pub pcg_word : ℕ → ℕ → ℕ × List ℕ
pcg_word inc state = let drawn = pcg32_next inc state in (drawn.0, to_le_bytes 4 drawn.1)

-- `Hkdf::<Sha256>::new(Some(salt), ikm).expand(info, &mut [0u8; 32])`.
module _ (hkdf_sha256 : Option (List ℕ) → List ℕ → List ℕ → List ℕ) where
  unfoldable pub derive_block_material : Text → Text → List ℕ → ℕ → List ℕ
  derive_block_material user_id key_slot_id seed block_index =
      hkdf_sha256 (some (as_bytes user_id ++ as_bytes (codes ":") ++ as_bytes key_slot_id)) seed
        (as_bytes (codes "fileuni:protected:obfuscate:v1:" ++ to_decimal block_index))

  unfoldable pub apply_xorshift_mask : Text → Text → List ℕ → ℕ → List ℕ → List ℕ
  apply_xorshift_mask user_id key_slot_id seed block_index chunk =
      let material = derive_block_material user_id key_slot_id seed block_index in
      mask_words ℕ xorshift_word (length chunk) (xorshift_state material) chunk

  unfoldable pub apply_pcg_mask : Text → Text → List ℕ → ℕ → List ℕ → List ℕ
  apply_pcg_mask user_id key_slot_id seed block_index chunk =
      let material = derive_block_material user_id key_slot_id seed block_index in
      mask_words ℕ (pcg_word (pcg_inc material)) (length chunk) (pcg_state material) chunk

  unfoldable pub apply_mask : ProtectedPrng → Text → Text → List ℕ → ℕ → List ℕ → List ℕ
  apply_mask xorshift = apply_xorshift_mask
  apply_mask pcg = apply_pcg_mask
