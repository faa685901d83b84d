-- ===== src/Protected/Payload/Ranges.antt =====
-- src/vfs/protected.rs: a range that is decoded from a window of a payload is the range of what
-- was encoded.
use native.Mathlib.Nat.{mul-add-div_right, mul-div_cancel, mul-add-mod_self_right}
use yh_filemanager_vfs_stora.Prelude.{
  ℕ, ◌+◌, ◌-◌, ◌*◌, ◌/◌, ◌^◌, min, max, ◌≤◌, ◌<◌, ◌≡◌, refl, sym, ap, ap₂, subst, if◌then◌else◌,
  ◌∙◌, List, length, false, some, ltb, ok, err, arith,
}
use yh_filemanager_vfs_stora.Prelude.Text.{Text}
use yh_filemanager_vfs_stora.Prelude.Bytes.{take, slice, take_all, xor_with, length-xor_with}
use yh_filemanager_vfs_stora.Protected.Header.{ProtectedPrng, ProtectedHeader}
use yh_filemanager_vfs_stora.Protected.Mask.Stream.{block_stream}
use yh_filemanager_vfs_stora.Protected.Obfuscate.{
  Masking, MaskingLaws, obfuscate_in_place, obfuscate_in_place_from_block,
}
use yh_filemanager_vfs_stora.Protected.Obfuscate.Positions.{
  payload_stream, obfuscate_in_place_from_block-stream,
}
use yh_filemanager_vfs_stora.Protected.Encrypt.{CryptoLaws, encrypt_in_place}
use yh_filemanager_vfs_stora.Protected.Encrypt.Keystream.{
  encrypt_in_place-keystream, encrypt_range_in_place-keystream,
}
use yh_filemanager_vfs_stora.Protected.Payload.{
  Protection, decode_obfuscate_range, decode_encrypt_range,
}
use yh_filemanager_vfs_stora.Protected.Payload.Windows.{slice-slice, xor_with_window, length-slice}

-- The bounds of a window and of the range in it.
abbrev pub IsWithin : ℕ → ℕ → ℕ → ℕ → ℕ → Type 0
IsWithin first start stop last size =
    (first ≤ start) × (start ≤ stop) × (stop ≤ last) × (last ≤ size) × (size < 2 ^ 64)

module _ (m : Masking) (laws : MaskingLaws m) (user_id key_slot_id : Text) (seed : List ℕ)
    (prng : ProtectedPrng) (size : ℕ) where
  -- A window that starts with block `k` meets the stream of the whole payload from there on.
  payload_stream_aligned :
      (k i : ℕ)
      → payload_stream m laws user_id key_slot_id seed size prng (k * max size 1 / max size 1) i
        ≡ payload_stream m laws user_id key_slot_id seed size prng 0 (k * max size 1 + i)
  payload_stream_aligned k i =
      let pos : 0 < max size 1 = omega arith in
      let q : k * max size 1 / max size 1 + i / max size 1 ≡ 0 + (k * max size 1 + i) / max size 1 =
        omega (arith, mul-div_cancel k pos, mul-add-div_right pos k i) in
      ap₂ (block_stream m.hkdf_sha256 prng user_id key_slot_id seed) q
        (sym (mul-add-mod_self_right k (max size 1) i))

  -- The masks of a window undo those of the whole payload.
  unmask_window :
      (plaintext : List ℕ) (first last k workers readers : ℕ)
      → first ≡ k * max size 1
      → obfuscate_in_place_from_block m
          (slice first last
            (obfuscate_in_place m plaintext user_id key_slot_id seed size prng workers))
          user_id
          key_slot_id
          seed
          size
          prng
          (first / max size 1)
          readers
        ≡ slice first last plaintext
  unfolding obfuscate_in_place
  unmask_window plaintext first last k workers readers h =
      let whole = payload_stream m laws user_id key_slot_id seed size prng 0 in
      let here = payload_stream m laws user_id key_slot_id seed size prng (first / max size 1) in
      let masked =
        obfuscate_in_place_from_block-stream m laws plaintext user_id key_slot_id seed size prng 0
          workers in
      obfuscate_in_place_from_block-stream m laws _ user_id key_slot_id seed size prng
        (first / max size 1) readers
      ∙ ap (λ ys. xor_with here (slice first last ys)) masked
      ∙ xor_with_window whole here first last plaintext (λ i.
        subst
          (λ z.
            payload_stream m laws user_id key_slot_id seed size prng (z / max size 1) i
            ≡ whole (z + i))
          (sym h) (payload_stream_aligned k i))

  pub length-obfuscate_in_place :
      (plaintext : List ℕ) (workers : ℕ)
      → length (obfuscate_in_place m plaintext user_id key_slot_id seed size prng workers)
        ≡ length plaintext
  unfolding obfuscate_in_place
  length-obfuscate_in_place plaintext workers =
      ap length (
        obfuscate_in_place_from_block-stream m laws plaintext user_id key_slot_id seed size prng 0
          workers)
      ∙ length-xor_with _ plaintext

module _ (p : Protection) where
  -- The bounds hold, so the slice is taken.
  slice_checked :
      (first start stop last : ℕ) (plaintext window : List ℕ) (message : Text)
      → IsWithin first start stop last (length plaintext)
      → window ≡ slice first last plaintext
      → (if ltb (length window) (start - first + (stop - start))
          then err message
          else ok (slice (start - first) (start - first + (stop - start)) window))
        ≡ ok (slice start stop plaintext)
  slice_checked first start stop last plaintext window message b h =
      let n = ap length h ∙ length-slice first last plaintext b.3 in
      let e : ltb (length window) (start - first + (stop - start)) ≡ false = ground (arith, n, b) in
      rw (e) (
        ap (λ w. ok (slice (start - first) (start - first + (stop - start)) w)) h
        ∙ ap (λ w. ok w) (slice-slice first last start stop plaintext b.0 b.1 b.2))

  pub decode_obfuscate_window :
      (laws : MaskingLaws p.masking) (user_id key_slot_id : Text) (header : ProtectedHeader)
      (plaintext : List ℕ) (workers readers : ℕ) (first start stop last k : ℕ)
      → first ≡ k * max header.block_size 1
      → IsWithin first start stop last (length plaintext)
      → decode_obfuscate_range p user_id key_slot_id readers header
          (slice first last (
            obfuscate_in_place p.masking plaintext user_id key_slot_id header.seed_or_nonce
              (max header.block_size 1)
              header.prng
              workers))
          first
          start
          stop
        ≡ ok (slice start stop plaintext)
  unfolding decode_obfuscate_range
  decode_obfuscate_window laws user_id key_slot_id header plaintext workers readers first start stop
        last k h b =
      let size = max header.block_size 1 in
      let one : max size 1 ≡ size = omega arith in
      let masked =
        obfuscate_in_place p.masking plaintext user_id key_slot_id header.seed_or_nonce size
          header.prng workers in
      let window = slice first last masked in
      let n = length-slice first last masked (
        omega (
          arith,
          b,
          length-obfuscate_in_place p.masking laws user_id key_slot_id header.seed_or_nonce
              header.prng size plaintext workers,
        )) in
      let undone =
        subst
          (λ z.
            obfuscate_in_place_from_block p.masking window user_id key_slot_id header.seed_or_nonce
              size header.prng (first / z) readers
            ≡ slice first last plaintext)
          one
          (unmask_window p.masking laws user_id key_slot_id header.seed_or_nonce header.prng size
            plaintext first last k workers readers (h ∙ ap (λ z. k * z) (sym one))) in
      slice_checked first start stop last plaintext _ _ b (
        ap (take (min (first + length window) (2 ^ 64 - 1) - first)) undone
        ∙ take_all _ (slice first last plaintext)
            (omega (arith, n, b, length-slice first last plaintext b.3)))

  pub decode_encrypt_window :
      (laws : CryptoLaws p.crypto) (key : List ℕ) (header : ProtectedHeader) (plaintext : List ℕ)
      (first start stop last : ℕ)
      → length header.seed_or_nonce ≡ 16
      → IsWithin first start stop last (length plaintext)
      → decode_encrypt_range p
          (some key)
          header
          (slice first last (encrypt_in_place p.crypto plaintext key header.seed_or_nonce))
          first
          start
          stop
        ≡ ok (slice start stop plaintext)
  unfolding decode_encrypt_range
  decode_encrypt_window laws key header plaintext first start stop last h b =
      let nonce = header.seed_or_nonce in
      let window = slice first last (encrypt_in_place p.crypto plaintext key nonce) in
      let stream = laws.keystream key nonce in
      let undone =
        encrypt_range_in_place-keystream p.crypto laws window key nonce first h
        ∙ ap (λ ys. xor_with (λ i. stream (first + i)) (slice first last ys))
            (encrypt_in_place-keystream p.crypto laws plaintext key nonce)
        ∙ xor_with_window stream (λ i. stream (first + i)) first last plaintext (λ i. refl) in
      let e : ltb start first ≡ false = ground (arith, b) in
      rw (e) (slice_checked first start stop last plaintext _ _ b undone)
