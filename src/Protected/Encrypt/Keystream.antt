-- ===== src/Protected/Encrypt/Keystream.antt =====
-- src/vfs/protected.rs: encryption from an offset takes the stream from there on.
use yh_filemanager_vfs_stora.Prelude.{
  ℕ, ◌+◌, ◌/◌, ◌%◌, ◌≡◌, ap, ◌∙◌, List, length, arith, ltb, if◌then◌else◌,
}
use yh_filemanager_vfs_stora.Prelude.Bytes.{xor_with, xor_with_agree}
use yh_filemanager_vfs_stora.Protected.Encrypt.{
  Crypto, CryptoLaws, encrypt_in_place, encrypt_range_in_place,
}

module _ (c : Crypto) (laws : CryptoLaws c) where
  pub encrypt_in_place-keystream :
      (buf key nonce : List ℕ)
      → encrypt_in_place c buf key nonce ≡ xor_with (laws.keystream key nonce) buf
  unfolding encrypt_in_place
  encrypt_in_place-keystream buf key nonce =
      laws.keystream_xor key nonce 0 buf
      ∙ xor_with_agree _ _ buf (λ i p. ap (laws.keystream key nonce) (omega arith))

  -- From any offset, each byte meets the byte of the stream at its place in the whole payload.
  pub encrypt_range_in_place-keystream :
      (buf key nonce : List ℕ) (offset : ℕ)
      → length nonce ≡ 16
      → encrypt_range_in_place c buf key nonce offset
        ≡ xor_with (λ i. laws.keystream key nonce (offset + i)) buf
  unfolding encrypt_range_in_place
  encrypt_range_in_place-keystream buf key nonce offset h =
      let intra : (if ltb 0 (offset % 16) then offset % 16 else 0) ≡ offset % 16 = ground arith in
      laws.keystream_xor key _ _ buf
      ∙ xor_with_agree _ _ buf (λ i p.
        laws.keystream_counter key nonce (offset / 16) _ h
        ∙ ap (laws.keystream key nonce) (omega (arith, intra)))
