-- ===== src/Protected/Payload.antt =====
-- src/vfs/protected.rs: a whole payload and the ranges that are read back from it.
pub mod Windows
pub mod Ranges
pub mod Encoded
use yh_filemanager_vfs_stora.Prelude.{
  ℕ, ◌+◌, ◌-◌, ◌/◌, ◌%◌, ◌^◌, min, max, List, [], ◌++◌, length, Bool, true, false, ◌||◌, Option,
  none, some, ltb, leb, if◌then◌else◌, Result, ok, err,
}
use yh_filemanager_vfs_stora.Prelude.Text.{
  Text, codes, text_eq, starts_with, trim_end_matches, is_empty,
}
use yh_filemanager_vfs_stora.Prelude.Bytes.{take, slice}
use yh_filemanager_vfs_stora.Prelude.Results.{◌>>=◌, map_err}
use yh_filemanager_vfs_stora.Protected.Header.{
  ProtectedMode, obfuscate, encrypt, ProtectedPrng, ProtectedHeader, encode_header,
}
use yh_filemanager_vfs_stora.Protected.Meta.{
  MetaCodec, ProtectedMetaRecord, from_header, protected_integrity_hmac_sha256_chunked,
}
use yh_filemanager_vfs_stora.Protected.Obfuscate.{
  Masking, obfuscate_in_place, obfuscate_in_place_from_block,
}
use yh_filemanager_vfs_stora.Protected.Encrypt.{
  Crypto, encrypt_in_place, encrypt_range_in_place, build_encrypt_mac_table,
  default_encrypt_integrity_chunk_size,
}

pub record ProtectedPathPlan : Type 0 where
  pub root : Text
  pub mode : ProtectedMode
  pub key_slot_id : Text
  pub block_size : ℕ
  pub prng : ProtectedPrng
  pub encrypt_key : Option (List ℕ)
  pub workers : ℕ

-- Without the trailing slashes, and `/` where nothing is left.
abbrev or_root : Text → Text
or_root path =
    let trimmed = trim_end_matches b'/' path in if is_empty trimmed then codes "/" else trimmed

unfoldable pub matches_path : ProtectedPathPlan → Text → Bool
matches_path plan path =
    let normalized = or_root path in
    let root = or_root plan.root in
    if text_eq plan.root (codes "/")
    then true
    else text_eq normalized root || starts_with normalized (root ++ codes "/")

-- The third-party code that a protected payload passes through.
pub record Protection : Type 0 where
  pub masking : Masking
  pub crypto : Crypto
  pub codec : MetaCodec

abbrev pub ok_or : Text → Option (List ℕ) → Result Text (List ℕ)
ok_or e none = err e
ok_or e (some key) = ok key

abbrev pub key_missing : Text
key_missing = codes "Protected encrypt key is missing"

module _ (p : Protection) where
  -- The first `match` on the mode.
  unfoldable pub conceal : Text → ProtectedPathPlan → List ℕ → List ℕ → Result Text (List ℕ)
  conceal user_id plan seed_or_nonce plaintext = elim plan.mode [
    | obfuscate ↦ ok (
        obfuscate_in_place p.masking plaintext user_id plan.key_slot_id seed_or_nonce
          (max plan.block_size 1) plan.prng plan.workers)
    | encrypt ↦ ok_or key_missing plan.encrypt_key >>= λ key.
        ok (encrypt_in_place p.crypto plaintext key seed_or_nonce)
  ]

  abbrev pub with_integrity : ProtectedMetaRecord → ProtectedMetaRecord
  with_integrity meta_record = record meta_record {
    integrity = protected_integrity_hmac_sha256_chunked;
    integrity_chunk_size = some default_encrypt_integrity_chunk_size;
  }

  -- What encryption adds: the table of codes, and the record that names it.
  unfoldable pub authenticate :
      ProtectedPathPlan → List ℕ → ProtectedMetaRecord → Result Text (ProtectedMetaRecord × List ℕ)
  authenticate plan payload meta_record = elim plan.mode [
    | obfuscate ↦ ok (meta_record, [])
    | encrypt ↦ ok_or key_missing plan.encrypt_key >>= λ key.
        build_encrypt_mac_table p.crypto key default_encrypt_integrity_chunk_size payload
        >>= λ mac_table. ok (with_integrity meta_record, mac_table)
  ]

  unfoldable pub payload_header : ProtectedPathPlan → List ℕ → List ℕ → ProtectedHeader
  payload_header plan seed_or_nonce plaintext = record {
    mode = plan.mode;
    prng = plan.prng;
    block_size = plan.block_size % 2 ^ 32;
    logical_size = length plaintext;
    seed_or_nonce = seed_or_nonce;
  }

  -- `seed_or_nonce` is what `fill_bytes` drew.
  unfoldable pub encode_payload :
      Text → ProtectedPathPlan → List ℕ → List ℕ → Result Text (List ℕ × ProtectedHeader × Text)
  unfolding conceal authenticate payload_header
  encode_payload user_id plan seed_or_nonce plaintext = do
    payload ← conceal user_id plan seed_or_nonce plaintext
    let header = payload_header plan seed_or_nonce plaintext
    authenticated ← authenticate plan payload (from_header p.codec header)
    meta_json ←
        map_err (λ e. codes "serialize protected meta failed: " ++ e)
          (p.codec.to_string authenticated.0)
    ok (encode_header header ++ payload ++ authenticated.1, header, meta_json)

  abbrev saturating_add : ℕ → ℕ → ℕ
  saturating_add a b = min (a + b) (2 ^ 64 - 1)

  -- `-` stops at zero, as `saturating_sub` does.
  unfoldable pub decode_obfuscate_range :
      Text → Text → ℕ → ProtectedHeader → List ℕ → ℕ → ℕ → ℕ → Result Text (List ℕ)
  decode_obfuscate_range user_id key_slot_id workers header payload payload_logical_start start
        last =
      let block_size = max header.block_size 1 in
      let aligned_start = payload_logical_start in
      let clamped_end = saturating_add payload_logical_start (length payload) in
      let buf =
        obfuscate_in_place_from_block p.masking payload user_id key_slot_id header.seed_or_nonce
          block_size header.prng (aligned_start / block_size) workers in
      let slice_start = start - aligned_start in
      let slice_end = slice_start + (last - start) in
      let logical_window = take (clamped_end - aligned_start) buf in
      if ltb (length logical_window) slice_end
      then err (codes "obfuscate range slice out of bounds")
      else ok (slice slice_start slice_end logical_window)

  -- Behind the test of the key.
  abbrev decode_encrypt_with : List ℕ → ProtectedHeader → List ℕ → ℕ → ℕ → ℕ → Result Text (List ℕ)
  decode_encrypt_with key header payload payload_logical_start start last =
      let buf =
        encrypt_range_in_place p.crypto payload key header.seed_or_nonce payload_logical_start in
      let slice_start = start - payload_logical_start in
      let slice_end = slice_start + (last - start) in
      if ltb start payload_logical_start
      then err (codes "encrypt range start before payload_logical_start")
      else if ltb (length buf) slice_end
      then err (codes "encrypt range slice out of bounds")
      else ok (slice slice_start slice_end buf)

  unfoldable pub decode_encrypt_range :
      Option (List ℕ) → ProtectedHeader → List ℕ → ℕ → ℕ → ℕ → Result Text (List ℕ)
  decode_encrypt_range encrypt_key header payload payload_logical_start start last =
      ok_or key_missing encrypt_key >>= λ key.
      decode_encrypt_with key header payload payload_logical_start start last

  unfoldable pub decode_range :
      Text
      → Text
      → Option (List ℕ)
      → ℕ
      → ProtectedHeader
      → List ℕ
      → ℕ
      → ℕ
      → ℕ
      → Result Text (List ℕ)
  unfolding decode_obfuscate_range decode_encrypt_range
  decode_range user_id key_slot_id encrypt_key workers header payload payload_logical_start start
        last =
      let logical_end = max (min last header.logical_size) (min start header.logical_size) in
      if leb logical_end start then ok [] else elim header.mode [
        | obfuscate ↦
            decode_obfuscate_range user_id key_slot_id workers header payload payload_logical_start
              start logical_end
        | encrypt ↦
            decode_encrypt_range encrypt_key header payload payload_logical_start start logical_end
      ]

unfoldable pub slice_logical_range : List ℕ → ℕ → ℕ → List ℕ
slice_logical_range content start last =
    let len = length content in
    let clamped_start = min start len in
    let clamped_end = max (min last len) clamped_start in slice clamped_start clamped_end content
