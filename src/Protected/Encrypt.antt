-- ===== src/Protected/Encrypt.antt =====
-- src/vfs/protected.rs: encryption in counter mode from any offset, and the table of the chunks'
-- authentication codes. The crates `aes`, `ctr`, `hkdf` and `hmac` are parameters.
pub mod Keystream
pub mod Verify
pub mod Windows
use yh_filemanager_vfs_stora.Prelude.{
  ℕ, zero, suc, ◌+◌, ◌*◌, ◌/◌, ◌%◌, ◌^◌, max, ◌≡◌, List, [], ◌∷◌, ◌++◌, length, Option, none, some,
  ltb, not, ◌==◌, if◌then◌else◌, Result, ok, err,
}
use yh_filemanager_vfs_stora.Prelude.Text.{Text, codes, text_eq}
use yh_filemanager_vfs_stora.Prelude.Bytes.{
  slice, chunks, to_le_bytes, to_be_bytes, from_be_bytes, xor_with,
}
use yh_filemanager_vfs_stora.Prelude.Chunks.{div_ceil}
use yh_filemanager_vfs_stora.Prelude.Results.{◌>>=◌, map_err}
use yh_filemanager_vfs_stora.Protected.Mask.{as_bytes}

-- `apply_keystream` of `Ctr128BE<Aes256>` for a key, an initial counter block and the number of
-- bytes that the cipher has processed; `new_from_slice`, `update` and `finalize` of
-- `Hmac<Sha256>` for a key and a message; HKDF-SHA256 for a salt, a key and a label.
pub record Crypto : Type 0 where
  pub apply_keystream : List ℕ → List ℕ → ℕ → List ℕ → List ℕ
  pub hmac_sha256 : List ℕ → List ℕ → Result Text (List ℕ)
  pub hkdf : Option (List ℕ) → List ℕ → List ℕ → List ℕ

-- Counter mode is an exclusive or with a stream, which for a counter that is `n` greater is the
-- same stream `n` blocks later; HMAC takes a key of any size and gives 32 bytes.
pub record CryptoLaws (c : Crypto) : Type 0 where
  pub keystream : List ℕ → List ℕ → ℕ → ℕ
  pub keystream_xor :
      (key iv : List ℕ) (position : ℕ) (buf : List ℕ)
      → c.apply_keystream key iv position buf ≡ xor_with (λ i. keystream key iv (position + i)) buf
  pub keystream_counter :
      (key iv : List ℕ) (n i : ℕ)
      → length iv ≡ 16
      → keystream key (to_be_bytes 16 ((from_be_bytes iv + n) % 256 ^ 16)) i
        ≡ keystream key iv (16 * n + i)
  pub mac : List ℕ → List ℕ → List ℕ
  pub hmac_any_key : (key message : List ℕ) → c.hmac_sha256 key message ≡ ok (mac key message)
  pub mac_length : (key message : List ℕ) → length (mac key message) ≡ 32

abbrev pub protected_mac_len : ℕ
protected_mac_len = 32

abbrev pub default_encrypt_integrity_chunk_size : ℕ
default_encrypt_integrity_chunk_size = 1024 * 1024

unfoldable pub integrity_chunk_count : ℕ → ℕ → ℕ
integrity_chunk_count logical_size chunk_size =
    if logical_size == 0 then 0 else div_ceil logical_size (max chunk_size 1)

unfoldable pub encrypt_mac_table_len : ℕ → ℕ → ℕ
unfolding integrity_chunk_count
encrypt_mac_table_len logical_size chunk_size =
    integrity_chunk_count logical_size chunk_size * protected_mac_len

module _ (c : Crypto) where
  unfoldable pub encrypt_in_place : List ℕ → List ℕ → List ℕ → List ℕ
  encrypt_in_place buf key nonce = c.apply_keystream key nonce 0 buf

  -- The bytes of the stream before the offset's place in its block go to a buffer that is dropped.
  unfoldable pub encrypt_range_in_place : List ℕ → List ℕ → List ℕ → ℕ → List ℕ
  encrypt_range_in_place buf key nonce logical_offset =
      let block_offset = logical_offset / 16 in
      let intra_offset = logical_offset % 16 in
      let counter = (from_be_bytes nonce + block_offset) % 256 ^ 16 in
      let iv = to_be_bytes 16 counter in
      c.apply_keystream key iv (if ltb 0 intra_offset then intra_offset else 0) buf

  unfoldable pub derive_encrypt_mac_key : List ℕ → List ℕ
  derive_encrypt_mac_key encrypt_key =
      c.hkdf none encrypt_key (as_bytes (codes "fileuni:protected:encrypt:mac:v1"))

  unfoldable pub compute_chunk_mac_with_key : List ℕ → ℕ → List ℕ → Result Text (List ℕ)
  compute_chunk_mac_with_key mac_key chunk_index ciphertext =
      map_err (λ e. codes "invalid mac key: " ++ e)
        (c.hmac_sha256 mac_key (to_le_bytes 8 chunk_index ++ ciphertext))

  -- The loop over the chunks from an index on.
  unfoldable pub mac_chunks : List ℕ → ℕ → List (List ℕ) → Result Text (List ℕ)
  mac_chunks mac_key chunk_index [] = ok []
  mac_chunks mac_key chunk_index (chunk ∷ rest) = do
    tag ← compute_chunk_mac_with_key mac_key chunk_index chunk
    later ← mac_chunks mac_key (suc chunk_index) rest
    ok (tag ++ later)

  unfoldable pub build_encrypt_mac_table : List ℕ → ℕ → List ℕ → Result Text (List ℕ)
  unfolding mac_chunks derive_encrypt_mac_key
  build_encrypt_mac_table encrypt_key chunk_size ciphertext =
      mac_chunks (derive_encrypt_mac_key encrypt_key) 0 (chunks (max chunk_size 1) ciphertext)

  -- One comparison; `rest` is the loop's remainder.
  abbrev verify_tag : List ℕ → List ℕ → Result Text (Unit {0}) → Result Text (Unit {0})
  verify_tag actual expected rest =
      if not (text_eq actual expected)
      then err (codes "protected MAC verification failed")
      else rest

  unfoldable pub verify_chunks : List ℕ → ℕ → List ℕ → ℕ → List (List ℕ) → Result Text (Unit {0})
  verify_chunks mac_key start_chunk mac_table idx [] = ok tt
  verify_chunks mac_key start_chunk mac_table idx (chunk ∷ rest) =
      let later = verify_chunks mac_key start_chunk mac_table (suc idx) rest in
      let offset = idx * protected_mac_len in
      compute_chunk_mac_with_key mac_key (start_chunk + idx) chunk >>= λ expected.
      verify_tag (slice offset (offset + protected_mac_len) mac_table) expected later

  unfoldable pub verify_encrypt_window : List ℕ → ℕ → ℕ → List ℕ → List ℕ → Result Text (Unit {0})
  unfolding verify_chunks derive_encrypt_mac_key integrity_chunk_count
  verify_encrypt_window encrypt_key chunk_size payload_logical_start window mac_table =
      let size = max chunk_size 1 in
      let start_chunk = payload_logical_start / size in
      let expected_chunks = integrity_chunk_count (length window) size in
      if not (length mac_table == expected_chunks * protected_mac_len)
      then err (codes "protected MAC table window size mismatch")
      else verify_chunks (derive_encrypt_mac_key encrypt_key) start_chunk mac_table 0
          (chunks size window)
