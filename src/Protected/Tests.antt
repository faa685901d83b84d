-- ===== src/Protected/Tests.antt =====
-- Two payloads that pass through a small instance of the third-party code.
mod Instances
use yh_filemanager_vfs_stora.Prelude.{
  ℕ, zero, suc, ◌+◌, ◌*◌, ◌%◌, ◌≤◌, ◌<◌, ◌≡◌, refl, ap, ap₂, ◌∙◌, List, [], ◌∷◌, ◌++◌, length,
  Option, none, some, false, Result, ok, err, arith, ◌==◌, Bool-cases, inl, inr, ◌↔◌, max, ◌/◌,
}
use yh_filemanager_vfs_stora.Prelude.Int.{ℤ}
use yh_filemanager_vfs_stora.Prelude.Text.{Text, codes}
use yh_filemanager_vfs_stora.Prelude.Bytes.{
  take, drop, take-append, drop-append, xor_with, to_le_bytes, chunks, chunks_fuel,
}
use yh_filemanager_vfs_stora.Protected.Header.{
  obfuscate, encrypt, pcg, xorshift, ProtectedHeader, IsHeader, encode_header, decode_header,
  decode_header-encode_header,
}
use yh_filemanager_vfs_stora.Protected.Meta.{MetaCodec, CodecLaws, ProtectedMetaRecord, from_header}
use yh_filemanager_vfs_stora.Protected.Obfuscate.{
  Masking, MaskingLaws, occurrences, obfuscate_in_place, obfuscate_in_place_from_block,
}
use yh_filemanager_vfs_stora.Protected.Encrypt.{
  Crypto, CryptoLaws, encrypt_in_place, build_encrypt_mac_table, mac_chunks,
  compute_chunk_mac_with_key, derive_encrypt_mac_key, verify_encrypt_window, encrypt_mac_table_len,
}
use yh_filemanager_vfs_stora.Protected.Encrypt.Verify.{
  verify_encrypt_window-tags, length-build_encrypt_mac_table,
}
use yh_filemanager_vfs_stora.Protected.Obfuscate.Positions.{
  payload_stream, obfuscate_in_place_from_block-stream,
}
use yh_filemanager_vfs_stora.Protected.Payload.{
  Protection, ProtectedPathPlan, encode_payload, conceal, authenticate, payload_header,
}
use yh_filemanager_vfs_stora.Protected.Payload.Encoded.{IsPayload}
use yh_filemanager_vfs_stora.Protected.Read.{
  VfsError, FileIndexRow, slice_bytes, file_info_from_index, protected_read_all_impl,
  protected_read_range_impl,
}
use yh_filemanager_vfs_stora.Protected.Read.Stored.{IsIndexed}
use yh_filemanager_vfs_stora.Protected.Read.RoundTrip.{
  protected_read_range-encode_payload, protected_read_all-encode_payload,
}
use yh_filemanager_vfs_stora.Protected.Tests.Instances.{
  fill, masking, masking_laws, crypto, crypto_laws, codec_laws, protection,
}

abbrev masked_plan : ProtectedPathPlan
masked_plan = record {
  root = codes "/vault";
  mode = obfuscate;
  key_slot_id = codes "slot-a";
  block_size = 3;
  prng = pcg;
  encrypt_key = none;
  workers = 4;
}

abbrev encrypted_plan : ProtectedPathPlan
encrypted_plan = record {
  root = codes "/vault";
  mode = encrypt;
  key_slot_id = codes "slot-b";
  block_size = 4096;
  prng = xorshift;
  encrypt_key = some (fill 32 7);
  workers = 1;
}

abbrev seed : List ℕ
seed = fill 16 9

abbrev plaintext : List ℕ
plaintext = codes "hello protected storage"

abbrev Encoding : ProtectedPathPlan → Type 0
Encoding plan =
    (e : List ℕ × ProtectedHeader × Text) × (encode_payload protection (codes "user-a") plan seed
        plaintext
      ≡ ok e)

-- Eight blocks of three bytes, by a pool.
masked_encoding : Encoding masked_plan
unfolding encode_payload conceal authenticate payload_header obfuscate_in_place
    obfuscate_in_place_from_block encode_header from_header
masked_encoding = (_, refl)

encrypted_encoding : Encoding encrypted_plan
unfolding encode_payload conceal authenticate payload_header encrypt_in_place
    build_encrypt_mac_table mac_chunks compute_chunk_mac_with_key encode_header from_header chunks
    chunks_fuel to_le_bytes derive_encrypt_mac_key xor_with
encrypted_encoding = (_, refl)

abbrev row_of : List ℕ → Text → FileIndexRow
row_of encoded meta_json = record {
  name = codes "a";
  path = codes "/vault/a";
  is_dir = false;
  size = ℤ.pos (length plaintext);
  file_updated_at = some 5;
  favorite_color = 0;
  file_trashed_at = none;
  original_path = none;
  backend_key = some (codes "blob");
  physical_size = some (ℤ.pos (length encoded));
  protected_meta = some meta_json;
}

abbrev pool_of : List ℕ → Text → ℕ → ℕ → Result VfsError (List ℕ)
pool_of encoded key start last = ok (slice_bytes encoded start last)

abbrev index_of : FileIndexRow → Text → Result VfsError (Option FileIndexRow)
index_of row path = ok (some row)

plan_bounds : (plan : ProtectedPathPlan) → plan.block_size < 5000 → IsPayload plan seed plaintext
unfolding IsPayload
plan_bounds plan h = (refl, omega arith, omega arith)

indexed :
    (encoded : List ℕ) (meta_json : Text)
    → IsIndexed (row_of encoded meta_json) (codes "blob") meta_json encoded
unfolding IsIndexed
indexed encoded meta_json = (refl, refl, refl)

protected_read_range-encode_payload_example :
    protected_read_range_impl protection
      (pool_of masked_encoding.0.0)
      (index_of (row_of masked_encoding.0.0 masked_encoding.0.2))
      (codes "user-a")
      (codes "/vault/a")
      7
      100
      (record masked_plan { workers = 1 })
    ≡ ok (
      codes "rotected storage",
      file_info_from_index (row_of masked_encoding.0.0 masked_encoding.0.2),
    )
protected_read_range-encode_payload_example =
    protected_read_range-encode_payload protection masking_laws crypto_laws codec_laws
      (pool_of masked_encoding.0.0) (index_of (row_of masked_encoding.0.0 masked_encoding.0.2))
      (codes "user-a") masked_plan seed plaintext masked_encoding.0.0 masked_encoding.0.1
      masked_encoding.0.2 (codes "blob") (codes "/vault/a")
      (row_of masked_encoding.0.0 masked_encoding.0.2) (plan_bounds masked_plan (omega arith))
      masked_encoding.1 (indexed masked_encoding.0.0 masked_encoding.0.2) (λ first last. refl) refl
      refl 1 7 100

protected_read_all-encode_payload_example :
    protected_read_all_impl protection
      (pool_of encrypted_encoding.0.0)
      (index_of (row_of encrypted_encoding.0.0 encrypted_encoding.0.2))
      (codes "user-a")
      (codes "/vault/a")
      (record encrypted_plan { workers = 2 })
    ≡ ok (plaintext, file_info_from_index (row_of encrypted_encoding.0.0 encrypted_encoding.0.2))
protected_read_all-encode_payload_example =
    protected_read_all-encode_payload protection masking_laws crypto_laws codec_laws
      (pool_of encrypted_encoding.0.0)
      (index_of (row_of encrypted_encoding.0.0 encrypted_encoding.0.2)) (codes "user-a")
      encrypted_plan seed plaintext encrypted_encoding.0.0 encrypted_encoding.0.1
      encrypted_encoding.0.2 (codes "blob") (codes "/vault/a")
      (row_of encrypted_encoding.0.0 encrypted_encoding.0.2)
      (plan_bounds encrypted_plan (omega arith)) encrypted_encoding.1
      (indexed encrypted_encoding.0.0 encrypted_encoding.0.2) (λ first last. refl) refl refl 2 refl

abbrev sample_header : ProtectedHeader
sample_header = record {
  mode = encrypt;
  prng = pcg;
  block_size = 65536;
  logical_size = 300;
  seed_or_nonce = seed;
}

sample_header-IsHeader : IsHeader sample_header
unfolding IsHeader
sample_header-IsHeader = (omega arith, omega arith, refl)

decode_header-encode_header_example :
    decode_header (encode_header sample_header ++ plaintext) ≡ ok sample_header
decode_header-encode_header_example =
    decode_header-encode_header sample_header plaintext sample_header-IsHeader

obfuscate_in_place_from_block-stream_example :
    obfuscate_in_place_from_block masking plaintext (codes "user-a") (codes "slot-a") seed 3 pcg 2 4
    ≡ xor_with
        (payload_stream masking masking_laws (codes "user-a") (codes "slot-a") seed 3 pcg 2)
        plaintext
obfuscate_in_place_from_block-stream_example =
    obfuscate_in_place_from_block-stream masking masking_laws plaintext (codes "user-a")
      (codes "slot-a") seed 3 pcg 2 4

-- Chunks of five bytes, the second of them.
verify_encrypt_window-tags_example :
    (verify_encrypt_window crypto (fill 32 7) 5 5 (codes "world") (fill 32 1) ≡ ok tt) ↔ (
      mac_chunks crypto
        (derive_encrypt_mac_key crypto (fill 32 7))
        (5 / max 5 1)
        (chunks (max 5 1) (codes "world"))
      ≡ ok (fill 32 1))
verify_encrypt_window-tags_example =
    verify_encrypt_window-tags crypto crypto_laws (fill 32 7) 5 5 (codes "world") (fill 32 1)

small_table : (t : List ℕ) × (build_encrypt_mac_table crypto (fill 32 7) 5 plaintext ≡ ok t)
unfolding build_encrypt_mac_table mac_chunks compute_chunk_mac_with_key chunks chunks_fuel
    to_le_bytes derive_encrypt_mac_key
small_table = (_, refl)

length-build_encrypt_mac_table_example :
    length small_table.0 ≡ encrypt_mac_table_len (length plaintext) 5
length-build_encrypt_mac_table_example =
    length-build_encrypt_mac_table crypto crypto_laws (fill 32 7) 5 plaintext small_table.0
      small_table.1
