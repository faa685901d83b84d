-- ===== src/Protected/Meta.antt =====
-- src/vfs/protected.rs: the record of a protected file that its row in the index keeps as JSON.
-- The crates `hex` and `serde_json` are parameters.
use yh_filemanager_vfs_stora.Prelude.{
  ℕ, ◌≡◌, refl, not, Option, none, List, ◌++◌, Result, ok, err, length, if◌then◌else◌, ◌==◌,
}
use yh_filemanager_vfs_stora.Prelude.Text.{Text, codes, text_eq, trim, to_ascii_lowercase}
use yh_filemanager_vfs_stora.Prelude.Results.{◌>>=◌, map_err}
use yh_filemanager_vfs_stora.Protected.Header.{
  ProtectedMode, obfuscate, encrypt, mode_from_str, ProtectedPrng, xorshift, pcg, prng_from_str,
  ProtectedHeader, IsHeader, protected_version,
}

pub record ProtectedMetaRecord : Type 0 where
  pub version : ℕ
  pub mode : Text
  pub prng : Text
  pub block_size : ℕ
  pub logical_size : ℕ
  pub seed_or_nonce_hex : Text
  pub integrity : Text
  pub integrity_chunk_size : Option ℕ

abbrev pub protected_integrity_none : Text
protected_integrity_none = codes "none"

abbrev pub protected_integrity_hmac_sha256_chunked : Text
protected_integrity_hmac_sha256_chunked = codes "hmac-sha256-chunked"

abbrev pub mode_name : ProtectedMode → Text
mode_name obfuscate = codes "obfuscate"
mode_name encrypt = codes "encrypt"

abbrev pub prng_name : ProtectedPrng → Text
prng_name xorshift = codes "xorshift"
prng_name pcg = codes "pcg"

mode_from_str-mode_name : (m : ProtectedMode) → mode_from_str (mode_name m) ≡ ok m
unfolding mode_from_str to_ascii_lowercase trim text_eq
mode_from_str-mode_name obfuscate = refl
mode_from_str-mode_name encrypt = refl

prng_from_str-prng_name : (p : ProtectedPrng) → prng_from_str (prng_name p) ≡ ok p
unfolding prng_from_str to_ascii_lowercase trim text_eq
prng_from_str-prng_name xorshift = refl
prng_from_str-prng_name pcg = refl

-- `hex::encode` and `hex::decode`, `serde_json::to_string` and `from_str` at this record.
pub record MetaCodec : Type 0 where
  pub hex_encode : List ℕ → Text
  pub hex_decode : Text → Result Text (List ℕ)
  pub to_string : ProtectedMetaRecord → Result Text Text
  pub from_str : Text → Result Text ProtectedMetaRecord

-- What the two crates promise: a value is read back from its text.
pub record CodecLaws (c : MetaCodec) : Type 0 where
  pub hex_read_back : (bytes : List ℕ) → c.hex_decode (c.hex_encode bytes) ≡ ok bytes
  pub json_read_back :
      (meta_record : ProtectedMetaRecord) (raw : Text)
      → c.to_string meta_record ≡ ok raw
      → c.from_str raw ≡ ok meta_record

module _ (c : MetaCodec) where
  unfoldable pub from_header : ProtectedHeader → ProtectedMetaRecord
  from_header h = record {
    version = protected_version;
    mode = mode_name h.mode;
    prng = prng_name h.prng;
    block_size = h.block_size;
    logical_size = h.logical_size;
    seed_or_nonce_hex = c.hex_encode h.seed_or_nonce;
    integrity = protected_integrity_none;
    integrity_chunk_size = none;
  }

  -- Behind the decoding of the seed.
  abbrev header_of_seed :
      ProtectedMetaRecord → ProtectedMode → ProtectedPrng → List ℕ → Result Text ProtectedHeader
  header_of_seed m mode prng seed =
      if not (length seed == 16)
      then err (codes "invalid protected seed size")
      else ok (record {
        mode = mode;
        prng = prng;
        block_size = m.block_size;
        logical_size = m.logical_size;
        seed_or_nonce = seed;
      })

  unfoldable pub into_header : ProtectedMetaRecord → Result Text ProtectedHeader
  into_header m = do
    mode ← mode_from_str m.mode
    prng ← prng_from_str m.prng
    seed ←
        map_err (λ e. codes "decode protected seed failed: " ++ e)
          (c.hex_decode m.seed_or_nonce_hex)
    header_of_seed m mode prng seed

  unfoldable pub meta_from_json : Text → Result Text ProtectedMetaRecord
  meta_from_json raw = map_err (λ e. codes "parse protected meta failed: " ++ e) (c.from_str raw)

  unfoldable pub header_from_meta_json : Text → Result Text ProtectedHeader
  unfolding meta_from_json
  header_from_meta_json raw = do m ← meta_from_json raw; into_header m

  pub into_header-from_header :
      (laws : CodecLaws c) (h : ProtectedHeader) (integrity : Text) (chunk_size : Option ℕ)
      → IsHeader h
      → into_header
          (record (from_header h) { integrity = integrity; integrity_chunk_size = chunk_size })
        ≡ ok h
  unfolding into_header from_header IsHeader
  into_header-from_header laws h integrity chunk_size p =
      let m : mode_from_str (mode_name h.mode) ≡ ok h.mode = mode_from_str-mode_name h.mode in
      let r : prng_from_str (prng_name h.prng) ≡ ok h.prng = prng_from_str-prng_name h.prng in
      rw (m, r, laws.hex_read_back h.seed_or_nonce, p.2) refl
