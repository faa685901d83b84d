-- ===== src/Protected/Header.antt =====
-- src/vfs/protected.rs: the header in front of a protected payload and its record in the index.
use yh_filemanager_vfs_stora.Prelude.{
  ℕ, ◌<◌, ◌^◌, ◌≡◌, refl, ap₂, false, not, none, some, List, ◌∷◌, ◌++◌, arith, Result, ok, err,
  length, if◌then◌else◌, ltb, ◌==◌, get_elem?, length-append,
}
use yh_filemanager_vfs_stora.Prelude.Text.{Text, codes, text_eq, trim, to_ascii_lowercase}
use yh_filemanager_vfs_stora.Prelude.Results.{◌>>=◌}
use yh_filemanager_vfs_stora.Prelude.Bytes.{
  take, slice, to_le_bytes, from_le_bytes, from_le_bytes-to_le_bytes, take-append,
}

pub data ProtectedMode : Type 0 where
  obfuscate : ProtectedMode
  encrypt : ProtectedMode

unfoldable pub mode_to_byte : ProtectedMode → ℕ
mode_to_byte obfuscate = 1
mode_to_byte encrypt = 2

-- The message of a failure is the code's first words; what it appends for the reader is left out.
unfoldable pub mode_from_byte : ℕ → Result Text ProtectedMode
mode_from_byte raw =
    if raw == 1
    then ok obfuscate
    else if raw == 2
    then ok encrypt
    else err (codes "unsupported protected mode byte")

unfoldable pub mode_from_str : Text → Result Text ProtectedMode
mode_from_str raw =
    let name = to_ascii_lowercase (trim raw) in
    if text_eq name (codes "obfuscate")
    then ok obfuscate
    else if text_eq name (codes "encrypt")
    then ok encrypt
    else err (codes "unsupported protected mode")

pub data ProtectedPrng : Type 0 where
  xorshift : ProtectedPrng
  pcg : ProtectedPrng

unfoldable pub prng_to_byte : ProtectedPrng → ℕ
prng_to_byte xorshift = 1
prng_to_byte pcg = 2

unfoldable pub prng_from_byte : ℕ → Result Text ProtectedPrng
prng_from_byte raw =
    if raw == 1
    then ok xorshift
    else if raw == 2
    then ok pcg
    else err (codes "unsupported protected PRNG byte")

unfoldable pub prng_from_str : Text → Result Text ProtectedPrng
prng_from_str raw =
    let name = to_ascii_lowercase (trim raw) in
    if text_eq name (codes "xorshift")
    then ok xorshift
    else if text_eq name (codes "pcg")
    then ok pcg
    else err (codes "unsupported protected PRNG")

pub record ProtectedHeader : Type 0 where
  pub mode : ProtectedMode
  pub prng : ProtectedPrng
  pub block_size : ℕ
  pub logical_size : ℕ
  pub seed_or_nonce : List ℕ

-- What the types of the fields say: `u32`, `u64` and `[u8; 16]`.
unfoldable pub IsHeader : ProtectedHeader → Type 0
IsHeader h = (h.block_size < 256 ^ 4) × (h.logical_size < 256 ^ 8) × (length h.seed_or_nonce ≡ 16)

abbrev pub protected_header_len : ℕ
protected_header_len = 36

abbrev pub protected_version : ℕ
protected_version = 1

abbrev pub protected_magic : List ℕ
protected_magic = codes "FUPR"

unfoldable pub encode_header : ProtectedHeader → List ℕ
unfolding mode_to_byte prng_to_byte
encode_header h =
    protected_magic
    ++ protected_version
      ∷ mode_to_byte h.mode
      ∷ prng_to_byte h.prng
      ∷ 0
      ∷ to_le_bytes 4 h.block_size
    ++ to_le_bytes 8 h.logical_size
    ++ h.seed_or_nonce

-- `raw[i]`, where the length was tested.
abbrev byte_at : List ℕ → ℕ → ℕ
byte_at raw i = elim (get_elem? raw i) [ none ↦ 0 | some b ↦ b ]

-- Behind the test of the version.
decode_fields : List ℕ → Result Text ProtectedHeader
unfolding mode_from_byte prng_from_byte
decode_fields raw = do
  mode ← mode_from_byte (byte_at raw 5)
  prng ← prng_from_byte (byte_at raw 6)
  ok (record {
    mode = mode;
    prng = prng;
    block_size = from_le_bytes (slice 8 12 raw);
    logical_size = from_le_bytes (slice 12 20 raw);
    seed_or_nonce = slice 20 36 raw;
  })

unfoldable pub decode_header : List ℕ → Result Text ProtectedHeader
unfolding decode_fields
decode_header raw =
    if ltb (length raw) protected_header_len
    then err (codes "protected payload header too short")
    else if not (text_eq (take 4 raw) protected_magic)
    then err (codes "protected payload magic mismatch")
    else if not (byte_at raw 4 == protected_version)
    then err (codes "unsupported protected payload version")
    else decode_fields raw

mode_from_byte-mode_to_byte : (m : ProtectedMode) → mode_from_byte (mode_to_byte m) ≡ ok m
unfolding mode_from_byte mode_to_byte
mode_from_byte-mode_to_byte obfuscate = refl
mode_from_byte-mode_to_byte encrypt = refl

prng_from_byte-prng_to_byte : (p : ProtectedPrng) → prng_from_byte (prng_to_byte p) ≡ ok p
unfolding prng_from_byte prng_to_byte
prng_from_byte-prng_to_byte xorshift = refl
prng_from_byte-prng_to_byte pcg = refl

abbrev header_of : ProtectedMode → ProtectedPrng → ℕ → ℕ → List ℕ → ProtectedHeader
header_of mode prng block_size logical_size seed = record {
  mode = mode;
  prng = prng;
  block_size = block_size;
  logical_size = logical_size;
  seed_or_nonce = seed;
}

decode_fields-encode_header :
    (h : ProtectedHeader) (payload : List ℕ)
    → IsHeader h
    → decode_fields (encode_header h ++ payload) ≡ ok h
unfolding decode_fields encode_header IsHeader to_le_bytes
decode_fields-encode_header h payload p =
    let block : from_le_bytes (to_le_bytes 4 h.block_size) ≡ h.block_size =
      from_le_bytes-to_le_bytes 4 h.block_size p.0 in
    let size : from_le_bytes (to_le_bytes 8 h.logical_size) ≡ h.logical_size =
      from_le_bytes-to_le_bytes 8 h.logical_size p.1 in
    rw
      (
        mode_from_byte-mode_to_byte h.mode,
        prng_from_byte-prng_to_byte h.prng,
        take-append 16 h.seed_or_nonce payload p.2,
      )
      (ap₂ (λ b n. ok (record h { block_size = b; logical_size = n })) block size)

-- A header whose numbers are within their types is decoded from its bytes, whatever follows them.
pub decode_header-encode_header :
    (h : ProtectedHeader) (payload : List ℕ)
    → IsHeader h
    → decode_header (encode_header h ++ payload) ≡ ok h
unfolding decode_header encode_header to_le_bytes text_eq IsHeader
decode_header-encode_header h payload p =
    let n = length-append h.seed_or_nonce payload in
    let e : ltb (length (encode_header h ++ payload)) 36 ≡ false = ground (arith, n, p.2) in
    rw (e) (decode_fields-encode_header h payload p)
