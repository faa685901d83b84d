-- ===== src/Protected/Tests/Instances.antt =====
-- Functions in place of the third-party code, of which what is relied on holds.
use yh_filemanager_vfs_stora.Prelude.{
  ℕ, zero, suc, ◌+◌, ◌*◌, ◌%◌, ◌≤◌, ◌<◌, ◌≡◌, refl, ap, ap₂, ◌∙◌, List, [], ◌∷◌, ◌++◌, length,
  Option, none, some, Result, ok, err, arith, ◌==◌, Bool-cases, inl, inr,
}
use yh_filemanager_vfs_stora.Prelude.Text.{Text}
use yh_filemanager_vfs_stora.Prelude.Bytes.{take, drop, take-append, drop-append, xor_with}
use yh_filemanager_vfs_stora.Protected.Meta.{MetaCodec, CodecLaws, ProtectedMetaRecord}
use yh_filemanager_vfs_stora.Protected.Obfuscate.{Masking, MaskingLaws, occurrences}
use yh_filemanager_vfs_stora.Protected.Encrypt.{Crypto, CryptoLaws}
use yh_filemanager_vfs_stora.Protected.Payload.{Protection}

-- The last chunk first.
abbrev countdown : ℕ → List ℕ
countdown zero = []
countdown (suc n) = n ∷ countdown n

countdown_past : (n i : ℕ) → n ≤ i → occurrences i (countdown n) ≡ 0
countdown_past zero i h = refl
countdown_past (suc n) i h = ground (arith, countdown_past n i (omega arith))

countdown_once : (n i : ℕ) → i < n → occurrences i (countdown n) ≡ 1
countdown_once zero i h = absurd (omega arith)
countdown_once (suc n) i h = elim (Bool-cases (i == n)) [
  | inl e ↦ rw (e) (ap suc (countdown_past n i (ground (arith, e))))
  | inr e ↦ rw (e) (countdown_once n i (ground (arith, e)))
]

abbrev pub fill : ℕ → ℕ → List ℕ
fill zero b = []
fill (suc n) b = b ∷ fill n b

length-fill : (n b : ℕ) → length (fill n b) ≡ n
length-fill zero b = refl
length-fill (suc n) b = ap suc (length-fill n b)

abbrev sum : List ℕ → ℕ
sum [] = 7
sum (x ∷ xs) = (x + 3 * sum xs) % 256

abbrev pub masking : Masking
masking = record {
  hkdf_sha256 = λ salt key label. fill 32 (sum (key ++ label));
  available_parallelism = 8;
  schedule = countdown;
}

pub masking_laws : MaskingLaws masking
masking_laws = record { schedule_once = countdown_once }

abbrev pub crypto : Crypto
crypto = record {
  apply_keystream = λ key iv position buf. xor_with (λ i. 90) buf;
  hmac_sha256 = λ key message. ok (fill 32 (sum (key ++ message)));
  hkdf = λ salt key label. fill 32 (sum (key ++ label));
}

pub crypto_laws : CryptoLaws crypto
crypto_laws = record {
  keystream = λ key iv i. 90;
  keystream_xor = λ key iv position buf. refl;
  keystream_counter = λ key iv n i h. refl;
  mac = λ key message. fill 32 (sum (key ++ message));
  hmac_any_key = λ key message. refl;
  mac_length = λ key message. length-fill 32 (sum (key ++ message));
}

-- A record as its numbers, each text behind its length.
abbrev counted : Text → Text
counted s = length s ∷ s

abbrev size_code : Option ℕ → List ℕ
size_code none = 0 ∷ 0 ∷ []
size_code (some n) = 1 ∷ n ∷ []

abbrev write_record : ProtectedMetaRecord → Text
write_record m =
    (m.version ∷ m.block_size ∷ m.logical_size ∷ size_code m.integrity_chunk_size)
    ++ (counted m.mode ++ (counted m.prng ++ (counted m.seed_or_nonce_hex ++ m.integrity)))

abbrev size_option : ℕ → ℕ → Option ℕ
size_option zero n = none
size_option (suc k) n = some n

-- A counted text and what is left behind it.
abbrev next_text {ℓ} : {B : Type ℓ} → (Text → Text → Result Text B) → Text → Result Text B
next_text f [] = err []
next_text f (n ∷ s) = f (take n s) (drop n s)

next_text-counted {ℓ} :
    {B : Type ℓ} (f : Text → Text → Result Text B) (s rest : Text)
    → next_text f (counted s ++ rest) ≡ f s rest
next_text-counted f s rest =
    ap₂ f (take-append (length s) s rest refl) (drop-append (length s) s rest refl)

abbrev read_texts : ℕ → ℕ → ℕ → Option ℕ → Text → Result Text ProtectedMetaRecord
read_texts v b l c raw =
    next_text
      (λ mode r.
        next_text
          (λ prng q.
            next_text
              (λ hex integrity. ok (record {
                version = v;
                mode = mode;
                prng = prng;
                block_size = b;
                logical_size = l;
                seed_or_nonce_hex = hex;
                integrity = integrity;
                integrity_chunk_size = c;
              }))
              q)
          r)
      raw

abbrev read_record : Text → Result Text ProtectedMetaRecord
read_record (v ∷ b ∷ l ∷ k ∷ n ∷ rest) = read_texts v b l (size_option k n) rest
read_record raw = err []

read_texts-counted :
    (m : ProtectedMetaRecord)
    → read_texts m.version m.block_size m.logical_size m.integrity_chunk_size
        (counted m.mode ++ (counted m.prng ++ (counted m.seed_or_nonce_hex ++ m.integrity)))
      ≡ ok m
read_texts-counted m =
    next_text-counted
      (λ x. next_text (λ prng q.
        next_text
          (λ hex integrity.
            ok (record m { mode = x; prng = prng; seed_or_nonce_hex = hex; integrity = integrity }))
          q))
      m.mode (counted m.prng ++ (counted m.seed_or_nonce_hex ++ m.integrity))
    ∙ next_text-counted
        (λ x. next_text (λ hex integrity.
          ok (record m { prng = x; seed_or_nonce_hex = hex; integrity = integrity })))
        m.prng (counted m.seed_or_nonce_hex ++ m.integrity)
    ∙ next_text-counted (λ x y. ok (record m { seed_or_nonce_hex = x; integrity = y }))
        m.seed_or_nonce_hex m.integrity

sized :
    (m : ProtectedMetaRecord) (c : Option ℕ)
    → read_record (write_record (record m { integrity_chunk_size = c }))
      ≡ ok (record m { integrity_chunk_size = c })
sized m none = read_texts-counted (record m { integrity_chunk_size = none })
sized m (some n) = read_texts-counted (record m { integrity_chunk_size = some n })

abbrev codec : MetaCodec
codec = record {
  hex_encode = λ bytes. bytes;
  hex_decode = λ text. ok text;
  to_string = λ m. ok (write_record m);
  from_str = read_record;
}

codec_read_back :
    (m : ProtectedMetaRecord) (raw : Text)
    → ◌≡◌ {A = Result Text Text} (ok (write_record m)) (ok raw)
    → read_record raw ≡ ok m
codec_read_back m raw e =
    let q : raw ≡ write_record m = cc (e) in ap read_record q ∙ sized m m.integrity_chunk_size

pub codec_laws : CodecLaws codec
codec_laws = record { hex_read_back = λ bytes. refl; json_read_back = codec_read_back }

abbrev pub protection : Protection
protection = record { masking = masking; crypto = crypto; codec = codec }
