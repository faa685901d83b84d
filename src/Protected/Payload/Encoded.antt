-- ===== src/Protected/Payload/Encoded.antt =====
-- src/vfs/protected.rs: the parts that an encoded payload consists of.
use native.Mathlib.Nat.{mod-eq_of_lt}
use yh_filemanager_vfs_stora.Prelude.{
  ℕ, ◌+◌, ◌^◌, ◌<◌, ◌≡◌, sym, ap, ◌∙◌, List, ◌++◌, length, ok, arith,
}
use yh_filemanager_vfs_stora.Prelude.Text.{Text}
use yh_filemanager_vfs_stora.Prelude.Bytes.{to_le_bytes}
use yh_filemanager_vfs_stora.Prelude.Results.{bind-eq-ok, map_err-eq-ok}
use yh_filemanager_vfs_stora.Protected.Header.{ProtectedHeader, IsHeader, encode_header}
use yh_filemanager_vfs_stora.Protected.Meta.{ProtectedMetaRecord, from_header}
use yh_filemanager_vfs_stora.Protected.Payload.{
  Protection, ProtectedPathPlan, conceal, authenticate, payload_header, encode_payload,
}

pub length-encode_header :
    (h : ProtectedHeader) → length h.seed_or_nonce ≡ 16 → length (encode_header h) ≡ 36
unfolding encode_header to_le_bytes
length-encode_header h e = omega (arith, e)

-- A nonce of the right length, a block size that the header can hold, which is below 2^32 (the code
-- cuts a longer one off), and a size that leaves room for a block behind the end.
unfoldable pub IsPayload : ProtectedPathPlan → List ℕ → List ℕ → Type 0
IsPayload plan seed plaintext =
    (length seed ≡ 16) × (plan.block_size < 2 ^ 32) × (length plaintext + 2 ^ 32 < 2 ^ 64)

module _ (p : Protection) (user_id : Text) (plan : ProtectedPathPlan)
    (seed plaintext : List ℕ) where
  pub payload_header-IsHeader :
      IsPayload plan seed plaintext → IsHeader (payload_header p plan seed plaintext)
  unfolding IsPayload IsHeader payload_header
  payload_header-IsHeader h = (omega arith, omega (arith, h), h.0)

  pub block_size_kept :
      IsPayload plan seed plaintext
      → ProtectedHeader.block_size (payload_header p plan seed plaintext) ≡ plan.block_size
  unfolding IsPayload payload_header
  block_size_kept h = mod-eq_of_lt h.1

  pub encode_payload_parts :
      (encoded : List ℕ) (header : ProtectedHeader) (meta_json : Text)
      → encode_payload p user_id plan seed plaintext ≡ ok (encoded, header, meta_json)
      → (content : List ℕ) × (m : ProtectedMetaRecord) × (table : List ℕ) × (conceal p user_id plan
            seed plaintext
          ≡ ok content)
        × (authenticate p plan content (from_header p.codec (payload_header p plan seed plaintext))
            ≡ ok (m, table))
        × (p.codec.to_string m ≡ ok meta_json)
        × (encoded ≡ encode_header (payload_header p plan seed plaintext) ++ content ++ table)
        × (header ≡ payload_header p plan seed plaintext)
  unfolding encode_payload
  encode_payload_parts encoded header meta_json e =
      let (content, concealed, e1) = bind-eq-ok (conceal p user_id plan seed plaintext) _ e in
      let (authenticated, tagged, e2) =
        bind-eq-ok
          (authenticate p plan content (from_header p.codec (payload_header p plan seed plaintext)))
          _ e1 in
      let (json, written, e3) = bind-eq-ok _ _ e2 in
      let done : ◌≡◌ {A = List ℕ × ProtectedHeader × Text}
          (
            encode_header (payload_header p plan seed plaintext) ++ content ++ authenticated.1,
            payload_header p plan seed plaintext,
            json,
          )
          (encoded, header, meta_json) =
        cc (e3) in
      (
        content,
        authenticated.0,
        authenticated.1,
        concealed,
        tagged,
        map_err-eq-ok _ _ written ∙ ap (λ t. ok t.2) done,
        sym (ap (λ t. t.0) done),
        sym (ap (λ t. t.1) done),
      )
