-- ===== src/Protected/Encrypt/Verify.antt =====
-- src/vfs/protected.rs: the verification of a window against the codes that its chunks have.
use yh_filemanager_vfs_stora.Prelude.{
  ℕ, suc, ◌+◌, ◌-◌, ◌*◌, ◌/◌, max, ◌≤◌, ◌≡◌, refl, sym, ap, ap₂, ◌∙◌, ◌↔◌, List, [], ◌∷◌, ◌++◌,
  length, length-append, arith, inl, inr, ◌==◌, ==_iff, Bool-cases, Result, ok,
}
use yh_filemanager_vfs_stora.Prelude.Text.{Text, text_eq, text_eq_iff}
use yh_filemanager_vfs_stora.Prelude.Bytes.{
  take, drop, slice, take-drop, drop-drop, drop_all, length-take, length-drop, chunks, to_le_bytes,
  take-append, drop-append,
}
use yh_filemanager_vfs_stora.Prelude.Chunks.{div_ceil, div_ceil-zero, length-chunks}
use yh_filemanager_vfs_stora.Protected.Encrypt.{
  Crypto, CryptoLaws, integrity_chunk_count, encrypt_mac_table_len, compute_chunk_mac_with_key,
  mac_chunks, build_encrypt_mac_table, derive_encrypt_mac_key, verify_tag, verify_chunks,
  verify_encrypt_window,
}

pub integrity_chunk_count-div_ceil :
    (n size : ℕ) → integrity_chunk_count n size ≡ div_ceil n (max size 1)
unfolding integrity_chunk_count
integrity_chunk_count-div_ceil n size = elim (Bool-cases (n == 0)) [
  | inl e ↦
      let z : n ≡ 0 = (==_iff n 0).0 e in
      rw (e) (sym (ap (λ k. div_ceil k (max size 1)) z ∙ div_ceil-zero (max size 1) (omega arith)))
  | inr e ↦ rw (e) refl
]

module _ (c : Crypto) (laws : CryptoLaws c) where
  -- The code of a chunk as the laws give it.
  abbrev pub tag : List ℕ → ℕ → List ℕ → List ℕ
  tag mac_key chunk_index chunk = laws.mac mac_key (to_le_bytes 8 chunk_index ++ chunk)

  compute_chunk_mac-tag :
      (mac_key : List ℕ) (chunk_index : ℕ) (chunk : List ℕ)
      → compute_chunk_mac_with_key c mac_key chunk_index chunk ≡ ok (tag mac_key chunk_index chunk)
  unfolding compute_chunk_mac_with_key
  compute_chunk_mac-tag mac_key chunk_index chunk =
      rw (laws.hmac_any_key mac_key (to_le_bytes 8 chunk_index ++ chunk)) refl

  -- The table of all chunks from an index on.
  abbrev pub tags : List ℕ → ℕ → List (List ℕ) → List ℕ
  tags mac_key chunk_index [] = []
  tags mac_key chunk_index (chunk ∷ rest) =
      tag mac_key chunk_index chunk ++ tags mac_key (suc chunk_index) rest

  pub mac_chunks-tags :
      (mac_key : List ℕ) (chunk_index : ℕ) (parts : List (List ℕ))
      → mac_chunks c mac_key chunk_index parts ≡ ok (tags mac_key chunk_index parts)
  unfolding mac_chunks
  mac_chunks-tags mac_key chunk_index [] = refl
  mac_chunks-tags mac_key chunk_index (chunk ∷ rest) =
      rw
        (
          compute_chunk_mac-tag mac_key chunk_index chunk,
          mac_chunks-tags mac_key (suc chunk_index) rest,
        )
        refl

  pub length-tags :
      (mac_key : List ℕ) (chunk_index : ℕ) (parts : List (List ℕ))
      → length (tags mac_key chunk_index parts) ≡ length parts * 32
  length-tags mac_key chunk_index [] = refl
  length-tags mac_key chunk_index (chunk ∷ rest) = omega (
    arith,
    length-append (tag mac_key chunk_index chunk) (tags mac_key (suc chunk_index) rest),
    laws.mac_length mac_key (to_le_bytes 8 chunk_index ++ chunk),
    length-tags mac_key (suc chunk_index) rest,
  )

  -- One round: the comparison decides.
  verify_chunks_step :
      (mac_key : List ℕ) (start : ℕ) (table : List ℕ) (idx : ℕ) (chunk : List ℕ)
      (rest : List (List ℕ))
      → verify_chunks c mac_key start table idx (chunk ∷ rest)
        ≡ verify_tag c
            (slice (idx * 32) (idx * 32 + 32) table)
            (tag mac_key (start + idx) chunk)
            (verify_chunks c mac_key start table (suc idx) rest)
  unfolding verify_chunks
  verify_chunks_step mac_key start table idx chunk rest =
      rw (compute_chunk_mac-tag mac_key (start + idx) chunk) refl

  -- The table from an index on is one code and the table from the next index on.
  table_split :
      (table : List ℕ) (idx : ℕ)
      → drop (idx * 32) table ≡ slice (idx * 32) (idx * 32 + 32) table ++ drop (suc idx * 32) table
  table_split table idx =
      let e : 32 ≡ idx * 32 + 32 - idx * 32 = omega arith in
      let f : idx * 32 + 32 ≡ suc idx * 32 = omega arith in
      sym (take-drop 32 (drop (idx * 32) table))
      ∙ ap₂ (λ k ys. take k (drop (idx * 32) table) ++ ys) e
          (drop-drop 32 (idx * 32) table ∙ ap (λ k. drop k table) f)

  length-slice_tag :
      (table : List ℕ) (idx : ℕ)
      → (suc idx) * 32 ≤ length table
      → length (slice (idx * 32) (idx * 32 + 32) table) ≡ 32
  length-slice_tag table idx h = omega (
    arith,
    length-take (idx * 32 + 32 - idx * 32) (drop (idx * 32) table),
    length-drop (idx * 32) table,
  )

  verify_tag_ok :
      (actual expected : List ℕ) (rest : Result Text (Unit {0}))
      → (verify_tag c actual expected rest ≡ ok tt) ↔ ((actual ≡ expected) × (rest ≡ ok tt))
  verify_tag_ok actual expected rest = elim (Bool-cases (text_eq actual expected)) [
    | inl e ↦ (λ p. ((text_eq_iff actual expected).0 e, rw (e) at p), λ q. rw (e) q.1)
    | inr e ↦
        (λ p. absurd (cc (rw (e) at p)), λ q. absurd (cc (e, (text_eq_iff actual expected).1 q.0)))
  ]

  append_parts :
      (xs ys us vs : List ℕ)
      → length xs ≡ 32
      → length us ≡ 32
      → xs ++ ys ≡ us ++ vs
      → (xs ≡ us) × (ys ≡ vs)
  append_parts xs ys us vs h k e = (
    sym (take-append 32 xs ys h) ∙ ap (take 32) e ∙ take-append 32 us vs k,
    sym (drop-append 32 xs ys h) ∙ ap (drop 32) e ∙ drop-append 32 us vs k,
  )

  verify_chunks-tags :
      (mac_key : List ℕ) (start : ℕ) (table : List ℕ) (idx : ℕ) (parts : List (List ℕ))
      → length table ≡ (idx + length parts) * 32
      → (verify_chunks c mac_key start table idx parts ≡ ok tt)
        ↔ (drop (idx * 32) table ≡ tags mac_key (start + idx) parts)
  unfolding verify_chunks
  verify_chunks-tags mac_key start table idx [] h =
      (λ p. drop_all (idx * 32) table (omega arith), λ p. refl)
  verify_chunks-tags mac_key start table idx (chunk ∷ rest) h =
      let step = verify_chunks_step mac_key start table idx chunk rest in
      let check =
        verify_tag_ok (slice (idx * 32) (idx * 32 + 32) table) (tag mac_key (start + idx) chunk)
          (verify_chunks c mac_key start table (suc idx) rest) in
      let later = verify_chunks-tags mac_key start table (suc idx) rest (omega arith) in
      let next : tags mac_key (start + suc idx) rest ≡ tags mac_key (suc (start + idx)) rest =
        ap (λ k. tags mac_key k rest) (omega arith) in
      let split = table_split table idx in
      (
        λ p. let q = check.0 (sym step ∙ p) in split ∙ ap₂ ◌++◌ q.0 (later.0 q.1 ∙ next),
        λ p.
            let q =
              append_parts _ _ _ _ (length-slice_tag table idx (omega arith))
                (laws.mac_length mac_key _) (sym split ∙ p) in
            step ∙ check.1 (q.0, later.1 (q.1 ∙ sym next)),
      )

  window_chunks :
      (chunk_size : ℕ) (window : List ℕ)
      → length (chunks (max chunk_size 1) window)
        ≡ integrity_chunk_count (length window) (max chunk_size 1)
  window_chunks chunk_size window =
      let e : max (max chunk_size 1) 1 ≡ max chunk_size 1 = omega arith in
      length-chunks (max chunk_size 1) (omega arith) window
      ∙ ap (div_ceil (length window)) (sym e)
      ∙ sym (integrity_chunk_count-div_ceil (length window) (max chunk_size 1))

  chunks_from_start :
      (mac_key : List ℕ) (start : ℕ) (table : List ℕ) (parts : List (List ℕ))
      → length table ≡ length parts * 32
      → (verify_chunks c mac_key start table 0 parts ≡ ok tt)
        ↔ (mac_chunks c mac_key start parts ≡ ok table)
  chunks_from_start mac_key start table parts h =
      let e : start + 0 ≡ start = omega arith in
      let t : tags mac_key (start + 0) parts ≡ tags mac_key start parts =
        ap (λ k. tags mac_key k parts) e in
      let whole = verify_chunks-tags mac_key start table 0 parts (omega arith) in
      let built = mac_chunks-tags mac_key start parts in
      (
        λ p. built ∙ ap (λ k. ok k) (sym (whole.0 p ∙ t)),
        λ p. let q : tags mac_key start parts ≡ table = cc (built, p) in whole.1 (sym q ∙ sym t),
      )

  -- A window is accepted exactly if its table is the list of the codes that its chunks have under
  -- the indices at which they stand in the whole payload.
  pub verify_encrypt_window-tags :
      (encrypt_key : List ℕ) (chunk_size start : ℕ) (window table : List ℕ)
      → (verify_encrypt_window c encrypt_key chunk_size start window table ≡ ok tt) ↔ (
          mac_chunks c
            (derive_encrypt_mac_key c encrypt_key)
            (start / max chunk_size 1)
            (chunks (max chunk_size 1) window)
          ≡ ok table)
  unfolding verify_encrypt_window
  verify_encrypt_window-tags encrypt_key chunk_size start window table =
      let size = max chunk_size 1 in
      let mac_key = derive_encrypt_mac_key c encrypt_key in
      let parts = chunks size window in
      let count = integrity_chunk_count (length window) size in
      let n = window_chunks chunk_size window in
      elim (Bool-cases (length table == count * 32)) [
        | inl e ↦
            let k : length table ≡ count * 32 = (==_iff _ _).0 e in
            rw (e) (chunks_from_start mac_key (start / size) table parts (omega (arith, n, k)))
        | inr e ↦ rw (e) (
          λ p. absurd (cc (p)),
          λ p.
              let q : tags mac_key (start / size) parts ≡ table =
                cc (mac_chunks-tags mac_key (start / size) parts, p) in
              let k : length table ≡ length parts * 32 =
                ap length (sym q) ∙ length-tags mac_key (start / size) parts in
              absurd (ground (arith, n, k, e)),
        )
      ]

  -- The table that is built for a ciphertext is as long as the reader computes from its size and
  -- the size of a chunk.
  pub length-build_encrypt_mac_table :
      (encrypt_key : List ℕ) (chunk_size : ℕ) (ciphertext table : List ℕ)
      → build_encrypt_mac_table c encrypt_key chunk_size ciphertext ≡ ok table
      → length table ≡ encrypt_mac_table_len (length ciphertext) chunk_size
  unfolding build_encrypt_mac_table encrypt_mac_table_len
  length-build_encrypt_mac_table encrypt_key chunk_size ciphertext table e =
      let mac_key = derive_encrypt_mac_key c encrypt_key in
      let size = max chunk_size 1 in
      let t : tags mac_key 0 (chunks size ciphertext) ≡ table =
        cc (mac_chunks-tags mac_key 0 (chunks size ciphertext), e) in
      ap length (sym t)
      ∙ length-tags mac_key 0 (chunks size ciphertext)
      ∙ ap (λ n. n * 32)
          (length-chunks size (omega arith) ciphertext
            ∙ sym (integrity_chunk_count-div_ceil (length ciphertext) chunk_size))
