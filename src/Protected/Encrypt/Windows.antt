-- ===== src/Protected/Encrypt/Windows.antt =====
-- src/vfs/protected.rs: a window of whole chunks has its part of the table of the whole payload.
use yh_filemanager_vfs_stora.Prelude.{
  ℕ, zero, suc, ◌+◌, ◌*◌, ◌<◌, ◌≡◌, refl, sym, ap, ◌∙◌, List, [], ◌∷◌, ◌++◌, length, arith,
}
use yh_filemanager_vfs_stora.Prelude.Bytes.{
  take, drop, drop-drop, drop-append, chunks, take_prefix, take_further, drop_all, take_all,
}
use yh_filemanager_vfs_stora.Prelude.Chunks.{chunks-drop, chunks-take}
use yh_filemanager_vfs_stora.Protected.Encrypt.{Crypto, CryptoLaws}
use yh_filemanager_vfs_stora.Protected.Encrypt.Verify.{tag, tags, length-tags}

module _ (c : Crypto) (laws : CryptoLaws c) (mac_key : List ℕ) where
  tags-drop :
      (k start : ℕ) (parts : List (List ℕ))
      → tags c laws mac_key (start + k) (drop k parts)
        ≡ drop (k * 32) (tags c laws mac_key start parts)
  tags-drop zero start parts =
      let e : start + 0 ≡ start = omega arith in ap (λ i. tags c laws mac_key i parts) e
  tags-drop (suc k) start [] = sym (drop_all (suc k * 32) [] (omega arith))
  tags-drop (suc k) start (chunk ∷ rest) =
      let e : start + suc k ≡ suc start + k = omega arith in
      let f : 32 + k * 32 ≡ suc k * 32 = omega arith in
      let this = tag c laws mac_key start chunk in
      let later = tags c laws mac_key (suc start) rest in
      ap (λ i. tags c laws mac_key i (drop k rest)) e
      ∙ tags-drop k (suc start) rest
      ∙ sym (ap (drop (k * 32)) (drop-append 32 this later (laws.mac_length mac_key _)))
      ∙ drop-drop (k * 32) 32 (this ++ later)
      ∙ ap (λ m. drop m (this ++ later)) f

  tags-take :
      (j start : ℕ) (parts : List (List ℕ))
      → tags c laws mac_key start (take j parts) ≡ take (j * 32) (tags c laws mac_key start parts)
  tags-take zero start parts = refl
  tags-take (suc j) start [] = sym (take_all (suc j * 32) [] (omega arith))
  tags-take (suc j) start (chunk ∷ rest) =
      let f : 32 + j * 32 ≡ suc j * 32 = omega arith in
      let this = tag c laws mac_key start chunk in
      let later = tags c laws mac_key (suc start) rest in
      ap (λ ys. this ++ ys) (tags-take j (suc start) rest)
      ∙ take_further 32 (j * 32) this later (laws.mac_length mac_key _)
      ∙ ap (λ m. take m (this ++ later)) f

  pub tags_window :
      (n : ℕ) (k j : ℕ) (ciphertext : List ℕ)
      → 0 < n
      → tags c laws mac_key k (chunks n (take (j * n) (drop (k * n) ciphertext)))
        ≡ take
            (length (chunks n (take (j * n) (drop (k * n) ciphertext))) * 32)
            (drop (k * 32) (tags c laws mac_key 0 (chunks n ciphertext)))
  tags_window n k j ciphertext h =
      let window = chunks n (take (j * n) (drop (k * n) ciphertext)) in
      let parts : window ≡ take j (drop k (chunks n ciphertext)) =
        chunks-take n h j (drop (k * n) ciphertext) ∙ ap (take j) (chunks-drop n h k ciphertext) in
      let z : 0 + k ≡ k = omega arith in
      let table = drop (k * 32) (tags c laws mac_key 0 (chunks n ciphertext)) in
      let e : tags c laws mac_key k window ≡ take (j * 32) table =
        ap (tags c laws mac_key k) parts
        ∙ tags-take j k (drop k (chunks n ciphertext))
        ∙ ap (take (j * 32)) (
            ap (λ i. tags c laws mac_key i (drop k (chunks n ciphertext))) (sym z)
            ∙ tags-drop k 0 (chunks n ciphertext)) in
      e
      ∙ sym (take_prefix (j * 32) table)
      ∙ ap (λ m. take m table) (sym (ap length e) ∙ length-tags c laws mac_key k window)
