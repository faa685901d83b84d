-- ===== src/Protected/Read/Macs.antt =====
-- src/vfs/scoped/protected.rs: the part of the table that a reader takes beside a window is the
-- list of the codes of the window's chunks.
use native.Mathlib.Nat.{mul-div_cancel}
use yh_filemanager_vfs_stora.Prelude.{
  ℕ, ◌+◌, ◌-◌, ◌*◌, ◌/◌, ◌^◌, min, max, ◌<◌, ◌≡◌, sym, ap, ap₂, ◌∙◌, List, length, ok, arith,
}
use yh_filemanager_vfs_stora.Prelude.Bytes.{take, drop, slice, chunks}
use yh_filemanager_vfs_stora.Prelude.Chunks.{div_ceil, length-chunks}
use yh_filemanager_vfs_stora.Protected.Encrypt.{
  Crypto, CryptoLaws, integrity_chunk_count, mac_chunks, derive_encrypt_mac_key,
  build_encrypt_mac_table, verify_encrypt_window,
}
use yh_filemanager_vfs_stora.Protected.Encrypt.Verify.{
  tags, mac_chunks-tags, integrity_chunk_count-div_ceil, verify_encrypt_window-tags,
}
use yh_filemanager_vfs_stora.Protected.Encrypt.Windows.{tags_window}
use yh_filemanager_vfs_stora.Protected.Payload.Windows.{length-slice}
use yh_filemanager_vfs_stora.Protected.Read.{aligned_end}
use yh_filemanager_vfs_stora.Protected.Read.Aligned.{aligned_blocks}

module _ (c : Crypto) (laws : CryptoLaws c) (size : ℕ) (size_pos : 0 < size) (content : List ℕ)
    (start stop : ℕ) (fits : stop + size < 2 ^ 64) where
  abbrev pub window_start : ℕ
  window_start = start / size * size

  abbrev pub window_end : ℕ
  window_end = min (aligned_end size stop) (length content)

  abbrev pub window_slice : List ℕ
  window_slice = slice window_start window_end content

  -- The reader's part of a table.
  abbrev pub macs_slice : List ℕ → List ℕ
  macs_slice table =
      let start_chunk = window_start / size in
      let covered_chunks = integrity_chunk_count (window_end - window_start) size in
      slice (start_chunk * 32) (start_chunk * 32 + covered_chunks * 32) table

  one : max size 1 ≡ size
  one = omega arith

  covered :
      length (chunks size window_slice) ≡ integrity_chunk_count (window_end - window_start) size
  covered =
      length-chunks size size_pos window_slice
      ∙ ap₂ div_ceil (length-slice window_start window_end content (omega arith)) (sym one)
      ∙ sym (integrity_chunk_count-div_ceil (window_end - window_start) size)

  macs_slice-tags :
      (mac_key : List ℕ)
      → tags c laws mac_key (window_start / size) (chunks size window_slice)
        ≡ macs_slice (tags c laws mac_key 0 (chunks size content))
  macs_slice-tags mac_key =
      let table = tags c laws mac_key 0 (chunks size content) in
      let j = (stop + (size - 1)) / size - start / size in
      let k : window_start / size ≡ start / size = mul-div_cancel (start / size) size_pos in
      let blocks = aligned_blocks size size_pos start stop content fits in
      let count : ℕ = integrity_chunk_count (window_end - window_start) size in
      let n : count * 32 ≡ window_start / size * 32 + count * 32 - window_start / size * 32 =
        omega arith in
      ap₂ (λ i w. tags c laws mac_key i (chunks size w)) k blocks
      ∙ tags_window c laws mac_key size (start / size) j content size_pos
      ∙ ap₂ (λ w i. take (length (chunks size w) * 32) (drop (i * 32) table)) (sym blocks) (sym k)
      ∙ ap (λ m. take m (drop (window_start / size * 32) table)) (ap (λ m. m * 32) covered ∙ n)

  -- With the table that was built, the window is accepted.
  pub verify_built :
      (key table : List ℕ)
      → build_encrypt_mac_table c key size content ≡ ok table
      → verify_encrypt_window c key size window_start window_slice (macs_slice table) ≡ ok tt
  unfolding build_encrypt_mac_table
  verify_built key table e =
      let mac_key = derive_encrypt_mac_key c key in
      let t : tags c laws mac_key 0 (chunks (max size 1) content) ≡ table =
        cc (mac_chunks-tags c laws mac_key 0 (chunks (max size 1) content), e) in
      let built : tags c laws mac_key 0 (chunks size content) ≡ table =
        ap (λ z. tags c laws mac_key 0 (chunks z content)) (sym one) ∙ t in
      (verify_encrypt_window-tags c laws key size window_start window_slice (macs_slice table)).1 (
        ap (λ z. mac_chunks c mac_key (window_start / z) (chunks z window_slice)) one
        ∙ mac_chunks-tags c laws mac_key (window_start / size) (chunks size window_slice)
        ∙ ap (λ s. ok s) (macs_slice-tags mac_key ∙ ap macs_slice built))
