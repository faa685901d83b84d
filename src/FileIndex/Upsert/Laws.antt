-- ===== src/FileIndex/Upsert/Laws.antt =====
-- src/business/services/file_index_service.rs: what is written for a path is what is read there.
use yh_filemanager_vfs_stora.Prelude.{
  ℕ, ◌≡◌, refl, sym, ap, subst, ◌∙◌, List, [], ◌∷◌, ◌++◌, map, Bool, true, false, ◌&&◌, any, Option,
  none, some, inl, inr, Bool-cases, Option-cases, Result, ok, err, if◌then◌else◌, arith,
}
use yh_filemanager_vfs_stora.Prelude.Int.{ℤ}
use yh_filemanager_vfs_stora.Prelude.Text.{Text, text_eq_refl}
use yh_filemanager_vfs_stora.Prelude.FilePath.{parent_or_root}
use yh_filemanager_vfs_stora.Prelude.Results.{bind-eq-ok}
use yh_filemanager_vfs_stora.Types.{VfsFileInfo}
use yh_filemanager_vfs_stora.FileIndex.{
  IndexedFile, is_null, is_at, first_where, has_duplicates, same_key, checked, update_one,
  update_many, get_file_metadata,
}
use yh_filemanager_vfs_stora.FileIndex.Upsert.{
  ActiveModel, merged, inserted, made_visible, write_entry, active_of, as_i64, normalized_path_of,
  upsert_file_with_location,
}
use yh_filemanager_vfs_stora.FileIndex.Relocate.Updates.{IsKeyed, checked-eq-ok, update_many-eq-ok}
use yh_filemanager_vfs_stora.FileIndex.Relocate.Moved.{update_found, none_found}

abbrev visible : Text → Text → IndexedFile → Bool
visible user_id path row = is_at user_id path row && is_null row.row_deleted_at

-- A row that stays where it is and becomes visible is found there.
found_updated :
    (user_id path : Text) (g : IndexedFile → IndexedFile) (rows : List IndexedFile)
    (top : IndexedFile)
    → ((row : IndexedFile) → visible user_id path (g row) ≡ is_at user_id path row)
    → first_where (is_at user_id path) rows ≡ some top
    → first_where
        (visible user_id path)
        (map (λ row. if is_at user_id path row then g row else row) rows)
      ≡ some (g top)
found_updated user_id path g [] top h e = absurd (cc)
found_updated user_id path g (c ∷ rows) top h e = elim (Bool-cases (is_at user_id path c)) [
  | inl f ↦ let same : c ≡ top = cc (rw (f) at e) in rw (f, h c, f) (ap (λ z. some (g z)) same)
  | inr f ↦
      let hidden : visible user_id path c ≡ false = ground (arith, f) in
      rw (f, hidden) (found_updated user_id path g rows top h (rw (f) at e))
]

found_last :
    (p : IndexedFile → Bool) (rows : List IndexedFile) (row : IndexedFile)
    → any p rows ≡ false
    → p row ≡ true
    → first_where p (rows ++ row ∷ []) ≡ some row
found_last p [] row h e = rw (e) refl
found_last p (c ∷ rows) row h e =
    let f : p c ≡ false = ground (arith, h) in rw (f) (found_last p rows row (ground (arith, h)) e)

any-visible :
    (user_id path : Text) (rows : List IndexedFile)
    → any (is_at user_id path) rows ≡ false
    → any (visible user_id path) rows ≡ false
any-visible user_id path [] h = refl
any-visible user_id path (c ∷ rows) h =
    ground (arith, any-visible user_id path rows (ground (arith, h)))

abbrev Holds : (IndexedFile → Type 0) → Result Text IndexedFile → Type 0
Holds P (ok row) = P row
Holds P (err e) = Unit

module _ (id user_id logical_path : Text) (info : VfsFileInfo)
    (storage_id backend_type backend_key : Option Text) (physical_size : Option ℤ)
    (protected_meta : Option Text) (now : ℕ) where
  abbrev entry : ActiveModel
  entry = made_visible (
      active_of id user_id logical_path info storage_id backend_type backend_key physical_size
        protected_meta now)

  abbrev place : Text
  place = normalized_path_of logical_path

  -- What a row says of a file and its content.
  abbrev Describes : IndexedFile → Type 0
  Describes row =
      (row.name ≡ info.name)
      × (row.parent_path ≡ parent_or_root place)
      × (row.is_dir ≡ info.is_dir)
      × (row.size ≡ as_i64 info.size)
      × (row.file_updated_at ≡ info.modified)
      × (row.row_updated_at ≡ now)
      × (row.storage_id ≡ storage_id)
      × (row.backend_type ≡ backend_type)
      × (row.backend_key ≡ backend_key)
      × (row.physical_size ≡ physical_size)
      × (row.protected_meta ≡ protected_meta)

  visible-merged :
      (row : IndexedFile) → visible user_id place (merged entry row) ≡ is_at user_id place row
  unfolding merged
  visible-merged row = ground arith

  merged-Describes : (row : IndexedFile) → Describes (merged entry row)
  unfolding merged active_of
  merged-Describes row = (refl, refl, refl, refl, refl, refl, refl, refl, refl, refl, refl)

  inserted-visible :
      (row : IndexedFile)
      → inserted entry ≡ ok row
      → (visible user_id place row ≡ true) × Describes row
  unfolding inserted active_of normalized_path_of
  inserted-visible row e =
      subst (λ z. Holds (λ r. (visible user_id place r ≡ true) × Describes r) z) e
        (
          rw (text_eq_refl user_id, text_eq_refl place) refl,
          (refl, refl, refl, refl, refl, refl, refl, refl, refl, refl, refl),
        )

  written :
      (rows left : List IndexedFile) (row : IndexedFile)
      → IsKeyed rows
      → has_duplicates rows ≡ false
      → write_entry entry (first_where (is_at user_id place) rows) rows ≡ ok (row, left)
      → (first_where (visible user_id place) left ≡ some row) × Describes row
  unfolding update_one
  written rows left row keyed unique e =
      elim (Option-cases (first_where (is_at user_id place) rows)) [
        | inl f ↦
            let made : write_entry entry none rows ≡ ok (row, left) =
              ap (λ o. write_entry entry o rows) (sym f) ∙ e in
            let (new, is_new, e1) = bind-eq-ok (inserted entry) _ made in
            let (updated, is_left, e2) = bind-eq-ok (checked (rows ++ new ∷ [])) _ e1 in
            let done : ◌≡◌ {A = IndexedFile × List IndexedFile} (new, updated) (row, left) =
              cc (e2) in
            let table : left ≡ rows ++ new ∷ [] =
              sym (ap (λ t. t.1) done) ∙ checked-eq-ok (rows ++ new ∷ []) updated is_left in
            let seen = inserted-visible new is_new in
            (
              ap (first_where (visible user_id place)) table
                  ∙ found_last (visible user_id place) rows new
                      (any-visible user_id place rows (none_found (is_at user_id place) rows f))
                      seen.0
                  ∙ ap (λ t. some t.0) done,
              subst (λ z. Describes z) (ap (λ t. t.0) done) seen.1,
            )
        | inr (existing, f) ↦
            let made : write_entry entry (some existing) rows ≡ ok (row, left) =
              ap (λ o. write_entry entry o rows) (sym f) ∙ e in
            let (updated, is_left, e2) =
              bind-eq-ok (update_many (same_key existing) (merged entry) rows) _ made in
            let done : ◌≡◌ {A = IndexedFile × List IndexedFile} (merged entry existing, updated)
                (row, left) =
              cc (e2) in
            let table =
              sym (ap (λ t. t.1) done)
              ∙ update_many-eq-ok (same_key existing) (merged entry) rows updated is_left
              ∙ update_found user_id place (merged entry) rows existing keyed unique f in
            (
              ap (first_where (visible user_id place)) table
                  ∙ found_updated user_id place (merged entry) rows existing visible-merged f
                  ∙ ap (λ t. some t.0) done,
              subst (λ z. Describes z) (ap (λ t. t.0) done) (merged-Describes existing),
            )
      ]

  -- Where the index takes a file at a path, the keys and the paths being distinct, the row that is
  -- returned is found at that path, whether it was there before, deleted or in the recycle bin, and
  -- it has the name, the parent, the kind, the size, the times, the storage and the location that
  -- were written.
  pub get_file_metadata-upsert_file :
      (rows left : List IndexedFile) (row : IndexedFile)
      → IsKeyed rows
      → has_duplicates rows ≡ false
      → upsert_file_with_location id user_id logical_path info storage_id backend_type backend_key
          physical_size protected_meta now rows
        ≡ ok (row, left)
      → (get_file_metadata user_id (normalized_path_of logical_path) left ≡ some row)
        × (row.name ≡ info.name)
        × (row.parent_path ≡ parent_or_root (normalized_path_of logical_path))
        × (row.is_dir ≡ info.is_dir)
        × (row.size ≡ as_i64 info.size)
        × (row.file_updated_at ≡ info.modified)
        × (row.row_updated_at ≡ now)
        × (row.storage_id ≡ storage_id)
        × (row.backend_type ≡ backend_type)
        × (row.backend_key ≡ backend_key)
        × (row.physical_size ≡ physical_size)
        × (row.protected_meta ≡ protected_meta)
  unfolding get_file_metadata upsert_file_with_location
  get_file_metadata-upsert_file rows left row keyed unique e =
      let w = written rows left row keyed unique e in
      let d = w.1 in (w.0, d.0, d.1, d.2, d.3, d.4, d.5, d.6, d.7, d.8, d.9, d.10)
