-- ===== src/FileIndex/Delete.antt =====
-- src/business/services/file_index_service.rs: rows that are deleted for good.
use yh_filemanager_vfs_stora.Prelude.{
  ◌≡◌, refl, ap, ◌∙◌, List, [], ◌∷◌, ◌++◌, Bool, true, false, not, ◌&&◌, ◌||◌, any, none, some, inl,
  inr, Bool-cases, Option-cases, arith,
}
use yh_filemanager_vfs_stora.Prelude.Text.{
  Text, codes, text_eq, text_eq_iff, text_eq_refl, trim_end_matches,
}
use yh_filemanager_vfs_stora.FileIndex.{IndexedFile, Sql, is_null, is_at, filter, first_where}
use yh_filemanager_vfs_stora.FileIndex.Relocate.{is_below}

unfoldable pub delete_many : (IndexedFile → Bool) → List IndexedFile → List IndexedFile
delete_many p rows = filter (λ row. not (p row)) rows

abbrev prefix_of : Text → Text
prefix_of original_path = trim_end_matches b'/' original_path ++ codes "/"

-- The rows that are about to go, as prefixes of the places that they were trashed from.
abbrev original_prefixes : List IndexedFile → List Text
original_prefixes [] = []
original_prefixes (row ∷ rows) =
    let rest = original_prefixes rows in
    elim row.original_path [ none ↦ rest | some original_path ↦ prefix_of original_path ∷ rest ]

module _ (sql : Sql) (user_id : Text) where
  -- A comparison with NULL does not hold.
  abbrev pub is_from : Text → IndexedFile → Bool
  is_from prefix row = text_eq row.user_id user_id && elim row.original_path [
    | none ↦ false
    | some original_path ↦ sql.like original_path (prefix ++ codes "%")
  ]

  unfoldable pub delete_originals : List Text → List IndexedFile → List IndexedFile
  unfolding delete_many
  delete_originals [] rows = rows
  delete_originals (prefix ∷ later) rows =
      delete_originals later (delete_many (is_from prefix) rows)

  unfoldable pub delete_file : Text → List IndexedFile → List IndexedFile
  unfolding delete_many delete_originals
  delete_file path rows =
      delete_originals
        (original_prefixes
          (filter (λ row. is_at user_id path row && is_null row.row_deleted_at) rows))
        (delete_many (λ row. is_at user_id path row || is_below sql user_id path row) rows)

  any-filter :
      (p q : IndexedFile → Bool) (rows : List IndexedFile)
      → any p rows ≡ false
      → any p (filter q rows) ≡ false
  any-filter p q [] h = refl
  any-filter p q (row ∷ rows) h = ground (arith, any-filter p q rows)

  deleted : (p : IndexedFile → Bool) (rows : List IndexedFile) → any p (delete_many p rows) ≡ false
  unfolding delete_many
  deleted p [] = refl
  deleted p (row ∷ rows) = ground (arith, deleted p rows)

  stays_deleted :
      (p : IndexedFile → Bool) (prefixes : List Text) (rows : List IndexedFile)
      → any p rows ≡ false
      → any p (delete_originals prefixes rows) ≡ false
  unfolding delete_originals delete_many
  stays_deleted p [] rows h = h
  stays_deleted p (prefix ∷ later) rows h =
      stays_deleted p later (filter (λ row. not (is_from prefix row)) rows)
        (any-filter p (λ row. not (is_from prefix row)) rows h)

  abbrev was_at : Text → IndexedFile → Bool
  was_at original_path row = elim row.original_path [
    | none ↦ false
    | some o ↦ text_eq o original_path
  ]

  deleted_original :
      (original_path : Text) (found rows : List IndexedFile)
      → any (was_at original_path) found ≡ true
      → any (is_from (prefix_of original_path)) (delete_originals (original_prefixes found) rows)
        ≡ false
  unfolding delete_originals
  deleted_original original_path [] rows h = absurd (cc)
  deleted_original original_path (row ∷ found) rows h = elim (Option-cases row.original_path) [
    | inl e ↦ rw (e) (deleted_original original_path found rows (rw (e) at h))
    | inr (o, e) ↦ elim (Bool-cases (text_eq o original_path)) [
      | inl f ↦
          let same : o ≡ original_path = (text_eq_iff o original_path).0 f in
          rw (e) (
            ap
              (λ z. any (is_from (prefix_of original_path)) (
                delete_originals (original_prefixes found)
                  (delete_many (is_from (prefix_of z)) rows)))
              same
            ∙ stays_deleted (is_from (prefix_of original_path)) (original_prefixes found)
                (delete_many (is_from (prefix_of original_path)) rows)
                (deleted (is_from (prefix_of original_path)) rows))
      | inr f ↦ rw (e) (
          deleted_original original_path found (delete_many (is_from (prefix_of o)) rows)
            (rw (e, f) at h))
    ]
  ]

  found_original :
      (original_path : Text) (q : IndexedFile → Bool) (rows : List IndexedFile) (row : IndexedFile)
      → first_where q rows ≡ some row
      → row.original_path ≡ some original_path
      → any (was_at original_path) (filter q rows) ≡ true
  found_original original_path q [] row e o = absurd (cc)
  found_original original_path q (c ∷ rows) row e o = elim (Bool-cases (q c)) [
    | inl f ↦
        let same : c ≡ row = cc (rw (f) at e) in
        let first : was_at original_path c ≡ true =
          ap (λ z. elim z [ none ↦ false | some x ↦ text_eq x original_path ])
            (ap (λ z. z.original_path) same ∙ o)
          ∙ text_eq_refl original_path in
        rw (f, first) refl
    | inr f ↦ rw (f) (found_original original_path q rows row (rw (f) at e) o)
  ]

  filter-filter :
      (p q : IndexedFile → Bool)
      → ((row : IndexedFile) → p row ≡ true → q row ≡ true)
      → (rows : List IndexedFile) → filter p (filter q rows) ≡ filter p rows
  filter-filter p q h [] = refl
  filter-filter p q h (row ∷ rows) =
      let rest = filter-filter p q h rows in
      elim (Bool-cases (p row)) [
        | inl e ↦ rw (h row e, e) (ap (λ z. row ∷ z) rest)
        | inr e ↦ elim (Bool-cases (q row)) [ inl f ↦ rw (f, e) rest | inr f ↦ rw (f, e) rest ]
      ]

  abbrev pub is_other : IndexedFile → Bool
  is_other row = not (text_eq row.user_id user_id)

  delete_many_others :
      (p : IndexedFile → Bool)
      → ((row : IndexedFile) → is_other row ≡ true → p row ≡ false)
      → (rows : List IndexedFile) → filter is_other (delete_many p rows) ≡ filter is_other rows
  unfolding delete_many
  delete_many_others p h rows =
      filter-filter is_other (λ row. not (p row)) (λ row e. ap not (h row e)) rows

  others_stay :
      (prefixes : List Text) (rows : List IndexedFile)
      → filter is_other (delete_originals prefixes rows) ≡ filter is_other rows
  unfolding delete_originals delete_many
  others_stay [] rows = refl
  others_stay (prefix ∷ later) rows =
      others_stay later (delete_many (is_from prefix) rows)
      ∙ delete_many_others (is_from prefix) (λ row e. ground arith) rows

  -- After the deletion of a row that is not deleted and has an original path: there is no row at
  -- its path or below it, and no row of the user whose original path is below that original path,
  -- wherever it is now; the rows of other users stay.
  pub delete_file_gone :
      (path original_path : Text) (rows : List IndexedFile) (row : IndexedFile)
      → first_where (λ r. is_at user_id path r && is_null r.row_deleted_at) rows ≡ some row
      → row.original_path ≡ some original_path
      → (any (λ r. is_at user_id path r || is_below sql user_id path r) (delete_file path rows)
          ≡ false)
        × (any (is_from (trim_end_matches b'/' original_path ++ codes "/")) (delete_file path rows)
            ≡ false)
        × (filter is_other (delete_file path rows) ≡ filter is_other rows)
  unfolding delete_file
  delete_file_gone path original_path rows row e o =
      let q : IndexedFile → Bool = λ r. is_at user_id path r && is_null r.row_deleted_at in
      let there : IndexedFile → Bool = λ r. is_at user_id path r || is_below sql user_id path r in
      let prefixes = original_prefixes (filter q rows) in
      (
        stays_deleted there prefixes (delete_many there rows) (deleted there rows),
        deleted_original original_path (filter q rows) (delete_many there rows)
            (found_original original_path q rows row e o),
        others_stay prefixes (delete_many there rows)
            ∙ delete_many_others there (λ r h. ground arith) rows,
      )
