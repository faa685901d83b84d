-- ===== src/FileIndex/Relocate/Moved.antt =====
-- src/business/services/file_index_service.rs: a move is one pass over the table.
use yh_filemanager_vfs_stora.Prelude.{
  ℕ, ◌≡◌, refl, sym, ap, ap₂, subst, ◌∙◌, List, [], ◌∷◌, ◌++◌, length, map, Bool, true, false, any,
  none, some, inl, inr, Bool-cases, Option-cases, ok, if◌then◌else◌, arith,
}
use yh_filemanager_vfs_stora.Prelude.Text.{Text, codes, text_eq_iff, starts_with}
use yh_filemanager_vfs_stora.Prelude.Bytes.{drop}
use yh_filemanager_vfs_stora.Prelude.Results.{bind-eq-ok}
use yh_filemanager_vfs_stora.FileIndex.{
  IndexedFile, Sql, IsLiteral, same_key, is_at, filter, first_where, has_duplicates, update_one,
  update_many, name_of, parent_of,
}
use yh_filemanager_vfs_stora.FileIndex.Relocate.{
  is_below, move_top, moved_top, moved_child, move_file,
}
use yh_filemanager_vfs_stora.FileIndex.Relocate.Updates.{
  IsKeyed, updates, updates-filter, update_each-eq-ok, update_many-eq-ok, map-map, map_agree,
  same_key_sym, same_key_refl, map-IsKeyed, filter-map,
}

pub none_updated :
    (p : IndexedFile → Bool) (g : IndexedFile → IndexedFile) (rows : List IndexedFile)
    → any p rows ≡ false
    → map (λ row. if p row then g row else row) rows ≡ rows
none_updated p g [] h = refl
none_updated p g (c ∷ rows) h =
    let e : p c ≡ false = ground (arith, h) in
    ap₂ (λ b rest. (if b then g c else c) ∷ rest) e (none_updated p g rows (ground (arith, h)))

found_row :
    (p q : IndexedFile → Bool) (rows : List IndexedFile) (top : IndexedFile)
    → first_where p rows ≡ some top
    → any q rows ≡ false
    → q top ≡ false
found_row p q [] top e h = absurd (cc)
found_row p q (c ∷ rows) top e h = elim (Bool-cases (p c)) [
  | inl f ↦
      let same : c ≡ top = cc (rw (f) at e) in subst (λ z. q z ≡ false) same (ground (arith, h))
  | inr f ↦ found_row p q rows top (rw (f) at e) (ground (arith, h))
]

pub none_found :
    (p : IndexedFile → Bool) (rows : List IndexedFile)
    → first_where p rows ≡ none
    → any p rows ≡ false
none_found p [] e = refl
none_found p (c ∷ rows) e = elim (Bool-cases (p c)) [
  | inl f ↦ absurd (cc (rw (f) at e))
  | inr f ↦ rw (f) (none_found p rows (rw (f) at e))
]

-- The unique index: a path of a user is not there again.
unique_path :
    (user_id path : Text) (c : IndexedFile) (rows : List IndexedFile)
    → is_at user_id path c ≡ true
    → any (is_at c.user_id c.path) rows ≡ false
    → any (is_at user_id path) rows ≡ false
unique_path user_id path c rows e h =
    let u : c.user_id ≡ user_id = (text_eq_iff c.user_id user_id).0 (ground (arith, e)) in
    let s : c.path ≡ path = (text_eq_iff c.path path).0 (ground (arith, e)) in
    ap₂ (λ x y. any (is_at x y) rows) (sym u) (sym s) ∙ h

module _ (user_id path : Text) (g : IndexedFile → IndexedFile) where
  -- The update of the one row that is there.
  pub update_found :
      (rows : List IndexedFile) (top : IndexedFile)
      → IsKeyed rows
      → has_duplicates rows ≡ false
      → first_where (is_at user_id path) rows ≡ some top
      → map (λ row. if same_key top row then g row else row) rows
        ≡ map (λ row. if is_at user_id path row then g row else row) rows
  unfolding IsKeyed
  update_found [] top k d e = refl
  update_found (c ∷ rows) top k d e = elim (Bool-cases (is_at user_id path c)) [
    | inl f ↦
        let same : c ≡ top = cc (rw (f) at e) in
        subst
          (λ z.
            map (λ row. if same_key z row then g row else row) (c ∷ rows)
            ≡ map (λ row. if is_at user_id path row then g row else row) (c ∷ rows))
          same
          (ap₂ (λ b rest. (if b then g c else c) ∷ rest) (same_key_refl c ∙ sym f)
            (none_updated (same_key c) g rows k.0
              ∙ sym (
                  none_updated (is_at user_id path) g rows
                    (unique_path user_id path c rows f (ground (arith, d))))))
    | inr f ↦
        let later : first_where (is_at user_id path) rows ≡ some top = rw (f) at e in
        let other : same_key top c ≡ false =
          same_key_sym top c ∙ found_row (is_at user_id path) (same_key c) rows top later k.0 in
        ap₂ (λ b rest. (if b then g c else c) ∷ rest) (other ∙ sym f)
          (update_found rows top k.1 (ground (arith, d)) later)
  ]

starts_with_longer :
    (fold : ℕ → ℕ) (s : Text) → starts_with (map fold s) (map fold (s ++ codes "/")) ≡ false
unfolding starts_with
starts_with_longer fold [] = refl
starts_with_longer fold (x ∷ s) = ground (arith, starts_with_longer fold s)

module _ (sql : Sql) (user_id src_path dst_path : Text) (now : ℕ) where
  -- The row under a new path and a new name. A destination outside the recycle bin takes the marks
  -- of the bin away.
  abbrev placed : Text → Text → IndexedFile → IndexedFile
  placed path name row = record row {
    path = path;
    name = name;
    parent_path = parent_of path;
    row_updated_at = now;
    file_trashed_at =
        if starts_with dst_path (codes "/.recycle_bin") then row.file_trashed_at else none;
    original_path =
        if starts_with dst_path (codes "/.recycle_bin") then row.original_path else none;
  }

  -- What a move is, row by row: the source takes the destination's path, and below it the
  -- destination's path stands in place of the source's at the front.
  abbrev pub relocated : IndexedFile → IndexedFile
  relocated row =
      if is_at user_id src_path row
      then placed dst_path (name_of dst_path) row
      else if is_below sql user_id src_path row
      then placed (dst_path ++ drop (length src_path) row.path) row.name row
      else row

  -- The same by the updates of the code.
  abbrev updated_row : IndexedFile → IndexedFile
  updated_row row =
      if is_at user_id src_path row
      then moved_top dst_path now row
      else if is_below sql user_id src_path row
      then moved_child src_path dst_path now row row
      else row

  moved_top-placed :
      (row : IndexedFile) → moved_top dst_path now row ≡ placed dst_path (name_of dst_path) row
  unfolding moved_top
  moved_top-placed row = elim (Bool-cases (starts_with dst_path (codes "/.recycle_bin"))) [
    | inl e ↦ rw (e) refl
    | inr e ↦ rw (e) refl
  ]

  moved_child-placed :
      (row : IndexedFile)
      → moved_child src_path dst_path now row row
        ≡ placed (dst_path ++ drop (length src_path) row.path) row.name row
  unfolding moved_child
  moved_child-placed row = elim (Bool-cases (starts_with dst_path (codes "/.recycle_bin"))) [
    | inl e ↦ rw (e) refl
    | inr e ↦ rw (e) refl
  ]

  updated_row-relocated : (row : IndexedFile) → updated_row row ≡ relocated row
  updated_row-relocated row = rw (moved_top-placed row, moved_child-placed row) refl

  -- The first statement of a move.
  abbrev topped : IndexedFile → IndexedFile
  topped row = if is_at user_id src_path row then moved_top dst_path now row else row

  topped_fields :
      (row : IndexedFile) → ((topped row).id ≡ row.id) × ((topped row).user_id ≡ row.user_id)
  unfolding moved_top
  topped_fields row = ground arith

  moved_child_fields :
      (c row : IndexedFile)
      → ((moved_child src_path dst_path now c row).id ≡ row.id)
        × ((moved_child src_path dst_path now c row).user_id ≡ row.user_id)
  unfolding moved_child
  moved_child_fields c row = ground arith

  moved_top_path : (row : IndexedFile) → (moved_top dst_path now row).path ≡ dst_path
  unfolding moved_top
  moved_top_path row = ground arith

  module _ (literal : IsLiteral sql (src_path ++ codes "/"))
      (outside : sql.like dst_path ((src_path ++ codes "/") ++ codes "%") ≡ false) where
    not_below_itself :
        (row : IndexedFile)
        → is_at user_id src_path row ≡ true
        → is_below sql user_id src_path row ≡ false
    unfolding IsLiteral
    not_below_itself row e =
        let s : row.path ≡ src_path = (text_eq_iff row.path src_path).0 (ground (arith, e)) in
        let l : sql.like row.path ((src_path ++ codes "/") ++ codes "%") ≡ false =
          ap (λ z. sql.like z ((src_path ++ codes "/") ++ codes "%")) s
          ∙ literal src_path
          ∙ starts_with_longer sql.fold src_path in
        ground (arith, l)

    moved_top_outside :
        (row : IndexedFile) → is_below sql user_id src_path (moved_top dst_path now row) ≡ false
    moved_top_outside row =
        let l : sql.like (moved_top dst_path now row).path ((src_path ++ codes "/") ++ codes "%")
            ≡ false =
          ap (λ z. sql.like z ((src_path ++ codes "/") ++ codes "%")) (moved_top_path row)
          ∙ outside in
        ground (arith, l)

    topped_below :
        (row : IndexedFile)
        → is_below sql user_id src_path (topped row) ≡ is_below sql user_id src_path row
    topped_below row = elim (Bool-cases (is_at user_id src_path row)) [
      | inl e ↦ rw (e) (moved_top_outside row ∙ sym (not_below_itself row e))
      | inr e ↦ rw (e) refl
    ]

    topped_kept : (row : IndexedFile) → is_below sql user_id src_path row ≡ true → topped row ≡ row
    topped_kept row h = elim (Bool-cases (is_at user_id src_path row)) [
      | inl e ↦ absurd (cc (h, not_below_itself row e))
      | inr e ↦ rw (e) refl
    ]

    both :
        (row : IndexedFile)
        → (if is_below sql user_id src_path (topped row)
            then moved_child src_path dst_path now (topped row) (topped row)
            else topped row)
          ≡ updated_row row
    both row = elim (Bool-cases (is_at user_id src_path row)) [
      | inl e ↦ rw (e) (
          ap
            (λ b.
              if b
              then moved_child src_path dst_path now (moved_top dst_path now row)
                  (moved_top dst_path now row)
              else moved_top dst_path now row)
            (moved_top_outside row))
      | inr e ↦ rw (e) refl
    ]

    top_moved :
        (rows updated : List IndexedFile)
        → IsKeyed rows
        → has_duplicates rows ≡ false
        → move_top sql (first_where (is_at user_id src_path) rows) dst_path now rows ≡ ok updated
        → updated ≡ map topped rows
    unfolding update_one
    top_moved rows updated keyed unique e =
        elim (Option-cases (first_where (is_at user_id src_path) rows)) [
          | inl f ↦
              let same : rows ≡ updated = cc (rw (f) at e) in
              sym same
              ∙ sym (
                  none_updated (is_at user_id src_path) (moved_top dst_path now) rows
                    (none_found (is_at user_id src_path) rows f))
          | inr (top, f) ↦
              let one : update_many (same_key top) (moved_top dst_path now) rows ≡ ok updated =
                rw (f) at e in
              update_many-eq-ok (same_key top) (moved_top dst_path now) rows updated one
              ∙ update_found user_id src_path (moved_top dst_path now) rows top keyed unique f
        ]

    -- Where a move in the index succeeds, the keys and the paths being distinct, the source without
    -- wildcards and the destination not below it as LIKE compares: every row is changed once and by
    -- its own path, the row of the source, the rows that LIKE holds to be below it, which in SQLite
    -- is without regard to capitals, and no other.
    pub move_file-relocated :
        (rows left : List IndexedFile)
        → IsKeyed rows
        → has_duplicates rows ≡ false
        → move_file sql user_id src_path dst_path now rows ≡ ok left
        → left ≡ map relocated rows
    unfolding move_file
    move_file-relocated rows left keyed unique e =
        let below = is_below sql user_id src_path in
        let child = moved_child src_path dst_path now in
        let (updated, first, rest) =
          bind-eq-ok (move_top sql (first_where (is_at user_id src_path) rows) dst_path now rows) _
            e in
        let once = top_moved rows updated keyed unique first in
        let same = filter-map below topped topped_below topped_kept rows in
        update_each-eq-ok child (filter below rows) updated left rest
        ∙ ap₂ (λ found table. map (updates child found) table) (sym same) once
        ∙ updates-filter child (λ c r. (moved_child_fields c r).0)
            (λ c r. (moved_child_fields c r).1) below (map topped rows)
            (map-IsKeyed topped (λ r. (topped_fields r).0) (λ r. (topped_fields r).1) rows keyed)
        ∙ map-map (λ row. if below row then child row row else row) topped rows
        ∙ map_agree
            (λ row. if below (topped row) then child (topped row) (topped row) else topped row)
            relocated rows (λ r. both r ∙ updated_row-relocated r)
