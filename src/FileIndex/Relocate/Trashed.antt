-- ===== src/FileIndex/Relocate/Trashed.antt =====
-- src/business/services/file_index_service.rs: what SQL's REPLACE makes of a path that has the
-- name of the directory again further down.
use yh_filemanager_vfs_stora.Prelude.{
  ℕ, zero, suc, ◌≡◌, refl, sym, ap, ◌∙◌, List, [], ◌∷◌, ◌++◌, map, length, length-append, get_elem?,
  true, false, some, inl, inr, Bool-cases, ok, if◌then◌else◌, arith,
}
use yh_filemanager_vfs_stora.Prelude.Text.{Text, codes, text_eq, text_eq_iff, starts_with}
use yh_filemanager_vfs_stora.Prelude.Results.{bind-eq-ok}
use yh_filemanager_vfs_stora.FileIndex.{IndexedFile, Sql, IsLiteral, is_at, update_many}
use yh_filemanager_vfs_stora.FileIndex.Relocate.{is_below, trashed_top, trashed_child, trash_file}
use yh_filemanager_vfs_stora.FileIndex.Relocate.Updates.{update_many-eq-ok}

-- REPLACE goes on behind what it has replaced.
unfoldable pub IsReplaceAll : Sql → Type 0
IsReplaceAll sql =
    ((c : ℕ) (from to rest : Text)
      → sql.replace ((c ∷ from) ++ rest) (c ∷ from) to ≡ to ++ sql.replace rest (c ∷ from) to)
    × ((from to : Text) → sql.replace [] from to ≡ [])

get_elem?-map :
    (f : IndexedFile → IndexedFile) (rows : List IndexedFile) (i : ℕ) (row : IndexedFile)
    → get_elem? rows i ≡ some row
    → get_elem? (map f rows) i ≡ some (f row)
get_elem?-map f [] i row e = absurd (cc)
get_elem?-map f (c ∷ rows) zero row e = cc
get_elem?-map f (c ∷ rows) (suc i) row e = get_elem?-map f rows i row e

starts_with-repeated :
    (fold : ℕ → ℕ) (s t : Text)
    → starts_with (map fold (s ++ (b'/' ∷ t))) (map fold (s ++ codes "/")) ≡ true
unfolding starts_with
starts_with-repeated fold [] t = ground arith
starts_with-repeated fold (x ∷ s) t = ground (arith, starts_with-repeated fold s t)

append_empty : (s : Text) → s ++ [] ≡ s
append_empty [] = refl
append_empty (x ∷ s) = ap (λ t. x ∷ t) (append_empty s)

module _ (sql : Sql) (user_id name new_path : Text) (now : ℕ) where
  abbrev old_path : Text
  old_path = b'/' ∷ name

  -- A row of the directory of this path, with the same name once more: `/a/a`.
  abbrev repeated : Text
  repeated = old_path ++ old_path

  not_top : (row : IndexedFile) → row.path ≡ repeated → is_at user_id old_path row ≡ false
  not_top row e = elim (Bool-cases (text_eq row.path old_path)) [
    | inl f ↦
        let same : repeated ≡ old_path = sym e ∙ (text_eq_iff row.path old_path).0 f in
        let n : length repeated ≡ length old_path = ap length same in
        absurd (omega (arith, n, length-append old_path old_path))
    | inr f ↦ ground (arith, f)
  ]

  below_top :
      (row : IndexedFile)
      → IsLiteral sql (old_path ++ codes "/")
      → row.user_id ≡ user_id
      → row.path ≡ repeated
      → is_below sql user_id old_path row ≡ true
  unfolding IsLiteral
  below_top row literal u e =
      let l : sql.like row.path ((old_path ++ codes "/") ++ codes "%") ≡ true =
        literal row.path
        ∙ ap (λ z. starts_with (map sql.fold z) (map sql.fold (old_path ++ codes "/"))) e
        ∙ starts_with-repeated sql.fold old_path name in
      let t : text_eq row.user_id user_id ≡ true = (text_eq_iff row.user_id user_id).1 u in
      ground (arith, l, t)

  -- Where a directory of one name, without wildcards, is moved to the recycle bin, the row of what
  -- has the same name in it gets the path in the bin twice over, REPLACE going on behind what it
  -- has replaced.
  pub trash_file_repeats :
      (rows left : List IndexedFile) (i : ℕ) (row : IndexedFile)
      → IsLiteral sql (old_path ++ codes "/")
      → IsReplaceAll sql
      → trash_file sql user_id old_path new_path now rows ≡ ok left
      → get_elem? rows i ≡ some row
      → row.user_id ≡ user_id
      → row.path ≡ repeated
      → (trashed : IndexedFile) × (get_elem? left i ≡ some trashed)
        × (trashed.path ≡ new_path ++ new_path)
  unfolding trash_file IsReplaceAll trashed_child
  trash_file_repeats rows left i row literal all e at_i u r =
      let top = trashed_top sql old_path new_path now in
      let child = trashed_child sql old_path new_path now in
      let below = is_below sql user_id old_path in
      let (topped, first, rest) =
        bind-eq-ok (update_many (is_at user_id old_path) top rows) (update_many below child) e in
      let f : IndexedFile → IndexedFile = λ z. if is_at user_id old_path z then top z else z in
      let g : IndexedFile → IndexedFile = λ z. if below z then child z else z in
      let whole : left ≡ map g (map f rows) =
        update_many-eq-ok below child topped left rest
        ∙ ap (map g) (update_many-eq-ok (is_at user_id old_path) top rows topped first) in
      let stays : f row ≡ row = ap (λ b. if b then top row else row) (not_top row r) in
      let goes : g row ≡ child row =
        ap (λ b. if b then child row else row) (below_top row literal u r) in
      let found = get_elem?-map g (map f rows) i (f row) (get_elem?-map f rows i row at_i) in
      (
        child row,
        ap (λ t. get_elem? t i) whole ∙ found ∙ ap (λ z. some z) (ap g stays ∙ goes),
        ap (λ z. sql.replace z old_path new_path) r
            ∙ all.0 b'/' name new_path old_path
            ∙ ap (λ z. new_path ++ z)
                (ap (λ z. sql.replace z old_path new_path) (sym (append_empty old_path))
                  ∙ all.0 b'/' name new_path []
                  ∙ ap (λ z. new_path ++ z) (all.1 old_path new_path)
                  ∙ append_empty new_path),
      )
