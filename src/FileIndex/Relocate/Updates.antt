-- ===== src/FileIndex/Relocate/Updates.antt =====
-- src/business/services/file_index_service.rs: a loop of updates by key over rows that were read
-- before is one pass over the table.
use mathlib.Core.List.{append-nil}
use yh_filemanager_vfs_stora.Prelude.{
  ◌≡◌, refl, ap, ap₂, ◌∙◌, List, [], ◌∷◌, ◌++◌, map, Bool, true, false, ◌&&◌, ◌||◌, any, inl, inr,
  Bool-cases, ok, if◌then◌else◌, arith,
}
use yh_filemanager_vfs_stora.Prelude.Text.{Text, text_eq, text_eq_iff, text_eq_refl}
use yh_filemanager_vfs_stora.Prelude.Results.{bind-eq-ok}
use yh_filemanager_vfs_stora.FileIndex.{
  update_from, IndexedFile, same_key, filter, has_duplicates, checked, update_many, update_one,
}
use yh_filemanager_vfs_stora.FileIndex.Relocate.{update_each}

-- No two rows have one key.
unfoldable pub IsKeyed : List IndexedFile → Type 0
IsKeyed [] = Unit
IsKeyed (row ∷ rows) = (any (same_key row) rows ≡ false) × IsKeyed rows

pub checked-eq-ok : (rows left : List IndexedFile) → checked rows ≡ ok left → left ≡ rows
unfolding checked
checked-eq-ok rows left e = elim (Bool-cases (has_duplicates rows)) [
  | inl d ↦ absurd (cc (rw (d) at e))
  | inr d ↦ cc (rw (d) at e)
]

append_one :
    (rows : List IndexedFile) (row : IndexedFile) (later : List IndexedFile)
    → (rows ++ row ∷ []) ++ later ≡ rows ++ row ∷ later
append_one [] row later = refl
append_one (c ∷ rows) row later = ap (λ z. c ∷ z) (append_one rows row later)

update_from-eq-ok :
    (p : IndexedFile → Bool) (f : IndexedFile → IndexedFile) (updated rows left : List IndexedFile)
    → update_from p f updated rows ≡ ok left
    → left ≡ updated ++ map (λ row. if p row then f row else row) rows
unfolding update_from
update_from-eq-ok p f updated [] left e = cc (e, append-nil updated)
update_from-eq-ok p f updated (row ∷ later) left e = elim (Bool-cases (p row)) [
  | inl y ↦
      let (table, taken, rest) =
        bind-eq-ok (checked (updated ++ f row ∷ later))
          (λ _. update_from p f (updated ++ f row ∷ []) later) (rw (y) at e) in
      rw (y) (
        update_from-eq-ok p f (updated ++ f row ∷ []) later left rest
        ∙ append_one updated (f row) (map (λ r. if p r then f r else r) later))
  | inr n ↦ rw (n) (
      update_from-eq-ok p f (updated ++ row ∷ []) later left (rw (n) at e)
      ∙ append_one updated row (map (λ r. if p r then f r else r) later))
]

pub update_many-eq-ok :
    (p : IndexedFile → Bool) (f : IndexedFile → IndexedFile) (rows left : List IndexedFile)
    → update_many p f rows ≡ ok left
    → left ≡ map (λ row. if p row then f row else row) rows
unfolding update_many
update_many-eq-ok p f rows left e = update_from-eq-ok p f [] rows left e

pub map-map :
    (f g : IndexedFile → IndexedFile) (rows : List IndexedFile)
    → map f (map g rows) ≡ map (λ row. f (g row)) rows
map-map f g [] = refl
map-map f g (row ∷ rows) = ap (λ rest. f (g row) ∷ rest) (map-map f g rows)

pub map_agree :
    (f g : IndexedFile → IndexedFile) (rows : List IndexedFile)
    → ((row : IndexedFile) → f row ≡ g row)
    → map f rows ≡ map g rows
map_agree f g [] h = refl
map_agree f g (row ∷ rows) h = ap₂ (λ r rest. r ∷ rest) (h row) (map_agree f g rows h)

map_identity : (rows : List IndexedFile) → map (λ row. row) rows ≡ rows
map_identity [] = refl
map_identity (row ∷ rows) = ap (λ rest. row ∷ rest) (map_identity rows)

-- What the updates of the loop make of a row.
abbrev pub updates :
    (IndexedFile → IndexedFile → IndexedFile) → List IndexedFile → IndexedFile → IndexedFile
updates f [] row = row
updates f (c ∷ later) row = updates f later (if same_key c row then f c row else row)

pub update_each-eq-ok :
    (f : IndexedFile → IndexedFile → IndexedFile) (found rows left : List IndexedFile)
    → update_each f found rows ≡ ok left
    → left ≡ map (updates f found) rows
unfolding update_each update_one
update_each-eq-ok f [] rows left e = cc (e, map_identity rows)
update_each-eq-ok f (c ∷ later) rows left e =
    let (updated, first, rest) =
      bind-eq-ok (update_many (same_key c) (f c) rows) (update_each f later) e in
    update_each-eq-ok f later updated left rest
    ∙ ap (map (updates f later)) (update_many-eq-ok (same_key c) (f c) rows updated first)
    ∙ map-map (updates f later) (λ row. if same_key c row then f c row else row) rows

text_eq_sym : (s t : Text) → text_eq s t ≡ text_eq t s
text_eq_sym s t = ground (arith, text_eq_iff s t, text_eq_iff t s)

pub same_key_sym : (a b : IndexedFile) → same_key a b ≡ same_key b a
same_key_sym a b = ap₂ ◌&&◌ (text_eq_sym a.id b.id) (text_eq_sym a.user_id b.user_id)

pub same_key_refl : (a : IndexedFile) → same_key a a ≡ true
same_key_refl a = rw (text_eq_refl a.id, text_eq_refl a.user_id) refl

module _ (f : IndexedFile → IndexedFile → IndexedFile)
    (keeps_id : (c row : IndexedFile) → (f c row).id ≡ row.id)
    (keeps_user : (c row : IndexedFile) → (f c row).user_id ≡ row.user_id)
    (p : IndexedFile → Bool) where
  -- What the first row that was read does.
  abbrev first_update : IndexedFile → IndexedFile → IndexedFile
  first_update c row = if p c then (if same_key c row then f c row else row) else row

  updates_step :
      (c : IndexedFile) (rows : List IndexedFile) (row : IndexedFile)
      → updates f (filter p (c ∷ rows)) row ≡ updates f (filter p rows) (first_update c row)
  updates_step c rows row = elim (Bool-cases (p c)) [ inl e ↦ rw (e) refl | inr e ↦ rw (e) refl ]

  first_update_other : (c row : IndexedFile) → same_key c row ≡ false → first_update c row ≡ row
  first_update_other c row h = elim (Bool-cases (p c)) [
    | inl e ↦ rw (e, h) refl
    | inr e ↦ rw (e) refl
  ]

  first_update_same : (c : IndexedFile) → first_update c c ≡ (if p c then f c c else c)
  first_update_same c = ap (λ b. if p c then (if b then f c c else c) else c) (same_key_refl c)

  updates_absent :
      (rows : List IndexedFile) (row : IndexedFile)
      → any (same_key row) rows ≡ false
      → updates f (filter p rows) row ≡ row
  updates_absent [] row h = refl
  updates_absent (c ∷ rows) row h =
      let s = same_key_sym c row in
      let absent : same_key row c ≡ false = ground (arith, h) in
      updates_step c rows row
      ∙ ap (updates f (filter p rows)) (first_update_other c row (s ∙ absent))
      ∙ updates_absent rows row (ground (arith, h))

  updates_cons :
      (c : IndexedFile) (rows tested : List IndexedFile)
      → any (same_key c) tested ≡ false
      → map (updates f (filter p (c ∷ rows))) tested ≡ map (updates f (filter p rows)) tested
  updates_cons c rows [] h = refl
  updates_cons c rows (row ∷ tested) h =
      ap₂ (λ r rest. r ∷ rest)
        (updates_step c rows row
          ∙ ap (updates f (filter p rows)) (first_update_other c row (ground (arith, h))))
        (updates_cons c rows tested (ground (arith, h)))

  key_kept :
      (c : IndexedFile) (rows : List IndexedFile)
      → any (same_key c) rows ≡ false
      → any (same_key (if p c then f c c else c)) rows ≡ false
  key_kept c rows h = elim (Bool-cases (p c)) [
    | inl e ↦ rw (e) (
        ap₂ (λ i u. any (λ r. text_eq i r.id && text_eq u r.user_id) rows) (keeps_id c c)
          (keeps_user c c)
        ∙ h)
    | inr e ↦ rw (e) h
  ]

  pub updates-filter :
      (rows : List IndexedFile)
      → IsKeyed rows
      → map (updates f (filter p rows)) rows ≡ map (λ row. if p row then f row row else row) rows
  unfolding IsKeyed
  updates-filter [] h = refl
  updates-filter (c ∷ rows) h =
      ap₂ (λ r rest. r ∷ rest)
        (updates_step c rows c
          ∙ ap (updates f (filter p rows)) (first_update_same c)
          ∙ updates_absent rows (if p c then f c c else c) (key_kept c rows h.0))
        (updates_cons c rows rows h.0 ∙ updates-filter rows h.1)

pub map-IsKeyed :
    (f : IndexedFile → IndexedFile)
    → ((row : IndexedFile) → (f row).id ≡ row.id)
    → ((row : IndexedFile) → (f row).user_id ≡ row.user_id)
    → (rows : List IndexedFile) → IsKeyed rows
    → IsKeyed (map f rows)
unfolding IsKeyed
map-IsKeyed f i u [] h = tt
map-IsKeyed f i u (c ∷ rows) h = (any_kept rows h.0, map-IsKeyed f i u rows h.1)
  where
    any_kept :
        (tested : List IndexedFile)
        → any (same_key c) tested ≡ false
        → any (same_key (f c)) (map f tested) ≡ false
    any_kept [] e = refl
    any_kept (row ∷ tested) e =
        let k : same_key (f c) (f row) ≡ same_key c row =
          ap₂ ◌&&◌ (ap₂ text_eq (i c) (i row)) (ap₂ text_eq (u c) (u row)) in
        ap₂ ◌||◌ k (any_kept tested (ground (arith, e))) ∙ ground (arith, e)

pub filter-map :
    (p : IndexedFile → Bool) (f : IndexedFile → IndexedFile)
    → ((row : IndexedFile) → p (f row) ≡ p row)
    → ((row : IndexedFile) → p row ≡ true → f row ≡ row)
    → (rows : List IndexedFile) → filter p (map f rows) ≡ filter p rows
filter-map p f same kept [] = refl
filter-map p f same kept (c ∷ rows) =
    let rest = filter-map p f same kept rows in
    elim (Bool-cases (p c)) [
      | inl e ↦ rw (same c, e, kept c e, rest) refl
      | inr e ↦ rw (same c, e, rest) refl
    ]
