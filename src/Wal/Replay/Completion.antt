-- ===== src/Wal/Replay/Completion.antt =====
-- A recovery without failures (`recover_all` of src/vfs/wal/mod.rs) completes the whole journal.
use yh_filemanager_vfs_stora.Prelude.{
  ℕ, ◌+◌, ◌≤◌, ◌≡◌, refl, ◌∙◌, sym, ap, ◌⊎◌, inl, inr, true, ◌&&◌, ◌||◌, none, Result, ok, err,
  List, [], ◌∷◌, map, All, any, leb, ◌==◌, arith, Bool-cases,
}
use yh_filemanager_vfs_stora.Prelude.Text.{Text, text_eq_iff}
use yh_filemanager_vfs_stora.Wal.Status.{
  WalStatus, pending, recovering, physical_done, metadata_done, completed, failed, as_str, parse,
  parse-as_str, is_active,
}
use yh_filemanager_vfs_stora.Wal.Journal.{WalRow, update_row, with_status}
use yh_filemanager_vfs_stora.Wal.Replay.{
  RecoveryState, RecoveryContext, WalRecoveryResult, recover_one, recover_rows, recover_found,
  recover_all, count, is_unfinished, insert_by_id, unfinished, users_of, lock_all,
}
use yh_filemanager_vfs_stora.Wal.Replay.Outcome.{done, refused, stuck, recover_one-Settled}

-- Every row is completed, or its id is still to be done.
abbrev pub Left : List ℕ → List WalRow → Type 0
Left ids = All (λ r. (r.status ≡ as_str completed) ⊎ (any (λ i. i == r.id) ids ≡ true))

abbrev pub ids_of : List WalRow → List ℕ
ids_of = map (λ r. r.id)

-- Every status is one that the manager writes.
abbrev pub HasStatuses : List WalRow → Type 0
HasStatuses = All (λ r. (st : WalStatus) × (r.status ≡ as_str st))

pub Left-weaken :
    (ids ids' : List ℕ) (rows : List WalRow)
    → ((n : ℕ) → any (λ i. i == n) ids ≡ true → any (λ i. i == n) ids' ≡ true)
    → Left ids rows
    → Left ids' rows
Left-weaken ids ids' [] sub h = tt
Left-weaken ids ids' (r ∷ rs) sub (inl c, h) = (inl c, Left-weaken ids ids' rs sub h)
Left-weaken ids ids' (r ∷ rs) sub (inr m, h) = (inr (sub r.id m), Left-weaken ids ids' rs sub h)

pub Left-complete :
    (id : ℕ) (ids : List ℕ) (now : ℕ) (rows : List WalRow)
    → Left (id ∷ ids) rows
    → Left ids (update_row id (with_status completed none now) rows)
unfolding update_row
Left-complete id ids now [] h = tt
Left-complete id ids now (r ∷ rs) h = elim (Bool-cases (r.id == id)) [
  | inl e ↦ rw e (inl refl, Left-complete id ids now rs h.1)
  | inr e ↦ rw e (elim h.0 [
    | inl c ↦ (inl c, Left-complete id ids now rs h.1)
    | inr m ↦ (inr (ground arith), Left-complete id ids now rs h.1)
  ])
]

any-insert_by_id :
    (n : ℕ) (row : WalRow) (rows : List WalRow)
    → any (λ i. i == n) (ids_of (insert_by_id row rows))
      ≡ ((row.id == n) || any (λ i. i == n) (ids_of rows))
unfolding insert_by_id
any-insert_by_id n row [] = refl
any-insert_by_id n row (r ∷ rs) = ground (arith, any-insert_by_id n row rs)

any-unfinished :
    (n : ℕ) (r : WalRow) (rows : List WalRow)
    → any (λ i. i == n) (ids_of (unfinished (r ∷ rows)))
      ≡ ((is_unfinished r && (r.id == n)) || any (λ i. i == n) (ids_of (unfinished rows)))
unfolding unfinished
any-unfinished n r rows = ground (arith, any-insert_by_id n r (unfinished rows))

pub Left-unfinished : (rows : List WalRow) → Left (ids_of (unfinished rows)) rows
Left-unfinished [] = tt
Left-unfinished (r ∷ rs) = (
  elim (Bool-cases (is_unfinished r)) [
    | inl e ↦ inr (ground (arith, any-unfinished r.id r rs))
    | inr e ↦ inl (unfold is_unfinished in ground (arith, text_eq_iff r.status (as_str completed)))
  ],
  Left-weaken (ids_of (unfinished rs)) (ids_of (unfinished (r ∷ rs))) rs
      (λ n m. ground (arith, any-unfinished n r rs)) (Left-unfinished rs),
)

-- An unfinished row of a journal with known statuses is active.
abbrev pub AllActive : List WalRow → Type 0
AllActive = All (λ r. is_active (parse r.status) ≡ true)

AllActive-insert_by_id :
    (row : WalRow) (rows : List WalRow)
    → is_active (parse row.status) ≡ true
    → AllActive rows
    → AllActive (insert_by_id row rows)
unfolding insert_by_id
AllActive-insert_by_id row [] a h = (a, tt)
AllActive-insert_by_id row (r ∷ rs) a h = elim (Bool-cases (leb row.id r.id)) [
  | inl e ↦ rw e (a, h)
  | inr e ↦ rw e (h.0, AllActive-insert_by_id row rs a h.1)
]

active_of_unfinished :
    (r : WalRow) (st : WalStatus)
    → r.status ≡ as_str st
    → is_unfinished r ≡ true
    → is_active (parse r.status) ≡ true
unfolding is_unfinished
active_of_unfinished r pending e u = rw (e, parse-as_str pending)
active_of_unfinished r recovering e u = rw (e, parse-as_str recovering)
active_of_unfinished r physical_done e u = rw (e, parse-as_str physical_done)
active_of_unfinished r metadata_done e u = rw (e, parse-as_str metadata_done)
active_of_unfinished r completed e u =
    absurd (ground (arith, text_eq_iff r.status (as_str completed)))
active_of_unfinished r failed e u = rw (e, parse-as_str failed)

pub AllActive-unfinished : (rows : List WalRow) → HasStatuses rows → AllActive (unfinished rows)
unfolding unfinished
AllActive-unfinished [] h = tt
AllActive-unfinished (r ∷ rs) h = elim (Bool-cases (is_unfinished r)) [
  | inl e ↦ rw e (
      AllActive-insert_by_id r (unfinished rs) (active_of_unfinished r h.0.0 h.0.1 e)
        (AllActive-unfinished rs h.1))
  | inr e ↦ rw e (AllActive-unfinished rs h.1)
]

count-le :
    (row : WalRow) (r : Result Text (Unit {0})) (acc : WalRecoveryResult)
    → acc.failed ≤ (count row r acc).failed
unfolding count
count-le row (ok t) acc = omega arith
count-le row (err e) acc = omega arith

count_err :
    (row : WalRow) (r : Result Text (Unit {0})) (e : Text) (acc : WalRecoveryResult)
    → r ≡ err e
    → (count row r acc).failed ≡ acc.failed + 1
unfolding count
count_err row r e acc h = rw h

count_ok :
    (row : WalRow) (r : Result Text (Unit {0})) (acc : WalRecoveryResult)
    → r ≡ ok tt
    → (count row r acc).failed ≡ acc.failed
unfolding count
count_ok row r acc h = rw h

-- Every row of the journal is completed.
abbrev pub AllCompleted : List WalRow → Type 0
AllCompleted = All (λ r. r.status ≡ as_str completed)

AllCompleted-of_Left : (rows : List WalRow) → Left [] rows → AllCompleted rows
AllCompleted-of_Left [] h = tt
AllCompleted-of_Left (r ∷ rs) (inl c, h) = (c, AllCompleted-of_Left rs h)
AllCompleted-of_Left (r ∷ rs) (inr m, h) = absurd (cc)

abbrev failed_of : Result Text WalRecoveryResult → ℕ
failed_of (ok result) = result.failed
failed_of (err e) = 0

module _ {W : Type 0} (context : RecoveryContext W) where
  failed-le :
      (rows : List WalRow) (acc : WalRecoveryResult) (s : RecoveryState W)
      → acc.failed ≤ (recover_rows context rows acc s).0.failed
  unfolding recover_rows
  failed-le [] acc s = omega arith
  failed-le (row ∷ rows) acc s =
      let r = (recover_one context row s).0 in
      omega
        (arith, count-le row r acc, failed-le rows (count row r acc) (recover_one context row s).1)

  recover_rows-Left :
      (rows : List WalRow) (acc : WalRecoveryResult) (s : RecoveryState W)
      → AllActive rows
      → s.journal.faults ≡ []
      → (recover_rows context rows acc s).0.failed ≡ acc.failed
      → Left (ids_of rows) s.journal.rows
      → Left [] (recover_rows context rows acc s).1.journal.rows
  unfolding recover_rows
  recover_rows-Left [] acc s a up none_failed h = h
  recover_rows-Left (row ∷ rows) acc s a up none_failed h =
      let r = (recover_one context row s).0 in
      let s' = (recover_one context row s).1 in
      let out = recover_one-Settled context row s up a.0 in
      let more = failed-le rows (count row r acc) s' in
      elim out.0 [
        | done op engine d o w e rows_eq ↦
            recover_rows-Left rows (count row r acc) s' a.1 out.2
              (none_failed ∙ sym (count_ok row r acc e))
              (rw rows_eq (Left-complete row.id (ids_of rows) s.journal.clock s.journal.rows h))
        | refused op engine x d o w e rows_eq ↦
            absurd (omega (arith, none_failed, more, count_err row r x acc e))
        | stuck x why e rows_eq ↦ absurd (omega (arith, none_failed, more, count_err row r x acc e))
      ]

  recover_found-Left :
      (rows : List WalRow) (s : RecoveryState W) (result : WalRecoveryResult) (s' : RecoveryState W)
      → AllActive rows
      → s.journal.faults ≡ []
      → Left (ids_of rows) s.journal.rows
      → recover_found context rows s ≡ (ok result, s')
      → result.failed ≡ 0
      → Left [] s'.journal.rows
  unfolding recover_found
  recover_found-Left [] s result s' a up h e none_failed =
      let same : s.journal.rows ≡ s'.journal.rows = ground (arith, e) in rw (← same) h
  recover_found-Left (row ∷ rows) s result s' a up h e none_failed =
      let users = users_of (row ∷ rows) in
      let started : RecoveryState W = record s { locked = lock_all users s.locked } in
      let empty : WalRecoveryResult = record {
        recovered = 0;
        failed = 0;
        errors = [];
        affected_users = users;
      } in
      let same : (recover_rows context (row ∷ rows) empty started).1.journal.rows
          ≡ s'.journal.rows =
        ap (λ p. p.1.journal.rows) e in
      rw (← same) (
        recover_rows-Left (row ∷ rows) empty started a up (ap (λ p. failed_of p.0) e ∙ none_failed)
          h)

  -- If the database answers, every status is one that the manager writes, and the recovery reports
  -- no failed row, then every row of the journal is completed.
  pub recover_all_completes :
      (s : RecoveryState W) (result : WalRecoveryResult) (s' : RecoveryState W)
      → s.journal.faults ≡ []
      → HasStatuses s.journal.rows
      → recover_all context s ≡ (ok result, s')
      → result.failed ≡ 0
      → AllCompleted s'.journal.rows
  unfolding recover_all
  recover_all_completes s result s' up known e none_failed = AllCompleted-of_Left s'.journal.rows (
      recover_found-Left (unfinished s.journal.rows)
        (record s { journal = record s.journal { faults = [] } }) result s'
        (AllActive-unfinished s.journal.rows known) refl (Left-unfinished s.journal.rows)
        (rw (up, recover_all) at e) none_failed)
