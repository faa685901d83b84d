-- ===== src/Wal/Replay/Errors.antt =====
-- `recover_all` of src/vfs/wal/mod.rs: what is left of the journal is in its report.
use mathlib.Core.List.{append-nil}
use yh_filemanager_vfs_stora.Prelude.{
  ℕ, ◌+◌, ◌≡◌, refl, ◌∙◌, sym, ap, subst, inl, inr, true, ◌||◌, Option, none, some, Result, ok, err,
  List, [], ◌∷◌, ◌++◌, map, any, length, ◌==◌, arith, Bool-cases,
}
use yh_filemanager_vfs_stora.Prelude.Text.{Text}
use yh_filemanager_vfs_stora.Wal.Status.{WalStatus, recovering, failed}
use yh_filemanager_vfs_stora.Wal.Journal.{WalRow, update_row, with_status}
use yh_filemanager_vfs_stora.Wal.Replay.{
  RecoveryState, RecoveryContext, WalRecoveryResult, recover_one, recover_rows, recover_found,
  recover_all, count, unfinished, users_of, lock_all,
}
use yh_filemanager_vfs_stora.Wal.Replay.Outcome.{done, refused, stuck, recover_one-Settled}
use yh_filemanager_vfs_stora.Wal.Replay.All.{Answers, recover_all-Answers}
use yh_filemanager_vfs_stora.Wal.Replay.Completion.{
  Left, Left-weaken, Left-complete, Left-unfinished, ids_of, AllActive, AllActive-unfinished,
  HasStatuses,
}

-- The rows that a report has an error of.
abbrev pub reported : List (ℕ × Text) → List ℕ
reported = map (λ e. e.0)

Left-update :
    (id : ℕ) (ids : List ℕ) (st : WalStatus) (reason : Option Text) (now : ℕ) (rows : List WalRow)
    → any (λ i. i == id) ids ≡ true
    → Left ids rows
    → Left ids (update_row id (with_status st reason now) rows)
unfolding update_row
Left-update id ids st reason now [] m h = tt
Left-update id ids st reason now (r ∷ rs) m h = elim (Bool-cases (r.id == id)) [
  | inl e ↦
      let same : r.id ≡ id = ground (arith, e) in
      rw e
        (inr (ap (λ n. any (λ i. i == n) ids) same ∙ m), Left-update id ids st reason now rs m h.1)
  | inr e ↦ rw e (h.0, Left-update id ids st reason now rs m h.1)
]

any-reported :
    (n id : ℕ) (e : Text) (ids : List ℕ) (errors : List (ℕ × Text))
    → any (λ i. i == n) (ids ++ reported (errors ++ (id, e) ∷ []))
      ≡ ((id == n) || any (λ i. i == n) (ids ++ reported errors))
any-reported n id e [] [] = refl
any-reported n id e [] (x ∷ errors) = ground (arith, any-reported n id e [] errors)
any-reported n id e (i ∷ ids) errors = ground (arith, any-reported n id e ids errors)

abbrev errors_of : Result Text WalRecoveryResult → List (ℕ × Text)
errors_of (ok result) = result.errors
errors_of (err e) = []

module _ {W : Type 0} (context : RecoveryContext W) where
  -- A row whose recovery has failed is named from then on.
  named :
      (row : WalRow) (r : Result Text (Unit {0})) (e : Text) (ids : List ℕ)
      (acc : WalRecoveryResult) (st : WalStatus) (reason : Option Text) (now : ℕ)
      (rows after : List WalRow)
      → r ≡ err e
      → after ≡ update_row row.id (with_status st reason now) rows
      → Left (row.id ∷ (ids ++ reported acc.errors)) rows
      → Left (ids ++ reported (count row r acc).errors) after
  unfolding count
  named row r e ids acc st reason now rows after failed_ same h =
      rw (failed_, same)
        (Left-weaken (row.id ∷ (ids ++ reported acc.errors))
          (ids ++ reported (acc.errors ++ (row.id, e) ∷ []))
          (update_row row.id (with_status st reason now) rows)
          (λ n m. any-reported n row.id e ids acc.errors ∙ m)
          (Left-update row.id (row.id ∷ (ids ++ reported acc.errors)) st reason now rows
            (ground arith) h))

  recover_rows-Left :
      (rows : List WalRow) (acc : WalRecoveryResult) (s : RecoveryState W)
      → AllActive rows
      → s.journal.faults ≡ []
      → Left (ids_of rows ++ reported acc.errors) s.journal.rows
      → let (result, s') = recover_rows context rows acc s in
        Left (reported result.errors) s'.journal.rows
  unfolding recover_rows count
  recover_rows-Left [] acc s a up h = h
  recover_rows-Left (row ∷ rows) acc s a up h =
      let r = (recover_one context row s).0 in
      let s' = (recover_one context row s).1 in
      let out = recover_one-Settled context row s up a.0 in
      recover_rows-Left rows (count row r acc) s' a.1 out.2 (elim out.0 [
        | done op engine d o w e same ↦
            rw (e, same)
              (Left-complete row.id (ids_of rows ++ reported acc.errors) s.journal.clock
                s.journal.rows h)
        | refused op engine x d o w e same ↦
            named row r x (ids_of rows) acc failed (some x) s.journal.clock s.journal.rows
              s'.journal.rows e same h
        | stuck x why e same ↦
            named row r x (ids_of rows) acc recovering none s.journal.clock s.journal.rows
              s'.journal.rows e same h
      ])

  recover_found-Left :
      (rows : List WalRow) (s : RecoveryState W) (result : WalRecoveryResult) (s' : RecoveryState W)
      → AllActive rows
      → s.journal.faults ≡ []
      → Left (ids_of rows) s.journal.rows
      → recover_found context rows s ≡ (ok result, s')
      → Left (reported result.errors) s'.journal.rows
  unfolding recover_found
  recover_found-Left [] s result s' a up h e =
      subst (λ p. Left (reported (errors_of p.0)) p.1.journal.rows) e h
  recover_found-Left (row ∷ rows) s result s' a up h e =
      let users = users_of (row ∷ rows) in
      let started : RecoveryState W = record s { locked = lock_all users s.locked } in
      let empty : WalRecoveryResult = record {
        recovered = 0;
        failed = 0;
        errors = [];
        affected_users = users;
      } in
      subst (λ p. Left (reported (errors_of p.0)) p.1.journal.rows) e
        (recover_rows-Left (row ∷ rows) empty started a up
          (subst (λ ids. Left ids s.journal.rows) (sym (append-nil (ids_of (row ∷ rows)))) h))

  -- If the database answers and every status is one that the manager writes, then after a recovery
  -- each row of the journal is completed, or the report has an error of it. The report counts as
  -- many recovered and failed rows as were unfinished, and as many errors as failed rows.
  pub recover_all_accounts :
      (s : RecoveryState W) (result : WalRecoveryResult) (s' : RecoveryState W)
      → s.journal.faults ≡ []
      → HasStatuses s.journal.rows
      → recover_all context s ≡ (ok result, s')
      → Left (reported result.errors) s'.journal.rows
        × (result.recovered + result.failed ≡ length (unfinished s.journal.rows))
        × (length result.errors ≡ result.failed)
  unfolding recover_all
  recover_all_accounts s result s' up known e =
      let answers =
        subst (Answers context (unfinished s.journal.rows) s.journal.rows s.world s.locked) e
          (recover_all-Answers context s) in
      (
        recover_found-Left (unfinished s.journal.rows)
            (record s { journal = record s.journal { faults = [] } }) result s'
            (AllActive-unfinished s.journal.rows known) refl (Left-unfinished s.journal.rows)
            (rw (up, recover_all) at e),
        answers.counted,
        answers.explained,
      )
