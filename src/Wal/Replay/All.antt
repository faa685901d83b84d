-- ===== src/Wal/Replay/All.antt =====
-- `recover_all` of src/vfs/wal/mod.rs: the counts of its report, and the locks that it leaves.
use yh_filemanager_vfs_stora.Prelude.{
  suc, ◌+◌, ◌≡◌, refl, ◌∙◌, ap, Bool, true, false, not, ◌&&◌, ◌||◌, Result, ok, err, List, [], ◌∷◌,
  any, length, length-append, arith,
}
use yh_filemanager_vfs_stora.Prelude.Text.{Text, text_eq, text_eq_iff}
use yh_filemanager_vfs_stora.Maintenance.{
  LockedUsers, is_user_under_maintenance, enter_user_maintenance, exit_user_maintenance,
  locked-enter, locked-exit,
}
use yh_filemanager_vfs_stora.Wal.Journal.{WalRow}
use yh_filemanager_vfs_stora.Wal.Replay.{
  RecoveryState, RecoveryContext, WalRecoveryResult, recover_one, recover_rows, recover_found,
  recover_all, count, insert_by_id, unfinished, users_of, lock_all, unlock_all,
}
use yh_filemanager_vfs_stora.Wal.Replay.Outcome.{locked-recover_one}

-- Locking and unlocking a list of users.
locked-lock_all :
    (user : Text) (users : List Text) (locked : LockedUsers)
    → is_user_under_maintenance user (lock_all users locked)
      ≡ (any (λ u. text_eq u user) users || is_user_under_maintenance user locked)
unfolding lock_all
locked-lock_all user [] locked = refl
locked-lock_all user (u ∷ us) locked =
    ground
      (arith, locked-lock_all user us (enter_user_maintenance u locked), locked-enter u user locked)

locked-unlock_all :
    (user : Text) (users : List Text) (locked : LockedUsers)
    → is_user_under_maintenance user (unlock_all users locked)
      ≡ (not (any (λ u. text_eq u user) users) && is_user_under_maintenance user locked)
unfolding unlock_all
locked-unlock_all user [] locked = refl
locked-unlock_all user (u ∷ us) locked =
    ground
      (arith, locked-unlock_all user us (exit_user_maintenance u locked), locked-exit u user locked)

-- The users are those of the rows.
pub owns : Text → List WalRow → Bool
owns user = any (λ r. text_eq r.user_id user)

any-users_of :
    (user : Text) (rows : List WalRow) → any (λ u. text_eq u user) (users_of rows) ≡ owns user rows
unfolding users_of owns
any-users_of user [] = refl
any-users_of user (r ∷ rs) =
    ground (arith, any-users_of user rs, any-users_of r.user_id rs, text_eq_iff r.user_id user)

length-insert_by_id :
    (row : WalRow) (rows : List WalRow) → length (insert_by_id row rows) ≡ suc (length rows)
unfolding insert_by_id
length-insert_by_id row [] = refl
length-insert_by_id row (r ∷ rs) = ground (arith, length-insert_by_id row rs)

count-count :
    (row : WalRow) (r : Result Text (Unit {0})) (acc : WalRecoveryResult)
    → ((count row r acc).recovered + (count row r acc).failed ≡ acc.recovered + acc.failed + 1)
      × (length (count row r acc).errors + acc.failed
          ≡ length acc.errors + (count row r acc).failed)
      × ((count row r acc).affected_users ≡ acc.affected_users)
unfolding count
count-count row (ok t) acc = (omega arith, omega arith, refl)
count-count row (err e) acc =
    (omega arith, omega (arith, length-append acc.errors ((row.id, e) ∷ [])), refl)

module _ {W : Type 0} (context : RecoveryContext W) where
  recover_rows-count :
      (rows : List WalRow) (acc : WalRecoveryResult) (s : RecoveryState W)
      → let result = (recover_rows context rows acc s).0 in
        (result.recovered + result.failed ≡ acc.recovered + acc.failed + length rows)
        × (length result.errors + acc.failed ≡ length acc.errors + result.failed)
        × (result.affected_users ≡ acc.affected_users)
  unfolding recover_rows
  recover_rows-count [] acc s = (omega arith, refl, refl)
  recover_rows-count (row ∷ rows) acc s =
      let r = (recover_one context row s).0 in
      let ih = recover_rows-count rows (count row r acc) (recover_one context row s).1 in
      let step = count-count row r acc in
      (omega (arith, ih, step), omega (arith, ih, step), ih.2 ∙ step.2)

  locked-recover_rows :
      (rows : List WalRow) (acc : WalRecoveryResult) (s : RecoveryState W)
      → (recover_rows context rows acc s).1.locked ≡ s.locked
  unfolding recover_rows
  locked-recover_rows [] acc s = refl
  locked-recover_rows (row ∷ rows) acc s =
      locked-recover_rows rows (count row (recover_one context row s).0 acc)
        (recover_one context row s).1
      ∙ locked-recover_one context row s

  -- What `recover_found` reports of the rows, and the locks that it leaves.
  pub record Reported (rows : List WalRow) (locked : LockedUsers) (result : WalRecoveryResult)
      (s' : RecoveryState W) : Type 0 where
    pub counted : result.recovered + result.failed ≡ length rows
    pub explained : length result.errors ≡ result.failed
    pub named : (user : Text) → any (λ u. text_eq u user) result.affected_users ≡ owns user rows
    pub unlocked :
        (user : Text)
        → is_user_under_maintenance user s'.locked
          ≡ (not (owns user rows) && is_user_under_maintenance user locked)

  -- The answer of a recovery: a report, or an error that has changed neither the rows nor the
  -- files nor the locks.
  abbrev pub Answers :
      List WalRow
      → List WalRow
      → W
      → LockedUsers
      → Result Text WalRecoveryResult × RecoveryState W
      → Type 0
  Answers found rows world locked (ok result, s') = Reported found locked result s'
  Answers found rows world locked (err e, s') =
      (s'.journal.rows ≡ rows) × (s'.world ≡ world) × (s'.locked ≡ locked)

  recover_found-Answers :
      (rows : List WalRow) (s : RecoveryState W)
      → Answers rows s.journal.rows s.world s.locked (recover_found context rows s)
  unfolding recover_found
  recover_found-Answers [] s = record {
    counted = omega arith;
    explained = refl;
    named = λ user. unfold owns in refl;
    unlocked = λ user. unfold owns in refl;
  }
  recover_found-Answers (row ∷ rows) s =
      let users = users_of (row ∷ rows) in
      let started : RecoveryState W = record s { locked = lock_all users s.locked } in
      let empty : WalRecoveryResult = record {
        recovered = 0;
        failed = 0;
        errors = [];
        affected_users = users;
      } in
      let counts = recover_rows-count (row ∷ rows) empty started in
      record {
        counted = omega (arith, counts);
        explained = omega (arith, counts);
        named = λ user. ap (any (λ u. text_eq u user)) counts.2 ∙ any-users_of user (row ∷ rows);
        unlocked = λ user. ground (
          arith,
          locked-unlock_all user users (recover_rows context (row ∷ rows) empty started).1.locked,
          locked-recover_rows (row ∷ rows) empty started,
          locked-lock_all user users s.locked,
          any-users_of user (row ∷ rows),
        );
      }

  -- A recovery of everything reports as many recovered and failed rows as there were unfinished
  -- ones, one error for each failed row, and the owners of the rows as the affected users. In the
  -- end no owner is locked, and the other users are as they were. If the query fails, the rows, the files and the locks are as they were.
  pub recover_all-Answers :
      (s : RecoveryState W)
      → Answers (unfinished s.journal.rows) s.journal.rows s.world s.locked (recover_all context s)
  unfolding recover_all
  recover_all-Answers s = query s.journal.faults refl
    where
      query :
          (fs : List Bool)
          → s.journal.faults ≡ fs
          → Answers
              (unfinished s.journal.rows)
              s.journal.rows
              s.world
              s.locked
              (recover_all context s)
      query [] e = rw (e, recover_all) (recover_found-Answers (unfinished s.journal.rows) _)
      query (true ∷ fs) e = rw (e, recover_all) (refl, refl, refl)
      query (false ∷ fs) e =
          rw (e, recover_all)
            (recover_found-Answers (unfinished s.journal.rows)
              (record s { journal = record s.journal { faults = fs } }))
