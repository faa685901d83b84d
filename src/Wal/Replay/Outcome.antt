-- ===== src/Wal/Replay/Outcome.antt =====
-- What `recover_one` of src/vfs/wal/mod.rs leaves in the journal.
use yh_filemanager_vfs_stora.Prelude.{
  ℕ, ◌≡◌, refl, ap, ◌⊎◌, inl, inr, true, Option, none, some, Result, ok, err, List, [], Bool-cases,
}
use yh_filemanager_vfs_stora.Prelude.Text.{Text}
use yh_filemanager_vfs_stora.Wal.Operation.{WalOperation}
use yh_filemanager_vfs_stora.Wal.Engine.{RecoveryEngine}
use yh_filemanager_vfs_stora.Wal.Status.{WalStatus, recovering, completed, failed, parse, is_active}
use yh_filemanager_vfs_stora.Wal.Journal.{
  WalRow, update_row, with_status, transition_operation, complete_operation, mark_recovering,
}
use yh_filemanager_vfs_stora.Wal.Journal.Rows.{update_row-update_row}
use yh_filemanager_vfs_stora.Wal.Replay.{
  RecoveryState, RecoveryContext, recover_one, recover_operation, settle,
}

pub Result-cases :
    {A : Type 0} (r : Result Text A) → ((a : A) × (r ≡ ok a)) ⊎ ((e : Text) × (r ≡ err e))
Result-cases (ok a) = inl (a, refl)
Result-cases (err e) = inr (e, refl)

overwrite :
    (id : ℕ) (s t : WalStatus) (u v : Option Text) (now : ℕ) (rows : List WalRow)
    → update_row id (with_status t v now) (update_row id (with_status s u now) rows)
      ≡ update_row id (with_status t v now) rows
overwrite id s t u v now rows =
    update_row-update_row id (with_status s u now) (with_status t v now) rows (λ r. refl)

locked-settle :
    {W : Type 0} (id : ℕ) (r : Result Text (Unit {0})) (s : RecoveryState W)
    → (settle id r s).1.locked ≡ s.locked
unfolding settle
locked-settle id (ok t) s = refl
locked-settle id (err e) s = refl

module _ {W : Type 0} (context : RecoveryContext W) where
  -- The row's operation, if its data can be read, and the engine of its user, if there is one.
  abbrev operation_of : WalRow → Result Text WalOperation
  operation_of row = context.decode row.operation_data

  abbrev opened : WalRow → RecoveryState W → Result Text (RecoveryEngine W) × W
  opened row s = context.create_recovery_engine row.user_id s.world

  -- What a row's recovery does: its operation is recovered and the row completed; or recovering
  -- the operation fails, and the row is failed with that error, which is returned; or the
  -- operation cannot be read or the engine not be made, whose error is returned while the row stays
  -- as being recovered, with no reason.
  pub data Settled (row : WalRow) (s : RecoveryState W) (r : Result Text (Unit {0}))
      (s' : RecoveryState W) : Type 0 where
    done :
        (op : WalOperation) (engine : RecoveryEngine W)
        → operation_of row ≡ ok op
        → (opened row s).0 ≡ ok engine
        → recover_operation engine op (parse row.status) (opened row s).1 ≡ (ok tt, s'.world)
        → r ≡ ok tt
        → s'.journal.rows
          ≡ update_row row.id (with_status completed none s.journal.clock) s.journal.rows
        → Settled row s r s'
    refused :
        (op : WalOperation) (engine : RecoveryEngine W) (e : Text)
        → operation_of row ≡ ok op
        → (opened row s).0 ≡ ok engine
        → recover_operation engine op (parse row.status) (opened row s).1 ≡ (err e, s'.world)
        → r ≡ err e
        → s'.journal.rows
          ≡ update_row row.id (with_status failed (some e) s.journal.clock) s.journal.rows
        → Settled row s r s'
    stuck :
        (e : Text)
        → (operation_of row ≡ err e) ⊎ ((opened row s).0 ≡ err e)
        → r ≡ err e
        → s'.journal.rows
          ≡ update_row row.id (with_status recovering none s.journal.clock) s.journal.rows
        → Settled row s r s'

  -- While the database answers, the recovery of an unfinished row completes it where its operation
  -- is recovered, marks it failed where that fails, and leaves it as being recovered only where the
  -- operation cannot be read or the engine not be made. The locks and the database's clock stay.
  pub recover_one-Settled :
      (row : WalRow) (s : RecoveryState W)
      → s.journal.faults ≡ []
      → is_active (parse row.status) ≡ true
      → let (r, s') = recover_one context row s in
        Settled row s r s'
        × (s'.locked ≡ s.locked)
        × (s'.journal.faults ≡ [])
        × (s'.journal.clock ≡ s.journal.clock)
  unfolding recover_one transition_operation complete_operation
  recover_one-Settled row s up active = elim (Result-cases (context.decode row.operation_data)) [
    | inr (e, d) ↦ rw (active, up, d, recover_one) (stuck e (inl d) refl refl, refl, refl, refl)
    | inl (op, d) ↦
        let w = s.world in
        let left : RecoveryEngine W → WalOperation → W = λ engine op.
          (recover_operation engine op (parse row.status)
            (context.create_recovery_engine row.user_id w).1).1 in
        elim (Result-cases (context.create_recovery_engine row.user_id w).0) [
          | inr (e, c) ↦
              rw (active, up, d, c, recover_one) (stuck e (inr c) refl refl, refl, refl, refl)
          | inl (engine, c) ↦
              elim (Result-cases
                (recover_operation engine op (parse row.status)
                  (context.create_recovery_engine row.user_id w).1).0) [
                    | inl (t, q) ↦
                        rw (active, up, d, c, q, recover_one)
                          (
                            done op engine d c (ap (λ z. (z, left engine op)) q) refl (
                                overwrite row.id recovering completed none none s.journal.clock
                                  s.journal.rows),
                            refl,
                            refl,
                            refl,
                          )
                    | inr (e, q) ↦
                        rw (active, up, d, c, q, recover_one)
                          (
                            refused op engine e d c (ap (λ z. (z, left engine op)) q) refl (
                                overwrite row.id recovering failed none (some e) s.journal.clock
                                  s.journal.rows),
                            refl,
                            refl,
                            refl,
                          )
                  ]
        ]
  ]

  -- A completed row is left alone: no call is made, and nothing changes.
  pub recover_one_completed :
      (row : WalRow) (s : RecoveryState W)
      → parse row.status ≡ completed
      → recover_one context row s ≡ (ok tt, s)
  unfolding recover_one
  recover_one_completed row s e = rw (e, recover_one)

  -- Whatever the database answers, recovering a row leaves the locks alone.
  pub locked-recover_one :
      (row : WalRow) (s : RecoveryState W) → (recover_one context row s).1.locked ≡ s.locked
  unfolding recover_one
  locked-recover_one row s = elim (Bool-cases (is_active (parse row.status))) [
    | inr e ↦ rw (e, recover_one)
    | inl e ↦ elim (Result-cases (mark_recovering row.id s.journal).0) [
      | inr (x, m) ↦ rw (e, m, recover_one)
      | inl (t, m) ↦ elim (Result-cases (context.decode row.operation_data)) [
        | inr (x, d) ↦ rw (e, m, d, recover_one)
        | inl (op, d) ↦ elim (Result-cases (context.create_recovery_engine row.user_id s.world).0) [
          | inr (x, c) ↦ rw (e, m, d, c, recover_one)
          | inl (engine, c) ↦ rw (e, m, d, c, recover_one) (locked-settle row.id _ _)
        ]
      ]
    ]
  ]
