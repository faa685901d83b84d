-- ===== src/Wal/Replay.antt =====
-- `recover_one`, `replay_issue` and `recover_all` of src/vfs/wal/mod.rs. Reading an operation from
-- its JSON (`decode`), the routing to a pool (src/vfs/hub.rs) and the recalibration of the used
-- storage are parameters.
pub mod Outcome
pub mod All
pub mod Completion
pub mod Errors
use yh_filemanager_vfs_stora.Prelude.{
  ℕ, suc, ◌+◌, Bool, true, false, not, Option, none, some, Result, ok, err, List, [], ◌∷◌, ◌++◌,
  any, leb, ◌==◌, if◌then◌else◌,
}
use yh_filemanager_vfs_stora.Prelude.Text.{Text, codes, text_eq}
use yh_filemanager_vfs_stora.Maintenance.{LockedUsers, enter_user_maintenance, drop_guard}
use yh_filemanager_vfs_stora.Wal.Io.{Io, ◌>>=◌, ◌>>◌, pure, raise, continue}
use yh_filemanager_vfs_stora.Wal.Engine.{RecoveryEngine}
use yh_filemanager_vfs_stora.Wal.Operation.{
  WalOperation, write, delete, copy, move, rename, move_to_trash, create_dir, restore_trash,
}
use yh_filemanager_vfs_stora.Wal.Status.{WalStatus, completed, as_str, parse, is_active}
use yh_filemanager_vfs_stora.Wal.Journal.{
  Journal, WalRow, execute, find_by_id, row_or_missing, mark_recovering, fail_operation,
  complete_operation,
}
use yh_filemanager_vfs_stora.Wal.Recovery.Write.{recover_write, recover_delete, recover_create_dir}
use yh_filemanager_vfs_stora.Wal.Recovery.Copy.{recover_copy}
use yh_filemanager_vfs_stora.Wal.Recovery.Move.{recover_move}
use yh_filemanager_vfs_stora.Wal.Recovery.Trash.{recover_move_to_trash, recover_restore_trash}

-- The journal, the files and their index, and the locked users.
pub record RecoveryState (W : Type 0) : Type 0 where
  pub journal : Journal
  pub world : W
  pub locked : LockedUsers

pub record WalRecoveryResult : Type 0 where
  pub recovered : ℕ
  pub failed : ℕ
  -- The row's id and the message, which the source prints as `Log {id}: {message}`.
  pub errors : List (ℕ × Text)
  pub affected_users : List Text

-- What recovery takes from elsewhere: `VfsStorageHub::route_for_user` with
-- `ScopedVfsStorageEngine::new`, `serde_json::from_str`, and `recalibrate_storage_used`.
pub record RecoveryContext (W : Type 0) : Type 0 where
  pub decode : Text → Result Text WalOperation
  pub create_recovery_engine : Text → Io W (RecoveryEngine W)
  pub recalibrate_storage_used : Text → Io W (Unit {0})

module _ {W A : Type 0} where
  abbrev pub on_journal : Io Journal A → Io (RecoveryState W) A
  on_journal m s = let (r, j) = m s.journal in (r, record s { journal = j })

  abbrev pub on_world : Io W A → Io (RecoveryState W) A
  on_world m s = let (r, w) = m s.world in (r, record s { world = w })

  abbrev pub lift : Result Text A → Io (RecoveryState W) A
  lift r s = (r, s)

unfoldable pub recover_operation :
    {W : Type 0} → RecoveryEngine W → WalOperation → WalStatus → Io W (Unit {0})
unfolding recover_write recover_delete recover_create_dir recover_copy recover_move
    recover_move_to_trash recover_restore_trash
recover_operation engine (write path size protected) status =
    recover_write engine path size protected status
recover_operation engine (delete path) status = recover_delete engine path status
recover_operation engine (copy src dst protected) status =
    recover_copy engine src dst protected status
recover_operation engine (move src dst) status = recover_move engine src dst status
recover_operation engine (rename old_path new_path) status =
    recover_move engine old_path new_path status
recover_operation engine (move_to_trash path trash_path) status =
    recover_move_to_trash engine path trash_path status
recover_operation engine (create_dir path) status = recover_create_dir engine path status
recover_operation engine (restore_trash trash_path original_path) status =
    recover_restore_trash engine trash_path original_path status

-- The call's outcome as a value, so that what follows it runs in either case.
abbrev pub attempt : {W A : Type 0} → Io W A → Io W (Result Text A)
attempt m w = let (r, w') = m w in (ok r, w')

-- A recovered operation is completed; a failed one is marked failed, and its error is returned,
-- whether or not the mark could be written.
unfoldable pub settle : {W : Type 0} → ℕ → Result Text (Unit {0}) → Io (RecoveryState W) (Unit {0})
unfolding complete_operation
settle id (ok done) s = on_journal (complete_operation id) s
settle id (err e) s = let (r, s') = on_journal (fail_operation id e) s in (err e, s')

abbrev empty_result : List Text → WalRecoveryResult
empty_result users = record { recovered = 0; failed = 0; errors = []; affected_users = users }

unfoldable pub count : WalRow → Result Text (Unit {0}) → WalRecoveryResult → WalRecoveryResult
count row (ok done) acc = record acc { recovered = acc.recovered + 1 }
count row (err e) acc = record acc {
  failed = acc.failed + 1;
  errors = acc.errors ++ ((row.id, e) ∷ []);
}

-- The query of the rows that are not completed, by their ids.
unfoldable pub is_unfinished : WalRow → Bool
unfolding text_eq
is_unfinished row = not (text_eq row.status (as_str completed))

unfoldable pub insert_by_id : WalRow → List WalRow → List WalRow
insert_by_id row [] = row ∷ []
insert_by_id row (r ∷ rs) = if leb row.id r.id then row ∷ r ∷ rs else r ∷ insert_by_id row rs

unfoldable pub unfinished : List WalRow → List WalRow
unfolding is_unfinished insert_by_id
unfinished [] = []
unfinished (r ∷ rs) =
    let rest = unfinished rs in if is_unfinished r then insert_by_id r rest else rest

-- The users of the rows, each once.
unfoldable pub users_of : List WalRow → List Text
users_of [] = []
users_of (r ∷ rs) =
    let users = users_of rs in
    if any (λ u. text_eq u r.user_id) users then users else r.user_id ∷ users

unfoldable pub lock_all : List Text → LockedUsers → LockedUsers
unfolding enter_user_maintenance
lock_all [] locked = locked
lock_all (u ∷ us) locked = lock_all us (enter_user_maintenance u locked)

unfoldable pub unlock_all : List Text → LockedUsers → LockedUsers
unlock_all [] locked = locked
unlock_all (u ∷ us) locked = unlock_all us (drop_guard u locked)

module _ {W : Type 0} (context : RecoveryContext W) where
  open context use {decode, create_recovery_engine, recalibrate_storage_used}

  unfoldable pub recover_one : WalRow → Io (RecoveryState W) (Unit {0})
  unfolding settle
  recover_one row =
      let status = parse row.status in
      if not (is_active status) then pure tt else (do
        on_journal (mark_recovering row.id)
        op ← lift (decode row.operation_data)
        engine ← on_world (create_recovery_engine row.user_id)
        recover_res ← attempt (on_world (recover_operation engine op status))
        settle row.id recover_res)

  unfoldable pub replay_issue : ℕ → Io (RecoveryState W) (Unit {0})
  unfolding find_by_id recover_one
  replay_issue log_id = do
    found ← on_journal (find_by_id log_id)
    row ← on_journal (row_or_missing found)
    if not (is_active (parse row.status))
        then raise (codes "WAL log is already completed and cannot be replayed")
        else recover_one row

  unfoldable pub recover_rows :
      List WalRow → WalRecoveryResult → RecoveryState W → WalRecoveryResult × RecoveryState W
  unfolding recover_one count
  recover_rows [] acc s = (acc, s)
  recover_rows (row ∷ rows) acc s =
      let (r, s') = recover_one row s in recover_rows rows (count row r acc) s'

  -- A failure is logged and skipped.
  unfoldable pub recalibrate_all : List Text → W → W
  recalibrate_all [] w = w
  recalibrate_all (u ∷ us) w = recalibrate_all us (recalibrate_storage_used u w).1

  -- From the query's answer on: the users are locked, the rows recovered in order, the used storage
  -- recalibrated if no row failed, and the guards dropped.
  unfoldable pub recover_found : List WalRow → Io (RecoveryState W) WalRecoveryResult
  unfolding recover_rows recalibrate_all lock_all unlock_all users_of
  recover_found [] s = (ok (empty_result []), s)
  recover_found (row ∷ rows) s =
      let users = users_of (row ∷ rows) in
      let started = record s { locked = lock_all users s.locked } in
      let (result, s') = recover_rows (row ∷ rows) (empty_result users) started in
      let world = if result.failed == 0 then recalibrate_all users s'.world else s'.world in
      (ok result, record s' { world = world; locked = unlock_all users s'.locked })

  unfoldable pub recover_all : Io (RecoveryState W) WalRecoveryResult
  unfolding recover_found unfinished
  recover_all = do rows ← on_journal (execute λ j. (unfinished j.rows, j)); recover_found rows
