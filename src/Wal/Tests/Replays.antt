-- ===== src/Wal/Tests/Replays.antt =====
-- Concrete runs of the journal and of the replay of its rows.
use yh_filemanager_vfs_stora.Prelude.{
  ◌+◌, ◌≡◌, refl, Bool, true, false, some, Result, ok, err, List, [], ◌∷◌, length,
}
use yh_filemanager_vfs_stora.Prelude.Text.{
  Text, codes, text_eq, trim, trim_start_by, to_ascii_lowercase,
}
use yh_filemanager_vfs_stora.Wal.Status.{pending, parse}
use yh_filemanager_vfs_stora.Wal.Operation.{WalOperation, delete}
use yh_filemanager_vfs_stora.Wal.Journal.{
  Journal, WalRow, pending_row, log_operation, find_row, transition_operation,
}
use yh_filemanager_vfs_stora.Wal.Journal.Rows.{IsJournal, find_row-log_operation}
use yh_filemanager_vfs_stora.Wal.Recovery.{to_physical_user_path}
use yh_filemanager_vfs_stora.Wal.Recovery.Write.{recover_delete}
use yh_filemanager_vfs_stora.Wal.Replay.{
  RecoveryState, RecoveryContext, WalRecoveryResult, recover_one, recover_all, recover_operation,
  recover_found, recover_rows, unfinished, users_of, lock_all, unlock_all, count, settle,
  is_unfinished, insert_by_id, recalibrate_all,
}
use yh_filemanager_vfs_stora.Wal.Replay.Outcome.{Settled, recover_one-Settled}
use yh_filemanager_vfs_stora.Wal.Replay.Errors.{reported, recover_all_accounts}
use yh_filemanager_vfs_stora.Wal.Replay.Completion.{Left, AllCompleted, recover_all_completes}
use yh_filemanager_vfs_stora.Wal.Tests.Model.{Disk, alice, disk_engine, physical}

-- An encoding for operations on one path: deletions, and the rest as creations.
abbrev encode : WalOperation → Text
encode (delete path) = b'd' ∷ path
encode _ = codes "?"

abbrev decode_tag : Bool → Text → Result Text WalOperation
decode_tag true path = ok (delete path)
decode_tag false path = err (codes "no operation")

abbrev decode : Text → Result Text WalOperation
decode [] = err (codes "no operation")
decode (c ∷ path) = decode_tag (text_eq (c ∷ []) (codes "d")) path

abbrev context : RecoveryContext Disk
context = record {
  decode = decode;
  create_recovery_engine = λ user w. (ok disk_engine, w);
  recalibrate_storage_used = λ user w. (ok tt, w);
}

abbrev file : Text
file = codes "/a"

abbrev row_one : WalRow
row_one = pending_row 1 alice (codes "DELETE") (encode (delete file)) 3

abbrev row_bad : WalRow
row_bad = pending_row 2 alice (codes "DELETE") (codes "?") 3

abbrev journal_of : List WalRow → Journal
journal_of rows = record { rows = rows; next_id = 5; clock = 9; faults = [] }

abbrev started : List WalRow → RecoveryState Disk
started rows = record {
  journal = journal_of rows;
  world = record { files = text_eq (physical file); index = text_eq file };
  locked = [];
}

abbrev no_rows-IsJournal : IsJournal (journal_of [])
no_rows-IsJournal = record { below = tt; distinct = tt }

recover_one-Settled_example :
    let (r, s') = recover_one context row_one (started (row_one ∷ [])) in
    Settled context row_one (started (row_one ∷ [])) r s'
    × (s'.locked ≡ [])
    × (s'.journal.faults ≡ [])
    × (s'.journal.clock ≡ 9)
unfolding text_eq parse trim trim_start_by to_ascii_lowercase
recover_one-Settled_example = recover_one-Settled context row_one (started (row_one ∷ [])) refl refl

abbrev finished : RecoveryState Disk
finished = (recover_all context (started (row_one ∷ []))).1

abbrev report : WalRecoveryResult
report = record { recovered = 1; failed = 0; errors = []; affected_users = alice ∷ [] }

recover_all_completes_example : AllCompleted finished.journal.rows
unfolding recover_all recover_found recover_rows recalibrate_all unfinished users_of lock_all
    unlock_all recover_one recover_operation recover_delete settle count is_unfinished insert_by_id
    transition_operation text_eq parse trim trim_start_by to_ascii_lowercase to_physical_user_path
recover_all_completes_example =
    recover_all_completes context (started (row_one ∷ [])) report finished refl
      ((pending, refl), tt) refl refl

-- A row that cannot be read is in the report.
abbrev half_finished : RecoveryState Disk
half_finished = (recover_all context (started (row_one ∷ row_bad ∷ []))).1

abbrev half_report : WalRecoveryResult
half_report = record {
  recovered = 1;
  failed = 1;
  errors = (2, codes "no operation") ∷ [];
  affected_users = alice ∷ [];
}

recover_all_accounts_example :
    Left (reported half_report.errors) half_finished.journal.rows
    × (half_report.recovered + half_report.failed ≡ length (unfinished (row_one ∷ row_bad ∷ [])))
    × (length half_report.errors ≡ half_report.failed)
unfolding recover_all recover_found recover_rows recalibrate_all unfinished users_of lock_all
    unlock_all recover_one recover_operation recover_delete settle count is_unfinished insert_by_id
    transition_operation text_eq parse trim trim_start_by to_ascii_lowercase to_physical_user_path
recover_all_accounts_example =
    recover_all_accounts context (started (row_one ∷ row_bad ∷ [])) half_report half_finished refl
      ((pending, refl), ((pending, refl), tt)) refl

find_row-log_operation_example :
    (row : WalRow) × (find_row 5 (log_operation encode alice (delete file) (journal_of [])).1.rows
      ≡ some row)
    × (parse row.status ≡ pending)
    × (row.user_id ≡ alice)
    × (decode row.operation_data ≡ ok (delete file))
unfolding log_operation text_eq
find_row-log_operation_example =
    find_row-log_operation encode decode alice (delete file) (journal_of [])
      (log_operation encode alice (delete file) (journal_of [])).1 5 refl no_rows-IsJournal refl
