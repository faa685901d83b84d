-- ===== src/Wal/Journal.antt =====
-- The journal's rows (src/vfs/wal/entity.rs) and the operations of `VfsWalManager` on them
-- (src/vfs/wal/mod.rs). Each call of the database takes one entry of `faults`, which says whether
-- it fails. The clock is read from the state.
pub mod Rows
use yh_filemanager_vfs_stora.Prelude.{
  ℕ, suc, ◌+◌, Bool, true, false, not, Option, none, some, Result, ok, err, List, [], ◌∷◌, ◌++◌,
  map, length, ◌==◌, if◌then◌else◌,
}
use yh_filemanager_vfs_stora.Prelude.Text.{Text, codes, is_empty, trim}
use yh_filemanager_vfs_stora.Wal.Io.{Io, ◌>>=◌, ◌>>◌, pure, raise}
use yh_filemanager_vfs_stora.Wal.Operation.{WalOperation, operation_name}
use yh_filemanager_vfs_stora.Wal.Status.{
  WalStatus, pending, recovering, physical_done, completed, failed, as_str, parse, is_active,
}

pub record WalRow : Type 0 where
  pub id : ℕ
  pub user_id : Text
  pub operation_type : Text
  pub operation_data : Text
  pub status : Text
  pub failure_reason : Option Text
  pub created_at : ℕ
  pub updated_at : ℕ
  pub completed_at : Option ℕ

pub record Journal : Type 0 where
  pub rows : List WalRow
  pub next_id : ℕ
  pub clock : ℕ
  pub faults : List Bool

abbrev pub db_error : Text
db_error = codes "database error"

-- One statement, which the database runs or refuses.
abbrev pub execute : {A : Type 0} → (Journal → A × Journal) → Io Journal A
execute f j = elim j.faults [
  | [] ↦ (let (a, j') = f j in (ok a, j'))
  | fails ∷ faults ↦ elim fails [
    | true ↦ (err db_error, record j { faults = faults })
    | false ↦ (let (a, j') = f (record j { faults = faults }) in (ok a, j'))
  ]
]

-- `update_many().filter(Id.eq(log_id))`.
unfoldable pub update_row : ℕ → (WalRow → WalRow) → List WalRow → List WalRow
update_row log_id f [] = []
update_row log_id f (r ∷ rs) =
    let rest = update_row log_id f rs in if r.id == log_id then f r ∷ rest else r ∷ rest

unfoldable pub find_row : ℕ → List WalRow → Option WalRow
find_row log_id [] = none
find_row log_id (r ∷ rs) = if r.id == log_id then some r else find_row log_id rs

abbrev completed_time : WalStatus → ℕ → Option ℕ
completed_time completed now = some now
completed_time _ now = none

-- What a change of status writes into a row.
abbrev pub with_status : WalStatus → Option Text → ℕ → WalRow → WalRow
with_status status failure_reason now r = record r {
  status = as_str status;
  failure_reason = failure_reason;
  updated_at = now;
  completed_at = completed_time status now;
}

unfoldable pub transition_operation : ℕ → WalStatus → Option Text → Io Journal (Unit {0})
unfolding update_row
transition_operation log_id status failure_reason = execute λ j.
    (tt, record j { rows = update_row log_id (with_status status failure_reason j.clock) j.rows })

abbrev pub mark_recovering : ℕ → Io Journal (Unit {0})
mark_recovering log_id = transition_operation log_id recovering none

abbrev pub mark_physical_done : ℕ → Io Journal (Unit {0})
mark_physical_done log_id = transition_operation log_id physical_done none

abbrev pub fail_operation : ℕ → Text → Io Journal (Unit {0})
fail_operation log_id reason = transition_operation log_id failed (some reason)

unfoldable pub complete_operation : ℕ → Io Journal (Unit {0})
unfolding update_row
complete_operation log_id =
    execute
      λ j. (tt, record j { rows = update_row log_id (with_status completed none j.clock) j.rows })

-- The row that is logged before an operation.
abbrev pub pending_row : ℕ → Text → Text → Text → ℕ → WalRow
pending_row id user_id operation_type operation_data now = record {
  id = id;
  user_id = user_id;
  operation_type = operation_type;
  operation_data = operation_data;
  status = as_str pending;
  failure_reason = none;
  created_at = now;
  updated_at = now;
  completed_at = none;
}

-- `encode` is `serde_json::to_string`.
unfoldable pub log_operation : (WalOperation → Text) → Text → WalOperation → Io Journal ℕ
log_operation encode user_id operation = execute λ j. (
  j.next_id,
  record j {
    rows =
        j.rows
        ++ (pending_row j.next_id user_id (operation_name operation) (encode operation) j.clock
            ∷ []);
    next_id = suc j.next_id;
  },
)

abbrev pub row_or_missing : Option WalRow → Io Journal WalRow
row_or_missing none = raise (codes "WAL log not found")
row_or_missing (some row) = pure row

unfoldable pub find_by_id : ℕ → Io Journal (Option WalRow)
unfolding find_row
find_by_id log_id = execute λ j. (find_row log_id j.rows, j)

-- The note of the administrator: trimmed, and with its mark.
unfoldable pub handled_note : Option Text → Text
handled_note none = codes "ADMIN_MARKED_HANDLED"
handled_note (some note) =
    let value = trim note in
    if is_empty value then codes "ADMIN_MARKED_HANDLED" else codes "ADMIN_MARKED_HANDLED: " ++ value

unfoldable pub handled_reason : Option Text → Text → Text
handled_reason none note = note
handled_reason (some existing) note = if is_empty existing then note else existing ++ (0xa ∷ note)

unfoldable pub mark_issue_handled : ℕ → Option Text → Io Journal (Unit {0})
unfolding find_by_id update_row
mark_issue_handled log_id note = do
  found ← find_by_id log_id
  row ← row_or_missing found
  execute λ j. (
    tt,
    record j {
      rows =
          update_row log_id
            (with_status completed (some (handled_reason row.failure_reason (handled_note note)))
              j.clock)
            j.rows;
    },
  )

unfoldable pub revoke_all : Io Journal ℕ
revoke_all = execute λ j. (length j.rows, record j { rows = [] })
