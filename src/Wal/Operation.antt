-- ===== src/Wal/Operation.antt =====
-- The operations that src/vfs/wal/mod.rs logs, and the plan of a protected copy.
use yh_filemanager_vfs_stora.Prelude.{ℕ, Bool, Option, List}
use yh_filemanager_vfs_stora.Prelude.Int.{ℤ}
use yh_filemanager_vfs_stora.Prelude.Text.{Text, codes}

pub record WalProtectedWriteMeta : Type 0 where
  pub backend_key : Text
  pub physical_size : ℤ
  pub protected_meta : Text

pub record WalCopyPlanEntry : Type 0 where
  pub src_path : Text
  pub dst_path : Text
  pub is_dir : Bool
  pub size : ℕ
  pub storage_id : Option Text
  pub backend_type : Option Text
  pub dst_backend_key : Option Text
  pub physical_size : Option ℤ
  pub protected_meta : Option Text

pub record WalCopyPlan : Type 0 where
  pub entries : List WalCopyPlanEntry

pub data WalOperation : Type 0 where
  write : Text → ℕ → Option WalProtectedWriteMeta → WalOperation
  delete : Text → WalOperation
  copy : Text → Text → Option WalCopyPlan → WalOperation
  move rename move_to_trash : Text → Text → WalOperation
  create_dir : Text → WalOperation
  restore_trash : Text → Text → WalOperation

abbrev pub operation_name : WalOperation → Text
operation_name (write path size protected) = codes "WRITE"
operation_name (delete path) = codes "DELETE"
operation_name (copy src dst protected) = codes "COPY"
operation_name (move src dst) = codes "MOVE"
operation_name (rename old_path new_path) = codes "RENAME"
operation_name (move_to_trash path trash_path) = codes "MOVE_TO_TRASH"
operation_name (create_dir path) = codes "CREATE_DIR"
operation_name (restore_trash trash_path original_path) = codes "RESTORE_TRASH"
