-- ===== src/Wal/Recovery/Write.antt =====
-- `recover_write`, `recover_delete` and `recover_create_dir` of src/vfs/wal/mod.rs.
use yh_filemanager_vfs_stora.Prelude.{ℕ, false, Option, none, some, ◌++◌, is_some, if◌then◌else◌}
use yh_filemanager_vfs_stora.Prelude.Text.{Text, codes}
use yh_filemanager_vfs_stora.Wal.Io.{Io, ◌>>=◌, ◌>>◌, pure, raise, modify}
use yh_filemanager_vfs_stora.Wal.Engine.{RecoveryEngine}
use yh_filemanager_vfs_stora.Wal.Operation.{WalProtectedWriteMeta}
use yh_filemanager_vfs_stora.Wal.Status.{WalStatus, has_physical_done, has_metadata_done}
use yh_filemanager_vfs_stora.Wal.Recovery.{
  protected_root_for_path, cleanup_orphan_temp, sync_index_for_path, to_physical_user_path,
  recovered_info,
}

abbrev pub missing_metadata : Text
missing_metadata =
    codes
      "Protected write recovery requires manual backend_key repair because index metadata is missing"

abbrev pub missing_locator : Text
missing_locator =
    codes
      "Protected write recovery requires manual backend_key repair because WAL does not store blob locator"

module _ {W : Type 0} (engine : RecoveryEngine W) where
  open engine use {
    user_id, pool_name, backend_type, exists, pool_exists, pool_stat, pool_delete, pool_create_dir,
    invalidate_parent_ls, get_file_metadata, upsert_file_with_location, delete_file,
  }

  -- The index row of a protected file is rebuilt from the log, if its blob is there.
  unfoldable pub restore_protected_row :
      Text → ℕ → Option WalProtectedWriteMeta → Text → Io W (Unit {0})
  restore_protected_row path size none failure = raise failure
  restore_protected_row path size (some meta) failure = do
    physical_exists ← pool_exists meta.backend_key
    if physical_exists
        then (do
          found ← pool_stat meta.backend_key
          upsert_file_with_location path (recovered_info path false size found.modified) (record {
            storage_id = some pool_name;
            backend_type = some backend_type;
            backend_key = some meta.backend_key;
            physical_size = some meta.physical_size;
            protected_meta = some meta.protected_meta;
          }))
        else raise failure

  unfoldable pub recover_protected_write :
      Text → ℕ → Option WalProtectedWriteMeta → WalStatus → Io W (Unit {0})
  unfolding restore_protected_row
  recover_protected_write path size protected status = do
    index_row ← get_file_metadata path
    if has_metadata_done status
        then pure tt
        else if is_some index_row
        then pure tt
        else restore_protected_row path size protected
            (if has_physical_done status then missing_metadata else missing_locator)

  unfoldable pub recover_plain_write : Text → WalStatus → Io W (Unit {0})
  recover_plain_write path status = do
    let tmp_path = path ++ codes ".tmp"
    target_exists ← exists path
    temp_exists ← exists tmp_path
    if has_metadata_done status
        then pure tt
        else if has_physical_done status
        then (if target_exists then sync_index_for_path engine path else delete_file path)
        else if target_exists
        then (do
          if temp_exists then cleanup_orphan_temp engine tmp_path else pure tt
          sync_index_for_path engine path)
        else (do
          if temp_exists then cleanup_orphan_temp engine tmp_path else pure tt
          delete_file path)

  unfoldable pub recover_write :
      Text → ℕ → Option WalProtectedWriteMeta → WalStatus → Io W (Unit {0})
  unfolding recover_protected_write recover_plain_write
  recover_write path size protected status = do
    protected_root ← protected_root_for_path engine path
    if is_some protected_root
        then recover_protected_write path size protected status
        else recover_plain_write path status

  unfoldable pub recover_delete : Text → WalStatus → Io W (Unit {0})
  recover_delete path status =
      if has_metadata_done status
      then pure tt
      else if has_physical_done status
      then delete_file path
      else (do
        there ← exists path
        if there
            then (do
              pool_delete (to_physical_user_path user_id path)
              modify (invalidate_parent_ls path))
            else pure tt
        delete_file path)

  unfoldable pub recover_create_dir : Text → WalStatus → Io W (Unit {0})
  recover_create_dir path status =
      if has_metadata_done status
      then pure tt
      else if has_physical_done status
      then sync_index_for_path engine path
      else (do
        there ← exists path
        if there then pure tt else pool_create_dir (to_physical_user_path user_id path)
        sync_index_for_path engine path)
