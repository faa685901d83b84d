-- ===== src/Wal/Recovery/Trash.antt =====
-- `recover_move_to_trash` and `recover_restore_trash` of src/vfs/wal/mod.rs.
use yh_filemanager_vfs_stora.Prelude.{if◌then◌else◌}
use yh_filemanager_vfs_stora.Prelude.Text.{Text, codes}
use yh_filemanager_vfs_stora.Wal.Io.{Io, ◌>>=◌, ◌>>◌, pure, raise}
use yh_filemanager_vfs_stora.Wal.Engine.{RecoveryEngine}
use yh_filemanager_vfs_stora.Wal.Status.{WalStatus, has_physical_done, has_metadata_done}
use yh_filemanager_vfs_stora.Wal.Recovery.{
  is_root_protected_path, physical_move_without_wal, about_two,
}
use yh_filemanager_vfs_stora.Wal.Recovery.Move.{by_places}

module _ {W : Type 0} (engine : RecoveryEngine W) where
  open engine use {exists, trash_file, restore_file}

  unfoldable pub recover_protected_trash : Text → Text → WalStatus → Io W (Unit {0})
  unfolding by_places
  recover_protected_trash path trash_path status = if has_metadata_done status then pure tt else (do
    src_exists ← exists path
    trash_exists ← exists trash_path
    by_places src_exists trash_exists (trash_file path trash_path) (pure tt)
        (raise (
          about_two (codes "PROTECTED MOVE_TO_TRASH recovery ambiguous: both source '") path
            (codes "' and trash '") trash_path (codes "' are missing")))
        (raise (
          about_two (codes "PROTECTED MOVE_TO_TRASH recovery ambiguous: both source '") path
            (codes "' and trash '") trash_path (codes "' exist"))))

  unfoldable pub recover_plain_trash : Text → Text → WalStatus → Io W (Unit {0})
  unfolding by_places
  recover_plain_trash path trash_path status =
      if has_metadata_done status
      then pure tt
      else if has_physical_done status
      then trash_file path trash_path
      else (do
        src_exists ← exists path
        trash_exists ← exists trash_path
        by_places src_exists trash_exists
            (do physical_move_without_wal engine path trash_path; trash_file path trash_path)
            (trash_file path trash_path)
            (raise (
              about_two (codes "MOVE_TO_TRASH recovery ambiguous: both source '") path
                (codes "' and trash '") trash_path (codes "' are missing")))
            (raise (
              about_two (codes "MOVE_TO_TRASH recovery ambiguous: both source '") path
                (codes "' and trash '") trash_path (codes "' exist"))))

  unfoldable pub recover_move_to_trash : Text → Text → WalStatus → Io W (Unit {0})
  unfolding recover_protected_trash recover_plain_trash
  recover_move_to_trash path trash_path status = do
    protected ← is_root_protected_path engine path
    if protected
        then recover_protected_trash path trash_path status
        else recover_plain_trash path trash_path status

  unfoldable pub recover_protected_restore : Text → Text → WalStatus → Io W (Unit {0})
  unfolding by_places
  recover_protected_restore trash_path original_path status =
      if has_metadata_done status then pure tt else (do
        trash_exists ← exists trash_path
        original_exists ← exists original_path
        by_places trash_exists original_exists (restore_file trash_path original_path) (pure tt)
            (raise (
              about_two (codes "PROTECTED RESTORE_TRASH recovery ambiguous: both '") trash_path
                (codes "' and '") original_path (codes "' are missing")))
            (raise (
              about_two (codes "PROTECTED RESTORE_TRASH recovery ambiguous: both '") trash_path
                (codes "' and '") original_path (codes "' exist"))))

  unfoldable pub recover_plain_restore : Text → Text → WalStatus → Io W (Unit {0})
  unfolding by_places
  recover_plain_restore trash_path original_path status =
      if has_metadata_done status
      then pure tt
      else if has_physical_done status
      then restore_file trash_path original_path
      else (do
        trash_exists ← exists trash_path
        original_exists ← exists original_path
        by_places trash_exists original_exists
            (do
              physical_move_without_wal engine trash_path original_path
              restore_file trash_path original_path)
            (restore_file trash_path original_path)
            (raise (
              about_two (codes "RESTORE_TRASH recovery ambiguous: both '") trash_path
                (codes "' and '") original_path (codes "' are missing")))
            (raise (
              about_two (codes "RESTORE_TRASH recovery ambiguous: both '") trash_path
                (codes "' and '") original_path (codes "' exist"))))

  unfoldable pub recover_restore_trash : Text → Text → WalStatus → Io W (Unit {0})
  unfolding recover_protected_restore recover_plain_restore
  recover_restore_trash trash_path original_path status = do
    protected ← is_root_protected_path engine original_path
    if protected
        then recover_protected_restore trash_path original_path status
        else recover_plain_restore trash_path original_path status
