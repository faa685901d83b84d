-- ===== src/Wal/Recovery.antt =====
-- The helpers of the recovery in src/vfs/wal/mod.rs. The recovery of each operation is in the
-- modules below. The engine of the user is a parameter of all of them.
pub mod Write
pub mod Copy
pub mod Move
pub mod Trash
pub mod Laws
pub mod Agreement
pub mod Relocation
pub mod Untouched
use yh_filemanager_vfs_stora.Prelude.{
  ℕ, Bool, true, false, ◌||◌, Option, none, some, List, [], ◌∷◌, ◌++◌, is_some, ltb, if◌then◌else◌,
}
use yh_filemanager_vfs_stora.Prelude.Text.{
  Text, codes, text_eq, is_empty, trim_start_matches, split,
}
use yh_filemanager_vfs_stora.Prelude.FilePath.{path_file_name}
use yh_filemanager_vfs_stora.Types.{VfsFileInfo}
use yh_filemanager_vfs_stora.Settings.{
  UserSettingsSnapshot, protected_root_trimmed, matches_protected_root,
}
use yh_filemanager_vfs_stora.Wal.Io.{Io, ◌>>=◌, ◌>>◌, pure, raise, modify}
use yh_filemanager_vfs_stora.Wal.Engine.{RecoveryEngine}

unfoldable pub to_physical_user_path : Text → Text → Text
to_physical_user_path user_id logical_path =
    user_id ++ (b'/' ∷ trim_start_matches b'/' logical_path)

-- `Path::new(path).file_name()`, and "" where there is none.
unfoldable pub file_name_or_empty : Text → Text
unfolding path_file_name
file_name_or_empty path = elim (path_file_name path) [ none ↦ [] | some s ↦ s ]

-- The info that recovery writes for a file that it has found.
unfoldable pub recovered_info : Text → Bool → ℕ → Option ℕ → VfsFileInfo
recovered_info path is_dir size modified = record {
  name = file_name_or_empty path;
  path = path;
  is_dir = is_dir;
  size = size;
  modified = modified;
  favorite_color = 0;
  has_active_share = none;
  has_active_direct = none;
  trashed_at = none;
  original_path = none;
}

-- The protected root, if the path lies in it.
abbrev root_of : Text → Option UserSettingsSnapshot → Option Text
root_of path none = none
root_of path (some settings) =
    if matches_protected_root settings path then protected_root_trimmed settings else none

abbrev is_slash : Option Text → Bool
is_slash none = false
is_slash (some root) = text_eq root (codes "/")

abbrev same_root : Option Text → Option Text → Bool
same_root none dst_root = false
same_root (some r) none = false
same_root (some r) (some s) = text_eq r s

module _ {W : Type 0} (engine : RecoveryEngine W) where
  open engine use {
    user_id, load_user_settings, exists, stat, pool_exists, pool_delete, pool_move_file,
    invalidate_parent_ls, upsert_file,
  }

  unfoldable pub protected_root_for_path : Text → Io W (Option Text)
  protected_root_for_path path = do settings ← load_user_settings; pure (root_of path settings)

  unfoldable pub is_root_protected_path : Text → Io W Bool
  unfolding protected_root_for_path
  is_root_protected_path path = do root ← protected_root_for_path path; pure (is_slash root)

  unfoldable pub same_protected_domain : Text → Text → Io W Bool
  unfolding protected_root_for_path
  same_protected_domain src dst = do
    src_root ← protected_root_for_path src
    dst_root ← protected_root_for_path dst
    pure (same_root src_root dst_root)

  unfoldable pub cleanup_orphan_temp : Text → Io W (Unit {0})
  cleanup_orphan_temp temp_path = do
    let physical_temp = to_physical_user_path user_id temp_path
    there ← pool_exists physical_temp
    if there then pool_delete physical_temp else pure tt

  unfoldable pub physical_move_without_wal : Text → Text → Io W (Unit {0})
  physical_move_without_wal src dst = do
    pool_move_file (to_physical_user_path user_id src) (to_physical_user_path user_id dst)
    modify (invalidate_parent_ls src)
    modify (invalidate_parent_ls dst)

  unfoldable pub sync_index_for_path : Text → Io W (Unit {0})
  sync_index_for_path path = do info ← stat path; upsert_file path info

-- The text of an error about two paths.
unfoldable pub about_two : Text → Text → Text → Text → Text → Text
about_two start a middle b end = start ++ (a ++ (middle ++ (b ++ end)))
