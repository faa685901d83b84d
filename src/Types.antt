-- ===== src/Types.antt =====
-- src/vfs/types.rs: what a file operation returns about a file. A time is a number of seconds
-- since 1970.
use yh_filemanager_vfs_stora.Prelude.{ℕ, Bool, Option}
use yh_filemanager_vfs_stora.Prelude.Text.{Text}

pub record VfsFileInfo : Type 0 where
  pub name : Text
  pub path : Text
  pub is_dir : Bool
  pub size : ℕ
  pub modified : Option ℕ
  pub favorite_color : ℕ
  pub has_active_share : Option Bool
  pub has_active_direct : Option Bool
  pub trashed_at : Option ℕ
  pub original_path : Option Text
