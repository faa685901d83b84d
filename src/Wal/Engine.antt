-- ===== src/Wal/Engine.antt =====
-- What the recovery of src/vfs/wal/mod.rs calls: the scoped engine of a user
-- (src/vfs/scoped/), its pool (src/vfs/pool.rs), its cache of listings (src/utils/cache.rs), the
-- index (src/business/services/file_index_service.rs) and the user's settings. They are an
-- interface here, over a type of worlds.
use yh_filemanager_vfs_stora.Prelude.{ℕ, Bool, Option}
use yh_filemanager_vfs_stora.Prelude.Int.{ℤ}
use yh_filemanager_vfs_stora.Prelude.Text.{Text}
use yh_filemanager_vfs_stora.Types.{VfsFileInfo}
use yh_filemanager_vfs_stora.Settings.{UserSettingsSnapshot}
use yh_filemanager_vfs_stora.Wal.Io.{Io}

-- Where the content of an indexed file lies.
pub record FileLocation : Type 0 where
  pub storage_id : Option Text
  pub backend_type : Option Text
  pub backend_key : Option Text
  pub physical_size : Option ℤ
  pub protected_meta : Option Text

-- The part of a row of the index that recovery reads.
pub record IndexRow : Type 0 where
  pub is_dir : Bool
  pub size : ℤ
  pub file_updated_at : Option ℕ
  pub location : FileLocation

pub record RecoveryEngine (W : Type 0) : Type 0 where
  pub user_id : Text
  pub pool_name : Text
  pub backend_type : Text
  pub load_user_settings : Io W (Option UserSettingsSnapshot)
  pub exists : Text → Io W Bool
  pub stat : Text → Io W VfsFileInfo
  pub pool_exists : Text → Io W Bool
  pub pool_stat : Text → Io W VfsFileInfo
  pub pool_delete : Text → Io W (Unit {0})
  pub pool_move_file : Text → Text → Io W (Unit {0})
  pub pool_create_dir : Text → Io W (Unit {0})
  pub invalidate_parent_ls : Text → W → W
  pub get_file_metadata : Text → Io W (Option IndexRow)
  pub upsert_file : Text → VfsFileInfo → Io W (Unit {0})
  pub upsert_file_with_location : Text → VfsFileInfo → FileLocation → Io W (Unit {0})
  pub delete_file : Text → Io W (Unit {0})
  pub move_file : Text → Text → Io W (Unit {0})
  pub trash_file : Text → Text → Io W (Unit {0})
  pub restore_file : Text → Text → Io W (Unit {0})
  -- `chrono::Utc::now()`.
  pub now : W → ℕ
