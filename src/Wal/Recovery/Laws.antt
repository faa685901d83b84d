-- ===== src/Wal/Recovery/Laws.antt =====
-- What recovery relies on in the engine of a user: the calls that only read.
use yh_filemanager_vfs_stora.Prelude.{◌≡◌}
use yh_filemanager_vfs_stora.Prelude.Text.{Text}
use yh_filemanager_vfs_stora.Wal.Engine.{RecoveryEngine}

-- The calls that read change nothing.
pub record ReadsArePure {W : Type 0} (engine : RecoveryEngine W) : Type 0 where
  pub settings_pure : (w : W) → (engine.load_user_settings w).1 ≡ w
  pub exists_pure : (p : Text) (w : W) → (engine.exists p w).1 ≡ w
  pub metadata_pure : (p : Text) (w : W) → (engine.get_file_metadata p w).1 ≡ w
