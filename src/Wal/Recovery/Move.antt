-- ===== src/Wal/Recovery/Move.antt =====
-- `recover_move` of src/vfs/wal/mod.rs, for moves and renames.
use yh_filemanager_vfs_stora.Prelude.{Bool, true, false, if◌then◌else◌}
use yh_filemanager_vfs_stora.Prelude.Text.{Text, codes}
use yh_filemanager_vfs_stora.Wal.Io.{Io, ◌>>=◌, pure, raise}
use yh_filemanager_vfs_stora.Wal.Engine.{RecoveryEngine}
use yh_filemanager_vfs_stora.Wal.Status.{WalStatus, has_physical_done, has_metadata_done}
use yh_filemanager_vfs_stora.Wal.Recovery.{
  same_protected_domain, physical_move_without_wal, about_two,
}

-- The four arms of the `match` on whether the first and the second place exist.
unfoldable pub by_places {ℓ} : {A : Type ℓ} → Bool → Bool → A → A → A → A → A
by_places true false only_first only_second neither both = only_first
by_places false true only_first only_second neither both = only_second
by_places false false only_first only_second neither both = neither
by_places true true only_first only_second neither both = both

module _ {W : Type 0} (engine : RecoveryEngine W) where
  open engine use {exists, move_file}

  unfoldable pub recover_protected_move : Text → Text → WalStatus → Io W (Unit {0})
  unfolding by_places
  recover_protected_move src dst status = if has_metadata_done status then pure tt else (do
    src_exists ← exists src
    dst_exists ← exists dst
    by_places src_exists dst_exists (move_file src dst) (pure tt)
        (raise (
          about_two (codes "PROTECTED MOVE recovery ambiguous: both source '") src
            (codes "' and destination '") dst (codes "' are missing")))
        (raise (
          about_two (codes "PROTECTED MOVE recovery ambiguous: both source '") src
            (codes "' and destination '") dst (codes "' exist"))))

  unfoldable pub recover_plain_move : Text → Text → WalStatus → Io W (Unit {0})
  unfolding by_places
  recover_plain_move src dst status =
      if has_metadata_done status
      then pure tt
      else if has_physical_done status
      then move_file src dst
      else (do
        src_exists ← exists src
        dst_exists ← exists dst
        by_places src_exists dst_exists (physical_move_without_wal engine src dst)
            (move_file src dst)
            (raise (
              about_two (codes "MOVE recovery ambiguous: both source '") src
                (codes "' and destination '") dst (codes "' are missing")))
            (raise (
              about_two (codes "MOVE recovery ambiguous: both source '") src
                (codes "' and destination '") dst (codes "' exist"))))

  unfoldable pub recover_move : Text → Text → WalStatus → Io W (Unit {0})
  unfolding recover_protected_move recover_plain_move
  recover_move src dst status = do
    protected ← same_protected_domain engine src dst
    if protected then recover_protected_move src dst status else recover_plain_move src dst status
