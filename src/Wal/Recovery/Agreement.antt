-- ===== src/Wal/Recovery/Agreement.antt =====
-- Recovery in src/vfs/wal/mod.rs of the files outside the protected root: what the index is told in
-- the end follows what the storage has answered.
use yh_filemanager_vfs_stora.Prelude.{◌≡◌, Bool, true, false, ◌++◌, ok, if◌then◌else◌}
use yh_filemanager_vfs_stora.Prelude.Text.{Text, codes}
use yh_filemanager_vfs_stora.Types.{VfsFileInfo}
use yh_filemanager_vfs_stora.Wal.Io.{continue, continue-eq-ok, pure}
use yh_filemanager_vfs_stora.Wal.Engine.{RecoveryEngine}
use yh_filemanager_vfs_stora.Wal.Status.{WalStatus, has_physical_done, has_metadata_done}
use yh_filemanager_vfs_stora.Wal.Recovery.{
  to_physical_user_path, cleanup_orphan_temp, sync_index_for_path,
}
use yh_filemanager_vfs_stora.Wal.Recovery.Write.{recover_plain_write}

module _ {W : Type 0} (engine : RecoveryEngine W) where
  -- The last call is the index's, and it has succeeded: a file that is there is written with what
  -- the storage has just said of it, and one that is not is deleted.
  abbrev pub Told : Bool → Text → W → Type 0
  Told true path w' =
      (info : VfsFileInfo) × (u : W) × (v : W) × (engine.stat path u ≡ (ok info, v))
      × (engine.upsert_file path info v ≡ (ok tt, w'))
  Told false path w' = (u : W) × (engine.delete_file path u ≡ (ok tt, w'))

  synced-Told :
      (path : Text) (u w' : W) → sync_index_for_path engine path u ≡ (ok tt, w') → Told true path w'
  unfolding sync_index_for_path
  synced-Told path u w' e =
      let (info, v, found, wrote) = continue-eq-ok (engine.stat path u) _ e in
      (info, u, v, found, wrote)

  write_tail :
      (written physical target temp : Bool) (path : Text) (u w' : W)
      → written ≡ false
      → (if written
            then pure tt
            else if physical
            then (if target then sync_index_for_path engine path else engine.delete_file path)
            else if target
            then (λ w.
                continue
                  ((if temp then cleanup_orphan_temp engine (path ++ codes ".tmp") else pure tt) w)
                  (λ _. sync_index_for_path engine path))
            else (λ w.
                continue
                  ((if temp then cleanup_orphan_temp engine (path ++ codes ".tmp") else pure tt) w)
                  (λ _. engine.delete_file path)))
          u
        ≡ (ok tt, w')
      → Told target path w'
  write_tail true physical target temp path u w' m e = absurd (cc)
  write_tail false true true temp path u w' m e = synced-Told path u w' e
  write_tail false true false temp path u w' m e = (u, e)
  write_tail false false true temp path u w' m e =
      let (x, v, c, rest) =
        continue-eq-ok
          ((if temp then cleanup_orphan_temp engine (path ++ codes ".tmp") else pure tt) u) _ e in
      synced-Told path v w' rest
  write_tail false false false temp path u w' m e =
      let (x, v, c, rest) =
        continue-eq-ok
          ((if temp then cleanup_orphan_temp engine (path ++ codes ".tmp") else pure tt) u) _ e in
      (v, rest)

  -- A write outside the protected root whose metadata had not been written, whether or not its file
  -- had been, and whether or not there was a temporary file: where its recovery succeeds, the engine
  -- has answered whether the file is there, and the last call was that of the index, which has
  -- written the file with what the storage says of it if it is there, and deleted it if it is not.
  pub recover_plain_write-Told :
      (path : Text) (st : WalStatus) (w w' : W)
      → has_metadata_done st ≡ false
      → recover_plain_write engine path st w ≡ (ok tt, w')
      → (target : Bool) × (v : W) × (engine.exists path w ≡ (ok target, v)) × Told target path w'
  unfolding recover_plain_write
  recover_plain_write-Told path st w w' open_ e =
      let (target, v, found, rest) = continue-eq-ok (engine.exists path w) _ e in
      let (temp, u, found₂, rest₂) =
        continue-eq-ok (engine.exists (path ++ codes ".tmp") v) _ rest in
      (
        target,
        v,
        found,
        write_tail (has_metadata_done st) (has_physical_done st) target temp path u w' open_ rest₂,
      )

  -- What a deletion has done in the storage: what the engine says is there has been deleted.
  abbrev pub Dropped : Bool → Text → W → W → Type 0
  Dropped true path v u =
      (x : W) × (engine.pool_delete (to_physical_user_path engine.user_id path) v ≡ (ok tt, x))
      × (u ≡ engine.invalidate_parent_ls path x)
  Dropped false path v u = u ≡ v
