-- ===== src/Wal/Recovery/Relocation.antt =====
-- Recovery in src/vfs/wal/mod.rs of files that were on their way to another place, outside the
-- protected root: moves, renames, and the ways into and out of the recycle bin.
use yh_filemanager_vfs_stora.Prelude.{◌≡◌, refl, Bool, true, false, not, ok, if◌then◌else◌}
use yh_filemanager_vfs_stora.Prelude.Text.{Text}
use yh_filemanager_vfs_stora.Types.{VfsFileInfo}
use yh_filemanager_vfs_stora.Wal.Io.{Io, continue, continue-eq-ok, raise, pure}
use yh_filemanager_vfs_stora.Wal.Engine.{RecoveryEngine, FileLocation}
use yh_filemanager_vfs_stora.Wal.Status.{WalStatus, has_physical_done, has_metadata_done}
use yh_filemanager_vfs_stora.Wal.Recovery.{physical_move_without_wal}
use yh_filemanager_vfs_stora.Wal.Recovery.Move.{by_places}
use yh_filemanager_vfs_stora.Wal.Recovery.Trash.{recover_plain_trash, recover_plain_restore}

module _ {W : Type 0} (engine : RecoveryEngine W) where
  -- The engine has found the file at exactly one of the two places, a file at the first of them has
  -- been moved, and the last call has relabelled the row.
  abbrev pub Relabelled : (Text → Text → Io W (Unit {0})) → Text → Text → W → W → Type 0
  Relabelled relabel a b w w' =
      (first : Bool) × (v : W) × (u : W) × (x : W) × (engine.exists a w ≡ (ok first, v))
      × (engine.exists b v ≡ (ok (not first), u))
      × ((if first then physical_move_without_wal engine a b else pure tt) u ≡ (ok tt, x))
      × (relabel a b x ≡ (ok tt, w'))

  relocate_tail :
      (relabel : Text → Text → Io W (Unit {0})) (n m : Text) (first second : Bool) (a b : Text)
      (w v u w' : W)
      → engine.exists a w ≡ (ok first, v)
      → engine.exists b v ≡ (ok second, u)
      → by_places first second
          (λ z. continue (physical_move_without_wal engine a b z) (λ _. relabel a b))
          (relabel a b)
          (raise n)
          (raise m)
          u
        ≡ (ok tt, w')
      → Relabelled relabel a b w w'
  unfolding by_places
  relocate_tail relabel n m true false a b w v u w' fa fb e =
      let (t, x, moved, labelled) = continue-eq-ok (physical_move_without_wal engine a b u) _ e in
      (true, v, u, x, fa, fb, moved, labelled)
  relocate_tail relabel n m false true a b w v u w' fa fb e = (false, v, u, u, fa, fb, refl, e)
  relocate_tail relabel n m false false a b w v u w' fa fb e = absurd (cc)
  relocate_tail relabel n m true true a b w v u w' fa fb e = absurd (cc)

  -- Where the recovery of a move to the recycle bin that had reached neither the files nor the index
  -- succeeds, the file was at exactly one of the two places, it was moved if it was still at the
  -- first, and the last call has moved its row into the bin.
  pub recover_plain_trash-Relabelled :
      (path trash_path : Text) (st : WalStatus) (w w' : W)
      → has_metadata_done st ≡ false
      → has_physical_done st ≡ false
      → recover_plain_trash engine path trash_path st w ≡ (ok tt, w')
      → Relabelled engine.trash_file path trash_path w w'
  unfolding recover_plain_trash
  recover_plain_trash-Relabelled path trash_path st w w' m p e =
      let (first, v, found, rest) =
        continue-eq-ok (engine.exists path w) _ (rw (m, p, recover_plain_trash) at e) in
      let (second, u, found₂, rest₂) = continue-eq-ok (engine.exists trash_path v) _ rest in
      relocate_tail engine.trash_file _ _ first second path trash_path w v u w' found found₂ rest₂

  -- Where the recovery of a restoration that had reached neither the files nor the index succeeds,
  -- the file was at exactly one of the two places, it was moved if it was still in the bin, and the
  -- last call has moved its row out of the bin.
  pub recover_plain_restore-Relabelled :
      (trash_path original_path : Text) (st : WalStatus) (w w' : W)
      → has_metadata_done st ≡ false
      → has_physical_done st ≡ false
      → recover_plain_restore engine trash_path original_path st w ≡ (ok tt, w')
      → Relabelled engine.restore_file trash_path original_path w w'
  unfolding recover_plain_restore
  recover_plain_restore-Relabelled trash_path original_path st w w' m p e =
      let (first, v, found, rest) =
        continue-eq-ok (engine.exists trash_path w) _ (rw (m, p, recover_plain_restore) at e) in
      let (second, u, found₂, rest₂) = continue-eq-ok (engine.exists original_path v) _ rest in
      relocate_tail engine.restore_file _ _ first second trash_path original_path w v u w' found
        found₂ rest₂

  -- The engine with other calls that write the index.
  abbrev pub with_index :
      (Text → VfsFileInfo → Io W (Unit {0}))
      → (Text → VfsFileInfo → FileLocation → Io W (Unit {0}))
      → (Text → Io W (Unit {0}))
      → (Text → Text → Io W (Unit {0}))
      → RecoveryEngine W
  with_index upsert located delete relabel = record engine {
    upsert_file = upsert;
    upsert_file_with_location = located;
    delete_file = delete;
    move_file = relabel;
    trash_file = relabel;
    restore_file = relabel;
  }
