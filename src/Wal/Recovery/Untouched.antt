-- ===== src/Wal/Recovery/Untouched.antt =====
-- Recovery in src/vfs/wal/mod.rs of an operation whose metadata was written.
use yh_filemanager_vfs_stora.Prelude.{
  ℕ, ◌≡◌, refl, ◌∙◌, Bool, true, false, Option, none, some, Result, ok, err, ◌++◌, is_some,
  if◌then◌else◌,
}
use yh_filemanager_vfs_stora.Prelude.Text.{Text, codes}
use yh_filemanager_vfs_stora.Wal.Io.{Io, continue}
use yh_filemanager_vfs_stora.Wal.Engine.{RecoveryEngine}
use yh_filemanager_vfs_stora.Wal.Operation.{
  WalOperation, WalProtectedWriteMeta, WalCopyPlan, write, delete, copy, move, rename,
  move_to_trash, create_dir, restore_trash,
}
use yh_filemanager_vfs_stora.Wal.Replay.{recover_operation}
use yh_filemanager_vfs_stora.Wal.Status.{WalStatus, has_metadata_done}
use yh_filemanager_vfs_stora.Wal.Recovery.{
  protected_root_for_path, is_root_protected_path, same_protected_domain,
}
use yh_filemanager_vfs_stora.Wal.Recovery.Laws.{ReadsArePure}
use yh_filemanager_vfs_stora.Wal.Recovery.Write.{
  recover_write, recover_protected_write, recover_plain_write, recover_delete, recover_create_dir,
}
use yh_filemanager_vfs_stora.Wal.Recovery.Copy.{
  recover_copy, recover_plain_copy, recover_protected_copy,
}
use yh_filemanager_vfs_stora.Wal.Recovery.Move.{
  recover_move, recover_protected_move, recover_plain_move,
}
use yh_filemanager_vfs_stora.Wal.Recovery.Trash.{
  recover_move_to_trash, recover_protected_trash, recover_plain_trash, recover_restore_trash,
  recover_protected_restore, recover_plain_restore,
}

-- A chain of calls keeps the world if each call does.
pub same-continue :
    {W A B : Type 0} (r : Result Text A × W) (f : A → Io W B) (w : W)
    → r.1 ≡ w
    → ((a : A) (v : W) → (f a v).1 ≡ v)
    → (continue r f).1 ≡ w
same-continue (ok a, v) f w e h = h a v ∙ e
same-continue (err x, v) f w e h = e

module _ {W : Type 0} (engine : RecoveryEngine W) (pure_ : ReadsArePure engine) (st : WalStatus)
    (written : has_metadata_done st ≡ true) where
  root-same : (p : Text) (w : W) → (protected_root_for_path engine p w).1 ≡ w
  unfolding protected_root_for_path
  root-same p w = same-continue _ _ w (pure_.settings_pure w) (λ s v. refl)

  root_slash-same : (p : Text) (w : W) → (is_root_protected_path engine p w).1 ≡ w
  unfolding is_root_protected_path
  root_slash-same p w =
      same-continue (protected_root_for_path engine p w) _ w (root-same p w) (λ r v. refl)

  domain-same : (p q : Text) (w : W) → (same_protected_domain engine p q w).1 ≡ w
  unfolding same_protected_domain
  domain-same p q w =
      same-continue (protected_root_for_path engine p w) _ w (root-same p w) (λ r v.
        same-continue (protected_root_for_path engine q v) _ v (root-same q v) (λ t u. refl))

  plain_write-same : (p : Text) (w : W) → (recover_plain_write engine p st w).1 ≡ w
  unfolding recover_plain_write
  plain_write-same p w =
      rw (written, recover_plain_write)
        (same-continue (engine.exists p w) _ w (pure_.exists_pure p w) (λ r v.
          same-continue (engine.exists (p ++ codes ".tmp") v) _ v
            (pure_.exists_pure (p ++ codes ".tmp") v) (λ t u. refl)))

  protected_write-same :
      (p : Text) (n : ℕ) (m : Option WalProtectedWriteMeta) (w : W)
      → (recover_protected_write engine p n m st w).1 ≡ w
  unfolding recover_protected_write
  protected_write-same p n m w =
      rw (written, recover_protected_write)
        (same-continue (engine.get_file_metadata p w) _ w (pure_.metadata_pure p w) (λ r v. refl))

  if-same :
      (b : Bool) (f g : Io W (Unit {0})) (w : W)
      → (f w).1 ≡ w
      → (g w).1 ≡ w
      → ((if b then f else g) w).1 ≡ w
  if-same true f g w hf hg = hf
  if-same false f g w hf hg = hg

  write-same :
      (p : Text) (n : ℕ) (m : Option WalProtectedWriteMeta) (w : W)
      → (recover_write engine p n m st w).1 ≡ w
  unfolding recover_write
  write-same p n m w =
      same-continue (protected_root_for_path engine p w) _ w (root-same p w) (λ r v.
        if-same (is_some r) (recover_protected_write engine p n m st)
          (recover_plain_write engine p st) v (protected_write-same p n m v) (plain_write-same p v))

  move-same : (p q : Text) (w : W) → (recover_move engine p q st w).1 ≡ w
  unfolding recover_move
  move-same p q w =
      same-continue (same_protected_domain engine p q w) _ w (domain-same p q w) (λ r v.
        if-same r (recover_protected_move engine p q st) (recover_plain_move engine p q st) v
          (rw (written, recover_protected_move)) (rw (written, recover_plain_move)))

  trash-same : (p q : Text) (w : W) → (recover_move_to_trash engine p q st w).1 ≡ w
  unfolding recover_move_to_trash
  trash-same p q w =
      same-continue (is_root_protected_path engine p w) _ w (root_slash-same p w) (λ r v.
        if-same r (recover_protected_trash engine p q st) (recover_plain_trash engine p q st) v
          (rw (written, recover_protected_trash)) (rw (written, recover_plain_trash)))

  restore-same : (p q : Text) (w : W) → (recover_restore_trash engine p q st w).1 ≡ w
  unfolding recover_restore_trash
  restore-same p q w =
      same-continue (is_root_protected_path engine q w) _ w (root_slash-same q w) (λ r v.
        if-same r (recover_protected_restore engine p q st) (recover_plain_restore engine p q st) v
          (rw (written, recover_protected_restore)) (rw (written, recover_plain_restore)))

  copy-same : (p q : Text) (m : Option WalCopyPlan) (w : W) → (recover_copy engine p q m st w).1 ≡ w
  unfolding recover_copy
  copy-same p q none w = rw (written, recover_plain_copy)
  copy-same p q (some plan) w = rw (written, recover_protected_copy)

  -- Recovering an operation whose metadata was written already, or which was completed, leaves the
  -- files and the index as they are, whichever operation it is, if the engine's reads change
  -- nothing.
  pub recover_operation_written :
      (op : WalOperation) (w : W) → (recover_operation engine op st w).1 ≡ w
  unfolding recover_operation
  recover_operation_written (write p n m) w = write-same p n m w
  recover_operation_written (delete p) w = rw (written, recover_delete)
  recover_operation_written (copy p q m) w = copy-same p q m w
  recover_operation_written (move p q) w = move-same p q w
  recover_operation_written (rename p q) w = move-same p q w
  recover_operation_written (move_to_trash p q) w = trash-same p q w
  recover_operation_written (create_dir p) w = rw (written, recover_create_dir)
  recover_operation_written (restore_trash p q) w = restore-same p q w
