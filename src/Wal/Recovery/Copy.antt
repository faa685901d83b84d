-- ===== src/Wal/Recovery/Copy.antt =====
-- `recover_copy` of src/vfs/wal/mod.rs, with the plan of a protected copy.
use yh_filemanager_vfs_stora.Prelude.{
  Bool, false, Option, none, some, List, [], ◌∷◌, ◌++◌, reverse, ok, if◌then◌else◌,
}
use yh_filemanager_vfs_stora.Prelude.Int.{pos_part}
use yh_filemanager_vfs_stora.Prelude.Text.{Text, codes, is_empty}
use yh_filemanager_vfs_stora.Wal.Io.{Io, ◌>>=◌, ◌>>◌, pure, raise}
use yh_filemanager_vfs_stora.Wal.Engine.{RecoveryEngine, IndexRow}
use yh_filemanager_vfs_stora.Wal.Operation.{WalCopyPlan, WalCopyPlanEntry}
use yh_filemanager_vfs_stora.Wal.Status.{WalStatus, has_physical_done, has_metadata_done}
use yh_filemanager_vfs_stora.Wal.Recovery.{sync_index_for_path, recovered_info}

abbrev backend_key_of : Option IndexRow → Text
backend_key_of none = []
backend_key_of (some row) = elim row.location.backend_key [ none ↦ [] | some key ↦ key ]

-- `missing.join(", ")`.
unfoldable pub join_comma : List Text → Text
join_comma [] = []
join_comma (p ∷ []) = p
join_comma (p ∷ q ∷ ps) = p ++ (codes ", " ++ join_comma (q ∷ ps))

module _ {W : Type 0} (engine : RecoveryEngine W) where
  open engine use {
    exists, pool_exists, get_file_metadata, upsert_file_with_location, delete_file, now,
  }

  -- Whether the target's row names a blob that the pool has.
  unfoldable pub has_blob : Text → Io W Bool
  has_blob dst_backend = if is_empty dst_backend then pure false else pool_exists dst_backend

  unfoldable pub index_from_source : Text → Option IndexRow → Io W (Unit {0})
  index_from_source dst none = sync_index_for_path engine dst
  index_from_source dst (some row) =
      upsert_file_with_location dst
        (recovered_info dst row.is_dir (pos_part row.size) row.file_updated_at) row.location

  unfoldable pub sync_index_for_copy_target : Text → Text → Io W (Unit {0})
  unfolding has_blob index_from_source
  sync_index_for_copy_target src dst = do
    dst_meta ← get_file_metadata dst
    done ← has_blob (backend_key_of dst_meta)
    if done then pure tt else (do src_meta ← get_file_metadata src; index_from_source dst src_meta)

  -- The targets whose blobs are not there.
  unfoldable pub missing_blobs : List WalCopyPlanEntry → Io W (List Text)
  missing_blobs [] = pure []
  missing_blobs (entry ∷ entries) =
      let rest = missing_blobs entries in
      if entry.is_dir then rest else elim entry.dst_backend_key [
        | none ↦ raise (
            codes "Protected copy WAL entry for '"
            ++ (entry.dst_path ++ codes "' is missing dst_backend_key"))
        | some backend_key ↦ do
          there ← pool_exists backend_key
          missing ← rest
          pure (if there then missing else entry.dst_path ∷ missing)
      ]

  unfoldable pub rebuild_protected_copy_index : List WalCopyPlanEntry → Io W (Unit {0})
  rebuild_protected_copy_index [] = pure tt
  rebuild_protected_copy_index (entry ∷ entries) = do
    time ← λ w. (ok (now w), w)
    upsert_file_with_location entry.dst_path
        (recovered_info entry.dst_path entry.is_dir entry.size (some time))
        (record {
          storage_id = entry.storage_id;
          backend_type = entry.backend_type;
          backend_key = entry.dst_backend_key;
          physical_size = entry.physical_size;
          protected_meta = entry.protected_meta;
        })
    rebuild_protected_copy_index entries

  unfoldable pub delete_targets : List WalCopyPlanEntry → Io W (Unit {0})
  delete_targets [] = pure tt
  delete_targets (entry ∷ entries) = do delete_file entry.dst_path; delete_targets entries

  unfoldable pub cleanup_protected_copy_index : WalCopyPlan → Io W (Unit {0})
  unfolding delete_targets
  cleanup_protected_copy_index plan = delete_targets (reverse plan.entries)

  unfoldable pub recover_protected_copy : WalCopyPlan → WalStatus → Io W (Unit {0})
  recover_protected_copy plan status = if has_metadata_done status then pure tt else (do
    missing ← missing_blobs plan.entries
    elim missing [
      | [] ↦ rebuild_protected_copy_index plan.entries
      | m ∷ ms ↦ do
        cleanup_protected_copy_index plan
        raise (codes "Protected copy recovery missing physical blobs for: " ++ join_comma (m ∷ ms))
    ])

  unfoldable pub recover_plain_copy : Text → Text → WalStatus → Io W (Unit {0})
  recover_plain_copy src dst status =
      if has_metadata_done status
      then pure tt
      else if has_physical_done status
      then sync_index_for_copy_target src dst
      else (do
        there ← exists dst
        if there then sync_index_for_copy_target src dst else delete_file dst)

  unfoldable pub recover_copy : Text → Text → Option WalCopyPlan → WalStatus → Io W (Unit {0})
  unfolding recover_plain_copy recover_protected_copy
  recover_copy src dst none status = recover_plain_copy src dst status
  recover_copy src dst (some plan) status = recover_protected_copy plan status
