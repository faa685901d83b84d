-- ===== src/Wal/Tests/Model.antt =====
-- A small world of files for the tests of the recovery: which physical paths have a file, and
-- which logical paths have a row. Every call of its engine succeeds where it can.
use yh_filemanager_vfs_stora.Prelude.{
  refl, Bool, false, not, ◌&&◌, ◌||◌, ◌++◌, none, ok, err, if◌then◌else◌,
}
use yh_filemanager_vfs_stora.Prelude.Text.{Text, codes, text_eq, starts_with}
use yh_filemanager_vfs_stora.Types.{VfsFileInfo}
use yh_filemanager_vfs_stora.Wal.Engine.{RecoveryEngine}
use yh_filemanager_vfs_stora.Wal.Recovery.{to_physical_user_path, recovered_info}
use yh_filemanager_vfs_stora.Wal.Recovery.Laws.{ReadsArePure}

pub record Disk : Type 0 where
  pub files : Text → Bool
  pub index : Text → Bool

abbrev pub alice : Text
alice = codes "alice"

abbrev pub put_path : (Text → Bool) → Text → Text → Bool
put_path f p q = text_eq q p || f q

-- A path at or below another.
unfoldable pub is_at_or_below : Text → Text → Bool
is_at_or_below p q = text_eq q p || starts_with q (p ++ codes "/")

abbrev pub drop_path : (Text → Bool) → Text → Text → Bool
drop_path f p q = not (is_at_or_below p q) && f q

abbrev pub drop_row : (Text → Bool) → Text → Text → Bool
drop_row f p q = not (text_eq q p) && f q

abbrev pub move_row : (Text → Bool) → Text → Text → Text → Bool
move_row f a b q = if text_eq q b then f a || f b else not (text_eq q a) && f q

abbrev pub move_path : (Text → Bool) → Text → Text → Text → Bool
move_path f a b q = if text_eq q b then f a else not (text_eq q a) && f q

abbrev pub physical : Text → Text
physical = to_physical_user_path alice

abbrev blank : Text → VfsFileInfo
blank p = recovered_info p false 0 none

abbrev pub disk_engine : RecoveryEngine Disk
disk_engine = record {
  user_id = alice;
  pool_name = codes "pool";
  backend_type = codes "local";
  load_user_settings = λ w. (ok none, w);
  exists = λ p w. (ok (w.files (physical p)), w);
  stat = λ p w. if w.files (physical p) then (ok (blank p), w) else (err (codes "not found"), w);
  pool_exists = λ p w. (ok (w.files p), w);
  pool_stat = λ p w. if w.files p then (ok (blank p), w) else (err (codes "not found"), w);
  pool_delete = λ p w. (ok tt, record w { files = drop_path w.files p });
  pool_move_file = λ a b w. (ok tt, record w { files = move_path w.files a b });
  pool_create_dir = λ p w. (ok tt, record w { files = put_path w.files p });
  invalidate_parent_ls = λ p w. w;
  get_file_metadata = λ p w. (ok none, w);
  upsert_file = λ p i w. (ok tt, record w { index = put_path w.index p });
  upsert_file_with_location = λ p i l w. (ok tt, record w { index = put_path w.index p });
  delete_file = λ p w. (ok tt, record w { index = drop_row w.index p });
  move_file = λ a b w. (ok tt, record w { index = move_row w.index a b });
  trash_file = λ a b w. (ok tt, record w { index = move_row w.index a b });
  restore_file = λ a b w. (ok tt, record w { index = move_row w.index a b });
  now = λ w. 7;
}

pub disk-ReadsArePure : ReadsArePure disk_engine
disk-ReadsArePure = record {
  settings_pure = λ w. refl;
  exists_pure = λ p w. refl;
  metadata_pure = λ p w. refl;
}
