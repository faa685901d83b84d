-- ===== src/Wal/Tests.antt =====
-- Concrete runs of the recovery, which show that the hypotheses of its theorems can hold.
pub mod Model
mod Replays
use yh_filemanager_vfs_stora.Prelude.{
  ℕ, ◌≡◌, ◌≢◌, refl, ap, Bool, true, false, ◌||◌, Option, none, some, Result, ok, err, List, [],
  ◌∷◌, length,
}
use yh_filemanager_vfs_stora.Prelude.Text.{Text, codes, text_eq, trim_start_by}
use yh_filemanager_vfs_stora.Wal.Status.{
  WalStatus, pending, physical_done, metadata_done, completed, recovering, failed, as_str, parse,
  is_active, parse-as_str,
}
use yh_filemanager_vfs_stora.Wal.Operation.{WalOperation, delete, move}
use yh_filemanager_vfs_stora.Wal.Recovery.{
  to_physical_user_path, cleanup_orphan_temp, sync_index_for_path, physical_move_without_wal,
}
use yh_filemanager_vfs_stora.Wal.Recovery.Write.{
  recover_plain_write, recover_delete, recover_create_dir,
}
use yh_filemanager_vfs_stora.Wal.Recovery.Move.{recover_plain_move, by_places}
use yh_filemanager_vfs_stora.Wal.Recovery.Trash.{recover_plain_trash, recover_plain_restore}
use yh_filemanager_vfs_stora.Wal.Io.{Io, raise}
use yh_filemanager_vfs_stora.Wal.Recovery.Agreement.{Told, recover_plain_write-Told}
use yh_filemanager_vfs_stora.Wal.Recovery.Relocation.{
  Relabelled, recover_plain_trash-Relabelled, recover_plain_restore-Relabelled,
}
use yh_filemanager_vfs_stora.Wal.Recovery.Untouched.{recover_operation_written}
use yh_filemanager_vfs_stora.Wal.Replay.{recover_operation}
use yh_filemanager_vfs_stora.Wal.Tests.Model.{Disk, alice, disk_engine, disk-ReadsArePure, physical}

abbrev file : Text
file = codes "/a"

abbrev bin : Text
bin = codes "/.recycle_bin/a"

abbrev indexed_file : Disk
indexed_file = record { files = text_eq (physical file); index = text_eq file }

abbrev binned_file : Disk
binned_file = record { files = text_eq (physical bin); index = text_eq bin }

file_not_bin : file ≢ bin
file_not_bin e = absurd (cc)

abbrev written : Disk
written = (recover_plain_write disk_engine file pending indexed_file).1

recover_plain_write-Told_example :
    (target : Bool) × (v : Disk) × (disk_engine.exists file indexed_file ≡ (ok target, v))
    × Told disk_engine target file written
unfolding recover_plain_write text_eq to_physical_user_path trim_start_by sync_index_for_path
recover_plain_write-Told_example =
    recover_plain_write-Told disk_engine file pending indexed_file written refl refl

abbrev deleted : Disk
deleted = (recover_delete disk_engine file pending indexed_file).1

abbrev moved : Disk
moved = (recover_plain_move disk_engine file bin pending indexed_file).1

-- An index that refuses every call.
abbrev refuse : Text → Io Disk (Unit {0})
refuse message = raise message

recover_operation_written_example :
    (recover_operation disk_engine (move file bin) metadata_done indexed_file).1 ≡ indexed_file
recover_operation_written_example =
    recover_operation_written disk_engine disk-ReadsArePure metadata_done refl (move file bin)
      indexed_file

abbrev trashed : Disk
trashed = (recover_plain_trash disk_engine file bin pending indexed_file).1

recover_plain_trash-Relabelled_example :
    Relabelled disk_engine disk_engine.trash_file file bin indexed_file trashed
unfolding recover_plain_trash text_eq to_physical_user_path trim_start_by by_places
    physical_move_without_wal
recover_plain_trash-Relabelled_example =
    recover_plain_trash-Relabelled disk_engine file bin pending indexed_file trashed refl refl refl

abbrev restored : Disk
restored = (recover_plain_restore disk_engine bin file pending binned_file).1

recover_plain_restore-Relabelled_example :
    Relabelled disk_engine disk_engine.restore_file bin file binned_file restored
unfolding recover_plain_restore text_eq to_physical_user_path trim_start_by by_places
    physical_move_without_wal
recover_plain_restore-Relabelled_example =
    recover_plain_restore-Relabelled disk_engine bin file pending binned_file restored refl refl
      refl
