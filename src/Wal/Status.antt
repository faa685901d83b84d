-- ===== src/Wal/Status.antt =====
-- `WalStatus` of src/vfs/wal/mod.rs.
use yh_filemanager_vfs_stora.Prelude.{◌≡◌, refl, Bool, true, false, if◌then◌else◌}
use yh_filemanager_vfs_stora.Prelude.Text.{Text, codes, text_eq, trim, to_ascii_lowercase}

pub data WalStatus : Type 0 where
  pending recovering physical_done metadata_done completed failed : WalStatus

abbrev pub as_str : WalStatus → Text
as_str pending = codes "pending"
as_str recovering = codes "recovering"
as_str physical_done = codes "physical_done"
as_str metadata_done = codes "metadata_done"
as_str completed = codes "completed"
as_str failed = codes "failed"

unfoldable pub parse : Text → WalStatus
unfolding text_eq trim to_ascii_lowercase
parse raw =
    let word = to_ascii_lowercase (trim raw) in
    if text_eq word (codes "recovering")
    then recovering
    else if text_eq word (codes "physical_done")
    then physical_done
    else if text_eq word (codes "metadata_done")
    then metadata_done
    else if text_eq word (codes "completed")
    then completed
    else if text_eq word (codes "failed")
    then failed
    else pending

abbrev pub is_active : WalStatus → Bool
is_active completed = false
is_active _ = true

abbrev pub has_physical_done : WalStatus → Bool
has_physical_done physical_done = true
has_physical_done metadata_done = true
has_physical_done completed = true
has_physical_done _ = false

abbrev pub has_metadata_done : WalStatus → Bool
has_metadata_done metadata_done = true
has_metadata_done completed = true
has_metadata_done _ = false

-- A status that is written to the journal is read back as it was.
pub parse-as_str : (s : WalStatus) → parse (as_str s) ≡ s
unfolding parse
parse-as_str pending = refl
parse-as_str recovering = refl
parse-as_str physical_done = refl
parse-as_str metadata_done = refl
parse-as_str completed = refl
parse-as_str failed = refl
