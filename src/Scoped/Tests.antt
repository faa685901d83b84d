-- ===== src/Scoped/Tests.antt =====
-- Concrete paths, which show that the hypotheses of the theorems on them can hold.
use yh_filemanager_vfs_stora.Prelude.{
  ◌≡◌, refl, true, Option, some, ok, err, List, [], ◌∷◌, ◌++◌, all, if◌then◌else◌,
}
use yh_filemanager_vfs_stora.Prelude.Text.{
  Text, codes, text_eq, trim_start_by, trim_end_by, split, replace, join, contains, starts_with,
  ends_with, is_control,
}
use yh_filemanager_vfs_stora.Share.{with_root}
use yh_filemanager_vfs_stora.Share.Paths.{is_safe}
use yh_filemanager_vfs_stora.Scoped.{
  violation, validate_from, validate_segments, validate_file_operation, get_physical_path,
}
use yh_filemanager_vfs_stora.Scoped.Taken.{get_physical_path-with_root}
use yh_filemanager_vfs_stora.Scoped.Validated.{get_physical_path-is_safe}

-- `%2e` is a dot; nothing else is decoded.
abbrev dots : Text → Option Text
dots s = if contains s (codes "%2e%2e") then some (codes "/a/../b") else some s

get_physical_path-is_safe_example :
    (segments : List Text) × (codes "u/a/b.txt" ≡ codes "u" ++ with_root segments)
    × (all is_safe segments ≡ true)
unfolding get_physical_path validate_file_operation validate_segments validate_from trim_start_by
    trim_end_by split replace join contains starts_with ends_with text_eq is_control
get_physical_path-is_safe_example =
    get_physical_path-is_safe dots (codes "u") (codes "a\\b.txt/") (codes "u/a/b.txt") refl

parent_test :
    get_physical_path dots (codes "u") (codes "/a/../b")
    ≡ err (violation (codes "dot segment detected in") (codes "/a/../b"))
unfolding get_physical_path validate_file_operation validate_segments validate_from trim_start_by
    trim_end_by split replace join contains starts_with ends_with text_eq is_control
parent_test = refl

encoded_test :
    get_physical_path dots (codes "u") (codes "/a/%2e%2e/b")
    ≡ err (violation (codes "dot segment detected in") (codes "/a/../b"))
unfolding get_physical_path validate_file_operation validate_segments validate_from trim_start_by
    trim_end_by split replace join contains starts_with ends_with text_eq is_control
encoded_test = refl

empty_segment_test :
    get_physical_path dots (codes "u") (codes "/a//")
    ≡ err (violation (codes "empty path segment in") (codes "/a//"))
unfolding get_physical_path validate_file_operation validate_segments validate_from trim_start_by
    trim_end_by split replace join contains starts_with ends_with text_eq is_control
empty_segment_test = refl

get_physical_path-with_root_example :
    get_physical_path dots (codes "u") (with_root (codes "a" ∷ codes "b.txt" ∷ []))
    ≡ ok (codes "u" ++ with_root (codes "a" ∷ codes "b.txt" ∷ []))
unfolding text_eq is_control
get_physical_path-with_root_example =
    get_physical_path-with_root dots (codes "u") (codes "a" ∷ codes "b.txt" ∷ []) refl
