-- ===== src/Settings.antt =====
-- src/business/services/user_settings.rs: the protected root of a user.
use yh_filemanager_vfs_stora.Prelude.{
  Bool, true, false, ◌||◌, Option, none, some, ◌++◌, if◌then◌else◌,
}
use yh_filemanager_vfs_stora.Prelude.Text.{
  Text, codes, text_eq, is_empty, starts_with, trim, trim_end_matches,
}

-- The part of `UserSettingsSnapshot` that the protection of paths reads.
pub record UserSettingsSnapshot : Type 0 where
  pub protected_root : Option Text

abbrev non_empty : Text → Option Text
non_empty value = if is_empty value then none else some value

unfoldable pub protected_root_trimmed : UserSettingsSnapshot → Option Text
protected_root_trimmed s = elim s.protected_root [ none ↦ none | some root ↦ non_empty (trim root) ]

-- Without the trailing slashes, and `/` where nothing is left.
unfoldable pub normalize_root : Text → Text
normalize_root path =
    let normalized = trim_end_matches b'/' path in
    if is_empty normalized then codes "/" else normalized

unfoldable pub matches_root : Text → Text → Bool
unfolding normalize_root
matches_root root path =
    let normalized_path = normalize_root path in
    let normalized_root = normalize_root root in
    if text_eq normalized_root (codes "/")
    then true
    else text_eq normalized_path normalized_root
      || starts_with normalized_path (normalized_root ++ codes "/")

unfoldable pub matches_protected_root : UserSettingsSnapshot → Text → Bool
unfolding matches_root
matches_protected_root s path = elim (protected_root_trimmed s) [
  | none ↦ false
  | some root ↦ matches_root root path
]
