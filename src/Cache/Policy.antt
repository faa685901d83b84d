-- ===== src/Cache/Policy.antt =====
-- src/vfs/cache/policy.rs: which paths the read cache and the write cache may hold.
pub mod Segments
use yh_filemanager_vfs_stora.Prelude.{
  ℕ, Bool, true, false, not, ◌&&◌, ◌||◌, Option, none, some, List, map, any, ◌==◌, if◌then◌else◌,
}
use yh_filemanager_vfs_stora.Prelude.Text.{
  Text, codes, text_eq, is_empty, starts_with, ends_with, contains, trim, trim_start_matches,
  trim_end_matches, to_ascii_lowercase, split, rsplit_once, trim_start_by, trim_end_by,
}

pub record CachePathPolicy : Type 0 where
  pub allow_thumbnail_paths : Bool
  pub skip_extensions : List Text

unfoldable pub normalize_extension : Text → Text
unfolding trim trim_start_by to_ascii_lowercase
normalize_extension ext = to_ascii_lowercase (trim_start_matches b'.' (trim ext))

pub new_policy : Bool → List Text → CachePathPolicy
new_policy allow_thumbnail_paths skip_extensions = record {
  allow_thumbnail_paths = allow_thumbnail_paths;
  skip_extensions = map normalize_extension skip_extensions;
}

-- `path.rsplit('/').next()`: what stands behind the last slash.
unfoldable pub file_name : Text → Text
unfolding rsplit_once
file_name path = elim (rsplit_once b'/' path) [ none ↦ path | some (before, name) ↦ name ]

extension_of : Text → Option Text
unfolding normalize_extension
extension_of ext =
    let normalized = trim ext in
    if is_empty normalized then none else some (normalize_extension normalized)

unfoldable pub normalized_file_extension : Text → Option Text
unfolding file_name rsplit_once extension_of
normalized_file_extension path = elim (rsplit_once b'.' (file_name path)) [
  | none ↦ none
  | some (stem, ext) ↦ extension_of ext
]

unfoldable pub is_thumbnail_path : Text → Bool
is_thumbnail_path path =
    let normalized = trim_end_matches b'/' path in
    text_eq normalized (codes "/.thumbs")
    || text_eq normalized (codes "/.thumbs_cache")
    || ends_with normalized (codes "/.thumbs")
    || contains normalized (codes "/.thumbs/")
    || starts_with normalized (codes "/.thumbs_cache/")
    || ends_with normalized (codes "/.thumbs_cache")
    || contains normalized (codes "/.thumbs_cache/")

unfoldable pub is_temp_namespace_path : Text → Bool
is_temp_namespace_path path =
    starts_with path (codes "/.virtual/tmp") || contains path (codes "/.virtual/tmp/")

unfoldable pub is_recycle_bin_path : Text → Bool
is_recycle_bin_path path =
    text_eq path (codes "/.recycle_bin")
    || starts_with path (codes "/.recycle_bin/")
    || ends_with path (codes "/.recycle_bin")
    || contains path (codes "/.recycle_bin/")

unfoldable pub extension_allowed : List Text → Option Text → Bool
extension_allowed skip none = true
extension_allowed skip (some ext) = not (any (λ e. text_eq e ext) skip)

unfoldable pub allows : CachePathPolicy → Text → Bool
unfolding extension_allowed
allows policy path =
    if is_temp_namespace_path path || is_recycle_bin_path path
    then false
    else if not policy.allow_thumbnail_paths && is_thumbnail_path path
    then false
    else extension_allowed policy.skip_extensions (normalized_file_extension path)
