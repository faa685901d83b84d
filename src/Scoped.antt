-- ===== src/Scoped.antt =====
-- src/vfs/scoped/internal.rs: the paths that the engine of a user takes, and where their files lie.
-- The decoding of percent signs (`percent_decode_str` and `decode_utf8`) is a parameter.
pub mod Segments
pub mod Validated
pub mod Taken
mod Tests
use yh_filemanager_vfs_stora.Prelude.{
  ℕ, suc, Bool, true, false, not, ◌&&◌, ◌||◌, Option, none, some, Result, ok, err, List, [], ◌∷◌,
  ◌++◌, any, length, ltb, ◌==◌, if◌then◌else◌,
}
use yh_filemanager_vfs_stora.Prelude.Text.{
  Text, codes, text_eq, is_empty, starts_with, ends_with, contains, trim_start_matches,
  trim_end_matches, is_control, split, replace,
}
use yh_filemanager_vfs_stora.Prelude.Results.{◌>>=◌}
use yh_filemanager_vfs_stora.Protected.Read.{VfsError, internal}

abbrev pub violation : Text → Text → VfsError
violation what p = internal (codes "Security violation: " ++ what ++ codes " '" ++ p ++ codes "'")

-- `split.peek().is_none()`.
abbrev is_last : List Text → Bool
is_last [] = true
is_last (s ∷ ss) = false

-- The loop over the segments, with what is left of them.
unfoldable pub validate_from : Text → Bool → ℕ → List Text → Result VfsError (Unit {0})
validate_from p ends_with_slash idx [] = ok tt
validate_from p ends_with_slash idx (seg ∷ later) =
    let rest = validate_from p ends_with_slash (suc idx) later in
    if is_empty seg
    then if idx == 0 || (ends_with_slash && is_last later)
      then rest
      else err (violation (codes "empty path segment in") p)
    else if text_eq seg (codes ".") || text_eq seg (codes "..")
    then err (violation (codes "dot segment detected in") p)
    else rest

-- The length of a path is counted in characters: it begins with a slash, so that it has more than
-- one of them where it has more than one byte.
unfoldable pub validate_segments : Text → Result VfsError (Unit {0})
unfolding validate_from
validate_segments p =
    if not (starts_with p (codes "/"))
    then err (internal (codes "Security violation: path must be absolute"))
    else if text_eq p (codes "/")
    then ok tt
    else validate_from p (ends_with p (codes "/") && ltb 1 (length p)) 0 (split b'/' p)

abbrev pub rooted_at : Text → Text
rooted_at path = if starts_with path (codes "/") then path else codes "/" ++ path

module _ (percent_decode : Text → Option Text) where
  abbrev decoded_view : Option Text → Result VfsError (Unit {0})
  decoded_view none = err (internal (codes "Security violation: invalid percent encoding in path"))
  decoded_view (some decoded) = validate_segments decoded

  abbrev pub validate_decoded : Text → Result VfsError (Unit {0})
  validate_decoded normalized =
      if contains normalized (codes "%") then decoded_view (percent_decode normalized) else ok tt

  unfoldable pub validate_file_operation : Text → Result VfsError Text
  unfolding validate_segments
  validate_file_operation path =
      if any is_control (rooted_at path)
      then err (internal (codes "Security violation: control characters in path"))
      else let normalized = replace b'\\' b'/' (rooted_at path) in
        validate_segments normalized >>= λ _. validate_decoded normalized >>= λ _.
        if text_eq normalized (codes "/")
        then ok normalized
        else ok (trim_end_matches b'/' normalized)

  unfoldable pub get_physical_path : Text → Text → Result VfsError Text
  unfolding validate_file_operation
  get_physical_path user_id logical_path = validate_file_operation logical_path >>= λ validated.
      ok (user_id ++ (codes "/" ++ trim_start_matches b'/' validated))
