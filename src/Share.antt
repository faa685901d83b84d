-- ===== src/Share.antt =====
-- src/utils/share_access.rs: the paths that a visitor of a share may ask for. The decoding of
-- percent signs (`percent_decode_str` and `decode_utf8`) and `char::is_alphanumeric` are
-- parameters.
pub mod Paths
pub mod Descendants
mod Tests
use yh_filemanager_vfs_stora.Prelude.{
  ℕ, Bool, true, false, not, ◌&&◌, ◌||◌, Option, none, some, Result, ok, err, List, [], ◌∷◌, ◌++◌,
  all, any, ◌==◌, if◌then◌else◌,
}
use yh_filemanager_vfs_stora.Prelude.Text.{
  Text, codes, text_eq, is_empty, starts_with, contains, strip_prefix, trim, trim_start_matches,
  trim_end_matches, is_control, split, replace, join,
}

abbrev pub invalid_path : Text
invalid_path = codes "INVALID_PATH"

abbrev pub with_root : List Text → Text
with_root segments = b'/' ∷ join b'/' segments

unfoldable pub is_blank_segment : Text → Bool
is_blank_segment segment = is_empty segment || text_eq segment (codes ".")

-- The segments that count, trimmed.
unfoldable pub kept_segments : List Text → List Text
unfolding is_blank_segment trim
kept_segments [] = []
kept_segments (s ∷ ss) =
    let rest = kept_segments ss in
    let segment = trim s in if is_blank_segment segment then rest else segment ∷ rest

unfoldable pub absolute_segments : Text → List Text
unfolding kept_segments split replace
absolute_segments trimmed = kept_segments (split b'/' (replace b'\\' b'/' trimmed))

unfoldable pub normalize_absolute_path : Text → Text
unfolding absolute_segments
normalize_absolute_path path =
    let trimmed = trim path in
    if is_empty trimmed || text_eq trimmed (codes "/")
    then codes "/"
    else with_root (absolute_segments trimmed)

-- `none` where a segment is refused.
unfoldable pub checked_segments : List Text → Option (List Text)
unfolding is_blank_segment trim is_control
checked_segments [] = some []
checked_segments (s ∷ ss) =
    let rest = checked_segments ss in
    let segment = trim s in
    if is_blank_segment segment
    then rest
    else if text_eq segment (codes "..") || any is_control segment
    then none
    else elim rest [ none ↦ none | some segments ↦ some (segment ∷ segments) ]

abbrev pub checked_path : Option (List Text) → Result Text Text
checked_path none = err invalid_path
checked_path (some segments) = ok (with_root segments)

unfoldable pub is_path_within_root : Text → Text → Bool
unfolding normalize_absolute_path strip_prefix
is_path_within_root root candidate =
    let root = normalize_absolute_path root in
    let candidate = normalize_absolute_path candidate in
    text_eq root (codes "/") || text_eq candidate root || (elim (strip_prefix candidate root) [
      | none ↦ false
      | some rest ↦ starts_with rest (codes "/")
    ])

module _ (percent_decode : Text → Option Text) where
  abbrev pub decoded : Option Text → Result Text Text
  decoded none = err invalid_path
  decoded (some value) = ok value

  unfoldable pub decode_share_path : Text → Result Text Text
  decode_share_path raw =
      let normalized = replace b'\\' b'/' raw in
      if contains normalized (codes "%") then decoded (percent_decode normalized) else ok normalized

  abbrev pub relative_of : Result Text Text → Result Text Text
  relative_of (err e) = err e
  relative_of (ok value) = checked_path (checked_segments (split b'/' value))

  unfoldable pub normalize_share_relative_path : Text → Result Text Text
  unfolding decode_share_path checked_segments split
  normalize_share_relative_path requested_path =
      relative_of (decode_share_path (trim requested_path))

  -- The path below the base, as it is put together.
  unfoldable pub below : Text → Text → Text
  below base_path relative_path =
      if text_eq base_path (codes "/")
      then relative_path
      else trim_end_matches b'/' base_path ++ (b'/' ∷ trim_start_matches b'/' relative_path)

  abbrev pub resolved : Text → Bool → Result Text Text → Result Text Text
  resolved base_path base_is_dir (err e) = err e
  resolved base_path base_is_dir (ok relative_path) =
      if text_eq relative_path (codes "/")
      then ok base_path
      else if not base_is_dir
      then err (codes "NOT_A_DIRECTORY")
      else if is_path_within_root base_path (below base_path relative_path)
      then ok (below base_path relative_path)
      else err invalid_path

  unfoldable pub resolve_share_descendant_path : Text → Text → Bool → Result Text Text
  unfolding normalize_share_relative_path normalize_absolute_path below is_path_within_root
  resolve_share_descendant_path base_path requested_path base_is_dir =
      resolved (normalize_absolute_path base_path) base_is_dir
        (normalize_share_relative_path requested_path)

  module _ (is_alphanumeric : ℕ → Bool) where
    abbrev is_plain : ℕ → Bool
    is_plain c =
        is_alphanumeric c
        || c == b' '
        || c == b'.'
        || c == b'_'
        || c == b'-'
        || c == b'('
        || c == b')'
        || c == b'['
        || c == b']'

    unfoldable pub is_direct_share_name_allowed : Text → Bool
    is_direct_share_name_allowed name =
        let trimmed = trim name in not (is_empty trimmed) && all is_plain trimmed

    abbrev direct_path_allowed : Result Text Text → Bool
    direct_path_allowed (err e) = false
    direct_path_allowed (ok path) =
        text_eq path (codes "/")
        || all is_direct_share_name_allowed
            (split b'/' (trim_end_matches b'/' (trim_start_matches b'/' path)))

    unfoldable pub is_direct_share_path_allowed : Text → Bool
    unfolding normalize_share_relative_path is_direct_share_name_allowed
    is_direct_share_path_allowed requested_path =
        direct_path_allowed (normalize_share_relative_path requested_path)
