-- ===== src/Share/Tests.antt =====
-- Concrete paths, which show that the hypotheses of the theorems on shares can hold.
use yh_filemanager_vfs_stora.Prelude.{◌≡◌, refl, true, Option, some, ok, err, List, ◌++◌, all}
use yh_filemanager_vfs_stora.Prelude.Text.{
  Text, codes, text_eq, trim, trim_start_by, trim_end_by, split, replace, join, contains,
  starts_with, strip_prefix, is_control,
}
use yh_filemanager_vfs_stora.Share.{
  with_root, normalize_share_relative_path, decode_share_path, checked_segments, is_blank_segment,
  normalize_absolute_path, absolute_segments, kept_segments, resolve_share_descendant_path, below,
  is_path_within_root, invalid_path,
}
use yh_filemanager_vfs_stora.Share.Paths.{is_safe, normalize_share_relative_path-is_safe}
use yh_filemanager_vfs_stora.Share.Descendants.{resolve_share_descendant_path-is_safe}

abbrev undecoded : Text → Option Text
undecoded value = some value

normalize_share_relative_path-is_safe_example :
    (segments : List Text) × (codes "/a/b" ≡ with_root segments) × (all is_safe segments ≡ true)
unfolding normalize_share_relative_path decode_share_path checked_segments is_blank_segment trim
    trim_start_by trim_end_by split replace join contains starts_with text_eq is_control
normalize_share_relative_path-is_safe_example =
    normalize_share_relative_path-is_safe undecoded (codes "./a//b ") (codes "/a/b") refl

resolve_share_descendant_path-is_safe_example :
    (base below_base : List Text) × (normalize_absolute_path (codes "/s") ≡ with_root base)
    × (codes "/s/a" ≡ with_root (base ++ below_base))
    × (all is_safe below_base ≡ true)
unfolding resolve_share_descendant_path normalize_share_relative_path decode_share_path
    checked_segments is_blank_segment trim trim_start_by trim_end_by split replace join contains
    starts_with text_eq is_control normalize_absolute_path absolute_segments kept_segments below
    is_path_within_root strip_prefix
resolve_share_descendant_path-is_safe_example =
    resolve_share_descendant_path-is_safe undecoded (codes "/s") (codes "a") true (codes "/s/a")
      refl

-- The parent directory is refused.
parent_test : normalize_share_relative_path undecoded (codes "a/../b") ≡ err invalid_path
unfolding normalize_share_relative_path decode_share_path checked_segments is_blank_segment trim
    trim_start_by trim_end_by split replace join contains starts_with text_eq is_control
parent_test = refl

-- A backslash that the decoding brings in is no separator here, so the parent behind it is not
-- refused.
backslash_test :
    normalize_share_relative_path (λ _. some (codes "a\\..\\b")) (codes "a%5C..%5Cb")
    ≡ ok (codes "/a\\..\\b")
unfolding normalize_share_relative_path decode_share_path checked_segments is_blank_segment trim
    trim_start_by trim_end_by split replace join contains starts_with text_eq is_control
backslash_test = refl
