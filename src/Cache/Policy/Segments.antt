-- ===== src/Cache/Policy/Segments.antt =====
-- The string tests of src/vfs/cache/policy.rs, read as tests on the segments of a path.
use yh_filemanager_vfs_stora.Prelude.{
  ℕ, ◌≡◌, refl, Bool, true, false, not, ◌&&◌, ◌||◌, inl, inr, List, [], ◌∷◌, ◌++◌, any, all, tail,
  ◌==◌, arith, Bool-cases,
}
use yh_filemanager_vfs_stora.Prelude.Text.{
  Text, codes, text_eq, starts_with, ends_with, contains, split, cons_head, trim_end_matches,
}
use yh_filemanager_vfs_stora.Cache.Policy.{
  CachePathPolicy, allows, is_thumbnail_path, is_temp_namespace_path, is_recycle_bin_path,
  extension_allowed, normalized_file_extension,
}

abbrev pub no_slash : Text → Bool
no_slash = all (λ c. not (c == b'/'))

abbrev head_segment : List Text → Text
head_segment [] = []
head_segment (s ∷ ss) = s

head-cons_head : (x : ℕ) (ss : List Text) → head_segment (cons_head x ss) ≡ x ∷ head_segment ss
head-cons_head x [] = refl
head-cons_head x (s ∷ ss) = refl

tail-cons_head : (x : ℕ) (ss : List Text) → tail (cons_head x ss) ≡ tail ss
tail-cons_head x [] = refl
tail-cons_head x (s ∷ ss) = refl

-- A path's first segment is the word, exactly if the path is the word or the word and a slash
-- start it.
head-split :
    (xs w : Text)
    → no_slash w ≡ true
    → (text_eq xs w || starts_with xs (w ++ b'/' ∷ [])) ≡ text_eq (head_segment (split b'/' xs)) w
unfolding text_eq starts_with split
head-split [] [] h = refl
head-split [] (y ∷ w) h = refl
head-split (x ∷ xs) [] h = ground (arith, head-cons_head x (split b'/' xs))
head-split (x ∷ xs) (y ∷ w) h = ground (arith, head-cons_head x (split b'/' xs), head-split xs w)

split-eq-cons : (c : ℕ) (xs : Text) → split c xs ≡ head_segment (split c xs) ∷ tail (split c xs)
unfolding split
split-eq-cons c [] = refl
split-eq-cons c (x ∷ xs) = elim (Bool-cases (x == c)) [
  | inl e ↦ rw e
  | inr e ↦ rw e (ground (arith, split-eq-cons c xs))
]

-- Some segment behind a slash is the word.
abbrev pub has_segment : Text → Text → Bool
has_segment w path = any (λ s. text_eq s w) (tail (split b'/' path))

-- The test that the program writes with `ends_with` and `contains`.
names_segment : Text → Text → Bool
names_segment w path = ends_with path (b'/' ∷ w) || contains path (b'/' ∷ (w ++ b'/' ∷ []))

names_segment-cons :
    (x : ℕ) (xs w : Text)
    → names_segment w (x ∷ xs)
      ≡ (((x == b'/') && (text_eq xs w || starts_with xs (w ++ b'/' ∷ []))) || names_segment w xs)
unfolding names_segment ends_with contains starts_with text_eq
names_segment-cons x xs w = ground arith

has_segment-slash :
    (x : ℕ) (xs w : Text)
    → (x == b'/') ≡ true
    → has_segment w (x ∷ xs) ≡ (text_eq (head_segment (split b'/' xs)) w || has_segment w xs)
unfolding split
has_segment-slash x xs w e = rw e (ground (arith, split-eq-cons b'/' xs))

has_segment-other :
    (x : ℕ) (xs w : Text) → (x == b'/') ≡ false → has_segment w (x ∷ xs) ≡ has_segment w xs
unfolding split
has_segment-other x xs w e = rw e (ground (arith, tail-cons_head x (split b'/' xs)))

names_segment_nil : (w : Text) → names_segment w [] ≡ has_segment w []
unfolding names_segment ends_with contains text_eq split
names_segment_nil w = refl

names_segment-eq-has_segment :
    (path w : Text) → no_slash w ≡ true → names_segment w path ≡ has_segment w path
names_segment-eq-has_segment [] w h = names_segment_nil w
names_segment-eq-has_segment (x ∷ xs) w h = elim (Bool-cases (x == b'/')) [
  | inl e ↦ ground (
    arith,
    names_segment-cons x xs w,
    has_segment-slash x xs w e,
    head-split xs w h,
    names_segment-eq-has_segment xs w h,
  )
  | inr e ↦ ground (
    arith,
    names_segment-cons x xs w,
    has_segment-other x xs w e,
    names_segment-eq-has_segment xs w h,
  )
]

-- The tests for a leading word add nothing to those behind a slash.
ends_with_self : (s p : Text) → text_eq s p ≡ true → ends_with s p ≡ true
unfolding ends_with
ends_with_self [] p h = h
ends_with_self (x ∷ xs) p h = ground arith

contains_prefix : (s p : Text) → starts_with s p ≡ true → contains s p ≡ true
unfolding contains starts_with
contains_prefix [] [] h = refl
contains_prefix [] (y ∷ p) h = cc
contains_prefix (x ∷ xs) p h = ground arith

-- A path is of the recycle bin, exactly if a segment behind a slash is `.recycle_bin`.
pub is_recycle_bin_path-eq-has_segment :
    (path : Text) → is_recycle_bin_path path ≡ has_segment (codes ".recycle_bin") path
unfolding is_recycle_bin_path names_segment
is_recycle_bin_path-eq-has_segment path = ground (
  arith,
  ends_with_self path (codes "/.recycle_bin"),
  contains_prefix path (codes "/.recycle_bin/"),
  names_segment-eq-has_segment path (codes ".recycle_bin") refl,
)

pub is_thumbnail_path-eq-has_segment :
    (path : Text)
    → is_thumbnail_path path ≡ (
        let normalized = trim_end_matches b'/' path in
        has_segment (codes ".thumbs") normalized || has_segment (codes ".thumbs_cache") normalized)
unfolding is_thumbnail_path names_segment
is_thumbnail_path-eq-has_segment path =
    let normalized = trim_end_matches b'/' path in
    ground (
      arith,
      ends_with_self normalized (codes "/.thumbs"),
      ends_with_self normalized (codes "/.thumbs_cache"),
      contains_prefix normalized (codes "/.thumbs_cache/"),
      names_segment-eq-has_segment normalized (codes ".thumbs") refl,
      names_segment-eq-has_segment normalized (codes ".thumbs_cache") refl,
    )

-- A path may be cached exactly if it is not of the temporary namespace, no segment behind a slash
-- is `.recycle_bin`, none is `.thumbs` or `.thumbs_cache` unless the policy allows thumbnails,
-- and its extension, if any, is none of the skipped ones.
pub allows_iff :
    (policy : CachePathPolicy) (path : Text)
    → allows policy path ≡ (
        let normalized = trim_end_matches b'/' path in
        not (is_temp_namespace_path path)
        && not (has_segment (codes ".recycle_bin") path)
        && (policy.allow_thumbnail_paths
            || not (
                has_segment (codes ".thumbs") normalized
                || has_segment (codes ".thumbs_cache") normalized))
        && extension_allowed policy.skip_extensions (normalized_file_extension path))
unfolding allows
allows_iff policy path =
    ground (arith, is_recycle_bin_path-eq-has_segment path, is_thumbnail_path-eq-has_segment path)
