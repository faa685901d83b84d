-- ===== src/Scoped/Taken.antt =====
-- src/vfs/scoped/internal.rs: ordinary paths are taken as they are.
use mathlib.Core.List.{append-nil}
use yh_filemanager_vfs_stora.Prelude.{
  ℕ, suc, ◌≡◌, refl, sym, ap, ◌∙◌, Bool, true, false, not, ◌&&◌, ◌||◌, Option, ok, List, [], ◌∷◌,
  ◌++◌, all, any, tail, length, ltb, inl, inr, ◌==◌, arith, Bool-cases, if◌then◌else◌,
}
use yh_filemanager_vfs_stora.Prelude.Text.{
  Text, codes, text_eq, is_empty, starts_with, ends_with, contains, trim_start_by, trim_end_by,
  trim_start_matches, trim_end_matches, is_control, split, replace, join,
}
use yh_filemanager_vfs_stora.Prelude.Results.{◌>>=◌}
use yh_filemanager_vfs_stora.Share.{with_root}
use yh_filemanager_vfs_stora.Share.Paths.{no_slash, is_safe}
use yh_filemanager_vfs_stora.Scoped.{
  validate_from, validate_segments, validate_file_operation, get_physical_path,
}
use yh_filemanager_vfs_stora.Scoped.Segments.{
  rooted, rooted-with_root, trim_end-append, trim_end_named, one_of,
}
use yh_filemanager_vfs_stora.Scoped.Validated.{trim_start_safe}

-- Neither a backslash, which would be taken for a slash, nor a percent sign, behind which something
-- may be decoded.
abbrev is_literal : ℕ → Bool
is_literal c = not (c == b'\\') && not (c == b'%')

-- A safe segment that is taken for itself.
abbrev pub is_ordinary : Text → Bool
is_ordinary segment = is_safe segment && all is_literal segment

abbrev is_fine : ℕ → Bool
is_fine c = not (is_control c) && is_literal c

all-append : (q : ℕ → Bool) (s t : Text) → all q s ≡ true → all q t ≡ true → all q (s ++ t) ≡ true
all-append q [] t h k = k
all-append q (x ∷ s) t h k = ground (arith, all-append q s t)

all_fine : (s : Text) → any is_control s ≡ false → all is_literal s ≡ true → all is_fine s ≡ true
all_fine [] c l = refl
all_fine (x ∷ s) c l = ground (arith, all_fine s)

ordinary-IsFine : (s : Text) → is_ordinary s ≡ true → all is_fine s ≡ true
ordinary-IsFine s h = all_fine s (ground (arith, h)) (ground (arith, h))

rooted_fine : (ss : List Text) → all is_ordinary ss ≡ true → all is_fine (rooted ss) ≡ true
unfolding is_control
rooted_fine [] h = refl
rooted_fine (s ∷ ss) h =
    all-append is_fine s (rooted ss) (ordinary-IsFine s (ground (arith, h)))
      (rooted_fine ss (ground (arith, h)))

fine-no_control : (s : Text) → all is_fine s ≡ true → any is_control s ≡ false
fine-no_control [] h = refl
fine-no_control (x ∷ s) h = ground (arith, fine-no_control s)

fine-replace : (s : Text) → all is_fine s ≡ true → replace b'\\' b'/' s ≡ s
unfolding replace
fine-replace [] h = refl
fine-replace (x ∷ s) h =
    let other : (x == b'\\') ≡ false = ground (arith, h) in
    rw (other) (ap (λ r. x ∷ r) (fine-replace s (ground (arith, h))))

fine-contains : (s : Text) → all is_fine s ≡ true → contains s (codes "%") ≡ false
unfolding contains starts_with
fine-contains [] h = refl
fine-contains (x ∷ s) h =
    let other : (x == b'%') ≡ false = ground (arith, h) in
    rw (other) (fine-contains s (ground (arith, h)))

split_one : (s : Text) → no_slash s ≡ true → split b'/' s ≡ s ∷ []
unfolding split
split_one [] h = refl
split_one (x ∷ s) h =
    let other : (x == b'/') ≡ false = ground (arith, h) in
    rw (other, split_one s (ground (arith, h))) refl

split-append : (s t : Text) → no_slash s ≡ true → split b'/' (s ++ b'/' ∷ t) ≡ s ∷ split b'/' t
unfolding split
split-append [] t h = refl
split-append (x ∷ s) t h =
    let other : (x == b'/') ≡ false = ground (arith, h) in
    rw (other, split-append s t (ground (arith, h))) refl

split-rooted : (ss : List Text) → all is_safe ss ≡ true → split b'/' (rooted ss) ≡ [] ∷ ss
unfolding split
split-rooted [] h = refl
split-rooted (s ∷ []) h =
    ap (λ r. [] ∷ r) (ap (split b'/') (append-nil s) ∙ split_one s (ground (arith, h)))
split-rooted (s ∷ t ∷ ss) h =
    ap (λ r. [] ∷ r)
      (split-append s (t ++ rooted ss) (ground (arith, h))
        ∙ ap (λ r. s ∷ tail r) (split-rooted (t ∷ ss) (ground (arith, h))))

validate_from_safe :
    (p : Text) (ends : Bool) (i : ℕ) (ss : List Text)
    → all is_safe ss ≡ true
    → validate_from p ends i ss ≡ ok tt
unfolding validate_from
validate_from_safe p ends i [] h = refl
validate_from_safe p ends i (s ∷ ss) h =
    let named : is_empty s ≡ false = ground (arith, h) in
    let plain : (text_eq s (codes ".") || text_eq s (codes "..")) ≡ false = ground (arith, h) in
    rw (named, plain) (validate_from_safe p ends (suc i) ss (ground (arith, h)))

trim_end-rooted :
    (ss : List Text) → all is_safe ss ≡ true → trim_end_matches b'/' (rooted ss) ≡ rooted ss
unfolding trim_end_by
trim_end-rooted [] h = refl
trim_end-rooted (s ∷ ss) h =
    let slash : ℕ → Bool = λ z. z == b'/' in
    trim_end-append slash (b'/' ∷ s) (rooted ss)
    ∙ ap (λ z. if is_empty z then trim_end_by slash (b'/' ∷ s) else (b'/' ∷ s) ++ z)
        (trim_end-rooted ss (ground (arith, h)))
    ∙ one_of s ss (trim_end_named s (ground (arith, h)) (ground (arith, h)))

same_either {ℓ} : {A : Type ℓ} (b : Bool) (a : A) → (if b then a else a) ≡ a
same_either true a = refl
same_either false a = refl

all_safe : (ss : List Text) → all is_ordinary ss ≡ true → all is_safe ss ≡ true
all_safe [] h = refl
all_safe (s ∷ ss) h = ground (arith, all_safe ss)

validate_segments-rooted :
    (s : Text) (ss : List Text)
    → all is_safe (s ∷ ss) ≡ true
    → validate_segments (rooted (s ∷ ss)) ≡ ok tt
unfolding validate_segments validate_from starts_with
validate_segments-rooted s ss h =
    let p = rooted (s ∷ ss) in
    let ends = ends_with p (codes "/") && ltb 1 (length p) in
    elim (Bool-cases (text_eq p (codes "/"))) [
      | inl y ↦ rw (y) refl
      | inr n ↦ rw (n) (
          ap (validate_from p ends 0) (split-rooted (s ∷ ss) h)
          ∙ validate_from_safe p ends 1 (s ∷ ss) h)
    ]

module _ (percent_decode : Text → Option Text) where
  validate_file_operation-rooted :
      (s : Text) (ss : List Text)
      → all is_ordinary (s ∷ ss) ≡ true
      → validate_file_operation percent_decode (rooted (s ∷ ss)) ≡ ok (rooted (s ∷ ss))
  unfolding validate_file_operation starts_with
  validate_file_operation-rooted s ss h =
      let fine = rooted_fine (s ∷ ss) h in
      rw
        (
          fine-no_control (rooted (s ∷ ss)) fine,
          fine-replace (rooted (s ∷ ss)) fine,
          validate_segments-rooted s ss (all_safe (s ∷ ss) h),
          fine-contains (rooted (s ∷ ss)) fine,
          trim_end-rooted (s ∷ ss) (all_safe (s ∷ ss) h),
        )
        (same_either (text_eq (rooted (s ∷ ss)) (codes "/")) (ok (rooted (s ∷ ss))))

  -- A path of safe segments, none of which has a backslash or a percent sign, is taken: its file has
  -- the same segments below the directory of the user.
  pub get_physical_path-with_root :
      (user_id : Text) (segments : List Text)
      → all is_ordinary segments ≡ true
      → get_physical_path percent_decode user_id (with_root segments)
        ≡ ok (user_id ++ with_root segments)
  unfolding get_physical_path validate_file_operation validate_segments starts_with text_eq replace
      contains is_control trim_start_by join
  get_physical_path-with_root user_id [] h = refl
  get_physical_path-with_root user_id (s ∷ ss) h =
      ap (get_physical_path percent_decode user_id) (sym (rooted-with_root s ss))
      ∙ ap
          (λ r. r >>= λ validated. ok (user_id ++ (codes "/" ++ trim_start_matches b'/' validated)))
          (validate_file_operation-rooted s ss h)
      ∙ ap (λ z. ok (user_id ++ z)) (trim_start_safe (s ∷ ss) (all_safe (s ∷ ss) h))
