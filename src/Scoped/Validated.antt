-- ===== src/Scoped/Validated.antt =====
-- src/vfs/scoped/internal.rs: a path that is taken stays below the directory of its user.
use yh_filemanager_vfs_stora.Prelude.{
  ◌≡◌, refl, sym, ap, subst, ◌∙◌, Bool, true, false, not, ◌&&◌, Option, Result, ok, List, [], ◌∷◌,
  ◌++◌, all, any, length, ltb, inl, inr, ◌==◌, arith, Bool-cases, if◌then◌else◌,
}
use yh_filemanager_vfs_stora.Prelude.Text.{
  Text, codes, text_eq, text_eq_iff, starts_with, ends_with, trim_start_by, trim_start_matches,
  trim_end_matches, is_control, split, replace, join,
}
use yh_filemanager_vfs_stora.Prelude.Results.{◌>>=◌, bind-eq-ok}
use yh_filemanager_vfs_stora.Share.{with_root}
use yh_filemanager_vfs_stora.Share.Paths.{no_slash, is_safe, no_slash-split}
use yh_filemanager_vfs_stora.Protected.Read.{VfsError}
use yh_filemanager_vfs_stora.Scoped.{
  rooted_at, validate_from, validate_segments, validate_decoded, validate_file_operation,
  get_physical_path,
}
use yh_filemanager_vfs_stora.Scoped.Segments.{
  split_nonempty, join-split, plain, plain-split, plain-replace, rooted, rooted-with_root,
  trim_end_slash, validate_from-is_safe,
}

pub trim_start_safe :
    (kept : List Text)
    → all is_safe kept ≡ true
    → b'/' ∷ trim_start_matches b'/' (rooted kept) ≡ with_root kept
unfolding trim_start_by join
trim_start_safe [] h = refl
trim_start_safe ([] ∷ ss) h = absurd (cc (h))
trim_start_safe ((x ∷ s) ∷ ss) h =
    let other : (x == b'/') ≡ false = ground (arith, h) in rw (other) (rooted-with_root (x ∷ s) ss)

starts_with_slash :
    (s : Text) → starts_with s (codes "/") ≡ true → (rest : Text) × (s ≡ b'/' ∷ rest)
unfolding starts_with
starts_with_slash [] h = absurd (cc (h))
starts_with_slash (x ∷ s) h = (s, ap (λ c. c ∷ s) (ground (arith, h)))

checked_rest :
    (p : Text) (ends : Bool) (rest : Text)
    → plain (b'/' ∷ rest) ≡ true
    → validate_from p ends 0 (split b'/' (b'/' ∷ rest)) ≡ ok tt
    → (kept : List Text) × (all is_safe kept ≡ true)
      × (trim_end_matches b'/' (b'/' ∷ rest) ≡ rooted kept)
unfolding validate_from split is_control
checked_rest p ends rest c e =
    let (first, later, same) = split_nonempty b'/' rest in
    let plain_rest : plain rest ≡ true = ground (arith, c) in
    let (kept, safe, trimmed) =
      validate_from-is_safe p ends 0 first later
        (subst (λ z. all no_slash z ≡ true) same (no_slash-split rest))
        (subst (λ z. all plain z ≡ true) same (plain-split b'/' rest plain_rest))
        (ap (validate_from p ends 1) (sym same) ∙ e) in
    (
      kept,
      safe,
      ap (λ z. trim_end_matches b'/' (b'/' ∷ z))
            (sym (ap (join b'/') (sym same) ∙ join-split b'/' rest))
          ∙ trimmed,
    )

-- A path that passes the check and has no control character, without its slashes at the end.
validate_segments-is_safe :
    (s : Text)
    → plain s ≡ true
    → validate_segments s ≡ ok tt
    → (kept : List Text) × (all is_safe kept ≡ true) × (trim_end_matches b'/' s ≡ rooted kept)
unfolding validate_segments
validate_segments-is_safe s c e = elim (Bool-cases (starts_with s (codes "/"))) [
  | inr relative ↦ absurd (cc (rw (relative, validate_segments) at e))
  | inl absolute ↦ elim (Bool-cases (text_eq s (codes "/"))) [
    | inl root ↦
        ([], refl, ap (trim_end_matches b'/') ((text_eq_iff s (codes "/")).0 root) ∙ trim_end_slash)
    | inr longer ↦
        let (rest, same) = starts_with_slash s absolute in
        let ends = ends_with s (codes "/") && ltb 1 (length s) in
        let checked : validate_from s ends 0 (split b'/' s) ≡ ok tt =
          rw (absolute, longer, validate_segments) at e in
        let (kept, safe, trimmed) =
          checked_rest s ends rest (subst (λ z. plain z ≡ true) same c)
            (ap (λ z. validate_from s ends 0 (split b'/' z)) (sym same) ∙ checked) in
        (kept, safe, ap (trim_end_matches b'/') same ∙ trimmed)
  ]
]

abbrev trimmed_of : Text → Result VfsError Text
trimmed_of normalized =
    if text_eq normalized (codes "/") then ok normalized else ok (trim_end_matches b'/' normalized)

ok_same : {a b : Text} → ◌≡◌ {A = Result VfsError Text} (ok a) (ok b) → a ≡ b
ok_same e = cc (e)

trimmed_of-rooted :
    (normalized validated : Text) (kept : List Text)
    → all is_safe kept ≡ true
    → trim_end_matches b'/' normalized ≡ rooted kept
    → trimmed_of normalized ≡ ok validated
    → b'/' ∷ trim_start_matches b'/' validated ≡ with_root kept
unfolding trim_start_by
trimmed_of-rooted normalized validated kept safe trimmed e =
    elim (Bool-cases (text_eq normalized (codes "/"))) [
      | inl root ↦
          let slash : normalized ≡ codes "/" = (text_eq_iff normalized (codes "/")).0 root in
          let none_left : [] ≡ rooted kept =
            sym trim_end_slash ∙ ap (trim_end_matches b'/') (sym slash) ∙ trimmed in
          let same : codes "/" ≡ validated = sym slash ∙ ok_same (rw (root) at e) in
          ap (λ z. b'/' ∷ trim_start_matches b'/' z) (sym same)
          ∙ ap (λ z. b'/' ∷ trim_start_matches b'/' z) none_left
          ∙ trim_start_safe kept safe
      | inr longer ↦
          let same : trim_end_matches b'/' normalized ≡ validated = ok_same (rw (longer) at e) in
          ap (λ z. b'/' ∷ trim_start_matches b'/' z) (sym same ∙ trimmed)
          ∙ trim_start_safe kept safe
    ]

module _ (percent_decode : Text → Option Text) where
  validate_file_operation-is_safe :
      (path validated : Text)
      → validate_file_operation percent_decode path ≡ ok validated
      → (kept : List Text) × (all is_safe kept ≡ true)
        × (b'/' ∷ trim_start_matches b'/' validated ≡ with_root kept)
  unfolding validate_file_operation
  validate_file_operation-is_safe path validated e =
      elim (Bool-cases (any is_control (rooted_at path))) [
        | inl found ↦ absurd (cc (rw (found, validate_file_operation) at e))
        | inr clean ↦
            let normalized = replace b'\\' b'/' (rooted_at path) in
            let whole : (validate_segments normalized >>= λ _.
            validate_decoded percent_decode normalized >>= λ _. trimmed_of normalized)
                ≡ ok validated =
              rw (clean, validate_file_operation) at e in
            let (done, checked, later) = bind-eq-ok (validate_segments normalized) _ whole in
            let (decoded, also, last) =
              bind-eq-ok (validate_decoded percent_decode normalized) _ later in
            let (kept, safe, trimmed) =
              validate_segments-is_safe normalized (plain-replace (rooted_at path) (ap not clean))
                checked in
            (kept, safe, trimmed_of-rooted normalized validated kept safe trimmed last)
      ]

  -- A path that is taken has its file below the directory of the user: behind it stands one slash
  -- and then safe segments, joined by slashes, whatever the decoding of percent signs gives.
  pub get_physical_path-is_safe :
      (user_id logical_path physical_path : Text)
      → get_physical_path percent_decode user_id logical_path ≡ ok physical_path
      → (segments : List Text) × (physical_path ≡ user_id ++ with_root segments)
        × (all is_safe segments ≡ true)
  unfolding get_physical_path
  get_physical_path-is_safe user_id logical_path physical_path e =
      let (validated, taken, made) =
        bind-eq-ok (validate_file_operation percent_decode logical_path) _ e in
      let (kept, safe, same) = validate_file_operation-is_safe logical_path validated taken in
      (kept, sym (ok_same made) ∙ ap (λ z. user_id ++ z) same, safe)
