-- ===== src/Share/Descendants.antt =====
-- src/utils/share_access.rs: where the path of a descendant leads.
use yh_filemanager_vfs_stora.Prelude.{
  ◌≡◌, refl, ◌∙◌, sym, ap, ap₂, subst, Bool, true, false, not, ◌&&◌, ◌||◌, Option, Result, ok, err,
  List, [], ◌∷◌, ◌++◌, all, inl, inr, arith, Bool-cases,
}
use yh_filemanager_vfs_stora.Prelude.Text.{
  Text, codes, text_eq, is_empty, trim, trim_start_by, trim_end_by, trim_start_matches,
  trim_end_matches, split, replace, join,
}
use yh_filemanager_vfs_stora.Share.{
  with_root, is_blank_segment, kept_segments, absolute_segments, normalize_absolute_path,
  normalize_share_relative_path, is_path_within_root, below, resolved,
  resolve_share_descendant_path,
}
use yh_filemanager_vfs_stora.Share.Paths.{
  no_slash, is_safe, no_slash-split, no_slash-trim, normalize_share_relative_path-is_safe,
}

abbrev is_named : Text → Bool
is_named segment = not (is_empty segment) && no_slash segment

kept_segments-is_named :
    (ss : List Text) → all no_slash ss ≡ true → all is_named (kept_segments ss) ≡ true
unfolding kept_segments is_blank_segment
kept_segments-is_named [] n = refl
kept_segments-is_named (s ∷ ss) n = ground (arith, no_slash-trim s, kept_segments-is_named ss)

normalize_absolute_path-is_named :
    (path : Text)
    → (segments : List Text) × (normalize_absolute_path path ≡ with_root segments)
      × (all is_named segments ≡ true)
unfolding normalize_absolute_path absolute_segments join
normalize_absolute_path-is_named path =
    elim (Bool-cases (is_empty (trim path) || text_eq (trim path) (codes "/"))) [
      | inl y ↦ ([], rw (y, normalize_absolute_path) refl, refl)
      | inr n ↦ (
        absolute_segments (trim path),
        rw (n, normalize_absolute_path) refl,
        kept_segments-is_named (split b'/' (replace b'\\' b'/' (trim path)))
            (no_slash-split (replace b'\\' b'/' (trim path))),
      )
    ]

all-is_named : (ss : List Text) → all is_safe ss ≡ true → all is_named ss ≡ true
all-is_named [] h = refl
all-is_named (s ∷ ss) h = ground (arith, all-is_named ss)

pub trim_end-no_slash : (s : Text) → no_slash s ≡ true → trim_end_matches b'/' s ≡ s
unfolding trim_end_by
trim_end-no_slash [] h = refl
trim_end-no_slash (x ∷ s) h = ground (arith, trim_end-no_slash s)

trim_end-append :
    (s t : Text)
    → trim_end_matches b'/' t ≡ t
    → is_empty t ≡ false
    → (trim_end_matches b'/' (s ++ t) ≡ s ++ t) × (is_empty (s ++ t) ≡ false)
unfolding trim_end_by
trim_end-append [] t h n = (h, n)
trim_end-append (x ∷ s) t h n = ground (arith, trim_end-append s t h n)

trim_end-slash :
    (t : Text)
    → trim_end_matches b'/' t ≡ t
    → is_empty t ≡ false
    → trim_end_matches b'/' (b'/' ∷ t) ≡ b'/' ∷ t
unfolding trim_end_by
trim_end-slash t h n = ground (arith, h, n)

more_than_slash : (t : Text) → is_empty t ≡ false → text_eq (b'/' ∷ t) (codes "/") ≡ false
unfolding text_eq
more_than_slash [] n = absurd (cc)
more_than_slash (x ∷ t) n = refl

trim_end-join :
    (b : Text) (bs : List Text)
    → all is_named (b ∷ bs) ≡ true
    → (trim_end_matches b'/' (join b'/' (b ∷ bs)) ≡ join b'/' (b ∷ bs))
      × (is_empty (join b'/' (b ∷ bs)) ≡ false)
unfolding join
trim_end-join b [] h = (trim_end-no_slash b (ground arith), ground arith)
trim_end-join b (d ∷ bs) h =
    let rest = trim_end-join d bs (ground arith) in
    trim_end-append b (b'/' ∷ join b'/' (d ∷ bs))
      (trim_end-slash (join b'/' (d ∷ bs)) rest.0 rest.1) refl

append_assoc : (a b c : Text) → (a ++ b) ++ c ≡ a ++ (b ++ c)
append_assoc [] b c = refl
append_assoc (x ∷ a) b c = ap (λ t. x ∷ t) (append_assoc a b c)

append_empty : (ss : List Text) → ss ++ [] ≡ ss
append_empty [] = refl
append_empty (s ∷ ss) = ap (λ t. s ∷ t) (append_empty ss)

join-append :
    (b r : Text) (bs rs : List Text)
    → join b'/' ((b ∷ bs) ++ (r ∷ rs)) ≡ join b'/' (b ∷ bs) ++ (b'/' ∷ join b'/' (r ∷ rs))
unfolding join
join-append b r [] rs = refl
join-append b r (d ∷ bs) rs =
    ap (λ t. b ++ (b'/' ∷ t)) (join-append d r bs rs)
    ∙ sym (append_assoc b (b'/' ∷ join b'/' (d ∷ bs)) (b'/' ∷ join b'/' (r ∷ rs)))

trim_start-join :
    (r : Text) (rs : List Text)
    → is_named r ≡ true
    → trim_start_matches b'/' (join b'/' (r ∷ rs)) ≡ join b'/' (r ∷ rs)
unfolding join trim_start_by
trim_start-join [] rs h = absurd (cc)
trim_start-join (x ∷ r) [] h = ground arith
trim_start-join (x ∷ r) (t ∷ rs) h = ground arith

trim_start-slash :
    (r : Text) (rs : List Text)
    → is_named r ≡ true
    → trim_start_matches b'/' (b'/' ∷ join b'/' (r ∷ rs)) ≡ join b'/' (r ∷ rs)
unfolding trim_start_by
trim_start-slash r rs h = ground (arith, trim_start-join r rs h)

below-eq-with_root :
    (percent_decode : Text → Option Text) (bs : List Text) (r : Text) (rs : List Text)
    → all is_named bs ≡ true
    → all is_named (r ∷ rs) ≡ true
    → below percent_decode (with_root bs) (with_root (r ∷ rs)) ≡ with_root (bs ++ (r ∷ rs))
unfolding below join text_eq
below-eq-with_root decode [] r rs hb hr = refl
below-eq-with_root decode (b ∷ bs) r rs hb hr =
    let base = trim_end-join b bs hb in
    rw (more_than_slash (join b'/' (b ∷ bs)) base.1, below)
      (ap₂ (λ s t. s ++ (b'/' ∷ t)) (trim_end-slash (join b'/' (b ∷ bs)) base.0 base.1)
          (trim_start-slash r rs (ground arith))
        ∙ ap (λ t. b'/' ∷ t) (sym (join-append b r bs rs)))

-- What is put together from a base and a requested path.
resolved-segments :
    (percent_decode : Text → Option Text) (bs rs : List Text) (base_is_dir : Bool)
    (candidate : Text)
    → all is_named bs ≡ true
    → all is_named rs ≡ true
    → resolved percent_decode (with_root bs) base_is_dir (ok (with_root rs)) ≡ ok candidate
    → candidate ≡ with_root (bs ++ rs)
unfolding join text_eq
resolved-segments decode bs [] base_is_dir candidate hb hr e =
    let same : with_root bs ≡ candidate = cc e in sym same ∙ ap with_root (sym (append_empty bs))
resolved-segments decode bs (r ∷ rs) base_is_dir candidate hb hr e =
    let long = more_than_slash (join b'/' (r ∷ rs)) ((trim_end-join r rs hr).1) in
    elim (Bool-cases base_is_dir) [
      | inr n ↦ absurd (cc (rw (long, n) at e))
      | inl y ↦
          let together = below decode (with_root bs) (with_root (r ∷ rs)) in
          elim (Bool-cases (is_path_within_root (with_root bs) together)) [
            | inr n ↦ absurd (cc (rw (long, y, n) at e))
            | inl w ↦
                let same : together ≡ candidate = cc (rw (long, y, w) at e) in
                sym same ∙ below-eq-with_root decode bs r rs hb hr
          ]
    ]

resolved-is_safe :
    (percent_decode : Text → Option Text) (bs : List Text) (base_is_dir : Bool)
    (relative : Result Text Text) (candidate : Text)
    → all is_named bs ≡ true
    → ((path : Text)
        → relative ≡ ok path
        → (segments : List Text) × (path ≡ with_root segments) × (all is_safe segments ≡ true))
    → resolved percent_decode (with_root bs) base_is_dir relative ≡ ok candidate
    → (rs : List Text) × (candidate ≡ with_root (bs ++ rs)) × (all is_safe rs ≡ true)
resolved-is_safe decode bs base_is_dir (err x) candidate hb safe e = absurd (cc)
resolved-is_safe decode bs base_is_dir (ok path) candidate hb safe e =
    let (rs, same, good) = safe path refl in
    (
      rs,
      resolved-segments decode bs rs base_is_dir candidate hb (all-is_named rs good)
          (subst (λ p. resolved decode (with_root bs) base_is_dir (ok p) ≡ ok candidate) same e),
      good,
    )

-- A descendant that is taken lies below the base: its path is made of the segments of the base and
-- then of safe segments only.
pub resolve_share_descendant_path-is_safe :
    (percent_decode : Text → Option Text) (base_path requested_path : Text) (base_is_dir : Bool)
    (candidate : Text)
    → resolve_share_descendant_path percent_decode base_path requested_path base_is_dir
      ≡ ok candidate
    → (base below_base : List Text) × (normalize_absolute_path base_path ≡ with_root base)
      × (candidate ≡ with_root (base ++ below_base))
      × (all is_safe below_base ≡ true)
unfolding resolve_share_descendant_path
resolve_share_descendant_path-is_safe decode base_path requested_path base_is_dir candidate e =
    let (bs, same, named) = normalize_absolute_path-is_named base_path in
    let relative = normalize_share_relative_path decode requested_path in
    let (rs, found, good) =
      resolved-is_safe decode bs base_is_dir relative candidate named
        (normalize_share_relative_path-is_safe decode requested_path)
        (subst (λ p. resolved decode p base_is_dir relative ≡ ok candidate) same e) in
    (bs, rs, same, found, good)
