-- ===== src/Scoped/Segments.antt =====
-- src/vfs/scoped/internal.rs: the segments that the loop of the validation passes by.
use mathlib.Core.List.{append-nil}
use yh_filemanager_vfs_stora.Prelude.{
  ℕ, suc, ◌≡◌, refl, sym, ap, ap₂, ◌∙◌, Bool, true, false, not, ◌&&◌, ◌||◌, ok, List, [], ◌∷◌, ◌++◌,
  all, any, inl, inr, ◌==◌, arith, Bool-cases, if◌then◌else◌,
}
use yh_filemanager_vfs_stora.Prelude.Text.{
  Text, codes, text_eq, is_empty, trim_end_by, trim_end_matches, is_control, split, cons_head,
  replace, join,
}
use yh_filemanager_vfs_stora.Share.{with_root}
use yh_filemanager_vfs_stora.Share.Paths.{no_slash, is_safe}
use yh_filemanager_vfs_stora.Share.Descendants.{trim_end-no_slash}
use yh_filemanager_vfs_stora.Scoped.{validate_from}

pub split_nonempty :
    (c : ℕ) (s : Text) → (first : Text) × (rest : List Text) × (split c s ≡ first ∷ rest)
unfolding split
split_nonempty c [] = ([], [], refl)
split_nonempty c (x ∷ s) =
    let (first, rest, e) = split_nonempty c s in
    elim (Bool-cases (x == c)) [
      | inl y ↦ ([], split c s, rw (y) refl)
      | inr n ↦ (x ∷ first, rest, rw (n, e) refl)
    ]

join-cons_head :
    (c x : ℕ) (s : Text) (ss : List Text) → join c (cons_head x (s ∷ ss)) ≡ x ∷ join c (s ∷ ss)
unfolding join
join-cons_head c x s [] = refl
join-cons_head c x s (t ∷ ss) = refl

-- The parts, joined by the separator, are the text.
pub join-split : (c : ℕ) (s : Text) → join c (split c s) ≡ s
unfolding split join
join-split c [] = refl
join-split c (x ∷ s) =
    let (first, rest, e) = split_nonempty c s in
    let same : join c (first ∷ rest) ≡ s = ap (join c) (sym e) ∙ join-split c s in
    elim (Bool-cases (x == c)) [
      | inl y ↦ rw (y, e) (ap₂ (λ a b. a ∷ b) (sym (ground (arith, y))) same)
      | inr n ↦ rw (n, e) (join-cons_head c x first rest ∙ ap (λ b. x ∷ b) same)
    ]

pub is_empty-append : (s t : Text) → is_empty t ≡ false → is_empty (s ++ t) ≡ false
is_empty-append [] t h = h
is_empty-append (x ∷ s) t h = refl

pub trim_end-append :
    (p : ℕ → Bool) (s t : Text)
    → trim_end_by p (s ++ t)
      ≡ (if is_empty (trim_end_by p t) then trim_end_by p s else s ++ trim_end_by p t)
unfolding trim_end_by
trim_end-append p [] t = ground arith
trim_end-append p (x ∷ s) t = elim (Bool-cases (is_empty (trim_end_by p t))) [
  | inl y ↦
      let same : trim_end_by p (s ++ t) ≡ trim_end_by p s = rw (y) at (trim_end-append p s t) in
      rw (y, same) refl
  | inr n ↦
      let same : trim_end_by p (s ++ t) ≡ s ++ trim_end_by p t =
        rw (n) at (trim_end-append p s t) in
      rw (n, same, is_empty-append s (trim_end_by p t) n) refl
]

abbrev pub plain : Text → Bool
plain s = not (any is_control s)

plain-cons_head :
    (x : ℕ) (ss : List Text)
    → is_control x ≡ false
    → all plain ss ≡ true
    → all plain (cons_head x ss) ≡ true
plain-cons_head x [] n h = ground (arith)
plain-cons_head x (s ∷ ss) n h = ground (arith)

pub plain-split : (c : ℕ) (s : Text) → plain s ≡ true → all plain (split c s) ≡ true
unfolding split
plain-split c [] h = refl
plain-split c (x ∷ s) h = ground (arith, plain-split c s, plain-cons_head x (split c s))

pub plain-replace : (s : Text) → plain s ≡ true → plain (replace b'\\' b'/' s) ≡ true
unfolding replace is_control
plain-replace [] h = refl
plain-replace (x ∷ s) h = ground (arith, plain-replace s)

-- A slash before each segment.
abbrev pub rooted : List Text → Text
rooted [] = []
rooted (s ∷ ss) = b'/' ∷ (s ++ rooted ss)

pub rooted-with_root : (s : Text) (ss : List Text) → rooted (s ∷ ss) ≡ with_root (s ∷ ss)
unfolding join
rooted-with_root s [] = ap (λ r. b'/' ∷ r) (append-nil s)
rooted-with_root s (t ∷ ss) = ap (λ r. b'/' ∷ (s ++ r)) (rooted-with_root t ss)

pub trim_end_named :
    (s : Text)
    → no_slash s ≡ true
    → is_empty s ≡ false
    → trim_end_matches b'/' (b'/' ∷ s) ≡ b'/' ∷ s
unfolding trim_end_by
trim_end_named s n e = rw (trim_end-no_slash s n, e) refl

pub trim_end_slash : trim_end_matches b'/' (codes "/") ≡ []
unfolding trim_end_by
trim_end_slash = refl

-- Between two slashes there must be something.
ends_here :
    (p : Text) (ends : Bool) (i : ℕ) (t : Text) (ss : List Text)
    → ¬ (validate_from p ends (suc i) ([] ∷ t ∷ ss) ≡ ok tt)
unfolding validate_from
ends_here p ends i t ss e =
    let later : (suc i == 0) ≡ false = ground arith in
    let between : (ends && false) ≡ false = ground arith in
    absurd (cc (rw (later, between, validate_from) at e))

-- A segment that is passed by is no dot segment.
not_dots :
    (p : Text) (ends : Bool) (i x : ℕ) (s : Text) (ss : List Text)
    → validate_from p ends i ((x ∷ s) ∷ ss) ≡ ok tt
    → ((text_eq (x ∷ s) (codes ".") || text_eq (x ∷ s) (codes "..")) ≡ false)
      × (validate_from p ends (suc i) ss ≡ ok tt)
unfolding validate_from
not_dots p ends i x s ss e =
    elim (Bool-cases (text_eq (x ∷ s) (codes ".") || text_eq (x ∷ s) (codes ".."))) [
      | inl y ↦ absurd (cc (rw (y, validate_from) at e))
      | inr named ↦ (named, rw (named, validate_from) at e)
    ]

pub one_of :
    (s : Text) (kept : List Text) {z : Text}
    → z ≡ b'/' ∷ s
    → (if is_empty (rooted kept) then z else (b'/' ∷ s) ++ rooted kept) ≡ rooted (s ∷ kept)
one_of s [] e = e ∙ ap (λ r. b'/' ∷ r) (sym (append-nil s))
one_of s (k ∷ kept) e = refl

head_holds : (q : Text → Bool) (s : Text) (ss : List Text) → all q (s ∷ ss) ≡ true → q s ≡ true
head_holds q s ss h = ground (arith)

tail_holds : (q : Text → Bool) (s : Text) (ss : List Text) → all q (s ∷ ss) ≡ true → all q ss ≡ true
tail_holds q s ss h = ground (arith)

safe_segment :
    (x : ℕ) (s : Text) (kept : List Text)
    → (text_eq (x ∷ s) (codes ".") || text_eq (x ∷ s) (codes "..")) ≡ false
    → plain (x ∷ s) ≡ true
    → no_slash (x ∷ s) ≡ true
    → all is_safe kept ≡ true
    → all is_safe ((x ∷ s) ∷ kept) ≡ true
safe_segment x s kept d c n k = ground (arith)

-- The checked segments are safe ones, but for an empty one at the end, which goes.
pub validate_from-is_safe :
    (p : Text) (ends : Bool) (i : ℕ) (s : Text) (ss : List Text)
    → all no_slash (s ∷ ss) ≡ true
    → all plain (s ∷ ss) ≡ true
    → validate_from p ends (suc i) (s ∷ ss) ≡ ok tt
    → (kept : List Text) × (all is_safe kept ≡ true)
      × (trim_end_matches b'/' (b'/' ∷ join b'/' (s ∷ ss)) ≡ rooted kept)
unfolding validate_from join
validate_from-is_safe p ends i [] [] n c e = ([], refl, trim_end_slash)
validate_from-is_safe p ends i [] (t ∷ ss) n c e = absurd (ends_here p ends i t ss e)
validate_from-is_safe p ends i (x ∷ s) [] n c e =
    let (named, rest) = not_dots p ends (suc i) x s [] e in
    (
      (x ∷ s) ∷ [],
      safe_segment x s [] named (head_holds plain (x ∷ s) [] c) (head_holds no_slash (x ∷ s) [] n)
          refl,
      trim_end_named (x ∷ s) (head_holds no_slash (x ∷ s) [] n) refl
          ∙ sym (rooted-with_root (x ∷ s) []),
    )
validate_from-is_safe p ends i (x ∷ s) (t ∷ ss) n c e =
    let (named, rest) = not_dots p ends (suc i) x s (t ∷ ss) e in
    let (kept, safe, trimmed) =
      validate_from-is_safe p ends (suc i) t ss (tail_holds no_slash (x ∷ s) (t ∷ ss) n)
        (tail_holds plain (x ∷ s) (t ∷ ss) c) rest in
    let slash : ℕ → Bool = λ z. z == b'/' in
    (
      (x ∷ s) ∷ kept,
      safe_segment x s kept named (head_holds plain (x ∷ s) (t ∷ ss) c)
          (head_holds no_slash (x ∷ s) (t ∷ ss) n) safe,
      trim_end-append slash (b'/' ∷ x ∷ s) (b'/' ∷ join b'/' (t ∷ ss))
          ∙ ap (λ z. if is_empty z then trim_end_by slash (b'/' ∷ x ∷ s) else (b'/' ∷ x ∷ s) ++ z)
              trimmed
          ∙ one_of (x ∷ s) kept
              (trim_end_named (x ∷ s) (head_holds no_slash (x ∷ s) (t ∷ ss) n) refl),
    )
