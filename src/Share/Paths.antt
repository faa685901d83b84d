-- ===== src/Share/Paths.antt =====
-- src/utils/share_access.rs: what the normalised paths are made of.
use yh_filemanager_vfs_stora.Prelude.{
  ℕ, ◌≡◌, refl, subst, Bool, true, not, ◌&&◌, ◌||◌, Option, none, some, Result, ok, err, List, [],
  ◌∷◌, all, any, inl, inr, ◌==◌, arith, Bool-cases, Option-cases,
}
use yh_filemanager_vfs_stora.Prelude.Text.{
  Text, codes, text_eq, is_empty, trim, trim_start_by, trim_end_by, is_whitespace, is_control,
  split, cons_head,
}
use yh_filemanager_vfs_stora.Share.{
  with_root, is_blank_segment, checked_segments, checked_path, relative_of, decode_share_path,
  normalize_share_relative_path,
}

abbrev pub no_slash : Text → Bool
no_slash = all (λ c. not (c == b'/'))

-- A segment that names a file: it is not empty, it is neither of the names with a meaning of their
-- own, and it has neither a slash nor a control character.
abbrev pub is_safe : Text → Bool
is_safe segment =
    not (is_empty segment)
    && not (text_eq segment (codes "."))
    && not (text_eq segment (codes ".."))
    && not (any is_control segment)
    && no_slash segment

all-trim_start_by : (p q : ℕ → Bool) (s : Text) → all p s ≡ true → all p (trim_start_by q s) ≡ true
unfolding trim_start_by
all-trim_start_by p q [] h = refl
all-trim_start_by p q (x ∷ s) h = ground (arith, all-trim_start_by p q s)

all-trim_end_by : (p q : ℕ → Bool) (s : Text) → all p s ≡ true → all p (trim_end_by q s) ≡ true
unfolding trim_end_by
all-trim_end_by p q [] h = refl
all-trim_end_by p q (x ∷ s) h = ground (arith, all-trim_end_by p q s)

pub no_slash-trim : (s : Text) → no_slash s ≡ true → no_slash (trim s) ≡ true
unfolding trim
no_slash-trim s h =
    all-trim_end_by (λ c. not (c == b'/')) is_whitespace (trim_start_by is_whitespace s)
      (all-trim_start_by (λ c. not (c == b'/')) is_whitespace s h)

all-cons_head :
    (x : ℕ) (ss : List Text)
    → not (x == b'/') ≡ true
    → all no_slash ss ≡ true
    → all no_slash (cons_head x ss) ≡ true
all-cons_head x [] n h = ground (arith)
all-cons_head x (s ∷ ss) n h = ground (arith)

pub no_slash-split : (s : Text) → all no_slash (split b'/' s) ≡ true
unfolding split
no_slash-split [] = refl
no_slash-split (x ∷ s) = ground (arith, no_slash-split s, all-cons_head x (split b'/' s))

checked_segments-is_safe :
    (ss kept : List Text)
    → all no_slash ss ≡ true
    → checked_segments ss ≡ some kept
    → all is_safe kept ≡ true
unfolding checked_segments is_blank_segment
checked_segments-is_safe [] kept n e = ground (arith)
checked_segments-is_safe (s ∷ ss) kept n e =
    let here : no_slash s ≡ true = ground arith in
    let later : all no_slash ss ≡ true = ground arith in
    elim (Bool-cases (is_blank_segment (trim s))) [
      | inl blank ↦ checked_segments-is_safe ss kept later (rw (blank, checked_segments) at e)
      | inr named ↦ elim (Bool-cases (text_eq (trim s) (codes "..") || any is_control (trim s))) [
        | inl bad ↦ absurd (cc (rw (named, bad, checked_segments) at e))
        | inr good ↦ elim (Option-cases (checked_segments ss)) [
          | inl r ↦ absurd (cc (rw (named, good, r, checked_segments) at e))
          | inr (rest, r) ↦
              let same : some (trim s ∷ rest) ≡ some kept =
                rw (named, good, r, checked_segments) at e in
              let safe = checked_segments-is_safe ss rest later r in
              let plain = no_slash-trim s here in
              let cons : (trim s ∷ rest) ≡ kept = cc same in
              subst (λ k. all is_safe k ≡ true) cons (ground arith)
        ]
      ]
    ]

checked_path-is_safe :
    (found : Option (List Text)) (path : Text)
    → ((kept : List Text) → found ≡ some kept → all is_safe kept ≡ true)
    → checked_path found ≡ ok path
    → (segments : List Text) × (path ≡ with_root segments) × (all is_safe segments ≡ true)
checked_path-is_safe none path h e = absurd (cc)
checked_path-is_safe (some kept) path h e = (kept, cc, h kept refl)

relative_of-is_safe :
    (percent_decode : Text → Option Text) (r : Result Text Text) (path : Text)
    → relative_of percent_decode r ≡ ok path
    → (segments : List Text) × (path ≡ with_root segments) × (all is_safe segments ≡ true)
relative_of-is_safe percent_decode (err x) path e = absurd (cc)
relative_of-is_safe percent_decode (ok value) path e =
    checked_path-is_safe (checked_segments (split b'/' value)) path
      (λ kept f. checked_segments-is_safe (split b'/' value) kept (no_slash-split value) f) e

-- A requested path that is taken is a slash and its segments, joined by slashes, each of which is
-- safe, whatever the decoding of percent signs gives.
pub normalize_share_relative_path-is_safe :
    (percent_decode : Text → Option Text) (requested path : Text)
    → normalize_share_relative_path percent_decode requested ≡ ok path
    → (segments : List Text) × (path ≡ with_root segments) × (all is_safe segments ≡ true)
unfolding normalize_share_relative_path
normalize_share_relative_path-is_safe percent_decode requested path e =
    relative_of-is_safe percent_decode (decode_share_path percent_decode (trim requested)) path e
