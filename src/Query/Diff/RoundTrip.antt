-- ===== src/Query/Diff/RoundTrip.antt =====
-- A header that git writes for a path is read back as the path.
use graphatlas.Prelude.{ℕ, ◌==◌, List, [], ◌∷◌, ◌++◌, reverse, some, false, All, ◌≡◌, refl, ap, ◌∙◌}
use mathlib.Core.List.{reverse-append, reverse-reverse}
use graphatlas.Prelude.Text.{codes}
use graphatlas.Query.Diff.{
  is_whitespace, trim, before_tab, parse_diff_path, strip_side, non_empty, header_path, header_tag,
}

-- No character is a tab.
abbrev pub HasNoTab : List ℕ → Type 0
HasNoTab s = All (λ c. (c == 9) ≡ false) s

before_tab-append : (s stamp : List ℕ) → HasNoTab s → before_tab (s ++ 9 ∷ stamp) ≡ s
before_tab-append [] stamp h = refl
before_tab-append (c ∷ s) stamp (h, hs) = rw h (ap (λ x. c ∷ x) (before_tab-append s stamp hs))

-- A text between two characters that are no whitespace.
trim-between :
    (a z : ℕ) (s : List ℕ)
    → is_whitespace a ≡ false
    → is_whitespace z ≡ false
    → trim (a ∷ (s ++ z ∷ [])) ≡ a ∷ (s ++ z ∷ [])
trim-between a z s ha hz = rw ha (
    rw (reverse-append (a ∷ s) (z ∷ [])) (
      rw hz (
        reverse-append (z ∷ []) (reverse (a ∷ s))
        ∙ ap (λ x. x ++ z ∷ []) (reverse-reverse (a ∷ s)))))

non_empty-snoc : (q : List ℕ) (z : ℕ) → non_empty (q ++ z ∷ []) ≡ some (q ++ z ∷ [])
non_empty-snoc [] z = refl
non_empty-snoc (c ∷ q) z = refl

strip_side-new : (p : List ℕ) → strip_side (98 ∷ (47 ∷ p)) ≡ p
unfolding strip_side
strip_side-new p = refl

strip_side-old : (p : List ℕ) → strip_side (97 ∷ (47 ∷ p)) ≡ p
unfolding strip_side
strip_side-old p = refl

-- `a/` or `b/`, the path, and a tab with a time stamp.
parse_diff_path-new :
    (q stamp : List ℕ) (z : ℕ)
    → HasNoTab (q ++ z ∷ [])
    → is_whitespace z ≡ false
    → parse_diff_path (98 ∷ (47 ∷ (q ++ z ∷ []) ++ 9 ∷ stamp)) ≡ some (q ++ z ∷ [])
unfolding parse_diff_path
parse_diff_path-new q stamp z h w =
    rw (before_tab-append (98 ∷ (47 ∷ (q ++ z ∷ []))) stamp (refl, (refl, h))) (
      rw (trim-between 98 z (47 ∷ q) refl w)
        (rw (strip_side-new (q ++ z ∷ [])) (non_empty-snoc q z)))

parse_diff_path-old :
    (q stamp : List ℕ) (z : ℕ)
    → HasNoTab (q ++ z ∷ [])
    → is_whitespace z ≡ false
    → parse_diff_path (97 ∷ (47 ∷ (q ++ z ∷ []) ++ 9 ∷ stamp)) ≡ some (q ++ z ∷ [])
unfolding parse_diff_path
parse_diff_path-old q stamp z h w =
    rw (before_tab-append (97 ∷ (47 ∷ (q ++ z ∷ []))) stamp (refl, (refl, h))) (
      rw (trim-between 97 z (47 ∷ q) refl w)
        (rw (strip_side-old (q ++ z ∷ [])) (non_empty-snoc q z)))

-- A path without a tab that does not end in white space, written as git writes it, after `+++ b/` or
-- `--- a/` and before a tab and a time stamp, is read back from the header.
pub header_path-roundtrip :
    (q stamp : List ℕ) (z : ℕ)
    → HasNoTab (q ++ z ∷ [])
    → is_whitespace z ≡ false
    → (header_path (codes "+++ b/" ++ ((q ++ z ∷ []) ++ 9 ∷ stamp)) ≡ some (q ++ z ∷ []))
      × (header_path (codes "--- a/" ++ ((q ++ z ∷ []) ++ 9 ∷ stamp)) ≡ some (q ++ z ∷ []))
unfolding header_path header_tag
header_path-roundtrip q stamp z h w =
    (parse_diff_path-new q stamp z h w, parse_diff_path-old q stamp z h w)
