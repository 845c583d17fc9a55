-- ===== src/Prelude/Dedup.antt =====
-- `Vec::dedup`, and what it leaves of a sorted list; the order and the equality of texts.
use Prim.Native.String.{String}
use text.Mathlib.Text.{◌==◌ as str_eq}
use text.Mathlib.TextEquality.{eq_iff as str_eq_iff}
use mathlib.Core.Path.{◌≡◌, refl, sym, ap, ◌∙◌}
use mathlib.Core.Logic.{◌⊎◌, inl, inr}
use mathlib.Core.Bool.{Bool, true, false, ◌&&◌, ◌||◌, not}
use mathlib.Core.List.{List, [], ◌∷◌}
use native.Mathlib.Omega.{arith}
use graphatlas.Prelude.Tests.{if◌then◌else◌, if-cases}
use graphatlas.Prelude.Lists.{All, any}
use graphatlas.Prelude.Text.{codes, le_text, le_text_total, le_text_trans, le_text_antisym}
use graphatlas.Prelude.Chars.{of_codes, of_codes-codes}
use graphatlas.Prelude.Sort.{IsSorted, All-map, sort_by, sort_by-IsSorted, any-sort_by}

module _ {ℓ} {A : Type ℓ} (eq : A → A → Bool) where
  -- What follows the element that was kept last.
  unfoldable pub dedup_from : A → List A → List A
  dedup_from x [] = x ∷ []
  dedup_from x (y ∷ ys) = if eq x y then dedup_from x ys else x ∷ dedup_from y ys

  unfoldable pub dedup_by : List A → List A
  unfolding dedup_from
  dedup_by [] = []
  dedup_by (x ∷ xs) = dedup_from x xs

  module _ (p : A → Bool) (same : (x y : A) → eq x y ≡ true → p x ≡ p y) where
    any-dedup_from : (x : A) (ys : List A) → any p (dedup_from x ys) ≡ (p x || any p ys)
    unfolding dedup_from
    any-dedup_from x [] = refl
    any-dedup_from x (y ∷ ys) = ground (arith, same x y, any-dedup_from x ys, any-dedup_from y ys)

    pub any-dedup_by : (xs : List A) → any p (dedup_by xs) ≡ any p xs
    unfolding dedup_by
    any-dedup_by [] = refl
    any-dedup_by (x ∷ xs) = any-dedup_from x xs

  module _ (le : A → A → Bool) (trans : (x y z : A) → le x y ≡ true → le y z ≡ true → le x z ≡ true)
      (antisym : (x y : A) → le x y ≡ true → le y x ≡ true → eq x y ≡ true) where
    -- Before another element, and another.
    abbrev pub strictly : A → A → Bool
    strictly x y = le x y && not (eq x y)

    All-dedup_from {κ} :
        (P : A → Type κ) (x : A) (ys : List A) → P x → All P ys → All P (dedup_from x ys)
    unfolding dedup_from
    All-dedup_from P x [] h hs = (h, tt)
    All-dedup_from P x (y ∷ ys) h hs =
        if-cases (All P) (eq x y) (λ _. All-dedup_from P x ys h hs.1)
          (λ _. (h, All-dedup_from P y ys hs.0 hs.1))

    -- An element that differs from the next one differs from all later ones.
    strictly_trans :
        (x y z : A)
        → le x y ≡ true
        → eq x y ≡ false
        → le y z ≡ true
        → (eq x z ≡ true → le z x ≡ true)
        → strictly x z ≡ true
    strictly_trans x y z h d k back =
        ground (arith, trans x y z h k, trans y z x k, antisym x y h, back)

    module _ (eq-le : (x z : A) → eq x z ≡ true → le z x ≡ true) where
      dedup_from-IsSorted :
          (x : A) (ys : List A)
          → All (λ y. le x y ≡ true) ys
          → IsSorted le ys
          → IsSorted strictly (dedup_from x ys)
      unfolding dedup_from
      dedup_from-IsSorted x [] h s = (tt, tt)
      dedup_from-IsSorted x (y ∷ ys) h s =
          if-cases (IsSorted strictly) (eq x y) (λ _. dedup_from-IsSorted x ys h.1 s.1)
            λ d. (
              All-dedup_from _ y ys (ground (arith, h.0, d))
                  (All-map _ _ (λ z k. strictly_trans x y z h.0 d k (eq-le x z)) ys s.0),
              dedup_from-IsSorted y ys s.0 s.1,
            )

      pub dedup_by-IsSorted : (xs : List A) → IsSorted le xs → IsSorted strictly (dedup_by xs)
      unfolding dedup_by
      dedup_by-IsSorted [] s = tt
      dedup_by-IsSorted (x ∷ xs) s = dedup_from-IsSorted x xs s.0 s.1

abbrev pub le_str : String → String → Bool
le_str s t = le_text (codes s) (codes t)

pub le_str_antisym : (s t : String) → le_str s t ≡ true → le_str t s ≡ true → str_eq s t ≡ true
le_str_antisym s t h k = (str_eq_iff s t).1 (
    sym (of_codes-codes s)
    ∙ ap of_codes (le_text_antisym (codes s) (codes t) h k)
    ∙ of_codes-codes t)

pub le_str_refl : (s t : String) → str_eq s t ≡ true → le_str t s ≡ true
le_str_refl s t h = rw ((str_eq_iff s t).0 h) (reflexive (le_text_total (codes t) (codes t)))
  where
    reflexive : (le_str t t ≡ true) ⊎ (le_str t t ≡ true) → le_str t t ≡ true
    reflexive (inl e) = e
    reflexive (inr e) = e

-- `sort(); dedup();` of a list of texts.
unfoldable pub sort_dedup : List String → List String
unfolding sort_by dedup_by
sort_dedup l = dedup_by str_eq (sort_by le_str l)

abbrev pub before_str : String → String → Bool
before_str s t = le_str s t && not (str_eq s t)

pub sort_dedup-IsSorted : (l : List String) → IsSorted before_str (sort_dedup l)
unfolding sort_dedup
sort_dedup-IsSorted l =
    dedup_by-IsSorted str_eq le_str (λ x y z. le_text_trans (codes x) (codes y) (codes z))
      le_str_antisym le_str_refl (sort_by le_str l)
      (sort_by-IsSorted le_str (λ x y. le_text_total (codes x) (codes y))
        (λ x y z. le_text_trans (codes x) (codes y) (codes z)) l)

pub any-sort_dedup :
    (s : String) (l : List String) → any (str_eq s) (sort_dedup l) ≡ any (str_eq s) l
unfolding sort_dedup
any-sort_dedup s l =
    any-dedup_by str_eq (str_eq s) (λ x y e. rw ((str_eq_iff x y).0 e) refl) (sort_by le_str l)
    ∙ any-sort_by (str_eq s) le_str l
