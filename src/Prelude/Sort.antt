-- ===== src/Prelude/Sort.antt =====
-- `sort_by`, stable, and what a sorted list is.
use Prim.Native.Nat.{ℕ, zero, suc, ◌+◌, ◌≤◌}
use mathlib.Core.Path.{◌≡◌, refl, ap}
use mathlib.Core.Logic.{◌⊎◌, inl, inr}
use mathlib.Core.Bool.{Bool, true, false, ◌&&◌, ◌||◌}
use native.Mathlib.Omega.{arith}
use mathlib.Core.List.{List, [], ◌∷◌}
use graphatlas.Prelude.Tests.{if◌then◌else◌, if-cases}
use graphatlas.Prelude.Lists.{All, any, length}

module _ {ℓ} {A : Type ℓ} where
  abbrev pub take : ℕ → List A → List A
  take zero xs = []
  take (suc n) [] = []
  take (suc n) (x ∷ xs) = x ∷ take n xs

  unfoldable pub insert_by : (A → A → Bool) → A → List A → List A
  insert_by le x [] = x ∷ []
  insert_by le x (y ∷ ys) = if le x y then x ∷ y ∷ ys else y ∷ insert_by le x ys

  -- Equal elements keep their order.
  unfoldable pub sort_by : (A → A → Bool) → List A → List A
  unfolding insert_by
  sort_by le [] = []
  sort_by le (x ∷ xs) = insert_by le x (sort_by le xs)

  -- Each element stands before all that follow it.
  abbrev pub IsSorted : (A → A → Bool) → List A → Type 0
  IsSorted le [] = Unit
  IsSorted le (x ∷ xs) = All (λ y. le x y ≡ true) xs × IsSorted le xs

  All-insert_by {κ} :
      (P : A → Type κ) (le : A → A → Bool) (x : A) (ys : List A)
      → P x
      → All P ys
      → All P (insert_by le x ys)
  unfolding insert_by
  All-insert_by P le x [] p q = (p, tt)
  All-insert_by P le x (y ∷ ys) p q =
      if-cases (All P) (le x y) (λ _. (p, q)) (λ _. (q.0, All-insert_by P le x ys p q.1))

  pub All-map {κ ν} :
      (P : A → Type κ) (Q : A → Type ν) (f : (y : A) → P y → Q y) (xs : List A)
      → All P xs
      → All Q xs
  All-map P Q f [] h = tt
  All-map P Q f (x ∷ xs) h = (f x h.0, All-map P Q f xs h.1)

  module _ (le : A → A → Bool) (total : (x y : A) → (le x y ≡ true) ⊎ (le y x ≡ true))
      (trans : (x y z : A) → le x y ≡ true → le y z ≡ true → le x z ≡ true) where
    insert_by-IsSorted : (x : A) (ys : List A) → IsSorted le ys → IsSorted le (insert_by le x ys)
    unfolding insert_by
    insert_by-IsSorted x [] s = (tt, tt)
    insert_by-IsSorted x (y ∷ ys) s =
        if-cases (IsSorted le) (le x y) (λ e. ((e, All-map _ _ (λ z. trans x y z e) ys s.0), s))
          (λ e. (All-insert_by _ le x ys (other x y e) s.0, insert_by-IsSorted x ys s.1))
      where
        other : (x y : A) → le x y ≡ false → le y x ≡ true
        other x y e = elim (total x y) [ inl h ↦ ground (arith, e, h) | inr h ↦ h ]

    pub sort_by-IsSorted : (xs : List A) → IsSorted le (sort_by le xs)
    unfolding sort_by
    sort_by-IsSorted [] = tt
    sort_by-IsSorted (x ∷ xs) = insert_by-IsSorted x (sort_by le xs) (sort_by-IsSorted xs)

  All-take {κ} : (P : A → Type κ) (n : ℕ) (xs : List A) → All P xs → All P (take n xs)
  All-take P zero xs h = tt
  All-take P (suc n) [] h = tt
  All-take P (suc n) (x ∷ xs) h = (h.0, All-take P n xs h.1)

  pub take-all : (n : ℕ) (xs : List A) → length xs ≤ n → take n xs ≡ xs
  take-all zero [] h = refl
  take-all zero (x ∷ xs) h = absurd (omega (arith, h))
  take-all (suc n) [] h = refl
  take-all (suc n) (x ∷ xs) h = ap (λ t. x ∷ t) (take-all n xs (omega (arith, h)))

  pub take-IsSorted :
      (le : A → A → Bool) (n : ℕ) (xs : List A) → IsSorted le xs → IsSorted le (take n xs)
  take-IsSorted le zero xs s = tt
  take-IsSorted le (suc n) [] s = tt
  take-IsSorted le (suc n) (x ∷ xs) s = (All-take _ n xs s.0, take-IsSorted le n xs s.1)

  pub any-sort_by :
      (f : A → Bool) (le : A → A → Bool) (xs : List A) → any f (sort_by le xs) ≡ any f xs
  unfolding sort_by insert_by
  any-sort_by f le [] = refl
  any-sort_by f le (x ∷ xs) = ground (arith, any-insert_by x (sort_by le xs), any-sort_by f le xs)
    where
      any-insert_by : (x : A) (ys : List A) → any f (insert_by le x ys) ≡ (f x || any f ys)
      any-insert_by x [] = refl
      any-insert_by x (y ∷ ys) = ground (arith, any-insert_by x ys)

  pub All-sort_by {κ} :
      (P : A → Type κ) (le : A → A → Bool) (xs : List A) → All P xs → All P (sort_by le xs)
  unfolding sort_by
  All-sort_by P le [] h = tt
  All-sort_by P le (x ∷ xs) h = All-insert_by P le x (sort_by le xs) h.0 (All-sort_by P le xs h.1)

  -- A symmetric relation between all elements outlives the sorting.
  module _ (r le : A → A → Bool) (symm : (x y : A) → r x y ≡ true → r y x ≡ true) where
    insert_by-Pairwise :
        (x : A) (ys : List A)
        → All (λ y. r x y ≡ true) ys
        → IsSorted r ys
        → IsSorted r (insert_by le x ys)
    unfolding insert_by
    insert_by-Pairwise x [] h s = (tt, tt)
    insert_by-Pairwise x (y ∷ ys) h s =
        if-cases (IsSorted r) (le x y) (λ e. (h, s))
          λ e. (All-insert_by _ le x ys (symm x y h.0) s.0, insert_by-Pairwise x ys h.1 s.1)

    pub sort_by-Pairwise : (xs : List A) → IsSorted r xs → IsSorted r (sort_by le xs)
    unfolding sort_by
    sort_by-Pairwise [] s = tt
    sort_by-Pairwise (x ∷ xs) s =
        insert_by-Pairwise x (sort_by le xs) (All-sort_by _ le xs s.0) (sort_by-Pairwise xs s.1)

  All-both :
      (f g : A → Bool) (xs : List A)
      → All (λ x. f x ≡ true) xs
      → All (λ x. g x ≡ true) xs
      → All (λ x. (f x && g x) ≡ true) xs
  All-both f g [] h k = tt
  All-both f g (x ∷ xs) h k = (ground (arith, h.0, k.0), All-both f g xs h.1 k.1)

  pub IsSorted-both :
      (r s : A → A → Bool) (xs : List A)
      → IsSorted r xs
      → IsSorted s xs
      → IsSorted (λ x y. r x y && s x y) xs
  IsSorted-both r s [] h k = tt
  IsSorted-both r s (x ∷ xs) h k = (All-both (r x) (s x) xs h.0 k.0, IsSorted-both r s xs h.1 k.1)

  pub length-sort_by : (le : A → A → Bool) (xs : List A) → length (sort_by le xs) ≡ length xs
  unfolding sort_by insert_by
  length-sort_by le [] = refl
  length-sort_by le (x ∷ xs) =
      ground (arith, length-insert_by x (sort_by le xs), length-sort_by le xs)
    where
      length-insert_by : (x : A) (ys : List A) → length (insert_by le x ys) ≡ length ys + 1
      length-insert_by x [] = refl
      length-insert_by x (y ∷ ys) = ground (arith, length-insert_by x ys)
