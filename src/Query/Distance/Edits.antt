-- ===== src/Query/Distance/Edits.antt =====
-- Edit scripts, and the distance by recursion.
use graphatlas.Prelude.{
  ℕ, suc, ◌+◌, ◌≤◌, min, List, [], ◌∷◌, ◌≡◌, ◌⊎◌, inl, inr, arith, Bool-cases, ◌==◌, ==_iff, length,
  reverse,
}
use mathlib.Core.List.{reverse_aux}
use graphatlas.Query.Distance.{cost}

-- `b` is made of `a` by so many removals, additions and replacements.
pub data Edits : List ℕ → List ℕ → ℕ → Type 0 where
  unchanged : Edits [] [] 0
  removed : {a b : List ℕ} {n : ℕ} (x : ℕ) → Edits a b n → Edits (x ∷ a) b (suc n)
  added : {a b : List ℕ} {n : ℕ} (y : ℕ) → Edits a b n → Edits a (y ∷ b) (suc n)
  kept : {a b : List ℕ} {n : ℕ} (x : ℕ) → Edits a b n → Edits (x ∷ a) (x ∷ b) n
  replaced : {a b : List ℕ} {n : ℕ} (x y : ℕ) → Edits a b n → Edits (x ∷ a) (y ∷ b) (suc n)

unfoldable pub distance : List ℕ → List ℕ → ℕ
distance [] b = length b
distance (x ∷ a) [] = suc (length a)
distance (x ∷ a) (y ∷ b) =
    min (min (distance (x ∷ a) b + 1) (distance a (y ∷ b) + 1)) (distance a b + cost x y)

distance_removed : (x : ℕ) (a b : List ℕ) → distance (x ∷ a) b ≤ distance a b + 1
unfolding distance
distance_removed x [] [] = omega arith
distance_removed x (z ∷ a) [] = omega arith
distance_removed x [] (y ∷ b) = ground arith
distance_removed x (z ∷ a) (y ∷ b) = ground arith

distance_added : (y : ℕ) (a b : List ℕ) → distance a (y ∷ b) ≤ distance a b + 1
unfolding distance
distance_added y [] b = omega arith
distance_added y (x ∷ a) b = ground arith

-- No script is shorter than the distance.
pub distance-le : {a b : List ℕ} {n : ℕ} → Edits a b n → distance a b ≤ n
unfolding distance
distance-le unchanged = omega arith
distance-le (removed {a} {b} x e) = omega (arith, distance_removed x a b, distance-le e)
distance-le (added {a} {b} y e) = omega (arith, distance_added y a b, distance-le e)
distance-le (kept x e) = ground (arith, distance-le e)
distance-le (replaced x y e) = ground (arith, distance-le e)

added_all : (b : List ℕ) → Edits [] b (length b)
added_all [] = unchanged
added_all (y ∷ b) = added y (added_all b)

removed_all : (a : List ℕ) → Edits a [] (length a)
removed_all [] = unchanged
removed_all (x ∷ a) = removed x (removed_all a)

min-cases : (a b : ℕ) → (min a b ≡ a) ⊎ (min a b ≡ b)
min-cases a b = ground arith

suc_eq : (n : ℕ) → suc n ≡ n + 1
suc_eq n = omega arith

-- The first characters become each other.
changed : {a b : List ℕ} {n : ℕ} (x y : ℕ) → Edits a b n → Edits (x ∷ a) (y ∷ b) (n + cost x y)
changed {a} {b} {n} x y e = elim (Bool-cases (x == y)) [
  | inl same ↦
      let free : n + cost x y ≡ n = ground (arith, same) in
      rw free (rw (← (==_iff x y).0 same) (kept x e))
  | inr other ↦ let one : n + cost x y ≡ suc n = ground (arith, other) in rw one (replaced x y e)
]

-- Some script is as short as the distance.
pub distance-Edits : (a b : List ℕ) → Edits a b (distance a b)
unfolding distance
distance-Edits [] b = added_all b
distance-Edits (x ∷ a) [] = removed_all (x ∷ a)
distance-Edits (x ∷ a) (y ∷ b) =
    let p = distance (x ∷ a) b + 1 in
    let q = distance a (y ∷ b) + 1 in
    let r = distance a b + cost x y in
    elim (min-cases (min p q) r) [
      | inr e ↦ rw e (changed x y (distance-Edits a b))
      | inl e ↦ rw e (elim (min-cases p q) [
        | inl e' ↦ rw e' (rw (← suc_eq (distance (x ∷ a) b)) (added y (distance-Edits (x ∷ a) b)))
        | inr e' ↦ rw e' (rw (← suc_eq (distance a (y ∷ b))) (removed x (distance-Edits a (y ∷ b))))
      ])
    ]

suc_add : (n k : ℕ) → suc n + k ≡ n + suc k
suc_add n k = omega arith

zero_add : (k : ℕ) → 0 + k ≡ k
zero_add k = omega arith

add_zero : (n : ℕ) → n + 0 ≡ n
add_zero n = omega arith

reverse_aux-Edits :
    {a b c d : List ℕ} {n k : ℕ}
    → Edits a b n
    → Edits c d k
    → Edits (reverse_aux a c) (reverse_aux b d) (n + k)
reverse_aux-Edits unchanged f = rw (zero_add _) f
reverse_aux-Edits (removed {n} x e) f = rw (suc_add n _) (reverse_aux-Edits e (removed x f))
reverse_aux-Edits (added {n} y e) f = rw (suc_add n _) (reverse_aux-Edits e (added y f))
reverse_aux-Edits (kept x e) f = reverse_aux-Edits e (kept x f)
reverse_aux-Edits (replaced {n} x y e) f = rw (suc_add n _) (reverse_aux-Edits e (replaced x y f))

-- A script serves for the words read backwards.
pub reverse-Edits : {a b : List ℕ} {n : ℕ} → Edits a b n → Edits (reverse a) (reverse b) n
reverse-Edits {n} e = rw (← add_zero n) (reverse_aux-Edits e unchanged)
