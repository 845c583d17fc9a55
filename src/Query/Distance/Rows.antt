-- ===== src/Query/Distance/Rows.antt =====
-- The rows of `levenshtein` hold the distances between the prefixes of its two names.
use graphatlas.Prelude.{
  ℕ, suc, ◌+◌, ◌≤◌, ◌<◌, min, List, [], ◌∷◌, ◌≡◌, refl, ap, ◌∙◌, arith, length, reverse,
}
use mathlib.Core.Path.{subst}
use mathlib.Core.List.{reverse_aux, reverse-reverse}
use graphatlas.Query.Distance.{u32, cost, count_up, cells, rows, last_or, levenshtein}
use graphatlas.Query.Distance.Edits.{Edits, distance, distance-le, distance-Edits, reverse-Edits}

-- Prefixes are written with the last character first.
abbrev row_after : List ℕ → List ℕ → List ℕ → List ℕ
row_after a p [] = []
row_after a p (y ∷ b) = distance a (y ∷ p) ∷ row_after a (y ∷ p) b

distance-le_lengths : (a b : List ℕ) → distance a b ≤ length a + length b
unfolding distance
distance-le_lengths [] b = omega arith
distance-le_lengths (x ∷ a) [] = omega arith
distance-le_lengths (x ∷ a) (y ∷ b) = ground (arith, distance-le_lengths a (y ∷ b))

u32_small : (n : ℕ) → n < 4_294_967_296 → u32 n ≡ n
u32_small n h = ground (arith, h)

cells-row_after :
    (x : ℕ) (a p b : List ℕ)
    → length a + length p + length b + 2 < 4_294_967_296
    → cells x (distance (x ∷ a) p) (distance a p) b (row_after a p b) ≡ row_after (x ∷ a) p b
unfolding distance
cells-row_after x a p [] h = refl
cells-row_after x a p (y ∷ b) h =
    let above = distance-le_lengths a (y ∷ p) in
    let here = distance-le_lengths a p in
    let left = distance-le_lengths (x ∷ a) p in
    let cell : min (min (u32 (distance (x ∷ a) p + 1)) (u32 (distance a (y ∷ p) + 1)))
          (u32 (distance a p + cost x y))
        ≡ distance (x ∷ a) (y ∷ p) =
      rw (u32_small (distance (x ∷ a) p + 1) (omega (arith, left, h))) (
        rw (u32_small (distance a (y ∷ p) + 1) (omega (arith, above, h)))
          (rw (u32_small (distance a p + cost x y) (ground (arith, here, h))) refl)) in
    ap (λ v. v ∷ cells x v (distance a (y ∷ p)) b (row_after a (y ∷ p) b)) cell
    ∙ ap (λ l. distance (x ∷ a) (y ∷ p) ∷ l) (cells-row_after x a (y ∷ p) b (omega (arith, h)))

rows-row_after :
    (done a b : List ℕ)
    → length done + length a + length b + 2 < 4_294_967_296
    → rows (suc (length done)) a b (distance done [] ∷ row_after done [] b)
      ≡ distance (reverse_aux a done) [] ∷ row_after (reverse_aux a done) [] b
unfolding distance
rows-row_after done [] b h = refl
rows-row_after done (x ∷ a) b h =
    let first = u32_small (suc (length done)) (omega (arith, h)) in
    ap
      (λ i.
        rows (suc (suc (length done))) a b
          (i ∷ cells x i (distance done []) b (row_after done [] b)))
      first
    ∙ ap (λ l. rows (suc (suc (length done))) a b (suc (length done) ∷ l))
        (cells-row_after x done [] b (omega (arith, h)))
    ∙ rows-row_after (x ∷ done) a b (omega (arith, h))

last_or-row_after :
    (a p b : List ℕ) → last_or (distance a p) (row_after a p b) ≡ distance a (reverse_aux b p)
last_or-row_after a p [] = refl
last_or-row_after a p (y ∷ b) = last_or-row_after a (y ∷ p) b

count_up-row_after :
    (p b : List ℕ)
    → length p + length b < 4_294_967_296
    → count_up (length p) b ≡ distance [] p ∷ row_after [] p b
unfolding distance
count_up-row_after p [] h = ap (λ k. k ∷ []) (u32_small (length p) (omega (arith, h)))
count_up-row_after p (y ∷ b) h =
    ap (λ k. k ∷ count_up (suc (length p)) b) (u32_small (length p) (omega (arith, h)))
    ∙ ap (λ l. length p ∷ l) (count_up-row_after (y ∷ p) b (omega (arith, h)))

length-reverse_aux : (a c : List ℕ) → length (reverse_aux a c) ≡ length a + length c
length-reverse_aux [] c = omega arith
length-reverse_aux (x ∷ a) c = omega (arith, length-reverse_aux a (x ∷ c))

distance_nil : (a : List ℕ) → distance a [] ≡ length a
unfolding distance
distance_nil [] = refl
distance_nil (x ∷ a) = refl

levenshtein-distance :
    (a b : List ℕ)
    → length a + length b + 2 < 4_294_967_296
    → levenshtein a b ≡ distance (reverse a) (reverse b)
unfolding levenshtein distance
levenshtein-distance [] b h =
    u32_small (length b) (omega (arith, h)) ∙ omega (arith, length-reverse_aux b [])
levenshtein-distance (x ∷ a) [] h =
    u32_small (suc (length a)) (omega (arith, h))
    ∙ omega (arith, length-reverse_aux (x ∷ a) [], distance_nil (reverse (x ∷ a)))
levenshtein-distance (x ∷ a) (y ∷ b) h =
    ap (λ r. last_or 0 (rows 1 (x ∷ a) (y ∷ b) r))
      (count_up-row_after [] (y ∷ b) (omega (arith, h)))
    ∙ ap (last_or 0) (rows-row_after [] (x ∷ a) (y ∷ b) (omega (arith, h)))
    ∙ last_or-row_after (reverse (x ∷ a)) [] (y ∷ b)

-- `levenshtein` is the least number of edits: some script of that many removals, additions and
-- replacements makes the second name of the first, and no script is shorter, for names whose
-- lengths, with two more, add up to less than 2^32.
pub levenshtein-Edits :
    (a b : List ℕ) (n : ℕ)
    → length a + length b + 2 < 4_294_967_296
    → Edits a b n
    → Edits a b (levenshtein a b) × (levenshtein a b ≤ n)
levenshtein-Edits a b n h e =
    rw (levenshtein-distance a b h)
      (forwards a b (distance-Edits (reverse a) (reverse b)), distance-le (reverse-Edits e))
  where
    forwards : (a b : List ℕ) {n : ℕ} → Edits (reverse a) (reverse b) n → Edits a b n
    forwards a b {n} e =
        subst (λ b'. Edits a b' n) (reverse-reverse b)
          (subst (λ a'. Edits a' (reverse (reverse b)) n) (reverse-reverse a) (reverse-Edits e))
