-- ===== src/Query/Seed/Nearest.antt =====
-- The two copies of the edit distance agree.
use graphatlas.Prelude.{
  ℕ, suc, ◌+◌, ◌≤◌, ◌<◌, min, List, [], ◌∷◌, length, All, ◌≡◌, refl, sym, ap, ◌∙◌, arith,
}
use native.Mathlib.Nat.{mod-eq_of_lt}
use graphatlas.Query.Distance.{u32, cost, count_up, cells, next_row, rows, last_or, levenshtein}
use graphatlas.Query.Seed.{seed_cells, seed_next_row, seed_rows, seed_count_up, seed_levenshtein}

abbrev IsBelow : ℕ → List ℕ → Type 0
IsBelow k l = All (λ n. n ≤ k) l

u32_small : (n : ℕ) → n < 4_294_967_296 → u32 n ≡ n
u32_small n h = mod-eq_of_lt h

-- One cell, with and without the wrap.
cell_agree :
    (k left diagonal up x y : ℕ)
    → left ≤ k + 1
    → diagonal ≤ k
    → up ≤ k
    → k + 2 < 4_294_967_296
    → min (min (u32 (left + 1)) (u32 (up + 1))) (u32 (diagonal + cost x y))
      ≡ min (min (up + 1) (left + 1)) (diagonal + cost x y)
cell_agree k left diagonal up x y p q r h = ground (
  arith,
  u32_small (left + 1) (omega (arith, p, h)),
  u32_small (up + 1) (omega (arith, r, h)),
  u32_small (diagonal + cost x y) (ground (arith, q, h)),
)

cells_agree :
    (k x left diagonal : ℕ) (b ups : List ℕ)
    → left ≤ k + 1
    → diagonal ≤ k
    → IsBelow k ups
    → k + 2 < 4_294_967_296
    → (cells x left diagonal b ups ≡ seed_cells x left diagonal b ups)
      × IsBelow (k + 1) (seed_cells x left diagonal b ups)
cells_agree k x left diagonal [] ups p q r h = (refl, tt)
cells_agree k x left diagonal (y ∷ b) [] p q r h = (refl, tt)
cells_agree k x left diagonal (y ∷ b) (up ∷ ups) p q r h =
    let c : ℕ = min (min (up + 1) (left + 1)) (diagonal + cost x y) in
    let small : c ≤ k + 1 = omega (arith, r.0) in
    let rest = cells_agree k x c up b ups small r.0 r.1 h in
    (
      ap (λ d. d ∷ cells x d up b ups) (cell_agree k left diagonal up x y p q r.0 h)
          ∙ ap (λ l. c ∷ l) rest.0,
      (small, rest.1),
    )

next_row_agree :
    (k i x : ℕ) (b prev : List ℕ)
    → i ≤ k + 1
    → IsBelow k prev
    → k + 2 < 4_294_967_296
    → (next_row i x b prev ≡ seed_next_row i x b prev) × IsBelow (k + 1) (seed_next_row i x b prev)
next_row_agree k i x b [] p q h = (refl, tt)
next_row_agree k i x b (diagonal ∷ ups) p q h =
    let rest = cells_agree k x i diagonal b ups p q.0 q.1 h in
    (
      ap (λ j. j ∷ cells x j diagonal b ups) (u32_small i (omega (arith, p, h)))
          ∙ ap (λ l. i ∷ l) rest.0,
      (p, rest.1),
    )

rows_agree :
    (k i : ℕ) (a b prev : List ℕ)
    → i ≤ k + 1
    → IsBelow k prev
    → k + length a + 2 < 4_294_967_296
    → rows i a b prev ≡ seed_rows i a b prev
rows_agree k i [] b prev p q h = refl
rows_agree k i (x ∷ a) b prev p q h =
    let step = next_row_agree k i x b prev p q (omega (arith, h)) in
    ap (rows (suc i) a b) step.0
    ∙ rows_agree (k + 1) (suc i) a b (seed_next_row i x b prev) (omega (arith, p)) step.1
        (omega (arith, h))

count_up_agree :
    (m k : ℕ) (b : List ℕ)
    → k + length b ≤ m
    → m < 4_294_967_296
    → (count_up k b ≡ seed_count_up k b) × IsBelow m (seed_count_up k b)
count_up_agree m k [] p h =
    (ap (λ n. n ∷ []) (u32_small k (omega (arith, p, h))), (omega (arith, p), tt))
count_up_agree m k (y ∷ b) p h =
    let rest = count_up_agree m (suc k) b (omega (arith, p)) h in
    (
      ap (λ n. n ∷ count_up (suc k) b) (u32_small k (omega (arith, p, h))) ∙ ap (λ l. k ∷ l) rest.0,
      (omega (arith, p), rest.1),
    )

-- The copy of `levenshtein` in seed.rs, which counts in `usize`, gives what the one of common.rs
-- does in `u32`, for names whose lengths, with two more, add up to less than 2^32.
pub seed_levenshtein-levenshtein :
    (a b : List ℕ)
    → length a + length b + 2 < 4_294_967_296
    → seed_levenshtein a b ≡ levenshtein a b
unfolding seed_levenshtein levenshtein
seed_levenshtein-levenshtein [] b h = sym (u32_small (length b) (omega (arith, h)))
seed_levenshtein-levenshtein (x ∷ a) [] h = sym (u32_small (suc (length a)) (omega (arith, h)))
seed_levenshtein-levenshtein (x ∷ a) (y ∷ b) h =
    let start = count_up_agree (length (y ∷ b)) 0 (y ∷ b) (omega arith) (omega (arith, h)) in
    sym (
      ap (λ r. last_or 0 (rows 1 (x ∷ a) (y ∷ b) r)) start.0
      ∙ ap (last_or 0) (
          rows_agree (length (y ∷ b)) 1 (x ∷ a) (y ∷ b) (seed_count_up 0 (y ∷ b)) (omega arith)
            start.1 (omega (arith, h))))
