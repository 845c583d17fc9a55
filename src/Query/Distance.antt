-- ===== src/Query/Distance.antt =====
-- `levenshtein` and `suggest_similar` of crates/ga-query/src/common.rs: the names nearest to one that
-- was not found.
pub mod Edits
pub mod Rows
use graphatlas.Prelude.{
  ℕ, zero, suc, ◌+◌, ◌%◌, ◌==◌, ltb, min, String, List, [], ◌∷◌, Option, none, some, Bool, true,
  false, ◌||◌, ◌&&◌, if◌then◌else◌, length,
}
use graphatlas.Prelude.Text.{codes, le_text}
use graphatlas.Prelude.Sort.{sort_by, take}

-- Arithmetic on u32.
abbrev pub u32 : ℕ → ℕ
u32 n = n % 4_294_967_296

abbrev pub cost : ℕ → ℕ → ℕ
cost x y = if x == y then 0 else 1

-- `(0..=m).collect()`, from the first number on, one for each character and one more.
abbrev pub count_up : ℕ → List ℕ → List ℕ
count_up k [] = u32 k ∷ []
count_up k (y ∷ b) = u32 k ∷ count_up (suc k) b

-- `curr[1..]`, from `curr[j - 1]`, `prev[j - 1]`, and the rest of `prev`.
abbrev pub cells : ℕ → ℕ → ℕ → List ℕ → List ℕ → List ℕ
cells x left diagonal [] ups = []
cells x left diagonal (y ∷ b) [] = []
cells x left diagonal (y ∷ b) (up ∷ ups) =
    let c = min (min (u32 (left + 1)) (u32 (up + 1))) (u32 (diagonal + cost x y)) in
    c ∷ cells x c up b ups

abbrev pub next_row : ℕ → ℕ → List ℕ → List ℕ → List ℕ
next_row i x b [] = []
next_row i x b (diagonal ∷ ups) = u32 i ∷ cells x (u32 i) diagonal b ups

-- The rows for the characters of `a`, from the `i`th on; the two arrays take turns.
abbrev pub rows : ℕ → List ℕ → List ℕ → List ℕ → List ℕ
rows i [] b prev = prev
rows i (x ∷ a) b prev = rows (suc i) a b (next_row i x b prev)

abbrev pub last_or : ℕ → List ℕ → ℕ
last_or d [] = d
last_or d (x ∷ xs) = last_or x xs

unfoldable pub levenshtein : List ℕ → List ℕ → ℕ
levenshtein [] b = u32 (length b)
levenshtein (x ∷ a) [] = u32 (suc (length a))
levenshtein (x ∷ a) (y ∷ b) = last_or 0 (rows 1 (x ∷ a) (y ∷ b) (count_up 0 (y ∷ b)))

-- A candidate: its distance and its name.
abbrev pub nearer : ℕ × String → ℕ × String → Bool
nearer (d, n) (e, m) = if d == e then le_text (codes n) (codes m) else ltb d e

abbrev pub scored_names : String → List String → List (ℕ × String)
scored_names target [] = []
scored_names target (n ∷ ns) = (levenshtein (codes target) (codes n), n) ∷ scored_names target ns

abbrev pub names_of : List (ℕ × String) → List String
names_of [] = []
names_of ((d, n) ∷ ps) = n ∷ names_of ps

-- The names are the texts that the database answers; `none` is its error.
unfoldable pub suggest_similar : String → Option (List String) → List String
suggest_similar target none = []
suggest_similar target (some names) = names_of (take 3 (sort_by nearer (scored_names target names)))
