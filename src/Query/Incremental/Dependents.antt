-- ===== src/Query/Incremental/Dependents.antt =====
-- crates/ga-query/src/incremental.rs: the dependents of dirty files.
use graphatlas.Prelude.{
  ℕ, ◌+◌, ◌-◌, ◌<◌, ◌≡◌, ◌↔◌, Bool, true, false, not, ◌&&◌, List, [], ◌∷◌, any, All, length,
}
use graphatlas.Prelude.Text.{eq_text}
use graphatlas.Prelude.Paths.{same_path}
use graphatlas.Prelude.Sort.{take, IsSorted}
use graphatlas.Query.Incremental.{
  Cell, string, blob, other, Graph, normalize_relpath, has_path, dependents_text, quotable, rows_of,
}
use graphatlas.Query.Incremental.Dirty.{unlike, ascends}

-- A row names the path.
abbrev pub row_names : List ℕ → List Cell → Bool
row_names p [] = false
row_names p (string q ∷ cs) = not (eq_text q []) && same_path (normalize_relpath q) p
row_names p (blob b ∷ cs) = false
row_names p (other ∷ cs) = false

-- The database names the path as a dependent of one of the seeds that can be asked about.
abbrev pub depends : Graph → List ℕ → List (List ℕ) → Bool
depends g p ss =
    any (λ s. quotable s && any (row_names p) (rows_of (g.query (dependents_text s)))) ss

-- Each once, and none of them a seed.
abbrev Apart : List (List ℕ) → List (List ℕ) → Type 0
Apart seeds deps = IsSorted unlike deps × All (λ d. has_path d seeds ≡ false) deps

-- What `expand_dependents` makes of some seeds: of all their dependents, in the order of paths, those
-- that fit beside the seeds into 500 files, and whether some do not.
pub record IsExpansion (g : Graph) (seeds : List (List ℕ)) (answer : List (List ℕ) × Bool)
    : Type 0 where
  pub all : List (List ℕ)
  pub ordered : IsSorted ascends all
  pub exact : (p : List ℕ) → has_path p all ≡ (depends g p seeds && not (has_path p seeds))
  pub kept : answer.0 ≡ take (500 - length seeds) all
  pub flagged : (answer.1 ≡ true) ↔ (500 < length seeds + length all)
