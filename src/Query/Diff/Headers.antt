-- ===== src/Query/Diff/Headers.antt =====
-- Which paths a diff yields.
use graphatlas.Prelude.{ℕ, suc, List, [], ◌∷◌, ◌++◌, none, some, Bool, if◌then◌else◌, any}
use graphatlas.Prelude.Text.{codes, eq_text}
use graphatlas.Query.Diff.{header_path, seen_mem}

-- The paths of the header lines, in order.
abbrev pub header_paths : List (List ℕ) → List (List ℕ)
header_paths [] = []
header_paths (l ∷ ls) =
    let rest = header_paths ls in elim (header_path l) [ none ↦ rest | some p ↦ p ∷ rest ]

abbrev pub without : List ℕ → List (List ℕ) → List (List ℕ)
without p [] = []
without p (q ∷ l) = let rest = without p l in if eq_text p q then rest else q ∷ rest

-- Each text at its first place only.
abbrev pub firsts : List (List ℕ) → List (List ℕ)
firsts [] = []
firsts (p ∷ l) = p ∷ without p (firsts l)

-- What is not in `seen`.
abbrev unseen : List (List ℕ) → List (List ℕ) → List (List ℕ)
unseen seen [] = []
unseen seen (q ∷ l) = let rest = unseen seen l in if seen_mem q seen then rest else q ∷ rest

-- Some line is this one.
abbrev pub has_line : List ℕ → List (List ℕ) → Bool
has_line l ls = any (λ k. eq_text k l) ls

-- A header as git writes it for the new and for the old file: the path, a tab, and a time stamp.
abbrev pub new_header : List ℕ → List ℕ → List ℕ
new_header path stamp = codes "+++ b/" ++ (path ++ 9 ∷ stamp)

abbrev pub old_header : List ℕ → List ℕ → List ℕ
old_header path stamp = codes "--- a/" ++ (path ++ 9 ∷ stamp)

-- How often the path occurs.
abbrev pub occurs : List ℕ → List (List ℕ) → ℕ
occurs p [] = 0
occurs p (q ∷ l) = if eq_text q p then suc (occurs p l) else occurs p l
