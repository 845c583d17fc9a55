-- ===== src/Query/Seed.antt =====
-- crates/ga-query/src/impact/seed.rs: the name that a symbol of a request stands for, which may be
-- qualified (`Class.method`, `Type::method`). A text that is cut is the list of its code points. The
-- lengths in `levenshtein` are those of texts in memory, so its `usize` never wraps.
pub mod Split
pub mod Safe
pub mod Nearest
use graphatlas.Prelude.{
  ℕ, suc, ◌+◌, ◌==◌, ltb, min, String, ◌<>◌, List, [], ◌∷◌, drop, length, Option, none, some, Bool,
  not, ◌||◌, if◌then◌else◌,
}
use graphatlas.Prelude.Text.{codes, eq_text, starts_with, contains}
use graphatlas.Prelude.Chars.{of_codes}
use graphatlas.Prelude.Dedup.{le_str}
use graphatlas.Prelude.Sort.{sort_by, take}
use graphatlas.Query.Impact.{is_safe_ident}
use graphatlas.Query.Degrees.{Column, text, int64, null, GraphDb}
use graphatlas.Query.Distance.{cost, last_or, names_of}

-- What `Error::InvalidParams` says.
pub data SeedError : Type 0 where
  method_disallowed still_separated parts_disallowed : SeedError
  not_found : List String → SeedError

-- `resolved` is `Ok(Some(..))`, `silent` is `Ok(None)`, and `failed` another error.
pub data Resolution : Type 0 where
  resolved_to : String → Option String → Resolution
  invalid_params : SeedError → Resolution
  silent failed panicked : Resolution

abbrev pub colons : List ℕ
colons = 58 ∷ (58 ∷ [])

abbrev pub dot : List ℕ
dot = 46 ∷ []

-- `rfind`: the text before and after the last occurrence.
unfoldable pub split_last : List ℕ → List ℕ → Option (List ℕ × List ℕ)
split_last sep [] = none
split_last sep (c ∷ s) = elim (split_last sep s) [
  | some cut ↦ some (c ∷ cut.0, cut.1)
  | none ↦ if starts_with sep (c ∷ s) then some ([], drop (length sep) (c ∷ s)) else none
]

-- `rsplit(..).next()`.
unfoldable pub last_part : List ℕ → List ℕ → List ℕ
unfolding split_last
last_part sep s = elim (split_last sep s) [ none ↦ s | some cut ↦ cut.1 ]

-- `none` is the panic of `expect`.
unfoldable pub split_qualified : List ℕ → Option (List ℕ × List ℕ)
unfolding last_part
split_qualified raw = elim (split_last colons raw) [
  | some cut ↦ some (last_part dot (last_part colons cut.0), cut.1)
  | none ↦ elim (split_last dot raw) [ none ↦ none | some cut ↦ some (last_part dot cut.0, cut.1) ]
]

unfoldable pub is_well_known_root : List ℕ → Bool
is_well_known_root s =
    eq_text s (codes "crate")
    || (eq_text s (codes "self")
        || (eq_text s (codes "super") || (eq_text s (codes "this") || eq_text s (codes "cls"))))

unfoldable pub has_separator : List ℕ → Bool
has_separator s = contains colons s || contains dot s

abbrev pub contains_text : String → String → String
contains_text enclosing method =
    "MATCH (cls:Symbol)-[:CONTAINS]->(m:Symbol) WHERE cls.name = '"
    <> (enclosing
        <> ("' AND m.name = '"
            <> (method <> "' AND m.kind <> 'external' RETURN m.name, m.file LIMIT 1")))

abbrev pub fallback_text : String → String
fallback_text method =
    "MATCH (s:Symbol) WHERE s.name = '"
    <> (method <> "' AND s.kind <> 'external' RETURN s.file LIMIT 1")

abbrev pub all_names_text : String
all_names_text = "MATCH (s:Symbol) WHERE s.kind <> 'external' RETURN DISTINCT s.name LIMIT 10000"

-- The first row that starts with two texts.
abbrev pub first_pair : List (List Column) → Option (String × String)
first_pair [] = none
first_pair ([] ∷ rows) = first_pair rows
first_pair ((c ∷ []) ∷ rows) = first_pair rows
first_pair ((text n ∷ (text f ∷ cs)) ∷ rows) = some (n, f)
first_pair ((text n ∷ (int64 i ∷ cs)) ∷ rows) = first_pair rows
first_pair ((text n ∷ (null ∷ cs)) ∷ rows) = first_pair rows
first_pair ((int64 i ∷ (c ∷ cs)) ∷ rows) = first_pair rows
first_pair ((null ∷ (c ∷ cs)) ∷ rows) = first_pair rows

-- The first columns that are texts.
abbrev pub leading_texts : List (List Column) → List String
leading_texts [] = []
leading_texts ([] ∷ rows) = leading_texts rows
leading_texts ((text s ∷ cs) ∷ rows) = s ∷ leading_texts rows
leading_texts ((int64 i ∷ cs) ∷ rows) = leading_texts rows
leading_texts ((null ∷ cs) ∷ rows) = leading_texts rows

-- `curr[1..]` of `levenshtein`, from `curr[j - 1]`, `prev[j - 1]`, and the rest of `prev`.
abbrev pub seed_cells : ℕ → ℕ → ℕ → List ℕ → List ℕ → List ℕ
seed_cells x left diagonal [] ups = []
seed_cells x left diagonal (y ∷ b) [] = []
seed_cells x left diagonal (y ∷ b) (up ∷ ups) =
    let c = min (min (up + 1) (left + 1)) (diagonal + cost x y) in c ∷ seed_cells x c up b ups

abbrev pub seed_next_row : ℕ → ℕ → List ℕ → List ℕ → List ℕ
seed_next_row i x b [] = []
seed_next_row i x b (diagonal ∷ ups) = i ∷ seed_cells x i diagonal b ups

abbrev pub seed_rows : ℕ → List ℕ → List ℕ → List ℕ → List ℕ
seed_rows i [] b prev = prev
seed_rows i (x ∷ a) b prev = seed_rows (suc i) a b (seed_next_row i x b prev)

-- `(0..=n).collect()`.
abbrev pub seed_count_up : ℕ → List ℕ → List ℕ
seed_count_up k [] = k ∷ []
seed_count_up k (y ∷ b) = k ∷ seed_count_up (suc k) b

unfoldable pub seed_levenshtein : List ℕ → List ℕ → ℕ
seed_levenshtein [] b = length b
seed_levenshtein (x ∷ a) [] = suc (length a)
seed_levenshtein (x ∷ a) (y ∷ b) = last_or 0 (seed_rows 1 (x ∷ a) (y ∷ b) (seed_count_up 0 (y ∷ b)))

abbrev pub closer : ℕ × String → ℕ × String → Bool
closer (d, n) (e, m) = if d == e then le_str n m else ltb d e

abbrev pub score_names : List ℕ → List String → List (ℕ × String)
score_names target [] = []
score_names target (n ∷ ns) = (seed_levenshtein target (codes n), n) ∷ score_names target ns

unfoldable pub find_nearest_symbol_names : GraphDb → List ℕ → ℕ → List String
unfolding seed_levenshtein sort_by
find_nearest_symbol_names db target k = elim (db.query all_names_text) [
  | none ↦ []
  | some rows ↦ names_of (take k (sort_by closer (score_names target (leading_texts rows))))
]

module _ (db : GraphDb) where
  -- The error with the suggestions.
  abbrev pub unknown : List ℕ → Resolution
  unknown method = invalid_params (not_found (find_nearest_symbol_names db method 3))

  unfoldable pub fallback : List ℕ → Option String → Resolution
  unfolding find_nearest_symbol_names
  fallback method none = unknown method
  fallback method (some hint) = elim (db.query (fallback_text (of_codes method))) [
    | none ↦ failed
    | some rows ↦ elim (leading_texts rows) [
      | [] ↦ unknown method
      | f ∷ fs ↦ resolved_to (of_codes method) (some hint)
    ]
  ]

  unfoldable pub find_contained : List ℕ → List ℕ → Option String → Resolution
  unfolding fallback
  find_contained enclosing method hint =
      if not db.connects
      then failed
      else elim (db.query (contains_text (of_codes enclosing) (of_codes method))) [
        | none ↦ failed
        | some rows ↦ elim (first_pair rows) [
          | none ↦ fallback method hint
          | some (name, file) ↦ resolved_to name (some file)
        ]
      ]

  unfoldable pub resolve_parts : List ℕ → List ℕ → Option String → Resolution
  unfolding find_contained is_well_known_root has_separator is_safe_ident
  resolve_parts enclosing method hint =
      if is_well_known_root enclosing
      then if not (is_safe_ident (of_codes method))
        then invalid_params method_disallowed
        else resolved_to (of_codes method) hint
      else if has_separator enclosing || has_separator method
      then invalid_params still_separated
      else if not (is_safe_ident (of_codes enclosing)) || not (is_safe_ident (of_codes method))
      then invalid_params parts_disallowed
      else find_contained enclosing method hint

  unfoldable pub resolve_seed : List ℕ → Option String → Resolution
  unfolding resolve_parts split_qualified has_separator is_safe_ident
  resolve_seed raw hint =
      if not (has_separator raw)
      then if not (is_safe_ident (of_codes raw)) then silent else resolved_to (of_codes raw) hint
      else elim (split_qualified raw) [
        | none ↦ panicked
        | some (enclosing, method) ↦ resolve_parts enclosing method hint
      ]
