-- ===== src/Query/Tool.antt =====
-- `impact` of crates/ga-query/src/impact/mod.rs, with `count_defs` and `list_defs` of
-- crates/ga-query/src/common.rs: the tool `ga_impact`. Whether GA_AMBIGUITY_LEGACY is set is an
-- argument.
pub mod Capped
pub mod Dispatch
use graphatlas.Prelude.{
  ℕ, ◌+◌, ◌%◌, ◌^◌, ltb, String, ◌<>◌, str_eq, List, [], ◌∷◌, ◌++◌, any, length, Option, none, some,
  Bool, true, false, not, ◌&&◌, ◌||◌, if◌then◌else◌,
}
use graphatlas.Prelude.Text.{codes, eq_text}
use graphatlas.Prelude.Chars.{of_codes}
use graphatlas.Prelude.Paths.{split}
use graphatlas.Prelude.Sort.{sort_by, take}
use graphatlas.Query.Impact.{is_safe_ident}
use graphatlas.Query.Diff.{trim, extract_files_from_diff}
use graphatlas.Query.Degrees.{Column, text, int64, null, GraphDb}
use graphatlas.Query.Seed.{resolved_to, invalid_params, silent, has_separator, resolve_seed}
use graphatlas.Query.Seed as Seed
use graphatlas.Query.AffectedTests.{Repository}
use graphatlas.Query.Response.{
  ImpactRequest, Filled, nothing_filled, Cut, depth_meta, DefCandidate, ImpactResponse,
  ImpactAnswer, answered, nothing_asked, no_diff_paths, failed, panicked, bad_seed,
  default_max_depth, validate_seed_input,
}
use graphatlas.Query.FillSymbol.{Collectors, fill_from_symbol}
use graphatlas.Query.MultiFile.{le_file, fill_from_changed_files}

abbrev pub output_cap : ℕ
output_cap = 50

abbrev pub cap {ℓ} : {A : Type ℓ} → List A → List A
cap l = if ltb output_cap (length l) then take output_cap l else l

abbrev pub cut_of {ℓ} : {A : Type ℓ} → List A → Cut
cut_of l = record { truncated = ltb output_cap (length l); total_available = length l % 2 ^ 32 }

unfoldable pub apply_output_caps : ImpactResponse → ImpactResponse
unfolding sort_by
apply_output_caps resp =
    let f = resp.filled in
    record resp {
      filled = record f {
        impacted_files = cap (sort_by le_file f.impacted_files);
        affected_tests = cap f.affected_tests;
        affected_routes = cap f.affected_routes;
        affected_configs = cap f.affected_configs;
        break_points = cap f.break_points;
      };
      meta = record (resp.meta) {
        impacted_files = cut_of f.impacted_files;
        affected_tests = cut_of f.affected_tests;
        affected_routes = cut_of f.affected_routes;
        affected_configs = cut_of f.affected_configs;
        break_points = cut_of f.break_points;
      };
    }

abbrev pub vendored_segments : List String
vendored_segments =
    "node_modules"
    ∷ ("vendor" ∷ ("third_party" ∷ (".venv" ∷ ("site-packages" ∷ ("bower_components" ∷ [])))))

unfoldable pub path_is_vendored : String → Bool
path_is_vendored p =
    any (λ segment. any (λ v. eq_text (codes v) segment) vendored_segments) (split (codes p))

unfoldable pub any_vendored_path : Filled → Bool
unfolding path_is_vendored
any_vendored_path f =
    any (λ i. path_is_vendored i.path) f.impacted_files
    || (any (λ t. path_is_vendored t.path) f.affected_tests
        || (any (λ r. path_is_vendored r.source_file) f.affected_routes
            || (any (λ c. path_is_vendored c.path) f.affected_configs
                || any (λ b. path_is_vendored b.file) f.break_points)))

-- The warning, then the caps.
unfoldable pub warn_and_cap : ImpactResponse → ImpactResponse
unfolding apply_output_caps any_vendored_path
warn_and_cap resp = apply_output_caps (
    if any_vendored_path resp.filled
    then record resp { meta = record (resp.meta) { warning = true } }
    else resp)

abbrev pub fresh_response : ℕ → ImpactResponse
fresh_response depth = record {
  filled = nothing_filled;
  meta = depth_meta depth;
  disambiguation = none;
}

abbrev pub depth_of : Option ℕ → ℕ
depth_of none = default_max_depth
depth_of (some d) = d

-- `Some(s.trim())` of a text that is not blank.
abbrev pub given : Option (List ℕ) → Option (List ℕ)
given none = none
given (some s) = let t = trim s in if eq_text t [] then none else some t

abbrev pub count_text : String → String
count_text name =
    "MATCH (s:Symbol) WHERE s.name = '"
    <> (name <> "' AND s.kind <> 'external' RETURN COUNT(DISTINCT s.file)")

abbrev pub defs_text : String → String
defs_text name =
    "MATCH (s:Symbol) WHERE s.name = '"
    <> (name <> "' AND s.kind <> 'external' RETURN s.file, s.line, s.kind ORDER BY s.file, s.line")

-- The last number that starts a row, by its 64 bits.
abbrev pub last_count : ℕ → List (List Column) → ℕ
last_count n [] = n
last_count n ([] ∷ rows) = last_count n rows
last_count n ((int64 v ∷ cs) ∷ rows) = last_count v rows
last_count n ((text s ∷ cs) ∷ rows) = last_count n rows
last_count n ((null ∷ cs) ∷ rows) = last_count n rows

unfoldable pub count_defs : GraphDb → String → Option ℕ
count_defs db name = elim (db.query (count_text name)) [
  | none ↦ none
  | some rows ↦ some (last_count 0 rows)
]

abbrev pub def_line : Column → ℕ
def_line (int64 n) = n % 2 ^ 32
def_line (text s) = 0
def_line null = 0

abbrev pub kind_of : Column → String
kind_of (text s) = s
kind_of (int64 n) = "other"
kind_of null = "other"

-- The definition that a row names; a row without three columns or a file is skipped.
abbrev pub candidate : String → List Column → Option DefCandidate
candidate name [] = none
candidate name (f ∷ []) = none
candidate name (f ∷ (l ∷ [])) = none
candidate name (text f ∷ (l ∷ (k ∷ cs))) =
    some (record {
      qualified_name = f <> ("::" <> name);
      file = f;
      line = def_line l;
      kind = kind_of k;
    })
candidate name (int64 n ∷ (l ∷ (k ∷ cs))) = none
candidate name (null ∷ (l ∷ (k ∷ cs))) = none

-- One candidate for each file, the first. The set of the files is that of the candidates.
unfoldable pub add_candidates : String → List (List Column) → List DefCandidate → List DefCandidate
add_candidates name [] out = out
add_candidates name (row ∷ rows) out = elim (candidate name row) [
  | none ↦ add_candidates name rows out
  | some d ↦
      add_candidates name rows (if any (λ e. str_eq e.file d.file) out then out else out ++ d ∷ [])
]

unfoldable pub list_defs : GraphDb → String → Option (List DefCandidate)
unfolding add_candidates
list_defs db name = elim (db.query (defs_text name)) [
  | none ↦ none
  | some rows ↦ some (add_candidates name rows [])
]

-- `def_count > 1` of a signed number.
abbrev pub is_ambiguous : ℕ → Bool
is_ambiguous n = ltb 1 n && ltb n (2 ^ 63)

abbrev pub has_file : Option String → Bool
has_file none = false
has_file (some f) = true

module _ (db : GraphDb) (repo : Repository) (c : Collectors) (legacy : Bool)
    (req : ImpactRequest) where
  abbrev pub filled_answer : Option Filled → ImpactAnswer
  filled_answer none = failed
  filled_answer (some f) =
      answered (warn_and_cap (record (fresh_response (depth_of req.max_depth)) { filled = f }))

  unfoldable pub search_symbol : List ℕ → ImpactAnswer
  unfolding resolve_seed fill_from_symbol warn_and_cap
  search_symbol symbol = elim (resolve_seed db symbol req.file) [
    | resolved_to name hint ↦
        filled_answer (fill_from_symbol db repo c req name (depth_of req.max_depth))
    | silent ↦ answered (fresh_response (depth_of req.max_depth))
    | invalid_params e ↦ bad_seed e
    | Seed.failed ↦ failed
    | Seed.panicked ↦ panicked
  ]

  unfoldable pub disambiguate : String → ℕ → ImpactAnswer
  unfolding list_defs
  disambiguate name n = elim (list_defs db name) [
    | none ↦ failed
    | some candidates ↦ answered (record (fresh_response (depth_of req.max_depth)) {
      disambiguation = some (record { symbol = name; def_count = n; candidates = candidates });
    })
  ]

  -- Whether the definitions are counted before the search.
  abbrev pub counts_first : List ℕ → Bool
  counts_first symbol =
      not (has_separator symbol)
      && (not (has_file req.file) && (not legacy && is_safe_ident (of_codes symbol)))

  unfoldable pub impact_symbol : List ℕ → ImpactAnswer
  unfolding search_symbol disambiguate count_defs has_separator is_safe_ident
  impact_symbol symbol =
      if counts_first symbol
      then if not db.connects then failed else elim (count_defs db (of_codes symbol)) [
        | none ↦ failed
        | some n ↦ if is_ambiguous n then disambiguate (of_codes symbol) n else search_symbol symbol
      ]
      else search_symbol symbol

  unfoldable pub impact_files : List String → ImpactAnswer
  unfolding fill_from_changed_files warn_and_cap
  impact_files files =
      filled_answer (fill_from_changed_files db repo c req (depth_of req.max_depth) files)

  abbrev pub texts : List (List ℕ) → List String
  texts [] = []
  texts (f ∷ fs) = of_codes f ∷ texts fs

  unfoldable pub impact_diff : Option (List ℕ) → ImpactAnswer
  unfolding impact_files extract_files_from_diff warn_and_cap
  impact_diff none = filled_answer (some nothing_filled)
  impact_diff (some diff) = elim (extract_files_from_diff diff) [
    | [] ↦ no_diff_paths
    | f ∷ fs ↦ impact_files (texts (f ∷ fs))
  ]

  abbrev pub impact_others : Option (List String) → ImpactAnswer
  impact_others none = impact_diff (given req.diff)
  impact_others (some files) = impact_files files

  abbrev pub dispatch : Option (List ℕ) → ImpactAnswer
  dispatch none = impact_others req.changed_files
  dispatch (some symbol) = impact_symbol symbol

  unfoldable pub impact : ImpactAnswer
  unfolding impact_symbol impact_files impact_diff validate_seed_input
  impact = if not (validate_seed_input req) then nothing_asked else dispatch (given req.symbol)
