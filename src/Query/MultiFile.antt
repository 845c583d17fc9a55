-- ===== src/Query/MultiFile.antt =====
-- crates/ga-query/src/impact/multi.rs: the union over the symbols of several files. A `HashMap` whose
-- key is part of the item is the list of its items: its order reaches no result, since every list is
-- sorted.
pub mod Merges
pub mod Union
use graphatlas.Prelude.{
  ℕ, ◌+◌, ◌==◌, leb, ltb, String, ◌<>◌, str_eq, List, [], ◌∷◌, ◌++◌, any, Option, none, some, Bool,
  not, ◌&&◌, ◌||◌, if◌then◌else◌,
}
use Prim.Native.Nat.{max}
use graphatlas.Prelude.Text.{codes, eq_text}
use graphatlas.Prelude.Dedup.{le_str}
use graphatlas.Prelude.Sort.{sort_by}
use graphatlas.Query.Diff.{trim}
use graphatlas.Query.Impact.{ImpactedFile, is_safe_ident}
use graphatlas.Query.Degrees.{GraphDb}
use graphatlas.Query.Seed.{leading_texts}
use graphatlas.Query.BreakPoints.{BreakPoint, Grouped, extend_site, close_groups}
use graphatlas.Query.AffectedTests.{AffectedTest, le_test, Repository}
use graphatlas.Query.Response.{ImpactRequest, AffectedRoute, AffectedConfig, Filled, nothing_filled}
use graphatlas.Query.FillSymbol.{Collectors, fill_from_symbol}

-- A path that may stand between quotes.
unfoldable pub is_safe_file : String → Bool
is_safe_file f =
    not (eq_text (trim (codes f)) []) && not (any (λ c. c == 39 || (c == 10 || c == 13)) (codes f))

abbrev pub safe_files : List String → List String
safe_files [] = []
safe_files (f ∷ fs) = let rest = safe_files fs in if is_safe_file f then f ∷ rest else rest

abbrev pub symbols_in_file_text : String → String
symbols_in_file_text file =
    "MATCH (s:Symbol) WHERE s.file = '"
    <> (file <> "' AND s.kind <> 'external' RETURN DISTINCT s.name")

unfoldable pub query_symbols_in_file : GraphDb → String → Option (List String)
query_symbols_in_file db file = elim (db.query (symbols_in_file_text file)) [
  | none ↦ none
  | some rows ↦ some (leading_texts rows)
]

-- Keeps the entry of the least depth.
unfoldable pub keep_nearest : ImpactedFile → List ImpactedFile → List ImpactedFile
keep_nearest item [] = item ∷ []
keep_nearest item (x ∷ m) =
    if str_eq x.path item.path
    then if leb x.depth item.depth then x ∷ m else item ∷ m
    else x ∷ keep_nearest item m

unfoldable pub merge_impacted : List ImpactedFile → List ImpactedFile → List ImpactedFile
unfolding keep_nearest
merge_impacted [] m = m
merge_impacted (x ∷ xs) m = merge_impacted xs (keep_nearest x m)

-- `entry(key).or_insert(item)`, where `same` compares the keys.
unfoldable pub or_insert_by {ℓ} : {A : Type ℓ} → (A → A → Bool) → List A → List A → List A
or_insert_by same [] m = m
or_insert_by same (x ∷ xs) m = or_insert_by same xs (if any (same x) m then m else m ++ x ∷ [])

abbrev pub same_test : AffectedTest → AffectedTest → Bool
same_test a b = str_eq a.path b.path

abbrev pub same_route : AffectedRoute → AffectedRoute → Bool
same_route a b =
    str_eq a.method b.method && (str_eq a.path b.path && str_eq a.source_file b.source_file)

abbrev pub same_config : AffectedConfig → AffectedConfig → Bool
same_config a b = str_eq a.path b.path && (a.line == b.line)

unfoldable pub merge_break_points : List BreakPoint → Grouped → Grouped
unfolding extend_site
merge_break_points [] m = m
merge_break_points (p ∷ ps) m =
    merge_break_points ps (extend_site (p.file, p.line) p.caller_symbols m)

-- By depth, then by path.
abbrev pub le_file : ImpactedFile → ImpactedFile → Bool
le_file a b = if a.depth == b.depth then le_str a.path b.path else ltb a.depth b.depth

abbrev pub le_route : AffectedRoute → AffectedRoute → Bool
le_route a b =
    if str_eq a.path b.path
    then if str_eq a.method b.method
      then le_str a.source_file b.source_file
      else le_str a.method b.method
    else le_str a.path b.path

abbrev pub le_config : AffectedConfig → AffectedConfig → Bool
le_config a b = if str_eq a.path b.path then leb a.line b.line else le_str a.path b.path

-- The five maps, and the greatest completeness.
pub record Maps : Type 0 where
  pub files : List ImpactedFile
  pub tests : List AffectedTest
  pub routes : List AffectedRoute
  pub configs : List AffectedConfig
  pub points : Grouped
  pub completeness : ℕ

abbrev pub no_maps : Maps
no_maps = record {
  files = [];
  tests = [];
  routes = [];
  configs = [];
  points = [];
  completeness = 0;
}

unfoldable pub merge : Filled → Maps → Maps
unfolding merge_impacted or_insert_by merge_break_points
merge p m = record {
  files = merge_impacted p.impacted_files m.files;
  tests = or_insert_by same_test p.affected_tests m.tests;
  routes = or_insert_by same_route p.affected_routes m.routes;
  configs = or_insert_by same_config p.affected_configs m.configs;
  points = merge_break_points p.break_points m.points;
  completeness = max m.completeness p.transitive_completeness;
}

unfoldable pub drain_maps : Maps → Filled
unfolding sort_by close_groups
drain_maps m = record {
  impacted_files = sort_by le_file m.files;
  affected_tests = sort_by le_test m.tests;
  affected_routes = sort_by le_route m.routes;
  affected_configs = sort_by le_config m.configs;
  break_points = close_groups m.points;
  transitive_completeness = m.completeness;
}

module _ (db : GraphDb) (repo : Repository) (c : Collectors) (req : ImpactRequest) (depth : ℕ) where
  -- The loop over the symbols of a file.
  unfoldable pub merge_symbols : List String → Maps → Option Maps
  unfolding fill_from_symbol merge is_safe_ident
  merge_symbols [] m = some m
  merge_symbols (s ∷ ss) m =
      if not (is_safe_ident s)
      then merge_symbols ss m
      else elim (fill_from_symbol db repo c req s depth) [
        | none ↦ none
        | some p ↦ merge_symbols ss (merge p m)
      ]

  unfoldable pub merge_files : List String → Maps → Option Maps
  unfolding merge_symbols query_symbols_in_file
  merge_files [] m = some m
  merge_files (f ∷ fs) m = elim (query_symbols_in_file db f) [
    | none ↦ none
    | some symbols ↦ elim (merge_symbols symbols m) [ none ↦ none | some m' ↦ merge_files fs m' ]
  ]

  -- The filled response; without a safe file the response stays as it was.
  unfoldable pub fill_from_changed_files : List String → Option Filled
  unfolding merge_files drain_maps is_safe_file
  fill_from_changed_files files = elim (safe_files files) [
    | [] ↦ some nothing_filled
    | f ∷ fs ↦
        if not db.connects
        then none
        else elim (merge_files (f ∷ fs) no_maps) [ none ↦ none | some m ↦ some (drain_maps m) ]
  ]
