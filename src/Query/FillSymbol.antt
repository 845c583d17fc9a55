-- ===== src/Query/FillSymbol.antt =====
-- `fill_from_symbol` of crates/ga-query/src/impact/mod.rs: what one symbol affects, composed of the
-- search, the text filter, the break points and the tests. The routes, the configurations, the
-- co-changed importers and whether self_explain.rs succeeds are arguments.
use graphatlas.Prelude.{
  ℕ, ◌==◌, String, str_eq, List, [], ◌∷◌, ◌++◌, any, Option, none, some, Bool, true, false, ◌&&◌,
  if◌then◌else◌,
}
use graphatlas.Prelude.Text.{codes, eq_text}
use graphatlas.Query.Impact.{
  Value, string, other, Database, ImpactedFile, co_change, bfs_from_symbol,
}
use graphatlas.Query.Degrees.{Column, text, int64, null, GraphDb}
use graphatlas.Query.Seed.{last_part, dot}
use graphatlas.Query.TextFilter.{filter_by_path_symbols}
use graphatlas.Query.BreakPoints.{collect_break_points}
use graphatlas.Query.AffectedTests.{Repository, collect_affected_tests}
use graphatlas.Query.Response.{
  ImpactRequest, unwrap_or, AffectedRoute, AffectedConfig, Filled, file_stem,
}

-- `none` stands for an error.
pub record Collectors : Type 0 where
  pub enriches : String → Option String → List ImpactedFile → Bool
  pub routes : String → Option (List AffectedRoute)
  pub configs : String → List (List ℕ) → Option (List AffectedConfig)
  pub co_change_importers : String → List String

abbrev pub to_value : Column → Value
to_value (text s) = string s
to_value (int64 n) = other
to_value null = other

abbrev to_row : List Column → List Value
to_row [] = []
to_row (c ∷ cs) = to_value c ∷ to_row cs

abbrev to_rows : List (List Column) → List (List Value)
to_rows [] = []
to_rows (r ∷ rs) = to_row r ∷ to_rows rs

-- The database as the search reads it: texts, and other columns.
abbrev pub to_database : GraphDb → Database
to_database db = record {
  connects = db.connects;
  query = λ cypher. elim (db.query cypher) [ none ↦ none | some rows ↦ some (to_rows rows) ];
}

abbrev pub known_exts : List String
known_exts =
    "py" ∷ ("go" ∷ ("rs" ∷ ("ts" ∷ ("tsx" ∷ ("js" ∷ ("jsx" ∷ ("mjs" ∷ ("cjs" ∷ ("php" ∷ [])))))))))

-- `lang_from_path(..).is_some()`.
unfoldable pub has_lang : String → Bool
unfolding last_part
has_lang path = any (λ e. eq_text (codes e) (last_part dot (codes path))) known_exts

-- The files at depth 0.
abbrev pub seed_paths : List ImpactedFile → List String
seed_paths [] = []
seed_paths (f ∷ fs) = let rest = seed_paths fs in if f.depth == 0 then f.path ∷ rest else rest

abbrev pub stems_of : List String → List (List ℕ)
stems_of [] = []
stems_of (p ∷ ps) =
    let rest = stems_of ps in elim (file_stem (codes p)) [ none ↦ rest | some s ↦ s ∷ rest ]

-- `existing.insert(file)` and the push.
unfoldable pub push_importers : List String → List ImpactedFile → List ImpactedFile
push_importers [] files = files
push_importers (p ∷ ps) files = push_importers ps (
    if any (λ f. str_eq f.path p) files
    then files
    else files ++ record { path = p; depth = 1; reason = co_change } ∷ [])

unfoldable pub add_importers : Collectors → List String → List ImpactedFile → List ImpactedFile
unfolding push_importers has_lang
add_importers c [] files = files
add_importers c (p ∷ ps) files =
    add_importers c ps
      (if has_lang p then push_importers (c.co_change_importers p) files else files)

module _ (db : GraphDb) (repo : Repository) (c : Collectors) (req : ImpactRequest) where
  -- The part behind `wants_co_change_importers`.
  abbrev pub with_importers : String → List ImpactedFile → Option (List ImpactedFile)
  with_importers symbol files =
      if unwrap_or false req.include_co_change_importers && repo.rooted
      then (let more = add_importers c (seed_paths files) files in
          if c.enriches symbol req.file more then some more else none)
      else some files

  abbrev pub or_empty {ℓ} : {A : Type ℓ} → Bool → Option (List A) → Option (List A)
  or_empty wanted answer = if wanted then answer else some []

  unfoldable pub collect : String → List ImpactedFile → ℕ → Option Filled
  unfolding collect_break_points collect_affected_tests file_stem add_importers
  collect symbol files completeness =
      elim (or_empty (unwrap_or true req.include_break_points) (collect_break_points db symbol)) [
        | none ↦ none
        | some points ↦ elim (collect_affected_tests db repo symbol (stems_of (seed_paths files))) [
          | none ↦ none
          | some tests ↦ elim (or_empty (unwrap_or true req.include_routes) (c.routes symbol)) [
            | none ↦ none
            | some routes ↦
                elim (or_empty (unwrap_or true req.include_configs)
                  (c.configs symbol (stems_of (seed_paths files)))) [
                    | none ↦ none
                    | some configs ↦ elim (with_importers symbol files) [
                      | none ↦ none
                      | some all ↦ some (record {
                        impacted_files = all;
                        affected_tests = tests;
                        affected_routes = routes;
                        affected_configs = configs;
                        break_points = points;
                        transitive_completeness = completeness;
                      })
                    ]
                  ]
          ]
        ]
      ]

  unfoldable pub fill_from_symbol : String → ℕ → Option Filled
  unfolding collect bfs_from_symbol filter_by_path_symbols
  fill_from_symbol symbol max_depth = elim (bfs_from_symbol (to_database db) symbol max_depth) [
    | none ↦ none
    | some (files, completeness, visited) ↦
        let filtered = filter_by_path_symbols repo.read visited files in
        if c.enriches symbol req.file filtered then collect symbol filtered completeness else none
  ]
