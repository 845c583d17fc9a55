-- ===== src/Query/Examples/Impact.antt =====
-- A small repository at which the theorems about `ga_impact` apply: `main` of main.py calls `save` of
-- db.py, which test_db.py tests, and `load` has two definitions.
use graphatlas.Prelude.{
  ℕ, String, str_eq, List, [], ◌∷◌, any, none, some, true, false, if◌then◌else◌, ◌≡◌, ◌≢◌, ◌↔◌,
  refl,
}
use graphatlas.Prelude.Assoc.{get, insert}
use graphatlas.Prelude.Text.{codes}
use graphatlas.Query.Degrees.{Column, text, int64, GraphDb}
use graphatlas.Query.Impact.{
  def_files_text, incoming_text, seed, caller, is_safe_ident, query_def_files, query_incoming,
  query_outgoing, upsert_impacted,
}
use graphatlas.Query.TestPath.{is_test_path}
use graphatlas.Query.TextFilter.{contains_seed_token, contains_word_boundary}
use graphatlas.Query.TextFilter.Boundaries.{StandsAlone, word_tests_iff}
use graphatlas.Query.BreakPoints.{
  BreakPoint, CallSite, break_points_text, call_of, collect_break_points,
}
use graphatlas.Query.BreakPoints.Calls.{IsListing, has_call, is_call, collect_break_points_lem}
use graphatlas.Query.AffectedTests.{
  Repository, tested_by_text, files_text, AffectedTest, by_edge, by_convention,
  collect_affected_tests,
}
use graphatlas.Query.AffectedTests.Found
use graphatlas.Query.Response.{ImpactRequest, ImpactResponse, answered, Filled, nothing_filled, Cut}
use graphatlas.Query.FillSymbol.{Collectors}
use graphatlas.Query.MultiFile.{symbols_in_file_text, safe_files, fill_from_changed_files}
use graphatlas.Query.MultiFile.Union.{file_parts, IsUnion, fill_from_changed_files-IsUnion}
use graphatlas.Query.Tool.{impact, count_text, defs_text}
use graphatlas.Query.Tool.Capped.{IsFound, IsCapped, impact-IsCapped}
use graphatlas.Query.Tool.Dispatch.{empty_files_hide_diff}

-- The rows that a list of answers gives to a query, and none else.
abbrev look_up_rows : List (String × List (List Column)) → String → List (List Column)
look_up_rows [] q = []
look_up_rows ((t, rows) ∷ m) q = if str_eq t q then rows else look_up_rows m q

abbrev answers : List (String × List (List Column))
answers =
    (symbols_in_file_text "db.py", (text "save" ∷ []) ∷ [])
    ∷ (def_files_text "save", (text "db.py" ∷ []) ∷ [])
    ∷ (incoming_text "CALLS" "save", (text "main" ∷ text "main.py" ∷ []) ∷ [])
    ∷ (break_points_text "save", (text "main.py" ∷ int64 7 ∷ text "main" ∷ []) ∷ [])
    ∷ (tested_by_text "save", (text "test_db.py" ∷ []) ∷ [])
    ∷ (files_text, (text "db.py" ∷ []) ∷ (text "tests/test_save.py" ∷ []) ∷ [])
    ∷ (count_text "load", (int64 2 ∷ []) ∷ [])
    ∷ (
      defs_text "load",
      (text "a.py" ∷ int64 1 ∷ text "function" ∷ [])
          ∷ (text "b.py" ∷ int64 4 ∷ text "function" ∷ [])
          ∷ (text "b.py" ∷ int64 9 ∷ text "function" ∷ [])
          ∷ [],
    )
    ∷ []

abbrev graph : GraphDb
graph = record { connects = true; query = λ q. some (look_up_rows answers q) }

abbrev repository : Repository
repository = record {
  rooted = true;
  co_change = λ f. [];
  read = λ p. some (codes "from db import save");
}

abbrev collectors : Collectors
collectors = record {
  enriches = λ s f files. true;
  routes = λ s. some [];
  configs = λ s stems. some [];
  co_change_importers = λ f. [];
}

abbrev request : ImpactRequest
request = record {
  symbol = none;
  file = none;
  changed_files = some ("db.py" ∷ "it's.py" ∷ []);
  diff = none;
  max_depth = none;
  include_break_points = none;
  include_routes = none;
  include_configs = none;
  include_co_change_importers = none;
}

-- What `save` fills in.
abbrev filled : Filled
filled = record {
  impacted_files =
      record { path = "db.py"; depth = 0; reason = seed }
      ∷ record { path = "main.py"; depth = 1; reason = caller }
      ∷ [];
  affected_tests =
      record { path = "test_db.py"; reason = by_edge }
      ∷ record { path = "tests/test_save.py"; reason = by_convention }
      ∷ [];
  affected_routes = [];
  affected_configs = [];
  break_points = record { file = "main.py"; line = 7; caller_symbols = "main" ∷ [] } ∷ [];
  transitive_completeness = 1;
}

abbrev changed : List String
changed = "db.py" ∷ "it's.py" ∷ []

save_parts :
    file_parts graph repository collectors request 3 (safe_files changed) ≡ some (filled ∷ [])
unfolding fill_from_changed_files get insert query_def_files query_incoming query_outgoing
    upsert_impacted contains_seed_token
save_parts = refl

fill_from_changed_files-IsUnion_example :
    (r : Filled) × (fill_from_changed_files graph repository collectors request 3 changed ≡ some r)
    × IsUnion (filled ∷ []) r
fill_from_changed_files-IsUnion_example =
    fill_from_changed_files-IsUnion graph repository collectors request 3 changed (filled ∷ []) refl
      save_parts

abbrev total : ℕ → Cut
total n = record { truncated = false; total_available = n }

abbrev reported : ImpactResponse
reported = record {
  filled = filled;
  meta = record {
    max_depth = 3;
    impacted_files = total 2;
    affected_tests = total 2;
    affected_routes = total 0;
    affected_configs = total 0;
    break_points = total 1;
    warning = false;
  };
  disambiguation = none;
}

impact_reports : impact graph repository collectors false request ≡ answered reported
unfolding impact get insert query_def_files query_incoming query_outgoing upsert_impacted
    contains_seed_token
impact_reports = refl

impact-IsCapped_example :
    (full : Filled) × IsFound graph repository collectors false request full
    × IsCapped full reported
impact-IsCapped_example =
    impact-IsCapped graph repository collectors false request reported impact_reports

save_is_safe : is_safe_ident "save" ≡ true
unfolding is_safe_ident
save_is_safe = refl

collect_affected_tests-IsAnswer_example :
    (tests : List AffectedTest) × (collect_affected_tests graph repository "save" (codes "db" ∷ [])
      ≡ some tests)
    × Found.IsAnswer graph "save" tests
collect_affected_tests-IsAnswer_example =
    Found.collect_affected_tests-IsAnswer graph repository "save" (codes "db" ∷ [])
      ((text "db.py" ∷ []) ∷ (text "tests/test_save.py" ∷ []) ∷ []) save_is_safe refl refl

collect_break_points_lem_example :
    (points : List BreakPoint) × (collect_break_points graph "save" ≡ some points)
    × IsListing points
    × ((site : CallSite) (c : String)
        → has_call site c points
          ≡ any
              (λ row. is_call site c (call_of row))
              ((text "main.py" ∷ int64 7 ∷ text "main" ∷ []) ∷ []))
collect_break_points_lem_example =
    collect_break_points_lem graph "save" ((text "main.py" ∷ int64 7 ∷ text "main" ∷ []) ∷ [])
      save_is_safe refl refl

-- A request for `load`.
abbrev ask_load : ImpactRequest
ask_load = record request { symbol = some (codes " load "); changed_files = none }

-- A request with an empty list of files and a diff.
abbrev ask_diff : ImpactRequest
ask_diff = record request { changed_files = some []; diff = some (codes "+++ b/db.py\n") }

empty_files_hide_diff_example :
    (r : ImpactResponse) × (impact graph repository collectors false ask_diff ≡ answered r)
    × (r.filled ≡ nothing_filled)
empty_files_hide_diff_example =
    empty_files_hide_diff graph repository collectors false ask_diff refl refl refl

word_tests_iff_example :
    ((contains_seed_token (codes "call foo()") (codes "foo") ≡ true)
      ↔ ((codes "foo" ≢ []) × StandsAlone (codes "call foo()") (codes "foo")))
    × ((contains_word_boundary (codes "call foo()") (codes "foo") ≡ true)
        ↔ ((codes "foo" ≢ []) × StandsAlone (codes "call foo()") (codes "foo")))
word_tests_iff_example = word_tests_iff (codes "call foo()") (codes "foo")

-- Three of the cases that the tests of common.rs list.
go_test : is_test_path (codes "pkg/server_test.go") ≡ true
unfolding is_test_path
go_test = refl

kmp_test : is_test_path (codes "lib/commonTest/kotlin/Io.kt") ≡ true
unfolding is_test_path
kmp_test = refl

python_source : is_test_path (codes "src/models.py") ≡ false
unfolding is_test_path
python_source = refl
