-- ===== src/Query/AffectedTests.antt =====
-- crates/ga-query/src/impact/affected_tests.rs: the tests that a symbol affects. The git history
-- (crates/ga-query/src/signals) and the files are arguments. A `HashMap` is an association list: its
-- order reaches no result, since the tests are sorted.
mod Kept
pub mod Found
use graphatlas.Prelude.{
  ℕ, ltb, ◌==◌, String, ◌<>◌, str_eq, List, [], ◌∷◌, ◌++◌, any, length, drop, Option, none, some,
  Bool, true, false, not, ◌&&◌, ◌||◌, if◌then◌else◌,
}
use graphatlas.Prelude.Assoc.{Assoc, get, insert}
use graphatlas.Prelude.Text.{codes, eq_text, strip_prefix, starts_with, contains}
use graphatlas.Prelude.Chars.{bytes}
use graphatlas.Prelude.Dedup.{le_str}
use graphatlas.Prelude.Sort.{sort_by}
use graphatlas.Query.Impact.{is_safe_ident}
use graphatlas.Query.Degrees.{GraphDb}
use graphatlas.Query.Seed.{leading_texts, split_last}
use graphatlas.Query.TextFilter.{contains_word_boundary}
use graphatlas.Query.TestPath.{is_test_path}

pub data AffectedTestReason : Type 0 where
  by_edge by_convention : AffectedTestReason

pub record AffectedTest : Type 0 where
  pub path : String
  pub reason : AffectedTestReason

-- Outside the database: whether the root is empty, the files that were committed with a file (with
-- how often), and the bytes of a file, `none` where it cannot be read or is not UTF-8.
pub record Repository : Type 0 where
  pub rooted : Bool
  pub co_change : String → List (String × ℕ)
  pub read : String → Option (List ℕ)

abbrev pub ByPath : Type 0
ByPath = Assoc AffectedTestReason

abbrev pub tested_by_text : String → String
tested_by_text symbol =
    "MATCH (prod:Symbol)-[:TESTED_BY]->(test:Symbol) WHERE prod.name = '"
    <> (symbol <> "' RETURN DISTINCT test.file")

abbrev pub chain_text : String → String
chain_text symbol =
    "MATCH (seed:Symbol)-[:CALLS*1..3]->(prod:Symbol)-[:TESTED_BY]->(test:Symbol) WHERE seed.name = '"
    <> (symbol <> "' RETURN DISTINCT test.file")

abbrev pub importers_text : String → String
importers_text symbol =
    "MATCH (t:File)-[:IMPORTS]->(prod:File)-[:DEFINES]->(s:Symbol) WHERE s.name = '"
    <> (symbol <> "' RETURN DISTINCT t.path")

abbrev pub symbol_files_text : String → String
symbol_files_text symbol =
    "MATCH (s:Symbol) WHERE s.name = '" <> (symbol <> "' RETURN DISTINCT s.file")

abbrev pub files_text : String
files_text = "MATCH (f:File) RETURN f.path"

-- The texts of an answer; none of an error.
abbrev pub texts_or_none : GraphDb → String → List String
texts_or_none db cypher = elim (db.query cypher) [ none ↦ [] | some rows ↦ leading_texts rows ]

unfoldable pub query_symbol_files : GraphDb → String → List String
query_symbol_files db name = texts_or_none db (symbol_files_text name)

abbrev pub insert_edges : List String → ByPath → ByPath
insert_edges [] m = m
insert_edges (p ∷ ps) m = insert_edges ps (insert p by_edge m)

-- `entry(path).or_insert(reason)`.
unfoldable pub or_insert : String → AffectedTestReason → ByPath → ByPath
or_insert p r m = elim (get p m) [ some old ↦ m | none ↦ insert p r m ]

-- The loops that add the paths which pass a test.
unfoldable pub add_paths : (String → Bool) → AffectedTestReason → List String → ByPath → ByPath
unfolding or_insert
add_paths keep r [] m = m
add_paths keep r (p ∷ ps) m = add_paths keep r ps (if keep p then or_insert p r m else m)

abbrev pub test_path : String → Bool
test_path p = is_test_path (codes p)

abbrev cut_at : List ℕ → List ℕ → Option (List ℕ × List ℕ)
cut_at marker [] = none
cut_at marker (c ∷ s) =
    let later = cut_at marker s in
    if starts_with marker (c ∷ s)
    then some ([], drop (length marker) (c ∷ s))
    else elim later [ none ↦ none | some cut ↦ some (c ∷ cut.0, cut.1) ]

-- `rsplit_once('/').map(|(d, _)| d).unwrap_or("")`.
abbrev pub pkg_dir : List ℕ → List ℕ
pkg_dir s = elim (split_last (47 ∷ []) s) [ none ↦ [] | some cut ↦ cut.0 ]

abbrev pub inner_mirror : String → String → List ℕ → List (List ℕ)
inner_mirror main tests file = elim (cut_at (codes main) file) [
  | none ↦ []
  | some cut ↦
      let d = pkg_dir cut.1 in
      if eq_text d [] then [] else (cut.0 ++ (codes tests ++ (d ++ 47 ∷ []))) ∷ []
]

abbrev pub top_mirror : String → String → List ℕ → List (List ℕ) → List (List ℕ)
top_mirror main tests file out = elim (strip_prefix (codes main) file) [
  | none ↦ out
  | some after ↦
      let d = pkg_dir after in
      let mirror = codes tests ++ (d ++ 47 ∷ []) in
      if eq_text d [] || any (eq_text mirror) out then out else out ++ mirror ∷ []
]

unfoldable pub co_package_test_dirs : List ℕ → List (List ℕ)
unfolding split_last
co_package_test_dirs file = top_mirror "src/main/kotlin/" "src/test/kotlin/" file (
    top_mirror "src/main/java/" "src/test/java/" file (
      inner_mirror "/src/main/java/" "/src/test/java/" file
      ++ inner_mirror "/src/main/kotlin/" "/src/test/kotlin/" file))

unfoldable pub path_mentions : List ℕ → List ℕ → List (List ℕ) → Bool
path_mentions path symbol stems =
    contains symbol path || any (λ stem. not (eq_text stem []) && contains stem path) stems

-- Whether one of the files has this directory among its mirrors, as a prefix of the path.
abbrev pub in_mirror : List ℕ → List String → Bool
in_mirror path [] = false
in_mirror path (f ∷ fs) =
    any (λ d. starts_with d path) (co_package_test_dirs (codes f)) || in_mirror path fs

unfoldable pub by_convention_of : String → List (List ℕ) → List String → String → Bool
unfolding path_mentions co_package_test_dirs is_test_path
by_convention_of symbol stems seed_files p =
    test_path p && (path_mentions (codes p) (codes symbol) stems || in_mirror (codes p) seed_files)

abbrev pub cochange_min_commits : ℕ
cochange_min_commits = 2

abbrev pub often : List (String × ℕ) → List String
often [] = []
often ((p, n) ∷ ps) = let rest = often ps in if ltb n cochange_min_commits then rest else p ∷ rest

abbrev pub co_changed : Repository → List String → List String
co_changed repo [] = []
co_changed repo (f ∷ fs) = often (repo.co_change f) ++ co_changed repo fs

unfoldable pub file_contains_token : Repository → String → String → Bool
unfolding contains_word_boundary
file_contains_token repo p token = if str_eq token "" then false else elim (repo.read p) [
  | none ↦ false
  | some text ↦ contains_word_boundary text (bytes (codes token))
]

abbrev pub to_tests : ByPath → List AffectedTest
to_tests [] = []
to_tests ((p, r) ∷ m) = record { path = p; reason = r } ∷ to_tests m

abbrev pub le_test : AffectedTest → AffectedTest → Bool
le_test a b = le_str a.path b.path

unfoldable pub sort_tests : ByPath → List AffectedTest
unfolding sort_by
sort_tests m = sort_by le_test (to_tests m)

module _ (db : GraphDb) (repo : Repository) (symbol : String) where
  -- (1a), (1b), and the files of the symbol that are tests themselves.
  abbrev pub edge_phase : List String → ByPath
  edge_phase seed_files = add_paths test_path by_edge seed_files (
      add_paths (λ p. true) by_edge (texts_or_none db (chain_text symbol))
        (insert_edges (texts_or_none db (tested_by_text symbol)) []))

  -- (2) and (3).
  abbrev pub convention_phase : List (List ℕ) → List String → List String → ByPath → ByPath
  convention_phase stems seed_files files m =
      add_paths (by_convention_of symbol stems seed_files) by_convention files
        (add_paths test_path by_convention (texts_or_none db (importers_text symbol)) m)

  -- (4).
  abbrev pub history_phase : List String → ByPath → ByPath
  history_phase seed_files m =
      if repo.rooted then add_paths test_path by_convention (co_changed repo seed_files) m else m

  -- (5).
  abbrev pub text_phase : List String → ByPath → ByPath
  text_phase files [] =
      if repo.rooted
      then add_paths (λ p. test_path p && file_contains_token repo p symbol) by_convention files []
      else []
  text_phase files (e ∷ m) = e ∷ m

  unfoldable pub collect_affected_tests : List (List ℕ) → Option (List AffectedTest)
  unfolding add_paths by_convention_of file_contains_token sort_tests query_symbol_files
      is_safe_ident
  collect_affected_tests stems =
      let seed_files = query_symbol_files db symbol in
      if not (is_safe_ident symbol)
      then some []
      else if not db.connects
      then none
      else elim (db.query files_text) [
        | none ↦ none
        | some rows ↦
            let files = leading_texts rows in
            some (
              sort_tests (
                text_phase files (
                  history_phase seed_files
                    (convention_phase stems seed_files files (edge_phase seed_files)))))
      ]
