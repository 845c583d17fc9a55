-- ===== src/Query/AffectedTests/Found.antt =====
-- What `collect_affected_tests` finds.
use graphatlas.Prelude.{
  ℕ, String, str_eq, str_eq_iff, str_eq_refl, List, [], ◌∷◌, any, some, Bool, true, false, not,
  ◌&&◌, ◌||◌, if◌then◌else◌, All, ◌≡◌, refl, ◌∙◌, inl, inr, arith, Option-cases, Bool-cases,
  if-cases,
}
use graphatlas.Prelude.Assoc.{get, insert}
use graphatlas.Prelude.Text.{codes, le_text_total, le_text_trans}
use graphatlas.Prelude.Sort.{
  IsSorted, sort_by, sort_by-IsSorted, sort_by-Pairwise, IsSorted-both, any-sort_by, All-sort_by,
}
use graphatlas.Query.Impact.{is_safe_ident}
use graphatlas.Query.Degrees.{GraphDb, Column}
use graphatlas.Query.AffectedTests.Kept.{
  IsKeyed, is_edge, has_edge, insert_edges-IsKeyed, add_paths-IsKeyed, insert_edges-IsEdges,
  add_paths-IsEdges, has_edge-add_paths, has_edge-insert_edges, has_edge-add_edges,
}
use graphatlas.Query.Seed.{leading_texts}
use graphatlas.Query.AffectedTests.{
  AffectedTestReason, by_edge, by_convention, AffectedTest, Repository, ByPath, insert_edges,
  or_insert, add_paths, test_path, to_tests, le_test, sort_tests, texts_or_none, chain_text,
  tested_by_text, query_symbol_files, by_convention_of, edge_phase, convention_phase, history_phase,
  text_phase, files_text, collect_affected_tests, file_contains_token, importers_text, co_changed,
}

-- The paths that an edge names, and the files of the symbol that are tests.
abbrev pub by_edges : GraphDb → String → String → Bool
by_edges db symbol p =
    any (str_eq p) (texts_or_none db (tested_by_text symbol))
    || (any (str_eq p) (texts_or_none db (chain_text symbol))
        || any (str_eq p) (query_symbol_files db symbol) && test_path p)

-- What each entry says is true.
abbrev IsTrue : (String → Bool) → String → AffectedTestReason → Type 0
IsTrue named p by_edge = named p ≡ true
IsTrue named p by_convention = test_path p ≡ true

abbrev IsSound : (String → Bool) → ByPath → Type 0
IsSound named m = All (λ e. IsTrue named e.0 e.1) m

insert-IsSound :
    (named : String → Bool) (p : String) (r : AffectedTestReason) (m : ByPath)
    → IsTrue named p r
    → IsSound named m
    → IsSound named (insert p r m)
unfolding insert
insert-IsSound named p r [] h s = (h, tt)
insert-IsSound named p r ((q, t) ∷ m) h s =
    if-cases (IsSound named) (str_eq q p) (λ _. (h, s.1))
      (λ _. (s.0, insert-IsSound named p r m h s.1))

or_insert-IsSound :
    (named : String → Bool) (p : String) (r : AffectedTestReason) (m : ByPath)
    → IsTrue named p r
    → IsSound named m
    → IsSound named (or_insert p r m)
unfolding or_insert
or_insert-IsSound named p r m h s = elim (Option-cases (get p m)) [
  | inl e ↦ rw (e, or_insert) (insert-IsSound named p r m h s)
  | inr (o, e) ↦ rw (e, or_insert) s
]

-- Of the paths of a list that pass the test.
add_paths-IsSound :
    (named keep : String → Bool) (r : AffectedTestReason) (l : List String) (m : ByPath)
    → All (λ p. keep p ≡ true → IsTrue named p r) l
    → IsSound named m
    → IsSound named (add_paths keep r l m)
unfolding add_paths
add_paths-IsSound named keep r [] m h s = s
add_paths-IsSound named keep r (p ∷ l) m h s =
    add_paths-IsSound named keep r l (if keep p then or_insert p r m else m) h.1
      (if-cases (IsSound named) (keep p) (λ k. or_insert-IsSound named p r m (h.0 k) s) (λ _. s))

insert_edges-IsSound :
    (named : String → Bool) (l : List String) (m : ByPath)
    → All (λ p. named p ≡ true) l
    → IsSound named m
    → IsSound named (insert_edges l m)
insert_edges-IsSound named [] m h s = s
insert_edges-IsSound named (p ∷ l) m h s =
    insert_edges-IsSound named l (insert p by_edge m) h.1 (insert-IsSound named p by_edge m h.0 s)

All-members {κ} :
    (l : List String) (P : String → Type κ)
    → ((p : String) → any (str_eq p) l ≡ true → P p)
    → All P l
All-members [] P f = tt
All-members (q ∷ l) P f =
    (f q (rw (str_eq_refl q) refl), All-members l P (λ p e. f p (ground (arith, e))))

All-all {κ} : (l : List String) (P : String → Type κ) → ((p : String) → P p) → All P l
All-all [] P f = tt
All-all (q ∷ l) P f = (f q, All-all l P f)

to_tests-All {κ} :
    (P : String → AffectedTestReason → Type κ) (m : ByPath)
    → All (λ e. P e.0 e.1) m
    → All (λ t. P t.path t.reason) (to_tests m)
to_tests-All P [] h = tt
to_tests-All P (e ∷ m) h = (h.0, to_tests-All P m h.1)

abbrev pub apart_tests : AffectedTest → AffectedTest → Bool
apart_tests a b = not (str_eq a.path b.path)

abbrev pub before_test : AffectedTest → AffectedTest → Bool
before_test a b = le_test a b && apart_tests a b

to_tests-IsSorted : (m : ByPath) → IsKeyed m → IsSorted apart_tests (to_tests m)
to_tests-IsSorted [] k = tt
to_tests-IsSorted ((p, r) ∷ m) k =
    (to_tests-All (λ q t. not (str_eq p q) ≡ true) m k.0, to_tests-IsSorted m k.1)

-- A path stands in an answer by an edge.
abbrev pub lists_edge : String → List AffectedTest → Bool
lists_edge p tests = any (λ t. str_eq p t.path && is_edge t.reason) tests

lists_edge-to_tests : (p : String) (m : ByPath) → lists_edge p (to_tests m) ≡ has_edge p m
lists_edge-to_tests p [] = refl
lists_edge-to_tests p ((q, r) ∷ m) = ground (arith, lists_edge-to_tests p m)

-- The paths in order and each once; an edge for each path that has one, and what each says is true.
pub record IsAnswer (db : GraphDb) (symbol : String) (tests : List AffectedTest) : Type 0 where
  pub ordered : IsSorted before_test tests
  pub sound : All (λ t. IsTrue (by_edges db symbol) t.path t.reason) tests
  pub complete : (p : String) → by_edges db symbol p ≡ true → lists_edge p tests ≡ true

and_left : (a b : Bool) → (a && b) ≡ true → a ≡ true
and_left true b h = refl
and_left false b h = h

by_convention_of-test_path :
    (symbol : String) (stems : List (List ℕ)) (seed_files : List String) (p : String)
    → by_convention_of symbol stems seed_files p ≡ true
    → test_path p ≡ true
unfolding by_convention_of
by_convention_of-test_path symbol stems seed_files p h = and_left (test_path p) _ h

module _ (db : GraphDb) (repo : Repository) (symbol : String) where
  abbrev tested : List String
  tested = texts_or_none db (tested_by_text symbol)

  abbrev chain : List String
  chain = texts_or_none db (chain_text symbol)

  abbrev seeds : List String
  seeds = query_symbol_files db symbol

  abbrev named : String → Bool
  named = by_edges db symbol

  abbrev first : ByPath
  first = insert_edges tested []

  abbrev second : ByPath
  second = add_paths (λ p. true) by_edge chain first

  -- What holds of the map between the phases.
  record IsPhase (m : ByPath) : Type 0 where
    keyed : IsKeyed m
    true_of : IsSound (by_edges db symbol) m
    full : (p : String) → by_edges db symbol p ≡ true → has_edge p m ≡ true

  edge_phase-IsPhase : IsPhase (edge_phase db repo symbol (query_symbol_files db symbol))
  edge_phase-IsPhase = record {
    keyed =
        add_paths-IsKeyed test_path by_edge seeds second
          (add_paths-IsKeyed (λ p. true) by_edge chain first (insert_edges-IsKeyed tested [] tt));
    true_of =
        add_paths-IsSound named test_path by_edge seeds second
          (All-members seeds _ (λ p e k. ground (arith, e, k)))
          (add_paths-IsSound named (λ p. true) by_edge chain first
            (All-members chain _ (λ p e k. ground (arith, e)))
            (insert_edges-IsSound named tested [] (All-members tested _ (λ p e. ground (arith, e)))
              tt));
    full = λ p e. elim (Bool-cases (any (str_eq p) tested)) [
      | inl h ↦ has_edge-add_paths p test_path by_edge seeds second (
          has_edge-add_paths p (λ q. true) by_edge chain first
            (has_edge-insert_edges p tested [] (rw h refl)))
      | inr h ↦ elim (Bool-cases (any (str_eq p) chain)) [
        | inl k ↦ has_edge-add_paths p test_path by_edge seeds second (
            has_edge-add_edges p (λ q. true) chain first (insert_edges-IsEdges tested [] tt)
              (rw k refl))
        | inr k ↦
            has_edge-add_edges p test_path seeds second
              (add_paths-IsEdges (λ q. true) chain first (insert_edges-IsEdges tested [] tt))
              (ground (arith, e, h, k))
      ]
    ];
  }

  conventions-IsPhase :
      (keep : String → Bool) (l : List String) (m : ByPath)
      → ((p : String) → keep p ≡ true → test_path p ≡ true)
      → IsPhase m
      → IsPhase (add_paths keep by_convention l m)
  conventions-IsPhase keep l m h s = record {
    keyed = add_paths-IsKeyed keep by_convention l m s.keyed;
    true_of =
        add_paths-IsSound (by_edges db symbol) keep by_convention l m (All-all l _ h) s.true_of;
    full = λ p e. has_edge-add_paths p keep by_convention l m (s.full p e);
  }

  convention_phase-IsPhase :
      (stems : List (List ℕ)) (seed_files files : List String) (m : ByPath)
      → IsPhase m
      → IsPhase (convention_phase db repo symbol stems seed_files files m)
  convention_phase-IsPhase stems seed_files files m s =
      conventions-IsPhase (by_convention_of symbol stems seed_files) files _
        (by_convention_of-test_path symbol stems seed_files)
        (conventions-IsPhase test_path (texts_or_none db (importers_text symbol)) m (λ p h. h) s)

  history_phase-IsPhase :
      (seed_files : List String) (m : ByPath)
      → IsPhase m
      → IsPhase (history_phase db repo symbol seed_files m)
  history_phase-IsPhase seed_files m s =
      if-cases IsPhase repo.rooted
        (λ _. conventions-IsPhase test_path (co_changed repo seed_files) m (λ p h. h) s) (λ _. s)

  text_phase-IsPhase :
      (files : List String) (m : ByPath) → IsPhase m → IsPhase (text_phase db repo symbol files m)
  text_phase-IsPhase files [] s =
      if-cases IsPhase repo.rooted
        (λ _.
          conventions-IsPhase (λ p. test_path p && file_contains_token repo p symbol) files []
            (λ p h. ground (arith, h)) s)
        (λ _. s)
  text_phase-IsPhase files (e ∷ m) s = s

  sort_tests-IsAnswer : (m : ByPath) → IsPhase m → IsAnswer db symbol (sort_tests m)
  unfolding sort_tests
  sort_tests-IsAnswer m s = record {
    ordered =
        IsSorted-both le_test apart_tests (sort_by le_test (to_tests m))
          (sort_by-IsSorted le_test (λ a b. le_text_total (codes a.path) (codes b.path))
            (λ a b c. le_text_trans (codes a.path) (codes b.path) (codes c.path)) (to_tests m))
          (sort_by-Pairwise apart_tests le_test
            (λ a b e. ground (arith, e, str_eq_iff a.path b.path, str_eq_iff b.path a.path))
            (to_tests m) (to_tests-IsSorted m s.keyed));
    sound =
        All-sort_by _ le_test (to_tests m) (to_tests-All (IsTrue (by_edges db symbol)) m s.true_of);
    complete = λ p e. any-sort_by _ le_test (to_tests m) ∙ lists_edge-to_tests p m ∙ s.full p e;
  }

  -- Where the connection stands and the files are answered, the affected tests of a symbol that is a
  -- safe identifier are a list of paths, each once and in order. A path stands there as an edge
  -- exactly if the answer to one of the two TESTED_BY queries names it, or it is a file of the
  -- symbol and a test path, and otherwise it is a test path.
  pub collect_affected_tests-IsAnswer :
      (stems : List (List ℕ)) (rows : List (List Column))
      → is_safe_ident symbol ≡ true
      → db.connects ≡ true
      → db.query files_text ≡ some rows
      → (tests : List AffectedTest) × (collect_affected_tests db repo symbol stems ≡ some tests)
        × IsAnswer db symbol tests
  unfolding collect_affected_tests
  collect_affected_tests-IsAnswer stems rows safe up answer =
      let files = leading_texts rows in
      let start = edge_phase db repo symbol seeds in
      let middle = convention_phase db repo symbol stems seeds files start in
      let late = history_phase db repo symbol seeds middle in
      (
        sort_tests (text_phase db repo symbol files late),
        rw (safe, up, answer) refl,
        sort_tests-IsAnswer (text_phase db repo symbol files late) (
            text_phase-IsPhase files late (
              history_phase-IsPhase seeds middle
                (convention_phase-IsPhase stems seeds files start edge_phase-IsPhase))),
      )
