-- ===== src/Query/MultiFile/Union.antt =====
-- The answer for several files is the union of those of their symbols.
use graphatlas.Prelude.{
  or_false, ℕ, String, str_eq, str_eq_iff, List, [], ◌∷◌, ◌++◌, any, Option, none, some, Bool, true,
  ◌&&◌, ◌||◌, if◌then◌else◌, ◌≡◌, refl, sym, ap, ◌∙◌, ◌⊎◌, inl, inr, arith, Option-cases,
  Bool-cases, List-cases,
}
use Prim.Native.Nat.{max}
use graphatlas.Prelude.Text.{codes, le_text_total, le_text_trans}
use graphatlas.Prelude.Sort.{
  IsSorted, sort_by, any-sort_by, sort_by-IsSorted, sort_by-Pairwise, IsSorted-both,
}
use graphatlas.Query.Impact.{ImpactedFile, is_safe_ident}
use graphatlas.Query.Degrees.{GraphDb}
use graphatlas.Query.BreakPoints.{CallSite, close_groups}
use graphatlas.Query.BreakPoints.Calls.{
  has_call, grouped_call, has_call-close_groups, IsKeyed, IsListing, close_groups-IsListing,
}
use graphatlas.Query.AffectedTests.{AffectedTest, Repository, le_test}
use graphatlas.Query.Response.{ImpactRequest, Filled, AffectedRoute, AffectedConfig}
use graphatlas.Query.FillSymbol.{Collectors, fill_from_symbol}
use graphatlas.Query.MultiFile.{
  same_test, same_route, same_config, Maps, no_maps, merge, drain_maps, merge_symbols, merge_files,
  fill_from_changed_files, safe_files, query_symbols_in_file, le_file, le_route, le_config,
}
use graphatlas.Query.MultiFile.Merges.{
  within, within-merge_impacted, any-or_insert_by, grouped-merge_break_points,
  IsKeyed-merge_break_points, apart_files, merge_impacted-IsSorted,
}

-- The answers for the symbols one by one, in the order in which they are asked.
abbrev pub also : Option (List Filled) → Option (List Filled) → Option (List Filled)
also none qs = none
also (some ps) none = none
also (some ps) (some qs) = some (ps ++ qs)

abbrev pub one : Option Filled → Option (List Filled)
one none = none
one (some p) = some (p ∷ [])

module _ (db : GraphDb) (repo : Repository) (c : Collectors) (req : ImpactRequest) (depth : ℕ) where
  abbrev pub symbol_parts : List String → Option (List Filled)
  symbol_parts [] = some []
  symbol_parts (s ∷ ss) =
      if is_safe_ident s
      then also (one (fill_from_symbol db repo c req s depth)) (symbol_parts ss)
      else symbol_parts ss

  abbrev parts_of : Option (List String) → Option (List Filled)
  parts_of none = none
  parts_of (some symbols) = symbol_parts symbols

  abbrev pub file_parts : List String → Option (List Filled)
  file_parts [] = some []
  file_parts (f ∷ fs) = also (parts_of (query_symbols_in_file db f)) (file_parts fs)

abbrev merge_all : List Filled → Maps → Maps
merge_all [] m = m
merge_all (p ∷ ps) m = merge_all ps (merge p m)

abbrev merged : Maps → Option (List Filled) → Option Maps
merged m none = none
merged m (some ps) = some (merge_all ps m)

merge_all-append :
    (ps qs : List Filled) (m : Maps) → merge_all (ps ++ qs) m ≡ merge_all qs (merge_all ps m)
merge_all-append [] qs m = refl
merge_all-append (p ∷ ps) qs m = merge_all-append ps qs (merge p m)

abbrev pub greatest : List Filled → ℕ
greatest [] = 0
greatest (p ∷ ps) = max p.transitive_completeness (greatest ps)

abbrev pub tests_path : String → AffectedTest → Bool
tests_path p t = str_eq p t.path

-- By depth and path, and no path twice.
abbrev pub before_file : ImpactedFile → ImpactedFile → Bool
before_file a b = le_file a b && apart_files a b

-- The union of some parts: a path at the least depth that any part has it at, in order and once; a
-- test, a route, a configuration or a call where a part has it; and the greatest completeness.
pub record IsUnion (ps : List Filled) (r : Filled) : Type 0 where
  pub nearest :
      (p : String) (d : ℕ) → within p d r.impacted_files ≡ any (λ q. within p d q.impacted_files) ps
  pub ordered : IsSorted before_file r.impacted_files
  pub tests :
      (p : String)
      → any (tests_path p) r.affected_tests ≡ any (λ q. any (tests_path p) q.affected_tests) ps
  pub routes :
      (x : AffectedRoute)
      → any (same_route x) r.affected_routes ≡ any (λ q. any (same_route x) q.affected_routes) ps
  pub configs :
      (x : AffectedConfig)
      → any (same_config x) r.affected_configs
        ≡ any (λ q. any (same_config x) q.affected_configs) ps
  pub calls :
      (site : CallSite) (s : String)
      → has_call site s r.break_points ≡ any (λ q. has_call site s q.break_points) ps
  pub listing : IsListing r.break_points
  pub deepest : r.transitive_completeness ≡ greatest ps

-- A test of maps that a merge passes on as "or" holds of all parts' union.
any-merge_all :
    (f : Maps → Bool) (g : Filled → Bool)
    → ((p : Filled) (m : Maps) → f (merge p m) ≡ (g p || f m))
    → (ps : List Filled) (m : Maps) → f (merge_all ps m) ≡ (any g ps || f m)
any-merge_all f g step [] m = refl
any-merge_all f g step (p ∷ ps) m = ground (arith, any-merge_all f g step ps (merge p m), step p m)

completeness-merge_all :
    (ps : List Filled) (m : Maps) → (merge_all ps m).completeness ≡ max m.completeness (greatest ps)
unfolding merge
completeness-merge_all [] m = omega arith
completeness-merge_all (p ∷ ps) m = completeness-merge_all ps (merge p m) ∙ omega arith

record IsClean (m : Maps) : Type 0 where
  distinct : IsSorted apart_files m.files
  keyed : IsKeyed m.points

merge_all-IsClean : (ps : List Filled) (m : Maps) → IsClean m → IsClean (merge_all ps m)
unfolding merge
merge_all-IsClean [] m k = k
merge_all-IsClean (p ∷ ps) m k = merge_all-IsClean ps (merge p m) (record {
  distinct = merge_impacted-IsSorted p.impacted_files m.files k.distinct;
  keyed = IsKeyed-merge_break_points p.break_points m.points k.keyed;
})

pub le_file_total : (a b : ImpactedFile) → (le_file a b ≡ true) ⊎ (le_file b a ≡ true)
le_file_total a b = ground (arith, le_text_total (codes a.path) (codes b.path))

pub le_file_trans :
    (a b c : ImpactedFile) → le_file a b ≡ true → le_file b c ≡ true → le_file a c ≡ true
le_file_trans a b c h k =
    ground (arith, h, k, le_text_trans (codes a.path) (codes b.path) (codes c.path))

files_ordered :
    (m : Maps) → IsSorted apart_files m.files → IsSorted before_file (sort_by le_file m.files)
files_ordered m k =
    IsSorted-both le_file apart_files (sort_by le_file m.files)
      (sort_by-IsSorted le_file le_file_total le_file_trans m.files)
      (sort_by-Pairwise apart_files le_file
        (λ a b e. ground (arith, e, str_eq_iff a.path b.path, str_eq_iff b.path a.path)) m.files k)

drain_maps-IsUnion : (ps : List Filled) → IsUnion ps (drain_maps (merge_all ps no_maps))
unfolding drain_maps merge
drain_maps-IsUnion ps =
    let m = merge_all ps no_maps in
    let clean = merge_all-IsClean ps no_maps (record { distinct = tt; keyed = tt }) in
    record {
      nearest = λ p d.
          any-sort_by _ le_file m.files
          ∙ any-merge_all (λ n. within p d n.files) (λ q. within p d q.impacted_files)
              (λ q n. within-merge_impacted p d q.impacted_files n.files) ps no_maps
          ∙ or_false _;
      ordered = files_ordered m clean.distinct;
      tests = λ p.
          any-sort_by _ le_test m.tests
          ∙ any-merge_all (λ n. any (tests_path p) n.tests)
              (λ q. any (tests_path p) q.affected_tests)
              (λ q n.
                any-or_insert_by (tests_path p) same_test
                  (λ a b e. ground (arith, e, str_eq_iff a.path b.path)) q.affected_tests n.tests)
              ps no_maps
          ∙ or_false _;
      routes = λ x.
          any-sort_by _ le_route m.routes
          ∙ any-merge_all (λ n. any (same_route x) n.routes)
              (λ q. any (same_route x) q.affected_routes)
              (λ q n.
                any-or_insert_by (same_route x) same_route (same_route_like x) q.affected_routes
                  n.routes)
              ps no_maps
          ∙ or_false _;
      configs = λ x.
          any-sort_by _ le_config m.configs
          ∙ any-merge_all (λ n. any (same_config x) n.configs)
              (λ q. any (same_config x) q.affected_configs)
              (λ q n.
                any-or_insert_by (same_config x) same_config
                  (λ a b e. ground (arith, e, str_eq_iff a.path b.path)) q.affected_configs
                  n.configs)
              ps no_maps
          ∙ or_false _;
      calls = λ site s.
          has_call-close_groups site s m.points
          ∙ any-merge_all (λ n. grouped_call site s n.points) (λ q. has_call site s q.break_points)
              (λ q n. grouped-merge_break_points site s q.break_points n.points) ps no_maps
          ∙ or_false _;
      listing = close_groups-IsListing m.points clean.keyed;
      deepest = completeness-merge_all ps no_maps ∙ omega arith;
    }
  where
    same_route_like :
        (x a b : AffectedRoute) → same_route a b ≡ true → same_route x a ≡ same_route x b
    same_route_like x a b e = ground (
      arith,
      e,
      str_eq_iff a.path b.path,
      str_eq_iff a.method b.method,
      str_eq_iff a.source_file b.source_file,
    )

merged-also :
    (m : Maps) (o q : Option (List Filled)) (ps : List Filled)
    → o ≡ some ps
    → merged m (also o q) ≡ merged (merge_all ps m) q
merged-also m o none ps e = rw e refl
merged-also m o (some qs) ps e = rw e (ap some (merge_all-append ps qs m))

module _ (db : GraphDb) (repo : Repository) (c : Collectors) (req : ImpactRequest) (depth : ℕ) where
  merge_symbols-parts :
      (ss : List String) (m : Maps)
      → merge_symbols db repo c req depth ss m ≡ merged m (symbol_parts db repo c req depth ss)
  unfolding merge_symbols
  merge_symbols-parts [] m = refl
  merge_symbols-parts (s ∷ ss) m = elim (Bool-cases (is_safe_ident s)) [
    | inl e ↦ elim (Option-cases (fill_from_symbol db repo c req s depth)) [
      | inl n ↦ rw (e, n) refl
      | inr (p, n) ↦
          rw (e, n)
            (merge_symbols-parts ss (merge p m)
              ∙ sym (
                  merged-also m (some (p ∷ [])) (symbol_parts db repo c req depth ss) (p ∷ [])
                    refl))
    ]
    | inr e ↦ rw e (merge_symbols-parts ss m)
  ]

  merge_files-parts :
      (fs : List String) (m : Maps)
      → merge_files db repo c req depth fs m ≡ merged m (file_parts db repo c req depth fs)
  unfolding merge_files
  merge_files-parts [] m = refl
  merge_files-parts (f ∷ fs) m = elim (Option-cases (query_symbols_in_file db f)) [
    | inl n ↦ rw (n, merge_files) refl
    | inr (symbols, n) ↦ elim (Option-cases (symbol_parts db repo c req depth symbols)) [
      | inl k ↦ rw (n, merge_files, merge_symbols-parts symbols m, k) refl
      | inr (ps, k) ↦
          rw (n, merge_files, merge_symbols-parts symbols m, k)
            (merge_files-parts fs (merge_all ps m)
              ∙ sym (merged-also m (some ps) (file_parts db repo c req depth fs) ps refl))
    ]
  ]

  nothing_safe :
      (files : List String)
      → safe_files files ≡ []
      → fill_from_changed_files db repo c req depth files ≡ some (drain_maps no_maps)
  unfolding fill_from_changed_files drain_maps sort_by close_groups
  nothing_safe files e = rw (e, fill_from_changed_files) refl

  some_safe :
      (files : List String) (f : String) (fs : List String) (ps : List Filled)
      → safe_files files ≡ f ∷ fs
      → db.connects ≡ true
      → file_parts db repo c req depth (f ∷ fs) ≡ some ps
      → fill_from_changed_files db repo c req depth files ≡ some (drain_maps (merge_all ps no_maps))
  unfolding fill_from_changed_files
  some_safe files f fs ps e up h =
      rw (e, fill_from_changed_files, up, merge_files-parts (f ∷ fs) no_maps, h) refl

  -- The answer for changed files is the union of the answers for the safe symbols of the safe files,
  -- where the connection stands and all of these are answered: each path stands there once, in order,
  -- at the least depth at which one of them has it, and the tests, routes, configurations and calls
  -- are those that one of them has.
  pub fill_from_changed_files-IsUnion :
      (files : List String) (ps : List Filled)
      → db.connects ≡ true
      → file_parts db repo c req depth (safe_files files) ≡ some ps
      → (r : Filled) × (fill_from_changed_files db repo c req depth files ≡ some r) × IsUnion ps r
  fill_from_changed_files-IsUnion files ps up h = (
    drain_maps (merge_all ps no_maps),
    filled (List-cases (safe_files files)),
    drain_maps-IsUnion ps,
  )
    where
      filled :
          (safe_files files ≡ [])
            ⊎ ((f : String) × (fs : List String) × (safe_files files ≡ f ∷ fs))
          → fill_from_changed_files db repo c req depth files
            ≡ some (drain_maps (merge_all ps no_maps))
      filled (inl e) = let none_asked : ps ≡ [] = cc (h, e) in rw none_asked (nothing_safe files e)
      filled (inr (f, fs, e)) = some_safe files f fs ps e up (rw e at h)
