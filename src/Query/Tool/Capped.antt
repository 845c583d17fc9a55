-- ===== src/Query/Tool/Capped.antt =====
-- What holds of every answer of `ga_impact`, and of what the caps drop.
use graphatlas.Prelude.{
  ℕ, zero, suc, ◌%◌, ◌^◌, ◌≤◌, ◌<◌, ltb, leb, ◌==◌, ltb→lt, lt→ltb, min, String, str_eq, List, [],
  ◌∷◌, length, any, Option, none, some, Bool, true, not, ◌&&◌, ◌||◌, if◌then◌else◌, All, ◌≡◌, refl,
  sym, ap, ◌∙◌, subst, ◌⊎◌, ◌↔◌, inl, inr, arith, Option-cases, Bool-cases, if-cases,
}
use mathlib.Core.Option.{some-injective}
use graphatlas.Prelude.Chars.{of_codes}
use graphatlas.Prelude.Dedup.{le_str}
use graphatlas.Prelude.Sort.{
  take, take-all, IsSorted, sort_by, sort_by-IsSorted, any-sort_by, length-sort_by, All-map,
}
use graphatlas.Query.Impact.{ImpactedFile}
use graphatlas.Query.Diff.{extract_files_from_diff}
use graphatlas.Query.Degrees.{GraphDb}
use graphatlas.Query.Seed.{Resolution, resolved_to, invalid_params, silent, resolve_seed}
use graphatlas.Query.Seed as Seed
use graphatlas.Query.AffectedTests.{Repository}
use graphatlas.Query.Response.{
  ImpactRequest, Filled, nothing_filled, Cut, uncut, Disambiguation, ImpactResponse, ImpactAnswer,
  answered, nothing_asked, no_diff_paths, failed, panicked, bad_seed, validate_seed_input,
}
use graphatlas.Query.FillSymbol.{Collectors, fill_from_symbol}
use graphatlas.Query.MultiFile.{le_file, fill_from_changed_files}
use graphatlas.Query.MultiFile.Merges.{within}
use graphatlas.Query.MultiFile.Union.{le_file_total, le_file_trans}
use graphatlas.Query.Tool.{
  cap, cut_of, any_vendored_path, apply_output_caps, warn_and_cap, fresh_response, depth_of, given,
  filled_answer, search_symbol, disambiguate, texts, counts_first, count_defs, is_ambiguous,
  list_defs, impact_symbol, impact_files, impact_diff, impact_others, dispatch, impact,
}

-- What is kept of a list, and reported: its first 50 entries, whether it had more, and how many it had.
pub record IsCut {ℓ} {A : Type ℓ} (l kept : List A) (c : Cut) : Type ℓ where
  pub first : kept ≡ take 50 l
  pub capped : length kept ≤ 50
  pub flagged : (c.truncated ≡ true) ↔ (50 < length l)
  pub counted : c.total_available ≡ length l % 2 ^ 32

-- By depth, then by path.
abbrev pub nearer : ImpactedFile → ImpactedFile → Bool
nearer f g = ltb f.depth g.depth || f.depth == g.depth && le_str f.path g.path

-- Every list is cut so, the files in the order of their depths and paths.
pub record IsCapped (full : Filled) (r : ImpactResponse) : Type 0 where
  pub sorted : List ImpactedFile
  pub ordered : IsSorted nearer sorted
  pub same_files : (p : ImpactedFile → Bool) → any p sorted ≡ any p full.impacted_files
  pub same_length : length sorted ≡ length full.impacted_files
  pub files : IsCut sorted r.filled.impacted_files r.meta.impacted_files
  pub tests : IsCut full.affected_tests r.filled.affected_tests r.meta.affected_tests
  pub routes : IsCut full.affected_routes r.filled.affected_routes r.meta.affected_routes
  pub configs : IsCut full.affected_configs r.filled.affected_configs r.meta.affected_configs
  pub points : IsCut full.break_points r.filled.break_points r.meta.break_points

length-take {ℓ} : {A : Type ℓ} (n : ℕ) (l : List A) → length (take n l) ≡ min n (length l)
length-take zero l = omega arith
length-take (suc n) [] = omega arith
length-take (suc n) (x ∷ l) = omega (arith, length-take n l)

cap-take {ℓ} : {A : Type ℓ} (l : List A) → cap l ≡ take 50 l
cap-take l =
    if-cases (λ k. k ≡ take 50 l) (ltb 50 (length l)) (λ _. refl)
      (λ e. sym (take-all 50 l (ground (arith, e))))

length-cap {ℓ} : {A : Type ℓ} (l : List A) → length (cap l) ≡ min 50 (length l)
length-cap l = ap length (cap-take l) ∙ length-take 50 l

cap-IsCut {ℓ} : {A : Type ℓ} (l : List A) → IsCut l (cap l) (cut_of l)
cap-IsCut l = record {
  first = cap-take l;
  capped = omega (arith, length-cap l);
  flagged = (ltb→lt 50 (length l), lt→ltb 50 (length l));
  counted = refl;
}

IsSorted-nearer : (l : List ImpactedFile) → IsSorted le_file l → IsSorted nearer l
IsSorted-nearer [] s = tt
IsSorted-nearer (x ∷ l) s = (All-map _ _ (λ y h. ground (arith, h)) l s.0, IsSorted-nearer l s.1)

apply_output_caps-IsCapped : (r : ImpactResponse) → IsCapped r.filled (apply_output_caps r)
unfolding apply_output_caps
apply_output_caps-IsCapped r = record {
  sorted = sort_by le_file r.filled.impacted_files;
  ordered =
      IsSorted-nearer (sort_by le_file r.filled.impacted_files)
        (sort_by-IsSorted le_file le_file_total le_file_trans r.filled.impacted_files);
  same_files = λ p. any-sort_by p le_file r.filled.impacted_files;
  same_length = length-sort_by le_file r.filled.impacted_files;
  files =
      subst
        (λ n.
          IsCut (sort_by le_file r.filled.impacted_files)
            (cap (sort_by le_file r.filled.impacted_files)) n)
        (ap (λ (n : ℕ). record { truncated = ltb 50 n; total_available = n % 2 ^ 32 })
          (length-sort_by le_file r.filled.impacted_files))
        (cap-IsCut (sort_by le_file r.filled.impacted_files));
  tests = cap-IsCut r.filled.affected_tests;
  routes = cap-IsCut r.filled.affected_routes;
  configs = cap-IsCut r.filled.affected_configs;
  points = cap-IsCut r.filled.break_points;
}

nothing-IsCut {ℓ} : {A : Type ℓ} → IsCut {A = A} [] [] uncut
nothing-IsCut = record {
  first = refl;
  capped = omega arith;
  flagged = (λ h. cc, λ h. absurd (omega (arith, h)));
  counted = refl;
}

warn_and_cap-IsCapped : (r : ImpactResponse) → IsCapped r.filled (warn_and_cap r)
unfolding warn_and_cap
warn_and_cap-IsCapped r =
    if-cases (λ w. IsCapped r.filled (apply_output_caps w)) (any_vendored_path r.filled)
      (λ _. apply_output_caps-IsCapped (record r { meta = record (r.meta) { warning = true } }))
      (λ _. apply_output_caps-IsCapped r)

-- A file that stands before all of a list is no deeper than any of it.
first_is_nearest :
    (x : ImpactedFile) (p : String) (d : ℕ) (l : List ImpactedFile)
    → All (λ f. le_file x f ≡ true) l
    → within p d l ≡ true
    → x.depth ≤ d
first_is_nearest x p d [] h w = absurd (ground (arith, w))
first_is_nearest x p d (f ∷ l) h w = ground (arith, h.0, w, first_is_nearest x p d l h.1)

take-nearest :
    (p : String) (d n : ℕ) (l : List ImpactedFile)
    → IsSorted le_file l
    → within p d l ≡ true
    → (within p d (take n l) ≡ true) ⊎ All (λ f. f.depth ≤ d) (take n l)
take-nearest p d zero l s w = inr tt
take-nearest p d (suc n) [] s w = inr tt
take-nearest p d (suc n) (x ∷ l) s w = elim (Bool-cases (str_eq p x.path && leb x.depth d)) [
  | inl e ↦ inl (rw e refl)
  | inr e ↦
      let later : within p d l ≡ true = ground (arith, w, e) in
      elim (take-nearest p d n l s.1 later) [
        | inl h ↦ inl (rw (e, h) refl)
        | inr h ↦ inr (first_is_nearest x p d l s.0 later, h)
      ]
]

-- The caps keep the nearest files: a path that was there at some depth is kept at that depth or
-- nearer, or everything that is kept is as near.
pub apply_output_caps-nearest :
    (r : ImpactResponse) (p : String) (d : ℕ)
    → within p d r.filled.impacted_files ≡ true
    → (within p d (apply_output_caps r).filled.impacted_files ≡ true)
      ⊎ All (λ f. f.depth ≤ d) (apply_output_caps r).filled.impacted_files
unfolding apply_output_caps
apply_output_caps-nearest r p d w =
    let sorted = sort_by le_file r.filled.impacted_files in
    let there : within p d sorted ≡ true = any-sort_by _ le_file r.filled.impacted_files ∙ w in
    if-cases (λ l. (within p d l ≡ true) ⊎ All (λ f. f.depth ≤ d) l) (ltb 50 (length sorted))
      (λ _.
        take-nearest p d 50 sorted
          (sort_by-IsSorted le_file le_file_total le_file_trans r.filled.impacted_files) there)
      (λ _. inl there)

-- What an answer is, if there is one.
abbrev Holds : (ImpactResponse → Type 0) → ImpactAnswer → Type 0
Holds P (answered r) = P r
Holds P nothing_asked = Unit
Holds P no_diff_paths = Unit
Holds P failed = Unit
Holds P panicked = Unit
Holds P (bad_seed e) = Unit

module _ (db : GraphDb) (repo : Repository) (c : Collectors) (legacy : Bool)
    (req : ImpactRequest) where
  -- What was found before the caps: for one symbol, for changed files, or nothing.
  abbrev pub IsFound : Filled → Type 0
  IsFound full =
      ((name : String) × (fill_from_symbol db repo c req name (depth_of req.max_depth) ≡ some full))
      ⊎ ((files : List String) × (fill_from_changed_files db repo c req (depth_of req.max_depth)
              files
            ≡ some full))
      ⊎ (full ≡ nothing_filled)

  abbrev Fine : ImpactAnswer → Type 0
  Fine a = Holds (λ r. (full : Filled) × IsFound full × IsCapped full r) a

  filled_answer-Fine :
      (o : Option Filled)
      → ((full : Filled) → o ≡ some full → IsFound full)
      → Fine (filled_answer db repo c legacy req o)
  filled_answer-Fine none h = tt
  filled_answer-Fine (some f) h = (
    f,
    h f refl,
    warn_and_cap-IsCapped (record (fresh_response (depth_of req.max_depth)) { filled = f }),
  )

  fresh_response-Fine :
      (d : Option Disambiguation)
      → Fine (answered (record (fresh_response (depth_of req.max_depth)) { disambiguation = d }))
  fresh_response-Fine d = (
    nothing_filled,
    inr (inr refl),
    record {
      sorted = [];
      ordered = tt;
      same_files = λ p. refl;
      same_length = refl;
      files = nothing-IsCut;
      tests = nothing-IsCut;
      routes = nothing-IsCut;
      configs = nothing-IsCut;
      points = nothing-IsCut;
    },
  )

  search_symbol-Fine : (symbol : List ℕ) → Fine (search_symbol db repo c legacy req symbol)
  unfolding search_symbol
  search_symbol-Fine symbol = resolution (resolve_seed db symbol req.file)
    where
      resolution :
          (o : Resolution)
          → Fine (elim o [
            | resolved_to name hint ↦
                filled_answer db repo c legacy req
                  (fill_from_symbol db repo c req name (depth_of req.max_depth))
            | silent ↦ answered (fresh_response (depth_of req.max_depth))
            | invalid_params e ↦ bad_seed e
            | Seed.failed ↦ failed
            | Seed.panicked ↦ panicked
          ])
      resolution (resolved_to name hint) = filled_answer-Fine _ (λ f e. inl (name, e))
      resolution silent = fresh_response-Fine none
      resolution (invalid_params e) = tt
      resolution Seed.failed = tt
      resolution Seed.panicked = tt

  disambiguate-Fine : (name : String) (n : ℕ) → Fine (disambiguate db repo c legacy req name n)
  unfolding disambiguate
  disambiguate-Fine name n = elim (Option-cases (list_defs db name)) [
    | inl e ↦ rw (e, disambiguate) tt
    | inr (l, e) ↦ rw (e, disambiguate) (fresh_response-Fine _)
  ]

  counted-Fine :
      (symbol : List ℕ) (n : ℕ)
      → Fine (
          if is_ambiguous n
          then disambiguate db repo c legacy req (of_codes symbol) n
          else search_symbol db repo c legacy req symbol)
  counted-Fine symbol n =
      if-cases Fine (is_ambiguous n) (λ _. disambiguate-Fine (of_codes symbol) n)
        (λ _. search_symbol-Fine symbol)

  impact_symbol-Fine : (symbol : List ℕ) → Fine (impact_symbol db repo c legacy req symbol)
  unfolding impact_symbol
  impact_symbol-Fine symbol =
      if-cases Fine (counts_first db repo c legacy req symbol)
        (λ _.
          if-cases Fine (not db.connects) (λ _. tt)
            (λ _. elim (Option-cases (count_defs db (of_codes symbol))) [
              | inl e ↦ rw e tt
              | inr (n, e) ↦ rw e (counted-Fine symbol n)
            ]))
        (λ _. search_symbol-Fine symbol)

  impact_files-Fine : (files : List String) → Fine (impact_files db repo c legacy req files)
  unfolding impact_files
  impact_files-Fine files = filled_answer-Fine _ (λ f e. inr (inl (files, e)))

  impact_diff-Fine : (diff : Option (List ℕ)) → Fine (impact_diff db repo c legacy req diff)
  unfolding impact_diff
  impact_diff-Fine none =
      filled_answer-Fine (some nothing_filled) (λ f e. inr (inr (sym (some-injective _ _ e))))
  impact_diff-Fine (some diff) = found (extract_files_from_diff diff)
    where
      found :
          (l : List (List ℕ))
          → Fine (elim l [
            | [] ↦ no_diff_paths
            | f ∷ fs ↦ impact_files db repo c legacy req (texts db repo c legacy req (f ∷ fs))
          ])
      found [] = tt
      found (f ∷ fs) = impact_files-Fine (texts db repo c legacy req (f ∷ fs))

  dispatch-Fine : (symbol : Option (List ℕ)) → Fine (dispatch db repo c legacy req symbol)
  dispatch-Fine (some symbol) = impact_symbol-Fine symbol
  dispatch-Fine none = others req.changed_files
    where
      others : (o : Option (List String)) → Fine (impact_others db repo c legacy req o)
      others none = impact_diff-Fine (given req.diff)
      others (some files) = impact_files-Fine files

  impact-Fine : Fine (impact db repo c legacy req)
  unfolding impact
  impact-Fine =
      if-cases Fine (not (validate_seed_input req)) (λ _. tt)
        (λ _. dispatch-Fine (given req.symbol))

  -- Whatever is asked and whatever the database answers, an answer of `ga_impact` reports truly what
  -- it cut of what was found for a symbol or for changed files (or of nothing): each list has the first
  -- 50 entries of the one that was found, the files sorted by their depths and then their paths; it is
  -- marked as cut exactly if there were more than 50; and the total is their number (modulo 2^32).
  pub impact-IsCapped :
      (resp : ImpactResponse)
      → impact db repo c legacy req ≡ answered resp
      → (full : Filled) × IsFound full × IsCapped full resp
  impact-IsCapped resp e = subst Fine e impact-Fine
