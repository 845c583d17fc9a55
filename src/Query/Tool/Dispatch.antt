-- ===== src/Query/Tool/Dispatch.antt =====
-- Which of its inputs `impact` follows: symbols with several definitions, and files beside a diff.
use graphatlas.Prelude.{
  ℕ, String, str_eq, List, [], any, Option, none, some, Bool, true, false, not, ◌≡◌, refl,
}
use graphatlas.Prelude.Sort.{IsSorted, sort_by}
use graphatlas.Query.Degrees.{Column, GraphDb}
use graphatlas.Query.AffectedTests.{Repository}
use graphatlas.Query.Response.{
  ImpactRequest, nothing_filled, DefCandidate, ImpactResponse, ImpactAnswer, answered, is_given,
  validate_seed_input,
}
use graphatlas.Query.FillSymbol.{Collectors}
use graphatlas.Query.MultiFile.{fill_from_changed_files}
use graphatlas.Query.Tool.{
  apply_output_caps, any_vendored_path, warn_and_cap, fresh_response, depth_of, candidate,
  impact_files, impact,
}

-- A file is among the candidates.
abbrev pub lists_file : String → List DefCandidate → Bool
lists_file f l = any (λ d. str_eq f d.file) l

-- A row names a definition in the file.
abbrev names_file : String → Option DefCandidate → Bool
names_file f none = false
names_file f (some d) = str_eq f d.file

abbrev pub apart_defs : DefCandidate → DefCandidate → Bool
apart_defs a b = not (str_eq a.file b.file)

-- An answer that only asks back: nothing is listed but the symbol's definitions, each file once.
pub record AsksBack (name : String) (n : ℕ) (rows : List (List Column)) (a : ImpactAnswer)
    : Type 0 where
  pub response : ImpactResponse
  pub candidates : List DefCandidate
  pub is_answer : a ≡ answered response
  pub nothing : response.filled ≡ nothing_filled
  pub asked :
      response.disambiguation
      ≡ some (record { symbol = name; def_count = n; candidates = candidates })
  pub each_once : IsSorted apart_defs candidates
  pub all :
      (f : String) → lists_file f candidates ≡ any (λ row. names_file f (candidate name row)) rows

module _ (db : GraphDb) (repo : Repository) (c : Collectors) (legacy : Bool)
    (req : ImpactRequest) where
  -- An empty list of changed files hides a diff: a request without a symbol that has both is accepted,
  -- and whatever the diff changes, the answer lists nothing.
  pub empty_files_hide_diff :
      req.symbol ≡ none
      → req.changed_files ≡ some []
      → is_given req.diff ≡ true
      → (r : ImpactResponse) × (impact db repo c legacy req ≡ answered r)
        × (r.filled ≡ nothing_filled)
  unfolding impact validate_seed_input impact_files fill_from_changed_files warn_and_cap
      any_vendored_path apply_output_caps sort_by
  empty_files_hide_diff no_symbol no_files diff = (
    warn_and_cap (record (fresh_response (depth_of req.max_depth)) { filled = nothing_filled }),
    rw (impact, validate_seed_input, no_symbol, no_files, diff) refl,
    refl,
  )
