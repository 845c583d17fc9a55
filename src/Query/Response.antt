-- ===== src/Query/Response.antt =====
-- crates/ga-query/src/impact/types.rs and crates/ga-query/src/impact/validate.rs: the requests and
-- the answers of `ga_impact`. The risk is left out, which counts in floats and is computed last from
-- the rest; so are the fields that self_explain.rs fills.
use graphatlas.Prelude.{
  ℕ, String, List, [], ◌∷◌, Option, none, some, Bool, true, false, not, ◌||◌, if◌then◌else◌,
}
use graphatlas.Prelude.Text.{eq_text}
use graphatlas.Query.Impact.{ImpactedFile}
use graphatlas.Query.Diff.{trim}
use graphatlas.Query.Seed.{SeedError, split_last}
use graphatlas.Query.TestPath.{file_name}
use graphatlas.Query.BreakPoints.{BreakPoint}
use graphatlas.Query.AffectedTests.{AffectedTest}

pub record ImpactRequest : Type 0 where
  pub symbol : Option (List ℕ)
  pub file : Option String
  pub changed_files : Option (List String)
  pub diff : Option (List ℕ)
  pub max_depth : Option ℕ
  pub include_break_points : Option Bool
  pub include_routes : Option Bool
  pub include_configs : Option Bool
  pub include_co_change_importers : Option Bool

abbrev pub unwrap_or : Bool → Option Bool → Bool
unwrap_or d none = d
unwrap_or d (some b) = b

pub record AffectedRoute : Type 0 where
  pub method : String
  pub path : String
  pub source_file : String

pub record AffectedConfig : Type 0 where
  pub path : String
  pub line : ℕ

-- What one symbol fills in.
pub record Filled : Type 0 where
  pub impacted_files : List ImpactedFile
  pub affected_tests : List AffectedTest
  pub affected_routes : List AffectedRoute
  pub affected_configs : List AffectedConfig
  pub break_points : List BreakPoint
  pub transitive_completeness : ℕ

abbrev pub nothing_filled : Filled
nothing_filled = record {
  impacted_files = [];
  affected_tests = [];
  affected_routes = [];
  affected_configs = [];
  break_points = [];
  transitive_completeness = 0;
}

-- For each list, whether it was cut, and how long it was.
pub record Cut : Type 0 where
  pub truncated : Bool
  pub total_available : ℕ

pub record ImpactMeta : Type 0 where
  pub max_depth : ℕ
  pub impacted_files : Cut
  pub affected_tests : Cut
  pub affected_routes : Cut
  pub affected_configs : Cut
  pub break_points : Cut
  pub warning : Bool

abbrev pub uncut : Cut
uncut = record { truncated = false; total_available = 0 }

abbrev pub depth_meta : ℕ → ImpactMeta
depth_meta depth = record {
  max_depth = depth;
  impacted_files = uncut;
  affected_tests = uncut;
  affected_routes = uncut;
  affected_configs = uncut;
  break_points = uncut;
  warning = false;
}

pub record DefCandidate : Type 0 where
  pub qualified_name : String
  pub file : String
  pub line : ℕ
  pub kind : String

-- The count and the symbol are what the hint's text is formed of.
pub record Disambiguation : Type 0 where
  pub symbol : String
  pub def_count : ℕ
  pub candidates : List DefCandidate

pub record ImpactResponse : Type 0 where
  pub filled : Filled
  pub meta : ImpactMeta
  pub disambiguation : Option Disambiguation

-- What `impact` does: it answers, refuses the parameters for one of three reasons, reports another
-- error, or panics.
pub data ImpactAnswer : Type 0 where
  answered : ImpactResponse → ImpactAnswer
  nothing_asked no_diff_paths failed panicked : ImpactAnswer
  bad_seed : SeedError → ImpactAnswer

abbrev pub default_max_depth : ℕ
default_max_depth = 3

-- A text that is not blank.
abbrev pub is_given : Option (List ℕ) → Bool
is_given none = false
is_given (some s) = not (eq_text (trim s) [])

abbrev pub has_files : Option (List String) → Bool
has_files none = false
has_files (some []) = false
has_files (some (f ∷ fs)) = true

unfoldable pub validate_seed_input : ImpactRequest → Bool
validate_seed_input req = is_given req.symbol || (has_files req.changed_files || is_given req.diff)

abbrev stem_of : List ℕ → List ℕ
stem_of name = elim (split_last (46 ∷ []) name) [ none ↦ name | some cut ↦ cut.0 ]

unfoldable pub file_stem : List ℕ → Option (List ℕ)
unfolding file_name split_last
file_stem path = let stem = stem_of (file_name path) in if eq_text stem [] then none else some stem
