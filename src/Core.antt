-- ===== src/Core.antt =====
-- crates/ga-core/src/types.rs: languages, the index state, and the tallies of metadata.json.
use graphatlas.Prelude.{ℕ, String, List, [], ◌∷◌, Bool}

pub data Lang : Type 0 where
  python typescript javascript go rust java kotlin csharp ruby php : Lang

pub Lang-discrete : Discrete Lang
Lang-discrete = hlevel

-- The text by which languages are sorted.
unfoldable pub as_str : Lang → String
as_str python = "python"
as_str typescript = "typescript"
as_str javascript = "javascript"
as_str go = "go"
as_str rust = "rust"
as_str java = "java"
as_str kotlin = "kotlin"
as_str csharp = "csharp"
as_str ruby = "ruby"
as_str php = "php"

-- `Lang::ALL`.
abbrev pub all_langs : List Lang
all_langs = python ∷ typescript ∷ javascript ∷ go ∷ rust ∷ java ∷ kotlin ∷ csharp ∷ ruby ∷ php ∷ []

pub data IndexState : Type 0 where
  building complete : IndexState

abbrev pub is_building : IndexState → Bool
is_building building = Bool.true
is_building complete = Bool.false

pub record IndexCounts : Type 0 where
  pub node_count : ℕ
  pub edge_count : ℕ
  pub file_count : ℕ
  pub last_index_duration_ms : ℕ
  pub db_size_bytes : ℕ

pub record HealthSummary : Type 0 where
  pub computed_at_unix : ℕ
  pub hubs_count : ℕ
  pub bridges_count : ℕ
  pub dead_code_count : ℕ
  pub large_functions_count : ℕ
  pub tested_count : ℕ
