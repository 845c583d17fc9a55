-- ===== src/Index/Generation.antt =====
-- crates/ga-index/src/{generation,nuke,root_hash}.rs: what a commit writes and a rebuild removes.
use text.Mathlib.Text.{starts_with}
use graphatlas.Prelude.{
  ℕ, String, str_eq, List, [], ◌∷◌, Option, none, some, Bool, not, ◌&&◌, if◌then◌else◌, ◌+◌, ◌/◌,
  ◌%◌, ltb, ◌-◌,
}
use graphatlas.Index.Disk.{
  Metadata, Disk, Env, remove_metadata, remove_graph_db, remove_shadow, connect, merge_generation,
  config_corrupt, no_repo_root, database, Result, ok, err,
}

abbrev pub u64_max : ℕ
u64_max = 18446744073709551615

-- `saturating_add(1)` on u64.
unfoldable pub next_generation : ℕ → ℕ
next_generation g = if ltb g u64_max then g + 1 else u64_max

-- A handle on the open database.
pub data Handle : Type 0 where
  writable readonly : Handle

-- Statement and reply of the MERGE that upserts the row. A handle outlives an unlinked file, so
-- nothing is written where graph.db is gone.
unfoldable pub merge_row : ℕ → Disk → Disk
merge_row next d = elim (d.graph_db) [
  | none ↦ d
  | some f ↦ record d { graph_db = some (record f { generation_row = some next }) }
]

unfoldable pub bump_graph_generation :
    Env → Metadata → Option Handle → Disk → Result Metadata × Disk
unfolding next_generation merge_row
bump_graph_generation env m none d =
    (ok (record m { graph_generation = next_generation m.graph_generation }), d)
bump_graph_generation env m (some h) d =
    if not (env.ok? connect)
    then (err (database connect), d)
    else if not (env.ok? merge_generation)
    then (err (database merge_generation), d)
    else (
      ok (record m { graph_generation = next_generation m.graph_generation }),
      merge_row (next_generation m.graph_generation) d,
    )

-- A shadow or WAL file of graph.db.
unfoldable pub is_shadow : String → Bool
is_shadow n = starts_with n "graph.db" && not (str_eq n "graph.db")

unfoldable pub without_shadows : List String → List String
unfolding is_shadow
without_shadows [] = []
without_shadows (n ∷ ns) = if is_shadow n then without_shadows ns else n ∷ without_shadows ns

-- Every removal is best-effort.
unfoldable pub nuke_cache_files : Env → Disk → Disk
unfolding without_shadows
nuke_cache_files env d = record d {
  metadata_json = if env.ok? remove_metadata then none else d.metadata_json;
  graph_db = if env.ok? remove_graph_db then none else d.graph_db;
  others = if env.ok? remove_shadow then without_shadows d.others else d.others;
}

abbrev hex_digit : ℕ → ℕ
hex_digit n = if ltb n 10 then b'0' + n else b'a' + (n - 10)

-- Two digits for a byte, the high half first.
unfoldable pub hex_lower : List ℕ → List ℕ
hex_lower [] = []
hex_lower (b ∷ bs) = hex_digit (b / 16) ∷ hex_digit (b % 16) ∷ hex_lower bs

-- The digest is that of `compute_root_hash` on the repository, `none` where the root is gone.
unfoldable pub populate_root_hash : Option (List ℕ) → Metadata → Result Metadata
unfolding hex_lower
populate_root_hash none m = err (config_corrupt no_repo_root)
populate_root_hash (some bytes) m = ok (record m { indexed_root_hash = hex_lower bytes })
