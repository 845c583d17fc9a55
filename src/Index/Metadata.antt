-- ===== src/Index/Metadata.antt =====
-- crates/ga-index/src/metadata.rs: the life of metadata.json.
use graphatlas.Prelude.{ℕ, String, [], Option, none, some, not, if◌then◌else◌, ◌==◌}
use graphatlas.Core.{building, complete, is_building, all_langs, IndexCounts, HealthSummary}
use graphatlas.Index.Disk.{
  Metadata, MetaFile, Env, read_metadata, write_metadata, config_corrupt, io, unparseable, M,
  Result, ok, err, ◌>>=◌, ◌>>◌, check, get_disk, set_disk, return,
}
use graphatlas.Index.CacheDir.{verify_file_perms}

pub data SchemaDecision : Type 0 where
  no_cache : SchemaDecision
  match : Metadata → SchemaDecision
  mismatch : ℕ → ℕ → SchemaDecision
  crashed_building : String → SchemaDecision

-- `write`: a temporary file, chmod 0600, and a rename, so the old body stays where a call fails.
-- A `Metadata` always serialises.
unfoldable pub write : Env → Metadata → M (Unit {0})
write env m = do
  check (env.ok? write_metadata) io
  d ← get_disk
  set_disk (record d { metadata_json = some (record { mode = 0o600; body = some m }) })

-- The sentinel before it is written.
unfoldable pub new_building : Env → String → ℕ → Metadata
new_building env repo_root schema_version = record {
  schema_version = schema_version;
  indexed_at = env.now;
  committed_at = none;
  repo_root = repo_root;
  index_state = building;
  index_generation = env.uuid;
  indexed_root_hash = [];
  graph_generation = 0;
  cache_lang_set = all_langs;
  index_counts = none;
  health_summary = none;
}

unfoldable pub begin_indexing_with_schema : Env → String → ℕ → M Metadata
unfolding new_building write
begin_indexing_with_schema env repo_root schema_version = do
  let m = new_building env repo_root schema_version
  write env m
  return m

-- The fields that `commit` and `commit_in_place` set before they write.
unfoldable pub completed : Env → Metadata → Metadata
completed env m = record m { index_state = complete; committed_at = some env.now }

-- `set_index_counts` and `set_health_summary`.
unfoldable pub set_index_counts : Env → IndexCounts → Metadata → M Metadata
unfolding write
set_index_counts env counts m = do
  let m' = record m { index_counts = some counts }
  write env m'
  return m'

unfoldable pub set_health_summary : Env → HealthSummary → Metadata → M Metadata
unfolding write
set_health_summary env summary m = do
  let m' = record m { health_summary = some summary }
  write env m'
  return m'

unfoldable pub parsed : Option Metadata → Result Metadata
parsed none = err (config_corrupt unparseable)
parsed (some m) = ok m

-- `load_from` on a file that exists.
unfoldable pub load_from : Env → MetaFile → Result Metadata
unfolding parsed
load_from env f = if env.ok? read_metadata then parsed f.body else err io

unfoldable pub load : Env → M Metadata
unfolding load_from
load env d = elim (d.metadata_json) [ none ↦ (err io, d) | some f ↦ (load_from env f, d) ]

-- The decision once the file is read.
unfoldable pub decide_schema : ℕ → Metadata → SchemaDecision
decide_schema binary m =
    if not (m.schema_version == binary)
    then mismatch m.schema_version binary
    else if is_building m.index_state
    then crashed_building m.index_generation
    else match m

unfoldable pub cold_load : Env → ℕ → M SchemaDecision
unfolding verify_file_perms load_from decide_schema
cold_load env binary d = elim (d.metadata_json) [
  | none ↦ (ok no_cache, d)
  | some f ↦
      (do
        verify_file_perms f.mode
        m ← (λ d'. (load_from env f, d'))
        return (decide_schema binary m))
        d
]
