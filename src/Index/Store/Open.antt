-- ===== src/Index/Store/Open.antt =====
-- `Store` and its constructors.
use graphatlas.Prelude.{ℕ, String, List, Option, none, some, Bool, true, false, if◌then◌else◌}
use graphatlas.Index.Disk.{
  Metadata, Disk, Env, open_rw, open_ro, connect, run_ddl, chmod_graph_db, io, database, other,
  no_committed_cache, schema_mismatch, graph_db_missing, M, ok, err, ◌>>=◌, ◌>>◌, check, get_disk,
  set_disk, return, fail,
}
use graphatlas.Index.CacheDir.{
  validate_cache_dir_override, ensure_cache_root, ensure_dir, verify_file_perms,
}
use graphatlas.Index.Metadata.{
  SchemaDecision, no_cache, match, mismatch, crashed_building, begin_indexing_with_schema,
  cold_load,
}
use graphatlas.Index.Lock.{
  LockMode, exclusive, acquired, refused, try_acquire, update_sidecar, release,
}
use graphatlas.Index.Generation.{Handle, writable, readonly, nuke_cache_files}
use graphatlas.Index.Wait.{
  Peers, Waited, decided, load_failed, out_of_fuel, wait_for_complete_decision,
}

pub data OpenOutcome : Type 0 where
  fresh_build resumed : OpenOutcome
  rebuild_schema_mismatch : ℕ → ℕ → OpenOutcome
  rebuild_crash_recovery : String → OpenOutcome
  attached_read_only : String → OpenOutcome

pub record Store : Type 0 where
  pub db : Option Handle
  pub metadata : Metadata
  pub lock : Option LockMode
  pub outcome : OpenOutcome
  pub committed : Bool
  pub read_only : Bool

unfoldable pub outcome_of : SchemaDecision → OpenOutcome
outcome_of no_cache = fresh_build
outcome_of (match _) = resumed
outcome_of (mismatch cache binary) = rebuild_schema_mismatch cache binary
outcome_of (crashed_building generation) = rebuild_crash_recovery generation

-- The cache files go on a rebuild path only.
unfoldable pub nuke_if_rebuild : Env → SchemaDecision → Disk → Disk
nuke_if_rebuild env no_cache d = d
nuke_if_rebuild env (match _) d = d
nuke_if_rebuild env (mismatch _ _) d = nuke_cache_files env d
nuke_if_rebuild env (crashed_building _) d = nuke_cache_files env d

unfoldable pub metadata_for : Env → String → ℕ → SchemaDecision → M Metadata
metadata_for env repo_root binary no_cache = begin_indexing_with_schema env repo_root binary
metadata_for env repo_root binary (match m) = return m
metadata_for env repo_root binary (mismatch _ _) = begin_indexing_with_schema env repo_root binary
metadata_for env repo_root binary (crashed_building _) =
    begin_indexing_with_schema env repo_root binary

-- An existing graph.db is refused unless its mode is 0600.
unfoldable pub verify_graph_db : M (Unit {0})
verify_graph_db d = elim (d.graph_db) [ none ↦ (ok tt, d) | some f ↦ verify_file_perms f.mode d ]

-- lbug creates a missing graph.db under the umask.
unfoldable pub create_graph_db : Env → Disk → Disk
create_graph_db env d = elim (d.graph_db) [
  | none ↦ record d { graph_db = some (record { mode = env.created_mode; generation_row = none }) }
  | some _ ↦ d
]

unfoldable pub open_rw_db : Env → M (Unit {0})
unfolding create_graph_db
open_rw_db env d =
    if env.ok? open_rw then (ok tt, create_graph_db env d) else (err (database open_rw), d)

unfoldable pub clamp_graph_db : Env → M (Unit {0})
clamp_graph_db env d = elim (d.graph_db) [
  | none ↦ (ok tt, d)
  | some f ↦
      if env.ok? chmod_graph_db
      then (ok tt, record d { graph_db = some (record f { mode = 0o600 }) })
      else (err io, d)
]

-- The database is verified, opened and clamped, and the schema is applied. `MIGRATION_STATEMENTS` is
-- empty, and the schema statements leave the rows as they are.
unfoldable pub open_db : Env → M (Unit {0})
unfolding verify_graph_db open_rw_db clamp_graph_db
open_db env = do
  verify_graph_db
  open_rw_db env
  clamp_graph_db env
  check (env.ok? connect) (database connect)
  check (env.ok? run_ddl) (database run_ddl)

-- The body of `open_with_lock` up to the store.
unfoldable pub open_body : Env → String → ℕ → M (SchemaDecision × Metadata)
open_body env repo_root binary = do
  decision ← cold_load env binary
  d ← get_disk
  set_disk (nuke_if_rebuild env decision d)
  metadata ← metadata_for env repo_root binary decision
  open_db env
  return (decision, metadata)

unfoldable pub opened : SchemaDecision → Metadata → LockMode → Store
unfolding outcome_of
opened decision metadata lock = record {
  db = some writable;
  metadata = metadata;
  lock = some lock;
  outcome = outcome_of decision;
  committed = false;
  read_only = false;
}

-- On an error the lock is dropped, which releases it.
unfoldable pub open_with_lock : Env → String → ℕ → LockMode → M Store
unfolding opened
open_with_lock env repo_root binary lock d = elim ((open_body env repo_root binary d).0) [
  | ok made ↦ (
    ok (opened made.0 made.1 lock),
    update_sidecar env made.1.index_generation lock (open_body env repo_root binary d).1,
  )
  | err e ↦ (err e, release env lock (open_body env repo_root binary d).1)
]

-- The checks of the two directories with which an open begins.
unfoldable pub prepare : Env → List ℕ → M (Unit {0})
prepare env cache_root = do
  validate_cache_dir_override cache_root
  ensure_cache_root env
  ensure_dir env

unfoldable pub open_with_root_and_schema_with_lock : Env → List ℕ → String → ℕ → LockMode → M Store
open_with_root_and_schema_with_lock env cache_root repo_root binary lock d =
    elim ((prepare env cache_root d).0) [
      | ok _ ↦ open_with_lock env repo_root binary lock (prepare env cache_root d).1
      | err e ↦ (err e, release env lock (prepare env cache_root d).1)
    ]

abbrev pub attached : Metadata → Store
attached m = record {
  db = some readonly;
  metadata = m;
  lock = none;
  outcome = attached_read_only m.index_generation;
  committed = true;
  read_only = true;
}

-- After the wait: only a complete cache of this schema is attached to.
unfoldable pub attach : Env → SchemaDecision → M Store
attach env no_cache d = (err (other no_committed_cache), d)
attach env (crashed_building _) d = (err (other no_committed_cache), d)
attach env (mismatch _ _) d = (err (other schema_mismatch), d)
attach env (match m) d = elim (d.graph_db) [
  | none ↦ (err (other graph_db_missing), d)
  | some f ↦
      (do verify_file_perms f.mode; check (env.ok? open_ro) (database open_ro); return (attached m))
        d
]

abbrev pub waited_attach : Env → Waited → M Store
waited_attach env (decided decision) = attach env decision
waited_attach env (load_failed e) = fail e
waited_attach env out_of_fuel = fail (other no_committed_cache)

-- The attempt budget is 30 s.
unfoldable pub open_read_only : Env → Peers → ℕ → ℕ → M Store
open_read_only env peers budget binary = do
  ensure_dir env
  d ← get_disk
  let w = wait_for_complete_decision env binary budget peers d
  set_disk w.disk
  waited_attach env w.outcome

-- Any failure to lock, busy or not, leads to the attempt to attach as a reader.
unfoldable pub open_with_root_and_schema : Env → Peers → ℕ → List ℕ → String → ℕ → M Store
open_with_root_and_schema env peers budget cache_root repo_root binary = do
  prepare env cache_root
  got ← (λ d. let (got, d') = try_acquire env "probe" exclusive d in (ok got, d'))
  elim got [
    | acquired lock ↦ open_with_lock env repo_root binary lock
    | refused _ ↦ open_read_only env peers budget binary
  ]

-- `Drop` of a store: its lock goes with it.
unfoldable pub drop_store : Env → Store → Disk → Disk
drop_store env s d = elim (s.lock) [ none ↦ d | some mode ↦ release env mode d ]
