-- ===== src/Mcp/Reindex.antt =====
-- The rebuilds of crates/ga-mcp: the tool `ga_reindex` (tools/reindex.rs) and the watcher's
-- `dispatch_reindex` (watcher.rs). Each holds the mutex of its cache directory, so it is one step.
-- `build_index`, the indexer, is an argument, as are its answer's text and the repository's digest.
pub mod Calm
pub mod Healing
pub mod Answers
use graphatlas.Prelude.{
  ℕ, String, str_eq, List, ◌++◌, Option, none, some, Bool, true, false, not, if◌then◌else◌,
}
use graphatlas.Prelude.Text.{codes}
use graphatlas.Index.Disk.{Disk, Result, ok, err}
use graphatlas.Index.Store.Open.{
  OpenOutcome, fresh_build, resumed, rebuild_schema_mismatch, rebuild_crash_recovery,
  attached_read_only, Store, drop_store,
}
use graphatlas.Index.Store.Commit.{After, commit_in_place}
use graphatlas.Index.Store.Reindex.{reindex_in_place}
use graphatlas.Mcp.Context.{
  McpError, already_reindexing, invalid_params, bench_fixture_refused, Answer, done, failed,
  McpContext, Site, Rebuilt, rebuilt, broke, try_store, drop_clone, rebuild_via,
  record_reindex_success, check_reindex_cooldown, reindex_lock_for,
}
use graphatlas.Mcp.Watcher.{is_bench_fixture_path}

pub data ReindexMode : Type 0 where
  auto full : ReindexMode

-- `args.get("mode")`: missing, a string, or another value.
pub data ModeArg : Type 0 where
  no_mode not_a_string : ModeArg
  mode_string : String → ModeArg

unfoldable pub validate_args : ModeArg → Answer ReindexMode
validate_args no_mode = done full
validate_args (mode_string s) =
    if str_eq s "auto"
    then done auto
    else if str_eq s "full"
    then done full
    else failed invalid_params
validate_args not_a_string = failed invalid_params

-- The indexer's answer: the number of files, or the text of its error.
pub data Indexed : Type 0 where
  indexed : ℕ → Indexed
  not_indexed : List ℕ → Indexed

-- What one reindex meets outside. The three sites are those of an open before the rebuild, of the
-- rebuild, and of an open after it.
pub record Outside : Type 0 where
  pub before : Site
  pub during : Site
  pub after : Site
  pub now : ℕ
  pub ended_at : ℕ
  pub canonical : Option String
  pub path : String
  pub cache_dir : String
  pub build_index : Store → Disk → Indexed × Disk
  pub digest : Option (List ℕ)

abbrev pub is_attached : OpenOutcome → Bool
is_attached fresh_build = false
is_attached resumed = false
is_attached (rebuild_schema_mismatch _ _) = false
is_attached (rebuild_crash_recovery _) = false
is_attached (attached_read_only _) = true

abbrev pub after_commit : Outside → ℕ → After (Unit {0}) → Rebuilt × Disk
after_commit o files a = elim (a.result) [
  | ok _ ↦ (rebuilt files a.store, a.disk)
  | err e ↦
      (broke (codes "commit_in_place: " ++ o.during.text e), drop_store o.during.env a.store a.disk)
]

unfoldable pub commit_built : Outside → ℕ → Store → Disk → Rebuilt × Disk
commit_built o files fresh d = after_commit o files (commit_in_place o.during.env o.digest fresh d)

unfoldable pub built : Outside → Store → Indexed × Disk → Rebuilt × Disk
unfolding commit_built
built o fresh (indexed files, d) = commit_built o files fresh d
built o fresh (not_indexed text, d) =
    (broke (codes "build_index: " ++ text), drop_store o.during.env fresh d)

-- A store that is only attached is returned as it is.
unfoldable pub after_reindex : Outside → Result Store × Disk → Rebuilt × Disk
unfolding built
after_reindex o (err e, d) = (broke (codes "reindex_in_place: " ++ o.during.text e), d)
after_reindex o (ok fresh, d) =
    if is_attached fresh.outcome
    then (rebuilt 0 fresh, d)
    else built o fresh (o.build_index fresh d)

-- The closure of both.
unfoldable pub rebuild : Outside → Store → Disk → Rebuilt × Disk
unfolding after_reindex
rebuild o s d = after_reindex o (
    reindex_in_place o.during.env o.during.peers o.during.budget o.during.cache_root
      s.metadata.repo_root s d)

-- What the tool answers.
pub record Payload : Type 0 where
  pub mode : ReindexMode
  pub files_indexed : ℕ
  pub graph_generation_before : ℕ
  pub graph_generation_after : ℕ
  pub new_root_hash : List ℕ

abbrev pub generation_before : Answer Store → ℕ
generation_before (done s) = s.metadata.graph_generation
generation_before (failed e) = 0

-- Once the rebuild has ended; the caller's clone is dropped.
unfoldable pub report :
    Outside → ReindexMode → ℕ → Answer (ℕ × Store) × McpContext → Answer Payload × McpContext
report o mode before (failed e, ctx) = (failed e, ctx)
report o mode before (done (files, s), ctx) =
    if is_attached s.outcome then (failed already_reindexing, drop_clone ctx) else (
      done (record {
        mode = mode;
        files_indexed = files;
        graph_generation_before = before;
        graph_generation_after = s.metadata.graph_generation;
        new_root_hash = s.metadata.indexed_root_hash;
      }),
      drop_clone (record_reindex_success o.cache_dir o.ended_at ctx),
    )

unfoldable pub call_locked : Outside → ReindexMode → McpContext → Answer Payload × McpContext
unfolding report
call_locked o mode ctx =
    if not (check_reindex_cooldown o.cache_dir o.now ctx)
    then (failed already_reindexing, ctx)
    else report o mode (generation_before (try_store ctx).0)
        (rebuild_via o.before o.after (rebuild o) ctx)

unfoldable pub call_checked :
    Outside → McpContext → Answer ReindexMode → Answer Payload × McpContext
unfolding call_locked
call_checked o ctx (failed e) = (failed e, ctx)
call_checked o ctx (done mode) =
    if is_bench_fixture_path o.canonical o.path
    then (failed bench_fixture_refused, ctx)
    else call_locked o mode (reindex_lock_for o.cache_dir ctx)

unfoldable pub call : Outside → ModeArg → McpContext → Answer Payload × McpContext
unfolding call_checked
call o args ctx = call_checked o ctx (validate_args args)

abbrev pub logged : Outside → Answer (ℕ × Store) × McpContext → Answer (Unit {0}) × McpContext
logged o (failed e, ctx) = (failed e, ctx)
logged o (done x, ctx) = (done tt, drop_clone (record_reindex_success o.cache_dir o.ended_at ctx))

-- `dispatch_reindex`: an attached store counts as a success here.
unfoldable pub dispatch_reindex : Outside → McpContext → Answer (Unit {0}) × McpContext
dispatch_reindex o ctx =
    let locked = reindex_lock_for o.cache_dir ctx in
    if not (check_reindex_cooldown o.cache_dir o.now locked)
    then (done tt, locked)
    else logged o (rebuild_via o.before o.after (rebuild o) locked)
