-- ===== src/Mcp/Examples.antt =====
-- Runs of the assistants' server, at which the theorems apply.
mod Gate
use graphatlas.Prelude.{
  any, ◌==◌, ℕ, List, [], ◌∷◌, ◌++◌, none, some, true, false, ◌≡◌, ◌≢◌, refl, inl, inr, arith, All,
}
use graphatlas.Prelude.Assoc.{get}
use graphatlas.Index.Disk.{Env, granted}
use graphatlas.Index.CacheDir.{has_segment, forbidden_system_prefix, unsafe_path, unsafe_root}
use graphatlas.Index.Metadata.{new_building}
use graphatlas.Index.Wait.{Peers}
use graphatlas.Index.Store.Open.{resumed, Store}
use graphatlas.Index.Store.Prepared.{IsCalm}
use graphatlas.Mcp.Context.{
  done, McpContext, Site, held_by, check_reindex_cooldown, refresh_if_stale,
}
use graphatlas.Mcp.Watcher.{
  WatcherEvent, reindex_fired, GitDir, modify, event, timeout, Wake, is_git_op_in_progress,
  is_bench_fixture_path, run_watch_loop,
}
use graphatlas.Mcp.Watcher.Debounce.{
  Allowed, IsDeferral, IsQuiet, run_watch_loop-Allowed, change_is_dispatched,
}
use graphatlas.Mcp.Reindex.{
  full, no_mode, validate_args, indexed, Outside, Payload, call, dispatch_reindex,
}
use graphatlas.Mcp.Reindex.Answers.{Untouched, Records, shared_store_stays, call-Records}
use graphatlas.Mcp.Reindex.Healing.{IsUndisturbed, IsRecoverable, Serves, call-Serves}

abbrev idle_git : GitDir
idle_git = record { present = true; has = λ _. false; is_dir = λ _. false }

abbrev rebasing : GitDir
rebasing = record { present = true; has = λ _. false; is_dir = λ _. true }

abbrev commit_made : Wake
commit_made = record { now = 1_000; git = rebasing; received = event modify }

abbrev busy : List Wake
busy = record { now = 1_500; git = rebasing; received = timeout } ∷ []

abbrev quiet : List Wake
quiet =
    record { now = 2_000; git = idle_git; received = timeout }
    ∷ record { now = 3_500; git = idle_git; received = timeout }
    ∷ []

abbrev wakes : List Wake
wakes = commit_made ∷ (busy ++ quiet)

run_watch_loop-Allowed_example : Allowed none wakes (run_watch_loop wakes none)
run_watch_loop-Allowed_example = run_watch_loop-Allowed wakes

busy-IsQuiet : All (IsQuiet true) busy
unfolding is_git_op_in_progress
busy-IsQuiet = ((refl, refl), tt)

quiet-IsQuiet : All (IsQuiet false) quiet
unfolding is_git_op_in_progress
quiet-IsQuiet = ((refl, refl), ((refl, refl), tt))

change_is_dispatched_example :
    (ds : List (ℕ × WatcherEvent)) × (t : ℕ) × All IsDeferral ds
    × (any (λ a. a.now == t) quiet ≡ true)
    × (run_watch_loop wakes none ≡ ds ++ ((t, reindex_fired) ∷ []))
change_is_dispatched_example =
    change_is_dispatched none commit_made modify busy quiet 1_500 refl refl busy-IsQuiet
      (omega arith) (omega arith, tt) quiet-IsQuiet refl

abbrev env : Env
env = record {
  ok? = λ _. true;
  flock = granted;
  now = 7;
  uuid = "u1";
  pid = 1;
  hostname = "h";
  created_mode = 0o644;
}

abbrev alone : Peers
alone = record { meanwhile = λ k d. d; lag = λ k. 0 }

-- "/c".
abbrev site : Site
site = record {
  env = env;
  peers = alone;
  budget = 100;
  cache_root = 47 ∷ 99 ∷ [];
  repo_root = "/r";
  schema_version = 4;
  text = λ _. [];
}

abbrev outside : Outside
outside = record {
  before = site;
  during = site;
  after = site;
  now = 5_000;
  ended_at = 6_000;
  canonical = none;
  path = "/r";
  cache_dir = "/c/r";
  build_index = λ _ d. (indexed 3, d);
  digest = some (1 ∷ 2 ∷ []);
}

abbrev bricked : McpContext
bricked = record {
  store_cell = none;
  last_reindex_at = [];
  reindex_locks = [];
  disk = record {
    root_mode = some 0o700;
    dir_mode = some 0o700;
    metadata_json = none;
    graph_db = none;
    lock_pid = none;
    others = [];
  };
}

abbrev store : Store
store = record {
  db = none;
  metadata = new_building env "/r" 4;
  lock = none;
  outcome = resumed;
  committed = false;
  read_only = true;
}

abbrev in_use : McpContext
in_use = record bricked { store_cell = held_by store 1 }

shared_store_stays_example :
    Untouched in_use (call outside no_mode in_use).1
    × ((p : Payload) → (call outside no_mode in_use).0 ≢ done p)
    × Untouched in_use (dispatch_reindex outside in_use).1
    × (refresh_if_stale env in_use ≡ (false, in_use))
shared_store_stays_example = shared_store_stays outside no_mode env in_use store 0 refl

call-Records_example : Records outside [] (call outside no_mode bricked)
call-Records_example = call-Records outside no_mode bricked

calm : IsCalm env
calm = record { oks = λ c. refl; granted = refl }

undisturbed : IsUndisturbed outside
undisturbed = record {
  before = calm;
  during = calm;
  cache_root = refl;
  repository = (1 ∷ 2 ∷ [], refl);
  indexes = λ s d. (3, refl);
}

recoverable : IsRecoverable outside bricked
unfolding unsafe_path has_segment forbidden_system_prefix unsafe_root check_reindex_cooldown get
recoverable = record {
  tidy = record { path = refl; root_mode = refl; dir_mode = inr refl };
  readable = record { metadata = inl refl; database = inl refl };
  free = inl refl;
  rested = refl;
}

no_mode_is_full : validate_args no_mode ≡ done full
unfolding validate_args
no_mode_is_full = refl

no_bench : is_bench_fixture_path none "/r" ≡ false
unfolding is_bench_fixture_path
no_bench = refl

call-Serves_example : Serves (call outside no_mode bricked)
call-Serves_example =
    call-Serves outside no_mode full bricked undisturbed recoverable no_mode_is_full no_bench
