-- ===== src/Mcp/Watcher.antt =====
-- crates/ga-mcp/src/watcher.rs: the watch of `.git` and its debounce. Times are milliseconds of a
-- monotonic clock, read once for each wake of the loop; `notify` and the file system answer.
pub mod Debounce
use graphatlas.Prelude.{
  ℕ, ◌+◌, ◌-◌, leb, String, List, [], ◌∷◌, ◌++◌, Option, none, some, Bool, true, false, not, ◌&&◌,
  ◌||◌, any, if◌then◌else◌,
}
use graphatlas.Prelude.Text.{codes}
use graphatlas.Mcp.Text.{has_text, to_lowercase, with_slashes}

abbrev pub git_op_sentinels : List String
git_op_sentinels = "REBASE_HEAD" ∷ "MERGE_HEAD" ∷ "CHERRY_PICK_HEAD" ∷ "BISECT_LOG" ∷ []

-- `.git` of the repository: whether it exists, and which paths below it do.
pub record GitDir : Type 0 where
  pub present : Bool
  pub has : String → Bool
  pub is_dir : String → Bool

unfoldable pub is_git_op_in_progress : GitDir → Bool
is_git_op_in_progress git =
    git.present
    && (any git.has git_op_sentinels || git.is_dir "rebase-merge" || git.is_dir "rebase-apply")

-- The text of the path, canonical if it can be.
unfoldable pub is_bench_fixture_path : Option String → String → Bool
is_bench_fixture_path (some canonical) path =
    has_text "/benches/fixtures/" (with_slashes (codes canonical))
is_bench_fixture_path none path = has_text "/benches/fixtures/" (with_slashes (codes path))

abbrev pub existing : GitDir → List String → List String
existing git [] = []
existing git (p ∷ ps) = if git.has p then p ∷ existing git ps else existing git ps

unfoldable pub watch_targets : GitDir → List String
watch_targets git = if git.present then existing git ("HEAD" ∷ "index" ∷ "refs/heads" ∷ []) else []

pub data WatcherInitError : Type 0 where
  bench_fixture_refused not_a_git_repo : WatcherInitError

unfoldable pub validate_repo_root : Option String → String → GitDir → Option WatcherInitError
unfolding is_bench_fixture_path
validate_repo_root canonical path git =
    if is_bench_fixture_path canonical path
    then some bench_fixture_refused
    else if not git.present
    then some not_a_git_repo
    else none

unfoldable pub should_fallback_to_polling : List ℕ → Bool
should_fallback_to_polling message =
    let lower = to_lowercase message in
    has_text "enospc" lower
    || has_text "no space left" lower
    || has_text "max_user_watches" lower
    || has_text "too many open files" lower
    || has_text "limit reached" lower

abbrev pub debounce_ms : ℕ
debounce_ms = 500

abbrev pub git_op_recheck_ms : ℕ
git_op_recheck_ms = 2_000

pub data WatcherEvent : Type 0 where
  reindex_fired deferred_git_op : WatcherEvent

pub data EventKind : Type 0 where
  modify create delete other_kind : EventKind

-- What `recv_timeout` returns.
pub data Received : Type 0 where
  event : EventKind → Received
  watch_error timeout disconnected : Received

pub record Wake : Type 0 where
  pub now : ℕ
  pub git : GitDir
  pub received : Received

abbrev pub is_relevant_event : EventKind → Bool
is_relevant_event modify = true
is_relevant_event create = true
is_relevant_event delete = true
is_relevant_event other_kind = false

-- `elapsed` of an instant to come is 0.
unfoldable pub recv_timeout : Option ℕ → ℕ → ℕ
recv_timeout none now = git_op_recheck_ms
recv_timeout (some since) now =
    if leb debounce_ms (now - since) then 0 else debounce_ms - (now - since)

-- What is pending after a wake, and what it dispatches. Instants do not stop at 0, so the recheck is
-- added first.
unfoldable pub on_timeout : Option ℕ → Wake → Option ℕ × List (ℕ × WatcherEvent)
on_timeout none w = (none, [])
on_timeout (some since) w =
    if leb debounce_ms (w.now - since)
    then (if is_git_op_in_progress w.git
        then (some (w.now + git_op_recheck_ms - debounce_ms), (w.now, deferred_git_op) ∷ [])
        else (none, (w.now, reindex_fired) ∷ []))
    else (some since, [])

-- One round of the loop; `none` is the break.
abbrev pub on_received : Received → Option ℕ → Wake → Option (Option ℕ × List (ℕ × WatcherEvent))
on_received (event k) pending w = some (if is_relevant_event k then some w.now else pending, [])
on_received watch_error pending w = some (pending, [])
on_received timeout pending w = some (on_timeout pending w)
on_received disconnected pending w = none

unfoldable pub run_watch_loop : List Wake → Option ℕ → List (ℕ × WatcherEvent)
run_watch_loop [] pending = []
run_watch_loop (w ∷ ws) pending = elim (on_received w.received pending w) [
  | some (pending', dispatched) ↦ dispatched ++ run_watch_loop ws pending'
  | none ↦ []
]
