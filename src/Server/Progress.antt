-- ===== src/Server/Progress.antt =====
-- `consume_progress` and the threads of `SubprocessLauncher::spawn_index`
-- (crates/ga-server/src/jobs.rs): two drainers and a monitor that joins them. A lock is taken for
-- each line, so the threads' steps interleave line by line. serde_json and the floats are
-- parameters: `parse` gives the fields of a line that is a JSON object.
pub mod Tail
use graphatlas.Prelude.{
  ℕ, suc, ltb, leb, String, List, [], ◌∷◌, ◌++◌, Option, none, some, Bool, true, false,
  if◌then◌else◌, length, drop,
}

pub data JobStatus : Type 0 where
  running done errored cancelled : JobStatus

pub record Fields (F : Type 0) : Type 0 where
  pub percent : Option F
  pub phase : Option String
  pub files_done : Option ℕ
  pub files_total : Option ℕ

-- What the error text is made of.
pub data Failure : Type 0 where
  exited : Option ℕ → List String → Failure
  wait_failed : String → Failure

pub record JobState (F : Type 0) : Type 0 where
  pub status : JobStatus
  pub percent : F
  pub phase : Option String
  pub current_file : Option String
  pub files_done : ℕ
  pub files_total : ℕ
  pub error : Option Failure
  pub log_tail : List String
  pub duration_ms : ℕ

-- `child.wait()`: an exit code of 0, another one (none after a signal), or an error.
pub data WaitResult : Type 0 where
  success : WaitResult
  failure : Option ℕ → WaitResult
  wait_error : String → WaitResult

abbrev pub log_tail_cap : ℕ
log_tail_cap = 200

abbrev pub stderr_tail_cap : ℕ
stderr_tail_cap = 50

abbrev pub or_keep {ℓ} : {A : Type ℓ} → Option A → A → A
or_keep none a = a
or_keep (some b) a = b

abbrev pub or_keep_some {ℓ} : {A : Type ℓ} → Option A → Option A → Option A
or_keep_some none a = a
or_keep_some (some b) a = some b

-- `remove(0)` at the cap, and `push`.
unfoldable pub push_capped {ℓ} : {A : Type ℓ} → ℕ → List A → A → List A
push_capped cap l x = (if leb cap (length l) then drop 1 l else l) ++ x ∷ []

-- A line of either drainer.
pub data Output : Type 0 where
  out err : String → Output

-- The job's state, and the buffer of the thread that reads stderr.
pub record Drained (F : Type 0) : Type 0 where
  pub state : JobState F
  pub stderr_buf : List String

module _ {F : Type 0} where
  -- `new_running`, with the float 0.0.
  unfoldable pub new_running : F → JobState F
  new_running zero_percent = record {
    status = running;
    percent = zero_percent;
    phase = none;
    current_file = none;
    files_done = 0;
    files_total = 0;
    error = none;
    log_tail = [];
    duration_ms = 0;
  }

  unfoldable pub take_fields : Option (Fields F) → JobState F → JobState F
  take_fields none st = st
  take_fields (some v) st = record st {
    percent = or_keep v.percent st.percent;
    phase = or_keep_some v.phase st.phase;
    files_done = or_keep v.files_done st.files_done;
    files_total = or_keep v.files_total st.files_total;
  }

  -- The body of the loop of `consume_progress`.
  unfoldable pub consume_line : (String → Option (Fields F)) → String → JobState F → JobState F
  unfolding take_fields push_capped
  consume_line parse line st =
      take_fields (parse line) (record st { log_tail = push_capped log_tail_cap st.log_tail line })

  unfoldable pub consume_progress :
      (String → Option (Fields F)) → List String → JobState F → JobState F
  consume_progress parse [] st = st
  consume_progress parse (line ∷ lines) st =
      consume_progress parse lines (consume_line parse line st)

  -- `label` prefixes "[stderr] ".
  unfoldable pub drain_line :
      (String → Option (Fields F)) → (String → String) → Output → Drained F → Drained F
  unfolding consume_line push_capped
  drain_line parse label (out line) d = record d { state = consume_line parse line d.state }
  drain_line parse label (err line) d =
      let st = d.state in
      record {
        state = record st { log_tail = push_capped log_tail_cap st.log_tail (label line) };
        stderr_buf = push_capped stderr_tail_cap d.stderr_buf line;
      }

  unfoldable pub drain :
      (String → Option (Fields F)) → (String → String) → List Output → Drained F → Drained F
  drain parse label [] d = d
  drain parse label (o ∷ os) d = drain parse label os (drain_line parse label o d)

  -- The monitor, once it has joined both drainers, with the float 100.0.
  unfoldable pub finish : F → ℕ → WaitResult → Drained F → JobState F
  finish hundred elapsed success d =
      let st = d.state in record st { duration_ms = elapsed; status = done; percent = hundred }
  finish hundred elapsed (failure code) d =
      let st = d.state in
      record st { duration_ms = elapsed; status = errored; error = some (exited code d.stderr_buf) }
  finish hundred elapsed (wait_error e) d =
      let st = d.state in
      record st { duration_ms = elapsed; status = errored; error = some (wait_failed e) }
