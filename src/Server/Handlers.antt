-- ===== src/Server/Handlers.antt =====
-- The handlers of crates/ga-server/src/handlers/reindex.rs and projects.rs that change something.
-- The floats of a job's progress are a parameter; so are the answers of `validate_repo_path`, of the
-- launcher, and of the file system. A handler's answer stands for its status and its body.
pub mod Events
pub mod Jobs
pub mod Cancel
pub mod Delete
use graphatlas.Prelude.{
  ℕ, ◌-◌, ◌==◌, String, str_eq, List, [], ◌∷◌, Option, none, some, Bool, true, false, not, ◌&&◌,
  ◌||◌, if◌then◌else◌,
}
use graphatlas.Server.Jobs.{
  JobHandle, JobRegistry, inserted, existing, JobInsertResult, try_insert, lookup, remove_job,
  lookup_by_id, set_pid,
}
use graphatlas.Server.Tokens.{
  ConfirmTokens, ConfirmResult, confirmed, missing, expired, mismatched, issue, validate,
}
use graphatlas.Server.Progress.{JobState, cancelled, new_running}
use graphatlas.Server.Cache.{
  CacheDir, ReindexPidFile, Fs, find_cache_dir, change_dir, lookup_cache_state, is_building_state,
  read_pid_file, named, write_pid_file, remove_pid_file, apply_cleanup, read_repo_root,
}

pub data PathRejection : Type 0 where
  path_not_found path_not_directory path_unsafe external_symlink : PathRejection

pub data Response : Type 0 where
  project_not_found metadata_unreadable spawn_failed job_not_found job_slug_mismatch : Response
  bad_path : PathRejection → Response
  in_progress accepted : String → String → Response
  cache_not_found attached missing_confirm_token confirm_token_expired : Response
  invalid_confirm_token cache_dir_unsafe delete_failed deleted : Response
  cancel_accepted : String → Response
  intent : String → Response

-- What the outside answers during one request; `id` is a fresh id or token.
pub record ServerEnv : Type 0 where
  pub fs : Fs
  pub now : ℕ
  pub id : String
  pub validate_repo_path : String → Option PathRejection
  pub spawn_index : Option ℕ
  pub canonical : Bool
  pub escapes : Bool
  pub remove_dir_all : Bool

pub data AddMode : Type 0 where
  index attach : AddMode

module _ (F : Type 0) where
  pub record AppState : Type 0 where
    pub root : List CacheDir
    pub jobs : JobRegistry
    pub states : ℕ → JobState F
    pub confirm_tokens : ConfirmTokens

abbrev pub is_vacant : Option JobHandle → Bool
is_vacant none = true
is_vacant (some h) = false

-- The process of the pid file, if it lives.
abbrev pub live_orphan : Fs → CacheDir → Option ReindexPidFile
live_orphan fs dir = elim (read_pid_file fs dir) [
  | none ↦ none
  | some pf ↦ if fs.pid_alive pf.pid then some pf else none
]

abbrev pub drop_dir : String → List CacheDir → List CacheDir
drop_dir slug [] = []
drop_dir slug (dir ∷ dirs) = if named slug dir then dirs else dir ∷ drop_dir slug dirs

module _ {F : Type 0} where
  abbrev pub set_state : ℕ → JobState F → (ℕ → JobState F) → ℕ → JobState F
  set_state a st states b = if b == a then st else states b

  -- The subprocess was asked for; the job stands in the registry.
  abbrev pub spawned :
      ServerEnv → F → String → JobHandle → JobRegistry → AppState F → Response × AppState F
  spawned env zero_percent slug h jobs s = elim (env.spawn_index) [
    | none ↦ (
      spawn_failed,
      record s {
        jobs = (remove_job slug jobs).1;
        states = set_state h.state (new_running zero_percent) s.states;
      },
    )
    | some pid ↦ (
      accepted h.slug h.job_id,
      record s {
        jobs = set_pid slug pid jobs;
        states = set_state h.state (new_running zero_percent) s.states;
        root =
            change_dir slug
              (write_pid_file (env.fs)
                (record { pid = pid; job_id = h.job_id; slug = h.slug; started_at_unix = env.now }))
              s.root;
      },
    )
  ]

  abbrev pub launched :
      ServerEnv → F → String → AppState F → JobInsertResult × JobRegistry → Response × AppState F
  launched env zero_percent slug s (existing h, jobs) = (in_progress h.slug h.job_id, s)
  launched env zero_percent slug s (inserted h, jobs) = spawned env zero_percent slug h jobs s

  unfoldable pub launch : ServerEnv → F → String → AppState F → Response × AppState F
  launch env zero_percent slug s =
      launched env zero_percent slug s (try_insert slug env.id env.now s.jobs)

  unfoldable pub locate : ServerEnv → F → String → CacheDir → AppState F → Response × AppState F
  unfolding launch
  locate env zero_percent slug dir s = elim (read_repo_root env.fs dir) [
    | none ↦ (metadata_unreadable, s)
    | some repo ↦ elim (env.validate_repo_path repo) [
      | some rejection ↦ (bad_path rejection, s)
      | none ↦ launch env zero_percent slug s
    ]
  ]

  unfoldable pub start_reindex : ServerEnv → F → String → AppState F → Response × AppState F
  unfolding locate
  start_reindex env zero_percent slug s = elim (find_cache_dir slug s.root) [
    | none ↦ (project_not_found, s)
    | some dir ↦
        if is_building_state (lookup_cache_state env.fs s.root slug)
          && is_vacant (lookup slug s.jobs)
        then elim (live_orphan env.fs dir) [
          | some pf ↦ (in_progress pf.slug pf.job_id, s)
          | none ↦
              locate env zero_percent slug dir
                (record s { root = change_dir slug (remove_pid_file env.fs) s.root })
        ]
        else locate env zero_percent slug dir s
  ]

  unfoldable pub job_status : String → AppState F → Option (JobHandle × JobState F)
  job_status id s = elim (lookup_by_id id s.jobs) [
    | none ↦ none
    | some h ↦ some (h, s.states h.state)
  ]

  -- The kill of the process is outside; the found job is marked, the cache too, and the slug freed.
  unfoldable pub cancel_reindex : ServerEnv → String → String → AppState F → Response × AppState F
  cancel_reindex env slug id s = elim (lookup_by_id id s.jobs) [
    | none ↦ (job_not_found, s)
    | some h ↦ if not (str_eq h.slug slug) then (job_slug_mismatch, s) else (
      cancel_accepted id,
      record s {
        states =
            set_state h.state
              (record (s.states h.state) {
                status = cancelled;
                duration_ms = env.now - h.started_at;
              })
              s.states;
        root = change_dir slug (apply_cleanup env.fs) s.root;
        jobs = (remove_job slug s.jobs).1;
      },
    )
  ]

  -- The pid of the subprocess is dropped here.
  abbrev pub add_spawned :
      ServerEnv → F → String → JobHandle → JobRegistry → AppState F → Response × AppState F
  add_spawned env zero_percent slug h jobs s = elim (env.spawn_index) [
    | none ↦ (
      spawn_failed,
      record s {
        jobs = (remove_job slug jobs).1;
        states = set_state h.state (new_running zero_percent) s.states;
      },
    )
    | some pid ↦ (
      accepted h.slug h.job_id,
      record s { jobs = jobs; states = set_state h.state (new_running zero_percent) s.states },
    )
  ]

  abbrev pub add_launched :
      ServerEnv → F → String → AppState F → JobInsertResult × JobRegistry → Response × AppState F
  add_launched env zero_percent slug s (existing h, jobs) = (in_progress h.slug h.job_id, s)
  add_launched env zero_percent slug s (inserted h, jobs) =
      add_spawned env zero_percent slug h jobs s

  -- The slug is the hash of the path.
  unfoldable pub add_project :
      ServerEnv → F → AddMode → String → String → AppState F → Response × AppState F
  add_project env zero_percent mode path slug s = elim (env.validate_repo_path path) [
    | some rejection ↦ (bad_path rejection, s)
    | none ↦ elim mode [
      | attach ↦ elim (find_cache_dir slug s.root) [
        | none ↦ (cache_not_found, s)
        | some dir ↦ (attached, s)
      ]
      | index ↦ add_launched env zero_percent slug s (try_insert slug env.id env.now s.jobs)
    ]
  ]

  unfoldable pub delete_intent : ServerEnv → String → AppState F → Response × AppState F
  delete_intent env slug s = elim (find_cache_dir slug s.root) [
    | none ↦ (project_not_found, s)
    | some dir ↦
        (intent env.id, record s { confirm_tokens = issue slug env.id env.now s.confirm_tokens })
  ]

  -- Once the token is confirmed.
  unfoldable pub delete_dir : ServerEnv → String → AppState F → Response × AppState F
  delete_dir env slug s = elim (find_cache_dir slug s.root) [
    | none ↦ (project_not_found, s)
    | some dir ↦
        if not env.canonical
        then (project_not_found, s)
        else if env.escapes
        then (cache_dir_unsafe, s)
        else if not env.remove_dir_all
        then (delete_failed, s)
        else (deleted, record s { root = drop_dir slug s.root; jobs = (remove_job slug s.jobs).1 })
  ]

  unfoldable pub delete_project :
      ServerEnv → String → Option String → AppState F → Response × AppState F
  unfolding delete_dir
  delete_project env slug none s = (missing_confirm_token, s)
  delete_project env slug (some token) s =
      let (r, tokens) = validate slug token env.now s.confirm_tokens in
      let s' = record s { confirm_tokens = tokens } in
      elim r [
        | confirmed ↦ delete_dir env slug s'
        | expired ↦ (confirm_token_expired, s')
        | missing ↦ (invalid_confirm_token, s')
        | mismatched ↦ (invalid_confirm_token, s')
      ]
