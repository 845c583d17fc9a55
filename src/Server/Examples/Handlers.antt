-- ===== src/Server/Examples/Handlers.antt =====
-- Requests to one small server, at which the theorems on the handlers apply.
use graphatlas.Prelude.{ℕ, String, List, [], ◌∷◌, none, some, true, false, ◌≡◌, ◌≢◌, ◌⊎◌, refl}
use graphatlas.Prelude.Assoc.{get, insert, remove}
use graphatlas.Core.{complete}
use graphatlas.Index.Disk.{Metadata, Disk, Env, granted, Error, err}
use graphatlas.Index.Lock.{exclusive, release}
use graphatlas.Index.Store.Open.{open_with_lock}
use graphatlas.Server.Jobs.{
  new_handle, insert_new, try_insert, lookup, find_id, lookup_by_id, set_pid,
}
use graphatlas.Server.Tokens.{confirmed, issue, judge, validate}
use graphatlas.Server.Progress.{new_running}
use graphatlas.Server.Cache.{
  typed, MetadataJson, CacheDir, Fs, named, find_cache_dir, change_dir, lookup_cache_state,
  read_repo_root, write_pid_file, corrupt,
}
use graphatlas.Server.Handlers.{
  accepted, cancel_accepted, missing_confirm_token, invalid_confirm_token, ServerEnv, AppState,
  launch, locate, start_reindex, cancel_reindex, delete_intent, delete_project,
}
use graphatlas.Server.Handlers.Events.{Event, progresses, reindexes, serve_all}
use graphatlas.Server.Handlers.Jobs.{accepted_once}
use graphatlas.Server.Handlers.Cancel.{meta_file, cancelled_is_refused}
use graphatlas.Server.Handlers.Delete.{confirmed_is_spent}

abbrev fs : Fs
fs = record {
  reads = true;
  writes = true;
  renames = true;
  chmods = true;
  removes = true;
  created_mode = 0o644;
  pid_alive = λ _. false;
}

abbrev env : ServerEnv
env = record {
  fs = fs;
  now = 9;
  id = "j1";
  validate_repo_path = λ _. none;
  spawn_index = some 42;
  canonical = true;
  escapes = false;
  remove_dir_all = true;
}

abbrev metadata : Metadata
metadata = record {
  schema_version = 4;
  indexed_at = 1;
  committed_at = some 2;
  repo_root = "/r";
  index_state = complete;
  index_generation = "u1";
  indexed_root_hash = [];
  graph_generation = 1;
  cache_lang_set = [];
  index_counts = none;
  health_summary = none;
}

abbrev metadata_json : MetadataJson
metadata_json = record { mode = 0o600; body = typed metadata }

abbrev dir : CacheDir
dir = record { name = "r-a"; is_dir = true; metadata_json = some metadata_json; pid_file = none }

abbrev server : AppState ℕ
server = record {
  root = dir ∷ [];
  jobs = record { inner = []; next_state = 0 };
  states = λ _. new_running 0;
  confirm_tokens = [];
}

starts : (start_reindex env 0 "a" server).0 ≡ accepted "a" "j1"
unfolding start_reindex locate launch named find_cache_dir change_dir lookup_cache_state
    read_repo_root write_pid_file new_handle insert_new try_insert lookup set_pid get insert
starts = refl

abbrev server' : AppState ℕ
server' = (start_reindex env 0 "a" server).1

-- The job's thread ends it.
abbrev ends : List (ServerEnv × Event ℕ)
ends = (env, progresses 0 (new_running 100)) ∷ (env, reindexes "b") ∷ []

accepted_once_example :
    ((start_reindex env 0 "a" (serve_all 0 ends server')).1 ≡ serve_all 0 ends server')
    × ((c d : String) → (start_reindex env 0 "a" (serve_all 0 ends server')).0 ≢ accepted c d)
accepted_once_example = accepted_once env env 0 "a" "a" "j1" server ends starts tt

cancels : (cancel_reindex env "a" "j1" server').0 ≡ cancel_accepted "j1"
unfolding start_reindex locate launch named find_cache_dir change_dir lookup_cache_state
    read_repo_root write_pid_file new_handle insert_new try_insert lookup set_pid get insert
    cancel_reindex lookup_by_id find_id
cancels = refl

abbrev server'' : AppState ℕ
server'' = (cancel_reindex env "a" "j1" server').1

abbrev index_env : Env
index_env = record {
  ok? = λ _. true;
  flock = granted;
  now = 11;
  uuid = "u2";
  pid = 42;
  hostname = "h";
  created_mode = 0o644;
}

abbrev disk : Disk
disk = record {
  root_mode = some 0o700;
  dir_mode = some 0o700;
  metadata_json = meta_file "a" server''.root;
  graph_db = none;
  lock_pid = none;
  others = [];
}

abbrev dir' : CacheDir
dir' = write_pid_file fs (record { pid = 42; job_id = "j1"; slug = "a"; started_at_unix = 9 }) dir

found : find_cache_dir "a" server'.root ≡ some dir'
unfolding start_reindex locate launch named find_cache_dir change_dir lookup_cache_state
    read_repo_root write_pid_file new_handle insert_new try_insert lookup set_pid get insert
found = refl

has_metadata : dir'.metadata_json ≡ some metadata_json
unfolding write_pid_file
has_metadata = refl

cancelled_is_refused_example :
    (lookup_cache_state fs server''.root "a" ≡ corrupt)
    × ((x : Error) × (open_with_lock index_env "/r" 4 exclusive disk
          ≡ (err x, release index_env exclusive disk)))
cancelled_is_refused_example =
    cancelled_is_refused env "a" "j1" "j1" server' dir' metadata_json index_env "/r" 4 exclusive
      disk cancels found has_metadata refl refl refl refl refl

abbrev with_token : AppState ℕ
with_token = (delete_intent env "a" server).1

confirms : (validate "a" "j1" 9 with_token.confirm_tokens).0 ≡ confirmed
unfolding delete_intent named find_cache_dir issue validate judge get insert remove
confirms = refl

abbrev deleted : AppState ℕ
deleted = serve_all 0 ends (delete_project env "a" (some "j1") with_token).1

confirmed_is_spent_example :
    (delete_project env "a" (some "j1") deleted ≡ (missing_confirm_token, deleted))
    ⊎ (delete_project env "a" (some "j1") deleted ≡ (invalid_confirm_token, deleted))
confirmed_is_spent_example =
    confirmed_is_spent env env 0 "a" "j1" (some "j1") with_token ends confirms tt
