-- ===== src/Server/Examples/Paths.antt =====
-- A directory with one symbolic link into itself, beside the cache.
use graphatlas.Prelude.{ℕ, List, [], ◌∷◌, some, true, false, ◌≡◌, ◌≢◌, refl, arith}
use graphatlas.Prelude.Text.{codes}
use graphatlas.Prelude.Paths.{path_starts_with}
use graphatlas.Server.Progress.{new_running}
use graphatlas.Server.Cache.{Fs, find_cache_dir}
use graphatlas.Server.Handlers.{
  ServerEnv, AppState, PathRejection, bad_path, cache_not_found, attach, add_project,
}
use graphatlas.Server.Paths.{
  DirEntry, Os, valid, trim_end_matches, path_starts_with_case_insensitive, join, resolved,
  validate_repo_path, rejection,
}
use graphatlas.Server.Paths.Outside.{IsTrimmed, IsRepoPath, validate_repo_path-IsRepoPath}

abbrev repo : List ℕ
repo = codes "/home/u/repo"

abbrev cache : List ℕ
cache = codes "/home/u/.cache"

abbrev entries : List DirEntry
entries =
    record { path = codes "/home/u/repo/x"; is_symlink = true }
    ∷ record { path = codes "/home/u/repo/a.py"; is_symlink = false }
    ∷ []

abbrev os : Os
os = record {
  canonicalize = λ p. some p;
  is_dir = λ p. some true;
  read_dir = λ p. some entries;
  read_link = λ p. some (codes "src");
  to_lowercase = λ p. p;
}

cache_IsTrimmed : IsTrimmed cache
unfolding trim_end_matches
cache_IsTrimmed = (refl, refl)

accepts : validate_repo_path os repo cache ≡ valid repo
unfolding validate_repo_path path_starts_with_case_insensitive trim_end_matches resolved join
    path_starts_with
accepts = refl

validate_repo_path-IsRepoPath_example : IsRepoPath os cache repo repo
validate_repo_path-IsRepoPath_example =
    validate_repo_path-IsRepoPath os repo cache repo cache_IsTrimmed accepts

abbrev fs : Fs
fs = record {
  reads = true;
  writes = true;
  renames = true;
  chmods = true;
  removes = true;
  created_mode = 0o644;
  pid_alive = λ _. false;
}

abbrev env : ServerEnv
env = record {
  fs = fs;
  now = 9;
  id = "j1";
  validate_repo_path = rejection os cache;
  spawn_index = some 42;
  canonical = true;
  escapes = false;
  remove_dir_all = true;
}

abbrev server : AppState ℕ
server = record {
  root = [];
  jobs = record { inner = []; next_state = 0 };
  states = λ _. new_running 0;
  confirm_tokens = [];
}

attaches : (add_project env 0 attach "/home/u/repo" "r" server).0 ≡ cache_not_found
unfolding add_project find_cache_dir rejection validate_repo_path path_starts_with_case_insensitive
    trim_end_matches resolved join path_starts_with
attaches = refl

not_rejected :
    (r : PathRejection) → (add_project env 0 attach "/home/u/repo" "r" server).0 ≢ bad_path r
not_rejected r h = ground (arith, h, attaches)
