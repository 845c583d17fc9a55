-- ===== src/Server/Handlers/Events.antt =====
-- Sequences of requests to the handlers, with the threads of the jobs beside them.
use graphatlas.Prelude.{ℕ, String, List, [], ◌∷◌, Option}
use graphatlas.Server.Progress.{JobState}
use graphatlas.Server.Handlers.{
  ServerEnv, AddMode, AppState, set_state, start_reindex, cancel_reindex, add_project,
  delete_intent, delete_project,
}

-- The requests that change something, and a job's own thread writing its `JobState`.
pub data Event (F : Type 0) : Type 0 where
  reindexes : String → Event F
  cancels : String → String → Event F
  adds : AddMode → String → String → Event F
  intends : String → Event F
  deletes : String → Option String → Event F
  progresses : ℕ → JobState F → Event F

module _ {F : Type 0} where
  unfoldable pub serve : ServerEnv → F → Event F → AppState F → AppState F
  serve env z (reindexes slug) s = (start_reindex env z slug s).1
  serve env z (cancels slug id) s = (cancel_reindex env slug id s).1
  serve env z (adds mode path slug) s = (add_project env z mode path slug s).1
  serve env z (intends slug) s = (delete_intent env slug s).1
  serve env z (deletes slug token) s = (delete_project env slug token s).1
  serve env z (progresses a st) s = record s { states = set_state a st s.states }

  unfoldable pub serve_all : F → List (ServerEnv × Event F) → AppState F → AppState F
  unfolding serve
  serve_all z [] s = s
  serve_all z ((env, e) ∷ es) s = serve_all z es (serve env z e s)
