-- ===== src/Server/Examples.antt =====
-- Runs of the server's registries and of one job, at which the theorems apply.
mod Handlers
mod Paths
use graphatlas.Prelude.{ℕ, ◌+◌, ◌-◌, ◌≤◌, String, List, [], ◌∷◌, Option, none, some, ◌≡◌, ◌≢◌, refl}
use graphatlas.Prelude.Assoc.{get, insert, remove}
use graphatlas.Server.Jobs.{JobRegistry, Request, serve_all}
use graphatlas.Server.Registry.{made_for, present, AllGet, one_job_for_a_slug}
use graphatlas.Server.Tokens.{
  ConfirmTokens, confirm_ttl, confirmed, missing, Call, validates, issue, judge, validate, run,
}
use graphatlas.Server.Tokens.OneShot.{Verdict, validate-Verdict, confirmed_once, only_the_latest}
use graphatlas.Server.Progress.{
  JobState, Drained, Fields, running, failure, log_tail_cap, Output, out, err, drain, finish,
}
use graphatlas.Server.Progress.Tail.{last, logged, begun, Ends, finish-Ends}

abbrev requests : List Request
requests =
    record { slug = "a"; id = "1"; now = 5 }
    ∷ record { slug = "b"; id = "2"; now = 6 }
    ∷ record { slug = "a"; id = "3"; now = 7 }
    ∷ []

abbrev no_jobs : JobRegistry
no_jobs = record { inner = []; next_state = 0 }

abbrev served : JobRegistry
served = (serve_all requests no_jobs).1

one_job_for_a_slug_example :
    (made_for "a" requests (serve_all requests no_jobs).0 + present (get "a" no_jobs.inner)
      ≡ present (get "a" served.inner))
    × (present (get "a" served.inner) ≤ 1)
    × AllGet "a" (get "a" served.inner) requests (serve_all requests no_jobs).0
one_job_for_a_slug_example = one_job_for_a_slug requests "a" no_jobs

abbrev tokens : ConfirmTokens
tokens = issue "a" "t1" 1_000 []

confirms : (validate "a" "t1" 2_000 tokens).0 ≡ confirmed
unfolding issue validate judge insert get remove
confirms = refl

abbrev others : List Call
others = validates "b" "t1" 2_500 ∷ []

confirmed_once_example :
    (validate "a" "t1" 3_000 (run others (validate "a" "t1" 2_000 tokens).1)).0 ≡ missing
confirmed_once_example = confirmed_once "a" "t1" "t1" 2_000 3_000 others tokens confirms tt

still_confirms : (validate "a" "t1" 3_000 (run others (issue "a" "t1" 1_000 []))).0 ≡ confirmed
unfolding issue validate judge insert get remove run
still_confirms = refl

abbrev token : String
token = "t1"

-- A job whose lines are no progress, with numbers for the floats.
abbrev no_progress : String → Option (Fields ℕ)
no_progress line = none

abbrev plain : String → String
plain line = line

abbrev lines : List Output
lines = out "scanning" ∷ err "boom" ∷ []

abbrev drained : Drained ℕ
drained = drain no_progress plain lines (begun no_progress plain 0)

abbrev ended : JobState ℕ
ended = finish 100 12 (failure (some 2)) drained

finish-Ends_example :
    (drained.state.status ≡ running)
    × Ends no_progress plain 100 (failure (some 2)) lines ended
    × (ended.log_tail ≡ last log_tail_cap (logged plain lines))
    × (ended.duration_ms ≡ 12)
finish-Ends_example = finish-Ends no_progress plain 0 100 12 (failure (some 2)) lines
