-- ===== src/Index/Wait.antt =====
-- `wait_for_complete_decision` of crates/ga-index/src/store.rs: a reader polls metadata.json while
-- another process builds. Times are milliseconds.
use graphatlas.Prelude.{ℕ, zero, suc, ◌+◌, ◌*◌, min, leb, if◌then◌else◌, Bool, true, false}
use graphatlas.Index.Disk.{Disk, Env, ok, err, Error}
use graphatlas.Index.Metadata.{
  SchemaDecision, no_cache, match, mismatch, crashed_building, cold_load,
}

-- What happens beside the loop: at the end of the k-th sleep the other processes have changed the
-- disk, and the sleep took `lag k` longer than asked.
pub record Peers : Type 0 where
  pub meanwhile : ℕ → Disk → Disk
  pub lag : ℕ → ℕ

abbrev pub sleep_cap : ℕ
sleep_cap = 2000

abbrev pub first_sleep : ℕ
first_sleep = 100

-- The decisions that end the wait at once.
abbrev pub is_final : SchemaDecision → Bool
is_final no_cache = false
is_final (match _) = true
is_final (mismatch _ _) = true
is_final (crashed_building _) = false

pub data Waited : Type 0 where
  decided : SchemaDecision → Waited
  load_failed : Error → Waited
  out_of_fuel : Waited

-- The outcome, the attempts made, and the disk at the end.
pub record Wait : Type 0 where
  pub outcome : Waited
  pub attempts : ℕ
  pub disk : Disk

module _ (env : Env) (binary budget : ℕ) (peers : Peers) where
  unfoldable pub wait_loop : ℕ → ℕ → ℕ → ℕ → Disk → Wait
  wait_loop zero attempt elapsed sleep d = record {
    outcome = out_of_fuel;
    attempts = attempt;
    disk = d;
  }
  wait_loop (suc fuel) attempt elapsed sleep d =
      let next =
        wait_loop fuel (suc attempt) (elapsed + sleep + peers.lag attempt)
          (min (sleep * 2) sleep_cap) (peers.meanwhile attempt d) in
      elim ((cold_load env binary d).0) [
        | err e ↦ record { outcome = load_failed e; attempts = suc attempt; disk = d }
        | ok decision ↦
            (if is_final decision
              then record { outcome = decided decision; attempts = suc attempt; disk = d }
              else if leb budget elapsed
              then record { outcome = decided decision; attempts = suc attempt; disk = d }
              else next)
      ]

  -- A sleep takes at least 100 ms, so a round for each millisecond of the budget is enough.
  unfoldable pub wait_for_complete_decision : Disk → Wait
  unfolding wait_loop
  wait_for_complete_decision d = wait_loop (suc budget) 0 0 first_sleep d
