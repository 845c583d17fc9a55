-- ===== src/Mcp/Examples/Gate.antt =====
-- A tool call on a server whose index is up to date, at which the gate's theorem applies.
use graphatlas.Prelude.{
  ℕ, zero, suc, ◌-◌, ◌<◌, String, List, [], ◌∷◌, Option, none, some, true, false, ◌≡◌, refl, ◌⊎◌,
}
use graphatlas.Parser.Staleness.{
  stale_cache_ttl, StaleResult, disabled_by_env, new_checker, is_fresh, compute_now, current_hash,
  check, tier2_lookup, record_tier2_result,
}
use graphatlas.Parser.Freshness.{run}
use graphatlas.Mcp.Context.{McpContext, Shared}
use graphatlas.Mcp.Gate.{
  Probe, dispatched, decode_root_hash, tier2_dirty_paths_with_cache, gate_checked, gate,
}
use graphatlas.Mcp.Gate.Passes.{IsClean, passes_only_fresh}
use graphatlas.Mcp.Examples.{store, bricked}

abbrev repeated : ℕ → ℕ → List ℕ
repeated zero x = []
repeated (suc n) x = x ∷ repeated n x

abbrev indexed : Shared
indexed = record {
  store = record store {
    metadata = record (store.metadata) { indexed_root_hash = repeated 64 48 };
  };
  clones = 0;
}

abbrev serving : McpContext
serving = record bricked { store_cell = some indexed }

abbrev hash_at : ℕ → Option String
hash_at t = some "zero"

abbrev probe : Probe
probe = record {
  exotic = false;
  now = 5_000;
  computed = some "zero";
  mtime = none;
  dirty_paths = some [];
  text = λ _. "zero";
}

decodes : decode_root_hash indexed.store.metadata.indexed_root_hash ≡ some (repeated 32 0)
unfolding decode_root_hash
decodes = refl

passes :
    (gate probe "ga_hubs" false serving (run false hash_at [] (new_checker none))).0 ≡ dispatched
unfolding gate decode_root_hash gate_checked tier2_dirty_paths_with_cache new_checker
    disabled_by_env run check current_hash is_fresh compute_now tier2_lookup record_tier2_result
passes = refl

abbrev answer : Option StaleResult
answer = (check false 5_000 (some "zero") "zero" (run false hash_at [] (new_checker none))).0

passes_only_fresh_example :
    (answer ≡ none)
    ⊎ ((r : StaleResult) × (answer ≡ some r)
        × ((r.degraded ≡ true)
            ⊎ (((taken : ℕ) × (5_000 - taken < stale_cache_ttl) × (hash_at taken ≡ some "zero"))
                × IsClean probe
                    (check false 5_000
                      (some "zero")
                      "zero"
                      (run false hash_at [] (new_checker none))).1)))
passes_only_fresh_example =
    passes_only_fresh probe "ga_hubs" serving indexed (repeated 32 0) none [] hash_at refl refl refl
      decodes passes
