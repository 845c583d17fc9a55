-- ===== src/Parser/Staleness.antt =====
-- crates/ga-parser/src/staleness.rs: the checker behind the MCP gate, with its two caches. Times
-- are nanoseconds of a monotonic clock, hashes are texts; what `compute_root_hash` answers and the
-- mtime of `.git/index` at the call are arguments, `none` for an error or a missing file. A call
-- happens at one instant: the hash is stamped with the time at which its computation begins.
use graphatlas.Prelude.{
  ℕ, ◌+◌, ◌-◌, ◌%◌, ◌^◌, ltb, leb, ◌==◌, String, str_eq, Option, none, some, Bool, true, false, not,
  ◌||◌, if◌then◌else◌, List, [],
}

-- 500 ms and 1 s.
abbrev pub stale_cache_ttl : ℕ
stale_cache_ttl = 500_000_000

abbrev pub tier2_cache_ttl : ℕ
tier2_cache_ttl = 1_000_000_000

pub record StaleResult : Type 0 where
  pub stale : Bool
  pub indexed_root_hash : String
  pub current_hash : String
  pub degraded : Bool

pub record CachedHash : Type 0 where
  pub at : Option ℕ
  pub hash : String
  pub degraded : Bool

pub record Tier2Cache : Type 0 where
  pub at : Option ℕ
  pub git_index_mtime_ns : Option ℕ
  pub dirty_paths : List String

pub record StalenessChecker : Type 0 where
  pub cache : CachedHash
  pub compute_counter : ℕ
  pub tier2_cache : Tier2Cache
  pub tier2_counter : ℕ
  pub tier2_disabled : Bool

-- The argument is the value of GRAPHATLAS_DISABLE_DIRTY_CHECK; the zero hash is the empty text.
unfoldable pub disabled_by_env : Option String → Bool
disabled_by_env none = false
disabled_by_env (some v) = str_eq v "1" || (str_eq v "true" || str_eq v "yes")

unfoldable pub new_checker : Option String → StalenessChecker
unfolding disabled_by_env
new_checker v = record {
  cache = record { at = none; hash = ""; degraded = false };
  compute_counter = 0;
  tier2_cache = record { at = none; git_index_mtime_ns = none; dirty_paths = [] };
  tier2_counter = 0;
  tier2_disabled = disabled_by_env v;
}

unfoldable pub set_tier2_disabled : Bool → StalenessChecker → StalenessChecker
set_tier2_disabled b c = record c { tier2_disabled = b }

abbrev pub same_mtime : Option ℕ → Option ℕ → Bool
same_mtime none none = true
same_mtime none (some n) = false
same_mtime (some m) none = false
same_mtime (some m) (some n) = m == n

unfoldable pub tier2_lookup : ℕ → Option ℕ → StalenessChecker → Option (List String)
tier2_lookup now mtime c = elim (c.tier2_cache.at) [
  | none ↦ none
  | some at ↦
      if leb tier2_cache_ttl (now - at)
      then none
      else if not (same_mtime mtime c.tier2_cache.git_index_mtime_ns)
      then none
      else some c.tier2_cache.dirty_paths
]

unfoldable pub record_tier2_result :
    ℕ → Option ℕ → List String → StalenessChecker → StalenessChecker
record_tier2_result now mtime paths c = record c {
  tier2_cache = record { at = some now; git_index_mtime_ns = mtime; dirty_paths = paths };
  tier2_counter = (c.tier2_counter + 1) % 2 ^ 64;
}

-- The first argument is `is_exotic_filesystem` of the platform.
unfoldable pub compute_now :
    Bool → ℕ → Option String → StalenessChecker → Option String × StalenessChecker
compute_now exotic now computed c = elim computed [
  | none ↦ (none, c)
  | some h ↦ (
    some h,
    record c {
      cache = record { at = some now; hash = h; degraded = exotic };
      compute_counter = (c.compute_counter + 1) % 2 ^ 64;
    },
  )
]

unfoldable pub invalidate_cache : StalenessChecker → StalenessChecker
invalidate_cache c = record c { cache = record (c.cache) { at = none } }

unfoldable pub is_fresh : ℕ → Option ℕ → Bool
is_fresh now none = false
is_fresh now (some at) = ltb (now - at) stale_cache_ttl

unfoldable pub current_hash :
    Bool → ℕ → Option String → StalenessChecker → Option (String × Bool) × StalenessChecker
unfolding is_fresh compute_now
current_hash exotic now computed c =
    if is_fresh now c.cache.at
    then (some (c.cache.hash, c.cache.degraded), c)
    else let (r, c') = compute_now exotic now computed c in
      (elim r [ none ↦ none | some h ↦ some (c'.cache.hash, c'.cache.degraded) ], c')

unfoldable pub check :
    Bool → ℕ → Option String → String → StalenessChecker → Option StaleResult × StalenessChecker
unfolding current_hash
check exotic now computed indexed c =
    let (r, c') = current_hash exotic now computed c in
    (
      elim r [
        | none ↦ none
        | some (h, degraded) ↦ some (record {
          stale = not (str_eq h indexed);
          indexed_root_hash = indexed;
          current_hash = h;
          degraded = degraded;
        })
      ],
      c',
    )
