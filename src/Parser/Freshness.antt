-- ===== src/Parser/Freshness.antt =====
-- What the caches of the staleness checker promise.
use graphatlas.Prelude.{
  ℕ, ◌+◌, ◌-◌, ◌%◌, ◌^◌, ◌≤◌, ◌<◌, ltb, ==_iff, ltb→lt, lt→ltb, String, str_eq, Option, none, some,
  Bool, true, false, not, List, [], ◌∷◌, All, ◌≡◌, refl, sym, ◌⊎◌, ◌↔◌, inl, inr, arith, Bool-cases,
  Option-cases,
}
use mathlib.Core.Option.{some-injective}
use mathlib.Core.Path.{subst}
use graphatlas.Parser.Staleness.{
  stale_cache_ttl, tier2_cache_ttl, StaleResult, StalenessChecker, new_checker, same_mtime,
  tier2_lookup, record_tier2_result, compute_now, invalidate_cache, is_fresh, current_hash, check,
}

-- A call of `check`: when, what `compute_root_hash` would answer, and the indexed hash.
pub record Check : Type 0 where
  pub now : ℕ
  pub computed : Option String
  pub indexed : String

module _ (exotic : Bool) where
  unfoldable pub burst : List Check → StalenessChecker → StalenessChecker
  unfolding check
  burst [] c = c
  burst (k ∷ ks) c = burst ks (check exotic k.now k.computed k.indexed c).1

-- The cache was filled at or after `t0`.
abbrev Filled : ℕ → StalenessChecker → Type 0
Filled t0 c = (at : ℕ) × (t0 ≤ at) × (c.cache.at ≡ some at)

abbrev pub Within : ℕ → Check → Type 0
Within t0 k = (t0 ≤ k.now) × (k.now < t0 + stale_cache_ttl)

Filled-hit :
    (exotic : Bool) (t0 : ℕ) (k : Check) (c : StalenessChecker)
    → Within t0 k
    → Filled t0 c
    → (check exotic k.now k.computed k.indexed c).1 ≡ c
unfolding check current_hash is_fresh
Filled-hit exotic t0 k c (from, to) (at, late, e) =
    rw e (rw (lt→ltb (k.now - at) stale_cache_ttl (omega arith)) refl)

-- A check leaves the checker alone or fills the cache and counts one computation.
check-cases :
    (exotic : Bool) (k : Check) (c : StalenessChecker)
    → ((check exotic k.now k.computed k.indexed c).1 ≡ c)
      ⊎ (((check exotic k.now k.computed k.indexed c).1.cache.at ≡ some k.now)
          × ((check exotic k.now k.computed k.indexed c).1.compute_counter
              ≡ (c.compute_counter + 1) % 2 ^ 64))
unfolding check current_hash compute_now
check-cases exotic k c = elim (Bool-cases (is_fresh k.now c.cache.at)) [
  | inl e ↦ inl (rw e refl)
  | inr e ↦ rw e (go k.computed)
]
  where
    go :
        (o : Option String)
        → ((compute_now exotic k.now o c).1 ≡ c)
          ⊎ (((compute_now exotic k.now o c).1.cache.at ≡ some k.now)
              × ((compute_now exotic k.now o c).1.compute_counter
                  ≡ (c.compute_counter + 1) % 2 ^ 64))
    go none = inl refl
    go (some h) = inr (refl, refl)

burst-Filled :
    (exotic : Bool) (t0 : ℕ) (ks : List Check) (c : StalenessChecker)
    → All (Within t0) ks
    → Filled t0 c
    → burst exotic ks c ≡ c
unfolding burst
burst-Filled exotic t0 [] c w f = refl
burst-Filled exotic t0 (k ∷ ks) c w f =
    rw (Filled-hit exotic t0 k c w.0 f) (burst-Filled exotic t0 ks c w.1 f)

-- However many checks fall into one window of 500 ms, and whatever the cache held before, the
-- root hash is computed (successfully) at most once among them, short of the counter's overflow.
pub burst_computes_once :
    (exotic : Bool) (t0 : ℕ) (ks : List Check) (c : StalenessChecker)
    → All (Within t0) ks
    → c.compute_counter + 1 < 2 ^ 64
    → (burst exotic ks c).compute_counter ≤ c.compute_counter + 1
unfolding burst
burst_computes_once exotic t0 [] c w h = omega arith
burst_computes_once exotic t0 (k ∷ ks) c w h = elim (check-cases exotic k c) [
  | inl same ↦ rw (same, burst) (burst_computes_once exotic t0 ks c w.1 h)
  | inr filled ↦
      rw
        (sym (
          burst-Filled exotic t0 ks (check exotic k.now k.computed k.indexed c).1 w.1
            (filled_at w.0 filled.0)))
        at (small c.compute_counter h (filled.1))
]
  where
    filled_at :
        Within t0 k
        → (check exotic k.now k.computed k.indexed c).1.cache.at ≡ some k.now
        → Filled t0 (check exotic k.now k.computed k.indexed c).1
    filled_at v e = (k.now, v.0, e)

    small : {m : ℕ} (n : ℕ) → n + 1 < 2 ^ 64 → m ≡ (n + 1) % 2 ^ 64 → m ≤ n + 1
    small n v e = omega arith

-- The calls that touch the first cache, with their time.
pub data Op : Type 0 where
  checks : ℕ → String → Op
  computes invalidates : ℕ → Op

-- `hash_at t` is what `compute_root_hash` answers at the time `t`.
module _ (exotic : Bool) (hash_at : ℕ → Option String) where
  unfoldable pub step : Op → StalenessChecker → StalenessChecker
  unfolding check compute_now invalidate_cache
  step (checks t i) c = (check exotic t (hash_at t) i c).1
  step (computes t) c = (compute_now exotic t (hash_at t) c).1
  step (invalidates t) c = invalidate_cache c

  unfoldable pub run : List Op → StalenessChecker → StalenessChecker
  unfolding step
  run [] c = c
  run (o ∷ os) c = run os (step o c)

  abbrev IsHonest : StalenessChecker → Type 0
  IsHonest c = (at : ℕ) → c.cache.at ≡ some at → hash_at at ≡ some c.cache.hash

  compute_now-IsHonest :
      (t : ℕ) (o : Option String) (c : StalenessChecker)
      → hash_at t ≡ o
      → IsHonest c
      → IsHonest (compute_now exotic t o c).1
  unfolding compute_now
  compute_now-IsHonest t none c e h = h
  compute_now-IsHonest t (some v) c e h = λ at p. cc

  check-IsHonest :
      (t : ℕ) (i : String) (c : StalenessChecker)
      → IsHonest c
      → IsHonest (check exotic t (hash_at t) i c).1
  unfolding check current_hash
  check-IsHonest t i c h = go (is_fresh t c.cache.at) refl
    where
      go : (b : Bool) → is_fresh t c.cache.at ≡ b → IsHonest (check exotic t (hash_at t) i c).1
      go true e = rw e h
      go false e = rw e (compute_now-IsHonest t (hash_at t) c refl h)

  step-IsHonest : (o : Op) (c : StalenessChecker) → IsHonest c → IsHonest (step o c)
  unfolding step invalidate_cache
  step-IsHonest (checks t i) c h = check-IsHonest t i c h
  step-IsHonest (computes t) c h = compute_now-IsHonest t (hash_at t) c refl h
  step-IsHonest (invalidates t) c h = gone
    where
      gone : IsHonest (invalidate_cache c)
      gone = λ at p. cc

  run-IsHonest : (os : List Op) (c : StalenessChecker) → IsHonest c → IsHonest (run os c)
  unfolding run
  run-IsHonest [] c h = h
  run-IsHonest (o ∷ os) c h = run-IsHonest os (step o c) (step-IsHonest o c h)

  -- An answer of `check` for the indexed hash: the hash is one that was computed less than 500 ms
  -- before, and the flag compares it with the indexed one.
  pub record IsCurrent (now : ℕ) (indexed : String) (r : StaleResult) : Type 0 where
    pub taken : ℕ
    pub recent : now - taken < stale_cache_ttl
    pub true_then : hash_at taken ≡ some r.current_hash
    pub compared : r.stale ≡ not (str_eq r.current_hash indexed)

  -- Where the answered hash comes from.
  abbrev Source : ℕ → Option (String × Bool) → Type 0
  Source now none = Unit
  Source now (some (h, d)) = (t : ℕ) × (now - t < stale_cache_ttl) × (hash_at t ≡ some h)

  computed-Source :
      (now : ℕ) (o : Option String) (c : StalenessChecker)
      → hash_at now ≡ o
      → Source now (elim ((compute_now exotic now o c).0) [
        | none ↦ none
        | some h ↦ some (
          (compute_now exotic now o c).1.cache.hash,
          (compute_now exotic now o c).1.cache.degraded,
        )
      ])
  unfolding compute_now
  computed-Source now none c e = tt
  computed-Source now (some h) c e = (now, omega arith, e)

  current_hash-Source :
      (now : ℕ) (c : StalenessChecker)
      → IsHonest c
      → Source now (current_hash exotic now (hash_at now) c).0
  unfolding current_hash is_fresh
  current_hash-Source now c h = elim (Option-cases c.cache.at) [
    | inl empty ↦ rw empty (computed-Source now (hash_at now) c refl)
    | inr (at, full) ↦ elim (Bool-cases (ltb (now - at) stale_cache_ttl)) [
      | inl fresh ↦ rw full (rw fresh (at, ltb→lt (now - at) stale_cache_ttl fresh, h at full))
      | inr old ↦ rw full (rw old (computed-Source now (hash_at now) c refl))
    ]
  ]

  check-IsCurrent :
      (now : ℕ) (indexed : String) (c : StalenessChecker) (r : StaleResult)
      → IsHonest c
      → (check exotic now (hash_at now) indexed c).0 ≡ some r
      → IsCurrent now indexed r
  unfolding check
  check-IsCurrent now indexed c r h e =
      go ((current_hash exotic now (hash_at now) c).0) (current_hash-Source now c h) e
    where
      go :
          (o : Option (String × Bool))
          → Source now o
          → elim o [
            | none ↦ none
            | some (h, degraded) ↦ some (record {
              stale = not (str_eq h indexed);
              indexed_root_hash = indexed;
              current_hash = h;
              degraded = degraded;
            })
          ]
            ≡ some r
          → IsCurrent now indexed r
      go none s p = cc
      go (some (h, d)) (t, recent, right) p =
          let q = some-injective _ _ p in
          subst (λ x. IsCurrent now indexed x) q
            (record { taken = t; recent = recent; true_then = right; compared = refl })

  -- After any calls on a new checker, an answer of `check` is fresh: its hash is the root hash as it
  -- was less than 500 ms before, and `stale` says whether the indexed hash differs from it. A
  -- computation of the hash counts as one instant.
  pub check_is_recent :
      (v : Option String) (os : List Op) (now : ℕ) (indexed : String) (r : StaleResult)
      → (check exotic now (hash_at now) indexed (run os (new_checker v))).0 ≡ some r
      → IsCurrent now indexed r
  unfolding new_checker
  check_is_recent v os now indexed r e =
      check-IsCurrent now indexed (run os (new_checker v)) r
        (run-IsHonest os (new_checker v) (λ at p. cc)) e

same_mtime_iff : (a b : Option ℕ) → (same_mtime a b ≡ true) ↔ (a ≡ b)
same_mtime_iff none none = ground arith
same_mtime_iff none (some n) = ground arith
same_mtime_iff (some m) none = ground arith
same_mtime_iff (some m) (some n) = ground (arith, ==_iff m n)

-- Recorded dirty paths are answered exactly while less than 1 s has passed and the mtime of
-- `.git/index` is the one at the recording.
pub tier2_lookup-record_tier2_result :
    (t now : ℕ) (mtime current : Option ℕ) (paths : List String) (c : StalenessChecker)
    → (tier2_lookup now current (record_tier2_result t mtime paths c) ≡ some paths)
      ↔ ((now - t < tier2_cache_ttl) × (current ≡ mtime))
unfolding tier2_lookup record_tier2_result
tier2_lookup-record_tier2_result t now mtime current paths c =
    ground (arith, same_mtime_iff current mtime)
