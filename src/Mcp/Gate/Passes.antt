-- ===== src/Mcp/Gate/Passes.antt =====
-- What a tool call that passes the gate may rely on.
use graphatlas.Prelude.{
  ℕ, ◌-◌, ◌<◌, String, str_eq, str_eq_iff, List, [], ◌∷◌, Option, none, some, true, false, ◌≡◌,
  refl, ap, ◌∙◌, ◌⊎◌, inl, inr, arith, Bool-cases, Option-cases,
}
use graphatlas.Parser.Staleness.{
  stale_cache_ttl, tier2_cache_ttl, StaleResult, StalenessChecker, new_checker, check, same_mtime,
  tier2_lookup,
}
use graphatlas.Parser.Freshness.{Op, run, check_is_recent}
use graphatlas.Mcp.Context.{McpContext, Shared}
use graphatlas.Mcp.Gate.{
  Probe, dispatched, decode_root_hash, tier2_dirty_paths_with_cache, if_clean, gate_checked, gate,
}

-- The cached answer of the second tier holds no path, is less than 1 s old, and stands for the same
-- index of git.
pub record IsCachedClean (p : Probe) (c : StalenessChecker) : Type 0 where
  pub taken : ℕ
  pub recorded : c.tier2_cache.at ≡ some taken
  pub recent : p.now - taken < tier2_cache_ttl
  pub same_index : same_mtime p.mtime c.tier2_cache.git_index_mtime_ns ≡ true
  pub no_path : c.tier2_cache.dirty_paths ≡ []

-- No dirty path is known: by the cache, or where it has no answer by the walk, which may fail.
abbrev pub IsClean : Probe → StalenessChecker → Type 0
IsClean p c =
    (c.tier2_disabled ≡ true)
    ⊎ (IsCachedClean p c
        ⊎ ((tier2_lookup p.now p.mtime c ≡ none)
            × ((p.dirty_paths ≡ some []) ⊎ (p.dirty_paths ≡ none))))

if_clean-none : (l : List String) (c : StalenessChecker) → (if_clean (l, c)).0 ≡ dispatched → l ≡ []
if_clean-none [] c h = refl
if_clean-none (x ∷ l) c h = cc

lookup-IsCachedClean :
    (p : Probe) (c : StalenessChecker) → tier2_lookup p.now p.mtime c ≡ some [] → IsCachedClean p c
unfolding tier2_lookup
lookup-IsCachedClean p c h = elim (Option-cases c.tier2_cache.at) [
  | inl e ↦ absurd (ground (arith, e, h))
  | inr (at, e) ↦ record {
    taken = at;
    recorded = e;
    recent = ground (arith, e, h);
    same_index = ground (arith, e, h);
    no_path = ground (arith, e, h);
  }
]

tier2-IsClean :
    (p : Probe) (ctx : McpContext) (sh : Shared) (c : StalenessChecker)
    → ctx.store_cell ≡ some sh
    → (if_clean (tier2_dirty_paths_with_cache p ctx c)).0 ≡ dispatched
    → IsClean p c
unfolding tier2_dirty_paths_with_cache
tier2-IsClean p ctx sh c s h = elim (Option-cases (tier2_lookup p.now p.mtime c)) [
  | inr (l, e) ↦
      let empty = if_clean-none l c (rw (tier2_dirty_paths_with_cache, e) at h) in
      inr (inl (lookup-IsCachedClean p c (e ∙ ap some empty)))
  | inl e ↦ elim (Option-cases p.dirty_paths) [
    | inl w ↦ inr (inr (e, inr w))
    | inr (l, w) ↦
        let empty = if_clean-none l _ (rw (tier2_dirty_paths_with_cache, e, s, w) at h) in
        inr (inr (e, inl (w ∙ ap some empty)))
  ]
]

gate_checked-fresh :
    (p : Probe) (ctx : McpContext) (sh : Shared) (a : Option StaleResult × StalenessChecker)
    → ctx.store_cell ≡ some sh
    → (gate_checked p false ctx a).0 ≡ dispatched
    → (a.0 ≡ none)
      ⊎ ((r : StaleResult) × (a.0 ≡ some r)
          × ((r.degraded ≡ true) ⊎ ((r.stale ≡ false) × IsClean p a.1)))
unfolding gate_checked
gate_checked-fresh p ctx sh (none, c) s h = inl refl
gate_checked-fresh p ctx sh (some r, c) s h = elim (Bool-cases r.degraded) [
  | inl d ↦ inr (r, refl, inl d)
  | inr d ↦ elim (Bool-cases r.stale) [
    | inl t ↦ absurd (stale_is_refused d t)
    | inr t ↦ elim (Bool-cases c.tier2_disabled) [
      | inl off ↦ inr (r, refl, inr (t, inl off))
      | inr on ↦ inr (r, refl, inr (t, tier2-IsClean p ctx sh c s (ground (arith, h, d, t, on))))
    ]
  ]
]
  where
    stale_is_refused : r.degraded ≡ false → r.stale ≡ true → ⊥
    stale_is_refused d t = let refused = rw (gate_checked, d, t) at h in cc

-- A tool call that asks for no stale answers passes the gate of a server with a store, whose root hash
-- can be decoded, only if the repository's hash cannot be computed or the file system is not to be
-- trusted, or if the hash was the indexed one less than 500 ms before, and the second tier is switched
-- off or knows of no dirty path: an answer less than 1 s old, for the same index of git, or else the
-- walk names none, or it fails. It is so whatever was asked of the checker before. `ga_reindex` passes
-- always and is left out.
pub passes_only_fresh :
    (p : Probe) (name : String) (ctx : McpContext) (sh : Shared) (bytes : List ℕ)
    (v : Option String) (os : List Op) (hash_at : ℕ → Option String)
    → p.computed ≡ hash_at p.now
    → str_eq name "ga_reindex" ≡ false
    → ctx.store_cell ≡ some sh
    → decode_root_hash sh.store.metadata.indexed_root_hash ≡ some bytes
    → let c = run p.exotic hash_at os (new_checker v) in
      (gate p name false ctx c).0 ≡ dispatched
      → let answer = (check p.exotic p.now p.computed (p.text bytes) c).0 in
        (answer ≡ none)
        ⊎ ((r : StaleResult) × (answer ≡ some r)
            × ((r.degraded ≡ true)
                ⊎ (((taken : ℕ) × (p.now - taken < stale_cache_ttl)
                      × (hash_at taken ≡ some (p.text bytes)))
                    × IsClean p
                        (check p.exotic p.now p.computed
                          (p.text bytes)
                          (run p.exotic hash_at os (new_checker v))).1)))
unfolding gate
passes_only_fresh p name ctx sh bytes v os hash_at e n s d h =
    let c = run p.exotic hash_at os (new_checker v) in
    let answer = check p.exotic p.now p.computed (p.text bytes) c in
    elim (gate_checked-fresh p ctx sh answer s (ground (arith, h, n, s, d))) [
      | inl none_computed ↦ inl none_computed
      | inr (r, is, inl untrusted) ↦ inr (r, is, inl untrusted)
      | inr (r, is, inr (fresh, clean)) ↦
          let current =
            check_is_recent p.exotic hash_at v os p.now (p.text bytes) r (rw (← e) is) in
          inr (
            r,
            is,
            inr (
              (
                current.taken,
                current.recent,
                ground (
                  arith,
                  current.true_then,
                  current.compared,
                  fresh,
                  str_eq_iff r.current_hash (p.text bytes),
                ),
              ),
              clean,
            ),
          )
    ]
