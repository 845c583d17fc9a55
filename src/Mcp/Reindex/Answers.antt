-- ===== src/Mcp/Reindex/Answers.antt =====
-- What the rebuilds leave alone, and when they count as one.
use graphatlas.Prelude.{
  ℕ, ◌==◌, suc, String, false, ◌≡◌, ◌≢◌, refl, ◌∙◌, inl, inr, arith, Option-cases, Bool-cases,
  if-cases, not,
}
use graphatlas.Prelude.Assoc.{Assoc, insert}
use graphatlas.Index.Disk.{Disk, Env, Result, ok, err}
use graphatlas.Index.Store.Open.{Store}
use graphatlas.Mcp.Context.{
  Answer, done, failed, McpContext, Site, Rebuilt, rebuilt, broke, held_by, reopened,
  open_from_disk, settle, rebuild_opened, rebuild_via, refresh_if_stale, drop_clone, try_store,
  record_reindex_success, check_reindex_cooldown, reindex_lock_for, store_busy, busy_signature,
}
use graphatlas.Mcp.Watcher.{is_bench_fixture_path}
use graphatlas.Mcp.Reindex.{
  ReindexMode, ModeArg, validate_args, Outside, is_attached, rebuild, Payload, generation_before,
  report, call_locked, call_checked, call, dispatch_reindex,
}

reindex_lock_for_lem :
    (dir : String) (ctx : McpContext)
    → let ctx' = reindex_lock_for dir ctx in
      (ctx'.store_cell ≡ ctx.store_cell)
      × (ctx'.disk ≡ ctx.disk)
      × (ctx'.last_reindex_at ≡ ctx.last_reindex_at)
unfolding reindex_lock_for
reindex_lock_for_lem dir ctx = ground arith

rebuild_via-shared :
    (at after : Site) (f : Store → Disk → Rebuilt × Disk) (ctx : McpContext) (s : Store) (n : ℕ)
    → ctx.store_cell ≡ held_by s (suc n)
    → rebuild_via at after f ctx ≡ (failed store_busy, ctx)
unfolding rebuild_via
rebuild_via-shared at after f ctx s n h = ground (arith, h)

-- The cell and the disk are as they were.
abbrev pub Untouched : McpContext → McpContext → Type 0
Untouched ctx ctx' = (ctx'.store_cell ≡ ctx.store_cell) × (ctx'.disk ≡ ctx.disk)

call-shared :
    (o : Outside) (args : ModeArg) (ctx : McpContext) (s : Store) (n : ℕ)
    → ctx.store_cell ≡ held_by s (suc n)
    → Untouched ctx (call o args ctx).1 × ((p : Payload) → (call o args ctx).0 ≢ done p)
unfolding call call_checked call_locked report
call-shared o args ctx s n h =
    let ctx₁ = reindex_lock_for o.cache_dir ctx in
    let l = reindex_lock_for_lem o.cache_dir ctx in
    let busy = rebuild_via-shared o.before o.after (rebuild o) ctx₁ s n (l.0 ∙ h) in
    (ground (arith, l, busy), λ p e. ground (arith, l, busy))

dispatch_reindex-shared :
    (o : Outside) (ctx : McpContext) (s : Store) (n : ℕ)
    → ctx.store_cell ≡ held_by s (suc n)
    → Untouched ctx (dispatch_reindex o ctx).1
unfolding dispatch_reindex
dispatch_reindex-shared o ctx s n h =
    let ctx₁ = reindex_lock_for o.cache_dir ctx in
    let l = reindex_lock_for_lem o.cache_dir ctx in
    let busy = rebuild_via-shared o.before o.after (rebuild o) ctx₁ s n (l.0 ∙ h) in
    ground (arith, l, busy)

refresh_if_stale-shared :
    (env : Env) (ctx : McpContext) (s : Store) (n : ℕ)
    → ctx.store_cell ≡ held_by s (suc n)
    → refresh_if_stale env ctx ≡ (false, ctx)
unfolding refresh_if_stale
refresh_if_stale-shared env ctx s n h = ground (arith, h)

-- A store that a tool call still uses is not taken from it: neither the tool `ga_reindex`, which then
-- reports an error, nor the watcher's reindex nor a refresh changes the cell or the disk.
pub shared_store_stays :
    (o : Outside) (args : ModeArg) (env : Env) (ctx : McpContext) (s : Store) (n : ℕ)
    → ctx.store_cell ≡ held_by s (suc n)
    → Untouched ctx (call o args ctx).1
      × ((p : Payload) → (call o args ctx).0 ≢ done p)
      × Untouched ctx (dispatch_reindex o ctx).1
      × (refresh_if_stale env ctx ≡ (false, ctx))
shared_store_stays o args env ctx s n h =
    let (untouched, refused) = call-shared o args ctx s n h in
    (untouched, refused, dispatch_reindex-shared o ctx s n h, refresh_if_stale-shared env ctx s n h)

-- The cooldowns after a rebuild are those before, and what it returns is in the cell.
abbrev Ends : Assoc ℕ → Answer (ℕ × Store) × McpContext → Type 0
Ends last (failed e, ctx') = ctx'.last_reindex_at ≡ last
Ends last (done (n, s), ctx') = (ctx'.last_reindex_at ≡ last) × (ctx'.store_cell ≡ held_by s 1)

reopened-last_reindex_at :
    (ctx : McpContext) (r : Result Store × Disk)
    → (reopened ctx r).last_reindex_at ≡ ctx.last_reindex_at
reopened-last_reindex_at ctx (ok s, d) = refl
reopened-last_reindex_at ctx (err e, d) = refl

settle-Ends :
    (at : Site) (ctx : McpContext) (r : Rebuilt × Disk) → Ends ctx.last_reindex_at (settle at ctx r)
unfolding settle
settle-Ends at ctx (rebuilt n s, d) = (refl, refl)
settle-Ends at ctx (broke message, d) =
    if-cases (Ends ctx.last_reindex_at) (busy_signature message)
      (λ _. reopened-last_reindex_at ctx (open_from_disk at d)) (λ _. refl)

rebuild_opened-Ends :
    (after : Site) (f : Store → Disk → Rebuilt × Disk) (ctx : McpContext) (r : Result Store × Disk)
    → Ends ctx.last_reindex_at (rebuild_opened after f ctx r)
unfolding rebuild_opened
rebuild_opened-Ends after f ctx (err e, d) = refl
rebuild_opened-Ends after f ctx (ok s, d) = settle-Ends after ctx (f s d)

rebuild_via-Ends :
    (at after : Site) (f : Store → Disk → Rebuilt × Disk) (ctx : McpContext)
    → Ends ctx.last_reindex_at (rebuild_via at after f ctx)
unfolding rebuild_via
rebuild_via-Ends at after f ctx = elim (Option-cases (ctx.store_cell)) [
  | inl e ↦ rw (e, rebuild_via) (rebuild_opened-Ends after f ctx (open_from_disk at ctx.disk))
  | inr (sh, e) ↦
      rw (e, rebuild_via)
        (if-cases (Ends ctx.last_reindex_at) (sh.clones == 0)
          (λ _. settle-Ends after ctx (f sh.store ctx.disk)) (λ _. refl))
]

-- What an answer of the tool says of the server: a failure starts no cooldown; a success does, and its
-- store, which is not one that was only attached, is in the cell, free, with the new generation.
abbrev pub Records : Outside → Assoc ℕ → Answer Payload × McpContext → Type 0
Records o last (failed e, ctx') = ctx'.last_reindex_at ≡ last
Records o last (done p, ctx') =
    (ctx'.last_reindex_at ≡ insert o.cache_dir o.ended_at last)
    × ((s : Store) × (ctx'.store_cell ≡ held_by s 0)
        × (is_attached s.outcome ≡ false)
        × (p.graph_generation_after ≡ s.metadata.graph_generation))

report-Records :
    (o : Outside) (mode : ReindexMode) (before : ℕ) (last : Assoc ℕ)
    (r : Answer (ℕ × Store) × McpContext)
    → Ends last r
    → Records o last (report o mode before r)
unfolding report drop_clone record_reindex_success
report-Records o mode before last (failed e, ctx') h = h
report-Records o mode before last (done (n, s), ctx') h =
    elim (Bool-cases (is_attached s.outcome)) [
      | inl a ↦ rw a (ground (arith, h.0, h.1))
      | inr own ↦ rw own (rw (h.1) (rw (h.0) (refl, (s, refl, own, refl))))
    ]

call_locked-Records :
    (o : Outside) (mode : ReindexMode) (ctx : McpContext) (last : Assoc ℕ)
    → ctx.last_reindex_at ≡ last
    → Records o last (call_locked o mode ctx)
unfolding call_locked
call_locked-Records o mode ctx last e = rw (← e) (
    if-cases (Records o ctx.last_reindex_at) (not (check_reindex_cooldown o.cache_dir o.now ctx))
      (λ _. refl)
      (λ _.
        report-Records o mode (generation_before (try_store ctx).0) ctx.last_reindex_at _
          (rebuild_via-Ends o.before o.after (rebuild o) ctx)))

call_checked-Records :
    (o : Outside) (ctx : McpContext) (mode : Answer ReindexMode)
    → Records o ctx.last_reindex_at (call_checked o ctx mode)
unfolding call_checked
call_checked-Records o ctx (failed e) = refl
call_checked-Records o ctx (done mode) =
    if-cases (Records o ctx.last_reindex_at) (is_bench_fixture_path o.canonical o.path) (λ _. refl)
      (λ _.
        call_locked-Records o mode (reindex_lock_for o.cache_dir ctx) ctx.last_reindex_at
          (reindex_lock_for_lem o.cache_dir ctx).2)

-- Every answer of `ga_reindex` is true of the server: a failure, an attach to a peer's build included,
-- starts no cooldown; a success starts one when it ends, and the cell holds a free store of the
-- reported generation that the server did not only attach to.
pub call-Records :
    (o : Outside) (args : ModeArg) (ctx : McpContext)
    → Records o ctx.last_reindex_at (call o args ctx)
unfolding call
call-Records o args ctx = call_checked-Records o ctx (validate_args args)
