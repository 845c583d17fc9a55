-- ===== src/Mcp/Reindex/Healing.antt =====
-- A server whose store is gone gets one again.
use graphatlas.Prelude.{ℕ, List, some, true, false, ◌≡◌, refl, inl, inr, Option-cases}
use graphatlas.Prelude.Assoc.{get}
use graphatlas.Index.Disk.{Disk}
use graphatlas.Index.Store.Open.{Store}
use graphatlas.Index.Store.Prepared.{IsCalm, IsTidy, IsReadable}
use graphatlas.Mcp.Context.{
  Answer, done, McpContext, held_by, try_store, drop_clone, record_reindex_success,
  check_reindex_cooldown, reindex_lock_for,
}
use graphatlas.Mcp.Watcher.{is_bench_fixture_path}
use graphatlas.Mcp.Reindex.{
  ReindexMode, ModeArg, validate_args, indexed, Outside, report, call_locked, call_checked, call,
  Payload, generation_before,
}
use graphatlas.Mcp.Reindex.Calm.{IsServing, IsFree, rebuild_via_calm}

-- The outside does not disturb a reindex: its calls succeed, the lock is free, the indexer succeeds.
pub record IsUndisturbed (o : Outside) : Type 0 where
  pub before : IsCalm o.before.env
  pub during : IsCalm o.during.env
  pub cache_root : o.before.cache_root ≡ o.during.cache_root
  pub repository : (bytes : List ℕ) × (o.digest ≡ some bytes)
  pub indexes : (s : Store) (d : Disk) → (n : ℕ) × ((o.build_index s d).0 ≡ indexed n)

-- A context whose store is gone or free, on a cache that can be opened.
pub record IsRecoverable (o : Outside) (ctx : McpContext) : Type 0 where
  pub tidy : IsTidy o.during.cache_root ctx.disk
  pub readable : IsReadable ctx.disk
  pub free : IsFree ctx
  pub rested : check_reindex_cooldown o.cache_dir o.now ctx ≡ true

-- The call has succeeded, and the cell holds what serves.
abbrev pub Serves : Answer Payload × McpContext → Type 0
Serves (a, ctx) =
    (p : Payload) × (s : Store) × (a ≡ done p)
    × (ctx.store_cell ≡ held_by s 0)
    × IsServing s ctx.disk

report_lem :
    (o : Outside) (mode : ReindexMode) (before n : ℕ) (s : Store) (d : Disk) (ctx : McpContext)
    → IsServing s d
    → Serves (report o mode before (done (n, s), record ctx { store_cell = held_by s 1; disk = d }))
unfolding report drop_clone record_reindex_success
report_lem o mode before n s d ctx fine = rw (fine.own) (_, s, refl, refl, fine)

call_locked_lem :
    (o : Outside) (mode : ReindexMode) (ctx : McpContext)
    → IsUndisturbed o
    → IsRecoverable o ctx
    → Serves (call_locked o mode ctx)
unfolding call_locked
call_locked_lem o mode ctx u r =
    let (bytes, e) = u.repository in
    let (n, s, d, e', fine) =
      rebuild_via_calm o bytes ctx u.before u.during u.cache_root r.tidy r.readable r.free e
        u.indexes in
    rw (r.rested, call_locked)
      (rw e' (report_lem o mode (generation_before (try_store ctx).0) n s d ctx fine))

reindex_lock_for-IsRecoverable :
    (o : Outside) (ctx : McpContext)
    → IsRecoverable o ctx
    → IsRecoverable o (reindex_lock_for o.cache_dir ctx)
unfolding reindex_lock_for check_reindex_cooldown
reindex_lock_for-IsRecoverable o ctx r = elim (Option-cases (get o.cache_dir ctx.reindex_locks)) [
  | inl e ↦
      rw (e, reindex_lock_for)
        (record { tidy = r.tidy; readable = r.readable; free = r.free; rested = r.rested })
  | inr (lock, e) ↦ rw (e, reindex_lock_for) r
]

-- A server heals: whether its cell is empty after a failed rebuild or holds a store that nobody else
-- uses, an undisturbed reindex (with a valid mode, outside the cooldown and the benches, on a cache
-- that can be opened) succeeds, and leaves in the cell a sealed store of its own, whose complete
-- metadata are those on the disk.
pub call-Serves :
    (o : Outside) (args : ModeArg) (mode : ReindexMode) (ctx : McpContext)
    → IsUndisturbed o
    → IsRecoverable o ctx
    → validate_args args ≡ done mode
    → is_bench_fixture_path o.canonical o.path ≡ false
    → Serves (call o args ctx)
unfolding call call_checked
call-Serves o args mode ctx u r e b =
    rw (e, call)
      (rw (b, call_checked)
        (call_locked_lem o mode (reindex_lock_for o.cache_dir ctx) u
          (reindex_lock_for-IsRecoverable o ctx r)))
