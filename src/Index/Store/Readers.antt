-- ===== src/Index/Store/Readers.antt =====
-- Stores that only read: what they may change, and what they notice of the writers beside them.
use graphatlas.Prelude.{ℕ, String, List, Option, none, some, true, false, ◌≡◌, ◌≢◌, arith, ◌≤◌, ◌<◌}
use graphatlas.Index.Disk.{
  Metadata, Disk, Env, read_metadata, ok, err, read_only_store, other, database, open_ro,
}
use graphatlas.Index.Metadata.{load, completed, new_building}
use graphatlas.Index.Generation.{readonly, next_generation}
use graphatlas.Index.Lock.{LockMode}
use graphatlas.Index.Store.Open.{Store, resumed, open_with_lock}
use graphatlas.Index.Store.Commit.{seal_for_serving, commit_in_place, reopen_if_stale}
use graphatlas.Index.Store.Opening.{saved}
use graphatlas.Index.Store.Recovery.{open_with_lock-OpensAs}
use graphatlas.Index.Store.Committed.{commit_in_place-CommitsAs}

-- The methods of a read-only store change nothing on the disk: a commit is refused, a seal is a
-- no-op, and a reopen only reads.
pub read_only_changes_nothing :
    (env : Env) (digest : Option (List ℕ)) (s : Store) (d : Disk)
    → s.read_only ≡ true
    → (commit_in_place env digest s d
        ≡ record { result = err (other read_only_store); store = s; disk = d })
      × (seal_for_serving env s d ≡ record { result = ok tt; store = s; disk = d })
      × ((reopen_if_stale env s d).disk ≡ d)
unfolding commit_in_place seal_for_serving reopen_if_stale
read_only_changes_nothing env digest s d r = (ground (arith, r), ground (arith, r), ground arith)

-- The answers of `reopen_if_stale` on a readable metadata.json, for a read-only store: it opens
-- again exactly if the generation on the disk is the larger, and then it takes the metadata over;
-- if that open fails the store has no handle and keeps its metadata.
pub reopen_if_stale_answers :
    (env : Env) (s : Store) (d : Disk) (m : Metadata)
    → s.read_only ≡ true
    → env.ok? read_metadata ≡ true
    → d.metadata_json ≡ some (saved m)
    → let a = reopen_if_stale env s d in
      (m.graph_generation ≤ s.metadata.graph_generation → (a.result ≡ ok false) × (a.store ≡ s))
      × (s.metadata.graph_generation < m.graph_generation
          → env.ok? open_ro ≡ true
          → (a.result ≡ ok true) × (a.store.metadata ≡ m) × (a.store.db ≡ some readonly))
      × (s.metadata.graph_generation < m.graph_generation
          → env.ok? open_ro ≡ false
          → (a.result ≡ err (database open_ro))
            × (a.store.metadata ≡ s.metadata)
            × (a.store.db ≡ none))
unfolding reopen_if_stale load
reopen_if_stale_answers env s d m r k h = (
  λ le. ground (arith, r, k, h),
  λ lt o. ground (arith, r, k, h),
  λ lt o. ground (arith, r, k, h),
)

-- A rebuild starts its generations at 0 again, so its commit carries generation 1. A reader of any
-- generation from 1 on that can read metadata.json therefore does not open the cache that this commit
-- completes: it answers that nothing changed.
pub rebuild_goes_unnoticed :
    (env env' env'' : Env) (repo : String) (binary : ℕ) (lock : LockMode) (bytes : List ℕ)
    (d d' : Disk) (s reader : Store)
    → open_with_lock env repo binary lock d ≡ (ok s, d')
    → s.outcome ≢ resumed
    → (commit_in_place env' (some bytes) s d').result ≡ ok tt
    → env''.ok? read_metadata ≡ true
    → 1 ≤ reader.metadata.graph_generation
    → let a = reopen_if_stale env'' reader (commit_in_place env' (some bytes) s d').disk in
      (a.result ≡ ok false) × (a.store ≡ reader)
unfolding reopen_if_stale load new_building next_generation completed
rebuild_goes_unnoticed env env' env'' repo binary lock bytes d d' s reader h n c r g =
    let o = open_with_lock-OpensAs env repo binary lock d s d' h in
    let built = o.rebuilds n in
    let done = commit_in_place-CommitsAs env' bytes s d' o.writer.2 c in
    let start : s.metadata.graph_generation ≡ 0 = ground (arith, built.0) in
    let one : (commit_in_place env' (some bytes) s d').store.metadata.graph_generation ≡ 1 =
      ground (arith, done.metadata, start) in
    ground (arith, done.written, one)
