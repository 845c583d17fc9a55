-- ===== src/Index/Store/Reindex.antt =====
-- `Store::reindex_in_place`: surrender the store, take the lock, remove the cache, open afresh.
use graphatlas.Prelude.{ℕ, String, List}
use graphatlas.Index.Disk.{Env, M, ok, err, other, lock_io, reattach_failed}
use graphatlas.Index.Lock.{
  LockMode, exclusive, Acquired, acquired, refused, LockError, held, try_acquire,
}
use graphatlas.Index.Lock
use graphatlas.Index.Generation.{nuke_cache_files}
use graphatlas.Index.Wait.{Peers}
use graphatlas.Index.Store.Open.{
  Store, drop_store, open_read_only, open_with_root_and_schema_with_lock,
}

-- A peer holds the lock: attach as a reader, and name the peer if that fails too.
unfoldable pub reattach : Env → Peers → ℕ → ℕ → ℕ → String → M Store
reattach env peers budget binary pid hostname d =
    elim ((open_read_only env peers budget binary d).0) [
      | ok s ↦ (ok s, (open_read_only env peers budget binary d).1)
      | err _ ↦
          (err (other (reattach_failed pid hostname)), (open_read_only env peers budget binary d).1)
    ]

-- After the lock was tried. The files go only under the lock.
unfoldable pub reindex_with : Env → Peers → ℕ → List ℕ → String → ℕ → Acquired → M Store
reindex_with env peers budget cache_root repo_root binary (acquired lock) d =
    open_with_root_and_schema_with_lock env cache_root repo_root binary lock
      (nuke_cache_files env d)
reindex_with env peers budget cache_root repo_root binary (refused (held pid hostname since)) d =
    reattach env peers budget binary pid hostname d
reindex_with env peers budget cache_root repo_root binary (refused Lock.lock_io) d =
    (err (other lock_io), d)

unfoldable pub reindex_in_place : Env → Peers → ℕ → List ℕ → String → Store → M Store
unfolding reindex_with
reindex_in_place env peers budget cache_root repo_root s d =
    let (got, d') = try_acquire env "reindex" exclusive (drop_store env s d) in
    reindex_with env peers budget cache_root repo_root s.metadata.schema_version got d'
