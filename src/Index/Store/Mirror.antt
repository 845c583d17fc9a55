-- ===== src/Index/Store/Mirror.antt =====
-- The generation in metadata.json mirrors the row of the table `GraphMeta`.
use graphatlas.Prelude.{ℕ, List, none, some, false, ◌≡◌, inl, inr, arith, ◌<◌, ◌+◌}
use graphatlas.Index.Disk.{Metadata, DbFile, Disk, Env, ok}
use graphatlas.Index.Metadata.{completed, write}
use graphatlas.Index.Lock.{release}
use graphatlas.Index.Generation.{
  Handle, u64_max, next_generation, bump_graph_generation, populate_root_hash, hex_lower,
}
use graphatlas.Index.Store.Open.{Store}
use graphatlas.Index.Store.Commit.{seal_for_serving, write_and_seal, commit_in_place}
use graphatlas.Index.Store.Opening.{saved}
use graphatlas.Index.Store.Committed.{
  bumped, bump_graph_generation-cases, commit_in_place-CommitsAs,
}

write_and_seal-database :
    (env : Env) (s : Store) (m : Metadata) (d : Disk)
    → (write_and_seal env s m d).disk.graph_db ≡ d.graph_db
unfolding write_and_seal seal_for_serving write release
write_and_seal-database env s m d = ground arith

bump_graph_generation-row :
    (env : Env) (m : Metadata) (h : Handle) (d : Disk) (f : DbFile)
    → d.graph_db ≡ some f
    → (bump_graph_generation env m (some h) d).0 ≡ ok (bumped m)
    → (bump_graph_generation env m (some h) d).1.graph_db
      ≡ some (record f { generation_row = some (next_generation m.graph_generation) })
unfolding bump_graph_generation
bump_graph_generation-row env m h d f p q = ground arith

-- A commit that succeeds through an open handle leaves the same generation in the row and in
-- metadata.json, one above the store's (u64 saturates).
pub commit_mirrors :
    (env : Env) (bytes : List ℕ) (s : Store) (h : Handle) (d : Disk) (f : DbFile)
    → s.read_only ≡ false
    → s.db ≡ some h
    → d.graph_db ≡ some f
    → (commit_in_place env (some bytes) s d).result ≡ ok tt
    → let a = commit_in_place env (some bytes) s d in
      (a.disk.metadata_json ≡ some (saved a.store.metadata))
      × (a.store.metadata.graph_generation ≡ next_generation s.metadata.graph_generation)
      × (a.disk.graph_db
          ≡ some (record f { generation_row = some (next_generation s.metadata.graph_generation) }))
unfolding commit_in_place populate_root_hash completed
commit_mirrors env bytes s h d f w p q c =
    let hashed = record s.metadata { indexed_root_hash = hex_lower bytes } in
    let after = bump_graph_generation env hashed (some h) d in
    let done = commit_in_place-CommitsAs env bytes s d w c in
    (
      done.written,
      ground (arith, done.metadata),
      elim (bump_graph_generation-cases env hashed (some h) d) [
        | inl b ↦ ground (
          arith,
          b,
          bump_graph_generation-row env hashed h d f q b,
          write_and_seal-database env s (bumped hashed) after.1,
        )
        | inr (x, b) ↦ ground (arith, b)
      ],
    )

-- A commit through a store without a handle skips the row: where row and mirror agreed, the mirror
-- is now ahead (below the saturation of u64).
pub commit_without_handle_runs_ahead :
    (env : Env) (bytes : List ℕ) (s : Store) (d : Disk) (f : DbFile)
    → s.read_only ≡ false
    → s.db ≡ none
    → d.graph_db ≡ some f
    → f.generation_row ≡ some s.metadata.graph_generation
    → s.metadata.graph_generation < u64_max
    → (commit_in_place env (some bytes) s d).result ≡ ok tt
    → let a = commit_in_place env (some bytes) s d in
      (a.disk.metadata_json ≡ some (saved a.store.metadata))
      × (a.store.metadata.graph_generation ≡ s.metadata.graph_generation + 1)
      × (a.disk.graph_db ≡ some f)
unfolding commit_in_place populate_root_hash completed bump_graph_generation
commit_without_handle_runs_ahead env bytes s d f w p q r lt c =
    let hashed = record s.metadata { indexed_root_hash = hex_lower bytes } in
    let done = commit_in_place-CommitsAs env bytes s d w c in
    (
      done.written,
      ground (arith, done.metadata),
      ground (arith, write_and_seal-database env s (bumped hashed) d),
    )
