-- ===== src/Index/Store/Calm.antt =====
-- Where every call out succeeds, the lock is free and the cache directory is sound, the store's
-- operations succeed.
pub mod Rebuild
use graphatlas.Prelude.{
  ℕ, String, List, Option, none, some, true, false, ◌≡◌, refl, ap, ◌∙◌, ◌⊎◌, inl, inr, arith,
  Option-cases,
}
use graphatlas.Core.{IndexState, building, complete}
use graphatlas.Index.Disk.{
  Metadata, Disk, Env, SysCall, granted, ok, err, DbFile, Result, M, ◌>>=◌, ◌>>◌, return, >>=-ok,
}
use graphatlas.Index.Disk.{
  create_cache_root, create_cache_dir, read_metadata, write_metadata, open_lock_file, write_sidecar,
  remove_metadata, remove_graph_db, open_rw, open_ro, connect, run_ddl, merge_generation,
  chmod_graph_db,
}
use graphatlas.Index.CacheDir.{
  unsafe_path, unsafe_root, validate_cache_dir_override, ensure_cache_root, verify_dir_perms,
  ensure_dir, verify_file_perms,
}
use graphatlas.Index.Metadata.{
  SchemaDecision, no_cache, match, mismatch, crashed_building, cold_load, parsed, load_from,
  decide_schema, begin_indexing_with_schema, write, new_building,
}
use graphatlas.Index.Lock.{
  LockMode, exclusive, acquired, try_acquire, update_sidecar, write_sidecar_in_place, release,
  create_lock_file,
}
use graphatlas.Index.Generation.{nuke_cache_files, populate_root_hash, bump_graph_generation}
use graphatlas.Index.Wait.{Peers}
use graphatlas.Index.Store.Open.{
  Store, nuke_if_rebuild, metadata_for, verify_graph_db, create_graph_db, open_rw_db,
  clamp_graph_db, open_db, open_body, opened, open_with_lock, prepare, open_with_root_and_schema,
  open_with_root_and_schema_with_lock, drop_store,
}
use graphatlas.Index.Store.Commit.{After, seal_for_serving, write_and_seal, commit_in_place}
use graphatlas.Index.Store.Reindex.{reindex_with, reindex_in_place}
use graphatlas.Index.Store.Prepared.{
  IsCalm, IsTidy, IsReadable, IsPrepared, SameDirs, SameDirs-trans, prepare_calm,
}

cold_load_calm :
    (env : Env) (binary : ℕ) (d : Disk)
    → IsCalm env
    → IsReadable d
    → (x : SchemaDecision) × (cold_load env binary d ≡ (ok x, d))
unfolding cold_load load_from parsed verify_file_perms
cold_load_calm env binary d c r = elim (r.metadata) [
  | inl e ↦ (no_cache, ground (arith, e))
  | inr (m, e) ↦ (decide_schema binary m, ground (arith, e, c.oks read_metadata))
]

-- A graph.db that an open accepts.
abbrev IsOpenable : Disk → Type 0
IsOpenable d = (d.graph_db ≡ none) ⊎ ((f : DbFile) × (d.graph_db ≡ some f) × (f.mode ≡ 0o600))

begin_calm :
    (env : Env) (repo : String) (binary : ℕ) (d : Disk)
    → IsCalm env
    → begin_indexing_with_schema env repo binary d ≡ (
      ok (new_building env repo binary),
      record d {
        metadata_json = some (record { mode = 0o600; body = some (new_building env repo binary) });
      },
    )
unfolding begin_indexing_with_schema write
begin_calm env repo binary d c = rw (c.oks write_metadata) refl

metadata_for_calm :
    (env : Env) (repo : String) (binary : ℕ) (x : SchemaDecision) (d : Disk)
    → IsCalm env
    → (m : Metadata) × (d' : Disk) × (metadata_for env repo binary x d ≡ (ok m, d'))
      × (d'.graph_db ≡ d.graph_db)
      × (SameDirs d d')
unfolding metadata_for
metadata_for_calm env repo binary no_cache d c =
    (_, _, begin_calm env repo binary d c, refl, (refl, refl))
metadata_for_calm env repo binary (match m) d c = (m, d, refl, refl, (refl, refl))
metadata_for_calm env repo binary (mismatch _ _) d c =
    (_, _, begin_calm env repo binary d c, refl, (refl, refl))
metadata_for_calm env repo binary (crashed_building _) d c =
    (_, _, begin_calm env repo binary d c, refl, (refl, refl))

nuke-IsOpenable :
    (env : Env) (x : SchemaDecision) (d : Disk)
    → IsCalm env
    → IsOpenable d
    → IsOpenable (nuke_if_rebuild env x d)
unfolding nuke_if_rebuild nuke_cache_files
nuke-IsOpenable env no_cache d c o = o
nuke-IsOpenable env (match _) d c o = o
nuke-IsOpenable env (mismatch _ _) d c o = inl (ground (arith, c.oks remove_graph_db))
nuke-IsOpenable env (crashed_building _) d c o = inl (ground (arith, c.oks remove_graph_db))

open_db_calm :
    (env : Env) (d : Disk)
    → IsCalm env
    → IsOpenable d
    → (d' : Disk) × (open_db env d ≡ (ok tt, d')) × SameDirs d d'
unfolding open_db verify_graph_db verify_file_perms open_rw_db create_graph_db clamp_graph_db
open_db_calm env d c (inl e) = (
  record d { graph_db = some (record { mode = 0o600; generation_row = none }) },
  ground (arith, e, c.oks open_rw, c.oks chmod_graph_db, c.oks connect, c.oks run_ddl),
  (refl, refl),
)
open_db_calm env d c (inr (f, e, m)) = (
  record d { graph_db = some (record f { mode = 0o600 }) },
  ground (arith, e, m, c.oks open_rw, c.oks chmod_graph_db, c.oks connect, c.oks run_ddl),
  (refl, refl),
)

nuke_if_rebuild-SameDirs :
    (env : Env) (x : SchemaDecision) (d : Disk) → SameDirs d (nuke_if_rebuild env x d)
unfolding nuke_if_rebuild nuke_cache_files
nuke_if_rebuild-SameDirs env no_cache d = (refl, refl)
nuke_if_rebuild-SameDirs env (match _) d = (refl, refl)
nuke_if_rebuild-SameDirs env (mismatch _ _) d = (refl, refl)
nuke_if_rebuild-SameDirs env (crashed_building _) d = (refl, refl)

update_sidecar-SameDirs :
    (env : Env) (g : String) (lock : LockMode) (d : Disk) → SameDirs d (update_sidecar env g lock d)
unfolding update_sidecar write_sidecar_in_place
update_sidecar-SameDirs env g lock d = ground arith

abbrev after_load : Env → String → ℕ → SchemaDecision → M (SchemaDecision × Metadata)
after_load env repo binary x d =
    (metadata_for env repo binary x >>= λ m. open_db env >> return (x, m)) (nuke_if_rebuild env x d)

open_body_calm :
    (env : Env) (repo : String) (binary : ℕ) (d : Disk)
    → IsCalm env
    → IsReadable d
    → (x : SchemaDecision × Metadata) × (d' : Disk) × (open_body env repo binary d ≡ (ok x, d'))
      × SameDirs d d'
unfolding open_body
open_body_calm env repo binary d c r =
    let (x, e) = cold_load_calm env binary d c r in
    let (m, d₁, e₁, g, same) = metadata_for_calm env repo binary x (nuke_if_rebuild env x d) c in
    let o : IsOpenable d₁ = rw g (nuke-IsOpenable env x d c r.database) in
    let (d₂, e₂, same') = open_db_calm env d₁ c o in
    (
      (x, m),
      d₂,
      >>=-ok (cold_load env binary) (after_load env repo binary) d e
          ∙ >>=-ok (metadata_for env repo binary x) (λ m. open_db env >> return (x, m))
              (nuke_if_rebuild env x d) e₁
          ∙ >>=-ok (open_db env) (λ _. return (x, m)) d₁ e₂,
      SameDirs-trans d (nuke_if_rebuild env x d) d₂ (nuke_if_rebuild-SameDirs env x d)
          (SameDirs-trans (nuke_if_rebuild env x d) d₁ d₂ same same'),
    )

pub open_with_lock_calm :
    (env : Env) (repo : String) (binary : ℕ) (lock : LockMode) (d : Disk)
    → IsCalm env
    → IsReadable d
    → (x : SchemaDecision × Metadata) × (d' : Disk) × (open_with_lock env repo binary lock d
        ≡ (ok (opened x.0 x.1 lock), d'))
      × SameDirs d d'
unfolding open_with_lock
open_with_lock_calm env repo binary lock d c r =
    let (x, d', e, same) = open_body_calm env repo binary d c r in
    (
      x,
      update_sidecar env x.1.index_generation lock d',
      ap
          (λ (r : Result (SchemaDecision × Metadata) × Disk).
            elim (r.0) as (λ _. Result Store × Disk) [
              | ok made ↦ (
                ok (opened made.0 made.1 lock),
                update_sidecar env made.1.index_generation lock r.1,
              )
              | err y ↦ (err y, release env lock r.1)
            ])
          e,
      SameDirs-trans d d' (update_sidecar env x.1.index_generation lock d') same
          (update_sidecar-SameDirs env x.1.index_generation lock d'),
    )

-- An open under the lock that begins at the directories.
pub open_with_root_calm :
    (env : Env) (root : List ℕ) (repo : String) (binary : ℕ) (lock : LockMode) (d : Disk)
    → IsCalm env
    → IsTidy root d
    → IsReadable d
    → (x : SchemaDecision × Metadata) × (d' : Disk) × (open_with_root_and_schema_with_lock env root
          repo binary lock d
        ≡ (ok (opened x.0 x.1 lock), d'))
      × IsTidy root d'
unfolding open_with_root_and_schema_with_lock unsafe_root
open_with_root_calm env root repo binary lock d c t r =
    let (d₁, e₁, (dir, top, j, g)) = prepare_calm env root d c t in
    let r₁ : IsReadable d₁ = record { metadata = rw j r.metadata; database = rw g r.database } in
    let (x, d₂, e₂, same) = open_with_lock_calm env repo binary lock d₁ c r₁ in
    (
      x,
      d₂,
      ap
            (λ (r : Result (Unit {0}) × Disk). elim (r.0) as (λ _. Result Store × Disk) [
              | ok _ ↦ open_with_lock env repo binary lock r.1
              | err y ↦ (err y, release env lock r.1)
            ])
            e₁
          ∙ e₂,
      record {
        path = t.path;
        root_mode = ground (arith, same.0, top);
        dir_mode = inr (same.1 ∙ dir);
      },
    )
