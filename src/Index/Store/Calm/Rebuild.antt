-- ===== src/Index/Store/Calm/Rebuild.antt =====
-- A reindex and a commit that nothing disturbs.
use graphatlas.Prelude.{ℕ, String, List, some, false, ◌≡◌, refl, ap, ◌∙◌, inl, inr, arith}
use graphatlas.Index.Disk.{
  Metadata, Disk, Env, ok, write_metadata, open_lock_file, remove_metadata, remove_graph_db,
  open_ro, connect, merge_generation, M, ◌>>=◌, >>=-ok,
}
use graphatlas.Index.CacheDir.{unsafe_root}
use graphatlas.Index.Metadata.{SchemaDecision, write}
use graphatlas.Index.Lock.{
  exclusive, Acquired, acquired, refused, try_acquire, create_lock_file, write_sidecar_in_place,
  release,
}
use graphatlas.Index.Generation.{nuke_cache_files, populate_root_hash, bump_graph_generation}
use graphatlas.Index.Wait.{Peers}
use graphatlas.Index.Store.Open.{
  Store, opened, prepare, open_with_lock, open_read_only, open_with_root_and_schema, drop_store,
}
use graphatlas.Index.Store.Commit.{seal_for_serving, write_and_seal, commit_in_place}
use graphatlas.Index.Store.Reindex.{reindex_with, reindex_in_place}
use graphatlas.Index.Store.Prepared.{
  IsCalm, IsTidy, IsReadable, SameDirs, SameDirs-trans, prepare_calm,
}
use graphatlas.Index.Store.Calm.{open_with_lock_calm, open_with_root_calm}

drop_store-SameDirs : (env : Env) (s : Store) (d : Disk) → SameDirs d (drop_store env s d)
unfolding drop_store release
drop_store-SameDirs env s d = ground arith

try_acquire_calm :
    (env : Env) (g : String) (d : Disk)
    → IsCalm env
    → (d' : Disk) × (try_acquire env g exclusive d ≡ (acquired exclusive, d'))
      × SameDirs d d'
      × (d'.metadata_json ≡ d.metadata_json)
      × (d'.graph_db ≡ d.graph_db)
unfolding try_acquire create_lock_file write_sidecar_in_place
try_acquire_calm env g d c = (
  write_sidecar_in_place env g (create_lock_file d),
  ground (arith, c.oks open_lock_file, c.granted),
  ground arith,
  ground arith,
  ground arith,
)

pub IsTidy-same : (root : List ℕ) (d d' : Disk) → IsTidy root d → SameDirs d d' → IsTidy root d'
IsTidy-same root d d' t same = record {
  path = t.path;
  root_mode = rw (same.0) (t.root_mode);
  dir_mode = rw (same.1) (t.dir_mode);
}

nuke-IsReadable : (env : Env) (d : Disk) → IsCalm env → IsReadable (nuke_cache_files env d)
unfolding nuke_cache_files
nuke-IsReadable env d c = record {
  metadata = inl (ground (arith, c.oks remove_metadata));
  database = inl (ground (arith, c.oks remove_graph_db));
}

nuke-SameDirs : (env : Env) (d : Disk) → SameDirs d (nuke_cache_files env d)
unfolding nuke_cache_files
nuke-SameDirs env d = (refl, refl)

-- A reindex that nothing disturbs opens a store for writing.
pub reindex_calm :
    (env : Env) (peers : Peers) (budget : ℕ) (root : List ℕ) (repo : String) (s : Store) (d : Disk)
    → IsCalm env
    → IsTidy root d
    → (x : SchemaDecision × Metadata) × (d' : Disk) × (reindex_in_place env peers budget root repo s
          d
        ≡ (ok (opened x.0 x.1 exclusive), d'))
unfolding reindex_in_place reindex_with
reindex_calm env peers budget root repo s d c t =
    let dropped = drop_store env s d in
    let (d₁, e₁, same, _, _) = try_acquire_calm env "reindex" dropped c in
    let nuked = nuke_cache_files env d₁ in
    let same₂ =
      SameDirs-trans d dropped nuked (drop_store-SameDirs env s d)
        (SameDirs-trans dropped d₁ nuked same (nuke-SameDirs env d₁)) in
    let (x, d₂, e₂, _) =
      open_with_root_calm env root repo s.metadata.schema_version exclusive nuked c
        (IsTidy-same root d nuked t same₂) (nuke-IsReadable env d₁ c) in
    (
      x,
      d₂,
      ap
            (λ (g : Acquired × Disk).
              reindex_with env peers budget root repo s.metadata.schema_version g.0 g.1)
            e₁
          ∙ e₂,
    )

-- An open that nothing disturbs, of files that can be read, opens a store for writing.
pub open_calm :
    (env : Env) (peers : Peers) (budget : ℕ) (root : List ℕ) (repo : String) (binary : ℕ) (d : Disk)
    → IsCalm env
    → IsTidy root d
    → IsReadable d
    → (x : SchemaDecision × Metadata) × (d' : Disk) × (open_with_root_and_schema env peers budget
          root repo binary d
        ≡ (ok (opened x.0 x.1 exclusive), d'))
      × IsTidy root d'
unfolding open_with_root_and_schema unsafe_root
open_calm env peers budget root repo binary d c t r =
    let (d₁, e₁, (dir, top, j, g)) = prepare_calm env root d c t in
    let (d₂, e₂, same₂, j₂, g₂) = try_acquire_calm env "probe" d₁ c in
    let r₂ : IsReadable d₂ = record {
      metadata = rw (j₂ ∙ j) r.metadata;
      database = rw (g₂ ∙ g) r.database;
    } in
    let (x, d₃, e₃, same₃) = open_with_lock_calm env repo binary exclusive d₂ c r₂ in
    let same = SameDirs-trans d₁ d₂ d₃ same₂ same₃ in
    (
      x,
      d₃,
      >>=-ok (prepare env root) (λ _. probe >>= next) d e₁
          ∙ >>=-ok probe next d₁ (ap (λ (p : Acquired × Disk). (ok p.0, p.1)) e₂)
          ∙ e₃,
      record { path = t.path; root_mode = rw (same.0 ∙ top) refl; dir_mode = inr (same.1 ∙ dir) },
    )
  where
    probe : M Acquired
    probe d' = let (got, d'') = try_acquire env "probe" exclusive d' in (ok got, d'')

    next : Acquired → M Store
    next got = elim got [
      | acquired lock ↦ open_with_lock env repo binary lock
      | refused _ ↦ open_read_only env peers budget binary
    ]

-- A commit that nothing disturbs, of a store that writes, succeeds.
pub commit_calm :
    (env : Env) (bytes : List ℕ) (s : Store) (d : Disk)
    → IsCalm env
    → s.read_only ≡ false
    → (commit_in_place env (some bytes) s d).result ≡ ok tt
unfolding commit_in_place populate_root_hash bump_graph_generation write_and_seal seal_for_serving
    write
commit_calm env bytes s d c w =
    ground (arith, w, c.oks connect, c.oks merge_generation, c.oks write_metadata, c.oks open_ro)

pub seal_calm :
    (env : Env) (s : Store) (d : Disk) → IsCalm env → SameDirs d (seal_for_serving env s d).disk
unfolding seal_for_serving release
seal_calm env s d c = ground (arith, c.oks open_ro)
