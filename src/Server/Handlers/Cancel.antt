-- ===== src/Server/Handlers/Cancel.antt =====
-- A cancellation marks the cache, and what ga-index then makes of it.
use graphatlas.Prelude.{
  ℕ, String, List, [], ◌∷◌, Option, none, some, true, false, ◌≡◌, refl, inl, inr, if◌then◌else◌,
  arith, Bool-cases,
}
use graphatlas.Index.Disk.{Disk, Env, MetaFile, Error, err, read_metadata}
use graphatlas.Index.Lock.{LockMode, release}
use graphatlas.Index.Store.Open.{open_with_lock}
use graphatlas.Index.Store.Refusals.{open_with_lock-refuses}
use graphatlas.Server.Cache.{
  Body, typed, marked, loose, other_json, not_json, MetadataJson, CacheDir, Fs, body_of,
  as_meta_file, named, find_cache_dir, change_dir, corrupt, lookup_cache_state, body_state,
  mark_body, is_json, remove_pid_file, mark_metadata_corrupt, apply_cleanup,
}
use graphatlas.Server.Handlers.{cancel_accepted, ServerEnv, AppState, cancel_reindex}

find_cache_dir-change_dir :
    (slug : String) (f : CacheDir → CacheDir) (dirs : List CacheDir) (dir : CacheDir)
    → ((d : CacheDir) → named slug (f d) ≡ named slug d)
    → find_cache_dir slug dirs ≡ some dir
    → find_cache_dir slug (change_dir slug f dirs) ≡ some (f dir)
unfolding find_cache_dir change_dir
find_cache_dir-change_dir slug f [] dir same h = ground arith
find_cache_dir-change_dir slug f (d ∷ dirs) dir same h =
    ground (arith, same d, find_cache_dir-change_dir slug f dirs dir same)

apply_cleanup-named :
    (fs : Fs) (slug : String) (d : CacheDir) → named slug (apply_cleanup fs d) ≡ named slug d
unfolding apply_cleanup named
apply_cleanup-named fs slug d = ground arith

abbrev IsSpoilt : Body → Type 0
IsSpoilt b = (body_of b ≡ none) × (body_state b ≡ corrupt)

mark_body-IsSpoilt : (b : Body) → IsSpoilt (mark_body b)
mark_body-IsSpoilt (typed m) = (refl, refl)
mark_body-IsSpoilt (marked r) = (refl, refl)
mark_body-IsSpoilt (loose r) = (refl, refl)
mark_body-IsSpoilt other_json = (refl, refl)
mark_body-IsSpoilt not_json = (refl, refl)

not_json-IsSpoilt : (b : Body) → is_json b ≡ false → IsSpoilt b
not_json-IsSpoilt (typed m) e = ground (arith, e)
not_json-IsSpoilt (marked r) e = (refl, refl)
not_json-IsSpoilt (loose r) e = (refl, refl)
not_json-IsSpoilt other_json e = (refl, refl)
not_json-IsSpoilt not_json e = (refl, refl)

mark_metadata_corrupt-IsSpoilt :
    (fs : Fs) (dir : CacheDir) (f : MetadataJson)
    → dir.metadata_json ≡ some f
    → fs.reads ≡ true
    → fs.writes ≡ true
    → fs.renames ≡ true
    → (f' : MetadataJson) × ((mark_metadata_corrupt fs dir).metadata_json ≡ some f')
      × IsSpoilt f'.body
unfolding mark_metadata_corrupt
mark_metadata_corrupt-IsSpoilt fs dir f h r w n = elim (Bool-cases (is_json f.body)) [
  | inl j ↦ (
    record { mode = if fs.chmods then 0o600 else fs.created_mode; body = mark_body f.body },
    ground (arith, h, r, w, n, j),
    mark_body-IsSpoilt f.body,
  )
  | inr j ↦ (f, ground (arith, h, r, w, n, j), not_json-IsSpoilt f.body j)
]

-- The file that a clean-up leaves of a readable metadata.json is no metadata any more.
apply_cleanup-IsSpoilt :
    (fs : Fs) (dir : CacheDir) (f : MetadataJson)
    → dir.metadata_json ≡ some f
    → fs.reads ≡ true
    → fs.writes ≡ true
    → fs.renames ≡ true
    → (f' : MetadataJson) × ((apply_cleanup fs dir).metadata_json ≡ some f') × IsSpoilt f'.body
unfolding apply_cleanup remove_pid_file
apply_cleanup-IsSpoilt fs dir f h r w n =
    mark_metadata_corrupt-IsSpoilt fs (remove_pid_file fs dir) f (ground (arith, h)) r w n

-- metadata.json of the slug's directory, as ga-index finds it.
abbrev pub meta_file : String → List CacheDir → Option MetaFile
meta_file slug dirs = elim (find_cache_dir slug dirs) [
  | none ↦ none
  | some dir ↦ elim (dir.metadata_json) [ none ↦ none | some f ↦ some (as_meta_file f) ]
]

module _ {F : Type 0} where
  cancel_reindex-root :
      (env : ServerEnv) (slug id a : String) (s : AppState F)
      → (cancel_reindex env slug id s).0 ≡ cancel_accepted a
      → (cancel_reindex env slug id s).1.root ≡ change_dir slug (apply_cleanup env.fs) s.root
  unfolding cancel_reindex
  cancel_reindex-root env slug id a s p = ground arith

  -- After a cancellation is accepted for a slug whose directory has a metadata.json that the server
  -- can read and replace, the server finds the cache corrupt, and every open of the directory
  -- under the lock, by a process that can read the file, fails and changes nothing but the lock.
  pub cancelled_is_refused :
      (env : ServerEnv) (slug id a : String) (s : AppState F) (dir : CacheDir) (f : MetadataJson)
      (e : Env) (repo : String) (binary : ℕ) (lock : LockMode) (d : Disk)
      → (cancel_reindex env slug id s).0 ≡ cancel_accepted a
      → find_cache_dir slug s.root ≡ some dir
      → dir.metadata_json ≡ some f
      → env.fs.reads ≡ true
      → env.fs.writes ≡ true
      → env.fs.renames ≡ true
      → let root = (cancel_reindex env slug id s).1.root in
        d.metadata_json ≡ meta_file slug root
        → e.ok? read_metadata ≡ true
        → (lookup_cache_state env.fs root slug ≡ corrupt)
          × ((x : Error) × (open_with_lock e repo binary lock d ≡ (err x, release e lock d)))
  unfolding lookup_cache_state
  cancelled_is_refused env slug id a s dir f e repo binary lock d p found h r w n same k =
      let (f', h', spoilt) = apply_cleanup-IsSpoilt env.fs dir f h r w n in
      let found' =
        find_cache_dir-change_dir slug (apply_cleanup env.fs) s.root dir
          (apply_cleanup-named env.fs slug) found in
      let root' = cancel_reindex-root env slug id a s p in
      (
        ground (arith, root', found', h', spoilt, r),
        open_with_lock-refuses e repo binary lock d (as_meta_file f')
            (ground (arith, same, root', found', h')) k (inr spoilt.0),
      )
