-- ===== src/Index/Store/Committed.antt =====
-- What a commit leaves behind, and who may read it.
use graphatlas.Prelude.{
  ℕ, String, List, Option, none, some, true, false, ◌≡◌, refl, sym, ◌∙◌, ◌⊎◌, inl, inr, arith,
  Bool-cases,
}
use graphatlas.Core.{complete}
use graphatlas.Index.Disk.{
  Metadata, Disk, Env, read_metadata, Error, ok, err, connect, merge_generation, database, open_ro,
}
use graphatlas.Index.Metadata.{match, completed, write}
use graphatlas.Index.Lock.{LockMode, release}
use graphatlas.Index.Generation.{
  Handle, readonly, next_generation, bump_graph_generation, populate_root_hash, hex_lower,
}
use graphatlas.Index.Store.Open.{Store, resumed, outcome_of, open_with_lock}
use graphatlas.Index.Store.Commit.{After, seal_for_serving, write_and_seal, commit_in_place}
use graphatlas.Index.Store.Opening.{saved, IsServable, match-of_IsServable}
use graphatlas.Index.Store.Recovery.{SameFiles, release-SameFiles, open_with_lock-OpensAs}

-- The metadata that a commit with this digest writes.
abbrev pub committed_metadata : Env → List ℕ → Metadata → Metadata
committed_metadata env bytes m = completed env (record m {
  indexed_root_hash = hex_lower bytes;
  graph_generation = next_generation m.graph_generation;
})

pub record CommitsAs (env : Env) (bytes : List ℕ) (s : Store) (a : After (Unit {0})) : Type 0 where
  pub metadata : a.store.metadata ≡ committed_metadata env bytes s.metadata
  pub written : a.disk.metadata_json ≡ some (saved a.store.metadata)
  pub sealed : (a.store.db ≡ some readonly) × (a.store.lock ≡ none) × (a.store.read_only ≡ true)
  pub outcome : a.store.outcome ≡ s.outcome

seal-SameFiles : (env : Env) (s : Store) (d : Disk) → SameFiles d (seal_for_serving env s d).disk
unfolding seal_for_serving
seal-SameFiles env s d =
    ground
      (arith, release-SameFiles env LockMode.exclusive d, release-SameFiles env LockMode.shared d)

write_and_seal-ok :
    (env : Env) (s : Store) (m : Metadata) (d : Disk)
    → s.read_only ≡ false
    → (write_and_seal env s m d).result ≡ ok tt
    → let a = write_and_seal env s m d in
      (a.store.metadata ≡ completed env m)
      × (a.disk.metadata_json ≡ some (saved (completed env m)))
      × (a.store.db ≡ some readonly)
      × (a.store.lock ≡ none)
      × (a.store.read_only ≡ true)
      × (a.store.outcome ≡ s.outcome)
unfolding write_and_seal write release
write_and_seal-ok env s m d w h = ground arith

abbrev pub bumped : Metadata → Metadata
bumped m = record m { graph_generation = next_generation m.graph_generation }

pub bump_graph_generation-cases :
    (env : Env) (m : Metadata) (h : Option Handle) (d : Disk)
    → ((bump_graph_generation env m h d).0 ≡ ok (bumped m))
      ⊎ ((e : Error) × (bump_graph_generation env m h d ≡ (err e, d)))
unfolding bump_graph_generation
bump_graph_generation-cases env m none d = inl refl
bump_graph_generation-cases env m (some h) d = elim (Bool-cases (env.ok? connect)) [
  | inl c ↦ elim (Bool-cases (env.ok? merge_generation)) [
    | inl g ↦ inl (ground arith)
    | inr g ↦ inr (database merge_generation, ground arith)
  ]
  | inr c ↦ inr (database connect, ground arith)
]

-- A commit that succeeds puts the repository's digest and the next generation into metadata.json,
-- marks it complete, and leaves the store sealed: a read-only handle and no lock.
pub commit_in_place-CommitsAs :
    (env : Env) (bytes : List ℕ) (s : Store) (d : Disk)
    → s.read_only ≡ false
    → (commit_in_place env (some bytes) s d).result ≡ ok tt
    → CommitsAs env bytes s (commit_in_place env (some bytes) s d)
unfolding commit_in_place populate_root_hash
commit_in_place-CommitsAs env bytes s d w h =
    let hashed = record s.metadata { indexed_root_hash = hex_lower bytes } in
    elim (bump_graph_generation-cases env hashed s.db d) [
      | inl e ↦ ground (
        arith,
        e,
        write_and_seal-ok env s (bumped hashed) (bump_graph_generation env hashed s.db d).1 w,
      )
      | inr (x, e) ↦ ground (arith, e)
    ]

-- After a commit that succeeds, a successful open under the lock by a binary of the same schema,
-- which can read metadata.json, resumes exactly what was committed and leaves metadata.json as it was.
pub commit_resumes :
    (env env' : Env) (bytes : List ℕ) (s t : Store) (d d' : Disk) (repo : String) (lock : LockMode)
    → s.read_only ≡ false
    → (commit_in_place env (some bytes) s d).result ≡ ok tt
    → env'.ok? read_metadata ≡ true
    → open_with_lock env' repo s.metadata.schema_version lock
        (commit_in_place env (some bytes) s d).disk
      ≡ (ok t, d')
    → (t.outcome ≡ resumed)
      × (t.metadata ≡ (commit_in_place env (some bytes) s d).store.metadata)
      × (d'.metadata_json ≡ (commit_in_place env (some bytes) s d).disk.metadata_json)
unfolding completed outcome_of
commit_resumes env env' bytes s t d d' repo lock w h r h' =
    let a = commit_in_place env (some bytes) s d in
    let c = commit_in_place-CommitsAs env bytes s d w h in
    let o = open_with_lock-OpensAs env' repo s.metadata.schema_version lock a.disk t d' h' in
    let servable : IsServable env' s.metadata.schema_version a.disk a.store.metadata = record {
      here = c.written;
      readable = r;
      schema = ground (arith, c.metadata);
      state = ground (arith, c.metadata);
    } in
    let same : ok o.decision ≡ ok (match a.store.metadata) =
      sym o.decided ∙ match-of_IsServable env' _ a.disk a.store.metadata servable in
    let outcome : t.outcome ≡ resumed = ground arith in
    let (again, kept) = o.resumes outcome in
    let body : some (saved t.metadata) ≡ some (saved a.store.metadata) =
      sym again.here ∙ c.written in
    (outcome, cc, kept)

write_and_seal-err :
    (env : Env) (s : Store) (m : Metadata) (d : Disk) (e : Error)
    → (write_and_seal env s m d).result ≡ err e
    → let a = write_and_seal env s m d in
      (a.disk.metadata_json ≡ d.metadata_json)
      ⊎ ((e ≡ database open_ro)
          × (a.store.db ≡ none)
          × (a.store.metadata.index_state ≡ complete)
          × (a.disk.metadata_json ≡ some (saved a.store.metadata)))
unfolding write_and_seal write completed
write_and_seal-err env s m d e h = ground arith

bump_graph_generation-metadata :
    (env : Env) (m : Metadata) (h : Option Handle) (d : Disk)
    → (bump_graph_generation env m h d).1.metadata_json ≡ d.metadata_json
unfolding bump_graph_generation
bump_graph_generation-metadata env m none d = refl
bump_graph_generation-metadata env m (some h) d = ground arith

-- A commit that fails has left metadata.json alone, or it has written the complete metadata and
-- then failed to reopen the database read-only: the store is left with no handle.
pub commit_fails :
    (env : Env) (digest : Option (List ℕ)) (s : Store) (d : Disk) (e : Error)
    → (commit_in_place env digest s d).result ≡ err e
    → let a = commit_in_place env digest s d in
      (a.disk.metadata_json ≡ d.metadata_json)
      ⊎ ((e ≡ database open_ro)
          × (a.store.db ≡ none)
          × (a.store.metadata.index_state ≡ complete)
          × (a.disk.metadata_json ≡ some (saved a.store.metadata)))
unfolding commit_in_place populate_root_hash
commit_fails env none s d e h = ground arith
commit_fails env (some bytes) s d e h =
    let hashed = record s.metadata { indexed_root_hash = hex_lower bytes } in
    let kept = bump_graph_generation-metadata env hashed s.db d in
    elim (Bool-cases s.read_only) [
      | inl r ↦ inl (ground (arith, r))
      | inr w ↦ elim (bump_graph_generation-cases env hashed s.db d) [
        | inl b ↦ ground (
          arith,
          w,
          b,
          write_and_seal-err env s (bumped hashed) (bump_graph_generation env hashed s.db d).1 e,
        )
        | inr (x, b) ↦ inl (ground (arith, w, b))
      ]
    ]
