-- ===== src/Index/Store/Recovery.antt =====
-- The life of a cache over several opens: build, crash, rebuild, resume.
use graphatlas.Prelude.{ℕ, String, some, true, false, ◌≡◌, refl, sym, ◌≢◌, arith, ◌∙◌}
use graphatlas.Index.Disk.{Metadata, Disk, Env, read_metadata, Result, ok, err}
use graphatlas.Index.Metadata.{SchemaDecision, match, crashed_building, new_building, cold_load}
use graphatlas.Index.Lock.{LockMode, update_sidecar, release}
use graphatlas.Index.Generation.{writable}
use graphatlas.Index.Store.Open.{
  Store, resumed, rebuild_crash_recovery, outcome_of, nuke_if_rebuild, open_body, opened,
  open_with_lock, drop_store,
}
use graphatlas.Index.Store.Opening.{
  saved, IsServable, IsServable-of_match, cold_load-building, metadata_for-build,
  metadata_for-match, Opened, open_body-Opened,
}

-- The sidecar is all that a lock writes.
pub record SameFiles (d d' : Disk) : Type 0 where
  pub metadata : d'.metadata_json ≡ d.metadata_json
  pub database : d'.graph_db ≡ d.graph_db
  pub others : d'.others ≡ d.others

pub update_sidecar-SameFiles :
    (env : Env) (g : String) (mode : LockMode) (d : Disk)
    → SameFiles d (update_sidecar env g mode d)
unfolding update_sidecar
update_sidecar-SameFiles env g mode d = ground arith

pub release-SameFiles : (env : Env) (mode : LockMode) (d : Disk) → SameFiles d (release env mode d)
unfolding release
release-SameFiles env mode d = ground arith

pub drop_store-SameFiles : (env : Env) (s : Store) (d : Disk) → SameFiles d (drop_store env s d)
unfolding drop_store
drop_store-SameFiles env s d =
    ground
      (arith, release-SameFiles env LockMode.exclusive d, release-SameFiles env LockMode.shared d)

-- What a successful open under the lock leaves in the store and on the disk.
pub record OpensAs (env : Env) (repo : String) (binary : ℕ) (lock : LockMode) (d : Disk) (s : Store)
    (d' : Disk) : Type 0 where
  pub writer : (s.db ≡ some writable) × (s.lock ≡ some lock) × (s.read_only ≡ false)
  pub decision : SchemaDecision
  pub decided : (cold_load env binary d).0 ≡ ok decision
  pub outcome : s.outcome ≡ outcome_of decision
  pub resumes :
      s.outcome ≡ resumed
      → IsServable env binary d s.metadata × (d'.metadata_json ≡ d.metadata_json)
  pub rebuilds :
      s.outcome ≢ resumed
      → (s.metadata ≡ new_building env repo binary) × (d'.metadata_json ≡ some (saved s.metadata))

opened-OpensAs :
    (env : Env) (repo : String) (binary : ℕ) (lock : LockMode) (d : Disk)
    (decision : SchemaDecision) (m : Metadata) (e d' : Disk)
    → Opened env repo binary d decision m e
    → SameFiles e d'
    → OpensAs env repo binary lock d (opened decision m lock) d'
unfolding opened outcome_of nuke_if_rebuild
opened-OpensAs env repo binary lock d (match m') m e d' o k = record {
  writer = (refl, refl, refl);
  decision = match m';
  decided = o.loaded;
  outcome = refl;
  resumes = λ _.
      ground (arith, IsServable-of_match env binary d m', metadata_for-match env repo binary m' d);
  rebuilds = λ n. absurd (n refl);
}
opened-OpensAs env repo binary lock d decision m e d' o k = record {
  writer = (refl, refl, refl);
  decision = decision;
  decided = o.loaded;
  outcome = refl;
  resumes = λ r. cc;
  rebuilds = λ _. ground (
    arith,
    metadata_for-build env repo binary decision (nuke_if_rebuild env decision d) tt o.metadata,
  );
}

-- After a successful open under the lock, the store holds the lock and a writable handle. It has
-- resumed a servable cache, whose metadata.json is untouched, or else a fresh `building` sentinel
-- is both in the store and on the disk.
pub open_with_lock-OpensAs :
    (env : Env) (repo : String) (binary : ℕ) (lock : LockMode) (d : Disk) (s : Store) (d' : Disk)
    → open_with_lock env repo binary lock d ≡ (ok s, d')
    → OpensAs env repo binary lock d s d'
unfolding open_with_lock
open_with_lock-OpensAs env repo binary lock d s d' = go (open_body env repo binary d) refl
  where
    go :
        (r : Result (SchemaDecision × Metadata) × Disk)
        → open_body env repo binary d ≡ r
        → open_with_lock env repo binary lock d ≡ (ok s, d')
        → OpensAs env repo binary lock d s d'
    go (ok (decision, m), e) p h =
        let kept = update_sidecar-SameFiles env m.index_generation lock e in
        let made =
          opened-OpensAs env repo binary lock d decision m e _
            (open_body-Opened env repo binary d p) kept in
        let same : (opened decision m lock ≡ s) = ground arith in
        let disk : (update_sidecar env m.index_generation lock e ≡ d') = ground arith in
        rw (← same) (rw (← disk) made)
    go (err x, e) p h = ground arith

-- A build whose process dies before it commits is found by the next open under the lock, by a binary
-- of the same schema: if metadata.json can be read and the open succeeds, it reports a crash
-- recovery with the generation of the dead build, and a new sentinel is in the store and on the disk.
pub crash_recovers :
    (env env' : Env) (repo : String) (binary : ℕ) (lock : LockMode) (d : Disk) (s t : Store)
    (d' d'' : Disk)
    → open_with_lock env repo binary lock d ≡ (ok s, d')
    → s.outcome ≢ resumed
    → env'.ok? read_metadata ≡ true
    → open_with_lock env' repo binary lock (drop_store env s d') ≡ (ok t, d'')
    → (t.outcome ≡ rebuild_crash_recovery s.metadata.index_generation)
      × (t.metadata ≡ new_building env' repo binary)
      × (d''.metadata_json ≡ some (saved t.metadata))
unfolding new_building outcome_of
crash_recovers env env' repo binary lock d s t d' d'' h n r h' =
    let first = (open_with_lock-OpensAs env repo binary lock d s d' h).rebuilds n in
    let kept = drop_store-SameFiles env s d' in
    let again = open_with_lock-OpensAs env' repo binary lock (drop_store env s d') t d'' h' in
    let found =
      cold_load-building env' binary (drop_store env s d') s.metadata r (ground arith)
        (ground arith) (ground arith) in
    let same : ok again.decision ≡ ok (crashed_building s.metadata.index_generation) =
      sym again.decided ∙ found in
    let outcome : t.outcome ≡ rebuild_crash_recovery s.metadata.index_generation = ground arith in
    let built = again.rebuilds (λ e. cc) in (outcome, built.0, built.1)
