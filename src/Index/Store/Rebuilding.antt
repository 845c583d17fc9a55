-- ===== src/Index/Store/Rebuilding.antt =====
-- `reindex_in_place`: nothing is removed without the lock, and under it the build starts afresh.
use graphatlas.Prelude.{
  ℕ, zero, suc, ◌+◌, ◌*◌, min, Bool-cases, String, List, none, some, true, ◌≡◌, refl, sym, ◌∙◌, ◌≢◌,
  ◌⊎◌, inl, inr, arith,
}
use graphatlas.Index.Disk.{
  Disk, Env, LockAnswer, granted, busy, failed, open_lock_file, remove_metadata, Result, ok, err,
}
use graphatlas.Index.CacheDir.{
  unsafe_path, unsafe_root, validate_cache_dir_override, ensure_cache_root, ensure_dir,
  verify_file_perms,
}
use graphatlas.Index.Metadata.{no_cache, match, mismatch, crashed_building, new_building, cold_load}
use graphatlas.Index.Lock.{
  LockMode, exclusive, acquired, LockError, refused, held, create_lock_file, held_from, read_lock,
  try_acquire,
}
use graphatlas.Index.Generation.{nuke_cache_files}
use graphatlas.Index.Wait.{
  Peers, Waited, decided, load_failed, out_of_fuel, first_sleep, sleep_cap, wait_loop,
  wait_for_complete_decision,
}
use graphatlas.Index.Store.Open.{
  Store, fresh_build, outcome_of, attach, waited_attach, open_read_only, open_with_lock, prepare,
  open_with_root_and_schema_with_lock, drop_store,
}
use graphatlas.Index.Store.Reindex.{reattach, reindex_with, reindex_in_place}
use graphatlas.Index.Store.Opening.{saved}
use graphatlas.Index.Store.Recovery.{SameFiles, drop_store-SameFiles, open_with_lock-OpensAs}

-- The other processes do nothing while this one waits.
pub record AreIdle (peers : Peers) : Type 0 where
  pub idle : (k : ℕ) (d : Disk) → peers.meanwhile k d ≡ d

SameFiles-trans : (a b c : Disk) → SameFiles a b → SameFiles b c → SameFiles a c
SameFiles-trans a b c p q = ground arith

try_acquire-SameFiles :
    (env : Env) (g : String) (mode : LockMode) (d : Disk) → SameFiles d (try_acquire env g mode d).1
unfolding try_acquire
try_acquire-SameFiles env g mode d = ground arith

-- The lock was taken, or the call says why not.
try_acquire-cases :
    (env : Env) (g : String) (mode : LockMode) (d : Disk)
    → ((env.flock ≡ granted) × ((try_acquire env g mode d).0 ≡ acquired mode))
      ⊎ ((e : LockError) × ((try_acquire env g mode d).0 ≡ refused e)
          × (env.flock ≡ granted → e ≡ LockError.lock_io))
unfolding try_acquire
try_acquire-cases env g mode d = elim (Bool-cases (env.ok? open_lock_file)) [
  | inl o ↦ answers env.flock refl o
  | inr o ↦ inr (LockError.lock_io, ground (arith, o), λ _. refl)
]
  where
    answers :
        (a : LockAnswer)
        → env.flock ≡ a
        → env.ok? open_lock_file ≡ true
        → ((env.flock ≡ granted) × ((try_acquire env g mode d).0 ≡ acquired mode))
          ⊎ ((e : LockError) × ((try_acquire env g mode d).0 ≡ refused e)
              × (env.flock ≡ granted → e ≡ LockError.lock_io))
    answers granted p o = inl (p, ground (arith, o, p))
    answers busy p o =
        inr (
          held_from env (read_lock (create_lock_file d)),
          ground (arith, o, p),
          λ g. cc (sym p ∙ g),
        )
    answers failed p o = inr (LockError.lock_io, ground (arith, o, p), λ _. refl)

wait_loop-disk :
    (env : Env) (binary budget : ℕ) (peers : Peers) (fuel attempt elapsed sleep : ℕ) (d : Disk)
    → AreIdle peers
    → (wait_loop env binary budget peers fuel attempt elapsed sleep d).disk ≡ d
unfolding wait_loop
wait_loop-disk env binary budget peers zero attempt elapsed sleep d h = refl
wait_loop-disk env binary budget peers (suc fuel) attempt elapsed sleep d h = ground (
  arith,
  h.idle attempt d,
  wait_loop-disk env binary budget peers fuel (suc attempt) (elapsed + sleep + peers.lag attempt)
      (min (sleep * 2) sleep_cap) (peers.meanwhile attempt d) h,
)

ensure_dir-SameFiles : (env : Env) (d : Disk) → SameFiles d (ensure_dir env d).1
unfolding ensure_dir
ensure_dir-SameFiles env d = ground arith

waited_attach-disk : (env : Env) (w : Waited) (d : Disk) → (waited_attach env w d).1 ≡ d
unfolding attach verify_file_perms
waited_attach-disk env (decided no_cache) d = refl
waited_attach-disk env (decided (match m)) d = ground arith
waited_attach-disk env (decided (mismatch _ _)) d = refl
waited_attach-disk env (decided (crashed_building _)) d = refl
waited_attach-disk env (load_failed e) d = refl
waited_attach-disk env out_of_fuel d = refl

open_read_only-SameFiles :
    (env : Env) (peers : Peers) (budget binary : ℕ) (d : Disk)
    → AreIdle peers
    → SameFiles d (open_read_only env peers budget binary d).1
unfolding open_read_only wait_for_complete_decision
open_read_only-SameFiles env peers budget binary d h =
    let dir = (ensure_dir env d).1 in
    let w = wait_loop env binary budget peers (suc budget) 0 0 first_sleep dir in
    ground (
      arith,
      ensure_dir-SameFiles env d,
      wait_loop-disk env binary budget peers (suc budget) 0 0 first_sleep dir h,
      waited_attach-disk env w.outcome w.disk,
    )

reindex_refused-SameFiles :
    (env : Env) (peers : Peers) (budget : ℕ) (root : List ℕ) (repo : String) (binary : ℕ)
    (e : LockError) (d : Disk)
    → AreIdle peers
    → SameFiles d (reindex_with env peers budget root repo binary (refused e) d).1
unfolding reindex_with reattach
reindex_refused-SameFiles env peers budget root repo binary (held pid hostname since) d h =
    ground (arith, open_read_only-SameFiles env peers budget binary d h)
reindex_refused-SameFiles env peers budget root repo binary LockError.lock_io d h = record {
  metadata = refl;
  database = refl;
  others = refl;
}

-- A reindex that is not granted the lock leaves metadata.json, graph.db and its shadow files as
-- they were, however it ends, if no other process changes them meanwhile.
pub reindex_without_lock :
    (env : Env) (peers : Peers) (budget : ℕ) (root : List ℕ) (repo : String) (s : Store) (d : Disk)
    → AreIdle peers
    → env.flock ≢ granted
    → SameFiles d (reindex_in_place env peers budget root repo s d).1
unfolding reindex_in_place
reindex_without_lock env peers budget root repo s d h n =
    let dropped = drop_store env s d in
    let tried = (try_acquire env "reindex" exclusive dropped).1 in
    elim (try_acquire-cases env "reindex" exclusive dropped) [
      | inl (g, _) ↦ absurd (n g)
      | inr (e, p, _) ↦
          SameFiles-trans d tried _
            (SameFiles-trans d dropped tried (drop_store-SameFiles env s d)
              (try_acquire-SameFiles env "reindex" exclusive dropped))
            (rw p (
              reindex_refused-SameFiles env peers budget root repo s.metadata.schema_version e tried
                h))
    ]

validate-disk : (root : List ℕ) (d : Disk) → (validate_cache_dir_override root d).1 ≡ d
unfolding validate_cache_dir_override
validate-disk root d = elim (Bool-cases (unsafe_path root)) [
  | inl u ↦ rw u refl
  | inr u ↦ elim (Bool-cases (unsafe_root d.root_mode)) [
    | inl m ↦ rw u (rw m refl)
    | inr m ↦ rw u (rw m refl)
  ]
]

ensure_cache_root-SameFiles : (env : Env) (d : Disk) → SameFiles d (ensure_cache_root env d).1
unfolding ensure_cache_root
ensure_cache_root-SameFiles env d = ground arith

prepare-SameFiles : (env : Env) (root : List ℕ) (d : Disk) → SameFiles d (prepare env root d).1
unfolding prepare
prepare-SameFiles env root d = ground (
  arith,
  validate-disk root d,
  ensure_cache_root-SameFiles env d,
  ensure_dir-SameFiles env (ensure_cache_root env d).1,
)

cold_load-none :
    (env : Env) (binary : ℕ) (d : Disk)
    → d.metadata_json ≡ none
    → (cold_load env binary d).0 ≡ ok no_cache
unfolding cold_load
cold_load-none env binary d h = ground arith

-- An open with a lock in hand and no metadata.json.
record Starts (env : Env) (repo : String) (binary : ℕ) (lock : LockMode) (t : Store) (d' : Disk)
    : Type 0 where
  outcome : t.outcome ≡ fresh_build
  holds : t.lock ≡ some lock
  metadata : t.metadata ≡ new_building env repo binary
  written : d'.metadata_json ≡ some (saved t.metadata)

open_with_lock-Starts :
    (env : Env) (repo : String) (binary : ℕ) (lock : LockMode) (d : Disk) (t : Store) (d' : Disk)
    → d.metadata_json ≡ none
    → open_with_lock env repo binary lock d ≡ (ok t, d')
    → Starts env repo binary lock t d'
unfolding outcome_of
open_with_lock-Starts env repo binary lock d t d' n h =
    let o = open_with_lock-OpensAs env repo binary lock d t d' h in
    let same : ok o.decision ≡ ok no_cache = sym o.decided ∙ cold_load-none env binary d n in
    let outcome : t.outcome ≡ fresh_build = ground arith in
    let built = o.rebuilds (λ e. cc) in
    record { outcome = outcome; holds = o.writer.1; metadata = built.0; written = built.1 }

with_lock-Starts :
    (env : Env) (root : List ℕ) (repo : String) (binary : ℕ) (lock : LockMode) (d : Disk)
    (t : Store) (d' : Disk)
    → d.metadata_json ≡ none
    → open_with_root_and_schema_with_lock env root repo binary lock d ≡ (ok t, d')
    → Starts env repo binary lock t d'
unfolding open_with_root_and_schema_with_lock
with_lock-Starts env root repo binary lock d t d' n = go (prepare env root d).0 refl
  where
    go :
        (r : Result (Unit {0}))
        → (prepare env root d).0 ≡ r
        → open_with_root_and_schema_with_lock env root repo binary lock d ≡ (ok t, d')
        → Starts env repo binary lock t d'
    go (ok u) p h =
        open_with_lock-Starts env repo binary lock (prepare env root d).1 t d'
          ((prepare-SameFiles env root d).metadata ∙ n) (ground (arith, p))
    go (err e) p h = ground (arith, p)

-- A reindex that is granted the lock and succeeds has removed metadata.json and started a build:
-- the new store has opened as on an empty cache, and its fresh sentinel is on the disk.
pub reindex_with_lock :
    (env : Env) (peers : Peers) (budget : ℕ) (root : List ℕ) (repo : String) (s t : Store)
    (d d' : Disk)
    → env.flock ≡ granted
    → env.ok? remove_metadata ≡ true
    → reindex_in_place env peers budget root repo s d ≡ (ok t, d')
    → (t.outcome ≡ fresh_build)
      × (t.lock ≡ some exclusive)
      × (t.metadata ≡ new_building env repo s.metadata.schema_version)
      × (d'.metadata_json ≡ some (saved t.metadata))
unfolding reindex_in_place reindex_with nuke_cache_files
reindex_with_lock env peers budget root repo s t d d' g r h =
    let tried = try_acquire env "reindex" exclusive (drop_store env s d) in
    elim (try_acquire-cases env "reindex" exclusive (drop_store env s d)) [
      | inl (_, p) ↦
          let o =
            with_lock-Starts env root repo s.metadata.schema_version exclusive
              (nuke_cache_files env tried.1) t d' (ground (arith, r)) (ground (arith, p)) in
          (o.outcome, o.holds, o.metadata, o.written)
      | inr (e, p, l) ↦ ground (arith, p, l g)
    ]
