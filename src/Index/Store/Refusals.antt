-- ===== src/Index/Store/Refusals.antt =====
-- Which caches are served, and which are refused.
use graphatlas.Prelude.{
  ℕ, String, none, some, true, ◌≡◌, ◌≢◌, ◌↔◌, ◌⊎◌, inl, inr, ap, Bool-cases, ==_iff, arith, ◌==◌,
}
use graphatlas.Index.Disk.{
  Metadata, MetaFile, Disk, Env, read_metadata, ok, err, Error, config_corrupt, unparseable,
  unsafe_file_mode,
}
use graphatlas.Index.Lock.{LockMode, release}
use graphatlas.Index.Metadata.{match, cold_load}
use graphatlas.Index.Store.Open.{open_body, open_with_lock}
use graphatlas.Index.Store.Opening.{
  IsServable, cold_load-disk, IsServable-of_match, match-of_IsServable,
}

-- The cold load serves metadata exactly if metadata.json is readable, has mode 0600, parses to them,
-- carries the binary's schema version and is complete; and it changes nothing.
pub cold_load-match_iff :
    (env : Env) (binary : ℕ) (d : Disk) (m : Metadata)
    → (cold_load env binary d ≡ (ok (match m), d)) ↔ IsServable env binary d m
cold_load-match_iff env binary d m = (
  λ e. IsServable-of_match env binary d m (ap (λ x. x.0) e),
  λ s. ground (arith, match-of_IsServable env binary d m s, cold_load-disk env binary d),
)

cold_load-refused :
    (env : Env) (binary : ℕ) (d : Disk) (f : MetaFile)
    → d.metadata_json ≡ some f
    → env.ok? read_metadata ≡ true
    → (f.mode ≢ 0o600) ⊎ (f.body ≡ none)
    → (x : Error) × (cold_load env binary d ≡ (err x, d))
unfolding cold_load
cold_load-refused env binary d f h r b = elim (Bool-cases (f.mode == 0o600)) [
  | inl right ↦ elim b [
    | inl wrong ↦ absurd (wrong ((==_iff f.mode 0o600).0 right))
    | inr broken ↦ (config_corrupt unparseable, ground (arith, h, r, right, broken))
  ]
  | inr wrong ↦ (config_corrupt unsafe_file_mode, ground (arith, h, wrong))
]

-- An open under the lock refuses a metadata.json of a wrong mode, or one that can be read and does
-- not parse: it
-- fails, releases the lock, and leaves everything else as it was.
pub open_with_lock-refuses :
    (env : Env) (repo : String) (binary : ℕ) (lock : LockMode) (d : Disk) (f : MetaFile)
    → d.metadata_json ≡ some f
    → env.ok? read_metadata ≡ true
    → (f.mode ≢ 0o600) ⊎ (f.body ≡ none)
    → (x : Error) × (open_with_lock env repo binary lock d ≡ (err x, release env lock d))
unfolding open_with_lock open_body
open_with_lock-refuses env repo binary lock d f h r b =
    let (x, e) = cold_load-refused env binary d f h r b in (x, ground (arith, e))
