-- ===== src/Index/Disk.antt =====
-- The state behind crates/ga-index: one cache directory on disk, the answers of the operating
-- system and of lbug during one operation, and the monad of fallible operations on the disk.
use graphatlas.Prelude.{ℕ, String, List, Option, Bool, true, false, ◌≡◌, refl, ap}
use graphatlas.Core.{Lang, IndexState, IndexCounts, HealthSummary}

-- The body of metadata.json.
pub record Metadata : Type 0 where
  pub schema_version : ℕ
  pub indexed_at : ℕ
  pub committed_at : Option ℕ
  pub repo_root : String
  pub index_state : IndexState
  pub index_generation : String
  pub indexed_root_hash : List ℕ
  pub graph_generation : ℕ
  pub cache_lang_set : List Lang
  pub index_counts : Option IndexCounts
  pub health_summary : Option HealthSummary

-- metadata.json: its permission bits, and `none` where serde does not parse it.
pub record MetaFile : Type 0 where
  pub mode : ℕ
  pub body : Option Metadata

-- graph.db: its permission bits, and the row `graph_generation` of the table `GraphMeta`.
pub record DbFile : Type 0 where
  pub mode : ℕ
  pub generation_row : Option ℕ

-- The JSON written into lock.pid.
pub record LockInfo : Type 0 where
  pub pid : ℕ
  pub hostname : String
  pub started_at_unix : ℕ
  pub index_generation : String
  pub mode : String

-- The cache root and one cache directory: the permission bits of the two, if they exist, the
-- named files, and the names of all other files in the directory.
pub record Disk : Type 0 where
  pub root_mode : Option ℕ
  pub dir_mode : Option ℕ
  pub metadata_json : Option MetaFile
  pub graph_db : Option DbFile
  pub lock_pid : Option (Option LockInfo)
  pub others : List String

-- The calls out of the program that may fail.
pub data SysCall : Type 0 where
  create_cache_root create_cache_dir read_metadata write_metadata : SysCall
  open_lock_file unlock write_sidecar remove_lock_file : SysCall
  remove_metadata remove_graph_db remove_shadow : SysCall
  open_rw open_ro connect run_ddl merge_generation chmod_graph_db : SysCall

-- What `try_lock_exclusive` or `try_lock_shared` answers.
pub data LockAnswer : Type 0 where
  granted busy failed : LockAnswer

-- What the outside answers during one operation.
pub record Env : Type 0 where
  pub ok? : SysCall → Bool
  pub flock : LockAnswer
  pub now : ℕ
  pub uuid : String
  pub pid : ℕ
  pub hostname : String
  pub created_mode : ℕ

pub data Corrupt : Type 0 where
  unsafe_location unsafe_root_mode unsafe_dir_mode unsafe_file_mode unparseable : Corrupt
  no_repo_root : Corrupt

pub data Refusal : Type 0 where
  lock_io no_committed_cache schema_mismatch graph_db_missing read_only_store : Refusal
  reattach_failed : ℕ → String → Refusal

pub data Error : Type 0 where
  config_corrupt : Corrupt → Error
  io : Error
  database : SysCall → Error
  other : Refusal → Error

pub data Result {ℓ} (A : Type ℓ) : Type ℓ where
  ok : A → Result A
  err : Error → Result A

-- An operation may fail after it has changed the disk.
abbrev pub M : Type 0 → Type 0
M A = Disk → Result A × Disk

infixl 5 ◌>>=◌ ◌>>◌
abbrev pub ◌>>=◌ : {A B : Type 0} → M A → (A → M B) → M B
◌>>=◌ m f d = let (r, d') = m d in elim r [ ok a ↦ f a d' | err e ↦ (err e, d') ]

abbrev pub ◌>>◌ : {B : Type 0} → M (Unit {0}) → M B → M B
m >> k = m >>= λ _. k

abbrev pub return : {A : Type 0} → A → M A
return a d = (ok a, d)

abbrev pub fail : {A : Type 0} → Error → M A
fail e d = (err e, d)

abbrev pub get_disk : M Disk
get_disk d = (ok d, d)

abbrev pub set_disk : Disk → M (Unit {0})
set_disk d' d = (ok tt, d')

-- A call out that changes nothing by itself: its error is propagated.
abbrev pub check : Bool → Error → M (Unit {0})
check true e = return tt
check false e = fail e

abbrev pub is_ok {ℓ} : {A : Type ℓ} → Result A → Bool
is_ok (ok _) = true
is_ok (err _) = false

pub >>=-ok :
    {A B : Type 0} (m : M A) (f : A → M B) (d : Disk) {a : A} {d' : Disk}
    → m d ≡ (ok a, d')
    → (m >>= f) d ≡ f a d'
>>=-ok m f d e = ap (λ x. elim (x.0) [ ok a ↦ f a x.1 | err y ↦ (err y, x.1) ]) e

-- Inversion of a successful bind.
pub >>=-eq-ok :
    {A B : Type 0} (m : M A) (f : A → M B) (d : Disk) {b : B} {d' : Disk}
    → (m >>= f) d ≡ (ok b, d')
    → (a : A) × (e : Disk) × (m d ≡ (ok a, e)) × (f a e ≡ (ok b, d'))
>>=-eq-ok {A} {B} m f d {b} {d'} h = go (m d) refl h
  where
    go :
        (r : Result A × Disk)
        → m d ≡ r
        → elim (r.0) [ ok a ↦ f a r.1 | err e ↦ (err e, r.1) ] ≡ (ok b, d')
        → (a : A) × (e : Disk) × (m d ≡ (ok a, e)) × (f a e ≡ (ok b, d'))
    go (ok a, e) p q = (a, e, p, q)
    go (err x, e) p q = cc
