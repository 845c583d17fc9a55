-- ===== src/Index/Store/Prepared.antt =====
-- The directory checks of an open succeed where the calls out do and the directories are sound.
use graphatlas.Prelude.{ℕ, List, none, some, true, false, ◌≡◌, refl, ◌∙◌, ◌⊎◌, inl, inr, arith}
use graphatlas.Index.Disk.{Metadata, Disk, Env, SysCall, granted, ok, DbFile, ◌>>◌, >>=-ok}
use graphatlas.Index.Disk.{create_cache_root, create_cache_dir}
use graphatlas.Index.CacheDir.{
  unsafe_path, unsafe_root, validate_cache_dir_override, ensure_cache_root, verify_dir_perms,
  ensure_dir,
}
use graphatlas.Index.Store.Open.{prepare}

abbrev pub SameDirs : Disk → Disk → Type 0
SameDirs d d' = (d'.root_mode ≡ d.root_mode) × (d'.dir_mode ≡ d.dir_mode)

pub SameDirs-trans : (a b c : Disk) → SameDirs a b → SameDirs b c → SameDirs a c
SameDirs-trans a b c p q = (q.0 ∙ p.0, q.1 ∙ p.1)

pub record IsCalm (env : Env) : Type 0 where
  pub oks : (c : SysCall) → env.ok? c ≡ true
  pub granted : env.flock ≡ granted

-- A directory that an open accepts.
pub record IsTidy (root : List ℕ) (d : Disk) : Type 0 where
  pub path : unsafe_path root ≡ false
  pub root_mode : unsafe_root d.root_mode ≡ false
  pub dir_mode : (d.dir_mode ≡ none) ⊎ (d.dir_mode ≡ some 0o700)

-- Files that an open accepts.
pub record IsReadable (d : Disk) : Type 0 where
  pub metadata :
      (d.metadata_json ≡ none)
      ⊎ ((m : Metadata) × (d.metadata_json ≡ some (record { mode = 0o600; body = some m })))
  pub database : (d.graph_db ≡ none) ⊎ ((f : DbFile) × (d.graph_db ≡ some f) × (f.mode ≡ 0o600))

validate_calm :
    (root : List ℕ) (d : Disk) → IsTidy root d → validate_cache_dir_override root d ≡ (ok tt, d)
unfolding validate_cache_dir_override
validate_calm root d t = rw (t.path) (rw (t.root_mode) refl)

ensure_cache_root_calm :
    (env : Env) (d : Disk)
    → IsCalm env
    → ensure_cache_root env d ≡ (ok tt, record d { root_mode = some 0o700 })
unfolding ensure_cache_root
ensure_cache_root_calm env d c = rw (c.oks create_cache_root) refl

ensure_dir_calm :
    (env : Env) (d : Disk)
    → IsCalm env
    → (d.dir_mode ≡ none) ⊎ (d.dir_mode ≡ some 0o700)
    → (d' : Disk) × (ensure_dir env d ≡ (ok tt, d'))
      × (d'.dir_mode ≡ some 0o700)
      × (d'.root_mode ≡ d.root_mode)
      × (d'.metadata_json ≡ d.metadata_json)
      × (d'.graph_db ≡ d.graph_db)
unfolding ensure_dir verify_dir_perms
ensure_dir_calm env d c (inl e) = (
  record d { dir_mode = some 0o700 },
  ground (arith, e, c.oks create_cache_dir),
  refl,
  refl,
  refl,
  refl,
)
ensure_dir_calm env d c (inr e) = (d, ground (arith, e), e, refl, refl, refl)

-- What `prepare` leaves: sound directories, and the same files.
abbrev pub IsPrepared : Disk → Disk → Type 0
IsPrepared d d' =
    (d'.dir_mode ≡ some 0o700)
    × (d'.root_mode ≡ some 0o700)
    × (d'.metadata_json ≡ d.metadata_json)
    × (d'.graph_db ≡ d.graph_db)

pub prepare_calm :
    (env : Env) (root : List ℕ) (d : Disk)
    → IsCalm env
    → IsTidy root d
    → (d' : Disk) × (prepare env root d ≡ (ok tt, d')) × IsPrepared d d'
unfolding prepare
prepare_calm env root d c t =
    let (d', e, m, r, j, g) =
      ensure_dir_calm env (record d { root_mode = some 0o700 }) c t.dir_mode in
    (
      d',
      >>=-ok (validate_cache_dir_override root) (λ _. ensure_cache_root env >> ensure_dir env) d
            (validate_calm root d t)
          ∙ >>=-ok (ensure_cache_root env) (λ _. ensure_dir env) d (ensure_cache_root_calm env d c)
          ∙ e,
      (m, r, j, g),
    )
