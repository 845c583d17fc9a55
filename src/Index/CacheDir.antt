-- ===== src/Index/CacheDir.antt =====
-- crates/ga-index/src/cache.rs: where a cache may lie, and the permission bits it must have (the
-- Unix arms). Modes are the low nine bits, as the code masks them.
use graphatlas.Prelude.{
  ℕ, List, ◌++◌, Option, none, some, Bool, true, false, ◌||◌, if◌then◌else◌, ltb, ◌==◌,
}
use graphatlas.Prelude.Text.{codes, eq_text, starts_with, ends_with, contains}
use graphatlas.Index.Disk.{
  Env, create_cache_root, create_cache_dir, unsafe_location, unsafe_root_mode, unsafe_dir_mode,
  unsafe_file_mode, config_corrupt, io, M, ok, err, ◌>>=◌, ◌>>◌, check, get_disk, set_disk,
}

-- The closure `has_segment`; its needles begin with no slash, so `trim_start_matches` is the
-- identity.
unfoldable pub has_segment : List ℕ → List ℕ → Bool
has_segment path needle =
    eq_text path needle
    || (starts_with (needle ++ codes "/") path
        || (contains (codes "/" ++ (needle ++ codes "/")) path
            || ends_with (codes "/" ++ needle) path))

-- The closure `forbidden_system_prefix`, as a test.
unfoldable pub forbidden_system_prefix : List ℕ → Bool
forbidden_system_prefix p =
    if eq_text p (codes "/etc") || starts_with (codes "/etc/") p
    then true
    else if eq_text p (codes "/var")
    then true
    else if starts_with (codes "/var/") p
    then (if starts_with (codes "/var/tmp/") p || eq_text p (codes "/var/tmp")
        then false
        else if starts_with (codes "/var/folders/") p || eq_text p (codes "/var/folders")
        then false
        else true)
    else false

-- The rejections of `validate_cache_dir_override` that read the path alone.
unfoldable pub unsafe_path : List ℕ → Bool
unfolding has_segment forbidden_system_prefix
unsafe_path p =
    has_segment p (codes ".ssh")
    || (has_segment p (codes ".gnupg")
        || (contains (codes "/.config/gh") p || forbidden_system_prefix p))

-- `validate_existing_dir`, made only where the root exists.
unfoldable pub unsafe_root : Option ℕ → Bool
unsafe_root none = false
unsafe_root (some mode) = ltb 0o700 mode

unfoldable pub validate_cache_dir_override : List ℕ → M (Unit {0})
validate_cache_dir_override root d =
    if unsafe_path root
    then (err (config_corrupt unsafe_location), d)
    else if unsafe_root d.root_mode
    then (err (config_corrupt unsafe_root_mode), d)
    else (ok tt, d)

unfoldable pub ensure_cache_root : Env → M (Unit {0})
ensure_cache_root env = do
  check (env.ok? create_cache_root) io
  d ← get_disk
  set_disk (record d { root_mode = some 0o700 })

unfoldable pub verify_dir_perms : ℕ → M (Unit {0})
verify_dir_perms mode = check (mode == 0o700) (config_corrupt unsafe_dir_mode)

unfoldable pub ensure_dir : Env → M (Unit {0})
unfolding verify_dir_perms
ensure_dir env d = elim (d.dir_mode) [
  | none ↦
      if env.ok? create_cache_dir then (ok tt, record d { dir_mode = some 0o700 }) else (err io, d)
  | some mode ↦ verify_dir_perms mode d
]

unfoldable pub verify_file_perms : ℕ → M (Unit {0})
verify_file_perms mode = check (mode == 0o600) (config_corrupt unsafe_file_mode)
