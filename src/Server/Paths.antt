-- ===== src/Server/Paths.antt =====
-- crates/ga-server/src/paths.rs: which directories may be added as projects. The file system and
-- `to_lowercase` are arguments; a path is a text.
pub mod Outside
use graphatlas.Prelude.{
  ℕ, ◌==◌, Option, none, some, Bool, true, false, not, ◌&&◌, ◌||◌, if◌then◌else◌, List, [], ◌∷◌,
  ◌++◌, any, String,
}
use graphatlas.Prelude.Text.{codes, eq_text, starts_with}
use graphatlas.Prelude.Paths.{
  Component, parent_dir, root_dir, cur_dir, normal, components, path_starts_with,
}
use graphatlas.Server.Handlers.{
  PathRejection, path_not_found, path_not_directory, path_unsafe, external_symlink,
}

-- An entry of `read_dir`; `is_symlink` is false too where its type cannot be told.
pub record DirEntry : Type 0 where
  pub path : List ℕ
  pub is_symlink : Bool

-- What the operating system answers; `none` stands for an error.
pub record Os : Type 0 where
  pub canonicalize : List ℕ → Option (List ℕ)
  pub is_dir : List ℕ → Option Bool
  pub read_dir : List ℕ → Option (List DirEntry)
  pub read_link : List ℕ → Option (List ℕ)
  pub to_lowercase : List ℕ → List ℕ

-- A rejection without its message.
pub data Validated : Type 0 where
  valid : List ℕ → Validated
  rejected : PathRejection → Validated

abbrev pub is_parent_dir : Component → Bool
is_parent_dir root_dir = false
is_parent_dir cur_dir = false
is_parent_dir parent_dir = true
is_parent_dir (normal s) = false

abbrev pub or_text : Option (List ℕ) → List ℕ → List ℕ
or_text none d = d
or_text (some s) d = s

abbrev pub is_absolute : List ℕ → Bool
is_absolute p = starts_with (codes "/") p

abbrev pub ends_in_slash : List ℕ → Bool
ends_in_slash [] = true
ends_in_slash (c ∷ []) = c == 47
ends_in_slash (c ∷ (d ∷ cs)) = ends_in_slash (d ∷ cs)

-- `Path::join`.
unfoldable pub join : List ℕ → List ℕ → List ℕ
join base p =
    if is_absolute p then p else if ends_in_slash base then base ++ p else base ++ (47 ∷ p)

-- `trim_end_matches` of one character.
unfoldable pub trim_end_matches : ℕ → List ℕ → List ℕ
trim_end_matches c [] = []
trim_end_matches c (x ∷ s) =
    let rest = trim_end_matches c s in if x == c && eq_text rest [] then [] else x ∷ rest

abbrev pub trimmed : List ℕ → List ℕ
trimmed s = trim_end_matches 92 (trim_end_matches 47 s)

unfoldable pub path_starts_with_case_insensitive : Os → List ℕ → List ℕ → Bool
path_starts_with_case_insensitive os needle anchor =
    let n = trimmed (os.to_lowercase needle) in
    let a = trimmed (os.to_lowercase anchor) in
    eq_text n a || (starts_with (a ++ codes "/") n || starts_with (a ++ codes "\\") n)

-- Where a link leads to.
unfoldable pub resolved : Os → List ℕ → List ℕ → List ℕ
unfolding join
resolved os canonical target =
    if is_absolute target
    then or_text (os.canonicalize target) target
    else or_text (os.canonicalize (join canonical target)) (join canonical (codes "__unresolved__"))

abbrev pub leads_outside : Os → List ℕ → DirEntry → Bool
leads_outside os canonical e = elim (os.read_link e.path) [
  | none ↦ false
  | some target ↦ not (path_starts_with (resolved os canonical target) canonical)
]

-- The first symbolic link that leads outside ends the loop.
abbrev pub check_entries : Os → List ℕ → List DirEntry → Validated
check_entries os canonical [] = valid canonical
check_entries os canonical (e ∷ es) =
    if e.is_symlink && leads_outside os canonical e
    then rejected external_symlink
    else check_entries os canonical es

abbrev pub check_links : Os → List ℕ → Option (List DirEntry) → Validated
check_links os canonical none = valid canonical
check_links os canonical (some es) = check_entries os canonical es

abbrev pub cache_canonical : Os → List ℕ → List ℕ
cache_canonical os cache_root = or_text (os.canonicalize cache_root) cache_root

abbrev pub check_place : Os → List ℕ → List ℕ → Validated
check_place os cache_root canonical =
    if path_starts_with_case_insensitive os canonical (cache_canonical os cache_root)
    then rejected path_unsafe
    else check_links os canonical (os.read_dir canonical)

abbrev pub check_directory : Os → List ℕ → List ℕ → Validated
check_directory os cache_root canonical = elim (os.is_dir canonical) [
  | none ↦ rejected path_not_found
  | some d ↦ if d then check_place os cache_root canonical else rejected path_not_directory
]

unfoldable pub validate_repo_path : Os → List ℕ → List ℕ → Validated
validate_repo_path os input cache_root =
    if any is_parent_dir (components input)
    then rejected path_unsafe
    else elim (os.canonicalize input) [
      | none ↦ rejected path_not_found
      | some canonical ↦ check_directory os cache_root canonical
    ]

-- What the handlers look at: the rejection, if there is one.
abbrev pub rejection_of : Validated → Option PathRejection
rejection_of (valid p) = none
rejection_of (rejected r) = some r

unfoldable pub rejection : Os → List ℕ → String → Option PathRejection
rejection os cache_root path = rejection_of (validate_repo_path os (codes path) cache_root)
