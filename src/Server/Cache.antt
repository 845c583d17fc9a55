-- ===== src/Server/Cache.antt =====
-- crates/ga-server/src/recovery.rs and cache_state.rs: what the server reads from, and writes into,
-- the cache directories, which ga-index owns. The server edits metadata.json as loose JSON.
use graphatlas.Prelude.{
  ℕ, ◌==◌, String, str_eq, List, [], ◌∷◌, Option, none, some, Bool, true, false, ◌&&◌, ◌||◌,
  if◌then◌else◌,
}
use Prim.Native.Char.{code}
use graphatlas.Prelude.Text.{codes, ends_with}
use graphatlas.Core.{IndexState, complete}
use graphatlas.Index.Disk.{Metadata, MetaFile}

-- The bytes of metadata.json: as `Metadata`; as an object whose `index_state` is `corrupt`, or
-- another object, with its text `repo_root`; as other JSON; as no JSON.
pub data Body : Type 0 where
  typed : Metadata → Body
  marked loose : Option String → Body
  other_json not_json : Body

pub record MetadataJson : Type 0 where
  pub mode : ℕ
  pub body : Body

pub record ReindexPidFile : Type 0 where
  pub pid : ℕ
  pub job_id : String
  pub slug : String
  pub started_at_unix : ℕ

-- An entry of the cache root; `.reindex.pid` is `some none` where it does not parse.
pub record CacheDir : Type 0 where
  pub name : String
  pub is_dir : Bool
  pub metadata_json : Option MetadataJson
  pub pid_file : Option (Option ReindexPidFile)

-- The answers of the operating system during one request.
pub record Fs : Type 0 where
  pub reads : Bool
  pub writes : Bool
  pub renames : Bool
  pub chmods : Bool
  pub removes : Bool
  pub created_mode : ℕ
  pub pid_alive : ℕ → Bool

-- How ga-index reads the file.
abbrev pub body_of : Body → Option Metadata
body_of (typed m) = some m
body_of (marked _) = none
body_of (loose _) = none
body_of other_json = none
body_of not_json = none

abbrev pub as_meta_file : MetadataJson → MetaFile
as_meta_file f = record { mode = f.mode; body = body_of f.body }

-- `name.ends_with(slug) || name == slug`.
unfoldable pub named : String → CacheDir → Bool
named slug dir = dir.is_dir && (ends_with (codes slug) (codes dir.name) || str_eq dir.name slug)

-- The entries in the order of `read_dir`; a root that cannot be read has none.
unfoldable pub find_cache_dir : String → List CacheDir → Option CacheDir
unfolding named
find_cache_dir slug [] = none
find_cache_dir slug (dir ∷ dirs) = if named slug dir then some dir else find_cache_dir slug dirs

-- A change of the directory that `find_cache_dir` finds.
unfoldable pub change_dir : String → (CacheDir → CacheDir) → List CacheDir → List CacheDir
unfolding named
change_dir slug f [] = []
change_dir slug f (dir ∷ dirs) =
    if named slug dir then f dir ∷ dirs else dir ∷ change_dir slug f dirs

pub data CacheState : Type 0 where
  fresh building corrupt not_found : CacheState

abbrev pub state_of : IndexState → CacheState
state_of IndexState.building = CacheState.building
state_of complete = fresh

abbrev pub body_state : Body → CacheState
body_state (typed m) = state_of m.index_state
body_state (marked _) = corrupt
body_state (loose _) = corrupt
body_state other_json = corrupt
body_state not_json = corrupt

abbrev pub dir_state : Fs → CacheDir → CacheState
dir_state fs dir = elim (dir.metadata_json) [
  | none ↦ not_found
  | some f ↦ if fs.reads then body_state f.body else not_found
]

unfoldable pub lookup_cache_state : Fs → List CacheDir → String → CacheState
unfolding find_cache_dir
lookup_cache_state fs dirs slug = elim (find_cache_dir slug dirs) [
  | none ↦ not_found
  | some dir ↦ dir_state fs dir
]

abbrev pub is_building_state : CacheState → Bool
is_building_state fresh = false
is_building_state CacheState.building = true
is_building_state corrupt = false
is_building_state not_found = false

unfoldable pub read_pid_file : Fs → CacheDir → Option ReindexPidFile
read_pid_file fs dir = elim (dir.pid_file) [ none ↦ none | some p ↦ if fs.reads then p else none ]

unfoldable pub write_pid_file : Fs → ReindexPidFile → CacheDir → CacheDir
write_pid_file fs p dir =
    if fs.writes && fs.renames then record dir { pid_file = some (some p) } else dir

unfoldable pub remove_pid_file : Fs → CacheDir → CacheDir
remove_pid_file fs dir = if fs.removes then record dir { pid_file = none } else dir

-- `insert("index_state", "corrupt")` on an object.
abbrev pub mark_body : Body → Body
mark_body (typed m) = marked (some m.repo_root)
mark_body (marked r) = marked r
mark_body (loose r) = marked r
mark_body other_json = other_json
mark_body not_json = not_json

abbrev pub is_json : Body → Bool
is_json (typed _) = true
is_json (marked _) = true
is_json (loose _) = true
is_json other_json = true
is_json not_json = false

-- The file is written beside, renamed, and then clamped. The callers drop the result.
unfoldable pub mark_metadata_corrupt : Fs → CacheDir → CacheDir
mark_metadata_corrupt fs dir = elim (dir.metadata_json) [
  | none ↦ dir
  | some f ↦
      if fs.reads && is_json f.body && (fs.writes && fs.renames)
      then record dir {
        metadata_json = some (record {
          mode = if fs.chmods then 0o600 else fs.created_mode;
          body = mark_body f.body;
        });
      }
      else dir
]

unfoldable pub apply_cleanup : Fs → CacheDir → CacheDir
unfolding remove_pid_file mark_metadata_corrupt
apply_cleanup fs dir = mark_metadata_corrupt fs (remove_pid_file fs dir)

-- `rsplit('-').next()`: what follows the last dash, or all.
abbrev pub after_dash : String → Option String
after_dash String.[] = none
after_dash (String.◌∷◌ c s) = elim (after_dash s) [
  | some t ↦ some t
  | none ↦ if code c == 45 then some s else none
]

unfoldable pub dir_slug : String → String
dir_slug name = elim (after_dash name) [ some s ↦ s | none ↦ name ]

pub data RecoveryAction : Type 0 where
  adopt : ReindexPidFile → RecoveryAction
  cleanup : String → CacheDir → RecoveryAction

unfoldable pub orphan_action : Fs → CacheDir → Option ReindexPidFile → RecoveryAction
unfolding dir_slug
orphan_action fs dir none = cleanup (dir_slug dir.name) dir
orphan_action fs dir (some pf) = if fs.pid_alive pf.pid then adopt pf else cleanup pf.slug dir

unfoldable pub scan_orphan_pids : Fs → List CacheDir → List RecoveryAction
unfolding orphan_action
scan_orphan_pids fs [] = []
scan_orphan_pids fs (dir ∷ dirs) =
    let rest = scan_orphan_pids fs dirs in
    if dir.is_dir && fs.reads
    then elim (dir.pid_file) [ none ↦ rest | some p ↦ orphan_action fs dir p ∷ rest ]
    else rest

abbrev pub body_root : Body → Option String
body_root (typed m) = some m.repo_root
body_root (marked r) = r
body_root (loose r) = r
body_root other_json = none
body_root not_json = none

-- `read_repo_root` of handlers/reindex.rs.
unfoldable pub read_repo_root : Fs → CacheDir → Option String
read_repo_root fs dir = elim (dir.metadata_json) [
  | none ↦ none
  | some f ↦ if fs.reads then body_root f.body else none
]
