-- ===== src/Index/Examples.antt =====
-- Runs of the index on one small cache, at which the theorems apply.
mod Readers
mod Reindexing
mod Languages
use graphatlas.Prelude.{
  ℕ, ◌+◌, ◌≤◌, ◌<◌, List, [], ◌∷◌, none, some, true, false, ◌≡◌, ◌≢◌, ◌⊎◌, refl, arith,
}
use graphatlas.Core.{complete}
use graphatlas.Index.Disk.{
  Disk, DbFile, Env, open_ro, granted, busy, Result, ok, err, database, other, read_only_store,
}
use graphatlas.Index.CacheDir.{
  has_segment, forbidden_system_prefix, unsafe_path, unsafe_root, validate_cache_dir_override,
  ensure_cache_root, verify_dir_perms, ensure_dir, verify_file_perms,
}
use graphatlas.Index.Metadata.{
  new_building, begin_indexing_with_schema, completed, parsed, load_from, decide_schema, cold_load,
  write,
}
use graphatlas.Index.Lock.{
  exclusive, lock_info, create_lock_file, write_sidecar_in_place, try_acquire, update_sidecar,
  release,
}
use graphatlas.Index.Generation.{
  writable, readonly, next_generation, merge_row, bump_graph_generation, is_shadow, without_shadows,
  nuke_cache_files, hex_lower, populate_root_hash, u64_max,
}
use graphatlas.Index.Wait.{Peers, wait_for_complete_decision}
use graphatlas.Index.Waiting.{ReadFrom, wait_for_complete_decision_ends}
use graphatlas.Index.Store.Open.{
  fresh_build, resumed, rebuild_crash_recovery, Store, outcome_of, nuke_if_rebuild, metadata_for,
  verify_graph_db, create_graph_db, open_rw_db, clamp_graph_db, open_db, open_body, opened,
  open_with_lock, prepare, open_with_root_and_schema_with_lock, drop_store,
}
use graphatlas.Index.Store.Commit.{
  After, seal_for_serving, write_and_seal, commit_in_place, reopen_if_stale,
}
use graphatlas.Index.Store.Reindex.{reindex_with, reindex_in_place}
use graphatlas.Index.Store.Recovery.{SameFiles}
use graphatlas.Index.Store.Opening.{saved}
use graphatlas.Index.Store.Recovery.{crash_recovers}
use graphatlas.Index.Store.Committed.{commit_resumes, commit_fails}
use graphatlas.Index.Store.Readers.{
  read_only_changes_nothing, reopen_if_stale_answers, rebuild_goes_unnoticed,
}
use graphatlas.Index.Store.Mirror.{commit_mirrors, commit_without_handle_runs_ahead}
use graphatlas.Index.Store.Rebuilding.{AreIdle, reindex_without_lock, reindex_with_lock}

abbrev env : Env
env = record {
  ok? = λ _. true;
  flock = granted;
  now = 7;
  uuid = "u1";
  pid = 1;
  hostname = "h";
  created_mode = 0o644;
}

abbrev empty_disk : Disk
empty_disk = record {
  root_mode = some 0o700;
  dir_mode = some 0o700;
  metadata_json = none;
  graph_db = none;
  lock_pid = none;
  others = [];
}

abbrev blank : Store
blank = record {
  db = none;
  metadata = new_building env "/r" 1;
  lock = none;
  outcome = resumed;
  committed = false;
  read_only = false;
}

abbrev value : Result Store → Store
value (ok s) = s
value (err e) = blank

-- The first open of an empty cache.
abbrev first : Store
first = value (open_with_lock env "/r" 1 exclusive empty_disk).0

abbrev first_disk : Disk
first_disk = (open_with_lock env "/r" 1 exclusive empty_disk).1

opens_first : open_with_lock env "/r" 1 exclusive empty_disk ≡ (ok first, first_disk)
unfolding open_with_lock cold_load verify_file_perms load_from parsed decide_schema nuke_if_rebuild
    nuke_cache_files metadata_for begin_indexing_with_schema new_building write open_body open_db
    verify_graph_db create_graph_db open_rw_db clamp_graph_db opened outcome_of update_sidecar
    write_sidecar_in_place lock_info drop_store release
opens_first = refl

first_is_fresh : first.outcome ≢ resumed
unfolding open_with_lock cold_load verify_file_perms load_from parsed decide_schema nuke_if_rebuild
    nuke_cache_files metadata_for begin_indexing_with_schema new_building write open_body open_db
    verify_graph_db create_graph_db open_rw_db clamp_graph_db opened outcome_of update_sidecar
    write_sidecar_in_place lock_info drop_store release
first_is_fresh e = cc

-- The process dies, and another one opens.
abbrev second : Store
second = value (open_with_lock env "/r" 1 exclusive (drop_store env first first_disk)).0

abbrev second_disk : Disk
second_disk = (open_with_lock env "/r" 1 exclusive (drop_store env first first_disk)).1

opens_second :
    open_with_lock env "/r" 1 exclusive (drop_store env first first_disk) ≡ (ok second, second_disk)
unfolding open_with_lock cold_load verify_file_perms load_from parsed decide_schema nuke_if_rebuild
    nuke_cache_files metadata_for begin_indexing_with_schema new_building write open_body open_db
    verify_graph_db create_graph_db open_rw_db clamp_graph_db opened outcome_of update_sidecar
    write_sidecar_in_place lock_info drop_store release
opens_second = refl

crash_recovers_example :
    (second.outcome ≡ rebuild_crash_recovery first.metadata.index_generation)
    × (second.metadata ≡ new_building env "/r" 1)
    × (second_disk.metadata_json ≡ some (saved second.metadata))
crash_recovers_example =
    crash_recovers env env "/r" 1 exclusive empty_disk first second first_disk second_disk
      opens_first first_is_fresh refl opens_second

-- The first build is committed.
abbrev digest : List ℕ
digest = 10 ∷ 255 ∷ []

abbrev done : After (Unit {0})
done = commit_in_place env (some digest) first first_disk

first_writes : first.read_only ≡ false
unfolding open_with_lock cold_load verify_file_perms load_from parsed decide_schema nuke_if_rebuild
    nuke_cache_files metadata_for begin_indexing_with_schema new_building write open_body open_db
    verify_graph_db create_graph_db open_rw_db clamp_graph_db opened outcome_of update_sidecar
    write_sidecar_in_place lock_info drop_store release
first_writes = refl

commits : done.result ≡ ok tt
unfolding open_with_lock cold_load verify_file_perms load_from parsed decide_schema nuke_if_rebuild
    nuke_cache_files metadata_for begin_indexing_with_schema new_building write open_body open_db
    verify_graph_db create_graph_db open_rw_db clamp_graph_db opened outcome_of update_sidecar
    write_sidecar_in_place lock_info drop_store release commit_in_place populate_root_hash
    bump_graph_generation next_generation merge_row write_and_seal completed seal_for_serving
    hex_lower
commits = refl

abbrev third : Store
third = value (open_with_lock env "/r" first.metadata.schema_version exclusive done.disk).0

abbrev third_disk : Disk
third_disk = (open_with_lock env "/r" first.metadata.schema_version exclusive done.disk).1

opens_third :
    open_with_lock env "/r" first.metadata.schema_version exclusive done.disk
    ≡ (ok third, third_disk)
unfolding open_with_lock cold_load verify_file_perms load_from parsed decide_schema nuke_if_rebuild
    nuke_cache_files metadata_for begin_indexing_with_schema new_building write open_body open_db
    verify_graph_db create_graph_db open_rw_db clamp_graph_db opened outcome_of update_sidecar
    write_sidecar_in_place lock_info drop_store release commit_in_place populate_root_hash
    bump_graph_generation next_generation merge_row write_and_seal completed seal_for_serving
    hex_lower
opens_third = refl

commit_resumes_example :
    (third.outcome ≡ resumed)
    × (third.metadata ≡ done.store.metadata)
    × (third_disk.metadata_json ≡ done.disk.metadata_json)
commit_resumes_example =
    commit_resumes env env digest first third first_disk third_disk "/r" exclusive first_writes
      commits refl opens_third
