-- ===== src/Index/Examples/Readers.antt =====
-- Failing commits, readers, and the generation row, on the cache of the parent module.
use graphatlas.Prelude.{◌≤◌, ◌<◌, none, some, true, false, ◌≡◌, ◌⊎◌, refl, arith}
use graphatlas.Core.{complete}
use graphatlas.Index.Disk.{Disk, DbFile, Env, open_ro, ok, err, database}
use graphatlas.Index.CacheDir.{verify_file_perms}
use graphatlas.Index.Metadata.{
  new_building, begin_indexing_with_schema, completed, parsed, load_from, decide_schema, cold_load,
  write,
}
use graphatlas.Index.Lock.{exclusive, lock_info, write_sidecar_in_place, update_sidecar, release}
use graphatlas.Index.Generation.{
  writable, next_generation, merge_row, bump_graph_generation, nuke_cache_files, hex_lower,
  populate_root_hash, u64_max,
}
use graphatlas.Index.Store.Open.{
  Store, outcome_of, nuke_if_rebuild, metadata_for, verify_graph_db, create_graph_db, open_rw_db,
  clamp_graph_db, open_db, open_body, opened, open_with_lock, drop_store,
}
use graphatlas.Index.Store.Commit.{
  After, seal_for_serving, write_and_seal, commit_in_place, reopen_if_stale,
}
use graphatlas.Index.Store.Opening.{saved}
use graphatlas.Index.Store.Committed.{commit_fails}
use graphatlas.Index.Store.Readers.{rebuild_goes_unnoticed}
use graphatlas.Index.Examples.{
  env, empty_disk, blank, first, first_disk, opens_first, first_is_fresh, digest, done, commits,
}

-- The same commit where lbug cannot open the database again.
abbrev failing : Env
failing = record env { ok? = λ c. elim c [ open_ro ↦ false | _ ↦ true ] }

abbrev broken : After (Unit {0})
broken = commit_in_place failing (some digest) first first_disk

breaks : broken.result ≡ err (database open_ro)
unfolding open_with_lock cold_load verify_file_perms load_from parsed decide_schema nuke_if_rebuild
    nuke_cache_files metadata_for begin_indexing_with_schema new_building write open_body open_db
    verify_graph_db create_graph_db open_rw_db clamp_graph_db opened outcome_of update_sidecar
    write_sidecar_in_place lock_info drop_store release commit_in_place populate_root_hash
    bump_graph_generation next_generation merge_row write_and_seal completed seal_for_serving
    hex_lower
breaks = refl

commit_fails_example :
    (broken.disk.metadata_json ≡ first_disk.metadata_json)
    ⊎ ((database open_ro ≡ database open_ro)
        × (broken.store.db ≡ none)
        × (broken.store.metadata.index_state ≡ complete)
        × (broken.disk.metadata_json ≡ some (saved broken.store.metadata)))
commit_fails_example = commit_fails failing (some digest) first first_disk (database open_ro) breaks

-- A reader beside a writer.
abbrev reader : Store
reader = done.store

reader_reads : reader.read_only ≡ true
unfolding open_with_lock cold_load verify_file_perms load_from parsed decide_schema nuke_if_rebuild
    nuke_cache_files metadata_for begin_indexing_with_schema new_building write open_body open_db
    verify_graph_db create_graph_db open_rw_db clamp_graph_db opened outcome_of update_sidecar
    write_sidecar_in_place lock_info drop_store release commit_in_place populate_root_hash
    bump_graph_generation next_generation merge_row write_and_seal completed seal_for_serving
    hex_lower
reader_reads = refl

reader_on_disk : done.disk.metadata_json ≡ some (saved reader.metadata)
unfolding open_with_lock cold_load verify_file_perms load_from parsed decide_schema nuke_if_rebuild
    nuke_cache_files metadata_for begin_indexing_with_schema new_building write open_body open_db
    verify_graph_db create_graph_db open_rw_db clamp_graph_db opened outcome_of update_sidecar
    write_sidecar_in_place lock_info drop_store release commit_in_place populate_root_hash
    bump_graph_generation next_generation merge_row write_and_seal completed seal_for_serving
    hex_lower
reader_on_disk = refl

reader_is_old : 1 ≤ reader.metadata.graph_generation
unfolding open_with_lock cold_load verify_file_perms load_from parsed decide_schema nuke_if_rebuild
    nuke_cache_files metadata_for begin_indexing_with_schema new_building write open_body open_db
    verify_graph_db create_graph_db open_rw_db clamp_graph_db opened outcome_of update_sidecar
    write_sidecar_in_place lock_info drop_store release commit_in_place populate_root_hash
    bump_graph_generation next_generation merge_row write_and_seal completed seal_for_serving
    hex_lower
reader_is_old = omega arith

rebuild_goes_unnoticed_example :
    ((reopen_if_stale env reader done.disk).result ≡ ok false)
    × ((reopen_if_stale env reader done.disk).store ≡ reader)
rebuild_goes_unnoticed_example =
    rebuild_goes_unnoticed env env env "/r" 1 exclusive digest empty_disk first_disk first reader
      opens_first first_is_fresh commits refl reader_is_old

-- The generation row.
abbrev made : DbFile
made = record { mode = 0o600; generation_row = none }

first_handle : first.db ≡ some writable
unfolding open_with_lock cold_load verify_file_perms load_from parsed decide_schema nuke_if_rebuild
    nuke_cache_files metadata_for begin_indexing_with_schema new_building write open_body open_db
    verify_graph_db create_graph_db open_rw_db clamp_graph_db opened outcome_of update_sidecar
    write_sidecar_in_place lock_info drop_store release
first_handle = refl

first_made : first_disk.graph_db ≡ some made
unfolding open_with_lock cold_load verify_file_perms load_from parsed decide_schema nuke_if_rebuild
    nuke_cache_files metadata_for begin_indexing_with_schema new_building write open_body open_db
    verify_graph_db create_graph_db open_rw_db clamp_graph_db opened outcome_of update_sidecar
    write_sidecar_in_place lock_info drop_store release
first_made = refl

abbrev handleless : Store
handleless = record blank { db = none }

abbrev agreeing : DbFile
agreeing = record { mode = 0o600; generation_row = some 0 }

abbrev agreeing_disk : Disk
agreeing_disk = record empty_disk { graph_db = some agreeing }

abbrev ahead : After (Unit {0})
ahead = commit_in_place env (some digest) handleless agreeing_disk

agrees : agreeing.generation_row ≡ some handleless.metadata.graph_generation
unfolding open_with_lock cold_load verify_file_perms load_from parsed decide_schema nuke_if_rebuild
    nuke_cache_files metadata_for begin_indexing_with_schema new_building write open_body open_db
    verify_graph_db create_graph_db open_rw_db clamp_graph_db opened outcome_of update_sidecar
    write_sidecar_in_place lock_info drop_store release
agrees = refl

unsaturated : handleless.metadata.graph_generation < u64_max
unfolding open_with_lock cold_load verify_file_perms load_from parsed decide_schema nuke_if_rebuild
    nuke_cache_files metadata_for begin_indexing_with_schema new_building write open_body open_db
    verify_graph_db create_graph_db open_rw_db clamp_graph_db opened outcome_of update_sidecar
    write_sidecar_in_place lock_info drop_store release
unsaturated = omega arith

gets_ahead : ahead.result ≡ ok tt
unfolding open_with_lock cold_load verify_file_perms load_from parsed decide_schema nuke_if_rebuild
    nuke_cache_files metadata_for begin_indexing_with_schema new_building write open_body open_db
    verify_graph_db create_graph_db open_rw_db clamp_graph_db opened outcome_of update_sidecar
    write_sidecar_in_place lock_info drop_store release commit_in_place populate_root_hash
    bump_graph_generation next_generation merge_row write_and_seal completed seal_for_serving
    hex_lower
gets_ahead = refl
