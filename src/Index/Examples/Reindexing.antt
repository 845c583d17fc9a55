-- ===== src/Index/Examples/Reindexing.antt =====
-- Reindexes and waits on the cache of the parent module.
use graphatlas.Prelude.{ℕ, ◌≤◌, List, [], ◌∷◌, ◌≡◌, ◌≢◌, refl, arith}
use graphatlas.Index.Disk.{Disk, Env, granted, busy, ok}
use graphatlas.Index.CacheDir.{
  has_segment, forbidden_system_prefix, unsafe_path, unsafe_root, validate_cache_dir_override,
  ensure_cache_root, verify_dir_perms, ensure_dir, verify_file_perms,
}
use graphatlas.Index.Metadata.{
  new_building, begin_indexing_with_schema, parsed, load_from, decide_schema, cold_load, write,
}
use graphatlas.Index.Lock.{
  lock_info, create_lock_file, write_sidecar_in_place, try_acquire, update_sidecar, release,
}
use graphatlas.Index.Generation.{is_shadow, without_shadows, nuke_cache_files}
use graphatlas.Index.Wait.{Peers, wait_for_complete_decision}
use graphatlas.Index.Waiting.{ReadFrom, wait_for_complete_decision_ends}
use graphatlas.Index.Store.Open.{
  Store, outcome_of, nuke_if_rebuild, metadata_for, verify_graph_db, create_graph_db, open_rw_db,
  clamp_graph_db, open_db, open_body, opened, open_with_lock, prepare,
  open_with_root_and_schema_with_lock, drop_store,
}
use graphatlas.Index.Store.Reindex.{reindex_with, reindex_in_place}
use graphatlas.Index.Store.Recovery.{SameFiles}
use graphatlas.Index.Store.Rebuilding.{AreIdle, reindex_without_lock}
use graphatlas.Index.Examples.{env, value, first, first_disk}

-- Reindexing.
abbrev quiet : Peers
quiet = record { meanwhile = λ k d. d; lag = λ k. 0 }

quiet-AreIdle : AreIdle quiet
quiet-AreIdle = record { idle = λ k d. refl }

abbrev locked_out : Env
locked_out = record env { flock = busy }

locked_out-busy : locked_out.flock ≢ granted
locked_out-busy e = cc

abbrev cache_root : List ℕ
cache_root = 47 ∷ 99 ∷ []

reindex_without_lock_example :
    SameFiles first_disk
      (reindex_in_place locked_out quiet 30_000 cache_root "/r" first first_disk).1
reindex_without_lock_example =
    reindex_without_lock locked_out quiet 30_000 cache_root "/r" first first_disk quiet-AreIdle
      locked_out-busy

abbrev again : Store
again = value (reindex_in_place env quiet 30_000 cache_root "/r" first first_disk).0

abbrev again_disk : Disk
again_disk = (reindex_in_place env quiet 30_000 cache_root "/r" first first_disk).1

reindexes :
    reindex_in_place env quiet 30_000 cache_root "/r" first first_disk ≡ (ok again, again_disk)
unfolding open_with_lock cold_load verify_file_perms load_from parsed decide_schema nuke_if_rebuild
    nuke_cache_files metadata_for begin_indexing_with_schema new_building write open_body open_db
    verify_graph_db create_graph_db open_rw_db clamp_graph_db opened outcome_of update_sidecar
    write_sidecar_in_place lock_info drop_store release reindex_in_place reindex_with try_acquire
    create_lock_file open_with_root_and_schema_with_lock prepare validate_cache_dir_override
    unsafe_path unsafe_root has_segment forbidden_system_prefix ensure_cache_root ensure_dir
    verify_dir_perms without_shadows is_shadow
reindexes = refl

wait_for_complete_decision_ends_example :
    ReadFrom env 1
      (wait_for_complete_decision env 1 30_000 quiet first_disk).outcome
      (wait_for_complete_decision env 1 30_000 quiet first_disk).disk
    × ((wait_for_complete_decision env 1 30_000 quiet first_disk).attempts ≤ 20)
wait_for_complete_decision_ends_example =
    wait_for_complete_decision_ends env 1 30_000 quiet first_disk (omega arith)
