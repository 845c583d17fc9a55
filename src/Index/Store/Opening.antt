-- ===== src/Index/Store/Opening.antt =====
-- What an open does, step by step: lemmas on the bodies of `Index/Store/Open`.
use graphatlas.Prelude.{ℕ, String, Option, none, some, true, ◌≡◌, refl, arith}
use graphatlas.Core.{building, complete}
use graphatlas.Index.Disk.{Metadata, MetaFile, DbFile, Disk, Env, read_metadata, ok}
use graphatlas.Index.CacheDir.{verify_file_perms}
use graphatlas.Index.Metadata.{
  SchemaDecision, no_cache, match, mismatch, crashed_building, new_building,
  begin_indexing_with_schema, cold_load,
}
use graphatlas.Index.Store.Open.{nuke_if_rebuild, metadata_for, open_db, open_body}

-- metadata.json in the form that `write` gives it.
abbrev pub saved : Metadata → MetaFile
saved m = record { mode = 0o600; body = some m }

-- A cache that a binary of this schema may serve.
pub record IsServable (env : Env) (binary : ℕ) (d : Disk) (m : Metadata) : Type 0 where
  pub here : d.metadata_json ≡ some (saved m)
  pub readable : env.ok? read_metadata ≡ true
  pub schema : m.schema_version ≡ binary
  pub state : m.index_state ≡ complete

pub cold_load-disk : (env : Env) (binary : ℕ) (d : Disk) → (cold_load env binary d).1 ≡ d
unfolding cold_load
cold_load-disk env binary d = ground arith

pub IsServable-of_match :
    (env : Env) (binary : ℕ) (d : Disk) (m : Metadata)
    → (cold_load env binary d).0 ≡ ok (match m)
    → IsServable env binary d m
unfolding cold_load
IsServable-of_match env binary d m h = ground arith

pub match-of_IsServable :
    (env : Env) (binary : ℕ) (d : Disk) (m : Metadata)
    → IsServable env binary d m
    → (cold_load env binary d).0 ≡ ok (match m)
unfolding cold_load
match-of_IsServable env binary d m h = ground arith

pub cold_load-building :
    (env : Env) (binary : ℕ) (d : Disk) (m : Metadata)
    → env.ok? read_metadata ≡ true
    → m.schema_version ≡ binary
    → m.index_state ≡ building
    → d.metadata_json ≡ some (saved m)
    → (cold_load env binary d).0 ≡ ok (crashed_building m.index_generation)
unfolding cold_load
cold_load-building env binary d m r v b h = ground arith

abbrev pub IsRebuild : SchemaDecision → Type 0
IsRebuild no_cache = Unit
IsRebuild (match _) = ⊥
IsRebuild (mismatch _ _) = Unit
IsRebuild (crashed_building _) = Unit

pub metadata_for-match :
    (env : Env) (repo : String) (binary : ℕ) (m : Metadata) (d : Disk)
    → metadata_for env repo binary (match m) d ≡ (ok m, d)
unfolding metadata_for
metadata_for-match env repo binary m d = refl

-- The metadata of a build that starts, in the store and on the disk.
pub metadata_for-build :
    (env : Env) (repo : String) (binary : ℕ) (decision : SchemaDecision) (d : Disk) {m : Metadata}
    → IsRebuild decision
    → (metadata_for env repo binary decision d).0 ≡ ok m
    → (m ≡ new_building env repo binary)
      × ((metadata_for env repo binary decision d).1 ≡ record d { metadata_json = some (saved m) })
unfolding metadata_for begin_indexing_with_schema
metadata_for-build env repo binary no_cache d _ h = ground arith
metadata_for-build env repo binary (match _) d r h = absurd r
metadata_for-build env repo binary (mismatch _ _) d _ h = ground arith
metadata_for-build env repo binary (crashed_building _) d _ h = ground arith

-- graph.db after an open: of mode 0600, with the rows that it had.
abbrev pub clamped : Option DbFile → DbFile
clamped none = record { mode = 0o600; generation_row = none }
clamped (some f) = record { mode = 0o600; generation_row = f.generation_row }

open_db-eq_ok :
    (env : Env) (d d' : Disk)
    → open_db env d ≡ (ok tt, d')
    → d' ≡ record d { graph_db = some (clamped d.graph_db) }
unfolding open_db verify_file_perms
open_db-eq_ok env d d' h = ground arith

-- A successful open: its decision, the metadata made for it, and the final disk.
pub record Opened (env : Env) (repo : String) (binary : ℕ) (d : Disk) (decision : SchemaDecision)
    (m : Metadata) (d' : Disk) : Type 0 where
  pub loaded : (cold_load env binary d).0 ≡ ok decision
  pub metadata : (metadata_for env repo binary decision (nuke_if_rebuild env decision d)).0 ≡ ok m
  pub final :
      let made = (metadata_for env repo binary decision (nuke_if_rebuild env decision d)).1 in
      d' ≡ record made { graph_db = some (clamped made.graph_db) }

pub open_body-Opened :
    (env : Env) (repo : String) (binary : ℕ) (d : Disk) {decision : SchemaDecision} {m : Metadata}
    {d' : Disk}
    → open_body env repo binary d ≡ (ok (decision, m), d')
    → Opened env repo binary d decision m d'
unfolding open_body
open_body-Opened env repo binary d {decision} {m} {d'} h =
    let made = (metadata_for env repo binary decision (nuke_if_rebuild env decision d)).1 in
    ground (arith, cold_load-disk env binary d, open_db-eq_ok env made d')
