-- ===== src/Mcp/Context.antt =====
-- crates/ga-mcp/src/context.rs: the one store of the server, in a cell. `clones` counts the `Arc`s of
-- that store outside the cell; no other store is shared. Every method holds the cell's lock, or the
-- map's, so each is one step. The clock is in milliseconds.
use graphatlas.Prelude.{
  ℕ, ◌-◌, ◌==◌, suc, ltb, String, List, Option, none, some, Bool, true, false, not, ◌&&◌, ◌||◌,
  if◌then◌else◌,
}
use graphatlas.Prelude.Assoc.{Assoc, get, insert}
use graphatlas.Index.Disk.{Disk, Env, Error, Result, ok, err}
use graphatlas.Index.Wait.{Peers}
use graphatlas.Index.Store.Open.{Store, open_with_root_and_schema}
use graphatlas.Index.Store.Commit.{seal_for_serving, reopen_if_stale}
use graphatlas.Mcp.Text.{has_text, to_lowercase}

-- 200 ms.
abbrev pub reindex_cooldown_ms : ℕ
reindex_cooldown_ms = 200

-- The errors of this crate's methods; of those of ga-index, the stage counts for their text.
pub data McpError : Type 0 where
  reindex_build_failed store_busy already_reindexing : McpError
  invalid_params bench_fixture_refused : McpError

pub data Answer {ℓ} (A : Type ℓ) : Type ℓ where
  done : A → Answer A
  failed : McpError → Answer A

-- A store in an `Arc`.
pub record Shared : Type 0 where
  pub store : Store
  pub clones : ℕ

pub record McpContext : Type 0 where
  pub store_cell : Option Shared
  pub last_reindex_at : Assoc ℕ
  pub reindex_locks : Assoc (Unit {0})
  pub disk : Disk

-- What an open of the cache depends on: the answers outside, and the server's own directory,
-- repository and schema. `text` is what `Display` prints of an error.
pub record Site : Type 0 where
  pub env : Env
  pub peers : Peers
  pub budget : ℕ
  pub cache_root : List ℕ
  pub repo_root : String
  pub schema_version : ℕ
  pub text : Error → List ℕ

-- What the closure of a rebuild makes of the store that it is given: another one, with the number
-- that the closure captures, or an error with this text.
pub data Rebuilt : Type 0 where
  rebuilt : ℕ → Store → Rebuilt
  broke : List ℕ → Rebuilt

unfoldable pub try_store : McpContext → Answer Store × McpContext
try_store ctx = elim (ctx.store_cell) [
  | none ↦ (failed reindex_build_failed, ctx)
  | some sh ↦
      (done sh.store, record ctx { store_cell = some (record sh { clones = suc sh.clones }) })
]

-- A caller is done with its `Arc`.
unfoldable pub drop_clone : McpContext → McpContext
drop_clone ctx = elim (ctx.store_cell) [
  | none ↦ ctx
  | some sh ↦ record ctx { store_cell = some (record sh { clones = sh.clones - 1 }) }
]

-- The result of the seal is dropped.
abbrev pub sealed : Env → Result Store × Disk → Result Store × Disk
sealed env (err e, d) = (err e, d)
sealed env (ok s, d) = (ok (seal_for_serving env s d).store, (seal_for_serving env s d).disk)

unfoldable pub open_from_disk : Site → Disk → Result Store × Disk
open_from_disk at d = sealed at.env (
    open_with_root_and_schema at.env at.peers at.budget at.cache_root at.repo_root at.schema_version
      d)

-- Whether an error's text says that a peer is at work.
unfoldable pub busy_signature : List ℕ → Bool
busy_signature message =
    let lower = to_lowercase message in
    has_text "busy" lower
    || has_text "already in use" lower
    || has_text "flock" lower
    || (has_text "lock" lower && not (has_text "deadlock" lower))

abbrev pub held_by : Store → ℕ → Option Shared
held_by s n = some (record { store = s; clones = n })

-- After the closure has run: its store goes into the cell and one clone to the caller. On an error the
-- cell is empty, and a busy peer is answered with an attempt to reopen.
abbrev pub reopened : McpContext → Result Store × Disk → McpContext
reopened ctx (ok s, d) = record ctx { store_cell = held_by s 0; disk = d }
reopened ctx (err e, d) = record ctx { store_cell = none; disk = d }

unfoldable pub settle : Site → McpContext → Rebuilt × Disk → Answer (ℕ × Store) × McpContext
unfolding busy_signature open_from_disk
settle at ctx (rebuilt n s, d) = (done (n, s), record ctx { store_cell = held_by s 1; disk = d })
settle at ctx (broke message, d) =
    if busy_signature message
    then (failed already_reindexing, reopened ctx (open_from_disk at d))
    else (failed reindex_build_failed, record ctx { store_cell = none; disk = d })

-- The cell was empty: the cache is opened for the closure.
unfoldable pub rebuild_opened :
    Site
    → (Store → Disk → Rebuilt × Disk)
    → McpContext
    → Result Store × Disk
    → Answer (ℕ × Store) × McpContext
unfolding settle
rebuild_opened after f ctx (err e, d) = (failed reindex_build_failed, record ctx { disk = d })
rebuild_opened after f ctx (ok s, d) = settle after ctx (f s d)

-- `at` holds for an open at the start, `after` for one at the end.
unfoldable pub rebuild_via :
    Site → Site → (Store → Disk → Rebuilt × Disk) → McpContext → Answer (ℕ × Store) × McpContext
unfolding settle rebuild_opened
rebuild_via at after f ctx = elim (ctx.store_cell) [
  | some sh ↦
      if sh.clones == 0 then settle after ctx (f sh.store ctx.disk) else (failed store_busy, ctx)
  | none ↦ rebuild_opened after f ctx (open_from_disk at ctx.disk)
]

abbrev pub or_false : Result Bool → Bool
or_false (ok b) = b
or_false (err e) = false

unfoldable pub refresh_if_stale : Env → McpContext → Bool × McpContext
refresh_if_stale env ctx = elim (ctx.store_cell) [
  | none ↦ (false, ctx)
  | some sh ↦
      if sh.clones == 0
      then (
        or_false (reopen_if_stale env sh.store ctx.disk).result,
        record ctx {
          store_cell = held_by (reopen_if_stale env sh.store ctx.disk).store 0;
          disk = (reopen_if_stale env sh.store ctx.disk).disk;
        },
      )
      else (false, ctx)
]

unfoldable pub record_reindex_success : String → ℕ → McpContext → McpContext
record_reindex_success cache_dir now ctx = record ctx {
  last_reindex_at = insert cache_dir now ctx.last_reindex_at;
}

-- Whether a reindex may start.
unfoldable pub check_reindex_cooldown : String → ℕ → McpContext → Bool
check_reindex_cooldown cache_dir now ctx = elim (get cache_dir ctx.last_reindex_at) [
  | none ↦ true
  | some last ↦ not (ltb (now - last) reindex_cooldown_ms)
]

-- The mutex of a cache directory, made at its first use.
unfoldable pub reindex_lock_for : String → McpContext → McpContext
reindex_lock_for cache_dir ctx = elim (get cache_dir ctx.reindex_locks) [
  | some lock ↦ ctx
  | none ↦ record ctx { reindex_locks = insert cache_dir tt ctx.reindex_locks }
]
