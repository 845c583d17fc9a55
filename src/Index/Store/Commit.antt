-- ===== src/Index/Store/Commit.antt =====
-- The methods of `Store` that finish a build.
use graphatlas.Prelude.{ℕ, List, Option, none, some, Bool, true, false, if◌then◌else◌, leb}
use graphatlas.Index.Disk.{
  Metadata, Disk, Env, open_ro, open_rw, database, other, read_only_store, Result, ok, err,
}
use graphatlas.Index.Metadata.{completed, write, load}
use graphatlas.Index.Lock.{release}
use graphatlas.Index.Generation.{writable, readonly, bump_graph_generation, populate_root_hash}
use graphatlas.Index.Store.Open.{Store}

-- What a `&mut self` method leaves behind.
pub record After (A : Type 0) : Type 0 where
  pub result : Result A
  pub store : Store
  pub disk : Disk

unfoldable pub seal_for_serving : Env → Store → Disk → After (Unit {0})
seal_for_serving env s d =
    if s.read_only
    then record { result = ok tt; store = s; disk = d }
    else if env.ok? open_ro
    then record {
      result = ok tt;
      store = record s { db = some readonly; read_only = true; lock = none };
      disk = elim (s.lock) [ none ↦ d | some mode ↦ release env mode d ];
    }
    else record { result = err (database open_ro); store = record s { db = none }; disk = d }

-- From the bump on, the store's metadata are the completed ones, written or not.
unfoldable pub write_and_seal : Env → Store → Metadata → Disk → After (Unit {0})
unfolding seal_for_serving
write_and_seal env s m d =
    let s' = record s { metadata = completed env m } in
    elim ((write env (completed env m) d).0) [
      | err e ↦ record { result = err e; store = s'; disk = (write env (completed env m) d).1 }
      | ok _ ↦
          seal_for_serving env (record s' { committed = true }) (write env (completed env m) d).1
    ]

-- The digest is that of the repository at this moment.
unfoldable pub commit_in_place : Env → Option (List ℕ) → Store → Disk → After (Unit {0})
unfolding write_and_seal
commit_in_place env digest s d =
    if s.read_only
    then record { result = err (other read_only_store); store = s; disk = d }
    else (elim (populate_root_hash digest s.metadata) [
      | err e ↦ record { result = err e; store = s; disk = d }
      | ok m ↦ elim ((bump_graph_generation env m s.db d).0) [
        | err e ↦ record {
          result = err e;
          store = record s { metadata = m };
          disk = (bump_graph_generation env m s.db d).1;
        }
        | ok m' ↦ write_and_seal env s m' (bump_graph_generation env m s.db d).1
      ]
    ])

-- A store with an older generation than the disk opens the database again, in its own mode.
unfoldable pub reopen_if_stale : Env → Store → Disk → After Bool
reopen_if_stale env s d = elim ((load env d).0) [
  | err e ↦ record { result = err e; store = s; disk = d }
  | ok on_disk ↦
      if leb on_disk.graph_generation s.metadata.graph_generation
      then record { result = ok false; store = s; disk = d }
      else if (if s.read_only then env.ok? open_ro else env.ok? open_rw)
      then record {
        result = ok true;
        store = record s {
          db = some (if s.read_only then readonly else writable);
          metadata = on_disk;
        };
        disk = d;
      }
      else record {
        result = err (database (if s.read_only then open_ro else open_rw));
        store = record s { db = none };
        disk = d;
      }
]
