-- ===== src/Index/Lock.antt =====
-- crates/ga-index/src/lock.rs: one process's calls on lock.pid. The answer of the kernel is
-- `env.flock`; how the answers of several processes hang together is in `Index/Flock`.
use graphatlas.Prelude.{ℕ, String, Option, none, some, Bool, true, false, if◌then◌else◌, leb, ◌/◌}
use graphatlas.Index.Disk.{
  LockInfo, Disk, Env, open_lock_file, write_sidecar, remove_lock_file, granted, busy, failed,
}

pub data LockMode : Type 0 where
  exclusive shared : LockMode

abbrev pub is_exclusive : LockMode → Bool
is_exclusive exclusive = true
is_exclusive shared = false

pub data LockError : Type 0 where
  held : ℕ → String → ℕ → LockError
  lock_io : LockError

pub data Acquired : Type 0 where
  acquired : LockMode → Acquired
  refused : LockError → Acquired

unfoldable pub lock_info : Env → String → LockInfo
lock_info env generation = record {
  pid = env.pid;
  hostname = env.hostname;
  started_at_unix = env.now;
  index_generation = generation;
  mode = "exclusive";
}

-- `open` with `create(true)`: an empty file, which holds no JSON, where there was none.
unfoldable pub create_lock_file : Disk → Disk
create_lock_file d = elim (d.lock_pid) [ none ↦ record d { lock_pid = some none } | some _ ↦ d ]

-- A write that fails leaves the file truncated.
unfoldable pub write_sidecar_in_place : Env → String → Disk → Disk
unfolding lock_info
write_sidecar_in_place env generation d =
    if env.ok? write_sidecar
    then record d { lock_pid = some (some (lock_info env generation)) }
    else record d { lock_pid = some none }

-- `read_lock(..).ok()`.
unfoldable pub read_lock : Disk → Option LockInfo
read_lock d = elim (d.lock_pid) [ none ↦ none | some body ↦ body ]

unfoldable pub held_from : Env → Option LockInfo → LockError
held_from env (some info) = held info.pid info.hostname info.started_at_unix
held_from env none = held 0 env.hostname env.now

unfoldable pub try_acquire : Env → String → LockMode → Disk → Acquired × Disk
unfolding create_lock_file write_sidecar_in_place read_lock held_from
try_acquire env generation mode d =
    if env.ok? open_lock_file
    then (let d' = create_lock_file d in
        elim (env.flock) [
          | granted ↦ (
            acquired mode,
            if is_exclusive mode then write_sidecar_in_place env generation d' else d',
          )
          | busy ↦ (refused (held_from env (read_lock d')), d')
          | failed ↦ (refused lock_io, d')
        ])
    else (refused lock_io, d)

-- `update_sidecar`: nothing in shared mode.
unfoldable pub update_sidecar : Env → String → LockMode → Disk → Disk
unfolding write_sidecar_in_place
update_sidecar env generation mode d =
    if is_exclusive mode then write_sidecar_in_place env generation d else d

-- `release` and `Drop`: both unlock, and then unlink lock.pid for an exclusive holder. Neither
-- reports an error.
unfoldable pub release : Env → LockMode → Disk → Disk
release env mode d =
    if is_exclusive mode
    then (if env.ok? remove_lock_file then record d { lock_pid = none } else d)
    else d

-- The unit that `humanize_duration` prints, with its number.
pub data Duration : Type 0 where
  just_now : Duration
  seconds minutes hours days : ℕ → Duration

unfoldable pub humanize_duration : ℕ → Duration
humanize_duration secs =
    if leb secs 1
    then just_now
    else if leb secs 59
    then seconds secs
    else if leb secs 3599
    then minutes (secs / 60)
    else if leb secs 86399
    then hours (secs / 3600)
    else days (secs / 86400)
