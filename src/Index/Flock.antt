-- ===== src/Index/Flock.antt =====
-- Several processes on one lock.pid (crates/ga-index/src/lock.rs): `try_acquire` opens the path and
-- then locks the file that it got; `release` and `Drop` unlock and then unlink the path. The kernel
-- locks inodes, so the steps keep path and inode apart. Processes are numbered.
pub mod Exclusion
pub mod Race
mod Examples
use graphatlas.Prelude.{ℕ, suc, ◌≡◌, ◌==◌, if◌then◌else◌, Option, none, some, ◌≢◌}
use graphatlas.Index.Lock.{LockMode, exclusive, shared}

pub data Phase : Type 0 where
  idle : Phase
  opened : ℕ → Phase
  holding unlocked : ℕ → LockMode → Phase

-- The inode at lock.pid, the next inode that a `create` makes, and the phase of each process.
pub record World : Type 0 where
  pub path : Option ℕ
  pub next : ℕ
  pub proc : ℕ → Phase

abbrev pub set_phase : ℕ → Phase → World → World
set_phase p phase w = record w { proc = λ q. if q == p then phase else w.proc q }

-- flock(2): exclusive beside no other lock on the inode, shared beside no exclusive one.
abbrev pub Grants : LockMode → ℕ → World → Type 0
Grants exclusive i w = (q : ℕ) (mode : LockMode) → w.proc q ≢ holding i mode
Grants shared i w = (q : ℕ) → w.proc q ≢ holding i exclusive

abbrev pub created : World → World
created w = record w { path = some w.next; next = suc w.next }

-- Only an exclusive holder removes the path, whatever file is there by then.
abbrev pub unlinked : LockMode → World → World
unlinked exclusive w = record w { path = none }
unlinked shared w = w

pub data Step (w : World) : World → Type 0 where
  open_existing : (p i : ℕ) → w.proc p ≡ idle → w.path ≡ some i → Step w (set_phase p (opened i) w)
  open_new :
      (p : ℕ) → w.proc p ≡ idle → w.path ≡ none → Step w (set_phase p (opened w.next) (created w))
  lock :
      (p i : ℕ) (mode : LockMode)
      → w.proc p ≡ opened i
      → Grants mode i w
      → Step w (set_phase p (holding i mode) w)
  give_up : (p i : ℕ) → w.proc p ≡ opened i → Step w (set_phase p idle w)
  unlock :
      (p i : ℕ) (mode : LockMode)
      → w.proc p ≡ holding i mode
      → Step w (set_phase p (unlocked i mode) w)
  -- `release` unlinks, and then `Drop` unlinks again.
  unlink_early : (p i : ℕ) (mode : LockMode) → w.proc p ≡ unlocked i mode → Step w (unlinked mode w)
  unlink :
      (p i : ℕ) (mode : LockMode)
      → w.proc p ≡ unlocked i mode
      → Step w (set_phase p idle (unlinked mode w))
  crash : (p : ℕ) → Step w (set_phase p idle w)

-- The file does not exist, and no process has begun.
abbrev pub start : World
start = record { path = none; next = 0; proc = λ _. idle }

pub data Reach : World → Type 0 where
  here : Reach start
  step : {w w' : World} → Reach w → Step w w' → Reach w'

-- Runs in which an acquire, and a release, is not interleaved with other steps.
pub data Block (w : World) : World → Type 0 where
  acquire_existing :
      (p i : ℕ) (mode : LockMode)
      → w.proc p ≡ idle
      → w.path ≡ some i
      → Grants mode i (set_phase p (opened i) w)
      → Block w (set_phase p (holding i mode) (set_phase p (opened i) w))
  acquire_new :
      (p : ℕ) (mode : LockMode)
      → w.proc p ≡ idle
      → w.path ≡ none
      → Block w (set_phase p (holding w.next mode) (set_phase p (opened w.next) (created w)))
  release :
      (p i : ℕ) (mode : LockMode)
      → w.proc p ≡ holding i mode
      → Block w (set_phase p idle (unlinked mode (set_phase p (unlocked i mode) w)))
  die : (p : ℕ) → Block w (set_phase p idle w)

pub data BlockReach : World → Type 0 where
  here : BlockReach start
  block : {w w' : World} → BlockReach w → Block w w' → BlockReach w'
