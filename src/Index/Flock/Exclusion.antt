-- ===== src/Index/Flock/Exclusion.antt =====
-- What the locks do exclude.
use graphatlas.Prelude.{ℕ, ◌≡◌, arith, some}
use graphatlas.Index.Lock.{LockMode, exclusive, shared}
use graphatlas.Index.Flock.{
  Phase, idle, opened, holding, unlocked, World, set_phase, Grants, unlinked, Block,
  acquire_existing, acquire_new, release, die, BlockReach,
}
use graphatlas.Index.Flock

-- On each inode an exclusive holder is alone.
abbrev pub IsExclusive : World → Type 0
IsExclusive w =
    (p q i : ℕ) (mode : LockMode)
    → w.proc p ≡ holding i exclusive
    → w.proc q ≡ holding i mode
    → p ≡ q

abbrev IsHolding : Phase → Type 0
IsHolding (holding i mode) = Unit
IsHolding _ = ⊥

-- A process that comes to hold nothing changes nothing for the others.
set_phase-IsExclusive :
    (r : ℕ) (phase : Phase) (w : World)
    → ¬ IsHolding phase
    → IsExclusive w
    → IsExclusive (set_phase r phase w)
set_phase-IsExclusive r idle w n h p q i mode hp hq = ground (arith, h p q i mode)
set_phase-IsExclusive r (opened j) w n h p q i mode hp hq = ground (arith, h p q i mode)
set_phase-IsExclusive r (holding j m) w n h p q i mode hp hq = absurd (n tt)
set_phase-IsExclusive r (unlocked j m) w n h p q i mode hp hq = ground (arith, h p q i mode)

lock-IsExclusive :
    (r j : ℕ) (m : LockMode) (w : World)
    → Grants m j w
    → IsExclusive w
    → IsExclusive (set_phase r (holding j m) w)
lock-IsExclusive r j exclusive w g h p q i mode hp hq =
    ground (arith, h p q i mode, g p exclusive, g q mode)
lock-IsExclusive r j shared w g h p q i mode hp hq = ground (arith, h p q i mode, g p)

unlinked-IsExclusive : (m : LockMode) (w : World) → IsExclusive w → IsExclusive (unlinked m w)
unlinked-IsExclusive exclusive w h = h
unlinked-IsExclusive shared w h = h

-- All holders hold the file that the path names, which is no fresh inode.
abbrev IsCurrent : World → Type 0
IsCurrent w = (p i : ℕ) (mode : LockMode) → w.proc p ≡ holding i mode → w.path ≡ some i

Block-keeps :
    {w w' : World} → Block w w' → IsExclusive w × IsCurrent w → IsExclusive w' × IsCurrent w'
Block-keeps {w} (acquire_existing p i mode a b g) (x, c) = (
  lock-IsExclusive p i mode (set_phase p (opened i) w) g
      (set_phase-IsExclusive p (opened i) w (λ x. x) x),
  λ q j m h. ground (arith, c q j m),
)
Block-keeps {w} (acquire_new p mode a b) (x, c) = (
  λ p' q i m hp hq. ground (arith, c p' i exclusive, c q i m),
  λ q j m h. ground (arith, c q j m),
)
Block-keeps {w} (release p i exclusive a) (x, c) = (
  set_phase-IsExclusive p idle (unlinked exclusive (set_phase p (unlocked i exclusive) w)) (λ x. x)
      (unlinked-IsExclusive exclusive (set_phase p (unlocked i exclusive) w)
        (set_phase-IsExclusive p (unlocked i exclusive) w (λ x. x) x)),
  λ q j m h. ground (arith, c q j m, c p i exclusive, x p q i m),
)
Block-keeps {w} (release p i shared a) (x, c) = (
  set_phase-IsExclusive p idle (unlinked shared (set_phase p (unlocked i shared) w)) (λ x. x)
      (unlinked-IsExclusive shared (set_phase p (unlocked i shared) w)
        (set_phase-IsExclusive p (unlocked i shared) w (λ x. x) x)),
  λ q j m h. ground (arith, c q j m),
)
Block-keeps {w} (die p) (x, c) =
    (set_phase-IsExclusive p idle w (λ x. x) x, λ q j m h. ground (arith, c q j m))

BlockReach-keeps : {w : World} → BlockReach w → IsExclusive w × IsCurrent w
BlockReach-keeps Flock.BlockReach.here = (λ p q i mode hp hq. cc, λ p i mode h. cc)
BlockReach-keeps (Flock.BlockReach.block r s) = Block-keeps s (BlockReach-keeps r)

-- If no process opens, locks, or unlinks between the two halves of another's acquire or release,
-- then an exclusive holder is the only holder of any file that lock.pid ever was.
pub uninterrupted_exclusion :
    {w : World}
    → BlockReach w
    → (p q i j : ℕ) (mode : LockMode) → w.proc p ≡ holding i exclusive
    → w.proc q ≡ holding j mode
    → p ≡ q
uninterrupted_exclusion {w} r p q i j mode hp hq =
    let (x, c) = BlockReach-keeps r in ground (arith, c p i exclusive, c q j mode, x p q i mode)
