-- ===== src/Index/Flock/Race.antt =====
-- What the locks do not exclude: `release` unlinks lock.pid after it has unlocked.
use graphatlas.Prelude.{ℕ, ◌≡◌, refl, ◌≢◌, arith}
use graphatlas.Index.Lock.{exclusive}
use graphatlas.Index.Flock.{
  idle, opened, holding, unlocked, World, set_phase, created, unlinked, open_existing, open_new,
  lock, unlock, unlink, start, Reach,
}

module _ (p q r : ℕ) where
  -- r builds; q opens the file; r unlocks, q locks, r unlinks; p creates another file.
  abbrev built : World
  built = set_phase r (holding 0 exclusive) (set_phase r (opened 0) (created start))

  abbrev taken : World
  taken =
      set_phase q (holding 0 exclusive)
        (set_phase r (unlocked 0 exclusive) (set_phase q (opened 0) built))

  abbrev both : World
  both =
      set_phase p (holding 1 exclusive)
        (set_phase p (opened 1) (created (set_phase r idle (unlinked exclusive taken))))

  built_Reach : Reach built
  built_Reach =
      Reach.step (Reach.step Reach.here (open_new r refl refl))
        (lock r 0 exclusive (ground arith) (λ a m. ground arith))

  taken_Reach : q ≢ r → Reach taken
  taken_Reach n =
      Reach.step
        (Reach.step (Reach.step built_Reach (open_existing q 0 (ground arith) refl))
          (unlock r 0 exclusive (ground arith)))
        (lock q 0 exclusive (ground arith) (λ a m. ground arith))

  both_Reach : q ≢ r → p ≢ q → p ≢ r → Reach both
  both_Reach n m l =
      Reach.step
        (Reach.step (Reach.step (taken_Reach n) (unlink r 0 exclusive (ground arith)))
          (open_new p (ground arith) refl))
        (lock p 1 exclusive (ground arith) (λ a k. ground arith))

-- Any two processes can come to hold lock.pid exclusively at the same time, on two inodes, where a
-- third one has released it.
pub two_exclusive_holders :
    (p q r : ℕ)
    → q ≢ r
    → p ≢ q
    → p ≢ r
    → (w : World) × Reach w × (w.proc p ≡ holding 1 exclusive) × (w.proc q ≡ holding 0 exclusive)
two_exclusive_holders p q r n m l = (both p q r, both_Reach p q r n m l, ground arith, ground arith)
