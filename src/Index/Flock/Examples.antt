-- ===== src/Index/Flock/Examples.antt =====
-- Processes on one lock.pid, at which the theorems apply.
use graphatlas.Prelude.{◌≡◌, arith}
use graphatlas.Index.Lock.{exclusive}
use graphatlas.Index.Flock.{World, holding, Reach}
use graphatlas.Index.Flock.Race.{two_exclusive_holders}

two_exclusive_holders_example :
    (w : World) × Reach w × (w.proc 1 ≡ holding 1 exclusive) × (w.proc 2 ≡ holding 0 exclusive)
two_exclusive_holders_example =
    two_exclusive_holders 1 2 3 (ground arith) (ground arith) (ground arith)
