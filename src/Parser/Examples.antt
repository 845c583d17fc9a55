-- ===== src/Parser/Examples.antt =====
-- Checks of one repository, at which the theorems apply.
use graphatlas.Prelude.{
  ℕ, ◌+◌, ◌^◌, ◌<◌, ltb, String, List, [], ◌∷◌, Option, none, some, false, if◌then◌else◌, ◌≡◌, refl,
  arith,
}
use graphatlas.Prelude.Text.{codes}
use graphatlas.Prelude.Paths.{same_path}
use graphatlas.Parser.Staleness.{
  StaleResult, StalenessChecker, new_checker, disabled_by_env, compute_now, is_fresh, current_hash,
  check,
}
use graphatlas.Parser.Freshness.{Check, Op, computes, run, step, IsCurrent, check_is_recent}
use graphatlas.Parser.ChangeDetect.{
  Entry, ChangeSet, Known, known_hash, detect_changed_files, classify, sort_entry, add_deleted,
}
use graphatlas.Parser.Buckets.{IsClassified, detect_changed_files-IsClassified}

abbrev checker : StalenessChecker
checker = new_checker none

abbrev checks_in_window : List Check
checks_in_window =
    record { now = 1_000; computed = some "h"; indexed = "h" }
    ∷ record { now = 2_000; computed = some "k"; indexed = "h" }
    ∷ []

counter_small : checker.compute_counter + 1 < 2 ^ 64
unfolding new_checker
counter_small = omega arith

-- The hash changes at the time 1500.
abbrev hash_at : ℕ → Option String
hash_at t = if ltb t 1_500 then some "h" else some "k"

abbrev calls : List Op
calls = computes 1_000 ∷ []

abbrev answered : StaleResult
answered = record { stale = false; indexed_root_hash = "h"; current_hash = "h"; degraded = false }

answers :
    (check false 2_000 (hash_at 2_000) "h" (run false hash_at calls (new_checker none))).0
    ≡ some answered
unfolding new_checker disabled_by_env run step compute_now check current_hash is_fresh
answers = refl

check_is_recent_example : IsCurrent false hash_at 2_000 "h" answered
check_is_recent_example = check_is_recent false hash_at none calls 2_000 "h" answered answers

-- One file is new, one has changed, and one is gone.
abbrev entries : List Entry
entries =
    record { rel_path = codes "new.rs"; abs_path = "/r/new.rs" }
    ∷ record { rel_path = codes "old.rs"; abs_path = "/r/old.rs" }
    ∷ []

abbrev known : Known
known = (codes "old.rs", "0") ∷ (codes "gone.rs", "0") ∷ []

abbrev hash : String → Option String
hash path = some "1"

abbrev changes : ChangeSet
changes = record {
  added = codes "new.rs" ∷ [];
  modified = codes "old.rs" ∷ [];
  unchanged = [];
  deleted = codes "gone.rs" ∷ [];
}

detects : detect_changed_files hash known (some entries) ≡ some changes
unfolding detect_changed_files classify sort_entry add_deleted known_hash same_path
detects = refl

detect_changed_files-IsClassified_example : IsClassified hash known (codes "old.rs") entries changes
detect_changed_files-IsClassified_example =
    detect_changed_files-IsClassified hash known entries changes detects (codes "old.rs")
