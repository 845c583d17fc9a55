-- ===== src/Query/Examples/Incremental.antt =====
-- One file changed, one was removed, and one cannot be read.
use graphatlas.Prelude.{
  ℕ, List, [], ◌∷◌, Option, none, some, true, false, if◌then◌else◌, ◌≡◌, refl, ◌⊎◌, ◌↔◌,
}
use graphatlas.Prelude.Text.{codes, eq_text}
use graphatlas.Prelude.Paths.{same_path, le_path}
use graphatlas.Prelude.Sort.{IsSorted, insert_by, sort_by}
use graphatlas.Query.Incremental.{
  Cell, string, blob, Graph, Walked, Tree, Snapshot, ok, zeros, normalize_relpath, record_hash,
  recorded, decode_hex32, snapshot_all_indexed_sha256, has_path, add_path, changed_files, on_disk,
  add_missing, dirty_paths, dependents_text,
}
use graphatlas.Query.Incremental.Dirty.{
  ascends, has_changed, is_recorded, is_walked, dirty_paths_iff,
}

abbrev rows : List ℕ → Option (List (List Cell))
rows q =
    if eq_text q (codes "MATCH (f:File) RETURN f.path, f.sha256")
    then some (
        (string (codes "src\\a.py") ∷ blob [] ∷ []) ∷ (string (codes "b.py") ∷ string [] ∷ []) ∷ [])
    else if eq_text q (dependents_text (codes "src/a.py"))
    then some ((string (codes "main.py") ∷ []) ∷ [])
    else none

abbrev graph : Graph
graph = record { connects = true; query = rows }

abbrev walked : List Walked
walked =
    record { rel_path = codes "src/a.py"; bytes = some (7 ∷ []) }
    ∷ record { rel_path = codes "c.py"; bytes = none }
    ∷ []

abbrev tree : Tree
tree = record { entries = some walked; blake3 = λ b. b }

abbrev snapshot : Snapshot
snapshot = (codes "src/a.py", zeros) ∷ (codes "b.py", zeros) ∷ []

abbrev dirty : List (List ℕ)
dirty = codes "b.py" ∷ codes "src/a.py" ∷ []

snapshot_is : snapshot_all_indexed_sha256 graph ≡ ok snapshot
unfolding snapshot_all_indexed_sha256 record_hash normalize_relpath same_path decode_hex32
snapshot_is = refl

dirty_is : dirty_paths graph tree ≡ ok dirty
unfolding dirty_paths snapshot_all_indexed_sha256 record_hash recorded normalize_relpath same_path
    decode_hex32 add_path changed_files on_disk add_missing sort_by insert_by le_path
dirty_is = refl

dirty_paths_iff_example :
    (out : List (List ℕ)) × (dirty_paths graph tree ≡ ok out)
    × IsSorted ascends out
    × ((p : List ℕ)
        → (has_path p out ≡ true) ↔ (
            (has_changed tree.blake3 snapshot p walked ≡ true)
            ⊎ ((is_recorded p snapshot ≡ true) × (is_walked p walked ≡ false))))
dirty_paths_iff_example = dirty_paths_iff graph tree snapshot walked snapshot_is refl
