-- ===== src/Query/Incremental.antt =====
-- crates/ga-query/src/incremental.rs: which files an incremental reindex would parse. The walk of the
-- repository, the bytes of the files, BLAKE3 and the rows that the database answers are arguments.
-- A path is a text; a set or a map of paths compares them by their components.
pub mod Dirty
pub mod Dependents
use graphatlas.Prelude.{
  ℕ, zero, suc, ◌+◌, ◌-◌, ltb, leb, ◌==◌, Option, none, some, Bool, true, false, not, ◌&&◌, ◌||◌,
  if◌then◌else◌, List, [], ◌∷◌, ◌++◌, any, length,
}
use graphatlas.Prelude.Text.{codes, eq_text}
use graphatlas.Prelude.Paths.{same_path, le_path}
use graphatlas.Prelude.Sort.{take, sort_by}
use graphatlas.Mcp.Gate.{byte_of}

-- What a function of the module does: it answers, reports an error, or panics.
pub data Outcome {ℓ} (A : Type ℓ) : Type ℓ where
  ok : A → Outcome A
  failed panicked : Outcome A

abbrev pub after {ℓ κ} : {A : Type ℓ} {B : Type κ} → Outcome A → (A → Outcome B) → Outcome B
after (ok a) f = f a
after failed f = failed
after panicked f = panicked

-- A column of a row. A text is its bytes.
pub data Cell : Type 0 where
  string blob : List ℕ → Cell
  other : Cell

-- `connection()`, and the rows that it answers to a query.
pub record Graph : Type 0 where
  pub connects : Bool
  pub query : List ℕ → Option (List (List Cell))

-- What the walk reports of a file, with what reading it gives.
pub record Walked : Type 0 where
  pub rel_path : List ℕ
  pub bytes : Option (List ℕ)

pub record Tree : Type 0 where
  pub entries : Option (List Walked)
  pub blake3 : List ℕ → List ℕ

pub record IncrementalPlan : Type 0 where
  pub changed : List (List ℕ)
  pub dependents : List (List ℕ)
  pub truncated : Bool

abbrev pub incremental_enabled : Bool
incremental_enabled = false

abbrev pub max_reparse_files : ℕ
max_reparse_files = 500

unfoldable pub reparse_set : IncrementalPlan → List (List ℕ)
reparse_set p = p.changed ++ p.dependents

unfoldable pub normalize_relpath : List ℕ → List ℕ
normalize_relpath [] = []
normalize_relpath (c ∷ cs) = (if c == 92 then 47 else c) ∷ normalize_relpath cs

-- Whether a text may be cut before these bytes.
abbrev pub is_char_boundary : List ℕ → Bool
is_char_boundary [] = true
is_char_boundary (b ∷ bs) = ltb b 128 || leb 192 b

-- Two bytes at a time.
abbrev pub decode_pairs : List ℕ → Outcome (Option (List ℕ))
decode_pairs [] = ok (some [])
decode_pairs (a ∷ []) = panicked
decode_pairs (a ∷ (b ∷ rest)) =
    let later = decode_pairs rest in
    if is_char_boundary rest
    then elim (byte_of a b) [
      | none ↦ ok none
      | some x ↦ after later λ xs. ok (elim xs [ none ↦ none | some ys ↦ some (x ∷ ys) ])
    ]
    else panicked

unfoldable pub decode_hex32 : List ℕ → Outcome (Option (List ℕ))
decode_hex32 hex = if length hex == 64 then decode_pairs hex else ok none

abbrev pub zeros : List ℕ
zeros = zero_bytes 32
  where
    zero_bytes : ℕ → List ℕ
    zero_bytes zero = []
    zero_bytes (suc n) = 0 ∷ zero_bytes n

abbrev pub cell_hash : Cell → Outcome (List ℕ)
cell_hash (blob b) = ok (if length b == 32 then b else zeros)
cell_hash (string s) = after (decode_hex32 s) λ h. ok (elim h [ none ↦ zeros | some bytes ↦ bytes ])
cell_hash other = ok zeros

abbrev pub Snapshot : Type 0
Snapshot = List (List ℕ × List ℕ)

-- `HashMap::insert` keeps the key that stands there.
unfoldable pub record_hash : List ℕ → List ℕ → Snapshot → Snapshot
record_hash p h [] = (p, h) ∷ []
record_hash p h ((q, g) ∷ m) = if same_path q p then (q, h) ∷ m else (q, g) ∷ record_hash p h m

unfoldable pub recorded : List ℕ → Snapshot → Option (List ℕ)
recorded p [] = none
recorded p ((q, g) ∷ m) = if same_path q p then some g else recorded p m

-- One row; a row without a path is passed over.
abbrev pub record_row : List Cell → Snapshot → Outcome Snapshot
record_row [] m = ok m
record_row (c ∷ []) m = ok m
record_row (string p ∷ (h ∷ cs)) m =
    if eq_text p []
    then ok m
    else after (cell_hash h) λ bytes. ok (record_hash (normalize_relpath p) bytes m)
record_row (blob b ∷ (h ∷ cs)) m = ok m
record_row (other ∷ (h ∷ cs)) m = ok m

abbrev pub record_rows : List (List Cell) → Snapshot → Outcome Snapshot
record_rows [] m = ok m
record_rows (r ∷ rs) m = after (record_row r m) (record_rows rs)

unfoldable pub snapshot_all_indexed_sha256 : Graph → Outcome Snapshot
snapshot_all_indexed_sha256 g =
    if g.connects
    then elim (g.query (codes "MATCH (f:File) RETURN f.path, f.sha256")) [
      | none ↦ ok []
      | some rs ↦ record_rows rs []
    ]
    else failed

abbrev pub has_path : List ℕ → List (List ℕ) → Bool
has_path p l = any (λ q. same_path q p) l

-- `HashSet::insert`.
unfoldable pub add_path : List ℕ → List (List ℕ) → List (List ℕ)
add_path p l = if has_path p l then l else p ∷ l

abbrev pub same_hash : Option (List ℕ) → List ℕ → Bool
same_hash none h = false
same_hash (some g) h = eq_text g h

abbrev pub is_changed : (List ℕ → List ℕ) → Snapshot → Walked → Bool
is_changed hash snap w = elim (w.bytes) [
  | none ↦ false
  | some b ↦ not (same_hash (recorded (normalize_relpath w.rel_path) snap) (hash b))
]

-- The loop over the walked files, once for each of the two sets that it fills.
unfoldable pub changed_files :
    (List ℕ → List ℕ) → Snapshot → List Walked → List (List ℕ) → List (List ℕ)
changed_files hash snap [] dirty = dirty
changed_files hash snap (w ∷ ws) dirty =
    changed_files hash snap ws
      (if is_changed hash snap w then add_path (normalize_relpath w.rel_path) dirty else dirty)

unfoldable pub on_disk : List Walked → List (List ℕ) → List (List ℕ)
on_disk [] disk = disk
on_disk (w ∷ ws) disk = on_disk ws (add_path (normalize_relpath w.rel_path) disk)

-- The recorded paths that are not on disk.
unfoldable pub add_missing : List (List ℕ) → Snapshot → List (List ℕ) → List (List ℕ)
add_missing disk [] dirty = dirty
add_missing disk ((p, h) ∷ m) dirty =
    add_missing disk m (if has_path p disk then dirty else add_path p dirty)

abbrev pub dirty_of : (List ℕ → List ℕ) → Snapshot → List Walked → List (List ℕ)
dirty_of hash snap ws =
    sort_by le_path (add_missing (on_disk ws []) snap (changed_files hash snap ws []))

unfoldable pub dirty_paths : Graph → Tree → Outcome (List (List ℕ))
unfolding snapshot_all_indexed_sha256
dirty_paths g t =
    after (snapshot_all_indexed_sha256 g)
      λ snap. elim (t.entries) [ none ↦ failed | some ws ↦ ok (dirty_of (t.blake3) snap ws) ]

abbrev pub dependents_text : List ℕ → List ℕ
dependents_text s =
    codes
      "MATCH (n:File)-[:CONTAINS]->(:Symbol)-[:CALLS|IMPORTS|IMPORTS_NAMED|CALLS_HEURISTIC]->(t:Symbol) WHERE t.file_path = '"
    ++ (s ++ codes "' RETURN DISTINCT n.path LIMIT 1000")

abbrev pub quotable : List ℕ → Bool
quotable s = not (any (λ c. c == 39 || (c == 10 || c == 13)) s)

-- The rows of one seed.
unfoldable pub add_dependents : List (List ℕ) → List (List Cell) → List (List ℕ) → List (List ℕ)
add_dependents seeds [] deps = deps
add_dependents seeds ([] ∷ rs) deps = add_dependents seeds rs deps
add_dependents seeds ((string p ∷ cs) ∷ rs) deps = add_dependents seeds rs (
    if eq_text p [] || has_path (normalize_relpath p) seeds
    then deps
    else add_path (normalize_relpath p) deps)
add_dependents seeds ((blob b ∷ cs) ∷ rs) deps = add_dependents seeds rs deps
add_dependents seeds ((other ∷ cs) ∷ rs) deps = add_dependents seeds rs deps

abbrev pub rows_of : Option (List (List Cell)) → List (List Cell)
rows_of none = []
rows_of (some rs) = rs

unfoldable pub seed_dependents :
    Graph → List (List ℕ) → List (List ℕ) → List (List ℕ) → List (List ℕ)
seed_dependents g seeds [] deps = deps
seed_dependents g seeds (s ∷ ss) deps =
    seed_dependents g seeds ss (
      if quotable s
      then add_dependents seeds (rows_of (g.query (dependents_text s))) deps
      else deps)

abbrev pub cut_dependents : ℕ → List (List ℕ) → List (List ℕ) × Bool
cut_dependents n deps =
    let out = sort_by le_path deps in
    if ltb max_reparse_files (n + length deps)
    then (take (max_reparse_files - n) out, true)
    else (out, false)

unfoldable pub expand_dependents : Graph → List (List ℕ) → Outcome (List (List ℕ) × Bool)
expand_dependents g [] = ok ([], false)
expand_dependents g (s ∷ ss) =
    if g.connects
    then ok (cut_dependents (length (s ∷ ss)) (seed_dependents g (s ∷ ss) (s ∷ ss) []))
    else failed

abbrev pub planned : List (List ℕ) → List (List ℕ) × Bool → Option IncrementalPlan
planned paths (deps, true) = none
planned paths (deps, false) =
    some (record { changed = paths; dependents = deps; truncated = false })

abbrev pub plan_changed : Graph → List (List ℕ) → Outcome (Option IncrementalPlan)
plan_changed g [] = ok (some (record { changed = []; dependents = []; truncated = false }))
plan_changed g (p ∷ ps) = after (expand_dependents g (p ∷ ps)) λ d. ok (planned (p ∷ ps) d)

unfoldable pub plan : Graph → Tree → Outcome (Option IncrementalPlan)
plan g t = if not incremental_enabled then ok none else after (dirty_paths g t) (plan_changed g)
