-- ===== src/Query/Degrees.antt =====
-- crates/ga-query/src/hubs.rs: the counts of the edges that touch each symbol. The database is an
-- argument: whether `connection()` succeeds, and the rows that it answers to a query; `none` stands
-- for an error. A `BTreeMap` is an association list.
use graphatlas.Prelude.{
  ℕ, ◌+◌, ◌-◌, ◌%◌, ◌^◌, ◌==◌, String, ◌<>◌, str_eq, List, [], ◌∷◌, ◌++◌, Option, none, some, Bool,
  not, ◌&&◌, if◌then◌else◌, any,
}
use graphatlas.Prelude.Text.{codes}
use graphatlas.Query.Impact.{is_safe_ident}

-- A column; an integer by its 64 bits.
pub data Column : Type 0 where
  text : String → Column
  int64 : ℕ → Column
  null : Column

pub record GraphDb : Type 0 where
  pub connects : Bool
  pub query : String → Option (List (List Column))

pub data HubsEdgeTypes : Type 0 where
  default_edges all_edges : HubsEdgeTypes

abbrev pub Key : Type 0
Key = String × String

abbrev pub same_key : Key → Key → Bool
same_key (n, f) (m, g) = str_eq n m && str_eq f g

abbrev pub Counts : Type 0
Counts = List (Key × ℕ)

abbrev pub count_of : Key → Counts → Option ℕ
count_of k [] = none
count_of k ((j, n) ∷ m) = if same_key j k then some n else count_of k m

-- `*entry(k).or_insert(0) += 1` on u32.
abbrev pub bump : Key → Counts → Counts
bump k [] = (k, 1) ∷ []
bump k ((j, n) ∷ m) = if same_key j k then (j, (n + 1) % 2 ^ 32) ∷ m else (j, n) ∷ bump k m

abbrev pub one_line : String → Bool
one_line s = not (any (λ c. c == 10) (codes s))

-- The key that a row counts for.
abbrev pub row_key : List Column → Option Key
row_key [] = none
row_key (c ∷ []) = none
row_key (text n ∷ (text f ∷ cs)) =
    if not (str_eq n "") && is_safe_ident n && (not (str_eq f "") && one_line f)
    then some (n, f)
    else none
row_key (text n ∷ (int64 i ∷ cs)) = none
row_key (text n ∷ (null ∷ cs)) = none
row_key (int64 i ∷ (c ∷ cs)) = none
row_key (null ∷ (c ∷ cs)) = none

abbrev pub count_rows : List (List Column) → Counts → Counts
count_rows [] dest = dest
count_rows (r ∷ rs) dest = elim (row_key r) [
  | none ↦ count_rows rs dest
  | some k ↦ count_rows rs (bump k dest)
]

abbrev pub count_into : GraphDb → String → Counts → Option Counts
count_into db cypher dest = elim (db.query cypher) [
  | none ↦ none
  | some rs ↦ some (count_rows rs dest)
]

abbrev pub target_text : String → String
target_text kind = "MATCH (s:Symbol)-[:" <> kind <> "]->(t:Symbol) RETURN t.name, t.file"

abbrev pub source_text : String → String
source_text kind = "MATCH (s:Symbol)-[:" <> kind <> "]->(t:Symbol) RETURN s.name, s.file"

abbrev pub file_text : String → String
file_text kind = "MATCH (f:File)-[:" <> kind <> "]->(t:Symbol) RETURN t.name, t.file"

-- `in_count` and `out_count`.
abbrev pub Degrees : Type 0
Degrees = Counts × Counts

abbrev pub count_kinds : GraphDb → List String → Degrees → Option Degrees
count_kinds db [] d = some d
count_kinds db (kind ∷ kinds) (ins, outs) = elim (count_into db (target_text kind) ins) [
  | none ↦ none
  | some ins' ↦ elim (count_into db (source_text kind) outs) [
    | none ↦ none
    | some outs' ↦ count_kinds db kinds (ins', outs')
  ]
]

abbrev pub count_files : GraphDb → List String → Degrees → Option Degrees
count_files db [] d = some d
count_files db (kind ∷ kinds) (ins, outs) = elim (count_into db (file_text kind) ins) [
  | none ↦ none
  | some ins' ↦ count_files db kinds (ins', outs)
]

abbrev pub symbol_symbol_edges : List String
symbol_symbol_edges =
    "CALLS" ∷ "REFERENCES" ∷ "EXTENDS" ∷ "TESTED_BY" ∷ "CONTAINS" ∷ "IMPLEMENTS" ∷ "DECORATES" ∷ []

abbrev pub file_symbol_edges : List String
file_symbol_edges = "IMPORTS_NAMED" ∷ "MODULE_TYPED" ∷ []

-- `saturating_sub` of one count; a key that was not counted is left out.
abbrev pub subtract_one : Key → ℕ → Counts → Counts
subtract_one k n [] = []
subtract_one k n ((j, v) ∷ m) = if same_key j k then (j, v - n) ∷ m else (j, v) ∷ subtract_one k n m

abbrev pub subtract : Counts → Counts → Counts
subtract [] m = m
subtract ((k, n) ∷ ks) m = subtract ks (subtract_one k n m)

abbrev pub without_heuristic : GraphDb → HubsEdgeTypes → Degrees → Option Degrees
without_heuristic db all_edges d = some d
without_heuristic db default_edges (ins, outs) =
    elim (count_into db (target_text "CALLS_HEURISTIC") []) [
      | none ↦ none
      | some heur_in ↦ elim (count_into db (source_text "CALLS_HEURISTIC") []) [
        | none ↦ none
        | some heur_out ↦ some (subtract heur_in ins, subtract heur_out outs)
      ]
    ]

abbrev pub or_zero : Option ℕ → ℕ
or_zero none = 0
or_zero (some n) = n

-- `seen`: the keys of either map with both counts.
abbrev pub seen_in : Counts → Counts → List (Key × (ℕ × ℕ))
seen_in [] outs = []
seen_in ((k, n) ∷ m) outs = (k, (n, or_zero (count_of k outs))) ∷ seen_in m outs

abbrev pub seen_out : Counts → Counts → List (Key × (ℕ × ℕ))
seen_out ins [] = []
seen_out ins ((k, n) ∷ m) = elim (count_of k ins) [
  | none ↦ (k, (0, n)) ∷ seen_out ins m
  | some i ↦ seen_out ins m
]

unfoldable pub degrees : GraphDb → HubsEdgeTypes → Option Degrees
degrees db edge_types = elim (count_kinds db symbol_symbol_edges ([], [])) [
  | none ↦ none
  | some d ↦ elim (count_files db file_symbol_edges d) [
    | none ↦ none
    | some d' ↦ without_heuristic db edge_types d'
  ]
]

abbrev pub seen_of : Degrees → List (Key × (ℕ × ℕ))
seen_of (ins, outs) = seen_in ins outs ++ seen_out ins outs
