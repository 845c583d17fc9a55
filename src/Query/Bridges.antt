-- ===== src/Query/Bridges.antt =====
-- crates/ga-query/src/bridges.rs: the graph that the database's rows make, and the answer. The
-- database is that of `Query/Degrees`; the floats are those of `Query/Brandes`.
pub mod Graph
pub mod Answer
pub mod Total
use graphatlas.Prelude.{
  ℕ, zero, suc, ◌+◌, ◌-◌, ◌*◌, ◌/◌, ◌%◌, ◌^◌, ◌==◌, ltb, leb, String, str_eq, List, [], ◌∷◌, ◌++◌,
  Option, none, some, Bool, true, false, not, ◌&&◌, ◌||◌, if◌then◌else◌, length, get_elem?, map,
}
use graphatlas.Prelude.Text.{codes, eq_text, le_text}
use graphatlas.Prelude.Sort.{sort_by, take}
use graphatlas.Query.Impact.{is_safe_ident}
use graphatlas.Query.Distance.{suggest_similar}
use graphatlas.Query.Degrees.{Column, text, int64, null, GraphDb, Key, same_key, one_line}
use graphatlas.Query.Hubs.{clamped, text_or_empty, line_of, all_names}
use graphatlas.Query.Brandes.{Floats, put, Vector, brandes}

pub record BridgeNode : Type 0 where
  pub key : Key
  pub kind : String
  pub line : ℕ

pub record BridgesMeta : Type 0 where
  pub total_nodes : ℕ
  pub total_edges : ℕ
  pub sampled : Bool
  pub sample_size : ℕ
  pub truncated : Bool
  pub target_rank : Option ℕ
  pub target_found : Bool
  pub suggestion : List String

pub record BridgesRequest : Type 0 where
  pub top_n : ℕ
  pub symbol : Option String
  pub file : Option String

abbrev pub sample_threshold : ℕ
sample_threshold = 5000

abbrev pub sample_size_max : ℕ
sample_size_max = 500

-- One row of the symbols, once it has four columns.
abbrev pub node_of : Column → Column → Column → Column → Option BridgeNode
node_of (text name) (text file) kind line =
    if not (str_eq name "") && is_safe_ident name && (not (str_eq file "") && one_line file)
    then some (record { key = (name, file); kind = text_or_empty kind; line = line_of line })
    else none
node_of (text name) (int64 i) kind line = none
node_of (text name) null kind line = none
node_of (int64 i) file kind line = none
node_of null file kind line = none

abbrev pub node_row : List Column → Option BridgeNode
node_row (a ∷ (b ∷ (c ∷ (d ∷ cs)))) = node_of a b c d
node_row (a ∷ (b ∷ (c ∷ []))) = none
node_row (a ∷ (b ∷ [])) = none
node_row (a ∷ []) = none
node_row [] = none

-- `idx`: where the key stands among the nodes.
unfoldable pub position : Key → List BridgeNode → Option ℕ
position k [] = none
position k (b ∷ bs) =
    let rest = position k bs in
    if same_key b.key k then some 0 else elim rest [ none ↦ none | some i ↦ some (suc i) ]

-- The index is an u32.
abbrev pub idx : Key → List BridgeNode → Option ℕ
idx k nodes = elim (position k nodes) [ none ↦ none | some i ↦ some (i % 2 ^ 32) ]

abbrev pub add_node : Option BridgeNode → List BridgeNode → List BridgeNode
add_node none nodes = nodes
add_node (some b) nodes = elim (position b.key nodes) [ none ↦ nodes ++ (b ∷ []) | some i ↦ nodes ]

abbrev pub load_nodes : List (List Column) → List BridgeNode → List BridgeNode
load_nodes [] nodes = nodes
load_nodes (r ∷ rs) nodes = load_nodes rs (add_node (node_row r) nodes)

abbrev pub Adjacency : Type 0
Adjacency = ℕ → List ℕ

-- A text that is not empty.
abbrev pub full_text : Column → Option String
full_text (text s) = if str_eq s "" then none else some s
full_text (int64 i) = none
full_text null = none

abbrev pub key_of : Column → Column → Option Key
key_of a b = elim (full_text a) [
  | none ↦ none
  | some name ↦ elim (full_text b) [ none ↦ none | some file ↦ some (name, file) ]
]

-- The ends of a row's edge, among the nodes.
abbrev pub ends_of : List BridgeNode → Option Key → Option Key → Option (ℕ × ℕ)
ends_of nodes none t = none
ends_of nodes (some s) none = none
ends_of nodes (some s) (some t) = elim (idx s nodes) [
  | none ↦ none
  | some u ↦ elim (idx t nodes) [ none ↦ none | some v ↦ if u == v then none else some (u, v) ]
]

unfoldable pub edge_row : List BridgeNode → List Column → Option (ℕ × ℕ)
edge_row nodes (a ∷ (b ∷ (c ∷ (d ∷ cs)))) = ends_of nodes (key_of a b) (key_of c d)
edge_row nodes (a ∷ (b ∷ (c ∷ []))) = none
edge_row nodes (a ∷ (b ∷ [])) = none
edge_row nodes (a ∷ []) = none
edge_row nodes [] = none

abbrev pub push : ℕ → ℕ → Adjacency → Adjacency
push u v adj = put u (adj u ++ (v ∷ [])) adj

-- The total is an u64 that counts rows; no machine holds 2^64 of them.
unfoldable pub load_edges : List BridgeNode → List (List Column) → Adjacency × ℕ → Adjacency × ℕ
load_edges nodes [] g = g
load_edges nodes (r ∷ rs) (adj, total) = elim (edge_row nodes r) [
  | none ↦ load_edges nodes rs (adj, total)
  | some (u, v) ↦ load_edges nodes rs (push v u (push u v adj), total + 1)
]

-- `dedup` on a sorted list: an element that equals the one before it is dropped.
unfoldable pub dedup_after : ℕ → List ℕ → List ℕ
dedup_after x [] = []
dedup_after x (y ∷ ys) = let rest = dedup_after y ys in if x == y then rest else y ∷ rest

abbrev pub dedup : List ℕ → List ℕ
dedup [] = []
dedup (x ∷ xs) = x ∷ dedup_after x xs

unfoldable pub sorted_lists : Adjacency → Adjacency
sorted_lists adj u = dedup (sort_by leb (adj u))

abbrev pub calls_text : String
calls_text = "MATCH (s:Symbol)-[:CALLS]->(t:Symbol) RETURN s.name, s.file, t.name, t.file"

abbrev pub references_text : String
references_text = "MATCH (s:Symbol)-[:REFERENCES]->(t:Symbol) RETURN s.name, s.file, t.name, t.file"

abbrev pub symbols_text : String
symbols_text = "MATCH (s:Symbol) WHERE s.kind <> 'external' RETURN s.name, s.file, s.kind, s.line"

unfoldable pub load_graph : GraphDb → List BridgeNode → Option (Adjacency × ℕ)
load_graph db nodes = elim (db.query calls_text) [
  | none ↦ none
  | some calls ↦ elim (db.query references_text) [
    | none ↦ none
    | some references ↦
        let (adj, total) = load_edges nodes references (load_edges nodes calls (λ _. [], 0)) in
        some (sorted_lists adj, total)
  ]
]

-- `(i..n).step_by(stride).take(count)`, as u32.
unfoldable pub stepped : ℕ → ℕ → ℕ → ℕ → List ℕ
stepped n stride i zero = []
stepped n stride i (suc count) =
    let rest = stepped n stride (i + stride) count in if ltb i n then i % 2 ^ 32 ∷ rest else []

abbrev pub at_least_one : ℕ → ℕ
at_least_one n = if ltb n 1 then 1 else n

unfoldable pub pick_sources : ℕ → List ℕ × Bool
pick_sources n =
    if ltb sample_threshold n
    then (stepped n (at_least_one (n / sample_size_max)) 0 sample_size_max, true)
    else (stepped n 1 0 n, false)
