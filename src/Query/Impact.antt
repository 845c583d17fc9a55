-- ===== src/Query/Impact.antt =====
-- crates/ga-query/src/impact/bfs.rs, with `is_safe_ident` of crates/ga-query/src/common.rs: the
-- search over CALLS and REFERENCES from a symbol. The database is an argument: whether
-- `connection()` succeeds, and the rows that it answers to the text of a query. `none` stands for
-- an error. A hash set or map is a list or an association list: its order reaches no result, since
-- the files are sorted.
pub mod Bounds
pub mod Linked
pub mod Answer
use Prim.Native.String.{compare as compare_texts}
use text.Mathlib.Text.{is_le}
use graphatlas.Prelude.{
  ℕ, zero, suc, ◌+◌, ltb, leb, ◌==◌, String, ◌<>◌, str_eq, Option, none, some, Bool, true, false,
  not, ◌&&◌, ◌||◌, if◌then◌else◌, List, [], ◌∷◌, ◌++◌, any, length,
}
use graphatlas.Prelude.Assoc.{Assoc, get, insert}
use graphatlas.Prelude.Text.{codes}

-- A column of a row.
pub data Value : Type 0 where
  string : String → Value
  other : Value

abbrev pub Row : Type 0
Row = List Value

pub record Database : Type 0 where
  pub connects : Bool
  pub query : String → Option (List Row)

pub data ImpactReason : Type 0 where
  seed caller callee co_change : ImpactReason

-- The fields that the search fills; the others keep their defaults.
pub record ImpactedFile : Type 0 where
  pub path : String
  pub depth : ℕ
  pub reason : ImpactReason

abbrev pub Impacted : Type 0
Impacted = Assoc (ℕ × ImpactReason)

abbrev pub max_visited : ℕ
max_visited = 500

abbrev pub is_safe_code : ℕ → Bool
is_safe_code c =
    leb 48 c && leb c 57
    || (leb 65 c && leb c 90 || (leb 97 c && leb c 122 || (c == 95 || (c == 36 || c == 46))))

abbrev pub all_safe : List ℕ → Bool
all_safe [] = true
all_safe (c ∷ cs) = is_safe_code c && all_safe cs

unfoldable pub is_safe_ident : String → Bool
is_safe_ident s = not (str_eq s "") && all_safe (codes s)

-- The first column of the rows that start with a text.
abbrev pub first_texts : List Row → List String
first_texts [] = []
first_texts ([] ∷ rows) = first_texts rows
first_texts ((string f ∷ row) ∷ rows) = f ∷ first_texts rows
first_texts ((other ∷ row) ∷ rows) = first_texts rows

-- The first two columns of the rows where both are texts.
abbrev pub text_pairs : List Row → List (String × String)
text_pairs [] = []
text_pairs ([] ∷ rows) = text_pairs rows
text_pairs ((v ∷ []) ∷ rows) = text_pairs rows
text_pairs ((string s ∷ (string f ∷ row)) ∷ rows) = (s, f) ∷ text_pairs rows
text_pairs ((string s ∷ (other ∷ row)) ∷ rows) = text_pairs rows
text_pairs ((other ∷ (v ∷ row)) ∷ rows) = text_pairs rows

abbrev pub def_files_text : String → String
def_files_text name =
    "MATCH (s:Symbol) WHERE s.name = '"
    <> (name <> "' AND s.kind <> 'external' RETURN DISTINCT s.file")

abbrev pub incoming_text : String → String → String
incoming_text rel name =
    "MATCH (src:Symbol)-[:"
    <> (rel
        <> ("]->(tgt:Symbol) WHERE tgt.name = '"
            <> (name <> "' AND src.kind <> 'external' RETURN src.name, src.file")))

abbrev pub outgoing_text : String → String → String
outgoing_text rel name =
    "MATCH (src:Symbol)-[:"
    <> (rel
        <> ("]->(tgt:Symbol) WHERE src.name = '"
            <> (name <> "' AND tgt.kind <> 'external' RETURN tgt.name, tgt.file")))

abbrev pub sibling_text : String → String
sibling_text name =
    "MATCH (s:Symbol)<-[:CONTAINS]-(cls:Symbol)-[:CONTAINS]->(sib:Symbol)-[:CALLS]->(t:Symbol) WHERE s.name = '"
    <> (name <> "' AND t.kind <> 'external' RETURN DISTINCT t.file")

unfoldable pub upsert_impacted : String → ℕ → ImpactReason → Impacted → Impacted
upsert_impacted file depth reason m = elim (get file m) [
  | some entry ↦ if ltb depth entry.0 then insert file (depth, reason) m else m
  | none ↦ insert file (depth, reason) m
]

-- `entry(path).or_insert((2, Callee))`.
unfoldable pub insert_absent : String → Impacted → Impacted
insert_absent file m = elim (get file m) [ some entry ↦ m | none ↦ insert file (2, callee) m ]

abbrev pub insert_all : List String → Impacted → Impacted
insert_all [] m = m
insert_all (f ∷ fs) m = insert_all fs (insert_absent f m)

abbrev pub seed_all : List String → Impacted → Impacted
seed_all [] m = m
seed_all (f ∷ fs) m = seed_all fs (insert f (0, seed) m)

abbrev pub visited_mem : String → List String → Bool
visited_mem s l = any (λ q. str_eq q s) l

-- One depth of the search; `stopped` once the code is out by `break 'outer`.
pub record Level : Type 0 where
  pub impacted : Impacted
  pub visited : List String
  pub next : List String
  pub stopped : Bool

-- `visited.insert(sym)`, and `next.push(sym)` where it was new.
unfoldable pub discover : String → Level → Level
discover sym l =
    if visited_mem sym l.visited
    then l
    else record l { visited = sym ∷ l.visited; next = l.next ++ sym ∷ [] }

-- The body of the loops over edges, which does nothing after the break.
unfoldable pub edge : ℕ → ImpactReason → String × String → Level → Level
unfolding discover
edge depth reason e l =
    if l.stopped
    then l
    else if leb max_visited (length l.visited)
    then record l { stopped = true }
    else discover e.0 (record l { impacted = upsert_impacted e.1 depth reason l.impacted })

unfoldable pub edges : ℕ → ImpactReason → List (String × String) → Level → Level
unfolding edge
edges depth reason [] l = l
edges depth reason (e ∷ es) l = edges depth reason es (edge depth reason e l)

pub record Traversal : Type 0 where
  pub impacted : Impacted
  pub visited : List String
  pub completeness : ℕ

abbrev pub start_level : Traversal → Level
start_level t = record { impacted = t.impacted; visited = t.visited; next = []; stopped = false }

abbrev pub after_level : ℕ → Level → Traversal
after_level completeness l = record {
  impacted = l.impacted;
  visited = l.visited;
  completeness = completeness;
}

-- The order of the answer: by depth, then by path.
abbrev pub before : ImpactedFile → ImpactedFile → Bool
before a b = ltb a.depth b.depth || (a.depth == b.depth && is_le (compare_texts a.path b.path))

abbrev pub insert_sorted : ImpactedFile → List ImpactedFile → List ImpactedFile
insert_sorted x [] = x ∷ []
insert_sorted x (y ∷ ys) = if before x y then x ∷ y ∷ ys else y ∷ insert_sorted x ys

abbrev pub sort_files : Impacted → List ImpactedFile
sort_files [] = []
sort_files ((p, (d, r)) ∷ m) =
    insert_sorted (record { path = p; depth = d; reason = r }) (sort_files m)

module _ (db : Database) where
  unfoldable pub query_def_files : String → Option (List String)
  query_def_files name = elim (db.query (def_files_text name)) [
    | none ↦ none
    | some rows ↦ some (first_texts rows)
  ]

  -- Both relations, CALLS first.
  abbrev pub both : String → String → Option (List (String × String))
  both calls references = elim (db.query calls) [
    | none ↦ none
    | some a ↦ elim (db.query references) [
      | none ↦ none
      | some b ↦ some (text_pairs a ++ text_pairs b)
    ]
  ]

  unfoldable pub query_incoming : String → Option (List (String × String))
  query_incoming name = both (incoming_text "CALLS" name) (incoming_text "REFERENCES" name)

  unfoldable pub query_outgoing : String → Option (List (String × String))
  query_outgoing name = both (outgoing_text "CALLS" name) (outgoing_text "REFERENCES" name)

  unfoldable pub add_sibling_method_files : String → Impacted → Option Impacted
  unfolding insert_absent
  add_sibling_method_files name m =
      if not (is_safe_ident name) then some m else elim (db.query (sibling_text name)) [
        | none ↦ none
        | some rows ↦ some (insert_all (first_texts rows) m)
      ]

  unfoldable pub visit_callees : ℕ → String → Level → Option Level
  unfolding edges
  visit_callees depth name l =
      if l.stopped
      then some l
      else elim (query_outgoing name) [ none ↦ none | some es ↦ some (edges depth callee es l) ]

  unfoldable pub visit : ℕ → String → Level → Option Level
  unfolding visit_callees
  visit depth name l =
      if l.stopped || not (is_safe_ident name) then some l else elim (query_incoming name) [
        | none ↦ none
        | some es ↦ visit_callees depth name (edges depth caller es l)
      ]

  unfoldable pub expand : ℕ → List String → Level → Option Level
  unfolding visit
  expand depth [] l = some l
  expand depth (name ∷ frontier) l = elim (visit depth name l) [
    | none ↦ none
    | some l' ↦ expand depth frontier l'
  ]

  -- `'outer: for depth in ..`, with the number of depths left.
  unfoldable pub depths : ℕ → ℕ → List String → Traversal → Option Traversal
  unfolding expand
  depths zero depth frontier t = some t
  depths (suc left) depth frontier t =
      if leb max_visited (length t.visited)
      then some t
      else elim (expand depth frontier (start_level t)) [
        | none ↦ none
        | some l ↦ if l.stopped then some (after_level t.completeness l) else elim l.next [
          | [] ↦ some (after_level t.completeness l)
          | n ∷ ns ↦ depths left (suc depth) (n ∷ ns) (after_level depth l)
        ]
      ]

  unfoldable pub search : String → ℕ → List String → Option (List ImpactedFile × ℕ × List String)
  unfolding depths add_sibling_method_files
  search symbol max_depth [] = some ([], 0, [])
  search symbol max_depth (f ∷ fs) =
      elim (depths max_depth 1 (symbol ∷ [])
        (record { impacted = seed_all (f ∷ fs) []; visited = symbol ∷ []; completeness = 0 })) [
          | none ↦ none
          | some t ↦ elim (add_sibling_method_files symbol t.impacted) [
            | none ↦ none
            | some m ↦ some (sort_files m, t.completeness, t.visited)
          ]
        ]

  unfoldable pub bfs_from_symbol : String → ℕ → Option (List ImpactedFile × ℕ × List String)
  unfolding search
  bfs_from_symbol symbol max_depth =
      if not db.connects then none else elim (query_def_files symbol) [
        | none ↦ none
        | some files ↦ search symbol max_depth files
      ]
