-- ===== src/Query/Hubs.antt =====
-- crates/ga-query/src/hubs.rs: the symbols with the most edges. The order of the association lists
-- reaches no answer, since the leaderboard is sorted by the whole key at last.
pub mod Rank
use graphatlas.Prelude.{
  ℕ, zero, suc, ◌+◌, ◌-◌, ◌%◌, ◌^◌, ◌==◌, ltb, leb, min, String, ◌<>◌, str_eq, List, [], ◌∷◌, ◌++◌,
  Option, none, some, Bool, true, false, not, ◌&&◌, ◌||◌, if◌then◌else◌, length, any,
}
use graphatlas.Prelude.Text.{codes, eq_text, le_text}
use graphatlas.Prelude.Sort.{sort_by, take}
use graphatlas.Query.Impact.{is_safe_ident}
use graphatlas.Query.Distance.{suggest_similar}
use graphatlas.Query.Degrees.{
  Column, text, int64, null, GraphDb, HubsEdgeTypes, default_edges, all_edges, Key, same_key,
  Degrees, degrees, seen_of,
}

pub record HubEntry : Type 0 where
  pub name : String
  pub file : String
  pub kind : String
  pub line : ℕ
  pub in_degree : ℕ
  pub out_degree : ℕ
  pub total_degree : ℕ

pub record HubsMeta : Type 0 where
  pub total_symbols_with_edges : ℕ
  pub truncated : Bool
  pub target_rank : Option ℕ
  pub target_found : Bool
  pub suggestion : List String

pub record HubsResponse : Type 0 where
  pub hubs : List HubEntry
  pub meta : HubsMeta

pub record HubsRequest : Type 0 where
  pub top_n : ℕ
  pub symbol : Option String
  pub file : Option String
  pub edge_types : HubsEdgeTypes

abbrev pub top_n_cap : ℕ
top_n_cap = 100

-- `clamp(1, TOP_N_CAP)`.
abbrev pub clamped : ℕ → ℕ
clamped n = if ltb n 1 then 1 else min n top_n_cap

abbrev pub u32_max : ℕ
u32_max = 4_294_967_295

abbrev pub text_or_empty : Column → String
text_or_empty (text s) = s
text_or_empty (int64 i) = ""
text_or_empty null = ""

-- `*n as u32`.
abbrev pub line_of : Column → ℕ
line_of (text s) = 0
line_of (int64 i) = i % 2 ^ 32
line_of null = 0

-- `sym_meta`, the last row of a key first.
abbrev pub Symbols : Type 0
Symbols = List (Key × (String × ℕ))

abbrev pub meta_row : List Column → Symbols → Symbols
meta_row (text n ∷ (text f ∷ (k ∷ (l ∷ cs)))) m =
    if str_eq n "" || str_eq f "" then m else ((n, f), (text_or_empty k, line_of l)) ∷ m
meta_row _ m = m

abbrev pub sym_meta : List (List Column) → Symbols → Symbols
sym_meta [] m = m
sym_meta (r ∷ rs) m = sym_meta rs (meta_row r m)

abbrev pub symbol_of : Key → Symbols → Option (String × ℕ)
symbol_of k [] = none
symbol_of k ((j, v) ∷ m) = if same_key j k then some v else symbol_of k m

-- A key without a symbol, or without edges, is dropped.
abbrev pub entry_of : Symbols → Key × (ℕ × ℕ) → Option HubEntry
entry_of symbols (k, (ins, outs)) = elim (symbol_of k symbols) [
  | none ↦ none
  | some s ↦
      let total = min (ins + outs) u32_max in
      if total == 0
      then none
      else some (record {
        name = k.0;
        file = k.1;
        kind = s.0;
        line = s.1;
        in_degree = ins;
        out_degree = outs;
        total_degree = total;
      })
]

abbrev pub entries : Symbols → List (Key × (ℕ × ℕ)) → List HubEntry
entries symbols [] = []
entries symbols (k ∷ ks) = elim (entry_of symbols k) [
  | none ↦ entries symbols ks
  | some e ↦ e ∷ entries symbols ks
]

abbrev pub le_names : List ℕ → List ℕ → List ℕ → List ℕ → Bool
le_names file name file' name' =
    if eq_text file file' then le_text name name' else le_text file file'

-- More edges first, then more that come in, then by file and by name.
abbrev pub ranks_before : HubEntry → HubEntry → Bool
ranks_before a b =
    if not (a.total_degree == b.total_degree)
    then ltb b.total_degree a.total_degree
    else if not (a.in_degree == b.in_degree)
    then ltb b.in_degree a.in_degree
    else le_names (codes a.file) (codes a.name) (codes b.file) (codes b.name)

abbrev pub is_target : String → Option String → HubEntry → Bool
is_target name none h = str_eq h.name name
is_target name (some f) h = str_eq h.name name && str_eq h.file f

-- `position`, with the entry there.
abbrev pub position : (HubEntry → Bool) → List HubEntry → Option (ℕ × HubEntry)
position p [] = none
position p (h ∷ hs) =
    let rest = position p hs in
    if p h then some (0, h) else elim rest [ none ↦ none | some (i, e) ↦ some (suc i, e) ]

abbrev pub empty_response : HubsResponse
empty_response = record {
  hubs = [];
  meta = record {
    total_symbols_with_edges = 0;
    truncated = false;
    target_rank = none;
    target_found = false;
    suggestion = [];
  };
}

abbrev pub first_texts : List (List Column) → List String
first_texts [] = []
first_texts ([] ∷ rs) = first_texts rs
first_texts ((text s ∷ cs) ∷ rs) = s ∷ first_texts rs
first_texts ((int64 i ∷ cs) ∷ rs) = first_texts rs
first_texts ((null ∷ cs) ∷ rs) = first_texts rs

abbrev pub all_names : GraphDb → Option (List String)
all_names db = elim (db.query "MATCH (s:Symbol) RETURN DISTINCT s.name") [
  | none ↦ none
  | some rs ↦ some (first_texts rs)
]

-- The answer for one symbol: its rank among all.
unfoldable pub look_up : GraphDb → String → Option String → List HubEntry → HubsResponse
look_up db target file scored =
    if not (is_safe_ident target)
    then empty_response
    else elim (position (is_target target file) scored) [
      | some (i, e) ↦ record {
        hubs = e ∷ [];
        meta = record {
          total_symbols_with_edges = length scored % 2 ^ 32;
          truncated = false;
          target_rank = some (suc i % 2 ^ 32);
          target_found = true;
          suggestion = [];
        };
      }
      | none ↦ record {
        hubs = [];
        meta = record {
          total_symbols_with_edges = length scored % 2 ^ 32;
          truncated = false;
          target_rank = none;
          target_found = false;
          suggestion = suggest_similar target (all_names db);
        };
      }
    ]

unfoldable pub top : ℕ → List HubEntry → HubsResponse
top n scored = record {
  hubs = take n scored;
  meta = record {
    total_symbols_with_edges = length scored % 2 ^ 32;
    truncated = ltb n (length scored);
    target_rank = none;
    target_found = false;
    suggestion = [];
  };
}

unfoldable pub leaderboard : GraphDb → HubsRequest → List HubEntry → HubsResponse
unfolding look_up top
leaderboard db req scored = elim (req.symbol) [
  | some target ↦ look_up db target req.file scored
  | none ↦ top (clamped req.top_n) scored
]

abbrev pub symbols_text : String
symbols_text = "MATCH (s:Symbol) WHERE s.kind <> 'external' RETURN s.name, s.file, s.kind, s.line"

-- `seen` is not empty.
unfoldable pub score : GraphDb → List (Key × (ℕ × ℕ)) → Option (List HubEntry)
score db seen = elim (db.query symbols_text) [
  | none ↦ none
  | some rs ↦ some (sort_by ranks_before (entries (sym_meta rs []) seen))
]

-- `some none` where nothing is seen.
unfoldable pub ranked : GraphDb → HubsEdgeTypes → Option (Option (List HubEntry))
unfolding score degrees
ranked db edge_types = elim (degrees db edge_types) [
  | none ↦ none
  | some d ↦ elim (seen_of d) [
    | [] ↦ some none
    | k ∷ ks ↦ elim (score db (k ∷ ks)) [ none ↦ none | some scored ↦ some (some scored) ]
  ]
]

unfoldable pub hubs : GraphDb → HubsRequest → Option HubsResponse
unfolding leaderboard
hubs db req = if not db.connects then none else elim (ranked db req.edge_types) [
  | none ↦ none
  | some none ↦ some empty_response
  | some (some scored) ↦ some (leaderboard db req scored)
]
