-- ===== src/Query/Bridges/Answer.antt =====
-- crates/ga-query/src/bridges.rs: from the graph to the answer.
use graphatlas.Prelude.{
  ℕ, suc, ◌+◌, ◌-◌, ◌%◌, ◌^◌, ltb, String, str_eq, List, [], ◌∷◌, Option, none, some, Bool, true,
  false, not, ◌&&◌, if◌then◌else◌, length,
}
use graphatlas.Prelude.Text.{codes, eq_text, le_text}
use graphatlas.Prelude.Sort.{sort_by, take}
use graphatlas.Query.Impact.{is_safe_ident}
use graphatlas.Query.Distance.{suggest_similar}
use graphatlas.Query.Degrees.{GraphDb}
use graphatlas.Query.Hubs.{clamped, all_names}
use graphatlas.Query.Brandes.{Floats, Vector, brandes}
use graphatlas.Query.Bridges.{
  BridgeNode, BridgesMeta, BridgesRequest, Adjacency, symbols_text, load_nodes, load_graph,
  pick_sources,
}

abbrev default_meta : BridgesMeta
default_meta = record {
  total_nodes = 0;
  total_edges = 0;
  sampled = false;
  sample_size = 0;
  truncated = false;
  target_rank = none;
  target_found = false;
  suggestion = [];
}

module _ (fl : Floats) where
  pub record BridgeEntry : Type 0 where
    pub name : String
    pub file : String
    pub kind : String
    pub line : ℕ
    pub betweenness : fl.Float

  pub record BridgesResponse : Type 0 where
    pub bridges : List BridgeEntry
    pub meta : BridgesMeta

  abbrev pub default_response : BridgesResponse
  default_response = record { bridges = []; meta = default_meta }

  -- Normalized and scaled up from the sample.
  unfoldable pub normalize : ℕ → Bool → ℕ → Vector fl → Vector fl
  normalize n sampled sample_size bc v =
      let pair_count = fl.mul (fl.of_nat (n - 1)) (fl.of_nat (n - 2)) in
      let scale_sample =
        if sampled then fl.div (fl.of_nat n) (fl.of_nat sample_size) else fl.one_float in
      let denom = if fl.is_positive pair_count then pair_count else fl.one_float in
      fl.div (fl.mul (fl.div (bc v) (fl.of_nat 2)) scale_sample) denom

  -- The nodes from the `i`-th on whose score is positive.
  unfoldable pub scored_from : ℕ → List BridgeNode → Vector fl → List BridgeEntry
  scored_from i [] bc = []
  scored_from i (b ∷ bs) bc =
      let rest = scored_from (i + 1) bs bc in
      if fl.is_positive (bc i)
      then record {
        name = b.key.0;
        file = b.key.1;
        kind = b.kind;
        line = b.line;
        betweenness = bc i;
      }
        ∷ rest
      else rest

  -- The higher score first, then by file and name.
  unfoldable pub ranks_above : BridgeEntry → BridgeEntry → Bool
  ranks_above a b =
      if fl.less b.betweenness a.betweenness
      then true
      else if fl.less a.betweenness b.betweenness
      then false
      else if eq_text (codes a.file) (codes b.file)
      then le_text (codes a.name) (codes b.name)
      else le_text (codes a.file) (codes b.file)

  abbrev pub is_wanted : String → Option String → BridgeEntry → Bool
  is_wanted target none e = str_eq e.name target
  is_wanted target (some f) e = str_eq e.name target && str_eq e.file f

  abbrev pub find_entry : (BridgeEntry → Bool) → List BridgeEntry → Option (ℕ × BridgeEntry)
  find_entry p [] = none
  find_entry p (e ∷ es) =
      let rest = find_entry p es in
      if p e then some (0, e) else elim rest [ none ↦ none | some (i, x) ↦ some (suc i, x) ]

  abbrev pub whole_meta : ℕ → ℕ → Bool → ℕ → BridgesMeta
  whole_meta n total sampled sample_size = record {
    total_nodes = n % 2 ^ 32;
    total_edges = total % 2 ^ 32;
    sampled = sampled;
    sample_size = sample_size % 2 ^ 32;
    truncated = false;
    target_rank = none;
    target_found = false;
    suggestion = [];
  }

  -- The answer for one symbol.
  abbrev pub answer_target :
      GraphDb → String → Option String → BridgesMeta → List BridgeEntry → BridgesResponse
  answer_target db target file meta scored =
      if not (is_safe_ident target)
      then default_response
      else elim (find_entry (is_wanted target file) scored) [
        | some (pos, e) ↦ record {
          bridges = e ∷ [];
          meta = record meta { target_rank = some ((pos + 1) % 2 ^ 32); target_found = true };
        }
        | none ↦ record {
          bridges = [];
          meta = record meta { suggestion = suggest_similar target (all_names db) };
        }
      ]

  abbrev pub answer_top : ℕ → BridgesMeta → List BridgeEntry → BridgesResponse
  answer_top top_n meta scored = record {
    bridges = take top_n scored;
    meta = record meta { truncated = ltb top_n (length scored) };
  }

  abbrev pub answer : GraphDb → BridgesRequest → BridgesMeta → List BridgeEntry → BridgesResponse
  answer db req meta scored = elim (req.symbol) [
    | none ↦ answer_top (clamped req.top_n) meta scored
    | some target ↦ answer_target db target req.file meta scored
  ]

  -- With the scores that the searches add up.
  abbrev pub respond : GraphDb → BridgesRequest → List BridgeNode → ℕ → Vector fl → BridgesResponse
  respond db req nodes total bc =
      let n = length nodes in
      let (sources, sampled) = pick_sources n in
      answer db req (whole_meta n total sampled (length sources))
        (sort_by ranks_above (scored_from 0 nodes (normalize n sampled (length sources) bc)))

  -- Once the graph is loaded.
  unfoldable pub score_graph :
      GraphDb → BridgesRequest → List BridgeNode → Adjacency × ℕ → Option BridgesResponse
  score_graph db req nodes (adj, total) =
      elim (brandes fl (length nodes) adj (pick_sources (length nodes)).0 (λ _. fl.zero_float)) [
        | none ↦ none
        | some bc ↦ some (respond db req nodes total bc)
      ]

  abbrev pub bridges_of : GraphDb → BridgesRequest → List BridgeNode → Option BridgesResponse
  bridges_of db req [] = some default_response
  bridges_of db req (b ∷ bs) = elim (load_graph db (b ∷ bs)) [
    | none ↦ none
    | some g ↦ score_graph db req (b ∷ bs) g
  ]

  unfoldable pub bridges : GraphDb → BridgesRequest → Option BridgesResponse
  bridges db req =
      if db.connects
      then elim (db.query symbols_text) [
        | none ↦ none
        | some rs ↦ bridges_of db req (load_nodes rs [])
      ]
      else none
