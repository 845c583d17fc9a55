-- ===== src/Query/Bridges/Total.antt =====
-- crates/ga-query/src/bridges.rs: the query answers whenever the database does.
use graphatlas.Prelude.{
  ℕ, zero, suc, ◌+◌, ◌/◌, ◌<◌, ltb, ◌≡◌, refl, arith, some, Bool, true, if-cases, List, [], ◌∷◌,
  All, length,
}
use graphatlas.Query.Degrees.{Column, GraphDb}
use graphatlas.Query.Brandes.{Floats, Vector, brandes, accumulate}
use graphatlas.Query.Brandes.Shortest.{search_from-IsDistance}
use graphatlas.Query.Bridges.{
  BridgeNode, BridgesRequest, Adjacency, symbols_text, calls_text, references_text, at_least_one,
  load_nodes, stepped, pick_sources,
}
use graphatlas.Query.Bridges.Graph.{mod_le, load_graph-IsUndirected}
use graphatlas.Query.Bridges.Answer.{
  BridgesResponse, default_response, respond, score_graph, bridges_of, bridges,
}

stepped-lt : (n stride i count : ℕ) → All (λ w. w < n) (stepped n stride i count)
unfolding stepped
stepped-lt n stride i zero = tt
stepped-lt n stride i (suc count) =
    if-cases (All (λ w. w < n)) (ltb i n)
      (λ e. (ground (arith, e, mod_le i), stepped-lt n stride (i + stride) count)) λ e. tt

pick_sources-lt : (n : ℕ) → All (λ w. w < n) (pick_sources n).0
unfolding pick_sources
pick_sources-lt n =
    if-cases {A = List ℕ × Bool} (λ p. All (λ w. w < n) p.0) (ltb 5000 n)
      (λ e. stepped-lt n (at_least_one (n / 500)) 0 500) λ e. stepped-lt n 1 0 n

brandes_ends :
    (fl : Floats) (n : ℕ) (adj : Adjacency) (sources : List ℕ) (bc : Vector fl)
    → ((u : ℕ) → All (λ w. w < n) (adj u))
    → All (λ w. w < n) sources
    → (bc' : Vector fl) × (brandes fl n adj sources bc ≡ some bc')
brandes_ends fl n adj [] bc near h = (bc, refl)
brandes_ends fl n adj (s ∷ sources) bc near h =
    let (t, e, distances) = search_from-IsDistance adj s fl n near h.0 in
    let (bc', f) =
      brandes_ends fl n adj sources (accumulate fl s t t.stack (λ _. fl.zero_float) bc) near h.1 in
    (bc', rw (e, brandes) f)

score_graph_ends :
    (fl : Floats) (db : GraphDb) (req : BridgesRequest) (nodes : List BridgeNode) (adj : Adjacency)
    (total : ℕ)
    → ((u : ℕ) → All (λ w. w < length nodes) (adj u))
    → (resp : BridgesResponse fl) × (score_graph fl db req nodes (adj, total) ≡ some resp)
unfolding score_graph
score_graph_ends fl db req nodes adj total near =
    let (bc, e) =
      brandes_ends fl (length nodes) adj (pick_sources (length nodes)).0 (λ _. fl.zero_float) near
        (pick_sources-lt (length nodes)) in
    (respond fl db req nodes total bc, rw (e, score_graph) refl)

-- Where the connection stands and the database answers the three queries, so does `bridges`, whatever
-- the graph is and whichever symbol is asked for: the searches end.
pub bridges_answers :
    (fl : Floats) (db : GraphDb) (req : BridgesRequest)
    (symbols calls references : List (List Column))
    → db.connects ≡ true
    → db.query symbols_text ≡ some symbols
    → db.query calls_text ≡ some calls
    → db.query references_text ≡ some references
    → (resp : BridgesResponse fl) × (bridges fl db req ≡ some resp)
unfolding bridges
bridges_answers fl db req symbols calls references up s c r =
    let (resp, e) = go (load_nodes symbols []) in (resp, ground (arith, up, s, e))
  where
    go :
        (nodes : List BridgeNode)
        → (resp : BridgesResponse fl) × (bridges_of fl db req nodes ≡ some resp)
    go [] = (default_response fl, refl)
    go (b ∷ bs) =
        let (adj, total, e, g) = load_graph-IsUndirected db (b ∷ bs) calls references c r in
        let (resp, f) = score_graph_ends fl db req (b ∷ bs) adj total g.within in
        (resp, rw (e, bridges_of) f)
