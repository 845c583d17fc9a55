-- ===== src/Query/Brandes.antt =====
-- The heart of crates/ga-query/src/bridges.rs: Brandes' algorithm, for one source and for all. A
-- vector that is read only at its indices is a function on them. The floats are an argument. A
-- distance is an `i32` that starts at -1, here `none`; it stays below the number of nodes, which
-- are fewer than 2^31.
pub mod Scan
pub mod Shortest
pub mod Predecessors
use graphatlas.Prelude.{
  ℕ, zero, suc, ◌+◌, ◌==◌, Option, none, some, Bool, true, false, not, if◌then◌else◌, List, [], ◌∷◌,
  ◌++◌,
}

-- `f64`.
pub record Floats : Type 1 where
  pub Float : Type 0
  pub zero_float : Float
  pub one_float : Float
  pub add : Float → Float → Float
  pub mul : Float → Float → Float
  pub div : Float → Float → Float
  pub is_positive : Float → Bool
  pub of_nat : ℕ → Float
  pub less : Float → Float → Bool

abbrev pub put {ℓ} : {A : Type ℓ} → ℕ → A → (ℕ → A) → ℕ → A
put i x f j = if i == j then x else f j

-- A distance and `dv + 1`, on the numbers from -1.
abbrev pub next : Option ℕ → ℕ
next none = 0
next (some d) = d + 1

abbrev pub is_at : Option ℕ → ℕ → Bool
is_at none d = false
is_at (some e) d = e == d

module _ (fl : Floats) where
  pub record Search : Type 0 where
    pub dist : ℕ → Option ℕ
    pub sigma : ℕ → fl.Float
    pub preds : ℕ → List ℕ
    pub queue : List ℕ
    pub stack : List ℕ

-- The first test: `w` was not reached before.
abbrev pub reach_at : {fl : Floats} → ℕ → ℕ → Option ℕ → Search fl → Search fl
reach_at d w none s = record s { dist = put w (some d) s.dist; queue = s.queue ++ (w ∷ []) }
reach_at d w (some e) s = s

unfoldable pub reach_node : {fl : Floats} → ℕ → ℕ → Search fl → Search fl
reach_node d w s = reach_at d w (s.dist w) s

-- The second test: `v` is on a shortest path to `w`.
unfoldable pub count_paths : {fl : Floats} → ℕ → ℕ → fl.Float → ℕ → Search fl → Search fl
count_paths {fl} v d sv w s =
    if is_at (s.dist w) d
    then record s {
      sigma = put w (fl.add (s.sigma w) sv) s.sigma;
      preds = put w (s.preds w ++ (v ∷ [])) s.preds;
    }
    else s

-- The loop over the neighbours of `v`; `d` is `dv + 1`.
unfoldable pub scan : {fl : Floats} → ℕ → ℕ → fl.Float → List ℕ → Search fl → Search fl
scan v d sv [] s = s
scan v d sv (w ∷ ws) s = scan v d sv ws (count_paths v d sv w (reach_node d w s))

-- One round: the first node of the queue.
unfoldable pub visit_node : {fl : Floats} → (ℕ → List ℕ) → ℕ → List ℕ → Search fl → Search fl
visit_node adj v rest s =
    scan v (next (s.dist v)) (s.sigma v) (adj v) (record s { queue = rest; stack = v ∷ s.stack })

-- The `while` on fuel, with the search's queue; `none` when the fuel is spent.
unfoldable pub run_queue :
    {fl : Floats} → ℕ → (ℕ → List ℕ) → Search fl → List ℕ → Option (Search fl)
run_queue fuel adj s [] = some s
run_queue zero adj s (v ∷ rest) = none
run_queue (suc fuel) adj s (v ∷ rest) =
    let s' = visit_node adj v rest s in run_queue fuel adj s' (s'.queue)

-- What is reset for each source.
abbrev pub start_at : (fl : Floats) → ℕ → Search fl
start_at fl source = record {
  dist = put source (some 0) (λ _. none);
  sigma = put source fl.one_float (λ _. fl.zero_float);
  preds = λ _. [];
  queue = source ∷ [];
  stack = [];
}

-- Each node enters the queue once: fuel for all of them is enough.
unfoldable pub search_from : (fl : Floats) → ℕ → (ℕ → List ℕ) → ℕ → Option (Search fl)
unfolding run_queue
search_from fl n adj source = run_queue n adj (start_at fl source) (source ∷ [])

module _ (fl : Floats) where
  abbrev pub Vector : Type 0
  Vector = ℕ → fl.Float

  -- The predecessors of one node.
  abbrev pub spread : Vector → fl.Float → fl.Float → List ℕ → Vector → Vector
  spread sigma sw dw_term [] delta = delta
  spread sigma sw dw_term (v ∷ vs) delta = spread sigma sw dw_term vs (
      if fl.is_positive sw
      then put v (fl.add (delta v) (fl.mul (fl.div (sigma v) sw) dw_term)) delta
      else delta)

  -- The nodes in the reverse of the order in which they were visited.
  abbrev pub accumulate : ℕ → Search fl → List ℕ → Vector → Vector → Vector
  accumulate source s [] delta bc = bc
  accumulate source s (w ∷ stack) delta bc =
      let delta' = spread (s.sigma) (s.sigma w) (fl.add fl.one_float (delta w)) (s.preds w) delta in
      accumulate source s stack delta'
        (if w == source then bc else put w (fl.add (bc w) (delta' w)) bc)

  abbrev pub brandes : ℕ → (ℕ → List ℕ) → List ℕ → Vector → Option Vector
  brandes n adj [] bc = some bc
  brandes n adj (source ∷ sources) bc = elim (search_from fl n adj source) [
    | none ↦ none
    | some s ↦ brandes n adj sources (accumulate source s (s.stack) (λ _. fl.zero_float) bc)
  ]
