-- ===== src/Query/Examples/Bridges.antt =====
-- Three symbols in a row, at which the theorems on bridges apply. The floats are whole numbers.
use graphatlas.Prelude.{
  ℕ, ◌+◌, ◌*◌, ◌/◌, ◌<◌, ◌==◌, ltb, str_eq, List, [], ◌∷◌, none, some, true, if◌then◌else◌,
  if-cases, ◌≡◌, ◌↔◌, refl, arith, All,
}
use graphatlas.Query.Degrees.{Column, text, int64, GraphDb}
use graphatlas.Query.Brandes.{Floats, Search, search_from}
use graphatlas.Query.Brandes.Scan.{member}
use graphatlas.Query.Brandes.Shortest.{IsDistance}
use graphatlas.Query.Brandes.Predecessors.{Leads, search_from-Leads}
use graphatlas.Query.Bridges.{
  BridgeNode, BridgesRequest, Adjacency, symbols_text, calls_text, references_text,
}
use graphatlas.Query.Bridges.Answer.{BridgesResponse, bridges}
use graphatlas.Query.Bridges.Total.{bridges_answers}

abbrev whole_numbers : Floats
whole_numbers = record {
  Float = ℕ;
  zero_float = 0;
  one_float = 1;
  add = λ x y. x + y;
  mul = λ x y. x * y;
  div = λ x y. x / y;
  is_positive = λ x. ltb 0 x;
  of_nat = λ x. x;
  less = ltb;
}

abbrev row_of_three : Adjacency
row_of_three u = if u == 1 then 0 ∷ 2 ∷ [] else if ltb u 3 then 1 ∷ [] else []

row_within : (u : ℕ) → All (λ w. w < 3) (row_of_three u)
row_within u =
    if-cases (All (λ w. w < 3)) (u == 1) (λ e. (omega arith, (omega arith, tt)))
      λ e. if-cases (All (λ w. w < 3)) (ltb u 3) (λ f. (omega arith, tt)) λ f. tt

search_from-Leads_example :
    (t : Search whole_numbers) × (search_from whole_numbers 3 row_of_three 0 ≡ some t)
    × ((w : ℕ) → IsDistance row_of_three 0 w (t.dist w))
    × ((x u : ℕ) → (member x (t.preds u) ≡ true) ↔ Leads row_of_three 0 t.dist x u)
search_from-Leads_example =
    search_from-Leads row_of_three 0 whole_numbers 3 row_within (omega arith)

abbrev symbols : List (List Column)
symbols =
    (text "f" ∷ text "a.py" ∷ text "function" ∷ int64 1 ∷ [])
    ∷ (text "g" ∷ text "b.py" ∷ text "function" ∷ int64 2 ∷ [])
    ∷ (text "h" ∷ text "c.py" ∷ text "function" ∷ int64 3 ∷ [])
    ∷ []

abbrev calls : List (List Column)
calls = (text "f" ∷ text "a.py" ∷ text "g" ∷ text "b.py" ∷ []) ∷ []

abbrev references : List (List Column)
references = (text "h" ∷ text "c.py" ∷ text "g" ∷ text "b.py" ∷ []) ∷ []

abbrev nodes : List BridgeNode
nodes =
    record { key = ("f", "a.py"); kind = "function"; line = 1 }
    ∷ record { key = ("g", "b.py"); kind = "function"; line = 2 }
    ∷ record { key = ("h", "c.py"); kind = "function"; line = 3 }
    ∷ []

abbrev database : GraphDb
database = record {
  connects = true;
  query = λ q.
      if str_eq q symbols_text
      then some symbols
      else if str_eq q calls_text
      then some calls
      else if str_eq q references_text
      then some references
      else none;
}

abbrev request : BridgesRequest
request = record { top_n = 10; symbol = none; file = none }

bridges_answers_example :
    (resp : BridgesResponse whole_numbers) × (bridges whole_numbers database request ≡ some resp)
bridges_answers_example =
    bridges_answers whole_numbers database request symbols calls references refl refl refl refl
