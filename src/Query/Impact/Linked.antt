-- ===== src/Query/Impact/Linked.antt =====
-- The symbols that the search visits hang together by rows of the database.
use graphatlas.Prelude.{
  ℕ, suc, ◌≤◌, leb, String, some, true, List, [], ◌∷◌, length, All, All-append, if-cases, ◌≡◌,
}
use graphatlas.Query.Impact.{
  ImpactReason, Database, max_visited, is_safe_ident, visited_mem, Level, discover, edge, edges,
  query_incoming, query_outgoing,
}

pub data In {ℓ} {A : Type ℓ} (x : A) : List A → Type ℓ where
  at_head : {xs : List A} → In x (x ∷ xs)
  later : {y : A} {xs : List A} → In x xs → In x (y ∷ xs)

All-of_In {ℓ κ} : {A : Type ℓ} (P : A → Type κ) (xs : List A) → ((x : A) → In x xs → P x) → All P xs
All-of_In P [] h = tt
All-of_In P (x ∷ xs) h = (h x at_head, All-of_In P xs (λ y i. h y (later i)))

-- A walk of so many CALLS or REFERENCES edges, in either direction, from the seed to the symbol:
-- every symbol on the way but the last is a safe identifier.
pub data Linked (db : Database) (start : String) : ℕ → String → Type 0 where
  here : Linked db start 0 start
  to_caller :
      {n : ℕ} {name sym file : String} {es : List (String × String)}
      → Linked db start n name
      → is_safe_ident name ≡ true
      → query_incoming db name ≡ some es
      → In (sym, file) es
      → Linked db start (suc n) sym
  to_callee :
      {n : ℕ} {name sym file : String} {es : List (String × String)}
      → Linked db start n name
      → is_safe_ident name ≡ true
      → query_outgoing db name ≡ some es
      → In (sym, file) es
      → Linked db start (suc n) sym

module _ (db : Database) (start : String) where
  -- Linked by at most `k` edges.
  abbrev pub Near : ℕ → String → Type 0
  Near k sym = (n : ℕ) × (n ≤ k) × Linked db start n sym

  -- The invariant of the depth `n`.
  pub record IsLinked (k n : ℕ) (l : Level) : Type 0 where
    pub near : All (Near k) l.visited
    pub found : All (Linked db start n) l.next

  edge-IsLinked :
      (k n : ℕ) (r : ImpactReason) (e : String × String) (l : Level)
      → n ≤ k
      → Linked db start n e.0
      → IsLinked k n l
      → IsLinked k n (edge n r e l)
  unfolding edge discover
  edge-IsLinked k n r e l h link b =
      if-cases (IsLinked k n) l.stopped (λ _. b)
        (λ _.
          if-cases (IsLinked k n) (leb max_visited (length l.visited))
            (λ _. record { near = b.near; found = b.found })
            (λ _.
              if-cases (IsLinked k n) (visited_mem e.0 l.visited)
                (λ _. record { near = b.near; found = b.found })
                (λ _. record {
                  near = ((n, h, link), b.near);
                  found = All-append (Linked db start n) l.next (e.0 ∷ []) b.found (link, tt);
                })))

  pub edges-IsLinked :
      (k n : ℕ) (r : ImpactReason) (es : List (String × String)) (l : Level)
      → n ≤ k
      → All (λ e. Linked db start n e.0) es
      → IsLinked k n l
      → IsLinked k n (edges n r es l)
  unfolding edges
  edges-IsLinked k n r [] l h links b = b
  edges-IsLinked k n r (e ∷ es) l h links b =
      edges-IsLinked k n r es (edge n r e l) h links.1 (edge-IsLinked k n r e l h links.0 b)

  pub callers-Linked :
      (n : ℕ) (name : String) (es : List (String × String))
      → Linked db start n name
      → is_safe_ident name ≡ true
      → query_incoming db name ≡ some es
      → All (λ e. Linked db start (suc n) e.0) es
  callers-Linked n name es link safe rows =
      All-of_In (λ e. Linked db start (suc n) e.0) es
        (λ e i. to_caller {file = e.1} link safe rows i)

  pub callees-Linked :
      (n : ℕ) (name : String) (es : List (String × String))
      → Linked db start n name
      → is_safe_ident name ≡ true
      → query_outgoing db name ≡ some es
      → All (λ e. Linked db start (suc n) e.0) es
  callees-Linked n name es link safe rows =
      All-of_In (λ e. Linked db start (suc n) e.0) es
        (λ e i. to_callee {file = e.1} link safe rows i)
