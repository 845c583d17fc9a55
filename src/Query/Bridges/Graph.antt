-- ===== src/Query/Bridges/Graph.antt =====
-- crates/ga-query/src/bridges.rs: the graph, and that the search always answers.
use graphatlas.Prelude.{
  ℕ, ◌+◌, ◌%◌, ◌^◌, ◌≤◌, ◌<◌, ltb, leb, ◌==◌, ==_iff, ◌≡◌, ◌≢◌, refl, ap, sym, ◌∙◌, inl, inr, arith,
  Option, none, some, Bool, true, false, ◌&&◌, ◌||◌, if-cases, Bool-cases, Option-cases, List, [],
  ◌∷◌, ◌++◌, any, All, length,
}
use graphatlas.Prelude.Sort.{sort_by, any-sort_by, IsSorted, All-map, sort_by-IsSorted}
use graphatlas.Query.Degrees.{Column, GraphDb, Key}
use graphatlas.Query.Brandes.Scan.{member, member-append}
use graphatlas.Query.Bridges.{
  BridgeNode, position, ends_of, edge_row, Adjacency, push, load_edges, dedup_after, dedup,
  sorted_lists, calls_text, references_text, load_graph, key_of,
}

position-lt :
    (k : Key) (nodes : List BridgeNode) (i : ℕ) → position k nodes ≡ some i → i < length nodes
unfolding position
position-lt k [] i h = absurd (ground (arith, h))
position-lt k (b ∷ bs) i h = elim (Option-cases (position k bs)) [
  | inl e ↦ ground (arith, h, e)
  | inr (j, e) ↦ ground (arith, h, e, position-lt k bs j e)
]

pub mod_le : (i : ℕ) → i % 2 ^ 32 ≤ i
mod_le i = omega arith

ends_of-lt :
    (nodes : List BridgeNode) (s t : Option Key) (u v : ℕ)
    → ends_of nodes s t ≡ some (u, v)
    → (u < length nodes) × (v < length nodes) × (u ≢ v)
ends_of-lt nodes none t u v h = absurd (ground (arith, h))
ends_of-lt nodes (some s) none u v h = absurd (ground (arith, h))
ends_of-lt nodes (some s) (some t) u v h = elim (Option-cases (position s nodes)) [
  | inl e ↦ absurd (ground (arith, h, e))
  | inr (i, e) ↦ elim (Option-cases (position t nodes)) [
    | inl f ↦ absurd (ground (arith, h, e, f))
    | inr (j, f) ↦
        let low = position-lt s nodes i e in
        let high = position-lt t nodes j f in
        elim (Bool-cases (i % 2 ^ 32 == j % 2 ^ 32)) [
          | inl same ↦ absurd (ground (arith, h, e, f, same))
          | inr apart ↦ ground (
            arith,
            h,
            e,
            f,
            apart,
            low,
            high,
            mod_le i,
            mod_le j,
            ==_iff (i % 2 ^ 32) (j % 2 ^ 32),
          )
        ]
  ]
]

edge_row-lt :
    (nodes : List BridgeNode) (r : List Column) (u v : ℕ)
    → edge_row nodes r ≡ some (u, v)
    → (u < length nodes) × (v < length nodes) × (u ≢ v)
unfolding edge_row
edge_row-lt nodes (a ∷ (b ∷ (c ∷ (d ∷ cs)))) u v h =
    ends_of-lt nodes (key_of a b) (key_of c d) u v h
edge_row-lt nodes (a ∷ (b ∷ (c ∷ []))) u v h = absurd (ground (arith, h))
edge_row-lt nodes (a ∷ (b ∷ [])) u v h = absurd (ground (arith, h))
edge_row-lt nodes (a ∷ []) u v h = absurd (ground (arith, h))
edge_row-lt nodes [] u v h = absurd (ground (arith, h))

-- A row's edge, if it has one, joins the two nodes, in either direction.
abbrev pub joins : ℕ → ℕ → Option (ℕ × ℕ) → Bool
joins u v none = false
joins u v (some (a, b)) = a == u && b == v || a == v && b == u

abbrev pub joined : List BridgeNode → ℕ → ℕ → List (List Column) → Bool
joined nodes u v rs = any (λ r. joins u v (edge_row nodes r)) rs

member-push :
    (a b : ℕ) (adj : Adjacency) (u v : ℕ)
    → member v (push a b adj u) ≡ (member v (adj u) || (a == u && b == v))
member-push a b adj u v = elim (Bool-cases (a == u)) [
  | inl same ↦ ground (arith, same, member-append v (adj a) (b ∷ []), ap adj ((==_iff a u).0 same))
  | inr other ↦ ground (arith, other)
]

member-load_edges :
    (nodes : List BridgeNode) (rs : List (List Column)) (adj : Adjacency) (total u v : ℕ)
    → member v ((load_edges nodes rs (adj, total)).0 u) ≡ (member v (adj u) || joined nodes u v rs)
unfolding load_edges
member-load_edges nodes [] adj total u v = ground arith
member-load_edges nodes (r ∷ rs) adj total u v = elim (Option-cases (edge_row nodes r)) [
  | inl e ↦ ground (arith, e, member-load_edges nodes rs adj total u v)
  | inr ((a, b), e) ↦ ground (
    arith,
    e,
    member-load_edges nodes rs (push b a (push a b adj)) (total + 1) u v,
    member-push b a (push a b adj) u v,
    member-push a b adj u v,
  )
]

member-dedup_after :
    (u x : ℕ) (ys : List ℕ) → (x == u || member u (dedup_after x ys)) ≡ (x == u || member u ys)
unfolding dedup_after
member-dedup_after u x [] = refl
member-dedup_after u x (y ∷ ys) =
    ground (arith, ==_iff x y, ==_iff x u, ==_iff y u, member-dedup_after u y ys)

member-dedup : (u : ℕ) (xs : List ℕ) → member u (dedup xs) ≡ member u xs
member-dedup u [] = refl
member-dedup u (x ∷ xs) = member-dedup_after u x xs

dedup_after-IsSorted :
    (x : ℕ) (ys : List ℕ) → IsSorted leb (x ∷ ys) → IsSorted ltb (x ∷ dedup_after x ys)
unfolding dedup_after
dedup_after-IsSorted x [] s = (tt, tt)
dedup_after-IsSorted x (y ∷ ys) s =
    let (first, rest) = dedup_after-IsSorted y ys s.1 in
    if-cases (λ l. IsSorted ltb (x ∷ l)) (x == y)
      (λ e. (All-map _ _ (λ z h. ground (arith, h, e)) _ first, rest))
      λ e. (
        (ground (arith, e, s.0.0), All-map _ _ (λ z h. ground (arith, h, e, s.0.0)) _ first),
        (first, rest),
      )

dedup-IsSorted : (xs : List ℕ) → IsSorted leb xs → IsSorted ltb (dedup xs)
dedup-IsSorted [] s = tt
dedup-IsSorted (x ∷ xs) s = dedup_after-IsSorted x xs s

joined-lt :
    (nodes : List BridgeNode) (u v : ℕ) (rs : List (List Column))
    → joined nodes u v rs ≡ true
    → (v < length nodes) × (u ≢ v)
joined-lt nodes u v [] h = absurd (ground (arith, h))
joined-lt nodes u v (r ∷ rs) h = elim (Option-cases (edge_row nodes r)) [
  | inl e ↦ ground (arith, h, e, joined-lt nodes u v rs)
  | inr ((a, b), e) ↦ ground (
    arith,
    h,
    e,
    joined-lt nodes u v rs,
    edge_row-lt nodes r a b e,
    ==_iff a u,
    ==_iff b v,
    ==_iff a v,
    ==_iff b u,
  )
]

joined_sym :
    (nodes : List BridgeNode) (u v : ℕ) (rs : List (List Column))
    → joined nodes u v rs ≡ joined nodes v u rs
joined_sym nodes u v [] = refl
joined_sym nodes u v (r ∷ rs) = elim (Option-cases (edge_row nodes r)) [
  | inl e ↦ ground (arith, e, joined_sym nodes u v rs)
  | inr ((a, b), e) ↦ ground (arith, e, joined_sym nodes u v rs)
]

joined-append :
    (nodes : List BridgeNode) (u v : ℕ) (rs qs : List (List Column))
    → joined nodes u v (rs ++ qs) ≡ (joined nodes u v rs || joined nodes u v qs)
joined-append nodes u v [] qs = refl
joined-append nodes u v (r ∷ rs) qs = ground (arith, joined-append nodes u v rs qs)

All-members : (P : ℕ → Type 0) (xs : List ℕ) → ((w : ℕ) → member w xs ≡ true → P w) → All P xs
All-members P [] h = tt
All-members P (x ∷ xs) h =
    (h x (ground (arith, ==_iff x x)), All-members P xs λ w m. h w (ground (arith, m)))

-- The neighbours of each node are the nodes that some row joins with it.
pub record IsUndirected (nodes : List BridgeNode) (rows : List (List Column)) (adj : Adjacency)
    : Type 0 where
  pub within : (u : ℕ) → All (λ w. w < length nodes) (adj u)
  pub ascending : (u : ℕ) → IsSorted ltb (adj u)
  pub exact : (u v : ℕ) → member v (adj u) ≡ joined nodes u v rows
  pub symmetric : (u v : ℕ) → member v (adj u) ≡ member u (adj v)
  pub loopless : (u : ℕ) → member u (adj u) ≡ false

undirected :
    (nodes : List BridgeNode) (rows : List (List Column)) (adj : Adjacency)
    → ((u : ℕ) → IsSorted ltb (adj u))
    → ((u v : ℕ) → member v (adj u) ≡ joined nodes u v rows)
    → IsUndirected nodes rows adj
undirected nodes rows adj sorted exact = record {
  within = λ u. All-members _ (adj u) λ w m. (joined-lt nodes u w rows (sym (exact u w) ∙ m)).0;
  ascending = sorted;
  exact = exact;
  symmetric = λ u v. exact u v ∙ joined_sym nodes u v rows ∙ sym (exact v u);
  loopless = λ u. elim (Bool-cases (member u (adj u))) [
    | inl m ↦ absurd ((joined-lt nodes u u rows (sym (exact u u) ∙ m)).1 refl)
    | inr e ↦ e
  ];
}

pub load_graph-IsUndirected :
    (db : GraphDb) (nodes : List BridgeNode) (calls references : List (List Column))
    → db.query calls_text ≡ some calls
    → db.query references_text ≡ some references
    → (adj : Adjacency) × (total : ℕ) × (load_graph db nodes ≡ some (adj, total))
      × IsUndirected nodes (calls ++ references) adj
unfolding load_graph sorted_lists
load_graph-IsUndirected db nodes calls references c r =
    let first = load_edges nodes calls (λ _. [], 0) in
    let second = load_edges nodes references first in
    (
      λ u. dedup (sort_by leb (second.0 u)),
      second.1,
      rw (c, r, load_graph) refl,
      undirected nodes (calls ++ references) _
          (λ u. dedup-IsSorted _ (
            sort_by-IsSorted leb (λ x y. ground arith) (λ x y z h k. ground (arith, h, k))
              (second.0 u)))
          λ u v. ground (
            arith,
            member-dedup v (sort_by leb (second.0 u)),
            any-sort_by (λ x. x == v) leb (second.0 u),
            member-load_edges nodes references first.0 first.1 u v,
            member-load_edges nodes calls (λ _. []) 0 u v,
            joined-append nodes u v calls references,
          ),
    )
