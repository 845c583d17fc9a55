-- ===== src/Query/Impact/Answer.antt =====
-- What an answer of `bfs_from_symbol` is.
use graphatlas.Prelude.{
  ℕ, zero, suc, ◌+◌, ◌≤◌, leb, String, Option, none, some, true, not, ◌||◌, if◌then◌else◌, List, [],
  ◌∷◌, length, All, ◌≡◌, inl, inr, arith, Option-cases, if-cases,
}
use mathlib.Core.Path.{subst}
use graphatlas.Query.Impact.{
  ImpactReason, caller, callee, ImpactedFile, Impacted, Database, max_visited, is_safe_ident,
  insert_all, Level, edges, Traversal, visit_callees, visit, expand, start_level, after_level,
  depths, before, insert_sorted, sort_files, search, bfs_from_symbol, add_sibling_method_files,
  query_def_files, query_incoming, query_outgoing, first_texts, sibling_text, Row,
}
use graphatlas.Query.Impact.Bounds.{
  IsWithin, insert_all-IsWithin, seed_all-IsWithin, IsBounded, edges-IsBounded,
}
use graphatlas.Query.Impact.Linked.{
  Linked, here, Near, IsLinked, edges-IsLinked, callers-Linked, callees-Linked,
}

-- `P` holds of the value, where there is one.
abbrev Holds {ℓ κ} : {A : Type ℓ} → (A → Type κ) → Option A → Type κ
Holds P none = Unit
Holds P (some a) = P a

module _ (db : Database) (start : String) where
  record IsSound (k b n : ℕ) (l : Level) : Type 0 where
    bounded : IsBounded b l
    linked : IsLinked db start k n l

  module _ (k b n : ℕ) (hk : suc n ≤ k) (hb : suc n ≤ b) where
    edges-IsSound :
        (r : ImpactReason) (es : List (String × String)) (l : Level)
        → All (λ e. Linked db start (suc n) e.0) es
        → IsSound k b (suc n) l
        → IsSound k b (suc n) (edges (suc n) r es l)
    edges-IsSound r es l links s = record {
      bounded = edges-IsBounded b (suc n) r es l hb s.bounded;
      linked = edges-IsLinked db start k (suc n) r es l hk links s.linked;
    }

    visit_callees-IsSound :
        (name : String) (l : Level)
        → Linked db start n name
        → is_safe_ident name ≡ true
        → IsSound k b (suc n) l
        → Holds (IsSound k b (suc n)) (visit_callees db (suc n) name l)
    unfolding visit_callees
    visit_callees-IsSound name l link safe s =
        if-cases (Holds (IsSound k b (suc n))) l.stopped (λ _. s)
          (λ _. elim (Option-cases (query_outgoing db name)) [
            | inl e ↦ rw e tt
            | inr (es, e) ↦
                rw e (edges-IsSound callee es l (callees-Linked db start n name es link safe e) s)
          ])

    visit-IsSound :
        (name : String) (l : Level)
        → Linked db start n name
        → IsSound k b (suc n) l
        → Holds (IsSound k b (suc n)) (visit db (suc n) name l)
    unfolding visit
    visit-IsSound name l link s =
        if-cases (Holds (IsSound k b (suc n))) (l.stopped || not (is_safe_ident name)) (λ _. s)
          (λ go.
            let safe : is_safe_ident name ≡ true = ground (arith, go) in
            elim (Option-cases (query_incoming db name)) [
              | inl e ↦ rw e tt
              | inr (es, e) ↦ rw e (
                  visit_callees-IsSound name (edges (suc n) caller es l) link safe
                    (edges-IsSound caller es l (callers-Linked db start n name es link safe e) s))
            ])

    expand-IsSound :
        (frontier : List String) (l : Level)
        → All (Linked db start n) frontier
        → IsSound k b (suc n) l
        → Holds (IsSound k b (suc n)) (expand db (suc n) frontier l)
    unfolding expand
    expand-IsSound [] l links s = s
    expand-IsSound (name ∷ frontier) l links s =
        go (λ l' h. expand-IsSound frontier l' links.1 h) (visit db (suc n) name l)
          (visit-IsSound name l links.0 s)
      where
        go :
            ((l' : Level)
              → IsSound k b (suc n) l'
              → Holds (IsSound k b (suc n)) (expand db (suc n) frontier l'))
            → (o : Option Level) → Holds (IsSound k b (suc n)) o
            → Holds
                (IsSound k b (suc n))
                (elim o [ none ↦ none | some l' ↦ expand db (suc n) frontier l' ])
        go rest none h = tt
        go rest (some l') h = rest l' h

  -- The invariant between the depths.
  record IsTraversal (k b : ℕ) (t : Traversal) : Type 0 where
    cap : length t.visited ≤ max_visited
    deep : IsWithin b t.impacted
    near : All (Near db start k) t.visited
    complete : t.completeness ≤ k

  after_level-IsTraversal :
      (k b n c : ℕ) (l : Level) → c ≤ k → IsSound k b n l → IsTraversal k b (after_level c l)
  after_level-IsTraversal k b n c l h s = record {
    cap = s.bounded.cap;
    deep = s.bounded.deep;
    near = s.linked.near;
    complete = h;
  }

  -- The induction hypothesis of the depths.
  abbrev Deeper : ℕ → ℕ → ℕ → ℕ → Type 0
  Deeper k b left n =
      (ms : List String) (u : Traversal)
      → All (Linked db start n) ms
      → IsTraversal k b u
      → Holds (IsTraversal k b) (depths db left (suc n) ms u)

  depths-IsTraversal :
      (k b left n : ℕ) (frontier : List String) (t : Traversal)
      → k ≤ b
      → n + left ≡ k
      → All (Linked db start n) frontier
      → IsTraversal k b t
      → Holds (IsTraversal k b) (depths db left (suc n) frontier t)
  unfolding depths
  depths-IsTraversal k b zero n frontier t hb hk links s = s
  depths-IsTraversal k b (suc left) n frontier t hb hk links s =
      if-cases (Holds (IsTraversal k b)) (leb max_visited (length t.visited)) (λ _. s)
        (λ _.
          level (λ ms u found h. depths-IsTraversal k b left (suc n) ms u hb (omega arith) found h)
            (expand db (suc n) frontier (start_level t))
            (expand-IsSound k b n (omega arith) (omega arith) frontier (start_level t) links
              (record {
                bounded = record { cap = s.cap; deep = s.deep };
                linked = record { near = s.near; found = tt };
              })))
    where
      next :
          Deeper k b left (suc n)
          → (l : Level) (ns : List String) → All (Linked db start (suc n)) ns
          → IsSound k b (suc n) l
          → Holds (IsTraversal k b) (elim ns [
            | [] ↦ some (after_level t.completeness l)
            | m ∷ ms ↦ depths db left (suc (suc n)) (m ∷ ms) (after_level (suc n) l)
          ])
      next deeper l [] found h = after_level-IsTraversal k b (suc n) t.completeness l s.complete h
      next deeper l (m ∷ ms) found h =
          deeper (m ∷ ms) (after_level (suc n) l) found
            (after_level-IsTraversal k b (suc n) (suc n) l (omega arith) h)

      level :
          Deeper k b left (suc n)
          → (o : Option Level) → Holds (IsSound k b (suc n)) o
          → Holds (IsTraversal k b) (elim o [
            | none ↦ none
            | some l ↦ if l.stopped then some (after_level t.completeness l) else elim l.next [
              | [] ↦ some (after_level t.completeness l)
              | m ∷ ms ↦ depths db left (suc (suc n)) (m ∷ ms) (after_level (suc n) l)
            ]
          ])
      level deeper none h = tt
      level deeper (some l) h =
          if-cases (Holds (IsTraversal k b)) l.stopped
            (λ _. after_level-IsTraversal k b (suc n) t.completeness l s.complete h)
            (λ _. next deeper l l.next h.linked.found h)

-- The order of the answer.
abbrev IsAtLeast : ℕ → List ImpactedFile → Type 0
IsAtLeast d l = All (λ f. d ≤ f.depth) l

abbrev pub IsByDepth : List ImpactedFile → Type 0
IsByDepth [] = Unit
IsByDepth (f ∷ fs) = IsAtLeast f.depth fs × IsByDepth fs

All-weaken : (d e : ℕ) (l : List ImpactedFile) → d ≤ e → IsAtLeast e l → IsAtLeast d l
All-weaken d e [] h a = tt
All-weaken d e (f ∷ fs) h a = (omega (arith, a.0), All-weaken d e fs h a.1)

All-insert_sorted {κ} :
    (P : ImpactedFile → Type κ) (x : ImpactedFile) (l : List ImpactedFile)
    → P x
    → All P l
    → All P (insert_sorted x l)
All-insert_sorted P x [] h a = (h, tt)
All-insert_sorted P x (y ∷ ys) h a =
    if-cases (All P) (before x y) (λ _. (h, a)) (λ _. (a.0, All-insert_sorted P x ys h a.1))

insert_sorted-IsByDepth :
    (x : ImpactedFile) (l : List ImpactedFile) → IsByDepth l → IsByDepth (insert_sorted x l)
insert_sorted-IsByDepth x [] s = (tt, tt)
insert_sorted-IsByDepth x (y ∷ ys) s =
    if-cases IsByDepth (before x y)
      (λ e.
        let le : x.depth ≤ y.depth = ground (arith, e) in
        ((le, All-weaken x.depth y.depth ys le s.0), s))
      (λ e.
        let le : y.depth ≤ x.depth = ground (arith, e) in
        (All-insert_sorted (λ f. y.depth ≤ f.depth) x ys le s.0, insert_sorted-IsByDepth x ys s.1))

sort_files-IsByDepth : (m : Impacted) → IsByDepth (sort_files m)
sort_files-IsByDepth [] = tt
sort_files-IsByDepth ((p, (d, r)) ∷ m) =
    insert_sorted-IsByDepth (record { path = p; depth = d; reason = r }) (sort_files m)
      (sort_files-IsByDepth m)

sort_files-IsWithin : (b : ℕ) (m : Impacted) → IsWithin b m → All (λ f. f.depth ≤ b) (sort_files m)
sort_files-IsWithin b [] w = tt
sort_files-IsWithin b ((p, (d, r)) ∷ m) w =
    All-insert_sorted (λ f. f.depth ≤ b) (record { path = p; depth = d; reason = r }) (sort_files m)
      w.0 (sort_files-IsWithin b m w.1)

-- An answer for the seed and the depth: at most 500 symbols are visited, each by a walk of at most
-- `max_depth` edges from the seed; the completeness is at most `max_depth`; the files come by
-- depth, which is at most `max_depth`, or 2 for the files that come through sibling methods.
pub record IsAnswer (db : Database) (start : String) (max_depth : ℕ)
    (answer : List ImpactedFile × ℕ × List String) : Type 0 where
  pub cap : length answer.2 ≤ max_visited
  pub near : All (Near db start max_depth) answer.2
  pub complete : answer.1 ≤ max_depth
  pub by_depth : IsByDepth answer.0
  pub within : (b : ℕ) → max_depth ≤ b → 2 ≤ b → All (λ f. f.depth ≤ b) answer.0

module _ (db : Database) (start : String) where
  sibling-IsWithin :
      (b : ℕ) (m : Impacted)
      → 2 ≤ b
      → IsWithin b m
      → Holds (IsWithin b) (add_sibling_method_files db start m)
  unfolding add_sibling_method_files
  sibling-IsWithin b m h w =
      if-cases (Holds (IsWithin b)) (not (is_safe_ident start)) (λ _. w)
        (λ _. go (db.query (sibling_text start)))
    where
      go :
          (o : Option (List Row))
          → Holds
              (IsWithin b)
              (elim o [ none ↦ none | some rows ↦ some (insert_all (first_texts rows) m) ])
      go none = tt
      go (some rows) = insert_all-IsWithin b (first_texts rows) m h w

  -- The two stages after the definitions' files, from the bound for each depth.
  finish-IsAnswer :
      (max_depth : ℕ) (o : Option Traversal)
      → ((b : ℕ) → max_depth ≤ b → Holds (IsTraversal db start max_depth b) o)
      → Holds (IsAnswer db start max_depth) (elim o [
        | none ↦ none
        | some t ↦ elim (add_sibling_method_files db start t.impacted) [
          | none ↦ none
          | some m ↦ some (sort_files m, t.completeness, t.visited)
        ]
      ])
  finish-IsAnswer max_depth none h = tt
  finish-IsAnswer max_depth (some t) h =
      go (add_sibling_method_files db start t.impacted)
        (λ b l two. sibling-IsWithin b t.impacted two (h b l).deep)
    where
      go :
          (o : Option Impacted)
          → ((b : ℕ) → max_depth ≤ b → 2 ≤ b → Holds (IsWithin b) o)
          → Holds
              (IsAnswer db start max_depth)
              (elim o [ none ↦ none | some m ↦ some (sort_files m, t.completeness, t.visited) ])
      go none w = tt
      go (some m) w =
          let s = h max_depth (omega arith) in
          record {
            cap = s.cap;
            near = s.near;
            complete = s.complete;
            by_depth = sort_files-IsByDepth m;
            within = λ b l two. sort_files-IsWithin b m (w b l two);
          }

  search-IsAnswer :
      (max_depth : ℕ) (files : List String)
      → Holds (IsAnswer db start max_depth) (search db start max_depth files)
  unfolding search
  search-IsAnswer max_depth [] = record {
    cap = omega arith;
    near = tt;
    complete = omega arith;
    by_depth = tt;
    within = λ b l two. tt;
  }
  search-IsAnswer max_depth (f ∷ fs) = finish-IsAnswer max_depth _ (λ b l.
      depths-IsTraversal db start max_depth b max_depth 0 (start ∷ []) _ l (omega arith) (here, tt)
        (record {
          cap = omega arith;
          deep = seed_all-IsWithin b (f ∷ fs) [] tt;
          near = ((0, omega arith, here), tt);
          complete = omega arith;
        }))

  -- Whatever the database answers, an answer of the search visits at most 500 symbols, each reached
  -- from the seed by at most `max_depth` CALLS or REFERENCES edges through safe identifiers; its
  -- completeness is at most `max_depth`; its files come in the order of their depths, which are at
  -- most `max_depth` (or 2, where that is more).
  pub bfs_from_symbol-IsAnswer :
      (max_depth : ℕ) (answer : List ImpactedFile × ℕ × List String)
      → bfs_from_symbol db start max_depth ≡ some answer
      → IsAnswer db start max_depth answer
  unfolding bfs_from_symbol
  bfs_from_symbol-IsAnswer max_depth answer e = subst (Holds (IsAnswer db start max_depth)) e (
      if-cases (Holds (IsAnswer db start max_depth)) (not db.connects) (λ _. tt)
        (λ _. go (query_def_files db start)))
    where
      go :
          (o : Option (List String))
          → Holds
              (IsAnswer db start max_depth)
              (elim o [ none ↦ none | some files ↦ search db start max_depth files ])
      go none = tt
      go (some files) = search-IsAnswer max_depth files
