-- ===== src/Query/Impact/Bounds.antt =====
-- What the search may visit and answer.
use graphatlas.Prelude.{
  ℕ, ◌≤◌, ltb, leb, String, str_eq, List, [], ◌∷◌, length, All, inl, inr, arith, Bool-cases,
  Option-cases, if-cases,
}
use graphatlas.Prelude.Assoc.{get, insert}
use graphatlas.Query.Impact.{
  ImpactReason, seed, callee, Impacted, max_visited, upsert_impacted, insert_absent, insert_all,
  seed_all, visited_mem, Level, discover, edge, edges,
}

-- Every file's depth is at most `k`.
abbrev pub IsWithin : ℕ → Impacted → Type 0
IsWithin k m = All (λ e. e.1.0 ≤ k) m

insert-IsWithin :
    (k d : ℕ) (f : String) (r : ImpactReason) (m : Impacted)
    → d ≤ k
    → IsWithin k m
    → IsWithin k (insert f (d, r) m)
unfolding insert
insert-IsWithin k d f r [] h w = (h, tt)
insert-IsWithin k d f r ((g, e) ∷ m) h w = elim (Bool-cases (str_eq g f)) [
  | inl same ↦ rw same (h, w.1)
  | inr other ↦ rw other (w.0, insert-IsWithin k d f r m h w.1)
]

upsert-IsWithin :
    (k d : ℕ) (f : String) (r : ImpactReason) (m : Impacted)
    → d ≤ k
    → IsWithin k m
    → IsWithin k (upsert_impacted f d r m)
unfolding upsert_impacted
upsert-IsWithin k d f r m h w = elim (Option-cases (get f m)) [
  | inl e ↦ rw (e, upsert_impacted) (insert-IsWithin k d f r m h w)
  | inr (x, e) ↦
      rw (e, upsert_impacted)
        (if-cases (IsWithin k) (ltb d x.0) (λ _. insert-IsWithin k d f r m h w) (λ _. w))
]

pub insert_all-IsWithin :
    (k : ℕ) (fs : List String) (m : Impacted) → 2 ≤ k → IsWithin k m → IsWithin k (insert_all fs m)
unfolding insert_absent
insert_all-IsWithin k [] m h w = w
insert_all-IsWithin k (f ∷ fs) m h w = elim (Option-cases (get f m)) [
  | inl e ↦
      insert_all-IsWithin k fs _ h (rw (e, insert_absent) (insert-IsWithin k 2 f callee m h w))
  | inr (x, e) ↦ insert_all-IsWithin k fs _ h (rw (e, insert_absent) w)
]

pub seed_all-IsWithin :
    (k : ℕ) (fs : List String) (m : Impacted) → IsWithin k m → IsWithin k (seed_all fs m)
seed_all-IsWithin k [] m w = w
seed_all-IsWithin k (f ∷ fs) m w =
    seed_all-IsWithin k fs _ (insert-IsWithin k 0 f seed m (omega arith) w)

-- The invariant of one depth: the cap on the visited symbols, the depths of the files.
pub record IsBounded (k : ℕ) (l : Level) : Type 0 where
  pub cap : length l.visited ≤ max_visited
  pub deep : IsWithin k l.impacted

edge-IsBounded :
    (k depth : ℕ) (r : ImpactReason) (e : String × String) (l : Level)
    → depth ≤ k
    → IsBounded k l
    → IsBounded k (edge depth r e l)
unfolding edge discover
edge-IsBounded k depth r e l h b =
    if-cases (IsBounded k) l.stopped (λ _. b)
      (λ _.
        if-cases (IsBounded k) (leb max_visited (length l.visited))
          (λ _. record { cap = b.cap; deep = b.deep })
          (λ room.
            if-cases (IsBounded k) (visited_mem e.0 l.visited)
              (λ _. record { cap = b.cap; deep = deeper })
              (λ _. record { cap = ground (arith, room); deep = deeper })))
  where
    deeper : IsWithin k (upsert_impacted e.1 depth r l.impacted)
    deeper = upsert-IsWithin k depth e.1 r l.impacted h b.deep

pub edges-IsBounded :
    (k depth : ℕ) (r : ImpactReason) (es : List (String × String)) (l : Level)
    → depth ≤ k
    → IsBounded k l
    → IsBounded k (edges depth r es l)
unfolding edges
edges-IsBounded k depth r [] l h b = b
edges-IsBounded k depth r (e ∷ es) l h b =
    edges-IsBounded k depth r es (edge depth r e l) h (edge-IsBounded k depth r e l h b)
