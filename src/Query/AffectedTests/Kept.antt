-- ===== src/Query/AffectedTests/Kept.antt =====
-- What the phases of `collect_affected_tests` keep: every path once, and the edges that were found.
use graphatlas.Prelude.{
  String, str_eq, str_eq_iff, str_eq_refl, List, [], ◌∷◌, any, none, some, Bool, true, false, not,
  ◌&&◌, ◌||◌, if◌then◌else◌, All, ◌≡◌, refl, inl, inr, arith, Option-cases, Bool-cases, if-cases,
}
use graphatlas.Prelude.Assoc.{get, insert}
use graphatlas.Prelude.Sort.{IsSorted}
use graphatlas.Query.AffectedTests.{
  AffectedTestReason, by_edge, by_convention, ByPath, insert_edges, or_insert, add_paths,
}

abbrev TestEntry : Type 0
TestEntry = String × AffectedTestReason

abbrev pub apart : TestEntry → TestEntry → Bool
apart e f = not (str_eq e.0 f.0)

abbrev pub IsKeyed : ByPath → Type 0
IsKeyed m = IsSorted apart m

apart-insert :
    (e : TestEntry) (p : String) (r : AffectedTestReason) (m : ByPath)
    → str_eq e.0 p ≡ false
    → All (λ f. apart e f ≡ true) m
    → All (λ f. apart e f ≡ true) (insert p r m)
unfolding insert
apart-insert e p r [] d h = (ground (arith, d), tt)
apart-insert e p r ((q, t) ∷ m) d h =
    if-cases (All (λ f. apart e f ≡ true)) (str_eq q p) (λ _. (ground (arith, d), h.1))
      (λ _. (h.0, apart-insert e p r m d h.1))

rekey :
    (p q : String) (t r : AffectedTestReason) (m : ByPath)
    → str_eq q p ≡ true
    → All (λ f. apart (q, t) f ≡ true) m
    → All (λ f. apart (p, r) f ≡ true) m
rekey p q t r [] e h = tt
rekey p q t r (f ∷ m) e h = (
  ground (arith, e, h.0, str_eq_iff q p, str_eq_iff q f.0, str_eq_iff p f.0),
  rekey p q t r m e h.1,
)

insert-IsKeyed :
    (p : String) (r : AffectedTestReason) (m : ByPath) → IsKeyed m → IsKeyed (insert p r m)
unfolding insert
insert-IsKeyed p r [] k = (tt, tt)
insert-IsKeyed p r ((q, t) ∷ m) k =
    if-cases IsKeyed (str_eq q p) (λ e. (rekey p q t r m e k.0, k.1))
      (λ d. (apart-insert (q, t) p r m d k.0, insert-IsKeyed p r m k.1))

or_insert-IsKeyed :
    (p : String) (r : AffectedTestReason) (m : ByPath) → IsKeyed m → IsKeyed (or_insert p r m)
unfolding or_insert
or_insert-IsKeyed p r m k = elim (Option-cases (get p m)) [
  | inl e ↦ rw (e, or_insert) (insert-IsKeyed p r m k)
  | inr (o, e) ↦ rw (e, or_insert) k
]

pub insert_edges-IsKeyed : (l : List String) (m : ByPath) → IsKeyed m → IsKeyed (insert_edges l m)
insert_edges-IsKeyed [] m k = k
insert_edges-IsKeyed (p ∷ l) m k =
    insert_edges-IsKeyed l (insert p by_edge m) (insert-IsKeyed p by_edge m k)

pub add_paths-IsKeyed :
    (keep : String → Bool) (r : AffectedTestReason) (l : List String) (m : ByPath)
    → IsKeyed m
    → IsKeyed (add_paths keep r l m)
unfolding add_paths
add_paths-IsKeyed keep r [] m k = k
add_paths-IsKeyed keep r (p ∷ l) m k =
    add_paths-IsKeyed keep r l (if keep p then or_insert p r m else m)
      (if-cases IsKeyed (keep p) (λ _. or_insert-IsKeyed p r m k) (λ _. k))

abbrev pub is_edge : AffectedTestReason → Bool
is_edge by_edge = true
is_edge by_convention = false

-- The path is there, by an edge.
abbrev pub has_edge : String → ByPath → Bool
has_edge p m = any (λ e. str_eq p e.0 && is_edge e.1) m

-- Before the conventions, all entries are edges.
abbrev pub IsEdges : ByPath → Type 0
IsEdges m = All (λ e. is_edge e.1 ≡ true) m

insert-IsEdges : (p : String) (m : ByPath) → IsEdges m → IsEdges (insert p by_edge m)
unfolding insert
insert-IsEdges p [] h = (refl, tt)
insert-IsEdges p ((q, t) ∷ m) h =
    if-cases IsEdges (str_eq q p) (λ _. (refl, h.1)) (λ _. (h.0, insert-IsEdges p m h.1))

or_insert-IsEdges : (p : String) (m : ByPath) → IsEdges m → IsEdges (or_insert p by_edge m)
unfolding or_insert
or_insert-IsEdges p m h = elim (Option-cases (get p m)) [
  | inl e ↦ rw (e, or_insert) (insert-IsEdges p m h)
  | inr (o, e) ↦ rw (e, or_insert) h
]

pub insert_edges-IsEdges : (l : List String) (m : ByPath) → IsEdges m → IsEdges (insert_edges l m)
insert_edges-IsEdges [] m h = h
insert_edges-IsEdges (p ∷ l) m h =
    insert_edges-IsEdges l (insert p by_edge m) (insert-IsEdges p m h)

pub add_paths-IsEdges :
    (keep : String → Bool) (l : List String) (m : ByPath)
    → IsEdges m
    → IsEdges (add_paths keep by_edge l m)
unfolding add_paths
add_paths-IsEdges keep [] m h = h
add_paths-IsEdges keep (p ∷ l) m h =
    add_paths-IsEdges keep l (if keep p then or_insert p by_edge m else m)
      (if-cases IsEdges (keep p) (λ _. or_insert-IsEdges p m h) (λ _. h))

has_edge-insert_self : (p : String) (m : ByPath) → has_edge p (insert p by_edge m) ≡ true
unfolding insert
has_edge-insert_self p [] = rw (str_eq_refl p) refl
has_edge-insert_self p ((q, t) ∷ m) = ground (arith, str_eq_refl p, has_edge-insert_self p m)

-- An edge replaces no edge by another reason.
has_edge-insert :
    (p q : String) (m : ByPath) → has_edge p m ≡ true → has_edge p (insert q by_edge m) ≡ true
unfolding insert
has_edge-insert p q [] h = absurd (ground (arith, h))
has_edge-insert p q ((s, t) ∷ m) h =
    ground (arith, h, str_eq_iff s q, str_eq_iff p s, str_eq_iff p q, has_edge-insert p q m)

-- A path that was not there is added beside the others.
has_edge-insert_new :
    (p q : String) (r : AffectedTestReason) (m : ByPath)
    → get q m ≡ none
    → has_edge p m ≡ true
    → has_edge p (insert q r m) ≡ true
unfolding insert get
has_edge-insert_new p q r [] e h = absurd (ground (arith, h))
has_edge-insert_new p q r ((s, t) ∷ m) e h = ground (arith, e, h, has_edge-insert_new p q r m)

has_edge-or_insert :
    (p q : String) (r : AffectedTestReason) (m : ByPath)
    → has_edge p m ≡ true
    → has_edge p (or_insert q r m) ≡ true
unfolding or_insert
has_edge-or_insert p q r m h = elim (Option-cases (get q m)) [
  | inl e ↦ rw (e, or_insert) (has_edge-insert_new p q r m e h)
  | inr (o, e) ↦ rw (e, or_insert) h
]

get-IsEdges :
    (p : String) (m : ByPath) (r : AffectedTestReason)
    → IsEdges m
    → get p m ≡ some r
    → has_edge p m ≡ true
unfolding get
get-IsEdges p [] r h e = absurd (ground (arith, e))
get-IsEdges p ((q, t) ∷ m) r h e =
    ground (arith, h.0, e, str_eq_iff q p, str_eq_iff p q, get-IsEdges p m r h.1)

has_edge-or_insert_self :
    (p : String) (m : ByPath) → IsEdges m → has_edge p (or_insert p by_edge m) ≡ true
unfolding or_insert
has_edge-or_insert_self p m h = elim (Option-cases (get p m)) [
  | inl e ↦ rw (e, or_insert) (has_edge-insert_self p m)
  | inr (o, e) ↦ rw (e, or_insert) (get-IsEdges p m o h e)
]

pub has_edge-add_paths :
    (p : String) (keep : String → Bool) (r : AffectedTestReason) (l : List String) (m : ByPath)
    → has_edge p m ≡ true
    → has_edge p (add_paths keep r l m) ≡ true
unfolding add_paths
has_edge-add_paths p keep r [] m h = h
has_edge-add_paths p keep r (q ∷ l) m h =
    has_edge-add_paths p keep r l (if keep q then or_insert q r m else m)
      (if-cases (λ n. has_edge p n ≡ true) (keep q) (λ _. has_edge-or_insert p q r m h) (λ _. h))

pub has_edge-insert_edges :
    (p : String) (l : List String) (m : ByPath)
    → (any (str_eq p) l || has_edge p m) ≡ true
    → has_edge p (insert_edges l m) ≡ true
has_edge-insert_edges p [] m h = h
has_edge-insert_edges p (q ∷ l) m h =
    has_edge-insert_edges p l (insert q by_edge m)
      (ground (arith, h, str_eq_iff p q, has_edge-insert_self q m, has_edge-insert p q m))

pub has_edge-add_edges :
    (p : String) (keep : String → Bool) (l : List String) (m : ByPath)
    → IsEdges m
    → (any (str_eq p) l && keep p) ≡ true
    → has_edge p (add_paths keep by_edge l m) ≡ true
unfolding add_paths
has_edge-add_edges p keep [] m k h = absurd (ground (arith, h))
has_edge-add_edges p keep (q ∷ l) m k h = elim (Bool-cases (str_eq p q)) [
  | inl e ↦
      has_edge-add_paths p keep by_edge l (if keep q then or_insert q by_edge m else m) (here e)
  | inr e ↦
      has_edge-add_edges p keep l (if keep q then or_insert q by_edge m else m)
        (if-cases IsEdges (keep q) (λ _. or_insert-IsEdges q m k) (λ _. k)) (ground (arith, h, e))
]
  where
    here : str_eq p q ≡ true → has_edge p (if keep q then or_insert q by_edge m else m) ≡ true
    here e =
        let same = (str_eq_iff p q).0 e in
        let kept : keep q ≡ true = ground (arith, h, same) in
        rw (kept, same) (has_edge-or_insert_self q m k)
