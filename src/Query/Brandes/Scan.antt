-- ===== src/Query/Brandes/Scan.antt =====
-- crates/ga-query/src/bridges.rs: what one round of the search does to distances and queue.
use graphatlas.Prelude.{
  ℕ, zero, suc, ◌+◌, ◌≤◌, ◌<◌, ◌==◌, ==_iff, ◌≡◌, ◌≢◌, refl, ap, sym, ◌∙◌, inl, inr, arith, Option,
  none, some, Bool, true, ◌||◌, if-cases, Bool-cases, Option-cases, List, [], ◌∷◌, ◌++◌, any, All,
  length, length-append,
}
use mathlib.Core.List.{append-nil, append_assoc}
use graphatlas.Query.Brandes.{Floats, put, is_at, Search, reach_at, reach_node, count_paths, scan}

abbrev pub Dist : Type 0
Dist = ℕ → Option ℕ

abbrev pub member : ℕ → List ℕ → Bool
member u xs = any (λ x. x == u) xs

-- One node, with what is added to the queue.
abbrev pub offer : ℕ → ℕ → Option ℕ → Dist → Dist × List ℕ
offer d w none dist = (put w (some d) dist, w ∷ [])
offer d w (some e) dist = (dist, [])

-- A round without the path counts.
abbrev pub offer_all : ℕ → List ℕ → Dist → Dist × List ℕ
offer_all d [] dist = (dist, [])
offer_all d (w ∷ ws) dist =
    let (dist1, first) = offer d w (dist w) dist in
    let (dist2, later) = offer_all d ws dist1 in (dist2, first ++ later)

-- What a round does, with the distance `d` for the neighbours `ws`.
pub record Offered (d : ℕ) (ws : List ℕ) (dist dist' : Dist) (added : List ℕ) : Type 0 where
  pub kept : (u e : ℕ) → dist u ≡ some e → dist' u ≡ some e
  pub fresh :
      (u e : ℕ)
      → dist' u ≡ some e
      → dist u ≡ none
      → (e ≡ d) × (member u ws ≡ true) × (member u added ≡ true)
  pub hit : (u : ℕ) → member u ws ≡ true → dist' u ≢ none
  pub new : (u : ℕ) → member u added ≡ true → (dist u ≡ none) × (dist' u ≡ some d)

pub member-append : (u : ℕ) (xs ys : List ℕ) → member u (xs ++ ys) ≡ (member u xs || member u ys)
member-append u [] ys = refl
member-append u (x ∷ xs) ys = ground (arith, member-append u xs ys)

pub Offered-offer :
    (d w : ℕ) (dist : Dist) (o : Option ℕ)
    → dist w ≡ o
    → let (dist', added) = offer d w o dist in Offered d (w ∷ []) dist dist' added
Offered-offer d w dist none h = record {
  kept = λ u e k. ground (arith, h, k);
  fresh = λ u e k n. ground (arith, k, n);
  hit = λ u m. ground (arith, m);
  new = λ u m. ground (arith, h, m);
}
Offered-offer d w dist (some e) h = record {
  kept = λ u e k. k;
  fresh = λ u e k n. absurd (ground (arith, k, n));
  hit = λ u m. ground (arith, h, m);
  new = λ u m. absurd (ground (arith, m));
}

Offered-both :
    (d w : ℕ) (ws : List ℕ) (dist dist1 dist2 : Dist) (first later : List ℕ)
    → Offered d (w ∷ []) dist dist1 first
    → Offered d ws dist1 dist2 later
    → Offered d (w ∷ ws) dist dist2 (first ++ later)
Offered-both d w ws dist dist1 dist2 first later a b = record {
  kept = λ u e k. b.kept u e (a.kept u e k);
  fresh = λ u e k n. elim (Option-cases (dist1 u)) [
    | inl still ↦ ground (arith, b.fresh u e k still, member-append u first later)
    | inr (e1, now) ↦
        ground (arith, a.fresh u e1 now n, b.kept u e1 now, k, member-append u first later)
  ];
  hit = λ u m. elim (Option-cases (dist1 u)) [
    | inl still ↦ b.hit u (ground (arith, m, still, a.hit u))
    | inr (e1, now) ↦ λ gone. ground (arith, gone, b.kept u e1 now)
  ];
  new = λ u m. elim (Bool-cases (member u first)) [
    | inl early ↦ ground (arith, a.new u early, b.kept u d)
    | inr late ↦ elim (Option-cases (dist u)) [
      | inl before ↦ ground (arith, before, m, late, b.new u, member-append u first later)
      | inr (e, known) ↦
          ground (arith, known, m, late, b.new u, a.kept u e, member-append u first later)
    ]
  ];
}

pub offer_all-Offered :
    (d : ℕ) (ws : List ℕ) (dist : Dist)
    → let (dist', added) = offer_all d ws dist in Offered d ws dist dist' added
offer_all-Offered d [] dist = record {
  kept = λ u e k. k;
  fresh = λ u e k n. absurd (ground (arith, k, n));
  hit = λ u m. absurd (ground (arith, m));
  new = λ u m. absurd (ground (arith, m));
}
offer_all-Offered d (w ∷ ws) dist =
    Offered-both d w ws dist _ _ _ _ (Offered-offer d w dist (dist w) refl)
      (offer_all-Offered d ws _)

-- The nodes below `n` that were not reached.
abbrev pub unseen : Dist → ℕ → ℕ
unseen dist zero = 0
unseen dist (suc n) = elim (dist n) [ none ↦ suc (unseen dist n) | some e ↦ unseen dist n ]

unseen-beyond : (w d n : ℕ) (dist : Dist) → n ≤ w → unseen (put w (some d) dist) n ≡ unseen dist n
unseen-beyond w d zero dist h = refl
unseen-beyond w d (suc n) dist h = ground (arith, h, unseen-beyond w d n dist)

pub unseen-put :
    (w d n : ℕ) (dist : Dist)
    → w < n
    → dist w ≡ none
    → 1 + unseen (put w (some d) dist) n ≡ unseen dist n
unseen-put w d zero dist h e = absurd (omega (arith, h))
unseen-put w d (suc n) dist h e = elim (Bool-cases (w == n)) [
  | inl last ↦ ground (arith, e, last, unseen-beyond w d n dist, ==_iff w n)
  | inr before ↦ ground (arith, e, h, before, unseen-put w d n dist)
]

unseen-offer :
    (d w n : ℕ) (dist : Dist) (o : Option ℕ)
    → dist w ≡ o
    → w < n
    → length (offer d w o dist).1 + unseen (offer d w o dist).0 n ≡ unseen dist n
unseen-offer d w n dist none e h = unseen-put w d n dist h e
unseen-offer d w n dist (some x) e h = omega arith

pub unseen-offer_all :
    (d n : ℕ) (ws : List ℕ) (dist : Dist)
    → All (λ w. w < n) ws
    → length (offer_all d ws dist).1 + unseen (offer_all d ws dist).0 n ≡ unseen dist n
unseen-offer_all d n [] dist h = omega arith
unseen-offer_all d n (w ∷ ws) dist h =
    let (dist1, first) = offer d w (dist w) dist in
    omega (
      arith,
      length-append first (offer_all d ws dist1).1,
      unseen-offer d w n dist (dist w) refl h.0,
      unseen-offer_all d n ws dist1 h.1,
    )

pub reach_at-offer :
    {fl : Floats} (d w : ℕ) (o : Option ℕ) (s : Search fl)
    → ((reach_at d w o s).dist ≡ (offer d w o s.dist).0)
      × ((reach_at d w o s).queue ≡ s.queue ++ (offer d w o s.dist).1)
reach_at-offer d w none s = (refl, refl)
reach_at-offer d w (some e) s = (refl, sym (append-nil s.queue))

pub count_paths-keeps :
    {fl : Floats} (v d : ℕ) (sv : fl.Float) (w : ℕ) (s : Search fl)
    → ((count_paths v d sv w s).dist ≡ s.dist) × ((count_paths v d sv w s).queue ≡ s.queue)
unfolding count_paths
count_paths-keeps {fl} v d sv w s =
    if-cases {A = Search fl} (λ t. (t.dist ≡ s.dist) × (t.queue ≡ s.queue)) (is_at (s.dist w) d)
      (λ e. (refl, refl)) λ e. (refl, refl)

pub scan-offer_all :
    {fl : Floats} (v d : ℕ) (sv : fl.Float) (ws : List ℕ) (s : Search fl)
    → ((scan v d sv ws s).dist ≡ (offer_all d ws s.dist).0)
      × ((scan v d sv ws s).queue ≡ s.queue ++ (offer_all d ws s.dist).1)
unfolding scan reach_node
scan-offer_all v d sv [] s = (refl, sym (append-nil s.queue))
scan-offer_all v d sv (w ∷ ws) s =
    let s1 = reach_node d w s in
    let s2 = count_paths v d sv w s1 in
    let (d1, q1) = reach_at-offer d w (s.dist w) s in
    let (d2, q2) = count_paths-keeps v d sv w s1 in
    let (d3, q3) = scan-offer_all v d sv ws s2 in
    let here = (offer d w (s.dist w) s.dist).1 in
    (
      d3 ∙ ap (λ t. (offer_all d ws t).0) (d2 ∙ d1),
      q3
          ∙ ap (λ t. s2.queue ++ (offer_all d ws t).1) (d2 ∙ d1)
          ∙ ap (λ t. t ++ (offer_all d ws (offer d w (s.dist w) s.dist).0).1) (q2 ∙ q1)
          ∙ append_assoc s.queue here (offer_all d ws (offer d w (s.dist w) s.dist).0).1,
    )
