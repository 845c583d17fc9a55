-- ===== src/Query/Brandes/Shortest.antt =====
-- crates/ga-query/src/bridges.rs: the distances that the search of Brandes' algorithm finds.
use graphatlas.Prelude.{
  ℕ, zero, suc, ◌+◌, ◌≤◌, ◌<◌, ◌==◌, ==_iff, ◌≡◌, refl, ap, sym, subst, ◌∙◌, inl, inr, arith,
  Option, none, some, true, false, Bool-cases, Option-cases, List, [], ◌∷◌, ◌++◌, All, length,
  length-append,
}
use mathlib.Core.List.{append_assoc, append-nil}
use graphatlas.Query.Brandes.{
  Floats, put, next, Search, visit_node, run_queue, start_at, search_from,
}
use graphatlas.Query.Brandes.Scan.{
  Dist, member, member-append, offer_all, Offered, offer_all-Offered, unseen, unseen-offer_all,
  unseen-put, scan-offer_all,
}

-- The walks from a source, with their lengths.
pub data Walk (adj : ℕ → List ℕ) (source : ℕ) : ℕ → ℕ → Type 0 where
  start : Walk adj source source 0
  step : {u w k : ℕ} → Walk adj source u k → member w (adj u) ≡ true → Walk adj source w (k + 1)

-- The distance is the length of a shortest walk, and there is none exactly where no walk leads.
pub record IsDistance (adj : ℕ → List ℕ) (source w : ℕ) (d : Option ℕ) : Type 0 where
  pub attained : (k : ℕ) → d ≡ some k → Walk adj source w k
  pub least : (k : ℕ) → Walk adj source w k → (e : ℕ) × (d ≡ some e) × (e ≤ k)

-- First the nodes of one level, then those of the next.
record IsLeveled (dist : Dist) (level : ℕ) (front back : List ℕ) : Type 0 where
  in_front : (u : ℕ) → member u front ≡ true → dist u ≡ some level
  in_back : (u : ℕ) → member u back ≡ true → dist u ≡ some (level + 1)
  bounded : (u d : ℕ) → dist u ≡ some d → d ≤ level + 1

abbrev Leveled : Dist → List ℕ → Type 0
Leveled dist q =
    (level : ℕ) × (front : List ℕ) × (back : List ℕ) × (q ≡ front ++ back)
    × IsLeveled dist level front back

-- The level of the first node in the queue.
abbrev Headed : Dist → ℕ → List ℕ → Type 0
Headed dist v rest =
    (level : ℕ) × (front : List ℕ) × (back : List ℕ) × (rest ≡ front ++ back)
    × (dist v ≡ some level)
    × IsLeveled dist level front back

head_level : (dist : Dist) (v : ℕ) (rest : List ℕ) → Leveled dist (v ∷ rest) → Headed dist v rest
head_level dist v rest (level, [], back, split, l) = (
  level + 1,
  rest,
  [],
  sym (append-nil rest),
  l.in_back v (rw (← split) (ground arith)),
  record {
    in_front = λ u m. l.in_back u (rw (← split) (ground (arith, m)));
    in_back = λ u m. absurd (ground (arith, m));
    bounded = λ u d h. omega (arith, l.bounded u d h);
  },
)
head_level dist v rest (level, x ∷ front, back, split, l) = (
  level,
  front,
  back,
  ground (arith, split),
  l.in_front v (ground (arith, split)),
  record {
    in_front = λ u m. l.in_front u (ground (arith, m));
    in_back = l.in_back;
    bounded = l.bounded;
  },
)

unseen-none : (n : ℕ) → unseen (λ _. none) n ≡ n
unseen-none zero = refl
unseen-none (suc n) = omega (arith, unseen-none n)

module _ (adj : ℕ → List ℕ) (source : ℕ) where
  pub record Inv (dist : Dist) (q : List ℕ) : Type 0 where
    pub origin : dist source ≡ some 0
    pub sound : (u d : ℕ) → dist u ≡ some d → Walk adj source u d
    pub closed :
        (u d w : ℕ)
        → dist u ≡ some d
        → member u q ≡ false
        → member w (adj u) ≡ true
        → (e : ℕ) × (dist w ≡ some e) × (e ≤ d + 1)
    leveled : Leveled dist q

  sound_after :
      (dist dist' : Dist) (v level : ℕ) (q added : List ℕ)
      → Inv dist q
      → dist v ≡ some level
      → Offered (level + 1) (adj v) dist dist' added
      → (u d : ℕ) → dist' u ≡ some d
      → Walk adj source u d
  sound_after dist dist' v level q added i here o u d h = elim (Option-cases (dist u)) [
    | inl new ↦
        let (level', near, queued) = o.fresh u d h new in
        subst (Walk adj source u) (sym level') (step (i.sound v level here) near)
    | inr (e, old) ↦ i.sound u d (ground (arith, h, old, o.kept u e old))
  ]

  bounded_after :
      (dist dist' : Dist) (v level : ℕ) (front back added : List ℕ)
      → IsLeveled dist level front back
      → Offered (level + 1) (adj v) dist dist' added
      → (u d : ℕ) → dist' u ≡ some d
      → d ≤ level + 1
  bounded_after dist dist' v level front back added l o u d h = elim (Option-cases (dist u)) [
    | inl new ↦ omega (arith, (o.fresh u d h new).0)
    | inr (e, old) ↦ ground (arith, h, old, o.kept u e old, l.bounded u e old)
  ]

  closed_after :
      (dist dist' : Dist) (v level : ℕ) (rest front back added : List ℕ)
      → Inv dist (v ∷ rest)
      → dist v ≡ some level
      → IsLeveled dist level front back
      → Offered (level + 1) (adj v) dist dist' added
      → (u d w : ℕ) → dist' u ≡ some d
      → member u (rest ++ added) ≡ false
      → member w (adj u) ≡ true
      → (e : ℕ) × (dist' w ≡ some e) × (e ≤ d + 1)
  closed_after dist dist' v level rest front back added i here l o u d w h m near =
      elim (Bool-cases (v == u)) [
        | inl same ↦
            let is_v : v ≡ u = (==_iff v u).0 same in
            let reached = o.hit w (rw is_v near) in
            elim (Option-cases (dist' w)) [
              | inl gone ↦ absurd (reached gone)
              | inr (e, found) ↦ (
                e,
                found,
                ground (
                  arith,
                  h,
                  here,
                  is_v,
                  o.kept v level here,
                  bounded_after dist dist' v level front back added l o w e found,
                ),
              )
            ]
        | inr other ↦ elim (Option-cases (dist u)) [
          | inl new ↦ absurd (ground (arith, m, o.fresh u d h new, member-append u rest added))
          | inr (c, old) ↦
              let (e, found, le) =
                i.closed u c w old (ground (arith, m, other, member-append u rest added)) near in
              (e, o.kept w e found, ground (arith, le, h, old, o.kept u c old))
        ]
      ]

  Inv-Offered :
      (dist dist' : Dist) (v level : ℕ) (rest front back added : List ℕ)
      → Inv dist (v ∷ rest)
      → rest ≡ front ++ back
      → dist v ≡ some level
      → IsLeveled dist level front back
      → Offered (level + 1) (adj v) dist dist' added
      → Inv dist' (rest ++ added)
  Inv-Offered dist dist' v level rest front back added i split here l o = record {
    origin = o.kept source 0 i.origin;
    sound = sound_after dist dist' v level (v ∷ rest) added i here o;
    closed = closed_after dist dist' v level rest front back added i here l o;
    leveled = (
      level,
      front,
      back ++ added,
      ap (λ t. t ++ added) split ∙ append_assoc front back added,
      record {
        in_front = λ u m. o.kept u level (l.in_front u m);
        in_back = λ u m. elim (Bool-cases (member u back)) [
          | inl old ↦ o.kept u (level + 1) (l.in_back u old)
          | inr added_now ↦ (o.new u (ground (arith, m, added_now, member-append u back added))).1
        ];
        bounded = bounded_after dist dist' v level front back added l o;
      },
    );
  }

  Inv-visit :
      (dist : Dist) (v : ℕ) (rest : List ℕ)
      → Inv dist (v ∷ rest)
      → let (dist', added) = offer_all (next (dist v)) (adj v) dist in Inv dist' (rest ++ added)
  Inv-visit dist v rest i =
      let (level, front, back, split, here, l) = head_level dist v rest i.leveled in
      subst
        (λ o. Inv (offer_all (next o) (adj v) dist).0 (rest ++ (offer_all (next o) (adj v) dist).1))
        (sym here)
        (Inv-Offered dist _ v level rest front back _ i split here l
          (offer_all-Offered (level + 1) (adj v) dist))

  pub Inv-head :
      (dist : Dist) (v : ℕ) (rest : List ℕ)
      → Inv dist (v ∷ rest)
      → (level : ℕ) × (dist v ≡ some level)
  Inv-head dist v rest i =
      let (level, front, back, split, here, l) = head_level dist v rest i.leveled in (level, here)

  Inv-start : Inv (put source (some 0) (λ _. none)) (source ∷ [])
  Inv-start = record {
    origin = ground arith;
    sound = λ u d h. elim (Bool-cases (source == u)) [
      | inl same ↦
          subst (λ k. Walk adj source u k) (ground (arith, h, same))
            (subst (λ x. Walk adj source x 0) ((==_iff source u).0 same) start)
      | inr other ↦ absurd (ground (arith, h, other))
    ];
    closed = λ u d w h m near. absurd (ground (arith, h, m));
    leveled = (
      0,
      source ∷ [],
      [],
      refl,
      record {
        in_front = λ u m. ground (arith, m);
        in_back = λ u m. absurd (ground (arith, m));
        bounded = λ u d h. ground (arith, h);
      },
    );
  }

  -- With an empty queue every walk leads to a node no further than the walk is long.
  Inv-least :
      (dist : Dist) (w k : ℕ)
      → Inv dist []
      → Walk adj source w k
      → (e : ℕ) × (dist w ≡ some e) × (e ≤ k)
  Inv-least dist w k i start = (0, i.origin, omega arith)
  Inv-least dist x m i (step {u} {w} {k} walk near) =
      let (d, found, le) = Inv-least dist u k i walk in
      let (e, next_found, le') = i.closed u d w found refl near in
      (e, next_found, omega (arith, le, le'))

  pub Inv-IsDistance : (dist : Dist) (w : ℕ) → Inv dist [] → IsDistance adj source w (dist w)
  Inv-IsDistance dist w i = record {
    attained = λ k h. i.sound w k h;
    least = λ k walk. Inv-least dist w k i walk;
  }

  -- What holds of the search and its queue beside the invariant, and is kept by each round.
  pub record IsKept {fl : Floats} (P : Search fl → List ℕ → Type 0) : Type 0 where
    pub visit :
        (s : Search fl) (v : ℕ) (rest : List ℕ)
        → Inv s.dist (v ∷ rest)
        → P s (v ∷ rest)
        → P (visit_node adj v rest s) ((visit_node adj v rest s).queue)

  -- Every node has its neighbours below `n`.
  run_queue-IsKept :
      {fl : Floats} (P : Search fl → List ℕ → Type 0) (n fuel : ℕ) (s : Search fl) (q : List ℕ)
      → IsKept P
      → ((u : ℕ) → All (λ w. w < n) (adj u))
      → Inv s.dist q
      → P s q
      → length q + unseen s.dist n ≤ fuel
      → (t : Search fl) × (run_queue fuel adj s q ≡ some t) × Inv t.dist [] × P t []
  unfolding run_queue visit_node
  run_queue-IsKept P n fuel s [] keep near i p h = (s, refl, i, p)
  run_queue-IsKept P n zero s (v ∷ rest) keep near i p h = absurd (omega (arith, h))
  run_queue-IsKept {fl} P n (suc fuel) s (v ∷ rest) keep near i p h =
      let d = next (s.dist v) in
      let s0 : Search fl = record s { queue = rest; stack = v ∷ s.stack } in
      let s' = visit_node adj v rest s in
      let (ds, qs) = scan-offer_all v d (s.sigma v) (adj v) s0 in
      let counted : length s'.queue + unseen s'.dist n ≤ fuel =
        rw (ds, qs)
          (omega (
            arith,
            h,
            length-append rest (offer_all d (adj v) s.dist).1,
            unseen-offer_all d n (adj v) s.dist (near v),
          )) in
      let kept : Inv s'.dist s'.queue = rw (ds, qs) (Inv-visit s.dist v rest i) in
      run_queue-IsKept P n fuel s' (s'.queue) keep near kept (keep.visit s v rest i p) counted

  pub search_from-IsKept :
      {fl : Floats} (P : Search fl → List ℕ → Type 0) (n : ℕ)
      → IsKept P
      → P (start_at fl source) (source ∷ [])
      → ((u : ℕ) → All (λ w. w < n) (adj u))
      → source < n
      → (t : Search fl) × (search_from fl n adj source ≡ some t) × Inv t.dist [] × P t []
  unfolding search_from
  search_from-IsKept {fl} P n keep p near h =
      run_queue-IsKept P n n (start_at fl source) (source ∷ []) keep near Inv-start p
        (omega (arith, unseen-put source 0 n (λ _. none) h refl, unseen-none n))

  -- The search from a node of the graph visits each node once: it ends with the fuel given, and its
  -- distances are the lengths of the shortest walks.
  pub search_from-IsDistance :
      (fl : Floats) (n : ℕ)
      → ((u : ℕ) → All (λ w. w < n) (adj u))
      → source < n
      → (t : Search fl) × (search_from fl n adj source ≡ some t)
        × ((w : ℕ) → IsDistance adj source w (t.dist w))
  search_from-IsDistance fl n near h =
      let (t, e, i, nothing) =
        search_from-IsKept {fl = fl} (λ s q. Unit) n (record { visit = λ s v rest i p. tt }) tt near
          h in
      (t, e, λ w. Inv-IsDistance t.dist w i)
