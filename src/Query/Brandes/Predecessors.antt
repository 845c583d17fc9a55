-- ===== src/Query/Brandes/Predecessors.antt =====
-- crates/ga-query/src/bridges.rs: the predecessors that the search of Brandes' algorithm records.
use graphatlas.Prelude.{
  ℕ, ◌+◌, ◌<◌, ◌==◌, ==_iff, ◌≡◌, refl, ap, sym, subst, ◌∙◌, ◌↔◌, inl, inr, arith, Option, none,
  some, true, false, ◌&&◌, ◌||◌, if-cases, Bool-cases, Option-cases, List, [], ◌∷◌, ◌++◌, All,
}
use graphatlas.Query.Brandes.{
  Floats, next, is_at, Search, reach_at, reach_node, count_paths, scan, visit_node, start_at,
  search_from,
}
use graphatlas.Query.Brandes.Scan.{
  Dist, member, member-append, offer_all, Offered, Offered-offer, offer_all-Offered, reach_at-offer,
  count_paths-keeps, scan-offer_all,
}
use graphatlas.Query.Brandes.Shortest.{
  IsDistance, Inv, Inv-head, Inv-IsDistance, IsKept, search_from-IsKept,
}

count_paths-preds :
    {fl : Floats} (v d : ℕ) (sv : fl.Float) (w : ℕ) (s : Search fl) (x u : ℕ)
    → member x ((count_paths v d sv w s).preds u)
      ≡ (member x (s.preds u) || (v == x && (w == u && is_at (s.dist w) d)))
unfolding count_paths
count_paths-preds {fl} v d sv w s x u =
    if-cases {A = Search fl}
      (λ t.
        member x (t.preds u) ≡ (member x (s.preds u) || (v == x && (w == u && is_at (s.dist w) d))))
      (is_at (s.dist w) d)
      (λ e. elim (Bool-cases (w == u)) [
        | inl same ↦
            ground (
              arith,
              e,
              same,
              member-append x (s.preds w) (v ∷ []),
              ap s.preds ((==_iff w u).0 same),
            )
        | inr other ↦ ground (arith, e, other)
      ])
      λ e. ground (arith, e)

reach_at-preds :
    {fl : Floats} (d w : ℕ) (o : Option ℕ) (s : Search fl) → (reach_at d w o s).preds ≡ s.preds
reach_at-preds d w none s = refl
reach_at-preds d w (some e) s = refl

-- The distance that the second test reads is the final one of the round.
scan-settled :
    {fl : Floats} (v d : ℕ) (sv : fl.Float) (w : ℕ) (ws : List ℕ) (s : Search fl)
    → let s1 = reach_node d w s in
      let s2 = count_paths v d sv w s1 in is_at (s1.dist w) d ≡ is_at ((scan v d sv ws s2).dist w) d
unfolding reach_node
scan-settled v d sv w ws s =
    let s1 = reach_node d w s in
    let s2 = count_paths v d sv w s1 in
    let first = (reach_at-offer d w (s.dist w) s).0 in
    let second = (count_paths-keeps v d sv w s1).0 in
    let last = (scan-offer_all v d sv ws s2).0 in
    elim (Option-cases (s1.dist w)) [
      | inl gone ↦ absurd (
          (Offered-offer d w s.dist (s.dist w) refl).hit w (ground arith)
            (sym (ap (λ t. t w) first) ∙ gone))
      | inr (e, found) ↦
          let after = (offer_all-Offered d ws s2.dist).kept w e (ap (λ t. t w) second ∙ found) in
          ap (λ o. is_at o d) (found ∙ sym (ap (λ t. t w) last ∙ after))
    ]

-- A round records `v` before exactly the neighbours that are one further.
scan-preds :
    {fl : Floats} (v d : ℕ) (sv : fl.Float) (ws : List ℕ) (s : Search fl) (x u : ℕ)
    → member x ((scan v d sv ws s).preds u)
      ≡ (member x (s.preds u) || (v == x && (member u ws && is_at ((scan v d sv ws s).dist u) d)))
unfolding scan reach_node
scan-preds v d sv [] s x u = ground arith
scan-preds v d sv (w ∷ ws) s x u =
    let s1 = reach_node d w s in
    let s2 = count_paths v d sv w s1 in
    let last = scan v d sv ws s2 in
    let settled : (w == u) ≡ true → is_at (s1.dist w) d ≡ is_at (last.dist u) d =
      λ e. scan-settled v d sv w ws s ∙ ap (λ y. is_at (last.dist y) d) ((==_iff w u).0 e) in
    ground (
      arith,
      scan-preds v d sv ws s2 x u,
      count_paths-preds v d sv w s1 x u,
      ap (λ p. member x (p u)) (reach_at-preds d w (s.dist w) s),
      settled,
    )

is_at_iff : (o : Option ℕ) (d : ℕ) → (is_at o d ≡ true) ↔ (o ≡ some d)
is_at_iff none d = ground arith
is_at_iff (some e) d = ground arith

module _ (adj : ℕ → List ℕ) (source : ℕ) where
  -- Whether the edge from `x` to `u` leads one further.
  abbrev pub Leads : Dist → ℕ → ℕ → Type 0
  Leads dist x u = (d : ℕ) × (dist x ≡ some d) × (dist u ≡ some (d + 1)) × (member u (adj x) ≡ true)

  -- The edges that lead one further are recorded once their first end has left the queue, and no others.
  record IsRecorded (dist : Dist) (preds : ℕ → List ℕ) (q : List ℕ) : Type 0 where
    exact : (x u : ℕ) → member x (preds u) ≡ true → Leads dist x u
    whole : (x u : ℕ) → Leads dist x u → member x q ≡ false → member x (preds u) ≡ true

  exact_after :
      (dist dist' : Dist) (preds preds' : ℕ → List ℕ) (v level : ℕ) (q added : List ℕ)
      → dist v ≡ some level
      → Offered (level + 1) (adj v) dist dist' added
      → ((x u : ℕ)
          → member x (preds' u)
            ≡ (member x (preds u) || (v == x && (member u (adj v) && is_at (dist' u) (level + 1)))))
      → IsRecorded dist preds q
      → (x u : ℕ) → member x (preds' u) ≡ true
      → Leads dist' x u
  exact_after dist dist' preds preds' v level q added here o recorded r x u m =
      elim (Bool-cases (member x (preds u))) [
        | inl old ↦
            let (d, a, b, near) = r.exact x u old in (d, o.kept x d a, o.kept u (d + 1) b, near)
        | inr new ↦
            let is_v : v ≡ x = (==_iff v x).0 (ground (arith, m, new, recorded x u)) in
            (
              level,
              subst (λ y. dist' y ≡ some level) is_v (o.kept v level here),
              (is_at_iff (dist' u) (level + 1)).0 (ground (arith, m, new, recorded x u)),
              subst (λ y. member u (adj y) ≡ true) is_v (ground (arith, m, new, recorded x u)),
            )
      ]

  whole_after :
      (dist dist' : Dist) (preds preds' : ℕ → List ℕ) (v level : ℕ) (rest added : List ℕ)
      → Inv adj source dist (v ∷ rest)
      → dist v ≡ some level
      → Offered (level + 1) (adj v) dist dist' added
      → ((x u : ℕ)
          → member x (preds' u)
            ≡ (member x (preds u) || (v == x && (member u (adj v) && is_at (dist' u) (level + 1)))))
      → IsRecorded dist preds (v ∷ rest)
      → (x u : ℕ) → Leads dist' x u
      → member x (rest ++ added) ≡ false
      → member x (preds' u) ≡ true
  whole_after dist dist' preds preds' v level rest added i here o recorded r x u (d, a, b, near) m =
      elim (Bool-cases (v == x)) [
        | inl same ↦
            let is_v : v ≡ x = (==_iff v x).0 same in
            let near_v : member u (adj v) ≡ true = rw is_v near in
            ground (
              arith,
              recorded x u,
              same,
              near_v,
              b,
              o.kept v level here,
              ap dist' is_v,
              a,
              (is_at_iff (dist' u) (level + 1)).1,
            )
        | inr other ↦ elim (Option-cases (dist x)) [
          | inl new ↦ absurd (ground (arith, m, o.fresh x d a new, member-append x rest added))
          | inr (c, old) ↦
              let left : member x (v ∷ rest) ≡ false =
                ground (arith, m, other, member-append x rest added) in
              let (e, found, le) = i.closed x c u old left near in
              let before : member x (preds u) ≡ true =
                r.whole x u
                  (
                    d,
                    ground (arith, old, a, o.kept x c old),
                    ground (arith, found, b, o.kept u e found),
                    near,
                  )
                  left in
              ground (arith, recorded x u, before)
        ]
      ]

  IsRecorded-visit :
      {fl : Floats} (s : Search fl) (v : ℕ) (rest : List ℕ)
      → Inv adj source s.dist (v ∷ rest)
      → IsRecorded s.dist s.preds (v ∷ rest)
      → let s' = visit_node adj v rest s in IsRecorded s'.dist s'.preds s'.queue
  unfolding visit_node
  IsRecorded-visit {fl} s v rest i r =
      let s0 : Search fl = record s { queue = rest; stack = v ∷ s.stack } in
      let d = next (s.dist v) in
      let s' = visit_node adj v rest s in
      let added = (offer_all d (adj v) s.dist).1 in
      let (level, here) = Inv-head adj source s.dist v rest i in
      let (ds, qs) = scan-offer_all v d (s.sigma v) (adj v) s0 in
      let offered : Offered (level + 1) (adj v) s.dist s'.dist added =
        subst (λ k. Offered k (adj v) s.dist s'.dist added) (ap next here)
          (rw ds (offer_all-Offered d (adj v) s.dist)) in
      let recorded : (x u : ℕ)
          → member x (s'.preds u) ≡ (
              member x (s.preds u)
              || (v == x && (member u (adj v) && is_at (s'.dist u) (level + 1)))) =
        λ x u.
          subst
            (λ k.
              member x (s'.preds u)
              ≡ (member x (s.preds u) || (v == x && (member u (adj v) && is_at (s'.dist u) k))))
            (ap next here) (scan-preds v d (s.sigma v) (adj v) s0 x u) in
      subst (IsRecorded s'.dist s'.preds) (sym qs) record {
        exact =
            exact_after s.dist s'.dist s.preds s'.preds v level (v ∷ rest) added here offered
              recorded r;
        whole =
            whole_after s.dist s'.dist s.preds s'.preds v level rest added i here offered recorded
              r;
      }

  -- After the search from a node of the graph, the predecessors of a node are exactly its neighbours
  -- whose distance from the source is one less: those that come last but one on its shortest walks.
  pub search_from-Leads :
      (fl : Floats) (n : ℕ)
      → ((u : ℕ) → All (λ w. w < n) (adj u))
      → source < n
      → (t : Search fl) × (search_from fl n adj source ≡ some t)
        × ((w : ℕ) → IsDistance adj source w (t.dist w))
        × ((x u : ℕ) → (member x (t.preds u) ≡ true) ↔ Leads t.dist x u)
  search_from-Leads fl n near h =
      let keep : IsKept adj source {fl = fl} (λ s q. IsRecorded s.dist s.preds q) = record {
        visit = IsRecorded-visit;
      } in
      let begun : IsRecorded (start_at fl source).dist (start_at fl source).preds (source ∷ []) =
        record {
          exact = λ x u m. absurd (ground (arith, m));
          whole = λ x u l m. absurd (ground (arith, l, m));
        } in
      let (t, e, i, r) = search_from-IsKept adj source _ n keep begun near h in
      (
        t,
        e,
        λ w. Inv-IsDistance adj source t.dist w i,
        λ x u. (r.exact x u, λ l. r.whole x u l refl),
      )
