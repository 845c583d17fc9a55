-- ===== src/Mcp/Watcher/Debounce.antt =====
-- When the watcher reindexes.
use graphatlas.Prelude.{
  ℕ, ◌+◌, ◌-◌, ◌≤◌, ◌<◌, List, [], ◌∷◌, ◌++◌, Option, none, some, Bool, true, false, ◌≡◌, refl, ap,
  ◌∙◌, ◌⊎◌, inl, inr, arith, Bool-cases, All, any, leb, ◌==◌, ==_iff,
}
use graphatlas.Mcp.Watcher.{
  EventKind, on_received, debounce_ms, git_op_recheck_ms, WatcherEvent, reindex_fired,
  deferred_git_op, Wake, event, watch_error, timeout, disconnected, Received, is_relevant_event,
  is_git_op_in_progress, on_timeout, run_watch_loop,
}

-- What a debounce may dispatch, where `change` is the time of the last relevant event that no reindex
-- has followed: a reindex only 500 ms or more after it, outside git operations.
pub data Allowed : Option ℕ → List Wake → List (ℕ × WatcherEvent) → Type 0 where
  stops : {change : Option ℕ} → Allowed change [] []
  ends :
      {change : Option ℕ} (w : Wake) (ws : List Wake)
      → w.received ≡ disconnected
      → Allowed change (w ∷ ws) []
  notes :
      {change : Option ℕ} {ds : List (ℕ × WatcherEvent)} (k : EventKind) (w : Wake) (ws : List Wake)
      → w.received ≡ event k
      → is_relevant_event k ≡ true
      → Allowed (some w.now) ws ds
      → Allowed change (w ∷ ws) ds
  idles :
      {change : Option ℕ} {ds : List (ℕ × WatcherEvent)} (w : Wake) (ws : List Wake)
      → ((k : EventKind) → w.received ≡ event k → is_relevant_event k ≡ false)
      → Allowed change ws ds
      → Allowed change (w ∷ ws) ds
  fires :
      {ds : List (ℕ × WatcherEvent)} (change : ℕ) (w : Wake) (ws : List Wake)
      → change + debounce_ms ≤ w.now
      → is_git_op_in_progress w.git ≡ false
      → Allowed none ws ds
      → Allowed (some change) (w ∷ ws) ((w.now, reindex_fired) ∷ ds)
  defers :
      {ds : List (ℕ × WatcherEvent)} (change : ℕ) (w : Wake) (ws : List Wake)
      → is_git_op_in_progress w.git ≡ true
      → Allowed (some change) ws ds
      → Allowed (some change) (w ∷ ws) ((w.now, deferred_git_op) ∷ ds)

-- The pending instant never lies before the change that it stands for.
abbrev Covers : Option ℕ → Option ℕ → Type 0
Covers none none = Unit
Covers none (some since) = ⊥
Covers (some change) none = ⊥
Covers (some change) (some since) = change ≤ since

on_timeout-none : (w : Wake) → on_timeout none w ≡ (none, [])
unfolding on_timeout
on_timeout-none w = refl

-- The wakes of a timeout, by what is pending and whether git is busy.
on_timeout-cases :
    (since : ℕ) (w : Wake)
    → ((since + debounce_ms ≤ w.now)
        × (is_git_op_in_progress w.git ≡ true)
        × (on_timeout (some since) w
            ≡ (some (w.now + git_op_recheck_ms - debounce_ms), (w.now, deferred_git_op) ∷ [])))
      ⊎ ((since + debounce_ms ≤ w.now)
          × (is_git_op_in_progress w.git ≡ false)
          × (on_timeout (some since) w ≡ (none, (w.now, reindex_fired) ∷ [])))
      ⊎ ((w.now < since + debounce_ms) × (on_timeout (some since) w ≡ (some since, [])))
unfolding on_timeout
on_timeout-cases since w = ground arith

abbrev continued : List Wake → Option (Option ℕ × List (ℕ × WatcherEvent)) → List (ℕ × WatcherEvent)
continued ws none = []
continued ws (some (pending, dispatched)) = dispatched ++ run_watch_loop ws pending

run_watch_loop_lem :
    (w : Wake) (ws : List Wake) (pending : Option ℕ)
    → run_watch_loop (w ∷ ws) pending ≡ continued ws (on_received w.received pending w)
unfolding run_watch_loop
run_watch_loop_lem w ws pending = elim (on_received w.received pending w) [
  | none ↦ refl
  | some x ↦ refl
]

run-Allowed :
    (ws : List Wake) (change pending : Option ℕ)
    → Covers change pending
    → Allowed change ws (run_watch_loop ws pending)
unfolding run_watch_loop on_timeout
run-Allowed [] change pending c = stops
run-Allowed (w ∷ ws) change pending c =
    rw (run_watch_loop_lem w ws pending)
      (received w ws (run-Allowed ws) w.received refl change pending c)
  where
    timed_out :
        (w : Wake) (ws : List Wake)
        → ((change pending : Option ℕ)
            → Covers change pending
            → Allowed change ws (run_watch_loop ws pending))
        → w.received ≡ timeout
        → (change pending : Option ℕ) → Covers change pending
        → Allowed change (w ∷ ws) (continued ws (some (on_timeout pending w)))
    timed_out w ws ih e none none c = idles w ws (λ k q. ground (arith, e, q)) (ih none none tt)
    timed_out w ws ih e (some u) (some since) c = elim (on_timeout-cases since w) [
      | inl (late, g, t) ↦ rw t (defers u w ws g (ih (some u) _ (ground (arith, late, c))))
      | inr (inl (late, g, t)) ↦ rw t (fires u w ws (ground (arith, late, c)) g (ih none none tt))
      | inr (inr (early, t)) ↦
          rw t (idles w ws (λ k q. ground (arith, e, q)) (ih (some u) (some since) c))
    ]
    timed_out w ws ih e none (some since) c = elim c [ ]
    timed_out w ws ih e (some u) none c = elim c [ ]

    received :
        (w : Wake) (ws : List Wake)
        → ((change pending : Option ℕ)
            → Covers change pending
            → Allowed change ws (run_watch_loop ws pending))
        → (r : Received) → w.received ≡ r
        → (change pending : Option ℕ) → Covers change pending
        → Allowed change (w ∷ ws) (continued ws (on_received r pending w))
    received w ws ih (event k) e change pending c = elim (Bool-cases (is_relevant_event k)) [
      | inl r ↦ rw r (notes k w ws e r (ih (some w.now) (some w.now) (omega arith)))
      | inr r ↦ rw r (idles w ws (λ j q. ground (arith, e, q, r)) (ih change pending c))
    ]
    received w ws ih watch_error e change pending c =
        idles w ws (λ k q. ground (arith, e, q)) (ih change pending c)
    received w ws ih timeout e change pending c = timed_out w ws ih e change pending c
    received w ws ih disconnected e change pending c = ends w ws e

-- The loop is a debounce: whatever arrives, it reindexes only 500 ms or more after the last relevant
-- event, outside git operations, and never twice for the same events.
pub run_watch_loop-Allowed : (ws : List Wake) → Allowed none ws (run_watch_loop ws none)
run_watch_loop-Allowed ws = run-Allowed ws none none tt

-- Nothing arrives, and git is busy or not.
abbrev pub IsQuiet : Bool → Wake → Type 0
IsQuiet busy w = (w.received ≡ timeout) × (is_git_op_in_progress w.git ≡ busy)

abbrev pub IsDeferral : ℕ × WatcherEvent → Type 0
IsDeferral d = d.1 ≡ deferred_git_op

-- Some wake comes at the time or later.
abbrev pub reaches : ℕ → List Wake → Bool
reaches t ws = any (λ w. leb t w.now) ws

timeout_lem :
    (w : Wake) (ws : List Wake) (pending : Option ℕ)
    → w.received ≡ timeout
    → run_watch_loop (w ∷ ws) pending ≡ continued ws (some (on_timeout pending w))
timeout_lem w ws pending e =
    run_watch_loop_lem w ws pending ∙ ap (λ r. continued ws (on_received r pending w)) e

quiet_none : (ws : List Wake) → All (IsQuiet false) ws → run_watch_loop ws none ≡ []
unfolding run_watch_loop on_timeout
quiet_none [] q = refl
quiet_none (w ∷ ws) q = ground (arith, q.0.0, run_watch_loop_lem w ws none, quiet_none ws q.1)

quiet_fires :
    (ws : List Wake) (since : ℕ)
    → All (IsQuiet false) ws
    → reaches (since + debounce_ms) ws ≡ true
    → (t : ℕ) × (any (λ a. a.now == t) ws ≡ true)
      × (run_watch_loop ws (some since) ≡ (t, reindex_fired) ∷ [])
quiet_fires [] since q r = ground (arith, r)
quiet_fires (w ∷ ws) since q r =
    rw (timeout_lem w ws (some since) q.0.0) (elim (on_timeout-cases since w) [
      | inl (late, g, t) ↦ ground (arith, g, q.0.1)
      | inr (inl (late, g, t)) ↦
          (w.now, ground (arith, ==_iff w.now w.now), rw t (ground (arith, quiet_none ws q.1)))
      | inr (inr (early, t)) ↦
          let (u, at, fired) = quiet_fires ws since q.1 (ground (arith, r, early)) in
          rw t (u, ground (arith, at), fired)
    ])

busy_defers :
    (ws qs : List Wake) (since last : ℕ)
    → All (IsQuiet true) ws
    → All (λ w. w.now ≤ last) ws
    → since ≤ last + (git_op_recheck_ms - debounce_ms)
    → (ds : List (ℕ × WatcherEvent)) × (since' : ℕ) × All IsDeferral ds
      × (since' ≤ last + (git_op_recheck_ms - debounce_ms))
      × (run_watch_loop (ws ++ qs) (some since) ≡ ds ++ run_watch_loop qs (some since'))
busy_defers [] qs since last q b le = ([], since, tt, le, refl)
busy_defers (w ∷ ws) qs since last q b le =
    rw (timeout_lem w (ws ++ qs) (some since) q.0.0) (elim (on_timeout-cases since w) [
      | inl (late, g, t) ↦
          let next = w.now + git_op_recheck_ms - debounce_ms in
          let (ds, since', d, le', e) = busy_defers ws qs next last q.1 b.1 (ground (arith, b.0)) in
          (
            (w.now, deferred_git_op) ∷ ds,
            since',
            (refl, d),
            le',
            rw t (ap (λ l. (w.now, deferred_git_op) ∷ l) e),
          )
      | inr (inl (late, g, t)) ↦ ground (arith, g, q.0.1)
      | inr (inr (early, t)) ↦ rw t (busy_defers ws qs since last q.1 b.1 le)
    ])

reaches-le : (s t : ℕ) (ws : List Wake) → s ≤ t → reaches t ws ≡ true → reaches s ws ≡ true
reaches-le s t [] le r = r
reaches-le s t (w ∷ ws) le r = ground (arith, le, r, reaches-le s t ws le)

-- The loop dispatches a reindex for a change: after any history, a relevant event and no further one,
-- however long git stays busy, the loop defers at most, and it dispatches exactly one reindex, at one of
-- the wakes at which git is done, if one of these comes 2 s after the busy time or later. Whether the
-- dispatched reindex is carried out is left open.
pub change_is_dispatched :
    (pending : Option ℕ) (w : Wake) (k : EventKind) (busy quiet : List Wake) (last : ℕ)
    → w.received ≡ event k
    → is_relevant_event k ≡ true
    → All (IsQuiet true) busy
    → w.now ≤ last
    → All (λ b. b.now ≤ last) busy
    → All (IsQuiet false) quiet
    → reaches (last + git_op_recheck_ms) quiet ≡ true
    → (ds : List (ℕ × WatcherEvent)) × (t : ℕ) × All IsDeferral ds
      × (any (λ a. a.now == t) quiet ≡ true)
      × (run_watch_loop (w ∷ (busy ++ quiet)) pending ≡ ds ++ ((t, reindex_fired) ∷ []))
change_is_dispatched pending w k busy quiet last e rel b le bound q far =
    let (ds, since, d, le', run) = busy_defers busy quiet w.now last b bound (ground (arith, le)) in
    let (t, at, fired) =
      quiet_fires quiet since q
        (reaches-le (since + debounce_ms) _ quiet (ground (arith, le')) far) in
    (ds, t, d, at, ground (arith, run_watch_loop_lem w (busy ++ quiet) pending, e, rel, run, fired))
