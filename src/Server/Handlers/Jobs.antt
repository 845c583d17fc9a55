-- ===== src/Server/Handlers/Jobs.antt =====
-- What the registry of jobs lets the handlers do, over any sequence of requests.
use graphatlas.Prelude.{
  ℕ, String, str_eq_iff, str_eq_refl, List, [], ◌∷◌, Option, none, some, ◌≡◌, ◌≢◌, inl, inr, arith,
  ap, sym, ◌∙◌, Option-cases,
}
use graphatlas.Prelude.Assoc.{get, get-insert, get-remove}
use graphatlas.Server.Jobs.{
  JobHandle, JobRegistry, inserted, try_insert, insert_new, new_handle, remove_job, set_pid, lookup,
}
use graphatlas.Server.Registry.{try_insert-keeps, try_insert-new, try_insert-old}
use graphatlas.Server.Cache.{change_dir, remove_pid_file}
use graphatlas.Server.Handlers.{
  accepted, in_progress, spawned, add_spawned, launched, add_launched, ServerEnv, AddMode, AppState,
  launch, locate, start_reindex, cancel_reindex, add_project, delete_intent, delete_dir,
  delete_project,
}
use graphatlas.Server.Handlers.Events.{
  Event, reindexes, cancels, adds, intends, deletes, progresses, serve, serve_all,
}

remove_job-keeps :
    (slug k : String) (r : JobRegistry) (h : JobHandle)
    → get k r.inner ≡ some h
    → slug ≢ k
    → get k (remove_job slug r).1.inner ≡ some h
unfolding remove_job
remove_job-keeps slug k r h g n = ground (arith, get-remove slug k r.inner, str_eq_iff slug k)

set_pid-keeps :
    (slug k : String) (pid : ℕ) (r : JobRegistry) (h : JobHandle)
    → get k r.inner ≡ some h
    → slug ≢ k
    → get k (set_pid slug pid r).inner ≡ some h
unfolding set_pid
set_pid-keeps slug k pid r h g n = elim (Option-cases (get slug r.inner)) [
  | inl e ↦ rw (e, set_pid) g
  | inr (x, e) ↦
      rw (e, set_pid)
        (ground (arith, get-insert slug k (record x { pid = some pid }) r.inner, str_eq_iff slug k))
]

try_insert-inserted :
    (slug id : String) (now : ℕ) (r : JobRegistry)
    → get slug r.inner ≡ none
    → try_insert slug id now r
      ≡ (inserted (new_handle slug id now r.next_state), (insert_new slug id now r).1)
unfolding insert_new
try_insert-inserted slug id now r e = try_insert-new slug id now r e

free-other :
    (slug k : String) (r : JobRegistry) (h : JobHandle)
    → get slug r.inner ≡ none
    → get k r.inner ≡ some h
    → slug ≢ k
free-other slug k r h e g p = none≢some (sym e ∙ ap (λ x. get x r.inner) p ∙ g)
  where
    none≢some : none ≢ some h
    none≢some = λ p. ground arith

insert_new-keeps :
    (slug id k : String) (now : ℕ) (r : JobRegistry) (h : JobHandle)
    → get slug r.inner ≡ none
    → get k r.inner ≡ some h
    → get k (insert_new slug id now r).1.inner ≡ some h
insert_new-keeps slug id k now r h e g =
    rw (← try_insert-new slug id now r e) (try_insert-keeps slug id k now r h g)

set_pid_self :
    (slug : String) (pid : ℕ) (r : JobRegistry) (h : JobHandle)
    → get slug r.inner ≡ some h
    → get slug (set_pid slug pid r).inner ≡ some (record h { pid = some pid })
unfolding set_pid
set_pid_self slug pid r h g =
    rw (g, set_pid)
      (ground (arith, get-insert slug slug (record h { pid = some pid }) r.inner, str_eq_refl slug))

insert_new_self :
    (slug id : String) (now : ℕ) (r : JobRegistry)
    → get slug (insert_new slug id now r).1.inner ≡ some (new_handle slug id now r.next_state)
unfolding insert_new
insert_new_self slug id now r = simp (get-insert, str_eq_refl)

module _ {F : Type 0} where
  -- No cancellation and no deletion of the slug.
  abbrev pub Spares : String → List (ServerEnv × Event F) → Type 0
  Spares slug [] = Unit
  Spares slug ((env, cancels k id) ∷ es) = (k ≢ slug) × Spares slug es
  Spares slug ((env, deletes k token) ∷ es) = (k ≢ slug) × Spares slug es
  Spares slug ((env, reindexes k) ∷ es) = Spares slug es
  Spares slug ((env, adds mode path k) ∷ es) = Spares slug es
  Spares slug ((env, intends k) ∷ es) = Spares slug es
  Spares slug ((env, progresses a st) ∷ es) = Spares slug es

  pub launch-new :
      (env : ServerEnv) (z : F) (slug : String) (s : AppState F)
      → get slug s.jobs.inner ≡ none
      → launch env z slug s
        ≡ spawned env z slug
            (new_handle slug env.id env.now s.jobs.next_state)
            (insert_new slug env.id env.now s.jobs).1
            s
  unfolding launch
  launch-new env z slug s e =
      ap (launched env z slug s) (try_insert-inserted slug env.id env.now s.jobs e)

  pub launch-old :
      (env : ServerEnv) (z : F) (slug : String) (s : AppState F) (h : JobHandle)
      → get slug s.jobs.inner ≡ some h
      → launch env z slug s ≡ (in_progress h.slug h.job_id, s)
  unfolding launch
  launch-old env z slug s h e =
      ap (launched env z slug s) (try_insert-old slug env.id env.now s.jobs h e)

  spawned-keeps :
      (env : ServerEnv) (z : F) (slug k : String) (x : JobHandle) (r : JobRegistry) (s : AppState F)
      (h : JobHandle)
      → get k r.inner ≡ some h
      → slug ≢ k
      → get k (spawned env z slug x r s).1.jobs.inner ≡ some h
  spawned-keeps env z slug k x r s h g n = elim (Option-cases (env.spawn_index)) [
    | inl e ↦ rw e (remove_job-keeps slug k r h g n)
    | inr (pid, e) ↦ rw e (set_pid-keeps slug k pid r h g n)
  ]

  add_spawned-keeps :
      (env : ServerEnv) (z : F) (slug k : String) (x : JobHandle) (r : JobRegistry) (s : AppState F)
      (h : JobHandle)
      → get k r.inner ≡ some h
      → slug ≢ k
      → get k (add_spawned env z slug x r s).1.jobs.inner ≡ some h
  add_spawned-keeps env z slug k x r s h g n = elim (Option-cases (env.spawn_index)) [
    | inl e ↦ rw e (remove_job-keeps slug k r h g n)
    | inr (pid, e) ↦ rw e g
  ]

  launch-keeps :
      (env : ServerEnv) (z : F) (slug k : String) (s : AppState F) (h : JobHandle)
      → get k s.jobs.inner ≡ some h
      → get k (launch env z slug s).1.jobs.inner ≡ some h
  launch-keeps env z slug k s h g = elim (Option-cases (get slug s.jobs.inner)) [
    | inl e ↦ rw (launch-new env z slug s e) (
        spawned-keeps env z slug k (new_handle slug env.id env.now s.jobs.next_state) _ s h
          (insert_new-keeps slug env.id k env.now s.jobs h e g) (free-other slug k s.jobs h e g))
    | inr (x, e) ↦ rw (launch-old env z slug s x e) g
  ]

  add_launched-keeps :
      (env : ServerEnv) (z : F) (slug k : String) (s : AppState F) (h : JobHandle)
      → get k s.jobs.inner ≡ some h
      → get k (add_launched env z slug s (try_insert slug env.id env.now s.jobs)).1.jobs.inner
        ≡ some h
  add_launched-keeps env z slug k s h g = elim (Option-cases (get slug s.jobs.inner)) [
    | inl e ↦ rw (try_insert-inserted slug env.id env.now s.jobs e) (
        add_spawned-keeps env z slug k (new_handle slug env.id env.now s.jobs.next_state) _ s h
          (insert_new-keeps slug env.id k env.now s.jobs h e g) (free-other slug k s.jobs h e g))
    | inr (x, e) ↦ rw (try_insert-old slug env.id env.now s.jobs x e) g
  ]

  add_project-keeps :
      (env : ServerEnv) (z : F) (mode : AddMode) (path slug k : String) (s : AppState F)
      (h : JobHandle)
      → get k s.jobs.inner ≡ some h
      → get k (add_project env z mode path slug s).1.jobs.inner ≡ some h
  unfolding add_project
  add_project-keeps env z mode path slug k s h g =
      ground (arith, g, add_launched-keeps env z slug k s h g)

  start_reindex-keeps :
      (env : ServerEnv) (z : F) (slug k : String) (s : AppState F) (h : JobHandle)
      → get k s.jobs.inner ≡ some h
      → get k (start_reindex env z slug s).1.jobs.inner ≡ some h
  unfolding start_reindex locate
  start_reindex-keeps env z slug k s h g = ground (arith, launch-keeps env z slug k s h g)

  cancel_reindex-keeps :
      (env : ServerEnv) (slug id k : String) (s : AppState F) (h : JobHandle)
      → get k s.jobs.inner ≡ some h
      → slug ≢ k
      → get k (cancel_reindex env slug id s).1.jobs.inner ≡ some h
  unfolding cancel_reindex remove_job
  cancel_reindex-keeps env slug id k s h g n =
      ground (arith, get-remove slug k s.jobs.inner, str_eq_iff slug k)

  delete_project-keeps :
      (env : ServerEnv) (slug k : String) (token : Option String) (s : AppState F) (h : JobHandle)
      → get k s.jobs.inner ≡ some h
      → slug ≢ k
      → get k (delete_project env slug token s).1.jobs.inner ≡ some h
  unfolding delete_project delete_dir remove_job
  delete_project-keeps env slug k token s h g n =
      ground (arith, get-remove slug k s.jobs.inner, str_eq_iff slug k)

  serve-keeps :
      (env : ServerEnv) (z : F) (e : Event F) (es : List (ServerEnv × Event F)) (k : String)
      (s : AppState F) (h : JobHandle)
      → get k s.jobs.inner ≡ some h
      → Spares k ((env, e) ∷ es)
      → (get k (serve env z e s).jobs.inner ≡ some h) × Spares k es
  unfolding serve delete_intent
  serve-keeps env z (reindexes slug) es k s h g n = (start_reindex-keeps env z slug k s h g, n)
  serve-keeps env z (cancels slug id) es k s h g n =
      (cancel_reindex-keeps env slug id k s h g n.0, n.1)
  serve-keeps env z (adds mode path slug) es k s h g n =
      (add_project-keeps env z mode path slug k s h g, n)
  serve-keeps env z (intends slug) es k s h g n = (ground (arith, g), n)
  serve-keeps env z (deletes slug token) es k s h g n =
      (delete_project-keeps env slug k token s h g n.0, n.1)
  serve-keeps env z (progresses a st) es k s h g n = (g, n)

  serve_all-keeps :
      (z : F) (es : List (ServerEnv × Event F)) (k : String) (s : AppState F) (h : JobHandle)
      → get k s.jobs.inner ≡ some h
      → Spares k es
      → get k (serve_all z es s).jobs.inner ≡ some h
  unfolding serve_all
  serve_all-keeps z [] k s h g n = g
  serve_all-keeps z ((env, e) ∷ es) k s h g n =
      let (g', n') = serve-keeps env z e es k s h g n in
      serve_all-keeps z es k (serve env z e s) h g' n'

  launch-accepted :
      (env : ServerEnv) (z : F) (slug a b : String) (s : AppState F)
      → (launch env z slug s).0 ≡ accepted a b
      → (h : JobHandle) × (get slug (launch env z slug s).1.jobs.inner ≡ some h)
  launch-accepted env z slug a b s p = elim (Option-cases (get slug s.jobs.inner)) [
    | inl e ↦ elim (Option-cases (env.spawn_index)) [
      | inl f ↦ ground (arith, launch-new env z slug s e, f)
      | inr (pid, f) ↦ (
        record (new_handle slug env.id env.now s.jobs.next_state) { pid = some pid },
        rw (launch-new env z slug s e)
            (rw f (set_pid_self slug pid _ _ (insert_new_self slug env.id env.now s.jobs))),
      )
    ]
    | inr (x, e) ↦ ground (arith, launch-old env z slug s x e)
  ]

  start_reindex-accepted :
      (env : ServerEnv) (z : F) (slug a b : String) (s : AppState F)
      → (start_reindex env z slug s).0 ≡ accepted a b
      → (h : JobHandle) × (get slug (start_reindex env z slug s).1.jobs.inner ≡ some h)
  unfolding start_reindex locate
  start_reindex-accepted env z slug a b s p = ground (
    arith,
    launch-accepted env z slug a b s,
    launch-accepted env z slug a b
        (record s { root = change_dir slug (remove_pid_file env.fs) s.root }),
  )

  start_reindex-present :
      (env : ServerEnv) (z : F) (slug : String) (s : AppState F) (h : JobHandle)
      → get slug s.jobs.inner ≡ some h
      → ((start_reindex env z slug s).1 ≡ s)
        × ((a b : String) → (start_reindex env z slug s).0 ≢ accepted a b)
  unfolding start_reindex locate lookup
  start_reindex-present env z slug s h g = (
    ground (arith, launch-old env z slug s h g, g),
    λ a b p. ground (arith, launch-old env z slug s h g, g),
  )

  -- After a reindex of a slug was accepted, and as long as nothing cancels or deletes that slug, every
  -- further reindex of it is refused and changes nothing: however the job ends, it stays in the
  -- registry.
  pub accepted_once :
      (env env' : ServerEnv) (z : F) (slug a b : String) (s : AppState F)
      (es : List (ServerEnv × Event F))
      → (start_reindex env z slug s).0 ≡ accepted a b
      → Spares slug es
      → let s' = serve_all z es (start_reindex env z slug s).1 in
        ((start_reindex env' z slug s').1 ≡ s')
        × ((c d : String) → (start_reindex env' z slug s').0 ≢ accepted c d)
  accepted_once env env' z slug a b s es p n =
      let (h, g) = start_reindex-accepted env z slug a b s p in
      start_reindex-present env' z slug _ h
        (serve_all-keeps z es slug (start_reindex env z slug s).1 h g n)
