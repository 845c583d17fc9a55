-- ===== src/Server/Handlers/Delete.antt =====
-- The two steps of a deletion, over any sequence of requests.
use graphatlas.Prelude.{
  String, str_eq_iff, List, [], ◌∷◌, Option, none, some, ◌≡◌, ◌≢◌, ◌⊎◌, refl, inl, inr, arith,
  Option-cases,
}
use graphatlas.Prelude.Assoc.{get, get-insert}
use graphatlas.Server.Tokens.{confirmed, issue, validate}
use graphatlas.Server.Tokens.OneShot.{validate-consumes, run_call-entry, validate-none}
use graphatlas.Server.Handlers.{
  AddMode, missing_confirm_token, invalid_confirm_token, ServerEnv, AppState, launch, locate,
  start_reindex, cancel_reindex, launched, add_launched, add_project, delete_intent, delete_dir,
  delete_project,
}
use graphatlas.Server.Handlers.Events.{
  Event, reindexes, cancels, adds, intends, deletes, progresses, serve, serve_all,
}
use graphatlas.Server.Cache.{CacheDir, find_cache_dir, change_dir, remove_pid_file}
use graphatlas.Server.Jobs.{try_insert, JobInsertResult, JobRegistry, inserted, existing}

module _ {F : Type 0} where
  -- No new intent to delete the slug.
  abbrev pub NoIntent : String → List (ServerEnv × Event F) → Type 0
  NoIntent slug [] = Unit
  NoIntent slug ((env, intends k) ∷ es) = (k ≢ slug) × NoIntent slug es
  NoIntent slug ((env, cancels k id) ∷ es) = NoIntent slug es
  NoIntent slug ((env, deletes k token) ∷ es) = NoIntent slug es
  NoIntent slug ((env, reindexes k) ∷ es) = NoIntent slug es
  NoIntent slug ((env, adds mode path k) ∷ es) = NoIntent slug es
  NoIntent slug ((env, progresses a st) ∷ es) = NoIntent slug es

  launched-confirm_tokens :
      (env : ServerEnv) (z : F) (slug : String) (s : AppState F) (r : JobInsertResult × JobRegistry)
      → (launched env z slug s r).1.confirm_tokens ≡ s.confirm_tokens
  launched-confirm_tokens env z slug s (existing h, jobs) = refl
  launched-confirm_tokens env z slug s (inserted h, jobs) = ground arith

  add_launched-confirm_tokens :
      (env : ServerEnv) (z : F) (slug : String) (s : AppState F) (r : JobInsertResult × JobRegistry)
      → (add_launched env z slug s r).1.confirm_tokens ≡ s.confirm_tokens
  add_launched-confirm_tokens env z slug s (existing h, jobs) = refl
  add_launched-confirm_tokens env z slug s (inserted h, jobs) = ground arith

  locate-confirm_tokens :
      (env : ServerEnv) (z : F) (slug : String) (dir : CacheDir) (s : AppState F)
      → (locate env z slug dir s).1.confirm_tokens ≡ s.confirm_tokens
  unfolding locate launch
  locate-confirm_tokens env z slug dir s =
      ground (arith, launched-confirm_tokens env z slug s (try_insert slug env.id env.now s.jobs))

  start_reindex-confirm_tokens :
      (env : ServerEnv) (z : F) (slug : String) (s : AppState F)
      → (start_reindex env z slug s).1.confirm_tokens ≡ s.confirm_tokens
  unfolding start_reindex
  start_reindex-confirm_tokens env z slug s = elim (Option-cases (find_cache_dir slug s.root)) [
    | inl e ↦ ground (arith, e)
    | inr (dir, e) ↦ ground (
      arith,
      e,
      locate-confirm_tokens env z slug dir s,
      locate-confirm_tokens env z slug dir
          (record s { root = change_dir slug (remove_pid_file env.fs) s.root }),
    )
  ]

  add_project-confirm_tokens :
      (env : ServerEnv) (z : F) (mode : AddMode) (path slug : String) (s : AppState F)
      → (add_project env z mode path slug s).1.confirm_tokens ≡ s.confirm_tokens
  unfolding add_project
  add_project-confirm_tokens env z mode path slug s =
      ground
        (arith, add_launched-confirm_tokens env z slug s (try_insert slug env.id env.now s.jobs))

  delete_dir-confirm_tokens :
      (env : ServerEnv) (slug : String) (s : AppState F)
      → (delete_dir env slug s).1.confirm_tokens ≡ s.confirm_tokens
  unfolding delete_dir
  delete_dir-confirm_tokens env slug s = ground arith

  -- A deletion leaves the tokens as the validation left them.
  delete_project-confirm_tokens :
      (env : ServerEnv) (slug token : String) (s : AppState F)
      → (delete_project env slug (some token) s).1.confirm_tokens
        ≡ (validate slug token env.now s.confirm_tokens).1
  unfolding delete_project
  delete_project-confirm_tokens env slug token s = ground (
    arith,
    delete_dir-confirm_tokens env slug
        (record s { confirm_tokens = (validate slug token env.now s.confirm_tokens).1 }),
  )

  serve-none :
      (env : ServerEnv) (z : F) (e : Event F) (es : List (ServerEnv × Event F)) (slug : String)
      (s : AppState F)
      → get slug s.confirm_tokens ≡ none
      → NoIntent slug ((env, e) ∷ es)
      → (get slug (serve env z e s).confirm_tokens ≡ none) × NoIntent slug es
  unfolding serve cancel_reindex delete_intent issue delete_project
  serve-none env z (reindexes k) es slug s g n = (rw (start_reindex-confirm_tokens env z k s) g, n)
  serve-none env z (cancels k id) es slug s g n = (ground (arith, g), n)
  serve-none env z (adds mode path k) es slug s g n =
      (rw (add_project-confirm_tokens env z mode path k s) g, n)
  serve-none env z (intends k) es slug s g n = (
    ground (
      arith,
      g,
      get-insert k slug (record { token = env.id; issued_at = env.now }) s.confirm_tokens,
      str_eq_iff k slug,
      n.0,
    ),
    n.1,
  )
  serve-none env z (deletes k none) es slug s g n = (g, n)
  serve-none env z (deletes k (some token)) es slug s g n = (
    rw (delete_project-confirm_tokens env k token s)
        (ground (arith, g, run_call-entry slug k token env.now s.confirm_tokens)),
    n,
  )
  serve-none env z (progresses a st) es slug s g n = (g, n)

  serve_all-none :
      (z : F) (es : List (ServerEnv × Event F)) (slug : String) (s : AppState F)
      → get slug s.confirm_tokens ≡ none
      → NoIntent slug es
      → get slug (serve_all z es s).confirm_tokens ≡ none
  unfolding serve_all
  serve_all-none z [] slug s g n = g
  serve_all-none z ((env, e) ∷ es) slug s g n =
      let (g', n') = serve-none env z e es slug s g n in
      serve_all-none z es slug (serve env z e s) g' n'

  delete_project-unconfirmed :
      (env : ServerEnv) (slug : String) (token : Option String) (s : AppState F)
      → get slug s.confirm_tokens ≡ none
      → (delete_project env slug token s ≡ (missing_confirm_token, s))
        ⊎ (delete_project env slug token s ≡ (invalid_confirm_token, s))
  unfolding delete_project
  delete_project-unconfirmed env slug none s g = inl refl
  delete_project-unconfirmed env slug (some token) s g =
      inr (ground (arith, validate-none slug token env.now s.confirm_tokens g))

  -- A confirmed token is spent, whether or not the directory could be removed: until the next intent
  -- for the slug, whatever else is requested, a further deletion of it is refused for its token and
  -- changes nothing.
  pub confirmed_is_spent :
      (env env' : ServerEnv) (z : F) (slug token : String) (token' : Option String) (s : AppState F)
      (es : List (ServerEnv × Event F))
      → (validate slug token env.now s.confirm_tokens).0 ≡ confirmed
      → NoIntent slug es
      → let s' = serve_all z es (delete_project env slug (some token) s).1 in
        (delete_project env' slug token' s' ≡ (missing_confirm_token, s'))
        ⊎ (delete_project env' slug token' s' ≡ (invalid_confirm_token, s'))
  confirmed_is_spent env env' z slug token token' s es c n =
      let s₁ = (delete_project env slug (some token) s).1 in
      let gone : get slug s₁.confirm_tokens ≡ none =
        rw (delete_project-confirm_tokens env slug token s)
          (validate-consumes slug token env.now s.confirm_tokens c) in
      delete_project-unconfirmed env' slug token' (serve_all z es s₁)
        (serve_all-none z es slug s₁ gone n)
