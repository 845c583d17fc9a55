-- ===== src/Mcp/Reindex/Calm.antt =====
-- A rebuild that nothing disturbs.
use graphatlas.Prelude.{ℕ, List, none, some, true, false, ◌≡◌, refl, ap, ◌∙◌, ◌⊎◌, inl, inr, arith}
use graphatlas.Core.{complete}
use graphatlas.Index.Disk.{Metadata, Disk, Env, ok}
use graphatlas.Index.Metadata.{
  SchemaDecision, no_cache, match, mismatch, crashed_building, completed,
}
use graphatlas.Index.Lock.{exclusive}
use graphatlas.Index.Store.Open.{Store, opened, outcome_of}
use graphatlas.Index.Store.Opening.{saved}
use graphatlas.Index.Store.Commit.{After, commit_in_place, seal_for_serving}
use graphatlas.Index.Store.Committed.{committed_metadata, commit_in_place-CommitsAs}
use graphatlas.Index.Store.Prepared.{IsCalm, IsTidy, IsReadable}
use graphatlas.Index.Store.Calm.Rebuild.{
  reindex_calm, open_calm, commit_calm, seal_calm, IsTidy-same,
}
use graphatlas.Mcp.Context.{
  sealed, done, McpContext, Site, rebuilt, held_by, settle, rebuild_opened, open_from_disk,
  rebuild_via,
}
use graphatlas.Mcp.Reindex.{
  indexed, Outside, is_attached, after_commit, commit_built, built, after_reindex, rebuild,
}

-- The store serves what it has committed, and the disk has it.
pub record IsServing (s : Store) (d : Disk) : Type 0 where
  pub written : d.metadata_json ≡ some (saved s.metadata)
  pub complete : s.metadata.index_state ≡ complete
  pub sealed : s.read_only ≡ true
  pub unlocked : s.lock ≡ none
  pub own : is_attached s.outcome ≡ false

pub outcome_of_own : (x : SchemaDecision) → is_attached (outcome_of x) ≡ false
unfolding outcome_of
outcome_of_own no_cache = refl
outcome_of_own (match m) = refl
outcome_of_own (mismatch a b) = refl
outcome_of_own (crashed_building g) = refl

after_commit-ok :
    (o : Outside) (n : ℕ) (a : After (Unit {0}))
    → a.result ≡ ok tt
    → after_commit o n a ≡ (rebuilt n a.store, a.disk)
after_commit-ok o n a h = ground (arith, h)

completes :
    (env : Env) (bytes : List ℕ) (m : Metadata)
    → (committed_metadata env bytes m).index_state ≡ complete
unfolding completed
completes env bytes m = refl

commit_built_calm :
    (o : Outside) (bytes : List ℕ) (n : ℕ) (s : Store) (d : Disk)
    → IsCalm o.during.env
    → o.digest ≡ some bytes
    → s.read_only ≡ false
    → is_attached s.outcome ≡ false
    → (s' : Store) × (d' : Disk) × (commit_built o n s d ≡ (rebuilt n s', d')) × IsServing s' d'
unfolding commit_built
commit_built_calm o bytes n s d c e w own =
    let a = commit_in_place o.during.env (some bytes) s d in
    let h = commit_calm o.during.env bytes s d c w in
    let commits = commit_in_place-CommitsAs o.during.env bytes s d w h in
    (
      a.store,
      a.disk,
      ap (λ g. after_commit o n (commit_in_place o.during.env g s d)) e ∙ after_commit-ok o n a h,
      record {
        written = commits.written;
        complete = rw (commits.metadata) (completes o.during.env bytes s.metadata);
        sealed = commits.sealed.2;
        unlocked = commits.sealed.1;
        own = rw (commits.outcome) own;
      },
    )

rebuild_calm :
    (o : Outside) (bytes : List ℕ) (s : Store) (d : Disk)
    → IsCalm o.during.env
    → IsTidy o.during.cache_root d
    → o.digest ≡ some bytes
    → ((s : Store) (d : Disk) → (n : ℕ) × ((o.build_index s d).0 ≡ indexed n))
    → (n : ℕ) × (s' : Store) × (d' : Disk) × (rebuild o s d ≡ (rebuilt n s', d')) × IsServing s' d'
unfolding rebuild after_reindex built opened
rebuild_calm o bytes s d c t e builds =
    let (x, d₁, e₁) =
      reindex_calm o.during.env o.during.peers o.during.budget o.during.cache_root
        s.metadata.repo_root s d c t in
    let fresh = opened x.0 x.1 exclusive in
    let (n, i) = builds fresh d₁ in
    let (s', d', e₂, fine) =
      commit_built_calm o bytes n fresh (o.build_index fresh d₁).1 c e refl (outcome_of_own x.0) in
    (n, s', d', ap (after_reindex o) e₁ ∙ rw (outcome_of_own x.0) (rw i e₂), fine)

-- The cell is empty, or nobody else uses its store.
abbrev pub IsFree : McpContext → Type 0
IsFree ctx = (ctx.store_cell ≡ none) ⊎ ((s : Store) × (ctx.store_cell ≡ held_by s 0))

open_from_disk_calm :
    (at : Site) (d : Disk)
    → IsCalm at.env
    → IsTidy at.cache_root d
    → IsReadable d
    → (s : Store) × (d' : Disk) × (open_from_disk at d ≡ (ok s, d')) × IsTidy at.cache_root d'
unfolding open_from_disk
open_from_disk_calm at d c t r =
    let (x, d₁, e, t₁) =
      open_calm at.env at.peers at.budget at.cache_root at.repo_root at.schema_version d c t r in
    let a = seal_for_serving at.env (opened x.0 x.1 exclusive) d₁ in
    (
      a.store,
      a.disk,
      ap (sealed at.env) e,
      IsTidy-same at.cache_root d₁ a.disk t₁ (seal_calm at.env (opened x.0 x.1 exclusive) d₁ c),
    )

pub rebuild_via_calm :
    (o : Outside) (bytes : List ℕ) (ctx : McpContext)
    → IsCalm o.before.env
    → IsCalm o.during.env
    → o.before.cache_root ≡ o.during.cache_root
    → IsTidy o.during.cache_root ctx.disk
    → IsReadable ctx.disk
    → IsFree ctx
    → o.digest ≡ some bytes
    → ((s : Store) (d : Disk) → (n : ℕ) × ((o.build_index s d).0 ≡ indexed n))
    → (n : ℕ) × (s' : Store) × (d' : Disk) × (rebuild_via o.before o.after (rebuild o) ctx
        ≡ (done (n, s'), record ctx { store_cell = held_by s' 1; disk = d' }))
      × IsServing s' d'
unfolding rebuild_via rebuild_opened settle
rebuild_via_calm o bytes ctx cb cd root t r (inl empty) e builds =
    let (s, d₁, opens, t₁) = open_from_disk_calm o.before ctx.disk cb (rw root t) r in
    let (n, s', d', e', fine) = rebuild_calm o bytes s d₁ cd (rw (← root) t₁) e builds in
    (
      n,
      s',
      d',
      rw (empty, rebuild_via)
          (ap (rebuild_opened o.after (rebuild o) ctx) opens ∙ ap (settle o.after ctx) e'),
      fine,
    )
rebuild_via_calm o bytes ctx cb cd root t r (inr (s, held)) e builds =
    let (n, s', d', e', fine) = rebuild_calm o bytes s ctx.disk cd t e builds in
    (n, s', d', rw (held, rebuild_via) (ap (settle o.after ctx) e'), fine)
