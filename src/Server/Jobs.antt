-- ===== src/Server/Jobs.antt =====
-- crates/ga-server/src/jobs.rs: the registry of reindex jobs, one for each slug. The mutex makes
-- each method one step. A handle's `state` is the address of the shared `JobState`, which
-- `Server/Progress` changes; the id that `gen_id` makes is an argument.
use graphatlas.Prelude.{ℕ, suc, String, str_eq, List, [], ◌∷◌, Option, none, some, if◌then◌else◌}
use graphatlas.Prelude.Assoc.{Assoc, get, insert, remove}

pub record JobHandle : Type 0 where
  pub job_id : String
  pub slug : String
  pub started_at : ℕ
  pub pid : Option ℕ
  pub state : ℕ

-- `inner`, and the next address for a new `JobState`.
pub record JobRegistry : Type 0 where
  pub inner : Assoc JobHandle
  pub next_state : ℕ

pub data JobInsertResult : Type 0 where
  inserted existing : JobHandle → JobInsertResult

unfoldable pub new_handle : String → String → ℕ → ℕ → JobHandle
new_handle slug id now address = record {
  job_id = id;
  slug = slug;
  started_at = now;
  pid = none;
  state = address;
}

unfoldable pub insert_new : String → String → ℕ → JobRegistry → JobInsertResult × JobRegistry
unfolding new_handle
insert_new slug id now r =
    let h = new_handle slug id now r.next_state in
    (inserted h, record { inner = insert slug h r.inner; next_state = suc r.next_state })

unfoldable pub try_insert : String → String → ℕ → JobRegistry → JobInsertResult × JobRegistry
unfolding insert_new
try_insert slug id now r = elim (get slug r.inner) [
  | some h ↦ (existing h, r)
  | none ↦ insert_new slug id now r
]

unfoldable pub lookup : String → JobRegistry → Option JobHandle
lookup slug r = get slug r.inner

unfoldable pub remove_job : String → JobRegistry → Option JobHandle × JobRegistry
remove_job slug r = (get slug r.inner, record r { inner = remove slug r.inner })

unfoldable pub find_id : String → Assoc JobHandle → Option JobHandle
find_id id [] = none
find_id id ((k, h) ∷ m) = if str_eq h.job_id id then some h else find_id id m

-- `values().find(..)`; where ids are unique the order of the values does not matter.
unfoldable pub lookup_by_id : String → JobRegistry → Option JobHandle
unfolding find_id
lookup_by_id id r = find_id id r.inner

unfoldable pub set_pid : String → ℕ → JobRegistry → JobRegistry
set_pid slug pid r = elim (get slug r.inner) [
  | some h ↦ record r { inner = insert slug (record h { pid = some pid }) r.inner }
  | none ↦ r
]

-- Crossing requests: each asks for a slug with the id and the time it would use.
pub record Request : Type 0 where
  pub slug : String
  pub id : String
  pub now : ℕ

unfoldable pub serve_all : List Request → JobRegistry → List JobInsertResult × JobRegistry
serve_all [] r = ([], r)
serve_all (q ∷ qs) r =
    let (a, r') = try_insert q.slug q.id q.now r in
    let (as', r'') = serve_all qs r' in (a ∷ as', r'')
