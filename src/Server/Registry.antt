-- ===== src/Server/Registry.antt =====
-- One job for a slug at a time, whoever asks.
use graphatlas.Prelude.{
  ℕ, ◌+◌, ◌≤◌, String, str_eq, str_eq_iff, str_eq_refl, List, [], ◌∷◌, Option, none, some,
  if◌then◌else◌, ◌≡◌, inl, inr, arith, Option-cases,
}
use graphatlas.Prelude.Assoc.{get, get-insert}
use graphatlas.Server.Jobs.{
  JobHandle, JobRegistry, JobInsertResult, inserted, existing, new_handle, insert_new, try_insert,
  Request, serve_all,
}

abbrev pub handle_of : JobInsertResult → JobHandle
handle_of (inserted h) = h
handle_of (existing h) = h

-- 1 for the answer that makes a new job.
abbrev pub made : JobInsertResult → ℕ
made (inserted _) = 1
made (existing _) = 0

abbrev pub present : Option JobHandle → ℕ
present none = 0
present (some _) = 1

pub try_insert-new :
    (slug id : String) (now : ℕ) (r : JobRegistry)
    → get slug r.inner ≡ none
    → try_insert slug id now r ≡ insert_new slug id now r
unfolding try_insert
try_insert-new slug id now r e = rw (e, try_insert)

pub try_insert-old :
    (slug id : String) (now : ℕ) (r : JobRegistry) (h : JobHandle)
    → get slug r.inner ≡ some h
    → try_insert slug id now r ≡ (existing h, r)
unfolding try_insert
try_insert-old slug id now r h e = rw (e, try_insert)

-- The job of the request's slug afterwards is the one handed out.
try_insert_self :
    (slug id : String) (now : ℕ) (r : JobRegistry)
    → get slug (try_insert slug id now r).1.inner ≡ some (handle_of (try_insert slug id now r).0)
unfolding insert_new
try_insert_self slug id now r = elim (Option-cases (get slug r.inner)) [
  | inl e ↦ rw (try_insert-new slug id now r e) (simp (get-insert, str_eq_refl))
  | inr (h, e) ↦ rw (try_insert-old slug id now r h e) e
]

-- A job that is there stays, whatever is asked.
pub try_insert-keeps :
    (slug id k : String) (now : ℕ) (r : JobRegistry) (h : JobHandle)
    → get k r.inner ≡ some h
    → get k (try_insert slug id now r).1.inner ≡ some h
unfolding insert_new
try_insert-keeps slug id k now r h g = elim (Option-cases (get slug r.inner)) [
  | inl e ↦ rw (try_insert-new slug id now r e) (
      ground
        (arith, get-insert slug k (new_handle slug id now r.next_state) r.inner, str_eq_iff slug k))
  | inr (x, e) ↦ rw (try_insert-old slug id now r x e) g
]

try_insert-made :
    (slug id k : String) (now : ℕ) (r : JobRegistry)
    → (if str_eq slug k then made (try_insert slug id now r).0 else 0) + present (get k r.inner)
      ≡ present (get k (try_insert slug id now r).1.inner)
unfolding insert_new
try_insert-made slug id k now r = elim (Option-cases (get slug r.inner)) [
  | inl e ↦ rw (try_insert-new slug id now r e) (
      ground
        (arith, get-insert slug k (new_handle slug id now r.next_state) r.inner, str_eq_iff slug k))
  | inr (x, e) ↦ rw (try_insert-old slug id now r x e) (ground arith)
]

-- The answers that made a new job for `slug`.
abbrev pub made_for : String → List Request → List JobInsertResult → ℕ
made_for slug [] answers = 0
made_for slug (q ∷ qs) [] = 0
made_for slug (q ∷ qs) (a ∷ answers) =
    (if str_eq q.slug slug then made a else 0) + made_for slug qs answers

-- Every request for `slug` is answered with the job `h`.
abbrev pub AllGet : String → Option JobHandle → List Request → List JobInsertResult → Type 0
AllGet slug h [] answers = Unit
AllGet slug h (q ∷ qs) [] = ⊥
AllGet slug h (q ∷ qs) (a ∷ answers) =
    (q.slug ≡ slug → h ≡ some (handle_of a)) × AllGet slug h qs answers

serve_all-keeps :
    (qs : List Request) (k : String) (r : JobRegistry) (h : JobHandle)
    → get k r.inner ≡ some h
    → get k (serve_all qs r).1.inner ≡ some h
unfolding serve_all
serve_all-keeps [] k r h g = g
serve_all-keeps (q ∷ qs) k r h g =
    serve_all-keeps qs k (try_insert q.slug q.id q.now r).1 h
      (try_insert-keeps q.slug q.id k q.now r h g)

serve_all-made :
    (qs : List Request) (k : String) (r : JobRegistry)
    → made_for k qs (serve_all qs r).0 + present (get k r.inner)
      ≡ present (get k (serve_all qs r).1.inner)
unfolding serve_all
serve_all-made [] k r = omega arith
serve_all-made (q ∷ qs) k r = omega (
  arith,
  try_insert-made q.slug q.id k q.now r,
  serve_all-made qs k (try_insert q.slug q.id q.now r).1,
)

serve_all-AllGet :
    (qs : List Request) (k : String) (r : JobRegistry)
    → AllGet k (get k (serve_all qs r).1.inner) qs (serve_all qs r).0
unfolding serve_all
serve_all-AllGet [] k r = tt
serve_all-AllGet (q ∷ qs) k r = (
  λ e.
      serve_all-keeps qs k (try_insert q.slug q.id q.now r).1 _
        (rw (← e) (try_insert_self q.slug q.id q.now r)),
  serve_all-AllGet qs k (try_insert q.slug q.id q.now r).1,
)

-- However requests for many slugs cross, a slug without a job gets at most one new job, a slug with
-- a job gets none, and everyone who asked for the slug is given the job that it ends with.
pub one_job_for_a_slug :
    (qs : List Request) (slug : String) (r : JobRegistry)
    → let (answers, r') = serve_all qs r in
      (made_for slug qs answers + present (get slug r.inner) ≡ present (get slug r'.inner))
      × (present (get slug r'.inner) ≤ 1)
      × AllGet slug (get slug r'.inner) qs answers
one_job_for_a_slug qs slug r = (
  serve_all-made qs slug r,
  present-le (get slug (serve_all qs r).1.inner),
  serve_all-AllGet qs slug r,
)
  where
    present-le : (o : Option JobHandle) → present o ≤ 1
    present-le none = omega arith
    present-le (some h) = omega arith
