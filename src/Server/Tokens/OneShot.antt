-- ===== src/Server/Tokens/OneShot.antt =====
-- A token confirms one deletion, in time, and only the latest one does.
use graphatlas.Prelude.{
  ℕ, ◌-◌, ◌≤◌, ◌<◌, String, str_eq_iff, Option, none, some, List, [], ◌∷◌, ◌≡◌, refl, ◌≢◌, ◌↔◌, ◌⊎◌,
  inl, inr, arith, Option-cases,
}
use graphatlas.Prelude.Assoc.{get, insert, get-insert, get-remove}
use graphatlas.Server.Tokens.{
  ConfirmEntry, ConfirmTokens, confirm_ttl, ConfirmResult, confirmed, missing, expired, mismatched,
  issue, judge, validate, Call, issues, validates, run,
}

-- What a validation answers and leaves for the slug, from the entry that the slug has.
abbrev pub Verdict : Option ConfirmEntry → String → ℕ → ConfirmResult → Option ConfirmEntry → Type 0
Verdict none token now r after = (r ≡ missing) × (after ≡ none)
Verdict (some e) token now r after =
    ((r ≡ confirmed) ↔ ((now - e.issued_at ≤ confirm_ttl) × (e.token ≡ token)))
    × ((r ≡ expired) ↔ (confirm_ttl < now - e.issued_at))
    × ((r ≡ mismatched) ↔ ((now - e.issued_at ≤ confirm_ttl) × (e.token ≢ token)))
    × (r ≡ mismatched → after ≡ some e)
    × (r ≢ mismatched → after ≡ none)

pub validate-none :
    (slug token : String) (now : ℕ) (m : ConfirmTokens)
    → get slug m ≡ none
    → validate slug token now m ≡ (missing, m)
unfolding validate
validate-none slug token now m e = rw (e, validate)

validate-some :
    (slug token : String) (now : ℕ) (m : ConfirmTokens) (x : ConfirmEntry)
    → get slug m ≡ some x
    → validate slug token now m ≡ judge slug token now x m
unfolding validate
validate-some slug token now m x e = rw (e, validate)

judge-Verdict :
    (slug token : String) (now : ℕ) (m : ConfirmTokens) (x : ConfirmEntry)
    → get slug m ≡ some x
    → Verdict
        (some x)
        token
        now
        (judge slug token now x m).0
        (get slug (judge slug token now x m).1)
unfolding judge
judge-Verdict slug token now m x e =
    ground (arith, str_eq_iff x.token token, get-remove slug slug m, str_eq_iff slug slug)

judge-others :
    (slug token k : String) (now : ℕ) (m : ConfirmTokens) (x : ConfirmEntry)
    → k ≢ slug
    → get k (judge slug token now x m).1 ≡ get k m
unfolding judge
judge-others slug token k now m x n = ground (arith, get-remove slug k m, str_eq_iff slug k)

-- A validation confirms exactly the token on file within its 30 s; a wrong token leaves it on file,
-- and every other answer leaves nothing. Other slugs keep what they have.
pub validate-Verdict :
    (slug token : String) (now : ℕ) (m : ConfirmTokens)
    → let (r, m') = validate slug token now m in
      Verdict (get slug m) token now r (get slug m')
      × ((k : String) → k ≢ slug → get k m' ≡ get k m)
validate-Verdict slug token now m = elim (Option-cases (get slug m)) [
  | inl e ↦ rw (validate-none slug token now m e) (rw e ((refl, refl), λ k n. refl))
  | inr (x, e) ↦
      rw (validate-some slug token now m x e)
        (rw e (judge-Verdict slug token now m x e, λ k n. judge-others slug token k now m x n))
]

-- No token is issued for the slug.
abbrev pub NoIssue : String → List Call → Type 0
NoIssue slug [] = Unit
NoIssue slug (issues k token now ∷ cs) = (k ≢ slug) × NoIssue slug cs
NoIssue slug (validates k token now ∷ cs) = NoIssue slug cs

-- Without an issue, a slug's entry stays as it is or goes.
pub run_call-entry :
    (slug k token : String) (now : ℕ) (m : ConfirmTokens)
    → (get slug (validate k token now m).1 ≡ get slug m)
      ⊎ (get slug (validate k token now m).1 ≡ none)
unfolding judge
run_call-entry slug k token now m = elim (Option-cases (get k m)) [
  | inl e ↦ inl (rw (validate-none k token now m e) refl)
  | inr (x, e) ↦ rw (validate-some k token now m x e) (judge-entry slug k token now m x)
]
  where
    judge-entry :
        (slug k token : String) (now : ℕ) (m : ConfirmTokens) (x : ConfirmEntry)
        → (get slug (judge k token now x m).1 ≡ get slug m)
          ⊎ (get slug (judge k token now x m).1 ≡ none)
    judge-entry slug k token now m x = ground (arith, get-remove k slug m)

run-entry :
    (slug : String) (cs : List Call) (m : ConfirmTokens)
    → NoIssue slug cs
    → (get slug (run cs m) ≡ get slug m) ⊎ (get slug (run cs m) ≡ none)
unfolding run issue
run-entry slug [] m h = inl refl
run-entry slug (issues k token now ∷ cs) m h = ground (
  arith,
  run-entry slug cs (insert k (record { token = token; issued_at = now }) m),
  get-insert k slug (record { token = token; issued_at = now }) m,
  str_eq_iff k slug,
)
run-entry slug (validates k token now ∷ cs) m h =
    ground (arith, run-entry slug cs (validate k token now m).1, run_call-entry slug k token now m)

pub validate-consumes :
    (slug token : String) (now : ℕ) (m : ConfirmTokens)
    → (validate slug token now m).0 ≡ confirmed
    → get slug (validate slug token now m).1 ≡ none
validate-consumes slug token now m c = elim (Option-cases (get slug m)) [
  | inl e ↦ rw (validate-none slug token now m e) e
  | inr (x, e) ↦
      let v = judge-Verdict slug token now m x e in
      ground (arith, validate-some slug token now m x e, v)
]

validate-confirmed :
    (slug token : String) (now : ℕ) (m : ConfirmTokens) (x : ConfirmEntry)
    → get slug m ≡ some x
    → (validate slug token now m).0 ≡ confirmed
    → (token ≡ x.token) × (now - x.issued_at ≤ confirm_ttl)
unfolding judge
validate-confirmed slug token now m x e c =
    ground (arith, validate-some slug token now m x e, str_eq_iff x.token token)

-- Once a token of a slug was confirmed, nothing is confirmed for the slug before the next issue:
-- every validation finds no entry.
pub confirmed_once :
    (slug token token' : String) (now now' : ℕ) (cs : List Call) (m : ConfirmTokens)
    → (validate slug token now m).0 ≡ confirmed
    → NoIssue slug cs
    → (validate slug token' now' (run cs (validate slug token now m).1)).0 ≡ missing
confirmed_once slug token token' now now' cs m c h =
    let m' = (validate slug token now m).1 in
    let gone : get slug (run cs m') ≡ none =
      ground (arith, run-entry slug cs m' h, validate-consumes slug token now m c) in
    rw (validate-none slug token' now' (run cs m') gone) refl

-- After an issue and until the next one, only the issued token is confirmed, within its 30 s.
pub only_the_latest :
    (slug token token' : String) (now now' : ℕ) (cs : List Call) (m : ConfirmTokens)
    → NoIssue slug cs
    → (validate slug token' now' (run cs (issue slug token now m))).0 ≡ confirmed
    → (token' ≡ token) × (now' - now ≤ confirm_ttl)
unfolding issue
only_the_latest slug token token' now now' cs m h c =
    let e : ConfirmEntry = record { token = token; issued_at = now } in
    let m' = run cs (insert slug e m) in
    elim (run-entry slug cs (insert slug e m) h) [
      | inl same ↦
          validate-confirmed slug token' now' m' e
            (ground (arith, same, get-insert slug slug e m, str_eq_iff slug slug)) c
      | inr gone ↦ ground (arith, validate-none slug token' now' m' gone)
    ]
