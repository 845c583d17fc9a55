-- ===== src/Query/Examples/Seed.antt =====
-- A database that fails on a text with more quotes than the queries of a seed have.
use package.text.Mathlib.TextLemmas.{nil-append, cons-append}
use graphatlas.Prelude.{
  ℕ, ◌+◌, ◌≤◌, ◌==◌, leb, String, ◌<>◌, List, [], ◌∷◌, none, some, true, if◌then◌else◌, ◌≡◌, refl,
  ap, ◌∙◌, arith,
}
use graphatlas.Prelude.Text.{codes}
use graphatlas.Query.Degrees.{text, GraphDb}
use graphatlas.Query.Impact.{is_safe_ident, all_safe}
use graphatlas.Query.Seed.{contains_text, fallback_text, resolve_seed}
use graphatlas.Query.Seed.Safe.{Agree, resolve_seed_agree}

abbrev quotes : List ℕ → ℕ
quotes [] = 0
quotes (c ∷ cs) = (if c == 39 then 1 else 0) + quotes cs

abbrev lenient : GraphDb
lenient = record { connects = true; query = λ q. some ((text "save" ∷ text "db.py" ∷ []) ∷ []) }

abbrev strict : GraphDb
strict = record {
  connects = true;
  query = λ q. if leb (quotes (codes q)) 6 then lenient.query q else none;
}

quotes-append : (s t : String) → quotes (codes (s <> t)) ≡ quotes (codes s) + quotes (codes t)
quotes-append String.[] t = ap (λ u. quotes (codes u)) (nil-append t) ∙ omega arith
quotes-append (String.◌∷◌ c s) t =
    ap (λ u. quotes (codes u)) (cons-append c s t) ∙ omega (arith, quotes-append s t)

quotes_safe : (cs : List ℕ) → all_safe cs ≡ true → quotes cs ≡ 0
quotes_safe [] h = refl
quotes_safe (c ∷ cs) h = ground (arith, h, quotes_safe cs)

ident_quotes : (a : String) → is_safe_ident a ≡ true → quotes (codes a) ≡ 0
unfolding is_safe_ident
ident_quotes a h = quotes_safe (codes a) (ground (arith, h))

few_quotes : (q : String) → quotes (codes q) ≤ 6 → lenient.query q ≡ strict.query q
few_quotes q h = ground (arith, h)

contains_quotes :
    (a b : String)
    → is_safe_ident a ≡ true
    → is_safe_ident b ≡ true
    → quotes (codes (contains_text a b)) ≤ 6
contains_quotes a b p q =
    let tail : String = "' AND m.kind <> 'external' RETURN m.name, m.file LIMIT 1" in
    omega (
      arith,
      quotes-append "MATCH (cls:Symbol)-[:CONTAINS]->(m:Symbol) WHERE cls.name = '"
          (a <> ("' AND m.name = '" <> (b <> tail))),
      quotes-append a ("' AND m.name = '" <> (b <> tail)),
      quotes-append "' AND m.name = '" (b <> tail),
      quotes-append b tail,
      ident_quotes a p,
      ident_quotes b q,
    )

fallback_quotes : (b : String) → is_safe_ident b ≡ true → quotes (codes (fallback_text b)) ≤ 6
fallback_quotes b q =
    let tail : String = "' AND s.kind <> 'external' RETURN s.file LIMIT 1" in
    omega (
      arith,
      quotes-append "MATCH (s:Symbol) WHERE s.name = '" (b <> tail),
      quotes-append b tail,
      ident_quotes b q,
    )

lenient-strict : Agree lenient strict
lenient-strict = record {
  connection = refl;
  containing = λ a b p q. few_quotes (contains_text a b) (contains_quotes a b p q);
  defining = λ b q. few_quotes (fallback_text b) (fallback_quotes b q);
  naming = refl;
}

resolve_seed_agree_example :
    resolve_seed lenient (codes "Db::sa've") none ≡ resolve_seed strict (codes "Db::sa've") none
resolve_seed_agree_example =
    resolve_seed_agree lenient strict lenient-strict (codes "Db::sa've") none
