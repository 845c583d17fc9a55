-- ===== src/Query/Seed/Split.antt =====
-- How a qualified name is cut.
use graphatlas.Prelude.{
  ℕ, ◌==◌, String, List, [], ◌∷◌, ◌++◌, Option, none, some, Bool, true, false, not, ◌&&◌, All, ◌≡◌,
  ◌≢◌, refl, sym, ap, ◌∙◌, inl, inr, arith, Option-cases,
}
use mathlib.Core.List.{append_assoc}
use graphatlas.Prelude.Text.{starts_with, contains}
use graphatlas.Query.Degrees.{GraphDb}
use graphatlas.Query.Seed.{
  panicked, colons, dot, split_last, last_part, split_qualified, has_separator, fallback,
  find_contained, resolve_parts, resolve_seed,
}

-- Neither a colon nor a dot.
abbrev pub is_plain : ℕ → Bool
is_plain c = not (c == 58) && not (c == 46)

abbrev pub IsPlain : List ℕ → Type 0
IsPlain s = All (λ c. is_plain c ≡ true) s

colons_plain : (s : List ℕ) → IsPlain s → split_last colons s ≡ none
unfolding split_last
colons_plain [] h = refl
colons_plain (c ∷ s) h = rw (colons_plain s h.1) (ground (arith, h.0))

dot_plain : (s : List ℕ) → IsPlain s → split_last dot s ≡ none
unfolding split_last
dot_plain [] h = refl
dot_plain (c ∷ s) h = rw (dot_plain s h.1) (ground (arith, h.0))

not_colons : (s : List ℕ) → IsPlain s → starts_with colons (58 ∷ s) ≡ false
not_colons [] h = refl
not_colons (c ∷ s) h = ground (arith, h.0)

colons_head : (s : List ℕ) → IsPlain s → split_last colons (58 ∷ (58 ∷ s)) ≡ some ([], s)
unfolding split_last
colons_head s h = ground (arith, colons_plain s h, not_colons s h)

colons_cut : (b s : List ℕ) → IsPlain s → split_last colons (b ++ (colons ++ s)) ≡ some (b, s)
unfolding split_last
colons_cut [] s h = colons_head s h
colons_cut (c ∷ b) s h = rw (colons_cut b s h) refl

dot_cut : (b s : List ℕ) → IsPlain s → split_last dot (b ++ (dot ++ s)) ≡ some (b, s)
unfolding split_last
dot_cut [] s h = ground (arith, dot_plain s h)
dot_cut (c ∷ b) s h = rw (dot_cut b s h) refl

last_part_plain : (s : List ℕ) → IsPlain s → last_part dot s ≡ s
unfolding last_part
last_part_plain s h = rw (dot_plain s h, last_part) refl

last_part-colons : (b s : List ℕ) → IsPlain s → last_part colons (b ++ (colons ++ s)) ≡ s
unfolding last_part
last_part-colons b s h = rw (colons_cut b s h, last_part) refl

split_qualified-colons :
    (path enclosing method : List ℕ)
    → IsPlain enclosing
    → IsPlain method
    → split_qualified (path ++ (colons ++ (enclosing ++ (colons ++ method))))
      ≡ some (enclosing, method)
unfolding split_qualified
split_qualified-colons path enclosing method p q =
    ap split_qualified (sym (append_assoc path (colons ++ enclosing) (colons ++ method)))
    ∙ ground (
      arith,
      colons_cut (path ++ (colons ++ enclosing)) method q,
      last_part-colons path enclosing p,
      last_part_plain enclosing p,
    )

contains-append : (b s : List ℕ) → contains colons (b ++ (colons ++ s)) ≡ true
contains-append [] s = refl
contains-append (c ∷ b) s = ground (arith, contains-append b s)

-- A seed `path::Type::method` is looked up as the method of the type, whatever the path is, where
-- neither name has a colon or a dot: nothing of either is lost or added by the cut.
pub resolve_seed_qualified :
    (db : GraphDb) (path enclosing method : List ℕ) (hint : Option String)
    → IsPlain enclosing
    → IsPlain method
    → resolve_seed db (path ++ (colons ++ (enclosing ++ (colons ++ method)))) hint
      ≡ resolve_parts db enclosing method hint
unfolding resolve_seed has_separator
resolve_seed_qualified db path enclosing method hint p q =
    rw
      (
        contains-append path (enclosing ++ (colons ++ method)),
        split_qualified-colons path enclosing method p q,
        resolve_seed,
      )
      refl

-- A text that contains a separator is cut.
colons_found : (s : List ℕ) → contains colons s ≡ true → split_last colons s ≢ none
unfolding split_last
colons_found [] h e = absurd (ground (arith, h))
colons_found (c ∷ s) h e = ground (arith, h, e, colons_found s)

dot_found : (s : List ℕ) → contains dot s ≡ true → split_last dot s ≢ none
unfolding split_last
dot_found [] h e = absurd (ground (arith, h))
dot_found (c ∷ s) h e = ground (arith, h, e, dot_found s)

split_qualified_found : (raw : List ℕ) → has_separator raw ≡ true → split_qualified raw ≢ none
unfolding split_qualified has_separator
split_qualified_found raw h e = ground (arith, h, e, colons_found raw, dot_found raw)

fallback-ne-panicked :
    (db : GraphDb) (method : List ℕ) (hint : Option String) → fallback db method hint ≢ panicked
unfolding fallback
fallback-ne-panicked db method none e = ground (arith, e)
fallback-ne-panicked db method (some h) e = ground (arith, e)

parts-ne-panicked :
    (db : GraphDb) (enclosing method : List ℕ) (hint : Option String)
    → resolve_parts db enclosing method hint ≢ panicked
unfolding resolve_parts find_contained
parts-ne-panicked db enclosing method hint e =
    ground (arith, e, fallback-ne-panicked db method hint)

-- The `expect` in `split_qualified` is never reached: no seed makes the resolution panic.
pub resolve_seed-ne-panicked :
    (db : GraphDb) (raw : List ℕ) (hint : Option String) → resolve_seed db raw hint ≢ panicked
unfolding resolve_seed
resolve_seed-ne-panicked db raw hint e = elim (Option-cases (split_qualified raw)) [
  | inl p ↦ ground (arith, e, p, split_qualified_found raw)
  | inr (cut, p) ↦ ground (arith, e, p, parts-ne-panicked db cut.0 cut.1 hint)
]
