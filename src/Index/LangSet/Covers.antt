-- ===== src/Index/LangSet/Covers.antt =====
-- When a cache is not outdated.
use graphatlas.Prelude.{
  ℕ, ◌==◌, ==_iff, Bool, true, false, not, ◌&&◌, ◌||◌, List, [], ◌∷◌, none, some, if◌then◌else◌,
  ◌≡◌, refl, sym, ap, ◌∙◌, ◌↔◌, inl, inr, arith, Bool-cases, if-cases,
}
use Prim.Native.String.{compare as compare_texts}
use text.Mathlib.Text.{is_le}
use mathlib.Core.Path.{subst}
use graphatlas.Core.{
  Lang, python, typescript, javascript, go, rust, java, kotlin, csharp, ruby, php, as_str,
}
use graphatlas.Index.LangSet.{
  downgrade, rank, has, to_set, filter, difference, intersection, insert_lang, sort_langs,
  pre_fingerprint_baseline, effective_cache, upgrade_reason, upgrade_gap,
  cache_outdated_for_lang_set,
}

abbrev of_rank : ℕ → Lang
of_rank n =
    if n == 0
    then python
    else if n == 1
    then typescript
    else if n == 2
    then javascript
    else if n == 3
    then go
    else if n == 4
    then rust
    else if n == 5
    then java
    else if n == 6
    then kotlin
    else if n == 7
    then csharp
    else if n == 8
    then ruby
    else php

of_rank-rank : (l : Lang) → of_rank (rank l) ≡ l
of_rank-rank python = refl
of_rank-rank typescript = refl
of_rank-rank javascript = refl
of_rank-rank go = refl
of_rank-rank rust = refl
of_rank-rank java = refl
of_rank-rank kotlin = refl
of_rank-rank csharp = refl
of_rank-rank ruby = refl
of_rank-rank php = refl

rank-injective : (k l : Lang) → (rank k == rank l) ≡ true → k ≡ l
rank-injective k l h =
    sym (of_rank-rank k) ∙ ap of_rank ((==_iff (rank k) (rank l)).0 h) ∙ of_rank-rank l

-- A set has the languages of its list.
has-to_set : (ls : List Lang) (l : Lang) → has (to_set ls) l ≡ has ls l
has-to_set [] l = refl
has-to_set (k ∷ ls) l = elim (Bool-cases (has (to_set ls) k)) [
  | inl old ↦ elim (Bool-cases (rank k == rank l)) [
    | inl same ↦
        rw old (rw same (subst (λ x. has (to_set ls) x ≡ true) (rank-injective k l same) old))
    | inr other ↦ rw old (rw other (has-to_set ls l))
  ]
  | inr new ↦ rw new (ap (λ b. (rank k == rank l) || b) (has-to_set ls l))
]

-- A filter has what passes.
has-filter : (p : Lang → Bool) (ls : List Lang) (l : Lang) → has (filter p ls) l ≡ (has ls l && p l)
has-filter p [] l = refl
has-filter p (k ∷ ls) l = elim (Bool-cases (rank k == rank l)) [
  | inl same ↦
      let e : p k ≡ p l = ap p (rank-injective k l same) in
      ground (arith, same, has-filter p ls l, e)
  | inr other ↦ ground (arith, other, has-filter p ls l)
]

has-insert_lang :
    (k : Lang) (ls : List Lang) (l : Lang)
    → has (insert_lang k ls) l ≡ ((rank k == rank l) || has ls l)
has-insert_lang k [] l = refl
has-insert_lang k (j ∷ ls) l =
    if-cases (λ x. has x l ≡ ((rank k == rank l) || has (j ∷ ls) l))
      (is_le (compare_texts (as_str k) (as_str j))) (λ _. refl)
      (λ _. rw (has-insert_lang k ls l) (swap (rank j == rank l) (rank k == rank l) (has ls l)))
  where
    swap : (a b c : Bool) → (a || (b || c)) ≡ (b || (a || c))
    swap true true c = refl
    swap true false c = refl
    swap false b c = refl

has-sort_langs : (ls : List Lang) (l : Lang) → has (sort_langs ls) l ≡ has ls l
has-sort_langs [] l = refl
has-sort_langs (k ∷ ls) l =
    has-insert_lang k (sort_langs ls) l ∙ ap (λ b. (rank k == rank l) || b) (has-sort_langs ls l)

has_self : (k : Lang) (ls : List Lang) → has (k ∷ ls) k ≡ true
has_self k ls = ground (arith, (==_iff (rank k) (rank k)).1 refl)

and_false : (a b : Bool) → false ≡ (a && b) → a ≡ true → b ≡ false
and_false true b h k = sym h
and_false false b h k = cc

and_true : (a b : Bool) → (a && b) ≡ true → (a ≡ true → b ≡ false) → ⊥
and_true true b h k = ground (arith, k refl)
and_true false b h k = cc

-- `none` exactly if no new language is in the repository.
upgrade_gap-none :
    (cache new repo : List Lang)
    → (upgrade_gap cache new repo ≡ none) ↔ ((l : Lang) → has new l ≡ true → has repo l ≡ false)
unfolding upgrade_gap
upgrade_gap-none cache [] repo = (λ e l h. cc, λ h. refl)
upgrade_gap-none cache (n ∷ ns) repo =
    go (sort_langs (intersection (n ∷ ns) repo))
      (λ l. has-sort_langs (intersection (n ∷ ns) repo) l ∙ has-filter (λ k. has repo k) (n ∷ ns) l)
  where
    go :
        (s : List Lang)
        → ((l : Lang) → has s l ≡ (has (n ∷ ns) l && has repo l))
        → (elim s [ [] ↦ none | t ∷ ts ↦ some (upgrade_reason cache (t ∷ ts)) ] ≡ none)
          ↔ ((l : Lang) → has (n ∷ ns) l ≡ true → has repo l ≡ false)
    go [] h = (λ e l k. and_false _ _ (h l) k, λ k. refl)
    go (t ∷ ts) h = (λ e. cc, λ k. absurd (and_true _ _ (sym (h t) ∙ has_self t ts) (k t)))

negated : (a : Bool) → a ≡ true → not a ≡ false
negated true h = refl
negated false h = cc

kept : (a b : Bool) → false ≡ (a && not b) → a ≡ true → b ≡ true
kept true true h k = refl
kept true false h k = cc
kept false b h k = cc

gap-covered : (a b c : Bool) → ((a && not b) ≡ true → c ≡ false) → a ≡ true → c ≡ true → b ≡ true
gap-covered a true c h k r = refl
gap-covered a false c h k r = ground (arith, h (ground arith))

covered-gap : (a b c : Bool) → (a ≡ true → c ≡ true → b ≡ true) → (a && not b) ≡ true → c ≡ false
covered-gap a b false h k = refl
covered-gap true true true h k = sym k
covered-gap true false true h k = sym (h refl refl)
covered-gap false b true h k = cc

has-difference :
    (a b : List Lang) (l : Lang) → has (difference (to_set a) b) l ≡ (has a l && not (has b l))
has-difference a b l =
    has-filter (λ k. not (has b k)) (to_set a) l ∙ ap (λ x. x && not (has b l)) (has-to_set a l)

effective_cache-kept :
    (cache engine repo : List Lang)
    → (cache_outdated_for_lang_set cache engine repo ≡ none) ↔ (
        ((l : Lang) → has (effective_cache cache) l ≡ true → has engine l ≡ true)
        × ((l : Lang)
            → has engine l ≡ true
            → has repo l ≡ true
            → has (effective_cache cache) l ≡ true))
unfolding cache_outdated_for_lang_set
effective_cache-kept cache engine repo =
    go (sort_langs (difference (effective_cache cache) (to_set engine))) (λ l.
      has-sort_langs (difference (effective_cache cache) (to_set engine)) l
      ∙ has-filter (λ k. not (has (to_set engine) k)) (effective_cache cache) l
      ∙ ap (λ b. has (effective_cache cache) l && not b) (has-to_set engine l))
  where
    go :
        (s : List Lang)
        → ((l : Lang) → has s l ≡ (has (effective_cache cache) l && not (has engine l)))
        → (elim s [
          | d ∷ ds ↦ some (downgrade (d ∷ ds))
          | [] ↦
              upgrade_gap cache (difference (to_set engine) (effective_cache cache)) (to_set repo)
        ]
            ≡ none)
          ↔ (((l : Lang) → has (effective_cache cache) l ≡ true → has engine l ≡ true)
              × ((l : Lang)
                  → has engine l ≡ true
                  → has repo l ≡ true
                  → has (effective_cache cache) l ≡ true))
    go (d ∷ ds) h =
        (λ e. cc, λ k. absurd (and_true _ _ (sym (h d) ∙ has_self d ds) (λ c. negated _ (k.0 d c))))
    go [] h =
        let none_new =
          upgrade_gap-none cache (difference (to_set engine) (effective_cache cache))
            (to_set repo) in
        (
          λ e. (
            λ l k. kept _ _ (h l) k,
            λ l k r.
                gap-covered (has engine l) (has (effective_cache cache) l) (has repo l)
                  (λ n.
                    sym (has-to_set repo l)
                    ∙ (none_new.0 e) l (has-difference engine (effective_cache cache) l ∙ n))
                  k r,
          ),
          λ k. none_new.1 (λ l n.
              has-to_set repo l
              ∙ covered-gap (has engine l) (has (effective_cache cache) l) (has repo l) (k.1 l)
                  (sym (has-difference engine (effective_cache cache) l) ∙ n)),
        )

-- What a cache covers: its languages, or without any the nine of the versions before the field.
abbrev pub covers : List Lang → Lang → Bool
covers [] l = has pre_fingerprint_baseline l
covers (k ∷ ks) l = has (k ∷ ks) l

has-effective_cache :
    (cache : List Lang) (l : Lang) → has (effective_cache cache) l ≡ covers cache l
unfolding effective_cache
has-effective_cache [] l = has-to_set pre_fingerprint_baseline l
has-effective_cache (k ∷ ks) l = has-to_set (k ∷ ks) l

-- The cache is not outdated exactly if the engine still supports every language that the cache covers
-- (of an empty set: the nine of the baseline), and the cache covers each language of the engine that
-- the repository has.
pub cache_outdated_for_lang_set-none :
    (cache engine repo : List Lang)
    → (cache_outdated_for_lang_set cache engine repo ≡ none) ↔ (
        ((l : Lang) → covers cache l ≡ true → has engine l ≡ true)
        × ((l : Lang) → has engine l ≡ true → has repo l ≡ true → covers cache l ≡ true))
cache_outdated_for_lang_set-none cache engine repo =
    let kept = effective_cache-kept cache engine repo in
    let same = has-effective_cache cache in
    (
      λ e. let k = kept.0 e in (λ l h. k.0 l (same l ∙ h), λ l h r. sym (same l) ∙ k.1 l h r),
      λ k. kept.1 (λ l h. k.0 l (sym (same l) ∙ h), λ l h r. same l ∙ k.1 l h r),
    )
