-- ===== src/Index/LangSet.antt =====
-- `cache_outdated_for_lang_set` of crates/ga-index/src/metadata.rs: whether a cache covers the
-- languages of its repository. A hash set is a list without repetitions; the answers are sorted.
pub mod Covers
use Prim.Native.String.{compare as compare_texts}
use text.Mathlib.Text.{is_le}
use graphatlas.Prelude.{
  ℕ, ◌==◌, Bool, true, false, not, ◌&&◌, List, [], ◌∷◌, any, Option, none, some, if◌then◌else◌,
}
use graphatlas.Core.{
  Lang, python, typescript, javascript, go, rust, java, kotlin, csharp, ruby, php, as_str,
}

-- The reason that is printed, with its languages.
pub data Outdated : Type 0 where
  downgrade pre_v1_2 upgrade : List Lang → Outdated

abbrev pub pre_fingerprint_baseline : List Lang
pre_fingerprint_baseline =
    python ∷ typescript ∷ javascript ∷ go ∷ rust ∷ java ∷ kotlin ∷ csharp ∷ ruby ∷ []

-- The place in the enumeration, by which two languages are compared.
abbrev pub rank : Lang → ℕ
rank python = 0
rank typescript = 1
rank javascript = 2
rank go = 3
rank rust = 4
rank java = 5
rank kotlin = 6
rank csharp = 7
rank ruby = 8
rank php = 9

abbrev pub has : List Lang → Lang → Bool
has ls l = any (λ k. rank k == rank l) ls

-- `iter().copied().collect()` into a set.
abbrev pub to_set : List Lang → List Lang
to_set [] = []
to_set (l ∷ ls) = let rest = to_set ls in if has rest l then rest else l ∷ rest

abbrev pub filter : (Lang → Bool) → List Lang → List Lang
filter p [] = []
filter p (l ∷ ls) = let rest = filter p ls in if p l then l ∷ rest else rest

abbrev pub difference : List Lang → List Lang → List Lang
difference a b = filter (λ l. not (has b l)) a

abbrev pub intersection : List Lang → List Lang → List Lang
intersection a b = filter (λ l. has b l) a

abbrev pub insert_lang : Lang → List Lang → List Lang
insert_lang l [] = l ∷ []
insert_lang l (k ∷ ks) =
    let rest = insert_lang l ks in
    if is_le (compare_texts (as_str l) (as_str k)) then l ∷ (k ∷ ks) else k ∷ rest

-- `sort_by_key(|l| l.as_str())`.
abbrev pub sort_langs : List Lang → List Lang
sort_langs [] = []
sort_langs (l ∷ ls) = insert_lang l (sort_langs ls)

unfoldable pub effective_cache : List Lang → List Lang
effective_cache [] = to_set pre_fingerprint_baseline
effective_cache (l ∷ ls) = to_set (l ∷ ls)

abbrev pub upgrade_reason : List Lang → List Lang → Outdated
upgrade_reason [] trigger = pre_v1_2 trigger
upgrade_reason (l ∷ ls) trigger = upgrade trigger

-- Where nothing was dropped: the new languages of the engine, and those in the repository.
unfoldable pub upgrade_gap : List Lang → List Lang → List Lang → Option Outdated
upgrade_gap cache_langs [] repo = none
upgrade_gap cache_langs (n ∷ ns) repo = elim (sort_langs (intersection (n ∷ ns) repo)) [
  | [] ↦ none
  | t ∷ ts ↦ some (upgrade_reason cache_langs (t ∷ ts))
]

unfoldable pub cache_outdated_for_lang_set : List Lang → List Lang → List Lang → Option Outdated
unfolding effective_cache upgrade_gap
cache_outdated_for_lang_set cache_langs engine_langs repo_langs =
    let cache = effective_cache cache_langs in
    let engine = to_set engine_langs in
    elim (sort_langs (difference cache engine)) [
      | d ∷ ds ↦ some (downgrade (d ∷ ds))
      | [] ↦ upgrade_gap cache_langs (difference engine cache) (to_set repo_langs)
    ]
