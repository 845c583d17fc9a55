-- ===== src/Query/MultiFile/Merges.antt =====
-- What each merge of multi.rs keeps of the lists that it merges.
use graphatlas.Prelude.{
  ℕ, leb, String, str_eq, str_eq_iff, List, [], ◌∷◌, ◌++◌, any, Bool, true, false, not, ◌&&◌, ◌||◌,
  if◌then◌else◌, All, ◌≡◌, refl, arith, if-cases,
}
use graphatlas.Query.Impact.{ImpactedFile}
use graphatlas.Query.BreakPoints.{BreakPoint, CallSite, Grouped, extend_site}
use graphatlas.Query.MultiFile.{keep_nearest, merge_impacted, or_insert_by, merge_break_points}
use graphatlas.Query.BreakPoints.Calls.{
  has_call, grouped_call, grouped-extend_site, IsKeyed, IsKeyed-extend_site,
}
use graphatlas.Prelude.Sort.{IsSorted}

-- The path stands in a list, at this depth or nearer.
abbrev pub within : String → ℕ → List ImpactedFile → Bool
within p d files = any (λ f. str_eq p f.path && leb f.depth d) files

within-keep_nearest :
    (p : String) (d : ℕ) (x : ImpactedFile) (m : List ImpactedFile)
    → within p d (keep_nearest x m) ≡ (str_eq p x.path && leb x.depth d || within p d m)
unfolding keep_nearest
within-keep_nearest p d x [] = refl
within-keep_nearest p d x (y ∷ m) = ground (
  arith,
  str_eq_iff y.path x.path,
  str_eq_iff p x.path,
  str_eq_iff p y.path,
  within-keep_nearest p d x m,
)

pub within-merge_impacted :
    (p : String) (d : ℕ) (xs m : List ImpactedFile)
    → within p d (merge_impacted xs m) ≡ (within p d xs || within p d m)
unfolding merge_impacted
within-merge_impacted p d [] m = refl
within-merge_impacted p d (x ∷ xs) m =
    ground (arith, within-merge_impacted p d xs (keep_nearest x m), within-keep_nearest p d x m)

any-snoc {ℓ} :
    {A : Type ℓ} (f : A → Bool) (m : List A) (x : A) → any f (m ++ x ∷ []) ≡ (f x || any f m)
any-snoc f [] x = refl
any-snoc f (y ∷ m) x = ground (arith, any-snoc f m x)

-- An item that has a like one in the list adds nothing.
any-like {ℓ} :
    {A : Type ℓ} (f : A → Bool) (same : A → A → Bool)
    → ((x y : A) → same x y ≡ true → f x ≡ f y)
    → (x : A) (m : List A) → any (same x) m ≡ true
    → (f x || any f m) ≡ any f m
any-like f same respects x [] h = absurd (ground (arith, h))
any-like f same respects x (y ∷ m) h = ground (arith, h, respects x y, any-like f same respects x m)

pub any-or_insert_by {ℓ} :
    {A : Type ℓ} (f : A → Bool) (same : A → A → Bool)
    → ((x y : A) → same x y ≡ true → f x ≡ f y)
    → (xs m : List A) → any f (or_insert_by same xs m) ≡ (any f xs || any f m)
unfolding or_insert_by
any-or_insert_by f same respects [] m = refl
any-or_insert_by f same respects (x ∷ xs) m = ground (
  arith,
  any-or_insert_by f same respects xs (if any (same x) m then m else m ++ x ∷ []),
  any-snoc f m x,
  any-like f same respects x m,
)

pub grouped-merge_break_points :
    (site : CallSite) (c : String) (ps : List BreakPoint) (m : Grouped)
    → grouped_call site c (merge_break_points ps m) ≡ (has_call site c ps || grouped_call site c m)
unfolding merge_break_points
grouped-merge_break_points site c [] m = refl
grouped-merge_break_points site c (p ∷ ps) m = ground (
  arith,
  grouped-merge_break_points site c ps (extend_site (p.file, p.line) p.caller_symbols m),
  grouped-extend_site site (p.file, p.line) c p.caller_symbols m,
)

pub IsKeyed-merge_break_points :
    (ps : List BreakPoint) (m : Grouped) → IsKeyed m → IsKeyed (merge_break_points ps m)
unfolding merge_break_points
IsKeyed-merge_break_points [] m k = k
IsKeyed-merge_break_points (p ∷ ps) m k =
    IsKeyed-merge_break_points ps (extend_site (p.file, p.line) p.caller_symbols m)
      (IsKeyed-extend_site (p.file, p.line) p.caller_symbols m k)

-- No path stands twice among the files.
abbrev pub apart_files : ImpactedFile → ImpactedFile → Bool
apart_files a b = not (str_eq a.path b.path)

apart-keep_nearest :
    (a x : ImpactedFile) (m : List ImpactedFile)
    → str_eq x.path a.path ≡ false
    → All (λ f. apart_files a f ≡ true) m
    → All (λ f. apart_files a f ≡ true) (keep_nearest x m)
unfolding keep_nearest
apart-keep_nearest a x [] d h =
    (ground (arith, d, str_eq_iff x.path a.path, str_eq_iff a.path x.path), tt)
apart-keep_nearest a x (y ∷ m) d h = ground (
  arith,
  d,
  h.0,
  h.1,
  str_eq_iff x.path a.path,
  str_eq_iff a.path x.path,
  apart-keep_nearest a x m d h.1,
)

swap_like :
    (x y : ImpactedFile) (m : List ImpactedFile)
    → str_eq y.path x.path ≡ true
    → All (λ f. apart_files y f ≡ true) m
    → All (λ f. apart_files x f ≡ true) m
swap_like x y m e h = rw (← (str_eq_iff y.path x.path).0 e) h

keep_nearest-IsSorted :
    (x : ImpactedFile) (m : List ImpactedFile)
    → IsSorted apart_files m
    → IsSorted apart_files (keep_nearest x m)
unfolding keep_nearest
keep_nearest-IsSorted x [] k = (tt, tt)
keep_nearest-IsSorted x (y ∷ m) k =
    if-cases (IsSorted apart_files) (str_eq y.path x.path)
      (λ e.
        if-cases (IsSorted apart_files) (leb y.depth x.depth) (λ _. k)
          (λ _. (swap_like x y m e k.0, k.1)))
      (λ d. (
        apart-keep_nearest y x m
            (ground (arith, d, str_eq_iff y.path x.path, str_eq_iff x.path y.path)) k.0,
        keep_nearest-IsSorted x m k.1,
      ))

pub merge_impacted-IsSorted :
    (xs m : List ImpactedFile) → IsSorted apart_files m → IsSorted apart_files (merge_impacted xs m)
unfolding merge_impacted
merge_impacted-IsSorted [] m k = k
merge_impacted-IsSorted (x ∷ xs) m k =
    merge_impacted-IsSorted xs (keep_nearest x m) (keep_nearest-IsSorted x m k)
