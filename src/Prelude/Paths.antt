-- ===== src/Prelude/Paths.antt =====
-- `Path` on Unix: its components, and the order and the equality that they give. A path is a text.
use graphatlas.Prelude.Tests.{◌==◌, if◌then◌else◌}
use graphatlas.Prelude.Text.{
  eq_text, le_text, eq_text_iff, le_text_total, le_text_trans, le_text_antisym,
}
use Prim.Native.Nat.{ℕ}
use mathlib.Core.Path.{◌≡◌, refl}
use mathlib.Core.Logic.{◌⊎◌, ◌↔◌, inl, inr}
use mathlib.Core.Bool.{Bool, true, false, ◌&&◌, ◌||◌}
use mathlib.Core.List.{List, [], ◌∷◌, map}
use native.Mathlib.Omega.{arith}

-- In the order of `std::path::Component`.
pub data Component : Type 0 where
  root_dir cur_dir parent_dir : Component
  normal : List ℕ → Component

-- At each slash.
abbrev pub split : List ℕ → List (List ℕ)
split [] = [] ∷ []
split (c ∷ cs) =
    let rest = split cs in
    if c == 47 then [] ∷ rest else elim rest [ [] ↦ (c ∷ []) ∷ [] | s ∷ ss ↦ (c ∷ s) ∷ ss ]

-- Empty segments and later dots are no components.
abbrev pub kept : List (List ℕ) → List Component
kept [] = []
kept (s ∷ ss) =
    let rest = kept ss in
    if eq_text s [] || eq_text s (46 ∷ [])
    then rest
    else if eq_text s (46 ∷ (46 ∷ []))
    then parent_dir ∷ rest
    else normal s ∷ rest

abbrev pub relative : List (List ℕ) → List Component
relative [] = []
relative (s ∷ ss) = if eq_text s (46 ∷ []) then cur_dir ∷ kept ss else kept (s ∷ ss)

abbrev pub components : List ℕ → List Component
components [] = []
components (c ∷ cs) = if c == 47 then root_dir ∷ kept (split cs) else relative (split (c ∷ cs))

abbrev pub component_text : Component → List ℕ
component_text root_dir = 0 ∷ []
component_text cur_dir = 1 ∷ []
component_text parent_dir = 2 ∷ []
component_text (normal s) = 3 ∷ s

abbrev pub path_key : List ℕ → List (List ℕ)
path_key p = map component_text (components p)

abbrev pub eq_texts : List (List ℕ) → List (List ℕ) → Bool
eq_texts [] [] = true
eq_texts [] (y ∷ ys) = false
eq_texts (x ∷ xs) [] = false
eq_texts (x ∷ xs) (y ∷ ys) = eq_text x y && eq_texts xs ys

abbrev pub le_texts : List (List ℕ) → List (List ℕ) → Bool
le_texts [] ys = true
le_texts (x ∷ xs) [] = false
le_texts (x ∷ xs) (y ∷ ys) = if eq_text x y then le_texts xs ys else le_text x y

-- `Path::starts_with`, the longer path first.
abbrev pub begins_with : List (List ℕ) → List (List ℕ) → Bool
begins_with xs [] = true
begins_with [] (y ∷ ys) = false
begins_with (x ∷ xs) (y ∷ ys) = eq_text x y && begins_with xs ys

unfoldable pub same_path : List ℕ → List ℕ → Bool
same_path p q = eq_texts (path_key p) (path_key q)

unfoldable pub le_path : List ℕ → List ℕ → Bool
le_path p q = le_texts (path_key p) (path_key q)

unfoldable pub path_starts_with : List ℕ → List ℕ → Bool
path_starts_with p base = begins_with (path_key p) (path_key base)

pub eq_texts_iff : (s t : List (List ℕ)) → (eq_texts s t ≡ true) ↔ (s ≡ t)
eq_texts_iff [] [] = ground arith
eq_texts_iff [] (y ∷ t) = ground arith
eq_texts_iff (x ∷ s) [] = ground arith
eq_texts_iff (x ∷ s) (y ∷ t) = ground (arith, eq_text_iff x y, eq_texts_iff s t)

le_texts_total : (s t : List (List ℕ)) → (le_texts s t ≡ true) ⊎ (le_texts t s ≡ true)
le_texts_total [] t = inl refl
le_texts_total (x ∷ s) [] = inr refl
le_texts_total (x ∷ s) (y ∷ t) =
    ground (arith, le_texts_total s t, le_text_total x y, eq_text_iff x y, eq_text_iff y x)

le_texts_trans :
    (s t u : List (List ℕ)) → le_texts s t ≡ true → le_texts t u ≡ true → le_texts s u ≡ true
le_texts_trans [] t u h k = refl
le_texts_trans (x ∷ s) [] u h k = ground (arith, h)
le_texts_trans (x ∷ s) (y ∷ t) [] h k = ground (arith, k)
le_texts_trans (x ∷ s) (y ∷ t) (z ∷ u) h k = ground (
  arith,
  h,
  k,
  le_texts_trans s t u,
  le_text_trans x y z,
  le_text_antisym x y,
  eq_text_iff x y,
  eq_text_iff y z,
  eq_text_iff x z,
)

pub same_path_iff : (p q : List ℕ) → (same_path p q ≡ true) ↔ (path_key p ≡ path_key q)
unfolding same_path
same_path_iff p q = eq_texts_iff (path_key p) (path_key q)

pub same_path_self : (p : List ℕ) → same_path p p ≡ true
same_path_self p = (same_path_iff p p).1 refl

pub le_path_total : (p q : List ℕ) → (le_path p q ≡ true) ⊎ (le_path q p ≡ true)
unfolding le_path
le_path_total p q = le_texts_total (path_key p) (path_key q)

pub le_path_trans : (p q r : List ℕ) → le_path p q ≡ true → le_path q r ≡ true → le_path p r ≡ true
unfolding le_path
le_path_trans p q r = le_texts_trans (path_key p) (path_key q) (path_key r)
