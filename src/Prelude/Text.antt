-- ===== src/Prelude/Text.antt =====
-- Text that the program walks: lists of code points, with the string methods that it calls.
use Prim.Native.Nat.{ℕ}
use Prim.Native.Char.{code}
use Prim.Native.String.{String}
use mathlib.Core.Bool.{Bool, true, false, ◌&&◌, ◌||◌}
use mathlib.Core.Option.{Option, none, some}
use mathlib.Core.List.{List, [], ◌∷◌, reverse}
use mathlib.Core.Path.{◌≡◌, refl}
use mathlib.Core.Logic.{◌⊎◌, ◌↔◌, inl, inr}
use native.Mathlib.Omega.{arith}
use graphatlas.Prelude.Tests.{ltb, ◌==◌, if◌then◌else◌}

-- `String` has its own `[]` and `∷`.
abbrev pub codes : String → List ℕ
codes String.[] = []
codes (String.◌∷◌ c s) = code c ∷ codes s

abbrev pub eq_text : List ℕ → List ℕ → Bool
eq_text [] [] = true
eq_text [] (y ∷ ys) = false
eq_text (x ∷ xs) [] = false
eq_text (x ∷ xs) (y ∷ ys) = x == y && eq_text xs ys

-- `s.strip_prefix(p)`, the prefix first.
abbrev pub strip_prefix : List ℕ → List ℕ → Option (List ℕ)
strip_prefix [] s = some s
strip_prefix (p ∷ ps) [] = none
strip_prefix (p ∷ ps) (c ∷ s) = if p == c then strip_prefix ps s else none

abbrev pub starts_with : List ℕ → List ℕ → Bool
starts_with [] s = true
starts_with (p ∷ ps) [] = false
starts_with (p ∷ ps) (c ∷ s) = p == c && starts_with ps s

abbrev pub ends_with : List ℕ → List ℕ → Bool
ends_with p s = starts_with (reverse p) (reverse s)

abbrev pub contains : List ℕ → List ℕ → Bool
contains p [] = starts_with p []
contains p (c ∷ s) = starts_with p (c ∷ s) || contains p s

-- The order of `str`: by bytes, which for UTF-8 is by code points.
abbrev pub le_text : List ℕ → List ℕ → Bool
le_text [] t = true
le_text (x ∷ s) [] = false
le_text (x ∷ s) (y ∷ t) = if x == y then le_text s t else ltb x y

pub le_text_total : (s t : List ℕ) → (le_text s t ≡ true) ⊎ (le_text t s ≡ true)
le_text_total [] t = inl refl
le_text_total (x ∷ s) [] = inr refl
le_text_total (x ∷ s) (y ∷ t) = ground (arith, le_text_total s t)

pub le_text_trans : (s t u : List ℕ) → le_text s t ≡ true → le_text t u ≡ true → le_text s u ≡ true
le_text_trans [] t u h k = refl
le_text_trans (x ∷ s) [] u h k = ground (arith, h)
le_text_trans (x ∷ s) (y ∷ t) [] h k = ground (arith, k)
le_text_trans (x ∷ s) (y ∷ t) (z ∷ u) h k = ground (arith, h, k, le_text_trans s t u)

pub eq_text_iff : (s t : List ℕ) → (eq_text s t ≡ true) ↔ (s ≡ t)
eq_text_iff [] [] = ground arith
eq_text_iff [] (y ∷ t) = ground arith
eq_text_iff (x ∷ s) [] = ground arith
eq_text_iff (x ∷ s) (y ∷ t) = ground (arith, eq_text_iff s t)

pub le_text_antisym : (s t : List ℕ) → le_text s t ≡ true → le_text t s ≡ true → s ≡ t
le_text_antisym [] [] h k = refl
le_text_antisym [] (y ∷ t) h k = ground (arith, k)
le_text_antisym (x ∷ s) [] h k = ground (arith, h)
le_text_antisym (x ∷ s) (y ∷ t) h k = ground (arith, h, k, le_text_antisym s t)
