-- ===== src/Prelude/Chars.antt =====
-- `String` from code points and to UTF-8: what the program's string methods give back.
use Prim.Native.Nat.{ℕ, ◌+◌, ◌/◌, ◌%◌, compare, Ordering}
use Prim.Native.Char.{Char, char, code, nul, IsLt, IsScalar}
use Prim.Native.String.{String}
use text.Mathlib.TextEquality.{Char-path}
use mathlib.Core.Path.{◌≡◌, refl, ap, ◌∙◌}
use mathlib.Core.List.{List, [], ◌∷◌, ◌++◌}
use graphatlas.Prelude.Tests.{ltb, if◌then◌else◌}
use graphatlas.Prelude.Text.{codes}

-- The clauses of `IsScalar`, whose own are private.
abbrev BothLt : Ordering → Ordering → Type 0
BothLt Ordering.lt o = IsLt o
BothLt Ordering.eq _ = ⊥
BothLt Ordering.gt _ = ⊥

abbrev Scalar : Ordering → Ordering → Ordering → Type 0
Scalar Ordering.lt _ _ = Unit
Scalar Ordering.eq o p = BothLt o p
Scalar Ordering.gt o p = BothLt o p

abbrev decide_both : (o p : Ordering) → Dec (BothLt o p)
decide_both Ordering.lt Ordering.lt = yes tt
decide_both Ordering.lt Ordering.eq = no (λ h. h)
decide_both Ordering.lt Ordering.gt = no (λ h. h)
decide_both Ordering.eq p = no (λ h. h)
decide_both Ordering.gt p = no (λ h. h)

abbrev dec_scalar : (a b c : Ordering) → Dec (Scalar a b c)
dec_scalar Ordering.lt b c = yes tt
dec_scalar Ordering.eq b c = decide_both b c
dec_scalar Ordering.gt b c = decide_both b c

abbrev char_if : (n : ℕ) → Dec (IsScalar n) → Char
char_if n (yes p) = char n p
char_if n (no _) = nul

abbrev pub char_of : ℕ → Char
char_of n = char_if n (dec_scalar (compare n 55296) (compare 57343 n) (compare n 1114112))

-- The text with these code points; every list that is cut from a text consists of such.
abbrev pub of_codes : List ℕ → String
of_codes [] = String.[]
of_codes (c ∷ cs) = String.◌∷◌ (char_of c) (of_codes cs)

char_if-code : (c : Char) (d : Dec (IsScalar (code c))) → char_if (code c) d ≡ c
char_if-code c (yes p) = Char-path _ _ refl
char_if-code (char n q) (no h) = absurd (h q)

pub of_codes-codes : (s : String) → of_codes (codes s) ≡ s
of_codes-codes String.[] = refl
of_codes-codes (String.◌∷◌ c s) =
    ap (λ d. String.◌∷◌ d (of_codes (codes s))) (char_if-code c _)
    ∙ ap (String.◌∷◌ c) (of_codes-codes s)

-- `str::as_bytes`: UTF-8.
abbrev pub encode : ℕ → List ℕ
encode c =
    if ltb c 128
    then c ∷ []
    else if ltb c 2048
    then (192 + c / 64) ∷ ((128 + c % 64) ∷ [])
    else if ltb c 65_536
    then (224 + c / 4096) ∷ ((128 + c / 64 % 64) ∷ ((128 + c % 64) ∷ []))
    else (240 + c / 262_144)
      ∷ ((128 + c / 4096 % 64) ∷ ((128 + c / 64 % 64) ∷ ((128 + c % 64) ∷ [])))

abbrev pub bytes : List ℕ → List ℕ
bytes [] = []
bytes (c ∷ cs) = encode c ++ bytes cs
