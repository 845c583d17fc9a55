-- ===== src/Query/TextFilter.antt =====
-- crates/ga-query/src/impact/text_filter.rs, and the second copy of its test in
-- crates/ga-query/src/impact/affected_tests.rs. A text is its bytes; what reading a file gives is an
-- argument, `none` where it cannot be read or is not UTF-8.
pub mod Boundaries
use graphatlas.Prelude.{
  ℕ, zero, suc, ◌+◌, ◌-◌, leb, ltb, ◌==◌, Bool, true, false, not, ◌&&◌, ◌||◌, if◌then◌else◌, List,
  [], ◌∷◌, drop, get_elem?, length, any, Option, none, some, String,
}
use graphatlas.Prelude.Text.{codes, eq_text, strip_prefix}
use graphatlas.Prelude.Chars.{bytes}
use graphatlas.Prelude.Sort.{take}
use graphatlas.Query.Impact.{ImpactedFile}

unfoldable pub is_ident_byte : ℕ → Bool
is_ident_byte b =
    leb 48 b && leb b 57 || (leb 65 b && leb b 90 || (leb 97 b && leb b 122 || b == 95))

-- No identifier goes on at the head of these bytes.
abbrev pub ends_here : List ℕ → Bool
ends_here [] = true
ends_here (b ∷ bs) = not (is_ident_byte b)

-- The test at one place, with what it says of the byte before.
unfoldable pub token_here : List ℕ → Bool → List ℕ → Bool
unfolding is_ident_byte
token_here sbytes before text = elim (strip_prefix sbytes text) [
  | none ↦ false
  | some after ↦ before && ends_here after
]

-- `while i + sbytes.len() <= bytes.len()`, from the `i`th byte on.
unfoldable pub token_from : List ℕ → Bool → List ℕ → Bool
unfolding token_here
token_from sbytes before [] = false
token_from sbytes before (b ∷ bs) =
    let later = token_from sbytes (not (is_ident_byte b)) bs in
    if leb (length sbytes) (length (b ∷ bs))
    then if token_here sbytes before (b ∷ bs) then true else later
    else false

unfoldable pub contains_seed_token : List ℕ → List ℕ → Bool
unfolding token_from
contains_seed_token text [] = false
contains_seed_token text (s ∷ seed) =
    if ltb (length text) (length (s ∷ seed)) then false else token_from (s ∷ seed) true text

-- `bytes[i]`, where it is there, is no part of an identifier.
abbrev pub no_ident_at : List ℕ → ℕ → Bool
no_ident_at hay i = elim (get_elem? hay i) [ none ↦ true | some b ↦ not (is_ident_byte b) ]

abbrev pub boundary_before : List ℕ → ℕ → Bool
boundary_before hay zero = true
boundary_before hay (suc i) = no_ident_at hay i

-- The body of `for i in 0..=bytes.len() - n`.
abbrev pub boundary_at : List ℕ → List ℕ → ℕ → Bool
boundary_at hay needle i =
    let n = length needle in
    if not (eq_text (take n (drop i hay)) needle)
    then false
    else boundary_before hay i && (i + n == length hay || no_ident_at hay (i + n))

-- The loop, with the rounds left after this one.
unfoldable pub boundary_loop : List ℕ → List ℕ → ℕ → ℕ → Bool
unfolding is_ident_byte
boundary_loop hay needle zero i = boundary_at hay needle i
boundary_loop hay needle (suc left) i =
    let later = boundary_loop hay needle left (suc i) in
    if boundary_at hay needle i then true else later

unfoldable pub contains_word_boundary : List ℕ → List ℕ → Bool
unfolding boundary_loop
contains_word_boundary hay needle =
    let n = length needle in
    if n == 0 || ltb (length hay) n then false else boundary_loop hay needle (length hay - n) 0

-- Whether the filter keeps a file.
abbrev pub survives : (String → Option (List ℕ)) → List String → ImpactedFile → Bool
survives read symbols f = if f.depth == 0 then true else elim (read f.path) [
  | none ↦ false
  | some text ↦ any (λ sym. contains_seed_token text (bytes (codes sym))) symbols
]

unfoldable pub filter_by_path_symbols :
    (String → Option (List ℕ)) → List String → List ImpactedFile → List ImpactedFile
filter_by_path_symbols read symbols [] = []
filter_by_path_symbols read symbols (f ∷ fs) =
    let rest = filter_by_path_symbols read symbols fs in
    if survives read symbols f then f ∷ rest else rest
