-- ===== src/Mcp/Text.antt =====
-- Searches in texts, as crates/ga-mcp makes them on messages and paths.
use graphatlas.Prelude.{ℕ, ◌+◌, ◌==◌, String, List, [], ◌∷◌, Bool, ◌&&◌, if◌then◌else◌, leb}
use graphatlas.Prelude.Text.{codes, contains}

-- `str::contains`.
abbrev pub has_text : String → List ℕ → Bool
has_text p s = contains (codes p) s

-- `str::to_lowercase`, as far as ASCII letters come of it: the Kelvin sign gives k, the dotted capital
-- I gives i and a combining dot.
abbrev pub to_lowercase : List ℕ → List ℕ
to_lowercase [] = []
to_lowercase (c ∷ s) =
    let rest = to_lowercase s in
    if leb 65 c && leb c 90
    then (c + 32) ∷ rest
    else if c == 0x212a
    then 107 ∷ rest
    else if c == 0x130
    then 105 ∷ 0x307 ∷ rest
    else c ∷ rest

abbrev pub with_slashes : List ℕ → List ℕ
with_slashes [] = []
with_slashes (c ∷ s) = (if c == 92 then 47 else c) ∷ with_slashes s
