-- ===== src/Query/Diff.antt =====
-- crates/ga-query/src/impact/diff.rs: the paths that a unified diff touches. A text is the list of
-- its code points; the hash set beside the answer is a list.
pub mod Headers
pub mod RoundTrip
use graphatlas.Prelude.{
  ℕ, leb, ◌==◌, List, [], ◌∷◌, ◌++◌, reverse, Option, none, some, Bool, true, false, not, ◌&&◌,
  ◌||◌, if◌then◌else◌, any,
}
use graphatlas.Prelude.Text.{codes, eq_text, strip_prefix}

-- `char::is_whitespace`.
abbrev pub is_whitespace : ℕ → Bool
is_whitespace c =
    leb 9 c && leb c 13
    || (c == 32
        || (c == 133
            || (c == 160
                || (c == 5760
                    || (leb 8192 c && leb c 8202
                        || (c == 8232
                            || (c == 8233 || (c == 8239 || (c == 8287 || c == 12288)))))))))

abbrev pub trim_start : List ℕ → List ℕ
trim_start [] = []
trim_start (c ∷ s) = if is_whitespace c then trim_start s else c ∷ s

abbrev pub trim : List ℕ → List ℕ
trim s = reverse (trim_start (reverse (trim_start s)))

-- `split('\t').next()`.
abbrev pub before_tab : List ℕ → List ℕ
before_tab [] = []
before_tab (c ∷ s) = if c == 9 then [] else c ∷ before_tab s

-- The line, reversed, without the carriage return before its newline.
abbrev pub without_cr : List ℕ → List ℕ
without_cr [] = []
without_cr (c ∷ s) = if c == 13 then s else c ∷ s

-- `lines()`, with the current line so far, reversed.
abbrev pub lines_from : List ℕ → List ℕ → List (List ℕ)
lines_from [] [] = []
lines_from (c ∷ line) [] = reverse (c ∷ line) ∷ []
lines_from line (c ∷ s) =
    if c == 10 then reverse (without_cr line) ∷ lines_from [] s else lines_from (c ∷ line) s

abbrev pub lines : List ℕ → List (List ℕ)
lines s = lines_from [] s

-- `strip_prefix("a/").or_else(|| strip_prefix("b/")).unwrap_or(raw)`.
unfoldable pub strip_side : List ℕ → List ℕ
strip_side raw = elim (strip_prefix (codes "a/") raw) [
  | some rest ↦ rest
  | none ↦ elim (strip_prefix (codes "b/") raw) [ some rest ↦ rest | none ↦ raw ]
]

abbrev pub non_empty : List ℕ → Option (List ℕ)
non_empty [] = none
non_empty (c ∷ s) = some (c ∷ s)

unfoldable pub parse_diff_path : List ℕ → Option (List ℕ)
unfolding strip_side
parse_diff_path raw =
    let r = trim (before_tab raw) in
    if eq_text r [] || eq_text r (codes "/dev/null") then none else non_empty (strip_side r)

-- What follows `+++ ` or `--- `; another line is skipped.
unfoldable pub header_tag : List ℕ → Option (List ℕ)
header_tag line = elim (strip_prefix (codes "+++ ") line) [
  | some rest ↦ some rest
  | none ↦ strip_prefix (codes "--- ") line
]

-- The path of a line, if it is a header with one.
unfoldable pub header_path : List ℕ → Option (List ℕ)
unfolding header_tag parse_diff_path
header_path line = elim (header_tag line) [ none ↦ none | some tag ↦ parse_diff_path tag ]

abbrev pub seen_mem : List ℕ → List (List ℕ) → Bool
seen_mem p l = any (λ q. eq_text q p) l

-- The loop, with `seen` and `files`.
unfoldable pub scan_lines : List (List ℕ) → List (List ℕ) → List (List ℕ) → List (List ℕ)
unfolding header_path
scan_lines [] seen files = files
scan_lines (line ∷ rest) seen files = elim (header_path line) [
  | none ↦ scan_lines rest seen files
  | some path ↦
      scan_lines rest (if seen_mem path seen then seen else path ∷ seen)
        (if seen_mem path seen then files else files ++ path ∷ [])
]

unfoldable pub extract_files_from_diff : List ℕ → List (List ℕ)
unfolding scan_lines
extract_files_from_diff diff = scan_lines (lines diff) [] []
