-- ===== src/Mcp/Gate.antt =====
-- The staleness gate before each tool call (crates/ga-mcp/src/handlers.rs), on the checker of
-- `Parser/Staleness`. What the dirty-path walk answers is an argument, `none` for its error.
pub mod Passes
use graphatlas.Prelude.{
  ℕ, ◌+◌, ◌-◌, ◌*◌, ◌==◌, leb, String, str_eq, List, [], ◌∷◌, Option, none, some, Bool, true, false,
  not, ◌&&◌, if◌then◌else◌, length,
}
use graphatlas.Parser.Staleness.{
  StaleResult, StalenessChecker, check, tier2_lookup, record_tier2_result,
}
use graphatlas.Mcp.Context.{McpContext}

-- What the gate meets outside. `text` is how the checker's model writes the 32 bytes of a hash.
pub record Probe : Type 0 where
  pub exotic : Bool
  pub now : ℕ
  pub computed : Option String
  pub mtime : Option ℕ
  pub dirty_paths : Option (List String)
  pub text : List ℕ → String

pub data Gated : Type 0 where
  dispatched store_gone : Gated
  stale_index : List String → Gated

-- A hexadecimal digit, of either case.
abbrev pub digit : ℕ → Option ℕ
digit c =
    if leb 48 c && leb c 57
    then some (c - 48)
    else if leb 97 c && leb c 102
    then some (c - 87)
    else if leb 65 c && leb c 70
    then some (c - 55)
    else none

-- `u8::from_str_radix` on two characters: the first may be a plus sign.
abbrev pub byte_of : ℕ → ℕ → Option ℕ
byte_of a b = elim (digit b) [
  | none ↦ none
  | some low ↦
      if a == 43
      then some low
      else elim (digit a) [ none ↦ none | some high ↦ some (high * 16 + low) ]
]

abbrev pub bytes_of : List ℕ → Option (List ℕ)
bytes_of [] = some []
bytes_of (a ∷ []) = none
bytes_of (a ∷ (b ∷ cs)) =
    let rest = bytes_of cs in
    elim (byte_of a b) [
      | none ↦ none
      | some x ↦ elim rest [ none ↦ none | some xs ↦ some (x ∷ xs) ]
    ]

unfoldable pub decode_root_hash : List ℕ → Option (List ℕ)
decode_root_hash hex = if length hex == 64 then bytes_of hex else none

unfoldable pub tier2_dirty_paths_with_cache :
    Probe → McpContext → StalenessChecker → List String × StalenessChecker
tier2_dirty_paths_with_cache p ctx c = elim (tier2_lookup p.now p.mtime c) [
  | some cached ↦ (cached, c)
  | none ↦ elim (ctx.store_cell) [
    | none ↦ ([], c)
    | some sh ↦ elim (p.dirty_paths) [
      | some paths ↦ (paths, record_tier2_result p.now p.mtime paths c)
      | none ↦ ([], record_tier2_result p.now p.mtime [] c)
    ]
  ]
]

abbrev pub if_clean : List String × StalenessChecker → Gated × StalenessChecker
if_clean ([], c) = (dispatched, c)
if_clean (d ∷ ds, c) = (stale_index (d ∷ ds), c)

-- With the answer of the checker.
unfoldable pub gate_checked :
    Probe → Bool → McpContext → Option StaleResult × StalenessChecker → Gated × StalenessChecker
unfolding tier2_dirty_paths_with_cache
gate_checked p allow_stale ctx (none, c) = (dispatched, c)
gate_checked p allow_stale ctx (some r, c) =
    if r.degraded
    then (dispatched, c)
    else if r.stale && not allow_stale
    then (stale_index [], c)
    else if not r.stale && (not allow_stale && not c.tier2_disabled)
    then if_clean (tier2_dirty_paths_with_cache p ctx c)
    else (dispatched, c)

unfoldable pub gate :
    Probe → String → Bool → McpContext → StalenessChecker → Gated × StalenessChecker
unfolding gate_checked decode_root_hash
gate p name allow_stale ctx c =
    if str_eq name "ga_reindex" then (dispatched, c) else elim (ctx.store_cell) [
      | none ↦ (store_gone, c)
      | some sh ↦ elim (decode_root_hash sh.store.metadata.indexed_root_hash) [
        | none ↦ (dispatched, c)
        | some bytes ↦
            gate_checked p allow_stale ctx (check p.exotic p.now p.computed (p.text bytes) c)
      ]
    ]
