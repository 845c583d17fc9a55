-- ===== src/Server/Tokens.antt =====
-- `ConfirmTokens` of crates/ga-server/src/jobs.rs: the second step of a deletion. Times are
-- nanoseconds of a monotonic clock; the token that `gen_id` makes is an argument.
pub mod OneShot
use graphatlas.Prelude.{
  ℕ, ◌-◌, ltb, String, str_eq, Option, none, some, not, if◌then◌else◌, List, [], ◌∷◌,
}
use graphatlas.Prelude.Assoc.{Assoc, get, insert, remove}

pub record ConfirmEntry : Type 0 where
  pub token : String
  pub issued_at : ℕ

abbrev pub ConfirmTokens : Type 0
ConfirmTokens = Assoc ConfirmEntry

-- 30 s.
abbrev pub confirm_ttl : ℕ
confirm_ttl = 30_000_000_000

pub data ConfirmResult : Type 0 where
  confirmed missing expired mismatched : ConfirmResult

unfoldable pub issue : String → String → ℕ → ConfirmTokens → ConfirmTokens
issue slug token now m = insert slug (record { token = token; issued_at = now }) m

unfoldable pub judge :
    String → String → ℕ → ConfirmEntry → ConfirmTokens → ConfirmResult × ConfirmTokens
judge slug token now e m =
    if ltb confirm_ttl (now - e.issued_at)
    then (expired, remove slug m)
    else if not (str_eq e.token token)
    then (mismatched, m)
    else (confirmed, remove slug m)

unfoldable pub validate : String → String → ℕ → ConfirmTokens → ConfirmResult × ConfirmTokens
unfolding judge
validate slug token now m = elim (get slug m) [
  | none ↦ (missing, m)
  | some e ↦ judge slug token now e m
]

pub data Call : Type 0 where
  issues : String → String → ℕ → Call
  validates : String → String → ℕ → Call

abbrev pub run_call : Call → ConfirmTokens → ConfirmTokens
run_call (issues slug token now) m = issue slug token now m
run_call (validates slug token now) m = (validate slug token now m).1

unfoldable pub run : List Call → ConfirmTokens → ConfirmTokens
run [] m = m
run (c ∷ cs) m = run cs (run_call c m)
