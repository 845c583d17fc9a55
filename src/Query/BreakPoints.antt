-- ===== src/Query/BreakPoints.antt =====
-- crates/ga-query/src/impact/break_points.rs: the places that call a symbol, with who calls there. A
-- `HashMap` is an association list: its order reaches no result, since the places are sorted.
pub mod Calls
use graphatlas.Prelude.{
  ℕ, ◌+◌, ◌%◌, ◌^◌, ◌==◌, leb, String, ◌<>◌, str_eq, List, [], ◌∷◌, ◌++◌, Option, none, some, Bool,
  not, ◌&&◌, ◌||◌, if◌then◌else◌,
}
use graphatlas.Prelude.Sort.{sort_by}
use graphatlas.Prelude.Dedup.{le_str, sort_dedup}
use graphatlas.Query.Impact.{is_safe_ident}
use graphatlas.Query.Degrees.{Column, text, int64, null, GraphDb}

pub record BreakPoint : Type 0 where
  pub file : String
  pub line : ℕ
  pub caller_symbols : List String

-- A file and a line of it.
abbrev pub CallSite : Type 0
CallSite = String × ℕ

abbrev pub same_site : CallSite → CallSite → Bool
same_site (f, m) (g, n) = str_eq f g && (m == n)

abbrev pub Grouped : Type 0
Grouped = List (CallSite × List String)

-- `entry(site).or_default().extend(callers)`; a `push` is the extension by one.
unfoldable pub extend_site : CallSite → List String → Grouped → Grouped
extend_site site callers [] = (site, callers) ∷ []
extend_site site callers ((s, cs) ∷ m) =
    if same_site s site then (s, cs ++ callers) ∷ m else (s, cs) ∷ extend_site site callers m

-- What a row says: `as u32` of a line that is a number, and 0 else; a row without two texts is skipped.
unfoldable pub call_of : List Column → Option (CallSite × String)
call_of [] = none
call_of (f ∷ []) = none
call_of (f ∷ (n ∷ [])) = none
call_of (text f ∷ (int64 n ∷ (text c ∷ cs))) = some ((f, n % 2 ^ 32), c)
call_of (text f ∷ (text n ∷ (text c ∷ cs))) = some ((f, 0), c)
call_of (text f ∷ (null ∷ (text c ∷ cs))) = some ((f, 0), c)
call_of (text f ∷ (n ∷ (int64 c ∷ cs))) = none
call_of (text f ∷ (n ∷ (null ∷ cs))) = none
call_of (int64 f ∷ (n ∷ (c ∷ cs))) = none
call_of (null ∷ (n ∷ (c ∷ cs))) = none

abbrev pub add_call : Option (CallSite × String) → Grouped → Grouped
add_call none m = m
add_call (some (site, caller)) m = extend_site site (caller ∷ []) m

unfoldable pub group_calls : List (List Column) → Grouped → Grouped
unfolding call_of extend_site
group_calls [] m = m
group_calls (row ∷ rows) m = group_calls rows (add_call (call_of row) m)

abbrev pub point_of : CallSite × List String → BreakPoint
point_of (s, callers) = record { file = s.0; line = s.1; caller_symbols = sort_dedup callers }

abbrev pub points_of : Grouped → List BreakPoint
points_of [] = []
points_of (g ∷ m) = point_of g ∷ points_of m

-- By file, then by line.
abbrev pub le_point : BreakPoint → BreakPoint → Bool
le_point a b = if str_eq a.file b.file then leb a.line b.line else le_str a.file b.file

unfoldable pub close_groups : Grouped → List BreakPoint
unfolding sort_by sort_dedup
close_groups m = sort_by le_point (points_of m)

abbrev pub break_points_text : String → String
break_points_text symbol =
    "MATCH (caller:Symbol)-[r:CALLS]->(callee:Symbol) WHERE callee.name = '"
    <> (symbol
        <> "' AND caller.kind <> 'external' RETURN caller.file, r.call_site_line, caller.name")

unfoldable pub collect_break_points : GraphDb → String → Option (List BreakPoint)
unfolding group_calls close_groups is_safe_ident
collect_break_points db symbol =
    if not (is_safe_ident symbol)
    then some []
    else if not db.connects
    then none
    else elim (db.query (break_points_text symbol)) [
      | none ↦ none
      | some rows ↦ some (close_groups (group_calls rows []))
    ]
