-- ===== src/Query/BreakPoints/Calls.antt =====
-- The break points of a symbol are its calls, each once and in order.
use graphatlas.Prelude.{
  String, str_eq, str_eq_iff, List, [], ◌∷◌, ◌++◌, Option, none, some, Bool, true, false, not, ◌&&◌,
  ◌||◌, any, All, ◌≡◌, refl, ◌∙◌, ◌⊎◌, arith, if-cases,
}
use graphatlas.Prelude.Text.{codes, le_text_total, le_text_trans}
use graphatlas.Prelude.Sort.{
  sort_by, IsSorted, sort_by-IsSorted, sort_by-Pairwise, IsSorted-both, any-sort_by, All-sort_by,
}
use graphatlas.Prelude.Dedup.{le_str_antisym, before_str, sort_dedup-IsSorted, any-sort_dedup}
use graphatlas.Query.Impact.{is_safe_ident}
use graphatlas.Query.Degrees.{Column, GraphDb}
use graphatlas.Query.BreakPoints.{
  BreakPoint, CallSite, same_site, Grouped, extend_site, call_of, add_call, group_calls, point_of,
  points_of, le_point, close_groups, break_points_text, collect_break_points,
}

-- A symbol is listed as a caller at a place.
abbrev pub has_call : CallSite → String → List BreakPoint → Bool
has_call site c points =
    any (λ p. same_site (p.file, p.line) site && any (str_eq c) p.caller_symbols) points

abbrev pub grouped_call : CallSite → String → Grouped → Bool
grouped_call site c m = any (λ g. same_site g.0 site && any (str_eq c) g.1) m

-- A row says that the symbol calls at the place.
abbrev pub is_call : CallSite → String → Option (CallSite × String) → Bool
is_call site c none = false
is_call site c (some (s, d)) = same_site s site && str_eq c d

any-append : (p : String → Bool) (xs ys : List String) → any p (xs ++ ys) ≡ (any p xs || any p ys)
any-append p [] ys = refl
any-append p (x ∷ xs) ys = ground (arith, any-append p xs ys)

same_site_trans : (a b c : CallSite) → same_site a b ≡ true → same_site a c ≡ same_site b c
same_site_trans (f, l) (g, m) (h, n) e =
    ground (arith, e, str_eq_iff f g, str_eq_iff f h, str_eq_iff g h)

pub grouped-extend_site :
    (site s : CallSite) (c : String) (callers : List String) (m : Grouped)
    → grouped_call site c (extend_site s callers m)
      ≡ (same_site s site && any (str_eq c) callers || grouped_call site c m)
unfolding extend_site
grouped-extend_site site s c callers [] = refl
grouped-extend_site site s c callers ((r, cs) ∷ m) = ground (
  arith,
  same_site_trans r s site,
  any-append (str_eq c) cs callers,
  grouped-extend_site site s c callers m,
)

grouped-add_call :
    (site : CallSite) (c : String) (o : Option (CallSite × String)) (m : Grouped)
    → grouped_call site c (add_call o m) ≡ (is_call site c o || grouped_call site c m)
grouped-add_call site c none m = refl
grouped-add_call site c (some (s, d)) m = grouped-extend_site site s c (d ∷ []) m ∙ ground arith

grouped-group_calls :
    (site : CallSite) (c : String) (rows : List (List Column)) (m : Grouped)
    → grouped_call site c (group_calls rows m)
      ≡ (any (λ row. is_call site c (call_of row)) rows || grouped_call site c m)
unfolding group_calls
grouped-group_calls site c [] m = refl
grouped-group_calls site c (row ∷ rows) m = ground (
  arith,
  grouped-group_calls site c rows (add_call (call_of row) m),
  grouped-add_call site c (call_of row) m,
)

has_call-points_of :
    (site : CallSite) (c : String) (m : Grouped)
    → has_call site c (points_of m) ≡ grouped_call site c m
has_call-points_of site c [] = refl
has_call-points_of site c ((s, cs) ∷ m) =
    ground (arith, any-sort_dedup c cs, has_call-points_of site c m)

-- No place has two groups.
abbrev pub Apart : CallSite → Grouped → Type 0
Apart s m = All (λ g. same_site g.0 s ≡ false) m

abbrev pub IsKeyed : Grouped → Type 0
IsKeyed [] = Unit
IsKeyed ((s, cs) ∷ m) = Apart s m × IsKeyed m

Apart-extend_site :
    (r s : CallSite) (callers : List String) (m : Grouped)
    → same_site s r ≡ false
    → Apart r m
    → Apart r (extend_site s callers m)
unfolding extend_site
Apart-extend_site r s callers [] d h = (d, tt)
Apart-extend_site r s callers ((q, cs) ∷ m) d h =
    ground (arith, d, h.0, h.1, Apart-extend_site r s callers m d h.1)

same_site_symm : (a b : CallSite) → same_site a b ≡ false → same_site b a ≡ false
same_site_symm (f, l) (g, m) e = ground (arith, e, str_eq_iff f g, str_eq_iff g f)

pub IsKeyed-extend_site :
    (s : CallSite) (callers : List String) (m : Grouped)
    → IsKeyed m
    → IsKeyed (extend_site s callers m)
unfolding extend_site
IsKeyed-extend_site s callers [] k = (tt, tt)
IsKeyed-extend_site s callers ((r, cs) ∷ m) k =
    if-cases IsKeyed (same_site r s) (λ _. k)
      λ d. (
        Apart-extend_site r s callers m (same_site_symm r s d) k.0,
        IsKeyed-extend_site s callers m k.1,
      )

IsKeyed-add_call :
    (o : Option (CallSite × String)) (m : Grouped) → IsKeyed m → IsKeyed (add_call o m)
IsKeyed-add_call none m k = k
IsKeyed-add_call (some (s, c)) m k = IsKeyed-extend_site s (c ∷ []) m k

IsKeyed-group_calls :
    (rows : List (List Column)) (m : Grouped) → IsKeyed m → IsKeyed (group_calls rows m)
unfolding group_calls
IsKeyed-group_calls [] m k = k
IsKeyed-group_calls (row ∷ rows) m k =
    IsKeyed-group_calls rows (add_call (call_of row) m) (IsKeyed-add_call (call_of row) m k)

abbrev pub apart_points : BreakPoint → BreakPoint → Bool
apart_points p q = not (same_site (p.file, p.line) (q.file, q.line))

-- Before another place, and another one.
abbrev pub before_point : BreakPoint → BreakPoint → Bool
before_point p q = le_point p q && apart_points p q

apart_points_of :
    (s : CallSite) (cs : List String) (m : Grouped)
    → Apart s m
    → All (λ q. apart_points (point_of (s, cs)) q ≡ true) (points_of m)
apart_points_of s cs [] h = tt
apart_points_of s cs ((r, ds) ∷ m) h =
    (ground (arith, same_site_symm r s h.0), apart_points_of s cs m h.1)

points_of-IsSorted : (m : Grouped) → IsKeyed m → IsSorted apart_points (points_of m)
points_of-IsSorted [] k = tt
points_of-IsSorted ((s, cs) ∷ m) k = (apart_points_of s cs m k.0, points_of-IsSorted m k.1)

le_point_total : (p q : BreakPoint) → (le_point p q ≡ true) ⊎ (le_point q p ≡ true)
le_point_total p q = ground (
  arith,
  str_eq_iff p.file q.file,
  str_eq_iff q.file p.file,
  le_text_total (codes p.file) (codes q.file),
)

le_point_trans :
    (p q r : BreakPoint) → le_point p q ≡ true → le_point q r ≡ true → le_point p r ≡ true
le_point_trans p q r h k = ground (
  arith,
  h,
  k,
  str_eq_iff p.file q.file,
  str_eq_iff q.file r.file,
  str_eq_iff p.file r.file,
  le_text_trans (codes p.file) (codes q.file) (codes r.file),
  le_str_antisym p.file q.file,
)

callers-IsSorted : (m : Grouped) → All (λ p. IsSorted before_str p.caller_symbols) (points_of m)
callers-IsSorted [] = tt
callers-IsSorted ((s, cs) ∷ m) = (sort_dedup-IsSorted cs, callers-IsSorted m)

-- Each place once and in order, with its callers, each once and in order.
pub record IsListing (points : List BreakPoint) : Type 0 where
  pub places : IsSorted before_point points
  pub callers : All (λ p. IsSorted before_str p.caller_symbols) points

pub close_groups-IsListing : (m : Grouped) → IsKeyed m → IsListing (close_groups m)
unfolding close_groups
close_groups-IsListing m k = record {
  places =
      IsSorted-both le_point apart_points (sort_by le_point (points_of m))
        (sort_by-IsSorted le_point le_point_total le_point_trans (points_of m))
        (sort_by-Pairwise apart_points le_point
          (λ p q e. ground (arith, e, same_site_symm (p.file, p.line) (q.file, q.line)))
          (points_of m) (points_of-IsSorted m k));
  callers = All-sort_by _ le_point (points_of m) (callers-IsSorted m);
}

pub has_call-close_groups :
    (site : CallSite) (c : String) (m : Grouped)
    → has_call site c (close_groups m) ≡ grouped_call site c m
unfolding close_groups
has_call-close_groups site c m = any-sort_by _ le_point (points_of m) ∙ has_call-points_of site c m

-- Where the database answers, the break points of a symbol that is a safe identifier are exactly
-- its calls: a caller stands at a file and a line just where a row says so. Each place stands
-- there once, in the order of files and lines, and each of its callers once, in order.
pub collect_break_points_lem :
    (db : GraphDb) (symbol : String) (rows : List (List Column))
    → is_safe_ident symbol ≡ true
    → db.connects ≡ true
    → db.query (break_points_text symbol) ≡ some rows
    → (points : List BreakPoint) × (collect_break_points db symbol ≡ some points)
      × IsListing points
      × ((site : CallSite) (c : String)
          → has_call site c points ≡ any (λ row. is_call site c (call_of row)) rows)
unfolding collect_break_points
collect_break_points_lem db symbol rows safe up answer = (
  close_groups (group_calls rows []),
  rw (safe, up, answer) refl,
  close_groups-IsListing (group_calls rows []) (IsKeyed-group_calls rows [] tt),
  λ site c.
      has_call-close_groups site c (group_calls rows [])
      ∙ grouped-group_calls site c rows []
      ∙ ground arith,
)
