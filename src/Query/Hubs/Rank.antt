-- ===== src/Query/Hubs/Rank.antt =====
-- The leaderboard is in order, and a symbol's rank is its place on it.
use graphatlas.Prelude.{
  ℕ, zero, suc, ◌%◌, ◌^◌, ◌≤◌, ◌<◌, String, List, [], ◌∷◌, Option, none, some, Bool, true, ◌≡◌,
  refl, ◌⊎◌, inl, inr, arith, ◌∙◌, Option-cases, Bool-cases, List-cases, length, get_elem?,
}
use graphatlas.Prelude.Text.{codes, le_text_total, le_text_trans, le_text_antisym, eq_text_iff}
use graphatlas.Prelude.Sort.{take, IsSorted, sort_by-IsSorted, take-IsSorted}
use mathlib.Core.Path.{subst}
use graphatlas.Query.Impact.{is_safe_ident}
use graphatlas.Query.Degrees.{Key, degrees, seen_of, GraphDb, HubsEdgeTypes}
use graphatlas.Query.Hubs.{
  symbols_text, entries, sym_meta, HubEntry, HubsResponse, HubsRequest, clamped, top_n_cap,
  le_names, ranks_before, is_target, position, empty_response, look_up, top, leaderboard, score,
  ranked, hubs,
}

le_names_total : (s n t m : List ℕ) → (le_names s n t m ≡ true) ⊎ (le_names t m s n ≡ true)
le_names_total s n t m =
    ground (arith, le_text_total s t, le_text_total n m, eq_text_iff s t, eq_text_iff t s)

le_names_trans :
    (s n t m u k : List ℕ)
    → le_names s n t m ≡ true
    → le_names t m u k ≡ true
    → le_names s n u k ≡ true
le_names_trans s n t m u k h h' = ground (
  arith,
  h,
  h',
  eq_text_iff s t,
  eq_text_iff t u,
  eq_text_iff s u,
  le_text_trans s t u,
  le_text_trans n m k,
  le_text_antisym s t,
)

ranks_before_total : (a b : HubEntry) → (ranks_before a b ≡ true) ⊎ (ranks_before b a ≡ true)
ranks_before_total a b =
    ground (arith, le_names_total (codes a.file) (codes a.name) (codes b.file) (codes b.name))

ranks_before_trans :
    (a b c : HubEntry) → ranks_before a b ≡ true → ranks_before b c ≡ true → ranks_before a c ≡ true
ranks_before_trans a b c h k = ground (
  arith,
  h,
  k,
  le_names_trans (codes a.file) (codes a.name) (codes b.file) (codes b.name) (codes c.file)
      (codes c.name),
)

take-le : {A : Type 0} (n : ℕ) (xs : List A) → length (take n xs) ≤ n
take-le zero xs = omega arith
take-le (suc n) [] = omega arith
take-le (suc n) (x ∷ xs) = omega (arith, take-le n xs)

take-get_elem? :
    {A : Type 0} (n i : ℕ) (xs : List A) → i < n → get_elem? (take n xs) i ≡ get_elem? xs i
take-get_elem? zero i xs h = ground (arith, h)
take-get_elem? (suc n) i [] h = refl
take-get_elem? (suc n) zero (x ∷ xs) h = refl
take-get_elem? (suc n) (suc i) (x ∷ xs) h = take-get_elem? n i xs (omega (arith, h))

position_lem :
    (p : HubEntry → Bool) (hs : List HubEntry) (i : ℕ) (e : HubEntry)
    → position p hs ≡ some (i, e)
    → (get_elem? hs i ≡ some e) × (p e ≡ true) × (i < length hs)
position_lem p [] i e h = ground (arith, h)
position_lem p (x ∷ hs) zero e h = ground (arith, h, position_lem p hs)
position_lem p (x ∷ hs) (suc i) e h = ground (arith, h, position_lem p hs i e)

score-IsSorted :
    (db : GraphDb) (seen : List (Key × (ℕ × ℕ))) (scored : List HubEntry)
    → score db seen ≡ some scored
    → IsSorted ranks_before scored
unfolding score
score-IsSorted db seen scored h = elim (Option-cases (db.query symbols_text)) [
  | inl e ↦ ground (arith, h, e)
  | inr (rs, e) ↦ subst (IsSorted ranks_before) (some-injective (rw (← h) (rw (e, score) refl))) (
      sort_by-IsSorted ranks_before ranks_before_total ranks_before_trans
        (entries (sym_meta rs []) seen))
]
  where
    some-injective : {x y : List HubEntry} → some x ≡ some y → x ≡ y
    some-injective p = ground (arith, p)

ranked-IsSorted :
    (db : GraphDb) (edge_types : HubsEdgeTypes) (scored : List HubEntry)
    → ranked db edge_types ≡ some (some scored)
    → IsSorted ranks_before scored
unfolding ranked
ranked-IsSorted db edge_types scored h = elim (Option-cases (degrees db edge_types)) [
  | inl e ↦ ground (arith, h, e)
  | inr (d, e) ↦ elim (List-cases (seen_of d)) [
    | inl e' ↦ ground (arith, h, e, e')
    | inr (k, ks, e') ↦ elim (Option-cases (score db (k ∷ ks))) [
      | inl e'' ↦ ground (arith, h, e, e', e'')
      | inr (found, e'') ↦ score-IsSorted db (k ∷ ks) scored (e'' ∙ ground (arith, h, e, e', e''))
    ]
  ]
]

hubs-cases :
    (db : GraphDb) (req : HubsRequest) (r : HubsResponse)
    → hubs db req ≡ some r
    → (r ≡ empty_response)
      ⊎ ((scored : List HubEntry) × (ranked db req.edge_types ≡ some (some scored))
          × (r ≡ leaderboard db req scored))
unfolding hubs
hubs-cases db req r h = elim (Option-cases (ranked db req.edge_types)) [
  | inl e ↦ ground (arith, h, e)
  | inr (none, e) ↦ inl (ground (arith, h, e))
  | inr (some scored, e) ↦ inr (scored, e, ground (arith, h, e))
]

-- A leaderboard holds at most 100 symbols, and as many as were asked for, but one at least where none
-- were; each stands before all those with fewer edges, or with as many and fewer that come in, or
-- else with a later file or name.
pub hubs-IsSorted :
    (db : GraphDb) (req : HubsRequest) (r : HubsResponse)
    → req.symbol ≡ none
    → hubs db req ≡ some r
    → IsSorted ranks_before r.hubs
      × (length r.hubs ≤ clamped req.top_n)
      × (length r.hubs ≤ top_n_cap)
unfolding leaderboard top
hubs-IsSorted db req r s h = elim (hubs-cases db req r h) [
  | inl e ↦ rw e (tt, omega arith, omega arith)
  | inr (scored, e, e') ↦
      let n = clamped req.top_n in
      let shown : r.hubs ≡ take n scored = ground (arith, e', s) in
      rw shown (
        take-IsSorted ranks_before n scored (ranked-IsSorted db req.edge_types scored e),
        take-le n scored,
        ground (arith, take-le n scored),
      )
]

look_up_lem :
    (db : GraphDb) (target : String) (file : Option String) (scored : List HubEntry) (rank : ℕ)
    → length scored < 2 ^ 32
    → (look_up db target file scored).meta.target_rank ≡ some rank
    → (i : ℕ) × (e : HubEntry) × (rank ≡ suc i)
      × ((look_up db target file scored).hubs ≡ e ∷ [])
      × (position (is_target target file) scored ≡ some (i, e))
unfolding look_up
look_up_lem db target file scored rank small k = elim (Bool-cases (is_safe_ident target)) [
  | inr b ↦ ground (arith, b, k)
  | inl b ↦ elim (Option-cases (position (is_target target file) scored)) [
    | inl p ↦ ground (arith, b, p, k)
    | inr ((i, e), p) ↦
        let place = position_lem (is_target target file) scored i e p in
        let counted : rank ≡ suc i % 2 ^ 32 = ground (arith, b, p, k) in
        (i, e, omega (arith, counted, place.2, small), ground (arith, b, p), p)
  ]
]

-- A symbol's rank is its place: where the lookup of a symbol finds it at a rank, the leaderboard over the
-- same edges holds it at that place, if it is long enough (and fewer than 2^32 symbols have edges).
pub rank_is_place :
    (db : GraphDb) (lookup board : HubsRequest) (target : String) (scored : List HubEntry)
    (found shown : HubsResponse) (rank : ℕ)
    → lookup.symbol ≡ some target
    → board.symbol ≡ none
    → lookup.edge_types ≡ board.edge_types
    → ranked db board.edge_types ≡ some (some scored)
    → length scored < 2 ^ 32
    → hubs db lookup ≡ some found
    → found.meta.target_rank ≡ some rank
    → hubs db board ≡ some shown
    → rank ≤ clamped board.top_n
    → (i : ℕ) × (e : HubEntry) × (rank ≡ suc i)
      × (found.hubs ≡ e ∷ [])
      × (is_target target lookup.file e ≡ true)
      × (get_elem? shown.hubs i ≡ some e)
unfolding hubs leaderboard top
rank_is_place db lookup board target scored found shown rank s s' same all small f k b le =
    let looked : found ≡ look_up db target lookup.file scored = ground (arith, s, same, all, f) in
    let listed : shown.hubs ≡ take (clamped board.top_n) scored = ground (arith, s', all, b) in
    let (i, e, is, answered, placed) =
      look_up_lem db target lookup.file scored rank small (rw (← looked) k) in
    let (there, matches, _) = position_lem (is_target target lookup.file) scored i e placed in
    (
      i,
      e,
      is,
      rw looked answered,
      matches,
      rw listed (take-get_elem? (clamped board.top_n) i scored (omega (arith, le, is)) ∙ there),
    )
