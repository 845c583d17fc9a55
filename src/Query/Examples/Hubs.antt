-- ===== src/Query/Examples/Hubs.antt =====
-- A graph of two symbols and one call, and two short names, at which the theorems apply.
use graphatlas.Prelude.{
  ℕ, suc, ◌≤◌, String, str_eq, List, [], ◌∷◌, Option, none, some, true, if◌then◌else◌, ◌≡◌, refl,
  arith, get_elem?,
}
use graphatlas.Prelude.Sort.{insert_by, sort_by}
use graphatlas.Query.Impact.{is_safe_ident}
use graphatlas.Query.Distance.{levenshtein}
use graphatlas.Query.Distance.Edits.{Edits, unchanged, removed, kept}
use graphatlas.Query.Distance.Rows.{levenshtein-Edits}
use graphatlas.Query.Degrees.{
  Column, text, int64, GraphDb, all_edges, target_text, source_text, degrees,
}
use graphatlas.Query.Hubs.{
  HubEntry, HubsResponse, HubsRequest, symbols_text, is_target, look_up, leaderboard, score, ranked,
  hubs,
}
use graphatlas.Query.Hubs.Rank.{rank_is_place}

-- "ab" and "b".
script : Edits (97 ∷ 98 ∷ []) (98 ∷ []) 1
script = removed 97 (kept 98 unchanged)

levenshtein-Edits_example :
    Edits (97 ∷ 98 ∷ []) (98 ∷ []) (levenshtein (97 ∷ 98 ∷ []) (98 ∷ []))
    × (levenshtein (97 ∷ 98 ∷ []) (98 ∷ []) ≤ 1)
levenshtein-Edits_example = levenshtein-Edits (97 ∷ 98 ∷ []) (98 ∷ []) 1 (omega arith) script

-- `main` of m.py calls `save` of db.py.
abbrev answers : String → Option (List (List Column))
answers q =
    if str_eq q (target_text "CALLS")
    then some ((text "save" ∷ text "db.py" ∷ []) ∷ [])
    else if str_eq q (source_text "CALLS")
    then some ((text "main" ∷ text "m.py" ∷ []) ∷ [])
    else if str_eq q symbols_text
    then some (
        (text "main" ∷ text "m.py" ∷ text "function" ∷ int64 3 ∷ [])
        ∷ (text "save" ∷ text "db.py" ∷ text "function" ∷ int64 8 ∷ [])
        ∷ [])
    else some []

abbrev db : GraphDb
db = record { connects = true; query = answers }

abbrev board : HubsRequest
board = record { top_n = 10; symbol = none; file = none; edge_types = all_edges }

abbrev lookup : HubsRequest
lookup = record { top_n = 10; symbol = some "main"; file = none; edge_types = all_edges }

abbrev save : HubEntry
save = record {
  name = "save";
  file = "db.py";
  kind = "function";
  line = 8;
  in_degree = 1;
  out_degree = 0;
  total_degree = 1;
}

abbrev main : HubEntry
main = record {
  name = "main";
  file = "m.py";
  kind = "function";
  line = 3;
  in_degree = 0;
  out_degree = 1;
  total_degree = 1;
}

abbrev scored : List HubEntry
scored = save ∷ main ∷ []

scores : ranked db all_edges ≡ some (some scored)
unfolding ranked score degrees is_safe_ident sort_by insert_by
scores = refl

abbrev shown : HubsResponse
shown = leaderboard db board scored

abbrev found : HubsResponse
found = leaderboard db lookup scored

shows : hubs db board ≡ some shown
unfolding hubs ranked score degrees is_safe_ident sort_by insert_by
shows = refl

finds : hubs db lookup ≡ some found
unfolding hubs ranked score degrees is_safe_ident sort_by insert_by
finds = refl

abbrev second : ℕ
second = 2

ranks_second : found.meta.target_rank ≡ some second
unfolding leaderboard look_up is_safe_ident
ranks_second = refl

rank_is_place_example :
    (i : ℕ) × (e : HubEntry) × (second ≡ suc i)
    × (found.hubs ≡ e ∷ [])
    × (is_target "main" lookup.file e ≡ true)
    × (get_elem? shown.hubs i ≡ some e)
rank_is_place_example =
    rank_is_place db lookup board "main" scored found shown second refl refl refl scores
      (omega arith) finds ranks_second shows (omega arith)
