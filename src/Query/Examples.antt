-- ===== src/Query/Examples.antt =====
-- A search over a database of two symbols, and a diff, at which the theorems apply.
mod Hubs
mod Incremental
mod Bridges
mod Impact
mod Seed
use graphatlas.Prelude.{
  ℕ, String, str_eq, List, [], ◌∷◌, ◌++◌, Option, some, true, if◌then◌else◌, ◌≡◌, refl,
}
use graphatlas.Prelude.Assoc.{get, insert}
use graphatlas.Prelude.Text.{codes}
use graphatlas.Query.Impact.{
  Database, string, seed, caller, ImpactedFile, Row, def_files_text, incoming_text, is_safe_ident,
  upsert_impacted, insert_absent, discover, edge, edges, query_def_files, query_incoming,
  query_outgoing, add_sibling_method_files, visit_callees, visit, expand, depths, search,
  bfs_from_symbol,
}
use graphatlas.Query.Impact.Answer.{IsAnswer, bfs_from_symbol-IsAnswer}

-- `main` of main.py calls `save` of db.py.
abbrev rows : String → Option (List Row)
rows q =
    if str_eq q (def_files_text "save")
    then some ((string "db.py" ∷ []) ∷ [])
    else if str_eq q (incoming_text "CALLS" "save")
    then some ((string "main" ∷ string "main.py" ∷ []) ∷ [])
    else some []

abbrev database : Database
database = record { connects = true; query = rows }

abbrev answer : List ImpactedFile × ℕ × List String
answer = (
  record { path = "db.py"; depth = 0; reason = seed }
      ∷ record { path = "main.py"; depth = 1; reason = caller }
      ∷ [],
  1,
  "main" ∷ "save" ∷ [],
)

finds : bfs_from_symbol database "save" 3 ≡ some answer
unfolding bfs_from_symbol query_def_files search depths expand visit visit_callees query_incoming
    query_outgoing edges edge discover upsert_impacted insert_absent add_sibling_method_files
    is_safe_ident get insert
finds = refl

bfs_from_symbol-IsAnswer_example : IsAnswer database "save" 3 answer
bfs_from_symbol-IsAnswer_example = bfs_from_symbol-IsAnswer database "save" 3 answer finds

-- A diff of one file.
abbrev diff : List ℕ
diff = codes "--- a/x.py\tnow\n+++ b/x.py\n@@ -1 +1 @@\n-x\n+y\n"
