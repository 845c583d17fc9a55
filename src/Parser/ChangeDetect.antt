-- ===== src/Parser/ChangeDetect.antt =====
-- crates/ga-parser/src/change_detect.rs: the four buckets of a change set. The entries that
-- `walk_repo` reports and the answer of `file_blake3` for a path are arguments. A path is a text; a set
-- or a map of paths compares them by their components.
use graphatlas.Prelude.{
  ℕ, String, str_eq, Option, none, some, Bool, not, if◌then◌else◌, List, [], ◌∷◌, ◌++◌, map, any,
}
use graphatlas.Prelude.Paths.{same_path}

pub record Entry : Type 0 where
  pub rel_path : List ℕ
  pub abs_path : String

pub record ChangeSet : Type 0 where
  pub added : List (List ℕ)
  pub modified : List (List ℕ)
  pub unchanged : List (List ℕ)
  pub deleted : List (List ℕ)

abbrev pub push : List (List ℕ) → List ℕ → List (List ℕ)
push l p = l ++ p ∷ []

unfoldable pub sort_entry : Option String → String → List ℕ → ChangeSet → ChangeSet
sort_entry none current p set = record set { added = push set.added p }
sort_entry (some prev) current p set =
    if str_eq prev current
    then record set { unchanged = push set.unchanged p }
    else record set { modified = push set.modified p }

abbrev pub mem : List ℕ → List (List ℕ) → Bool
mem p l = any (λ q. same_path q p) l

abbrev pub Known : Type 0
Known = List (List ℕ × String)

-- `known.get(path)`.
unfoldable pub known_hash : List ℕ → Known → Option String
known_hash p [] = none
known_hash p ((q, h) ∷ m) = if same_path q p then some h else known_hash p m

abbrev pub empty_set : ChangeSet
empty_set = record { added = []; modified = []; unchanged = []; deleted = [] }

-- The second loop.
unfoldable pub add_deleted : List (List ℕ) → List (List ℕ) → ChangeSet → ChangeSet
add_deleted seen [] set = set
add_deleted seen (p ∷ ps) set =
    add_deleted seen ps
      (if not (mem p seen) then record set { deleted = push set.deleted p } else set)

module _ (file_blake3 : String → Option String) (known : Known) where
  -- The first loop; an unreadable file ends it with an error.
  unfoldable pub classify : List Entry → ChangeSet → Option ChangeSet
  unfolding sort_entry
  classify [] set = some set
  classify (e ∷ es) set = elim (file_blake3 e.abs_path) [
    | none ↦ none
    | some current ↦ classify es (sort_entry (known_hash e.rel_path known) current e.rel_path set)
  ]

  unfoldable pub detect_changed_files : Option (List Entry) → Option ChangeSet
  unfolding classify add_deleted
  detect_changed_files none = none
  detect_changed_files (some es) = elim (classify es empty_set) [
    | none ↦ none
    | some set ↦ some (add_deleted (map (λ e. e.rel_path) es) (map (λ k. k.0) known) set)
  ]
