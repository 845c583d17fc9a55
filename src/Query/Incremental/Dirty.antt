-- ===== src/Query/Incremental/Dirty.antt =====
-- crates/ga-query/src/incremental.rs: which paths are dirty.
use graphatlas.Prelude.{
  ℕ, ◌≡◌, refl, ◌↔◌, ◌⊎◌, arith, some, Bool, true, false, not, ◌&&◌, ◌||◌, if-cases, List, [], ◌∷◌,
  any, All,
}
use graphatlas.Prelude.Paths.{same_path, le_path, same_path_iff, le_path_total, le_path_trans}
use graphatlas.Prelude.Sort.{
  sort_by, IsSorted, any-sort_by, sort_by-IsSorted, sort_by-Pairwise, IsSorted-both,
}
use graphatlas.Query.Incremental.{
  ok, Graph, Walked, Tree, Snapshot, normalize_relpath, snapshot_all_indexed_sha256, has_path,
  add_path, is_changed, changed_files, on_disk, add_missing, dirty_of, dirty_paths,
}

abbrev pub unlike : List ℕ → List ℕ → Bool
unlike p q = not (same_path p q)

-- Strictly in the order of paths.
abbrev pub ascends : List ℕ → List ℕ → Bool
ascends p q = le_path p q && unlike p q

pub has_path-same :
    (p q : List ℕ) (l : List (List ℕ)) → same_path p q ≡ true → has_path p l ≡ has_path q l
has_path-same p q [] e = refl
has_path-same p q (x ∷ l) e =
    ground
      (arith, has_path-same p q l e, same_path_iff p q, same_path_iff x p, same_path_iff x q, e)

pub has_path-add_path :
    (p q : List ℕ) (l : List (List ℕ)) → has_path p (add_path q l) ≡ (same_path q p || has_path p l)
unfolding add_path
has_path-add_path p q l =
    if-cases (λ m. has_path p m ≡ (same_path q p || has_path p l)) (has_path q l)
      (λ e. ground (arith, e, has_path-same q p l)) λ e. refl

lone : (p : List ℕ) (l : List (List ℕ)) → has_path p l ≡ false → All (λ q. unlike p q ≡ true) l
lone p [] e = tt
lone p (q ∷ l) e =
    (ground (arith, e, same_path_iff p q, same_path_iff q p), lone p l (ground (arith, e)))

pub add_path-IsSorted :
    (p : List ℕ) (l : List (List ℕ)) → IsSorted unlike l → IsSorted unlike (add_path p l)
unfolding add_path
add_path-IsSorted p l s = if-cases (IsSorted unlike) (has_path p l) (λ e. s) λ e. (lone p l e, s)

unlike_sym : (p q : List ℕ) → unlike p q ≡ true → unlike q p ≡ true
unlike_sym p q h = ground (arith, h, same_path_iff p q, same_path_iff q p)

pub sort_by-ascends : (l : List (List ℕ)) → IsSorted unlike l → IsSorted ascends (sort_by le_path l)
sort_by-ascends l s =
    IsSorted-both le_path unlike (sort_by le_path l)
      (sort_by-IsSorted le_path le_path_total le_path_trans l)
      (sort_by-Pairwise unlike le_path unlike_sym l s)

pub sort_by-unlike : (l : List (List ℕ)) → IsSorted unlike l → IsSorted unlike (sort_by le_path l)
sort_by-unlike = sort_by-Pairwise unlike le_path unlike_sym

-- Some walked file has the path.
abbrev pub is_walked : List ℕ → List Walked → Bool
is_walked p ws = any (λ w. same_path (normalize_relpath w.rel_path) p) ws

-- Some walked file with the path can be read, and its hash is not the recorded one.
abbrev pub has_changed : (List ℕ → List ℕ) → Snapshot → List ℕ → List Walked → Bool
has_changed hash snap p ws =
    any (λ w. same_path (normalize_relpath w.rel_path) p && is_changed hash snap w) ws

has_path-changed_files :
    (hash : List ℕ → List ℕ) (snap : Snapshot) (p : List ℕ) (ws : List Walked) (l : List (List ℕ))
    → has_path p (changed_files hash snap ws l) ≡ (has_changed hash snap p ws || has_path p l)
unfolding changed_files
has_path-changed_files hash snap p [] l = refl
has_path-changed_files hash snap p (w ∷ ws) l =
    let q = normalize_relpath w.rel_path in
    if-cases
      (λ l'.
        has_path p (changed_files hash snap ws l')
        ≡ (same_path q p && is_changed hash snap w || has_changed hash snap p ws || has_path p l))
      (is_changed hash snap w)
      (λ e.
        ground
          (arith, e, has_path-changed_files hash snap p ws (add_path q l), has_path-add_path p q l))
      λ e. ground (arith, e, has_path-changed_files hash snap p ws l)

has_path-on_disk :
    (p : List ℕ) (ws : List Walked) (l : List (List ℕ))
    → has_path p (on_disk ws l) ≡ (is_walked p ws || has_path p l)
unfolding on_disk
has_path-on_disk p [] l = refl
has_path-on_disk p (w ∷ ws) l =
    let q = normalize_relpath w.rel_path in
    ground (arith, has_path-on_disk p ws (add_path q l), has_path-add_path p q l)

abbrev pub is_recorded : List ℕ → Snapshot → Bool
is_recorded p m = any (λ e. same_path e.0 p) m

has_path-add_missing :
    (p : List ℕ) (disk : List (List ℕ)) (m : Snapshot) (l : List (List ℕ))
    → has_path p (add_missing disk m l) ≡ (is_recorded p m && not (has_path p disk) || has_path p l)
unfolding add_missing
has_path-add_missing p disk [] l = refl
has_path-add_missing p disk ((q, h) ∷ m) l =
    if-cases
      (λ l'.
        has_path p (add_missing disk m l')
        ≡ ((same_path q p || is_recorded p m) && not (has_path p disk) || has_path p l))
      (has_path q disk)
      (λ e. ground (arith, e, has_path-add_missing p disk m l, has_path-same q p disk))
      λ e. ground (
        arith,
        e,
        has_path-add_missing p disk m (add_path q l),
        has_path-same q p disk,
        has_path-add_path p q l,
      )

changed_files-IsSorted :
    (hash : List ℕ → List ℕ) (snap : Snapshot) (ws : List Walked) (l : List (List ℕ))
    → IsSorted unlike l
    → IsSorted unlike (changed_files hash snap ws l)
unfolding changed_files
changed_files-IsSorted hash snap [] l s = s
changed_files-IsSorted hash snap (w ∷ ws) l s = changed_files-IsSorted hash snap ws _ (
    if-cases (IsSorted unlike) (is_changed hash snap w)
      (λ e. add_path-IsSorted (normalize_relpath w.rel_path) l s) λ e. s)

add_missing-IsSorted :
    (disk : List (List ℕ)) (m : Snapshot) (l : List (List ℕ))
    → IsSorted unlike l
    → IsSorted unlike (add_missing disk m l)
unfolding add_missing
add_missing-IsSorted disk [] l s = s
add_missing-IsSorted disk ((p, h) ∷ m) l s =
    add_missing-IsSorted disk m _
      (if-cases (IsSorted unlike) (has_path p disk) (λ e. s) λ e. add_path-IsSorted p l s)

has_path-dirty_of :
    (hash : List ℕ → List ℕ) (snap : Snapshot) (ws : List Walked) (p : List ℕ)
    → has_path p (dirty_of hash snap ws)
      ≡ (has_changed hash snap p ws || (is_recorded p snap && not (is_walked p ws)))
has_path-dirty_of hash snap ws p = ground (
  arith,
  any-sort_by (λ q. same_path q p) le_path
      (add_missing (on_disk ws []) snap (changed_files hash snap ws [])),
  has_path-add_missing p (on_disk ws []) snap (changed_files hash snap ws []),
  has_path-changed_files hash snap p ws [],
  has_path-on_disk p ws [],
)

missing_unlike :
    (hash : List ℕ → List ℕ) (snap : Snapshot) (ws : List Walked)
    → IsSorted unlike (add_missing (on_disk ws []) snap (changed_files hash snap ws []))
missing_unlike hash snap ws =
    add_missing-IsSorted (on_disk ws []) snap (changed_files hash snap ws [])
      (changed_files-IsSorted hash snap ws [] tt)

pub dirty_of-IsSorted :
    (hash : List ℕ → List ℕ) (snap : Snapshot) (ws : List Walked)
    → IsSorted unlike (dirty_of hash snap ws)
dirty_of-IsSorted hash snap ws = sort_by-unlike _ (missing_unlike hash snap ws)

-- Where the snapshot and the walk succeed, so does `dirty_paths`. It lists exactly the paths of which
-- a walked file can be read and hashes differently than recorded, or for which nothing is recorded,
-- and those that are recorded and not walked, each once and in the order of paths.
pub dirty_paths_iff :
    (g : Graph) (t : Tree) (snap : Snapshot) (ws : List Walked)
    → snapshot_all_indexed_sha256 g ≡ ok snap
    → t.entries ≡ some ws
    → (out : List (List ℕ)) × (dirty_paths g t ≡ ok out)
      × IsSorted ascends out
      × ((p : List ℕ)
          → (has_path p out ≡ true) ↔ (
              (has_changed t.blake3 snap p ws ≡ true)
              ⊎ ((is_recorded p snap ≡ true) × (is_walked p ws ≡ false))))
unfolding dirty_paths
dirty_paths_iff g t snap ws e w = (
  dirty_of t.blake3 snap ws,
  rw (e, w) refl,
  sort_by-ascends _ (missing_unlike t.blake3 snap ws),
  λ p. ground (arith, has_path-dirty_of t.blake3 snap ws p),
)
