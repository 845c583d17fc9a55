-- ===== src/Parser/Buckets.antt =====
-- Each path of the change detection lands in the right bucket.
use graphatlas.Prelude.{
  ℕ, suc, ◌+◌, String, str_eq, Option, none, some, Bool, true, false, not, ◌&&◌, if◌then◌else◌,
  List, [], ◌∷◌, map, ◌≡◌, refl, ap, ◌∙◌, subst, arith, Bool-cases, Option-cases, inl, inr,
}
use mathlib.Core.Option.{some-injective}
use graphatlas.Prelude.Paths.{same_path, same_path_iff}
use graphatlas.Parser.ChangeDetect.{
  Entry, ChangeSet, push, sort_entry, mem, Known, known_hash, classify, add_deleted, empty_set,
  detect_changed_files,
}

-- How often the path occurs.
abbrev pub count : List ℕ → List (List ℕ) → ℕ
count p [] = 0
count p (q ∷ l) = if same_path q p then suc (count p l) else count p l

-- How many entries of the path pass a test.
abbrev pub tally : List ℕ → (Entry → Bool) → List Entry → ℕ
tally p test [] = 0
tally p test (e ∷ es) =
    let rest = tally p test es in if same_path e.rel_path p && test e then suc rest else rest

abbrev pub is_known : Option String → Bool
is_known none = false
is_known (some h) = true

abbrev pub hashes_agree : Option String → Option String → Bool
hashes_agree (some g) (some h) = str_eq g h
hashes_agree (some g) none = false
hashes_agree none h = false

abbrev pub walked : List Entry → List (List ℕ)
walked es = map (λ e. e.rel_path) es

abbrev pub keys : Known → List (List ℕ)
keys m = map (λ k. k.0) m

count-push : (p q : List ℕ) (l : List (List ℕ)) → count p (push l q) ≡ count p l + count p (q ∷ [])
count-push p q [] = ground arith
count-push p q (x ∷ l) = ground (arith, count-push p q l)

mem-same : (p q : List ℕ) (l : List (List ℕ)) → same_path q p ≡ true → mem q l ≡ mem p l
mem-same p q [] e = refl
mem-same p q (x ∷ l) e =
    ground (arith, mem-same p q l e, same_path_iff q p, same_path_iff x p, same_path_iff x q, e)

deleted-add_deleted :
    (p : List ℕ) (seen ps : List (List ℕ)) (set : ChangeSet)
    → count p (add_deleted seen ps set).deleted
      ≡ count p set.deleted + (if mem p seen then 0 else count p ps)
unfolding add_deleted
deleted-add_deleted p seen [] set = ground arith
deleted-add_deleted p seen (q ∷ ps) set = elim (Bool-cases (mem q seen)) [
  | inl e ↦
      rw (e, add_deleted) (ground (arith, e, deleted-add_deleted p seen ps set, mem-same p q seen))
  | inr e ↦
      rw (e, add_deleted)
        (ground (
          arith,
          e,
          deleted-add_deleted p seen ps (record set { deleted = push set.deleted q }),
          mem-same p q seen,
          count-push p q set.deleted,
        ))
]

-- The second loop leaves the other buckets alone.
record IsSameBut (set set' : ChangeSet) : Type 0 where
  same_added : set'.added ≡ set.added
  same_modified : set'.modified ≡ set.modified
  same_unchanged : set'.unchanged ≡ set.unchanged

add_deleted-IsSameBut :
    (seen ps : List (List ℕ)) (set : ChangeSet) → IsSameBut set (add_deleted seen ps set)
unfolding add_deleted
add_deleted-IsSameBut seen [] set = record {
  same_added = refl;
  same_modified = refl;
  same_unchanged = refl;
}
add_deleted-IsSameBut seen (q ∷ ps) set = elim (Bool-cases (mem q seen)) [
  | inl e ↦ rw (e, add_deleted) (add_deleted-IsSameBut seen ps set)
  | inr e ↦
      let later = add_deleted-IsSameBut seen ps (record set { deleted = push set.deleted q }) in
      rw (e, add_deleted)
        (record {
          same_added = later.same_added;
          same_modified = later.same_modified;
          same_unchanged = later.same_unchanged;
        })
]

module _ (file_blake3 : String → Option String) (known : Known) where
  abbrev pub is_added : Entry → Bool
  is_added e = not (is_known (known_hash e.rel_path known))

  abbrev pub is_unchanged : Entry → Bool
  is_unchanged e = hashes_agree (known_hash e.rel_path known) (file_blake3 e.abs_path)

  abbrev pub is_modified : Entry → Bool
  is_modified e = is_known (known_hash e.rel_path known) && not (is_unchanged e)

  -- What the first loop adds for a path.
  record Grows (p : List ℕ) (es : List Entry) (set set' : ChangeSet) : Type 0 where
    more_added : count p set'.added ≡ count p set.added + tally p is_added es
    more_modified : count p set'.modified ≡ count p set.modified + tally p is_modified es
    more_unchanged : count p set'.unchanged ≡ count p set.unchanged + tally p is_unchanged es
    same_deleted : set'.deleted ≡ set.deleted

  sort_entry-Grows :
      (p : List ℕ) (e : Entry) (c : String) (set : ChangeSet)
      → file_blake3 e.abs_path ≡ some c
      → Grows p (e ∷ []) set (sort_entry (known_hash e.rel_path known) c e.rel_path set)
  unfolding sort_entry
  sort_entry-Grows p e c set read = elim (Option-cases (known_hash e.rel_path known)) [
    | inl r ↦
        rw (r, sort_entry)
          (record {
            more_added = ground (arith, r, count-push p e.rel_path set.added);
            more_modified = ground (arith, r);
            more_unchanged = ground (arith, r);
            same_deleted = refl;
          })
    | inr (prev, r) ↦ elim (Bool-cases (str_eq prev c)) [
      | inl h ↦
          rw (r, sort_entry, h)
            (record {
              more_added = ground (arith, r);
              more_modified = ground (arith, r, read, h);
              more_unchanged = ground (arith, r, read, h, count-push p e.rel_path set.unchanged);
              same_deleted = refl;
            })
      | inr h ↦
          rw (r, sort_entry, h)
            (record {
              more_added = ground (arith, r);
              more_modified = ground (arith, r, read, h, count-push p e.rel_path set.modified);
              more_unchanged = ground (arith, r, read, h);
              same_deleted = refl;
            })
    ]
  ]

  classify-Grows :
      (p : List ℕ) (es : List Entry) (set set' : ChangeSet)
      → classify file_blake3 known es set ≡ some set'
      → Grows p es set set'
  unfolding classify
  classify-Grows p [] set set' h = subst (Grows p [] set) (some-injective _ _ h) (record {
    more_added = omega arith;
    more_modified = omega arith;
    more_unchanged = omega arith;
    same_deleted = refl;
  })
  classify-Grows p (e ∷ es) set set' h = elim (Option-cases (file_blake3 e.abs_path)) [
    | inl none_read ↦ cc
    | inr (c, read) ↦
        let next = sort_entry (known_hash e.rel_path known) c e.rel_path set in
        let one = sort_entry-Grows p e c set read in
        let rest = classify-Grows p es next set' (rw (read, classify) at h) in
        record {
          more_added = ground (arith, one.more_added, rest.more_added);
          more_modified = ground (arith, one.more_modified, rest.more_modified);
          more_unchanged = ground (arith, one.more_unchanged, rest.more_unchanged);
          same_deleted = rest.same_deleted ∙ one.same_deleted;
        }
  ]

  -- How often a path stands in each bucket.
  pub record IsClassified (p : List ℕ) (es : List Entry) (set : ChangeSet) : Type 0 where
    pub added : count p set.added ≡ tally p is_added es
    pub modified : count p set.modified ≡ tally p is_modified es
    pub unchanged : count p set.unchanged ≡ tally p is_unchanged es
    pub deleted : count p set.deleted ≡ (if mem p (walked es) then 0 else count p (keys known))

  -- Where the detection succeeds, each path stands in the bucket that its entries belong to, as often as
  -- they were walked: those without a recorded hash in `added`, those whose hash is the recorded one in
  -- `unchanged`, and those with another one in `modified`. A known path stands in `deleted` just when
  -- it was not walked. Paths are the same that have the same components.
  pub detect_changed_files-IsClassified :
      (es : List Entry) (set : ChangeSet)
      → detect_changed_files file_blake3 known (some es) ≡ some set
      → (p : List ℕ) → IsClassified p es set
  unfolding detect_changed_files
  detect_changed_files-IsClassified es set h p =
      elim (Option-cases (classify file_blake3 known es empty_set)) [
        | inl e ↦ absurd (failed e)
        | inr (set', e) ↦
            let grown = classify-Grows p es empty_set set' e in
            let left = add_deleted-IsSameBut (walked es) (keys known) set' in
            subst (IsClassified p es) (some-injective _ _ (rw (e, detect_changed_files) at h))
              (record {
                added = omega (arith, ap (count p) left.same_added, grown.more_added);
                modified = omega (arith, ap (count p) left.same_modified, grown.more_modified);
                unchanged = omega (arith, ap (count p) left.same_unchanged, grown.more_unchanged);
                deleted = omega (
                  arith,
                  deleted-add_deleted p (walked es) (keys known) set',
                  ap (count p) grown.same_deleted,
                );
              })
      ]
    where
      failed : classify file_blake3 known es empty_set ≡ none → ⊥
      failed e = cc
