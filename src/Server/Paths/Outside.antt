-- ===== src/Server/Paths/Outside.antt =====
-- crates/ga-server/src/paths.rs, with crates/ga-server/src/handlers/projects.rs: what is known of a
-- path that is not rejected.
use graphatlas.Prelude.{
  ℕ, ◌≡◌, ◌≢◌, refl, subst, ◌⊎◌, inl, inr, arith, Option, none, some, true, false, ◌&&◌, Bool-cases,
  Option-cases, List-cases, List, [], ◌∷◌, ◌++◌, any, All, String,
}
use graphatlas.Prelude.Text.{codes, eq_text, eq_text_iff, starts_with}
use graphatlas.Prelude.Paths.{components}
use graphatlas.Server.Handlers.{PathRejection, bad_path, ServerEnv, AddMode, AppState, add_project}
use graphatlas.Server.Paths.{
  DirEntry, Os, Validated, valid, rejected, is_parent_dir, trim_end_matches, trimmed,
  path_starts_with_case_insensitive, leads_outside, check_entries, check_links, cache_canonical,
  check_directory, validate_repo_path, rejection_of, rejection,
}

-- Nothing is trimmed off the end of the text.
abbrev pub IsTrimmed : List ℕ → Type 0
IsTrimmed s = (trim_end_matches 47 s ≡ s) × (trim_end_matches 92 s ≡ s)

trim_all :
    (c : ℕ) (a r : List ℕ)
    → trim_end_matches c r ≡ []
    → trim_end_matches c (a ++ r) ≡ trim_end_matches c a
unfolding trim_end_matches
trim_all c [] r e = e
trim_all c (x ∷ a) r e = rw (trim_all c a r e) refl

trim_part :
    (c : ℕ) (a r : List ℕ) (y : ℕ) (ys : List ℕ)
    → trim_end_matches c r ≡ y ∷ ys
    → trim_end_matches c (a ++ r) ≡ a ++ (y ∷ ys)
unfolding trim_end_matches
trim_part c [] r y ys e = e
trim_part c (x ∷ []) r y ys e = rw e (ground arith)
trim_part c (x ∷ (z ∷ a)) r y ys e = rw (trim_part c (z ∷ a) r y ys e) (ground arith)

starts_with-append : (a r t : List ℕ) → starts_with (a ++ r) (a ++ (r ++ t)) ≡ true
starts_with-append [] [] t = refl
starts_with-append [] (x ∷ r) t = ground (arith, starts_with-append [] r t)
starts_with-append (x ∷ a) r t = ground (arith, starts_with-append a r t)

eq_text_self : (s : List ℕ) → eq_text s s ≡ true
eq_text_self s = (eq_text_iff s s).1 refl

-- The text is that of the directory or goes on after it with a slash.
abbrev pub Within : List ℕ → List ℕ → Type 0
Within dir s = (s ≡ dir) ⊎ ((rest : List ℕ) × (s ≡ dir ++ (47 ∷ rest)))

trimmed_self : (s : List ℕ) → IsTrimmed s → trimmed s ≡ s
trimmed_self s (slash, back) = rw slash back

first_kept :
    (rest : List ℕ) (x : ℕ) (xs : List ℕ)
    → trim_end_matches 47 (47 ∷ rest) ≡ x ∷ xs
    → trim_end_matches 92 (x ∷ xs) ≡ 47 ∷ trim_end_matches 92 xs
unfolding trim_end_matches
first_kept rest x xs e = ground (arith, e)

-- Trimming leaves the directory as it is, or more after the slash.
trimmed_within :
    (dir rest : List ℕ)
    → IsTrimmed dir
    → (trimmed (dir ++ (47 ∷ rest)) ≡ dir)
      ⊎ ((more : List ℕ) × (trimmed (dir ++ (47 ∷ rest)) ≡ dir ++ (47 ∷ more)))
trimmed_within dir rest t = elim (List-cases (trim_end_matches 47 (47 ∷ rest))) [
  | inl e ↦ inl (rw (trim_all 47 dir (47 ∷ rest) e) (trimmed_self dir t))
  | inr (x, xs, e) ↦ inr (
    trim_end_matches 92 xs,
    rw (trim_part 47 dir (47 ∷ rest) x xs e)
        (trim_part 92 dir (x ∷ xs) 47 (trim_end_matches 92 xs) (first_kept rest x xs e)),
  )
]

-- The test finds what lies within.
within_found :
    (os : Os) (needle anchor : List ℕ)
    → IsTrimmed (os.to_lowercase anchor)
    → Within (os.to_lowercase anchor) (os.to_lowercase needle)
    → path_starts_with_case_insensitive os needle anchor ≡ true
unfolding path_starts_with_case_insensitive
within_found os needle anchor t (inl e) =
    rw (e, trimmed_self _ t) (ground (arith, eq_text_self (os.to_lowercase anchor)))
within_found os needle anchor t (inr (rest, e)) =
    rw (e, trimmed_self _ t)
      elim (trimmed_within (os.to_lowercase anchor) rest t) [
        | inl same ↦ rw same (ground (arith, eq_text_self (os.to_lowercase anchor)))
        | inr (more, longer) ↦
            rw longer (ground (arith, starts_with-append (os.to_lowercase anchor) (47 ∷ []) more))
      ]

-- What is known of a directory that may be added.
pub record IsRepoPath (os : Os) (cache_root input canonical : List ℕ) : Type 0 where
  pub climbs_not : any is_parent_dir (components input) ≡ false
  pub found : os.canonicalize input ≡ some canonical
  pub directory : os.is_dir canonical ≡ some true
  pub outside :
      ¬ Within (os.to_lowercase (cache_canonical os cache_root)) (os.to_lowercase canonical)
  pub links_inside :
      (es : List DirEntry)
      → os.read_dir canonical ≡ some es
      → All (λ e. (e.is_symlink && leads_outside os canonical e) ≡ false) es

check_entries-valid :
    (os : Os) (canonical c : List ℕ) (es : List DirEntry)
    → check_entries os canonical es ≡ valid c
    → (canonical ≡ c) × All (λ e. (e.is_symlink && leads_outside os canonical e) ≡ false) es
check_entries-valid os canonical c [] h = (ground (arith, h), tt)
check_entries-valid os canonical c (e ∷ es) h =
    elim (Bool-cases (e.is_symlink && leads_outside os canonical e)) [
      | inl out ↦ absurd (ground (arith, out, h))
      | inr inside ↦
          let (same, rest) = check_entries-valid os canonical c es (ground (arith, inside, h)) in
          (same, (inside, rest))
    ]

check_links-valid :
    (os : Os) (canonical c : List ℕ) (found : Option (List DirEntry))
    → check_links os canonical found ≡ valid c
    → (canonical ≡ c)
      × ((es : List DirEntry)
          → found ≡ some es
          → All (λ e. (e.is_symlink && leads_outside os canonical e) ≡ false) es)
check_links-valid os canonical c none h = (ground (arith, h), λ es e. absurd (ground (arith, e)))
check_links-valid os canonical c (some found) h =
    let (same, all) = check_entries-valid os canonical c found h in
    (same, λ es e. subst (All _) (ground (arith, e)) all)

-- A path is accepted only if it does not climb with `..`, leads to an existing directory that is
-- neither the cache directory nor inside it, in whatever case either is written, and no symbolic link
-- of the directory itself leads outside. The cache directory's text is one that ends in no slash.
pub validate_repo_path-IsRepoPath :
    (os : Os) (input cache_root canonical : List ℕ)
    → IsTrimmed (os.to_lowercase (cache_canonical os cache_root))
    → validate_repo_path os input cache_root ≡ valid canonical
    → IsRepoPath os cache_root input canonical
unfolding validate_repo_path
validate_repo_path-IsRepoPath os input cache_root canonical t h =
    elim (Bool-cases (any is_parent_dir (components input))) [
      | inl up ↦ absurd (ground (arith, up, h))
      | inr stays ↦ elim (Option-cases (os.canonicalize input)) [
        | inl gone ↦ absurd (ground (arith, stays, gone, h))
        | inr (c, found) ↦
            let h1 : check_directory os cache_root c ≡ valid canonical =
              ground (arith, stays, found, h) in
            elim (Bool-cases
              (path_starts_with_case_insensitive os c (cache_canonical os cache_root))) [
                | inl inside ↦ absurd (ground (arith, inside, h1))
                | inr out ↦
                    let (same, links) =
                      check_links-valid os c canonical (os.read_dir c) (ground (arith, out, h1)) in
                    rw (← same) record {
                      climbs_not = stays;
                      found = found;
                      directory = ground (arith, h1);
                      outside = λ w.
                          ground
                            (arith, out, within_found os c (cache_canonical os cache_root) t w);
                      links_inside = links;
                    }
              ]
      ]
    ]

Validated-cases :
    (v : Validated)
    → ((c : List ℕ) × (v ≡ valid c)) ⊎ ((r : PathRejection) × (rejection_of v ≡ some r))
Validated-cases (valid c) = inl (c, refl)
Validated-cases (rejected r) = inr (r, refl)

-- Where the server validates paths with the operating system's answers, a request to add a project
-- that it does not answer with a rejected path is for such a directory.
pub add_project-IsRepoPath :
    {F : Type 0} (os : Os) (cache_root : List ℕ) (env : ServerEnv) (zero_percent : F)
    (mode : AddMode) (path slug : String) (s : AppState F)
    → IsTrimmed (os.to_lowercase (cache_canonical os cache_root))
    → env.validate_repo_path path ≡ rejection os cache_root path
    → ((r : PathRejection) → (add_project env zero_percent mode path slug s).0 ≢ bad_path r)
    → (canonical : List ℕ) × IsRepoPath os cache_root (codes path) canonical
unfolding rejection add_project
add_project-IsRepoPath os cache_root env zero_percent mode path slug s t v h =
    elim (Validated-cases (validate_repo_path os (codes path) cache_root)) [
      | inl (c, is) ↦ (c, validate_repo_path-IsRepoPath os (codes path) cache_root c t is)
      | inr (r, is) ↦ absurd (h r (rw (v, is, add_project) refl))
    ]
