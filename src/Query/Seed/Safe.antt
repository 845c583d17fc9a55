-- ===== src/Query/Seed/Safe.antt =====
-- What a seed can do to the database, and that its resolution never panics.
use graphatlas.Prelude.{
  ℕ, String, List, Option, none, some, true, ◌≡◌, inl, inr, arith, Option-cases,
}
use graphatlas.Prelude.Chars.{of_codes}
use graphatlas.Query.Impact.{is_safe_ident}
use graphatlas.Query.Degrees.{GraphDb}
use graphatlas.Query.Seed.{
  split_qualified, contains_text, fallback_text, all_names_text, find_nearest_symbol_names,
  fallback, find_contained, resolve_parts, resolve_seed,
}

-- Two databases answer alike to what is built from safe identifiers.
pub record Agree (d e : GraphDb) : Type 0 where
  pub connection : d.connects ≡ e.connects
  pub containing :
      (a b : String)
      → is_safe_ident a ≡ true
      → is_safe_ident b ≡ true
      → d.query (contains_text a b) ≡ e.query (contains_text a b)
  pub defining :
      (b : String) → is_safe_ident b ≡ true → d.query (fallback_text b) ≡ e.query (fallback_text b)
  pub naming : d.query all_names_text ≡ e.query all_names_text

module _ (d e : GraphDb) (alike : Agree d e) where
  nearest_agree :
      (target : List ℕ) (k : ℕ)
      → find_nearest_symbol_names d target k ≡ find_nearest_symbol_names e target k
  unfolding find_nearest_symbol_names
  nearest_agree target k = rw (alike.naming, find_nearest_symbol_names)

  fallback_agree :
      (method : List ℕ) (hint : Option String)
      → is_safe_ident (of_codes method) ≡ true
      → fallback d method hint ≡ fallback e method hint
  unfolding fallback
  fallback_agree method none safe = rw (nearest_agree method 3)
  fallback_agree method (some hint) safe =
      ground (arith, alike.defining (of_codes method) safe, nearest_agree method 3)

  find_contained_agree :
      (enclosing method : List ℕ) (hint : Option String)
      → is_safe_ident (of_codes enclosing) ≡ true
      → is_safe_ident (of_codes method) ≡ true
      → find_contained d enclosing method hint ≡ find_contained e enclosing method hint
  unfolding find_contained
  find_contained_agree enclosing method hint p q = ground (
    arith,
    alike.connection,
    alike.containing (of_codes enclosing) (of_codes method) p q,
    fallback_agree method hint q,
  )

  resolve_parts_agree :
      (enclosing method : List ℕ) (hint : Option String)
      → resolve_parts d enclosing method hint ≡ resolve_parts e enclosing method hint
  unfolding resolve_parts
  resolve_parts_agree enclosing method hint =
      ground (arith, find_contained_agree enclosing method hint)

  -- No text of a request reaches the database but in a name that is a safe identifier: two databases
  -- that answer alike to the queries built from such names give the same resolution of every seed,
  -- whatever they answer to any other text.
  pub resolve_seed_agree :
      (raw : List ℕ) (hint : Option String) → resolve_seed d raw hint ≡ resolve_seed e raw hint
  unfolding resolve_seed
  resolve_seed_agree raw hint = elim (Option-cases (split_qualified raw)) [
    | inl p ↦ rw (p, resolve_seed)
    | inr (cut, p) ↦ rw (p, resolve_parts_agree cut.0 cut.1 hint, resolve_seed)
  ]
