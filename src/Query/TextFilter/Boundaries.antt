-- ===== src/Query/TextFilter/Boundaries.antt =====
-- What the two tests for a word in a text find.
use graphatlas.Prelude.{
  ℕ, zero, suc, ◌+◌, ◌-◌, ◌≤◌, ◌<◌, ltb, ◌==◌, Bool, true, false, not, ◌||◌, if◌then◌else◌, List,
  [], ◌∷◌, ◌++◌, drop, get_elem?, length, none, some, ◌≡◌, refl, sym, ap, ◌≢◌, ◌↔◌, ◌⊎◌, inl, inr,
  arith, Bool-cases, Option-cases, length-append,
}
use native.Mathlib.Nat.{zero-add, suc-add}
use mathlib.Core.List.{append_assoc}
use graphatlas.Prelude.Text.{eq_text, strip_prefix}
use graphatlas.Prelude.Sort.{take}
use graphatlas.Query.TextFilter.{
  is_ident_byte, ends_here, token_here, token_from, contains_seed_token, no_ident_at,
  boundary_before, boundary_at, boundary_loop, contains_word_boundary,
}

-- The bytes up to a place end outside an identifier; `before` stands for an empty prefix.
abbrev ends_after : Bool → List ℕ → Bool
ends_after before [] = before
ends_after before (b ∷ bs) = ends_after (not (is_ident_byte b)) bs

-- A place where the word stands by itself.
abbrev pub WordFrom : Bool → List ℕ → List ℕ → Type 0
WordFrom before text seed =
    (pre : List ℕ) × (post : List ℕ) × (text ≡ pre ++ (seed ++ post))
    × (ends_after before pre ≡ true)
    × (ends_here post ≡ true)

abbrev pub StandsAlone : List ℕ → List ℕ → Type 0
StandsAlone text seed = WordFrom true text seed

strip_prefix-some : (p s r : List ℕ) → strip_prefix p s ≡ some r → s ≡ p ++ r
strip_prefix-some [] s r h = ground (arith, h)
strip_prefix-some (x ∷ p) [] r h = ground (arith, h)
strip_prefix-some (x ∷ p) (y ∷ s) r h = ground (arith, h, strip_prefix-some p s r)

strip_prefix-append : (p r : List ℕ) → strip_prefix p (p ++ r) ≡ some r
strip_prefix-append [] r = refl
strip_prefix-append (x ∷ p) r = ground (arith, strip_prefix-append p r)

token_here_sound :
    (seed : List ℕ) (before : Bool) (text : List ℕ)
    → token_here seed before text ≡ true
    → WordFrom before text seed
unfolding token_here
token_here_sound seed before text h = elim (Option-cases (strip_prefix seed text)) [
  | inl e ↦ absurd (ground (arith, h, e))
  | inr (post, e) ↦
      ([], post, strip_prefix-some seed text post e, ground (arith, h, e), ground (arith, h, e))
]

token_here_complete :
    (seed : List ℕ) (before : Bool) (post : List ℕ)
    → before ≡ true
    → ends_here post ≡ true
    → token_here seed before (seed ++ post) ≡ true
unfolding token_here
token_here_complete seed before post h k =
    rw (strip_prefix-append seed post, token_here) (ground (arith, h, k))

token_from_step :
    (seed : List ℕ) (before : Bool) (b : ℕ) (bs : List ℕ)
    → length seed ≤ suc (length bs)
    → (token_here seed before (b ∷ bs) ≡ true) ⊎ (token_from seed (not (is_ident_byte b)) bs ≡ true)
    → token_from seed before (b ∷ bs) ≡ true
unfolding token_from
token_from_step seed before b bs h (inl e) = ground (arith, h, e)
token_from_step seed before b bs h (inr e) = ground (arith, h, e)

token_from_sound :
    (seed : List ℕ) (before : Bool) (text : List ℕ)
    → token_from seed before text ≡ true
    → WordFrom before text seed
unfolding token_from
token_from_sound seed before [] h = absurd (ground (arith, h))
token_from_sound seed before (b ∷ bs) h = elim (Bool-cases (token_here seed before (b ∷ bs))) [
  | inl e ↦ token_here_sound seed before (b ∷ bs) e
  | inr e ↦ further (token_from_sound seed (not (is_ident_byte b)) bs (ground (arith, h, e)))
]
  where
    further : WordFrom (not (is_ident_byte b)) bs seed → WordFrom before (b ∷ bs) seed
    further (pre, post, e, p, q) = (b ∷ pre, post, ap (λ l. b ∷ l) e, p, q)

token_from_complete :
    (s : ℕ) (seed : List ℕ) (before : Bool) (pre post : List ℕ)
    → ends_after before pre ≡ true
    → ends_here post ≡ true
    → token_from (s ∷ seed) before (pre ++ ((s ∷ seed) ++ post)) ≡ true
token_from_complete s seed before [] post p q =
    token_from_step (s ∷ seed) before s (seed ++ post) (omega (arith, length-append seed post))
      (inl (token_here_complete (s ∷ seed) before post p q))
token_from_complete s seed before (b ∷ pre) post p q =
    token_from_step (s ∷ seed) before b (pre ++ ((s ∷ seed) ++ post))
      (omega (arith, length-append pre ((s ∷ seed) ++ post), length-append seed post))
      (inr (token_from_complete s seed (not (is_ident_byte b)) pre post p q))

long_enough : (pre seed post : List ℕ) → ltb (length (pre ++ (seed ++ post))) (length seed) ≡ false
long_enough pre seed post =
    ground (arith, length-append pre (seed ++ post), length-append seed post)

-- `contains_seed_token` finds a word exactly where it stands by itself: the text is cut there into
-- the word and two rests that no identifier crosses. An empty word is never found.
pub contains_seed_token_iff :
    (text seed : List ℕ)
    → (contains_seed_token text seed ≡ true) ↔ ((seed ≢ []) × StandsAlone text seed)
unfolding contains_seed_token
contains_seed_token_iff text [] = (λ h. absurd (ground (arith, h)), λ w. absurd (w.0 refl))
contains_seed_token_iff text (s ∷ seed) = (
  λ h. (ground arith, token_from_sound (s ∷ seed) true text (ground (arith, h))),
  λ w. complete w.1,
)
  where
    complete : StandsAlone text (s ∷ seed) → contains_seed_token text (s ∷ seed) ≡ true
    complete (pre, post, e, p, q) =
        rw (e, long_enough pre (s ∷ seed) post) (token_from_complete s seed true pre post p q)

drop-append : (pre rest : List ℕ) → drop (length pre) (pre ++ rest) ≡ rest
drop-append [] rest = refl
drop-append (b ∷ pre) rest = drop-append pre rest

get_elem?-append :
    (pre rest : List ℕ) (n : ℕ) → get_elem? (pre ++ rest) (length pre + n) ≡ get_elem? rest n
get_elem?-append [] rest n = rw zero-add
get_elem?-append (b ∷ pre) rest n = rw (suc-add (length pre) n) (get_elem?-append pre rest n)

-- The test before a place looks at the last byte of what stands before it.
before-append :
    (b : ℕ) (pre rest : List ℕ)
    → no_ident_at (b ∷ (pre ++ rest)) (length pre) ≡ ends_after (not (is_ident_byte b)) pre
before-append b [] rest = refl
before-append b (c ∷ pre) rest = before-append c pre rest

boundary_before-append :
    (pre rest : List ℕ) → boundary_before (pre ++ rest) (length pre) ≡ ends_after true pre
boundary_before-append [] rest = refl
boundary_before-append (b ∷ pre) rest = before-append b pre rest

-- The test after a word, by its index and by what follows.
after-drop :
    (n : ℕ) (rest : List ℕ)
    → n ≤ length rest
    → ((n == length rest) || no_ident_at rest n) ≡ ends_here (drop n rest)
after-drop zero [] h = refl
after-drop zero (b ∷ rest) h = ground arith
after-drop (suc n) [] h = absurd (omega (arith, h))
after-drop (suc n) (b ∷ rest) h = ground (arith, after-drop n rest (omega (arith, h)))

strip_prefix-take :
    (p s : List ℕ)
    → strip_prefix p s ≡ (if eq_text (take (length p) s) p then some (drop (length p) s) else none)
strip_prefix-take [] s = refl
strip_prefix-take (x ∷ p) [] = refl
strip_prefix-take (x ∷ p) (y ∷ s) = ground (arith, strip_prefix-take p s)

boundary_at-token_here :
    (pre rest needle : List ℕ)
    → length needle ≤ length rest
    → boundary_at (pre ++ rest) needle (length pre) ≡ token_here needle (ends_after true pre) rest
unfolding token_here
boundary_at-token_here pre rest needle h = ground (
  arith,
  strip_prefix-take needle rest,
  drop-append pre rest,
  boundary_before-append pre rest,
  get_elem?-append pre rest (length needle),
  after-drop (length needle) rest h,
  length-append pre rest,
)

token_from_short :
    (needle : List ℕ) (before : Bool) (rest : List ℕ)
    → length rest < length needle
    → token_from needle before rest ≡ false
unfolding token_from
token_from_short needle before [] h = refl
token_from_short needle before (b ∷ bs) h = ground (arith, h)

ends_after-append :
    (before : Bool) (pre : List ℕ) (b : ℕ)
    → ends_after before (pre ++ (b ∷ [])) ≡ not (is_ident_byte b)
ends_after-append before [] b = refl
ends_after-append before (c ∷ pre) b = ends_after-append (not (is_ident_byte c)) pre b

loop_last :
    (needle pre : List ℕ) (b : ℕ) (bs : List ℕ)
    → suc (length bs) ≡ length needle
    → boundary_loop (pre ++ (b ∷ bs)) needle 0 (length pre)
      ≡ token_from needle (ends_after true pre) (b ∷ bs)
unfolding boundary_loop token_from
loop_last needle pre b bs h = ground (
  arith,
  boundary_at-token_here pre (b ∷ bs) needle (omega (arith, h)),
  token_from_short needle (not (is_ident_byte b)) bs (omega (arith, h)),
  h,
)

loop_step :
    (needle : List ℕ) (left : ℕ) (pre : List ℕ) (b : ℕ) (bs : List ℕ)
    → length needle ≤ suc (length bs)
    → boundary_loop (pre ++ (b ∷ bs)) needle left (suc (length pre))
      ≡ token_from needle (not (is_ident_byte b)) bs
    → boundary_loop (pre ++ (b ∷ bs)) needle (suc left) (length pre)
      ≡ token_from needle (ends_after true pre) (b ∷ bs)
unfolding boundary_loop token_from
loop_step needle left pre b bs h e =
    ground (arith, boundary_at-token_here pre (b ∷ bs) needle (omega (arith, h)), e, h)

boundary_loop-token_from :
    (needle : List ℕ) (left : ℕ) (pre rest : List ℕ)
    → 0 < length needle
    → length rest ≡ left + length needle
    → boundary_loop (pre ++ rest) needle left (length pre)
      ≡ token_from needle (ends_after true pre) rest
boundary_loop-token_from needle left pre [] p h = absurd (omega (arith, p, h))
boundary_loop-token_from needle zero pre (b ∷ bs) p h = loop_last needle pre b bs (omega (arith, h))
boundary_loop-token_from needle (suc left) pre (b ∷ bs) p h =
    loop_step needle left pre b bs (omega (arith, h)) (
      rw
        (
          sym (append_assoc pre (b ∷ []) bs),
          sym (length_snoc pre b),
          sym (ends_after-append true pre b),
        )
        (boundary_loop-token_from needle left (pre ++ (b ∷ [])) bs p (omega (arith, h))))
  where
    length_snoc : (pre : List ℕ) (b : ℕ) → length (pre ++ (b ∷ [])) ≡ suc (length pre)
    length_snoc pre b = omega (arith, length-append pre (b ∷ []))

-- The two tests for a word are one: `contains_word_boundary` of affected_tests.rs finds a word in a
-- text just where `contains_seed_token` does, whatever the text and the word are.
pub contains_word_boundary_lem :
    (text word : List ℕ) → contains_word_boundary text word ≡ contains_seed_token text word
unfolding contains_word_boundary contains_seed_token
contains_word_boundary_lem text [] = refl
contains_word_boundary_lem text (w ∷ word) =
    elim (Bool-cases (ltb (length text) (suc (length word)))) [
      | inl e ↦ ground (arith, e)
      | inr e ↦ ground (
        arith,
        e,
        boundary_loop-token_from (w ∷ word) (length text - suc (length word)) [] text (omega arith)
            (ground (arith, e)),
      )
    ]

-- Both tests for a word find it exactly where it stands by itself: the text is cut there into the word
-- and two rests that no identifier crosses. An empty word is never found.
pub word_tests_iff :
    (text word : List ℕ)
    → ((contains_seed_token text word ≡ true) ↔ ((word ≢ []) × StandsAlone text word))
      × ((contains_word_boundary text word ≡ true) ↔ ((word ≢ []) × StandsAlone text word))
word_tests_iff text word = (
  contains_seed_token_iff text word,
  rw (contains_word_boundary_lem text word) (contains_seed_token_iff text word),
)
