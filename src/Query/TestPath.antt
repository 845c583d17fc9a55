-- ===== src/Query/TestPath.antt =====
-- `is_test_path` of crates/ga-query/src/common.rs. A path is the list of its code points.
use graphatlas.Prelude.{
  ℕ, ltb, List, [], ◌∷◌, length, any, Option, none, some, Bool, false, not, ◌&&◌, ◌||◌, String,
  reverse,
}
use graphatlas.Prelude.Text.{codes, eq_text, strip_prefix, starts_with, ends_with, contains}
use graphatlas.Prelude.Chars.{bytes}
use graphatlas.Prelude.Paths.{split}

abbrev pub strip_suffix : List ℕ → List ℕ → Option (List ℕ)
strip_suffix suffix s = elim (strip_prefix (reverse suffix) (reverse s)) [
  | none ↦ none
  | some stem ↦ some (reverse stem)
]

abbrev last_of : List ℕ → List (List ℕ) → List ℕ
last_of d [] = d
last_of d (s ∷ ss) = last_of s ss

-- `rsplit('/').next()`.
unfoldable pub file_name : List ℕ → List ℕ
file_name path = last_of [] (split path)

abbrev one_of : List String → List ℕ → Bool
one_of names s = any (λ n. eq_text (codes n) s) names

abbrev pub in_tests_dir : List ℕ → Bool
in_tests_dir path =
    any (one_of ("tests" ∷ ("test" ∷ ("__tests__" ∷ ("spec" ∷ ("specs" ∷ [])))))) (split path)

abbrev pub in_src_test : List ℕ → Bool
in_src_test path = contains (codes "/src/test/") path || starts_with (codes "src/test/") path

-- `windows(2)`.
abbrev pub kmp_window : List (List ℕ) → Bool
kmp_window [] = false
kmp_window (s ∷ []) = false
kmp_window (s ∷ (t ∷ ss)) =
    ltb 4 (length (bytes s)) && ends_with (codes "Test") s && eq_text t (codes "kotlin")
    || kmp_window (t ∷ ss)

-- A name with an extension whose stem ends in one of some texts, or that lies in a directory of tests.
abbrev pub test_block : String → List String → Bool → List ℕ → Bool
test_block ext endings dirs name = elim (strip_suffix (codes ext) name) [
  | none ↦ false
  | some stem ↦ any (λ e. ends_with (codes e) stem) endings || dirs
]

abbrev pub python_block : Bool → List ℕ → Bool
python_block dirs name = elim (strip_suffix (codes ".py") name) [
  | none ↦ false
  | some stem ↦ starts_with (codes "test_") stem || (ends_with (codes "_test") stem || dirs)
]

abbrev pub go_block : List ℕ → Bool
go_block name = elim (strip_suffix (codes "_test.go") name) [
  | none ↦ false
  | some stem ↦ not (eq_text stem [])
]

abbrev jvm_endings : List String
jvm_endings = "Test" ∷ ("Tests" ∷ ("Spec" ∷ ("IT" ∷ [])))

abbrev test_endings : List String
test_endings = "Test" ∷ ("Tests" ∷ [])

abbrev pub script_exts : List String
script_exts = ".ts" ∷ (".tsx" ∷ (".js" ∷ (".jsx" ∷ (".mjs" ∷ (".cjs" ∷ [])))))

unfoldable pub is_test_path : List ℕ → Bool
unfolding file_name
is_test_path path =
    let name = file_name path in
    let dirs = in_tests_dir path in
    let maven = in_src_test path in
    python_block dirs name
    || (go_block name
        || (test_block ".rs" ("_test" ∷ []) dirs name
            || (any (λ ext. test_block ext (".test" ∷ (".spec" ∷ [])) dirs name) script_exts
                || (test_block ".java" jvm_endings (maven || dirs) name
                    || (test_block ".kt" jvm_endings (maven || (dirs || kmp_window (split path)))
                          name
                        || (test_block ".cs" test_endings dirs name
                            || (test_block ".rb" ("_spec" ∷ ("_test" ∷ [])) dirs name
                                || test_block ".php" test_endings dirs name)))))))
