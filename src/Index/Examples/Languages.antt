-- ===== src/Index/Examples/Languages.antt =====
-- An old cache without a fingerprint beside a repository with PHP files.
use graphatlas.Prelude.{true, List, [], ◌∷◌, none, ◌≡◌, ◌↔◌}
use graphatlas.Core.{Lang, php, all_langs}
use graphatlas.Index.LangSet.{has, cache_outdated_for_lang_set}
use graphatlas.Index.LangSet.Covers.{covers, cache_outdated_for_lang_set-none}

abbrev no_fingerprint : List Lang
no_fingerprint = []

abbrev repo_langs : List Lang
repo_langs = php ∷ []

cache_outdated_for_lang_set-none_example :
    (cache_outdated_for_lang_set no_fingerprint all_langs repo_langs ≡ none) ↔ (
      ((l : Lang) → covers no_fingerprint l ≡ true → has all_langs l ≡ true)
      × ((l : Lang)
          → has all_langs l ≡ true
          → has repo_langs l ≡ true
          → covers no_fingerprint l ≡ true))
cache_outdated_for_lang_set-none_example =
    cache_outdated_for_lang_set-none no_fingerprint all_langs repo_langs
