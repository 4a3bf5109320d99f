-- ===== src/Worker/Matcher/Tests.antt =====
-- The matcher at concrete inputs.
use s19_lambda.Base.{◌≡◌, ◌≤◌, refl, String, true, List, [], ◌∷◌, some, contains}
use s19_lambda.Worker.Matcher.{matched_imports, match_loop, match_servers}
use s19_lambda.Subsets.{is_distinct, is_inside}
use s19_lambda.Worker.Matcher.Chosen.{match_best}

abbrev caches : List (List String)
caches = ("numpy" ∷ []) ∷ ("numpy" ∷ "scipy" ∷ []) ∷ ("django" ∷ []) ∷ []

abbrev wanted : List String
wanted = "scipy" ∷ "flask" ∷ "numpy" ∷ []

match_best_example : (true ≡ true) × (1 ≤ 2)
unfolding is_distinct contains match_servers match_loop matched_imports is_inside
match_best_example =
    match_best [] caches wanted ("flask" ∷ []) ("numpy" ∷ []) ("numpy" ∷ "scipy" ∷ []) 2 0 true refl
      refl refl refl refl refl

-- A package that a lambda imports twice counts twice, and makes room for one that it does not import.
twice :
    match_servers ([] ∷ ("numpy" ∷ "scipy" ∷ []) ∷ []) ("numpy" ∷ "numpy" ∷ []) ≡ some (1, [], true)
unfolding contains match_servers match_loop matched_imports
twice = refl
