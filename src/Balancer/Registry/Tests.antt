-- ===== src/Balancer/Registry/Tests.antt =====
-- Runs of the registry, and its theorems at concrete inputs.
use s19_lambda.Base.{ℕ, ◌≡◌, refl, true, List, [], ◌∷◌, All, some, String, occurrences}
use s19_lambda.Worker.Server.Urls.{has_none, join}
use s19_lambda.Balancer.Registry.Files.{lines, push_cluster_handler-lines}
use s19_lambda.Balancer.Registry.{
  MetaRegistry, empty_registry, peek_handler_deps, peek_deps_used_by, push, push_cluster_handler,
  without_last, newline,
}
use s19_lambda.Balancer.Registry.Refine.{
  push_each, is_registered, logged, deps_of, users_of, pushes_refine,
}

abbrev requests : List (String × List String)
requests =
    ("echo", "numpy" ∷ "requests" ∷ [])
    ∷ ("resize", "pillow" ∷ "numpy" ∷ [])
    ∷ ("echo", "pillow" ∷ [])
    ∷ []

pushes_refine_example :
    (mr : MetaRegistry) × (push_each requests empty_registry ≡ some mr)
    × (peek_handler_deps "echo" mr ≡ some ("numpy" ∷ "requests" ∷ []))
    × (peek_deps_used_by "numpy" mr ≡ some ("echo" ∷ "resize" ∷ []))
unfolding is_registered logged deps_of users_of occurrences
pushes_refine_example = pushes_refine requests "echo" "numpy"

-- "ab" and "c"
abbrev ab : List ℕ
ab = 97 ∷ 98 ∷ []

abbrev c : List ℕ
c = 99 ∷ []

abbrev text : List ℕ → String
text [] = ""
text (_ ∷ []) = "c"
text (_ ∷ _ ∷ _) = "ab"

in_one_line : All (λ n. has_none newline n ≡ true) (ab ∷ c ∷ [])
unfolding has_none
in_one_line = (refl, (refl, tt))

push_cluster_handler-lines_example :
    (push_cluster_handler text "echo" (some (97 ∷ 98 ∷ 10 ∷ 99 ∷ 10 ∷ [])) empty_registry
      ≡ push "echo" ("ab" ∷ "c" ∷ []) empty_registry)
    × (push_cluster_handler text "echo" (some (97 ∷ 98 ∷ 10 ∷ 99 ∷ [])) empty_registry
        ≡ push "echo" ("ab" ∷ []) empty_registry)
unfolding lines join without_last
push_cluster_handler-lines_example =
    push_cluster_handler-lines text "echo" ab (c ∷ []) empty_registry in_one_line
