-- ===== src/Worker/CodeRegistry/Tests.antt =====
-- The code registry at concrete inputs.
use s19_lambda.Base.{ℕ, ◌≡◌, refl, true, false, some, List, [], ◌∷◌, inr}
use s19_lambda.Worker.Server.{split}
use s19_lambda.Worker.Server.Urls.{has_none}
use s19_lambda.Worker.Paths.{clean_parts, join_parts, clean, join_path}
use s19_lambda.Worker.CodeRegistry.{
  lines, parse_lines, parse_pkg_file, Pulled, exists, not_exists, RemoteAnswers, fill_dir,
  pull_remote, nil_manager, init_registry_manager,
}
use s19_lambda.Worker.CodeRegistry.Packages.{parse_pkg_file-line_of, pulled_alike}

-- Opens the code of the registry.
opened : Unit {0}
unfolding split has_none clean_parts join_parts clean join_path parse_lines parse_pkg_file fill_dir
    pull_remote init_registry_manager
opened = tt

-- "a:b"
abbrev line : List ℕ
line = 97 ∷ 58 ∷ 98 ∷ []

parse_pkg_file-line_of_example :
    parse_pkg_file (lines (line ∷ [])) ≡ some ((97 ∷ []) ∷ [], (97 ∷ []) ∷ [])
unfolding opened
parse_pkg_file-line_of_example = parse_pkg_file-line_of ((97 ∷ [], 98 ∷ []) ∷ []) ((refl, refl), tt)

abbrev good : RemoteAnswers
good = record {
  stat = λ d. exists;
  remove_all = λ d. true;
  mkdir = λ d. true;
  get_object = λ n. true;
  untar = λ d. true;
  pkg_file = λ d. lines (line ∷ []);
}

-- "/r/f"
abbrev pulled : Pulled
pulled = record {
  handler_dir = 47 ∷ 114 ∷ 47 ∷ 102 ∷ [];
  imports = (97 ∷ []) ∷ [];
  installs = (97 ∷ []) ∷ [];
}

pulled_alike_example :
    (pulled.handler_dir ≡ join_path (47 ∷ 114 ∷ []) (102 ∷ [])) × (pulled.installs ≡ pulled.imports)
unfolding opened
pulled_alike_example =
    pulled_alike (47 ∷ 114 ∷ []) (102 ∷ []) (λ d. not_exists) (λ d. lines []) good pulled (inr refl)

-- Where the object store cannot be reached, there is a nil manager and no error.
nil_manager_test : init_registry_manager "remote" true false ≡ nil_manager
unfolding opened
nil_manager_test = refl
