-- ===== src/Worker/Config/Tests.antt =====
-- The configuration of a worker at concrete inputs.
use s19_lambda.Base.{ℕ, ◌≡◌, refl, true, some, [], ◌∷◌, inl, inr, str_eq, arith}
use s19_lambda.Base.Int.{pos}
use s19_lambda.Worker.Server.{split}
use s19_lambda.Worker.Paths.{
  is_abs, clean_parts, join_parts, clean, join_path, up_to_slash, dir, abs,
}
use s19_lambda.Worker.Config.{
  Config, absolute, required, set_sandbox_dirs, defaults, parse_config, no_worker_dir,
}
use s19_lambda.Worker.Config.Defaults.{defaults_twice}

-- Opens the code of the configuration.
opened : Unit {0}
unfolding split clean_parts join_parts clean join_path up_to_slash dir abs absolute required
    set_sandbox_dirs defaults parse_config
opened = tt

-- "/e/c", "r", "/w" and "../p"
abbrev given : Config
given = record {
  path = 47 ∷ 101 ∷ 47 ∷ 99 ∷ [];
  sandbox = "docker";
  registry_dir = 114 ∷ [];
  cluster_name = "";
  pkgs_dir = 46 ∷ 46 ∷ 47 ∷ 112 ∷ [];
  sandbox_create_queue_size = pos 0;
  handler_usage_update_interval = pos 3;
  worker_dir = 47 ∷ 119 ∷ [];
  sock_base_path = [];
  worker_port = "";
}

-- "/e/r" and "/p"
abbrev made : Config
made = record given {
  registry_dir = 47 ∷ 101 ∷ 47 ∷ 114 ∷ [];
  cluster_name = "default";
  pkgs_dir = 47 ∷ 112 ∷ [];
  sandbox_create_queue_size = pos 100;
  worker_port = "8080";
}

parse_config_test :
    parse_config (some (47 ∷ [])) (λ (text : ℕ). some given) given.path (some 0) ≡ inr made
unfolding opened
parse_config_test = refl

no_worker_dir_test :
    defaults (some (47 ∷ [])) (record given { worker_dir = [] }) ≡ inl no_worker_dir
unfolding opened
no_worker_dir_test = refl

defaults_twice_example :
    (true ≡ true)
    × (true ≡ true)
    × (true ≡ true)
    × (str_eq "docker" "sock" ≡ true → is_abs [] ≡ true)
    × (defaults (some (47 ∷ [])) made ≡ inr made)
unfolding opened
defaults_twice_example = defaults_twice (some (47 ∷ [])) (λ w e. ground (arith, e)) given made refl
