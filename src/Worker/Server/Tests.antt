-- ===== src/Worker/Server/Tests.antt =====
-- Requests of one lambda, and the theorems at them.
use s19_lambda.Base.{ℕ, ◌≡◌, refl, true, false, none, some, List, [], ◌∷◌, arith}
use s19_lambda.Worker.Pool.{new_set, get, find_or_create, create, pull_code}
use s19_lambda.Worker.Lru.{new_handler_lru}
use s19_lambda.Worker.History.{init, peek, handler_access, scan, apply_code, cold_from}
use s19_lambda.Worker.History.Access.{init-IsValid}
use s19_lambda.Worker.Server.{
  Env, Worker, send_tries, forward_to_sandbox, run_handler, run_lambda_err, close_history,
  run_lambda, get_url_components, image, split, trim_prefix, trim_suffix, index, take,
}
use s19_lambda.Worker.Server.Requests.{run_lambda_closes}

-- "r/e", with a slash before and after it
abbrev path : List ℕ
path = 47 ∷ 114 ∷ 47 ∷ 101 ∷ 47 ∷ []

abbrev worker : Worker
worker = record { pool = new_set 2 1; history = init 2 }

-- A sandbox that does not start.
abbrev env : Env
env = record {
  text = λ l. "e";
  body_read = true;
  pulled = some (record { code_dir = "/e"; imports = []; installs = [] });
  started = false;
  request_made = true;
  replies = λ i. none;
  usage = some 0;
  usage_again = some 0;
  pause_ok = true;
  now = 1;
  written = true;
  random = 3;
  random_after = 5;
}

run_lambda_closes_example :
    let history = (run_lambda env "POST" path worker).0.history in
    handler_access "e" peek 9 history ≡ some (history, 0)
unfolding run_lambda run_lambda_err close_history get_url_components split trim_prefix trim_suffix
    image index take run_handler forward_to_sandbox new_set new_handler_lru get find_or_create
    create pull_code handler_access scan apply_code init cold_from send_tries
run_lambda_closes_example =
    run_lambda_closes env "POST" path (114 ∷ []) (101 ∷ []) [] worker 9 (init-IsValid 2)
      (omega arith) refl (λ e. cc) (λ e. cc)
