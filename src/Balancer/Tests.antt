-- ===== src/Balancer/Tests.antt =====
-- The theorems about the choice of a server at concrete inputs. Thousandths stand for the floats.
use s19_lambda.Base.{
  ℕ, zero, suc, ◌+◌, ◌-◌, ◌*◌, ◌/◌, ◌<◌, ◌≡◌, ◌≢◌, refl, String, true, false, none, some, List, [],
  ◌∷◌, get_elem?, ltb, leb, if◌then◌else◌, ◌==◌, arith, update_str, contains,
}
use s19_lambda.Base.Int.{ℤ, pos, negsuc, ◌+ℤ◌, ◌-ℤ◌}
use s19_lambda.Balancer.Servers.{FloatOps, Server, Proxy, get_load, get_load_by_conn}
use s19_lambda.Balancer.Proxy.{
  chosen, panicked, out_of_fuel, is_ignored, rr_loop, round_robin_choose_server, take_server,
  least_loop, least_from, get_least_load, lard_choose_server,
}
use s19_lambda.Balancer.Proxy.RoundRobin.{find_free, round_robin_next, round_robin_hangs}
use s19_lambda.Balancer.Proxy.Search.{not_above}
use s19_lambda.Balancer.Proxy.LeastLoad.{get_least_load-chosen}
use s19_lambda.Balancer.Proxy.Lard.{lard_full_panics}
use s19_lambda.Balancer.Attempts.{
  Request, Reply, refused, answered, attempt_servers, after_reply, send, choose_by_policy,
  reverse_proxy, record_load, crashed, endless,
}
use s19_lambda.Balancer.Attempts.Connections.{connections_of, attempt_servers-connections}
use s19_lambda.Balancer.Attempts.Ready.{Ready}
use s19_lambda.Balancer.Attempts.Ends.{attempt_servers_end}
use s19_lambda.Subsets.{is_distinct}

abbrev thousandths : ℤ → ℕ
thousandths (pos n) = 1000 * n
thousandths (negsuc n) = 0

abbrev milli : FloatOps ℕ
milli = record {
  of_int = thousandths;
  add = λ a b. a + b;
  sub = λ a b. a - b;
  mul = λ a b. a * b / 1000;
  div = λ a b. a * 1000 / b;
  max = λ a b. if ltb a b then b else a;
  lt = λ a b. ltb a b;
  ge = λ a b. leb b a;
  eq = λ a b. a == b;
  half = 500;
  two_fifths = 400;
  one_fifth = 200;
}

milli_irrefl : (a : ℕ) → milli.lt a a ≡ false
milli_irrefl a = ground arith

milli_trans : (a b c : ℕ) → milli.lt a b ≡ true → milli.lt b c ≡ true → milli.lt a c ≡ true
milli_trans a b c l m = ground arith

abbrev worker : String → ℕ → ℕ → Server ℕ
worker name max_conn connections = record {
  name = name;
  scheme = "http";
  host = "localhost";
  port = pos 8080;
  max_conn = pos max_conn;
  cpu_usage = 0;
  mem_usage = 0;
  connections = pos connections;
}

abbrev balancer : String → List (Server ℕ) → ℕ → Proxy ℕ
balancer policy servers idx = record {
  host = "localhost";
  port = pos 7079;
  scheme = "http";
  policy = policy;
  load_formula = "Connections";
  servers = servers;
  request_server_map = update_str (λ q. none) "/runLambda/echo" (some 0);
  load_high = 400;
  load_low = 200;
  connections = pos 0;
  max_conn = negsuc 0;
  rr_server_idx = idx;
  least_load_idx = 1;
}

abbrev three : List (Server ℕ)
three = worker "a" 10 3 ∷ worker "b" 10 1 ∷ worker "c" 10 2 ∷ []

round_robin_next_example :
    round_robin_choose_server 6 ("c" ∷ []) (balancer "RoundRobin" three 1)
    ≡ take_server (balancer "RoundRobin" three 1) (chosen 0)
unfolding find_free contains
round_robin_next_example =
    round_robin_next ("c" ∷ []) (balancer "RoundRobin" three 1) 0 (omega arith) (omega arith) refl

same_names_ignored :
    (i : ℕ) → i < 2 → is_ignored ("a" ∷ []) (worker "a" 10 0 ∷ worker "a" 10 0 ∷ []) i ≡ true
unfolding contains
same_names_ignored zero lt = refl
same_names_ignored (suc zero) lt = refl
same_names_ignored (suc (suc i)) lt = absurd (omega arith)

round_robin_hangs_example :
    round_robin_choose_server 1000
      ("a" ∷ [])
      (balancer "RoundRobin" (worker "a" 10 0 ∷ worker "a" 10 0 ∷ []) 1)
    ≡ (balancer "RoundRobin" (worker "a" 10 0 ∷ worker "a" 10 0 ∷ []) 1, out_of_fuel)
round_robin_hangs_example =
    round_robin_hangs 1000 ("a" ∷ [])
      (balancer "RoundRobin" (worker "a" 10 0 ∷ worker "a" 10 0 ∷ []) 1) refl same_names_ignored

get_least_load-chosen_example :
    (not_above (worker "b" 10 1) ≡ true)
    × (ltb (get_load milli "Connections" (worker "b" 10 1)) 1000 ≡ true)
    × (ltb
          (get_load milli "Connections" (worker "a" 10 3))
          (get_load milli "Connections" (worker "b" 10 1))
        ≡ false)
unfolding get_least_load least_from least_loop get_load get_load_by_conn not_above
get_least_load-chosen_example =
    get_least_load-chosen milli true (balancer "LARD" three 0) 1 0 (worker "b" 10 1)
      (worker "a" 10 3) milli_irrefl milli_trans (omega arith) refl refl refl refl

abbrev busy : List (Server ℕ)
busy = worker "a" 2 2 ∷ worker "b" 3 3 ∷ []

all_full :
    (j : ℕ) (t : Server ℕ)
    → get_elem? busy j ≡ some t
    → not_above t ≡ true
    → ltb (get_load milli "Connections" t) 1000 ≡ false
unfolding get_load get_load_by_conn
all_full zero t e room = ground arith
all_full (suc zero) t e room = ground arith
all_full (suc (suc j)) t e room = absurd (ground arith)

lard_full_panics_example :
    (lard_choose_server milli [] "/runLambda/echo" (balancer "LARD" busy 0)).1 ≡ panicked
lard_full_panics_example =
    lard_full_panics milli [] "/runLambda/echo" (balancer "LARD" busy 0) 0 (worker "a" 2 2)
      milli_irrefl milli_trans refl refl (λ e. cc) refl all_full

abbrev echo : Request
echo = record { url_path = "/runLambda/echo"; request_uri = "/runLambda/echo" }

-- The first server refuses, the second answers.
abbrev replies : ℕ → ℕ → Reply ℕ
replies zero k = refused
replies (suc i) k = answered 200 100 (pos 1) (pos 2)

answered_lem : (attempt_servers milli 4 replies [] echo (balancer "RoundRobin" three 1)).1 ≢ crashed
unfolding attempt_servers send after_reply choose_by_policy reverse_proxy record_load
    round_robin_choose_server rr_loop contains ◌+ℤ◌ ◌-ℤ◌
answered_lem e = cc

attempt_servers-connections_example :
    connections_of (attempt_servers milli 4 replies [] echo (balancer "RoundRobin" three 1)).0
    ≡ connections_of (balancer "RoundRobin" three 1)
attempt_servers-connections_example =
    attempt_servers-connections milli 4 replies [] echo (balancer "RoundRobin" three 1) answered_lem

three-Ready : Ready (balancer "RoundRobin" three 1)
unfolding is_distinct contains
three-Ready = record { distinct = refl; within = omega arith }

attempt_servers_end_example :
    (attempt_servers milli 4 replies [] echo (balancer "RoundRobin" three 1)).1 ≢ endless
attempt_servers_end_example =
    attempt_servers_end milli 4 replies echo (balancer "RoundRobin" three 1) three-Ready
      (omega arith)
