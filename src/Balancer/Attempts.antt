-- ===== src/Balancer/Attempts.antt =====
-- `ReverseProxy` and `attemptServers` (load_balancer/proxy.go). What the servers reply is a function of
-- the attempt and the server.
pub mod Connections
pub mod Ready
pub mod Ends
use s19_lambda.Base.{
  ℕ, zero, suc, ◌+◌, String, Bool, true, false, ◌&&◌, Option, none, some, List, [], ◌∷◌, ◌++◌,
  length, get_elem?, str_eq, if◌then◌else◌, leb, ltb,
}
use s19_lambda.Base.Int.{ℤ, pos}
use s19_lambda.Balancer.Servers.{FloatOps, Server, Proxy}
use s19_lambda.Balancer.Proxy.{
  Choice, chosen, nil, panicked, out_of_fuel, modify, connect, disconnect,
  round_robin_choose_server, lard_choose_server,
}

-- The paths of a request: `r.URL.Path`, and the one in `r.RequestURI`.
pub record Request : Type 0 where
  pub url_path : String
  pub request_uri : String

-- What `ReverseProxy` makes of it: the URL is that of the server with `r.RequestURI` behind it, which is
-- cleared, so that a second attempt has an empty path.
abbrev pub redirected : Request → Request
redirected r = record { url_path = r.request_uri; request_uri = "" }

-- The reply to a request: the URL may not parse, the connection may be refused, the request may fail in
-- another way, the answer may break off, or there is an answer with a status code, the CPU usage and
-- the free and total memory. These are 0 in an answer that does not parse.
pub data Reply (F : Type 0) : Type 0 where
  unparsed : Reply F
  refused : Reply F
  failed : Reply F
  unreadable : Reply F
  answered : ℕ → F → ℤ → ℤ → Reply F

-- What the client gets; `nothing` is a request without any answer.
pub data Outcome : Type 0 where
  not_found : Outcome
  nothing : Outcome
  status : ℕ → Outcome
  crashed : Outcome
  endless : Outcome

-- The error of `ReverseProxy`, as `attemptServers` reads it.
pub data Proxied : Type 0 where
  try_next : Proxied
  done : Outcome → Proxied

module _ {F : Type 0} (o : FloatOps F) where
  abbrev pub with_load : F → ℤ → ℤ → Server F → Server F
  with_load cpu free total s = record s {
    cpu_usage = cpu;
    mem_usage = o.sub (o.of_int (pos 1)) (o.div (o.of_int free) (o.of_int total));
  }

  -- `w.WriteHeader`, which panics for a code that is not of three digits.
  abbrev pub write_header : ℕ → Outcome
  write_header code = if leb 100 code && leb code 999 then status code else crashed

  -- The load of the server that the path is assigned to.
  unfoldable pub record_load : String → F → ℤ → ℤ → Proxy F → Option (Proxy F)
  record_load path cpu free total p =
      if str_eq p.policy "LARD"
      then elim (p.request_server_map path) [
        | none ↦ none
        | some k ↦ some (record p { servers = modify k (with_load cpu free total) p.servers })
      ]
      else some p

  unfoldable pub reverse_proxy : Reply F → Request → Proxy F → Proxy F × Proxied
  reverse_proxy unparsed r p = (p, done crashed)
  reverse_proxy refused r p = (p, try_next)
  reverse_proxy failed r p = (p, done nothing)
  reverse_proxy unreadable r p =
      elim (record_load (redirected r).url_path (o.of_int (pos 0)) (pos 0) (pos 0) p) [
        | none ↦ (p, done crashed)
        | some p' ↦ (p', done not_found)
      ]
  reverse_proxy (answered code cpu free total) r p =
      elim (record_load (redirected r).url_path cpu free total p) [
        | none ↦ (p, done crashed)
        | some p' ↦ (p', done (write_header code))
      ]

  -- A policy of another name has no server. The loop of the round robin gets two rounds of fuel.
  unfoldable pub choose_by_policy : List String → String → Proxy F → Proxy F × Choice
  choose_by_policy ignore path p =
      if str_eq p.policy "RoundRobin"
      then round_robin_choose_server (length p.servers + length p.servers) ignore p
      else if str_eq p.policy "LARD"
      then lard_choose_server o ignore path p
      else (p, nil)

  abbrev pub name_of : Proxy F → ℕ → String
  name_of p k = elim (get_elem? p.servers k) [ none ↦ "" | some s ↦ s.name ]

  -- `math.Min(3, len(proxy.Servers))`
  abbrev pub most_attempts : Proxy F → ℕ
  most_attempts p = if ltb (length p.servers) 3 then length p.servers else 3

  -- What follows the reply: the connection is given back, and a refused request goes on.
  unfoldable pub after_reply :
      (Proxy F → Proxy F × Outcome) → ℕ → Proxy F × Proxied → Proxy F × Outcome
  after_reply retry k (q, done crashed) = (q, crashed)
  after_reply retry k (q, done end) = (disconnect k q, end)
  after_reply retry k (q, try_next) = retry (disconnect k q)

  -- What follows the choice; `retry` takes the name of the server that refused.
  unfoldable pub send :
      (String → Proxy F → Proxy F × Outcome)
      → (ℕ → Reply F)
      → Request
      → Proxy F × Choice
      → Proxy F × Outcome
  unfolding after_reply
  send retry reply r (p, nil) = (p, not_found)
  send retry reply r (p, panicked) = (p, crashed)
  send retry reply r (p, out_of_fuel) = (p, endless)
  send retry reply r (p, chosen k) =
      after_reply (retry (name_of p k)) k (reverse_proxy (reply k) r p)

  unfoldable pub attempt_servers :
      ℕ → (ℕ → ℕ → Reply F) → List String → Request → Proxy F → Proxy F × Outcome
  unfolding send
  attempt_servers zero reply ignore r p = (p, endless)
  attempt_servers (suc f) reply ignore r p =
      if leb (most_attempts p) (length ignore)
      then (p, not_found)
      else send (λ name. attempt_servers f reply (ignore ++ name ∷ []) (redirected r))
          (reply (length ignore)) r (choose_by_policy ignore r.url_path p)
