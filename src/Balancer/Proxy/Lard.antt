-- ===== src/Balancer/Proxy/Lard.antt =====
-- `lardChooseServer`: the server of a path, and what stands in the way of another.
use s19_lambda.Base.{
  ℕ, ◌≡◌, ◌≢◌, refl, inl, inr, String, true, false, List, contains, some, get_elem?, arith,
  Bool-cases, lt_of_get_elem?,
}
use s19_lambda.Base.Int.{pos, eqb_ℤ, leb_ℤ, eqb_ℤ_iff}
use s19_lambda.Balancer.Servers.{FloatOps, Server, Proxy, unlimited, get_load}
use s19_lambda.Balancer.Proxy.{
  nil, get_least_load, lard_choose_server, lard_target, is_overloaded, panicked,
}
use s19_lambda.Balancer.Proxy.Search.{not_above}
use s19_lambda.Balancer.Proxy.LeastLoad.{least_from-none}

-- A request by a path whose server is at its limit or above makes the choice panic, where each server is
-- above its limit or has a load that is not below 1, whatever is to be ignored: `getLeastLoad` gives none,
-- and the name of none is read. The order of the loads is to be irreflexive and transitive.
pub lard_full_panics :
    {F : Type 0} (o : FloatOps F) (ignore : List String) (path : String) (p : Proxy F) (k : ℕ)
    (s : Server F)
    → ((a : F) → o.lt a a ≡ false)
    → ((a b c : F) → o.lt a b ≡ true → o.lt b c ≡ true → o.lt a c ≡ true)
    → p.request_server_map path ≡ some k
    → get_elem? p.servers k ≡ some s
    → s.max_conn ≢ unlimited
    → leb_ℤ s.max_conn s.connections ≡ true
    → ((j : ℕ) (t : Server F)
        → get_elem? p.servers j ≡ some t
        → not_above t ≡ true
        → o.lt (get_load o p.load_formula t) (o.of_int (pos 1)) ≡ false)
    → (lard_choose_server o ignore path p).1 ≡ panicked
unfolding lard_choose_server lard_target is_overloaded get_least_load
lard_full_panics o ignore path p k s irrefl trans assigned here limited at_limit all_full =
    let first = least_from-none o p 0 irrefl trans all_full in
    let next = least_from-none o p p.least_load_idx irrefl trans all_full in
    let some_left = lt_of_get_elem? p.servers k s here in
    let no_limit : eqb_ℤ s.max_conn unlimited ≡ false =
      ground (arith, eqb_ℤ_iff s.max_conn unlimited, limited) in
    elim (Bool-cases (o.ge (get_load o p.load_formula s) p.load_high)) [
      | inl high ↦
          rw (assigned, here, lard_choose_server, lard_target, high, first, is_overloaded) refl
      | inr low ↦
          let overloaded : is_overloaded o p s ≡ some true =
            ground (arith, low, no_limit, at_limit) in
          let none_left : (get_least_load o true p).1 ≡ nil = ground (arith, next, some_left) in
          rw (assigned, here, overloaded, lard_choose_server, lard_target)
            (ground (arith, none_left))
    ]

-- The server of a path is kept while it is not overloaded, also after it refused the request: the
-- choice is then none, whatever other servers there are.
pub lard_keeps_refused :
    {F : Type 0} (o : FloatOps F) (ignore : List String) (path : String) (p : Proxy F) (k : ℕ)
    (s : Server F)
    → p.request_server_map path ≡ some k
    → get_elem? p.servers k ≡ some s
    → is_overloaded o p s ≡ some false
    → contains ignore s.name ≡ true
    → lard_choose_server o ignore path p ≡ (p, nil)
unfolding lard_choose_server lard_target
lard_keeps_refused o ignore path p k s assigned here load refused =
    rw (assigned, here, load, lard_choose_server, lard_target) (ground (arith, here, refused))
