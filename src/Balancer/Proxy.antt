-- ===== src/Balancer/Proxy.antt =====
-- The choice of a server for a request (load_balancer/proxy.go), and the requests to the servers.
pub mod RoundRobin
pub mod Search
pub mod LeastLoad
pub mod Lard
use s19_lambda.Base.{
  ℕ, zero, suc, ◌+◌, ◌%◌, String, Bool, true, false, not, ◌&&◌, ◌||◌, Option, none, some, List, [],
  ◌∷◌, length, contains, get_elem?, update_str, str_eq, if◌then◌else◌, ◌==◌, leb,
}
use s19_lambda.Base.Int.{ℤ, pos, ◌+ℤ◌, ◌-ℤ◌, eqb_ℤ, ltb_ℤ, leb_ℤ}
use s19_lambda.Balancer.Servers.{FloatOps, Server, Proxy, unlimited, get_load}

-- What a function that returns a `*Server` does.
pub data Choice : Type 0 where
  chosen : ℕ → Choice
  nil : Choice
  panicked : Choice
  out_of_fuel : Choice

abbrev pub modify {ℓ} : {A : Type ℓ} → ℕ → (A → A) → List A → List A
modify i f [] = []
modify zero f (x ∷ xs) = f x ∷ xs
modify (suc i) f (x ∷ xs) = x ∷ modify i f xs

-- Is the server's name in the list?
abbrev pub is_ignored : {F : Type 0} → List String → List (Server F) → ℕ → Bool
is_ignored ignore servers i = elim (get_elem? servers i) [
  | none ↦ false
  | some s ↦ contains ignore s.name
]

-- `chooseServer`: the first of the fewest connections, over the rest of the servers from index `i`;
-- `min` is -1 before the first.
unfoldable pub fewest : {F : Type 0} → List String → List (Server F) → ℕ → ℤ → ℕ → ℕ
fewest ignore [] i min min_index = min_index
fewest ignore (s ∷ rest) i min min_index =
    let skipped = fewest ignore rest (suc i) min min_index in
    let taken = fewest ignore rest (suc i) s.connections i in
    if contains ignore s.name
    then skipped
    else if eqb_ℤ min unlimited
    then taken
    else if ltb_ℤ s.connections min
    then taken
    else skipped

-- The pointer to an entry panics where there is no server.
unfoldable pub choose_server : {F : Type 0} → List String → Proxy F → Choice
unfolding fewest
choose_server ignore p =
    if length p.servers == 0 then panicked else chosen (fewest ignore p.servers 0 unlimited 0)

-- `server.Connections += 1`
abbrev pub connect : {F : Type 0} → ℕ → Proxy F → Proxy F
connect k p = record p {
  servers = modify k (λ s. record s { connections = s.connections +ℤ pos 1 }) p.servers;
}

abbrev pub disconnect : {F : Type 0} → ℕ → Proxy F → Proxy F
disconnect k p = record p {
  servers = modify k (λ s. record s { connections = s.connections -ℤ pos 1 }) p.servers;
}

-- The loop of `roundRobinChooseServer`.
unfoldable pub rr_loop : {F : Type 0} → ℕ → List String → List (Server F) → ℕ → Bool → ℕ → Choice
rr_loop zero ignore servers rr first_attempt next = out_of_fuel
rr_loop (suc f) ignore servers rr first_attempt next =
    let rest = rr_loop f ignore servers rr false ((next + 1) % length servers) in
    if first_attempt || not (next == rr + 1)
    then if is_ignored ignore servers next then rest else chosen next
    else nil

-- The choice, with what it leaves in the proxy.
abbrev pub take_server : {F : Type 0} → Proxy F → Choice → Proxy F × Choice
take_server p (chosen k) = (connect k (record p { rr_server_idx = k }), chosen k)
take_server p c = (p, c)

unfoldable pub round_robin_choose_server :
    {F : Type 0} → ℕ → List String → Proxy F → Proxy F × Choice
round_robin_choose_server fuel ignore p =
    if length p.servers == 0
    then (p, nil)
    else take_server p (
        rr_loop fuel ignore p.servers p.rr_server_idx true
          ((p.rr_server_idx + 1) % length p.servers))

-- `getLeastLoad` from `startIdx` on, over `n` servers more from the count `i`. The index stays within
-- the servers; a null entry stands for none.
module _ {F : Type 0} (o : FloatOps F) where
  unfoldable pub least_loop : String → List (Server F) → ℕ → ℕ → ℕ → F → Option ℕ → Option ℕ
  least_loop formula servers start zero i min_load target = target
  least_loop formula servers start (suc n) i min_load target =
      let k = (start + i) % length servers in
      let skipped = least_loop formula servers start n (suc i) min_load target in
      elim (get_elem? servers k) [
        | none ↦ skipped
        | some s ↦
            let load = get_load o formula s in
            let taken = least_loop formula servers start n (suc i) load (some k) in
            if not (eqb_ℤ s.max_conn unlimited) && ltb_ℤ s.max_conn s.connections
            then skipped
            else if o.lt load min_load
            then taken
            else skipped
      ]

  unfoldable pub least_from : Proxy F → ℕ → Choice
  unfolding least_loop
  least_from p start =
      elim (least_loop p.load_formula p.servers start (length p.servers) 0 (o.of_int (pos 1))
        none) [ none ↦ nil | some k ↦ chosen k ]

  -- With `moveIndex` the modulus by the number of servers panics where there is none.
  unfoldable pub get_least_load : Bool → Proxy F → Proxy F × Choice
  unfolding least_from
  get_least_load false p = (p, least_from p 0)
  get_least_load true p = if length p.servers == 0 then (p, panicked) else (
    record p { least_load_idx = (p.least_load_idx + 1) % length p.servers },
    least_from p p.least_load_idx,
  )

  -- The load of the server that a choice points to; a null pointer panics.
  abbrev load_of : Proxy F → Choice → Option F
  load_of p (chosen k) = elim (get_elem? p.servers k) [
    | none ↦ none
    | some s ↦ some (get_load o p.load_formula s)
  ]
  load_of p _ = none

  -- The three tests on the server that the path was sent to last, in the order of `||` and `&&`.
  unfoldable pub is_overloaded : Proxy F → Server F → Option Bool
  unfolding get_least_load
  is_overloaded p s =
      let load = get_load o p.load_formula s in
      let rest =
        o.ge load (o.mul (o.of_int (pos 2)) p.load_high)
        || (not (eqb_ℤ s.max_conn unlimited) && leb_ℤ s.max_conn s.connections) in
      if o.ge load p.load_high
      then elim (load_of p (get_least_load false p).1) [
        | none ↦ none
        | some least ↦ some (o.lt least p.load_low || rest)
      ]
      else some rest

  -- The server that the path stays with, or another; one to be ignored is none, and the name of a
  -- null pointer panics.
  abbrev unless_ignored : List String → Proxy F × Choice → Proxy F × Choice
  unless_ignored ignore (p, chosen k) = (p, if is_ignored ignore p.servers k then nil else chosen k)
  unless_ignored ignore (p, _) = (p, panicked)

  unfoldable pub lard_target : List String → String → Proxy F → Proxy F × Choice
  unfolding get_least_load is_overloaded
  lard_target ignore path p = elim (p.request_server_map path) [
    | none ↦ get_least_load true p
    | some k ↦ elim (get_elem? p.servers k) [
      | none ↦ (p, panicked)
      | some s ↦ elim (is_overloaded p s) [
        | none ↦ (p, panicked)
        | some true ↦ unless_ignored ignore (get_least_load true p)
        | some false ↦ unless_ignored ignore (p, chosen k)
      ]
    ]
  ]

  abbrev pub assign : String → Proxy F × Choice → Proxy F × Choice
  assign path (p, chosen k) = (
    connect k (record p { request_server_map = update_str p.request_server_map path (some k) }),
    chosen k,
  )
  assign path (p, c) = (p, c)

  unfoldable pub lard_choose_server : List String → String → Proxy F → Proxy F × Choice
  unfolding lard_target
  lard_choose_server ignore path p = assign path (lard_target ignore path p)
