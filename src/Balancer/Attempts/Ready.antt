-- ===== src/Balancer/Attempts/Ready.antt =====
-- What a choice of a server needs to go on, and leaves.
use s19_lambda.Base.{
  ℕ, zero, suc, ◌+◌, ◌-◌, ◌%◌, ◌<◌, ◌≤◌, ◌≡◌, refl, sym, ap, ◌∙◌, String, Bool, true, false, some,
  List, [], ◌∷◌, ◌++◌, map, length, contains, str_eq, update_str, arith, Bool-cases, inl, inr,
  range, All,
}
use s19_lambda.Base.Int.{pos, ◌+ℤ◌, ◌-ℤ◌}
use s19_lambda.Subsets.{is_distinct, is_inside, length-inside}
use s19_lambda.Balancer.Servers.{FloatOps, Server, Proxy}
use s19_lambda.Balancer.Proxy.{
  Choice, chosen, nil, panicked, out_of_fuel, modify, is_ignored, connect, disconnect,
  round_robin_choose_server, lard_choose_server, lard_target, get_least_load, least_from,
  take_server, assign,
}
use s19_lambda.Balancer.Proxy.RoundRobin.{find_free, round, round_robin_next}
use s19_lambda.Balancer.Attempts.{choose_by_policy}
use s19_lambda.Balancer.Attempts.Connections.{lard_target-servers}

abbrev pub names_of : {F : Type 0} → Proxy F → List String
names_of p = map (λ s. s.name) p.servers

-- Different names, and a last choice that is one of the servers.
pub record Ready {F : Type 0} (p : Proxy F) : Type 0 where
  pub distinct : is_distinct (names_of p) ≡ true
  pub within : p.rr_server_idx < length p.servers

length-names : {F : Type 0} (l : List (Server F)) → length (map (λ s. s.name) l) ≡ length l
length-names [] = refl
length-names (s ∷ l) = ap suc (length-names l)

-- The same names and the same last choice.
abbrev pub Same : {F : Type 0} → Proxy F → Proxy F → Type 0
Same p q = (names_of q ≡ names_of p) × (q.rr_server_idx ≡ p.rr_server_idx)

size-Same :
    {F : Type 0} (p q : Proxy F) → names_of q ≡ names_of p → length q.servers ≡ length p.servers
size-Same p q e = sym (length-names q.servers) ∙ ap length e ∙ length-names p.servers

pub Ready-Same : {F : Type 0} (p q : Proxy F) → Same p q → Ready p → Ready q
Ready-Same p q (names, idx) ready = record {
  distinct = rw names ready.distinct;
  within = let size = size-Same p q names in let lt = ready.within in omega (arith, size, idx, lt);
}

pub names-modify :
    {F : Type 0} (k : ℕ) (f : Server F → Server F) (l : List (Server F))
    → ((s : Server F) → (f s).name ≡ s.name)
    → map (λ s. s.name) (modify k f l) ≡ map (λ s. s.name) l
names-modify k f [] e = refl
names-modify zero f (s ∷ l) e = ap (λ n. n ∷ map (λ s. s.name) l) (e s)
names-modify (suc k) f (s ∷ l) e = ap (λ ns. s.name ∷ ns) (names-modify k f l e)

connect-names : {F : Type 0} (k : ℕ) (p : Proxy F) → names_of (connect k p) ≡ names_of p
connect-names k p =
    names-modify k (λ s. record s { connections = s.connections +ℤ pos 1 }) p.servers (λ s. refl)

pub disconnect-names : {F : Type 0} (k : ℕ) (p : Proxy F) → names_of (disconnect k p) ≡ names_of p
disconnect-names k p =
    names-modify k (λ s. record s { connections = s.connections -ℤ pos 1 }) p.servers (λ s. refl)

-- A server that is not to be ignored, where some name is not in the list.
has_free :
    {F : Type 0} (ignore : List String) (servers : List (Server F))
    → is_inside (map (λ s. s.name) servers) ignore ≡ false
    → (j : ℕ) × (j < length servers) × (is_ignored ignore servers j ≡ false)
unfolding is_inside
has_free ignore [] h = absurd (ground (arith, h))
has_free ignore (s ∷ l) h = elim (Bool-cases (contains ignore s.name)) [
  | inr free ↦ (0, omega arith, free)
  | inl here ↦
      let (j, lt, free) = has_free ignore l (ground (arith, h, here)) in (suc j, omega arith, free)
]

free_server :
    {F : Type 0} (ignore : List String) (p : Proxy F)
    → Ready p
    → length ignore < length p.servers
    → (j : ℕ) × (j < length p.servers) × (is_ignored ignore p.servers j ≡ false)
free_server ignore p ready lt = elim (Bool-cases (is_inside (names_of p) ignore)) [
  | inl all ↦
      let le = length-inside (names_of p) ignore ready.distinct all in
      absurd (omega (arith, le, length-names p.servers))
  | inr free ↦ has_free ignore p.servers free
]

-- What a choice has to be for the attempts to go on.
abbrev Fits : ℕ → Choice → Type 0
Fits n (chosen k) = k < n
Fits n nil = Unit
Fits n panicked = Unit
Fits n out_of_fuel = ⊥

find_free-Fits :
    {F : Type 0} (ignore : List String) (servers : List (Server F)) (n : ℕ) (ks : List ℕ)
    → All (λ k. k < n) ks
    → Fits n (find_free ignore servers ks)
unfolding find_free
find_free-Fits ignore servers n [] h = tt
find_free-Fits ignore servers n (k ∷ ks) h = elim (Bool-cases (is_ignored ignore servers k)) [
  | inl skip ↦ rw skip (find_free-Fits ignore servers n ks h.1)
  | inr stop ↦ rw stop h.0
]

All-range : (n k m : ℕ) → k + m ≤ n → All (λ i. i < n) (range k m)
All-range n k zero le = tt
All-range n k (suc m) le = (omega arith, All-range n (k + 1) m (omega arith))

All-append :
    (n : ℕ) (l k : List ℕ) → All (λ i. i < n) l → All (λ i. i < n) k → All (λ i. i < n) (l ++ k)
All-append n [] k h g = g
All-append n (x ∷ l) k h g = (h.0, All-append n l k h.1 g)

All-round : (start n : ℕ) → start ≤ n → All (λ i. i < n) (round start n)
All-round start n le =
    All-append n (range start (n - start)) (range 0 start)
      (All-range n start (n - start) (omega arith)) (All-range n 0 start (omega arith))

abbrev pub halts : Choice → Bool
halts (chosen k) = true
halts nil = true
halts panicked = true
halts out_of_fuel = false

-- A choice that is made, and leaves the proxy ready.
abbrev pub Chosen : {F : Type 0} → Proxy F × Choice → Type 0
Chosen (p, c) = Ready p × (halts c ≡ true)

take_server-Chosen :
    {F : Type 0} (p : Proxy F) (c : Choice)
    → Ready p
    → Fits (length p.servers) c
    → Chosen (take_server p c)
take_server-Chosen p (chosen k) ready lt =
    let names = connect-names k (record p { rr_server_idx = k }) in
    (
      record {
        distinct = rw names ready.distinct;
        within =
            let size = size-Same p (connect k (record p { rr_server_idx = k })) names in
            omega (arith, size, lt);
      },
      refl,
    )
take_server-Chosen p nil ready lt = (ready, refl)
take_server-Chosen p panicked ready lt = (ready, refl)
take_server-Chosen p out_of_fuel ready lt = absurd lt

round_robin-Chosen :
    {F : Type 0} (ignore : List String) (p : Proxy F)
    → Ready p
    → length ignore < length p.servers
    → Chosen (round_robin_choose_server (length p.servers + length p.servers) ignore p)
round_robin-Chosen ignore p ready lt =
    let (j, inside, free) = free_server ignore p ready lt in
    let n = length p.servers in
    let start = (p.rr_server_idx + 1) % n in
    rw (round_robin_next ignore p j ready.within inside free) (
      take_server-Chosen p (find_free ignore p.servers (round start n)) ready
        (find_free-Fits ignore p.servers n (round start n) (All-round start n (omega (arith, lt)))))

module _ {F : Type 0} (o : FloatOps F) where
  least_from-halts : (p : Proxy F) (start : ℕ) → halts (least_from o p start) ≡ true
  unfolding least_from
  least_from-halts p start = ground arith

  get_least_load-halts : (move : Bool) (p : Proxy F) → halts (get_least_load o move p).1 ≡ true
  unfolding get_least_load
  get_least_load-halts false p = least_from-halts p 0
  get_least_load-halts true p = ground (arith, least_from-halts p p.least_load_idx)

  get_least_load-rr : (p : Proxy F) → (get_least_load o true p).0.rr_server_idx ≡ p.rr_server_idx
  unfolding get_least_load
  get_least_load-rr p = ground arith

  lard_target-rr :
      (ignore : List String) (path : String) (p : Proxy F)
      → (lard_target o ignore path p).0.rr_server_idx ≡ p.rr_server_idx
  unfolding lard_target
  lard_target-rr ignore path p = ground (arith, get_least_load-rr p)

  lard_target-halts :
      (ignore : List String) (path : String) (p : Proxy F)
      → halts (lard_target o ignore path p).1 ≡ true
  unfolding lard_target
  lard_target-halts ignore path p = ground (arith, get_least_load-halts true p)

  assign-Chosen :
      (p p' : Proxy F) (path : String) (c : Choice)
      → Same p p'
      → Ready p
      → halts c ≡ true
      → Chosen (assign o path (p', c))
  assign-Chosen p p' path (chosen k) (names, idx) ready h =
      let moved : Proxy F = record p' {
        request_server_map = update_str p'.request_server_map path (some k);
      } in
      (Ready-Same p (connect k moved) (connect-names k moved ∙ names, idx) ready, refl)
  assign-Chosen p p' path nil same ready h = (Ready-Same p p' same ready, refl)
  assign-Chosen p p' path panicked same ready h = (Ready-Same p p' same ready, refl)
  assign-Chosen p p' path out_of_fuel same ready h = absurd (ground (arith, h))

  lard-Chosen :
      (ignore : List String) (path : String) (p : Proxy F)
      → Ready p
      → Chosen (lard_choose_server o ignore path p)
  unfolding lard_choose_server
  lard-Chosen ignore path p ready =
      assign-Chosen p (lard_target o ignore path p).0 path (lard_target o ignore path p).1
        (ap (map (λ s. s.name)) (lard_target-servers o ignore path p), lard_target-rr ignore path p)
        ready (lard_target-halts ignore path p)

  pub choose_by_policy-Chosen :
      (ignore : List String) (path : String) (p : Proxy F)
      → Ready p
      → length ignore < length p.servers
      → Chosen (choose_by_policy o ignore path p)
  unfolding choose_by_policy
  choose_by_policy-Chosen ignore path p ready lt =
      elim (Bool-cases (str_eq p.policy "RoundRobin")) [
        | inl t ↦ rw t (round_robin-Chosen ignore p ready lt)
        | inr u ↦ elim (Bool-cases (str_eq p.policy "LARD")) [
          | inl t ↦ rw (u, t) (lard-Chosen ignore path p ready)
          | inr v ↦ rw (u, v) (ready, refl)
        ]
      ]
