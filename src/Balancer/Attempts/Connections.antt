-- ===== src/Balancer/Attempts/Connections.antt =====
-- The numbers of connections before and after the attempts.
use s19_lambda.Base.{
  ℕ, zero, suc, ◌+◌, ◌≡◌, ◌≢◌, refl, ap, ◌∙◌, String, Bool, true, false, some, List, [], ◌∷◌, ◌++◌,
  map, length, str_eq, ◌==◌, update_str, ◌%◌, leb, arith, Bool-cases, Option-cases, inl, inr,
}
use s19_lambda.Base.Int.{ℤ, pos, ◌+ℤ◌, ◌-ℤ◌}
use s19_lambda.Balancer.Servers.{FloatOps, Server, Proxy}
use s19_lambda.Balancer.Proxy.{
  Choice, chosen, nil, panicked, out_of_fuel, modify, connect, disconnect,
  round_robin_choose_server, lard_choose_server, lard_target, get_least_load, take_server, assign,
  rr_loop,
}
use s19_lambda.Balancer.Attempts.{
  Request, redirected, Reply, unparsed, refused, failed, unreadable, answered, Outcome, not_found,
  nothing, status, crashed, endless, Proxied, try_next, done, with_load, record_load, reverse_proxy,
  choose_by_policy, name_of, most_attempts, after_reply, send, attempt_servers,
}

-- The connections of the servers, in the order of the servers.
abbrev pub connections_of : {F : Type 0} → Proxy F → List ℤ
connections_of p = map (λ s. s.connections) p.servers

abbrev inc : ℤ → ℤ
inc n = n +ℤ pos 1

abbrev dec : ℤ → ℤ
dec n = n -ℤ pos 1

dec-inc : (n : ℤ) → dec (inc n) ≡ n
unfolding ◌+ℤ◌ ◌-ℤ◌
dec-inc n = ground arith

modify-modify : (k : ℕ) (l : List ℤ) → modify k dec (modify k inc l) ≡ l
modify-modify k [] = refl
modify-modify zero (x ∷ xs) = rw (dec-inc x) refl
modify-modify (suc k) (x ∷ xs) = ap (λ l. x ∷ l) (modify-modify k xs)

map-modify :
    {F : Type 0} (k : ℕ) (f : Server F → Server F) (g : ℤ → ℤ) (l : List (Server F))
    → ((s : Server F) → (f s).connections ≡ g s.connections)
    → map (λ s. s.connections) (modify k f l) ≡ modify k g (map (λ s. s.connections) l)
map-modify k f g [] e = refl
map-modify zero f g (s ∷ l) e = ap (λ c. c ∷ map (λ s. s.connections) l) (e s)
map-modify (suc k) f g (s ∷ l) e = ap (λ cs. s.connections ∷ cs) (map-modify k f g l e)

modify_same : (k : ℕ) (l : List ℤ) → modify k (λ n. n) l ≡ l
modify_same k [] = refl
modify_same zero (x ∷ xs) = refl
modify_same (suc k) (x ∷ xs) = ap (λ l. x ∷ l) (modify_same k xs)

-- A choice that gives a server has counted one connection at it; any other has counted none.
abbrev pub IsCounted : {F : Type 0} → Proxy F → Proxy F → Choice → Type 0
IsCounted p p' (chosen k) = connections_of p' ≡ modify k inc (connections_of p)
IsCounted p p' _ = connections_of p' ≡ connections_of p

connect_lem :
    {F : Type 0} (k : ℕ) (p : Proxy F)
    → connections_of (connect k p) ≡ modify k inc (connections_of p)
connect_lem k p =
    map-modify k (λ s. record s { connections = s.connections +ℤ pos 1 }) inc p.servers (λ s. refl)

disconnect_lem :
    {F : Type 0} (k : ℕ) (p : Proxy F)
    → connections_of (disconnect k p) ≡ modify k dec (connections_of p)
disconnect_lem k p =
    map-modify k (λ s. record s { connections = s.connections -ℤ pos 1 }) dec p.servers (λ s. refl)

take_server-IsCounted :
    {F : Type 0} (p : Proxy F) (c : Choice) → IsCounted p (take_server p c).0 (take_server p c).1
take_server-IsCounted p (chosen k) = connect_lem k (record p { rr_server_idx = k })
take_server-IsCounted p nil = refl
take_server-IsCounted p panicked = refl
take_server-IsCounted p out_of_fuel = refl

round_robin-IsCounted :
    {F : Type 0} (fuel : ℕ) (ignore : List String) (p : Proxy F)
    → let r = round_robin_choose_server fuel ignore p in IsCounted p r.0 r.1
unfolding round_robin_choose_server
round_robin-IsCounted fuel ignore p = elim (Bool-cases (length p.servers == 0)) [
  | inl empty ↦ rw empty refl
  | inr some_left ↦ rw some_left (
      take_server-IsCounted p (
        rr_loop fuel ignore p.servers p.rr_server_idx true
          ((p.rr_server_idx + 1) % length p.servers)))
]

module _ {F : Type 0} (o : FloatOps F) where
  get_least_load-servers :
      (move : Bool) (p : Proxy F) → (get_least_load o move p).0.servers ≡ p.servers
  unfolding get_least_load
  get_least_load-servers false p = refl
  get_least_load-servers true p = ground arith

  pub lard_target-servers :
      (ignore : List String) (path : String) (p : Proxy F)
      → (lard_target o ignore path p).0.servers ≡ p.servers
  unfolding lard_target
  lard_target-servers ignore path p = ground (arith, get_least_load-servers true p)

  assign-IsCounted :
      (p p' : Proxy F) (path : String) (c : Choice)
      → p'.servers ≡ p.servers
      → IsCounted p (assign o path (p', c)).0 (assign o path (p', c)).1
  assign-IsCounted p p' path (chosen k) e =
      connect_lem k
        (record p' { request_server_map = update_str p'.request_server_map path (some k) })
      ∙ ap (λ l. modify k inc (map (λ s. s.connections) l)) e
  assign-IsCounted p p' path nil e = ap (map (λ s. s.connections)) e
  assign-IsCounted p p' path panicked e = ap (map (λ s. s.connections)) e
  assign-IsCounted p p' path out_of_fuel e = ap (map (λ s. s.connections)) e

  lard-IsCounted :
      (ignore : List String) (path : String) (p : Proxy F)
      → let r = lard_choose_server o ignore path p in IsCounted p r.0 r.1
  unfolding lard_choose_server
  lard-IsCounted ignore path p =
      let (p', c) = lard_target o ignore path p in
      assign-IsCounted p (lard_target o ignore path p).0 path (lard_target o ignore path p).1
        (lard_target-servers ignore path p)

  -- Both policies count the connection at the server they choose.
  choose_by_policy-IsCounted :
      (ignore : List String) (path : String) (p : Proxy F)
      → let r = choose_by_policy o ignore path p in IsCounted p r.0 r.1
  unfolding choose_by_policy
  choose_by_policy-IsCounted ignore path p = elim (Bool-cases (str_eq p.policy "RoundRobin")) [
    | inl t ↦ rw t (round_robin-IsCounted (length p.servers + length p.servers) ignore p)
    | inr u ↦ elim (Bool-cases (str_eq p.policy "LARD")) [
      | inl t ↦ rw (u, t) (lard-IsCounted ignore path p)
      | inr v ↦ rw (u, v) refl
    ]
  ]

  record_load-connections :
      (path : String) (cpu : F) (free total : ℤ) (p p' : Proxy F)
      → record_load o path cpu free total p ≡ some p'
      → connections_of p' ≡ connections_of p
  unfolding record_load
  record_load-connections path cpu free total p p' e = elim (Bool-cases (str_eq p.policy "LARD")) [
    | inr other ↦ let same : p' ≡ p = ground (arith, other, e) in ap connections_of same
    | inl lard ↦ elim (Option-cases (p.request_server_map path)) [
      | inl missing ↦ absurd (ground (arith, lard, missing, e))
      | inr (k, there) ↦
          let loaded : Proxy F = record p {
            servers = modify k (with_load o cpu free total) p.servers;
          } in
          let same : p' ≡ loaded = ground (arith, lard, there, e) in
          ap connections_of same
          ∙ map-modify k (with_load o cpu free total) (λ n. n) p.servers (λ s. refl)
          ∙ modify_same k (connections_of p)
    ]
  ]

  reverse_proxy-connections :
      (r : Reply F) (req : Request) (p : Proxy F)
      → connections_of (reverse_proxy o r req p).0 ≡ connections_of p
  unfolding reverse_proxy
  reverse_proxy-connections unparsed req p = refl
  reverse_proxy-connections refused req p = refl
  reverse_proxy-connections failed req p = refl
  reverse_proxy-connections unreadable req p =
      elim (Option-cases
        (record_load o (redirected req).url_path (o.of_int (pos 0)) (pos 0) (pos 0) p)) [
          | inl e ↦ rw (e, reverse_proxy) refl
          | inr (p', e) ↦
              rw (e, reverse_proxy)
                (record_load-connections (redirected req).url_path (o.of_int (pos 0)) (pos 0)
                  (pos 0) p p' e)
        ]
  reverse_proxy-connections (answered code cpu free total) req p =
      elim (Option-cases (record_load o (redirected req).url_path cpu free total p)) [
        | inl e ↦ rw (e, reverse_proxy) refl
        | inr (p', e) ↦
            rw (e, reverse_proxy)
              (record_load-connections (redirected req).url_path cpu free total p p' e)
      ]

  -- After the request to the server that was chosen, its connection is given back.
  finish-connections :
      (k : ℕ) (p q : Proxy F)
      → connections_of q ≡ modify k inc (connections_of p)
      → connections_of (disconnect k q) ≡ connections_of p
  finish-connections k p q e =
      disconnect_lem k q ∙ ap (modify k dec) e ∙ modify-modify k (connections_of p)

  module _ (retry : String → Proxy F → Proxy F × Outcome)
      (again : (name : String) (q : Proxy F)
        → (retry name q).1 ≢ crashed
        → connections_of (retry name q).0 ≡ connections_of q) where
    after_reply-connections :
        (name : String) (k : ℕ) (p q : Proxy F) (r : Proxied)
        → connections_of q ≡ modify k inc (connections_of p)
        → (after_reply o (retry name) k (q, r)).1 ≢ crashed
        → connections_of (after_reply o (retry name) k (q, r)).0 ≡ connections_of p
    unfolding after_reply
    after_reply-connections name k p q (done crashed) e fine = absurd (fine refl)
    after_reply-connections name k p q (done not_found) e fine = finish-connections k p q e
    after_reply-connections name k p q (done nothing) e fine = finish-connections k p q e
    after_reply-connections name k p q (done (status n)) e fine = finish-connections k p q e
    after_reply-connections name k p q (done endless) e fine = finish-connections k p q e
    after_reply-connections name k p q try_next e fine =
        again name (disconnect k q) fine ∙ finish-connections k p q e

    send-connections :
        (reply : ℕ → Reply F) (req : Request) (p p' : Proxy F) (c : Choice)
        → IsCounted p p' c
        → (send o retry reply req (p', c)).1 ≢ crashed
        → connections_of (send o retry reply req (p', c)).0 ≡ connections_of p
    unfolding send
    send-connections reply req p p' nil e fine = e
    send-connections reply req p p' panicked e fine = absurd (fine refl)
    send-connections reply req p p' out_of_fuel e fine = e
    send-connections reply req p p' (chosen k) e fine =
        let (q, r) = reverse_proxy o (reply k) req p' in
        after_reply-connections (name_of o p' k) k p (reverse_proxy o (reply k) req p').0
          (reverse_proxy o (reply k) req p').1 (reverse_proxy-connections (reply k) req p' ∙ e) fine

-- Whatever the servers reply, a request that does not crash the proxy leaves each server with as many
-- connections as it had before the first attempt, on any fuel, by either policy.
pub attempt_servers-connections :
    {F : Type 0} (o : FloatOps F) (fuel : ℕ) (reply : ℕ → ℕ → Reply F) (ignore : List String)
    (req : Request) (p : Proxy F)
    → (attempt_servers o fuel reply ignore req p).1 ≢ crashed
    → connections_of (attempt_servers o fuel reply ignore req p).0 ≡ connections_of p
unfolding attempt_servers
attempt_servers-connections o zero reply ignore req p fine = refl
attempt_servers-connections o (suc f) reply ignore req p fine =
    elim (Bool-cases (leb (most_attempts o p) (length ignore))) [
      | inl stop ↦ rw (stop, attempt_servers) refl
      | inr go ↦
          rw (go, attempt_servers)
            (send-connections o
              (λ name. attempt_servers o f reply (ignore ++ name ∷ []) (redirected req))
              (λ name q ok.
                attempt_servers-connections o f reply (ignore ++ name ∷ []) (redirected req) q ok)
              (reply (length ignore)) req p (choose_by_policy o ignore req.url_path p).0
              (choose_by_policy o ignore req.url_path p).1
              (choose_by_policy-IsCounted o ignore req.url_path p)
              (rw (go, attempt_servers) at fine))
    ]
