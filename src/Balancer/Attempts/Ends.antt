-- ===== src/Balancer/Attempts/Ends.antt =====
-- The attempts come to an end where the servers have different names.
use s19_lambda.Base.{
  ℕ, zero, suc, ◌+◌, ◌<◌, ◌≤◌, ◌≡◌, ◌≢◌, refl, ap, ◌∙◌, String, Bool, true, false, some, List, [],
  ◌∷◌, ◌++◌, length, length-append, str_eq, leb, arith, Bool-cases, Option-cases, inl, inr,
}
use s19_lambda.Base.Int.{ℤ, pos}
use s19_lambda.Balancer.Servers.{FloatOps, Proxy}
use s19_lambda.Balancer.Proxy.{Choice, chosen, nil, panicked, out_of_fuel, modify, disconnect}
use s19_lambda.Balancer.Attempts.{
  Request, redirected, write_header, Reply, unparsed, refused, failed, unreadable, answered,
  Outcome, not_found, nothing, status, crashed, endless, Proxied, try_next, done, with_load,
  record_load, reverse_proxy, choose_by_policy, name_of, most_attempts, after_reply, send,
  attempt_servers,
}
use s19_lambda.Balancer.Attempts.Ready.{
  names_of, Ready, Same, Ready-Same, halts, names-modify, disconnect-names, choose_by_policy-Chosen,
}

abbrev is_over : Proxied → Bool
is_over try_next = true
is_over (done endless) = false
is_over (done not_found) = true
is_over (done nothing) = true
is_over (done crashed) = true
is_over (done (status n)) = true

module _ {F : Type 0} (o : FloatOps F) where
  record_load-Same :
      (path : String) (cpu : F) (free total : ℤ) (p p' : Proxy F)
      → record_load o path cpu free total p ≡ some p'
      → Same p p'
  unfolding record_load
  record_load-Same path cpu free total p p' e = elim (Bool-cases (str_eq p.policy "LARD")) [
    | inr other ↦
        let same : p' ≡ p = ground (arith, other, e) in
        (ap names_of same, ap (λ q. q.rr_server_idx) same)
    | inl lard ↦ elim (Option-cases (p.request_server_map path)) [
      | inl missing ↦ absurd (ground (arith, lard, missing, e))
      | inr (k, there) ↦
          let loaded : Proxy F = record p {
            servers = modify k (with_load o cpu free total) p.servers;
          } in
          let same : p' ≡ loaded = ground (arith, lard, there, e) in
          (
            ap names_of same ∙ names-modify k (with_load o cpu free total) p.servers (λ s. refl),
            ap (λ q. q.rr_server_idx) same,
          )
    ]
  ]

  write_header-is_over : (code : ℕ) → is_over (done (write_header o code)) ≡ true
  write_header-is_over code = ground arith

  recorded-Same :
      (r : Reply F) (req : Request) (p : Proxy F)
      → Same p (reverse_proxy o r req p).0 × (is_over (reverse_proxy o r req p).1 ≡ true)
  unfolding reverse_proxy
  recorded-Same unparsed req p = ((refl, refl), refl)
  recorded-Same refused req p = ((refl, refl), refl)
  recorded-Same failed req p = ((refl, refl), refl)
  recorded-Same unreadable req p =
      elim (Option-cases
        (record_load o (redirected req).url_path (o.of_int (pos 0)) (pos 0) (pos 0) p)) [
          | inl e ↦ rw (e, reverse_proxy) ((refl, refl), refl)
          | inr (p', e) ↦
              rw (e, reverse_proxy)
                (
                  record_load-Same (redirected req).url_path (o.of_int (pos 0)) (pos 0) (pos 0) p p'
                      e,
                  refl,
                )
        ]
  recorded-Same (answered code cpu free total) req p =
      elim (Option-cases (record_load o (redirected req).url_path cpu free total p)) [
        | inl e ↦ rw (e, reverse_proxy) ((refl, refl), refl)
        | inr (p', e) ↦
            rw (e, reverse_proxy)
              (
                record_load-Same (redirected req).url_path cpu free total p p' e,
                write_header-is_over code,
              )
      ]

  module _ (retry : String → Proxy F → Proxy F × Outcome)
      (again : (name : String) (q : Proxy F) → Ready q → (retry name q).1 ≢ endless) where
    after_reply_ends :
        (name : String) (k : ℕ) (q : Proxy F) (r : Proxied)
        → Ready q
        → is_over r ≡ true
        → (after_reply o (retry name) k (q, r)).1 ≢ endless
    unfolding after_reply
    after_reply_ends name k q try_next ready over =
        again name (disconnect k q)
          (Ready-Same q (disconnect k q) (disconnect-names k q, refl) ready)
    after_reply_ends name k q (done crashed) ready over = λ e. cc
    after_reply_ends name k q (done not_found) ready over = λ e. cc
    after_reply_ends name k q (done nothing) ready over = λ e. cc
    after_reply_ends name k q (done (status n)) ready over = λ e. cc
    after_reply_ends name k q (done endless) ready over = absurd (ground (arith, over))

    send_ends :
        (reply : ℕ → Reply F) (req : Request) (p : Proxy F) (c : Choice)
        → Ready p
        → halts c ≡ true
        → (send o retry reply req (p, c)).1 ≢ endless
    unfolding send
    send_ends reply req p nil ready h = λ e. cc
    send_ends reply req p panicked ready h = λ e. cc
    send_ends reply req p out_of_fuel ready h = absurd (ground (arith, h))
    send_ends reply req p (chosen k) ready h =
        let (same, over) = recorded-Same (reply k) req p in
        after_reply_ends (name_of o p k) k (reverse_proxy o (reply k) req p).0
          (reverse_proxy o (reply k) req p).1
          (Ready-Same p (reverse_proxy o (reply k) req p).0 same ready) over

  attempts_left_end :
      (f : ℕ) (reply : ℕ → ℕ → Reply F) (ignore : List String) (req : Request) (p : Proxy F)
      → Ready p
      → 4 ≤ f + length ignore
      → 0 < f
      → (attempt_servers o f reply ignore req p).1 ≢ endless
  unfolding attempt_servers
  attempts_left_end zero reply ignore req p ready enough some_fuel =
      absurd (omega (arith, some_fuel))
  attempts_left_end (suc f) reply ignore req p ready enough some_fuel =
      elim (Bool-cases (leb (most_attempts o p) (length ignore))) [
        | inl stop ↦ rw (stop, attempt_servers) (λ e. cc)
        | inr go ↦
            let few : length ignore < length p.servers = ground (arith, go) in
            let below : length ignore < 3 = ground (arith, go) in
            let (ready', h) = choose_by_policy-Chosen o ignore req.url_path p ready few in
            rw (go, attempt_servers)
              (send_ends (λ name. attempt_servers o f reply (ignore ++ name ∷ []) (redirected req))
                (λ name q ready_q.
                  attempts_left_end f reply (ignore ++ name ∷ []) (redirected req) q ready_q
                    (omega (arith, length-append ignore (name ∷ []), enough))
                    (omega (arith, enough, below)))
                (reply (length ignore)) req (choose_by_policy o ignore req.url_path p).0
                (choose_by_policy o ignore req.url_path p).1 ready' h)
      ]

-- Where the servers have different names and the last choice of the round robin is one of them, a request
-- comes to an end, be it an answer, an error or a panic, by either policy and whatever the servers reply: four
-- calls of `attemptServers` are enough, and in none of them does the loop of the round robin run for ever.
pub attempt_servers_end :
    {F : Type 0} (o : FloatOps F) (fuel : ℕ) (reply : ℕ → ℕ → Reply F) (req : Request) (p : Proxy F)
    → Ready p
    → 4 ≤ fuel
    → (attempt_servers o fuel reply [] req p).1 ≢ endless
attempt_servers_end o fuel reply req p ready enough =
    attempts_left_end o fuel reply [] req p ready (omega (arith, enough)) (omega (arith, enough))
