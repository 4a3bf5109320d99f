-- ===== src/Balancer/Proxy/RoundRobin.antt =====
-- `roundRobinChooseServer`: the servers in turn, from the one after the last choice on.
use native.Mathlib.Nat.{mod_self}
use s19_lambda.Base.{
  append-nil, ℕ, zero, suc, ◌+◌, ◌-◌, ◌%◌, ◌<◌, ◌≤◌, ◌≡◌, ◌≢◌, ◌⊎◌, refl, inl, inr, String, Bool,
  true, false, List, [], ◌∷◌, ◌++◌, length, if◌then◌else◌, ◌==◌, arith, next_cases, range,
  Bool-cases,
}
use s19_lambda.Balancer.Servers.{Server, Proxy}
use s19_lambda.Balancer.Proxy.{
  Choice, chosen, nil, out_of_fuel, is_ignored, rr_loop, round_robin_choose_server, take_server,
}

-- The first server of a row of indices that is not to be ignored.
unfoldable pub find_free : {F : Type 0} → List String → List (Server F) → List ℕ → Choice
find_free ignore servers [] = nil
find_free ignore servers (k ∷ ks) =
    let rest = find_free ignore servers ks in if is_ignored ignore servers k then rest else chosen k

module _ {F : Type 0} (ignore : List String) (servers : List (Server F)) (rr : ℕ) where
  -- The part of the round below the server that was next.
  low_part :
      (m k f : ℕ)
      → k + m ≡ rr + 1
      → rr + 1 < length servers
      → m < f
      → rr_loop f ignore servers rr false k ≡ find_free ignore servers (range k m)
  unfolding rr_loop find_free
  low_part m k zero e lt fuel = absurd (omega arith)
  low_part zero k (suc f) e lt fuel = ground arith
  low_part (suc m) k (suc f) e lt fuel = elim (next_cases k (length servers) (omega arith)) [
    | inl (n, more) ↦ rw n (ground (arith, low_part m (k + 1) f (omega arith) lt (omega arith)))
    | inr (n, at) ↦ absurd (omega arith)
  ]

  -- The part from there on, and what follows it.
  high_part :
      (m k f : ℕ) (first_attempt : Bool)
      → suc k + m ≡ length servers
      → rr + 1 < length servers
      → rr + 1 ≤ k
      → (first_attempt ≡ true) ⊎ (rr + 1 < k)
      → suc (m + rr + 1) < f
      → rr_loop f ignore servers rr first_attempt k
        ≡ find_free ignore servers (range k (suc m) ++ range 0 (rr + 1))
  unfolding rr_loop find_free
  high_part m k zero first_attempt e lt from go fuel = absurd (omega arith)
  high_part zero k (suc f) first_attempt e lt from go fuel =
      elim (next_cases k (length servers) (omega arith)) [
        | inl (n, more) ↦ absurd (omega arith)
        | inr (n, at) ↦ rw n (ground (arith, low_part (rr + 1) 0 f (omega arith) lt (omega arith)))
      ]
  high_part (suc m) k (suc f) first_attempt e lt from go fuel =
      elim (next_cases k (length servers) (omega arith)) [
        | inl (n, more) ↦ rw n (
            ground (
              arith,
              high_part m (k + 1) f false (omega arith) lt (omega arith) (inr (omega arith))
                  (omega arith),
            ))
        | inr (n, at) ↦ absurd (omega arith)
      ]

  -- From the first server on, where the last one was chosen before: the loop has no end of its own.
  whole_part :
      (m k j f : ℕ) (first_attempt : Bool)
      → k + m ≡ length servers
      → rr + 1 ≡ length servers
      → k ≤ j
      → j < length servers
      → is_ignored ignore servers j ≡ false
      → m ≤ f
      → rr_loop f ignore servers rr first_attempt k ≡ find_free ignore servers (range k m)
  unfolding rr_loop find_free
  whole_part zero k j f first_attempt e last from lt free fuel = absurd (omega arith)
  whole_part (suc m) k j zero first_attempt e last from lt free fuel = absurd (omega arith)
  whole_part (suc m) k j (suc f) first_attempt e last from lt free fuel =
      elim (next_cases k (length servers) (omega arith)) [
        | inl (n, more) ↦ elim (Bool-cases (is_ignored ignore servers k)) [
          | inl skip ↦
              let differ : k ≢ j = λ same. cc in
              let later : k + 1 ≤ j = omega arith in
              rw n (
                ground (
                  arith,
                  skip,
                  whole_part m (k + 1) j f false (omega arith) last later lt free (omega arith),
                ))
          | inr stop ↦ ground (arith, stop)
        ]
        | inr (n, at) ↦
            let same : k ≡ j = omega arith in
            let stop : is_ignored ignore servers k ≡ false = rw same free in ground (arith, stop)
      ]

  -- Without a server that is not to be ignored, such a loop does not end.
  no_end :
      (f k : ℕ) (first_attempt : Bool)
      → rr + 1 ≡ length servers
      → k < length servers
      → ((i : ℕ) → i < length servers → is_ignored ignore servers i ≡ true)
      → rr_loop f ignore servers rr first_attempt k ≡ out_of_fuel
  unfolding rr_loop
  no_end zero k first_attempt last lt all_ignored = refl
  no_end (suc f) k first_attempt last lt all_ignored = elim (next_cases k (length servers) lt) [
    | inl (n, more) ↦
        rw n (ground (arith, all_ignored k lt, no_end f (k + 1) false last more all_ignored))
    | inr (n, at) ↦
        rw n (ground (arith, all_ignored k lt, no_end f 0 false last (omega arith) all_ignored))
  ]

round_robin_loop :
    {F : Type 0} (fuel : ℕ) (ignore : List String) (p : Proxy F)
    → 0 < length p.servers
    → round_robin_choose_server fuel ignore p
      ≡ take_server p (
          rr_loop fuel ignore p.servers p.rr_server_idx true
            ((p.rr_server_idx + 1) % length p.servers))
unfolding round_robin_choose_server
round_robin_loop fuel ignore p some_server =
    let some_left : (length p.servers == 0) ≡ false = ground arith in rw some_left refl

-- The servers from the index `start` on, and then those before it.
abbrev pub round : ℕ → ℕ → List ℕ
round start n = range start (n - start) ++ range 0 start

-- Where the last index is within the servers and one of them is not to be ignored, the choice is the
-- first such server in the round that starts after the last choice. Twice round the servers is
-- enough fuel, so the loop ends.
pub round_robin_next :
    {F : Type 0} (ignore : List String) (p : Proxy F) (j : ℕ)
    → p.rr_server_idx < length p.servers
    → j < length p.servers
    → is_ignored ignore p.servers j ≡ false
    → let n = length p.servers in
      round_robin_choose_server (n + n) ignore p
      ≡ take_server p (find_free ignore p.servers (round ((p.rr_server_idx + 1) % n) n))
round_robin_next ignore p j idx lt free =
    let n = length p.servers in
    let rr = p.rr_server_idx in
    let entered = round_robin_loop (n + n) ignore p (omega arith) in
    elim (next_cases rr n idx) [
      | inl (next, more) ↦
          let left : n - (rr + 1) ≡ suc (n - (rr + 2)) = omega arith in
          let scan =
            high_part ignore p.servers rr (n - (rr + 2)) (rr + 1) (n + n) true (omega arith) more
              (omega arith) (inl refl) (omega arith) in
          rw (entered, next, left, scan) refl
      | inr (next, at) ↦
          let left : n - 0 ≡ n = omega arith in
          let scan =
            whole_part ignore p.servers rr n 0 j (n + n) true (omega arith) at (omega arith) lt free
              (omega arith) in
          rw (entered, next, left, append-nil (range 0 n), scan) refl
    ]

-- Where every server is to be ignored and the last choice was the last server, the loop does not end,
-- on any fuel.
pub round_robin_hangs :
    {F : Type 0} (fuel : ℕ) (ignore : List String) (p : Proxy F)
    → p.rr_server_idx + 1 ≡ length p.servers
    → ((i : ℕ) → i < length p.servers → is_ignored ignore p.servers i ≡ true)
    → round_robin_choose_server fuel ignore p ≡ (p, out_of_fuel)
round_robin_hangs fuel ignore p last all_ignored =
    let start : (p.rr_server_idx + 1) % length p.servers ≡ 0 = rw last (mod_self _) in
    rw
      (
        round_robin_loop fuel ignore p (omega arith),
        start,
        no_end ignore p.servers p.rr_server_idx fuel 0 true last (omega arith) all_ignored,
      )
      refl
