-- ===== src/Balancer/Proxy/Search.antt =====
-- The loop of `getLeastLoad`: what it has found on its way round the servers.
use native.Mathlib.Nat.{mod-eq_of_lt, add-mod_right}
use s19_lambda.Base.{
  ℕ, zero, suc, ◌+◌, ◌-◌, ◌%◌, ◌<◌, ◌≡◌, ◌⊎◌, refl, ◌∙◌, inl, inr, subst, String, Bool, true, false,
  not, ◌&&◌, List, ltb, Option, none, some, get_elem?, length, ◌==◌, arith, Bool-cases,
  Option-cases,
}
use s19_lambda.Base.Int.{pos, eqb_ℤ, ltb_ℤ}
use s19_lambda.Balancer.Servers.{FloatOps, Server, unlimited, get_load}
use s19_lambda.Balancer.Proxy.{least_loop}

-- The limit on a server's queue leaves it in the choice: its connections are not above the limit, and may be
-- equal to it.
unfoldable pub not_above : {F : Type 0} → Server F → Bool
not_above s = not (not (eqb_ℤ s.max_conn unlimited) && ltb_ℤ s.max_conn s.connections)

module _ {F : Type 0} (o : FloatOps F) (formula : String) (servers : List (Server F)) (start : ℕ)
    (lt_irrefl : (a : F) → o.lt a a ≡ false)
    (lt_trans : (a b c : F) → o.lt a b ≡ true → o.lt b c ≡ true → o.lt a c ≡ true) where
  abbrev load : Server F → F
  load s = get_load o formula s

  -- Where the loop stands: the target so far is the least of those seen.
  abbrev pub IsTarget : F → Option ℕ → Type 0
  IsTarget min none = min ≡ o.of_int (pos 1)
  IsTarget min (some k) =
      (s : Server F) × (get_elem? servers k ≡ some s)
      × (not_above s ≡ true)
      × (load s ≡ min)
      × (o.lt min (o.of_int (pos 1)) ≡ true)

  pub record Seen (i : ℕ) (min : F) (target : Option ℕ) : Type 0 where
    pub is_target : IsTarget min target
    pub least :
        (j : ℕ) (s : Server F)
        → j < i
        → get_elem? servers ((start + j) % length servers) ≡ some s
        → not_above s ≡ true
        → o.lt (load s) min ≡ false

  module _ (i : ℕ) (min : F) (target : Option ℕ) (seen : Seen i min target) where
    -- One server more that is no better than the target.
    pass_over :
        ((t : Server F)
          → get_elem? servers ((start + i) % length servers) ≡ some t
          → not_above t ≡ true
          → o.lt (load t) min ≡ false)
        → Seen (suc i) min target
    pass_over why = record {
      is_target = seen.is_target;
      least = λ j t lt there place. elim (Bool-cases (j == i)) [
        | inl same ↦
            let e : j ≡ i = ground arith in
            why t (subst (λ x. get_elem? servers ((start + x) % length servers) ≡ some t) e there)
              place
        | inr u ↦ seen.least j t (ground arith) there place
      ];
    }

    below_one : o.lt min (o.of_int (pos 1)) ≡ true ⊎ (min ≡ o.of_int (pos 1))
    below_one = elim (Option-cases target) [
      | inl e ↦ inr (subst (IsTarget min) e seen.is_target)
      | inr (k, e) ↦
          let (s, there, place, same, less) = subst (IsTarget min) e seen.is_target in inl less
    ]

    module _ (s : Server F) (here : get_elem? servers ((start + i) % length servers) ≡ some s)
        (place : not_above s ≡ true) (less : o.lt (load s) min ≡ true) where
      take_least :
          (j : ℕ) (t : Server F)
          → j < suc i
          → get_elem? servers ((start + j) % length servers) ≡ some t
          → not_above t ≡ true
          → o.lt (load t) (load s) ≡ false
      take_least j t lt there room = elim (Bool-cases (o.lt (load t) (load s))) [
        | inr ge ↦ ge
        | inl better ↦ elim (Bool-cases (j == i)) [
          | inl same ↦
              let e : j ≡ i = ground arith in
              let at_i =
                subst (λ x. get_elem? servers ((start + x) % length servers) ≡ some t) e there in
              absurd (ground (arith, lt_irrefl (load s), at_i, here))
          | inr u ↦ absurd (
              ground (
                arith,
                seen.least j t (ground arith) there room,
                lt_trans (load t) (load s) min better less,
              ))
        ]
      ]

      take : Seen (suc i) (load s) (some ((start + i) % length servers))
      take = record {
        is_target = (
          s,
          here,
          place,
          refl,
          elim below_one [
            | inl below ↦ lt_trans (load s) min (o.of_int (pos 1)) less below
            | inr one ↦ subst (λ x. o.lt (load s) x ≡ true) one less
          ],
        );
        least = take_least;
      }

  -- The loop over the servers that are left, `n` of `total`.
  pub least_loop-Seen :
      (total n i : ℕ) (min : F) (target : Option ℕ)
      → i + n ≡ total
      → Seen i min target
      → (min' : F) × Seen total min' (least_loop o formula servers start n i min target)
  unfolding least_loop not_above
  least_loop-Seen total zero i min target e seen =
      (min, subst (λ x. Seen x min target) (omega arith) seen)
  least_loop-Seen total (suc n) i min target e seen =
      let skip = least_loop-Seen total n (suc i) min target (omega arith) in
      elim (Option-cases (get_elem? servers ((start + i) % length servers))) [
        | inl none_there ↦
            rw (none_there, least_loop) (skip (pass_over i min target seen (λ t there room. cc)))
        | inr (s, here) ↦
            elim (Bool-cases (not (eqb_ℤ s.max_conn unlimited) && ltb_ℤ s.max_conn s.connections)) [
              | inl over ↦
                  rw (here, over, least_loop)
                    (skip (
                      pass_over i min target seen
                        (λ t there room. ground (arith, here, there, over))))
              | inr under ↦ elim (Bool-cases (o.lt (load s) min)) [
                | inl less ↦
                    rw (here, under, less, least_loop)
                      (least_loop-Seen total n (suc i) (load s)
                        (some ((start + i) % length servers)) (omega arith)
                        (take i min target seen s here (rw under refl) less))
                | inr more ↦
                    rw (here, under, more, least_loop)
                      (skip (
                        pass_over i min target seen
                          (λ t there room. ground (arith, here, there, more))))
              ]
            ]
      ]

  -- Every server is met on the way round.
  pub round_meets :
      (j : ℕ)
      → start < length servers
      → j < length servers
      → (i : ℕ) × (i < length servers) × ((start + i) % length servers ≡ j)
  round_meets j s lt = elim (Bool-cases (ltb j start)) [
    | inr above ↦
        let back : start + (j - start) ≡ j = ground arith in
        (j - start, omega arith, rw back (mod-eq_of_lt lt))
    | inl below ↦
        let ahead : start + (length servers - start + j) ≡ j + length servers = omega arith in
        (
          length servers - start + j,
          ground arith,
          rw ahead (add-mod_right j (length servers) ∙ mod-eq_of_lt lt),
        )
  ]

pub nothing-Seen :
    {F : Type 0} (o : FloatOps F) (formula : String) (servers : List (Server F)) (start : ℕ)
    (irrefl : (a : F) → o.lt a a ≡ false)
    (trans : (a b c : F) → o.lt a b ≡ true → o.lt b c ≡ true → o.lt a c ≡ true)
    → Seen o formula servers start irrefl trans 0 (o.of_int (pos 1)) none
nothing-Seen o formula servers start irrefl trans = record {
  is_target = refl;
  least = λ j s lt there room. absurd (omega arith);
}
