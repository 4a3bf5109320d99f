-- ===== src/Balancer/Proxy/LeastLoad.antt =====
-- `getLeastLoad`: the server with the least load below 1 that is not over its limit.
use s19_lambda.Base.{
  ℕ, ◌<◌, ◌≡◌, refl, sym, ap, ◌∙◌, inl, inr, subst, Bool, true, false, none, some, get_elem?,
  length, arith, Option-cases, lt_of_get_elem?,
}
use s19_lambda.Base.Int.{pos}
use s19_lambda.Balancer.Servers.{FloatOps, Server, Proxy, get_load}
use s19_lambda.Balancer.Proxy.{chosen, nil, least_loop, least_from, get_least_load}
use s19_lambda.Balancer.Proxy.Search.{
  not_above, IsTarget, least_loop-Seen, round_meets, nothing-Seen,
}

module _ {F : Type 0} (o : FloatOps F) (p : Proxy F) (start : ℕ)
    (irrefl : (a : F) → o.lt a a ≡ false)
    (trans : (a b c : F) → o.lt a b ≡ true → o.lt b c ≡ true → o.lt a c ≡ true)
    (within : start < length p.servers) (j : ℕ) (t : Server F)
    (there : get_elem? p.servers j ≡ some t) (room : not_above t ≡ true) where
  searched :
      let found =
        least_loop o p.load_formula p.servers start (length p.servers) 0 (o.of_int (pos 1)) none in
      (min : F) × IsTarget o p.load_formula p.servers start irrefl trans min found
      × (o.lt (get_load o p.load_formula t) min ≡ false)
  searched =
      let one = o.of_int (pos 1) in
      let n = length p.servers in
      let (min, seen) =
        least_loop-Seen o p.load_formula p.servers start irrefl trans n n 0 one none (omega arith)
          (nothing-Seen o p.load_formula p.servers start irrefl trans) in
      let (i, lt, at) =
        round_meets o p.load_formula p.servers start irrefl trans j within
          (lt_of_get_elem? p.servers j t there) in
      (min, seen.is_target, seen.least i t lt (rw at there) room)

  least_from-chosen :
      (k : ℕ) (s : Server F)
      → least_from o p start ≡ chosen k
      → get_elem? p.servers k ≡ some s
      → (not_above s ≡ true)
        × (o.lt (get_load o p.load_formula s) (o.of_int (pos 1)) ≡ true)
        × (o.lt (get_load o p.load_formula t) (get_load o p.load_formula s) ≡ false)
  unfolding least_from
  least_from-chosen k s e here =
      let (min, target, least) = searched in
      elim (Option-cases (
        least_loop o p.load_formula p.servers start (length p.servers) 0 (o.of_int (pos 1)) none)) [
          | inl none_found ↦ absurd (ground (arith, none_found, e))
          | inr (i, found) ↦
              let same : i ≡ k = ground (arith, found, e) in
              let (u, at_i, has_room, load_u, below) =
                subst (IsTarget o p.load_formula p.servers start irrefl trans min) found target in
              let one_server : u ≡ s = ground (arith, at_i, here, same) in
              let load_s : get_load o p.load_formula s ≡ min =
                ap (get_load o p.load_formula) (sym one_server) ∙ load_u in
              (
                subst (λ x. not_above x ≡ true) one_server has_room,
                rw load_s below,
                rw load_s least,
              )
        ]

  least_from-nil :
      least_from o p start ≡ nil → o.lt (get_load o p.load_formula t) (o.of_int (pos 1)) ≡ false
  unfolding least_from
  least_from-nil e =
      let (min, target, least) = searched in
      elim (Option-cases (
        least_loop o p.load_formula p.servers start (length p.servers) 0 (o.of_int (pos 1)) none)) [
          | inl none_found ↦
              let one =
                subst (IsTarget o p.load_formula p.servers start irrefl trans min) none_found
                  target in
              subst (λ x. o.lt (get_load o p.load_formula t) x ≡ false) one least
          | inr (i, found) ↦ absurd (ground (arith, found, e))
        ]

-- What `getLeastLoad` chooses is not above its limit on connections, which it may have reached, and has a load
-- below 1; no server that is not above its limit has a smaller load, whatever the formula and wherever the
-- search starts. The index that the search starts from is to be that of a server, and the order on the loads
-- irreflexive and transitive, as that of Go's floats is.
pub get_least_load-chosen :
    {F : Type 0} (o : FloatOps F) (move_index : Bool) (p : Proxy F) (k j : ℕ) (s t : Server F)
    → ((a : F) → o.lt a a ≡ false)
    → ((a b c : F) → o.lt a b ≡ true → o.lt b c ≡ true → o.lt a c ≡ true)
    → p.least_load_idx < length p.servers
    → (get_least_load o move_index p).1 ≡ chosen k
    → get_elem? p.servers k ≡ some s
    → get_elem? p.servers j ≡ some t
    → not_above t ≡ true
    → (not_above s ≡ true)
      × (o.lt (get_load o p.load_formula s) (o.of_int (pos 1)) ≡ true)
      × (o.lt (get_load o p.load_formula t) (get_load o p.load_formula s) ≡ false)
unfolding get_least_load
get_least_load-chosen o false p k j s t irrefl trans idx e here there room =
    least_from-chosen o p 0 irrefl trans (omega arith) j t there room k s e here
get_least_load-chosen o true p k j s t irrefl trans idx e here there room =
    least_from-chosen o p p.least_load_idx irrefl trans idx j t there room k s (ground (arith, e))
      here

-- `getLeastLoad` gives no server only where each that is not above its limit has a load that is not below 1.
pub get_least_load-nil :
    {F : Type 0} (o : FloatOps F) (move_index : Bool) (p : Proxy F) (j : ℕ) (t : Server F)
    → ((a : F) → o.lt a a ≡ false)
    → ((a b c : F) → o.lt a b ≡ true → o.lt b c ≡ true → o.lt a c ≡ true)
    → p.least_load_idx < length p.servers
    → (get_least_load o move_index p).1 ≡ nil
    → get_elem? p.servers j ≡ some t
    → not_above t ≡ true
    → o.lt (get_load o p.load_formula t) (o.of_int (pos 1)) ≡ false
unfolding get_least_load
get_least_load-nil o false p j t irrefl trans idx e there room =
    least_from-nil o p 0 irrefl trans (omega arith) j t there room e
get_least_load-nil o true p j t irrefl trans idx e there room =
    least_from-nil o p p.least_load_idx irrefl trans idx j t there room (ground (arith, e))

pub least_from-none :
    {F : Type 0} (o : FloatOps F) (p : Proxy F) (start : ℕ) (irrefl : (a : F) → o.lt a a ≡ false)
    (trans : (a b c : F) → o.lt a b ≡ true → o.lt b c ≡ true → o.lt a c ≡ true)
    → ((j : ℕ) (t : Server F)
        → get_elem? p.servers j ≡ some t
        → not_above t ≡ true
        → o.lt (get_load o p.load_formula t) (o.of_int (pos 1)) ≡ false)
    → least_from o p start ≡ nil
unfolding least_from
least_from-none o p start irrefl trans all_full =
    let one = o.of_int (pos 1) in
    let n = length p.servers in
    let (min, seen) =
      least_loop-Seen o p.load_formula p.servers start irrefl trans n n 0 one none (omega arith)
        (nothing-Seen o p.load_formula p.servers start irrefl trans) in
    elim (Option-cases (least_loop o p.load_formula p.servers start n 0 one none)) [
      | inl none_found ↦ rw (none_found, least_from) refl
      | inr (i, found) ↦
          let (u, at_i, has_room, load_u, below) =
            subst (IsTarget o p.load_formula p.servers start irrefl trans min) found
              seen.is_target in
          let full = all_full i u at_i has_room in
          let less : o.lt (get_load o p.load_formula u) one ≡ true = rw load_u below in absurd cc
    ]
