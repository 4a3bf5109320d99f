-- ===== src/Worker/Cgroups/Apart.antt =====
-- No two containers of a factory share a control group; those of two factories can.
use s19_lambda.Base.{
  ℕ, zero, suc, ◌+◌, ◌≤◌, ◌<◌, ◌≡◌, ◌≢◌, refl, sym, ◌∙◌, ap, subst, Bool, true, none, some, List,
  [], ◌∷◌, ◌++◌, ◌==◌, get_elem?, arith, Bool-cases, Option-cases, inl, inr,
}
use s19_lambda.Worker.Cgroups.{
  CgName, pool_cg, own_cg, CgroupFactory, fill_pool, new_cgroup_factory, create,
}
use s19_lambda.Worker.Cgroups.Pool.{
  same_cg, count_cg, count_cg-append, count_used, System, Reach, PoolInv,
}
use s19_lambda.Worker.Cgroups.PoolRuns.{Reach-PoolInv}

-- What a pool is filled with: control groups of the pool below an index, once at most.
record Fresh (prefix i : ℕ) (free : List CgName) : Type 0 where
  once : (cg : CgName) → count_cg cg free ≤ 1
  below : (p j : ℕ) → i ≤ j → count_cg (pool_cg p j) free ≡ 0
  none_own : (n : ℕ) → count_cg (own_cg n) free ≡ 0

fill_pool-Fresh :
    (create : CgName → Bool) (prefix i left : ℕ) (free l : List CgName)
    → Fresh prefix i free
    → fill_pool create prefix i left free ≡ some l
    → Fresh prefix (i + left) l
unfolding fill_pool count_cg
fill_pool-Fresh create prefix i zero free l v e =
    let same : free ≡ l = ground (arith, e) in
    let stay : i + 0 ≡ i = omega arith in rw (stay, sym same) v
fill_pool-Fresh create prefix i (suc left) free l v e =
    let cg = pool_cg prefix i in
    let more : suc i + left ≡ i + suc left = omega arith in
    let w : Fresh prefix (suc i) (free ++ cg ∷ []) = record {
      once = once;
      below = λ p j le.
          unfold count_cg in
          ground (arith, v.below p j, count_cg-append (pool_cg p j) free (cg ∷ []));
      none_own = λ n.
          unfold count_cg in
          ground (arith, v.none_own n, count_cg-append (own_cg n) free (cg ∷ []));
    } in
    rw (sym more)
      (fill_pool-Fresh create prefix (suc i) left (free ++ cg ∷ []) l w (ground (arith, e)))
  where
    once : (x : CgName) → count_cg x (free ++ pool_cg prefix i ∷ []) ≤ 1
    once (pool_cg p j) = ground (
      arith,
      v.once (pool_cg p j),
      v.below p j,
      count_cg-append (pool_cg p j) free (pool_cg prefix i ∷ []),
    )
    once (own_cg n) =
        ground (arith, v.once (own_cg n), count_cg-append (own_cg n) free (pool_cg prefix i ∷ []))

abbrev pub first : CgroupFactory → System
first f = record { factory = record { cgf = f; next_id = 0 }; used = [] }

new_cgroup_factory-PoolInv :
    (create : CgName → Bool) (prefix size : ℕ) (f : CgroupFactory)
    → new_cgroup_factory create prefix size ≡ some f
    → PoolInv (first f)
unfolding new_cgroup_factory count_used
new_cgroup_factory-PoolInv create prefix size f e = elim (Bool-cases (size == 0)) [
  | inl z ↦
      let same : record { pool_size = size; free_cg = none } ≡ f = ground (arith, e, z) in
      subst (λ g. PoolInv (first g)) same
        (record {
          once = λ cg. unfold count_cg in omega arith;
          given = λ n h. absurd (omega arith);
          not_free = λ n. unfold count_cg in refl;
          own = λ i id n h. absurd (ground (arith, h));
        })
  | inr more ↦ elim (Option-cases (fill_pool create prefix 1 size [])) [
    | inl bad ↦ absurd (ground (arith, e, more, bad))
    | inr (l, filled) ↦
        let same : record { pool_size = size; free_cg = some l } ≡ f =
          ground (arith, e, more, filled) in
        let empty : Fresh prefix 1 [] =
          unfold count_cg in
          record { once = λ cg. omega arith; below = λ p j le. refl; none_own = λ n. refl } in
        let w = fill_pool-Fresh create prefix 1 size [] l empty filled in
        subst (λ g. PoolInv (first g)) same
          (record {
            once = λ cg. ground (arith, w.once cg);
            given = λ n h. absurd (omega arith);
            not_free = w.none_own;
            own = λ i id n h. absurd (ground (arith, h));
          })
  ]
]

same_cg_refl : (cg : CgName) → same_cg cg cg ≡ true
same_cg_refl (pool_cg p i) = ground arith
same_cg_refl (own_cg n) = ground arith

one_used :
    (used : List (ℕ × CgName)) (i id : ℕ) (cg : CgName)
    → get_elem? used i ≡ some (id, cg)
    → 0 < count_used cg used
unfolding count_used
one_used [] i id cg e = absurd (ground (arith, e))
one_used ((n, x) ∷ used) zero id cg e =
    let same : x ≡ cg = ground (arith, e) in rw (same, same_cg_refl cg) (omega arith)
one_used ((n, x) ∷ used) (suc i) id cg e = omega (arith, one_used used i id cg e)

two_used :
    (used : List (ℕ × CgName)) (i j id id' : ℕ) (cg : CgName)
    → i ≢ j
    → get_elem? used i ≡ some (id, cg)
    → get_elem? used j ≡ some (id', cg)
    → 1 < count_used cg used
unfolding count_used
two_used [] i j id id' cg ne e e' = absurd (ground (arith, e))
two_used ((n, x) ∷ used) zero zero id id' cg ne e e' = absurd (ne refl)
two_used ((n, x) ∷ used) zero (suc j) id id' cg ne e e' =
    let same : x ≡ cg = ground (arith, e) in
    rw (same, same_cg_refl cg) (omega (arith, one_used used j id' cg e'))
two_used ((n, x) ∷ used) (suc i) zero id id' cg ne e e' =
    let same : x ≡ cg = ground (arith, e') in
    rw (same, same_cg_refl cg) (omega (arith, one_used used i id cg e))
two_used ((n, x) ∷ used) (suc i) (suc j) id id' cg ne e e' =
    omega (arith, two_used used i j id id' cg (λ z. ne (ap suc z)) e e')

-- In every state that a factory of containers reaches from a new pool, whatever fails on the way, where each
-- container is removed once at most, two containers in use have different control groups.
pub reachable_apart :
    (create : CgName → Bool) (prefix size : ℕ) (f : CgroupFactory) {s : System} (i j id id' : ℕ)
    (cg cg' : CgName)
    → new_cgroup_factory create prefix size ≡ some f
    → Reach (first f) s
    → i ≢ j
    → get_elem? s.used i ≡ some (id, cg)
    → get_elem? s.used j ≡ some (id', cg')
    → cg ≢ cg'
reachable_apart create prefix size f {s} i j id id' cg cg' e path ne a b same =
    let v = Reach-PoolInv (new_cgroup_factory-PoolInv create prefix size f e) path in
    let two = two_used s.used i j id id' cg ne a (rw same b) in omega (arith, two, v.once cg)

-- Two factories from new pools, such as the one of the import cache and the one of the handlers: in whatever
-- states they reach, a container of the one and a container of the other that bear the same number, and whose
-- control groups are of no pool, share their control group.
pub factories_share :
    (make make' : CgName → Bool) (prefix prefix' size size' : ℕ) (f g : CgroupFactory)
    {s t : System} (i j id n m : ℕ)
    → new_cgroup_factory make prefix size ≡ some f
    → new_cgroup_factory make' prefix' size' ≡ some g
    → Reach (first f) s
    → Reach (first g) t
    → get_elem? s.used i ≡ some (id, own_cg n)
    → get_elem? t.used j ≡ some (id, own_cg m)
    → own_cg n ≡ own_cg m
factories_share make make' prefix prefix' size size' f g i j id n m e e' path path' a b =
    let v = Reach-PoolInv (new_cgroup_factory-PoolInv make prefix size f e) path in
    let w = Reach-PoolInv (new_cgroup_factory-PoolInv make' prefix' size' g e') path' in
    ap own_cg (v.own i id n a ∙ sym (w.own j id m b))
