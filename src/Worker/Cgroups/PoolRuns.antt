-- ===== src/Worker/Cgroups/PoolRuns.antt =====
-- The invariant of the control groups in every state that a factory reaches.
use s19_lambda.Base.{
  ℕ, zero, suc, ◌+◌, ◌≤◌, ◌≡◌, ap, Bool, true, Option, none, some, List, [], ◌∷◌, ◌++◌, ◌==◌,
  if◌then◌else◌, get_elem?, remove_at, arith, Bool-cases, inl, inr,
}
use s19_lambda.Worker.Cgroups.{
  CgName, pool_cg, own_cg, CgroupFactory, get_cg, put_cg, CreateAnswers, with_cg, create,
}
use s19_lambda.Worker.Cgroups.Pool.{
  same_cg, count_cg, count_cg-append, count_used, count_used-remove_at, get_elem?-remove_at, System,
  system, listed, add_used, Step, creates, removes, Reach, here, next, PoolInv, unused,
}

-- An identifier is given, whatever comes of it.
skip-PoolInv :
    (pool_size next_id : ℕ) (free : Option (List CgName)) (used : List (ℕ × CgName))
    → PoolInv (system pool_size free next_id used)
    → PoolInv (system pool_size free (suc next_id) used)
skip-PoolInv pool_size next_id free used v = record {
  once = v.once;
  given = λ n h. ground (arith, v.given n h);
  not_free = v.not_free;
  own = v.own;
}

-- A container with a control group of its own.
own-PoolInv :
    (pool_size next_id : ℕ) (free : Option (List CgName)) (used : List (ℕ × CgName))
    → PoolInv (system pool_size free next_id used)
    → PoolInv (system pool_size free (suc next_id) ((next_id, own_cg next_id) ∷ used))
unfolding count_used
own-PoolInv pool_size next_id free used v = record {
  once = once;
  given = λ n h. ground (arith, v.given n);
  not_free = v.not_free;
  own = own;
}
  where
    once :
        (cg : CgName)
        → count_cg cg (listed free) + count_used cg ((next_id, own_cg next_id) ∷ used) ≤ 1
    once (pool_cg p i) = ground (arith, v.once (pool_cg p i))
    once (own_cg n) =
        ground
          (arith, v.once (own_cg n), v.not_free n, unused (system pool_size free next_id used) v)

    own :
        (i id n : ℕ) → get_elem? ((next_id, own_cg next_id) ∷ used) i ≡ some (id, own_cg n) → n ≡ id
    own zero id n e = ground (arith, e)
    own (suc i) id n e = v.own i id n e

-- A control group of the pool is taken, and lost or used.
taken-PoolInv :
    (pool_size next_id : ℕ) (cg : CgName) (free : List CgName) (used : List (ℕ × CgName))
    → PoolInv (system pool_size (some (cg ∷ free)) next_id used)
    → PoolInv (system pool_size (some free) (suc next_id) used)
      × PoolInv (system pool_size (some free) (suc next_id) ((next_id, cg) ∷ used))
unfolding count_cg count_used
taken-PoolInv pool_size next_id cg free used v = (
  record {
    once = λ x. ground (arith, v.once x);
    given = λ n h. ground (arith, v.given n h);
    not_free = λ n. ground (arith, v.not_free n);
    own = v.own;
  },
  record {
    once = λ x. ground (arith, v.once x);
    given = λ n h. ground (arith, v.given n, v.not_free n);
    not_free = λ n. ground (arith, v.not_free n);
    own = own;
  },
)
  where
    own : (i id n : ℕ) → get_elem? ((next_id, cg) ∷ used) i ≡ some (id, own_cg n) → n ≡ id
    own zero id n e =
        let same : cg ≡ own_cg n = ground (arith, e) in
        absurd (ground (arith, v.not_free n, ap (λ x. same_cg x (own_cg n)) same))
    own (suc i) id n e = v.own i id n e

create-PoolInv :
    (a : CreateAnswers) (pool_size next_id : ℕ) (free : Option (List CgName))
    (used : List (ℕ × CgName))
    → PoolInv (system pool_size free next_id used)
    → let (f, r) = create a (system pool_size free next_id used).factory in
      PoolInv (record { factory = f; used = add_used r used })
unfolding create get_cg
create-PoolInv a pool_size next_id free used v = elim (Bool-cases a.prepared) [
  | inr early ↦ rw early (skip-PoolInv pool_size next_id free used v)
  | inl ready ↦ rw ready (go free v)
]
  where
    own :
        (free : Option (List CgName))
        → PoolInv (system pool_size free next_id used)
        → PoolInv (
            system pool_size free (suc next_id) (
              add_used
                (with_cg a next_id
                  (if a.create_cg (own_cg next_id) then some (own_cg next_id) else none))
                used))
    own free v = elim (Bool-cases (a.create_cg (own_cg next_id))) [
      | inr bad ↦ rw bad (skip-PoolInv pool_size next_id free used v)
      | inl good ↦ elim (Bool-cases a.mounted) [
        | inl m ↦ rw (good, m) (own-PoolInv pool_size next_id free used v)
        | inr m ↦ rw (good, m) (skip-PoolInv pool_size next_id free used v)
      ]
    ]

    go :
        (free : Option (List CgName))
        → PoolInv (system pool_size free next_id used)
        → let g = get_cg a.create_cg next_id (record { pool_size = pool_size; free_cg = free }) in
          PoolInv (record {
            factory = record { cgf = g.0; next_id = suc next_id };
            used = add_used (with_cg a next_id g.1) used;
          })
    go none v = own none v
    go (some []) v = own (some []) v
    go (some (cg ∷ free)) v = elim (Bool-cases a.mounted) [
      | inl m ↦ rw m (taken-PoolInv pool_size next_id cg free used v).1
      | inr m ↦ rw m (taken-PoolInv pool_size next_id cg free used v).0
    ]

-- A container goes, without its control group.
gone-PoolInv :
    (pool_size next_id : ℕ) (free : Option (List CgName)) (used : List (ℕ × CgName)) (i id : ℕ)
    (cg : CgName)
    → get_elem? used i ≡ some (id, cg)
    → PoolInv (system pool_size free next_id used)
    → PoolInv (system pool_size free next_id (remove_at used i))
gone-PoolInv pool_size next_id free used i id cg e v = record {
  once = λ x. ground (arith, v.once x, count_used-remove_at x used i id cg e);
  given = λ n h. v.given n (ground (arith, count_used-remove_at (own_cg n) used i id cg e));
  not_free = v.not_free;
  own =
      λ j id' n h. let (k, at) = get_elem?-remove_at used i j (id', own_cg n) h in v.own k id' n at;
}

-- A control group of the pool comes back to it.
back-PoolInv :
    (pool_size next_id : ℕ) (free : List CgName) (used : List (ℕ × CgName)) (i id p k : ℕ)
    → get_elem? used i ≡ some (id, pool_cg p k)
    → PoolInv (system pool_size (some free) next_id used)
    → PoolInv (system pool_size (some (free ++ pool_cg p k ∷ [])) next_id (remove_at used i))
back-PoolInv pool_size next_id free used i id p k e v =
    let cg = pool_cg p k in
    let w = gone-PoolInv pool_size next_id (some free) used i id cg e v in
    record {
      once = λ x.
          unfold count_cg in
          ground (
            arith,
            v.once x,
            count_used-remove_at x used i id cg e,
            count_cg-append x free (cg ∷ []),
          );
      given = w.given;
      not_free = λ n.
          unfold count_cg in
          ground (arith, v.not_free n, count_cg-append (own_cg n) free (cg ∷ []));
      own = w.own;
    }

remove-PoolInv :
    (destroy : CgName → Bool) (pool_size next_id : ℕ) (free : Option (List CgName))
    (used : List (ℕ × CgName)) (i id : ℕ) (cg : CgName)
    → get_elem? used i ≡ some (id, cg)
    → PoolInv (system pool_size free next_id used)
    → let f : CgroupFactory = record { pool_size = pool_size; free_cg = free } in
      PoolInv (record {
        factory = record { cgf = (put_cg destroy id cg f).0; next_id = next_id };
        used = remove_at used i;
      })
unfolding put_cg
remove-PoolInv destroy pool_size next_id free used i id (own_cg n) e v =
    let own : (n == id) ≡ true = ground (arith, v.own i id n e) in
    rw own (gone-PoolInv pool_size next_id free used i id (own_cg n) e v)
remove-PoolInv destroy pool_size next_id none used i id (pool_cg p k) e v =
    gone-PoolInv pool_size next_id none used i id (pool_cg p k) e v
remove-PoolInv destroy pool_size next_id (some free) used i id (pool_cg p k) e v =
    back-PoolInv pool_size next_id free used i id p k e v

Step-PoolInv : {s t : System} → Step s t → PoolInv s → PoolInv t
Step-PoolInv {s} (creates a) v =
    create-PoolInv a s.factory.cgf.pool_size s.factory.next_id s.factory.cgf.free_cg s.used v
Step-PoolInv {s} (removes destroy i id cg e) v =
    remove-PoolInv destroy s.factory.cgf.pool_size s.factory.next_id s.factory.cgf.free_cg s.used i
      id cg e v

pub Reach-PoolInv : {s t : System} → PoolInv s → Reach s t → PoolInv t
Reach-PoolInv v here = v
Reach-PoolInv v (next path step) = Step-PoolInv step (Reach-PoolInv v path)
