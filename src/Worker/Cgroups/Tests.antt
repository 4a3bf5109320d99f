-- ===== src/Worker/Cgroups/Tests.antt =====
-- The control groups at concrete inputs.
use s19_lambda.Base.{◌≡◌, ◌≢◌, refl, true, none, some, [], ◌∷◌, arith}
use s19_lambda.Worker.Cgroups.{
  pool_cg, own_cg, CgroupFactory, fill_pool, new_cgroup_factory, get_cg, put_cg, CreateAnswers,
  create,
}
use s19_lambda.Worker.Cgroups.Pool.{System, Reach, here, next, creates}
use s19_lambda.Worker.Cgroups.Apart.{first, reachable_apart, factories_share}

-- Opens the code of the factories.
opened : Unit {0}
unfolding fill_pool new_cgroup_factory get_cg put_cg create
opened = tt

abbrev good : CreateAnswers
good = record { prepared = true; create_cg = λ cg. true; mounted = true }

-- A pool of one control group.
abbrev one : CgroupFactory
one = record { pool_size = 1; free_cg = some (pool_cg 0 1 ∷ []) }

abbrev two_containers : System
two_containers = record {
  factory = record { cgf = record { pool_size = 1; free_cg = some [] }; next_id = 2 };
  used = (1, own_cg 1) ∷ (0, pool_cg 0 1) ∷ [];
}

two_containers-Reach : Reach (first one) two_containers
unfolding opened
two_containers-Reach = next (next here (creates good)) (creates good)

reachable_apart_example : own_cg 1 ≢ pool_cg 0 1
unfolding opened
reachable_apart_example =
    reachable_apart (λ cg. true) 0 1 one 0 1 1 0 (own_cg 1) (pool_cg 0 1) refl two_containers-Reach
      (λ e. absurd (ground (arith, e))) refl refl

-- A factory without a pool, and its two containers.
abbrev none_free : CgroupFactory
none_free = record { pool_size = 0; free_cg = none }

abbrev own_containers : System
own_containers = record {
  factory = record { cgf = none_free; next_id = 2 };
  used = (1, own_cg 1) ∷ (0, own_cg 0) ∷ [];
}

own_containers-Reach : Reach (first none_free) own_containers
unfolding opened
own_containers-Reach = next (next here (creates good)) (creates good)

factories_share_example : own_cg 1 ≡ own_cg 1
unfolding opened
factories_share_example =
    factories_share (λ cg. true) (λ cg. true) 0 1 1 0 one none_free 0 0 1 1 1 refl refl
      two_containers-Reach own_containers-Reach refl refl
