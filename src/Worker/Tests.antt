-- ===== src/Worker/Tests.antt =====
-- Small runs of the worker, and the theorems at them.
use s19_lambda.Base.{
  ◌∷◌, inl, inr, ℕ, ◌<◌, ◌≡◌, ◌≢◌, refl, String, true, false, none, some, List, [], All, arith,
  back, eq_iff, count, erase, init_of, sum_of,
}
use s19_lambda.Base.Int.{◌+ℤ◌, ◌-ℤ◌}
use s19_lambda.Worker.Handlers.{stopped}
use s19_lambda.Worker.Start.{Answers, StartState, run_start, creation_waits, exceeds, admits}
use s19_lambda.Worker.Start.Outcomes.{lookups, FailsEarly, run_start_counts}
use s19_lambda.Worker.Start.Leak.{run_all, ended, leaks_block}
use s19_lambda.Worker.Lru.{new_handler_lru, add, added, remove, over_limit, pop_back, popped}
use s19_lambda.Worker.Lru.Laws.{usages}
use s19_lambda.Worker.Pool.{
  Code, HandlerManagerSet, new_set, blocked, manager, create, reuse, find_or_create, pull_code, get,
  add_handler, add_last, try_remove_handler, panicked, release, run_finish, unlist, evict, evicted,
  evictor_panicked,
}
use s19_lambda.Worker.Pool.Invariant.{Inv, within_limit}
use s19_lambda.Worker.Pool.Eviction.{without, evict_progress}
use s19_lambda.Worker.Pool.Locks.{failed_pull_wedges, get_got}
use s19_lambda.Worker.Pool.Runs.{
  Reach, here, next, gets, finishes, reachable-Inv, reachable_no_panic,
}

-- Opens the code of the worker.
opened : Unit {0}
unfolding new_set new_handler_lru get find_or_create pull_code create reuse run_finish release
    add_handler add_last add added remove try_remove_handler unlist evict over_limit pop_back popped
    back erase init_of count sum_of usages ◌+ℤ◌ ◌-ℤ◌
opened = tt

abbrev hello : Code
hello = record { code_dir = "/hello"; imports = []; installs = [] }

-- At most two runners to a handler, and a cache of 1 kb.
abbrev fresh : HandlerManagerSet
fresh = new_set 2 1

abbrev asked : HandlerManagerSet
asked = (get fresh "f" (some hello)).0

abbrev asked_twice : HandlerManagerSet
asked_twice = (get asked "g" (some hello)).0

abbrev one_done : HandlerManagerSet
one_done = (run_finish asked_twice 0 (some 1000) (some 1000) true 5).0

-- Both handlers idle, and more in use than the cache may hold.
abbrev crowded : HandlerManagerSet
crowded = (run_finish one_done 1 (some 1000) (some 1000) true 6).0

asked-Reach : Reach fresh asked
asked-Reach = next here (gets "f" (some hello))

crowded-Reach : Reach fresh crowded
unfolding opened
crowded-Reach =
    next
      (next (next asked-Reach (gets "g" (some hello)))
        (finishes 0 1000 1000 true 5 (omega arith) (omega arith)))
      (finishes 1 1000 1000 true 6 (omega arith) (omega arith))

reachable-Inv_example : Inv crowded
reachable-Inv_example = reachable-Inv 2 1 crowded-Reach

reachable_no_panic_example :
    ((run_finish asked 0 (some 9) (some 9) true 7).1 ≢ panicked)
    × ((evict asked).1 ≢ evictor_panicked)
unfolding opened
reachable_no_panic_example =
    reachable_no_panic 2 1 0 9 9 true 7 asked-Reach (omega arith) (omega arith)

crowded_over : over_limit crowded.lru ≡ true
unfolding opened
crowded_over = refl

crowded_open : crowded.locked ≡ false
unfolding opened
crowded_open = refl

crowded_free : (n : String) → (manager crowded n).locked ≡ false
unfolding opened
crowded_free n = ground (arith, eq_iff "f" n, eq_iff "g" n)

evict_progress_example :
    (h : ℕ) × (back crowded.lru.hqueue ≡ some h) × (evict crowded ≡ (without crowded h, evicted h))
evict_progress_example =
    evict_progress crowded reachable-Inv_example crowded_over crowded_open crowded_free

failed_pull_wedges_example :
    let s₁ = (get fresh "f" none).0 in
    let s₂ = (get s₁ "f" none).0 in
    ((get s₁ "f" none).1 ≡ blocked) × (get s₂ "g" (some hello) ≡ (s₂, blocked))
unfolding opened
failed_pull_wedges_example = failed_pull_wedges fresh "f" "g" none none (some hello) refl

get_got_example :
    (0 < asked.next)
    × ((asked.store 0).name ≡ "f")
    × (0 < (asked.store 0).runners)
    × (within_limit asked.max_runners (asked.store 0).runners ≡ true)
unfolding opened
get_got_example = get_got fresh "f" (some hello) 0 (reachable-Inv 2 1 here) refl

-- A handler set with a cache manager that has created nothing.
abbrev idle_set : StartState
idle_set = record {
  has_cache = true;
  hard_limit = 100;
  num_sb_creating = 0;
  hhits = 0;
  ihits = 0;
  misses = 0;
  sandbox = none;
}

abbrev all_well : Answers
all_well = record {
  mem_usage = 0;
  avg = 30;
  installed = true;
  created = true;
  state = some stopped;
  started = true;
  unpaused = true;
  server_runs = true;
  hit = some true;
  ready = true;
  channel = true;
}

run_start_counts_example :
    let s' = (run_start all_well idle_set).0 in
    (lookups s' ≡ 1) × (s'.num_sb_creating ≡ 0) × (s'.sandbox ≢ none)
unfolding run_start creation_waits exceeds
run_start_counts_example = run_start_counts all_well idle_set refl refl

abbrev start_fails : Answers
start_fails = record all_well { started = false }

start_FailsEarly : FailsEarly start_fails idle_set
start_FailsEarly = (refl, inr (inr (inr (inl (refl, refl)))))

-- A later call reads a higher average, and then a lower one; two creations have failed.
abbrev later : List Answers
later = record all_well { avg = 60 } ∷ record all_well { avg = 51 } ∷ []

leaks_block_example :
    let s' = run_all (start_fails ∷ start_fails ∷ []) idle_set in
    (ended later s' ≡ 0)
    × (run_all later s' ≡ s')
    × All (λ a. admits 100 a.mem_usage a.avg s'.num_sb_creating ≡ false) later
unfolding ended run_start creation_waits exceeds
leaks_block_example =
    leaks_block (start_fails ∷ start_fails ∷ []) later idle_set
      (start_FailsEarly, (start_FailsEarly, tt)) (omega arith) (omega arith, (omega arith, tt))
