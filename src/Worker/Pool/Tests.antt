-- ===== src/Worker/Pool/Tests.antt =====
-- A run in which a second request comes between the two parts of a `RunFinish`.
use s19_lambda.Base.{◌≡◌, ◌≢◌, refl, true, false, none, some, [], arith, erase}
use s19_lambda.Base.Int.{◌+ℤ◌, ◌-ℤ◌}
use s19_lambda.Worker.Lru.{new_handler_lru, add, added, remove}
use s19_lambda.Worker.Pool.{
  Code, HandlerManagerSet, new_set, manager, create, reuse, find_or_create, pull_code, get,
  add_handler, add_last, try_remove_handler, panicked, release,
}
use s19_lambda.Worker.Pool.Core.{Core}
use s19_lambda.Worker.Pool.Interleaved.{
  Runs, here, next, gets, releases, tries, interleaved-Core, interleaved_no_panic,
}

-- Opens the code of the managers.
opened : Unit {0}
unfolding new_set new_handler_lru get find_or_create pull_code create reuse release add_handler
    add_last add added remove try_remove_handler erase ◌+ℤ◌ ◌-ℤ◌
opened = tt

abbrev hello : Code
hello = record { code_dir = "/hello"; imports = []; installs = [] }

abbrev asked : HandlerManagerSet
asked = (get (new_set 2 1) "f" (some hello)).0

-- The handler uses more than the cache may hold, and is on its way to `TryRemoveHandler`.
abbrev racing : HandlerManagerSet
racing = (release asked 0 (some 2000) (some 2000) true 5).0

abbrev asked_again : HandlerManagerSet
asked_again = (get racing "f" none).0

abbrev ended_twice : HandlerManagerSet
ended_twice = (release asked_again 0 (some 1000) (some 1000) true 6).0

-- The handler is in the LRU, and its manager does not list it.
abbrev orphaned : HandlerManagerSet
orphaned = (try_remove_handler ended_twice 0).0

asked_again-Runs : Runs (new_set 2 1) asked_again
unfolding opened
asked_again-Runs =
    next
      (next (next here (gets "f" (some hello)))
        (releases 0 2000 2000 true 5 (omega arith) (omega arith)))
      (gets "f" none)

orphaned-Runs : Runs (new_set 2 1) orphaned
unfolding opened
orphaned-Runs =
    next (next asked_again-Runs (releases 0 1000 1000 true 6 (omega arith) (omega arith))) (tries 0)

orphaned_queued : (orphaned.lru.hmap 0 ≡ true) × ((manager orphaned "f").h_elements 0 ≡ false)
unfolding opened
orphaned_queued = (refl, refl)

interleaved-Core_example : Core orphaned
interleaved-Core_example = interleaved-Core 2 1 orphaned-Runs

interleaved_no_panic_example : (release asked_again 0 (some 1000) (some 1000) true 6).1 ≢ panicked
unfolding opened
interleaved_no_panic_example =
    interleaved_no_panic 2 1 0 1000 1000 true 6 asked_again-Runs (omega arith) (omega arith)
