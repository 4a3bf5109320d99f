-- ===== src/Worker/Pool/Runs.antt =====
-- Runs of the set of handler managers, where `RunFinish` is not interleaved.
use s19_lambda.Base.{ℕ, ◌<◌, ◌≢◌, Bool, String, Option, some}
use s19_lambda.Worker.Pool.{
  Code, HandlerManagerSet, new_set, get, run_finish, evict, panicked, evictor_panicked,
  evictor_blocked,
}
use s19_lambda.Worker.Pool.Invariant.{Inv, new_set-Inv}
use s19_lambda.Worker.Pool.Acquire.{get-Inv}
use s19_lambda.Worker.Pool.Finish.{run_finish-Inv}
use s19_lambda.Worker.Pool.Eviction.{evict-Inv, evict_no_panic}

-- Calls of `Get`, whole calls of `RunFinish` whose reads of the usage succeed, and passes of the evictor. A
-- `RunFinish` is one step: where its handler uses more than the whole cache, that leaves out the runs in which
-- another call comes between the unlock of the handler and `TryRemoveHandler`, which `Races` is about.
pub data Step (s : HandlerManagerSet) : HandlerManagerSet → Type 0 where
  gets : (name : String) (pulled : Option Code) → Step s (get s name pulled).0
  finishes :
      (h usage again : ℕ) (pause_ok : Bool) (now : ℕ)
      → h < s.next
      → 0 < (s.store h).runners
      → Step s (run_finish s h (some usage) (some again) pause_ok now).0
  evicts : (evict s).1 ≢ evictor_blocked → Step s (evict s).0

pub data Reach (s : HandlerManagerSet) : HandlerManagerSet → Type 0 where
  here : Reach s s
  next : {t u : HandlerManagerSet} → Reach s t → Step t u → Reach s u

Step-Inv : {s t : HandlerManagerSet} → Step s t → Inv s → Inv t
Step-Inv {s} (gets name pulled) v = get-Inv s name pulled v
Step-Inv {s} (finishes h usage again ok now alive runs) v =
    (run_finish-Inv s h usage again ok now alive runs v).0
Step-Inv {s} (evicts free) v = evict-Inv s v free

Reach-Inv : {s t : HandlerManagerSet} → Inv s → Reach s t → Inv t
Reach-Inv v here = v
Reach-Inv v (next r st) = Step-Inv st (Reach-Inv v r)

-- Every state reached from a new set of managers by calls of `Get`, whole calls of `RunFinish` and passes of
-- the evictor in any order satisfies the invariant. Each `RunFinish` is one step, of a handler that runs and
-- whose usage can be read: no other call comes between its unlock of the handler and `TryRemoveHandler`. No
-- pass of the evictor waits for a mutex.
pub reachable-Inv :
    (max_runners kb : ℕ) {s : HandlerManagerSet} → Reach (new_set max_runners kb) s → Inv s
reachable-Inv max_runners kb r = Reach-Inv (new_set-Inv max_runners kb) r

-- In every state reached from a new set of managers by calls of `Get`, whole calls of `RunFinish`, with no call
-- between their two parts, and passes of the evictor that do not wait for a mutex, neither a whole `RunFinish` of
-- a handler that runs and whose usage can be read nor a pass of the evictor panics.
pub reachable_no_panic :
    (max_runners kb h usage again : ℕ) (ok : Bool) (now : ℕ) {s : HandlerManagerSet}
    → Reach (new_set max_runners kb) s
    → h < s.next
    → 0 < (s.store h).runners
    → ((run_finish s h (some usage) (some again) ok now).1 ≢ panicked)
      × ((evict s).1 ≢ evictor_panicked)
reachable_no_panic max_runners kb h usage again ok now {s} r alive runs =
    let v : Inv s = reachable-Inv max_runners kb r in
    ((run_finish-Inv s h usage again ok now alive runs v).1, evict_no_panic s v)
