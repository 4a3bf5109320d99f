-- ===== src/Worker/Pool/Interleaved.antt =====
-- Runs of the set of handler managers in which other calls come between the two parts of `RunFinish`.
use s19_lambda.Base.{ℕ, ◌<◌, ◌≢◌, String, Bool, Option, some}
use s19_lambda.Worker.Pool.{
  HandlerManagerSet, Code, new_set, get, try_remove_handler, release, evict, evictor_panicked,
  evictor_blocked, panicked,
}
use s19_lambda.Worker.Pool.Core.{Core, new_set-Core, get-Core}
use s19_lambda.Worker.Pool.CoreRelease.{release-Core}
use s19_lambda.Worker.Pool.CoreSteps.{try_remove-Core, evict-Core}

-- Requests come and end in two parts each, and the evictor passes, in any order: anything may come between the
-- first part of a `RunFinish` and its `TryRemoveHandler`.
pub data Interleaved (s : HandlerManagerSet) : HandlerManagerSet → Type 0 where
  gets : (name : String) (pulled : Option Code) → Interleaved s (get s name pulled).0
  releases :
      (h usage again : ℕ) (pause_ok : Bool) (now : ℕ)
      → h < s.next
      → 0 < (s.store h).runners
      → Interleaved s (release s h (some usage) (some again) pause_ok now).0
  tries : (h : ℕ) → Interleaved s (try_remove_handler s h).0
  evicts :
      (evict s).1 ≢ evictor_blocked → (evict s).1 ≢ evictor_panicked → Interleaved s (evict s).0

pub data Runs (s : HandlerManagerSet) : HandlerManagerSet → Type 0 where
  here : Runs s s
  next : {t u : HandlerManagerSet} → Runs s t → Interleaved t u → Runs s u

Interleaved-Core : {s t : HandlerManagerSet} → Interleaved s t → Core s → Core t
Interleaved-Core {s} (gets name pulled) v = get-Core s name pulled v
Interleaved-Core {s} (releases h usage again ok now alive runs) v =
    (release-Core s h usage again ok now alive runs v).0
Interleaved-Core {s} (tries h) v = try_remove-Core s h v
Interleaved-Core {s} (evicts free fine) v = evict-Core s v free

Runs-Core : {s t : HandlerManagerSet} → Core s → Runs s t → Core t
Runs-Core v here = v
Runs-Core v (next r st) = Interleaved-Core st (Runs-Core v r)

-- In every state reached from a new set of managers by calls of `Get`, first parts of `RunFinish` of handlers
-- that run and whose usage can be read, calls of `TryRemoveHandler`, and passes of the evictor that neither wait
-- nor panic, in any order: no handler has more runners than the limit; a manager lists only handlers of its name,
-- each once, that have room for a runner; a handler that runs and has room is listed; and the handlers in the LRU
-- are idle, each once. The size of the LRU and whether its handlers are listed are left out.
pub interleaved-Core :
    (max_runners kb : ℕ) {s : HandlerManagerSet} → Runs (new_set max_runners kb) s → Core s
interleaved-Core max_runners kb r = Runs-Core (new_set-Core max_runners kb) r

-- In every state reached from a new set of managers by calls of `Get`, first parts of `RunFinish`, calls of
-- `TryRemoveHandler` and passes of the evictor that neither wait nor panic, in any order, the first part of a `RunFinish` of a handler that runs and whose usage can be read does not
-- panic: the handler is not in the LRU yet when it is added.
pub interleaved_no_panic :
    (max_runners kb h usage again : ℕ) (ok : Bool) (now : ℕ) {s : HandlerManagerSet}
    → Runs (new_set max_runners kb) s
    → h < s.next
    → 0 < (s.store h).runners
    → (release s h (some usage) (some again) ok now).1 ≢ panicked
interleaved_no_panic max_runners kb h usage again ok now {s} r alive runs =
    (release-Core s h usage again ok now alive runs (interleaved-Core max_runners kb r)).1
