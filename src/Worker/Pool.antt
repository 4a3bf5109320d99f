-- ===== src/Worker/Pool.antt =====
-- The set of handler managers of worker/handler/handler.go, with the evictor of
-- worker/handler/handlerLru.go. An operation takes the state of the set to the next and says how it
-- ended: a Go panic and a wait for a mutex that nobody frees are outcomes of their own. What the
-- registry, the memory cgroup and the sandbox answer are arguments.
pub mod Invariant
pub mod Acquire
pub mod Finish
pub mod Eviction
pub mod Locks
pub mod Races
pub mod Core
pub mod CoreRelease
pub mod CoreSteps
pub mod Interleaved
pub mod Runs
mod Tests
use mathlib.Core.Option
use s19_lambda.Base.{
  ℕ, suc, ◌+◌, ◌-◌, String, Bool, true, false, not, ◌&&◌, ◌||◌, Option, none, some, List, [], ◌∷◌,
  length, update, update_str, erase, if◌then◌else◌, ltb, ◌==◌,
}
use s19_lambda.Worker.Handlers.{HandlerState, paused, Handler, Store}
use s19_lambda.Worker.Lru.{HandlerLru, new_handler_lru, add, remove, over_limit, pop_back}

-- What a pull of the registry gives.
pub record Code : Type 0 where
  pub code_dir : String
  pub imports : List String
  pub installs : List String

-- `locked` is the manager's mutex, `code` is what `lastPull` guards.
pub record HandlerManager : Type 0 where
  pub locked : Bool
  pub handlers : List ℕ
  pub h_elements : ℕ → Bool
  pub max_handlers : ℕ
  pub code : Option Code

pub record HandlerManagerSet : Type 0 where
  pub locked : Bool
  pub hm_map : String → Option HandlerManager
  pub store : Store
  pub next : ℕ
  pub max_runners : ℕ
  pub lru : HandlerLru

abbrev pub new_manager : HandlerManager
new_manager = record {
  locked = false;
  handlers = [];
  h_elements = λ _. false;
  max_handlers = 0;
  code = none;
}

abbrev pub blank : Handler
blank = record { name = ""; runners = 0; usage = 0; sandbox = none }

-- The state part of `NewHandlerManagerSet`.
unfoldable pub new_set : ℕ → ℕ → HandlerManagerSet
new_set max_runners cache_kb = record {
  locked = false;
  hm_map = λ _. none;
  store = λ _. blank;
  next = 0;
  max_runners = max_runners;
  lru = new_handler_lru cache_kb;
}

-- `hms.hmMap[name]`, or the manager that `Get` makes where there is none.
abbrev pub manager : HandlerManagerSet → String → HandlerManager
manager s name = elim (s.hm_map name) [ none ↦ new_manager | some m ↦ m ]

abbrev pub put_manager : HandlerManagerSet → String → HandlerManager → HandlerManagerSet
put_manager s name m = record s { hm_map = update_str s.hm_map name (some m) }

-- May a handler with so many runners take one more? A limit of 0 is none.
abbrev pub has_room : ℕ → ℕ → Bool
has_room max_runners runners = max_runners == 0 || ltb runners max_runners

abbrev pub max : ℕ → ℕ → ℕ
max i1 i2 = if ltb i1 i2 then i2 else i1

abbrev pub push_front : ℕ → HandlerManager → HandlerManager
push_front h m = record m {
  handlers = h ∷ m.handlers;
  h_elements = update m.h_elements h true;
  max_handlers = max m.max_handlers (suc (length m.handlers));
}

abbrev pub detach : ℕ → HandlerManager → HandlerManager
detach h m = record m { handlers = erase h m.handlers; h_elements = update m.h_elements h false }

-- `Get` where the manager lists no handler: a new one, with its first runner.
unfoldable pub create : HandlerManagerSet → String → HandlerManager → HandlerManagerSet × ℕ
create s name m =
    let h = s.next in
    let x : Handler = record { name = name; runners = 1; usage = 0; sandbox = none } in
    (
      put_manager (record s { store = update s.store h x; next = suc h }) name
          (if has_room s.max_runners 1 then push_front h m else m),
      h,
    )

-- `Get` where `h` stands in front of the list.
unfoldable pub reuse : HandlerManagerSet → String → HandlerManager → ℕ → HandlerManagerSet × ℕ
reuse s name m h =
    let x = s.store h in
    (
      put_manager
          (record s {
            store = update s.store h (record x { runners = suc x.runners });
            lru = if x.runners == 0 then remove h s.store s.lru else s.lru;
          })
          name
          (if not (s.max_runners == 0) && suc x.runners == s.max_runners then detach h m else m),
      h,
    )

unfoldable pub find_or_create : HandlerManagerSet → String → HandlerManager → HandlerManagerSet × ℕ
unfolding create reuse
find_or_create s name m = elim m.handlers [ [] ↦ create s name m | h ∷ _ ↦ reuse s name m h ]

pub data GetResult : Type 0 where
  got : ℕ → GetResult
  failed : GetResult
  blocked : GetResult

-- The pull at the end of `Get`. An error returns with the manager's mutex held.
unfoldable pub pull_code :
    HandlerManagerSet → String → ℕ → Option Code → HandlerManagerSet × GetResult
pull_code s name h pulled = elim (manager s name).code [
  | some _ ↦ (s, got h)
  | none ↦ elim pulled [
    | none ↦ (put_manager s name (record (manager s name) { locked = true }), failed)
    | some c ↦ (put_manager s name (record (manager s name) { code = some c }), got h)
  ]
]

-- `Get`. It waits for the set's mutex, and then, holding that, for the manager's.
unfoldable pub get : HandlerManagerSet → String → Option Code → HandlerManagerSet × GetResult
get s name pulled =
    let m = manager s name in
    let found = find_or_create s name m in
    if s.locked
    then (s, blocked)
    else if m.locked
    then (record (put_manager s name m) { locked = true }, blocked)
    else pull_code found.0 name found.1 pulled

-- `AddHandler`: the handler was at the limit, and is listed again.
unfoldable pub add_handler : HandlerManagerSet → ℕ → HandlerManagerSet
add_handler s h =
    let x = s.store h in
    if not (s.max_runners == 0) && suc x.runners == s.max_runners
    then put_manager s x.name (push_front h (manager s x.name))
    else s

-- `TryRemoveHandler`; the flag says that it returned no error.
unfoldable pub try_remove_handler : HandlerManagerSet → ℕ → HandlerManagerSet × Bool
try_remove_handler s h =
    let x = s.store h in
    let m = manager s x.name in
    if ltb 0 x.runners
    then (s, false)
    else (put_manager s x.name (if m.h_elements h then detach h m else m), true)

pub data Finished : Type 0 where
  kept : Finished
  unlocked : Finished
  nuked : Finished
  panicked : Finished

-- The handler as `RunFinish` leaves it: a runner less, and paused if that was the last.
abbrev pub after_run : Handler → Bool → Handler
after_run x pause_ok = record x {
  runners = x.runners - 1;
  sandbox = if x.runners - 1 == 0 && pause_ok then some paused else x.sandbox;
}

-- The answer of `lru.Add` put back into the set.
abbrev pub put_lru :
    HandlerManagerSet → Option (Store × HandlerLru × Bool) → HandlerManagerSet × Finished
put_lru s none = (s, panicked)
put_lru s (some (store, lru, signal)) = (record s { store = store; lru = lru }, kept)

-- `lru.Add`, which reads the usage itself; `none` is the panic of `handlerUsage`. Nothing follows a panic, so
-- the state it leaves is not followed either.
unfoldable pub add_last : HandlerManagerSet → ℕ → Option ℕ → ℕ → HandlerManagerSet × Finished
add_last s h none now = (s, panicked)
add_last s h (some usage) now = put_lru s (add h usage now (s.store, s.lru))

-- `RunFinish` up to where it frees the handler's mutex. `unlocked` is the way on to
-- `TryRemoveHandler`, of a handler that uses more than the whole cache may. `RunFinish` answers a
-- `Get`, so the handler has a runner. The usage of the last runner's handler is read twice, here and by `Add`;
-- `none` is a panic of `handlerUsage`, where the file cannot be read or is no number.
unfoldable pub release :
    HandlerManagerSet → ℕ → Option ℕ → Option ℕ → Bool → ℕ → HandlerManagerSet × Finished
unfolding add_last
release s h read again pause_ok now =
    let x = after_run (s.store h) pause_ok in
    let s' : HandlerManagerSet = record s { store = update s.store h x } in
    let listed = add_handler s' h in
    if x.runners == 0
    then elim read [
      | none ↦ (s', panicked)
      | some usage ↦
          if ltb s.lru.soft_limit usage then (s', unlocked) else add_last listed h again now
    ]
    else (listed, kept)

-- The rest of `RunFinish`.
unfoldable pub remove_unlocked : HandlerManagerSet × Finished → ℕ → HandlerManagerSet × Finished
remove_unlocked (s, unlocked) h =
    let (s', removed) = try_remove_handler s h in (s', if removed then nuked else kept)
remove_unlocked (s, kept) h = (s, kept)
remove_unlocked (s, nuked) h = (s, nuked)
remove_unlocked (s, panicked) h = (s, panicked)

-- A whole `RunFinish`, where no other call comes between `release` and `TryRemoveHandler`. Only a handler that
-- uses more than the whole cache gets there: on every other way `release` holds its mutex to the end.
unfoldable pub run_finish :
    HandlerManagerSet → ℕ → Option ℕ → Option ℕ → Bool → ℕ → HandlerManagerSet × Finished
unfolding remove_unlocked
run_finish s h read again pause_ok now = remove_unlocked (release s h read again pause_ok now) h

pub data Evicted : Type 0 where
  waiting : Evicted
  nothing : Evicted
  evicted : ℕ → Evicted
  evictor_blocked : Evicted
  evictor_panicked : Evicted

-- The part of a pass of `Evictor` that changes the victim's manager.
unfoldable pub unlist : HandlerManagerSet → ℕ → HandlerManagerSet × Evicted
unlist s h = elim (s.hm_map (s.store h).name) [
  | none ↦ (s, evictor_panicked)
  | some m ↦
      if m.locked
      then (record s { locked = true }, evictor_blocked)
      else if m.h_elements h
      then (put_manager s (s.store h).name (detach h m), evicted h)
      else (s, evictor_panicked)
]

-- One pass of `Evictor`.
unfoldable pub evict : HandlerManagerSet → HandlerManagerSet × Evicted
evict s =
    if not (over_limit s.lru)
    then (s, waiting)
    else if s.locked
    then (s, evictor_blocked)
    else elim (pop_back s.store s.lru) [
      | none ↦ (s, nothing)
      | some (h, lru') ↦ unlist (record s { lru = lru' }) h
    ]
