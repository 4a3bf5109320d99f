-- ===== src/Worker/Lru.antt =====
-- The list of idle handlers (worker/handler/handlerLru.go). An entry of the linked list is known
-- by the handler that it holds; the map from handlers to entries is the test whether a handler has
-- one. What a handler uses is read from its memory cgroup, and is an argument.
pub mod Laws
use mathlib.Core.Option
use s19_lambda.Base.{
  ℕ, ◌+◌, ◌/◌, ◌*◌, ◌<◌, Bool, true, false, ◌&&◌, Option, none, some, List, [], ◌∷◌, length, update,
  erase, back, init_of, sum_of, if◌then◌else◌, ltb, leb, ◌==◌,
}
use s19_lambda.Base.Int.{ℤ, pos, ◌+ℤ◌, ◌-ℤ◌, leb_ℤ, ltb_ℤ}
use s19_lambda.Worker.Handlers.{Handler, Store}

-- `size` is the sum of the usages as the code keeps it, and `int` may fall below 0.
pub record HandlerLru : Type 0 where
  pub hmap : ℕ → Bool
  pub hqueue : List ℕ
  pub soft_limit : ℕ
  pub size : ℤ
  pub last_add_time : ℕ

-- `NewHandlerLRU`; the limit is given in kb.
unfoldable pub new_handler_lru : ℕ → HandlerLru
new_handler_lru soft_limit = record {
  hmap = λ _. false;
  hqueue = [];
  soft_limit = soft_limit * 1024;
  size = pos 0;
  last_add_time = 0;
}

-- `Len`, which panics where the map and the list disagree; `keys` is `len(lru.hmap)`.
unfoldable pub len : ℕ → HandlerLru → Option ℕ
len keys lru = if length lru.hqueue == keys then some (length lru.hqueue) else none

-- `Add` of a handler without an entry. The flag says whether the evictor is signalled.
unfoldable pub added : ℕ → ℕ → ℕ → Store × HandlerLru → Store × HandlerLru × Bool
added h usage now (store, lru) =
    let size' = lru.size +ℤ pos usage in
    (
      update store h (record (store h) { usage = usage }),
      record lru {
        hmap = update lru.hmap h true;
        hqueue = h ∷ lru.hqueue;
        size = size';
        last_add_time = now;
      },
      ltb_ℤ (pos lru.soft_limit) size',
    )

-- `Add`, or its panic.
unfoldable pub add : ℕ → ℕ → ℕ → Store × HandlerLru → Option (Store × HandlerLru × Bool)
add h usage now (store, lru) = if lru.hmap h then none else some (added h usage now (store, lru))

-- `Remove`. The usage is taken off the size whether or not there was an entry.
unfoldable pub remove : ℕ → Store → HandlerLru → HandlerLru
remove h store lru = record lru {
  hmap = update lru.hmap h false;
  hqueue = if lru.hmap h then erase h lru.hqueue else lru.hqueue;
  size = lru.size -ℤ pos (store h).usage;
}

-- The condition on which the evictor waits.
unfoldable pub over_limit : HandlerLru → Bool
over_limit lru = ltb_ℤ (pos lru.soft_limit) lru.size

-- The LRU without its last entry, which holds `h`.
unfoldable pub popped : ℕ → Store → HandlerLru → HandlerLru
popped h store lru = record lru {
  hmap = update lru.hmap h false;
  hqueue = init_of lru.hqueue;
  size = lru.size -ℤ pos (store h).usage;
}

-- The pop of the least recently used entry, in `Evictor` and `evictLastHandler`.
unfoldable pub pop_back : Store → HandlerLru → Option (ℕ × HandlerLru)
pop_back store lru = Option.map (λ h. (h, popped h store lru)) (back lru.hqueue)
