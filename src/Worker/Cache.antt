-- ===== src/Worker/Cache.antt =====
-- The import cache (worker/import-cache/cacheManager.go, forkServer.go and evictor.go). A `*ForkServer`
-- is its identity, a number; `heap` holds the fields of each. An operation takes the state of the
-- cache to the next and says how it ended. A wait for a mutex that is held, `log.Fatalf` and a Go panic are
-- outcomes of their own. What the containers, the pipes and the fork servers answer are arguments. Left
-- out are the paths of sockets and pipes, and the sum of the packages' sizes, which `newCacheEntry`
-- forms and does not use.
pub mod Provision
pub mod Evictor
pub mod Invariant
pub mod Entries
pub mod Hits
pub mod Kept
pub mod Steps
pub mod Runs
pub mod Packages
pub mod Wedge
pub mod Outcomes
mod Tests
use s19_lambda.Base.{
  ℕ, zero, suc, ◌+◌, ◌^◌, ◌-◌, String, Bool, true, false, not, ◌&&◌, ◌||◌, Option, none, some, List,
  [], ◌∷◌, ◌++◌, map, contains, update, if◌then◌else◌, ltb, leb, ◌==◌, get_elem?,
}
use s19_lambda.Base.Int.{ℤ, pos, negsuc, ◌+ℤ◌, ◌-ℤ◌, eqb_ℤ}
use s19_lambda.Base.Digits.{atoi}
use s19_lambda.Worker.ForkRequest.{Reply, fork_request}
use s19_lambda.Worker.Matcher.{match_servers}

-- The operations on `float64` that the cache uses.
pub record HitOps (F : Type 0) : Type 0 where
  pub zero : F
  pub one : F
  pub inf : F
  pub add : F → F → F
  pub div : F → F → F
  pub lt : F → F → Bool

-- `sandbox` is a container's number, `locked` the mutex; `imports` are the keys of the map, whose values
-- are all true.
pub record ForkServer (F : Type 0) : Type 0 where
  pub sandbox : Option ℕ
  pub pid : List ℕ
  pub imports : List String
  pub hits : F
  pub parent : Option ℕ
  pub children : ℤ
  pub size : F
  pub locked : Bool
  pub dead : Bool

abbrev pub Heap : Type 0 → Type 0
Heap F = ℕ → ForkServer F

-- `removed` are the containers that were stopped and removed.
pub record CacheManager (F : Type 0) : Type 0 where
  pub heap : Heap F
  pub next : ℕ
  pub servers : List ℕ
  pub seq : ℕ
  pub locked : Bool
  pub full : Bool
  pub removed : List ℕ

-- The keys of a map after the writes of `l`.
unfoldable pub add_imports : List String → List String → List String
add_imports l [] = l
add_imports l (x ∷ xs) = let rest = add_imports l xs in if contains rest x then rest else x ∷ rest

pub data Killed : Type 0 where
  killed no_process nil_sandbox : Killed

-- What is answered while an entry is made: the new container, the opening of its pipe, and the calls
-- of `sendFds`.
pub record EntryAnswers : Type 0 where
  pub created : Option ℕ
  pub pipe_opened : Bool
  pub send_fds : ℕ → Option (List ℕ)

pub data Entry : Type 0 where
  made : ℕ → Entry
  refused fatal : Entry

module _ {F : Type 0} where
  abbrev pub less_child : Option ℕ → Heap F → Heap F
  less_child none heap = heap
  less_child (some p) heap =
      update heap p (record (heap p) { children = (heap p).children -ℤ pos 1 })

  abbrev pub mark_dead : ℕ → Heap F → Heap F
  mark_dead fs heap = update heap fs (record (heap fs) { dead = true })

  -- `Kill`. Finding and killing the process cannot fail; errors of the container are not looked at.
  unfoldable pub kill : ℕ → CacheManager F → CacheManager F × Killed
  kill fs c =
      let heap = mark_dead fs c.heap in
      elim (atoi (c.heap fs).pid) [
        | none ↦ (record c { heap = heap }, no_process)
        | some pid ↦
            let c' = record c { heap = less_child (c.heap fs).parent heap } in
            elim (c.heap fs).sandbox [
              | none ↦ (c', nil_sandbox)
              | some container ↦ (record c' { removed = container ∷ c.removed }, killed)
            ]
      ]

  -- The end of `newCacheEntry`, with the reply of the fork request.
  unfoldable pub enter_server : ℕ → ℕ → Reply → CacheManager F → CacheManager F × Entry
  unfolding kill
  enter_server fs container (pid, ok) c =
      if ok
      then (
        record c {
          heap = update c.heap fs (record (c.heap fs) { sandbox = some container; pid = pid });
        },
        made fs,
      )
      else ((kill fs c).0, refused)

module _ {F : Type 0} (o : HitOps F) where
  -- What the Go composite literals leave out is zero.
  abbrev pub new_fork_server : List String → Option ℕ → ForkServer F
  new_fork_server imports parent = record {
    sandbox = none;
    pid = [];
    imports = imports;
    hits = o.zero;
    parent = parent;
    children = pos 0;
    size = o.zero;
    locked = false;
    dead = false;
  }

  -- The cache with its root, where the root's server has said that it is ready.
  unfoldable pub init_cache : ℕ → List ℕ → CacheManager F
  init_cache container pid = record {
    heap =
        λ n. record (new_fork_server [] none) { sandbox = some container; pid = pid; size = o.one };
    next = 1;
    servers = 0 ∷ [];
    seq = 0;
    locked = false;
    full = false;
    removed = [];
  }

  abbrev pub add_hit : ForkServer F → ForkServer F
  add_hit s = record s { hits = o.add s.hits o.one }

  -- `Hit`: the server and those above it. The fuel bounds the way up; `none` is a loop.
  unfoldable pub hit_loop : ℕ → Option ℕ → Heap F → Option (Heap F)
  hit_loop fuel none heap = some heap
  hit_loop zero (some curr) heap = none
  hit_loop (suc fuel) (some curr) heap =
      hit_loop fuel (heap curr).parent (update heap curr (add_hit (heap curr)))

  unfoldable pub hit : ℕ → CacheManager F → Option (Heap F)
  unfolding hit_loop
  hit fs c = hit_loop c.next (some fs) c.heap

  -- A new server in the heap, counted by its parent.
  abbrev pub alloc : ℕ → List String → CacheManager F → CacheManager F
  alloc base to_cache c = record c {
    heap =
        update
          (update c.heap base (record (c.heap base) { children = (c.heap base).children +ℤ pos 1 }))
          c.next (new_fork_server (add_imports (c.heap base).imports to_cache) (some base));
    next = suc c.next;
  }

  unfoldable pub new_cache_entry :
      EntryAnswers → ℕ → List String → CacheManager F → CacheManager F × Entry
  unfolding kill enter_server
  new_cache_entry a base to_cache c =
      let fs = c.next in
      let c' = alloc base to_cache c in
      elim a.created [
        | none ↦ ((kill fs c').0, refused)
        | some container ↦
            if a.pipe_opened
            then enter_server fs container (fork_request a.send_fds) c'
            else (c', fatal)
      ]
