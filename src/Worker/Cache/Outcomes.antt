-- ===== src/Worker/Cache/Outcomes.antt =====
-- How `newCacheEntry` ends.
use s19_lambda.Base.{
  ℕ, ◌<◌, ◌≡◌, refl, String, none, some, List, map, range, if◌then◌else◌, Bool-cases, Option-cases,
  inl, inr, arith,
}
use s19_lambda.Base.Int.{pos, ◌+ℤ◌}
use s19_lambda.Worker.ForkRequest.{attempts}
use s19_lambda.Worker.ForkRequest.Replies.{first_process, fork_request-first_process}
use s19_lambda.Worker.Cache.{
  HitOps, CacheManager, EntryAnswers, Entry, made, refused, fatal, enter_server, new_cache_entry,
}
use s19_lambda.Worker.Cache.Invariant.{CacheInv}
use s19_lambda.Worker.Cache.Kept.{new_cache_entry-EntryInv}

-- The end that the answers give.
abbrev pub entry_of : ℕ → EntryAnswers → Entry
entry_of fs a = elim a.created [
  | none ↦ refused
  | some container ↦ if a.pipe_opened then made fs else fatal
]

module _ {F : Type 0} (o : HitOps F) (a : EntryAnswers) (base : ℕ) (to_cache : List String)
    (c : CacheManager F) where
  ended_as : (new_cache_entry o a base to_cache c).1 ≡ entry_of c.next a
  unfolding new_cache_entry enter_server
  ended_as = elim (Option-cases a.created) [
    | inl none_made ↦ rw (none_made, new_cache_entry) refl
    | inr (container, one) ↦ elim (Bool-cases a.pipe_opened) [
      | inl opened ↦
          rw (one, opened, new_cache_entry, fork_request-first_process a.send_fds, enter_server)
            refl
      | inr shut ↦ rw (one, shut, new_cache_entry) refl
    ]
  ]

  process_of :
      (fs : ℕ)
      → (new_cache_entry o a base to_cache c).1 ≡ made fs
      → ((new_cache_entry o a base to_cache c).0.heap fs).pid
        ≡ first_process (map a.send_fds (range 0 attempts))
  unfolding new_cache_entry enter_server
  process_of fs = elim (Option-cases a.created) [
    | inl none_made ↦ rw (none_made, new_cache_entry) (λ e. absurd (ground (arith, e)))
    | inr (container, one) ↦ elim (Bool-cases a.pipe_opened) [
      | inl opened ↦
          rw (one, opened, new_cache_entry, fork_request-first_process a.send_fds, enter_server)
            (λ e. ground (arith, e))
      | inr shut ↦ rw (one, shut, new_cache_entry) (λ e. absurd (ground (arith, e)))
    ]
  ]

-- Making an entry is refused exactly where no container is created: a fork request that fails makes the
-- entry all the same, with an empty text for its process. Whatever the end, the parent counts one child
-- more, and the list of servers is as before. The cache is to satisfy its invariant and the parent to be
-- in its heap.
pub new_cache_entry_outcomes :
    {F : Type 0} (o : HitOps F) (a : EntryAnswers) (base : ℕ) (to_cache : List String)
    (c : CacheManager F)
    → base < c.next
    → CacheInv o c
    → let (d, entry) = new_cache_entry o a base to_cache c in
      (entry ≡ entry_of c.next a)
      × ((fs : ℕ)
          → entry ≡ made fs
          → (d.heap fs).pid ≡ first_process (map a.send_fds (range 0 attempts)))
      × ((d.heap base).children ≡ (c.heap base).children +ℤ pos 1)
      × (d.servers ≡ c.servers)
new_cache_entry_outcomes o a base to_cache c old v =
    let w = new_cache_entry-EntryInv o a base to_cache c old v in
    (ended_as o a base to_cache c, process_of o a base to_cache c, w.one_child, w.same_servers)
