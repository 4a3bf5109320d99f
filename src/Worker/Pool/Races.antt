-- ===== src/Worker/Pool/Races.antt =====
-- `RunFinish` frees the handler's mutex before `TryRemoveHandler`. What a `Get` in between makes of
-- the LRU.
use s19_lambda.Base.{ℕ, ◌<◌, ◌≡◌, String, true, false, some, arith, ap, eq_iff, back, ◌∙◌}
use s19_lambda.Base.Int.{pos, ◌-ℤ◌, -ℤ_parts}
use s19_lambda.Worker.Lru.{remove, pop_back, over_limit}
use s19_lambda.Worker.Lru.Laws.{IsConsistent, usages, usages_ext}
use s19_lambda.Worker.Pool.{
  HandlerManagerSet, manager, reuse, try_remove_handler, unlist, evict, evictor_panicked,
}
use s19_lambda.Worker.Pool.Invariant.{Inv}

-- A `Get` that takes up an idle handler which is not in the LRU, as a handler is while `RunFinish`
-- is on its way to `TryRemoveHandler`, takes the handler's old usage off the size of the LRU all
-- the same: the size is wrong from then on.
reuse_unqueued_breaks :
    (s : HandlerManagerSet) (name : String) (h : ℕ)
    → IsConsistent s.store s.lru
    → (s.store h).runners ≡ 0
    → s.lru.hmap h ≡ false
    → 0 < (s.store h).usage
    → let s' = (reuse s name (manager s name) h).0 in ¬ IsConsistent s'.store s'.lru
unfolding reuse remove
reuse_unqueued_breaks s name h c idle out used c' =
    let s' = (reuse s name (manager s name) h).0 in
    let same : usages s'.store s.lru.hqueue ≡ usages s.store s.lru.hqueue =
      usages_ext s'.store s.store s.lru.hqueue (λ k _. ground arith) in
    let queue : s'.lru.hqueue ≡ s.lru.hqueue = ground arith in
    let size : s'.lru.size ≡ s.lru.size -ℤ pos (s.store h).usage = ground arith in
    let sum : usages s'.store s'.lru.hqueue ≡ usages s.store s.lru.hqueue =
      ap (usages s'.store) queue ∙ same in
    ground (arith, c.sized, c'.sized, -ℤ_parts s.lru.size (pos (s.store h).usage))

-- `TryRemoveHandler` of a handler that a second `RunFinish` has put into the LRU meanwhile takes
-- it off its manager's list and leaves it in the LRU. The evictor panics when it comes to it.
try_remove_queued_panics :
    (s : HandlerManagerSet) (h : ℕ)
    → Inv s
    → back s.lru.hqueue ≡ some h
    → (s.store h).runners ≡ 0
    → over_limit s.lru ≡ true
    → s.locked ≡ false
    → (manager s (s.store h).name).locked ≡ false
    → (evict (try_remove_handler s h).0).1 ≡ evictor_panicked
unfolding try_remove_handler evict pop_back unlist
try_remove_queued_panics s h v last idle over open_ free =
    ground (arith, eq_iff (s.store h).name (s.store h).name)
