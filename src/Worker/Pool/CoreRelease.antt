-- ===== src/Worker/Pool/CoreRelease.antt =====
-- The first part of `RunFinish` keeps the core.
use s19_lambda.Base.{ℕ, ◌<◌, ◌≡◌, ◌≢◌, Bool, some, count, arith, eq_iff, update, ◌≤◌}
use native.Mathlib.Decide.{dec_lt}
use s19_lambda.Worker.Lru.{add, added}
use s19_lambda.Worker.Pool.{
  HandlerManagerSet, after_run, add_handler, release, add_last, panicked, kept, unlocked,
}
use s19_lambda.Worker.Pool.Core.{Core}
use s19_lambda.Worker.Pool.Finish.{
  add_handler-store, add_handler-next, add_handler-max_runners, add_handler-lru,
}

module _ (s : HandlerManagerSet) (h : ℕ) (ok : Bool) (alive : h < s.next)
    (runs : 0 < (s.store h).runners) (v : Core s) where
  abbrev left : HandlerManagerSet
  left = record s { store = update s.store h (after_run (s.store h) ok) }

  -- The state that a handler leaves which is on its way to `TryRemoveHandler`.
  left-Core : (s.store h).runners ≡ 1 → Core left
  left-Core last = record {
    counted = v.counted;
    once = v.once;
    owned = λ n k l. ground (arith, v.owned n k);
    allocated = v.allocated;
    room = λ n k l. ground (arith, v.room n k);
    findable = λ k lt r m. ground (arith, v.findable k);
    queued_idle = λ k q. ground (arith, v.queued_idle k);
    queued_allocated = v.queued_allocated;
    capped = λ k lt. ground (arith, v.capped k);
  }

  listed-Core : Core (add_handler left h)
  unfolding add_handler count
  listed-Core = record {
    counted = λ k. ground (arith, v.counted k);
    once = λ n k. ground (arith, eq_iff (s.store h).name n, v.once n k, v.room n k);
    owned = λ n k l. ground (arith, eq_iff (s.store h).name n, v.owned n k);
    allocated = λ n k l. ground (arith, eq_iff (s.store h).name n, v.allocated n k);
    room = λ n k l. ground (arith, eq_iff (s.store h).name n, v.room n k);
    findable = λ k lt r m. ground (
      arith,
      eq_iff (s.store h).name (s.store k).name,
      eq_iff (s.store h).name (s.store h).name,
      v.findable k,
      add_handler-store left h,
      add_handler-next left h,
      add_handler-max_runners left h,
    );
    queued_idle = λ k q. ground (arith, v.queued_idle k);
    queued_allocated = λ k q. ground (arith, v.queued_allocated k);
    capped = λ k lt. ground (arith, v.capped k);
  }

  abbrev queued : ℕ → ℕ → HandlerManagerSet
  queued usage now =
      let t = add_handler left h in
      let (store, lru, _) = added h usage now (t.store, t.lru) in
      record t { store = store; lru = lru }

  queued-Core : (usage now : ℕ) → (s.store h).runners ≡ 1 → Core (queued usage now)
  unfolding add_handler added count
  queued-Core usage now last = record {
    counted = λ k. ground (arith, v.counted k, v.counted h, v.queued_idle h);
    once = λ n k. ground (arith, eq_iff (s.store h).name n, v.once n k, v.room n k);
    owned = λ n k l. ground (arith, eq_iff (s.store h).name n, v.owned n k);
    allocated = λ n k l. ground (arith, eq_iff (s.store h).name n, v.allocated n k);
    room = λ n k l. ground (arith, eq_iff (s.store h).name n, v.room n k);
    findable = λ k lt r m. ground (
      arith,
      eq_iff (s.store h).name (s.store k).name,
      eq_iff (s.store h).name (s.store h).name,
      v.findable k,
      add_handler-store left h,
      add_handler-next left h,
      add_handler-max_runners left h,
    );
    queued_idle = λ k q. ground (arith, v.queued_idle k);
    queued_allocated = λ k q. ground (arith, v.queued_allocated k);
    capped = λ k lt. ground (arith, v.capped k);
  }

  module _ (usage again now : ℕ) where
    release_busy :
        1 < (s.store h).runners
        → release s h (some usage) (some again) ok now ≡ (add_handler left h, kept)
    unfolding release
    release_busy busy = ground arith

    release_small :
        (s.store h).runners ≡ 1
        → usage ≤ s.lru.soft_limit
        → release s h (some usage) (some again) ok now ≡ (queued again now, kept)
    unfolding release add add_last
    release_small last small = ground (arith, add_handler-lru left h, v.queued_idle h)

    release_large :
        (s.store h).runners ≡ 1
        → s.lru.soft_limit < usage
        → release s h (some usage) (some again) ok now ≡ (left, unlocked)
    unfolding release
    release_large last large = ground arith

-- The first part of `RunFinish` keeps the core, and does not panic.
pub release-Core :
    (s : HandlerManagerSet) (h usage again : ℕ) (ok : Bool) (now : ℕ)
    → h < s.next
    → 0 < (s.store h).runners
    → Core s
    → Core (release s h (some usage) (some again) ok now).0
      × ((release s h (some usage) (some again) ok now).1 ≢ panicked)
release-Core s h usage again ok now alive runs v = elim (dec_lt 1 (s.store h).runners) [
  | yes busy ↦
      rw (release_busy s h ok alive runs v usage again now busy)
        (listed-Core s h ok alive runs v, λ e. cc)
  | no one ↦ elim (dec_lt s.lru.soft_limit usage) [
    | yes large ↦
        rw (release_large s h ok alive runs v usage again now (omega arith) large)
          (left-Core s h ok alive runs v (omega arith), λ e. cc)
    | no small ↦
        rw (release_small s h ok alive runs v usage again now (omega arith) (omega arith))
          (queued-Core s h ok alive runs v again now (omega arith), λ e. cc)
  ]
]
