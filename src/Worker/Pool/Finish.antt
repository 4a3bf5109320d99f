-- ===== src/Worker/Pool/Finish.antt =====
-- `RunFinish` keeps the invariant of the set of handler managers, and does not panic.
use s19_lambda.Base.{
  ℕ, ◌<◌, ◌≤◌, ◌≡◌, ◌≢◌, refl, Bool, count, some, update, arith, eq_iff, count-erase,
}
use native.Mathlib.Decide.{dec_lt}
use s19_lambda.Worker.Lru.{add, added}
use s19_lambda.Worker.Lru.Laws.{IsConsistent, added-IsConsistent, IsConsistent-update_same}
use s19_lambda.Worker.Pool.{
  HandlerManagerSet, manager, after_run, add_handler, try_remove_handler, release, add_last,
  run_finish, kept, nuked, panicked,
}
use s19_lambda.Worker.Pool.Invariant.{Inv}

pub add_handler-lru : (s : HandlerManagerSet) (h : ℕ) → (add_handler s h).lru ≡ s.lru
unfolding add_handler
add_handler-lru s h = ground arith

pub add_handler-store : (s : HandlerManagerSet) (h : ℕ) → (add_handler s h).store ≡ s.store
unfolding add_handler
add_handler-store s h = ground arith

try_remove_handler-lru : (s : HandlerManagerSet) (h : ℕ) → (try_remove_handler s h).0.lru ≡ s.lru
unfolding try_remove_handler
try_remove_handler-lru s h = ground arith

try_remove_handler-store :
    (s : HandlerManagerSet) (h : ℕ) → (try_remove_handler s h).0.store ≡ s.store
unfolding try_remove_handler
try_remove_handler-store s h = ground arith

pub add_handler-next : (s : HandlerManagerSet) (h : ℕ) → (add_handler s h).next ≡ s.next
unfolding add_handler
add_handler-next s h = ground arith

pub add_handler-max_runners :
    (s : HandlerManagerSet) (h : ℕ) → (add_handler s h).max_runners ≡ s.max_runners
unfolding add_handler
add_handler-max_runners s h = ground arith

module _ (s : HandlerManagerSet) (h : ℕ) (ok : Bool) (alive : h < s.next) (v : Inv s) where
  abbrev x_after : HandlerManagerSet
  x_after = record s { store = update s.store h (after_run (s.store h) ok) }

  released-IsConsistent : IsConsistent (add_handler x_after h).store (add_handler x_after h).lru
  released-IsConsistent =
      rw (add_handler-store, add_handler-lru) (IsConsistent-update_same h _ refl v.lru_ok)

  pub busy-Inv : 1 < (s.store h).runners → Inv (add_handler x_after h)
  unfolding add_handler count
  busy-Inv busy = record {
    lru_ok = released-IsConsistent;
    once = λ n k. ground (arith, eq_iff (s.store h).name n, v.once n k, v.room n k);
    owned = λ n k l. ground (arith, eq_iff (s.store h).name n, v.owned n k);
    allocated = λ n k l. ground (arith, eq_iff (s.store h).name n, v.allocated n k);
    room = λ n k l. ground (arith, eq_iff (s.store h).name n, v.room n k);
    findable = λ k lt r m. ground (
      arith,
      eq_iff (s.store h).name (s.store k).name,
      eq_iff (s.store h).name (s.store h).name,
      v.findable k,
      add_handler-store x_after h,
      add_handler-next x_after h,
      add_handler-max_runners x_after h,
    );
    idle_queued =
        λ n k l e. ground (arith, eq_iff (s.store h).name n, v.idle_queued n k, v.owned n h);
    queued_idle = λ k q. ground (arith, v.queued_idle k);
    capped = λ k lt. ground (arith, v.capped k);
    queued_listed = λ k q.
        ground
          (arith, eq_iff (s.store h).name (s.store k).name, v.queued_listed k, v.queued_idle k);
  }

  abbrev queued : ℕ → ℕ → HandlerManagerSet
  queued usage now =
      let t = add_handler x_after h in
      let (store, lru, _) = added h usage now (t.store, t.lru) in
      record t { store = store; lru = lru }

  pub queued-Inv : (usage now : ℕ) → (s.store h).runners ≡ 1 → Inv (queued usage now)
  unfolding add_handler added count
  queued-Inv usage now last = record {
    lru_ok =
        added-IsConsistent h usage now (add_handler x_after h).store (add_handler x_after h).lru
          released-IsConsistent (ground (arith, v.queued_idle h, add_handler-lru x_after h));
    once = λ n k. ground (arith, eq_iff (s.store h).name n, v.once n k, v.room n k);
    owned = λ n k l. ground (arith, eq_iff (s.store h).name n, v.owned n k);
    allocated = λ n k l. ground (arith, eq_iff (s.store h).name n, v.allocated n k);
    room = λ n k l. ground (arith, eq_iff (s.store h).name n, v.room n k);
    findable = λ k lt r m. ground (
      arith,
      eq_iff (s.store h).name (s.store k).name,
      eq_iff (s.store h).name (s.store h).name,
      v.findable k,
      add_handler-store x_after h,
      add_handler-next x_after h,
      add_handler-max_runners x_after h,
    );
    idle_queued =
        λ n k l e. ground (arith, eq_iff (s.store h).name n, v.idle_queued n k, v.owned n h);
    queued_idle = λ k q. ground (arith, v.queued_idle k);
    capped = λ k lt. ground (arith, v.capped k);
    queued_listed = λ k q. ground (
      arith,
      eq_iff (s.store h).name (s.store k).name,
      eq_iff (s.store h).name (s.store h).name,
      v.queued_listed k,
      v.queued_idle k,
      v.findable h,
    );
  }

  dropped-IsConsistent :
      IsConsistent (try_remove_handler x_after h).0.store (try_remove_handler x_after h).0.lru
  dropped-IsConsistent =
      rw (try_remove_handler-store, try_remove_handler-lru)
        (IsConsistent-update_same h _ refl v.lru_ok)

  pub dropped-Inv : (s.store h).runners ≡ 1 → Inv (try_remove_handler x_after h).0
  unfolding try_remove_handler
  dropped-Inv last = record {
    lru_ok = dropped-IsConsistent;
    once = λ n k. ground (
      arith,
      eq_iff (s.store h).name n,
      v.once n k,
      count-erase h k (manager s (s.store h).name).handlers,
    );
    owned = λ n k l. ground (arith, eq_iff (s.store h).name n, v.owned n k);
    allocated = λ n k l. ground (arith, eq_iff (s.store h).name n, v.allocated n k);
    room = λ n k l. ground (arith, eq_iff (s.store h).name n, v.room n k, v.owned n k);
    findable = λ k lt r m. ground (arith, eq_iff (s.store h).name (s.store k).name, v.findable k);
    idle_queued =
        λ n k l e. ground (arith, eq_iff (s.store h).name n, v.idle_queued n k, v.owned n h);
    queued_idle = λ k q. ground (arith, v.queued_idle k);
    capped = λ k lt. ground (arith, v.capped k);
    queued_listed = λ k q.
        ground
          (arith, eq_iff (s.store h).name (s.store k).name, v.queued_listed k, v.queued_idle k);
  }

  module _ (usage again now : ℕ) where
    run_finish_busy :
        1 < (s.store h).runners
        → run_finish s h (some usage) (some again) ok now ≡ (add_handler x_after h, kept)
    unfolding run_finish release
    run_finish_busy busy = ground arith

    run_finish-queued :
        (s.store h).runners ≡ 1
        → usage ≤ s.lru.soft_limit
        → run_finish s h (some usage) (some again) ok now ≡ (queued again now, kept)
    unfolding run_finish release add add_last
    run_finish-queued last small = ground (arith, add_handler-lru x_after h, v.queued_idle h)

    run_finish_dropped :
        (s.store h).runners ≡ 1
        → s.lru.soft_limit < usage
        → run_finish s h (some usage) (some again) ok now
          ≡ ((try_remove_handler x_after h).0, nuked)
    unfolding run_finish release try_remove_handler
    run_finish_dropped last large = ground arith

-- A whole `RunFinish` of a handler that runs, whose usage can be read, keeps the invariant, on every branch,
-- and does not panic.
pub run_finish-Inv :
    (s : HandlerManagerSet) (h usage again : ℕ) (ok : Bool) (now : ℕ)
    → h < s.next
    → 0 < (s.store h).runners
    → Inv s
    → Inv (run_finish s h (some usage) (some again) ok now).0
      × ((run_finish s h (some usage) (some again) ok now).1 ≢ panicked)
run_finish-Inv s h usage again ok now alive runs v = elim (dec_lt 1 (s.store h).runners) [
  | yes busy ↦
      rw (run_finish_busy s h ok alive v usage again now busy)
        (busy-Inv s h ok alive v busy, λ e. cc)
  | no one ↦ elim (dec_lt s.lru.soft_limit usage) [
    | yes large ↦
        rw (run_finish_dropped s h ok alive v usage again now (omega arith) large)
          (dropped-Inv s h ok alive v (omega arith), λ e. cc)
    | no small ↦
        rw (run_finish-queued s h ok alive v usage again now (omega arith) (omega arith))
          (queued-Inv s h ok alive v again now (omega arith), λ e. cc)
  ]
]
