-- ===== src/Worker/Pool/CoreSteps.antt =====
-- `TryRemoveHandler` and the evictor keep the core.
use s19_lambda.Base.{
  ℕ, ap, subst, sym, ◌∙◌, ◌≡◌, ◌≢◌, refl, String, true, false, some, inl, inr, Bool-cases,
  Option-cases, arith, eq_iff, count-erase, count-back, count-init_of, back, ltb,
}
use s19_lambda.Worker.Lru.{popped, pop_back, over_limit}
use s19_lambda.Worker.Pool.{
  HandlerManager, HandlerManagerSet, manager, try_remove_handler, put_manager, detach, unlist,
  evict, evicted, evictor_blocked,
}
use s19_lambda.Worker.Pool.Core.{Core}

-- A handler without a runner goes off its manager's list.
detached-Core :
    (s : HandlerManagerSet) (h : ℕ)
    → (s.store h).runners ≡ 0
    → Core s
    → Core (put_manager s (s.store h).name (detach h (manager s (s.store h).name)))
detached-Core s h idle v = record {
  counted = v.counted;
  once = λ n k. ground (
    arith,
    eq_iff (s.store h).name n,
    v.once n k,
    count-erase h k (manager s (s.store h).name).handlers,
  );
  owned = λ n k l. ground (arith, eq_iff (s.store h).name n, v.owned n k);
  allocated = λ n k l. ground (arith, eq_iff (s.store h).name n, v.allocated n k);
  room = λ n k l. ground (arith, eq_iff (s.store h).name n, v.room n k);
  findable = λ k lt r m. ground (arith, eq_iff (s.store h).name (s.store k).name, v.findable k);
  queued_idle = v.queued_idle;
  queued_allocated = v.queued_allocated;
  capped = v.capped;
}

renewed-Core :
    (s : HandlerManagerSet) (name : String) → Core s → Core (put_manager s name (manager s name))
renewed-Core s name v = record {
  counted = v.counted;
  once = λ n k. ground (arith, eq_iff name n, v.once n k);
  owned = λ n k l. ground (arith, eq_iff name n, v.owned n k);
  allocated = λ n k l. ground (arith, eq_iff name n, v.allocated n k);
  room = λ n k l. ground (arith, eq_iff name n, v.room n k);
  findable = λ k lt r m. ground (arith, eq_iff name (s.store k).name, v.findable k);
  queued_idle = v.queued_idle;
  queued_allocated = v.queued_allocated;
  capped = v.capped;
}

pub try_remove-Core : (s : HandlerManagerSet) (h : ℕ) → Core s → Core (try_remove_handler s h).0
unfolding try_remove_handler
try_remove-Core s h v = elim (Bool-cases (ltb 0 (s.store h).runners)) [
  | inl busy ↦ rw (busy, try_remove_handler) v
  | inr idle ↦ elim (Bool-cases ((manager s (s.store h).name).h_elements h)) [
    | inl there ↦ rw (idle, there, try_remove_handler) (detached-Core s h (ground (arith, idle)) v)
    | inr gone ↦ rw (idle, gone, try_remove_handler) (renewed-Core s (s.store h).name v)
  ]
]

popped-Core :
    (s : HandlerManagerSet) (h : ℕ)
    → back s.lru.hqueue ≡ some h
    → Core s
    → Core (record s { lru = popped h s.store s.lru })
unfolding popped
popped-Core s h last v = record {
  counted = λ k.
      ground (
        arith,
        v.counted k,
        v.counted h,
        count-back h s.lru.hqueue,
        count-init_of k h s.lru.hqueue,
      );
  once = v.once;
  owned = v.owned;
  allocated = v.allocated;
  room = v.room;
  findable = v.findable;
  queued_idle = λ k q. ground (arith, v.queued_idle k);
  queued_allocated = λ k q. ground (arith, v.queued_allocated k);
  capped = v.capped;
}

unlist_listed :
    (s : HandlerManagerSet) (h : ℕ) (m : HandlerManager)
    → s.hm_map (s.store h).name ≡ some m
    → m.locked ≡ false
    → m.h_elements h ≡ true
    → unlist s h ≡ (put_manager s (s.store h).name (detach h m), evicted h)
unfolding unlist
unlist_listed s h m found open_ there = ground (arith, found, open_, there)

unlist-Core :
    (s : HandlerManagerSet) (h : ℕ)
    → (s.store h).runners ≡ 0
    → Core s
    → (unlist s h).1 ≢ evictor_blocked
    → Core (unlist s h).0
unfolding unlist
unlist-Core s h idle v free = elim (Option-cases (s.hm_map (s.store h).name)) [
  | inl missing ↦ rw (missing, unlist) v
  | inr (m, found) ↦ elim (Bool-cases m.locked) [
    | inl held ↦ absurd (free (rw (found, held, unlist) refl))
    | inr open_ ↦ elim (Bool-cases (m.h_elements h)) [
      | inl there ↦
          let same : manager s (s.store h).name ≡ m = rw (found, manager) refl in
          let off : (unlist s h).0 ≡ put_manager s (s.store h).name (detach h m) =
            ap (λ r. r.0) (unlist_listed s h m found open_ there) in
          subst Core (sym off) (
            subst (λ x. Core (put_manager s (s.store h).name (detach h x))) same
              (detached-Core s h idle v))
      | inr gone ↦ rw (found, open_, gone, unlist) v
    ]
  ]
]

-- A pass of the evictor that does not wait keeps the core.
pub evict-Core : (s : HandlerManagerSet) → Core s → (evict s).1 ≢ evictor_blocked → Core (evict s).0
unfolding evict pop_back
evict-Core s v free = elim (Bool-cases (over_limit s.lru)) [
  | inr below ↦ simp below v
  | inl over ↦ elim (Bool-cases s.locked) [
    | inl held ↦ simp (over, held) v
    | inr open_ ↦ elim (Option-cases (back s.lru.hqueue)) [
      | inl empty ↦ simp (over, open_, empty) v
      | inr (h, last) ↦
          let t : HandlerManagerSet = record s { lru = popped h s.store s.lru } in
          let pops : evict s ≡ unlist t h = simp (over, open_, last) in
          let queued : s.lru.hmap h ≡ true =
            ground (arith, v.counted h, count-back h s.lru.hqueue last) in
          rw pops (
            unlist-Core t h (v.queued_idle h queued) (popped-Core s h last v)
              (λ e. free (ap (λ r. r.1) pops ∙ e)))
    ]
  ]
]
