-- ===== src/Worker/Pool/Eviction.antt =====
-- The evictor keeps the invariant and never meets a handler that its manager does not list.
use s19_lambda.Base.{
  ℕ, ◌≡◌, ◌≢◌, refl, String, true, false, none, some, ◌∷◌, inl, inr, Bool-cases, arith, eq_iff,
  count-erase, back, ap, ◌∙◌, List, [], sum_of, count-back, Option-cases,
}
use s19_lambda.Worker.Lru.{popped, pop_back, over_limit}
use s19_lambda.Worker.Lru.Laws.{popped-IsConsistent, usages}
use s19_lambda.Worker.Pool.{
  HandlerManagerSet, manager, put_manager, detach, unlist, evict, waiting, nothing, evicted,
  evictor_panicked, evictor_blocked,
}
use s19_lambda.Worker.Pool.Invariant.{Inv}

-- The set once `h` has left the LRU and its manager.
abbrev pub without : HandlerManagerSet → ℕ → HandlerManagerSet
without s h =
    put_manager (record s { lru = popped h s.store s.lru }) (s.store h).name
      (detach h (manager s (s.store h).name))

evict_below : (s : HandlerManagerSet) → over_limit s.lru ≡ false → evict s ≡ (s, waiting)
unfolding evict
evict_below s below = simp below

evict_locked :
    (s : HandlerManagerSet)
    → over_limit s.lru ≡ true
    → s.locked ≡ true
    → evict s ≡ (s, evictor_blocked)
unfolding evict
evict_locked s over held = simp (over, held)

evict_empty :
    (s : HandlerManagerSet)
    → over_limit s.lru ≡ true
    → s.locked ≡ false
    → back s.lru.hqueue ≡ none
    → evict s ≡ (s, nothing)
unfolding evict pop_back
evict_empty s over open_ empty = simp (over, open_, empty)

back-eq-none : (l : List ℕ) → back l ≡ none → l ≡ []
unfolding back
back-eq-none [] h = refl
back-eq-none (x ∷ []) h = cc
back-eq-none (x ∷ y ∷ l) h = cc (back-eq-none (y ∷ l) h)

-- Over its limit the LRU is not empty.
over_limit_has_back :
    (s : HandlerManagerSet) → Inv s → over_limit s.lru ≡ true → back s.lru.hqueue ≢ none
unfolding over_limit usages sum_of
over_limit_has_back s v over empty =
    let e : usages s.store s.lru.hqueue ≡ usages s.store [] =
      ap (usages s.store) (back-eq-none s.lru.hqueue empty) in
    ground (arith, v.lru_ok.sized)

module _ (s : HandlerManagerSet) (h : ℕ) (last : back s.lru.hqueue ≡ some h) (v : Inv s) where
  victim-queued : s.lru.hmap h ≡ true
  victim-queued = ground (arith, v.lru_ok.counted h, count-back h s.lru.hqueue)

  without-Inv : Inv (without s h)
  unfolding popped
  without-Inv = record {
    lru_ok = popped-IsConsistent h s.store s.lru v.lru_ok last;
    once = λ n k. ground (
      arith,
      eq_iff (s.store h).name n,
      v.once n k,
      count-erase h k (manager s (s.store h).name).handlers,
    );
    owned = λ n k l. ground (arith, eq_iff (s.store h).name n, v.owned n k);
    allocated = λ n k l. ground (arith, eq_iff (s.store h).name n, v.allocated n k);
    room = λ n k l. ground (arith, eq_iff (s.store h).name n, v.room n k);
    findable = λ k lt r m. ground (
      arith,
      eq_iff (s.store h).name (s.store k).name,
      v.findable k,
      v.queued_idle h,
      victim-queued,
    );
    idle_queued =
        λ n k l e. ground (arith, eq_iff (s.store h).name n, v.idle_queued n k, v.owned n h);
    queued_idle = λ k q. ground (arith, v.queued_idle k);
    capped = v.capped;
    queued_listed =
        λ k q. ground (arith, eq_iff (s.store h).name (s.store k).name, v.queued_listed k);
  }

  unlist-without :
      (manager s (s.store h).name).locked ≡ false
      → unlist (record s { lru = popped h s.store s.lru }) h ≡ (without s h, evicted h)
  unfolding unlist
  unlist-without free = elim (Option-cases (s.hm_map (s.store h).name)) [
    | inl missing ↦ absurd (ground (arith, v.queued_listed h, victim-queued))
    | inr (m, found) ↦ ground (arith, v.queued_listed h, victim-queued)
  ]

  unlist_held :
      (manager s (s.store h).name).locked ≡ true
      → unlist (record s { lru = popped h s.store s.lru }) h
        ≡ (record s { lru = popped h s.store s.lru; locked = true }, evictor_blocked)
  unfolding unlist
  unlist_held held = elim (Option-cases (s.hm_map (s.store h).name)) [
    | inl missing ↦ absurd (ground (arith, v.queued_listed h, victim-queued))
    | inr (m, found) ↦ ground arith
  ]

  unlist_outcome :
      let r = unlist (record s { lru = popped h s.store s.lru }) h in
      (r.1 ≢ evictor_panicked) × (r.1 ≢ evictor_blocked → Inv r.0)
  unlist_outcome = elim (Bool-cases (manager s (s.store h).name).locked) [
    | inl held ↦ rw (unlist_held held) (λ e. cc, λ other. absurd (other refl))
    | inr free ↦ rw (unlist-without free) (λ e. cc, λ _. without-Inv)
  ]

  evict_pops :
      over_limit s.lru ≡ true
      → s.locked ≡ false
      → evict s ≡ unlist (record s { lru = popped h s.store s.lru }) h
  unfolding evict pop_back
  evict_pops over open_ = simp (over, open_, last)

-- A pass of the evictor does not panic, and keeps the invariant unless it waits for a mutex.
evict_outcome :
    (s : HandlerManagerSet)
    → Inv s
    → ((evict s).1 ≢ evictor_panicked) × ((evict s).1 ≢ evictor_blocked → Inv (evict s).0)
evict_outcome s v = elim (Bool-cases (over_limit s.lru)) [
  | inl over ↦ elim (Bool-cases s.locked) [
    | inl held ↦ rw (evict_locked s over held) (λ e. cc, λ other. absurd (other refl))
    | inr open_ ↦ elim (Option-cases (back s.lru.hqueue)) [
      | inl empty ↦ rw (evict_empty s over open_ empty) (λ e. cc, λ _. v)
      | inr (h, last) ↦ rw (evict_pops s h last v over open_) (unlist_outcome s h last v)
    ]
  ]
  | inr below ↦ rw (evict_below s below) (λ e. cc, λ _. v)
]

pub evict_no_panic : (s : HandlerManagerSet) → Inv s → (evict s).1 ≢ evictor_panicked
evict_no_panic s v = (evict_outcome s v).0

-- A pass of the evictor that is not stopped by a mutex keeps the invariant.
pub evict-Inv : (s : HandlerManagerSet) → Inv s → (evict s).1 ≢ evictor_blocked → Inv (evict s).0
evict-Inv s v free = (evict_outcome s v).1 free

-- In a state that satisfies the invariant, over the limit and with the mutexes free, there is a least
-- recently used handler, and exactly that one leaves the LRU and its manager.
pub evict_progress :
    (s : HandlerManagerSet)
    → Inv s
    → over_limit s.lru ≡ true
    → s.locked ≡ false
    → ((n : String) → (manager s n).locked ≡ false)
    → (h : ℕ) × (back s.lru.hqueue ≡ some h) × (evict s ≡ (without s h, evicted h))
evict_progress s v over open_ free = elim (Option-cases (back s.lru.hqueue)) [
  | inl empty ↦ absurd (over_limit_has_back s v over empty)
  | inr (h, last) ↦ (
    h,
    last,
    evict_pops s h last v over open_ ∙ unlist-without s h last v (free (s.store h).name),
  )
]
