-- ===== src/Worker/Pool/Invariant.antt =====
-- What holds of the set of handler managers between two operations.
use s19_lambda.Base.{ℕ, ◌<◌, ◌≡◌, refl, String, Bool, true, ◌||◌, ◌==◌, leb, false, count, arith}
use s19_lambda.Worker.Lru.{new_handler_lru}
use s19_lambda.Worker.Lru.Laws.{IsConsistent, flag, new_handler_lru-IsConsistent}
use s19_lambda.Worker.Pool.{HandlerManagerSet, manager, has_room, blank, new_set}

-- A limit of 0 is none.
abbrev pub within_limit : ℕ → ℕ → Bool
within_limit max_runners runners = max_runners == 0 || leb runners max_runners

-- Does the manager of `name` list the handler `h`?
abbrev pub Lists : HandlerManagerSet → String → ℕ → Type 0
Lists s name h = (manager s name).h_elements h ≡ true

-- * the LRU is consistent;
-- * a manager lists a handler once, or not at all where its map has no entry;
-- * a manager lists only allocated handlers that bear its name, and that have room for a runner;
-- * an allocated handler that runs and has room is listed, so that it is found again;
-- * no handler has more runners than the limit;
-- * a handler is in the LRU exactly when it is listed and has no runner.
pub record Inv (s : HandlerManagerSet) : Type 0 where
  pub lru_ok : IsConsistent s.store s.lru
  pub once :
      (n : String) (h : ℕ) → count h (manager s n).handlers ≡ flag ((manager s n).h_elements h)
  pub owned : (n : String) (h : ℕ) → Lists s n h → (s.store h).name ≡ n
  pub allocated : (n : String) (h : ℕ) → Lists s n h → h < s.next
  pub room : (n : String) (h : ℕ) → Lists s n h → has_room s.max_runners (s.store h).runners ≡ true
  pub findable :
      (h : ℕ)
      → h < s.next
      → 0 < (s.store h).runners
      → has_room s.max_runners (s.store h).runners ≡ true
      → Lists s (s.store h).name h
  pub idle_queued :
      (n : String) (h : ℕ) → Lists s n h → (s.store h).runners ≡ 0 → s.lru.hmap h ≡ true
  pub queued_idle : (h : ℕ) → s.lru.hmap h ≡ true → (s.store h).runners ≡ 0
  pub capped : (h : ℕ) → h < s.next → within_limit s.max_runners (s.store h).runners ≡ true
  pub queued_listed : (h : ℕ) → s.lru.hmap h ≡ true → Lists s (s.store h).name h

pub new_set-Inv : (max_runners kb : ℕ) → Inv (new_set max_runners kb)
unfolding new_set new_handler_lru count
new_set-Inv max_runners kb = record {
  lru_ok = new_handler_lru-IsConsistent (λ _. blank) kb;
  once = λ n h. refl;
  owned = λ n h l. ground arith;
  allocated = λ n h l. ground arith;
  room = λ n h l. ground arith;
  findable = λ h lt. absurd (omega arith);
  idle_queued = λ n h l. ground arith;
  queued_idle = λ h q. ground arith;
  capped = λ h lt. absurd (omega arith);
  queued_listed = λ h q. ground arith;
}

pub queued-lt_next : {s : HandlerManagerSet} → Inv s → (h : ℕ) → s.lru.hmap h ≡ true → h < s.next
queued-lt_next {s} v h q = v.allocated (s.store h).name h (v.queued_listed h q)

pub next-not_queued : {s : HandlerManagerSet} → Inv s → s.lru.hmap s.next ≡ false
next-not_queued {s} v = ground (arith, queued-lt_next v s.next)
