-- ===== src/Worker/Pool/Core.antt =====
-- What holds of the set of handler managers whatever comes between the two parts of `RunFinish`.
use s19_lambda.Base.{
  ℕ, ◌<◌, ◌≡◌, refl, String, true, Option, List, [], ◌∷◌, inl, inr, Bool-cases, count, arith,
  eq_iff, count-erase, ap,
}
use s19_lambda.Worker.Lru.{new_handler_lru, remove}
use s19_lambda.Worker.Lru.Laws.{flag}
use s19_lambda.Worker.Pool.{
  HandlerManagerSet, Code, manager, has_room, new_set, create, reuse, find_or_create, pull_code,
  put_manager, get,
}
use s19_lambda.Worker.Pool.Invariant.{Lists, within_limit}

-- * a handler stands in the queue of the LRU once where the map has it, and not at all otherwise;
-- * a manager lists a handler once, or not at all where its map has no entry;
-- * a manager lists only allocated handlers that bear its name, and that have room for a runner;
-- * an allocated handler that runs and has room is listed, so that it is found again;
-- * a handler in the LRU is allocated and has no runner;
-- * no handler has more runners than the limit.
pub record Core (s : HandlerManagerSet) : Type 0 where
  pub counted : (h : ℕ) → count h s.lru.hqueue ≡ flag (s.lru.hmap h)
  pub once :
      (n : String) (h : ℕ) → count h (manager s n).handlers ≡ flag ((manager s n).h_elements h)
  pub owned : (n : String) (h : ℕ) → Lists s n h → (s.store h).name ≡ n
  pub allocated : (n : String) (h : ℕ) → Lists s n h → h < s.next
  pub room : (n : String) (h : ℕ) → Lists s n h → has_room s.max_runners (s.store h).runners ≡ true
  pub findable :
      (h : ℕ)
      → h < s.next
      → 0 < (s.store h).runners
      → has_room s.max_runners (s.store h).runners ≡ true
      → Lists s (s.store h).name h
  pub queued_idle : (h : ℕ) → s.lru.hmap h ≡ true → (s.store h).runners ≡ 0
  pub queued_allocated : (h : ℕ) → s.lru.hmap h ≡ true → h < s.next
  pub capped : (h : ℕ) → h < s.next → within_limit s.max_runners (s.store h).runners ≡ true

pub new_set-Core : (max_runners kb : ℕ) → Core (new_set max_runners kb)
unfolding new_set new_handler_lru count
new_set-Core max_runners kb = record {
  counted = λ h. refl;
  once = λ n h. refl;
  owned = λ n h l. ground arith;
  allocated = λ n h l. ground arith;
  room = λ n h l. ground arith;
  findable = λ h lt. absurd (omega arith);
  queued_idle = λ h q. ground arith;
  queued_allocated = λ h q. ground arith;
  capped = λ h lt. absurd (omega arith);
}

create-Core :
    (s : HandlerManagerSet) (name : String) → Core s → Core (create s name (manager s name)).0
unfolding create count
create-Core s name v = record {
  counted = v.counted;
  once = λ n h. ground (arith, eq_iff name n, v.once n h, v.allocated n h);
  owned = λ n h l. ground (arith, eq_iff name n, v.owned n h, v.allocated n h);
  allocated = λ n h l. ground (arith, eq_iff name n, v.allocated n h);
  room = λ n h l. ground (arith, eq_iff name n, v.room n h, v.allocated n h);
  findable =
      λ h lt r m. ground (arith, eq_iff name (s.store h).name, eq_iff name name, v.findable h);
  queued_idle = λ h q. ground (arith, v.queued_idle h, v.queued_allocated h);
  queued_allocated = λ h q. ground (arith, v.queued_allocated h);
  capped = λ h lt. ground (arith, v.capped h);
}

reuse-Core :
    (s : HandlerManagerSet) (name : String) (h : ℕ)
    → Lists s name h
    → Core s
    → Core (reuse s name (manager s name) h).0
unfolding reuse remove
reuse-Core s name h l v = record {
  counted = λ k. ground (arith, v.counted k, v.counted h, count-erase h k s.lru.hqueue);
  once =
      λ n k. ground (arith, eq_iff name n, v.once n k, count-erase h k (manager s name).handlers);
  owned = λ n k l'. ground (arith, eq_iff name n, v.owned n k);
  allocated = λ n k l'. ground (arith, eq_iff name n, v.allocated n k);
  room = λ n k l'.
      ground (arith, eq_iff name n, v.room n k, v.room name h, v.owned n h, v.owned name h);
  findable = λ k lt r m. ground (arith, eq_iff name (s.store k).name, v.findable k, v.owned name h);
  queued_idle = λ k q. ground (arith, v.queued_idle k);
  queued_allocated = λ k q. ground (arith, v.queued_allocated k);
  capped = λ k lt. ground (arith, v.capped k, v.room name h);
}

front_in_list :
    (s : HandlerManagerSet) (name : String) (h : ℕ) (l : List ℕ)
    → (manager s name).handlers ≡ h ∷ l
    → Core s
    → Lists s name h
unfolding count
front_in_list s name h l e v =
    let c : count h (manager s name).handlers ≡ count h (h ∷ l) = ap (count h) e in
    ground (arith, v.once name h)

find_or_create-Core :
    (s : HandlerManagerSet) (name : String)
    → Core s
    → Core (find_or_create s name (manager s name)).0
unfolding find_or_create
find_or_create-Core s name v = go (manager s name).handlers refl
  where
    go :
        (l : List ℕ)
        → (manager s name).handlers ≡ l
        → Core (find_or_create s name (manager s name)).0
    go [] e = rw (e, find_or_create) (create-Core s name v)
    go (h ∷ l) e = rw (e, find_or_create) (reuse-Core s name h (front_in_list s name h l e v) v)

pull_code-Core :
    (s : HandlerManagerSet) (name : String) (h : ℕ) (pulled : Option Code)
    → Core s
    → Core (pull_code s name h pulled).0
unfolding pull_code
pull_code-Core s name h pulled v = record {
  counted = λ k. ground (arith, v.counted k);
  once = λ n k. ground (arith, eq_iff name n, v.once n k);
  owned = λ n k l. ground (arith, eq_iff name n, v.owned n k);
  allocated = λ n k l. ground (arith, eq_iff name n, v.allocated n k);
  room = λ n k l. ground (arith, eq_iff name n, v.room n k);
  findable = λ k lt r m. ground (arith, eq_iff name (s.store k).name, v.findable k);
  queued_idle = λ k q. ground (arith, v.queued_idle k);
  queued_allocated = λ k q. ground (arith, v.queued_allocated k);
  capped = λ k lt. ground (arith, v.capped k);
}

blocked-Core :
    (s : HandlerManagerSet) (name : String)
    → Core s
    → Core (record (put_manager s name (manager s name)) { locked = true })
blocked-Core s name v = record {
  counted = v.counted;
  once = λ n k. ground (arith, eq_iff name n, v.once n k);
  owned = λ n k l. ground (arith, eq_iff name n, v.owned n k);
  allocated = λ n k l. ground (arith, eq_iff name n, v.allocated n k);
  room = λ n k l. ground (arith, eq_iff name n, v.room n k);
  findable = λ k lt r m. ground (arith, eq_iff name (s.store k).name, v.findable k);
  queued_idle = v.queued_idle;
  queued_allocated = v.queued_allocated;
  capped = v.capped;
}

-- `Get` keeps the core on every branch.
pub get-Core :
    (s : HandlerManagerSet) (name : String) (pulled : Option Code)
    → Core s
    → Core (get s name pulled).0
unfolding get
get-Core s name pulled v = elim (Bool-cases s.locked) [
  | inl held ↦ simp held v
  | inr free ↦ elim (Bool-cases (manager s name).locked) [
    | inl held ↦ simp (free, held) (blocked-Core s name v)
    | inr open_ ↦
        simp (free, open_)
          (pull_code-Core (find_or_create s name (manager s name)).0 name
            (find_or_create s name (manager s name)).1 pulled (find_or_create-Core s name v))
  ]
]
