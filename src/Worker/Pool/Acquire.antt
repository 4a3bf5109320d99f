-- ===== src/Worker/Pool/Acquire.antt =====
-- `Get` keeps the invariant of the set of handler managers.
use s19_lambda.Base.{
  ℕ, refl, String, true, ◌≡◌, List, [], ◌∷◌, Option, inl, inr, Bool-cases, if◌then◌else◌, ◌==◌,
  count, arith, eq_iff, count-erase, ap,
}
use s19_lambda.Worker.Lru.{remove}
use s19_lambda.Worker.Lru.Laws.{
  IsConsistent, remove-IsConsistent, IsConsistent-update_absent, IsConsistent-update_same,
}
use s19_lambda.Worker.Pool.{
  HandlerManagerSet, Code, manager, create, reuse, find_or_create, pull_code, put_manager, get,
}
use s19_lambda.Worker.Pool.Invariant.{Inv, Lists, queued-lt_next, next-not_queued}

pub create-Inv :
    (s : HandlerManagerSet) (name : String) → Inv s → Inv (create s name (manager s name)).0
unfolding create count
create-Inv s name v = record {
  lru_ok = IsConsistent-update_absent s.next _ (next-not_queued v) v.lru_ok;
  once = λ n h. ground (arith, eq_iff name n, v.once n h, v.allocated n h);
  owned = λ n h l. ground (arith, eq_iff name n, v.owned n h, v.allocated n h);
  allocated = λ n h l. ground (arith, eq_iff name n, v.allocated n h);
  room = λ n h l. ground (arith, eq_iff name n, v.room n h, v.allocated n h);
  findable =
      λ h lt r m. ground (arith, eq_iff name (s.store h).name, eq_iff name name, v.findable h);
  idle_queued = λ n h l e. ground (arith, eq_iff name n, v.idle_queued n h, v.allocated n h);
  queued_idle = λ h q. ground (arith, v.queued_idle h, next-not_queued v);
  capped = λ h lt. ground (arith, v.capped h);
  queued_listed = λ h q. ground (
    arith,
    eq_iff name (s.store h).name,
    v.queued_listed h,
    next-not_queued v,
    queued-lt_next v h,
  );
}

-- The LRU that `reuse` leaves.
reuse-IsConsistent :
    (s : HandlerManagerSet) (name : String) (h : ℕ)
    → Lists s name h
    → Inv s
    → IsConsistent s.store (if (s.store h).runners == 0 then remove h s.store s.lru else s.lru)
reuse-IsConsistent s name h l v = elim (Bool-cases ((s.store h).runners == 0)) [
  | inl idle ↦
      rw idle (remove-IsConsistent h s.store s.lru v.lru_ok (v.idle_queued name h l (ground arith)))
  | inr busy ↦ rw busy v.lru_ok
]

-- `h` stands in front of the list.
pub reuse-Inv :
    (s : HandlerManagerSet) (name : String) (h : ℕ)
    → Lists s name h
    → Inv s
    → Inv (reuse s name (manager s name) h).0
unfolding reuse remove
reuse-Inv s name h l v = record {
  lru_ok = IsConsistent-update_same h _ refl (reuse-IsConsistent s name h l v);
  once =
      λ n k. ground (arith, eq_iff name n, v.once n k, count-erase h k (manager s name).handlers);
  owned = λ n k l'. ground (arith, eq_iff name n, v.owned n k);
  allocated = λ n k l'. ground (arith, eq_iff name n, v.allocated n k);
  room = λ n k l'.
      ground (arith, eq_iff name n, v.room n k, v.room name h, v.owned n h, v.owned name h);
  findable = λ k lt r m. ground (arith, eq_iff name (s.store k).name, v.findable k, v.owned name h);
  idle_queued = λ n k l' e. ground (arith, eq_iff name n, v.idle_queued n k);
  queued_idle = λ k q. ground (arith, v.queued_idle k);
  capped = λ k lt. ground (arith, v.capped k, v.room name h);
  queued_listed =
      λ k q. ground (arith, eq_iff name (s.store k).name, v.queued_listed k, v.queued_idle k);
}

pub front_listed :
    (s : HandlerManagerSet) (name : String) (h : ℕ) (l : List ℕ)
    → (manager s name).handlers ≡ h ∷ l
    → Inv s
    → Lists s name h
unfolding count
front_listed s name h l e v =
    let c : count h (manager s name).handlers ≡ count h (h ∷ l) = ap (count h) e in
    ground (arith, v.once name h)

pub find_or_create-Inv :
    (s : HandlerManagerSet) (name : String) → Inv s → Inv (find_or_create s name (manager s name)).0
unfolding find_or_create
find_or_create-Inv s name v = go (manager s name).handlers refl
  where
    go :
        (l : List ℕ)
        → (manager s name).handlers ≡ l
        → Inv (find_or_create s name (manager s name)).0
    go [] e = rw (e, find_or_create) (create-Inv s name v)
    go (h ∷ l) e = rw (e, find_or_create) (reuse-Inv s name h (front_listed s name h l e v) v)

pub pull_code-Inv :
    (s : HandlerManagerSet) (name : String) (h : ℕ) (pulled : Option Code)
    → Inv s
    → Inv (pull_code s name h pulled).0
unfolding pull_code
pull_code-Inv s name h pulled v = record {
  lru_ok = ground (arith, v.lru_ok);
  once = λ n k. ground (arith, eq_iff name n, v.once n k);
  owned = λ n k l. ground (arith, eq_iff name n, v.owned n k);
  allocated = λ n k l. ground (arith, eq_iff name n, v.allocated n k);
  room = λ n k l. ground (arith, eq_iff name n, v.room n k);
  findable = λ k lt r m. ground (arith, eq_iff name (s.store k).name, v.findable k);
  idle_queued = λ n k l e. ground (arith, eq_iff name n, v.idle_queued n k);
  queued_idle = λ k q. ground (arith, v.queued_idle k);
  capped = λ k lt. ground (arith, v.capped k);
  queued_listed = λ k q. ground (arith, eq_iff name (s.store k).name, v.queued_listed k);
}

blocked-Inv :
    (s : HandlerManagerSet) (name : String)
    → Inv s
    → Inv (record (put_manager s name (manager s name)) { locked = true })
blocked-Inv s name v = record {
  lru_ok = v.lru_ok;
  once = λ n k. ground (arith, eq_iff name n, v.once n k);
  owned = λ n k l. ground (arith, eq_iff name n, v.owned n k);
  allocated = λ n k l. ground (arith, eq_iff name n, v.allocated n k);
  room = λ n k l. ground (arith, eq_iff name n, v.room n k);
  findable = λ k lt r m. ground (arith, eq_iff name (s.store k).name, v.findable k);
  idle_queued = λ n k l e. ground (arith, eq_iff name n, v.idle_queued n k);
  queued_idle = v.queued_idle;
  capped = v.capped;
  queued_listed = λ k q. ground (arith, eq_iff name (s.store k).name, v.queued_listed k);
}

-- `Get` keeps the invariant on every branch: a new handler, a listed one, a failed pull, and the
-- waits.
pub get-Inv :
    (s : HandlerManagerSet) (name : String) (pulled : Option Code)
    → Inv s
    → Inv (get s name pulled).0
unfolding get
get-Inv s name pulled v = elim (Bool-cases s.locked) [
  | inl held ↦ simp held v
  | inr free ↦ elim (Bool-cases (manager s name).locked) [
    | inl held ↦ simp (free, held) (blocked-Inv s name v)
    | inr open_ ↦
        simp (free, open_)
          (pull_code-Inv (find_or_create s name (manager s name)).0 name
            (find_or_create s name (manager s name)).1 pulled (find_or_create-Inv s name v))
  ]
]
