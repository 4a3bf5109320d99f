-- ===== src/Worker/Pool/Locks.antt =====
-- What `Get` returns, and what a failed pull does to the mutexes.
use s19_lambda.Base.{
  ℕ, ◌<◌, ◌≡◌, refl, String, true, false, Option, List, [], ◌∷◌, arith, ap, eq_iff,
}
use s19_lambda.Worker.Pool.{
  Code, HandlerManagerSet, got, failed, blocked, manager, put_manager, create, reuse,
  find_or_create, pull_code, get,
}
use s19_lambda.Worker.Pool.Invariant.{Inv, within_limit}
use s19_lambda.Worker.Pool.Acquire.{front_listed, get-Inv}

failed_pull :
    (s : HandlerManagerSet) (name : String) (pulled : Option Code)
    → (get s name pulled).1 ≡ failed
    → let s' = (get s name pulled).0 in (s'.locked ≡ false) × ((manager s' name).locked ≡ true)
unfolding get pull_code find_or_create create reuse
failed_pull s name pulled e = ground (arith, eq_iff name name)

get_held :
    (s : HandlerManagerSet) (name : String) (p : Option Code)
    → s.locked ≡ false
    → (manager s name).locked ≡ true
    → get s name p ≡ (record (put_manager s name (manager s name)) { locked = true }, blocked)
unfolding get
get_held s name p open_ held = simp (open_, held)

get_locked :
    (s : HandlerManagerSet) (name : String) (p : Option Code)
    → s.locked ≡ true
    → get s name p ≡ (s, blocked)
unfolding get
get_locked s name p held = simp held

-- A pull that fails keeps the manager's mutex: the next `Get` of that lambda waits for it with
-- the mutex of the whole set in its hands, and from then on every `Get` waits, of every lambda.
pub failed_pull_wedges :
    (s : HandlerManagerSet) (name other : String) (pulled p q : Option Code)
    → (get s name pulled).1 ≡ failed
    → let s₁ = (get s name pulled).0 in
      let s₂ = (get s₁ name p).0 in ((get s₁ name p).1 ≡ blocked) × (get s₂ other q ≡ (s₂, blocked))
failed_pull_wedges s name other pulled p q fails =
    let (open_, held) = failed_pull s name pulled fails in
    let e = get_held (get s name pulled).0 name p open_ held in
    (
      ap (λ r. r.1) e,
      get_locked (get (get s name pulled).0 name p).0 other q (ap (λ r. r.0.locked) e),
    )

found_lem :
    (s : HandlerManagerSet) (name : String)
    → Inv s
    → let (s', h) = find_or_create s name (manager s name) in
      (h < s'.next) × ((s'.store h).name ≡ name) × (0 < (s'.store h).runners)
unfolding find_or_create
found_lem s name v = go (manager s name).handlers refl
  where
    go :
        (l : List ℕ)
        → (manager s name).handlers ≡ l
        → let (s', h) = find_or_create s name (manager s name) in
          (h < s'.next) × ((s'.store h).name ≡ name) × (0 < (s'.store h).runners)
    go [] e = rw (e, find_or_create) (unfold create in ground arith)
    go (h ∷ l) e =
        let there = front_listed s name h l e v in
        rw (e, find_or_create) (unfold reuse in ground (arith, v.owned name h, v.allocated name h))

-- In a state that satisfies the invariant, the handler that `Get` returns is allocated, bears the name that
-- was asked for, and runs, within the limit on its runners.
pub get_got :
    (s : HandlerManagerSet) (name : String) (pulled : Option Code) (h : ℕ)
    → Inv s
    → (get s name pulled).1 ≡ got h
    → let s' = (get s name pulled).0 in
      (h < s'.next)
      × ((s'.store h).name ≡ name)
      × (0 < (s'.store h).runners)
      × (within_limit s'.max_runners (s'.store h).runners ≡ true)
unfolding get pull_code
get_got s name pulled h v e =
    let found = found_lem s name v in
    let ok : Inv (get s name pulled).0 = get-Inv s name pulled v in
    (ground arith, ground arith, ground arith, ok.capped h (ground arith))
