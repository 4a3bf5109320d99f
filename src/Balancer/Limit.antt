-- ===== src/Balancer/Limit.antt =====
-- `handler` of load_balancer/proxy.go: the limit on the requests in the proxy. The two sections under
-- the lock of `ConnCond` are the steps; a wait is the absence of a step.
mod Tests
use s19_lambda.Base.{
  ℕ, zero, suc, ◌+◌, ◌<◌, ◌≤◌, ◌≡◌, ◌≢◌, refl, sym, ◌∙◌, ap, Bool, true, false, not, ◌&&◌,
  if◌then◌else◌, arith, Bool-cases, inl, inr, ◌⊎◌,
}
use s19_lambda.Base.Int.{ℤ, pos, negsuc, ◌+ℤ◌, ◌-ℤ◌, eqb_ℤ, eqb_ℤ_iff, leb_ℤ, pos_add, pos_sub}
use s19_lambda.Balancer.Servers.{unlimited}

-- The requests that are being served, and those that panicked while they were; `net/http` recovers the
-- panics of a handler.
pub record Gate : Type 0 where
  pub max_conn : ℤ
  pub connections : ℤ
  pub serving : ℕ
  pub panicked : ℕ

-- The condition of the loop that waits.
abbrev pub must_wait : Gate → Bool
must_wait g = not (eqb_ℤ g.max_conn unlimited) && leb_ℤ g.max_conn g.connections

abbrev pub entered : Gate → Gate
entered g = record g { connections = g.connections +ℤ pos 1; serving = suc g.serving }

abbrev pub departed : Gate → ℕ → Gate
departed g n = record g { connections = g.connections -ℤ pos 1; serving = n }

-- A request that panics never comes to the decrement.
abbrev pub broken : Gate → ℕ → Gate
broken g n = record g { serving = n; panicked = suc g.panicked }

pub data Step : Gate → Gate → Type 0 where
  enters : (g : Gate) → must_wait g ≡ false → Step g (entered g)
  leaves : (g : Gate) (n : ℕ) → g.serving ≡ suc n → Step g (departed g n)
  panics : (g : Gate) (n : ℕ) → g.serving ≡ suc n → Step g (broken g n)

pub data Steps : Gate → Gate → Type 0 where
  start : (g : Gate) → Steps g g
  next : (g h k : Gate) → Steps g h → Step h k → Steps g k

-- The gate before the first request.
abbrev pub open_gate : ℤ → Gate
open_gate max_conn = record { max_conn = max_conn; connections = pos 0; serving = 0; panicked = 0 }

pub record IsCounted (limit : ℤ) (g : Gate) : Type 0 where
  pub same_limit : g.max_conn ≡ limit
  pub counted : g.connections ≡ pos (g.serving + g.panicked)
  pub bounded : (m : ℕ) → limit ≡ pos m → g.serving + g.panicked ≤ m

Step-IsCounted : (limit : ℤ) (g h : Gate) → Step g h → IsCounted limit g → IsCounted limit h
Step-IsCounted limit g h (enters _ free) v = record {
  same_limit = v.same_limit;
  counted = rw (v.counted, pos_add (g.serving + g.panicked) 1) (ap pos (omega arith));
  bounded = λ m e. ground (arith, v.same_limit, v.counted, v.bounded m e, free, e);
}
Step-IsCounted limit g h (leaves _ n more) v = record {
  same_limit = v.same_limit;
  counted =
      let sum : g.serving + g.panicked ≡ n + g.panicked + 1 = omega (arith, more) in
      rw (v.counted, sum, pos_sub (n + g.panicked) 1) refl;
  bounded = λ m e. omega (arith, v.bounded m e, more);
}
Step-IsCounted limit g h (panics _ n more) v = record {
  same_limit = v.same_limit;
  counted = v.counted ∙ ap pos (omega (arith, more));
  bounded = λ m e. omega (arith, v.bounded m e, more);
}

Steps-IsCounted : (limit : ℤ) (g h : Gate) → Steps g h → IsCounted limit g → IsCounted limit h
Steps-IsCounted limit g h (start _) v = v
Steps-IsCounted limit g k (next _ h _ before step) v =
    Step-IsCounted limit h k step (Steps-IsCounted limit g h before v)

opened-IsCounted : (limit : ℤ) → IsCounted limit (open_gate limit)
opened-IsCounted limit = record { same_limit = refl; counted = refl; bounded = λ m e. omega arith }

-- In every order of requests that enter, leave or panic, the count is that of the requests being served
-- and of all that ever panicked, and never more than a limit that is given.
pub gate_counts :
    (m : ℕ) (g : Gate)
    → Steps (open_gate (pos m)) g
    → (g.connections ≡ pos (g.serving + g.panicked)) × (g.serving + g.panicked ≤ m)
gate_counts m g run =
    let v = Steps-IsCounted (pos m) (open_gate (pos m)) g run (opened-IsCounted (pos m)) in
    (v.counted, v.bounded m refl)

-- Once as many requests have panicked as the limit allows, every request waits for ever: no step enters
-- the proxy any more, and none is left in it.
pub gate_wedged : (m : ℕ) (g h : Gate) → Steps (open_gate (pos m)) g → g.panicked ≡ m → ¬ Step g h
gate_wedged m g h run all_gone (enters _ free) =
    let v = Steps-IsCounted (pos m) (open_gate (pos m)) g run (opened-IsCounted (pos m)) in
    let limit = v.same_limit in
    let count = v.counted in
    let most = v.bounded m refl in
    let full : must_wait g ≡ true = rw (limit, count) (ground arith) in absurd cc
gate_wedged m g h run all_gone (leaves _ n more) =
    let (count, most) = gate_counts m g run in omega arith
gate_wedged m g h run all_gone (panics _ n more) =
    let (count, most) = gate_counts m g run in omega arith
