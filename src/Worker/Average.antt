-- ===== src/Worker/Average.antt =====
-- A pass of `updateAvgHandlerMemUsage` of worker/handler/handler.go. The handlers of all the managers
-- are one list, in the order in which the loops meet them; that of a Go map is any.
mod Tests
use mathlib.Core.List.{Permᴰ}
use mathlib.Core.List.Permᴰ.{nil, cons, swap, trans}
use s19_lambda.Base.{
  ℕ, ◌+◌, ◌*◌, ◌/◌, ◌≤◌, ◌≡◌, refl, ap, ◌∙◌, Bool, true, false, Option, none, some, List, [], ◌∷◌,
  if◌then◌else◌, ◌==◌, arith,
}
use s19_lambda.Worker.Handlers.{HandlerState, stopped}

-- What the loop asks of a handler: whether it has a sandbox, the sandbox's state, and its usage.
pub record Measured : Type 0 where
  pub has_sandbox : Bool
  pub state : Option HandlerState
  pub usage : ℕ

abbrev pub is_skipped : Measured → Bool
is_skipped h = elim h.has_sandbox [
  | false ↦ true
  | true ↦ elim h.state [ none ↦ true | some stopped ↦ true | some _ ↦ false ]
]

-- `numHandler` and `totalMemUsage`
unfoldable pub measure : List Measured → ℕ × ℕ
measure [] = (0, 0)
measure (h ∷ handlers) =
    let (num_handler, total) = measure handlers in
    if is_skipped h then (num_handler, total) else (num_handler + 1, total + h.usage)

unfoldable pub update_avg_handler_mem_usage : ℕ → List Measured → ℕ
unfolding measure
update_avg_handler_mem_usage avg handlers =
    let (num_handler, total) = measure handlers in
    if num_handler == 0 then avg else total / num_handler

measure-Perm : (l k : List Measured) → Permᴰ l k → measure l ≡ measure k
unfolding measure
measure-Perm _ _ nil = refl
measure-Perm (a ∷ l) (b ∷ k) (cons e p) = rw (measure-Perm l k p, e) refl
measure-Perm (a ∷ b ∷ l) (c ∷ d ∷ _) (swap e f) = rw (e, f) (ground arith)
measure-Perm l k (trans p q) = measure-Perm l _ p ∙ measure-Perm _ k q

-- The average does not depend on the order of the handlers.
pub update_avg_handler_mem_usage-Perm :
    (avg : ℕ) (l k : List Measured)
    → Permᴰ l k
    → update_avg_handler_mem_usage avg l ≡ update_avg_handler_mem_usage avg k
unfolding update_avg_handler_mem_usage
update_avg_handler_mem_usage-Perm avg l k p = rw (measure-Perm l k p) refl
