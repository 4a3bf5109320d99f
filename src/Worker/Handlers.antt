-- ===== src/Worker/Handlers.antt =====
-- The handlers of worker/handler/handler.go and the states of their sandboxes
-- (worker/handler/state/handlerState.go). A `*Handler` is its identity, a number; the store
-- holds the fields of each.
use s19_lambda.Base.{ℕ, String, Option}

-- `HandlerState`; the zero value is `unitialized`.
pub data HandlerState : Type 0 where
  unitialized stopped running paused : HandlerState

-- `HandlerState.String`. The constructors are all the values, so its panic is not reached.
pub to_string : HandlerState → String
to_string unitialized = "unitialized"
to_string stopped = "stopped"
to_string running = "running"
to_string paused = "paused"

-- The fields of a `Handler` that the managers read and write.
pub record Handler : Type 0 where
  pub name : String
  pub runners : ℕ
  pub usage : ℕ
  pub sandbox : Option HandlerState

-- The handlers by identity.
abbrev pub Store : Type 0
Store = ℕ → Handler
