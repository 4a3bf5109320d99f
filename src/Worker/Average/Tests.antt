-- ===== src/Worker/Average/Tests.antt =====
-- Two handlers that count, and one that is stopped.
use s19_lambda.Base.{ℕ, ◌≡◌, refl, true, some, [], ◌∷◌}
use s19_lambda.Worker.Handlers.{HandlerState, stopped, running, paused}
use s19_lambda.Worker.Average.{Measured, measure, update_avg_handler_mem_usage}

abbrev using : HandlerState → ℕ → Measured
using state usage = record { has_sandbox = true; state = some state; usage = usage }

mean :
    update_avg_handler_mem_usage 9 (using running 30 ∷ using stopped 100 ∷ using paused 11 ∷ [])
    ≡ 20
unfolding update_avg_handler_mem_usage measure
mean = refl
