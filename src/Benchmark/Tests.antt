-- ===== src/Benchmark/Tests.antt =====
-- The table of times at a concrete input.
use mathlib.Core.List.{Permᴰ}
use s19_lambda.Base.{ℕ, ◌+◌, ◌*◌, ◌≡◌, refl, some, List, [], ◌∷◌}
use s19_lambda.Benchmark.{Command, PerfMetrics, add_lambda_requests, gen_workload, gen_metrics_map}
use s19_lambda.Benchmark.Metrics.{gen_metrics_map-Perm}

-- Two requests of the first lambda, and one of the second.
abbrev cmds : List Command
cmds = record { num_threads = 2; total_cmds = 2 } ∷ record { num_threads = 1; total_cmds = 1 } ∷ []

abbrev time : ℕ → ℕ → ℕ
time lambda job = 10 * lambda + job

abbrev metric : ℕ → ℕ → PerfMetrics
metric lambda job = record { job_id = job; lambda = lambda; run_time = time lambda job }

gen_metrics_map-Perm_example :
    gen_metrics_map (metric 1 1 ∷ metric 1 0 ∷ metric 2 0 ∷ []) 1 1 ≡ some 11
unfolding add_lambda_requests gen_workload
gen_metrics_map-Perm_example =
    gen_metrics_map-Perm time cmds (metric 1 1 ∷ metric 1 0 ∷ metric 2 0 ∷ []) 0 1
      (Permᴰ.swap refl refl)
