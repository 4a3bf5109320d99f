-- ===== src/Benchmark.antt =====
-- The benchmark client (benchmark/main.go): the jobs of a configuration, and the table of the times
-- that they take. A job's URL and text go to the server alone, whose time is an argument. A lambda
-- is the number after `hello_` in its name. The pools' threads take the jobs and finish in any
-- order.
pub mod Metrics
mod Tests
use s19_lambda.Base.{
  ℕ, zero, suc, Bool, ◌&&◌, Option, none, some, List, [], ◌∷◌, ◌++◌, map, ◌==◌, if◌then◌else◌,
}

pub record Command : Type 0 where
  pub num_threads : ℕ
  pub total_cmds : ℕ

pub record Job : Type 0 where
  pub job_id : ℕ
  pub lambda : ℕ

pub record PerfMetrics : Type 0 where
  pub job_id : ℕ
  pub lambda : ℕ
  pub run_time : ℕ

-- `addLambdaRequests`, from the job `i` on.
unfoldable pub add_lambda_requests : ℕ → ℕ → ℕ → List Job
add_lambda_requests lambda i zero = []
add_lambda_requests lambda i (suc left) =
    record { job_id = i; lambda = lambda } ∷ add_lambda_requests lambda (suc i) left

-- The loop of `genWorkload` over the commands: the jobs of every pool, where `lambda` is the number of the
-- first command's.
unfoldable pub gen_workload : ℕ → List Command → List Job
unfolding add_lambda_requests
gen_workload lambda [] = []
gen_workload lambda (c ∷ cmds) =
    add_lambda_requests lambda 0 c.total_cmds ++ gen_workload (suc lambda) cmds

-- `cmdWorker` on one job.
abbrev pub cmd_worker : (ℕ → ℕ → ℕ) → Job → PerfMetrics
cmd_worker run job = record {
  job_id = job.job_id;
  lambda = job.lambda;
  run_time = run job.lambda job.job_id;
}

-- A map of maps; a nil map has no keys.
abbrev pub MetricsMap : Type 0
MetricsMap = ℕ → ℕ → Option ℕ

abbrev pub is_of : ℕ → ℕ → PerfMetrics → Bool
is_of lambda job m = m.lambda == lambda && m.job_id == job

-- `metricsMap[lambda][jobID] = runtime`
abbrev pub put_metric : PerfMetrics → MetricsMap → MetricsMap
put_metric m f lambda job = if is_of lambda job m then some m.run_time else f lambda job

unfoldable pub metrics_loop : List PerfMetrics → MetricsMap → MetricsMap
metrics_loop [] f = f
metrics_loop (m ∷ l) f = metrics_loop l (put_metric m f)

unfoldable pub gen_metrics_map : List PerfMetrics → MetricsMap
unfolding metrics_loop
gen_metrics_map metrics = metrics_loop metrics (λ lambda job. none)
