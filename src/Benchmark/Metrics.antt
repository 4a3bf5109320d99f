-- ===== src/Benchmark/Metrics.antt =====
-- The table of times does not depend on the order in which the jobs end.
use mathlib.Core.List.{Permᴰ}
use mathlib.Core.List.Permᴰ.{nil, cons, swap, trans}
use s19_lambda.Base.{
  ℕ, zero, suc, ◌+◌, ◌≡◌, ◌<◌, refl, sym, ◌∙◌, subst, Bool, true, false, ◌&&◌, ◌||◌, none, some,
  List, [], ◌∷◌, ◌++◌, map, All, get_elem?, ltb, leb, ◌==◌, if◌then◌else◌, arith, Bool-cases, inl,
  inr,
}
use s19_lambda.Benchmark.{
  Command, Job, PerfMetrics, add_lambda_requests, gen_workload, cmd_worker, MetricsMap, is_of,
  put_metric, metrics_loop, gen_metrics_map,
}

-- Is there a time of that job?
unfoldable has_metric : ℕ → ℕ → List PerfMetrics → Bool
has_metric lambda job [] = false
has_metric lambda job (m ∷ l) = is_of lambda job m || has_metric lambda job l

has_metric-Perm :
    (lambda job : ℕ) (l k : List PerfMetrics)
    → Permᴰ l k
    → has_metric lambda job l ≡ has_metric lambda job k
unfolding has_metric
has_metric-Perm lambda job _ _ nil = refl
has_metric-Perm lambda job (a ∷ l) (b ∷ k) (cons e p) =
    rw (has_metric-Perm lambda job l k p, e) refl
has_metric-Perm lambda job (a ∷ b ∷ l) (c ∷ d ∷ _) (swap e f) = rw (e, f) (ground arith)
has_metric-Perm lambda job l k (trans p q) =
    has_metric-Perm lambda job l _ p ∙ has_metric-Perm lambda job _ k q

-- Every time of that job is `r`.
abbrev Agree : ℕ → ℕ → ℕ → List PerfMetrics → Type 0
Agree lambda job r l = All (λ m. is_of lambda job m ≡ true → m.run_time ≡ r) l

Agree-Perm :
    (lambda job r : ℕ) (l k : List PerfMetrics)
    → Permᴰ l k
    → Agree lambda job r l
    → Agree lambda job r k
Agree-Perm lambda job r _ _ nil h = h
Agree-Perm lambda job r (a ∷ l) (b ∷ k) (cons e p) h = (
  subst (λ m. is_of lambda job m ≡ true → m.run_time ≡ r) e h.0,
  Agree-Perm lambda job r l k p h.1,
)
Agree-Perm lambda job r (a ∷ b ∷ l) (c ∷ d ∷ _) (swap e f) (h, (g, rest)) = (
  subst (λ m. is_of lambda job m ≡ true → m.run_time ≡ r) f g,
  (subst (λ m. is_of lambda job m ≡ true → m.run_time ≡ r) e h, rest),
)
Agree-Perm lambda job r l k (trans p q) h =
    Agree-Perm lambda job r _ k q (Agree-Perm lambda job r l _ p h)

loop_found :
    (lambda job r : ℕ) (l : List PerfMetrics) (f : MetricsMap)
    → Agree lambda job r l
    → metrics_loop l f lambda job ≡ (if has_metric lambda job l then some r else f lambda job)
unfolding metrics_loop has_metric
loop_found lambda job r [] f h = refl
loop_found lambda job r (m ∷ l) f (h, rest) =
    loop_found lambda job r l (put_metric m f) rest ∙ elim (Bool-cases (is_of lambda job m)) [
      | inl e ↦ let same = h e in ground (arith, e, same)
      | inr ne ↦ ground (arith, ne)
    ]

-- The jobs of one command, from `i` on.
has_requests :
    (run : ℕ → ℕ → ℕ) (n lambda job i left : ℕ) (rest : List Job)
    → has_metric lambda job (map (cmd_worker run) (add_lambda_requests n i left ++ rest)) ≡ (
        (n == lambda && leb i job && ltb job (i + left))
        || has_metric lambda job (map (cmd_worker run) rest))
unfolding add_lambda_requests has_metric
has_requests run n lambda job i zero rest = ground arith
has_requests run n lambda job i (suc left) rest =
    ground (arith, has_requests run n lambda job (suc i) left rest)

-- Is the job one of the command at that place?
abbrev pub has_job : List Command → ℕ → ℕ → Bool
has_job cmds i job = elim (get_elem? cmds i) [ none ↦ false | some c ↦ ltb job c.total_cmds ]

none_before :
    (run : ℕ → ℕ → ℕ) (cmds : List Command) (n lambda job : ℕ)
    → lambda < n
    → has_metric lambda job (map (cmd_worker run) (gen_workload n cmds)) ≡ false
unfolding gen_workload has_metric
none_before run [] n lambda job lt = refl
none_before run (c ∷ cmds) n lambda job lt =
    rw (has_requests run n lambda job 0 c.total_cmds (gen_workload (suc n) cmds))
      (ground (arith, none_before run cmds (suc n) lambda job (omega arith)))

has_workload :
    (run : ℕ → ℕ → ℕ) (cmds : List Command) (n i job : ℕ)
    → has_metric (n + i) job (map (cmd_worker run) (gen_workload n cmds)) ≡ has_job cmds i job
unfolding gen_workload has_metric
has_workload run [] n i job = refl
has_workload run (c ∷ cmds) n zero job =
    rw (has_requests run n (n + 0) job 0 c.total_cmds (gen_workload (suc n) cmds))
      (ground (arith, none_before run cmds (suc n) (n + 0) job (omega arith)))
has_workload run (c ∷ cmds) n (suc i) job =
    let up : n + suc i ≡ suc n + i = omega arith in
    rw (has_requests run n (n + suc i) job 0 c.total_cmds (gen_workload (suc n) cmds), up)
      (ground (arith, has_workload run cmds (suc n) i job))

measured-Agree :
    (run : ℕ → ℕ → ℕ) (lambda job : ℕ) (jobs : List Job)
    → Agree lambda job (run lambda job) (map (cmd_worker run) jobs)
measured-Agree run lambda job [] = tt
measured-Agree run lambda job (j ∷ jobs) = (
  λ e.
      let a : j.lambda ≡ lambda = ground (arith, e) in
      let b : j.job_id ≡ job = ground (arith, e) in rw (a, b) refl,
  measured-Agree run lambda job jobs,
)

-- In whatever order the jobs of a configuration end, where each of them is recorded, the table gives for
-- each job of each lambda the time that it took, and nothing for what is no job of the configuration.
pub gen_metrics_map-Perm :
    (run : ℕ → ℕ → ℕ) (cmds : List Command) (metrics : List PerfMetrics) (i job : ℕ)
    → Permᴰ (map (cmd_worker run) (gen_workload 1 cmds)) metrics
    → gen_metrics_map metrics (1 + i) job
      ≡ (if has_job cmds i job then some (run (1 + i) job) else none)
unfolding gen_metrics_map
gen_metrics_map-Perm run cmds metrics i job p =
    let all = map (cmd_worker run) (gen_workload 1 cmds) in
    let r = run (1 + i) job in
    let agree =
      Agree-Perm (1 + i) job r all metrics p
        (measured-Agree run (1 + i) job (gen_workload 1 cmds)) in
    let same = sym (has_metric-Perm (1 + i) job all metrics p) ∙ has_workload run cmds 1 i job in
    loop_found (1 + i) job r metrics (λ _ _. none) agree ∙ rw same refl
