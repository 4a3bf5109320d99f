-- ===== src/Worker/Start.antt =====
-- `RunStart` of worker/handler/handler.go, with the limit on sandboxes that are being created. What
-- the installer, the factory, the sandbox and the import cache answer is a record of answers.
pub mod Leak
pub mod Outcomes
use s19_lambda.Base.{
  ℕ, ◌+◌, ◌-◌, ◌*◌, Bool, true, false, not, ◌&&◌, Option, none, some, if◌then◌else◌, ltb, leb, ◌==◌,
}
use s19_lambda.Worker.Handlers.{HandlerState, unitialized, stopped, running, paused}

-- The memory in use and the average usage of a handler, as the test of the limit reads them, and the answers
-- in the order of the calls; `none` is an error. `hit` is that of `Provision`.
pub record Answers : Type 0 where
  pub mem_usage : ℕ
  pub avg : ℕ
  pub installed : Bool
  pub created : Bool
  pub state : Option HandlerState
  pub started : Bool
  pub unpaused : Bool
  pub server_runs : Bool
  pub hit : Option Bool
  pub ready : Bool
  pub channel : Bool

-- The limit and the counters of the set, whether it has a cache manager, and the handler's sandbox.
pub record StartState : Type 0 where
  pub has_cache : Bool
  pub hard_limit : ℕ
  pub num_sb_creating : ℕ
  pub hhits : ℕ
  pub ihits : ℕ
  pub misses : ℕ
  pub sandbox : Option HandlerState

-- The test on which a creation waits, as the loop of `RunStart` and the scheduler make it.
unfoldable pub exceeds : ℕ → ℕ → ℕ → ℕ → Bool
exceeds hard_limit mem_usage avg num_sb_creating =
    not (hard_limit == 0) && ltb hard_limit (mem_usage + (num_sb_creating + 1) * avg)

-- The test of `scheduleSbCreatingReqs`.
unfoldable pub admits : ℕ → ℕ → ℕ → ℕ → Bool
admits hard_limit mem_usage avg num_sb_creating =
    not (hard_limit == 0) && leb (mem_usage + (num_sb_creating + 1) * avg) hard_limit

-- A step of the creation; `false` is a return with an error.
abbrev pub M : Type 0
M = StartState → StartState × Bool

infixl 5 ◌>>◌
abbrev pub ◌>>◌ : M → M → M
◌>>◌ m k s = let (s', ok) = m s in if ok then k s' else (s', false)

abbrev pub check : Bool → M
check ok s = (s, ok)

enter : M
enter s = (record s { num_sb_creating = s.num_sb_creating + 1 }, true)

leave : M
leave s = (record s { num_sb_creating = s.num_sb_creating - 1 }, true)

set_sandbox : Option HandlerState → M
set_sandbox x s = (record s { sandbox = x }, true)

-- A new sandbox answers for its state; until then it is stopped.
start_sandbox : Answers → Option HandlerState → M
unfolding set_sandbox
start_sandbox a none = check false
start_sandbox a (some stopped) = do check a.started; set_sandbox (some running)
start_sandbox a (some paused) = do check a.unpaused; set_sandbox (some running)
start_sandbox a (some other) = set_sandbox (some other)

count_hit : Option Bool → M
count_hit none s = (s, false)
count_hit (some true) s = (record s { ihits = s.ihits + 1 }, true)
count_hit (some false) s = (record s { misses = s.misses + 1 }, true)

start_server : Answers → M
unfolding count_hit
start_server a s = if s.has_cache then count_hit a.hit s else check a.server_runs s

-- The branch of `RunStart` for a handler without a sandbox, once it is admitted.
unfoldable pub create_sandbox : Answers → M
unfolding enter leave set_sandbox start_sandbox start_server
create_sandbox a = do
  enter
  check a.installed
  check a.created
  set_sandbox (some stopped)
  start_sandbox a a.state
  start_server a
  leave
  check a.ready

count_reuse : M
count_reuse s = (record s { hhits = s.hhits + 1 }, true)

-- The branches for a handler with a sandbox, by the sandbox's state.
unfoldable pub reuse_sandbox : Answers → HandlerState → M
unfolding count_reuse set_sandbox
reuse_sandbox a paused = do count_reuse; check a.unpaused; set_sandbox (some running)
reuse_sandbox a _ = count_reuse

run_start_by : Answers → Option HandlerState → M
run_start_by a none = create_sandbox a
run_start_by a (some x) = reuse_sandbox a x

-- How a call stands: it has given a channel or failed, or it waits in the queue of the scheduler.
pub data StartResult : Type 0 where
  returned failed waits : StartResult

abbrev pub start_result : Bool → StartResult
start_result true = returned
start_result false = failed

-- The test of the loop, which a handler with a sandbox does not reach.
unfoldable pub creation_waits : Answers → StartState → Bool
unfolding exceeds
creation_waits a s = elim s.sandbox [
  | none ↦ exceeds s.hard_limit a.mem_usage a.avg s.num_sb_creating
  | some _ ↦ false
]

-- `RunStart`, from a test of the loop on. A call that waits and is woken comes back to the test.
unfoldable pub run_start : Answers → StartState → StartState × StartResult
unfolding create_sandbox reuse_sandbox run_start_by creation_waits
run_start a s =
    let (s', ok) = (run_start_by a s.sandbox >> check a.channel) s in
    if creation_waits a s then (s, waits) else (s', start_result ok)
