-- ===== src/Worker/Start/Outcomes.antt =====
-- What a `RunStart` that returns a channel has counted, and what one that fails has left behind.
use s19_lambda.Base.{ℕ, ◌+◌, ◌≡◌, ◌≢◌, ◌⊎◌, true, false, none, some, arith}
use s19_lambda.Worker.Handlers.{stopped, paused}
use s19_lambda.Worker.Start.{Answers, StartState, run_start, creation_waits, returned, failed}

abbrev pub lookups : StartState → ℕ
lookups s = s.hhits + s.ihits + s.misses

-- With a cache manager, a `RunStart` that returns a channel has counted the request once, as a
-- handler hit, an import hit or a miss, has left as many sandboxes in creation as it found, and
-- has a sandbox.
pub run_start_counts :
    (a : Answers) (s : StartState)
    → s.has_cache ≡ true
    → (run_start a s).1 ≡ returned
    → let s' = (run_start a s).0 in
      (lookups s' ≡ lookups s + 1) × (s'.num_sb_creating ≡ s.num_sb_creating) × (s'.sandbox ≢ none)
unfolding run_start creation_waits
run_start_counts a s c e = ground arith

-- Did the call fail before the set was told that the creation is over?
abbrev pub FailsEarly : Answers → StartState → Type 0
FailsEarly a s =
    (s.sandbox ≡ none)
    × ((a.installed ≡ false)
        ⊎ (a.created ≡ false)
        ⊎ (a.state ≡ none)
        ⊎ ((a.state ≡ some stopped) × (a.started ≡ false))
        ⊎ ((a.state ≡ some paused) × (a.unpaused ≡ false))
        ⊎ ((s.has_cache ≡ true) × (a.hit ≡ none))
        ⊎ ((s.has_cache ≡ false) × (a.server_runs ≡ false)))

-- The number of sandboxes in creation after a `RunStart` that need not wait: it is the number before, but a creation
-- that fails at the installation, the factory, the start of the sandbox or of its server leaves
-- one more for good.
pub run_start_leak :
    (a : Answers) (s : StartState)
    → FailsEarly a s
    → creation_waits a s ≡ false
    → ((run_start a s).1 ≡ failed) × ((run_start a s).0.num_sb_creating ≡ s.num_sb_creating + 1)
unfolding run_start creation_waits
run_start_leak a s early goes = ground arith

-- A sandbox that could not be started is kept: the next `RunStart` finds it stopped, does not
-- start it, counts a handler hit and returns its channel.
pub retry_skips_start :
    (a b : Answers) (s : StartState)
    → s.sandbox ≡ none
    → creation_waits a s ≡ false
    → a.installed ≡ true
    → a.created ≡ true
    → a.state ≡ some stopped
    → a.started ≡ false
    → b.channel ≡ true
    → let s₁ = (run_start a s).0 in
      let (s₂, ok) = run_start b s₁ in
      ((run_start a s).1 ≡ failed)
      × (ok ≡ returned)
      × (s₂.sandbox ≡ some stopped)
      × (s₂.hhits ≡ s.hhits + 1)
unfolding run_start creation_waits
retry_skips_start a b s fresh goes i c st bad ch = ground arith
