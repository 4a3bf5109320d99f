-- ===== src/Worker/Start/Leak.antt =====
-- Failed creations use up the limit on sandboxes in creation.
use s19_lambda.Base.{
  ℕ, ◌+◌, ◌*◌, ◌<◌, ◌≡◌, ◌≢◌, true, false, not, List, [], ◌∷◌, All, All-map, none, Bool-cases, inl,
  inr, ap, refl, sym, ◌∙◌, arith,
}
use s19_lambda.Worker.Start.{
  Answers, StartState, StartResult, returned, failed, waits, run_start, creation_waits, exceeds,
  admits,
}
use s19_lambda.Worker.Start.Outcomes.{FailsEarly, run_start_leak}

-- Under a limit the two tests are each other's opposite: a creation waits exactly when the
-- scheduler would not wake it up.
pub exceeds-admits :
    (hard_limit mem avg n : ℕ)
    → hard_limit ≢ 0
    → exceeds hard_limit mem avg n ≡ not (admits hard_limit mem avg n)
unfolding exceeds admits
exceeds-admits hard_limit mem avg n h = ground arith

-- Of a handler that has no sandbox yet.
abbrev pub fresh : StartState → StartState
fresh s = record s { sandbox = none }

-- Requests one after another, each of a handler that has no sandbox yet, and what they leave.
unfoldable pub run_all : List Answers → StartState → StartState
run_all [] s = fresh s
run_all (a ∷ l) s = run_all l (run_start a (fresh s)).0

abbrev pub has_ended : StartResult → ℕ
has_ended waits = 0
has_ended returned = 1
has_ended failed = 1

-- How many of them end, and do not wait.
unfoldable pub ended : List Answers → StartState → ℕ
ended [] s = 0
ended (a ∷ l) s = let (s', result) = run_start a (fresh s) in has_ended result + ended l s'

run_start-kept :
    (a : Answers) (s : StartState)
    → ((run_start a s).0.has_cache ≡ s.has_cache) × ((run_start a s).0.hard_limit ≡ s.hard_limit)
unfolding run_start
run_start-kept a s = (ground arith, ground arith)

run_all-hard_limit : (l : List Answers) (s : StartState) → (run_all l s).hard_limit ≡ s.hard_limit
unfolding run_all
run_all-hard_limit [] s = refl
run_all-hard_limit (a ∷ l) s =
    run_all-hard_limit l (run_start a (fresh s)).0 ∙ (run_start-kept a (fresh s)).1

run_all-sandbox : (l : List Answers) (s : StartState) → (run_all l s).sandbox ≡ none
unfolding run_all
run_all-sandbox [] s = refl
run_all-sandbox (a ∷ l) s = run_all-sandbox l (run_start a (fresh s)).0

FailsEarly-transfer :
    (a : Answers) (s t : StartState)
    → s.has_cache ≡ t.has_cache
    → t.sandbox ≡ none
    → FailsEarly a s
    → FailsEarly a t
FailsEarly-transfer a s t e n f = ground arith

run_start_waits :
    (a : Answers) (s : StartState) → creation_waits a s ≡ true → run_start a s ≡ (s, waits)
unfolding run_start
run_start_waits a s w = rw w refl

-- A call that fails early leaves one more in creation where it ends, and nothing where it waits.
one_leak :
    (a : Answers) (s : StartState)
    → FailsEarly a s
    → (run_start a s).0.num_sb_creating ≡ s.num_sb_creating + has_ended (run_start a s).1
one_leak a s early = elim (Bool-cases (creation_waits a s)) [
  | inl w ↦ rw (run_start_waits a s w) (omega arith)
  | inr goes ↦ let (fails, more) = run_start_leak a s early goes in rw (more, fails) refl
]

run_all_leak :
    (l : List Answers) (s t : StartState)
    → s.has_cache ≡ t.has_cache
    → All (λ a. FailsEarly a s) l
    → (run_all l t).num_sb_creating ≡ t.num_sb_creating + ended l t
unfolding run_all ended
run_all_leak [] s t e f = omega arith
run_all_leak (a ∷ l) s t e f =
    let early : FailsEarly a (fresh t) = FailsEarly-transfer a s (fresh t) e refl f.0 in
    let leak = one_leak a (fresh t) early in
    let u = (run_start a (fresh t)).0 in
    let rest = run_all_leak l s u (e ∙ sym (run_start-kept a (fresh t)).0) f.1 in
    omega (arith, leak, rest)

over : (limit mem avg n : ℕ) → limit < n * avg → limit < mem + (n + 1) * avg
over limit mem avg n lt = omega arith

-- A state in which every creation waits.
full_waits :
    (a : Answers) (s : StartState)
    → s.sandbox ≡ none
    → s.hard_limit ≢ 0
    → s.hard_limit < s.num_sb_creating * a.avg
    → creation_waits a s ≡ true
unfolding creation_waits exceeds
full_waits a s none_yet limited full =
    let big = over s.hard_limit a.mem_usage a.avg s.num_sb_creating full in
    rw none_yet (ground (arith, big, limited))

full_stays :
    (m : List Answers) (s : StartState)
    → s.sandbox ≡ none
    → s.hard_limit ≢ 0
    → All (λ a. s.hard_limit < s.num_sb_creating * a.avg) m
    → (ended m s ≡ 0) × (run_all m s ≡ fresh s)
unfolding run_all ended
full_stays [] s none_yet limited full = (refl, refl)
full_stays (a ∷ m) s none_yet limited (here, rest) =
    let w = run_start_waits a (fresh s) (full_waits a (fresh s) refl limited here) in
    let stays = full_stays m (fresh s) refl limited rest in rw w (omega (arith, stays.0), stays.1)

fresh_same : (s : StartState) → s.sandbox ≡ none → fresh s ≡ s
fresh_same s e = sym (ap (λ x. record s { sandbox = x }) e)

more_full : (limit n k avg : ℕ) → limit < k * avg → limit < (n + k) * avg
more_full limit n k avg lt = omega arith

-- After requests of handlers without sandboxes, each of which fails before the creation is counted as over, if it does
-- not wait: where the number of those that failed, times the average usage of a handler, passes the limit as each later
-- call reads that average, every later `RunStart` of a handler without a sandbox waits, whatever memory is in use. None
-- of them ends, so that no sandbox is created any more, the counters stay, and the scheduler wakes none.
pub leaks_block :
    (l m : List Answers) (s : StartState)
    → All (λ a. FailsEarly a s) l
    → s.hard_limit ≢ 0
    → All (λ a. s.hard_limit < ended l s * a.avg) m
    → let s' = run_all l s in
      (ended m s' ≡ 0)
      × (run_all m s' ≡ s')
      × All (λ a. admits s.hard_limit a.mem_usage a.avg s'.num_sb_creating ≡ false) m
unfolding admits
leaks_block l m s early limited many =
    let t = run_all l s in
    let same = run_all-hard_limit l s in
    let count = run_all_leak l s s refl early in
    let full : (a : Answers)
        → s.hard_limit < ended l s * a.avg
        → t.hard_limit < t.num_sb_creating * a.avg =
      λ a lt. rw (same, count) (more_full s.hard_limit s.num_sb_creating (ended l s) a.avg lt) in
    let (none_ended, stays) =
      full_stays m t (run_all-sandbox l s) (λ e. limited (sym same ∙ e))
        (All-map _ _ m full many) in
    (
      none_ended,
      stays ∙ fresh_same t (run_all-sandbox l s),
      All-map _ _ m
          (λ a lt.
            let big =
              over s.hard_limit a.mem_usage a.avg t.num_sb_creating
                (rw count (more_full s.hard_limit s.num_sb_creating (ended l s) a.avg lt)) in
            ground (arith, big))
          many,
    )
