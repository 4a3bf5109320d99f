-- ===== src/Worker/Sock/States.antt =====
-- The states of a SOCK container.
use s19_lambda.Base.{
  ℕ, ◌≤◌, ◌≡◌, ◌≢◌, refl, sym, ap, Bool, true, false, ◌&&◌, ◌||◌, Option, none, some, List, [], ◌∷◌,
  length, ltb, if◌then◌else◌, arith, Bool-cases, inl, inr,
}
use s19_lambda.Worker.Cgroups.{CgName, CgroupFactory}
use s19_lambda.Worker.Handlers.{HandlerState, stopped, running, paused}
use s19_lambda.Worker.Paths.{is_empty, join_path}
use s19_lambda.Worker.Sock.{
  SockContainer, Outcome, done, failed, crashed, channel, ol_sock, StartAnswers, enter_started,
  start, stop, pause, is_zero, wait_for_unpause, unpause, clean_up, cache_create, worker_ends,
}

-- A path that `Channel` gives is that of the socket in the host's directory, and fits the 108 bytes of a
-- socket's address; it gives none exactly where there is no such directory yet, or the path is longer.
channel-length :
    (c : SockContainer)
    → ((p : List ℕ) → channel c ≡ some p → (p ≡ join_path c.host_dir ol_sock) × (length p ≤ 108))
      × (channel c ≡ none
          → (is_empty c.host_dir || ltb 108 (length (join_path c.host_dir ol_sock))) ≡ true)
unfolding channel
channel-length c = (
  λ p e.
      let same : join_path c.host_dir ol_sock ≡ p = ground (arith, e) in
      (sym same, rw (sym same) (ground (arith, e))),
  λ e. ground (arith, e),
)

-- Is there a look that gives 0, with no error before it?
unfoldable pub sees_zero : List (Option (List ℕ)) → Bool
sees_zero [] = false
sees_zero (none ∷ looks) = false
sees_zero (some text ∷ looks) = is_zero text || sees_zero looks

wait_for_unpause-sees_zero :
    (looks : List (Option (List ℕ))) (c : SockContainer)
    → wait_for_unpause looks c
      ≡ (if sees_zero looks then (record c { status = running }, done) else (c, failed))
unfolding wait_for_unpause sees_zero
wait_for_unpause-sees_zero [] c = refl
wait_for_unpause-sees_zero (none ∷ looks) c = refl
wait_for_unpause-sees_zero (some text ∷ looks) c = elim (Bool-cases (is_zero text)) [
  | inl z ↦ rw (z, wait_for_unpause, sees_zero) refl
  | inr n ↦ rw (n, wait_for_unpause, sees_zero) (wait_for_unpause-sees_zero looks c)
]

-- What a call does to the state: where it is done, the state is the one it brings about; otherwise the
-- state is as before.
abbrev pub Reports : SockContainer → SockContainer × Outcome → HandlerState → Type 0
Reports c (d, outcome) state =
    (outcome ≡ done → d.status ≡ state) × (outcome ≢ done → d.status ≡ c.status)

start-Reports : (a : StartAnswers) (c : SockContainer) → Reports c (start a c) running
unfolding start enter_started
start-Reports a c = (λ e. ground (arith, e), λ e. ground (arith, e))

-- Where `Start`, `Stop`, `Pause` or `Unpause` is done, the container is in the state that the call brings
-- about, and where it fails, in the one before. `Unpause` is done exactly where the write succeeds and the file
-- gives 0 in time, with no error before.
calls_report_states :
    (a : StartAnswers) (procs_read written : Bool) (looks : List (Option (List ℕ)))
    (c : SockContainer)
    → Reports c (start a c) running
      × Reports c (stop procs_read c) stopped
      × Reports c (pause written c) paused
      × Reports c (unpause written looks c) running
      × ((unpause written looks c).1 ≡ (if written && sees_zero looks then done else failed))
unfolding stop pause unpause
calls_report_states a procs_read written looks c = (
  start-Reports a c,
  (λ e. ground (arith, e), λ e. ground (arith, e)),
  (λ e. ground (arith, e), λ e. ground (arith, e)),
  rw (wait_for_unpause-sees_zero looks c) (λ e. ground (arith, e), λ e. ground (arith, e)),
  rw (wait_for_unpause-sees_zero looks c) (ground arith),
)

unspawned : SockContainer → SockContainer
unspawned c = record c { pipe_open = true; has_process = false }

start-unspawned :
    (a : StartAnswers) (c : SockContainer)
    → a.pipe_opened ≡ true
    → a.spawned ≡ false
    → start a c ≡ (unspawned c, failed)
unfolding start unspawned
start-unspawned a c opened none_spawned = rw (opened, none_spawned) refl

stop_unset : (c : SockContainer) → c.has_process ≡ false → (stop true c).1 ≡ crashed
unfolding stop
stop_unset c unset = ground (arith, unset)

clean_up_crashed :
    (destroy : CgName → Bool) (f : CgroupFactory) (c : SockContainer)
    → (stop true c).1 ≡ crashed
    → clean_up destroy true f c ≡ worker_ends
unfolding clean_up
clean_up_crashed destroy f c e = rw (e, clean_up) refl

-- Where the process of a cache entry's container cannot be started, and its processes can be listed, the
-- goroutine that cleans up panics, which ends the worker: `Stop` waits for a process that was never set.
pub unspawned_ends_worker :
    (a : StartAnswers) (destroy : CgName → Bool) (f : CgroupFactory) (c : SockContainer)
    → a.pipe_opened ≡ true
    → a.spawned ≡ false
    → cache_create a destroy true f c ≡ worker_ends
unfolding cache_create unspawned
unspawned_ends_worker a destroy f c opened none_spawned =
    let e = start-unspawned a c opened none_spawned in
    rw (ap (λ r. r.1) e, ap (λ r. r.0) e, cache_create)
      (clean_up_crashed destroy f (unspawned c) (stop_unset (unspawned c) refl))
