-- ===== src/Worker/Docker/States.antt =====
-- The states that a Docker sandbox reports.
use s19_lambda.Base.{
  ◌≡◌, refl, sym, ap, Bool, true, false, some, List, [], ◌∷◌, if◌then◌else◌, arith, Bool-cases,
  Option-cases, inl, inr, subst, ◌++◌,
}
use s19_lambda.Worker.Handlers.{HandlerState, stopped, running, paused}
use s19_lambda.Worker.Docker.{
  Status, Machine, Docker, handler_state, inspect_update, docker_error, state, start, answer, stop,
  pause, unpause,
}

state_seen :
    {D : Type 0} (m : Machine D) (c : Docker D) (s : Status)
    → m.inspect_container c.machine ≡ some s
    → state m c
      ≡ (record c { sandbox = record c.sandbox { container = s } }, some (handler_state s))
unfolding state inspect_update
state_seen m c s seen = rw (seen, state, inspect_update) refl

abbrev started_with : {D : Type 0} → Docker D → D → Status → Docker D
started_with c d s = record c {
  machine = d;
  sandbox = record c.sandbox { container = s; nspid = s.pid };
}

start_ok :
    {D : Type 0} (m : Machine D) (c : Docker D)
    → (start m c).1 ≡ true
    → let d = (m.start_container c.machine).0 in
      (s : Status) × ((m.start_container c.machine).1 ≡ true)
      × (m.inspect_container d ≡ some s)
      × ((start m c).0 ≡ started_with c d s)
unfolding start docker_error
start_ok m c ok = elim (Bool-cases (m.start_container c.machine).1) [
  | inr no_start ↦ absurd (ground (arith, no_start, ok))
  | inl begun ↦ elim (Option-cases (m.inspect_container (m.start_container c.machine).0)) [
    | inl unseen ↦ absurd (ground (arith, begun, unseen, ok))
    | inr (s, seen) ↦ (s, begun, seen, rw (begun, seen, start) refl)
  ]
]

-- A start that succeeds has recorded what the machine shows of the container, with its process, and the
-- sandbox reports that state and changes nothing.
pub start_records :
    {D : Type 0} (m : Machine D) (c : Docker D)
    → (start m c).1 ≡ true
    → let c' = (start m c).0 in
      (m.inspect_container c'.machine ≡ some c'.sandbox.container)
      × (c'.sandbox.nspid ≡ c'.sandbox.container.pid)
      × (state m c' ≡ (c', some (handler_state c'.sandbox.container)))
start_records m c ok =
    let (s, begun, seen, made) = start_ok m c ok in
    subst
      (λ x.
        (m.inspect_container x.machine ≡ some x.sandbox.container)
        × (x.sandbox.nspid ≡ x.sandbox.container.pid)
        × (state m x ≡ (x, some (handler_state x.sandbox.container))))
      (sym made)
      (seen, refl, state_seen m (started_with c (m.start_container c.machine).0 s) s seen)

-- The calls that move a container between its states.
pub data Call : Type 0 where
  starts stops pauses unpauses : Call

abbrev pub call : {D : Type 0} → Machine D → Call → Docker D → Docker D × Bool
call m starts c = start m c
call m stops c = stop m c
call m pauses c = pause m c
call m unpauses c = unpause m c

abbrev pub state_after : Call → HandlerState
state_after starts = running
state_after stops = stopped
state_after pauses = paused
state_after unpauses = running

-- What an inspection shows of a container: whether it runs, and whether it is paused.
abbrev pub Shows : {D : Type 0} → Machine D → Bool → Bool → D → Type 0
Shows m on frozen d =
    (s : Status) × (m.inspect_container d ≡ some s) × (s.is_running ≡ on) × (s.is_paused ≡ frozen)

-- What Docker documents of the state of a container after a call that succeeds; a paused container is a running one.
pub record IsDocker {D : Type 0} (m : Machine D) : Type 0 where
  pub started :
      (d : D) → (m.start_container d).1 ≡ true → Shows m true false (m.start_container d).0
  pub killed : (d : D) → (m.kill_container d).1 ≡ true → Shows m false false (m.kill_container d).0
  pub paused_by :
      (d : D) → (m.pause_container d).1 ≡ true → Shows m true true (m.pause_container d).0
  pub unpaused :
      (d : D) → (m.unpause_container d).1 ≡ true → Shows m true false (m.unpause_container d).0

abbrev runs_after : Call → Bool
runs_after stops = false
runs_after _ = true

abbrev is_paused_after : Call → Bool
is_paused_after pauses = true
is_paused_after _ = false

answer_ok :
    {D : Type 0} (m : Machine D) (c : Docker D) (r : D × Bool)
    → (answer m c r).1 ≡ true
    → (r.1 ≡ true) × ((answer m c r).0.machine ≡ r.0)
unfolding answer docker_error
answer_ok m c r ok = ground (arith, ok)

-- A call that succeeds leaves the machine with a container in the call's state.
call-Shows :
    {D : Type 0} (m : Machine D) (laws : IsDocker m) (k : Call) (c : Docker D)
    → (call m k c).1 ≡ true
    → Shows m (runs_after k) (is_paused_after k) (call m k c).0.machine
unfolding stop pause unpause
call-Shows m laws starts c ok =
    let (s, begun, seen, made) = start_ok m c ok in
    subst (λ x. Shows m true false x.machine) (sym made) (laws.started c.machine begun)
call-Shows m laws stops c ok =
    let (done, at) = answer_ok m c (m.kill_container c.machine) ok in
    subst (Shows m false false) (sym at) (laws.killed c.machine done)
call-Shows m laws pauses c ok =
    let (done, at) = answer_ok m c (m.pause_container c.machine) ok in
    subst (Shows m true true) (sym at) (laws.paused_by c.machine done)
call-Shows m laws unpauses c ok =
    let (done, at) = answer_ok m c (m.unpause_container c.machine) ok in
    subst (Shows m true false) (sym at) (laws.unpaused c.machine done)

state_shown :
    (k : Call) (s : Status)
    → s.is_running ≡ runs_after k
    → s.is_paused ≡ is_paused_after k
    → handler_state s ≡ state_after k
state_shown starts s on frozen = ground (arith, on, frozen)
state_shown stops s on frozen = ground (arith, on, frozen)
state_shown pauses s on frozen = ground (arith, on, frozen)
state_shown unpauses s on frozen = ground (arith, on, frozen)

-- Calls in a row, up to the first error.
unfoldable pub do_calls : {D : Type 0} → Machine D → List Call → Docker D → Docker D × Bool
do_calls m [] c = (c, true)
do_calls m (k ∷ ks) c =
    let next = call m k c in let rest = do_calls m ks next.0 in if next.1 then rest else next

-- After calls in a row that all succeed, a sandbox reports the state of the last of them: running after
-- `Start` and `Unpause`, paused after `Pause`, stopped after `Stop`. Docker is to do what it documents: a
-- container runs and is not paused after a start and an unpause that succeed, runs and is paused after a
-- pause, and neither after a kill.
pub calls_report :
    {D : Type 0} (m : Machine D) (ks : List Call) (k : Call) (c : Docker D)
    → IsDocker m
    → (do_calls m (ks ++ k ∷ []) c).1 ≡ true
    → (state m (do_calls m (ks ++ k ∷ []) c).0).1 ≡ some (state_after k)
unfolding do_calls
calls_report m [] k c laws ok =
    let done : (call m k c).1 ≡ true = ground (arith, ok) in
    let (s, seen, on, frozen) = call-Shows m laws k c done in
    rw (done, state_seen m (call m k c).0 s seen) (ap some (state_shown k s on frozen))
calls_report m (j ∷ ks) k c laws ok =
    let done : (call m j c).1 ≡ true = ground (arith, ok) in
    rw done (calls_report m ks k (call m j c).0 laws (ground (arith, ok, done)))
