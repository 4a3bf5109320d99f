-- ===== src/Worker/Docker/Tests.antt =====
-- A machine with one container, and the theorems at it.
use s19_lambda.Base.{
  ◌≡◌, refl, some, true, false, not, ◌&&◌, none, [], ◌∷◌, if◌then◌else◌, arith, Bool-cases, inl,
  inr,
}
use s19_lambda.Worker.Handlers.{paused}
use s19_lambda.Worker.Docker.{
  Status, Machine, Docker, new_docker_container, start, pause, unpause, answer, state,
}
use s19_lambda.Worker.Docker.States.{IsDocker, starts, pauses, unpauses, do_calls, calls_report}

abbrev cold : Status
cold = record { is_running = false; is_paused = false; pid = 0 }

abbrev up : Status
up = record { is_running = true; is_paused = false; pid = 7 }

abbrev held : Status
held = record { is_running = true; is_paused = true; pid = 7 }

-- Only a running container is paused, and only a paused one is let go on.
abbrev one_container : Machine Status
one_container = record {
  inspect_container = λ d. some d;
  start_container = λ d. (up, true);
  kill_container = λ d. (cold, true);
  pause_container = λ d. if d.is_running && not d.is_paused then (held, true) else (d, false);
  unpause_container = λ d. if d.is_running && d.is_paused then (up, true) else (d, false);
  remove_container = λ d. (d, not d.is_running);
  exec_container = λ cmd d. (d, d.is_running);
  remove_all = λ dir file d. (d, true);
  read_file = λ dir file d. none;
  cgclassify = λ pid d. (d, d.is_running);
}

one_container-IsDocker : IsDocker one_container
one_container-IsDocker = record {
  started = λ d ok. (up, refl, refl, refl);
  killed = λ d ok. (cold, refl, refl, refl);
  paused_by = λ d ok. elim (Bool-cases (d.is_running && not d.is_paused)) [
    | inl t ↦ rw t (held, refl, refl, refl)
    | inr u ↦ absurd (ground (arith, u, ok))
  ];
  unpaused = λ d ok. elim (Bool-cases (d.is_running && d.is_paused)) [
    | inl t ↦ rw t (up, refl, refl, refl)
    | inr u ↦ absurd (ground (arith, u, ok))
  ];
}

abbrev made : Docker Status
made = record { machine = cold; sandbox = new_docker_container "1" "/ol/1" false cold }

calls_report_example :
    (state one_container
      (do_calls one_container (starts ∷ pauses ∷ unpauses ∷ pauses ∷ []) made).0).1
    ≡ some paused
unfolding do_calls start pause unpause answer
calls_report_example =
    calls_report one_container (starts ∷ pauses ∷ unpauses ∷ []) pauses made one_container-IsDocker
      refl
