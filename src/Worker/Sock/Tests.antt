-- ===== src/Worker/Sock/Tests.antt =====
-- A SOCK container at concrete inputs.
use s19_lambda.Base.{◌≡◌, refl, true, false, none, some, [], ◌∷◌}
use s19_lambda.Worker.Server.{split}
use s19_lambda.Worker.Paths.{clean_parts, join_parts, clean, join_path}
use s19_lambda.Worker.Cgroups.{own_cg, put_cg}
use s19_lambda.Worker.Sock.{
  SockContainer, new_sock_container, done, channel, write_all, cgroup_enter, StartAnswers,
  enter_started, start, stop, pause, wait_for_unpause, unpause, run_server, MountAnswers,
  mount_dirs, remove, clean_up, worker_ends, cache_create,
}
use s19_lambda.Worker.Sock.States.{sees_zero, unspawned_ends_worker}

-- Opens the code of the container.
opened : Unit {0}
unfolding split clean_parts join_parts clean join_path put_cg channel write_all cgroup_enter
    enter_started start stop pause wait_for_unpause unpause run_server mount_dirs remove clean_up
    cache_create sees_zero
opened = tt

-- "-ipu" and "/r/0"
abbrev fresh : SockContainer
fresh = new_sock_container (47 ∷ 114 ∷ 47 ∷ 48 ∷ []) 0 (45 ∷ 105 ∷ 112 ∷ 117 ∷ []) (own_cg 0)

abbrev mounts : MountAnswers
mounts = record {
  made_tmp = true;
  bound_host = true;
  bound_tmp = true;
  bound_handler = true;
  read_only = true;
}

-- The host's directory is "/h".
abbrev mounted : SockContainer
mounted = (mount_dirs mounts (47 ∷ 104 ∷ []) [] fresh).0

abbrev answers : StartAnswers
answers = record {
  pipe_opened = true;
  spawned = true;
  ready = some (52 ∷ 50 ∷ []);
  write = λ cgroup. true;
}

start_test : (start answers mounted).1 ≡ done
unfolding opened
start_test = refl

unspawned_ends_worker_example :
    cache_create
      (record answers { spawned = false })
      (λ cg. true)
      true
      (record { pool_size = 0; free_cg = none })
      mounted
    ≡ worker_ends
unspawned_ends_worker_example =
    unspawned_ends_worker (record answers { spawned = false }) (λ cg. true)
      (record { pool_size = 0; free_cg = none }) mounted refl refl
