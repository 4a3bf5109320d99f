-- ===== src/Worker/Docker.antt =====
-- The sandbox in a Docker container (worker/sandbox/docker.go). The Docker client, the file system and
-- `cgclassify` are a record of operations on a state `D` of the machine; `false` is an error. Timers and
-- the texts of errors are left out; the inspection that an error makes is not. A file is its directory and its name.
pub mod States
mod Tests
use s19_lambda.Base.{
  ℕ, String, Bool, true, false, not, ◌&&◌, Option, none, some, List, [], ◌∷◌, ◌++◌, if◌then◌else◌,
}
use s19_lambda.Worker.Handlers.{HandlerState, stopped, running, paused}

-- What an inspection gives of the container's state.
pub record Status : Type 0 where
  pub is_running : Bool
  pub is_paused : Bool
  pub pid : ℕ

pub record Machine (D : Type 0) : Type 0 where
  pub inspect_container : D → Option Status
  pub start_container : D → D × Bool
  pub kill_container : D → D × Bool
  pub pause_container : D → D × Bool
  pub unpause_container : D → D × Bool
  pub remove_container : D → D × Bool
  pub exec_container : List String → D → D × Bool
  pub remove_all : String → String → D → D × Bool
  pub read_file : String → String → D → Option String
  pub cgclassify : String → D → D × Bool

pub record DockerContainer : Type 0 where
  pub host_id : String
  pub host_dir : String
  pub nspid : ℕ
  pub container : Status
  pub cache : Bool

-- The container as the worker knows it, and the machine.
pub record Docker (D : Type 0) : Type 0 where
  pub machine : D
  pub sandbox : DockerContainer

abbrev pub new_docker_container : String → String → Bool → Status → DockerContainer
new_docker_container host_id host_dir cache container = record {
  host_id = host_id;
  host_dir = host_dir;
  nspid = 0;
  container = container;
  cache = cache;
}

abbrev pub handler_state : Status → HandlerState
handler_state s = if s.is_running then if s.is_paused then paused else running else stopped

module _ {D : Type 0} (m : Machine D) where
  unfoldable pub inspect_update : Docker D → Docker D × Bool
  inspect_update c = elim (m.inspect_container c.machine) [
    | none ↦ (c, false)
    | some s ↦ (record c { sandbox = record c.sandbox { container = s } }, true)
  ]

  -- An error looks at the container once more.
  unfoldable pub docker_error : Docker D → Docker D × Bool
  unfolding inspect_update
  docker_error c = ((inspect_update c).0, false)

  unfoldable pub state : Docker D → Docker D × Option HandlerState
  unfolding inspect_update
  state c =
      let (c', ok) = inspect_update c in
      if ok then (c', some (handler_state c'.sandbox.container)) else (c', none)

  unfoldable pub start : Docker D → Docker D × Bool
  unfolding docker_error
  start c =
      let (d, ok) = m.start_container c.machine in
      let c' = record c { machine = d } in
      if not ok then docker_error c' else elim (m.inspect_container d) [
        | none ↦ docker_error c'
        | some s ↦ (record c' { sandbox = record c.sandbox { container = s; nspid = s.pid } }, true)
      ]

  -- The calls that end with the client's answer.
  unfoldable pub answer : Docker D → D × Bool → Docker D × Bool
  unfolding docker_error
  answer c (d, ok) = let c' = record c { machine = d } in if ok then (c', true) else docker_error c'

  unfoldable pub stop : Docker D → Docker D × Bool
  unfolding answer
  stop c = answer c (m.kill_container c.machine)

  unfoldable pub pause : Docker D → Docker D × Bool
  unfolding answer
  pause c = answer c (m.pause_container c.machine)

  unfoldable pub unpause : Docker D → Docker D × Bool
  unfolding answer
  unpause c = answer c (m.unpause_container c.machine)

  -- The files go first; an error there is returned as it is.
  unfoldable pub remove_sandbox : Docker D → Docker D × Bool
  unfolding answer
  remove_sandbox c =
      let (d, ok) = m.remove_all c.sandbox.host_dir "ol.sock" c.machine in
      let (d', ok') = m.remove_all c.sandbox.host_dir "fs.sock" d in
      if not ok
      then (record c { machine = d }, false)
      else if not ok'
      then (record c { machine = d' }, false)
      else answer (record c { machine = d' }) (m.remove_container d')

  unfoldable pub logs : Docker D → Option (String × String)
  logs c = elim (m.read_file c.sandbox.host_dir "stdout" c.machine) [
    | none ↦ none
    | some out ↦ elim (m.read_file c.sandbox.host_dir "stderr" c.machine) [
      | none ↦ none
      | some err ↦ some (out, err)
    ]
  ]

  unfoldable pub cgroup_enter : String → Docker D → Docker D × Bool
  cgroup_enter pid c = let (d, ok) = m.cgclassify pid c.machine in (record c { machine = d }, ok)

  unfoldable pub run_server : Docker D → Docker D × Bool
  run_server c =
      let cmd = "python" ∷ "server.py" ∷ (if c.sandbox.cache then "--cache" ∷ [] else []) in
      let (d, ok) = m.exec_container cmd c.machine in (record c { machine = d }, ok)
