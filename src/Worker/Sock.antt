-- ===== src/Worker/Sock.antt =====
-- The sandbox in a SOCK container (worker/sandbox/sock.go). What the kernel, the pipe and the processes answer
-- is an argument of each call; `false` and `none` are errors. The start of a process, `log.Fatalf` and a Go
-- panic are told apart in the outcomes. Timers, log lines and the texts of errors are left out.
pub mod States
mod Tests
use s19_lambda.Base.{
  ℕ, String, Bool, true, false, not, ◌&&◌, Option, none, some, List, [], ◌∷◌, length, ltb, ◌==◌,
  if◌then◌else◌,
}
use s19_lambda.Base.Digits.{atoi}
use s19_lambda.Worker.Handlers.{HandlerState, stopped, running, paused}
use s19_lambda.Worker.Paths.{is_empty, join_path}
use s19_lambda.Worker.Cgroups.{CgName, CgroupFactory, put_ok, put_error, nil_list, put_cg}

-- `has_process` says that `initCmd.Process` is set, `pipe_open` that `pipe` is.
pub record SockContainer : Type 0 where
  pub id : ℕ
  pub cg_id : CgName
  pub root_dir : List ℕ
  pub host_dir : List ℕ
  pub status : HandlerState
  pub init_pid : List ℕ
  pub has_process : Bool
  pub pipe_open : Bool
  pub unshare_flags : List ℕ

-- `exited` is a fatal error of the worker, `crashed` a panic.
pub data Outcome : Type 0 where
  done failed exited crashed : Outcome

-- `NewSOCKContainer`, with its control group.
abbrev pub new_sock_container : List ℕ → ℕ → List ℕ → CgName → SockContainer
new_sock_container root_dir id unshare_flags cg_id = record {
  id = id;
  cg_id = cg_id;
  root_dir = root_dir;
  host_dir = [];
  status = stopped;
  init_pid = [];
  has_process = false;
  pipe_open = false;
  unshare_flags = unshare_flags;
}

-- "ol.sock"
abbrev pub ol_sock : List ℕ
ol_sock = 111 ∷ 108 ∷ 46 ∷ 115 ∷ 111 ∷ 99 ∷ 107 ∷ []

-- `Channel`: the path of the socket.
unfoldable pub channel : SockContainer → Option (List ℕ)
channel c =
    let sock_path = join_path c.host_dir ol_sock in
    if is_empty c.host_dir
    then none
    else if ltb 108 (length sock_path)
    then none
    else some sock_path

abbrev pub cgroup_list : List String
cgroup_list =
    "blkio" ∷ "cpu" ∷ "devices" ∷ "freezer" ∷ "hugetlb" ∷ "memory" ∷ "perf_event" ∷ "systemd" ∷ []

-- The loop over the control groups, up to the first write that fails.
unfoldable pub write_all : (String → Bool) → List String → Bool
write_all write [] = true
write_all write (cgroup ∷ l) = let rest = write_all write l in if write cgroup then rest else false

-- `CGroupEnter`
unfoldable pub cgroup_enter : (String → Bool) → List ℕ → Bool
unfolding write_all
cgroup_enter write pid = if is_empty pid then false else write_all write cgroup_list

-- What is answered to `Start`: `ready` is the text that the pipe gives within five seconds.
pub record StartAnswers : Type 0 where
  pub pipe_opened : Bool
  pub spawned : Bool
  pub ready : Option (List ℕ)
  pub write : String → Bool

-- `Start` from the text of the pipe on.
unfoldable pub enter_started : StartAnswers → SockContainer → SockContainer × Outcome
unfolding cgroup_enter
enter_started a c = elim a.ready [
  | none ↦ (c, failed)
  | some pid ↦
      if cgroup_enter a.write pid
      then (record c { init_pid = pid; status = running }, done)
      else (record c { init_pid = pid }, failed)
]

unfoldable pub start : StartAnswers → SockContainer → SockContainer × Outcome
unfolding enter_started
start a c =
    if not a.pipe_opened
    then (c, exited)
    else if not a.spawned
    then (record c { pipe_open = true; has_process = false }, failed)
    else enter_started a (record c { pipe_open = true; has_process = true })

abbrev pub has_char : ℕ → List ℕ → Bool
has_char x [] = false
has_char x (c ∷ cs) = if c == x then true else has_char x cs

-- 'p': the container has a namespace of processes.
abbrev pub pid_flag : ℕ
pid_flag = 112

-- `Stop`. Without a namespace of processes the list of processes is read; errors of the signals are not
-- looked at.
unfoldable pub stop : Bool → SockContainer → SockContainer × Outcome
stop procs_read c =
    if not (has_char pid_flag c.unshare_flags) && not procs_read
    then (c, failed)
    else if not c.has_process
    then (c, crashed)
    else (record c { status = stopped }, done)

-- `Pause`, with the write of FROZEN.
unfoldable pub pause : Bool → SockContainer → SockContainer × Outcome
pause written c = if written then (record c { status = paused }, done) else (c, failed)

-- "0"
abbrev pub is_zero : List ℕ → Bool
is_zero [] = false
is_zero (c ∷ []) = c == 48
is_zero (c ∷ d ∷ cs) = false

-- `waitForUnpause`, with what the file gives at each look within the timeout, without white space.
unfoldable pub wait_for_unpause : List (Option (List ℕ)) → SockContainer → SockContainer × Outcome
wait_for_unpause [] c = (c, failed)
wait_for_unpause (none ∷ looks) c = (c, failed)
wait_for_unpause (some text ∷ looks) c =
    let rest = wait_for_unpause looks c in
    if is_zero text then (record c { status = running }, done) else rest

-- `Unpause`, with the write of THAWED.
unfoldable pub unpause : Bool → List (Option (List ℕ)) → SockContainer → SockContainer × Outcome
unfolding wait_for_unpause
unpause written looks c = if written then wait_for_unpause looks c else (c, failed)

-- What is answered to `RunServer`: `ready` is the text of the pipe within five seconds, or the error of
-- reading it; none of both is the timeout.
pub data ServerReply : Type 0 where
  is_ready other_text timed_out : ServerReply

-- `RunServer`
unfoldable pub run_server : ServerReply → Bool → SockContainer → Outcome
run_server reply signalled c = elim (atoi c.init_pid) [
  | none ↦ failed
  | some pid ↦ elim reply [
    | is_ready ↦ if signalled then done else failed
    | other_text ↦ exited
    | timed_out ↦ failed
  ]
]

-- What is answered to `MountDirs`, in the order of its calls.
pub record MountAnswers : Type 0 where
  pub made_tmp : Bool
  pub bound_host : Bool
  pub bound_tmp : Bool
  pub bound_handler : Bool
  pub read_only : Bool

-- `MountDirs`: the host's directory is set whatever fails.
unfoldable pub mount_dirs : MountAnswers → List ℕ → List ℕ → SockContainer → SockContainer × Outcome
mount_dirs a host_dir handler_dir c =
    let c' = record c { host_dir = host_dir } in
    let handler_ok = if is_empty handler_dir then true else a.bound_handler && a.read_only in
    if a.made_tmp && a.bound_host && a.bound_tmp && handler_ok then (c', done) else (c', failed)

-- `Remove`: only the control group's factory can stop it, by a panic; errors are not looked at.
unfoldable pub remove : (CgName → Bool) → SockContainer → CgroupFactory → CgroupFactory × Outcome
remove destroy c f =
    let (f', put) = put_cg destroy c.id c.cg_id f in
    elim put [ put_ok ↦ (f', done) | put_error ↦ (f', done) | nil_list ↦ (f', crashed) ]

-- `Create` of worker/import-cache/cacheFactory.go, with the container of its delegate: where the container
-- does not start, a goroutine stops it and, if that does not panic, removes it.
pub data CacheCreated : Type 0 where
  container : SockContainer → CacheCreated
  cleaned_up : CgroupFactory → CacheCreated
  worker_ends : CacheCreated

unfoldable pub clean_up : (CgName → Bool) → Bool → CgroupFactory → SockContainer → CacheCreated
unfolding stop remove
clean_up destroy procs_read f c = elim (stop procs_read c).1 [
  | done ↦ elim (remove destroy (stop procs_read c).0 f).1 [
    | done ↦ cleaned_up (remove destroy (stop procs_read c).0 f).0
    | failed ↦ cleaned_up f
    | exited ↦ worker_ends
    | crashed ↦ worker_ends
  ]
  | failed ↦ elim (remove destroy c f).1 [
    | done ↦ cleaned_up (remove destroy c f).0
    | failed ↦ cleaned_up f
    | exited ↦ worker_ends
    | crashed ↦ worker_ends
  ]
  | exited ↦ worker_ends
  | crashed ↦ worker_ends
]

unfoldable pub cache_create :
    StartAnswers → (CgName → Bool) → Bool → CgroupFactory → SockContainer → CacheCreated
unfolding start clean_up
cache_create a destroy procs_read f c = elim (start a c).1 [
  | done ↦ container (start a c).0
  | failed ↦ clean_up destroy procs_read f (start a c).0
  | exited ↦ worker_ends
  | crashed ↦ worker_ends
]
