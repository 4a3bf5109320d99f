-- ===== src/Lib.antt =====
-- The worker and the load balancer of OpenLambda's s19-lambda, a server that runs lambdas in sandboxes.
--
-- A request passes the load balancer (load_balancer/proxy.go), which chooses a worker; the worker's
-- server (worker/server/server.go) asks the handler managers for a handler of the lambda
-- (HandlerManagerSet.Get), starts its sandbox (Handler.RunStart), forwards the request and gives the
-- handler back (Handler.RunFinish). Handlers that are not in use wait in an LRU, from which the
-- evictor stops them.
--
-- Files, by the code that they are about (paths from the repository's root):
-- Base, Base.*: numbers, lists, maps as functions and Go's `int` as `ℤ`, shared by all.
-- Subsets: lists of names as sets, for the matcher, the cache, the installer and the load balancer.
-- Worker.Handlers: worker/handler/state/handlerState.go and the struct Handler of
--   worker/handler/handler.go. `Store` is the memory: a handler's pointer is its address.
-- Worker.Lru: worker/handler/handlerLru.go: HandlerLru with `add`, `remove`, `pop_back`; the list
--   and the map of elements are one list of addresses, most recent first.
-- Worker.Pool: HandlerManager and HandlerManagerSet of handler.go, and the loop of the LRU's Evictor.
--   Each operation takes and returns the whole set; the mutexes are Booleans, and an operation
--   that would wait for one has a result of its own. `none` is a panic, also as what is read of a memory
--   cgroup. `Pool.Invariant`,
--   `Acquire`, `Finish` and `Eviction` follow the invariant through get, run_finish and evict, and
--   `Runs` through sequences of them in which each RunFinish is whole. `Core`, `CoreRelease`, `CoreSteps` and `Interleaved` follow
--   what is left of it where other calls come between the unlock of a handler and TryRemoveHandler; `Locks` and
--   `Races` are about the mutexes and about what such a call breaks.
-- Worker.Start: Handler.RunStart. What the installer, the sandbox factory, the sandbox, the import
--   cache and the pipe answer is a record `Answers`; the counters and the sandbox are `StartState`. A call
--   that waits for the limit on creations is a result of its own; a woken call is a new one.
-- Worker.Average: updateAvgHandlerMemUsage of handler.go, over a list of what the handlers answer.
-- Worker.History: worker/server/hist.go. The random number is an argument. The loop for a cold
--   entry runs on as much fuel as the table has entries, and `cold_from_ends` (History/Slots)
--   shows that it never runs out.
-- Worker.Matcher: worker/import-cache/subsetMatcher.go. A fork server is the list of the keys of its
--   map `Imports`. `Counted` compares lists of names as sets, `Chosen` is about the
--   server that is found.
-- Worker.Docker: worker/sandbox/docker.go. The Docker client and the file system are a record `Machine`;
--   what Docker documents of its calls is the hypothesis `IsDocker` of Docker/States.
-- Worker.Server: worker/server/server.go from the path to the answer, on the managers of Worker.Pool and
--   the table of Worker.History. Paths are lists of bytes. A record `Env` answers for the network,
--   the sandbox and the random numbers. The ten tries of ForwardToSandbox are its fuel, which the
--   code's own counter meets first. `Urls` is about paths, `Requests` about what a request leaves.
-- Worker.Cache: the import cache (worker/import-cache/cacheManager.go, forkServer.go and evictor.go). A
--   fork server's pointer is its address in the heap; float operations are a record. The walk of
--   Hit to the root has as much fuel as the heap has servers: a parent is older than its child.
--   `Provision` and `Evictor` are the operations; a call of Provision has two parts, before and
--   after it frees the manager's mutex. `Invariant`, `Entries`, `Hits`, `Kept` and `Steps` follow
--   the invariant through them, `Runs` through sequences of them; `Packages` is about what a fork
--   server has imported, `Wedge` and `Outcomes` about failures.
-- Worker.ForkRequest: the loop of worker/import-cache/forkRequest.go; `sendFds` is C and an argument. Its
--   five calls are its fuel.
-- Worker.Paths: what the worker uses of Go's path and path/filepath.
-- Worker.Config: worker/config/config.go, from the decoded file on. `Defaults` and `Accepts` are about what is
--   accepted and what becomes of it.
-- Worker.CodeRegistry: worker/registry/manager.go. `Packages` is about the lists of packages.
-- Worker.Installer: worker/pip-manager/installManager.go, by whole calls and by single packages. `Calls` is
--   about calls alone and crossed.
-- Worker.Cgroups: worker/sandbox/cgroupFactory.go and the identifiers of sockFactory.go. `Pool` and `PoolRuns` follow
--   the control groups that are free and in use, `Apart` says which containers share one.
-- Worker.Sock: worker/sandbox/sock.go, and the factory of worker/import-cache/cacheFactory.go that starts
--   such a container. The looks of waitForUnpause within its timeout are a list.
-- Worker.Util: the identifiers of worker/util/util.go; `Digits` is about their digits.
-- Balancer.Registry: load_balancer/metaregistry.go. A map of slices is a function with the empty
--   list as default; `none` is an index out of range. `Links`, `Nodes` and `Push` follow the parts
--   of `push`, `Refine` compares the registry with a list of requests, and `Files` is about the file of a handler's packages.
-- Balancer.Servers: the structs Server and Proxy (load_balancer/server.go and proxy.go), and the load
--   of a server over a record of float operations; theorems assume of those only what they say.
-- Balancer.Proxy: the choice of a server by proxy.go. A pointer to a server is its index. The loop of
--   the round robin runs on fuel, of two rounds: a round meets every server
--   once. `RoundRobin`, `LeastLoad` and `Lard` are about one policy each; `Search` is the loop under LeastLoad.
-- Balancer.Attempts: ReverseProxy and attemptServers, on the replies that the servers give. A
--   request is tried three times at most, each in one unit of fuel, and a fourth call finds the list of
--   tried servers full. A `Request` has the two paths that ReverseProxy changes. `Connections` is about what the attempts leave, `Ready` and `Ends` about their end.
-- Balancer.Limit: handler of proxy.go, as a step relation of requests that enter, leave or panic.
-- Balancer.Config: the defaults and the checks of load_balancer/config.go.
-- Benchmark: benchmark/main.go, the jobs of a configuration and the table of the times they take, which is
--   what `Metrics` is about.
-- Integers are unbounded where the source has `int`: they count handlers, requests and megabytes.
-- Threads are sequences of steps at the points where a mutex is released.
--
-- Not modelled: processes, containers, files, sockets and HTTP, which are parameters or answers; log
-- output; vendored packages; the code in C and Python; the commands of worker/admin, which start
-- processes and print; the set-up of the servers and of the directories.
pub mod Base
pub mod Subsets
pub mod Balancer
pub mod Worker
pub mod Benchmark
