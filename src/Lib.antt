-- ===== src/Lib.antt =====
-- podman-sandbox-runner runs commands in locked-down containers: one at a time, from a pool of warm
-- containers, through a daemon, or as the tools of an MCP server.
--
-- The parts and where they are modelled:
--   Sandbox           pkg/sandbox/sandbox.go: Opts, Result, New and Run; Sandbox/Errors: Go's errors
--   Sandbox/SyncWriter  pkg/sandbox/syncwriter.go
--   Docker/Seccomp    pkg/sandbox/seccomp.go: which form of the seccomp profile a daemon gets
--   Docker/Profile    pkg/sandbox/seccomp.go: seccompProfileFile
--   Docker/Backend    pkg/sandbox/dockerapi.go: dockerBackend.Run; Cleanup and Outcome prove its laws
--   Docker/Holder     pkg/sandbox/pooldocker.go: the four methods of dockerPool as a poolImpl;
--                     Docker/Holder/Start: newDockerPool; Docker/Fleet: all containers of a pool
--   K8s/Pods          pkg/sandbox/k8sapi.go and poolk8s.go: the pods and the policy that they create
--   K8s/Cluster       pkg/sandbox/k8sapi.go: kubeClient, ensureIsolationPolicy and waitPodRunning;
--                     K8s/Waiting proves that the wait ends
--   K8s/Backend       pkg/sandbox/k8sapi.go: k8sBackend.Run; Served and Outcome prove its laws
--   K8s/Holder        pkg/sandbox/poolk8s.go: the four methods of k8sPool as a poolImpl;
--                     K8s/Holder/Start: newK8sPool; K8s/Fleet: all pods of a pool
--   Pool/Config       pkg/sandbox/pool.go: PoolConfig.normalize
--   Pool/State        pkg/sandbox/pool.go: the map, the channel and the sections under the mutex
--   Pool/Ops          pkg/sandbox/pool.go: acquire, release, drop, Run, reapIdle, Close, NewPool as
--                     one goroutine runs them, over poolImpl as a record of functions
--   Pool/Accounts     what the holders of a pool cost: books on what is made and closed, over Run, the
--                     reaper, NewPool and Close; Pool/Accounts/Ledger: the same for written-down calls
--   Pool/Ticker       pkg/sandbox/pool.go: the interval of reaper()
--   Pool/Backends     pkg/sandbox/pool.go: the choice of a backend in NewPool
--   Pool/Threads      pkg/sandbox/pool.go: the same sections as the steps of any number of
--                     goroutines in Run, the reaper and Close
--   Probe             pkg/sandbox/probe.go
--   Daemon/Server     pkg/sandbox/server.go: handleRun, ServeHTTP, ServeUnix and handleConn
--   Daemon/Client     pkg/sandbox/client.go: Submit
--                     Daemon/Delivery puts the client and the server together, and
--                     Daemon/Lifetime the server and its pool
--   Cli/Flags         cmd/sandbox/opts.go: buildOpts
--   Cli/Tools         cmd/sandbox/mcp.go: runSandbox, runScript and execute; Cli/Tools/Server:
--                     buildMCPServer
--   Cli/Mcp           cmd/sandbox/mcp.go: runMCP; Cli/Mcp/Session and Spent: runMCP over the
--                     pool, and on Docker in either mode in Cli/Mcp/Containers
--   Cli/Dispatch      cmd/sandbox/main.go: the choice of the subcommand
--   Cli/Bench         cmd/sandbox/bench.go: runBench and the measurements; Cli/Bench/Dashboard:
--                     renderDashboard, with the bars in Cli/Bench/Bars
--   Cli/Serve         cmd/sandbox/serve.go: runServe and isLoopbackAddr, as the sequence of what the
--                     process does to the pool, the socket and the listeners; Cli/Serve/Session: the
--                     same over the pool and the daemon, on Docker holders in Cli/Serve/Containers
--                     and on pods in Cli/Serve/Workloads
--   Cli/Process       cmd/sandbox/main.go: the run command and runViaDaemon
-- The modules that prove laws of the pool are Pool/Invariant, Acquire, Runs, Reaper, Closing,
-- Hygiene, Timeouts, Creation and Histories, and below Pool/Threads the ledger of who has which
-- holder and, in Pool/Threads/Lending, the abstract
-- lending pool that only counts, with the refinement in Pool/Threads/Refinement.
--
-- How they interact: the command line builds Opts and runs them, or sends a RunRequest to the daemon;
-- the daemon and the MCP server run commands on the pool; the pool drives a backend's holders. Each
-- client takes what it calls as a parameter, of the type that the callee's definition has.
--
-- Whole processes (`sandbox serve`, `sandbox mcp`) take requests that do not overlap and that end before
-- the pool is closed; calls of the pool that overlap are those of Pool/Threads. There a section under
-- `p.mu` is one step, and so is each call of a backend and each use of the channel; the mutexes are no
-- part of the state, so that whether each is unlocked is not a question that the model can ask.
--
-- What the fleets of holders have done is written down at the clients: Docker/Logged and K8s/Fleet give
-- the methods of the holders a client that notes the calls which remove; the calls of a start are noted
-- as newDockerPool and newK8sPool make them.
--
-- Conventions: a text is a list of bytes, a duration a number of nanoseconds, a *holder a number, and
-- the state of the world a parameter. What comes from other packages (the moby client, net, net/http,
-- encoding/json, time.ParseDuration) is a parameter too. A call that blocks answers none; which case
-- of a select fires is an argument, or a choice of the step relation. Failures to write to the
-- terminal are left out.
--
-- Fuel: reapIdle's loop runs on one more than the number of parked holders; each turn that does not
-- return takes a holder out of the channel. waitPodRunning's loop runs on one turn for each
-- nanosecond to the deadline of its context, and one; a turn that does not return sleeps, and a request
-- behind the deadline fails.
--
-- Not modelled: the ticker of reaper(), which is any sequence of ticks; the context that the caller of
-- `Close` passes on to the close of a holder, which has its own timeout here; what the SDK does with the MCP
-- tools that are registered, where the calls of their handlers are any sequence; what lipgloss makes of
-- a style; the parsing of flags by package flag.
pub mod Base
pub mod Sandbox
pub mod Pool
pub mod Docker
pub mod K8s
pub mod Probe
pub mod Daemon
pub mod Cli
