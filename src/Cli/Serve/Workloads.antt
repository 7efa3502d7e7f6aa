-- ===== src/Cli/Serve/Workloads.antt =====
-- cmd/sandbox/serve.go, pkg/sandbox/server.go, pool.go and poolk8s.go together: the pods of `sandbox
-- serve` on a pool of Kubernetes holders, from its start to its exit.
use podman_sandbox_runner.Base.{ℕ, ℤ, ◌≡◌, refl, List, [], Text, arith}
use podman_sandbox_runner.Sandbox.{Fallible, Opts}
use podman_sandbox_runner.Pool.Ops.{Context}
use podman_sandbox_runner.Pool.Accounts.Ledger.{tally, ledger_meter}
use podman_sandbox_runner.K8s.Cluster.{Cluster}
use podman_sandbox_runner.K8s.Waiting.{Ticks}
use podman_sandbox_runner.K8s.Backend.{Request}
use podman_sandbox_runner.K8s.Fleet.{
  fleet, makes, removes, lets_loose, nothing, is_of, makes_ledger, loose_ledger, tally-nothing,
}
use podman_sandbox_runner.Daemon.{RunRequest}
use podman_sandbox_runner.Daemon.Lifetime.{Arrival}
use podman_sandbox_runner.Cli.Serve.{ServeFlags, Net, Host}
use podman_sandbox_runner.Cli.Serve.Session.{serve_session, serve_even}

module _ {W V : Type 0} (cluster : Cluster W) (ctx : W → Context)
    (parse_duration : Text → Fallible ℤ) (decode : Text → Fallible RunRequest) (net : Net)
    (outside : Host (Unit {0}) V) where
  -- The requests that the process has sent by its exit; its holders are made from the options `o`, which
  -- runServe builds from the flags.
  abbrev pub requests : Opts → ServeFlags → ℕ → List Arrival → List Arrival → W → V → List Request
  requests o flags now early later w v =
      (serve_session (fleet cluster ctx o) parse_duration decode net outside flags now early later
        (w, []) v).world.1

  -- On a cluster whose clock goes on, and which refuses requests of an ended context, with whatever
  -- requests to the daemon that do not overlap and end before the pool is closed: `sandbox serve` has by its exit asked to delete each
  -- pod, by namespace and name, exactly as often as it was created for it.
  pub requests_even :
      Ticks cluster
      → (n x : Text) (o : Opts) (flags : ServeFlags) (now : ℕ) (early later : List Arrival) (w : W)
        (v : V)
      → tally (makes n x) (requests o flags now early later w v)
        ≡ tally (removes n x) (requests o flags now early later w v)
  requests_even ticks n x o flags now early later w v =
      (serve_even (fleet cluster ctx o) parse_duration decode (is_of n x)
        (ledger_meter (fleet cluster ctx o) (makes n x) (removes n x) (is_of n x)
          (makes_ledger cluster ticks ctx o n x))
        net outside now early later flags (w, []) v refl).0

  -- On a cluster whose clock goes on, and which refuses requests of an ended context: every pod that
  -- `sandbox serve` creates for its pool, with whatever requests to the daemon that do not overlap and end before the pool is closed,
  -- has a root file system that it cannot write to, no capability, no way to new privileges, no
  -- token of a service account, a user and a group that are not root, and the label that the policy
  -- of ensureIsolationPolicy selects, which lets no traffic through.
  pub requests_confined :
      Ticks cluster
      → (o : Opts) (flags : ServeFlags) (now : ℕ) (early later : List Arrival) (w : W) (v : V)
      → tally lets_loose (requests o flags now early later w v) ≡ 0
  requests_confined ticks o flags now early later w v = omega (
    arith,
    (serve_even (fleet cluster ctx o) parse_duration decode (λ k. 0)
        (ledger_meter (fleet cluster ctx o) lets_loose nothing (λ k. 0)
          (loose_ledger cluster ticks ctx o))
        net outside now early later flags (w, []) v refl).0,
    tally-nothing (requests o flags now early later w v),
  )
