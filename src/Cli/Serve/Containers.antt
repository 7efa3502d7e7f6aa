-- ===== src/Cli/Serve/Containers.antt =====
-- cmd/sandbox/serve.go, pkg/sandbox/server.go, pool.go and pooldocker.go together: the containers of
-- `sandbox serve` on a pool of Docker holders, from its start to its exit.
use podman_sandbox_runner.Base.{ℕ, ℤ, ◌≡◌, refl, List, [], Text, arith}
use podman_sandbox_runner.Sandbox.{Fallible, Opts}
use podman_sandbox_runner.Pool.Ops.{Context}
use podman_sandbox_runner.Pool.Accounts.Ledger.{tally, ledger_meter}
use podman_sandbox_runner.Docker.Backend.{Engine, Call}
use podman_sandbox_runner.Docker.Holder.{Exec}
use podman_sandbox_runner.Docker.Fleet.{
  fleet, makes, removes, lets_loose, nothing, is_of, makes_ledger, loose_ledger, tally-nothing,
}
use podman_sandbox_runner.Daemon.{RunRequest}
use podman_sandbox_runner.Daemon.Lifetime.{Arrival}
use podman_sandbox_runner.Cli.Serve.{ServeFlags, Net, Host}
use podman_sandbox_runner.Cli.Serve.Session.{serve_session, serve_even}

module _ {W V : Type 0} (engine : Engine W) (exec : Exec W) (ctx : W → Context)
    (parse_duration : Text → Fallible ℤ) (decode : Text → Fallible RunRequest) (net : Net)
    (outside : Host (Unit {0}) V) where
  -- What the process has had created, started and removed by its exit; its holders are made from the
  -- options `o`, which runServe builds from the flags.
  abbrev pub calls : Opts → ServeFlags → ℕ → List Arrival → List Arrival → W → V → List Call
  calls o flags now early later w v =
      (serve_session (fleet engine exec ctx o) parse_duration decode net outside flags now early
        later (w, []) v).world.1

  -- Over whatever world of containers, commands and answers, with whatever requests that do not
  -- overlap and end before the pool is closed: the removal of a container that newDockerPool has had created for `sandbox serve`, in its
  -- first pool or for a request, and also where the start of the holder or of the daemon failed, has
  -- been asked for by the exit of the process exactly as often as the container was created, by its
  -- id.
  pub calls_even :
      (x : Text) (o : Opts) (flags : ServeFlags) (now : ℕ) (early later : List Arrival) (w : W)
      (v : V)
      → tally (makes x) (calls o flags now early later w v)
        ≡ tally (removes x) (calls o flags now early later w v)
  calls_even x o flags now early later w v =
      (serve_even (fleet engine exec ctx o) parse_duration decode (is_of x)
        (ledger_meter (fleet engine exec ctx o) (makes x) (removes x) (is_of x)
          (makes_ledger engine exec ctx o x))
        net outside now early later flags (w, []) v refl).0

  -- Every container that `sandbox serve` has its engine create for its pool, with whatever requests
  -- that do not overlap and end before the pool is closed, has no network, a root file system that it cannot write to, no capability,
  -- and no way to new privileges.
  pub calls_confined :
      (o : Opts) (flags : ServeFlags) (now : ℕ) (early later : List Arrival) (w : W) (v : V)
      → tally lets_loose (calls o flags now early later w v) ≡ 0
  calls_confined o flags now early later w v = omega (
    arith,
    (serve_even (fleet engine exec ctx o) parse_duration decode (λ d. 0)
        (ledger_meter (fleet engine exec ctx o) lets_loose nothing (λ d. 0)
          (loose_ledger engine exec ctx o))
        net outside now early later flags (w, []) v refl).0,
    tally-nothing (calls o flags now early later w v),
  )
