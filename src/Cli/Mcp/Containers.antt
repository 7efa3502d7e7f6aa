-- ===== src/Cli/Mcp/Containers.antt =====
-- cmd/sandbox/mcp.go, pkg/sandbox/dockerapi.go, pool.go and pooldocker.go together: the containers of
-- `sandbox mcp` on Docker, in either mode.
use podman_sandbox_runner.Base.{ℕ, ℤ, ◌≡◌, refl, Option, List, [], ◌++◌, Text, arith}
use podman_sandbox_runner.Sandbox.{Error, Opts, Ran}
use podman_sandbox_runner.Pool.Ops.{Context}
use podman_sandbox_runner.Pool.Accounts.Ledger.{tally, tally-append, ledger_meter}
use podman_sandbox_runner.Docker.Backend.{Engine, Call, run}
use podman_sandbox_runner.Docker.Cleanup.{run-Lifecycle}
use podman_sandbox_runner.Docker.Holder.{Exec}
use podman_sandbox_runner.Docker.Fleet.{fleet, makes, removes, is_of, makes_ledger, Lifecycle-makes}
use podman_sandbox_runner.Cli.Mcp.{McpFlags, ServerEnd}
use podman_sandbox_runner.Cli.Mcp.Session.{McpEvent, mcp_session}
use podman_sandbox_runner.Cli.Mcp.Spent.{mcp_even}

module _ {W : Type 0} (engine : Engine W) (exec : Exec W) (ctx : W → Context) (sprint : ℤ → Text)
    (version : Text) (message : Error → Text) where
  -- A one-shot run, with its calls written down behind those before it.
  abbrev pub run_recorded : Context → Opts → Option Text → W × List Call → Ran × (W × List Call)
  run_recorded c o stdin s = (
    (run engine c o stdin s.0).0,
    ((run engine c o stdin s.0).1.world, s.1 ++ (run engine c o stdin s.0).1.log),
  )

  -- What the process has had created, started and removed by its exit; the holders of its pool, if it has
  -- one, are made from the options `o`, which runMCP builds from the flags.
  abbrev pub mcp_calls : Opts → McpFlags → ℕ → List McpEvent → ServerEnd → W → List Call
  mcp_calls o flags now events end w =
      (mcp_session (fleet engine exec ctx o) run_recorded sprint version message flags now events
        end (w, [])).world.1

  -- Over whatever world of containers, commands and answers, with whatever calls of its tools that
  -- do not overlap and end before the pool is closed, and in either mode: the removal of a container that is created for `sandbox
  -- mcp`, by a one-shot run or as a holder of its pool, has been asked for by the exit of the
  -- process exactly as often as the container was created, by its id.
  pub mcp_calls_even :
      (x : Text) (o : Opts) (flags : McpFlags) (now : ℕ) (events : List McpEvent) (end : ServerEnd)
      (w : W)
      → tally (makes x) (mcp_calls o flags now events end w)
        ≡ tally (removes x) (mcp_calls o flags now events end w)
  mcp_calls_even x o flags now events end w =
      (mcp_even (fleet engine exec ctx o) run_recorded sprint version message (is_of x)
        (ledger_meter (fleet engine exec ctx o) (makes x) (removes x) (is_of x)
          (makes_ledger engine exec ctx o x))
        flags now events end (w, []) refl
        (λ c o' stdin s l. omega (
          arith,
          Lifecycle-makes x o' (run engine c o' stdin s.0).1.log
              (run-Lifecycle engine c o' stdin s.0),
          tally-append (makes x) s.1 (run engine c o' stdin s.0).1.log,
          tally-append (removes x) s.1 (run engine c o' stdin s.0).1.log,
        ))).0
