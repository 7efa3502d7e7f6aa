-- ===== src/Cli/Tests.antt =====
-- Inputs of the theorems on the command line and the MCP tools.
use podman_sandbox_runner.Base.{
  ℕ, ℤ, List, inl, inr, ◌+◌, pos, true, false, ◌≡◌, refl, Option, none, some, [], ◌∷◌, Text, bytes,
  cut, has_prefix, cut_prefix,
}
use podman_sandbox_runner.Sandbox.{Error, external, Fallible, ok, Opts, Ran, no_result}
use podman_sandbox_runner.Pool.Ops.{Context, Job}
use podman_sandbox_runner.Daemon.{RunRequest, RunResponse}
use podman_sandbox_runner.Daemon.Server.{background, respond}
use podman_sandbox_runner.Cli.Flags.{
  SandboxFlags, default_flags, build_opts, split_n, bind_of, binds_of, bad_entry,
}
use podman_sandbox_runner.Cli.Flags.Binds.{All, build_opts-IsReadOnly}
use podman_sandbox_runner.Cli.Tools.{RunOutput, execute, output_of}
use podman_sandbox_runner.Cli.Tools.Laws.{execute_timeout}
use podman_sandbox_runner.Pool.Ops.{PoolImpl, receive}
use podman_sandbox_runner.Pool.Accounts.{log_meter}
use podman_sandbox_runner.Pool.Accounts.Sound.{IsSpent}
use podman_sandbox_runner.Cli.Mcp.{McpFlags, ServerEnd}
use podman_sandbox_runner.Cli.Mcp.Session.{McpEvent, call, tick, mcp_session}
use podman_sandbox_runner.Cli.Mcp.Spent.{mcp_session-IsSpent}
use podman_sandbox_runner.Cli.Process.{run_command, run_via_daemon-report, report}

abbrev mounted : SandboxFlags
mounted = record default_flags { vols = bytes "/a:/b:rw" ∷ []; envs = bytes "K=V" ∷ [] }

abbrev mounted_opts : Opts
mounted_opts = record {
  image = mounted.image;
  cmd = bytes "ls" ∷ [];
  timeout = mounted.timeout;
  net_wait = mounted.netwait;
  mem_mb = mounted.mem;
  nano_cpus = mounted.nano_cpus;
  user = mounted.user;
  runtime = mounted.runtime;
  binds = bytes "/a:/b:ro" ∷ [];
  env = bytes "K=V" ∷ [];
  with_stdin = true;
  backend = mounted.backend;
}

builds : build_opts mounted (bytes "ls" ∷ []) true ≡ ok mounted_opts
unfolding build_opts split_n bind_of binds_of bad_entry cut has_prefix cut_prefix
builds = refl

build_opts-IsReadOnly_example :
    All (bytes "/a:/b:ro" ∷ [])
    × (mounted_opts.cmd ≡ bytes "ls" ∷ [])
    × (mounted_opts.env ≡ mounted.envs)
    × (mounted_opts.with_stdin ≡ true)
build_opts-IsReadOnly_example =
    build_opts-IsReadOnly mounted (bytes "ls" ∷ []) true mounted_opts builds

abbrev done : Ran
done = record {
  result = record no_result { exit_code = pos 3 };
  failure = none;
  out = bytes "hi";
  err_out = [];
}

abbrev pool_run : Context → Job → ℕ → Option Ran × ℕ
pool_run ctx job n = (some done, n + 1)

abbrev one_shot : Context → Opts → Option Text → ℕ → Ran × ℕ
one_shot ctx o stdin n = (done, n + 1)

abbrev output : RunOutput
output = record {
  exit_code = pos 3;
  stdout = bytes "hi";
  stderr = [];
  timed_out = false;
  oom_killed = false;
}

pool_quiet :
    (j : Job) (s : ℕ) (r : Ran)
    → (pool_run background j s).0 ≡ some r
    → r.failure ≡ none
    → r.result.timed_out ≡ false
pool_quiet j s r e h = cc e

quiet :
    (o : Opts) (i : Option Text) (s : ℕ)
    → (one_shot background o i s).0.failure ≡ none
    → (one_shot background o i s).0.result.timed_out ≡ false
quiet o i s h = refl

executes :
    execute pool_run one_shot mounted_opts true background (bytes "ls" ∷ []) [] [] 5
    ≡ (some (ok output), 6)
unfolding execute output_of
executes = refl

execute_timeout_example : output.timed_out ≡ false
execute_timeout_example =
    execute_timeout pool_run one_shot mounted_opts true background (bytes "ls" ∷ []) [] [] 5 6
      output pool_quiet quiet executes

abbrev run_opts : Opts → Option Text → ℕ → Ran × ℕ
run_opts o stdin n = (done, n + 1)

abbrev submit : Text → RunRequest → ℕ → Fallible RunResponse × ℕ
submit via req n = (ok (respond done), n + 1)

run_via_daemon-report_example :
    run_command run_opts submit mounted (bytes "unix:///s") (bytes "ls" ∷ []) (ok []) false false 5
    ≡ (
      report false
          (record done { result = record no_result { exit_code = pos 3; duration_ms = pos 0 } }),
      6,
    )
run_via_daemon-report_example =
    run_via_daemon-report run_opts submit mounted (bytes "unix:///s") (bytes "ls" ∷ []) false 5 6
      done refl refl refl refl

-- Holders are numbers, and so is the world: the number of holders made so far.
abbrev backend : PoolImpl ℕ ℕ
backend = record {
  new_impl = λ w. (ok w, w + 1);
  run = λ i ctx job w. (done, w);
  cleanup = λ i w. w;
  check_holder = λ i w. (some (external "holder died"), w);
  close = λ i w. (none, w);
}

abbrev pooled_flags : McpFlags
pooled_flags = record {
  sandbox = default_flags;
  use_pool = true;
  min = pos 1;
  max = pos 4;
  idle = pos 300;
}

abbrev disconnected : ServerEnd
disconnected = record { failure = some (external "EOF"); is_eof = true; cancelled = false }

abbrev digits : ℤ → Text
digits n = bytes "0"

abbrev message : Error → Text
message e = []

-- A script, a command without arguments, and a tick between them.
abbrev events : List McpEvent
events =
    call 1 background (inr (record { script = bytes "1"; interpreter = bytes "sh"; image = [] })) 1
      receive
    ∷ tick 400
    ∷ call 0 background (inl (record { cmd = []; stdin = []; image = [] })) 401 receive
    ∷ []

mcp_session-IsSpent_example :
    IsSpent backend
      (λ i. i)
      (log_meter backend (λ i. i))
      (mcp_session backend one_shot digits
        (bytes "dev")
        message
        pooled_flags
        0
        events
        disconnected
        0)
mcp_session-IsSpent_example =
    mcp_session-IsSpent backend one_shot digits (bytes "dev") message (λ i. i) pooled_flags 0 events
      disconnected 0
