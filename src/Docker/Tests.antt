-- ===== src/Docker/Tests.antt =====
-- Engines that count their calls: inputs of the theorems about the Docker backend and its holders.
use podman_sandbox_runner.Base.{
  refl, insert, has, Option, inl, ℕ, ℤ, ◌+◌, pos, negsuc, true, false, ◌≡◌, none, some, [], ◌∷◌,
  Text, bytes, List,
}
use podman_sandbox_runner.Sandbox.{Ran, Fallible, Error, external, ok, err, Opts}
use podman_sandbox_runner.Daemon.Server.{with_timeout, background}
use podman_sandbox_runner.Docker.Seccomp.{Daemon}
use podman_sandbox_runner.Docker.Backend.{mebibytes, signed, Engine, run, exited}
use podman_sandbox_runner.Docker.Cleanup.{Lifecycle, run-Lifecycle}
use podman_sandbox_runner.Pool.State.{try_receive, reserve, register, release_section, send}
use podman_sandbox_runner.Pool.Ops.{
  Job, Pool, receive, acquire, allocate, scale_up, settle, call_new, note_new, run_acquired,
  run_holder, run_on, conclude, release, put,
}
use podman_sandbox_runner.Pool.Ops.{run as pool_run}
use podman_sandbox_runner.Docker.Holder.{
  Exec, DockerPool, docker_impl, exec_in, exec_created, exec_attached, copied_out, inspected,
  written, cleanup, check_holder,
}
use podman_sandbox_runner.Docker.Holder.Timeouts.{pool_run-IsQuiet}
use podman_sandbox_runner.Docker.Holder.Start.{Start, new_docker_pool, new_docker_pool-Start}
use podman_sandbox_runner.Docker.Outcome.{Answer, run-Answer}
use podman_sandbox_runner.Pool.Accounts.Ledger.{tally}
use podman_sandbox_runner.Docker.Fleet.{makes, removes, lets_loose}
use podman_sandbox_runner.Daemon.{RunRequest}
use podman_sandbox_runner.Daemon.Lifetime.{Arrival, by_socket, tick}
use podman_sandbox_runner.Cli.Flags.{default_flags}
use podman_sandbox_runner.Cli.Mcp.{McpFlags, ServerEnd}
use podman_sandbox_runner.Cli.Mcp.Session.{McpEvent, call}
use podman_sandbox_runner.Cli.Mcp.Containers.{mcp_calls, mcp_calls_even}
use podman_sandbox_runner.Cli.Serve.{ServeFlags, Net, Host}
use podman_sandbox_runner.Cli.Serve.Containers.{calls, calls_even, calls_confined}

abbrev podman : Daemon
podman = record {
  host = bytes "unix:///run/podman/podman.sock";
  server_version = err (external "no answer");
  profile_json = bytes "{}";
  profile_file = ok (bytes "/tmp/seccomp.json");
}

abbrev engine : Engine ℕ
engine = record {
  connect = λ w. (ok podman, w + 1);
  image_inspect = λ ctx image w. (some (external "no such image"), w + 1);
  image_pull = λ ctx image w. w + 1;
  create = λ ctx spec w. (ok (bytes "c1"), w + 1);
  inspect = λ ctx id w. (ok (record { runtime = bytes "crun"; oom_killed = some false }), w + 1);
  attach = λ ctx id stdin w. (none, w + 1);
  start = λ ctx id stdin w. (none, w + 1);
  wait = λ ctx id w. (exited (pos 7), w + 1);
  remove = λ id w. w + 1;
  now = λ w. pos w;
  now_ms = λ w. w;
  copied = λ id w. (bytes "hi", []);
}

abbrev opts : Opts
opts = record {
  image = bytes "alpine";
  cmd = bytes "ls" ∷ [];
  timeout = pos 5;
  net_wait = pos 0;
  mem_mb = pos 64;
  nano_cpus = pos 1;
  user = bytes "65534";
  runtime = bytes "crun";
  binds = [];
  env = [];
  with_stdin = false;
  backend = [];
}

run-Lifecycle_example : Lifecycle opts (run engine background opts none 0).1.log
run-Lifecycle_example = run-Lifecycle engine background opts none 0

run-Answer_example : Answer opts (run engine background opts none 0).0
run-Answer_example = run-Answer engine background opts none 0

-- Containers in which every command ends with the code 3.
abbrev exec : Exec ℕ
exec = record {
  exec_create = λ ctx id spec w. (ok (bytes "e1"), w + 1);
  exec_attach = λ ctx ec w. (none, w + 1);
  copy_out = λ ctx ec stdin w. (false, w + 1);
  exec_inspect = λ ec w. (ok (pos 3), w + 1);
  running = λ ctx id w. (ok (some true), w + 1);
  remove = λ ctx id w. (none, w + 1);
  now = λ w. pos w;
  now_ms = λ w. w;
  copied = λ ec w. (bytes "hi", []);
}

abbrev make : ℕ → Fallible DockerPool × ℕ
make w = (ok (record { id = bytes "c1"; opts = opts }), w + 1)

-- An open pool of at most one holder.
abbrev empty : Pool DockerPool ℕ
empty = record {
  state = record {
    cfg = record { min = pos 0; max = pos 1; idle_timeout = pos 0 };
    all = [];
    idle = [];
    closed = false;
  };
  holders = λ h. record { impl = none; dead = none; last_used = 0 };
  fresh = 0;
  world = 0;
  log = [];
  panicked = false;
}

abbrev hello : Job
hello = record { cmd = bytes "hello" ∷ []; stdin = none }

run_empty : Option Ran × Pool DockerPool ℕ
run_empty = pool_run (docker_impl exec make) background 1 receive hello empty

three : (r : Ran) × (run_empty.0 ≡ some r) × (r.failure ≡ none)
unfolding run_empty pool_run acquire try_receive reserve allocate register insert has scale_up
    settle call_new note_new run_acquired run_holder run_on conclude exec_in exec_created
    exec_attached copied_out inspected written cleanup check_holder release release_section send put
    with_timeout
three = (_, refl, refl)

pool_run-IsQuiet_example : three.0.result.timed_out ≡ false
unfolding run_empty
pool_run-IsQuiet_example =
    pool_run-IsQuiet exec make background 1 receive hello empty three.0 three.1 three.2

new_docker_pool-Start_example :
    Start opts
      (new_docker_pool engine background opts 0).0
      (new_docker_pool engine background opts 0).1.log
new_docker_pool-Start_example = new_docker_pool-Start engine background opts 0

-- A daemon that makes one container first and serves one request between two ticks.
abbrev warm : ServeFlags
warm = record {
  sandbox = default_flags;
  min = pos 1;
  max = pos 2;
  idle = pos 10;
  unix = bytes "/s";
  http = [];
  allow_remote = false;
}

-- A system on which the socket is served.
abbrev net : Net
net = record { split_host = λ addr. ok addr; parse_ip = λ ip. some true }

abbrev outside : Host (Unit {0}) ℕ
outside = record {
  new_pool = λ o cfg w. (ok tt, w);
  close_pool = λ p w. w;
  exists_path = λ path w. false;
  remove = λ path w. w;
  listen_unix = λ path w. (none, w);
  chmod = λ path w. (none, w);
  close_listener = λ w. w;
  serve_unix = λ p w. w;
  serve_http = λ p addr w. w;
  wait = λ w. w;
  shutdown_http = λ w. w;
}

abbrev bad_duration : Text → Fallible ℤ
bad_duration t = err (external "invalid duration")

abbrev decode : Text → Fallible RunRequest
decode t = ok (record { cmd = bytes "ls" ∷ []; env = []; stdin = []; timeout = [] })

abbrev day : List Arrival
day = tick 5 ∷ by_socket (pos 9) (pos 12) 9 receive (bytes "{}") ∷ tick 30 ∷ []

calls_even_example :
    tally
      (makes (bytes "c1"))
      (calls engine exec (λ w. background) bad_duration decode net outside opts warm 0 [] day 0 0)
    ≡ tally
        (removes (bytes "c1"))
        (calls engine exec (λ w. background) bad_duration decode net outside opts warm 0 [] day 0 0)
calls_even_example =
    calls_even engine exec (λ w. background) bad_duration decode net outside (bytes "c1") opts warm
      0 [] day 0 0

calls_confined_example :
    tally lets_loose
      (calls engine exec (λ w. background) bad_duration decode net outside opts warm 0 [] day 0 0)
    ≡ 0
calls_confined_example =
    calls_confined engine exec (λ w. background) bad_duration decode net outside opts warm 0 [] day
      0 0

-- One call of run_sandbox in one-shot mode, and an end of the server without an error.
abbrev one_shot_flags : McpFlags
one_shot_flags = record {
  sandbox = default_flags;
  use_pool = false;
  min = pos 1;
  max = pos 4;
  idle = pos 300;
}

abbrev listing : List McpEvent
listing =
    call 0 background (inl (record { cmd = bytes "ls" ∷ []; stdin = []; image = [] })) 1 receive
    ∷ []

abbrev stopped : ServerEnd
stopped = record { failure = none; is_eof = false; cancelled = true }

abbrev digits : ℤ → Text
digits n = bytes "0"

abbrev message : Error → Text
message e = []

mcp_calls_even_example :
    tally (makes (bytes "c1")) (
      mcp_calls engine exec
        (λ w. background)
        digits
        (bytes "dev")
        message
        opts
        one_shot_flags
        0
        listing
        stopped
        0)
    ≡ tally (removes (bytes "c1")) (
        mcp_calls engine exec
          (λ w. background)
          digits
          (bytes "dev")
          message
          opts
          one_shot_flags
          0
          listing
          stopped
          0)
mcp_calls_even_example =
    mcp_calls_even engine exec (λ w. background) digits (bytes "dev") message (bytes "c1") opts
      one_shot_flags 0 listing stopped 0

-- 2 ^ 43 MiB are one byte more than an int64 holds.
memory_wraps : mebibytes (pos 8796093022208) ≡ negsuc 9223372036854775807
unfolding mebibytes signed
memory_wraps = refl

memory_negative : mebibytes (negsuc 0) ≡ negsuc 1048575
unfolding mebibytes signed
memory_negative = refl
