-- ===== src/Docker/Holder.antt =====
-- pkg/sandbox/pooldocker.go: a warm container of the pool, and its `run`, `cleanup`, `checkHolder`
-- and `close` as an implementation of `PoolImpl`. `Exec` is what they use of the moby client.
pub mod Start
pub mod Timeouts
use podman_sandbox_runner.Base.{
  ℕ, ℤ, pos, negsuc, sub_ℕ, ◌==◌, Bool, true, false, Option, none, some, List, [], ◌∷◌, Text, bytes,
  is_some, if◌then◌else◌,
}
use podman_sandbox_runner.Sandbox.{
  Error, errorf, wrapf, Fallible, ok, err, Opts, Result, no_result, Ran, failed, is_137,
}
use podman_sandbox_runner.Pool.Ops.{Context, Job, PoolImpl}
use podman_sandbox_runner.Daemon.Server.{with_timeout, background}

-- client.ExecCreateOptions
pub record ExecSpec : Type 0 where
  pub user : Text
  pub cmd : List Text
  pub env : List Text
  pub working_dir : Text
  pub attach_stdin : Bool

-- `copy_out` waits until the output ends or the context does, and says whether the context has
-- ended by then; `running` is `State.Running`, where there is a state.
pub record Exec (W : Type 0) : Type 0 where
  pub exec_create : Context → Text → ExecSpec → W → Fallible Text × W
  pub exec_attach : Context → Text → W → Option Error × W
  pub copy_out : Context → Text → Option Text → W → Bool × W
  pub exec_inspect : Text → W → Fallible ℤ × W
  pub running : Context → Text → W → Fallible (Option Bool) × W
  pub remove : Context → Text → W → Option Error × W
  pub now : W → ℤ
  pub now_ms : W → ℕ
  pub copied : Text → W → Text × Text

pub record DockerPool : Type 0 where
  pub id : Text
  pub opts : Opts

-- 10 and 15 seconds in nanoseconds.
abbrev ten_seconds : ℤ
ten_seconds = pos 10000000000

abbrev fifteen_seconds : ℤ
fifteen_seconds = pos 15000000000

module _ {W : Type 0} (engine : Exec W) where
  -- The answer of `run`, with what the copying goroutine wrote to the two writers.
  unfoldable pub written : Text → Result → Option Error → W → Ran × W
  written ec res failure w =
      let (out, err_out) = engine.copied ec w in
      (record { result = res; failure = failure; out = out; err_out = err_out }, w)

  unfoldable pub inspected : Text → ℤ → Fallible ℤ × W → Ran × W
  inspected ec ms (err e, w) =
      written ec (record no_result { duration_ms = ms })
        (some (wrapf "pool: exec inspect: %w" [] [] e)) w
  inspected ec ms (ok code, w) =
      written ec (record no_result { exit_code = code; oom_killed = is_137 code; duration_ms = ms })
        none w

  unfoldable pub copied_out : Opts → Text → ℕ → Bool × W → Ran × W
  copied_out o ec began (true, w) =
      written ec
        (record no_result { timed_out = true; duration_ms = sub_ℕ (engine.now_ms w) began })
        (some (errorf "pool: timed out after %s (workload killed)" [] (o.timeout ∷ []))) w
  copied_out o ec began (false, w) =
      inspected ec (sub_ℕ (engine.now_ms w) began) (engine.exec_inspect ec w)

  unfoldable pub exec_attached : Context → Opts → Option Text → Text → Option Error × W → Ran × W
  exec_attached ctx o stdin ec (some e, w) = (failed (wrapf "pool: exec attach: %w" [] [] e), w)
  exec_attached ctx o stdin ec (none, w) =
      copied_out o ec (engine.now_ms w) (engine.copy_out ctx ec stdin w)

  unfoldable pub exec_created : Context → Opts → Option Text → Fallible Text × W → Ran × W
  exec_created ctx o stdin (err e, w) = (failed (wrapf "pool: exec create: %w" [] [] e), w)
  exec_created ctx o stdin (ok ec, w) = exec_attached ctx o stdin ec (engine.exec_attach ctx ec w)

  unfoldable pub exec_in : DockerPool → Context → Job → W → Ran × W
  exec_in d ctx job w =
      let run_ctx = with_timeout ctx (engine.now w) d.opts.timeout in
      exec_created run_ctx d.opts job.stdin (
        engine.exec_create run_ctx d.id
          (record {
            user = d.opts.user;
            cmd = job.cmd;
            env = d.opts.env;
            working_dir = bytes "/work";
            attach_stdin = is_some job.stdin;
          })
          w)

  abbrev pub discarded : Context → Text → Option Error × W → W
  discarded ctx ec (some e, w) = w
  discarded ctx ec (none, w) = (engine.copy_out ctx ec none w).1

  abbrev pub swept : Context → Fallible Text × W → W
  swept ctx (err e, w) = w
  swept ctx (ok ec, w) = discarded ctx ec (engine.exec_attach ctx ec w)

  unfoldable pub cleanup : DockerPool → W → W
  cleanup d w =
      let ctx = with_timeout background (engine.now w) ten_seconds in
      swept ctx (
        engine.exec_create ctx d.id
          (record {
            user = d.opts.user;
            cmd =
                bytes "sh"
                ∷ bytes "-c"
                ∷ bytes "rm -rf /work/* /tmp/* 2>/dev/null; kill -9 -1"
                ∷ [];
            env = [];
            working_dir = [];
            attach_stdin = false;
          })
          w)

  abbrev pub holder_died : Error
  holder_died = errorf "holder died (possibly OOM-killed by a workload)" [] []

  abbrev pub verdict : Fallible (Option Bool) × W → Option Error × W
  verdict (err e, w) = (some (wrapf "holder inspect failed: %w" [] [] e), w)
  verdict (ok none, w) = (some holder_died, w)
  verdict (ok (some false), w) = (some holder_died, w)
  verdict (ok (some true), w) = (none, w)

  unfoldable pub check_holder : DockerPool → W → Option Error × W
  check_holder d w =
      verdict (engine.running (with_timeout background (engine.now w) ten_seconds) d.id w)

  -- The client of the holder is closed behind it, with an error that the code ignores.
  unfoldable pub close_holder : DockerPool → W → Option Error × W
  close_holder d w = engine.remove (with_timeout background (engine.now w) fifteen_seconds) d.id w

  -- The Docker holders as the pool sees them; `new_docker_pool` stands for newDockerPool.
  abbrev pub docker_impl : (W → Fallible DockerPool × W) → PoolImpl DockerPool W
  docker_impl new_docker_pool = record {
    new_impl = new_docker_pool;
    run = exec_in;
    cleanup = cleanup;
    check_holder = check_holder;
    close = close_holder;
  }
