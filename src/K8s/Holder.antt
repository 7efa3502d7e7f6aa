-- ===== src/K8s/Holder.antt =====
-- pkg/sandbox/poolk8s.go: a warm pod of the pool, and its `run`, `cleanup`, `checkHolder` and `close`
-- as an implementation of `PoolImpl`.
pub mod Start
pub mod Quiet
use podman_sandbox_runner.Base.{
  ℤ, pos, sub_ℕ, Bool, true, false, Option, none, some, List, [], ◌∷◌, ◌++◌, Text, bytes, is_some,
  if◌then◌else◌, ℕ,
}
use podman_sandbox_runner.Sandbox.{Error, errorf, wrapf, Fallible, ok, err, Opts, Result, Ran}
use podman_sandbox_runner.Pool.Ops.{Context, Job, PoolImpl}
use podman_sandbox_runner.Daemon.Server.{with_timeout, background}
use podman_sandbox_runner.K8s.Cluster.{
  Cluster, Phase, pending, running, succeeded, failed, other_phase, Stream, stream_ok, code_exit,
  stream_failed,
}
use podman_sandbox_runner.K8s.Backend.{stream_result}

pub record K8sPool : Type 0 where
  pub ns : Text
  pub name : Text
  pub opts : Opts

-- The command around a workload, with or without input, that keeps its output away from the streams
-- of the exec until it ends.
abbrev pub wrapped : Option Text → List Text → List Text
wrapped (some input) cmd =
    bytes "sh"
    ∷ bytes "-c"
    ∷ bytes
        "\"$@\" >/tmp/.o 2>/tmp/.e; ec=$?; cat /tmp/.o; cat /tmp/.e >&2; rm -f /tmp/.o /tmp/.e; exit $ec"
    ∷ bytes "_"
    ∷ cmd
wrapped none cmd =
    bytes "sh"
    ∷ bytes "-c"
    ∷ bytes
        "\"$@\" >/tmp/.o 2>/tmp/.e </dev/null; ec=$?; cat /tmp/.o; cat /tmp/.e >&2; rm -f /tmp/.o /tmp/.e; exit $ec"
    ∷ bytes "_"
    ∷ cmd

abbrev cleanup_script : Text
cleanup_script =
    bytes
      "for p in /proc/[0-9]*; do pid=${p#/proc/}; ppid=$(awk '{print $4}' \"$p/stat\" 2>/dev/null); [ \"$ppid\" = 1 ] && kill -9 \"$pid\" 2>/dev/null; done; rm -rf /work/* /tmp/* 2>/dev/null; true"

abbrev phase_text : Phase → Text
phase_text pending = bytes "Pending"
phase_text running = bytes "Running"
phase_text succeeded = bytes "Succeeded"
phase_text failed = bytes "Failed"
phase_text (other_phase t) = t

abbrev ten_seconds : ℤ
ten_seconds = pos 10000000000

abbrev thirty_seconds : ℤ
thirty_seconds = pos 30000000000

module _ {W : Type 0} (cluster : Cluster W) where
  -- `exec`, which fails where there is no executor.
  unfoldable pub exec : K8sPool → Context → List Text → Option Text → W → Stream × W
  exec k ctx cmd stdin w = elim (cluster.executor k.ns k.name w) [
    | some e ↦ (stream_failed (wrapf "executor: %w" [] [] e), w)
    | none ↦ cluster.stream ctx k.ns k.name cmd stdin (is_some stdin) w
  ]

  abbrev pub told : Text → Result × Option Error → W → Ran × W
  told name (res, e) w = (
    record {
      result = res;
      failure = e;
      out = (cluster.copied name w).0;
      err_out = (cluster.copied name w).1;
    },
    w,
  )

  unfoldable pub exec_ended : K8sPool → Context → ℕ → Stream × W → Ran × W
  exec_ended k run_ctx began (end, w) =
      told k.name
        (stream_result
          (errorf "pool: timed out after %s (workload reaped)" [] (k.opts.timeout ∷ []))
          (λ e. wrapf "pool: exec: %w" [] [] e) (sub_ℕ (cluster.now_ms w) began)
          (cluster.ctx_err run_ctx w) end)
        w

  unfoldable pub run : K8sPool → Context → Job → W → Ran × W
  run k ctx job w =
      let run_ctx = with_timeout ctx (cluster.now w) k.opts.timeout in
      exec_ended k run_ctx (cluster.now_ms w)
        (exec k run_ctx (wrapped job.stdin job.cmd) job.stdin w)

  unfoldable pub cleanup : K8sPool → W → W
  cleanup k w =
      (exec k (with_timeout background (cluster.now w) ten_seconds)
        (bytes "sh" ∷ bytes "-c" ∷ cleanup_script ∷ []) none w).1

  abbrev pub verdict : Fallible Phase × W → Option Error × W
  verdict (err e, w) = (some (wrapf "holder pod inspect failed: %w" [] [] e), w)
  verdict (ok running, w) = (none, w)
  verdict (ok phase, w) = (
    some (errorf "holder pod is %s (possibly killed by a workload)" (phase_text phase ∷ []) []),
    w,
  )

  unfoldable pub check_holder : K8sPool → W → Option Error × W
  check_holder k w =
      verdict
        (cluster.get_phase (with_timeout background (cluster.now w) ten_seconds) k.ns k.name w)

  unfoldable pub close : K8sPool → W → Option Error × W
  close k w =
      cluster.delete_pod (with_timeout background (cluster.now w) thirty_seconds) k.ns k.name w

  -- The pods as the pool sees them; `start` stands for newK8sPool.
  abbrev pub k8s_impl : (W → Fallible K8sPool × W) → PoolImpl K8sPool W
  k8s_impl start = record {
    new_impl = start;
    run = run;
    cleanup = cleanup;
    check_holder = check_holder;
    close = close;
  }
