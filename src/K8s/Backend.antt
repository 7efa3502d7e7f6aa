-- ===== src/K8s/Backend.antt =====
-- pkg/sandbox/k8sapi.go: `k8sBackend.Run`. The requests that change the cluster are kept in order.
use podman_sandbox_runner.Base.{
  ℤ, pos, ltb_ℤ, sub_ℕ, true, Option, none, some, List, [], ◌∷◌, ◌++◌, Text, bytes, is_empty,
  is_some, if◌then◌else◌, ℕ,
}
use podman_sandbox_runner.Sandbox.{
  Error, errorf, wrapf, Fallible, ok, err, Opts, Result, no_result, Ran, failed, is_137,
}
use podman_sandbox_runner.Pool.Ops.{Context}
use podman_sandbox_runner.Daemon.Server.{with_timeout, background}
use podman_sandbox_runner.K8s.Pods.{Pod, run_pod}
use podman_sandbox_runner.K8s.Cluster.{
  Cluster, Stream, stream_ok, code_exit, stream_failed, kube_client, namespace_of,
  ensure_isolation_policy, wait_pod_running,
}

-- What the code has changed in the cluster: the policy is there; a pod was made, with the name that the
-- cluster gives it. A command that was to run in it, and its deletion, may have failed.
pub data Request : Type 0 where
  policy_ensured : Text → Request
  pod_created : Text → Text → Pod → Request
  pod_streamed : Text → Text → List Text → Request
  pod_deleted : Text → Text → Request

pub record Visit (W : Type 0) : Type 0 where
  pub world : W
  pub requests : List Request

abbrev pub asked : {W : Type 0} → Request → Visit W → Visit W
asked r s = record s { requests = s.requests ++ r ∷ [] }

abbrev pub at : {W : Type 0} → W → Visit W → Visit W
at w s = record s { world = w }

-- A run that its context cut off.
abbrev pub cut_off : ℤ → Result
cut_off ms = record no_result { timed_out = true; duration_ms = ms }

-- What the end of the stream makes of a run, with `ended` the error of the context: a timeout, an
-- exit code, or the failure of the stream.
unfoldable pub stream_result :
    Error → (Error → Error) → ℤ → Option Error → Stream → Result × Option Error
stream_result timeout failure ms ended stream_ok = (record no_result { duration_ms = ms }, none)
stream_result timeout failure ms (some e) _ = (cut_off ms, some timeout)
stream_result timeout failure ms none (code_exit code) =
    (record no_result { exit_code = code; oom_killed = is_137 code; duration_ms = ms }, none)
stream_result timeout failure ms none (stream_failed e) =
    (record no_result { duration_ms = ms }, some (failure e))

abbrev pub binds_error : Error
binds_error =
    errorf
      "k8s backend: -v host mounts not supported (host paths are node paths); use -i or bake files into the image"
      [] []

abbrev thirty_seconds : ℤ
thirty_seconds = pos 30000000000

module _ {W : Type 0} (cluster : Cluster W) where
  -- An answer of `Run`, where it has returned, before anything was written.
  abbrev pub fails : Error → Visit W → Option Ran × Visit W
  fails e s = (some (failed e), s)

  abbrev pub expires : Error → Visit W → Option Ran × Visit W
  expires e s = (some (record (failed e) { result = cut_off (pos 0) }), s)

  -- What the two synchronised writers have let through by the end of the stream.
  abbrev pub answer_with : Text → Result × Option Error → Visit W → Option Ran × Visit W
  answer_with id (res, e) s = (
    some (record {
      result = res;
      failure = e;
      out = (cluster.copied id s.world).0;
      err_out = (cluster.copied id s.world).1;
    }),
    s,
  )

  unfoldable pub streamed : Context → Opts → Text → ℕ → Stream × W → Visit W → Option Ran × Visit W
  streamed run_ctx o id began (end, w) s =
      answer_with id
        (stream_result (errorf "timed out after %s (pod killed)" [] (o.timeout ∷ []))
          (λ e. wrapf "exec: %w" [] [] e) (sub_ℕ (cluster.now_ms w) began)
          (cluster.ctx_err run_ctx w) end)
        (at w s)

  -- From the request to exec on.
  unfoldable pub exec_pod :
      Context → Opts → Option Text → Text → Text → Visit W → Option Ran × Visit W
  exec_pod run_ctx o stdin ns id s = elim (cluster.executor ns id s.world) [
    | some e ↦ fails (wrapf "executor: %w" [] [] e) s
    | none ↦
        streamed run_ctx o id (cluster.now_ms s.world)
          (cluster.stream run_ctx ns id o.cmd stdin o.with_stdin s.world)
          (asked (pod_streamed ns id o.cmd) s)
  ]

  abbrev pub settled :
      Context → Opts → Option Text → Text → Text → Option Error × W → Visit W → Option Ran × Visit W
  settled run_ctx o stdin ns id (some e, w) s =
      expires (errorf "timed out during netwait" [] []) (at w s)
  settled run_ctx o stdin ns id (none, w) s = exec_pod run_ctx o stdin ns id (at w s)

  -- The wait for the rules of the policy.
  unfoldable pub net_wait :
      Context → Opts → Option Text → Text → Text → Visit W → Option Ran × Visit W
  net_wait run_ctx o stdin ns id s =
      if ltb_ℤ (pos 0) o.net_wait
      then settled run_ctx o stdin ns id (cluster.sleep run_ctx o.net_wait s.world) s
      else exec_pod run_ctx o stdin ns id s

  unfoldable pub pod_waited :
      Context
      → Opts
      → Option Text
      → Text
      → Text
      → Option (Option Error) × W
      → Visit W
      → Option Ran × Visit W
  pod_waited run_ctx o stdin ns id (none, w) s = (none, at w s)
  pod_waited run_ctx o stdin ns id (some (some e), w) s =
      if is_some (cluster.ctx_err run_ctx w)
      then expires (errorf "timed out after %s (pod never started)" [] (o.timeout ∷ [])) (at w s)
      else fails e (at w s)
  pod_waited run_ctx o stdin ns id (some none, w) s = net_wait run_ctx o stdin ns id (at w s)

  -- The deferred deletion of the pod, whose error the code ignores.
  unfoldable pub deleting : Text → Text → Option Ran × Visit W → Option Ran × Visit W
  deleting ns id (none, s) = (none, s)
  deleting ns id (some r, s) = (
    some r,
    asked (pod_deleted ns id) (
        at
          (cluster.delete_pod (with_timeout background (cluster.now s.world) thirty_seconds) ns id
            s.world).1
          s),
  )

  unfoldable pub run_in_pod :
      Context → Opts → Option Text → Text → Text → Visit W → Option Ran × Visit W
  run_in_pod run_ctx o stdin ns id s =
      pod_waited run_ctx o stdin ns id (wait_pod_running cluster run_ctx ns id s.world) s

  unfoldable pub pod_made :
      Context → Opts → Option Text → Text → Pod → Fallible Text × W → Visit W → Option Ran × Visit W
  pod_made ctx o stdin ns pod (err e, w) s = fails (wrapf "create pod: %w" [] [] e) (at w s)
  pod_made ctx o stdin ns pod (ok id, w) s = deleting ns id (
      run_in_pod (with_timeout ctx (cluster.now w) o.timeout) o stdin ns id
        (asked (pod_created ns id pod) (at w s)))

  unfoldable pub policy_set :
      Context → Opts → Option Text → Text → Pod → Option Error × W → Option Ran × Visit W
  policy_set ctx o stdin ns pod (some e, w) =
      fails (wrapf "network isolation policy: %w" [] [] e) (record { world = w; requests = [] })
  policy_set ctx o stdin ns pod (none, w) =
      pod_made ctx o stdin ns pod (cluster.create_pod ctx ns pod w)
        (record { world = w; requests = policy_ensured ns ∷ [] })

  abbrev pub named : Context → Opts → Option Text → Text → Text × W → Option Ran × Visit W
  named ctx o stdin ns (random, w) =
      policy_set ctx o stdin ns (run_pod o (bytes "sandbox-" ++ random))
        (ensure_isolation_policy cluster ctx ns w)

  unfoldable pub run : Context → Opts → Option Text → W → Option Ran × Visit W
  run ctx o stdin w = elim (kube_client (cluster.kube w)) [
    | err e ↦ fails e (record { world = w; requests = [] })
    | ok _ ↦
        if is_empty o.binds
        then named ctx o stdin (namespace_of cluster w) (cluster.random w)
        else fails binds_error (record { world = w; requests = [] })
  ]
