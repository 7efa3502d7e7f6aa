-- ===== src/K8s/Cluster.antt =====
-- pkg/sandbox/k8sapi.go: the client, the isolation policy, and the wait for a pod.
use podman_sandbox_runner.Base.{
  ℕ, zero, suc, ◌+◌, ◌-◌, ℤ, pos, pos_part, neg_part, Bool, true, false, Option, none, some, List,
  [], ◌∷◌, ◌++◌, Text, bytes, is_empty, if◌then◌else◌,
}
use podman_sandbox_runner.Sandbox.{Error, wrapf, Fallible, ok, err}
use podman_sandbox_runner.Pool.Ops.{Context}
use podman_sandbox_runner.K8s.Pods.{Pod, Policy, deny_all}

-- A path joined from a clean home directory, ".kube" and "config".
abbrev kube_path : Text → Text
kube_path [] = bytes ".kube/config"
kube_path (c ∷ home) = (c ∷ home) ++ bytes "/.kube/config"

-- What `kubeClient` reads and calls; a configuration is known by the host of its API server.
pub record KubeEnv : Type 0 where
  pub kubeconfig : Text
  pub home : Text
  pub build_config : Text → Fallible Text
  pub in_cluster_config : Fallible Text
  pub new_for_config : Text → Option Error

module _ (env : KubeEnv) where
  -- The last lines of `kubeClient`.
  abbrev client_of : Text → Fallible Text
  client_of cfg = elim (env.new_for_config cfg) [ none ↦ ok cfg | some e ↦ err e ]

  unfoldable pub kube_client : Fallible Text
  kube_client =
      elim (env.build_config
        (if is_empty env.kubeconfig then kube_path env.home else env.kubeconfig)) [
          | ok cfg ↦ client_of cfg
          | err _ ↦ elim env.in_cluster_config [
            | ok cfg ↦ client_of cfg
            | err e ↦ err (wrapf "kubeconfig: %w" [] [] e)
          ]
        ]

-- corev1.PodPhase
pub data Phase : Type 0 where
  pending running succeeded failed : Phase
  other_phase : Text → Phase

-- The answer to the creation of a policy.
pub data Ensured : Type 0 where
  policy_made policy_exists : Ensured
  policy_failed : Error → Ensured

-- How an exec stream ends: well, with a utilexec.CodeExitError, or with another error.
pub data Stream : Type 0 where
  stream_ok : Stream
  code_exit : ℤ → Stream
  stream_failed : Error → Stream

-- `sleep` waits for the time given or for the end of the context, and gives the error of the context
-- in the second case. `ctx_err` is `ctx.Err()`.
pub record Cluster (W : Type 0) : Type 0 where
  pub kube : W → KubeEnv
  pub namespace : W → Text
  pub random : W → Text × W
  pub create_policy : Context → Text → Policy → W → Ensured × W
  pub create_pod : Context → Text → Pod → W → Fallible Text × W
  pub get_phase : Context → Text → Text → W → Fallible Phase × W
  pub delete_pod : Context → Text → Text → W → Option Error × W
  pub sleep : Context → ℤ → W → Option Error × W
  pub ctx_err : Context → W → Option Error
  pub executor : Text → Text → W → Option Error
  pub stream : Context → Text → Text → List Text → Option Text → Bool → W → Stream × W
  pub copied : Text → W → Text × Text
  pub now : W → ℤ
  pub now_ms : W → ℕ

-- 200 milliseconds in nanoseconds.
abbrev pub poll_interval : ℤ
poll_interval = pos 200000000

-- How far the time `t` lies behind the time `n`.
abbrev pub ahead : ℤ → ℤ → ℕ
ahead t n = (pos_part t + neg_part n) - (pos_part n + neg_part t)

-- The phases in which `waitPodRunning` stops to wait.
abbrev pub has_started : Phase → Bool
has_started running = true
has_started succeeded = true
has_started failed = true
has_started _ = false

module _ {W : Type 0} (cluster : Cluster W) where
  -- `SANDBOX_NAMESPACE`, or "default".
  abbrev pub namespace_of : W → Text
  namespace_of w = if is_empty (cluster.namespace w) then bytes "default" else cluster.namespace w

  abbrev ensured : Ensured × W → Option Error × W
  ensured (policy_made, w) = (none, w)
  ensured (policy_exists, w) = (none, w)
  ensured (policy_failed e, w) = (some e, w)

  unfoldable pub ensure_isolation_policy : Context → Text → W → Option Error × W
  ensure_isolation_policy ctx ns w = ensured (cluster.create_policy ctx ns deny_all w)

  -- One turn of the loop of `waitPodRunning` behind its `Get`, where `again` is the next turn; `none`
  -- is a loop that is not done.
  unfoldable pub polled :
      Context → (W → Option (Option Error) × W) → Fallible Phase × W → Option (Option Error) × W
  polled ctx again (err e, w) = (some (some e), w)
  polled ctx again (ok phase, w) =
      if has_started phase then (some none, w) else elim (cluster.sleep ctx poll_interval w).0 [
        | some e ↦ (some (some e), (cluster.sleep ctx poll_interval w).1)
        | none ↦ again (cluster.sleep ctx poll_interval w).1
      ]

  unfoldable pub wait_loop : ℕ → Context → Text → Text → W → Option (Option Error) × W
  wait_loop zero ctx ns name w = (none, w)
  wait_loop (suc fuel) ctx ns name w =
      polled ctx (λ w1. wait_loop fuel ctx ns name w1) (cluster.get_phase ctx ns name w)

  -- Turns enough for a context with a deadline: one for each nanosecond until then, and one.
  unfoldable pub turns : Context → W → ℕ
  turns ctx w = elim ctx.deadline [ none ↦ 0 | some t ↦ suc (ahead t (cluster.now w)) ]

  unfoldable pub wait_pod_running : Context → Text → Text → W → Option (Option Error) × W
  wait_pod_running ctx ns name w = wait_loop (turns ctx w) ctx ns name w
