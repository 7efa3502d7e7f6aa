-- ===== src/K8s/Holder/Quiet.antt =====
-- What a run on a warm pod answers with, and through `Pool.Run`.
use podman_sandbox_runner.Base.{ℕ, false, ◌≡◌, inl, inr, none, some}
use podman_sandbox_runner.Sandbox.{Fallible, Ran}
use podman_sandbox_runner.Pool.Ops.{Context, Job, Pool, Select, acquire}
use podman_sandbox_runner.Pool.Ops.{run as pool_run}
use podman_sandbox_runner.Pool.Timeouts.{IsQuiet, run_acquired-IsQuiet}
use podman_sandbox_runner.K8s.Cluster.{Cluster, Stream}
use podman_sandbox_runner.K8s.Outcome.{Told, stream_result-Told}
use podman_sandbox_runner.K8s.Holder.{K8sPool, exec_ended, run, k8s_impl}

Told-IsQuiet : (r : Ran) → Told r → IsQuiet r
Told-IsQuiet r (inl (f, t, o)) h = t
Told-IsQuiet r (inr (x, f, c, o)) h = absurd (cc (f, h))

module _ {W : Type 0} (cluster : Cluster W) where
  exec_ended-Told :
      (k : K8sPool) (ctx : Context) (began : ℕ) (st : Stream × W)
      → Told (exec_ended cluster k ctx began st).0
  unfolding exec_ended
  exec_ended-Told k ctx began (end, w) = stream_result-Told _ _ _ _ end

  run-IsQuiet :
      (k : K8sPool) (ctx : Context) (job : Job) (w : W) → IsQuiet (run cluster k ctx job w).0
  unfolding run
  run-IsQuiet k ctx job w = Told-IsQuiet (run cluster k ctx job w).0 (exec_ended-Told k _ _ _)

  -- On a pool of Kubernetes pods an answer of `Run` without an error is never marked as timed out: a
  -- run that its context cuts off ends with an error, through the hygiene behind it too.
  pub k8s_pool_run-IsQuiet :
      (start : W → Fallible K8sPool × W) (ctx : Context) (now : ℕ) (sel : Select) (job : Job)
      (p : Pool K8sPool W) (r : Ran)
      → (pool_run (k8s_impl cluster start) ctx now sel job p).0 ≡ some r
      → r.failure ≡ none
      → r.result.timed_out ≡ false
  unfolding pool_run
  k8s_pool_run-IsQuiet start ctx now sel job p r e =
      run_acquired-IsQuiet (k8s_impl cluster start) run-IsQuiet ctx now job
        (acquire (k8s_impl cluster start) now sel p) r e
