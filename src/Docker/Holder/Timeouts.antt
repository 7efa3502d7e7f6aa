-- ===== src/Docker/Holder/Timeouts.antt =====
-- Timeouts of runs on the Docker pool, through `Pool.Run`.
use podman_sandbox_runner.Base.{ℕ, ℤ, Bool, true, false, ◌≡◌, refl, Option, none, some, Text}
use podman_sandbox_runner.Sandbox.{Error, Fallible, ok, err, Opts, Ran}
use podman_sandbox_runner.Pool.Ops.{Context, Job, Pool, Select, run}
use podman_sandbox_runner.Pool.Timeouts.{IsQuiet, run_acquired-IsQuiet}
use podman_sandbox_runner.Docker.Holder.{
  Exec, DockerPool, written, inspected, copied_out, exec_attached, exec_created, exec_in,
  docker_impl,
}

module _ {W : Type 0} (engine : Exec W) where
  inspected-IsQuiet :
      (ec : Text) (ms : ℤ) (i : Fallible ℤ × W) → IsQuiet (inspected engine ec ms i).0
  unfolding inspected written
  inspected-IsQuiet ec ms (err e, w) = λ h. absurd cc
  inspected-IsQuiet ec ms (ok code, w) = λ h. refl

  copied_out-IsQuiet :
      (o : Opts) (ec : Text) (began : ℕ) (c : Bool × W) → IsQuiet (copied_out engine o ec began c).0
  unfolding copied_out written
  copied_out-IsQuiet o ec began (true, w) = λ h. absurd cc
  copied_out-IsQuiet o ec began (false, w) = inspected-IsQuiet ec _ _

  exec_attached-IsQuiet :
      (ctx : Context) (o : Opts) (stdin : Option Text) (ec : Text) (a : Option Error × W)
      → IsQuiet (exec_attached engine ctx o stdin ec a).0
  unfolding exec_attached
  exec_attached-IsQuiet ctx o stdin ec (some e, w) = λ h. absurd cc
  exec_attached-IsQuiet ctx o stdin ec (none, w) = copied_out-IsQuiet o ec _ _

  exec_created-IsQuiet :
      (ctx : Context) (o : Opts) (stdin : Option Text) (c : Fallible Text × W)
      → IsQuiet (exec_created engine ctx o stdin c).0
  unfolding exec_created
  exec_created-IsQuiet ctx o stdin (err e, w) = λ h. absurd cc
  exec_created-IsQuiet ctx o stdin (ok ec, w) = exec_attached-IsQuiet ctx o stdin ec _

  -- On a pool of Docker holders an answer of `Run` without an error is never marked as timed out:
  -- a run that its context cuts off ends with an error, through the hygiene behind it too.
  pub pool_run-IsQuiet :
      (new_docker_pool : W → Fallible DockerPool × W) (ctx : Context) (now : ℕ) (sel : Select)
      (job : Job) (p : Pool DockerPool W) (r : Ran)
      → (run (docker_impl engine new_docker_pool) ctx now sel job p).0 ≡ some r
      → r.failure ≡ none
      → r.result.timed_out ≡ false
  unfolding run exec_in
  pool_run-IsQuiet new_docker_pool ctx now sel job p r e =
      run_acquired-IsQuiet (docker_impl engine new_docker_pool)
        (λ d ctx job w. exec_created-IsQuiet _ _ _ _) ctx now job _ r e
