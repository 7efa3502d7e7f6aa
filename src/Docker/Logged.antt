-- ===== src/Docker/Logged.antt =====
-- pkg/sandbox/pooldocker.go: the methods of a Docker holder over a client that notes its removals.
use podman_sandbox_runner.Base.{
  ℕ, ℤ, Option, some, none, Bool, true, false, ◌≡◌, refl, ◌++◌, List, [], ◌∷◌, Text,
}
use podman_sandbox_runner.Sandbox.{Error, Fallible, ok, err, Opts}
use podman_sandbox_runner.Pool.Ops.{Context, Job}
use podman_sandbox_runner.Pool.Accounts.Ledger.{log_of}
use podman_sandbox_runner.Docker.Backend.{Call, removed}
use podman_sandbox_runner.Docker.Holder.{
  Exec, DockerPool, inspected, written, copied_out, exec_attached, exec_created, exec_in, discarded,
  swept, cleanup, verdict, check_holder, close_holder,
}

-- The client of the holders over a world that writes the removals down: every call of `remove`, and no
-- other.
abbrev pub logged : {W : Type 0} → Exec W → Exec (W × List Call)
logged exec = record {
  exec_create = λ ctx id spec s.
      ((exec.exec_create ctx id spec s.0).0, ((exec.exec_create ctx id spec s.0).1, s.1));
  exec_attach =
      λ ctx ec s. ((exec.exec_attach ctx ec s.0).0, ((exec.exec_attach ctx ec s.0).1, s.1));
  copy_out = λ ctx ec stdin s.
      ((exec.copy_out ctx ec stdin s.0).0, ((exec.copy_out ctx ec stdin s.0).1, s.1));
  exec_inspect = λ ec s. ((exec.exec_inspect ec s.0).0, ((exec.exec_inspect ec s.0).1, s.1));
  running = λ ctx id s. ((exec.running ctx id s.0).0, ((exec.running ctx id s.0).1, s.1));
  remove = λ ctx id s.
      ((exec.remove ctx id s.0).0, ((exec.remove ctx id s.0).1, s.1 ++ removed id ∷ []));
  now = λ s. exec.now s.0;
  now_ms = λ s. exec.now_ms s.0;
  copied = λ ec s. exec.copied ec s.0;
}

-- The methods but `close` leave the log as it is.
module _ {W : Type 0} (exec : Exec W) where
  inspected-log :
      (ec : Text) (ms : ℤ) (a : Fallible ℤ × (W × List Call))
      → log_of (inspected (logged exec) ec ms a) ≡ log_of a
  unfolding inspected written
  inspected-log ec ms (err e, s) = refl
  inspected-log ec ms (ok code, s) = refl

  copied_out-log :
      (o : Opts) (ec : Text) (began : ℕ) (a : Bool × (W × List Call))
      → log_of (copied_out (logged exec) o ec began a) ≡ log_of a
  unfolding copied_out written
  copied_out-log o ec began (true, s) = refl
  copied_out-log o ec began (false, s) = inspected-log ec _ ((logged exec).exec_inspect ec s)

  exec_attached-log :
      (ctx : Context) (o : Opts) (stdin : Option Text) (ec : Text)
      (a : Option Error × (W × List Call))
      → log_of (exec_attached (logged exec) ctx o stdin ec a) ≡ log_of a
  unfolding exec_attached
  exec_attached-log ctx o stdin ec (some e, s) = refl
  exec_attached-log ctx o stdin ec (none, s) =
      copied_out-log o ec _ ((logged exec).copy_out ctx ec stdin s)

  exec_created-log :
      (ctx : Context) (o : Opts) (stdin : Option Text) (a : Fallible Text × (W × List Call))
      → log_of (exec_created (logged exec) ctx o stdin a) ≡ log_of a
  unfolding exec_created
  exec_created-log ctx o stdin (err e, s) = refl
  exec_created-log ctx o stdin (ok ec, s) =
      exec_attached-log ctx o stdin ec ((logged exec).exec_attach ctx ec s)

  pub exec_in-log :
      (d : DockerPool) (ctx : Context) (job : Job) (s : W × List Call)
      → log_of (exec_in (logged exec) d ctx job s) ≡ s.1
  unfolding exec_in
  exec_in-log d ctx job s = exec_created-log _ d.opts job.stdin _

  discarded-log :
      (ctx : Context) (ec : Text) (a : Option Error × (W × List Call))
      → (discarded (logged exec) ctx ec a).1 ≡ log_of a
  discarded-log ctx ec (some e, s) = refl
  discarded-log ctx ec (none, s) = refl

  swept-log :
      (ctx : Context) (a : Fallible Text × (W × List Call))
      → (swept (logged exec) ctx a).1 ≡ log_of a
  swept-log ctx (err e, s) = refl
  swept-log ctx (ok ec, s) = discarded-log ctx ec ((logged exec).exec_attach ctx ec s)

  pub cleanup-log : (d : DockerPool) (s : W × List Call) → (cleanup (logged exec) d s).1 ≡ s.1
  unfolding cleanup
  cleanup-log d s = swept-log _ _

  verdict-log :
      (a : Fallible (Option Bool) × (W × List Call)) → log_of (verdict (logged exec) a) ≡ log_of a
  verdict-log (err e, s) = refl
  verdict-log (ok none, s) = refl
  verdict-log (ok (some false), s) = refl
  verdict-log (ok (some true), s) = refl

  pub check_holder-log :
      (d : DockerPool) (s : W × List Call) → log_of (check_holder (logged exec) d s) ≡ s.1
  unfolding check_holder
  check_holder-log d s = verdict-log _

  -- `close` asks once to remove the container of the holder, and nothing else.
  pub close_holder-log :
      (d : DockerPool) (s : W × List Call)
      → log_of (close_holder (logged exec) d s) ≡ s.1 ++ removed d.id ∷ []
  unfolding close_holder
  close_holder-log d s = refl
