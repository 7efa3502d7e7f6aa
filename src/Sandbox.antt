-- ===== src/Sandbox.antt =====
-- pkg/sandbox/sandbox.go: the options and the result of a run, the choice of a backend, and `Run`.
-- Durations are nanoseconds; the fraction of a core in `CPUs` is given in units of 10⁻⁹ cores,
-- which is what both backends make of it.
mod Errors
pub mod SyncWriter
mod Tests
pub use Errors.*
use podman_sandbox_runner.Base.{
  ℤ, pos, negsuc, ◌==◌, Bool, false, ◌||◌, Option, none, some, List, [], ◌∷◌, Text, bytes, text_eq,
  if◌then◌else◌,
}

pub record Opts : Type 0 where
  pub image : Text
  pub cmd : List Text
  pub timeout : ℤ
  pub net_wait : ℤ
  pub mem_mb : ℤ
  pub nano_cpus : ℤ
  pub user : Text
  pub runtime : Text
  pub binds : List Text
  pub env : List Text
  pub with_stdin : Bool
  pub backend : Text

pub record Result : Type 0 where
  pub exit_code : ℤ
  pub stdout : Text
  pub stderr : Text
  pub duration_ms : ℤ
  pub oom_killed : Bool
  pub timed_out : Bool
  pub error : Option Error

-- `Result{}`
abbrev pub no_result : Result
no_result = record {
  exit_code = pos 0;
  stdout = [];
  stderr = [];
  duration_ms = pos 0;
  oom_killed = false;
  timed_out = false;
  error = none;
}

-- What a call with two writers gives back: the result, the error if any, and the bytes that went
-- to the writers.
pub record Ran : Type 0 where
  pub result : Result
  pub failure : Option Error
  pub out : Text
  pub err_out : Text

-- A call that fails before anything was written.
abbrev pub failed : Error → Ran
failed e = record { result = no_result; failure = some e; out = []; err_out = [] }

-- `res.ExitCode == 137`, how a command ends that the limit on memory has killed.
abbrev pub is_137 : ℤ → Bool
is_137 (pos n) = n == 137
is_137 (negsuc n) = false

pub data Backend : Type 0 where
  docker_backend k8s_backend : Backend

abbrev pub is_docker : Text → Bool
is_docker b = text_eq b [] || (text_eq b (bytes "auto") || text_eq b (bytes "docker"))

abbrev pub is_k8s : Text → Bool
is_k8s b = text_eq b (bytes "k8s")

unfoldable pub new : Opts → Fallible Backend
new o =
    if is_docker o.backend
    then ok docker_backend
    else if is_k8s o.backend
    then ok k8s_backend
    else err (errorf "unknown backend %q" (o.backend ∷ []) [])

-- `Run`, over the two backends' own `Run` methods.
module _ {W : Type 0} (backend_run : Backend → Opts → Option Text → W → Ran × W) where
  unfoldable pub run : Opts → Option Text → W → Ran × W
  unfolding new
  run o stdin w = elim (new o) [ ok b ↦ backend_run b o stdin w | err e ↦ (failed e, w) ]
