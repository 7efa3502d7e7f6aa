-- ===== src/Cli/Tools.antt =====
-- cmd/sandbox/mcp.go: the handlers of the two MCP tools. `pool_run` is `Pool.Run`, where `none` is
-- a call that still waits, and `one_shot` is `sandbox.Run`; `S` is what both act on.
pub mod Laws
pub mod Server
pub mod Keeps
use podman_sandbox_runner.Base.{
  ℤ, Bool, true, false, ◌&&◌, not, Option, none, some, List, [], ◌∷◌, Text, bytes, text_eq,
  is_empty, is_blank, if◌then◌else◌, is_some,
}
use podman_sandbox_runner.Sandbox.{Error, errorf, Fallible, ok, err, Opts, Result, Ran}
use podman_sandbox_runner.Pool.Ops.{Context, Job}

pub record RunSandboxInput : Type 0 where
  pub cmd : List Text
  pub stdin : Text
  pub image : Text

pub record RunScriptInput : Type 0 where
  pub script : Text
  pub interpreter : Text
  pub image : Text

pub record RunOutput : Type 0 where
  pub exit_code : ℤ
  pub stdout : Text
  pub stderr : Text
  pub timed_out : Bool
  pub oom_killed : Bool

abbrev pub empty_cmd : Error
empty_cmd = errorf "cmd must not be empty" [] []

abbrev pub image_override : Text → Error
image_override image =
    errorf
      "image override is not supported in pooled mode (image is fixed at pool creation: %s); restart with -image, or use one-shot mode"
      (image ∷ []) []

-- A reader only where there is input.
abbrev pub reader_of : Text → Option Text
reader_of s = if is_empty s then none else some s

unfoldable pub output_of : Ran → Fallible RunOutput
output_of r = elim r.failure [
  | some e ↦ err e
  | none ↦ ok (record {
    exit_code = r.result.exit_code;
    stdout = r.out;
    stderr = r.err_out;
    timed_out = r.result.timed_out;
    oom_killed = r.result.oom_killed;
  })
]

-- The options of one call in one-shot mode.
unfoldable pub call_opts : Opts → List Text → Text → Text → Opts
call_opts base cmd stdin image = record base {
  cmd = cmd;
  with_stdin = not (is_empty stdin);
  image = if is_empty image then base.image else image;
}

module _ {S : Type 0} (pool_run : Context → Job → S → Option Ran × S)
    (one_shot : Context → Opts → Option Text → S → Ran × S) where
  abbrev pub replied : Option Ran × S → Option (Fallible RunOutput) × S
  replied (none, s) = (none, s)
  replied (some r, s) = (some (output_of r), s)

  abbrev pub replied_now : Ran × S → Option (Fallible RunOutput) × S
  replied_now (r, s) = (some (output_of r), s)

  -- `execute`, with `sandboxExecutor`'s base options and whether it has a pool.
  unfoldable pub execute :
      Opts → Bool → Context → List Text → Text → Text → S → Option (Fallible RunOutput) × S
  execute base pooled ctx cmd stdin image s =
      if pooled
      then if not (is_empty image) && not (text_eq image base.image)
        then (some (err (image_override base.image)), s)
        else replied (pool_run ctx (record { cmd = cmd; stdin = reader_of stdin }) s)
      else replied_now (one_shot ctx (call_opts base cmd stdin image) (reader_of stdin) s)

  unfoldable pub run_sandbox :
      Opts → Bool → Context → RunSandboxInput → S → Option (Fallible RunOutput) × S
  run_sandbox base pooled ctx i s =
      if is_empty i.cmd
      then (some (err empty_cmd), s)
      else execute base pooled ctx i.cmd i.stdin i.image s

  unfoldable pub run_script :
      Opts → Bool → Context → RunScriptInput → S → Option (Fallible RunOutput) × S
  run_script base pooled ctx i s =
      if is_blank i.script
      then (some (err (errorf "script must not be empty" [] [])), s)
      else if is_blank i.interpreter
      then (some (err (errorf "interpreter must not be empty" [] [])), s)
      else execute base pooled ctx (i.interpreter ∷ bytes "-" ∷ []) i.script i.image s
