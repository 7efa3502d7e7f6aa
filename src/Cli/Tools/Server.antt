-- ===== src/Cli/Tools/Server.antt =====
-- cmd/sandbox/mcp.go: `buildMCPServer`, the server with its two tools, and the result of a call.
-- `sprint` is what `%d` writes of an int; `version` is the version of the program.
use podman_sandbox_runner.Base.{
  ℤ, Bool, true, false, Option, none, some, List, [], ◌∷◌, ◌++◌, Text, bytes,
}
use podman_sandbox_runner.Sandbox.{Fallible, ok, err, Opts, Ran}
use podman_sandbox_runner.Pool.Ops.{Context, Job}
use podman_sandbox_runner.Cli.Tools.{
  RunSandboxInput, RunScriptInput, RunOutput, run_sandbox, run_script,
}

-- mcp.CallToolResult with its one piece of text, and the structured output beside it.
pub record Reply : Type 0 where
  pub text : Text
  pub output : RunOutput

abbrev truth : Bool → Text
truth true = bytes "true"
truth false = bytes "false"

unfoldable pub summary : (ℤ → Text) → RunOutput → Text
summary sprint out =
    bytes "exit="
    ++ (sprint out.exit_code
        ++ (bytes " timed_out="
            ++ (truth out.timed_out
                ++ (bytes " oom_killed="
                    ++ (truth out.oom_killed
                        ++ (bytes "\n--- stdout ---\n"
                            ++ (out.stdout ++ (bytes "\n--- stderr ---\n" ++ out.stderr))))))))

-- An answer of a handler: `none` is a call that still waits for a holder.
abbrev pub Answer : Type 0
Answer = Option (Fallible Reply)

abbrev pub summed : (ℤ → Text) → Option (Fallible RunOutput) → Answer
summed sprint none = none
summed sprint (some (err e)) = some (err e)
summed sprint (some (ok out)) = some (ok (record { text = summary sprint out; output = out }))

-- The handler of a tool, by the arguments that it takes.
pub data Handler (S : Type 0) : Type 0 where
  takes_sandbox : (Context → RunSandboxInput → S → Answer × S) → Handler S
  takes_script : (Context → RunScriptInput → S → Answer × S) → Handler S

pub record Tool (S : Type 0) : Type 0 where
  pub name : Text
  pub description : Text
  pub handler : Handler S

pub record McpServer (S : Type 0) : Type 0 where
  pub name : Text
  pub version : Text
  pub tools : List (Tool S)

module _ {S : Type 0} (pool_run : Context → Job → S → Option Ran × S)
    (one_shot : Context → Opts → Option Text → S → Ran × S) (sprint : ℤ → Text) where
  abbrev pub with_summary : Option (Fallible RunOutput) × S → Answer × S
  with_summary (a, s) = (summed sprint a, s)

  -- `base` and whether there is a pool are what `sandboxExecutor` carries.
  unfoldable pub build_mcp_server : Text → Opts → Bool → McpServer S
  build_mcp_server version base pooled = record {
    name = bytes "podman-sandbox-runner";
    version = version;
    tools =
        record {
          name = bytes "run_sandbox";
          description =
              bytes
                "Run a command in a locked-down, ephemeral sandbox container (no network, read-only rootfs, dropped capabilities, non-root, memory/CPU/time limits). Returns stdout, stderr, exit code, and whether the run timed out or was OOM-killed.";
          handler =
              takes_sandbox
                (λ ctx i s. with_summary (run_sandbox pool_run one_shot base pooled ctx i s));
        }
        ∷ record {
          name = bytes "run_script";
          description =
              bytes
                "Run a script in a locked-down, ephemeral sandbox container by feeding it to an interpreter on stdin (e.g. python3, sh, node). Same isolation as run_sandbox. Returns stdout, stderr, exit code, and whether the run timed out or was OOM-killed.";
          handler =
              takes_script
                (λ ctx i s. with_summary (run_script pool_run one_shot base pooled ctx i s));
        }
        ∷ [];
  }
