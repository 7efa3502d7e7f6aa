-- ===== src/Cli/Tools/Keeps.antt =====
-- What the tools of the MCP server keep: whatever the pool keeps in pooled mode, and whatever a
-- one-shot run keeps in the other.
use podman_sandbox_runner.Base.{
  Bool, true, false, ◌&&◌, not, inl, inr, Option, none, some, List, [], ◌∷◌, Text, bytes, text_eq,
  is_empty, is_blank, Bool-cases,
}
use podman_sandbox_runner.Sandbox.{Opts, Ran}
use podman_sandbox_runner.Pool.Ops.{Context, Job}
use podman_sandbox_runner.Cli.Tools.{
  RunSandboxInput, RunScriptInput, execute, run_sandbox, run_script, replied,
}

module _ {S : Type 0} (pool_run : Context → Job → S → Option Ran × S)
    (one_shot : Context → Opts → Option Text → S → Ran × S) (Q : S → Type 0) where
  replied_keeps : (q : Option Ran × S) → Q q.1 → Q (replied pool_run one_shot q).1
  replied_keeps (none, s) v = v
  replied_keeps (some r, s) v = v

  -- The calls that a tool may make of the pool, or of a one-shot run.
  abbrev pub Keeping : Bool → Context → S → Type 0
  Keeping true ctx s = (job : Job) → Q (pool_run ctx job s).1
  Keeping false ctx s = (o : Opts) (stdin : Option Text) → Q (one_shot ctx o stdin s).1

  execute_keeps :
      (base : Opts) (pooled : Bool) (ctx : Context) (cmd : List Text) (stdin image : Text) (s : S)
      → Keeping pooled ctx s
      → Q s
      → Q (execute pool_run one_shot base pooled ctx cmd stdin image s).1
  unfolding execute
  execute_keeps base false ctx cmd stdin image s k v = k _ _
  execute_keeps base true ctx cmd stdin image s k v =
      elim (Bool-cases (not (is_empty image) && not (text_eq image base.image))) [
        | inl e ↦ rw (e, execute) v
        | inr e ↦ rw (e, execute) (replied_keeps _ (k _))
      ]

  pub run_sandbox_keeps :
      (base : Opts) (pooled : Bool) (ctx : Context) (i : RunSandboxInput) (s : S)
      → Keeping pooled ctx s
      → Q s
      → Q (run_sandbox pool_run one_shot base pooled ctx i s).1
  unfolding run_sandbox
  run_sandbox_keeps base pooled ctx i s k v = elim (Bool-cases (is_empty i.cmd)) [
    | inl e ↦ rw (e, run_sandbox) v
    | inr e ↦ rw (e, run_sandbox) (execute_keeps base pooled ctx i.cmd i.stdin i.image s k v)
  ]

  pub run_script_keeps :
      (base : Opts) (pooled : Bool) (ctx : Context) (i : RunScriptInput) (s : S)
      → Keeping pooled ctx s
      → Q s
      → Q (run_script pool_run one_shot base pooled ctx i s).1
  unfolding run_script
  run_script_keeps base pooled ctx i s k v = elim (Bool-cases (is_blank i.script)) [
    | inl e ↦ rw (e, run_script) v
    | inr e ↦ elim (Bool-cases (is_blank i.interpreter)) [
      | inl b ↦ rw (e, b, run_script) v
      | inr b ↦
          rw (e, b, run_script)
            (execute_keeps base pooled ctx (i.interpreter ∷ bytes "-" ∷ []) i.script i.image s k v)
    ]
  ]
