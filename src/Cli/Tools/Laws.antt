-- ===== src/Cli/Tools/Laws.antt =====
-- What the two MCP tools guarantee.
use podman_sandbox_runner.Base.{
  Bool, true, false, ◌≡◌, refl, ◌⊎◌, inl, inr, ◌≢◌, Option, none, some, List, [], ◌∷◌, Text, bytes,
  text_eq, text_eq_iff, is_blank, Bool-cases, Option-cases,
}
use podman_sandbox_runner.Sandbox.{ok, err, Opts, Ran}
use podman_sandbox_runner.Pool.Ops.{Context, Job}
use podman_sandbox_runner.Cli.Tools.{
  RunScriptInput, RunOutput, image_override, reader_of, output_of, call_opts, execute, run_sandbox,
  run_script, replied, replied_now,
}

module _ {S : Type 0} (pool_run : Context → Job → S → Option Ran × S)
    (one_shot : Context → Opts → Option Text → S → Ran × S) where
  -- In pooled mode a call that names another image than the pool's is refused, and no holder is
  -- touched. Any other call is one run of the pool, whatever image it repeats.
  pub execute_pooled :
      (base : Opts) (ctx : Context) (cmd : List Text) (stdin image : Text) (s : S)
      → ((image ≢ [])
          × (image ≢ base.image)
          × (execute pool_run one_shot base true ctx cmd stdin image s
              ≡ (some (err (image_override base.image)), s)))
        ⊎ (((image ≡ []) ⊎ (image ≡ base.image))
            × (execute pool_run one_shot base true ctx cmd stdin image s
                ≡ replied pool_run one_shot
                    (pool_run ctx (record { cmd = cmd; stdin = reader_of stdin }) s)))
  unfolding execute
  execute_pooled base ctx cmd stdin [] s = inr (inl refl, refl)
  execute_pooled base ctx cmd stdin (c ∷ image) s =
      elim (Bool-cases (text_eq (c ∷ image) base.image)) [
        | inl q ↦ inr (inr ((text_eq_iff (c ∷ image) base.image).0 q), rw (q, execute) refl)
        | inr q ↦ inl (
          (λ e. absurd cc),
          (λ e. absurd (cc ((text_eq_iff (c ∷ image) base.image).1 e, q))),
          rw (q, execute) refl,
        )
      ]

  -- A script that is not blank, for an interpreter that is not blank, runs as the command
  -- `interpreter -` with the script on stdin, in either mode: what `run_sandbox` does.
  pub run_script-run_sandbox :
      (base : Opts) (pooled : Bool) (ctx : Context) (i : RunScriptInput) (s : S)
      → is_blank i.script ≡ false
      → is_blank i.interpreter ≡ false
      → run_script pool_run one_shot base pooled ctx i s
        ≡ run_sandbox pool_run one_shot base pooled ctx
            (record { cmd = i.interpreter ∷ bytes "-" ∷ []; stdin = i.script; image = i.image })
            s
  unfolding run_script run_sandbox
  run_script-run_sandbox base pooled ctx i s script interpreter = rw (script, interpreter) refl

  -- In one-shot mode the options of a call are the server's but for the command, the image, where
  -- the call names one, and stdin, which is open exactly where there is input.
  pub execute-one_shot :
      (base : Opts) (ctx : Context) (cmd : List Text) (stdin image : Text) (s : S)
      → (execute pool_run one_shot base false ctx cmd stdin image s
          ≡ replied_now pool_run one_shot
              (one_shot ctx (call_opts base cmd stdin image) (reader_of stdin) s))
        × (((call_opts base cmd stdin image).with_stdin ≡ false) × (reader_of stdin ≡ none)
            ⊎ ((call_opts base cmd stdin image).with_stdin ≡ true) × (reader_of stdin ≡ some stdin))
        × ((call_opts base cmd stdin image).image ≡ base.image
            ⊎ (call_opts base cmd stdin image).image ≡ image)
  unfolding execute call_opts
  execute-one_shot base ctx cmd [] [] s = (refl, inl (refl, refl), inl refl)
  execute-one_shot base ctx cmd [] (c ∷ image) s = (refl, inl (refl, refl), inr refl)
  execute-one_shot base ctx cmd (d ∷ stdin) [] s = (refl, inr (refl, refl), inl refl)
  execute-one_shot base ctx cmd (d ∷ stdin) (c ∷ image) s = (refl, inr (refl, refl), inr refl)

  output_of_timeout :
      (r : Ran) (out : RunOutput)
      → ((r.failure ≡ none) → r.result.timed_out ≡ false)
      → output_of r ≡ ok out
      → out.timed_out ≡ false
  unfolding output_of
  output_of_timeout r out quiet e = elim (Option-cases r.failure) [
    | inl q ↦ cc ((rw (output_of, q) at e), quiet q)
    | inr (x, q) ↦ cc (rw (output_of, q) at e)
  ]

  replied_timeout :
      (q : Option Ran × S) (s1 : S) (out : RunOutput)
      → ((r : Ran) → q.0 ≡ some r → r.failure ≡ none → r.result.timed_out ≡ false)
      → replied pool_run one_shot q ≡ (some (ok out), s1)
      → out.timed_out ≡ false
  replied_timeout (none, s) s1 out quiet e = absurd cc
  replied_timeout (some r, s) s1 out quiet e = output_of_timeout r out (quiet r refl) (cc e)

  -- If every run that succeeds is one that did not time out, then no output of a tool ever has its timed_out field set: a timeout is an error of the call.
  pub execute_timeout :
      (base : Opts) (pooled : Bool) (ctx : Context) (cmd : List Text) (stdin image : Text)
      (s s1 : S) (out : RunOutput)
      → ((j : Job) (s2 : S) (r : Ran)
          → (pool_run ctx j s2).0 ≡ some r
          → r.failure ≡ none
          → r.result.timed_out ≡ false)
      → ((o : Opts) (i : Option Text) (s2 : S)
          → (one_shot ctx o i s2).0.failure ≡ none
          → (one_shot ctx o i s2).0.result.timed_out ≡ false)
      → execute pool_run one_shot base pooled ctx cmd stdin image s ≡ (some (ok out), s1)
      → out.timed_out ≡ false
  unfolding execute
  execute_timeout base false ctx cmd stdin image s s1 out pool_quiet quiet e =
      output_of_timeout (one_shot ctx (call_opts base cmd stdin image) (reader_of stdin) s).0 out
        (quiet _ _ _) (cc e)
  execute_timeout base true ctx cmd stdin image s s1 out pool_quiet quiet e =
      elim (execute_pooled base ctx cmd stdin image s) [
        | inl (nonempty, other, q) ↦ absurd (cc (q, e))
        | inr (same, q) ↦
            replied_timeout (pool_run ctx (record { cmd = cmd; stdin = reader_of stdin }) s) s1 out
              (pool_quiet _ s) (cc (q, e))
      ]
