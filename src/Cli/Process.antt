-- ===== src/Cli/Process.antt =====
-- cmd/sandbox/main.go: `sandbox run` from its parsed flags to its exit code. `execute` stands for
-- `sandbox.Run` and `submit` for `sandbox.Submit`; `S` is what both act on. What cannot be written
-- to the terminal is lost without an effect on the exit code, so the terminal is not a parameter.
use podman_sandbox_runner.Base.{
  ℤ, pos, Bool, Option, none, some, List, [], ◌≡◌, refl, sym, Text, is_empty, if◌then◌else◌, true,
  false, ap,
}
use podman_sandbox_runner.Sandbox.{Error, Fallible, ok, err, Opts, Result, no_result, Ran}
use podman_sandbox_runner.Daemon.{RunRequest, RunResponse}
use podman_sandbox_runner.Daemon.Server.{respond}
use podman_sandbox_runner.Cli.Flags.{SandboxFlags, build_opts}

-- What the process shows: the streams and the message behind "sandbox:", or one JSON document.
pub data Shown : Type 0 where
  usage : Option Error → Shown
  streamed : Text → Text → Option Error → Shown
  json : Result → Shown

pub record Exit : Type 0 where
  pub code : ℤ
  pub shown : Shown

-- Where a run could not be made, whatever the command would have returned.
abbrev pub code_of : Option Error → ℤ → ℤ
code_of (some e) code = pos 125
code_of none code = code

-- `res.Error`, set where the run failed.
abbrev pub error_of : Option Error → Option Error → Option Error
error_of (some e) own = some e
error_of none own = own

-- The end of `main`: both modes of a local run.
unfoldable pub report : Bool → Ran → Exit
report true r = record {
  code = code_of r.failure (pos 0);
  shown = json (record r.result {
    stdout = r.out;
    stderr = r.err_out;
    error = error_of r.failure r.result.error;
  });
}
report false r = record {
  code = code_of r.failure r.result.exit_code;
  shown = streamed r.out r.err_out r.failure;
}

-- The end of `runViaDaemon`.
unfoldable pub report_response : Bool → RunResponse → Exit
report_response true resp = record {
  code = code_of resp.error (pos 0);
  shown = json (record no_result {
    exit_code = resp.exit_code;
    stdout = resp.stdout;
    stderr = resp.stderr;
    timed_out = resp.timed_out;
    oom_killed = resp.oom_killed;
    error = resp.error;
  });
}
report_response false resp = record {
  code = code_of resp.error resp.exit_code;
  shown = streamed resp.stdout resp.stderr resp.error;
}

abbrev pub stopped : ℤ → Error → Exit
stopped code e = record { code = code; shown = streamed [] [] (some e) }

error_of-none : (failure own : Option Error) → own ≡ none → failure ≡ error_of failure own
error_of-none (some e) own h = refl
error_of-none none own h = sym h

module _ {S : Type 0} (execute : Opts → Option Text → S → Ran × S)
    (submit : Text → RunRequest → S → Fallible RunResponse × S) where
  abbrev answered : Bool → Fallible RunResponse × S → Exit × S
  answered as_json (err e, s) = (stopped (pos 125) e, s)
  answered as_json (ok resp, s) = (report_response as_json resp, s)

  abbrev request : List Text → Text → RunRequest
  request cmd data_in = record { cmd = cmd; stdin = data_in; env = []; timeout = [] }

  -- `stdin` is what reading all of the standard input gives.
  unfoldable pub run_via_daemon : Text → List Text → Fallible Text → Bool → Bool → S → Exit × S
  run_via_daemon endpoint cmd stdin with_stdin as_json s =
      if with_stdin
      then elim stdin [
        | err e ↦ (stopped (pos 125) e, s)
        | ok input ↦ answered as_json (submit endpoint (request cmd input) s)
      ]
      else answered as_json (submit endpoint (request cmd []) s)

  abbrev finished : Bool → Ran × S → Exit × S
  finished as_json (r, s) = (report as_json r, s)

  -- The text that a reader of the standard input gives before it ends or fails.
  abbrev readable : Fallible Text → Text
  readable (ok t) = t
  readable (err e) = []

  unfoldable pub run_locally : SandboxFlags → List Text → Fallible Text → Bool → Bool → S → Exit × S
  run_locally sf cmd stdin with_stdin as_json s = elim (build_opts sf cmd with_stdin) [
    | err e ↦ (record { code = pos 2; shown = usage (some e) }, s)
    | ok o ↦ finished as_json (execute o (if o.with_stdin then some (readable stdin) else none) s)
  ]

  -- `sandbox run`, behind the flags.
  unfoldable pub run_command :
      SandboxFlags → Text → List Text → Fallible Text → Bool → Bool → S → Exit × S
  run_command sf via cmd stdin with_stdin as_json s =
      if is_empty cmd
      then (record { code = pos 2; shown = usage none }, s)
      else if is_empty via
      then run_locally sf cmd stdin with_stdin as_json s
      else run_via_daemon via cmd stdin with_stdin as_json s

  -- If the daemon's answer to a command without input is that of a run whose result holds no error of
  -- its own, `sandbox run -via` with an endpoint ends as `sandbox run` ends on that run, in both output
  -- modes: the same exit code, output and error.
  -- Only the duration of the run is lost.
  pub run_via_daemon-report :
      (sf : SandboxFlags) (via : Text) (cmd : List Text) (as_json : Bool) (s s1 : S) (r : Ran)
      → is_empty cmd ≡ false
      → is_empty via ≡ false
      → r.result.error ≡ none
      → submit via (request cmd []) s ≡ (ok (respond r), s1)
      → run_command sf via cmd (ok []) false as_json s
        ≡ (report as_json (record r { result = record r.result { duration_ms = pos 0 } }), s1)
  unfolding run_command run_via_daemon report report_response respond
  run_via_daemon-report sf via cmd false s s1 r some_cmd some_via clean e =
      rw (some_cmd, some_via, run_command, e) refl
  run_via_daemon-report sf via cmd true s s1 r some_cmd some_via clean e =
      rw (some_cmd, some_via, run_command, e)
        (ap
          (λ x. (
            record {
              code = code_of r.failure (pos 0);
              shown = json (record r.result {
                stdout = r.out;
                stderr = r.err_out;
                duration_ms = pos 0;
                error = x;
              });
            },
            s1,
          ))
          (error_of-none r.failure r.result.error clean))
