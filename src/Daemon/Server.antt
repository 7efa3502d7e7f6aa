-- ===== src/Daemon/Server.antt =====
-- pkg/sandbox/server.go: `handleRun` and its two transports. `P` is the state of the pool and
-- `pool_run` its `Run`, where `none` is a call that still waits. `parse_duration` stands for
-- time.ParseDuration and `decode` for the JSON decoder of the two transports.
use podman_sandbox_runner.Base.{
  List, ℤ, pos, ltb_ℤ, ◌+ℤ◌, Option, none, some, Text, bytes, text_eq, is_empty, if◌then◌else◌, [],
  ◌∷◌, not,
}
use podman_sandbox_runner.Sandbox.{Error, errorf, wrapf, Fallible, ok, err, Ran}
use podman_sandbox_runner.Pool.Ops.{Context, Job}
use podman_sandbox_runner.Daemon.{RunRequest, RunResponse, error_response}

abbrev pub min_ℤ : ℤ → ℤ → ℤ
min_ℤ a b = if ltb_ℤ b a then b else a

-- context.WithTimeout, at the time `now`: the sooner of the two deadlines.
unfoldable pub with_timeout : Context → ℤ → ℤ → Context
with_timeout ctx now d = elim ctx.deadline [
  | none ↦ record { deadline = some (now +ℤ d) }
  | some t ↦ record { deadline = some (min_ℤ t (now +ℤ d)) }
]

-- context.Background()
abbrev pub background : Context
background = record { deadline = none }

-- The last lines of `handleRun`.
unfoldable pub respond : Ran → RunResponse
respond r = record {
  exit_code = r.result.exit_code;
  stdout = r.out;
  stderr = r.err_out;
  timed_out = r.result.timed_out;
  oom_killed = r.result.oom_killed;
  error = r.failure;
}

-- What `handleRun` hands to the pool: stdin is a reader only where there is input.
unfoldable pub job_of : RunRequest → Job
job_of req = record { cmd = req.cmd; stdin = if is_empty req.stdin then none else some req.stdin }

abbrev pub empty_command : Error
empty_command = errorf "empty command" [] []

-- An HTTP answer: the status and, for an answer in JSON, its body.
pub record HttpAnswer : Type 0 where
  pub status : ℤ
  pub body : Option RunResponse

pub record HttpRequest : Type 0 where
  pub path : Text
  pub method : Text
  pub content : Text

-- `ServeUnix`, over what the listener's `Accept` answers: the connections for which `handleConn` is
-- started, in order, and the error that ends the loop, where one has.
unfoldable pub serve_unix : {C : Type 0} → List (Fallible C) → List C × Option Error
serve_unix [] = ([], none)
serve_unix (err e ∷ rest) = ([], some e)
serve_unix (ok c ∷ rest) = let (conns, e) = serve_unix rest in (c ∷ conns, e)

-- The deadline of a connection: 10 minutes in nanoseconds.
abbrev pub conn_deadline : ℤ
conn_deadline = pos 600000000000

module _ {P : Type 0} (pool_run : Context → Job → P → Option Ran × P)
    (parse_duration : Text → Fallible ℤ) (decode : Text → Fallible RunRequest) where
  abbrev pub answered : Option Ran × P → Option RunResponse × P
  answered (none, p) = (none, p)
  answered (some r, p) = (some (respond r), p)

  -- The pool's part of `handleRun`.
  unfoldable pub dispatch : Context → RunRequest → P → Option RunResponse × P
  dispatch ctx req p = answered (pool_run ctx (job_of req) p)

  unfoldable pub handle_run : Context → ℤ → RunRequest → P → Option RunResponse × P
  handle_run ctx now req p =
      if is_empty req.cmd
      then (some (error_response empty_command), p)
      else if is_empty req.timeout
      then dispatch ctx req p
      else elim (parse_duration req.timeout) [
        | err e ↦
            (some (error_response (wrapf "invalid timeout %q: %v" (req.timeout ∷ []) [] e)), p)
        | ok d ↦ dispatch (with_timeout ctx now d) req p
      ]

  abbrev bad_request : Error → RunResponse
  bad_request e = error_response (wrapf "bad request: " [] [] e)

  abbrev pub in_json : Option RunResponse × P → Option HttpAnswer × P
  in_json (none, p) = (none, p)
  in_json (some resp, p) = (some (record { status = pos 200; body = some resp }), p)

  unfoldable pub serve_http : Context → ℤ → HttpRequest → P → Option HttpAnswer × P
  serve_http ctx now r p =
      if not (text_eq r.path (bytes "/run"))
      then (some (record { status = pos 404; body = none }), p)
      else if not (text_eq r.method (bytes "POST"))
      then (some (record { status = pos 405; body = none }), p)
      else elim (decode r.content) [
        | err e ↦ (some (record { status = pos 400; body = some (bad_request e) }), p)
        | ok req ↦ in_json (handle_run ctx now req p)
      ]

  -- What is left of an answer that is ready at the time `done`, on a connection from `now`.
  abbrev pub by_deadline : ℤ → ℤ → Option RunResponse × P → Option RunResponse × P
  by_deadline now done a = (if ltb_ℤ done (now +ℤ conn_deadline) then a.0 else none, a.1)

  unfoldable pub handle_conn : ℤ → ℤ → Text → P → Option RunResponse × P
  handle_conn now done content p = by_deadline now done (elim (decode content) [
    | err e ↦ (some (bad_request e), p)
    | ok req ↦ handle_run background now req p
  ])
