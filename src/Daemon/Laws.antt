-- ===== src/Daemon/Laws.antt =====
-- What the daemon's handlers and its client guarantee.
use podman_sandbox_runner.Base.{
  ltb_ℤ, true, false, ℤ, pos, ◌≤ℤ◌, ltb_ℤ, ◌+ℤ◌, ◌≡◌, refl, ◌≢◌, ◌⊎◌, inl, inr, not, Option, none,
  some, List, [], ◌∷◌, ◌++◌, Text, bytes, text_eq, is_empty, List-cases, ap, ◌∙◌, has_prefix,
  trim_prefix, cut_prefix, arith, Bool-cases, Option-cases, if◌then◌else◌,
}
use podman_sandbox_runner.Sandbox.{Error, wrapf, Fallible, ok, err, Fallible-cases, Ran}
use podman_sandbox_runner.Pool.Ops.{Context, Job}
use podman_sandbox_runner.Daemon.{RunRequest, RunResponse, error_response}
use podman_sandbox_runner.Daemon.Server.{
  with_timeout, background, job_of, empty_command, HttpRequest, dispatch, handle_run, serve_http,
  handle_conn, by_deadline, conn_deadline, in_json, answered, respond,
}
use podman_sandbox_runner.Daemon.Client.{Net, submit, submit_unix}

-- The deadline of a context, if any, is at the time `t` or before.
abbrev pub EndsBy : Context → ℤ → Type 0
EndsBy ctx t = (d : ℤ) × (ctx.deadline ≡ some d) × (d ≤ℤ t)

-- A context without a deadline gets that of the timeout; one with a deadline ends by both.
with_timeout_bounds :
    (ctx : Context) (now d : ℤ)
    → ((ctx.deadline ≡ none) × ((with_timeout ctx now d).deadline ≡ some (now +ℤ d)))
      ⊎ ((t : ℤ) × (ctx.deadline ≡ some t)
          × EndsBy (with_timeout ctx now d) t
          × EndsBy (with_timeout ctx now d) (now +ℤ d))
unfolding with_timeout
with_timeout_bounds ctx now d = elim (Option-cases ctx.deadline) [
  | inl e ↦ inl (e, rw (e, with_timeout))
  | inr (t, e) ↦ elim (Bool-cases (ltb_ℤ (now +ℤ d) t)) [
    | inl sooner ↦ inr (
      t,
      e,
      (now +ℤ d, rw (e, with_timeout, sooner), ground (arith, sooner)),
      (now +ℤ d, rw (e, with_timeout, sooner), ground arith),
    )
    | inr later ↦ inr (
      t,
      e,
      (t, rw (e, with_timeout, later), ground arith),
      (t, rw (e, with_timeout, later), ground (arith, later)),
    )
  ]
]

module _ {P : Type 0} (pool_run : Context → Job → P → Option Ran × P)
    (parse_duration : Text → Fallible ℤ) (decode : Text → Fallible RunRequest) where
  -- `handleRun` never looks at the environment of a request.
  pub handle_run_env :
      (ctx : Context) (now : ℤ) (req : RunRequest) (env : List Text) (p : P)
      → handle_run pool_run parse_duration decode ctx now (record req { env = env }) p
        ≡ handle_run pool_run parse_duration decode ctx now req p
  unfolding handle_run dispatch job_of
  handle_run_env ctx now req env p = refl

  -- The answer that `handleRun` gives before it touches the pool, if it does.
  abbrev pub refusal : RunRequest → Option Error
  refusal req =
      if is_empty req.cmd
      then some empty_command
      else if is_empty req.timeout
      then none
      else elim (parse_duration req.timeout) [
        | err e ↦ some (wrapf "invalid timeout %q: %v" (req.timeout ∷ []) [] e)
        | ok d ↦ none
      ]

  -- The context that a run gets.
  abbrev pub run_context : Context → ℤ → RunRequest → Context
  run_context ctx now req =
      if is_empty req.timeout
      then ctx
      else elim (parse_duration req.timeout) [ err e ↦ ctx | ok d ↦ with_timeout ctx now d ]

  -- The branches of `handleRun`.
  pub handle_run_branches :
      (ctx : Context) (now : ℤ) (req : RunRequest) (p : P)
      → ((e : Error) × (refusal req ≡ some e)
          × (handle_run pool_run parse_duration decode ctx now req p
              ≡ (some (error_response e), p)))
        ⊎ ((refusal req ≡ none)
            × (handle_run pool_run parse_duration decode ctx now req p
                ≡ dispatch pool_run parse_duration decode (run_context ctx now req) req p))
  unfolding handle_run
  handle_run_branches ctx now req p = elim (Bool-cases (is_empty req.cmd)) [
    | inl e ↦ inl (empty_command, rw e, rw e)
    | inr e ↦ elim (Bool-cases (is_empty req.timeout)) [
      | inl t ↦ inr (rw (e, t), rw (e, t))
      | inr t ↦ elim (Fallible-cases (parse_duration req.timeout)) [
        | inl (d, q) ↦ inr (rw (e, t, q), rw (e, t, q))
        | inr (x, q) ↦
            inl (wrapf "invalid timeout %q: %v" (req.timeout ∷ []) [] x, rw (e, t, q), rw (e, t, q))
      ]
    ]
  ]

  -- What a run of the pool becomes in an answer, field by field; none while it waits.
  abbrev pub reply : Option Ran × P → Option RunResponse × P
  reply (none, p) = (none, p)
  reply (some r, p) = (
    some (record {
      exit_code = r.result.exit_code;
      stdout = r.out;
      stderr = r.err_out;
      timed_out = r.result.timed_out;
      oom_killed = r.result.oom_killed;
      error = r.failure;
    }),
    p,
  )

  -- The command of a request, and its input where it has one.
  abbrev pub requested : RunRequest → Job
  requested req = record {
    cmd = req.cmd;
    stdin = elim req.stdin [ [] ↦ none | c ∷ s ↦ some (c ∷ s) ];
  }

  answered-reply : (q : Option Ran × P) → answered pool_run parse_duration decode q ≡ reply q
  unfolding respond
  answered-reply (none, p) = refl
  answered-reply (some r, p) = refl

  requested_lem : (req : RunRequest) → job_of req ≡ requested req
  unfolding job_of
  requested_lem req = elim (List-cases req.stdin) [ inl e ↦ rw e refl | inr (c, s, e) ↦ rw e refl ]

  dispatch-reply :
      (ctx : Context) (req : RunRequest) (p : P)
      → dispatch pool_run parse_duration decode ctx req p ≡ reply (pool_run ctx (requested req) p)
  unfolding dispatch
  dispatch-reply ctx req p =
      answered-reply (pool_run ctx (job_of req) p)
      ∙ ap (λ j. reply (pool_run ctx j p)) (requested_lem req)

  -- `handleRun` either refuses a request that has no command or a timeout that does not parse, and
  -- leaves the pool as it was, or it makes exactly one run of the pool, with the command and the input of
  -- the request and under the context with its timeout, and its answer has the exit code, the output, the
  -- flags and the error of that run.
  pub handle_run_cases :
      (ctx : Context) (now : ℤ) (req : RunRequest) (p : P)
      → ((e : Error) × (refusal req ≡ some e)
          × (handle_run pool_run parse_duration decode ctx now req p
              ≡ (some (error_response e), p)))
        ⊎ ((refusal req ≡ none)
            × (handle_run pool_run parse_duration decode ctx now req p
                ≡ reply (pool_run (run_context ctx now req) (requested req) p)))
  handle_run_cases ctx now req p = elim (handle_run_branches ctx now req p) [
    | inl refused ↦ inl refused
    | inr (none_, e) ↦ inr (none_, e ∙ dispatch-reply (run_context ctx now req) req p)
  ]

  -- A request with a command and a timeout that parses is one run of the pool, whose answer it gets,
  -- under a context that ends by the timeout,
  -- counted from its arrival, and by the deadline of the caller's context where that has one.
  pub handle_run_deadline :
      (ctx : Context) (now d : ℤ) (req : RunRequest) (p : P)
      → is_empty req.cmd ≡ false
      → is_empty req.timeout ≡ false
      → parse_duration req.timeout ≡ ok d
      → (c : Context) × EndsBy c (now +ℤ d)
        × ((ctx.deadline ≡ none) ⊎ ((t : ℤ) × (ctx.deadline ≡ some t) × EndsBy c t))
        × (handle_run pool_run parse_duration decode ctx now req p
            ≡ reply (pool_run c (requested req) p))
  unfolding handle_run
  handle_run_deadline ctx now d req p some_cmd some_timeout parsed = (
    with_timeout ctx now d,
    elim (with_timeout_bounds ctx now d) [
      | inl (free, ends) ↦ (now +ℤ d, ends, ground arith)
      | inr (t, e, early, ends) ↦ ends
    ],
    elim (with_timeout_bounds ctx now d) [
      | inl (free, ends) ↦ inl free
      | inr (t, e, early, ends) ↦ inr (t, e, early)
    ],
    rw (some_cmd, some_timeout, parsed) (dispatch-reply (with_timeout ctx now d) req p),
  )

  -- The status of an HTTP answer, by what is wrong with the request.
  abbrev pub status_of : HttpRequest → ℤ
  status_of r =
      if not (text_eq r.path (bytes "/run"))
      then pos 404
      else if not (text_eq r.method (bytes "POST"))
      then pos 405
      else elim (decode r.content) [ err e ↦ pos 400 | ok req ↦ pos 200 ]

  -- `ServeHTTP` on a request that is not POST /run with a body that decodes answers with 404, 405 or
  -- 400 and leaves the pool as it was.
  pub serve_http_refuses :
      (ctx : Context) (now : ℤ) (r : HttpRequest) (p : P)
      → status_of r ≢ pos 200
      → (b : Option RunResponse) × (serve_http pool_run parse_duration decode ctx now r p
          ≡ (some (record { status = status_of r; body = b }), p))
  unfolding serve_http
  serve_http_refuses ctx now r p h = elim (Bool-cases (text_eq r.path (bytes "/run"))) [
    | inr a ↦ (none, rw a)
    | inl a ↦ elim (Bool-cases (text_eq r.method (bytes "POST"))) [
      | inr b ↦ (none, rw (a, b))
      | inl b ↦ elim (Fallible-cases (decode r.content)) [
        | inl (req, q) ↦ absurd (h (rw (a, b, q)))
        | inr (e, q) ↦ (some (error_response (wrapf "bad request: " [] [] e)), rw (a, b, q))
      ]
    ]
  ]

  -- Under the same context the two transports give the same answer to the same request: the HTTP
  -- answer to a POST /run whose body decodes is the answer of the socket, with status 200, where the
  -- connection lasts until that.
  pub transports_agree :
      (now done : ℤ) (content : Text) (req : RunRequest) (p q : P) (resp : RunResponse)
      → decode content ≡ ok req
      → ltb_ℤ done (now +ℤ conn_deadline) ≡ true
      → handle_conn pool_run parse_duration decode now done content p ≡ (some resp, q)
      → serve_http pool_run parse_duration decode background now
          (record { path = bytes "/run"; method = bytes "POST"; content = content })
          p
        ≡ (some (record { status = pos 200; body = some resp }), q)
  unfolding serve_http handle_conn text_eq
  transports_agree now done content req p q resp d early h =
      rw (d, (rw (d, early, handle_conn) at h))

  -- `ServeHTTP` either answers a request that is not POST /run with a body that decodes with its status
  -- (404, 405 or 400) and leaves the pool as it was, or answers with status 200 exactly what
  -- `handleRun` answers to the decoded request. The socket gives to the same body the answer of
  -- `handleRun` to the same request, under a context without a deadline, unless the connection has
  -- reached its deadline.
  pub serve_http_cases :
      (ctx : Context) (now done : ℤ) (r : HttpRequest) (p : P)
      → ((b : Option RunResponse) × (status_of r ≢ pos 200)
          × (serve_http pool_run parse_duration decode ctx now r p
              ≡ (some (record { status = status_of r; body = b }), p)))
        ⊎ ((req : RunRequest) × (status_of r ≡ pos 200)
            × (serve_http pool_run parse_duration decode ctx now r p
                ≡ in_json pool_run parse_duration decode
                    (handle_run pool_run parse_duration decode ctx now req p))
            × (handle_conn pool_run parse_duration decode now done r.content p
                ≡ by_deadline pool_run parse_duration decode now done
                    (handle_run pool_run parse_duration decode background now req p)))
  unfolding serve_http handle_conn
  serve_http_cases ctx now done r p = elim (Bool-cases (text_eq r.path (bytes "/run"))) [
    | inr a ↦ inl (none, (λ e. ground (arith, (rw a at e))), rw a refl)
    | inl a ↦ elim (Bool-cases (text_eq r.method (bytes "POST"))) [
      | inr b ↦ inl (none, (λ e. ground (arith, (rw (a, b) at e))), rw (a, b) refl)
      | inl b ↦ elim (Fallible-cases (decode r.content)) [
        | inl (req, q) ↦ inr (req, rw (a, b, q) refl, rw (a, b, q) refl, rw (q, handle_conn) refl)
        | inr (e, q) ↦ inl (
          some (error_response (wrapf "bad request: " [] [] e)),
          (λ h. ground (arith, (rw (a, b, q) at h))),
          rw (a, b, q) refl,
        )
      ]
    ]
  ]

module _ {C W : Type 0} (net : Net C W) where
  -- A unix endpoint is dialled at exactly the path behind its scheme.
  pub submit_path :
      (ctx : Context) (now : ℤ) (path : Text) (req : RunRequest) (w : W)
      → submit net ctx now (bytes "unix://" ++ path) req w ≡ submit_unix net ctx now path req w
  unfolding submit has_prefix trim_prefix cut_prefix
  submit_path ctx now path req w = refl
