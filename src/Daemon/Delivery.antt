-- ===== src/Daemon/Delivery.antt =====
-- pkg/sandbox/client.go and server.go together: a request that `Submit` sends to the daemon.
use podman_sandbox_runner.Base.{
  ℤ, pos, true, ltb_ℤ, ◌+ℤ◌, ◌≡◌, refl, ◌∙◌, Option, none, some, ◌++◌, Text, bytes, has_prefix,
  cut_prefix, trim_right, text_eq, ap,
}
use podman_sandbox_runner.Sandbox.{Fallible, ok, Ran}
use podman_sandbox_runner.Pool.Ops.{Context, Job}
use podman_sandbox_runner.Daemon.{RunRequest, RunResponse}
use podman_sandbox_runner.Daemon.Server.{
  background, handle_run, handle_conn, conn_deadline, serve_http,
}
use podman_sandbox_runner.Daemon.Laws.{submit_path}
use podman_sandbox_runner.Daemon.Client.{
  Net, run_url, exchange_deadline, submit, submit_unix, submit_http, received, posted,
}

-- The world `W` holds both ends: the client calls `net`, and the daemon runs on the pool in it.
-- `wire` and `text_of` are what the encoders make of a request and of an answer.
module _ {C W : Type 0} (net : Net C W) (pool_run : Context → Job → W → Option Ran × W)
    (parse_duration : Text → Fallible ℤ) (decode : Text → Fallible RunRequest)
    (wire : RunRequest → Text) (text_of : RunResponse → Text) (server_now : ℤ) where
  -- A socket at `path` that the daemon accepts on, that loses nothing and answers by its deadline: dialling opens a
  -- connection, encoding brings the request to the daemon, and the text of the daemon's answer to it
  -- is what the client reads.
  pub record UnixLink (path : Text) : Type 0 where
    pub done : ℤ
    pub in_time : ltb_ℤ done (server_now +ℤ conn_deadline) ≡ true
    pub connection : Context → W → C
    pub opened : Context → W → W
    pub came : Context → ℤ → RunRequest → W → W
    pub dials :
        (ctx : Context) (w : W) → net.dial_unix ctx path w ≡ (ok (connection ctx w), opened ctx w)
    pub sends :
        (ctx : Context) (now : ℤ) (req : RunRequest) (w : W)
        → net.encode
            (connection ctx w)
            req
            (net.set_deadline (connection ctx w) (exchange_deadline net ctx now) (opened ctx w))
          ≡ (none, came ctx now req w)
    pub answers :
        (ctx : Context) (now : ℤ) (req : RunRequest) (w : W) (resp : RunResponse) (w1 : W)
        → handle_conn pool_run parse_duration decode server_now done (wire req) (came ctx now req w)
          ≡ (some resp, w1)
        → net.receive (connection ctx w) (came ctx now req w) ≡ (ok (text_of resp), w1)

  -- The same for HTTP: a POST of a request to any path under `http://host` is a request for that path
  -- to the daemon, and a body that the daemon answers with status 200 is what the client reads.
  pub record HttpLink (host : Text) : Type 0 where
    pub posted_as : Context → RunRequest → W → W
    pub marshals : (req : RunRequest) → net.marshal req ≡ ok (wire req)
    pub requests :
        (body : Text) → net.new_request ((bytes "http://" ++ host) ++ bytes "/run") body ≡ ok tt
    pub posts :
        (ctx : Context) (path : Text) (req : RunRequest) (w : W) (resp : RunResponse) (w1 : W)
        → serve_http pool_run parse_duration decode background server_now
            (record { path = path; method = bytes "POST"; content = wire req })
            (posted_as ctx req w)
          ≡ (some (record { status = pos 200; body = some resp }), w1)
        → net.do_post ctx ((bytes "http://" ++ host) ++ path) (wire req) w ≡ (ok (text_of resp), w1)

  -- How an endpoint leads to the daemon. An HTTP endpoint may end in slashes, which are no part of its
  -- host.
  pub data Link (endpoint : Text) : Type 0 where
    over_unix : (path : Text) → endpoint ≡ bytes "unix://" ++ path → UnixLink path → Link endpoint
    over_http :
        (base host : Text)
        → endpoint ≡ bytes "http://" ++ base
        → trim_right endpoint b'/' ≡ bytes "http://" ++ host
        → HttpLink host
        → Link endpoint

  -- The world when the request has come to the daemon.
  abbrev pub arrived : {endpoint : Text} → Link endpoint → Context → ℤ → RunRequest → W → W
  arrived (over_unix path e l) ctx now req w = l.came ctx now req w
  arrived (over_http base host e h l) ctx now req w = l.posted_as ctx req w

  to_socket :
      (ctx : Context) (now : ℤ) (path endpoint : Text) (req : RunRequest) (w : W)
      → endpoint ≡ bytes "unix://" ++ path
      → submit net ctx now endpoint req w ≡ submit_unix net ctx now path req w
  to_socket ctx now path endpoint req w e = rw e (submit_path net ctx now path req w)

  to_http :
      (ctx : Context) (now : ℤ) (base endpoint : Text) (req : RunRequest) (w : W)
      → endpoint ≡ bytes "http://" ++ base
      → submit net ctx now endpoint req w ≡ submit_http net ctx endpoint req w
  unfolding submit has_prefix cut_prefix
  to_http ctx now base endpoint req w e = rw e refl

  run_url_lem :
      (endpoint host : Text)
      → trim_right endpoint b'/' ≡ bytes "http://" ++ host
      → run_url endpoint ≡ (bytes "http://" ++ host) ++ bytes "/run"
  unfolding run_url
  run_url_lem endpoint host h = ap (λ t. t ++ bytes "/run") h

  received_lem :
      (t : Text) (r : RunResponse) (w : W)
      → net.decode t ≡ ok r
      → received net (ok t, w) ≡ (ok r, w)
  received_lem t r w e = rw (e, received) refl

  posted_lem :
      (t : Text) (r : RunResponse) (w : W) → net.decode t ≡ ok r → posted net (ok t, w) ≡ (ok r, w)
  posted_lem t r w e = rw (e, posted) refl

  -- `Submit` over a link of either kind, for a request and an answer that the codec brings back
  -- unchanged, returns without an error exactly the answer that `handleRun` gives to that very request
  -- when it arrives, and leaves the world as `handleRun` does.
  pub submit_delivers :
      {endpoint : Text} (link : Link endpoint) (ctx : Context) (now : ℤ) (req : RunRequest)
      (resp : RunResponse) (w w1 : W)
      → decode (wire req) ≡ ok req
      → net.decode (text_of resp) ≡ ok resp
      → handle_run pool_run parse_duration decode background server_now req
          (arrived link ctx now req w)
        ≡ (some resp, w1)
      → submit net ctx now endpoint req w ≡ (ok resp, w1)
  unfolding submit_unix submit_http handle_conn serve_http text_eq
  submit_delivers (over_unix path e l) ctx now req resp w w1 read back ran =
      to_socket ctx now path _ req w e
      ∙ rw
          (
            l.dials ctx w,
            l.sends ctx now req w,
            l.answers ctx now req w resp w1 (rw (read, l.in_time, handle_conn) ran),
            submit_unix,
          )
          (received_lem (text_of resp) resp w1 back)
  submit_delivers (over_http base host e h l) ctx now req resp w w1 read back ran =
      to_http ctx now base _ req w e
      ∙ rw
          (
            l.marshals req,
            run_url_lem _ host h,
            l.requests (wire req),
            run_url_lem _ host h,
            l.posts ctx (bytes "/run") req w resp w1 (rw (read, ran, serve_http) refl),
            submit_http,
          )
          (posted_lem (text_of resp) resp w1 back)
