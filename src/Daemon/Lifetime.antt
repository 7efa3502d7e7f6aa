-- ===== src/Daemon/Lifetime.antt =====
-- pkg/sandbox/server.go over pkg/sandbox/pool.go: a daemon on its pool, as the requests that come in one
-- after the other.
use podman_sandbox_runner.Base.{ℕ, ℤ, Option, none, some, List, [], ◌∷◌, Text, inl, inr}
use podman_sandbox_runner.Sandbox.{Fallible, Fallible-cases, Ran}
use podman_sandbox_runner.Pool.Ops.{PoolImpl, Pool, Context, Job, Select, run, reap_idle}
use podman_sandbox_runner.Pool.Accounts.{Meter}
use podman_sandbox_runner.Pool.Accounts.Sound.{IsSound, run-IsSound, reap_idle-IsSound}
use podman_sandbox_runner.Daemon.{RunRequest, RunResponse}
use podman_sandbox_runner.Daemon.Laws.{handle_run_branches, serve_http_cases}
use podman_sandbox_runner.Daemon.Server.{
  HttpRequest, job_of, answered, in_json, dispatch, handle_run, handle_conn, serve_http, background,
}

-- What comes to a daemon: a request over HTTP at a time, or over the socket at a time and until a
-- time, with the case of the
-- select statement if it has to wait for a holder, or a tick of the pool's reaper.
pub data Arrival : Type 0 where
  by_http : Context → ℤ → ℕ → Select → HttpRequest → Arrival
  by_socket : ℤ → ℤ → ℕ → Select → Text → Arrival
  tick : ℕ → Arrival

module _ {I W : Type 0} (ops : PoolImpl I W) (parse_duration : Text → Fallible ℤ)
    (decode : Text → Fallible RunRequest) where
  abbrev pool_run : ℕ → Select → Context → Job → Pool I W → Option Ran × Pool I W
  pool_run time sel ctx job p = run ops ctx time sel job p

  unfoldable pub receives : Pool I W → Arrival → Pool I W
  receives p (by_http ctx now time sel r) =
      (serve_http (pool_run time sel) parse_duration decode ctx now r p).1
  receives p (by_socket now done time sel content) =
      (handle_conn (pool_run time sel) parse_duration decode now done content p).1
  receives p (tick time) = reap_idle ops time p

  unfoldable pub receives_all : Pool I W → List Arrival → Pool I W
  receives_all p [] = p
  receives_all p (a ∷ rest) = receives_all (receives p a) rest

module _ {I W : Type 0} (ops : PoolImpl I W) (parse_duration : Text → Fallible ℤ)
    (decode : Text → Fallible RunRequest) (f : I → ℕ) (m : Meter ops f) where
  answered-IsSound :
      (time : ℕ) (sel : Select) (q : Option Ran × Pool I W)
      → IsSound ops f m q.1
      → IsSound ops f m
          (answered (pool_run ops parse_duration decode time sel) parse_duration decode q).1
  answered-IsSound time sel (none, p) v = v
  answered-IsSound time sel (some r, p) v = v

  dispatch-IsSound :
      (time : ℕ) (sel : Select) (ctx : Context) (req : RunRequest) (p : Pool I W)
      → IsSound ops f m p
      → IsSound ops f m
          (dispatch (pool_run ops parse_duration decode time sel) parse_duration decode ctx req p).1
  unfolding dispatch
  dispatch-IsSound time sel ctx req p v =
      answered-IsSound time sel (run ops ctx time sel (job_of req) p)
        (run-IsSound ops f m ctx time sel (job_of req) p v)

  handle_run-IsSound :
      (time : ℕ) (sel : Select) (ctx : Context) (now : ℤ) (req : RunRequest) (p : Pool I W)
      → IsSound ops f m p
      → IsSound ops f m
          (handle_run
            (pool_run ops parse_duration decode time sel)
            parse_duration
            decode
            ctx
            now
            req
            p).1
  handle_run-IsSound time sel ctx now req p v =
      elim (handle_run_branches (pool_run ops parse_duration decode time sel) parse_duration decode
        ctx now req p) [
          | inl (e, q, same) ↦ rw same v
          | inr (q, same) ↦ rw same (dispatch-IsSound time sel _ req p v)
        ]

  in_json-IsSound :
      (time : ℕ) (sel : Select) (q : Option RunResponse × Pool I W)
      → IsSound ops f m q.1
      → IsSound ops f m
          (in_json (pool_run ops parse_duration decode time sel) parse_duration decode q).1
  in_json-IsSound time sel (none, p) v = v
  in_json-IsSound time sel (some r, p) v = v

  serve_http-IsSound :
      (time : ℕ) (sel : Select) (ctx : Context) (now : ℤ) (r : HttpRequest) (p : Pool I W)
      → IsSound ops f m p
      → IsSound ops f m
          (serve_http
            (pool_run ops parse_duration decode time sel)
            parse_duration
            decode
            ctx
            now
            r
            p).1
  serve_http-IsSound time sel ctx now r p v =
      elim (serve_http_cases (pool_run ops parse_duration decode time sel) parse_duration decode ctx
        now now r p) [
          | inl (b, q, same) ↦ rw same v
          | inr (req, q, same, s) ↦
              rw same (in_json-IsSound time sel _ (handle_run-IsSound time sel ctx now req p v))
        ]

  handle_conn-IsSound :
      (time : ℕ) (sel : Select) (now done : ℤ) (content : Text) (p : Pool I W)
      → IsSound ops f m p
      → IsSound ops f m
          (handle_conn
            (pool_run ops parse_duration decode time sel)
            parse_duration
            decode
            now
            done
            content
            p).1
  unfolding handle_conn
  handle_conn-IsSound time sel now done content p v = elim (Fallible-cases (decode content)) [
    | inl (req, q) ↦ rw (q, handle_conn) (handle_run-IsSound time sel background now req p v)
    | inr (e, q) ↦ rw (q, handle_conn) v
  ]

  receives-IsSound :
      (p : Pool I W) (a : Arrival)
      → IsSound ops f m p
      → IsSound ops f m (receives ops parse_duration decode p a)
  unfolding receives
  receives-IsSound p (by_http ctx now time sel r) v = serve_http-IsSound time sel ctx now r p v
  receives-IsSound p (by_socket now done time sel content) v =
      handle_conn-IsSound time sel now done content p v
  receives-IsSound p (tick time) v = reap_idle-IsSound ops f m time p v

  pub receives_all-IsSound :
      (p : Pool I W) (l : List Arrival)
      → IsSound ops f m p
      → IsSound ops f m (receives_all ops parse_duration decode p l)
  unfolding receives_all
  receives_all-IsSound p [] v = v
  receives_all-IsSound p (a ∷ l) v =
      receives_all-IsSound (receives ops parse_duration decode p a) l (receives-IsSound p a v)
