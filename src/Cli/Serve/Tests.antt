-- ===== src/Cli/Serve/Tests.antt =====
-- A server whose unix socket works and whose HTTP address is not loopback.
use podman_sandbox_runner.Base.{
  ℕ, ◌+◌, pos, true, false, is_space, ◌≡◌, refl, ◌⊎◌, none, some, List, [], ◌∷◌, ◌++◌, bytes,
  text_eq, Text, ℤ, if◌then◌else◌,
}
use podman_sandbox_runner.Sandbox.{external, Fallible, ok, err, no_result}
use podman_sandbox_runner.Pool.Ops.{PoolImpl, receive}
use podman_sandbox_runner.Pool.Accounts.{log_meter}
use podman_sandbox_runner.Pool.Accounts.Sound.{IsSpent}
use podman_sandbox_runner.Daemon.{RunRequest}
use podman_sandbox_runner.Daemon.Server.{background}
use podman_sandbox_runner.Daemon.Lifetime.{Arrival, by_http, by_socket, tick}
use podman_sandbox_runner.Cli.Serve.Session.{serve_session, serve_session-IsSpent}
use podman_sandbox_runner.Cli.Flags.{default_flags, build_opts, binds_of, bad_entry}
use podman_sandbox_runner.Cli.Serve.{
  ServeFlags, Deed, pool_opened, pool_closed, socket_listened, socket_restricted, socket_served,
  Net, Host, run_serve, start_unix, start_http, is_loopback_addr, is_loopback_host, trim_left,
  trim_end,
}
use podman_sandbox_runner.Cli.Serve.Listeners.{Served}
use podman_sandbox_runner.Cli.Serve.Deeds.{run_serve_deeds}

abbrev net : Net
net = record { split_host = λ addr. ok (bytes "0.0.0.0"); parse_ip = λ ip. some false }

abbrev host : Host ℕ ℕ
host = record {
  new_pool = λ o cfg w. (ok 7, w);
  close_pool = λ p w. w + 1;
  exists_path = λ path w. false;
  remove = λ path w. w;
  listen_unix = λ path w. (none, w);
  chmod = λ path w. (none, w);
  close_listener = λ w. w;
  serve_unix = λ p w. w;
  serve_http = λ p addr w. w;
  wait = λ w. w;
  shutdown_http = λ w. w;
}

abbrev both : ServeFlags
both = record {
  sandbox = default_flags;
  min = pos 1;
  max = pos 4;
  idle = pos 300;
  unix = bytes "/s";
  http = bytes "0.0.0.0:80";
  allow_remote = false;
}

-- It is refused when the socket is served by then, and the socket stays.
left_socket :
    (run_serve net host both 0).1.deeds
    ≡ pool_opened
      ∷ socket_listened (bytes "/s")
      ∷ socket_restricted (bytes "/s")
      ∷ socket_served (bytes "/s")
      ∷ pool_closed
      ∷ []
unfolding run_serve start_unix start_http is_loopback_addr is_loopback_host trim_left trim_end
    build_opts binds_of bad_entry is_space text_eq
left_socket = refl

run_serve_deeds_example :
    (((run_serve net host both 0).1.deeds ≡ [])
      × (((run_serve net host both 0).0 ≡ pos 1) ⊎ ((run_serve net host both 0).0 ≡ pos 2)))
    ⊎ ((mid : List Deed) × ((run_serve net host both 0).1.deeds
          ≡ pool_opened ∷ mid ++ (pool_closed ∷ []))
        × Served net both (run_serve net host both 0).0 mid)
run_serve_deeds_example = run_serve_deeds net host both 0

-- Holders are numbers, and so is the world: the number of holders made so far.
abbrev backend : PoolImpl ℕ ℕ
backend = record {
  new_impl = λ w. (ok w, w + 1);
  run = λ i ctx job w.
      (record { result = no_result; failure = none; out = bytes "hi"; err_out = [] }, w);
  cleanup = λ i w. w;
  check_holder = λ i w. (none, w);
  close = λ i w. (none, w);
}

abbrev decode : Text → Fallible RunRequest
decode t =
    if text_eq t (bytes "{}")
    then ok (record { cmd = bytes "ls" ∷ []; env = []; stdin = []; timeout = [] })
    else err (external "unexpected EOF")

abbrev day : List Arrival
day =
    by_http background (pos 1) 1 receive
      (record { path = bytes "/run"; method = bytes "POST"; content = bytes "{}" })
    ∷ tick 5
    ∷ by_socket (pos 9) (pos 12) 9 receive (bytes "[")
    ∷ []

-- A system on which the socket is served.
abbrev outside : Host (Unit {0}) ℕ
outside = record {
  new_pool = λ o cfg w. (ok tt, w);
  close_pool = λ p w. w;
  exists_path = λ path w. true;
  remove = λ path w. w + 1;
  listen_unix = λ path w. (none, w);
  chmod = λ path w. (none, w);
  close_listener = λ w. w;
  serve_unix = λ p w. w;
  serve_http = λ p addr w. w;
  wait = λ w. w;
  shutdown_http = λ w. w;
}

abbrev bad_duration : Text → Fallible ℤ
bad_duration t = err (external "invalid duration")

serve_session-IsSpent_example :
    IsSpent backend
      (λ i. i)
      (log_meter backend (λ i. i))
      (serve_session backend bad_duration decode net outside both 0 day day 0 0)
serve_session-IsSpent_example =
    serve_session-IsSpent backend bad_duration decode (λ i. i) net outside 0 day day both 0 0
