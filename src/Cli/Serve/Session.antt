-- ===== src/Cli/Serve/Session.antt =====
-- cmd/sandbox/serve.go over pkg/sandbox/server.go and pool.go: `sandbox serve` from its flags to its
-- exit, with the requests that its daemon receives.
use podman_sandbox_runner.Base.{
  ℕ, ℤ, false, ◌&&◌, ◌≡◌, refl, sym, inl, inr, Option, none, some, List, [], Text, is_empty,
  Bool-cases,
}
use mathlib.Core.Path.{subst}
use podman_sandbox_runner.Sandbox.{Error, Fallible, ok, err, Fallible-cases}
use podman_sandbox_runner.Pool.Ops.{PoolImpl, Pool, close, new_pool, empty_pool}
use podman_sandbox_runner.Pool.Accounts.{Meter, log_meter}
use podman_sandbox_runner.Pool.Accounts.Sound.{IsSound, IsSpent, close-IsSpent, Made, new_pool-Made}
use podman_sandbox_runner.Daemon.{RunRequest}
use podman_sandbox_runner.Daemon.Lifetime.{Arrival, receives_all, receives_all-IsSound}
use podman_sandbox_runner.Cli.Flags.{build_opts}
use podman_sandbox_runner.Cli.Serve.{
  ServeFlags, Net, Host, Course, shut_http, shut_unix, await_end, start_http, restricted, listened,
  cleared, start_unix, pooled, is_refused, run_serve,
}

module _ {I W V : Type 0} (ops : PoolImpl I W) (parse_duration : Text → Fallible ℤ)
    (decode : Text → Fallible RunRequest) where
  -- The pool and its world beside the rest of the system, `outside`. Requests come in `early`, from
  -- where the socket is served on, and while the process waits.
  abbrev pub daemon_host :
      ℕ → List Arrival → List Arrival → Host (Unit {0}) V → Host (Unit {0}) (Pool I W × V)
  daemon_host now early later outside = record {
    new_pool = λ o cfg s.
        ((new_pool ops o cfg now s.0.world).0, ((new_pool ops o cfg now s.0.world).1, s.1));
    close_pool = λ p s. ((close ops s.0).1, s.1);
    exists_path = λ path s. outside.exists_path path s.1;
    remove = λ path s. (s.0, outside.remove path s.1);
    listen_unix =
        λ path s. ((outside.listen_unix path s.1).0, (s.0, (outside.listen_unix path s.1).1));
    chmod = λ path s. ((outside.chmod path s.1).0, (s.0, (outside.chmod path s.1).1));
    close_listener = λ s. (s.0, outside.close_listener s.1);
    serve_unix =
        λ p s. (receives_all ops parse_duration decode s.0 early, outside.serve_unix p s.1);
    serve_http = λ p addr s. (s.0, outside.serve_http p addr s.1);
    wait = λ s. (receives_all ops parse_duration decode s.0 later, outside.wait s.1);
    shutdown_http = λ s. (s.0, outside.shutdown_http s.1);
  }

  -- The pool at the end of the process that starts in the worlds `w` and `v`; an empty one where none is
  -- made.
  unfoldable pub serve_session :
      Net → Host (Unit {0}) V → ServeFlags → ℕ → List Arrival → List Arrival → W → V → Pool I W
  serve_session net outside flags now early later w v =
      (run_serve net (daemon_host now early later outside) flags (
        empty_pool ops (record { min = flags.min; max = flags.max; idle_timeout = flags.idle }) w,
        v,
      )).1.world.0

module _ {I W V : Type 0} (ops : PoolImpl I W) (parse_duration : Text → Fallible ℤ)
    (decode : Text → Fallible RunRequest) (f : I → ℕ) (m : Meter ops f) (net : Net)
    (outside : Host (Unit {0}) V) (now : ℕ) (early later : List Arrival) where
  abbrev around : Host (Unit {0}) (Pool I W × V)
  around = daemon_host ops parse_duration decode now early later outside

  -- A course whose pool is sound.
  abbrev IsGood : ℤ × Course (Pool I W × V) → Type 0
  IsGood q = IsSound ops f m q.1.world.0

  received :
      (l : List Arrival) (p : Pool I W)
      → IsSound ops f m p
      → IsSound ops f m (receives_all ops parse_duration decode p l)
  received l p v = receives_all-IsSound ops parse_duration decode f m p l v

  await_end-IsGood :
      (flags : ServeFlags) (c : Course (Pool I W × V))
      → IsSound ops f m c.world.0
      → IsGood (await_end net around flags c)
  unfolding await_end shut_unix shut_http
  await_end-IsGood flags c v = elim (Bool-cases (is_empty flags.unix)) [
    | inl u ↦ elim (Bool-cases (is_empty flags.http)) [
      | inl h ↦ rw (u, h, await_end, shut_unix, shut_http) (received later c.world.0 v)
      | inr h ↦ rw (u, h, await_end, shut_unix, shut_http) (received later c.world.0 v)
    ]
    | inr u ↦ elim (Bool-cases (is_empty flags.http)) [
      | inl h ↦ rw (u, h, await_end, shut_unix, shut_http) (received later c.world.0 v)
      | inr h ↦ rw (u, h, await_end, shut_unix, shut_http) (received later c.world.0 v)
    ]
  ]

  start_http-IsGood :
      (flags : ServeFlags) (c : Course (Pool I W × V))
      → IsSound ops f m c.world.0
      → IsGood (start_http net around tt flags c)
  unfolding start_http
  start_http-IsGood flags c v = elim (Bool-cases (is_empty flags.http)) [
    | inl h ↦ rw (h, start_http) (await_end-IsGood flags c v)
    | inr h ↦ elim (Bool-cases (is_refused net around flags)) [
      | inl r ↦ rw (h, r, start_http) v
      | inr r ↦ rw (h, r, start_http) (await_end-IsGood flags _ v)
    ]
  ]

  restricted-IsGood :
      (flags : ServeFlags) (r : Option Error × (Pool I W × V)) (c : Course (Pool I W × V))
      → IsSound ops f m r.1.0
      → IsGood (restricted net around tt flags r c)
  restricted-IsGood flags (some e, s) c v = v
  restricted-IsGood flags (none, s) c v = start_http-IsGood flags _ (received early s.0 v)

  listened-IsGood :
      (flags : ServeFlags) (r : Option Error × (Pool I W × V)) (c : Course (Pool I W × V))
      → IsSound ops f m r.1.0
      → IsGood (listened net around tt flags r c)
  listened-IsGood flags (some e, s) c v = v
  listened-IsGood flags (none, s) c v = restricted-IsGood flags _ _ v

  cleared_same :
      (flags : ServeFlags) (c : Course (Pool I W × V))
      → (cleared net around flags c).world.0 ≡ c.world.0
  cleared_same flags c = elim (Bool-cases (outside.exists_path flags.unix c.world.1)) [
    | inl e ↦ rw e refl
    | inr e ↦ rw e refl
  ]

  start_unix-IsGood :
      (flags : ServeFlags) (c : Course (Pool I W × V))
      → IsSound ops f m c.world.0
      → IsGood (start_unix net around tt flags c)
  unfolding start_unix
  start_unix-IsGood flags c v = elim (Bool-cases (is_empty flags.unix)) [
    | inl u ↦ rw (u, start_unix) (start_http-IsGood flags c v)
    | inr u ↦
        rw (u, start_unix)
          (listened-IsGood flags _ (cleared net around flags c)
            (subst (IsSound ops f m) (sym (cleared_same flags c)) v))
  ]

  pooled-IsSpent :
      (flags : ServeFlags) (made : Fallible (Unit {0}) × Pool I W) (s : V)
      → Made ops f m made
      → IsSpent ops f m (pooled net around flags (made.0, (made.1, s))).1.world.0
  pooled-IsSpent flags (err e, p) s v = v
  pooled-IsSpent flags (ok tt, p) s v = close-IsSpent ops f m _ (start_unix-IsGood flags _ v)

  run_serve-IsSpent :
      (flags : ServeFlags) (s : Pool I W × V)
      → m.credit s.0.world [] ≡ m.debit s.0.world []
      → IsSpent ops f m s.0
      → IsSpent ops f m (run_serve net around flags s).1.world.0
  unfolding run_serve
  run_serve-IsSpent flags s start v =
      elim (Bool-cases (is_empty flags.unix && is_empty flags.http)) [
        | inl n ↦ rw (n, run_serve) v
        | inr n ↦ elim (Fallible-cases (build_opts flags.sandbox [] false)) [
          | inr (e, q) ↦ rw (n, q, run_serve) v
          | inl (o, q) ↦
              rw (n, q, run_serve)
                (pooled-IsSpent flags (new_pool ops o _ now s.0.world) s.1
                  (new_pool-Made ops f m o _ now s.0.world start))
        ]
      ]

  -- By any books that are even in the beginning.
  pub serve_even :
      (flags : ServeFlags) (w : W) (v : V)
      → m.credit w [] ≡ m.debit w []
      → IsSpent ops f m
          (serve_session ops parse_duration decode net outside flags now early later w v)
  unfolding serve_session empty_pool
  serve_even flags w v start = run_serve-IsSpent flags _ start (start, refl, refl)

module _ {I W V : Type 0} (ops : PoolImpl I W) (parse_duration : Text → Fallible ℤ)
    (decode : Text → Fallible RunRequest) (f : I → ℕ) (net : Net) (outside : Host (Unit {0}) V)
    (now : ℕ) (early later : List Arrival) where
  -- `sandbox serve`, with any flags, whatever the rest of the system answers, and with any requests
  -- that do not overlap and end before the pool is closed, over the socket from where it is served on
  -- and over both transports while the process waits, ends with a
  -- pool none of whose holders is registered, with as many of the weight `f`, and so of each, closed
  -- as were made, and without a panic: also where the socket cannot be listened on or restricted, or
  -- the address is refused, with the pool open already.
  pub serve_session-IsSpent :
      (flags : ServeFlags) (w : W) (v : V)
      → IsSpent ops f
          (log_meter ops f)
          (serve_session ops parse_duration decode net outside flags now early later w v)
  serve_session-IsSpent flags w v =
      serve_even ops parse_duration decode f (log_meter ops f) net outside now early later flags w v
        refl
