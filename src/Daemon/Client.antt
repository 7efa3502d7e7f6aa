-- ===== src/Daemon/Client.antt =====
-- pkg/sandbox/client.go: `Submit` over the two transports. `Net` is what it uses of net, net/http
-- and encoding/json; `C` is an open connection and `W` the world outside the process.
use podman_sandbox_runner.Base.{
  ℤ, pos, ◌+ℤ◌, ◌||◌, Option, none, some, [], ◌∷◌, ◌++◌, Text, bytes, has_prefix, trim_prefix,
  trim_right, if◌then◌else◌,
}
use podman_sandbox_runner.Sandbox.{Error, errorf, wrapf, Fallible, ok, err}
use podman_sandbox_runner.Pool.Ops.{Context}
use podman_sandbox_runner.Daemon.{RunRequest, RunResponse}

pub record Net (C W : Type 0) : Type 0 where
  pub marshal : RunRequest → Fallible Text
  pub new_request : Text → Text → Fallible (Unit {0})
  pub do_post : Context → Text → Text → W → Fallible Text × W
  pub dial_unix : Context → Text → W → Fallible C × W
  pub set_deadline : C → ℤ → W → W
  pub encode : C → RunRequest → W → Option Error × W
  pub receive : C → W → Fallible Text × W
  pub decode : Text → Fallible RunResponse

-- 10 minutes in nanoseconds.
abbrev pub ten_minutes : ℤ
ten_minutes = pos 600000000000

-- `strings.TrimRight(base, "/") + "/run"`
unfoldable pub run_url : Text → Text
run_url base = trim_right base b'/' ++ bytes "/run"

module _ {C W : Type 0} (net : Net C W) where
  abbrev pub posted : Fallible Text × W → Fallible RunResponse × W
  posted (err e, w) = (err (wrapf "submit: %w" [] [] e), w)
  posted (ok text, w) = elim (net.decode text) [
    | err e ↦ (err (wrapf "submit: decode: %w" [] [] e), w)
    | ok rr ↦ (ok rr, w)
  ]

  unfoldable pub submit_http : Context → Text → RunRequest → W → Fallible RunResponse × W
  submit_http ctx base req w = elim (net.marshal req) [
    | err e ↦ (err (wrapf "submit: marshal: %w" [] [] e), w)
    | ok body ↦ elim (net.new_request (run_url base) body) [
      | err e ↦ (err (wrapf "submit: request: %w" [] [] e), w)
      | ok _ ↦ posted (net.do_post ctx (run_url base) body w)
    ]
  ]

  -- The bound on the exchange: the caller's deadline, or ten minutes.
  unfoldable pub exchange_deadline : Context → ℤ → ℤ
  exchange_deadline ctx now = elim ctx.deadline [ none ↦ now +ℤ ten_minutes | some t ↦ t ]

  abbrev pub received : Fallible Text × W → Fallible RunResponse × W
  received (err e, w) = (err (wrapf "submit: decode: %w" [] [] e), w)
  received (ok text, w) = elim (net.decode text) [
    | err e ↦ (err (wrapf "submit: decode: %w" [] [] e), w)
    | ok rr ↦ (ok rr, w)
  ]

  abbrev encoded : C → Option Error × W → Fallible RunResponse × W
  encoded c (some e, w) = (err (wrapf "submit: encode: %w" [] [] e), w)
  encoded c (none, w) = received (net.receive c w)

  abbrev dialled : Context → ℤ → Text → RunRequest → Fallible C × W → Fallible RunResponse × W
  dialled ctx now path req (err e, w) = (err (wrapf "submit: dial %s: %w" (path ∷ []) [] e), w)
  dialled ctx now path req (ok c, w) =
      encoded c (net.encode c req (net.set_deadline c (exchange_deadline ctx now) w))

  unfoldable pub submit_unix : Context → ℤ → Text → RunRequest → W → Fallible RunResponse × W
  submit_unix ctx now path req w = dialled ctx now path req (net.dial_unix ctx path w)

  unfoldable pub submit : Context → ℤ → Text → RunRequest → W → Fallible RunResponse × W
  submit ctx now endpoint req w =
      if has_prefix endpoint (bytes "unix://")
      then submit_unix ctx now (trim_prefix endpoint (bytes "unix://")) req w
      else if has_prefix endpoint (bytes "http://") || has_prefix endpoint (bytes "https://")
      then submit_http ctx endpoint req w
      else (
        err (errorf "submit: endpoint %q must start with unix:// or http://" (endpoint ∷ []) []),
        w,
      )
