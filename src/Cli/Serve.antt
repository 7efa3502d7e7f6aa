-- ===== src/Cli/Serve.antt =====
-- cmd/sandbox/serve.go: `sandbox serve` from its parsed flags to its exit code. `P` is a pool and `W`
-- the world outside the process.
pub mod Listeners
pub mod Deeds
pub mod Session
pub mod Containers
pub mod Workloads
mod Tests
use podman_sandbox_runner.Base.{
  ℤ, pos, Bool, true, false, ◌&&◌, ◌||◌, not, Option, none, some, List, [], ◌∷◌, ◌++◌, Text, bytes,
  text_eq, is_empty, is_space, if◌then◌else◌,
}
use podman_sandbox_runner.Sandbox.{Error, Fallible, ok, err, Opts}
use podman_sandbox_runner.Pool.Config.{PoolConfig}
use podman_sandbox_runner.Cli.Flags.{SandboxFlags, build_opts}

pub record ServeFlags : Type 0 where
  pub sandbox : SandboxFlags
  pub min : ℤ
  pub max : ℤ
  pub idle : ℤ
  pub unix : Text
  pub http : Text
  pub allow_remote : Bool

-- What the process does to the world, in order.
pub data Deed : Type 0 where
  pool_opened pool_closed : Deed
  stale_removed : Text → Deed
  socket_listened socket_restricted socket_served socket_removed : Text → Deed
  listener_closed : Deed
  http_served : Text → Deed
  http_shut : Deed

-- What the code uses of package net. `parse_ip` gives, for a text that is an address, whether it is a
-- loopback address.
pub record Net : Type 0 where
  pub split_host : Text → Fallible Text
  pub parse_ip : Text → Option Bool

-- What the code uses of the rest of the system. `wait` is the end of the wait for a signal, with the
-- error of a listener, if that has ended it.
pub record Host (P W : Type 0) : Type 0 where
  pub new_pool : Opts → PoolConfig → W → Fallible P × W
  pub close_pool : P → W → W
  pub exists_path : Text → W → Bool
  pub remove : Text → W → W
  pub listen_unix : Text → W → Option Error × W
  pub chmod : Text → W → Option Error × W
  pub close_listener : W → W
  pub serve_unix : P → W → W
  pub serve_http : P → Text → W → W
  pub wait : W → W
  pub shutdown_http : W → W

-- strings.TrimSpace, on ASCII
unfoldable pub trim_left : Text → Text
trim_left [] = []
trim_left (c ∷ s) = let rest = trim_left s in if is_space c then rest else c ∷ s

unfoldable pub trim_end : Text → Text
trim_end [] = []
trim_end (c ∷ s) = elim (trim_end s) [ [] ↦ if is_space c then [] else c ∷ [] | d ∷ r ↦ c ∷ d ∷ r ]

abbrev pub trim_space : Text → Text
trim_space s = trim_end (trim_left s)

unfoldable pub is_loopback_host : Net → Text → Bool
is_loopback_host net host =
    if is_empty host
    then false
    else if text_eq host (bytes "localhost")
    then true
    else elim (net.parse_ip host) [ none ↦ false | some b ↦ b ]

unfoldable pub is_loopback_addr : Net → Text → Bool
is_loopback_addr net addr =
    is_loopback_host net (trim_space (elim (net.split_host addr) [ ok host ↦ host | err e ↦ addr ]))

-- The world with what was done to it, and the exit code of the process.
pub record Course (W : Type 0) : Type 0 where
  pub world : W
  pub deeds : List Deed

abbrev pub does : {W : Type 0} → Deed → W → Course W → Course W
does d w c = record { world = w; deeds = c.deeds ++ d ∷ [] }

module _ {P W : Type 0} (net : Net) (host : Host P W) where
  -- Whether -http asks for an address that `runServe` refuses.
  abbrev pub is_refused : ServeFlags → Bool
  is_refused f = not f.allow_remote && not (is_loopback_addr net f.http)

  -- The graceful shutdown of each listener that was started.
  unfoldable pub shut_http : ServeFlags → Course W → Course W
  shut_http f c = if is_empty f.http then c else does http_shut (host.shutdown_http c.world) c

  unfoldable pub shut_unix : ServeFlags → Course W → Course W
  shut_unix f c =
      if is_empty f.unix
      then c
      else does (socket_removed f.unix) (host.remove f.unix (host.close_listener c.world))
          (does listener_closed (host.close_listener c.world) c)

  -- From the wait on.
  unfoldable pub await_end : ServeFlags → Course W → ℤ × Course W
  await_end f c = (pos 0, shut_unix f (shut_http f (record c { world = host.wait c.world })))

  unfoldable pub start_http : P → ServeFlags → Course W → ℤ × Course W
  start_http p f c =
      if is_empty f.http
      then await_end f c
      else if is_refused f
      then (pos 2, c)
      else await_end f (does (http_served f.http) (host.serve_http p f.http c.world) c)

  abbrev pub restricted : P → ServeFlags → Option Error × W → Course W → ℤ × Course W
  restricted p f (some e, w) c = (pos 1, does listener_closed (host.close_listener w) c)
  restricted p f (none, w) c =
      start_http p f
        (does (socket_served f.unix) (host.serve_unix p w) (does (socket_restricted f.unix) w c))

  abbrev pub listened : P → ServeFlags → Option Error × W → Course W → ℤ × Course W
  listened p f (some e, w) c = (pos 1, record c { world = w })
  listened p f (none, w) c =
      restricted p f (host.chmod f.unix w) (does (socket_listened f.unix) w c)

  -- A stale socket of a previous run is removed.
  abbrev pub cleared : ServeFlags → Course W → Course W
  cleared f c =
      if host.exists_path f.unix c.world
      then does (stale_removed f.unix) (host.remove f.unix c.world) c
      else c

  unfoldable pub start_unix : P → ServeFlags → Course W → ℤ × Course W
  start_unix p f c =
      if is_empty f.unix
      then start_http p f c
      else listened p f (host.listen_unix f.unix (cleared f c).world) (cleared f c)

  -- The deferred `Close` of the pool.
  abbrev pub closing_pool : P → ℤ × Course W → ℤ × Course W
  closing_pool p (code, c) = (code, does pool_closed (host.close_pool p c.world) c)

  abbrev pub pooled : ServeFlags → Fallible P × W → ℤ × Course W
  pooled f (err e, w) = (pos 1, record { world = w; deeds = [] })
  pooled f (ok p, w) =
      closing_pool p (start_unix p f (record { world = w; deeds = pool_opened ∷ [] }))

  unfoldable pub run_serve : ServeFlags → W → ℤ × Course W
  run_serve f w =
      if is_empty f.unix && is_empty f.http
      then (pos 2, record { world = w; deeds = [] })
      else elim (build_opts f.sandbox [] false) [
        | err e ↦ (pos 2, record { world = w; deeds = [] })
        | ok o ↦
            pooled f
              (host.new_pool o (record { min = f.min; max = f.max; idle_timeout = f.idle }) w)
      ]
