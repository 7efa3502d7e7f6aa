-- ===== src/Cli/Mcp.antt =====
-- cmd/sandbox/mcp.go: `sandbox mcp` from its parsed flags to its exit code. `P` is a pool and `W` the
-- world outside the process.
pub mod Session
pub mod Spent
pub mod Containers
use podman_sandbox_runner.Base.{
  ℤ, pos, Bool, false, ◌||◌, Option, none, some, [], Text, bytes, contains, if◌then◌else◌,
}
use podman_sandbox_runner.Sandbox.{Error, Fallible, ok, err, Opts}
use podman_sandbox_runner.Pool.Config.{PoolConfig}
use podman_sandbox_runner.Cli.Flags.{SandboxFlags, build_opts}

pub record McpFlags : Type 0 where
  pub sandbox : SandboxFlags
  pub use_pool : Bool
  pub min : ℤ
  pub max : ℤ
  pub idle : ℤ

-- How the server's `Run` ends: its error, whether that is io.EOF, and whether the process was told to
-- stop.
pub record ServerEnd : Type 0 where
  pub failure : Option Error
  pub is_eof : Bool
  pub cancelled : Bool

-- What the code uses of the rest of the system. `serve` is the server that buildMCPServer makes of the
-- options and the pool, where there is one; `message` is `err.Error()`.
pub record Host (P W : Type 0) : Type 0 where
  pub new_pool : Opts → PoolConfig → W → Fallible P × W
  pub close_pool : P → W → W
  pub serve : Opts → Option P → W → ServerEnd × W
  pub message : Error → Text

module _ {P W : Type 0} (host : Host P W) where
  abbrev is_disconnect : Error → Bool
  is_disconnect e =
      contains (host.message e) (bytes "server is closing")
      || contains (host.message e) (bytes "connection closed")

  unfoldable pub exit_code : ServerEnd → ℤ
  exit_code end = elim end.failure [
    | none ↦ pos 0
    | some e ↦
        if end.cancelled || end.is_eof then pos 0 else if is_disconnect e then pos 0 else pos 1
  ]

  abbrev pub ended : ServerEnd × W → ℤ × W
  ended (end, w) = (exit_code end, w)

  -- The deferred `Close` of the pool.
  abbrev pub closing_pool : P → ℤ × W → ℤ × W
  closing_pool p (code, w) = (code, host.close_pool p w)

  abbrev pub pooled : Opts → Fallible P × W → ℤ × W
  pooled o (err e, w) = (pos 1, w)
  pooled o (ok p, w) = closing_pool p (ended (host.serve o (some p) w))

  unfoldable pub run_mcp : McpFlags → W → ℤ × W
  run_mcp f w = elim (build_opts f.sandbox [] false) [
    | err e ↦ (pos 2, w)
    | ok o ↦
        if f.use_pool
        then pooled o
            (host.new_pool o (record { min = f.min; max = f.max; idle_timeout = f.idle }) w)
        else ended (host.serve o none w)
  ]
