-- ===== src/Daemon.antt =====
-- The daemon: the wire types of pkg/sandbox/server.go, its server, and the client of
-- pkg/sandbox/client.go.
pub mod Server
pub mod Client
pub mod Laws
pub mod Delivery
pub mod Lifetime
mod Tests
use podman_sandbox_runner.Base.{ℤ, pos, Bool, false, Option, some, List, [], Text}
use podman_sandbox_runner.Sandbox.{Error, Ran}

pub record RunRequest : Type 0 where
  pub cmd : List Text
  pub env : List Text
  pub stdin : Text
  pub timeout : Text

-- `Error` is none for the empty string.
pub record RunResponse : Type 0 where
  pub exit_code : ℤ
  pub stdout : Text
  pub stderr : Text
  pub timed_out : Bool
  pub oom_killed : Bool
  pub error : Option Error

-- `RunResponse{Error: …}`
abbrev pub error_response : Error → RunResponse
error_response e = record {
  exit_code = pos 0;
  stdout = [];
  stderr = [];
  timed_out = false;
  oom_killed = false;
  error = some e;
}
