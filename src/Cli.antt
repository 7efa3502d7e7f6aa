-- ===== src/Cli.antt =====
-- The command line, cmd/sandbox: the flags that become `Opts`, the tools of the MCP server, and the
-- exit codes of `run`.
pub mod Flags
pub mod Tools
pub mod Process
pub mod Serve
pub mod Mcp
pub mod Dispatch
pub mod Bench
mod Tests
