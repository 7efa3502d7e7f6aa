-- ===== src/Cli/Dispatch.antt =====
-- cmd/sandbox/main.go: which subcommand the arguments of the process ask for.
use podman_sandbox_runner.Base.{List, [], ◌∷◌, Text, bytes, text_eq, if◌then◌else◌}

-- The subcommands with the arguments that are left for them.
pub data Subcommand : Type 0 where
  version : Subcommand
  bench serve mcp run : List Text → Subcommand
  usage : Subcommand

-- `os.Args` without the name of the program.
unfoldable pub subcommand : List Text → Subcommand
subcommand [] = usage
subcommand (name ∷ args) =
    if text_eq name (bytes "version")
    then version
    else if text_eq name (bytes "bench")
    then bench args
    else if text_eq name (bytes "serve")
    then serve args
    else if text_eq name (bytes "mcp")
    then mcp args
    else if text_eq name (bytes "run")
    then run args
    else usage
