-- ===== src/Docker.antt =====
-- pkg/sandbox/seccomp.go, dockerapi.go and pooldocker.go: what is asked of a Docker or podman daemon.
-- `Engine` is what the code uses of the moby client and of the system; `W` is the world behind it.
pub mod Seccomp
pub mod Profile
pub mod Backend
pub mod Holder
pub mod Cleanup
pub mod Outcome
pub mod Logged
pub mod Fleet
mod Tests
