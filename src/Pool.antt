-- ===== src/Pool.antt =====
-- pkg/sandbox/pool.go: the pool of warm holders. The state behind the mutex and the channel is
-- `State`; its children give the operations of one goroutine, and the interleavings of many.
pub mod Config
pub mod State
pub mod Ops
pub mod Invariant
pub mod Acquire
pub mod Runs
pub mod Reaper
pub mod Ticker
pub mod Closing
pub mod Hygiene
pub mod Backends
pub mod Creation
pub mod Histories
pub mod Accounts
pub mod Timeouts
pub mod Threads
mod Tests
