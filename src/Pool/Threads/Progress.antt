-- ===== src/Pool/Threads/Progress.antt =====
-- Whether the goroutines of the pool can go on.
use podman_sandbox_runner.Base.{◌≡◌, []}
use podman_sandbox_runner.Pool.State.{State}
use podman_sandbox_runner.Pool.Threads.{Shared, Pc, waiting, Move}

-- A step that a goroutine can take.
pub record Next (s : Shared) (pc : Pc) : Type 0 where
  pub state : Shared
  pub at : Pc
  pub move : Move s pc state at

-- A goroutine that waits in the second select of `acquire` while no holder is parked.
abbrev pub IsBlocked : Shared → Pc → Type 0
IsBlocked s pc = (pc ≡ waiting) × (s.state.idle ≡ [])
