-- ===== src/Pool/Histories.antt =====
-- Sequences of whole calls on a pool, one after the other.
use podman_sandbox_runner.Base.{ℕ, List, [], ◌∷◌}
use podman_sandbox_runner.Pool.Ops.{PoolImpl, Pool, Context, Job, Select, run, reap_idle, close}
use podman_sandbox_runner.Pool.Invariant.{PoolInv, IsShut}
use podman_sandbox_runner.Pool.Runs.{run-PoolInv}
use podman_sandbox_runner.Pool.Reaper.{reap_idle-PoolInv}
use podman_sandbox_runner.Pool.Closing.{close-IsShut, close-PoolInv}

pub data Call : Type 0 where
  runs : Context → ℕ → Select → Job → Call
  ticks : ℕ → Call
  closes : Call

module _ {I W : Type 0} (ops : PoolImpl I W) where
  pub step : Pool I W → Call → Pool I W
  step p (runs ctx now sel job) = (run ops ctx now sel job p).1
  step p (ticks now) = reap_idle ops now p
  step p closes = (close ops p).1

  pub history : Pool I W → List Call → Pool I W
  history p [] = p
  history p (c ∷ cs) = history (step p c) cs

  step-PoolInv : (p : Pool I W) (c : Call) → PoolInv p → PoolInv (step p c)
  unfolding step
  step-PoolInv p (runs ctx now sel job) v = run-PoolInv ops ctx now sel job p v
  step-PoolInv p (ticks now) v = reap_idle-PoolInv ops now p v
  step-PoolInv p closes v = close-PoolInv ops p v

  pub history-PoolInv : (p : Pool I W) (cs : List Call) → PoolInv p → PoolInv (history p cs)
  unfolding history
  history-PoolInv p [] v = v
  history-PoolInv p (c ∷ cs) v = history-PoolInv (step p c) cs (step-PoolInv p c v)

  -- `Close` behind any sequence of runs, reaper ticks and closes leaves a pool in which no holder is
  -- registered or parked and as many holders were closed as were made, and nothing has
  -- panicked. The pool at the start satisfies its invariant.
  pub close_after_history :
      (p : Pool I W) (cs : List Call) → PoolInv p → IsShut (close ops (history p cs)).1
  close_after_history p cs v = close-IsShut ops (history p cs) (history-PoolInv p cs v)
