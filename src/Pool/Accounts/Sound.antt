-- ===== src/Pool/Accounts/Sound.antt =====
-- What a client of a pool relies on, from `NewPool` to `Close`: the invariant together with the accounts.
use podman_sandbox_runner.Base.{ℕ, pos_part, false, ◌≡◌, []}
use podman_sandbox_runner.Sandbox.{Fallible, ok, err, Opts}
use podman_sandbox_runner.Pool.Config.{PoolConfig}
use podman_sandbox_runner.Pool.Ops.{
  PoolImpl, Pool, Context, Job, Select, run, reap_idle, close, new_pool,
}
use podman_sandbox_runner.Pool.Invariant.{PoolInv}
use podman_sandbox_runner.Pool.Runs.{run-PoolInv}
use podman_sandbox_runner.Pool.Reaper.{reap_idle-PoolInv}
use podman_sandbox_runner.Pool.Closing.{close-IsShut}
use podman_sandbox_runner.Pool.Creation.{Created, new_pool-Created}
use podman_sandbox_runner.Pool.Accounts.{Meter, IsBalanced, IsSettled, close-settles}
use podman_sandbox_runner.Pool.Accounts.Calls.{run-IsBalanced, reap_idle-IsBalanced}
use podman_sandbox_runner.Pool.Accounts.Settled.{Opened, new_pool-Opened}

module _ {I W : Type 0} (ops : PoolImpl I W) (f : I → ℕ) (m : Meter ops f) where
  abbrev pub IsSound : Pool I W → Type 0
  IsSound p = PoolInv p × IsBalanced ops f m p

  -- Nothing of a pool is left over: by the weight `f`, what was closed is what was made.
  abbrev pub IsSpent : Pool I W → Type 0
  IsSpent p = IsSettled ops f m p × (p.state.all ≡ []) × (p.panicked ≡ false)

  pub run-IsSound :
      (ctx : Context) (now : ℕ) (sel : Select) (job : Job) (p : Pool I W)
      → IsSound p
      → IsSound (run ops ctx now sel job p).1
  run-IsSound ctx now sel job p (v, b) =
      (run-PoolInv ops ctx now sel job p v, run-IsBalanced ops f m ctx now sel job p v b)

  pub reap_idle-IsSound : (now : ℕ) (p : Pool I W) → IsSound p → IsSound (reap_idle ops now p)
  reap_idle-IsSound now p (v, b) =
      (reap_idle-PoolInv ops now p v, reap_idle-IsBalanced ops f m now p v b)

  pub close-IsSpent : (p : Pool I W) → IsSound p → IsSpent (close ops p).1
  close-IsSpent p (v, b) =
      let shut = close-IsShut ops p v in
      (close-settles ops f m p v b, shut.none_registered, shut.calm)

  -- What `NewPool` answers with: a sound pool, or one that is spent already.
  abbrev pub Made : Fallible (Unit {0}) × Pool I W → Type 0
  Made (ok _, p) = IsSound p
  Made (err e, p) = IsSpent p

  both-Made :
      (n : ℕ) (q : Fallible (Unit {0}) × Pool I W) → Created ops n q → Opened ops f m q → Made q
  both-Made n (ok _, p) v b = (v.inv, b)
  both-Made n (err e, p) (_, empty, calm) b = (b, empty, calm)

  pub new_pool-Made :
      (o : Opts) (cfg : PoolConfig) (now : ℕ) (w : W)
      → m.credit w [] ≡ m.debit w []
      → Made (new_pool ops o cfg now w)
  new_pool-Made o cfg now w start =
      both-Made (pos_part cfg.min) (new_pool ops o cfg now w) (new_pool-Created ops o cfg now w)
        (new_pool-Opened ops f m o cfg now w start)
