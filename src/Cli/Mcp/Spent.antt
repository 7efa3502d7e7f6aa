-- ===== src/Cli/Mcp/Spent.antt =====
-- What `sandbox mcp` leaves of its pool.
use podman_sandbox_runner.Base.{
  ℕ, ◌+◌, ◌≡◌, arith, ℤ, true, false, refl, inl, inr, Option, List, [], Text, Bool-cases,
}
use podman_sandbox_runner.Sandbox.{Fallible, ok, err, Fallible-cases, Opts, Ran, Error}
use podman_sandbox_runner.Pool.Ops.{PoolImpl, Pool, Context, Event, empty_pool}
use podman_sandbox_runner.Pool.Accounts.{Meter, log_meter}
use podman_sandbox_runner.Pool.Accounts.Sound.{
  IsSound, IsSpent, run-IsSound, reap_idle-IsSound, close-IsSpent, Made, new_pool-Made,
}
use podman_sandbox_runner.Cli.Flags.{build_opts}
use podman_sandbox_runner.Cli.Mcp.{McpFlags, ServerEnd, run_mcp, pooled}
use podman_sandbox_runner.Cli.Mcp.Session.{McpEvent, stdio, mcp_session, receives_all_keeps}

module _ {I W : Type 0} (ops : PoolImpl I W)
    (sandbox_run : Context → Opts → Option Text → W → Ran × W) (sprint : ℤ → Text) (version : Text)
    (message : Error → Text) (f : I → ℕ) (m : Meter ops f) where
  abbrev Spent : Pool I W → Type 0
  Spent = IsSpent ops f m

  -- A one-shot run adds as much to both sides of the books.
  abbrev pub Beside : Type 0
  Beside =
      (ctx : Context) (o : Opts) (stdin : Option Text) (w : W) (l : List (Event I))
      → m.credit (sandbox_run ctx o stdin w).1 l + m.debit w l
        ≡ m.debit (sandbox_run ctx o stdin w).1 l + m.credit w l

  pooled-IsSpent :
      (now : ℕ) (events : List McpEvent) (end : ServerEnd) (o : Opts)
      (made : Fallible (Unit {0}) × Pool I W)
      → Made ops f m made
      → Spent (pooled (stdio ops sandbox_run sprint version message now events end) o made).1
  pooled-IsSpent now events end o (err e, p) v = v
  pooled-IsSpent now events end o (ok _, p) v = close-IsSpent ops f m _ (
      receives_all_keeps ops sandbox_run sprint version message (IsSound ops f m) o true p events
        (
          (λ p ctx now sel job. run-IsSound ops f m ctx now sel job p),
          λ p now. reap_idle-IsSound ops f m now p,
        )
        v)

  run_mcp-IsSpent :
      (flags : McpFlags) (now : ℕ) (events : List McpEvent) (end : ServerEnd) (p : Pool I W)
      → m.credit p.world [] ≡ m.debit p.world []
      → Beside
      → Spent p
      → Spent (run_mcp (stdio ops sandbox_run sprint version message now events end) flags p).1
  unfolding run_mcp
  run_mcp-IsSpent flags now events end p start beside v =
      elim (Fallible-cases (build_opts flags.sandbox [] false)) [
        | inr (e, q) ↦ rw (q, run_mcp) v
        | inl (o, q) ↦ elim (Bool-cases flags.use_pool) [
          | inl u ↦
              rw (q, u, run_mcp)
                (pooled-IsSpent now events end o _ (new_pool-Made ops f m o _ now p.world start))
          | inr u ↦
              rw (q, u, run_mcp)
                (receives_all_keeps ops sandbox_run sprint version message Spent o false p events
                  (λ p ctx o stdin u.
                    (omega (arith, beside ctx o stdin p.world p.log, u.0), u.1, u.2))
                  v)
        ]
      ]

  -- By any books that are even in the beginning, and in the eyes of a one-shot run.
  pub mcp_even :
      (flags : McpFlags) (now : ℕ) (events : List McpEvent) (end : ServerEnd) (w : W)
      → m.credit w [] ≡ m.debit w []
      → Beside
      → IsSpent ops f m (mcp_session ops sandbox_run sprint version message flags now events end w)
  unfolding mcp_session empty_pool
  mcp_even flags now events end w start beside =
      run_mcp-IsSpent flags now events end _ start beside (start, refl, refl)

module _ {I W : Type 0} (ops : PoolImpl I W)
    (sandbox_run : Context → Opts → Option Text → W → Ran × W) (sprint : ℤ → Text) (version : Text)
    (message : Error → Text) (f : I → ℕ) where
  -- `sandbox mcp`, in either mode, with whatever calls of its tools, sound or not, that do not overlap
  -- and end before the pool is closed, between any ticks of the reaper, however its server ends: it ends with a pool none of whose
  -- holders is registered, with as many of the weight `f`, and so of each, closed as were made, and
  -- without a panic. In one-shot mode, or where its flags or its pool are refused, it has none left
  -- either.
  pub mcp_session-IsSpent :
      (flags : McpFlags) (now : ℕ) (events : List McpEvent) (end : ServerEnd) (w : W)
      → IsSpent ops f
          (log_meter ops f)
          (mcp_session ops sandbox_run sprint version message flags now events end w)
  mcp_session-IsSpent flags now events end w =
      mcp_even ops sandbox_run sprint version message f (log_meter ops f) flags now events end w
        refl (λ ctx o stdin w l. omega arith)
