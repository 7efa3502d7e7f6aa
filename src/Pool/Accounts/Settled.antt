-- ===== src/Pool/Accounts/Settled.antt =====
-- The accounts of a pool from `NewPool` on: what `NewPool` makes, and what `Close` settles.
use podman_sandbox_runner.Base.{
  ℕ, zero, suc, ◌+◌, pos, pos_part, ◌≤ℤ◌, ◌≡◌, inl, inr, Option, none, some, [], arith, Bool-cases,
  is_empty,
}
use mathlib.Core.Path.{subst}
use podman_sandbox_runner.Sandbox.{Error, Fallible, ok, err, Fallible-cases, Opts}
use podman_sandbox_runner.Pool.Config.{PoolConfig, normalize, normalize-IsNormal}
use podman_sandbox_runner.Pool.State.{send}
use podman_sandbox_runner.Pool.Ops.{
  PoolImpl, Pool, create_holder, fill, empty_pool, started, new_pool,
}
use podman_sandbox_runner.Pool.Invariant.{IsWarm}
use podman_sandbox_runner.Pool.Creation.{Stocked, create_holder-Stocked, empty_pool-IsWarm}
use podman_sandbox_runner.Pool.Accounts.{Meter, IsBalanced, IsSettled, close-settles}
use podman_sandbox_runner.Pool.Accounts.Calls.{create_holder-IsBalanced}

module _ {I W : Type 0} (ops : PoolImpl I W) (f : I → ℕ) (m : Meter ops f) where
  abbrev Filled : Option Error × Pool I W → Type 0
  Filled (none, p) = IsBalanced ops f m p
  Filled (some e, p) = IsSettled ops f m p

  fill-Filled :
      (left i now n : ℕ) (p : Pool I W)
      → IsWarm n p
      → pos (left + n) ≤ℤ p.state.cfg.max
      → IsBalanced ops f m p
      → Filled (fill ops left i now p)
  unfolding fill
  fill-Filled zero i now n p v room b = b
  fill-Filled (suc left) i now n p v room b = elim (Fallible-cases (create_holder ops now p).0) [
    | inl (h, e) ↦
        let (warm, same_cfg) =
          subst (λ g. Stocked ops n p (g, (create_holder ops now p).1)) e stocked in
        rw (e, fill)
          (fill-Filled left (suc i) now (suc n) _ warm
            (unfold send in rw same_cfg (omega (arith, room))) (unfold send in more))
    | inr (x, e) ↦
        rw (e, fill)
          (close-settles ops f m (create_holder ops now p).1
            (subst (λ g. Stocked ops n p (g, (create_holder ops now p).1)) e stocked) more)
  ]
    where
      stocked : Stocked ops n p (create_holder ops now p)
      stocked = create_holder-Stocked ops now n p v (omega (arith, room))

      more : IsBalanced ops f m (create_holder ops now p).1
      more = create_holder-IsBalanced ops f m now p v.inv b

  -- What `NewPool` answers with has balanced accounts, or settled ones.
  abbrev pub Opened : Fallible (Unit {0}) × Pool I W → Type 0
  Opened (ok _, p) = IsBalanced ops f m p
  Opened (err e, p) = IsSettled ops f m p

  started-Opened : (r : Option Error × Pool I W) → Filled r → Opened (started ops r)
  started-Opened (none, p) v = v
  started-Opened (some e, p) v = v

  pub new_pool-Opened :
      (o : Opts) (cfg : PoolConfig) (now : ℕ) (w : W)
      → m.credit w [] ≡ m.debit w []
      → Opened (new_pool ops o cfg now w)
  unfolding new_pool empty_pool
  new_pool-Opened o cfg now w start = elim (Bool-cases (is_empty o.user)) [
    | inl e ↦ rw (e, new_pool) start
    | inr e ↦ elim (Fallible-cases (normalize cfg)) [
      | inr (x, q) ↦ rw (e, q, new_pool) start
      | inl (c, q) ↦
          rw (e, q, new_pool)
            (started-Opened _ (
              fill-Filled (pos_part c.min) 1 now 0 (empty_pool ops c w)
                (empty_pool-IsWarm ops c w (normalize-IsNormal cfg q))
                (let n = normalize-IsNormal cfg q in
                  unfold empty_pool in ground (arith, n.min_le_max, n.min_nonneg))
                (omega (arith, start))))
    ]
  ]
