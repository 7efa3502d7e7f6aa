-- ===== src/Pool/Timeouts.antt =====
-- An answer of `Pool.Run` without an error was not cut off, where that holds of the backend's runs.
use podman_sandbox_runner.Base.{ℕ, false, ◌≡◌, Option, none, some, Option-cases, inl, inr}
use mathlib.Core.Path.{subst}
use podman_sandbox_runner.Sandbox.{Error, Fallible, ok, err, Ran}
use podman_sandbox_runner.Pool.Ops.{
  Context, Job, PoolImpl, Pool, died, conclude, run_on, run_holder, run_acquired,
}

-- A run that succeeds was not cut off.
abbrev pub IsQuiet : Ran → Type 0
IsQuiet r = r.failure ≡ none → r.result.timed_out ≡ false

module _ {I W : Type 0} (ops : PoolImpl I W)
    (quiet : (i : I) (ctx : Context) (job : Job) (w : W) → IsQuiet (ops.run i ctx job w).0) where
  died-IsQuiet : (e : Error) (r : Ran) → IsQuiet r → IsQuiet (died ops e r)
  died-IsQuiet e r q h = elim (Option-cases r.failure) [
    | inl f ↦ absurd (cc (rw f at h))
    | inr (x, f) ↦ absurd (cc (rw f at h))
  ]

  conclude-IsQuiet :
      (h now : ℕ) (r : Ran) (check : Option Error) (p : Pool I W)
      → IsQuiet r
      → IsQuiet (conclude ops h now r check p).0
  unfolding conclude
  conclude-IsQuiet h now r none p q = q
  conclude-IsQuiet h now r (some e) p q = died-IsQuiet e r q

  run_on-IsQuiet :
      (h : ℕ) (i : I) (ctx : Context) (now : ℕ) (job : Job) (p : Pool I W)
      → IsQuiet (run_on ops h i ctx now job p).0
  unfolding run_on
  run_on-IsQuiet h i ctx now job p =
      conclude-IsQuiet h now (ops.run i ctx job p.world).0 _ _ (quiet i ctx job p.world)

  run_holder-IsQuiet :
      (h : ℕ) (ctx : Context) (now : ℕ) (job : Job) (p : Pool I W)
      → IsQuiet (run_holder ops h ctx now job p).0
  unfolding run_holder
  run_holder-IsQuiet h ctx now job p = elim (Option-cases (p.holders h).dead) [
    | inr (e, q) ↦ rw (q, run_holder) (λ x. absurd cc)
    | inl q ↦ elim (Option-cases (p.holders h).impl) [
      | inl q' ↦ rw (q, q', run_holder) (λ x. absurd cc)
      | inr (i, q') ↦ rw (q, q', run_holder) (run_on-IsQuiet h i ctx now job p)
    ]
  ]

  pub run_acquired-IsQuiet :
      (ctx : Context) (now : ℕ) (job : Job) (a : Option (Fallible ℕ) × Pool I W) (r : Ran)
      → (run_acquired ops ctx now job a).0 ≡ some r
      → IsQuiet r
  unfolding run_acquired
  run_acquired-IsQuiet ctx now job (none, p) r e = absurd cc
  run_acquired-IsQuiet ctx now job (some (err x), p) r e = λ h. absurd cc
  run_acquired-IsQuiet ctx now job (some (ok h), p) r e =
      let same : (run_holder ops h ctx now job p).0 ≡ r = cc e in
      subst IsQuiet same (run_holder-IsQuiet h ctx now job p)
