-- ===== src/K8s/Waiting.antt =====
-- `waitPodRunning` returns.
use podman_sandbox_runner.Base.{
  ℕ, zero, suc, ◌+◌, ◌≤◌, ◌<◌, ℤ, pos, ◌≤ℤ◌, pos_part, leb_ℤ, neg_part, ◌+ℤ◌, false, ◌≡◌, refl,
  Option, none, some, inl, inr, Text, Bool-cases, Option-cases, arith,
}
use podman_sandbox_runner.Sandbox.{Error, Fallible, ok, err}
use podman_sandbox_runner.Pool.Ops.{Context}
use podman_sandbox_runner.K8s.Cluster.{
  Cluster, Phase, has_started, polled, wait_loop, turns, wait_pod_running, ahead, poll_interval,
}

early_lem : (t n : ℤ) → leb_ℤ t n ≡ false → 0 < ahead t n
early_lem t n e = ground (arith, e)

+ℤ-one : (a b : ℤ) → a +ℤ pos 1 ≤ℤ b → suc (pos_part a + neg_part b) ≤ pos_part b + neg_part a
+ℤ-one a b h = ground (arith, h)

module _ {W : Type 0} (cluster : Cluster W) where
  -- What the loop relies on: time does not go back, a sleep that is not cut short takes time, and
  -- client-go fails a request whose context has ended.
  pub record Ticks : Type 0 where
    pub get_forward :
        (ctx : Context) (ns name : Text) (w : W)
        → cluster.now w ≤ℤ cluster.now (cluster.get_phase ctx ns name w).1
    pub get_expired :
        (ctx : Context) (ns name : Text) (w : W) (t : ℤ)
        → ctx.deadline ≡ some t
        → t ≤ℤ cluster.now w
        → (e : Error) × ((cluster.get_phase ctx ns name w).0 ≡ err e)
    pub sleep_forward :
        (ctx : Context) (d : ℤ) (w : W)
        → pos 1 ≤ℤ d
        → (cluster.sleep ctx d w).0 ≡ none
        → cluster.now w +ℤ pos 1 ≤ℤ cluster.now (cluster.sleep ctx d w).1

  -- What the wait has come to.
  abbrev pub Returns : Option (Option Error) × W → Type 0
  Returns r = (answer : Option Error) × (r.0 ≡ some answer)

  -- A turn returns, or it sleeps to the end of the interval and the next turn decides.
  polled-Returns :
      (ctx : Context) (again : W → Option (Option Error) × W) (g : Fallible Phase × W)
      → ((p : Phase)
          → g.0 ≡ ok p
          → (cluster.sleep ctx poll_interval g.1).0 ≡ none
          → Returns (again (cluster.sleep ctx poll_interval g.1).1))
      → Returns (polled cluster ctx again g)
  unfolding polled
  polled-Returns ctx again (err e, w) next = (some e, refl)
  polled-Returns ctx again (ok p, w) next = elim (Bool-cases (has_started p)) [
    | inl q ↦ rw (q, polled) (none, refl)
    | inr q ↦ elim (Option-cases (cluster.sleep ctx poll_interval w).0) [
      | inl s ↦ rw (q, s, polled) (next p refl s)
      | inr (e, s) ↦ rw (q, s, polled) (some e, refl)
    ]
  ]

  wait_loop-Returns :
      Ticks
      → (fuel : ℕ) (ctx : Context) (ns name : Text) (w : W) (t : ℤ) → ctx.deadline ≡ some t
      → ahead t (cluster.now w) < fuel
      → Returns (wait_loop cluster fuel ctx ns name w)
  unfolding wait_loop
  wait_loop-Returns ticks zero ctx ns name w t e h = absurd (omega arith)
  wait_loop-Returns ticks (suc fuel) ctx ns name w t e h =
      polled-Returns ctx (λ w1. wait_loop cluster fuel ctx ns name w1)
        (cluster.get_phase ctx ns name w)
        (λ p got slept. wait_loop-Returns ticks fuel ctx ns name (woken p) t e (closer p got slept))
    where
      woken : Phase → W
      woken p = (cluster.sleep ctx poll_interval (cluster.get_phase ctx ns name w).1).1

      closer :
          (p : Phase)
          → (cluster.get_phase ctx ns name w).0 ≡ ok p
          → (cluster.sleep ctx poll_interval (cluster.get_phase ctx ns name w).1).0 ≡ none
          → ahead t (cluster.now (woken p)) < fuel
      closer p got slept = elim (Bool-cases (leb_ℤ t (cluster.now w))) [
        | inl late ↦
            let (x, refused) = ticks.get_expired ctx ns name w t e (ground (arith, late)) in
            cc (got, refused)
        | inr early ↦ omega (
          arith,
          early_lem t (cluster.now w) early,
          h,
          ticks.get_forward ctx ns name w,
          +ℤ-one _ _ (
              ticks.sleep_forward ctx poll_interval (cluster.get_phase ctx ns name w).1
                (omega arith) slept),
        )
      ]

  -- A poll that ends when the pod has started, on an error of the cluster, or when the context ends.
  pub wait_pod_running-Returns :
      Ticks
      → (ctx : Context) (ns name : Text) (w : W) (t : ℤ) → ctx.deadline ≡ some t
      → Returns (wait_pod_running cluster ctx ns name w)
  unfolding wait_pod_running turns
  wait_pod_running-Returns ticks ctx ns name w t e =
      wait_loop-Returns ticks (turns cluster ctx w) ctx ns name w t e (rw (turns, e) (omega arith))
