-- ===== src/Pool/Hygiene.antt =====
-- Between two runs on a holder: `Run` cleans a holder up and checks it before anything else happens
-- to it, on every path, and a holder that fails the check is gone.
use podman_sandbox_runner.Base.{
  ℕ, ◌≡◌, refl, ◌⊎◌, inl, inr, ◌≢◌, Option, none, some, [], ◌∷◌, ◌++◌, count, count-delete_self,
  arith, Option-cases,
}
use mathlib.Core.List.{append_assoc}
use podman_sandbox_runner.Sandbox.{Error, Ran}
use podman_sandbox_runner.Pool.State.{forget, send}
use podman_sandbox_runner.Pool.Ops.{
  PoolImpl, Pool, ran, cleaned, checked, closed_impl, Context, Job, put, drop, died, conclude,
  run_on, run_holder,
}
use podman_sandbox_runner.Pool.Invariant.{InHand}
use podman_sandbox_runner.Pool.Runs.{release_lem, drop_lem, run_holder_lem}

module _ {I W : Type 0} (ops : PoolImpl I W) where
  -- The answers of the backend to the calls of one run: the run's result, the check's error, and
  -- the world behind them.
  abbrev pub answer : I → Context → Job → W → Ran
  answer i ctx job w = (ops.run i ctx job w).0

  abbrev pub check_of : I → Context → Job → W → Option Error
  check_of i ctx job w = (ops.check_holder i (ops.cleanup i (ops.run i ctx job w).1)).0

  -- What a run on a healthy holder leaves behind.
  pub record ReturnsHolder (h : ℕ) (i : I) (r : Ran) (p : Pool I W) (out : Ran × Pool I W)
      : Type 0 where
    pub same_answer : out.0 ≡ r
    pub parked_last : out.1.state.idle ≡ p.state.idle ++ h ∷ []
    pub still_registered : out.1.state.all ≡ p.state.all
    pub logged : out.1.log ≡ p.log ++ ran i ∷ cleaned i ∷ checked i ∷ []

  -- What a run on a holder that died leaves behind: an error, and the holder closed and gone.
  pub record RemovesHolder (h : ℕ) (i : I) (p : Pool I W) (out : Ran × Pool I W) : Type 0 where
    pub failed_run : out.0.failure ≢ none
    pub not_parked : count h out.1.state.idle ≡ 0
    pub not_registered : count h out.1.state.all ≡ 0
    pub logged : out.1.log ≡ p.log ++ ran i ∷ cleaned i ∷ checked i ∷ closed_impl i ∷ []

  died_fails : (e : Error) (r : Ran) → (died ops e r).failure ≢ none
  died_fails e r = elim (Option-cases r.failure) [
    | inl q ↦ rw (q, died) (λ x. cc)
    | inr (a, q) ↦ rw (q, died) (λ x. cc)
  ]

  -- The pool behind the three calls of a run on `i`.
  after_calls : I → W → Pool I W → Pool I W
  after_calls i w p = record p { world = w; log = p.log ++ ran i ∷ cleaned i ∷ checked i ∷ [] }

  conclude-none :
      (h now : ℕ) (i : I) (r : Ran) (w : W) (p : Pool I W)
      → InHand h p
      → ReturnsHolder h i r p (conclude ops h now r none (after_calls i w p))
  unfolding conclude after_calls
  conclude-none h now i r w p v = record {
    same_answer = refl;
    parked_last = rw (release_lem ops now h (after_calls i w p) v.opened) (unfold send in refl);
    still_registered =
        rw (release_lem ops now h (after_calls i w p) v.opened) (unfold send in refl);
    logged = rw (release_lem ops now h (after_calls i w p) v.opened) refl;
  }

  conclude-some :
      (h now : ℕ) (i : I) (r : Ran) (e : Error) (w : W) (p : Pool I W)
      → InHand h p
      → (p.holders h).impl ≡ some i
      → RemovesHolder h i p (conclude ops h now r (some e) (after_calls i w p))
  unfolding conclude after_calls
  conclude-some h now i r e w p v b = record {
    failed_run = died_fails e r;
    not_parked = rw gone (unfold forget in v.out);
    not_registered = rw gone (unfold forget in count-delete_self h p.state.all);
    logged = rw gone (append_assoc p.log _ _);
  }
    where
      dying : Pool I W
      dying = record (after_calls i w p) {
        holders = put h (record (p.holders h) { dead = some e }) p.holders;
      }

      gone : drop ops h dying ≡ record dying {
        state = forget h p.state;
        world = (ops.close i dying.world).1;
        log = dying.log ++ closed_impl i ∷ [];
      }
      gone = drop_lem ops h dying i v.registered (unfold put in ground (arith, b))

  -- The two outcomes of a run on the holder `h`, which is `i` in the backend.
  abbrev pub RunsOn : ℕ → I → Context → Job → Pool I W → Ran × Pool I W → Type 0
  RunsOn h i ctx job p out =
      ((check_of i ctx job p.world ≡ none) × ReturnsHolder h i (answer i ctx job p.world) p out)
      ⊎ ((e : Error) × (check_of i ctx job p.world ≡ some e) × RemovesHolder h i p out)

  -- `Run` behind `acquire`, on a holder in hand. When the check behind the cleanup finds the holder
  -- alive, the answer is the backend's and the holder is parked again behind the others. When it
  -- finds it dead, the answer carries an error, and the holder is closed and neither parked nor
  -- registered. In both cases the run, the cleanup and the check reach the backend in this order.
  pub run_holder_cases :
      (h : ℕ) (ctx : Context) (now : ℕ) (job : Job) (p : Pool I W) (v : InHand h p)
      → RunsOn h v.ready.0 ctx job p (run_holder ops h ctx now job p)
  unfolding run_on after_calls
  run_holder_cases h ctx now job p v =
      let i = v.ready.0 in
      rw (run_holder_lem ops h ctx now job p v) (elim (Option-cases (check_of i ctx job p.world)) [
        | inl c ↦ inl (c, rw (c, run_on) (conclude-none h now i _ _ p v))
        | inr (e, c) ↦ inr (e, c, rw (c, run_on) (conclude-some h now i _ e _ p v v.ready.1))
      ])
