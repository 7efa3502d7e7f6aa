-- ===== src/Pool/Accounts/Ledger.antt =====
-- A backend whose calls to a daemon or to a cluster are written down, in order, over a whole pool.
use podman_sandbox_runner.Base.{ℕ, ◌+◌, ◌≡◌, ap, List, [], ◌∷◌, ◌++◌, arith}
use mathlib.Core.Path.{subst}
use podman_sandbox_runner.Sandbox.{Fallible, ok, err}
use podman_sandbox_runner.Pool.Ops.{PoolImpl, Context, Job}
use podman_sandbox_runner.Pool.Accounts.{Meter}

-- What `g` counts in a sequence of calls.
abbrev pub tally : {C : Type 0} → (C → ℕ) → List C → ℕ
tally g [] = 0
tally g (c ∷ cs) = g c + tally g cs

pub tally-append :
    {C : Type 0} (g : C → ℕ) (xs ys : List C) → tally g (xs ++ ys) ≡ tally g xs + tally g ys
tally-append g [] ys = omega arith
tally-append g (x ∷ xs) ys = omega (arith, tally-append g xs ys)

abbrev pub worth_answer : {I : Type 0} → (I → ℕ) → Fallible I → ℕ
worth_answer f (ok i) = f i
worth_answer f (err e) = 0

-- The log of a world that keeps one.
abbrev pub log_of : {A W C : Type 0} → A × (W × List C) → List C
log_of q = q.1.1

module _ {I W C : Type 0} (ops : PoolImpl I (W × List C)) where
  -- What a run leaves behind, with the hygiene and the check that follow it.
  abbrev pub ran_through : I → Context → Job → W × List C → W × List C
  ran_through i ctx job s = (ops.check_holder i (ops.cleanup i (ops.run i ctx job s).1)).1

  -- Books on the calls: a start that succeeds brings as much more of `plus` than of `minus` as its
  -- holder weighs, a start that fails as much of both, the end of a holder takes its weight back, and a
  -- run makes and removes no holder.
  module _ (plus minus : C → ℕ) (f : I → ℕ) where
    -- `now` is what a call of newImpl left behind.
    abbrev pub Added : W × List C → Fallible I × (W × List C) → Type 0
    Added s (r, now) =
        tally plus now.1 + tally minus s.1 ≡ tally minus now.1 + tally plus s.1 + worth_answer f r

    pub record IsLedger : Type 0 where
      pub starts : (s : W × List C) → Added s (ops.new_impl s)
      pub ends :
          (i : I) (s : W × List C)
          → tally plus (ops.close i s).1.1 + tally minus s.1 + f i
            ≡ tally minus (ops.close i s).1.1 + tally plus s.1
      pub rests :
          (i : I) (ctx : Context) (job : Job) (s : W × List C) → (ran_through i ctx job s).1 ≡ s.1

    abbrev pub ledger_meter : IsLedger → Meter ops f
    ledger_meter k = record {
      credit = λ s l. tally plus s.1;
      debit = λ s l. tally minus s.1;
      on_made = λ s now l i e. subst (Added s) e (k.starts s);
      on_failed = λ s now l x e. omega (arith, subst (Added s) e (k.starts s));
      on_closed = λ s l i. omega (arith, k.ends i s);
      on_run = λ s l i ctx job.
          omega
            (arith, ap (tally plus) (k.rests i ctx job s), ap (tally minus) (k.rests i ctx job s));
    }
