-- ===== src/Pool/Accounts.antt =====
-- The accounts of a pool: which implementations were made, which were closed, and which are with the
-- registered holders, by a weight `f` on implementations. With the weight 1 for one implementation and
-- 0 for the others it counts that one.
pub mod Calls
pub mod Settled
pub mod Sound
pub mod Ledger
use podman_sandbox_runner.Base.{
  ℕ, suc, ◌+◌, ◌<◌, pos, ◌≤ℤ◌, true, false, ◌≡◌, refl, ap, ◌∙◌, sym, ◌⊎◌, inl, inr, Option, none,
  some, List, [], ◌∷◌, ◌++◌, count, has, delete, sum, sum_ext, sum-delete, sum-delete_none,
  sum_change, count-has, has-count, insert_fresh, arith, ◌==◌, Bool-cases,
}
use podman_sandbox_runner.Sandbox.{Error, Fallible, ok, err, Ran}
use podman_sandbox_runner.Pool.Ops.{
  PoolImpl, Pool, Holder, Event, created, ran, cleaned, checked, closed_impl, put, call_close,
  close_all, close, drop, release, conclude, run_on, run_acquired, run, Context, Job, Select,
}
use podman_sandbox_runner.Pool.State.{send, forget}
use podman_sandbox_runner.Pool.Acquire.{Acquired, acquire-Acquired}
use podman_sandbox_runner.Pool.Closing.{swept, close_lem, close_again, closed-IsShut, close-IsShut}
use podman_sandbox_runner.Pool.Runs.{release_lem, drop_lem, ran-InHand, run_holder_lem}
use podman_sandbox_runner.Pool.Invariant.{PoolInv, InHand}

-- The weight of the holders that were made, and of those that were closed, as often as they were.
module _ {I : Type 0} where
  abbrev pub made : (I → ℕ) → List (Event I) → ℕ
  made f [] = 0
  made f (created i ∷ es) = f i + made f es
  made f (_ ∷ es) = made f es

  abbrev pub gone : (I → ℕ) → List (Event I) → ℕ
  gone f [] = 0
  gone f (closed_impl i ∷ es) = f i + gone f es
  gone f (_ ∷ es) = gone f es

  pub made-append : (f : I → ℕ) (xs ys : List (Event I)) → made f (xs ++ ys) ≡ made f xs + made f ys
  made-append f [] ys = omega arith
  made-append f (created i ∷ es) ys = omega (arith, made-append f es ys)
  made-append f (_ ∷ es) ys = omega (arith, made-append f es ys)

  pub gone-append : (f : I → ℕ) (xs ys : List (Event I)) → gone f (xs ++ ys) ≡ gone f xs + gone f ys
  gone-append f [] ys = omega arith
  gone-append f (closed_impl i ∷ es) ys = omega (arith, gone-append f es ys)
  gone-append f (_ ∷ es) ys = omega (arith, gone-append f es ys)

  -- A holder without an implementation weighs nothing.
  abbrev pub worth_impl : (I → ℕ) → Option I → ℕ
  worth_impl f none = 0
  worth_impl f (some i) = f i

  abbrev pub worth : (I → ℕ) → (ℕ → Holder I) → ℕ → ℕ
  worth f holders h = worth_impl f (holders h).impl

  -- Writing to a holder but for its implementation.
  worth-put :
      (f : I → ℕ) (holders : ℕ → Holder I) (h : ℕ) (x : Holder I)
      → x.impl ≡ (holders h).impl
      → (j : ℕ) → worth f (put h x holders) j ≡ worth f holders j
  unfolding put
  worth-put f holders h x e j = elim (Bool-cases (j == h)) [
    | inl q ↦ let same : j ≡ h = ground arith in rw (q, e, same) refl
    | inr q ↦ rw q refl
  ]

-- Books on what the calls of a backend do: `credit` grows by the weight of an implementation when it
-- is made and `debit` when it is closed, up to what both gain alike. They may look at the world, at
-- the log, or at both.
pub record Meter {I W : Type 0} (ops : PoolImpl I W) (f : I → ℕ) : Type 0 where
  pub credit : W → List (Event I) → ℕ
  pub debit : W → List (Event I) → ℕ
  pub on_made :
      (w w1 : W) (l : List (Event I)) (i : I)
      → ops.new_impl w ≡ (ok i, w1)
      → credit w1 (l ++ created i ∷ []) + debit w l
        ≡ debit w1 (l ++ created i ∷ []) + credit w l + f i
  pub on_failed :
      (w w1 : W) (l : List (Event I)) (e : Error)
      → ops.new_impl w ≡ (err e, w1)
      → credit w1 l + debit w l ≡ debit w1 l + credit w l
  pub on_closed :
      (w : W) (l : List (Event I)) (i : I)
      → credit (ops.close i w).1 (l ++ closed_impl i ∷ []) + debit w l + f i
        ≡ debit (ops.close i w).1 (l ++ closed_impl i ∷ []) + credit w l
  pub on_run :
      (w : W) (l : List (Event I)) (i : I) (ctx : Context) (job : Job)
      → credit
            (ops.check_holder i (ops.cleanup i (ops.run i ctx job w).1)).1
            (l ++ ran i ∷ cleaned i ∷ checked i ∷ [])
          + debit w l
        ≡ debit
            (ops.check_holder i (ops.cleanup i (ops.run i ctx job w).1)).1
            (l ++ ran i ∷ cleaned i ∷ checked i ∷ [])
          + credit w l

module _ {I W : Type 0} (ops : PoolImpl I W) (f : I → ℕ) where
  -- The books that the log itself keeps.
  abbrev pub log_meter : Meter ops f
  log_meter = record {
    credit = λ w l. made f l;
    debit = λ w l. gone f l;
    on_made = λ w w1 l i e.
        omega (arith, made-append f l (created i ∷ []), gone-append f l (created i ∷ []));
    on_failed = λ w w1 l x e. omega arith;
    on_closed = λ w l i.
        omega (arith, made-append f l (closed_impl i ∷ []), gone-append f l (closed_impl i ∷ []));
    on_run = λ w l i ctx job. omega (
      arith,
      made-append f l (ran i ∷ cleaned i ∷ checked i ∷ []),
      gone-append f l (ran i ∷ cleaned i ∷ checked i ∷ []),
    );
  }

module _ {I W : Type 0} (ops : PoolImpl I W) (f : I → ℕ) (m : Meter ops f) where
  -- What was made is what was closed and what is with the registered holders.
  abbrev pub IsBalanced : Pool I W → Type 0
  IsBalanced p =
      m.credit p.world p.log ≡ m.debit p.world p.log + sum (worth f p.holders) p.state.all

  -- The accounts of a pool with nothing left to close.
  abbrev pub IsSettled : Pool I W → Type 0
  IsSettled p = m.credit p.world p.log ≡ m.debit p.world p.log

  -- A write to a holder but for its implementation.
  kept-IsBalanced :
      (h : ℕ) (x : Holder I) (p : Pool I W)
      → x.impl ≡ (p.holders h).impl
      → IsBalanced p
      → IsBalanced (record p { holders = put h x p.holders })
  kept-IsBalanced h x p e b = omega (
    arith,
    b,
    sum_ext (worth f (put h x p.holders)) (worth f p.holders) p.state.all
        (λ j k. worth-put f p.holders h x e j),
  )

  -- From `p` on, implementations of the weight `n` were closed.
  abbrev Closed : ℕ → Pool I W → Pool I W → Type 0
  Closed n p q =
      m.credit q.world q.log + m.debit p.world p.log + n
      ≡ m.debit q.world q.log + m.credit p.world p.log

  -- A call of close, on whatever implementation a holder has.
  call_close-Closed :
      (impl : Option I) (p : Pool I W)
      → Closed (worth_impl f impl) p (call_close ops impl p).1
        × ((call_close ops impl p).1.holders ≡ p.holders)
  unfolding call_close
  call_close-Closed none p = (omega arith, refl)
  call_close-Closed (some i) p = (omega (arith, m.on_closed p.world p.log i), refl)

  close_all-Closed :
      (hs : List ℕ) (first : Option Error) (p : Pool I W)
      → Closed (sum (worth f p.holders) hs) p (close_all ops hs first p).1
  unfolding close_all
  close_all-Closed [] first p = omega arith
  close_all-Closed (h ∷ hs) first p =
      let (g, same) = call_close-Closed (p.holders h).impl p in
      let gs =
        close_all-Closed hs
          (elim first [ none ↦ (call_close ops (p.holders h).impl p).0 | some x ↦ some x ])
          (call_close ops (p.holders h).impl p).1 in
      omega (arith, g, gs, ap (λ (l : ℕ → Holder I). sum (worth f l) hs) same)

  -- `Close` settles the accounts: it closes what is registered.
  pub close-settles : (p : Pool I W) → PoolInv p → IsBalanced p → IsSettled (close ops p).1
  close-settles p v b = elim (Bool-cases p.state.closed) [
    | inl e ↦
        rw (close_again ops p e)
          (omega (arith, b, ap (sum (worth f p.holders)) (closed-IsShut ops p v e).none_registered))
    | inr e ↦
        rw (close_lem ops p e) (omega (arith, close_all-Closed p.state.all none (swept ops p), b))
  ]

  pub close-IsBalanced : (p : Pool I W) → PoolInv p → IsBalanced p → IsBalanced (close ops p).1
  close-IsBalanced p v b = omega (
    arith,
    close-settles p v b,
    ap (sum (worth f (close ops p).1.holders)) (close-IsShut ops p v).none_registered,
  )

  release-IsBalanced :
      (now h : ℕ) (p : Pool I W) → InHand h p → IsBalanced p → IsBalanced (release ops now h p)
  release-IsBalanced now h p v b =
      rw (release_lem ops now h p v.opened)
        (unfold send in kept-IsBalanced h (record (p.holders h) { last_used = now }) p refl b)

  drop-IsBalanced :
      (h : ℕ) (p : Pool I W) (i : I)
      → count h p.state.all ≡ 1
      → (p.holders h).impl ≡ some i
      → IsBalanced p
      → IsBalanced (drop ops h p)
  drop-IsBalanced h p i reg e b = rw (drop_lem ops h p i reg e) (
      unfold forget in
      omega (
        arith,
        b,
        sum-delete (worth f p.holders) h p.state.all reg,
        ap (worth_impl f) e,
        m.on_closed p.world p.log i,
      ))

  conclude-IsBalanced :
      (h now : ℕ) (r : Ran) (check : Option Error) (p : Pool I W)
      → InHand h p
      → IsBalanced p
      → IsBalanced (conclude ops h now r check p).1
  unfolding conclude
  conclude-IsBalanced h now r none p v b = release-IsBalanced now h p v b
  conclude-IsBalanced h now r (some e) p v b =
      drop-IsBalanced h
        (record p { holders = put h (record (p.holders h) { dead = some e }) p.holders }) v.ready.0
        v.registered (unfold put in ground (arith, v.ready.1))
        (kept-IsBalanced h (record (p.holders h) { dead = some e }) p refl b)

  run_on-IsBalanced :
      (h : ℕ) (i : I) (ctx : Context) (now : ℕ) (job : Job) (p : Pool I W)
      → InHand h p
      → IsBalanced p
      → IsBalanced (run_on ops h i ctx now job p).1
  unfolding run_on
  run_on-IsBalanced h i ctx now job p v b =
      conclude-IsBalanced h now _ _ _ (ran-InHand ops h i _ p v)
        (omega (arith, b, m.on_run p.world p.log i ctx job))

  run_acquired-IsBalanced :
      (ctx : Context) (now : ℕ) (job : Job) (got : Option (Fallible ℕ) × Pool I W)
      → Acquired ops got
      → IsBalanced got.1
      → IsBalanced (run_acquired ops ctx now job got).1
  unfolding run_acquired
  run_acquired-IsBalanced ctx now job (none, p) v b = b
  run_acquired-IsBalanced ctx now job (some (err e), p) v b = b
  run_acquired-IsBalanced ctx now job (some (ok h), p) v b =
      rw (run_holder_lem ops h ctx now job p v) (run_on-IsBalanced h v.ready.0 ctx now job p v b)
