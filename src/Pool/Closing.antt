-- ===== src/Pool/Closing.antt =====
-- `Close`: it closes every registered holder, once, and a second call does nothing.
use podman_sandbox_runner.Base.{
  ℕ, suc, ◌+◌, ◌<◌, true, false, ◌≡◌, refl, ap, ◌∙◌, inl, inr, Option, none, some, List, [], ◌∷◌,
  length, count, arith, Bool-cases, empty_of_length, empty_of_count, count-le-length,
}
use podman_sandbox_runner.Sandbox.{Error}
use podman_sandbox_runner.Pool.State.{State, mark_closed, sweep, drain}
use podman_sandbox_runner.Pool.Ops.{PoolImpl, Pool, closed_impl, call_close, close_all, close}
use podman_sandbox_runner.Pool.Invariant.{
  creations, closures, creations-append, closures-append, PoolInv, IsShut,
}

module _ {I W : Type 0} (ops : PoolImpl I W) where
  -- What the closing loop does to a pool: one close call for each holder of the list, and no
  -- other change.
  record Closes (n : ℕ) (p q : Pool I W) : Type 0 where
    same_state : q.state ≡ p.state
    same_holders : q.holders ≡ p.holders
    same_fresh : q.fresh ≡ p.fresh
    same_calm : q.panicked ≡ p.panicked
    same_creations : creations q.log ≡ creations p.log
    more_closures : closures q.log ≡ closures p.log + n

  call_close-Closes :
      (h : ℕ) (p : Pool I W) (i : I)
      → (p.holders h).impl ≡ some i
      → Closes 1 p (call_close ops (p.holders h).impl p).1
  unfolding call_close
  call_close-Closes h p i e =
      rw (e, call_close)
        (record {
          same_state = refl;
          same_holders = refl;
          same_fresh = refl;
          same_calm = refl;
          same_creations = omega (arith, creations-append p.log (closed_impl i ∷ []));
          more_closures = omega (arith, closures-append p.log (closed_impl i ∷ []));
        })

  Closes-trans : {n m : ℕ} {p q r : Pool I W} → Closes n p q → Closes m q r → Closes (n + m) p r
  Closes-trans a b = record {
    same_state = b.same_state ∙ a.same_state;
    same_holders = b.same_holders ∙ a.same_holders;
    same_fresh = b.same_fresh ∙ a.same_fresh;
    same_calm = b.same_calm ∙ a.same_calm;
    same_creations = b.same_creations ∙ a.same_creations;
    more_closures = omega (arith, a.more_closures, b.more_closures);
  }

  close_all-Closes :
      (hs : List ℕ) (first : Option Error) (p : Pool I W)
      → ((h : ℕ) → 0 < count h hs → (i : I) × ((p.holders h).impl ≡ some i))
      → Closes (length hs) p (close_all ops hs first p).1
  unfolding close_all
  close_all-Closes [] first p built = record {
    same_state = refl;
    same_holders = refl;
    same_fresh = refl;
    same_calm = refl;
    same_creations = refl;
    more_closures = omega arith;
  }
  close_all-Closes (h ∷ hs) first p built = rw (← one_more) (
      Closes-trans one (
        close_all-Closes hs _ _
          (λ j k. let (i, e) = built j (omega arith) in (i, rw one.same_holders e))))
    where
      here : (i : I) × ((p.holders h).impl ≡ some i)
      here = built h (ground arith)

      one : Closes 1 p (call_close ops (p.holders h).impl p).1
      one = call_close-Closes h p here.0 here.1

      one_more : 1 + length hs ≡ suc (length hs)
      one_more = omega arith

  -- The pool that the closing loop runs on.
  abbrev pub swept : Pool I W → Pool I W
  swept p = record p { state = drain (sweep (mark_closed p.state)).1 }

  pub close_lem :
      (p : Pool I W)
      → p.state.closed ≡ false
      → close ops p ≡ close_all ops p.state.all none (swept p)
  unfolding close sweep mark_closed
  close_lem p e = rw (e, close, sweep, mark_closed)

  pub close_open-IsShut :
      (p : Pool I W) → PoolInv p → p.state.closed ≡ false → IsShut (close ops p).1
  unfolding sweep mark_closed drain
  close_open-IsShut p v e = rw (close_lem p e) (
      let c = close_all-Closes p.state.all none (swept p) v.built in
      record {
        is_closed = ap (λ (s : State). s.closed) c.same_state;
        none_registered = ap (λ (s : State). s.all) c.same_state;
        none_parked = ap (λ (s : State). s.idle) c.same_state;
        all_closed = omega (arith, c.same_creations, c.more_closures, v.balance);
        calm = c.same_calm ∙ v.calm;
      })

  pub close_again : (p : Pool I W) → p.state.closed ≡ true → close ops p ≡ (none, p)
  unfolding close
  close_again p e = rw (e, close)

  pub closed-IsShut : (p : Pool I W) → PoolInv p → p.state.closed ≡ true → IsShut p
  closed-IsShut p v e = record {
    is_closed = e;
    none_registered = empty_of_length p.state.all (v.state_inv.shut e);
    none_parked = empty_of_count p.state.idle (λ h.
        ground (arith, v.state_inv.parked h, v.state_inv.shut e, count-le-length h p.state.all));
    all_closed = omega (arith, v.balance, v.state_inv.shut e);
    calm = v.calm;
  }

  -- In either case.
  pub close-IsShut : (p : Pool I W) → PoolInv p → IsShut (close ops p).1
  close-IsShut p v = elim (Bool-cases p.state.closed) [
    | inl e ↦ rw (close_again p e) (closed-IsShut p v e)
    | inr e ↦ close_open-IsShut p v e
  ]

  close_open-PoolInv : (p : Pool I W) → PoolInv p → p.state.closed ≡ false → PoolInv (close ops p).1
  unfolding sweep mark_closed drain
  close_open-PoolInv p v e = rw (close_lem p e) (
      let c = close_all-Closes p.state.all none (swept p) v.built in
      record {
        state_inv =
            rw (c.same_state, c.same_fresh)
              (record {
                once = λ h. omega arith;
                parked = λ h. omega arith;
                allocated = λ h k. refl;
                bounded = omega (arith, v.state_inv.bounded);
                shut = λ q. refl;
              });
        built = λ h k. absurd (omega (arith, (rw c.same_state at k)));
        alive = λ h k. absurd (omega (arith, (rw c.same_state at k)));
        calm = c.same_calm ∙ v.calm;
        balance = rw c.same_state (omega (arith, c.same_creations, c.more_closures, v.balance));
      })

  pub close-PoolInv : (p : Pool I W) → PoolInv p → PoolInv (close ops p).1
  close-PoolInv p v = elim (Bool-cases p.state.closed) [
    | inl e ↦ rw (close_again p e) v
    | inr e ↦ close_open-PoolInv p v e
  ]
