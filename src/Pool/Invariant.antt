-- ===== src/Pool/Invariant.antt =====
-- What holds of a pool between two calls, and of a pool with one holder in a caller's hands.
use podman_sandbox_runner.Base.{
  ℕ, suc, ◌+◌, ◌≤◌, ◌<◌, pos, ◌≤ℤ◌, true, false, ◌≡◌, ◌⊎◌, inl, inr, none, some, List, [], ◌∷◌,
  ◌++◌, length, count, count-append, arith, List-cases, ap, count-le-length, insert_fresh,
  count-delete, length-delete,
}
use podman_sandbox_runner.Pool.State.{State, try_receive, send, register, forget}
use podman_sandbox_runner.Pool.Ops.{Pool, Event, created, closed_impl}

module _ {I : Type 0} where
  -- The numbers of holders that were made, and of close calls.
  abbrev pub creations : List (Event I) → ℕ
  creations [] = 0
  creations (created i ∷ es) = suc (creations es)
  creations (_ ∷ es) = creations es

  abbrev pub closures : List (Event I) → ℕ
  closures [] = 0
  closures (closed_impl i ∷ es) = suc (closures es)
  closures (_ ∷ es) = closures es

  pub creations-append :
      (xs ys : List (Event I)) → creations (xs ++ ys) ≡ creations xs + creations ys
  creations-append [] ys = omega arith
  creations-append (created i ∷ es) ys = omega (arith, creations-append es ys)
  creations-append (_ ∷ es) ys = omega (arith, creations-append es ys)

  pub closures-append : (xs ys : List (Event I)) → closures (xs ++ ys) ≡ closures xs + closures ys
  closures-append [] ys = omega arith
  closures-append (closed_impl i ∷ es) ys = omega (arith, closures-append es ys)
  closures-append (_ ∷ es) ys = omega (arith, closures-append es ys)

-- The registered holders are distinct, allocated and at most Max; a holder in the channel is
-- registered.
pub record StateInv (s : State) (fresh : ℕ) : Type 0 where
  pub once : (h : ℕ) → count h s.all ≤ 1
  pub parked : (h : ℕ) → count h s.idle ≤ count h s.all
  pub allocated : (h : ℕ) → fresh ≤ h → count h s.all ≡ 0
  pub bounded : pos (length s.all) ≤ℤ s.cfg.max
  pub shut : s.closed ≡ true → length s.all ≡ 0

module _ {I W : Type 0} where
  -- Every registered holder has an implementation, no parked one is dead, nothing panicked, and as
  -- many holders are registered as were made beyond those closed.
  pub record PoolInv (p : Pool I W) : Type 0 where
    pub state_inv : StateInv p.state p.fresh
    pub built : (h : ℕ) → 0 < count h p.state.all → (i : I) × ((p.holders h).impl ≡ some i)
    pub alive : (h : ℕ) → 0 < count h p.state.idle → (p.holders h).dead ≡ none
    pub calm : p.panicked ≡ false
    pub balance : creations p.log ≡ closures p.log + length p.state.all

  -- `h` is registered, out of the channel, and fit for a run.
  pub record InHand (h : ℕ) (p : Pool I W) : Type 0 where
    pub inv : PoolInv p
    pub out : count h p.state.idle ≡ 0
    pub registered : count h p.state.all ≡ 1
    pub fit : (p.holders h).dead ≡ none
    pub opened : p.state.closed ≡ false
    pub ready : (i : I) × ((p.holders h).impl ≡ some i)

  -- A pool that was closed: no holder is registered or parked, and as many holders have been
  -- closed as were made.
  pub record IsShut (p : Pool I W) : Type 0 where
    pub is_closed : p.state.closed ≡ true
    pub none_registered : p.state.all ≡ []
    pub none_parked : p.state.idle ≡ []
    pub all_closed : creations p.log ≡ closures p.log
    pub calm : p.panicked ≡ false

  -- A pool that is open, with exactly `n` holders, all of them parked.
  pub record IsWarm (n : ℕ) (p : Pool I W) : Type 0 where
    pub inv : PoolInv p
    pub opened : p.state.closed ≡ false
    pub live : length p.state.all ≡ n
    pub idling : length p.state.idle ≡ n

-- Receiving takes the head of the channel.
pub try_receive_cases :
    (p : State)
    → ((p.idle ≡ []) × (try_receive p ≡ none))
      ⊎ ((h : ℕ) × (rest : List ℕ) × (p.idle ≡ h ∷ rest)
          × (try_receive p ≡ some (h, record p { idle = rest })))
unfolding try_receive
try_receive_cases p = elim (List-cases p.idle) [
  | inl e ↦ inl (e, rw (e, try_receive))
  | inr (h, rest, e) ↦ inr (h, rest, e, rw (e, try_receive))
]

pub register-StateInv :
    (h : ℕ) (s : State)
    → StateInv s h
    → pos (suc (length s.all)) ≤ℤ s.cfg.max
    → s.closed ≡ false
    → StateInv (register h s) (suc h)
unfolding register
register-StateInv h s v room open_ = record {
  once = λ j.
      ground (arith, insert_fresh h s.all (v.allocated h (omega arith)), v.once j, v.allocated j);
  parked = λ j. ground (arith, insert_fresh h s.all (v.allocated h (omega arith)), v.parked j);
  allocated =
      λ j k. ground (arith, insert_fresh h s.all (v.allocated h (omega arith)), v.allocated j);
  bounded = ground (arith, insert_fresh h s.all (v.allocated h (omega arith)));
  shut = λ e. cc;
}

pub forget-StateInv :
    (h n : ℕ) (s : State) → StateInv s n → count h s.idle ≡ 0 → StateInv (forget h s) n
unfolding forget
forget-StateInv h n s v out = record {
  once = λ j. ground (arith, count-delete h j s.all, v.once j);
  parked = λ j. ground (arith, count-delete h j s.all, v.parked j);
  allocated = λ j k. ground (arith, count-delete h j s.all, v.allocated j);
  bounded = omega (arith, length-delete h s.all, v.bounded);
  shut = λ e. omega (arith, length-delete h s.all, v.shut e);
}

pub send-StateInv :
    (h n : ℕ) (s : State)
    → StateInv s n
    → count h s.idle ≡ 0
    → count h s.all ≡ 1
    → StateInv (send h s) n
unfolding send
send-StateInv h n s v out reg = record {
  once = v.once;
  parked = λ j. ground (arith, count-append j s.idle (h ∷ []), v.parked j);
  allocated = v.allocated;
  bounded = v.bounded;
  shut = v.shut;
}

-- A holder that leaves the channel was registered, and is there no more.
pub receive-StateInv :
    (h n : ℕ) (rest : List ℕ) (s : State)
    → StateInv s n
    → s.idle ≡ h ∷ rest
    → StateInv (record s { idle = rest }) n
      × (count h rest ≡ 0)
      × (count h s.all ≡ 1)
      × (s.closed ≡ false)
receive-StateInv h n rest s v e = (
  record {
    once = v.once;
    parked = λ j. ground (arith, v.parked j, ap (count j) e);
    allocated = v.allocated;
    bounded = v.bounded;
    shut = v.shut;
  },
  ground (arith, v.parked h, v.once h, ap (count h) e),
  ground (arith, v.parked h, v.once h, ap (count h) e),
  ground (arith, v.shut, v.parked h, v.once h, ap (count h) e, count-le-length h s.all),
)
