-- ===== src/Pool/Acquire.antt =====
-- `acquire`, `createHolder` and the sections below them keep the invariant of the pool.
use podman_sandbox_runner.Base.{
  ℕ, suc, ◌+◌, ◌<◌, pos, ◌≤ℤ◌, true, false, ◌≡◌, ◌⊎◌, inl, inr, Option, none, some, List, [], ◌∷◌,
  ◌++◌, length, count, arith, ◌==◌, Bool-cases, ap, ◌≢◌, insert, insert_fresh, count-delete,
  count-delete_self, length-delete,
}
use podman_sandbox_runner.Sandbox.{Fallible, ok, err}
use podman_sandbox_runner.Pool.State.{State, register, forget, pool_closed, reserved, full, reserve}
use podman_sandbox_runner.Pool.Ops.{
  PoolImpl, Pool, created, put, call_new, allocate, acquire, wait_idle, scale_up, settle, note_new,
  Select, receive, ctx_done, lift,
}
use podman_sandbox_runner.Pool.Invariant.{
  creations, closures, creations-append, closures-append, StateInv, PoolInv, InHand,
  try_receive_cases, register-StateInv, forget-StateInv, receive-StateInv,
}

module _ {I W : Type 0} (ops : PoolImpl I W) where
  -- The receive of a parked holder hands it over fit for a run.
  pub receive-InHand :
      (h : ℕ) (rest : List ℕ) (p : Pool I W)
      → PoolInv p
      → p.state.idle ≡ h ∷ rest
      → InHand h (record p { state = record (p.state) { idle = rest } })
  receive-InHand h rest p v e =
      let (s, out, reg, open_) = receive-StateInv h p.fresh rest p.state v.state_inv e in
      record {
        inv = record {
          state_inv = s;
          built = v.built;
          alive = λ j k. v.alive j (ground (arith, k, ap (count j) e));
          calm = v.calm;
          balance = v.balance;
        };
        out = out;
        registered = reg;
        fit = v.alive h (ground (arith, ap (count h) e));
        opened = open_;
        ready = v.built h (omega arith);
      }

  -- What `acquire` leaves behind in each case.
  abbrev pub Acquired : Option (Fallible ℕ) × Pool I W → Type 0
  Acquired (some (ok h), p) = InHand h p
  Acquired (some (err e), p) = PoolInv p
  Acquired (none, p) = PoolInv p

  wait_idle-Acquired : (sel : Select) (p : Pool I W) → PoolInv p → Acquired (wait_idle ops sel p)
  unfolding wait_idle
  wait_idle-Acquired (ctx_done e) p v = v
  wait_idle-Acquired receive p v = elim (try_receive_cases p.state) [
    | inl (_, e) ↦ rw (e, wait_idle) v
    | inr (h, rest, e, r) ↦ rw (r, wait_idle) (receive-InHand h rest p v e)
  ]

  -- The slot that `acquire` reserved: registered, and not built yet.
  record Reserved (h : ℕ) (p : Pool I W) : Type 0 where
    state_inv : StateInv p.state p.fresh
    built : (j : ℕ) → j ≢ h → 0 < count j p.state.all → (i : I) × ((p.holders j).impl ≡ some i)
    alive : (j : ℕ) → 0 < count j p.state.idle → (p.holders j).dead ≡ none
    calm : p.panicked ≡ false
    balance : creations p.log + 1 ≡ closures p.log + length p.state.all
    out : count h p.state.idle ≡ 0
    registered : count h p.state.all ≡ 1
    fit : (p.holders h).dead ≡ none
    opened : p.state.closed ≡ false

  scale_up_failed :
      (h : ℕ) (w : W) (p : Pool I W)
      → Reserved h p
      → PoolInv (record p { world = w; state = forget h p.state })
  scale_up_failed h w p v = record {
    state_inv = forget-StateInv h p.fresh p.state v.state_inv v.out;
    built = λ j k.
        v.built j (unfold forget in ground (arith, k, count-delete_self h p.state.all))
          (unfold forget in ground (arith, k, count-delete h j p.state.all));
    alive = unfold forget in v.alive;
    calm = v.calm;
    balance = unfold forget in omega (arith, v.balance, length-delete h p.state.all, v.registered);
  }

  scale_up_built :
      (h : ℕ) (i : I) (w : W) (p : Pool I W)
      → Reserved h p
      → InHand h (record p {
        world = w;
        log = p.log ++ created i ∷ [];
        holders = put h (record (p.holders h) { impl = some i }) p.holders;
      })
  unfolding put
  scale_up_built h i w p v = record {
    inv = record {
      state_inv = v.state_inv;
      built = λ j k. elim (Bool-cases (j == h)) [
        | inl e ↦ (i, rw e)
        | inr e ↦ let (i', q) = v.built j (ground arith) k in (i', rw e q)
      ];
      alive = λ j k. ground (arith, v.alive j, v.fit);
      calm = v.calm;
      balance =
          omega (
            arith,
            creations-append p.log (created i ∷ []),
            closures-append p.log (created i ∷ []),
          );
    };
    out = v.out;
    registered = v.registered;
    fit = ground (arith, v.fit);
    opened = v.opened;
    ready = (i, ground arith);
  }

  -- `settle` at each answer of the backend.
  settle-Acquired :
      (h : ℕ) (p : Pool I W) (made : Fallible I × W)
      → Reserved h p
      → Acquired (lift ops (settle ops h (note_new ops p made)))
  unfolding settle note_new
  settle-Acquired h p (ok i, w) v = scale_up_built h i w p v
  settle-Acquired h p (err x, w) v = scale_up_failed h w p v

  scale_up-Acquired : (h : ℕ) (p : Pool I W) → Reserved h p → Acquired (lift ops (scale_up ops h p))
  unfolding scale_up call_new
  scale_up-Acquired h p v = settle-Acquired h p (ops.new_impl p.world) v

  -- The three outcomes of the section under the mutex.
  pub reserve_cases :
      (h : ℕ) (s : State)
      → ((s.closed ≡ true) × (reserve h s ≡ pool_closed))
        ⊎ ((s.closed ≡ false)
            × (pos (suc (length s.all)) ≤ℤ s.cfg.max)
            × (reserve h s ≡ reserved (register h s)))
        ⊎ ((s.closed ≡ false) × (s.cfg.max ≤ℤ pos (length s.all)) × (reserve h s ≡ full))
  unfolding reserve
  reserve_cases h s = ground arith

  reserve-Reserved :
      (now : ℕ) (p : Pool I W)
      → PoolInv p
      → pos (suc (length p.state.all)) ≤ℤ p.state.cfg.max
      → p.state.closed ≡ false
      → Reserved p.fresh (record (allocate ops none now p).1 { state = register p.fresh p.state })
  unfolding allocate put
  reserve-Reserved now p v room open_ = record {
    state_inv = register-StateInv p.fresh p.state v.state_inv room open_;
    built = λ j ne k.
        let (i, e) = v.built j (unfold register in ground (arith, ne, k, fresh_all)) in
        (i, ground (arith, e));
    alive = λ j k. ground (arith, v.alive j (unfold register in k));
    calm = v.calm;
    balance = unfold register in ground (arith, v.balance, fresh_all);
    out =
        unfold register in
        ground (arith, v.state_inv.parked p.fresh, v.state_inv.allocated p.fresh);
    registered = unfold register in ground (arith, fresh_all, v.state_inv.allocated p.fresh);
    fit = ground arith;
    opened = unfold register in open_;
  }
    where
      fresh_all : insert p.fresh p.state.all ≡ p.fresh ∷ p.state.all
      fresh_all = insert_fresh p.fresh p.state.all (v.state_inv.allocated p.fresh (omega arith))

  -- On a pool that satisfies its invariant, `acquire` gives a holder that is registered, out of the
  -- channel, built and not dead; or an error, or it still waits, and the invariant holds. That covers
  -- all its branches: the channel, the reservation and its failure, the wait, and a closed pool.
  pub acquire-Acquired :
      (now : ℕ) (sel : Select) (p : Pool I W) → PoolInv p → Acquired (acquire ops now sel p)
  unfolding acquire allocate
  acquire-Acquired now sel p v = elim (try_receive_cases p.state) [
    | inr (h, rest, e, r) ↦ rw (r, acquire) (receive-InHand h rest p v e)
    | inl (_, r) ↦
        rw (r, acquire)
          (elim (reserve_cases p.fresh p.state) [
            | inl (_, q) ↦ rw q v
            | inr (inl (open_, room, q)) ↦
                rw q (scale_up-Acquired p.fresh _ (reserve-Reserved now p v room open_))
            | inr (inr (_, _, q)) ↦ rw q (wait_idle-Acquired sel p v)
          ])
  ]
