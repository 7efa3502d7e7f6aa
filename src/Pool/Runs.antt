-- ===== src/Pool/Runs.antt =====
-- `Run` with `release` and `drop`: a call leaves the pool as sound as it found it.
use podman_sandbox_runner.Base.{
  ℕ, false, ◌≡◌, Option, none, some, [], ◌∷◌, ◌++◌, count, count-append, arith, count-delete,
  length-delete, has-count,
}
use podman_sandbox_runner.Sandbox.{Error, Fallible, ok, err, Ran}
use podman_sandbox_runner.Pool.State.{State, send, forget, send_back, release_section, drop_section}
use podman_sandbox_runner.Pool.Ops.{
  PoolImpl, Pool, ran, cleaned, checked, closed_impl, Context, Job, put, call_close, release, drop,
  conclude, run_on, run_holder, run_acquired, run, acquire, Select,
}
use podman_sandbox_runner.Pool.Invariant.{
  creations-append, closures-append, PoolInv, InHand, forget-StateInv, send-StateInv,
}
use podman_sandbox_runner.Pool.Acquire.{Acquired, acquire-Acquired}

module _ {I W : Type 0} (ops : PoolImpl I W) where
  release_section_open : (h : ℕ) (s : State) → s.closed ≡ false → release_section h s ≡ send_back
  unfolding release_section
  release_section_open h s e = ground arith

  pub release_lem :
      (now h : ℕ) (p : Pool I W)
      → p.state.closed ≡ false
      → release ops now h p ≡ record p {
        state = send h p.state;
        holders = put h (record (p.holders h) { last_used = now }) p.holders;
      }
  unfolding release
  release_lem now h p e = rw (release_section_open h p.state e, release)

  pub release-PoolInv : (now h : ℕ) (p : Pool I W) → InHand h p → PoolInv (release ops now h p)
  unfolding put
  release-PoolInv now h p v = rw (release_lem now h p v.opened) (record {
    state_inv = send-StateInv h p.fresh p.state v.inv.state_inv v.out v.registered;
    built = λ j k. let (i, e) = v.inv.built j (unfold send in k) in (i, ground (arith, e));
    alive = λ j k.
        unfold send in
        ground (arith, k, v.fit, v.inv.alive j, count-append j p.state.idle (h ∷ []));
    calm = v.inv.calm;
    balance = unfold send in v.inv.balance;
  })

  pub drop_lem :
      (h : ℕ) (p : Pool I W) (i : I)
      → count h p.state.all ≡ 1
      → (p.holders h).impl ≡ some i
      → drop ops h p ≡ record p {
        state = forget h p.state;
        world = (ops.close i p.world).1;
        log = p.log ++ closed_impl i ∷ [];
      }
  unfolding drop drop_section call_close
  drop_lem h p i reg e =
      rw (has-count h p.state.all (omega arith), e, drop, drop_section, call_close)

  -- The holder that `drop` takes out is closed.
  pub drop-PoolInv :
      (h : ℕ) (p : Pool I W) (i : I)
      → PoolInv p
      → count h p.state.idle ≡ 0
      → count h p.state.all ≡ 1
      → (p.holders h).impl ≡ some i
      → PoolInv (drop ops h p)
  drop-PoolInv h p i v out reg e = rw (drop_lem h p i reg e) (record {
    state_inv = forget-StateInv h p.fresh p.state v.state_inv out;
    built = λ j k. v.built j (unfold forget in ground (arith, k, count-delete h j p.state.all));
    alive = unfold forget in v.alive;
    calm = v.calm;
    balance =
        unfold forget in
        omega (
          arith,
          v.balance,
          length-delete h p.state.all,
          creations-append p.log (closed_impl i ∷ []),
          closures-append p.log (closed_impl i ∷ []),
        );
  })

  -- The calls of a run in the log change nothing that the invariant speaks of.
  pub ran-InHand :
      (h : ℕ) (i : I) (w : W) (p : Pool I W)
      → InHand h p
      → InHand h (record p { world = w; log = p.log ++ ran i ∷ cleaned i ∷ checked i ∷ [] })
  ran-InHand h i w p v = record {
    inv = record {
      state_inv = v.inv.state_inv;
      built = v.inv.built;
      alive = v.inv.alive;
      calm = v.inv.calm;
      balance = omega (
        arith,
        v.inv.balance,
        creations-append p.log (ran i ∷ cleaned i ∷ checked i ∷ []),
        closures-append p.log (ran i ∷ cleaned i ∷ checked i ∷ []),
      );
    };
    out = v.out;
    registered = v.registered;
    fit = v.fit;
    opened = v.opened;
    ready = v.ready;
  }

  dying-PoolInv :
      (h : ℕ) (e : Error) (p : Pool I W)
      → InHand h p
      → PoolInv (record p { holders = put h (record (p.holders h) { dead = some e }) p.holders })
  unfolding put
  dying-PoolInv h e p v = record {
    state_inv = v.inv.state_inv;
    built = λ j k. let (i, q) = v.inv.built j k in (i, ground (arith, q));
    alive = λ j k. ground (arith, k, v.out, v.inv.alive j);
    calm = v.inv.calm;
    balance = v.inv.balance;
  }

  conclude-PoolInv :
      (h now : ℕ) (r : Ran) (check : Option Error) (p : Pool I W)
      → InHand h p
      → PoolInv (conclude ops h now r check p).1
  unfolding conclude
  conclude-PoolInv h now r none p v = release-PoolInv now h p v
  conclude-PoolInv h now r (some e) p v =
      drop-PoolInv h _ v.ready.0 (dying-PoolInv h e p v) v.out v.registered
        (unfold put in ground (arith, v.ready.1))

  run_on-PoolInv :
      (h : ℕ) (i : I) (ctx : Context) (now : ℕ) (job : Job) (p : Pool I W)
      → InHand h p
      → PoolInv (run_on ops h i ctx now job p).1
  unfolding run_on
  run_on-PoolInv h i ctx now job p v = conclude-PoolInv h now _ _ _ (ran-InHand h i _ p v)

  -- A holder in hand is never dead and always built.
  pub run_holder_lem :
      (h : ℕ) (ctx : Context) (now : ℕ) (job : Job) (p : Pool I W) (v : InHand h p)
      → run_holder ops h ctx now job p ≡ run_on ops h v.ready.0 ctx now job p
  unfolding run_holder
  run_holder_lem h ctx now job p v = rw (v.fit, v.ready.1, run_holder)

  run_acquired-PoolInv :
      (ctx : Context) (now : ℕ) (job : Job) (got : Option (Fallible ℕ) × Pool I W)
      → Acquired ops got
      → PoolInv (run_acquired ops ctx now job got).1
  unfolding run_acquired
  run_acquired-PoolInv ctx now job (none, p) v = v
  run_acquired-PoolInv ctx now job (some (err e), p) v = v
  run_acquired-PoolInv ctx now job (some (ok h), p) v =
      rw (run_holder_lem h ctx now job p v) (run_on-PoolInv h v.ready.0 ctx now job p v)

  -- `Run` keeps the invariant of a pool that satisfies it, however it ends: with the channel's holder, a new one, an
  -- error of the backend, a dead holder, a closed pool or a call that still waits.
  pub run-PoolInv :
      (ctx : Context) (now : ℕ) (sel : Select) (job : Job) (p : Pool I W)
      → PoolInv p
      → PoolInv (run ops ctx now sel job p).1
  unfolding run
  run-PoolInv ctx now sel job p v =
      run_acquired-PoolInv ctx now job (acquire ops now sel p) (acquire-Acquired ops now sel p v)
