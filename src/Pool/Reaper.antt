-- ===== src/Pool/Reaper.antt =====
-- `reapIdle`: what a tick of the reaper closes, and what it keeps.
use podman_sandbox_runner.Base.{
  ℕ, zero, suc, ◌≤◌, ◌<◌, pos, ◌≤ℤ◌, leb_ℤ, true, false, ◌≡◌, refl, ap, ◌∙◌, sym, ◌⊎◌, inl, inr,
  List, [], ◌∷◌, length, count, count-append, arith, ◌==◌, Bool-cases, count-delete, length-delete,
}
use podman_sandbox_runner.Pool.State.{send, forget}
use podman_sandbox_runner.Pool.Ops.{PoolImpl, Pool, drop, young, reap_loop, reap_idle}
use podman_sandbox_runner.Pool.Invariant.{PoolInv, InHand, try_receive_cases, send-StateInv}
use podman_sandbox_runner.Pool.Acquire.{receive-InHand}
use podman_sandbox_runner.Pool.Runs.{drop_lem, drop-PoolInv}

module _ {I W : Type 0} (ops : PoolImpl I W) where
  -- Putting a holder back into the channel.
  pub send-PoolInv :
      (h : ℕ) (p : Pool I W) → InHand h p → PoolInv (record p { state = send h p.state })
  send-PoolInv h p v = record {
    state_inv = send-StateInv h p.fresh p.state v.inv.state_inv v.out v.registered;
    built = unfold send in v.inv.built;
    alive = λ j k.
        unfold send in
        ground (arith, k, v.fit, v.inv.alive j, count-append j p.state.idle (h ∷ []));
    calm = v.inv.calm;
    balance = unfold send in v.inv.balance;
  }

  abbrev pub taken : Pool I W → List ℕ → Pool I W
  taken p rest = record p { state = record (p.state) { idle = rest } }

  unfoldable pub put_back : ℕ → List ℕ → Pool I W → Pool I W
  put_back h rest p = record p { state = send h (record (p.state) { idle = rest }) }

  -- What one turn of the loop does: it stops, it puts a young holder back and stops, or it drops
  -- a holder and goes on.
  pub data Turn (now : ℕ) (p : Pool I W) : Type 0 where
    stops : ((fuel : ℕ) → reap_loop ops (suc fuel) now p ≡ p) → Turn now p
    rotates :
        (h : ℕ) (rest : List ℕ)
        → p.state.idle ≡ h ∷ rest
        → young ops now h (taken p rest) ≡ true
        → ((fuel : ℕ) → reap_loop ops (suc fuel) now p ≡ put_back h rest p)
        → Turn now p
    reaps :
        (h : ℕ) (rest : List ℕ)
        → p.state.idle ≡ h ∷ rest
        → young ops now h (taken p rest) ≡ false
        → leb_ℤ (pos (length p.state.all)) p.state.cfg.min ≡ false
        → ((fuel : ℕ)
            → reap_loop ops (suc fuel) now p ≡ reap_loop ops fuel now (drop ops h (taken p rest)))
        → Turn now p

  pub turn : (now : ℕ) (p : Pool I W) → Turn now p
  unfolding reap_loop put_back
  turn now p = elim (Bool-cases (leb_ℤ (pos (length p.state.all)) p.state.cfg.min)) [
    | inl e ↦ stops (λ f. rw e)
    | inr e ↦ elim (try_receive_cases p.state) [
      | inl (_, r) ↦ stops (λ f. rw (e, r, reap_loop))
      | inr (h, rest, q, r) ↦ elim (Bool-cases (young ops now h (taken p rest))) [
        | inl y ↦ rotates h rest q y (λ f. rw (e, r, y, reap_loop))
        | inr y ↦ reaps h rest q y e (λ f. rw (e, r, y, reap_loop))
      ]
    ]
  ]

  pub drop-taken-PoolInv :
      (h : ℕ) (rest : List ℕ) (p : Pool I W)
      → PoolInv p
      → p.state.idle ≡ h ∷ rest
      → PoolInv (drop ops h (taken p rest))
  drop-taken-PoolInv h rest p v e =
      let t = receive-InHand ops h rest p v e in
      drop-PoolInv ops h (taken p rest) t.ready.0 t.inv t.out t.registered t.ready.1

  reap_loop-PoolInv : (fuel now : ℕ) (p : Pool I W) → PoolInv p → PoolInv (reap_loop ops fuel now p)
  reap_loop-PoolInv zero now p v = unfold reap_loop in v
  reap_loop-PoolInv (suc fuel) now p v = elim (turn now p) [
    | stops q ↦ rw (q fuel) v
    | rotates h rest e y q ↦
        rw (q fuel)
          (unfold put_back in send-PoolInv h (taken p rest) (receive-InHand ops h rest p v e))
    | reaps h rest e y m q ↦
        rw (q fuel)
          (reap_loop-PoolInv fuel now (drop ops h (taken p rest)) (drop-taken-PoolInv h rest p v e))
  ]

  pub reap_idle-PoolInv : (now : ℕ) (p : Pool I W) → PoolInv p → PoolInv (reap_idle ops now p)
  unfolding reap_idle
  reap_idle-PoolInv now p v = reap_loop-PoolInv (suc (length p.state.idle)) now p v

  -- What reaping leaves alone: the holders out of the channel, those that are young, and as many as
  -- Min.
  pub record Spares (now : ℕ) (p q : Pool I W) : Type 0 where
    pub floor :
        p.state.cfg.min ≤ℤ pos (length p.state.all) → p.state.cfg.min ≤ℤ pos (length q.state.all)
    pub in_use : (h : ℕ) → count h p.state.idle ≡ 0 → count h q.state.all ≡ count h p.state.all
    pub in_time : (h : ℕ) → young ops now h p ≡ true → count h q.state.all ≡ count h p.state.all
    pub idle_le : (h : ℕ) → count h q.state.idle ≤ count h p.state.idle
    pub same_cfg : q.state.cfg ≡ p.state.cfg
    pub same_holders : q.holders ≡ p.holders

  Spares-trans : {now : ℕ} {p q r : Pool I W} → Spares now p q → Spares now q r → Spares now p r
  unfolding young
  Spares-trans a b = record {
    floor = λ h. rw (← a.same_cfg) (b.floor (rw a.same_cfg (a.floor h)));
    in_use = λ h e. b.in_use h (omega (arith, a.idle_le h)) ∙ a.in_use h e;
    in_time = λ h e. b.in_time h (rw (a.same_cfg, a.same_holders) e) ∙ a.in_time h e;
    idle_le = λ h. omega (arith, a.idle_le h, b.idle_le h);
    same_cfg = b.same_cfg ∙ a.same_cfg;
    same_holders = b.same_holders ∙ a.same_holders;
  }

  drop-taken-Spares :
      (now h : ℕ) (rest : List ℕ) (p : Pool I W)
      → PoolInv p
      → p.state.idle ≡ h ∷ rest
      → young ops now h (taken p rest) ≡ false
      → leb_ℤ (pos (length p.state.all)) p.state.cfg.min ≡ false
      → Spares now p (drop ops h (taken p rest))
  unfolding forget young
  drop-taken-Spares now h rest p v e old more =
      rw (drop_lem ops h (taken p rest) t.ready.0 t.registered t.ready.1) (record {
        floor = λ k. ground (arith, more, t.registered, length-delete h p.state.all);
        in_use = λ j k. ground (arith, k, ap (count j) e, count-delete h j p.state.all);
        in_time = λ j k. elim (Bool-cases (h == j)) [
          | inl same ↦ absurd (ground (arith, k, old, same))
          | inr other ↦ ground (arith, other, count-delete h j p.state.all)
        ];
        idle_le = λ j. ground (arith, ap (count j) e);
        same_cfg = refl;
        same_holders = refl;
      })
    where
      t : InHand h (taken p rest)
      t = receive-InHand ops h rest p v e

  Spares-refl : (now : ℕ) (p : Pool I W) → Spares now p p
  Spares-refl now p = record {
    floor = λ h. h;
    in_use = λ h e. refl;
    in_time = λ h e. refl;
    idle_le = λ h. omega arith;
    same_cfg = refl;
    same_holders = refl;
  }

  put_back-Spares :
      (now h : ℕ) (rest : List ℕ) (p : Pool I W)
      → p.state.idle ≡ h ∷ rest
      → Spares now p (put_back h rest p)
  unfolding put_back send
  put_back-Spares now h rest p e = record {
    floor = λ h. h;
    in_use = λ h e. refl;
    in_time = λ h e. refl;
    idle_le = λ j. omega (arith, count-append j rest (h ∷ []), ap (count j) e);
    same_cfg = refl;
    same_holders = refl;
  }

  reap_loop-Spares :
      (fuel now : ℕ) (p : Pool I W) → PoolInv p → Spares now p (reap_loop ops fuel now p)
  reap_loop-Spares zero now p v = unfold reap_loop in Spares-refl now p
  reap_loop-Spares (suc fuel) now p v = elim (turn now p) [
    | stops q ↦ rw (q fuel) (Spares-refl now p)
    | rotates h rest e y q ↦ rw (q fuel) (put_back-Spares now h rest p e)
    | reaps h rest e y m q ↦ rw (q fuel) (
        Spares-trans (drop-taken-Spares now h rest p v e y m)
          (reap_loop-Spares fuel now (drop ops h (taken p rest)) (drop-taken-PoolInv h rest p v e)))
  ]

  pub reap_idle-Spares : (now : ℕ) (p : Pool I W) → PoolInv p → Spares now p (reap_idle ops now p)
  unfolding reap_idle
  reap_idle-Spares now p v = reap_loop-Spares (suc (length p.state.idle)) now p v

  -- A tick of the reaper on a pool that satisfies its invariant leaves at least Min holders registered
  -- where it found at least Min, as long as no other goroutine acts on the pool meanwhile.
  pub reap_idle_min :
      (now : ℕ) (p : Pool I W)
      → PoolInv p
      → p.state.cfg.min ≤ℤ pos (length p.state.all)
      → p.state.cfg.min ≤ℤ pos (length (reap_idle ops now p).state.all)
  reap_idle_min now p v = (reap_idle-Spares now p v).floor

  -- A tick of the reaper on a pool that satisfies its invariant leaves a holder registered that is in
  -- use, which is to say out of the channel, or that was used within the idle timeout.
  pub reap_idle_spares :
      (now : ℕ) (p : Pool I W) (h : ℕ)
      → PoolInv p
      → (count h p.state.idle ≡ 0) ⊎ (young ops now h p ≡ true)
      → count h (reap_idle ops now p).state.all ≡ count h p.state.all
  reap_idle_spares now p h v (inl used) = (reap_idle-Spares now p v).in_use h used
  reap_idle_spares now p h v (inr recent) = (reap_idle-Spares now p v).in_time h recent

  -- The loop ends by one of its returns: with more fuel than parked holders, the amount of fuel
  -- makes no difference.
  reap_loop_fuel :
      (f g now : ℕ) (p : Pool I W)
      → PoolInv p
      → length p.state.idle < f
      → length p.state.idle < g
      → reap_loop ops f now p ≡ reap_loop ops g now p
  reap_loop_fuel zero g now p v a b = absurd (omega arith)
  reap_loop_fuel (suc f) zero now p v a b = absurd (omega arith)
  reap_loop_fuel (suc f) (suc g) now p v a b = elim (turn now p) [
    | stops q ↦ q f ∙ sym (q g)
    | rotates h rest e y q ↦ q f ∙ sym (q g)
    | reaps h rest e y m q ↦
        q f
        ∙ (reap_loop_fuel f g now (drop ops h (taken p rest)) (drop-taken-PoolInv h rest p v e)
              (fewer h rest e f a) (fewer h rest e g b)
            ∙ sym (q g))
  ]
    where
      fewer :
          (h : ℕ) (rest : List ℕ)
          → p.state.idle ≡ h ∷ rest
          → (k : ℕ) → length p.state.idle < suc k
          → length (drop ops h (taken p rest)).state.idle < k
      fewer h rest e k lt =
          rw
            (drop_lem ops h (taken p rest) (t h rest e).ready.0 (t h rest e).registered
              (t h rest e).ready.1)
            (unfold forget in omega (arith, ap length e))
        where
          t : (h : ℕ) (rest : List ℕ) → p.state.idle ≡ h ∷ rest → InHand h (taken p rest)
          t h rest e = receive-InHand ops h rest p v e

  -- On a pool that satisfies its invariant the loop of `reapIdle` ends by one of its returns: any
  -- number of turns above the number of parked holders gives what `reap_idle` gives.
  pub reap_idle_terminates :
      (fuel now : ℕ) (p : Pool I W)
      → PoolInv p
      → length p.state.idle < fuel
      → reap_loop ops fuel now p ≡ reap_idle ops now p
  unfolding reap_idle
  reap_idle_terminates fuel now p v h = reap_loop_fuel fuel _ now p v h (omega arith)
