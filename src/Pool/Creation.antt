-- ===== src/Pool/Creation.antt =====
-- `NewPool`: it starts Min holders, all parked, or closes what it made and reports the error.
use podman_sandbox_runner.Base.{
  ℕ, zero, suc, ◌+◌, pos, pos_part, ◌≤ℤ◌, false, ◌≡◌, refl, ap, inl, inr, Option, none, some, [],
  ◌∷◌, length, length-append, arith, ◌==◌, Bool-cases, insert, insert_fresh, is_empty,
}
use mathlib.Core.Path.{subst}
use native.Mathlib.Nat.{zero-add, add-zero}
use podman_sandbox_runner.Sandbox.{Error, Fallible, ok, err, Fallible-cases, Opts}
use podman_sandbox_runner.Pool.Config.{
  PoolConfig, IsNormal, normalize, normalize-IsNormal, normalize_min,
}
use podman_sandbox_runner.Pool.State.{register, send}
use podman_sandbox_runner.Pool.Ops.{
  PoolImpl, Pool, created, put, call_new, note_new, allocate, enroll, create_holder, fill,
  empty_pool, no_user, started, new_pool,
}
use podman_sandbox_runner.Pool.Invariant.{
  creations, closures, creations-append, closures-append, PoolInv, IsShut, IsWarm, InHand,
  register-StateInv,
}
use podman_sandbox_runner.Pool.Reaper.{send-PoolInv}
use podman_sandbox_runner.Pool.Closing.{close-IsShut}

module _ {I W : Type 0} (ops : PoolImpl I W) where
  -- A pool with room for one more holder.
  record HasRoom (p : Pool I W) : Type 0 where
    inv : PoolInv p
    room : pos (suc (length p.state.all)) ≤ℤ p.state.cfg.max
    opened : p.state.closed ≡ false

  -- What `createHolder` answers with.
  abbrev Enrolled : Pool I W → Fallible ℕ × Pool I W → Type 0
  Enrolled p (ok h, q) =
      InHand h q
      × (length q.state.all ≡ suc (length p.state.all))
      × (q.state.idle ≡ p.state.idle)
      × (q.state.cfg ≡ p.state.cfg)
  Enrolled p (err e, q) = PoolInv q × (q.state.closed ≡ false)

  enroll-Enrolled :
      (now : ℕ) (p : Pool I W) (made : Fallible I × W)
      → HasRoom p
      → Enrolled p (enroll ops now (note_new ops p made))
  unfolding enroll note_new allocate register put
  enroll-Enrolled now p (err e, w) v = (
    record {
      state_inv = v.inv.state_inv;
      built = v.inv.built;
      alive = v.inv.alive;
      calm = v.inv.calm;
      balance = v.inv.balance;
    },
    v.opened,
  )
  enroll-Enrolled now p (ok i, w) v = (
    record {
      inv = record {
        state_inv = register-StateInv p.fresh p.state v.inv.state_inv v.room v.opened;
        built = λ j k. elim (Bool-cases (j == p.fresh)) [
          | inl e ↦ (i, rw e)
          | inr e ↦ let (i', q) = v.inv.built j (ground (arith, k, fresh_all)) in (i', rw e q)
        ];
        alive = λ j k. ground (arith, v.inv.alive j);
        calm = v.inv.calm;
        balance = omega (
          arith,
          v.inv.balance,
          ap length fresh_all,
          creations-append p.log (created i ∷ []),
          closures-append p.log (created i ∷ []),
        );
      };
      out = ground (arith, v.inv.state_inv.parked p.fresh, v.inv.state_inv.allocated p.fresh);
      registered = ground (arith, fresh_all, v.inv.state_inv.allocated p.fresh);
      fit = ground arith;
      opened = v.opened;
      ready = (i, ground arith);
    },
    ap length fresh_all,
    refl,
    refl,
  )
    where
      fresh_all : insert p.fresh p.state.all ≡ p.fresh ∷ p.state.all
      fresh_all = insert_fresh p.fresh p.state.all (v.inv.state_inv.allocated p.fresh (omega arith))

  create_holder-Enrolled :
      (now : ℕ) (p : Pool I W) → HasRoom p → Enrolled p (create_holder ops now p)
  unfolding create_holder call_new
  create_holder-Enrolled now p v = enroll-Enrolled now p (ops.new_impl p.world) v

  -- The outcomes of `NewPool` once its configuration is accepted.
  abbrev pub Started : ℕ → Option Error × Pool I W → Type 0
  Started n (none, p) = IsWarm n p
  Started n (some e, p) = IsShut p

  -- A holder that `createHolder` has made, and one that it could not make, on a pool with room.
  abbrev pub Stocked : ℕ → Pool I W → Fallible ℕ × Pool I W → Type 0
  Stocked n p (ok h, q) =
      IsWarm (suc n) (record q { state = send h q.state }) × (q.state.cfg ≡ p.state.cfg)
  Stocked n p (err e, q) = PoolInv q

  Enrolled-Stocked :
      (n : ℕ) (p : Pool I W) (made : Fallible ℕ × Pool I W)
      → IsWarm n p
      → Enrolled p made
      → Stocked n p made
  unfolding send
  Enrolled-Stocked n p (err e, q) v (t, opened) = t
  Enrolled-Stocked n p (ok h, q) v (t, more, same_idle, same_cfg) = (
    record {
      inv = unfold send in send-PoolInv ops h q t;
      opened = t.opened;
      live = omega (arith, more, v.live);
      idling = omega (arith, length-append q.state.idle (h ∷ []), ap length same_idle, v.idling);
    },
    same_cfg,
  )

  pub create_holder-Stocked :
      (now n : ℕ) (p : Pool I W)
      → IsWarm n p
      → pos (suc n) ≤ℤ p.state.cfg.max
      → Stocked n p (create_holder ops now p)
  create_holder-Stocked now n p v room = Enrolled-Stocked n p (create_holder ops now p) v (
      create_holder-Enrolled now p
        (record { inv = v.inv; room = omega (arith, room, v.live); opened = v.opened }))

  fill-Started :
      (left i now n : ℕ) (p : Pool I W)
      → IsWarm n p
      → pos (left + n) ≤ℤ p.state.cfg.max
      → Started (left + n) (fill ops left i now p)
  unfolding fill
  fill-Started zero i now n p v room = unfold fill in rw zero-add v
  fill-Started (suc left) i now n p v room = elim (Fallible-cases (create_holder ops now p).0) [
    | inl (h, e) ↦
        let (warm, same_cfg) = subst (λ g. Stocked n p (g, made.1)) e stocked in
        rw (e, fill, shift)
          (fill-Started left (suc i) now (suc n) _ warm
            (unfold send in rw same_cfg (omega (arith, room))))
    | inr (x, e) ↦
        rw (e, fill) (close-IsShut ops made.1 (subst (λ g. Stocked n p (g, made.1)) e stocked))
  ]
    where
      made : Fallible ℕ × Pool I W
      made = create_holder ops now p

      shift : suc left + n ≡ left + suc n
      shift = omega arith

      stocked : Stocked n p made
      stocked = create_holder-Stocked now n p v (omega (arith, room))

  pub empty_pool-IsWarm :
      (cfg : PoolConfig) (w : W) → IsNormal cfg → IsWarm 0 (empty_pool ops cfg w)
  unfolding empty_pool
  empty_pool-IsWarm cfg w v = record {
    inv = record {
      state_inv = omega (arith, v.max_positive);
      built = λ h k. absurd (omega arith);
      alive = λ h k. refl;
      calm = refl;
      balance = refl;
    };
    opened = refl;
    live = refl;
    idling = refl;
  }

  -- What `NewPool` answers with: a warm pool of Min holders; an error, with every holder that it
  -- made closed again.
  abbrev pub Created : ℕ → Fallible (Unit {0}) × Pool I W → Type 0
  Created n (ok _, p) = IsWarm n p
  Created n (err e, p) =
      (creations p.log ≡ closures p.log) × (p.state.all ≡ []) × (p.panicked ≡ false)

  started-Created : (n : ℕ) (r : Option Error × Pool I W) → Started n r → Created n (started ops r)
  started-Created n (none, p) v = v
  started-Created n (some e, p) v = (v.all_closed, v.none_registered, v.calm)

  refused-Created :
      (n : ℕ) (e : Error) (cfg : PoolConfig) (w : W) → Created n (err e, empty_pool ops cfg w)
  unfolding empty_pool
  refused-Created n e cfg w = (refl, refl, refl)

  -- `NewPool` either answers with an open pool that holds exactly Min holders, all parked and built
  -- and at most Max, or with an error; and then as many holders were closed as it made and none is
  -- registered.
  pub new_pool-Created :
      (o : Opts) (cfg : PoolConfig) (now : ℕ) (w : W)
      → Created (pos_part cfg.min) (new_pool ops o cfg now w)
  unfolding new_pool
  new_pool-Created o cfg now w = elim (Bool-cases (is_empty o.user)) [
    | inl e ↦ rw e (refused-Created (pos_part cfg.min) no_user cfg w)
    | inr e ↦ elim (Fallible-cases (normalize cfg)) [
      | inr (x, q) ↦ rw (e, q) (refused-Created (pos_part cfg.min) x cfg w)
      | inl (c, q) ↦
          rw (e, q, ← normalize_min cfg q)
            (started-Created (pos_part c.min) _ (filled c (normalize-IsNormal cfg q)))
    ]
  ]
    where
      filled :
          (c : PoolConfig)
          → IsNormal c
          → Started (pos_part c.min) (fill ops (pos_part c.min) 1 now (empty_pool ops c w))
      filled c v =
          subst (λ n. Started n (fill ops (pos_part c.min) 1 now (empty_pool ops c w)))
            (add-zero (pos_part c.min))
            (fill-Started (pos_part c.min) 1 now 0 (empty_pool ops c w) (empty_pool-IsWarm c w v)
              (unfold empty_pool in ground (arith, v.min_le_max, v.min_nonneg)))
