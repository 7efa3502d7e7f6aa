-- ===== src/Pool/Accounts/Calls.antt =====
-- Every method of a pool keeps its accounts.
use podman_sandbox_runner.Base.{
  ℕ, zero, suc, ◌+◌, true, ◌≡◌, refl, ap, inl, inr, none, some, count, insert, length, sum, sum_ext,
  sum-delete, sum_change, insert_fresh, arith, ◌==◌, Bool-cases,
}
use podman_sandbox_runner.Sandbox.{Fallible, ok, err}
use podman_sandbox_runner.Pool.State.{send, forget, register}
use podman_sandbox_runner.Pool.Ops.{
  PoolImpl, Pool, Holder, put, Context, Job, Select, receive, ctx_done, allocate, note_new,
  call_new, settle, scale_up, wait_idle, acquire, run, drop, reap_loop, reap_idle, enroll,
  create_holder,
}
use podman_sandbox_runner.Pool.Invariant.{PoolInv, try_receive_cases}
use podman_sandbox_runner.Pool.Acquire.{acquire-Acquired, reserve_cases, receive-InHand}
use podman_sandbox_runner.Pool.Reaper.{
  taken, put_back, stops, rotates, reaps, turn, drop-taken-PoolInv,
}
use podman_sandbox_runner.Pool.Accounts.{
  Meter, worth_impl, worth, IsBalanced, drop-IsBalanced, run_acquired-IsBalanced,
}

module _ {I W : Type 0} (ops : PoolImpl I W) (f : I → ℕ) (m : Meter ops f) where
  -- Whatever a call answers, the pool behind it.
  abbrev Keeps : {A : Type 0} → A × Pool I W → Type 0
  Keeps q = IsBalanced ops f m q.1

  wait_idle-Keeps :
      (sel : Select) (p : Pool I W) → IsBalanced ops f m p → Keeps (wait_idle ops sel p)
  unfolding wait_idle
  wait_idle-Keeps (ctx_done e) p b = b
  wait_idle-Keeps receive p b = elim (try_receive_cases p.state) [
    | inl (_, e) ↦ rw (e, wait_idle) b
    | inr (h, rest, e, r) ↦ rw (r, wait_idle) b
  ]

  -- The reserved slot gets its implementation, or is given back.
  settle-Keeps :
      (h : ℕ) (p : Pool I W) (answer : Fallible I × W)
      → count h p.state.all ≡ 1
      → (p.holders h).impl ≡ none
      → ops.new_impl p.world ≡ answer
      → IsBalanced ops f m p
      → IsBalanced ops f m (settle ops h (note_new ops p answer)).1
  unfolding settle note_new put forget
  settle-Keeps h p (ok i, w) reg empty called b = omega (
    arith,
    b,
    m.on_made p.world w p.log i called,
    ap (worth_impl f) empty,
    sum_change (worth f p.holders)
        (worth f (put h (record (p.holders h) { impl = some i }) p.holders)) h p.state.all reg
        (λ x q. rw q refl),
    full_lem,
  )
    where
      full_lem : worth f (put h (record (p.holders h) { impl = some i }) p.holders) h ≡ f i
      full_lem = let self : (h == h) ≡ true = ground arith in rw self refl
  settle-Keeps h p (err x, w) reg empty called b = omega (
    arith,
    b,
    m.on_failed p.world w p.log x called,
    sum-delete (worth f p.holders) h p.state.all reg,
    ap (worth_impl f) empty,
  )

  -- A new holder in the map adds its own worth.
  joined :
      (x : Holder I) (p : Pool I W)
      → PoolInv p
      → sum (worth f (put p.fresh x p.holders)) (insert p.fresh p.state.all)
        ≡ worth_impl f x.impl + sum (worth f p.holders) p.state.all
  unfolding put
  joined x p v =
      rw (insert_fresh p.fresh p.state.all (v.state_inv.allocated p.fresh (omega arith)))
        (omega (arith, self, others))
    where
      self : worth f (put p.fresh x p.holders) p.fresh ≡ worth_impl f x.impl
      self = let same : (p.fresh == p.fresh) ≡ true = ground arith in rw same refl

      others :
          sum (worth f (put p.fresh x p.holders)) p.state.all ≡ sum (worth f p.holders) p.state.all
      others = sum_ext _ _ p.state.all (λ j k. elim (Bool-cases (j == p.fresh)) [
        | inl q ↦ absurd (ground (arith, q, k, v.state_inv.allocated p.fresh))
        | inr q ↦ rw q refl
      ])

  reserve-IsBalanced :
      (now : ℕ) (p : Pool I W)
      → PoolInv p
      → IsBalanced ops f m p
      → IsBalanced ops f m (record (allocate ops none now p).1 { state = register p.fresh p.state })
  unfolding allocate register
  reserve-IsBalanced now p v b =
      omega (arith, b, joined (record { impl = none; dead = none; last_used = now }) p v)

  -- The slot that `acquire` reserves.
  abbrev slot : ℕ → Pool I W → Pool I W
  slot now p = record (allocate ops none now p).1 { state = register p.fresh p.state }

  slot_registered : (now : ℕ) (p : Pool I W) → PoolInv p → count p.fresh (slot now p).state.all ≡ 1
  unfolding register
  slot_registered now p v =
      rw (insert_fresh p.fresh p.state.all (v.state_inv.allocated p.fresh (omega arith)))
        (ground (arith, v.state_inv.allocated p.fresh))

  slot_empty : (now : ℕ) (p : Pool I W) → ((slot now p).holders p.fresh).impl ≡ none
  unfolding allocate put
  slot_empty now p = let same : (p.fresh == p.fresh) ≡ true = ground arith in rw same refl

  slot_settled :
      (now : ℕ) (p : Pool I W)
      → PoolInv p
      → IsBalanced ops f m p
      → IsBalanced ops f m (scale_up ops p.fresh (slot now p)).1
  unfolding scale_up call_new
  slot_settled now p v b =
      settle-Keeps p.fresh (slot now p) (ops.new_impl (slot now p).world) (slot_registered now p v)
        (slot_empty now p) refl (reserve-IsBalanced now p v b)

  -- `acquire`, on each of its branches.
  acquire-IsBalanced :
      (now : ℕ) (sel : Select) (p : Pool I W)
      → PoolInv p
      → IsBalanced ops f m p
      → IsBalanced ops f m (acquire ops now sel p).1
  unfolding acquire allocate
  acquire-IsBalanced now sel p v b = elim (try_receive_cases p.state) [
    | inr (h, rest, e, r) ↦ rw (r, acquire) b
    | inl (_, r) ↦
        rw (r, acquire)
          (elim (reserve_cases ops p.fresh p.state) [
            | inl (_, q) ↦ rw q b
            | inr (inl (open_, room, q)) ↦ rw q (unfold allocate in slot_settled now p v b)
            | inr (inr (_, _, q)) ↦ rw q (wait_idle-Keeps sel p b)
          ])
  ]

  pub run-IsBalanced :
      (ctx : Context) (now : ℕ) (sel : Select) (job : Job) (p : Pool I W)
      → PoolInv p
      → IsBalanced ops f m p
      → IsBalanced ops f m (run ops ctx now sel job p).1
  unfolding run
  run-IsBalanced ctx now sel job p v b =
      run_acquired-IsBalanced ops f m ctx now job (acquire ops now sel p)
        (acquire-Acquired ops now sel p v) (acquire-IsBalanced now sel p v b)

  reap_loop-IsBalanced :
      (fuel now : ℕ) (p : Pool I W)
      → PoolInv p
      → IsBalanced ops f m p
      → IsBalanced ops f m (reap_loop ops fuel now p)
  reap_loop-IsBalanced zero now p v b = unfold reap_loop in b
  reap_loop-IsBalanced (suc fuel) now p v b = elim (turn ops now p) [
    | stops q ↦ rw (q fuel) b
    | rotates h rest e y q ↦ rw (q fuel) (unfold put_back send in b)
    | reaps h rest e y old q ↦
        let t = receive-InHand ops h rest p v e in
        rw (q fuel) (
          reap_loop-IsBalanced fuel now (drop ops h (taken ops p rest))
            (drop-taken-PoolInv ops h rest p v e)
            (drop-IsBalanced ops f m h (taken ops p rest) t.ready.0 t.registered t.ready.1 b))
  ]

  pub reap_idle-IsBalanced :
      (now : ℕ) (p : Pool I W)
      → PoolInv p
      → IsBalanced ops f m p
      → IsBalanced ops f m (reap_idle ops now p)
  unfolding reap_idle
  reap_idle-IsBalanced now p v b = reap_loop-IsBalanced (suc (length p.state.idle)) now p v b

  -- `createHolder`, at each answer of the backend.
  enroll-IsBalanced :
      (now : ℕ) (p : Pool I W) (answer : Fallible I × W)
      → PoolInv p
      → ops.new_impl p.world ≡ answer
      → IsBalanced ops f m p
      → IsBalanced ops f m (enroll ops now (note_new ops p answer)).1
  unfolding enroll note_new allocate register
  enroll-IsBalanced now p (err e, w) v called b =
      omega (arith, b, m.on_failed p.world w p.log e called)
  enroll-IsBalanced now p (ok i, w) v called b = omega (
    arith,
    b,
    joined (record { impl = some i; dead = none; last_used = now }) p v,
    m.on_made p.world w p.log i called,
  )

  pub create_holder-IsBalanced :
      (now : ℕ) (p : Pool I W)
      → PoolInv p
      → IsBalanced ops f m p
      → IsBalanced ops f m (create_holder ops now p).1
  unfolding create_holder call_new
  create_holder-IsBalanced now p v b = enroll-IsBalanced now p (ops.new_impl p.world) v refl b
