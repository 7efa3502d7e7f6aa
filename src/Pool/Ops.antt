-- ===== src/Pool/Ops.antt =====
-- The methods of `Pool`, as one goroutine runs them, over the backend's holders as an interface.
-- The other goroutines are the environment: where `acquire` blocks, `Select` says which case of
-- the select statement fires, and `receive` on an empty channel goes on blocking.
use podman_sandbox_runner.Base.{
  ℕ, zero, suc, ℤ, pos, sub_ℕ, pos_part, ltb_ℤ, leb_ℤ, Bool, true, false, Option, none, some, List,
  [], ◌∷◌, ◌++◌, length, ◌==◌, if◌then◌else◌, Text, is_empty,
}
use podman_sandbox_runner.Sandbox.{Error, Fallible, ok, err, errorf, wrapf, Ran, failed, Opts}
use podman_sandbox_runner.Pool.Config.{PoolConfig, normalize}
use podman_sandbox_runner.Pool.State.{
  State, try_receive, send, register, forget, pool_closed, reserved, full, reserve, send_back,
  tear_down, release_section, drop_section, mark_closed, sweep, drain,
}

-- The context of a call: the time at which it ends, if any.
pub record Context : Type 0 where
  pub deadline : Option ℤ

-- One call of `Pool.Run`: the command and, where there is one, what stdin holds.
pub record Job : Type 0 where
  pub cmd : List Text
  pub stdin : Option Text

-- `poolImpl` and the constructor of the backend; `W` is the world outside the process.
pub record PoolImpl (I W : Type 0) : Type 0 where
  pub new_impl : W → Fallible I × W
  pub run : I → Context → Job → W → Ran × W
  pub cleanup : I → W → W
  pub check_holder : I → W → Option Error × W
  pub close : I → W → Option Error × W

-- The calls that reach the backend, in order.
pub data Event (I : Type 0) : Type 0 where
  created ran cleaned checked closed_impl : I → Event I

-- `*holder`: a reservation has no implementation yet (Go's nil interface).
pub record Holder (I : Type 0) : Type 0 where
  pub impl : Option I
  pub dead : Option Error
  pub last_used : ℕ

pub record Pool (I W : Type 0) : Type 0 where
  pub state : State
  pub holders : ℕ → Holder I
  pub fresh : ℕ
  pub world : W
  pub log : List (Event I)
  pub panicked : Bool

pub data Select : Type 0 where
  receive : Select
  ctx_done : Error → Select

-- The write `*h = …` to the heap.
unfoldable pub put {ℓ} : {A : Type ℓ} → ℕ → A → (ℕ → A) → ℕ → A
put h a f j = if j == h then a else f j

abbrev pub no_user : Error
no_user = errorf "pool: Opts.User must be set" [] []

abbrev pub closed_error : Error
closed_error = errorf "pool: closed" [] []

module _ {I W : Type 0} (ops : PoolImpl I W) where
  -- `&holder{impl: impl, lastUsed: now}`, allocated and not yet registered.
  unfoldable pub allocate : Option I → ℕ → Pool I W → ℕ × Pool I W
  allocate impl now p = (
    p.fresh,
    record p {
      holders = put p.fresh (record { impl = impl; dead = none; last_used = now }) p.holders;
      fresh = suc p.fresh;
    },
  )

  unfoldable pub note_new : Pool I W → Fallible I × W → Fallible I × Pool I W
  note_new p (ok i, w) = (ok i, record p { world = w; log = p.log ++ created i ∷ [] })
  note_new p (err e, w) = (err e, record p { world = w })

  -- `newImpl(ctx)`, with the holder that it made in the log.
  unfoldable pub call_new : Pool I W → Fallible I × Pool I W
  call_new p = note_new p (ops.new_impl p.world)

  -- `h.impl.close(ctx)`: a call through a nil interface panics.
  unfoldable pub call_close : Option I → Pool I W → Option Error × Pool I W
  call_close none p = (none, record p { panicked = true })
  call_close (some i) p =
      let (e, w) = ops.close i p.world in
      (e, record p { world = w; log = p.log ++ closed_impl i ∷ [] })

  -- Registers an allocated holder: `p.all[h] = struct{}{}`.
  abbrev with_state : State → Pool I W → Pool I W
  with_state s p = record p { state = s }

  unfoldable pub enroll : ℕ → Fallible I × Pool I W → Fallible ℕ × Pool I W
  enroll now (err e, p) = (err e, p)
  enroll now (ok i, p) =
      let (h, p1) = allocate (some i) now p in (ok h, with_state (register h p1.state) p1)

  unfoldable pub create_holder : ℕ → Pool I W → Fallible ℕ × Pool I W
  create_holder now p = enroll now (call_new p)

  -- The second select of `acquire`; `none` is a goroutine that still waits.
  unfoldable pub wait_idle : Select → Pool I W → Option (Fallible ℕ) × Pool I W
  wait_idle (ctx_done e) p = (some (err (wrapf "pool: acquiring holder: %w" [] [] e)), p)
  wait_idle receive p = elim (try_receive p.state) [
    | none ↦ (none, p)
    | some (h, s) ↦ (some (ok h), with_state s p)
  ]

  unfoldable pub settle : ℕ → Fallible I × Pool I W → Fallible ℕ × Pool I W
  settle h (err e, p) =
      (err (wrapf "pool: scaling up: %w" [] [] e), with_state (forget h p.state) p)
  settle h (ok i, p) =
      (ok h, record p { holders = put h (record (p.holders h) { impl = some i }) p.holders })

  -- `acquire` behind the reservation of the slot `h`: builds the holder, or gives the slot back.
  unfoldable pub scale_up : ℕ → Pool I W → Fallible ℕ × Pool I W
  scale_up h p = settle h (call_new p)

  abbrev pub lift : Fallible ℕ × Pool I W → Option (Fallible ℕ) × Pool I W
  lift (r, p) = (some r, p)

  unfoldable pub acquire : ℕ → Select → Pool I W → Option (Fallible ℕ) × Pool I W
  acquire now sel p = elim (try_receive p.state) [
    | some (h, s) ↦ (some (ok h), with_state s p)
    | none ↦ elim (reserve p.fresh p.state) [
      | pool_closed ↦ (some (err closed_error), p)
      | reserved s ↦ let (h, p1) = allocate none now p in lift (scale_up h (with_state s p1))
      | full ↦ wait_idle sel p
    ]
  ]

  unfoldable pub release : ℕ → ℕ → Pool I W → Pool I W
  release now h p =
      let p1 : Pool I W = record p {
        holders = put h (record (p.holders h) { last_used = now }) p.holders;
      } in
      elim (release_section h p1.state) [
        | tear_down s ↦ (call_close (p1.holders h).impl (with_state s p1)).1
        | send_back ↦ with_state (send h p1.state) p1
      ]

  unfoldable pub drop : ℕ → Pool I W → Pool I W
  drop h p =
      let (present, s) = drop_section h p.state in
      let p1 = with_state s p in if present then (call_close (p1.holders h).impl p1).1 else p1

  -- What `Run` makes of a run whose holder turned out dead.
  abbrev pub died : Error → Ran → Ran
  died e r = elim r.failure [
    | none ↦ record r { failure = some (wrapf "pool: holder died: %w" [] [] e) }
    | some x ↦ r
  ]

  -- `Run` behind `checkHolder`: the holder goes back to the pool, or is marked dead and dropped.
  unfoldable pub conclude : ℕ → ℕ → Ran → Option Error → Pool I W → Ran × Pool I W
  conclude h now r none p = (r, release now h p)
  conclude h now r (some e) p = (
    died e r,
    drop h (record p { holders = put h (record (p.holders h) { dead = some e }) p.holders }),
  )

  -- `Run` with the holder `h` in hand, its mutex taken and its `dead` nil: the run and the hygiene
  -- behind it.
  unfoldable pub run_on : ℕ → I → Context → ℕ → Job → Pool I W → Ran × Pool I W
  run_on h i ctx now job p =
      let (r, w1) = ops.run i ctx job p.world in
      let (check, w2) = ops.check_holder i (ops.cleanup i w1) in
      conclude h now r check
        (record p { world = w2; log = p.log ++ ran i ∷ cleaned i ∷ checked i ∷ [] })

  -- `Run` behind `acquire`.
  unfoldable pub run_holder : ℕ → Context → ℕ → Job → Pool I W → Ran × Pool I W
  run_holder h ctx now job p = elim (p.holders h).dead [
    | some e ↦ (failed (wrapf "pool: acquired holder is dead: %w" [] [] e), drop h p)
    | none ↦ elim (p.holders h).impl [
      | none ↦ (failed closed_error, record p { panicked = true })
      | some i ↦ run_on h i ctx now job p
    ]
  ]

  unfoldable pub run_acquired :
      Context → ℕ → Job → Option (Fallible ℕ) × Pool I W → Option Ran × Pool I W
  run_acquired ctx now job (none, p) = (none, p)
  run_acquired ctx now job (some (err e), p) = (some (failed e), p)
  run_acquired ctx now job (some (ok h), p) =
      let (r, p1) = run_holder h ctx now job p in (some r, p1)

  -- `Run`; `none` is a goroutine that still waits for a holder.
  unfoldable pub run : Context → ℕ → Select → Job → Pool I W → Option Ran × Pool I W
  run ctx now sel job p = run_acquired ctx now job (acquire now sel p)

  -- `now.Sub(h.lastUsed) < p.cfg.IdleTimeout`
  unfoldable pub young : ℕ → ℕ → Pool I W → Bool
  young now h p = ltb_ℤ (sub_ℕ now (p.holders h).last_used) p.state.cfg.idle_timeout

  -- The loop of `reapIdle`: each turn that does not return takes one holder out of the channel, so
  -- the buffer's length is fuel enough.
  unfoldable pub reap_loop : ℕ → ℕ → Pool I W → Pool I W
  reap_loop zero now p = p
  reap_loop (suc fuel) now p =
      if leb_ℤ (pos (length p.state.all)) p.state.cfg.min then p else elim (try_receive p.state) [
        | none ↦ p
        | some (h, s) ↦
            let p1 = with_state s p in
            let rest = reap_loop fuel now (drop h p1) in
            if young now h p1 then with_state (send h s) p1 else rest
      ]

  unfoldable pub reap_idle : ℕ → Pool I W → Pool I W
  reap_idle now p = reap_loop (suc (length p.state.idle)) now p

  -- The last loop of `Close`, over the holders in the order in which the map gives them.
  unfoldable pub close_all : List ℕ → Option Error → Pool I W → Option Error × Pool I W
  close_all [] first p = (first, p)
  close_all (h ∷ hs) first p =
      let (e, p1) = call_close (p.holders h).impl p in
      close_all hs (elim first [ none ↦ e | some x ↦ some x ]) p1

  unfoldable pub close : Pool I W → Option Error × Pool I W
  close p =
      if p.state.closed
      then (none, p)
      else let (hs, s) = sweep (mark_closed p.state) in close_all hs none (with_state (drain s) p)

  -- The loop of `NewPool` that creates the minimum of holders: `left` of them, the next being
  -- number `i`.
  unfoldable pub fill : ℕ → ℕ → ℕ → Pool I W → Option Error × Pool I W
  fill zero i now p = (none, p)
  fill (suc left) i now p = elim (create_holder now p).0 [
    | ok h ↦
        let p1 = (create_holder now p).1 in fill left (suc i) now (with_state (send h p1.state) p1)
    | err e ↦ (
      some (wrapf "pool: creating min holder %d/%d: %w" [] (pos i ∷ p.state.cfg.min ∷ []) e),
      (close (create_holder now p).1).1,
    )
  ]

  -- The pool that `NewPool` starts with.
  unfoldable pub empty_pool : PoolConfig → W → Pool I W
  empty_pool cfg w = record {
    state = record { cfg = cfg; all = []; idle = []; closed = false };
    holders = λ h. record { impl = none; dead = none; last_used = 0 };
    fresh = 0;
    world = w;
    log = [];
    panicked = false;
  }

  -- The last lines of `NewPool`.
  abbrev pub started : Option Error × Pool I W → Fallible (Unit {0}) × Pool I W
  started (none, p) = (ok tt, p)
  started (some e, p) = (err e, p)

  unfoldable pub new_pool : Opts → PoolConfig → ℕ → W → Fallible (Unit {0}) × Pool I W
  new_pool o cfg now w =
      if is_empty o.user then (err no_user, empty_pool cfg w) else elim (normalize cfg) [
        | err e ↦ (err e, empty_pool cfg w)
        | ok c ↦ started (fill (pos_part c.min) 1 now (empty_pool c w))
      ]
