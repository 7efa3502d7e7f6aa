-- ===== src/Pool/Threads.antt =====
-- pkg/sandbox/pool.go under concurrency: any number of goroutines in `Run`, the reaper and one
-- `Close`, interleaved in any order. A step is a section under `p.mu`, an operation on the channel,
-- or a call of the backend; the sections are those of `State`.
pub mod Ledger
pub mod Keeps
pub mod Reachable
pub mod Safety
pub mod Progress
pub mod Hazards
pub mod Twice
pub mod Lending
pub mod Refinement
mod Traces
use podman_sandbox_runner.Base.{
  ℕ, zero, suc, ◌+◌, ◌<◌, ℤ, pos, ltb_ℤ, leb_ℤ, Bool, true, false, ◌≡◌, Option, none, some, List,
  [], ◌∷◌, ◌++◌, length,
}
use podman_sandbox_runner.Pool.Config.{PoolConfig}
use podman_sandbox_runner.Pool.State.{
  State, try_receive, send, forget, pool_closed, reserved, full, reserve, send_back, tear_down,
  release_section, drop_section, mark_closed, sweep, drain,
}
use podman_sandbox_runner.Pool.Ops.{put}

-- How far `Close` is; `emptied` and `drained` carry the holders that it still has to close.
pub data Closing : Type 0 where
  not_called marked : Closing
  emptied drained : List ℕ → Closing

-- What the goroutines share. `built h` says that `h.impl` is set, `dead h` that `h.dead` is;
-- `torn_down` are the holders whose `close` was called, in order.
pub record Shared : Type 0 where
  pub state : State
  pub fresh : ℕ
  pub built : ℕ → Bool
  pub dead : ℕ → Bool
  pub closing : Closing
  pub reaper_done : Bool
  pub torn_down : List ℕ

-- Where a goroutine stands.
pub data Pc : Type 0 where
  start : Pc  -- `acquire`, before the first select
  locking : Pc  -- before `p.mu.Lock()`
  building : ℕ → Pc  -- a slot is reserved, `newImpl` runs
  unreserving : ℕ → Pc  -- `newImpl` failed
  waiting : Pc  -- the second select
  using : ℕ → Pc  -- `Run` holds the holder, before it looks at `h.dead`
  running : ℕ → Pc  -- before `h.impl.run`
  cleaning : ℕ → Pc  -- before `h.impl.cleanup`
  verifying : ℕ → Pc  -- before `h.impl.checkHolder`
  dropping : ℕ → Pc  -- before the section of `drop`
  releasing : ℕ → Pc  -- before the section of `release`
  sending : ℕ → Pc  -- before `p.idle <- h`
  shutting : ℕ → Pc  -- behind the section of `drop` or `release`, before `h.impl.close`
  finished : Pc
  asleep : Pc  -- the reaper between two ticks
  checking : Pc  -- `reapIdle`, before it reads the number of live holders
  looking : Pc  -- `reapIdle`, before its select
  holding : ℕ → Pc  -- `reapIdle` with a holder out of the channel
  reaping : ℕ → Pc  -- `drop` in `reapIdle`, before `h.impl.close`

-- The channel has a free place, so that a send goes through.
abbrev pub HasPlace : State → Type 0
HasPlace p = ltb_ℤ (pos (length p.idle)) p.cfg.max ≡ true

-- One step of one goroutine.
pub data Move (s : Shared) : Pc → Shared → Pc → Type 0 where
  take :
      {h : ℕ} {p : State}
      → try_receive s.state ≡ some (h, p)
      → Move s start (record s { state = p }) (using h)
  miss : try_receive s.state ≡ none → Move s start s locking
  refuse : reserve s.fresh s.state ≡ pool_closed → Move s locking s finished
  grab :
      {p : State}
      → reserve s.fresh s.state ≡ reserved p
      → Move s locking
          (record s {
            state = p;
            fresh = suc s.fresh;
            built = put s.fresh false s.built;
            dead = put s.fresh false s.dead;
          })
          (building s.fresh)
  queue : reserve s.fresh s.state ≡ full → Move s locking s waiting
  build : {h : ℕ} → Move s (building h) (record s { built = put h true s.built }) (using h)
  build_fails : {h : ℕ} → Move s (building h) s (unreserving h)
  unreserve : {h : ℕ} → Move s (unreserving h) (record s { state = forget h s.state }) finished
  wake :
      {h : ℕ} {p : State}
      → try_receive s.state ≡ some (h, p)
      → Move s waiting (record s { state = p }) (using h)
  cancel : Move s waiting s finished
  find_dead : {h : ℕ} → s.dead h ≡ true → Move s (using h) s (dropping h)
  looks : {h : ℕ} → s.dead h ≡ false → Move s (using h) s (running h)
  runs : {h : ℕ} → Move s (running h) s (cleaning h)
  cleans : {h : ℕ} → Move s (cleaning h) s (verifying h)
  stays_alive : {h : ℕ} → Move s (verifying h) s (releasing h)
  dies : {h : ℕ} → Move s (verifying h) (record s { dead = put h true s.dead }) (dropping h)
  drops :
      {h : ℕ}
      → (drop_section h s.state).0 ≡ true
      → Move s (dropping h) (record s { state = (drop_section h s.state).1 }) (shutting h)
  drops_absent :
      {h : ℕ}
      → (drop_section h s.state).0 ≡ false
      → Move s (dropping h) (record s { state = (drop_section h s.state).1 }) finished
  shuts_down :
      {h : ℕ} → Move s (shutting h) (record s { torn_down = s.torn_down ++ h ∷ [] }) finished
  keep : {h : ℕ} → release_section h s.state ≡ send_back → Move s (releasing h) s (sending h)
  tear :
      {h : ℕ} {p : State}
      → release_section h s.state ≡ tear_down p
      → Move s (releasing h) (record s { state = p }) (shutting h)
  sends :
      {h : ℕ} → HasPlace s.state → Move s (sending h) (record s { state = send h s.state }) finished
  tick : Move s asleep s checking
  stop : s.state.closed ≡ true → Move s asleep (record s { reaper_done = true }) finished
  few : leb_ℤ (pos (length s.state.all)) s.state.cfg.min ≡ true → Move s checking s asleep
  many : leb_ℤ (pos (length s.state.all)) s.state.cfg.min ≡ false → Move s checking s looking
  none_idle : try_receive s.state ≡ none → Move s looking s asleep
  pick :
      {h : ℕ} {p : State}
      → try_receive s.state ≡ some (h, p)
      → Move s looking (record s { state = p }) (holding h)
  put_back :
      {h : ℕ} → HasPlace s.state → Move s (holding h) (record s { state = send h s.state }) asleep
  reap :
      {h : ℕ}
      → (drop_section h s.state).0 ≡ true
      → Move s (holding h) (record s { state = (drop_section h s.state).1 }) (reaping h)
  reap_absent :
      {h : ℕ}
      → (drop_section h s.state).0 ≡ false
      → Move s (holding h) (record s { state = (drop_section h s.state).1 }) checking
  reaps : {h : ℕ} → Move s (reaping h) (record s { torn_down = s.torn_down ++ h ∷ [] }) checking

-- One step of `Close` in the goroutine that finds the pool open.
pub data CloseMove (s : Shared) : Shared → Type 0 where
  mark :
      s.closing ≡ not_called
      → CloseMove s (record s { state = mark_closed s.state; closing = marked })
  empty_map :
      s.closing ≡ marked
      → s.reaper_done ≡ true
      → CloseMove s (record s { state = (sweep s.state).1; closing = emptied (sweep s.state).0 })
  empty_channel :
      {hs : List ℕ}
      → s.closing ≡ emptied hs
      → CloseMove s (record s { state = drain s.state; closing = drained hs })
  close_next :
      {h : ℕ} {hs : List ℕ}
      → s.closing ≡ drained (h ∷ hs)
      → CloseMove s (record s { closing = drained hs; torn_down = s.torn_down ++ h ∷ [] })

pub record System : Type 0 where
  pub shared : Shared
  pub threads : List Pc

pub data Step (s : System) : System → Type 0 where
  spawn : Step s (record s { threads = start ∷ s.threads })
  moves :
      (before after : List Pc) {pc pc' : Pc} {t : Shared}
      → s.threads ≡ before ++ pc ∷ after
      → Move s.shared pc t pc'
      → Step s (record { shared = t; threads = before ++ pc' ∷ after })
  closes : {t : Shared} → CloseMove s.shared t → Step s (record s { shared = t })

pub data Reach (s : System) : System → Type 0 where
  here : Reach s s
  later : {t u : System} → Reach s t → Step t u → Reach s u

-- A pool behind `NewPool` with `n` parked holders, numbered from 0.
abbrev pub below : ℕ → List ℕ
below zero = []
below (suc n) = n ∷ below n
