-- ===== src/Pool/Threads/Hazards.antt =====
-- What the interleavings of pkg/sandbox/pool.go permit against its comments.
use podman_sandbox_runner.Base.{
  ℕ, pos, ◌≤ℤ◌, true, ◌≡◌, refl, ap, ◌⊎◌, inl, inr, some, List, [], ◌∷◌, ◌++◌, count, arith,
}
use podman_sandbox_runner.Pool.Config.{PoolConfig}
use podman_sandbox_runner.Pool.State.{State, try_receive, send, mark_closed, sweep, drain}
use podman_sandbox_runner.Pool.Threads.{
  Shared, shutting, reaping, shuts_down, reaps, close_next, marked, emptied, drained, Pc, start,
  sending, using, take, sends, HasPlace, later, waiting, finished, asleep, checking, looking, Move,
  wake, cancel, tick, stop, few, many, none_idle, pick, CloseMove, mark, empty_map, empty_channel,
  System, Step, spawn, moves, closes, Reach,
}
use podman_sandbox_runner.Pool.Threads.Ledger.{Inv}
use podman_sandbox_runner.Pool.Threads.Keeps.{owns, well_with, fit_with, holds, received}
use podman_sandbox_runner.Pool.Threads.Safety.{send_never_blocks}
use podman_sandbox_runner.Pool.Threads.Reachable.{total, total-middle, opened, Reach-Sound}

-- 0 for a goroutine that is blocked in the second select of `acquire`, has returned, closes a holder
-- that it has taken out of the map, or is the reaper with no holder to send back; 1 for any other.
abbrev pub busy : Pc → ℕ
busy waiting = 0
busy finished = 0
busy (shutting h) = 0
busy (reaping h) = 0
busy asleep = 0
busy checking = 0
busy looking = 0
busy _ = 1

-- No goroutine is on its way to a holder or has one, and none is parked: who waits can only see its
-- context end.
pub record Stranded (s : System) : Type 0 where
  pub none_busy : total busy s.threads ≡ 0
  pub none_parked : s.shared.state.idle ≡ []

nothing_received : (p : State) {h : ℕ} {q : State} → try_receive p ≡ some (h, q) → p.idle ≡ [] → ⊥
nothing_received p e empty = let (rest, i, _) = received p e in cc

-- A move of a goroutine that is not busy, with an empty channel.
Move-idle :
    {s t : Shared} {pc pc' : Pc}
    → Move s pc t pc'
    → busy pc ≡ 0
    → s.state.idle ≡ []
    → (busy pc' ≡ 0) × (t.state.idle ≡ [])
Move-idle (wake {h} e) b empty = absurd (nothing_received _ e empty)
Move-idle (pick {h} e) b empty = absurd (nothing_received _ e empty)
Move-idle shuts_down b empty = (refl, empty)
Move-idle reaps b empty = (refl, empty)
Move-idle cancel b empty = (refl, empty)
Move-idle tick b empty = (refl, empty)
Move-idle (stop e) b empty = (refl, empty)
Move-idle (few e) b empty = (refl, empty)
Move-idle (many e) b empty = (refl, empty)
Move-idle (none_idle e) b empty = (refl, empty)
Move-idle _ b empty = cc

CloseMove-idle : {s t : Shared} → CloseMove s t → s.state.idle ≡ [] → t.state.idle ≡ []
unfolding mark_closed sweep drain
CloseMove-idle (mark e) empty = empty
CloseMove-idle (empty_map e d) empty = empty
CloseMove-idle (empty_channel e) empty = refl
CloseMove-idle (close_next e) empty = empty

-- From a state in which nobody is on the way to a holder and none is parked, every step but a new
-- call of `Run` leads to such a state again: a goroutine that waits in `acquire` never gets a
-- holder from the goroutines that are there, whether or not fewer than Max holders are registered.
pub stranded_stays :
    {s t : System}
    → Stranded s
    → Step s t
    → (t ≡ record s { threads = start ∷ s.threads }) ⊎ Stranded t
stranded_stays v spawn = inl refl
stranded_stays {s} v (moves before after {pc} {pc'} e mv) = inr (record {
  none_busy = omega (
    arith,
    v.none_busy,
    ap (total busy) e,
    (Move-idle mv quiet v.none_parked).0,
    total-middle busy before pc after,
    total-middle busy before pc' after,
  );
  none_parked = (Move-idle mv quiet v.none_parked).1;
})
  where
    quiet : busy pc ≡ 0
    quiet = omega (arith, v.none_busy, ap (total busy) e, total-middle busy before pc after)
stranded_stays v (closes c) =
    inr (record { none_busy = v.none_busy; none_parked = CloseMove-idle c v.none_parked })

-- A holder that a goroutine has is registered up to where `Close` empties the map.
pub held_registered :
    {cfg : PoolConfig} {n : ℕ} {t : System}
    → pos n ≤ℤ cfg.max
    → Reach (opened cfg n) t
    → (before after : List Pc) (pc : Pc) (h : ℕ) → t.threads ≡ before ++ pc ∷ after
    → owns h pc ≡ 1
    → t.shared.closing ≡ marked
    → count h t.shared.state.all ≡ 1
held_registered {t} room r before after pc h e one c = omega (
  arith,
  v.once h,
  v.ledger h (rw c refl),
  ap (total (owns h)) e,
  total-middle (owns h) before pc after,
  one,
)
  where
    v :
        Inv t.shared
          (λ j. total (owns j) t.threads)
          (λ j. total (well_with j) t.threads)
          (λ j. total (fit_with j) t.threads)
          (total holds t.threads)
    v = (Reach-Sound room r).ledger_of

-- In every state that the goroutines reach from a pool of at most Max parked holders: when `Close`
-- takes the holders out of the map, a holder that some goroutine has, be it still under construction,
-- in use or on its way back, is among those that `Close` goes on to close, once.
pub close_takes_held :
    {cfg : PoolConfig} {n : ℕ} {t : System} {u : Shared}
    → pos n ≤ℤ cfg.max
    → Reach (opened cfg n) t
    → (before after : List Pc) (pc : Pc) (h : ℕ) → t.threads ≡ before ++ pc ∷ after
    → owns h pc ≡ 1
    → t.shared.closing ≡ marked
    → CloseMove t.shared u
    → (hs : List ℕ) × (u.closing ≡ emptied hs) × (count h hs ≡ 1)
unfolding sweep
close_takes_held room r before after pc h e one c (mark q) = absurd (ground (arith, q, c))
close_takes_held room r before after pc h e one c (empty_map q d) =
    (_, refl, held_registered room r before after pc h e one c)
close_takes_held room r before after pc h e one c (empty_channel q) = absurd (ground (arith, q, c))
close_takes_held room r before after pc h e one c (close_next q) = absurd (ground (arith, q, c))

-- `Close` has taken the holders `hs` out of the pool, `h` among them, and a new call of `Run` has `h`.
pub record Reused (start_state : System) (h : ℕ) (others : List Pc) : Type 0 where
  pub reached : System
  pub path : Reach start_state reached
  pub to_close : List ℕ
  pub taken : reached.shared.closing ≡ drained to_close
  pub among : count h to_close ≡ 1
  pub runs : reached.threads ≡ using h ∷ others

-- From every state that the goroutines reach from a pool of at most Max parked holders, in which
-- `Close` has marked the pool as closed, the reaper has ended, and a goroutine has passed the section
-- of `release` and is about to send its holder back, the pool can go on so that a later call of `Run`
-- gets that holder, although `Close` has it among the holders to close.
pub lent_behind_close :
    {cfg : PoolConfig} {n : ℕ} {t : System}
    → pos n ≤ℤ cfg.max
    → Reach (opened cfg n) t
    → (before after : List Pc) (h : ℕ) → t.threads ≡ before ++ sending h ∷ after
    → t.shared.closing ≡ marked
    → t.shared.reaper_done ≡ true
    → Reused (opened cfg n) h (before ++ finished ∷ after)
unfolding sweep drain send try_receive
lent_behind_close {cfg} {n} {t} room r before after h e c d = record {
  reached = record {
    shared = record (t.shared) {
      state = record (t.shared.state) { all = []; idle = [] };
      closing = drained t.shared.state.all;
    };
    threads = using h ∷ (before ++ finished ∷ after);
  };
  path =
      later
        (later
          (later (later (later r (closes (empty_map c d))) (closes (empty_channel refl)))
            (moves before after e (sends place)))
          spawn)
        (moves [] (before ++ finished ∷ after) refl (take refl));
  to_close = t.shared.state.all;
  taken = refl;
  among = held_registered room r before after (sending h) h e (ground arith) c;
  runs = refl;
}
  where
    place : HasPlace (drain (sweep t.shared.state).1)
    place = ground (arith, send_never_blocks room r before after (sending h) e refl)
