-- ===== src/Pool/Threads/Traces.antt =====
-- Schedules of the goroutines of the pool, as tests and as inputs of the theorems.
use podman_sandbox_runner.Base.{
  ℕ, ◌+◌, pos, ◌≤ℤ◌, true, false, ◌≡◌, refl, ◌⊎◌, List, [], ◌∷◌, length, count, arith, has, insert,
  delete,
}
use podman_sandbox_runner.Pool.Config.{PoolConfig}
use podman_sandbox_runner.Pool.State.{
  try_receive, forget, register, reserve, release_section, drop_section, mark_closed, sweep,
}
use podman_sandbox_runner.Pool.Ops.{put}
use podman_sandbox_runner.Pool.Threads.{
  emptied, marked, running, looks, runs, cleans, shuts_down, start, building, waiting, using,
  sending, finished, take, miss, grab, queue, build, cancel, dies, drops, stays_alive, keep, mark,
  empty_map, System, spawn, moves, closes, Reach, here, later,
}
use podman_sandbox_runner.Pool.Threads.Keeps.{owns}
use podman_sandbox_runner.Pool.Threads.Reachable.{opened, total}
use podman_sandbox_runner.Pool.Threads.Safety.{
  live_le_max, exclusive, using_sound, registered_exactly,
}
use podman_sandbox_runner.Pool.Threads.Lending.{Acts, counts, lending, idle, lend, grow}
use podman_sandbox_runner.Pool.Threads.Refinement.{Reach-Acts}
use podman_sandbox_runner.Pool.Threads.Twice.{ClosedTwice, closed_twice}
use podman_sandbox_runner.Pool.Threads.Hazards.{
  Stranded, stranded_stays, close_takes_held, Reused, lent_behind_close,
}

-- At most one holder, none of them kept warm, no reaper.
abbrev single : PoolConfig
single = record { min = pos 0; max = pos 1; idle_timeout = pos 0 }

-- Two holders at most, one kept warm.
abbrev pair : PoolConfig
pair = record { min = pos 1; max = pos 2; idle_timeout = pos 0 }

-- A goroutine is building the only holder.
building_first : (t : System) × Reach (opened single 0) t × (t.threads ≡ building 0 ∷ [])
unfolding try_receive reserve register insert has
building_first = (
  _,
  later (later (later here spawn) (moves [] [] refl (miss refl))) (moves [] [] refl (grab refl)),
  refl,
)

-- It runs on the holder.
using_first : (t : System) × Reach (opened single 0) t × (t.threads ≡ using 0 ∷ [])
unfolding building_first try_receive reserve register insert has
using_first = (_, later building_first.1 (moves [] [] refl build), refl)

-- It has found its holder alive.
running_first : (t : System) × Reach (opened single 0) t × (t.threads ≡ running 0 ∷ [])
unfolding using_first building_first try_receive reserve register insert has put
running_first = (_, later using_first.1 (moves [] [] refl (looks refl)), refl)

-- The holder is sound, and about to be sent back.
sending_first : (t : System) × Reach (opened single 0) t × (t.threads ≡ sending 0 ∷ [])
unfolding running_first using_first building_first try_receive reserve register insert has
    release_section put
sending_first = (
  _,
  later
      (later (later (later running_first.1 (moves [] [] refl runs)) (moves [] [] refl cleans))
        (moves [] [] refl stays_alive))
      (moves [] [] refl (keep refl)),
  refl,
)

-- A second goroutine waits for it.
waiting_second : (t : System) × Reach (opened single 0) t × (t.threads ≡ waiting ∷ using 0 ∷ [])
unfolding using_first building_first try_receive reserve register insert has
waiting_second = (
  _,
  later (later (later using_first.1 spawn) (moves [] (using 0 ∷ []) refl (miss refl)))
      (moves [] (using 0 ∷ []) refl (queue refl)),
  refl,
)

-- The only holder dies. The goroutine that waits is stranded in an open pool with no holder at
-- all, although the pool may have one.
waiter_stranded :
    (t : System) × Reach (opened single 0) t
    × (t.threads ≡ waiting ∷ finished ∷ [])
    × Stranded t
    × (t.shared.state.all ≡ [])
    × (t.shared.state.closed ≡ false)
unfolding waiting_second using_first building_first try_receive reserve register insert has
    drop_section forget delete put
waiter_stranded = (
  _,
  (later
      (later
        (later
          (later
            (later (later waiting_second.1 (moves (waiting ∷ []) [] refl (looks refl)))
              (moves (waiting ∷ []) [] refl runs))
            (moves (waiting ∷ []) [] refl cleans))
          (moves (waiting ∷ []) [] refl dies))
        (moves (waiting ∷ []) [] refl (drops refl)))
      (moves (waiting ∷ []) [] refl shuts_down)),
  refl,
  record { none_busy = refl; none_parked = refl },
  refl,
  refl,
)

-- `Close` has marked the pool while the first goroutine builds its holder.
closing_early :
    (t : System) × Reach (opened single 0) t
    × (t.threads ≡ building 0 ∷ [])
    × (t.shared.closing ≡ marked)
    × (t.shared.reaper_done ≡ true)
    × (t.shared.built 0 ≡ false)
unfolding building_first try_receive reserve register insert has mark_closed put
closing_early = (_, later building_first.1 (closes (mark refl)), refl, refl, refl, refl)

-- Two goroutines run, on two holders.
using_both : (t : System) × Reach (opened pair 1) t × (t.threads ≡ using 1 ∷ using 0 ∷ [])
unfolding try_receive reserve register insert has
using_both = (
  _,
  later
      (later
        (later (later (later (later here spawn) (moves [] [] refl (take refl))) spawn)
          (moves [] (using 0 ∷ []) refl (miss refl)))
        (moves [] (using 0 ∷ []) refl (grab refl)))
      (moves [] (using 0 ∷ []) refl build),
  refl,
)

live_le_max_example : pos (length waiting_second.0.shared.state.all) ≤ℤ pos 1
live_le_max_example = live_le_max {cfg = single} {n = 0} (omega arith) waiting_second.1

exclusive_example : (owns 1 (using 0) ≡ 0) × (count 1 using_both.0.shared.state.idle ≡ 0)
exclusive_example =
    exclusive {cfg = pair} {n = 1} (omega arith) using_both.1 [] [] [] (using 1) (using 0) 1
      using_both.2 refl

using_sound_example :
    (waiting_second.0.shared.built 0 ≡ true) × (waiting_second.0.shared.dead 0 ≡ false)
using_sound_example =
    using_sound {cfg = single} {n = 0} (omega arith) waiting_second.1 (waiting ∷ []) [] (using 0) 0
      waiting_second.2 refl

registered_exactly_example :
    count 0 waiting_second.0.shared.state.all
    ≡ count 0 waiting_second.0.shared.state.idle + total (owns 0) waiting_second.0.threads
unfolding waiting_second
registered_exactly_example =
    registered_exactly {cfg = single} {n = 0} (omega arith) waiting_second.1 0 refl

-- The waiting goroutine gives up.
abbrev given_up : System
given_up = record (waiter_stranded.0) { threads = finished ∷ finished ∷ [] }

stranded_stays_example :
    (given_up ≡ record (waiter_stranded.0) { threads = start ∷ waiter_stranded.0.threads })
    ⊎ Stranded given_up
stranded_stays_example =
    stranded_stays waiter_stranded.3 (moves [] (finished ∷ []) waiter_stranded.2 cancel)

close_takes_held_example :
    (hs : List ℕ) × (emptied (sweep closing_early.0.shared.state).0 ≡ emptied hs) × (count 0 hs ≡ 1)
close_takes_held_example =
    close_takes_held {cfg = single} {n = 0} (omega arith) closing_early.1 [] [] (building 0) 0
      closing_early.2 refl closing_early.3 (empty_map closing_early.3 closing_early.4)

-- `Close` has marked the pool while the first goroutine is about to send its holder back.
closing_late :
    (t : System) × Reach (opened single 0) t
    × (t.threads ≡ sending 0 ∷ [])
    × (t.shared.closing ≡ marked)
    × (t.shared.reaper_done ≡ true)
unfolding sending_first running_first using_first building_first try_receive reserve register insert
    has release_section put mark_closed
closing_late = (_, later sending_first.1 (closes (mark refl)), refl, refl, refl)

lent_behind_close_example : Reused (opened single 0) 0 (finished ∷ [])
lent_behind_close_example =
    lent_behind_close {cfg = single} {n = 0} (omega arith) closing_late.1 [] [] 0 closing_late.2
      closing_late.3 closing_late.4

-- A call takes the parked holder, and another grows the pool.
Reach-Acts_example :
    Acts
      (pos 2)
      (counts 1 0 false)
      (idle ∷ grow ∷ idle ∷ idle ∷ lend ∷ idle ∷ [])
      (lending using_both.0)
    × (pos ((lending using_both.0).parked + (lending using_both.0).out) ≤ℤ pos 2)
unfolding using_both
Reach-Acts_example = Reach-Acts {cfg = pair} {n = 1} (omega arith) using_both.1

-- `Close` has marked the pool while the first goroutine is about to run.
closing_amid :
    (t : System) × Reach (opened single 0) t
    × (t.threads ≡ running 0 ∷ [])
    × (t.shared.closing ≡ marked)
    × (t.shared.reaper_done ≡ true)
unfolding running_first using_first building_first try_receive reserve register insert has put
    mark_closed
closing_amid = (_, later running_first.1 (closes (mark refl)), refl, refl, refl)

closed_twice_example :
    ClosedTwice (opened single 0) 0 (count 0 closing_amid.0.shared.torn_down) [] []
closed_twice_example =
    closed_twice {cfg = single} {n = 0} (omega arith) closing_amid.1 [] [] 0 closing_amid.2
      closing_amid.3 closing_amid.4
