-- ===== src/Pool/Threads/Lending.antt =====
-- pkg/sandbox/pool.go as a lending library: an abstract pool that only counts, what it may do, and
-- which act each step of the interleaved goroutines stands for.
use podman_sandbox_runner.Base.{
  ℕ, suc, ◌+◌, ℤ, pos, ◌≤ℤ◌, Bool, true, false, ◌≡◌, List, [], ◌∷◌, length,
}
use podman_sandbox_runner.Pool.Threads.{
  Shared, Pc, Move, take, grab, unreserve, wake, drops, drops_absent, reap_absent, tear, sends,
  pick, put_back, reap, CloseMove, mark, empty_map, empty_channel, close_next, System, Step, spawn,
  moves, closes, Reach, here, later,
}
use podman_sandbox_runner.Pool.Threads.Keeps.{holds}
use podman_sandbox_runner.Pool.Threads.Reachable.{total}

-- How many holders are parked, how many are out, and whether the pool takes in new ones.
pub record Lending : Type 0 where
  pub parked : ℕ
  pub out : ℕ
  pub closed : Bool

pub data Label : Type 0 where
  idle lend grow take_back discard shut empty : Label

-- What a pool of at most `max` holders may do.
pub data Act (max : ℤ) (a b : Lending) : Label → Type 0 where
  idles : b ≡ a → Act max a b idle
  lends :
      {n : ℕ} → a.parked ≡ suc n → b ≡ record a { parked = n; out = suc a.out } → Act max a b lend
  grows :
      a.closed ≡ false
      → pos (suc (a.parked + a.out)) ≤ℤ max
      → b ≡ record a { out = suc a.out }
      → Act max a b grow
  takes_back :
      {n : ℕ}
      → a.out ≡ suc n
      → b ≡ record a { parked = suc a.parked; out = n }
      → Act max a b take_back
  discards : {n : ℕ} → a.out ≡ suc n → b ≡ record a { out = n } → Act max a b discard
  shuts : a.closed ≡ false → b ≡ record a { closed = true } → Act max a b shut
  empties : a.closed ≡ true → b ≡ record a { parked = 0 } → Act max a b empty

-- A sequence of acts, the last of them first.
pub data Acts (max : ℤ) (a : Lending) : List Label → Lending → Type 0 where
  at_start : Acts max a [] a
  then_act :
      {ls : List Label} {l : Label} {b c : Lending}
      → Acts max a ls b
      → Act max b c l
      → Acts max a (l ∷ ls) c

-- The abstract pool of a system.
abbrev pub lending : System → Lending
lending s = record {
  parked = length s.shared.state.idle;
  out = total holds s.threads;
  closed = s.shared.state.closed;
}

abbrev pub counts : ℕ → ℕ → Bool → Lending
counts p o c = record { parked = p; out = o; closed = c }

-- The act of the abstract pool that a step stands for.
abbrev pub move_does : {s t : Shared} {pc pc' : Pc} → Move s pc t pc' → Label
move_does (take e) = lend
move_does (wake e) = lend
move_does (pick e) = lend
move_does (grab e) = grow
move_does (sends e) = take_back
move_does (put_back e) = take_back
move_does unreserve = discard
move_does (drops e) = discard
move_does (drops_absent e) = discard
move_does (tear e) = discard
move_does (reap e) = discard
move_does (reap_absent e) = discard
move_does _ = idle

abbrev pub close_does : {s t : Shared} → CloseMove s t → Label
close_does (mark e) = shut
close_does (empty_map e d) = idle
close_does (empty_channel e) = empty
close_does (close_next e) = idle

abbrev pub step_does : {s t : System} → Step s t → Label
step_does spawn = idle
step_does (moves before after e mv) = move_does mv
step_does (closes c) = close_does c

-- The acts of a whole schedule, the last of them first.
abbrev pub run_does : {s t : System} → Reach s t → List Label
run_does here = []
run_does (later r st) = step_does st ∷ run_does r
