-- ===== src/Pool/Threads/Twice.antt =====
-- How pkg/sandbox/pool.go comes to close one holder twice.
use podman_sandbox_runner.Base.{
  ℕ, pos, ◌≤ℤ◌, true, ◌≡◌, refl, ap, List, [], ◌∷◌, ◌++◌, count, count-append, arith, ◌+◌, ◌∙◌,
}
use podman_sandbox_runner.Pool.Config.{PoolConfig}
use podman_sandbox_runner.Pool.State.{State, forget, release_section, sweep, drain}
use podman_sandbox_runner.Pool.Threads.{
  shuts_down, close_next, running, runs, cleans, stays_alive, tear, marked, drained, Pc, later,
  empty_map, empty_channel, System, moves, closes, Reach, here,
}
use podman_sandbox_runner.Pool.Threads.Reachable.{opened, Reach-Sound}
use podman_sandbox_runner.Pool.Threads.Hazards.{held_registered}

-- The end of the loop of `Close` over the holders that it still has to close.
record Drained (start_state s : System) (hs : List ℕ) : Type 0 where
  reached : System
  path : Reach start_state reached
  same_threads : reached.threads ≡ s.threads
  same_state : reached.shared.state ≡ s.shared.state
  counted : (h : ℕ) → count h reached.shared.torn_down ≡ count h s.shared.torn_down + count h hs

closes_rest :
    {start_state : System} (s : System) (hs : List ℕ)
    → Reach start_state s
    → s.shared.closing ≡ drained hs
    → Drained start_state s hs
closes_rest s [] r c = record {
  reached = s;
  path = r;
  same_threads = refl;
  same_state = refl;
  counted = λ h. omega arith;
}
closes_rest s (j ∷ hs) r c =
    let rest = closes_rest _ hs (later r (closes (close_next c))) refl in
    record {
      reached = rest.reached;
      path = rest.path;
      same_threads = rest.same_threads;
      same_state = rest.same_state;
      counted = λ h. omega (arith, rest.counted h, count-append h s.shared.torn_down (j ∷ []));
    }

-- `h`, of which `close` was called `m` times, is closed while a goroutine is about to run on it, and
-- once more when that goroutine releases it.
pub record ClosedTwice (start_state : System) (h m : ℕ) (before after : List Pc) : Type 0 where
  pub halfway : System
  pub first : Reach start_state halfway
  pub closed_once : count h halfway.shared.torn_down ≡ m + 1
  pub still_running : halfway.threads ≡ before ++ running h ∷ after
  pub reached : System
  pub rest : Reach halfway reached
  pub closed_again : count h reached.shared.torn_down ≡ m + 2

-- A goroutine runs on its holder to the end, behind the mark of `Close`.
finishes :
    (s : System) (before after : List Pc) (h : ℕ)
    → s.threads ≡ before ++ running h ∷ after
    → s.shared.state.closed ≡ true
    → (u : System) × Reach s u × (count h u.shared.torn_down ≡ count h s.shared.torn_down + 1)
unfolding release_section
finishes s before after h e shut = (
  _,
  later
      (later
        (later (later (later here (moves before after e runs)) (moves before after refl cleans))
          (moves before after refl stays_alive))
        (moves before after refl (tear {p = forget h s.shared.state} (rw shut refl))))
      (moves before after refl shuts_down),
  ground (arith, count-append h s.shared.torn_down (h ∷ [])),
)

-- From every state that the goroutines reach from a pool of at most Max parked holders, in which
-- `Close` has marked the pool as closed, the reaper has ended, and a goroutine is about to run on a
-- holder, the pool can go on so that `Close` calls `close` of that holder while the goroutine has not
-- begun its run, and the `release` behind that run calls it a second time.
pub closed_twice :
    {cfg : PoolConfig} {n : ℕ} {t : System}
    → pos n ≤ℤ cfg.max
    → Reach (opened cfg n) t
    → (before after : List Pc) (h : ℕ) → t.threads ≡ before ++ running h ∷ after
    → t.shared.closing ≡ marked
    → t.shared.reaper_done ≡ true
    → ClosedTwice (opened cfg n) h (count h t.shared.torn_down) before after
unfolding sweep drain
closed_twice {cfg} {n} {t} room r before after h e c d = record {
  halfway = loop.reached;
  first = loop.path;
  closed_once =
      omega (
        arith,
        loop.counted h,
        held_registered room r before after (running h) h e (ground arith) c,
      );
  still_running = loop.same_threads ∙ e;
  reached = ended.0;
  rest = ended.1;
  closed_again = omega (
    arith,
    ended.2,
    loop.counted h,
    held_registered room r before after (running h) h e (ground arith) c,
  );
}
  where
    swept : System
    swept = record t {
      shared = record (t.shared) {
        state = record (t.shared.state) { all = []; idle = [] };
        closing = drained t.shared.state.all;
      };
    }

    loop : Drained (opened cfg n) swept t.shared.state.all
    loop =
        closes_rest swept t.shared.state.all
          (later (later r (closes (empty_map c d))) (closes (empty_channel refl))) refl

    shut : t.shared.state.closed ≡ true
    shut = (Reach-Sound room r).ledger_of.shut (rw c refl)

    ended :
        (u : System) × Reach loop.reached u
        × (count h u.shared.torn_down ≡ count h loop.reached.shared.torn_down + 1)
    ended =
        finishes loop.reached before after h (loop.same_threads ∙ e)
          (ap State.closed loop.same_state ∙ shut)
