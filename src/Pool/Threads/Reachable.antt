-- ===== src/Pool/Threads/Reachable.antt =====
-- The ledger over the list of all goroutines, and the states that the pool can reach.
use podman_sandbox_runner.Base.{
  ℕ, zero, suc, ◌+◌, ◌≤◌, pos, ◌≤ℤ◌, ltb, leb_ℤ, true, false, ◌≡◌, refl, sym, ◌∙◌, List, [], ◌∷◌,
  ◌++◌, length, count, bit, arith, if◌then◌else◌,
}
use mathlib.Core.Path.{fun_ext}
use podman_sandbox_runner.Pool.Config.{PoolConfig}
use podman_sandbox_runner.Pool.State.{
  mark_closed, sweep, drain, forget, send, drop_section, register,
}
use podman_sandbox_runner.Pool.Threads.{
  Shared, not_called, Pc, asleep, Move, take, wake, pick, grab, tear, close_next, CloseMove, mark,
  empty_map, empty_channel, System, Step, spawn, moves, closes, Reach, here, later, below,
}
use podman_sandbox_runner.Pool.Threads.Ledger.{Inv}
use podman_sandbox_runner.Pool.Threads.Keeps.{
  owns, well_with, fit_with, holds, Move-With, received, reserved_from, torn,
}

-- The sum of a weight over the goroutines.
abbrev pub total : (Pc → ℕ) → List Pc → ℕ
total w [] = 0
total w (p ∷ ps) = w p + total w ps

pub total-middle :
    (w : Pc → ℕ) (before : List Pc) (p : Pc) (after : List Pc)
    → total w (before ++ p ∷ after) ≡ total w (before ++ after) + w p
total-middle w [] p after = omega arith
total-middle w (q ∷ before) p after = omega (arith, total-middle w before p after)

pub total-append : (w : Pc → ℕ) (ps qs : List Pc) → total w (ps ++ qs) ≡ total w ps + total w qs
total-append w [] qs = omega arith
total-append w (p ∷ ps) qs = omega (arith, total-append w ps qs)

total_mono : (v w : Pc → ℕ) → ((p : Pc) → v p ≤ w p) → (ps : List Pc) → total v ps ≤ total w ps
total_mono v w h [] = omega arith
total_mono v w h (p ∷ ps) = omega (arith, h p, total_mono v w h ps)

well_with-le-owns : (h : ℕ) (p : Pc) → well_with h p ≤ owns h p
well_with-le-owns h p = ground arith

fit_with-le-owns : (h : ℕ) (p : Pc) → fit_with h p ≤ owns h p
fit_with-le-owns h p = ground arith

-- The ledger of a system.
pub record Sound (s : System) : Type 0 where
  pub ledger_of :
      Inv s.shared
        (λ h. total (owns h) s.threads)
        (λ h. total (well_with h) s.threads)
        (λ h. total (fit_with h) s.threads)
        (total holds s.threads)

-- The ledger reads its counts pointwise.
Inv-subst :
    {s : Shared} {own well fit own' well' fit' : ℕ → ℕ} {n m : ℕ}
    → ((h : ℕ) → own h ≡ own' h)
    → ((h : ℕ) → well h ≡ well' h)
    → ((h : ℕ) → fit h ≡ fit' h)
    → n ≡ m
    → Inv s own well fit n
    → Inv s own' well' fit' m
Inv-subst {s} eo ew ef e v = rw (← fun_ext eo, ← fun_ext ew, ← fun_ext ef, ← e) v

Move-Sound :
    (before after : List Pc) {pc pc' : Pc} {s t : Shared}
    → Move s pc t pc'
    → Sound (record { shared = s; threads = before ++ pc ∷ after })
    → Sound (record { shared = t; threads = before ++ pc' ∷ after })
Move-Sound before after {pc} {pc'} mv v = record {
  ledger_of =
      Inv-subst (λ h. sym (total-middle (owns h) before pc' after))
        (λ h. sym (total-middle (well_with h) before pc' after))
        (λ h. sym (total-middle (fit_with h) before pc' after))
        (sym (total-middle holds before pc' after))
        (Move-With (λ h. total (owns h) rest) (λ h. total (well_with h) rest)
          (λ h. total (fit_with h) rest) (total holds rest)
          (record {
            well_others = λ h. total_mono (well_with h) (owns h) (well_with-le-owns h) rest;
            fit_others = λ h. total_mono (fit_with h) (owns h) (fit_with-le-owns h) rest;
          })
          mv
          (Inv-subst (λ h. total-middle (owns h) before pc after)
            (λ h. total-middle (well_with h) before pc after)
            (λ h. total-middle (fit_with h) before pc after) (total-middle holds before pc after)
            v.ledger_of));
}
  where
    rest : List Pc
    rest = before ++ after

CloseMove-Inv :
    {s t : Shared} {own well fit : ℕ → ℕ} {n : ℕ}
    → CloseMove s t
    → Inv s own well fit n
    → Inv t own well fit n
unfolding mark_closed sweep drain
CloseMove-Inv (mark e) v = record {
  once = v.once;
  well_le = v.well_le;
  fit_le = v.fit_le;
  fresh_out = v.fresh_out;
  ledger = λ h q. v.ledger h (rw e refl);
  size = λ q. v.size (rw e refl);
  gone = λ q. cc;
  shut = λ q. refl;
  room = v.room;
  alive = v.alive;
  made = v.made;
}
CloseMove-Inv (empty_map e d) v = record {
  once = v.once;
  well_le = v.well_le;
  fit_le = v.fit_le;
  fresh_out = λ h k. omega (arith, v.fresh_out h k);
  ledger = λ h q. cc;
  size = λ q. cc;
  gone = λ q. refl;
  shut = λ q. v.shut (rw e refl);
  room = v.room;
  alive = v.alive;
  made = v.made;
}
CloseMove-Inv (empty_channel e) v = record {
  once = λ h. omega (arith, v.once h);
  well_le = v.well_le;
  fit_le = v.fit_le;
  fresh_out = λ h k. omega (arith, v.fresh_out h k);
  ledger = λ h q. cc;
  size = λ q. cc;
  gone = λ q. v.gone (rw e refl);
  shut = λ q. v.shut (rw e refl);
  room = omega (arith, v.room);
  alive = λ h k. v.alive h (omega arith);
  made = λ h k. v.made h (omega arith);
}
CloseMove-Inv (close_next e) v = record {
  once = v.once;
  well_le = v.well_le;
  fit_le = v.fit_le;
  fresh_out = v.fresh_out;
  ledger = λ h q. cc;
  size = λ q. cc;
  gone = λ q. v.gone (rw e refl);
  shut = λ q. v.shut (rw e refl);
  room = v.room;
  alive = v.alive;
  made = v.made;
}

pub Step-Sound : {s t : System} → Step s t → Sound s → Sound t
Step-Sound spawn v = record {
  ledger_of =
      Inv-subst (λ h. omega arith) (λ h. omega arith) (λ h. omega arith) (omega arith) v.ledger_of;
}
Step-Sound (moves before after e mv) v = Move-Sound before after mv (rw e at v)
Step-Sound (closes c) v = record { ledger_of = CloseMove-Inv c v.ledger_of }

count-below : (h n : ℕ) → count h (below n) ≡ bit (ltb h n)
count-below h zero = ground arith
count-below h (suc n) = ground (arith, count-below h n)

pub length-below : (n : ℕ) → length (below n) ≡ n
length-below zero = refl
length-below (suc n) = omega (arith, length-below n)

-- The pool that `NewPool` hands out: `n` holders, built and parked, and the reaper, if it runs.
abbrev pub opened : PoolConfig → ℕ → System
opened cfg n = record {
  shared = record {
    state = record { cfg = cfg; all = below n; idle = below n; closed = false };
    fresh = n;
    built = λ h. true;
    dead = λ h. false;
    closing = not_called;
    reaper_done = leb_ℤ cfg.idle_timeout (pos 0);
    torn_down = [];
  };
  threads = if leb_ℤ cfg.idle_timeout (pos 0) then [] else asleep ∷ [];
}

quiet : (w : Pc → ℕ) (cfg : PoolConfig) (n : ℕ) → w asleep ≡ 0 → total w (opened cfg n).threads ≡ 0
quiet w cfg n e = ground (arith, e)

opened-Sound : (cfg : PoolConfig) (n : ℕ) → pos n ≤ℤ cfg.max → Sound (opened cfg n)
opened-Sound cfg n room = record {
  ledger_of =
      Inv-subst (λ h. sym (quiet (owns h) cfg n refl)) (λ h. sym (quiet (well_with h) cfg n refl))
        (λ h. sym (quiet (fit_with h) cfg n refl)) (sym (quiet holds cfg n refl))
        (record {
          once = λ h. ground (arith, count-below h n);
          well_le = λ h. omega arith;
          fit_le = λ h. omega arith;
          fresh_out = λ h k. ground (arith, count-below h n);
          ledger = λ h q. omega arith;
          size = λ q. omega arith;
          gone = λ q. cc;
          shut = λ q. cc;
          room = omega (arith, length-below n);
          alive = λ h k. refl;
          made = λ h k. refl;
        });
}

Reach-keeps : {s t : System} → Sound s → Reach s t → Sound t
Reach-keeps v here = v
Reach-keeps v (later r st) = Step-Sound st (Reach-keeps v r)

pub Reach-Sound :
    {cfg : PoolConfig} {n : ℕ} {t : System} → pos n ≤ℤ cfg.max → Reach (opened cfg n) t → Sound t
Reach-Sound {cfg} {n} room r = Reach-keeps (opened-Sound cfg n room) r

Move-cfg : {s t : Shared} {pc pc' : Pc} → Move s pc t pc' → t.state.cfg ≡ s.state.cfg
unfolding forget send drop_section register
Move-cfg (take e) = rw (received _ e).2
Move-cfg (wake e) = rw (received _ e).2
Move-cfg (pick e) = rw (received _ e).2
Move-cfg (grab e) = rw (reserved_from _ _ e).2
Move-cfg (tear {h} e) = rw (torn h _ e)
Move-cfg _ = refl

Step-cfg : {s t : System} → Step s t → t.shared.state.cfg ≡ s.shared.state.cfg
unfolding mark_closed sweep drain
Step-cfg spawn = refl
Step-cfg (moves before after e mv) = Move-cfg mv
Step-cfg (closes (mark e)) = refl
Step-cfg (closes (empty_map e d)) = refl
Step-cfg (closes (empty_channel e)) = refl
Step-cfg (closes (close_next e)) = refl

pub Reach-cfg : {s t : System} → Reach s t → t.shared.state.cfg ≡ s.shared.state.cfg
Reach-cfg here = refl
Reach-cfg (later r st) = Step-cfg st ∙ Reach-cfg r
