-- ===== src/Pool/Threads/Refinement.antt =====
-- pkg/sandbox/pool.go as a lending library: every step of the interleaved goroutines does to the
-- counts what the act that it stands for does.
use podman_sandbox_runner.Base.{
  ℕ, suc, ◌+◌, ℤ, pos, ◌≤ℤ◌, Bool, true, false, some, ◌≡◌, refl, sym, ap, ◌∙◌, List, [], ◌∷◌, ◌++◌,
  length, length-append, arith,
}
use mathlib.Core.Path.{subst}
use podman_sandbox_runner.Pool.Config.{PoolConfig}
use podman_sandbox_runner.Pool.State.{
  State, try_receive, mark_closed, sweep, drain, forget, send, drop_section, register, reserve,
  reserved,
}
use podman_sandbox_runner.Pool.Threads.{
  Shared, Closing, not_called, marked, emptied, drained, Pc, Move, take, miss, refuse, grab, queue,
  build, build_fails, unreserve, wake, cancel, find_dead, stays_alive, dies, looks, runs, cleans,
  drops_absent, shuts_down, reap_absent, reaps, close_next, drops, keep, tear, sends, tick, stop,
  few, many, none_idle, pick, put_back, reap, CloseMove, mark, empty_map, empty_channel, System,
  Step, spawn, moves, closes, Reach, here, later,
}
use podman_sandbox_runner.Pool.Threads.Ledger.{Inv, is_called, is_emptied}
use podman_sandbox_runner.Pool.Threads.Lending.{
  Lending, Label, idle, lend, grow, take_back, discard, Act, idles, lends, grows, takes_back,
  discards, shuts, empties, Acts, at_start, then_act, lending, counts, move_does, close_does,
  step_does, run_does,
}
use podman_sandbox_runner.Pool.Threads.Keeps.{
  owns, well_with, fit_with, holds, received, reserved_from, torn,
}
use podman_sandbox_runner.Pool.Threads.Reachable.{
  total, total-middle, length-below, Sound, opened, Reach-Sound, Reach-cfg,
}

idles_lem : {max : ℤ} (p o o' : ℕ) (c : Bool) → o' ≡ o → Act max (counts p o c) (counts p o' c) idle
idles_lem p o o' c e = idles (ap (λ x. counts p x c) e)

lends_lem :
    {max : ℤ} (p q o o' : ℕ) (c : Bool)
    → p ≡ suc q
    → o' ≡ suc o
    → Act max (counts p o c) (counts q o' c) lend
lends_lem p q o o' c e f = lends e (ap (λ x. counts q x c) f)

takes_back_lem :
    {max : ℤ} (p q o o' : ℕ) (c : Bool)
    → q ≡ suc p
    → o ≡ suc o'
    → Act max (counts p o c) (counts q o' c) take_back
takes_back_lem p q o o' c e f = takes_back f (ap (λ x. counts x o' c) e)

discards_lem :
    {max : ℤ} (p o o' : ℕ) (c : Bool) → o ≡ suc o' → Act max (counts p o c) (counts p o' c) discard
discards_lem p o o' c f = discards f refl

-- `Close` empties the map only of a pool that it has marked.
not_emptied : (c : Closing) → (is_called c ≡ true → false ≡ true) → is_emptied c ≡ false
not_emptied not_called h = refl
not_emptied marked h = refl
not_emptied (emptied hs) h = cc (h refl)
not_emptied (drained hs) h = cc (h refl)

-- A slot is reserved only where the parked holders and those out are fewer than Max.
grows_lem :
    {s : Shared} {own well fit : ℕ → ℕ} {p : State} (n m : ℕ)
    → Inv s own well fit n
    → reserve s.fresh s.state ≡ reserved p
    → m ≡ suc n
    → Act s.state.cfg.max
        (counts (length s.state.idle) n s.state.closed)
        (counts (length p.idle) m p.closed)
        grow
unfolding register
grows_lem {s} n m v r e =
    let (opened, space, q) = reserved_from _ _ r in
    rw q (
      grows opened
        (omega (arith, space, v.size (not_emptied s.closing (λ c. sym opened ∙ v.shut c))))
        (ap (λ x. counts (length s.state.idle) x s.state.closed) e))

-- A receive lends a holder.
receives_lem :
    {max : ℤ} (s : State) {h : ℕ} {p : State} (o o' : ℕ)
    → try_receive s ≡ some (h, p)
    → o' ≡ suc o
    → Act max (counts (length s.idle) o s.closed) (counts (length p.idle) o' p.closed) lend
receives_lem s o o' e f =
    let (rest, i, q) = received _ e in
    rw q (lends_lem _ (length rest) o o' s.closed (ap (λ (l : List ℕ). length l) i) f)

-- A step of one goroutine, with `n` holders out among the others.
Move-Act :
    {s t : Shared} {pc pc' : Pc} {own well fit : ℕ → ℕ} (n : ℕ)
    → Inv s own well fit (n + holds pc)
    → (m : Move s pc t pc')
    → Act s.state.cfg.max
        (counts (length s.state.idle) (n + holds pc) s.state.closed)
        (counts (length t.state.idle) (n + holds pc') t.state.closed)
        (move_does m)
unfolding drop_section forget send
Move-Act {s} n v (take e) = receives_lem s.state _ _ e (omega arith)
Move-Act n v (miss e) = idles refl
Move-Act n v (refuse e) = idles refl
Move-Act n v (grab e) = grows_lem (n + 0) (n + 1) v e (omega arith)
Move-Act n v (queue e) = idles refl
Move-Act n v build = idles refl
Move-Act n v build_fails = idles refl
Move-Act n v unreserve = discards_lem _ _ _ _ (omega arith)
Move-Act {s} n v (wake e) = receives_lem s.state _ _ e (omega arith)
Move-Act n v cancel = idles refl
Move-Act n v (find_dead e) = idles refl
Move-Act n v (looks e) = idles refl
Move-Act n v runs = idles refl
Move-Act n v cleans = idles refl
Move-Act n v stays_alive = idles refl
Move-Act n v dies = idles refl
Move-Act n v (drops e) = discards_lem _ _ _ _ (omega arith)
Move-Act n v (drops_absent e) = discards_lem _ _ _ _ (omega arith)
Move-Act n v shuts_down = idles refl
Move-Act n v (keep e) = idles refl
Move-Act n v (tear {h} e) = rw (torn h _ e) (discards_lem _ _ _ _ (omega arith))
Move-Act {s} n v (sends {h} e) =
    takes_back_lem _ _ _ _ _ (omega (arith, length-append s.state.idle (h ∷ []))) (omega arith)
Move-Act n v tick = idles refl
Move-Act n v (stop e) = idles refl
Move-Act n v (few e) = idles refl
Move-Act n v (many e) = idles refl
Move-Act n v (none_idle e) = idles refl
Move-Act {s} n v (pick e) = receives_lem s.state _ _ e (omega arith)
Move-Act {s} n v (put_back {h} e) =
    takes_back_lem _ _ _ _ _ (omega (arith, length-append s.state.idle (h ∷ []))) (omega arith)
Move-Act n v (reap e) = discards_lem _ _ _ _ (omega arith)
Move-Act n v (reap_absent e) = discards_lem _ _ _ _ (omega arith)
Move-Act n v reaps = idles refl

CloseMove-Act :
    {max : ℤ} {s t : Shared} {own well fit : ℕ → ℕ} (n : ℕ)
    → Inv s own well fit n
    → (s.closing ≡ not_called → s.state.closed ≡ false)
    → (m : CloseMove s t)
    → Act max
        (counts (length s.state.idle) n s.state.closed)
        (counts (length t.state.idle) n t.state.closed)
        (close_does m)
unfolding mark_closed sweep drain
CloseMove-Act n v fresh (mark e) = shuts (fresh e) refl
CloseMove-Act n v fresh (empty_map e d) = idles refl
CloseMove-Act n v fresh (empty_channel e) = empties (v.shut (rw e refl)) refl
CloseMove-Act n v fresh (close_next e) = idles refl

-- Only `Close` marks the pool as closed.
Move-closed :
    {s t : Shared} {pc pc' : Pc}
    → Move s pc t pc'
    → (t.closing ≡ s.closing) × (t.state.closed ≡ s.state.closed)
unfolding drop_section forget send register
Move-closed {s} (take e) = (refl, ap State.closed (received s.state e).2)
Move-closed {s} (wake e) = (refl, ap State.closed (received s.state e).2)
Move-closed {s} (pick e) = (refl, ap State.closed (received s.state e).2)
Move-closed (grab e) = (refl, ap State.closed (reserved_from _ _ e).2)
Move-closed (tear {h} e) = (refl, ap State.closed (torn h _ e))
Move-closed _ = (refl, refl)

Step-open :
    {s t : System}
    → Step s t
    → (s.shared.closing ≡ not_called → s.shared.state.closed ≡ false)
    → t.shared.closing ≡ not_called
    → t.shared.state.closed ≡ false
Step-open spawn fresh c = fresh c
Step-open (moves before after e mv) fresh c =
    let (same, kept) = Move-closed mv in kept ∙ fresh (sym same ∙ c)
Step-open (closes (mark e)) fresh c = absurd (ground (arith, c))
Step-open (closes (empty_map e d)) fresh c = absurd (ground (arith, c))
Step-open (closes (empty_channel e)) fresh c = absurd (ground (arith, c))
Step-open (closes (close_next e)) fresh c = absurd (ground (arith, c))

Reach-open :
    {cfg : PoolConfig} {n : ℕ} {t : System}
    → Reach (opened cfg n) t
    → t.shared.closing ≡ not_called
    → t.shared.state.closed ≡ false
Reach-open here c = refl
Reach-open (later r st) c = Step-open st (Reach-open r) c

-- Every step of the interleaved program is an act of the abstract pool.
Step-Act :
    {s t : System}
    → Sound s
    → (s.shared.closing ≡ not_called → s.shared.state.closed ≡ false)
    → (st : Step s t) → Act s.shared.state.cfg.max (lending s) (lending t) (step_does st)
Step-Act {s} v fresh spawn =
    idles_lem (length s.shared.state.idle) _ _ s.shared.state.closed (omega arith)
Step-Act v fresh (closes c) = CloseMove-Act _ v.ledger_of fresh c
Step-Act {s} v fresh (moves before after {pc} {pc'} {t} e mv) =
    subst
      (λ k.
        Act s.shared.state.cfg.max (counts (length s.shared.state.idle) k s.shared.state.closed)
          (counts (length t.state.idle) (total holds (before ++ pc' ∷ after)) t.state.closed)
          (move_does mv))
      (sym now)
      (subst
        (λ k.
          Act s.shared.state.cfg.max
            (counts (length s.shared.state.idle) (others + holds pc) s.shared.state.closed)
            (counts (length t.state.idle) k t.state.closed) (move_does mv))
        (sym (total-middle holds before pc' after))
        (Move-Act others
          (subst
            (λ k.
              Inv s.shared (λ h. total (owns h) s.threads) (λ h. total (well_with h) s.threads)
                (λ h. total (fit_with h) s.threads) k)
            now v.ledger_of)
          mv))
  where
    others : ℕ
    others = total holds (before ++ after)

    now : total holds s.threads ≡ others + holds pc
    now = ap (total holds) e ∙ total-middle holds before pc after

-- The acts of an abstract pool keep the bound.
Act-bound :
    {max : ℤ} {a b : Lending} {l : Label}
    → Act max a b l
    → pos (a.parked + a.out) ≤ℤ max
    → pos (b.parked + b.out) ≤ℤ max
Act-bound (idles e) room = rw e room
Act-bound (lends p e) room = rw e (omega (arith, p, room))
Act-bound (grows o space e) room = rw e (omega (arith, space))
Act-bound (takes_back p e) room = rw e (omega (arith, p, room))
Act-bound (discards p e) room = rw e (omega (arith, p, room))
Act-bound (shuts o e) room = rw e room
Act-bound (empties o e) room = rw e (omega (arith, room))

Acts-bound :
    {max : ℤ} {a b : Lending} {ls : List Label}
    → pos (a.parked + a.out) ≤ℤ max
    → Acts max a ls b
    → pos (b.parked + b.out) ≤ℤ max
Acts-bound room at_start = room
Acts-bound room (then_act r x) = Act-bound x (Acts-bound room r)

Reach-Acts_from :
    {cfg : PoolConfig} {n : ℕ} {t : System}
    → pos n ≤ℤ cfg.max
    → (r : Reach (opened cfg n) t) → Acts cfg.max (lending (opened cfg n)) (run_does r) (lending t)
Reach-Acts_from room here = at_start
Reach-Acts_from {cfg} room (later {t = s} {u = t} r st) = then_act (Reach-Acts_from room r) (
    subst (λ m. Act m (lending s) (lending t) (step_does st))
      (ap (λ (c : PoolConfig). c.max) (Reach-cfg r))
      (Step-Act (Reach-Sound room r) (Reach-open r) st))

opened_lem : (cfg : PoolConfig) (n : ℕ) → lending (opened cfg n) ≡ counts n 0 false
opened_lem cfg n = ground (arith, length-below n)

-- In every order of steps of the goroutines, from an open pool of `n` parked holders, n at most Max,
-- each step does what the abstract pool allows for its kind, in the order of the steps. A receive
-- from the channel lends a parked holder. The section of `acquire` that reserves a slot takes in a
-- holder while the pool is open and fewer than Max are parked or out. A send takes back one that is
-- out. A failed construction, `drop`, a release behind `Close` and a reaped holder each discard one
-- that is out. The mark of `Close` shuts the pool, which is open until then, so that it happens at
-- most once. The emptying of the channel forgets those parked, in a pool that is shut. Every other
-- step leaves the counts alone. At most Max holders are parked or out in the end.
pub Reach-Acts :
    {cfg : PoolConfig} {n : ℕ} {t : System}
    → pos n ≤ℤ cfg.max
    → (r : Reach (opened cfg n) t)
    → Acts cfg.max (counts n 0 false) (run_does r) (lending t)
      × (pos ((lending t).parked + (lending t).out) ≤ℤ cfg.max)
Reach-Acts {cfg} {n} {t} room r = (acts, Acts-bound (omega (arith, room)) acts)
  where
    acts : Acts cfg.max (counts n 0 false) (run_does r) (lending t)
    acts =
        subst (λ a. Acts cfg.max a (run_does r) (lending t)) (opened_lem cfg n)
          (Reach-Acts_from room r)
