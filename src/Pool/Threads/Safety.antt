-- ===== src/Pool/Threads/Safety.antt =====
-- What holds in every state that the goroutines of the pool can reach.
use podman_sandbox_runner.Base.{
  bit, ◌==◌, ◌≤◌, ℕ, ◌+◌, pos, ◌≤ℤ◌, true, false, ◌≡◌, ap, List, ◌∷◌, ◌++◌, length, count, arith,
  Bool-cases, inl, inr,
}
use podman_sandbox_runner.Pool.Config.{PoolConfig}
use podman_sandbox_runner.Pool.Threads.{
  Pc, using, running, cleaning, verifying, System, Reach, HasPlace,
}
use podman_sandbox_runner.Pool.Threads.Ledger.{is_emptied, Inv}
use podman_sandbox_runner.Pool.Threads.Keeps.{owns, well_with, fit_with, holds}
use podman_sandbox_runner.Pool.Threads.Reachable.{
  total, total-middle, total-append, opened, Reach-Sound, Reach-cfg,
}

abbrev Ledger : System → Type 0
Ledger t =
    Inv t.shared (λ h. total (owns h) t.threads) (λ h. total (well_with h) t.threads)
      (λ h. total (fit_with h) t.threads) (total holds t.threads)

-- `Run` has the holder `h`, and has not yet heard of its death: 1 at that holder.
abbrev pub runs_on : ℕ → Pc → ℕ
runs_on h (using j) = bit (j == h)
runs_on h (running j) = bit (j == h)
runs_on h (cleaning j) = bit (j == h)
runs_on h (verifying j) = bit (j == h)
runs_on h _ = 0

runs_on_le : (h : ℕ) (pc : Pc) → (runs_on h pc ≤ fit_with h pc) × (runs_on h pc ≤ well_with h pc)
runs_on_le h (using j) = (omega arith, omega arith)
runs_on_le h (running j) = (omega arith, omega arith)
runs_on_le h (cleaning j) = (omega arith, omega arith)
runs_on_le h (verifying j) = (omega arith, omega arith)
runs_on_le h _ = (omega arith, omega arith)

module _ {cfg : PoolConfig} {n : ℕ} {t : System} (room : pos n ≤ℤ cfg.max)
    (r : Reach (opened cfg n) t) where
  ledger : Ledger t
  ledger = (Reach-Sound room r).ledger_of

  -- In every state that the goroutines reach from a pool of at most Max parked holders, at most
  -- Max holders are registered.
  pub live_le_max : pos (length t.shared.state.all) ≤ℤ cfg.max
  live_le_max = elim (Bool-cases (is_emptied t.shared.closing)) [
    | inl e ↦ rw (← Reach-cfg r) (omega (arith, ledger.gone e, ledger.room))
    | inr e ↦ rw (← Reach-cfg r) (omega (arith, ledger.size e, ledger.room))
  ]

  -- In every state that the goroutines reach from a pool of at most Max parked holders, a holder that
  -- one goroutine has is had by no other, and is not in the channel.
  pub exclusive :
      (before between after : List Pc) (p q : Pc) (h : ℕ)
      → t.threads ≡ before ++ p ∷ (between ++ q ∷ after)
      → owns h p ≡ 1
      → (owns h q ≡ 0) × (count h t.shared.state.idle ≡ 0)
  exclusive before between after p q h e one = omega (
    arith,
    ledger.once h,
    ap (total (owns h)) e,
    total-middle (owns h) before p (between ++ q ∷ after),
    total-append (owns h) before (between ++ q ∷ after),
    total-append (owns h) between (q ∷ after),
  )

  -- In every state that the goroutines reach from a pool of at most Max parked holders, a goroutine
  -- that has a holder, and so may be about to send it back, finds a free place in the channel.
  pub send_never_blocks :
      (before after : List Pc) (p : Pc)
      → t.threads ≡ before ++ p ∷ after
      → holds p ≡ 1
      → HasPlace t.shared.state
  send_never_blocks before after p e one =
      ground (arith, ledger.room, ap (total holds) e, total-middle holds before p after, one)

  -- In every state that the goroutines reach from a pool of at most Max parked holders, a goroutine in
  -- `Run` that has a holder, from behind `acquire` up to the answer of checkHolder, has one whose
  -- implementation is set and that is not marked dead: `Run` neither calls run, cleanup or
  -- checkHolder through a nil interface, nor takes its early return for a dead holder.
  pub using_sound :
      (before after : List Pc) (pc : Pc) (h : ℕ)
      → t.threads ≡ before ++ pc ∷ after
      → runs_on h pc ≡ 1
      → (t.shared.built h ≡ true) × (t.shared.dead h ≡ false)
  using_sound before after pc h e one = (
    ledger.made h (
        ground (
          arith,
          ap (total (fit_with h)) e,
          total-middle (fit_with h) before pc after,
          runs_on_le h pc,
          one,
        )),
    ledger.alive h (
        ground (
          arith,
          ap (total (well_with h)) e,
          total-middle (well_with h) before pc after,
          runs_on_le h pc,
          one,
        )),
  )

  -- In every state that the goroutines reach from a pool of at most Max parked holders and in which
  -- `Close` has not emptied the map, a holder is registered exactly as often as it is parked or had by
  -- a goroutine: none is lost, and none is used behind the map's back.
  pub registered_exactly :
      (h : ℕ)
      → is_emptied t.shared.closing ≡ false
      → count h t.shared.state.all ≡ count h t.shared.state.idle + total (owns h) t.threads
  registered_exactly h e = ledger.ledger h e
