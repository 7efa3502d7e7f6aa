-- ===== src/Pool/Threads/Keeps.antt =====
-- Every step of every goroutine keeps the ledger.
use podman_sandbox_runner.Base.{
  ℕ, suc, ◌+◌, ◌≤◌, pos, ◌≤ℤ◌, false, ◌≡◌, ap, sym, ◌∙◌, inl, inr, some, List, ◌∷◌, length, bit,
  arith, ◌==◌,
}
use mathlib.Core.Option.{some-injective}
use podman_sandbox_runner.Pool.State.{
  State, try_receive, forget, register, reserved, reserve, tear_down, release_section, drop_section,
}
use podman_sandbox_runner.Pool.Invariant.{try_receive_cases}
use podman_sandbox_runner.Pool.Threads.{
  Shared, Pc, building, unreserving, using, running, cleaning, verifying, looks, runs, cleans,
  drops_absent, shuts_down, reap_absent, reaps, dropping, releasing, sending, holding, Move, take,
  miss, refuse, grab, queue, build, build_fails, unreserve, wake, cancel, find_dead, stays_alive,
  dies, drops, keep, tear, sends, tick, stop, few, many, none_idle, pick, put_back, reap,
}
use podman_sandbox_runner.Pool.Threads.Ledger.{
  Inv, Inv-same, Inv-log, Inv-receive, Inv-send, Inv-forget, Inv-register, Inv-build, Inv-die,
}

-- The holder that a goroutine has, if any: 1 at that holder.
abbrev pub owns : ℕ → Pc → ℕ
owns h (building j) = bit (j == h)
owns h (unreserving j) = bit (j == h)
owns h (using j) = bit (j == h)
owns h (running j) = bit (j == h)
owns h (cleaning j) = bit (j == h)
owns h (verifying j) = bit (j == h)
owns h (dropping j) = bit (j == h)
owns h (releasing j) = bit (j == h)
owns h (sending j) = bit (j == h)
owns h (holding j) = bit (j == h)
owns h _ = 0

abbrev pub well_with : ℕ → Pc → ℕ
well_with h (building j) = bit (j == h)
well_with h (unreserving j) = bit (j == h)
well_with h (using j) = bit (j == h)
well_with h (running j) = bit (j == h)
well_with h (cleaning j) = bit (j == h)
well_with h (verifying j) = bit (j == h)
well_with h (releasing j) = bit (j == h)
well_with h (sending j) = bit (j == h)
well_with h (holding j) = bit (j == h)
well_with h _ = 0

abbrev pub fit_with : ℕ → Pc → ℕ
fit_with h (using j) = bit (j == h)
fit_with h (running j) = bit (j == h)
fit_with h (cleaning j) = bit (j == h)
fit_with h (verifying j) = bit (j == h)
fit_with h (dropping j) = bit (j == h)
fit_with h (releasing j) = bit (j == h)
fit_with h (sending j) = bit (j == h)
fit_with h (holding j) = bit (j == h)
fit_with h _ = 0

abbrev pub holds : Pc → ℕ
holds (building j) = 1
holds (unreserving j) = 1
holds (using j) = 1
holds (running j) = 1
holds (cleaning j) = 1
holds (verifying j) = 1
holds (dropping j) = 1
holds (releasing j) = 1
holds (sending j) = 1
holds (holding j) = 1
holds _ = 0

-- What a receive from the channel says of the state before it and behind it.
pub received :
    (p : State) {h : ℕ} {q : State}
    → try_receive p ≡ some (h, q)
    → (rest : List ℕ) × (p.idle ≡ h ∷ rest) × (q ≡ record p { idle = rest })
received p {h} {q} e = elim (try_receive_cases p) [
  | inl (_, r) ↦ cc
  | inr (k, rest, i, r) ↦
      let both = some-injective _ _ (sym e ∙ r) in
      (
        rest,
        i ∙ ap (λ x. x ∷ rest) (sym (ap (λ (t : ℕ × State). t.0) both)),
        ap (λ (t : ℕ × State). t.1) both,
      )
]

-- What a reservation says of the state before it and behind it.
pub reserved_from :
    (h : ℕ) (p : State) {q : State}
    → reserve h p ≡ reserved q
    → (p.closed ≡ false) × (pos (suc (length p.all)) ≤ℤ p.cfg.max) × (q ≡ register h p)
unfolding reserve
reserved_from h p e = ground arith

pub torn : (h : ℕ) (p : State) {q : State} → release_section h p ≡ tear_down q → q ≡ forget h p
unfolding release_section
torn h p e = ground arith

-- The ledger with one goroutine at `pc` and `own`, `well`, `fit` and `n` counting the others.
abbrev pub With : Shared → Pc → (ℕ → ℕ) → (ℕ → ℕ) → (ℕ → ℕ) → ℕ → Type 0
With s pc own well fit n =
    Inv s (λ h. own h + owns h pc) (λ h. well h + well_with h pc) (λ h. fit h + fit_with h pc)
      (n + holds pc)

-- What the others have does not exceed their holders.
pub record Others (own well fit : ℕ → ℕ) : Type 0 where
  pub well_others : (h : ℕ) → well h ≤ own h
  pub fit_others : (h : ℕ) → fit h ≤ own h

module _ (own well fit : ℕ → ℕ) (n : ℕ) (o : Others own well fit) where
  pub Move-With :
      {s t : Shared} {pc pc' : Pc}
      → Move s pc t pc'
      → With s pc own well fit n
      → With t pc' own well fit n
  unfolding drop_section
  Move-With (take e) v =
      let (rest, i, q) = received _ e in
      rw q (
        Inv-receive v _ (n + 1) rest (omega arith) i (λ j. omega arith) (λ j. omega arith)
          (λ j. omega arith))
  Move-With (miss e) v =
      Inv-same v (n + 0) (omega arith) (λ j. omega arith) (λ j. omega arith) (λ j. omega arith)
  Move-With (refuse e) v =
      Inv-same v (n + 0) (omega arith) (λ j. omega arith) (λ j. omega arith) (λ j. omega arith)
  Move-With (grab e) v =
      let (opened, space, q) = reserved_from _ _ e in
      rw q (
        Inv-register v (n + 1) (omega arith) opened space (λ j. omega arith) (λ j. omega arith)
          (λ j. omega arith))
  Move-With (queue e) v =
      Inv-same v (n + 0) (omega arith) (λ j. omega arith) (λ j. omega arith) (λ j. omega arith)
  Move-With (build {h}) v =
      Inv-build v h (n + 1) (omega arith) (λ j. omega arith) (λ j. omega arith)
        (λ j. omega (arith, o.fit_others j))
  Move-With build_fails v =
      Inv-same v (n + 1) (omega arith) (λ j. omega arith) (λ j. omega arith) (λ j. omega arith)
  Move-With (unreserve {h}) v =
      Inv-forget v h (n + 0) (omega arith) (λ j. omega arith) (λ j. omega (arith, o.well_others j))
        (λ j. omega (arith, o.fit_others j))
  Move-With (wake e) v =
      let (rest, i, q) = received _ e in
      rw q (
        Inv-receive v _ (n + 1) rest (omega arith) i (λ j. omega arith) (λ j. omega arith)
          (λ j. omega arith))
  Move-With cancel v =
      Inv-same v (n + 0) (omega arith) (λ j. omega arith) (λ j. omega arith) (λ j. omega arith)
  Move-With (find_dead e) v =
      Inv-same v (n + 1) (omega arith) (λ j. omega arith) (λ j. omega arith) (λ j. omega arith)
  Move-With (looks e) v =
      Inv-same v (n + 1) (omega arith) (λ j. omega arith) (λ j. omega arith) (λ j. omega arith)
  Move-With runs v =
      Inv-same v (n + 1) (omega arith) (λ j. omega arith) (λ j. omega arith) (λ j. omega arith)
  Move-With cleans v =
      Inv-same v (n + 1) (omega arith) (λ j. omega arith) (λ j. omega arith) (λ j. omega arith)
  Move-With stays_alive v =
      Inv-same v (n + 1) (omega arith) (λ j. omega arith) (λ j. omega arith) (λ j. omega arith)
  Move-With (dies {h}) v =
      Inv-die v h (n + 1) (omega arith) (ground arith) (ground (arith, v.once h, o.well_others h))
        (λ j. omega arith) (λ j. omega arith) (λ j. omega arith)
  Move-With (drops {h} e) v =
      Inv-forget v h (n + 0) (omega arith) (λ j. omega arith) (λ j. omega (arith, o.well_others j))
        (λ j. omega (arith, o.fit_others j))
  Move-With (drops_absent {h} e) v =
      Inv-forget v h (n + 0) (omega arith) (λ j. omega arith) (λ j. omega (arith, o.well_others j))
        (λ j. omega (arith, o.fit_others j))
  Move-With shuts_down v =
      Inv-log v (n + 0) (omega arith) (λ j. omega arith) (λ j. omega arith) (λ j. omega arith)
  Move-With (keep e) v =
      Inv-same v (n + 1) (omega arith) (λ j. omega arith) (λ j. omega arith) (λ j. omega arith)
  Move-With (tear {h} e) v = rw (torn h _ e) (
      Inv-forget v h (n + 0) (omega arith) (λ j. omega arith) (λ j. omega (arith, o.well_others j))
        (λ j. omega (arith, o.fit_others j)))
  Move-With (sends {h} e) v =
      Inv-send v h (n + 0) (omega arith) (λ j. omega arith) (λ j. omega arith) (λ j. omega arith)
  Move-With tick v =
      Inv-same v (n + 0) (omega arith) (λ j. omega arith) (λ j. omega arith) (λ j. omega arith)
  Move-With (stop e) v =
      Inv-log v (n + 0) (omega arith) (λ j. omega arith) (λ j. omega arith) (λ j. omega arith)
  Move-With (few e) v =
      Inv-same v (n + 0) (omega arith) (λ j. omega arith) (λ j. omega arith) (λ j. omega arith)
  Move-With (many e) v =
      Inv-same v (n + 0) (omega arith) (λ j. omega arith) (λ j. omega arith) (λ j. omega arith)
  Move-With (none_idle e) v =
      Inv-same v (n + 0) (omega arith) (λ j. omega arith) (λ j. omega arith) (λ j. omega arith)
  Move-With (pick e) v =
      let (rest, i, q) = received _ e in
      rw q (
        Inv-receive v _ (n + 1) rest (omega arith) i (λ j. omega arith) (λ j. omega arith)
          (λ j. omega arith))
  Move-With (put_back {h} e) v =
      Inv-send v h (n + 0) (omega arith) (λ j. omega arith) (λ j. omega arith) (λ j. omega arith)
  Move-With (reap {h} e) v =
      Inv-forget v h (n + 0) (omega arith) (λ j. omega arith) (λ j. omega (arith, o.well_others j))
        (λ j. omega (arith, o.fit_others j))
  Move-With (reap_absent {h} e) v =
      Inv-forget v h (n + 0) (omega arith) (λ j. omega arith) (λ j. omega (arith, o.well_others j))
        (λ j. omega (arith, o.fit_others j))
  Move-With reaps v =
      Inv-log v (n + 0) (omega arith) (λ j. omega arith) (λ j. omega arith) (λ j. omega arith)
