-- ===== src/Pool/Threads/Ledger.antt =====
-- Who has which holder: the invariant of the interleavings, over the number `own h` of goroutines
-- that have `h`, the number `well h` of those that have not found it dead, the number `fit h` of
-- those for which it is built, and the number `n` of goroutines that have a holder.
use podman_sandbox_runner.Base.{
  ℕ, suc, ◌+◌, ◌≤◌, ◌<◌, pos, ◌≤ℤ◌, Bool, true, false, ◌≡◌, refl, ap, List, [], ◌∷◌, ◌++◌, length,
  length-append, count, count-append, count-delete, length-delete, insert, insert_fresh, bit, arith,
  ◌==◌,
}
use podman_sandbox_runner.Pool.State.{send, forget, register}
use podman_sandbox_runner.Pool.Ops.{put}
use podman_sandbox_runner.Pool.Threads.{Shared, Closing, not_called, marked, emptied, drained}

-- Whether `Close` has taken the map's keys.
abbrev pub is_emptied : Closing → Bool
is_emptied not_called = false
is_emptied marked = false
is_emptied (emptied hs) = true
is_emptied (drained hs) = true

-- Whether `Close` has marked the pool closed.
abbrev pub is_called : Closing → Bool
is_called not_called = false
is_called _ = true

emptied-called : (c : Closing) → is_emptied c ≡ true → is_called c ≡ true
emptied-called not_called e = cc
emptied-called _ e = refl

pub record Inv (s : Shared) (own well fit : ℕ → ℕ) (n : ℕ) : Type 0 where
  pub once : (h : ℕ) → count h s.state.idle + own h ≤ 1
  pub well_le : (h : ℕ) → well h ≤ own h
  pub fit_le : (h : ℕ) → fit h ≤ own h
  pub fresh_out : (h : ℕ) → s.fresh ≤ h → count h s.state.idle + own h + count h s.state.all ≡ 0
  pub ledger :
      (h : ℕ) → is_emptied s.closing ≡ false → count h s.state.all ≡ count h s.state.idle + own h
  pub size : is_emptied s.closing ≡ false → length s.state.all ≡ length s.state.idle + n
  pub gone : is_emptied s.closing ≡ true → length s.state.all ≡ 0
  pub shut : is_called s.closing ≡ true → s.state.closed ≡ true
  pub room : pos (length s.state.idle + n) ≤ℤ s.state.cfg.max
  pub alive : (h : ℕ) → 0 < count h s.state.idle + well h → s.dead h ≡ false
  pub made : (h : ℕ) → 0 < count h s.state.idle + fit h → s.built h ≡ true

module _ {s : Shared} {own well fit own' well' fit' : ℕ → ℕ} {n : ℕ}
    (v : Inv s own well fit n) where
  -- A goroutine goes on with the holder that it has, or with none.
  pub Inv-same :
      (m : ℕ)
      → m ≡ n
      → ((j : ℕ) → own' j ≡ own j)
      → ((j : ℕ) → well' j ≤ well j)
      → ((j : ℕ) → fit' j ≤ fit j)
      → Inv s own' well' fit' m
  Inv-same m e eo ew ef = record {
    once = λ h. omega (arith, v.once h, eo h);
    well_le = λ h. omega (arith, v.well_le h, eo h, ew h);
    fit_le = λ h. omega (arith, v.fit_le h, eo h, ef h);
    fresh_out = λ h k. omega (arith, v.fresh_out h k, eo h);
    ledger = λ h q. omega (arith, v.ledger h q, eo h);
    size = λ q. omega (arith, v.size q);
    gone = v.gone;
    shut = v.shut;
    room = omega (arith, v.room);
    alive = λ h k. v.alive h (omega (arith, ew h));
    made = λ h k. v.made h (omega (arith, ef h));
  }

  -- The same where the goroutine notes that the reaper has ended, or calls `close` of a holder.
  pub Inv-log :
      {done : Bool} {ended : List ℕ} (m : ℕ)
      → m ≡ n
      → ((j : ℕ) → own' j ≡ own j)
      → ((j : ℕ) → well' j ≤ well j)
      → ((j : ℕ) → fit' j ≤ fit j)
      → Inv (record s { reaper_done = done; torn_down = ended }) own' well' fit' m
  Inv-log m e eo ew ef = record {
    once = λ h. omega (arith, v.once h, eo h);
    well_le = λ h. omega (arith, v.well_le h, eo h, ew h);
    fit_le = λ h. omega (arith, v.fit_le h, eo h, ef h);
    fresh_out = λ h k. omega (arith, v.fresh_out h k, eo h);
    ledger = λ h q. omega (arith, v.ledger h q, eo h);
    size = λ q. omega (arith, v.size q);
    gone = v.gone;
    shut = v.shut;
    room = omega (arith, v.room);
    alive = λ h k. v.alive h (omega (arith, ew h));
    made = λ h k. v.made h (omega (arith, ef h));
  }

  -- A receive from the channel.
  pub Inv-receive :
      (h m : ℕ) (rest : List ℕ)
      → m ≡ suc n
      → s.state.idle ≡ h ∷ rest
      → ((j : ℕ) → own' j ≡ own j + bit (h == j))
      → ((j : ℕ) → well' j ≡ well j + bit (h == j))
      → ((j : ℕ) → fit' j ≡ fit j + bit (h == j))
      → Inv (record s { state = record (s.state) { idle = rest } }) own' well' fit' m
  Inv-receive h m rest g e eo ew ef = record {
    once = λ j. omega (arith, v.once j, eo j, ap (count j) e);
    well_le = λ j. omega (arith, v.well_le j, eo j, ew j);
    fit_le = λ j. omega (arith, v.fit_le j, eo j, ef j);
    fresh_out = λ j k. omega (arith, v.fresh_out j k, eo j, ap (count j) e);
    ledger = λ j q. omega (arith, v.ledger j q, eo j, ap (count j) e);
    size = λ q. omega (arith, v.size q, ap length e);
    gone = v.gone;
    shut = v.shut;
    room = omega (arith, v.room, ap length e);
    alive = λ j k. v.alive j (omega (arith, ew j, ap (count j) e));
    made = λ j k. v.made j (omega (arith, ef j, ap (count j) e));
  }

  -- A send to the channel of a holder that is well and built.
  pub Inv-send :
      (h m : ℕ)
      → n ≡ suc m
      → ((j : ℕ) → own j ≡ own' j + bit (h == j))
      → ((j : ℕ) → well j ≡ well' j + bit (h == j))
      → ((j : ℕ) → fit j ≡ fit' j + bit (h == j))
      → Inv (record s { state = send h s.state }) own' well' fit' m
  unfolding send
  Inv-send h m e eo ew ef = record {
    once = λ j. omega (arith, v.once j, eo j, at j);
    well_le = λ j. omega (arith, v.well_le j, eo j, ew j);
    fit_le = λ j. omega (arith, v.fit_le j, eo j, ef j);
    fresh_out = λ j k. omega (arith, v.fresh_out j k, eo j, at j);
    ledger = λ j q. omega (arith, v.ledger j q, eo j, at j);
    size = λ q. omega (arith, v.size q, len);
    gone = v.gone;
    shut = v.shut;
    room = omega (arith, v.room, len);
    alive = λ j k. v.alive j (omega (arith, ew j, at j));
    made = λ j k. v.made j (omega (arith, ef j, at j));
  }
    where
      at : (j : ℕ) → count j (s.state.idle ++ h ∷ []) ≡ count j s.state.idle + bit (h == j)
      at j = omega (arith, count-append j s.state.idle (h ∷ []))

      len : length (s.state.idle ++ h ∷ []) ≡ suc (length s.state.idle)
      len = omega (arith, length-append s.state.idle (h ∷ []))

  -- The deletion of a holder that a goroutine gives up.
  pub Inv-forget :
      (h m : ℕ)
      → n ≡ suc m
      → ((j : ℕ) → own j ≡ own' j + bit (h == j))
      → ((j : ℕ) → (well' j ≤ own' j) × (well' j ≤ well j))
      → ((j : ℕ) → (fit' j ≤ own' j) × (fit' j ≤ fit j))
      → Inv (record s { state = forget h s.state }) own' well' fit' m
  unfolding forget
  Inv-forget h m e eo ew ef = record {
    once = λ j. omega (arith, v.once j, eo j);
    well_le = λ j. (ew j).0;
    fit_le = λ j. (ef j).0;
    fresh_out = λ j k. ground (arith, v.fresh_out j k, eo j, count-delete h j s.state.all);
    ledger = λ j q. ground (arith, v.ledger j q, eo j, v.once j, count-delete h j s.state.all);
    size = λ q. ground (arith, v.size q, v.ledger h q, eo h, v.once h, length-delete h s.state.all);
    gone = λ q. omega (arith, v.gone q, length-delete h s.state.all);
    shut = v.shut;
    room = omega (arith, v.room);
    alive = λ j k. v.alive j (omega (arith, ew j));
    made = λ j k. v.made j (omega (arith, ef j));
  }

  -- The reservation of a slot.
  pub Inv-register :
      (m : ℕ)
      → m ≡ suc n
      → s.state.closed ≡ false
      → pos (suc (length s.state.all)) ≤ℤ s.state.cfg.max
      → ((j : ℕ) → own' j ≡ own j + bit (s.fresh == j))
      → ((j : ℕ) → well' j ≡ well j + bit (s.fresh == j))
      → ((j : ℕ) → fit' j ≡ fit j)
      → Inv
          (record s {
            state = register s.fresh s.state;
            fresh = suc s.fresh;
            built = put s.fresh false s.built;
            dead = put s.fresh false s.dead;
          })
          own'
          well'
          fit'
          m
  unfolding register put
  Inv-register m g open_ space eo ew ef = record {
    once = λ j. ground (arith, v.once j, v.fresh_out j, eo j);
    well_le = λ j. omega (arith, v.well_le j, eo j, ew j);
    fit_le = λ j. omega (arith, v.fit_le j, eo j, ef j);
    fresh_out = λ j k. ground (arith, v.fresh_out j, eo j, new);
    ledger = λ j q. ground (arith, v.ledger j q, eo j, new);
    size = λ q. omega (arith, v.size q, ap length new);
    gone = λ q. absurd (ground (arith, v.shut (emptied-called s.closing q), open_));
    shut = v.shut;
    room = ground (arith, space, v.size, v.shut, emptied-called s.closing, open_);
    alive = λ j k. ground (arith, v.alive j, ew j, k);
    made = λ j k. ground (arith, v.made j, v.fit_le j, ef j, v.fresh_out j, k);
  }
    where
      new : insert s.fresh s.state.all ≡ s.fresh ∷ s.state.all
      new = insert_fresh s.fresh s.state.all (omega (arith, v.fresh_out s.fresh (omega arith)))

  -- `newImpl` has answered: the goroutine may run on its holder.
  pub Inv-build :
      (h m : ℕ)
      → m ≡ n
      → ((j : ℕ) → own' j ≡ own j)
      → ((j : ℕ) → well' j ≡ well j)
      → ((j : ℕ) → (fit' j ≤ fit j + bit (h == j)) × (fit' j ≤ own' j))
      → Inv (record s { built = put h true s.built }) own' well' fit' m
  unfolding put
  Inv-build h m g eo ew ef = record {
    once = λ j. omega (arith, v.once j, eo j);
    well_le = λ j. omega (arith, v.well_le j, eo j, ew j);
    fit_le = λ j. (ef j).1;
    fresh_out = λ j k. omega (arith, v.fresh_out j k, eo j);
    ledger = λ j q. omega (arith, v.ledger j q, eo j);
    size = λ q. omega (arith, v.size q);
    gone = v.gone;
    shut = v.shut;
    room = omega (arith, v.room);
    alive = λ j k. v.alive j (omega (arith, ew j));
    made = λ j k. ground (arith, v.made j, ef j, k);
  }

  -- A holder is found dead by the goroutine that has it.
  pub Inv-die :
      (h m : ℕ)
      → m ≡ n
      → 0 < own h
      → well' h ≡ 0
      → ((j : ℕ) → own' j ≡ own j)
      → ((j : ℕ) → well' j ≤ well j)
      → ((j : ℕ) → fit' j ≤ fit j)
      → Inv (record s { dead = put h true s.dead }) own' well' fit' m
  unfolding put
  Inv-die h m g has unwell eo ew ef = record {
    once = λ j. omega (arith, v.once j, eo j);
    well_le = λ j. omega (arith, v.well_le j, eo j, ew j);
    fit_le = λ j. omega (arith, v.fit_le j, eo j, ef j);
    fresh_out = λ j k. omega (arith, v.fresh_out j k, eo j);
    ledger = λ j q. omega (arith, v.ledger j q, eo j);
    size = λ q. omega (arith, v.size q);
    gone = v.gone;
    shut = v.shut;
    room = omega (arith, v.room);
    alive = λ j k. ground (arith, v.alive j, ew j, k, unwell, has, v.once h);
    made = λ j k. v.made j (omega (arith, ef j));
  }
