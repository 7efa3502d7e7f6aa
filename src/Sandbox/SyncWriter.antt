-- ===== src/Sandbox/SyncWriter.antt =====
-- pkg/sandbox/syncwriter.go: the writer that drops what comes after `Close`. Both methods hold the
-- lock throughout, so goroutines act on it one call after the other. `W` is the wrapped writer and
-- `put` its `Write`.
use podman_sandbox_runner.Base.{
  ℕ, Bool, true, false, ◌≡◌, refl, ap, Option, none, List, [], ◌∷◌, Text, length, if◌then◌else◌,
}
use podman_sandbox_runner.Sandbox.Errors.{Error}

pub record SyncWriter (W : Type 0) : Type 0 where
  pub w : W
  pub closed : Bool

-- The number of bytes and the error that `Write` returns.
pub record Written : Type 0 where
  pub n : ℕ
  pub failure : Option Error

pub data Use : Type 0 where
  write : Text → Use
  close : Use

module _ {W : Type 0} (put : Text → W → Written × W) where
  unfoldable pub new_sync_writer : W → SyncWriter W
  new_sync_writer w = record { w = w; closed = false }

  abbrev under : SyncWriter W → Written × W → Written × SyncWriter W
  under s (r, w) = (r, record s { w = w })

  unfoldable pub write_to : Text → SyncWriter W → Written × SyncWriter W
  write_to p s =
      if s.closed then (record { n = length p; failure = none }, s) else under s (put p s.w)

  unfoldable pub close_writer : SyncWriter W → SyncWriter W
  close_writer s = record s { closed = true }

  -- Any order of writes and closes.
  unfoldable pub use_all : List Use → SyncWriter W → SyncWriter W
  use_all [] s = s
  use_all (write p ∷ us) s = use_all us (write_to p s).1
  use_all (close ∷ us) s = use_all us (close_writer s)

  -- What the wrapped writer holds after the writes before the first close.
  abbrev pub reaches : List Use → W → W
  reaches [] w = w
  reaches (write p ∷ us) w = reaches us (put p w).1
  reaches (close ∷ us) w = w

  closed_writer :
      (us : List Use) (w : W)
      → use_all us (record { w = w; closed = true }) ≡ record { w = w; closed = true }
  unfolding use_all write_to close_writer
  closed_writer [] w = refl
  closed_writer (write p ∷ us) w = closed_writer us w
  closed_writer (close ∷ us) w = closed_writer us w

  -- In any order of calls, the wrapped writer gets exactly the writes before the first `Close`, in
  -- their order, and is not touched after it.
  pub writes_before_close :
      (us : List Use) (w : W) → (use_all us (new_sync_writer w)).w ≡ reaches us w
  unfolding use_all write_to close_writer new_sync_writer
  writes_before_close [] w = refl
  writes_before_close (write p ∷ us) w = writes_before_close us (put p w).1
  writes_before_close (close ∷ us) w = ap (λ (s : SyncWriter W). s.w) (closed_writer us w)
