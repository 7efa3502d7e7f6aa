-- ===== src/Pool/Ticker.antt =====
-- pkg/sandbox/pool.go: how often `reaper` ticks.
use podman_sandbox_runner.Base.{
  ℤ, pos, ltb_ℤ, leb_ℤ, quot, ◌≤ℤ◌, inl, inr, arith, Bool-cases, if◌then◌else◌,
}

abbrev half_minute : ℤ
half_minute = pos 30000000000

abbrev second : ℤ
second = pos 1000000000

abbrev at_most : ℤ → ℤ → ℤ
at_most bound t = if ltb_ℤ bound t then bound else t

abbrev unless_positive : ℤ → ℤ → ℤ
unless_positive other t = if leb_ℤ t (pos 0) then other else t

-- The time between two ticks, in nanoseconds.
unfoldable pub reaper_interval : ℤ → ℤ
reaper_interval idle_timeout = unless_positive second (at_most half_minute (quot idle_timeout 2))

ticker_lem :
    (t : ℤ)
    → (pos 1 ≤ℤ unless_positive second (at_most half_minute t))
      × (unless_positive second (at_most half_minute t) ≤ℤ half_minute)
ticker_lem t = elim (Bool-cases (ltb_ℤ half_minute t)) [
  | inl b ↦ rw b (ground arith, ground arith)
  | inr b ↦ elim (Bool-cases (leb_ℤ t (pos 0))) [
    | inl c ↦ rw (b, c) (ground arith, ground arith)
    | inr c ↦ rw (b, c) (ground (arith, c), ground (arith, b))
  ]
]

-- The interval is positive, as `time.NewTicker` demands, and half a minute at most, whatever the idle
-- timeout.
pub reaper_interval_bounds :
    (idle_timeout : ℤ)
    → (pos 1 ≤ℤ reaper_interval idle_timeout) × (reaper_interval idle_timeout ≤ℤ half_minute)
unfolding reaper_interval
reaper_interval_bounds idle_timeout = ticker_lem (quot idle_timeout 2)
