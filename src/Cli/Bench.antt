-- ===== src/Cli/Bench.antt =====
-- cmd/sandbox/bench.go: what `sandbox bench` measures, and the bars that it draws. `Bencher` is what it
-- calls of the library and of the clock, with times in nanoseconds; `P` is a pool.
pub mod Laws
pub mod Bars
pub mod Dashboard
pub mod Shown
mod Tests
use podman_sandbox_runner.Base.{
  ℕ, zero, suc, ℤ, pos, pos_part, ltb_ℤ, quot, ◌-ℤ◌, ltb, length, Bool, true, false, ◌&&◌, not,
  is_some, Option, none, some, List, [], ◌∷◌, ◌++◌, Text, bytes, text_eq, is_empty, if◌then◌else◌,
}
use podman_sandbox_runner.Sandbox.{Error, Fallible, ok, err, Opts}
use podman_sandbox_runner.Pool.Config.{PoolConfig}
use podman_sandbox_runner.Probe.{ProbeResult}

-- A cell without a measurement has its reason in `na`.
pub record Cell : Type 0 where
  pub backend : Text
  pub runtime : Text
  pub mode : Text
  pub dur : ℤ
  pub failure : Option Error
  pub na : Text

pub record Bencher (P W : Type 0) : Type 0 where
  pub run : Opts → W → Option Error × W
  pub new_pool : Opts → PoolConfig → W → Fallible P × W
  pub pool_run : P → List Text → W → Option Error × W
  pub close_pool : P → W → W
  pub probe : List Text → W → ProbeResult × W
  pub now : W → ℤ

abbrev pub take : ℕ → Text → Text
take zero s = []
take (suc n) [] = []
take (suc n) (c ∷ s) = c ∷ take n s

-- The ellipsis is three bytes long.
abbrev pub ellipsis : Text
ellipsis = 226 ∷ 128 ∷ 166 ∷ []

unfoldable pub reason : Text → Text
reason msg =
    if is_empty msg
    then bytes "unavailable"
    else if ltb 40 (length msg)
    then take 39 msg ++ ellipsis
    else msg

unfoldable pub bench_opts : Text → Text → Text → Opts
bench_opts image backend runtime = record {
  image = image;
  cmd = [];
  timeout = pos 30000000000;
  net_wait = pos 0;
  mem_mb = pos 256;
  nano_cpus = pos 1000000000;
  user = bytes "65534:65534";
  runtime = runtime;
  binds = [];
  env = [];
  with_stdin = false;
  backend = backend;
}

abbrev pub just_true : List Text
just_true = bytes "true" ∷ []

-- One call and, unless it fails, what comes behind it.
abbrev pub and_then : {W : Type 0} → (W → Option Error × W) → Option Error × W → Option Error × W
and_then rest (some e, w) = (some e, w)
and_then rest (none, w) = rest w

-- The loop of a measurement: up to the first error.
unfoldable pub repeat : {W : Type 0} → ℕ → (W → Option Error × W) → W → Option Error × W
repeat zero call w = (none, w)
repeat (suc n) call w = and_then (λ w1. repeat n call w1) (call w)

-- `-n`, which is 1 at least.
abbrev pub iterations : ℤ → ℕ
iterations n = if ltb_ℤ n (pos 1) then 1 else pos_part n

abbrev pub runtime_names : List Text
runtime_names = bytes "gvisor" ∷ bytes "kata" ∷ []

-- A cell that was measured, and one that was not.
abbrev pub measured : Text → Text → Text → ℤ × Option Error → Cell
measured backend runtime mode (d, e) = record {
  backend = backend;
  runtime = runtime;
  mode = mode;
  dur = d;
  failure = e;
  na = [];
}

abbrev pub not_there : Text → Text → Text → Text → Cell
not_there backend runtime mode why = record {
  backend = backend;
  runtime = runtime;
  mode = mode;
  dur = pos 0;
  failure = none;
  na = why;
}

-- Whether a cell has a duration to show.
abbrev pub is_shown : Cell → Bool
is_shown c = is_empty c.na && not (is_some c.failure)

unfoldable pub max_dur : List Cell → ℤ → ℤ
max_dur [] m = m
max_dur (c ∷ cells) m = max_dur cells (if is_shown c && ltb_ℤ m c.dur then c.dur else m)

-- `find` of `renderDashboard`.
unfoldable pub find_cell : Text → Text → Text → List Cell → Option ℤ
find_cell backend runtime mode [] = none
find_cell backend runtime mode (c ∷ cells) =
    let rest = find_cell backend runtime mode cells in
    if text_eq c.backend backend && text_eq c.runtime runtime && text_eq c.mode mode && is_shown c
    then some c.dur
    else rest

abbrev pub at_most : ℤ → ℤ → ℤ
at_most width f = if ltb_ℤ width f then width else f

abbrev pub at_least : ℤ → ℤ → ℤ
at_least low f = if ltb_ℤ f low then low else f

-- The filled part of `solidBar`. `scaled` is the product in floating point, which may be any number.
unfoldable pub bar_fill : (ℤ → ℤ → ℤ → ℤ) → ℤ → ℤ → ℤ → ℤ
bar_fill scaled d most width =
    at_least (pos 1) (at_most width (if ltb_ℤ (pos 0) most then scaled d most width else pos 1))

-- `probe.Runtimes[name]`
abbrev pub has_runtime : ProbeResult → Text → Bool
has_runtime probe name = elim (probe.runtimes name) [ none ↦ false | some b ↦ b ]

module _ {P W : Type 0} (bencher : Bencher P W) where
  -- The end of both measurements.
  abbrev pub timed : ℕ → ℤ → Option Error × W → (ℤ × Option Error) × W
  timed n start (some e, w) = ((pos 0, some e), w)
  timed n start (none, w) = ((quot (bencher.now w -ℤ start) n, none), w)

  unfoldable pub measure_cold : Opts → ℕ → W → (ℤ × Option Error) × W
  measure_cold o n w =
      timed n (bencher.now w) (repeat n (λ w1. bencher.run (record o { cmd = just_true }) w1) w)

  abbrev pub warmed : ℕ → P → Option Error × W → (ℤ × Option Error) × W
  warmed n p (some e, w) = ((pos 0, some e), w)
  warmed n p (none, w) =
      timed n (bencher.now w) (repeat n (λ w1. bencher.pool_run p just_true w1) w)

  -- The deferred `Close` of the pool.
  abbrev pub closing : P → (ℤ × Option Error) × W → (ℤ × Option Error) × W
  closing p (r, w) = (r, bencher.close_pool p w)

  abbrev pub pooled : ℕ → Fallible P × W → (ℤ × Option Error) × W
  pooled n (err e, w) = ((pos 0, some e), w)
  pooled n (ok p, w) = closing p (warmed n p (bencher.pool_run p just_true w))

  unfoldable pub measure_warm : Opts → ℕ → W → (ℤ × Option Error) × W
  measure_warm o n w = pooled n (
      bencher.new_pool (record o { cmd = [] })
        (record { min = pos 1; max = pos 1; idle_timeout = pos 0 }) w)

  -- One more cell.
  abbrev pub cell_of : Text → Text → Text → (ℤ × Option Error) × W → List Cell → List Cell × W
  cell_of backend runtime mode (r, w) cells = (cells ++ measured backend runtime mode r ∷ [], w)

  abbrev pub warm_cell : Text → Text → Opts → ℕ → List Cell × W → List Cell × W
  warm_cell backend runtime o n (cells, w) =
      cell_of backend runtime (bytes "warm") (measure_warm o n w) cells

  abbrev pub cold_cell : Text → Text → Opts → ℕ → List Cell × W → List Cell × W
  cold_cell backend runtime o n (cells, w) =
      cell_of backend runtime (bytes "cold") (measure_cold o n w) cells

  unfoldable pub docker_cells : ProbeResult → Text → ℕ → W → List Cell × W
  docker_cells probe image n w =
      if probe.docker_ok
      then (let o = bench_opts image (bytes "docker") [] in
          warm_cell (bytes "docker") (bytes "default") o n
            (cold_cell (bytes "docker") (bytes "default") o n ([], w)))
      else (
        not_there (bytes "docker") (bytes "default") (bytes "-") (reason probe.docker_err) ∷ [],
        w,
      )

  abbrev pub runtime_cell : ProbeResult → Text → ℕ → Text → List Cell × W → List Cell × W
  runtime_cell probe image n name (cells, w) =
      if has_runtime probe name
      then cold_cell (bytes "k8s") name (bench_opts image (bytes "k8s") name) n (cells, w)
      else (cells ++ not_there (bytes "k8s") name (bytes "cold") (bytes "no runtimeclass") ∷ [], w)

  unfoldable pub runtime_cells : ProbeResult → Text → ℕ → List Text → List Cell × W → List Cell × W
  runtime_cells probe image n [] q = q
  runtime_cells probe image n (name ∷ names) q =
      runtime_cells probe image n names (runtime_cell probe image n name q)

  abbrev pub k8s_cells : ProbeResult → Text → ℕ → List Cell × W → List Cell × W
  k8s_cells probe image n (cells, w) =
      if probe.k8s_ok
      then (let o = bench_opts image (bytes "k8s") [] in
          runtime_cells probe image n runtime_names (
            warm_cell (bytes "k8s") (bytes "runc") o n
              (cold_cell (bytes "k8s") (bytes "runc") o n (cells, w))))
      else (cells ++ not_there (bytes "k8s") (bytes "-") (bytes "-") (reason probe.k8s_err) ∷ [], w)

  abbrev pub probed : ℤ → Text → ProbeResult × W → List Cell × W
  probed n image (probe, w) =
      k8s_cells probe image (iterations n) (docker_cells probe image (iterations n) w)

  -- The cells that `runBench` hands to the dashboard.
  unfoldable pub run_bench : ℤ → Text → W → List Cell × W
  run_bench n image w = probed n image (bencher.probe runtime_names w)
