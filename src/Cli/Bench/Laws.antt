-- ===== src/Cli/Bench/Laws.antt =====
-- What the cells of `sandbox bench` are measured on, and the bars of its dashboard.
use podman_sandbox_runner.Base.{
  ℕ, ℤ, ltb, length, Bool, true, false, ◌≡◌, refl, ◌≢◌, ◌⊎◌, inl, inr, Option, List, [], ◌∷◌, ◌++◌,
  Text, bytes, Bool-cases, if◌then◌else◌,
}
use podman_sandbox_runner.Sandbox.{Error, Opts}
use podman_sandbox_runner.Probe.{ProbeResult}
use podman_sandbox_runner.Cli.Bench.{
  Cell, Bencher, take, reason, bench_opts, iterations, runtime_names, measured, cell_of, warm_cell,
  cold_cell, measure_warm, measure_cold, docker_cells, has_runtime, runtime_cell, runtime_cells,
  k8s_cells, probed, run_bench,
}

-- A cell without a measurement says why; one with it stands on what the probe has found.
abbrev pub IsFounded : ProbeResult → Cell → Type 0
IsFounded probe c =
    (c.na ≢ [])
    ⊎ (((c.backend ≡ bytes "docker") × (probe.docker_ok ≡ true))
        ⊎ ((c.backend ≡ bytes "k8s")
            × (probe.k8s_ok ≡ true)
            × ((c.runtime ≡ bytes "runc") ⊎ (has_runtime probe c.runtime ≡ true))))

unfoldable pub AreFounded : ProbeResult → List Cell → Type 0
AreFounded probe [] = Unit {0}
AreFounded probe (c ∷ cells) = IsFounded probe c × AreFounded probe cells

AreFounded-append :
    (probe : ProbeResult) (cells : List Cell) (c : Cell)
    → AreFounded probe cells
    → IsFounded probe c
    → AreFounded probe (cells ++ c ∷ [])
unfolding AreFounded
AreFounded-append probe [] c t f = (f, t)
AreFounded-append probe (d ∷ cells) c (h, t) f = (h, AreFounded-append probe cells c t f)

filled_append : (s : Text) (c : ℕ) (t : Text) → s ++ c ∷ t ≢ []
filled_append [] c t e = absurd cc
filled_append (d ∷ s) c t e = absurd cc

reason_filled : (msg : Text) → reason msg ≢ []
unfolding reason
reason_filled [] e = absurd cc
reason_filled (c ∷ msg) e = elim (Bool-cases (ltb 40 (length (c ∷ msg)))) [
  | inl l ↦ filled_append (take 39 (c ∷ msg)) 226 (128 ∷ 166 ∷ []) (rw (l, reason) at e)
  | inr l ↦ absurd (cc (rw (l, reason) at e))
]

-- What may be measured on a runtime of a backend, whatever comes out.
abbrev MayMeasure : ProbeResult → Text → Text → Type 0
MayMeasure probe backend runtime =
    ((backend ≡ bytes "docker") × (probe.docker_ok ≡ true))
    ⊎ ((backend ≡ bytes "k8s")
        × (probe.k8s_ok ≡ true)
        × ((runtime ≡ bytes "runc") ⊎ (has_runtime probe runtime ≡ true)))

measured-IsFounded :
    (probe : ProbeResult) (backend runtime mode : Text) (r : ℤ × Option Error)
    → MayMeasure probe backend runtime
    → IsFounded probe (measured backend runtime mode r)
measured-IsFounded probe backend runtime mode (d, e) may = inr may

AreFounded-if :
    {W : Type 0} (probe : ProbeResult) (b : Bool) (x y : List Cell × W)
    → (b ≡ true → AreFounded probe x.0)
    → (b ≡ false → AreFounded probe y.0)
    → AreFounded probe (if b then x else y).0
AreFounded-if probe true x y t f = t refl
AreFounded-if probe false x y t f = f refl

module _ {P W : Type 0} (bencher : Bencher P W) where
  cell_of-AreFounded :
      (probe : ProbeResult) (backend runtime mode : Text) (r : (ℤ × Option Error) × W)
      (cells : List Cell)
      → MayMeasure probe backend runtime
      → AreFounded probe cells
      → AreFounded probe (cell_of bencher backend runtime mode r cells).0
  cell_of-AreFounded probe backend runtime mode (r, w) cells may t =
      AreFounded-append probe cells _ t (measured-IsFounded probe backend runtime mode r may)

  cold_cell-AreFounded :
      (probe : ProbeResult) (backend runtime : Text) (o : Opts) (n : ℕ) (q : List Cell × W)
      → MayMeasure probe backend runtime
      → AreFounded probe q.0
      → AreFounded probe (cold_cell bencher backend runtime o n q).0
  cold_cell-AreFounded probe backend runtime o n (cells, w) may t =
      cell_of-AreFounded probe backend runtime (bytes "cold") (measure_cold bencher o n w) cells may
        t

  warm_cell-AreFounded :
      (probe : ProbeResult) (backend runtime : Text) (o : Opts) (n : ℕ) (q : List Cell × W)
      → MayMeasure probe backend runtime
      → AreFounded probe q.0
      → AreFounded probe (warm_cell bencher backend runtime o n q).0
  warm_cell-AreFounded probe backend runtime o n (cells, w) may t =
      cell_of-AreFounded probe backend runtime (bytes "warm") (measure_warm bencher o n w) cells may
        t

  docker_cells-AreFounded :
      (probe : ProbeResult) (image : Text) (n : ℕ) (w : W)
      → AreFounded probe (docker_cells bencher probe image n w).0
  unfolding docker_cells AreFounded
  docker_cells-AreFounded probe image n w =
      AreFounded-if probe probe.docker_ok _ _
        (λ up.
          (warm_cell-AreFounded probe (bytes "docker") (bytes "default")
            (bench_opts image (bytes "docker") []) n
            (cold_cell bencher (bytes "docker") (bytes "default")
              (bench_opts image (bytes "docker") []) n ([], w))
            (inl (refl, up))
            (cold_cell-AreFounded probe (bytes "docker") (bytes "default")
              (bench_opts image (bytes "docker") []) n ([], w) (inl (refl, up)) tt)))
        (λ down. (inl (reason_filled probe.docker_err), tt))

  runtime_cell-AreFounded :
      (probe : ProbeResult) (image : Text) (n : ℕ) (name : Text) (q : List Cell × W)
      → probe.k8s_ok ≡ true
      → AreFounded probe q.0
      → AreFounded probe (runtime_cell bencher probe image n name q).0
  runtime_cell-AreFounded probe image n name (cells, w) up t =
      AreFounded-if probe (has_runtime probe name) _ _
        (λ there.
          (cold_cell-AreFounded probe (bytes "k8s") name (bench_opts image (bytes "k8s") name) n
            (cells, w) (inr (refl, up, inr there)) t))
        (λ missing. (AreFounded-append probe cells _ t (inl (λ e. absurd cc))))

  runtime_cells-AreFounded :
      (probe : ProbeResult) (image : Text) (n : ℕ) (names : List Text) (q : List Cell × W)
      → probe.k8s_ok ≡ true
      → AreFounded probe q.0
      → AreFounded probe (runtime_cells bencher probe image n names q).0
  unfolding runtime_cells
  runtime_cells-AreFounded probe image n [] q up t = t
  runtime_cells-AreFounded probe image n (name ∷ names) q up t =
      runtime_cells-AreFounded probe image n names (runtime_cell bencher probe image n name q) up
        (runtime_cell-AreFounded probe image n name q up t)

  k8s_cells-AreFounded :
      (probe : ProbeResult) (image : Text) (n : ℕ) (q : List Cell × W)
      → AreFounded probe q.0
      → AreFounded probe (k8s_cells bencher probe image n q).0
  k8s_cells-AreFounded probe image n (cells, w) t =
      AreFounded-if probe probe.k8s_ok _ _
        (λ up.
          (runtime_cells-AreFounded probe image n runtime_names _ up (
            warm_cell-AreFounded probe (bytes "k8s") (bytes "runc")
              (bench_opts image (bytes "k8s") []) n
              (cold_cell bencher (bytes "k8s") (bytes "runc") (bench_opts image (bytes "k8s") []) n
                (cells, w))
              (inr (refl, up, inl refl))
              (cold_cell-AreFounded probe (bytes "k8s") (bytes "runc")
                (bench_opts image (bytes "k8s") []) n (cells, w) (inr (refl, up, inl refl)) t))))
        (λ down. (AreFounded-append probe cells _ t (inl (reason_filled probe.k8s_err))))

  -- Every cell of the dashboard either says why it has no measurement, or was measured on a backend
  -- that the probe has reached, and there on the default runtime of Docker, on runc, or on a runtime
  -- class that the probe has found.
  pub run_bench-AreFounded :
      (n : ℤ) (image : Text) (w : W)
      → AreFounded (bencher.probe runtime_names w).0 (run_bench bencher n image w).0
  unfolding run_bench
  run_bench-AreFounded n image w = probed_lem (bencher.probe runtime_names w)
    where
      probed_lem : (q : ProbeResult × W) → AreFounded q.0 (probed bencher n image q).0
      probed_lem (probe, w1) =
          k8s_cells-AreFounded probe image (iterations n)
            (docker_cells bencher probe image (iterations n) w1)
            (docker_cells-AreFounded probe image (iterations n) w1)
