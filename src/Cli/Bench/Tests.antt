-- ===== src/Cli/Bench/Tests.antt =====
-- A bench on Docker alone, where every run takes 3.
use podman_sandbox_runner.Base.{
  ℕ, List, some, ltb_ℤ, ◌+◌, pos, true, ◌≡◌, refl, none, [], ◌∷◌, bytes,
}
use podman_sandbox_runner.Sandbox.{external, ok}
use podman_sandbox_runner.Probe.{unprobed}
use podman_sandbox_runner.Cli.Bench.{
  Bencher, Cell, max_dur, runtime_names, measured, not_there, run_bench, docker_cells, measure_cold,
  measure_warm, repeat, reason,
}
use podman_sandbox_runner.Cli.Bench.Dashboard.{Painter, render_dashboard}
use podman_sandbox_runner.Cli.Bench.Shown.{shown, render_dashboard-shown}

abbrev bencher : Bencher ℕ ℕ
bencher = record {
  run = λ o w. (none, w + 3);
  new_pool = λ o cfg w. (ok 1, w + 10);
  pool_run = λ p cmd w. (none, w + 1);
  close_pool = λ p w. w + 20;
  probe = λ names w. (record unprobed { docker_ok = true }, w);
  now = λ w. pos w;
}

cells :
    (run_bench bencher (pos 2) (bytes "alpine") 0).0
    ≡ measured (bytes "docker") (bytes "default") (bytes "cold") (pos 3, none)
      ∷ measured (bytes "docker") (bytes "default") (bytes "warm") (pos 1, none)
      ∷ not_there (bytes "k8s") (bytes "-") (bytes "-") (bytes "unavailable")
      ∷ []
unfolding run_bench docker_cells measure_cold measure_warm repeat reason
cells = refl

-- No colours and no frame.
abbrev plain : Painter
plain = record {
  title = λ t. t;
  dim = λ t. t;
  num = λ t. t;
  label = λ t. t;
  colored = λ c t. t;
  boxed = λ t. t;
  scaled = λ d most width. width;
  is_within = λ d most percent. ltb_ℤ d most;
  seconds = λ d. bytes "1.00";
  ratio = λ cold warm. bytes "2.0";
  sprint = λ n. bytes "5";
}

-- The warm runs on Docker failed, and there is no cluster.
abbrev partial : List Cell
partial =
    measured (bytes "docker") (bytes "default") (bytes "cold") (pos 3, none)
    ∷ measured (bytes "docker") (bytes "default") (bytes "warm")
        (pos 0, some (external "pool: closed"))
    ∷ not_there (bytes "k8s") (bytes "-") (bytes "-") (bytes "unavailable")
    ∷ []

render_dashboard-shown_example :
    render_dashboard plain
      (record unprobed { docker_ok = true })
      runtime_names
      (pos 5)
      partial
      (max_dur partial (pos 0))
    ≡ render_dashboard plain
        (record unprobed { docker_ok = true })
        runtime_names
        (pos 5)
        (shown partial)
        (max_dur (shown partial) (pos 0))
render_dashboard-shown_example =
    render_dashboard-shown plain (record unprobed { docker_ok = true }) runtime_names (pos 5)
      partial
