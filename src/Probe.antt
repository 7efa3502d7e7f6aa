-- ===== src/Probe.antt =====
-- pkg/sandbox/probe.go: which backends and runtimes are there. `Prober` is what `Probe` calls of the
-- moby client and of client-go, and `message` is `err.Error()`; `W` is the world behind them.
pub mod Laws
mod Tests
use podman_sandbox_runner.Base.{
  ℤ, pos, Bool, true, false, Option, none, some, List, [], ◌∷◌, Text, text_eq, if◌then◌else◌,
}
use podman_sandbox_runner.Sandbox.{Error, Fallible, ok, err}
use podman_sandbox_runner.Pool.Ops.{Context}
use podman_sandbox_runner.Daemon.Server.{with_timeout}
use podman_sandbox_runner.K8s.Cluster.{KubeEnv, kube_client}

-- The two maps of the result are functions: `none` is a name without an entry.
pub record ProbeResult : Type 0 where
  pub docker_ok : Bool
  pub docker_err : Text
  pub k8s_ok : Bool
  pub k8s_err : Text
  pub runtimes : Text → Option Bool
  pub runtime_errs : Text → Option Text

pub record Prober (W : Type 0) : Type 0 where
  pub docker_client : W → Option Error
  pub ping : Context → W → Option Error × W
  pub kube : W → KubeEnv
  pub list_nodes : Context → W → Option Error × W
  pub get_runtime_class : Context → Text → W → Option Error × W
  pub now : W → ℤ
  pub message : Error → Text

abbrev pub unprobed : ProbeResult
unprobed = record {
  docker_ok = false;
  docker_err = [];
  k8s_ok = false;
  k8s_err = [];
  runtimes = λ name. none;
  runtime_errs = λ name. none;
}

-- `m[key] = a`
abbrev pub set {ℓ} : {A : Type ℓ} → Text → A → (Text → Option A) → Text → Option A
set key a m name = if text_eq name key then some a else m name

abbrev five_seconds : ℤ
five_seconds = pos 5000000000

module _ {W : Type 0} (prober : Prober W) where
  abbrev pub five : Context → W → Context
  five ctx w = with_timeout ctx (prober.now w) five_seconds

  abbrev pub docker_failed : Error → ProbeResult → ProbeResult
  docker_failed e r = record r { docker_err = prober.message e }

  abbrev pub pinged : ProbeResult → Option Error × W → ProbeResult × W
  pinged r (some e, w) = (docker_failed e r, w)
  pinged r (none, w) = (record r { docker_ok = true }, w)

  unfoldable pub probe_docker : Context → ProbeResult → W → ProbeResult × W
  probe_docker ctx r w = elim (prober.docker_client w) [
    | some e ↦ (docker_failed e r, w)
    | none ↦ pinged r (prober.ping (five ctx w) w)
  ]

  -- What one answer to a request for a runtime class adds.
  abbrev pub noted : Text → Option Error → ProbeResult → ProbeResult
  noted name (some e) r = record r {
    runtimes = set name false r.runtimes;
    runtime_errs = set name (prober.message e) r.runtime_errs;
  }
  noted name none r = record r { runtimes = set name true r.runtimes }

  unfoldable pub check_runtimes : Context → List Text → ProbeResult → W → ProbeResult × W
  check_runtimes ctx [] r w = (r, w)
  check_runtimes ctx (name ∷ names) r w =
      check_runtimes ctx names (noted name (prober.get_runtime_class (five ctx w) name w).0 r)
        (prober.get_runtime_class (five ctx w) name w).1

  abbrev pub k8s_failed : Error → ProbeResult → ProbeResult
  k8s_failed e r = record r { k8s_err = prober.message e }

  abbrev pub nodes_listed : Context → List Text → ProbeResult → Option Error × W → ProbeResult × W
  nodes_listed ctx names r (some e, w) = (k8s_failed e r, w)
  nodes_listed ctx names r (none, w) = check_runtimes ctx names (record r { k8s_ok = true }) w

  unfoldable pub probe_k8s : Context → List Text → ProbeResult × W → ProbeResult × W
  probe_k8s ctx names (r, w) = elim (kube_client (prober.kube w)) [
    | err e ↦ (k8s_failed e r, w)
    | ok _ ↦ nodes_listed ctx names r (prober.list_nodes (five ctx w) w)
  ]

  unfoldable pub probe : Context → List Text → W → ProbeResult × W
  probe ctx names w = probe_k8s ctx names (probe_docker ctx unprobed w)
