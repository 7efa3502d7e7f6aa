-- ===== src/Probe/Tests.antt =====
-- A cluster with one of two runtimes, beside a daemon that does not answer.
use podman_sandbox_runner.Base.{
  ℕ, pos, true, false, ◌≡◌, refl, none, some, List, [], ◌∷◌, Text, bytes, text_eq, if◌then◌else◌,
}
use podman_sandbox_runner.Sandbox.{external, ok, err}
use podman_sandbox_runner.Daemon.Server.{background}
use podman_sandbox_runner.K8s.Cluster.{KubeEnv, kube_client}
use podman_sandbox_runner.Probe.{Prober, probe, probe_docker, probe_k8s, check_runtimes}
use podman_sandbox_runner.Probe.Laws.{Reported, probe-Reported}

abbrev kube : KubeEnv
kube = record {
  kubeconfig = [];
  home = bytes "/root";
  build_config = λ path. ok path;
  in_cluster_config = err (external "not in a cluster");
  new_for_config = λ cfg. none;
}

abbrev prober : Prober ℕ
prober = record {
  docker_client = λ w. none;
  ping = λ ctx w. (some (external "no daemon"), w);
  kube = λ w. kube;
  list_nodes = λ ctx w. (none, w);
  get_runtime_class = λ ctx name w.
      (if text_eq name (bytes "gvisor") then none else some (external "not found"), w);
  now = λ w. pos w;
  message = λ e. bytes "it failed";
}

abbrev names : List Text
names = bytes "gvisor" ∷ bytes "kata" ∷ []

kata_missing : (probe prober background names 0).0.runtimes (bytes "kata") ≡ some false
unfolding probe probe_docker probe_k8s kube_client check_runtimes text_eq
kata_missing = refl

gvisor_there : (probe prober background names 0).0.runtimes (bytes "gvisor") ≡ some true
unfolding probe probe_docker probe_k8s kube_client check_runtimes text_eq
gvisor_there = refl

docker_down : (probe prober background names 0).0.docker_ok ≡ false
unfolding probe probe_docker probe_k8s kube_client check_runtimes text_eq
docker_down = refl

probe-Reported_example :
    Reported prober
      (some (external "no daemon"))
      none
      (some (some (external "not found")))
      (probe prober background names 0).0
      (bytes "kata")
unfolding kube_client text_eq
probe-Reported_example = probe-Reported prober background names 0 (bytes "kata")
