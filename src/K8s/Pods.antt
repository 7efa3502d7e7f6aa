-- ===== src/K8s/Pods.antt =====
-- pkg/sandbox/k8sapi.go and poolk8s.go: the objects that the code creates in a cluster.
use podman_sandbox_runner.Base.{
  quot, ℕ, ℤ, pos, ◌+ℤ◌, Bool, true, false, Option, none, some, List, [], ◌∷◌, Text, bytes,
  is_empty, cut, if◌then◌else◌,
}
use podman_sandbox_runner.Sandbox.{Opts}

-- corev1.SecurityContext; `run_as` is the user and the group of a container that is not root.
pub record Security : Type 0 where
  pub read_only_root : Bool
  pub allow_escalation : Bool
  pub drop : List Text
  pub seccomp_default : Bool
  pub run_as : Option (ℤ × ℤ)

-- corev1.Pod with its one container, called "sandbox". `hold` is for how many seconds it sleeps,
-- where that is not forever; `volumes` are in memory, with their mount path and size in MiB.
pub record Pod : Type 0 where
  pub name : Text
  pub app : Text
  pub restart_policy : Text
  pub automount_token : Bool
  pub service_links : Bool
  pub share_process_namespace : Bool
  pub runtime_class : Option Text
  pub image : Text
  pub hold : Option ℤ
  pub env : List (Text × Text)
  pub working_dir : Text
  pub security : Security
  pub memory_mi : ℤ
  pub cpu_milli : ℤ
  pub volumes : List (Text × ℤ)

-- networkingv1.NetworkPolicy: the pods it selects, by label, the directions it rules over, and the
-- number of rules that let traffic through.
pub record Policy : Type 0 where
  pub policy_name : Text
  pub selects : Text
  pub types : List Text
  pub rules : ℕ

abbrev pub deny_all : Policy
deny_all = record {
  policy_name = bytes "sandbox-runner-deny-all";
  selects = bytes "sandbox-runner";
  types = bytes "Ingress" ∷ bytes "Egress" ∷ [];
  rules = 0;
}

unfoldable pub runtime_class_or_nil : Text → Option Text
runtime_class_or_nil s = if is_empty s then none else some s

-- One entry of `Opts.Env`, in the two parts at its first '=': kept where there is one behind a name.
abbrev pub with_var : Text × Option Text → List (Text × Text) → List (Text × Text)
with_var ([], after) rest = rest
with_var (c ∷ name, none) rest = rest
with_var (c ∷ name, some value) rest = (c ∷ name, value) ∷ rest

unfoldable pub env_vars : List Text → List (Text × Text)
env_vars [] = []
env_vars (e ∷ es) = with_var (cut e b'=') (env_vars es)

-- `int(o.Timeout.Seconds()) + 30`
unfoldable pub hold_secs : ℤ → ℤ
hold_secs timeout = quot timeout 1000000000 +ℤ pos 30

-- The security context of both pods, up to the profile and the user.
abbrev pub locked_down : Bool → Option (ℤ × ℤ) → Security
locked_down seccomp run_as = record {
  read_only_root = true;
  allow_escalation = false;
  drop = bytes "ALL" ∷ [];
  seccomp_default = seccomp;
  run_as = run_as;
}

abbrev nobody : ℤ × ℤ
nobody = (pos 65534, pos 65534)

abbrev in_memory : List (Text × ℤ)
in_memory = (bytes "/work", pos 64) ∷ (bytes "/tmp", pos 16) ∷ []

-- The pod of `k8sBackend.Run`.
unfoldable pub run_pod : Opts → Text → Pod
run_pod o name = record {
  name = name;
  app = bytes "sandbox-runner";
  restart_policy = bytes "Never";
  automount_token = false;
  service_links = false;
  share_process_namespace = false;
  runtime_class = runtime_class_or_nil o.runtime;
  image = o.image;
  hold = some (hold_secs o.timeout);
  env = env_vars o.env;
  working_dir = bytes "/work";
  security = locked_down true (if is_empty o.user then none else some nobody);
  memory_mi = o.mem_mb;
  cpu_milli = quot o.nano_cpus 1000000;
  volumes = in_memory;
}

-- The pod of `newK8sPool`.
unfoldable pub holder_pod : Opts → Text → Pod
holder_pod o name = record {
  name = name;
  app = bytes "sandbox-runner";
  restart_policy = bytes "Never";
  automount_token = false;
  service_links = false;
  share_process_namespace = true;
  runtime_class = runtime_class_or_nil o.runtime;
  image = o.image;
  hold = none;
  env = [];
  working_dir = bytes "/work";
  security = locked_down false (some nobody);
  memory_mi = o.mem_mb;
  cpu_milli = quot o.nano_cpus 1000000;
  volumes = in_memory;
}
