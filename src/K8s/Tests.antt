-- ===== src/K8s/Tests.antt =====
-- A cluster whose clock is its world, and whose pods start at the time 3: inputs of the theorems.
use podman_sandbox_runner.Base.{
  insert, has, ℕ, ◌+◌, ℤ, pos, ltb, leb_ℤ, true, false, ◌≡◌, refl, ◌⊎◌, Option, none, some, [], ◌∷◌,
  bytes, arith, if◌then◌else◌, ◌≤ℤ◌, List, Text,
}
use podman_sandbox_runner.Sandbox.{Error, external, Fallible, ok, err, Opts, Ran, is_137}
use podman_sandbox_runner.Pool.Ops.{Job, Pool, receive}
use podman_sandbox_runner.Daemon.Server.{background, with_timeout}
use podman_sandbox_runner.K8s.Cluster.{
  Cluster, Phase, pending, running, policy_made, code_exit, KubeEnv,
}
use podman_sandbox_runner.K8s.Waiting.{Ticks}
use podman_sandbox_runner.K8s.Backend.{run}
use podman_sandbox_runner.K8s.Served.{Served, run-Served}
use podman_sandbox_runner.K8s.Outcome.{run-Told}
use podman_sandbox_runner.Pool.State.{try_receive, reserve, register, release_section, send}
use podman_sandbox_runner.Pool.Ops.{
  acquire, allocate, scale_up, settle, call_new, note_new, run_acquired, run_holder, run_on,
  conclude, release, put,
}
use podman_sandbox_runner.Pool.Ops.{run as pool_run}
use podman_sandbox_runner.K8s.Holder.{run as holder_run}
use podman_sandbox_runner.K8s.Backend.{stream_result}
use podman_sandbox_runner.K8s.Holder.{K8sPool, k8s_impl, exec, exec_ended, cleanup, check_holder}
use podman_sandbox_runner.K8s.Holder.Start.{Start, new_k8s_pool, new_k8s_pool-Start}
use podman_sandbox_runner.K8s.Holder.Quiet.{k8s_pool_run-IsQuiet}
use podman_sandbox_runner.Pool.Accounts.Ledger.{tally}
use podman_sandbox_runner.K8s.Fleet.{makes, removes, lets_loose}
use podman_sandbox_runner.Daemon.{RunRequest}
use podman_sandbox_runner.Daemon.Lifetime.{Arrival, by_socket, tick}
use podman_sandbox_runner.Cli.Flags.{default_flags}
use podman_sandbox_runner.Cli.Serve.{ServeFlags, Net, Host}
use podman_sandbox_runner.Cli.Serve.Workloads.{requests, requests_even, requests_confined}

-- Requests fail behind the deadline of their context.
abbrev get : Option ℤ → ℕ → Fallible Phase
get none w = ok (if ltb w 3 then pending else running)
get (some t) w =
    if leb_ℤ t (pos w)
    then err (external "context deadline exceeded")
    else ok (if ltb w 3 then pending else running)

abbrev kube : KubeEnv
kube = record {
  kubeconfig = [];
  home = bytes "/root";
  build_config = λ path. err (external "no such file");
  in_cluster_config = ok (bytes "10.0.0.1");
  new_for_config = λ cfg. none;
}

abbrev cluster : Cluster ℕ
cluster = record {
  kube = λ w. kube;
  namespace = λ w. [];
  random = λ w. (bytes "abcd", w);
  create_policy = λ ctx ns policy w. (policy_made, w + 1);
  create_pod = λ ctx ns pod w. (ok (bytes "sandbox-abcd"), w);
  get_phase = λ ctx ns name w. (get ctx.deadline w, w);
  delete_pod = λ ctx ns name w. (none, w + 1);
  sleep = λ ctx d w. (none, w + 1);
  ctx_err = λ ctx w. none;
  executor = λ ns name w. none;
  stream = λ ctx ns name cmd stdin open_stdin w. (code_exit (pos 137), w + 1);
  copied = λ name w. (bytes "hi", []);
  now = λ w. pos w;
  now_ms = λ w. w;
}

get_expired :
    (d : Option ℤ) (w : ℕ) (t : ℤ) → d ≡ some t → t ≤ℤ pos w → (e : Error) × (get d w ≡ err e)
get_expired none w t e late = absurd cc
get_expired (some u) w t e late =
    let same : u ≡ t = cc e in
    (external "context deadline exceeded", rw same (ground (arith, late)))

ticks : Ticks cluster
ticks = record {
  get_forward = λ ctx ns name w. omega arith;
  get_expired = λ ctx ns name w t e late. get_expired ctx.deadline w t e late;
  sleep_forward = λ ctx d w h e. ground arith;
}

abbrev opts : Opts
opts = record {
  image = bytes "alpine";
  cmd = bytes "ls" ∷ [];
  timeout = pos 50;
  net_wait = pos 2;
  mem_mb = pos 64;
  nano_cpus = pos 1000000000;
  user = bytes "65534";
  runtime = bytes "gvisor";
  binds = [];
  env = bytes "K=V" ∷ bytes "=x" ∷ [];
  with_stdin = false;
  backend = bytes "k8s";
}

run-Served_example :
    (r : Ran) × ((run cluster background opts none 0).0 ≡ some r)
    × Served opts (run cluster background opts none 0).1.requests
run-Served_example = run-Served cluster ticks background opts none 0

returned :
    (r : Ran) × ((run cluster background opts none 0).0 ≡ some r)
    × Served opts (run cluster background opts none 0).1.requests
returned = run-Served cluster ticks background opts none 0

run-Told_example :
    ((returned.0.failure ≡ none)
      × (returned.0.result.timed_out ≡ false)
      × (returned.0.result.oom_killed ≡ is_137 returned.0.result.exit_code))
    ⊎ ((e : Error) × (returned.0.failure ≡ some e)
        × (returned.0.result.exit_code ≡ pos 0)
        × (returned.0.result.oom_killed ≡ false))
run-Told_example = run-Told cluster background opts none 0 returned.0 returned.1

new_k8s_pool-Start_example :
    (r : Fallible K8sPool) × ((new_k8s_pool cluster background opts 0).0 ≡ some r)
    × Start opts r (new_k8s_pool cluster background opts 0).1.requests
new_k8s_pool-Start_example = new_k8s_pool-Start cluster ticks background opts 0

abbrev start : ℕ → Fallible K8sPool × ℕ
start w = (ok (record { ns = bytes "default"; name = bytes "p"; opts = opts }), w + 1)

-- An open pool of at most one holder.
abbrev empty : Pool K8sPool ℕ
empty = record {
  state = record {
    cfg = record { min = pos 0; max = pos 1; idle_timeout = pos 0 };
    all = [];
    idle = [];
    closed = false;
  };
  holders = λ h. record { impl = none; dead = none; last_used = 0 };
  fresh = 0;
  world = 0;
  log = [];
  panicked = false;
}

abbrev hello : Job
hello = record { cmd = bytes "hello" ∷ []; stdin = none }

run_empty : Option Ran × Pool K8sPool ℕ
run_empty = pool_run (k8s_impl cluster start) background 1 receive hello empty

killed : (r : Ran) × (run_empty.0 ≡ some r) × (r.failure ≡ none)
unfolding run_empty pool_run acquire try_receive reserve allocate register insert has scale_up
    settle call_new note_new run_acquired run_holder run_on conclude holder_run exec exec_ended
    stream_result cleanup check_holder release release_section send put with_timeout
killed = (_, refl, refl)

k8s_pool_run-IsQuiet_example : killed.0.result.timed_out ≡ false
unfolding run_empty
k8s_pool_run-IsQuiet_example =
    k8s_pool_run-IsQuiet cluster start background 1 receive hello empty killed.0 killed.1 killed.2

-- A daemon that makes one pod first and serves one request between two ticks.
abbrev warm : ServeFlags
warm = record {
  sandbox = default_flags;
  min = pos 1;
  max = pos 2;
  idle = pos 10;
  unix = bytes "/s";
  http = [];
  allow_remote = false;
}

-- A system on which the socket is served.
abbrev net : Net
net = record { split_host = λ addr. ok addr; parse_ip = λ ip. some true }

abbrev outside : Host (Unit {0}) ℕ
outside = record {
  new_pool = λ o cfg w. (ok tt, w);
  close_pool = λ p w. w;
  exists_path = λ path w. false;
  remove = λ path w. w;
  listen_unix = λ path w. (none, w);
  chmod = λ path w. (none, w);
  close_listener = λ w. w;
  serve_unix = λ p w. w;
  serve_http = λ p addr w. w;
  wait = λ w. w;
  shutdown_http = λ w. w;
}

abbrev bad_duration : Text → Fallible ℤ
bad_duration t = err (external "invalid duration")

abbrev decode : Text → Fallible RunRequest
decode t = ok (record { cmd = bytes "ls" ∷ []; env = []; stdin = []; timeout = [] })

abbrev day : List Arrival
day = tick 5 ∷ by_socket (pos 9) (pos 12) 9 receive (bytes "{}") ∷ tick 30 ∷ []

requests_even_example :
    tally
      (makes (bytes "default") (bytes "sandbox-abcd"))
      (requests cluster (λ w. background) bad_duration decode net outside opts warm 0 [] day 0 0)
    ≡ tally
        (removes (bytes "default") (bytes "sandbox-abcd"))
        (requests cluster (λ w. background) bad_duration decode net outside opts warm 0 [] day 0 0)
requests_even_example =
    requests_even cluster (λ w. background) bad_duration decode net outside ticks (bytes "default")
      (bytes "sandbox-abcd") opts warm 0 [] day 0 0

requests_confined_example :
    tally lets_loose
      (requests cluster (λ w. background) bad_duration decode net outside opts warm 0 [] day 0 0)
    ≡ 0
requests_confined_example =
    requests_confined cluster (λ w. background) bad_duration decode net outside ticks opts warm 0 []
      day 0 0
