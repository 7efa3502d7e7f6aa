-- ===== src/Pool/Tests.antt =====
-- The pool over a small backend: tests, and inputs of the theorems about its methods.
use podman_sandbox_runner.Base.{
  ℕ, ◌+◌, pos, ◌≤ℤ◌, true, false, ◌≡◌, refl, inr, none, some, [], ◌∷◌, length, count, arith, has,
  insert, bytes, ◌==◌, if◌then◌else◌,
}
use podman_sandbox_runner.Sandbox.{external, ok, Opts, no_result}
use podman_sandbox_runner.Pool.Config.{PoolConfig, normalize}
use podman_sandbox_runner.Pool.State.{try_receive, send, register}
use podman_sandbox_runner.Pool.Ops.{
  PoolImpl, Pool, Context, Job, receive, put, allocate, call_new, note_new, enroll, create_holder,
  acquire, run_holder, young, reap_loop, reap_idle, fill, empty_pool, new_pool,
}
use podman_sandbox_runner.Pool.Invariant.{InHand, IsWarm}
use podman_sandbox_runner.Pool.Acquire.{acquire-Acquired}
use podman_sandbox_runner.Pool.Hygiene.{RunsOn, run_holder_cases}
use podman_sandbox_runner.Pool.Reaper.{reap_idle_min, reap_idle_spares, reap_idle_terminates}
use podman_sandbox_runner.Pool.Creation.{Created, new_pool-Created}

-- Holders are numbers, and so is the world: the number of holders made so far. Holder 7 fails its
-- checks.
abbrev demo : PoolImpl ℕ ℕ
demo = record {
  new_impl = λ w. (ok w, w + 1);
  run = λ i ctx job w.
      (record { result = no_result; failure = none; out = bytes "hi"; err_out = [] }, w);
  cleanup = λ i w. w;
  check_holder = λ i w. (if i == 7 then some (external "holder died") else none, w);
  close = λ i w. (none, w);
}

abbrev opts : Opts
opts = record {
  image = bytes "alpine";
  cmd = [];
  timeout = pos 30;
  net_wait = pos 0;
  mem_mb = pos 256;
  nano_cpus = pos 1000;
  user = bytes "65534:65534";
  runtime = [];
  binds = [];
  env = [];
  with_stdin = false;
  backend = bytes "docker";
}

-- One holder kept warm, two at most, reaped when idle for 10.
abbrev small : PoolConfig
small = record { min = pos 1; max = pos 2; idle_timeout = pos 10 }

warm : Pool ℕ ℕ
warm = (new_pool demo opts small 0 0).1

warm-IsWarm : IsWarm 1 warm
unfolding warm new_pool normalize fill empty_pool create_holder enroll call_new note_new allocate
    register insert has send
warm-IsWarm = new_pool-Created demo opts small 0 0

new_pool-Created_example : Created demo 1 (new_pool demo opts small 0 0)
new_pool-Created_example = new_pool-Created demo opts small 0 0

abbrev no_deadline : Context
no_deadline = record { deadline = none }

abbrev hello : Job
hello = record { cmd = bytes "hello" ∷ []; stdin = none }

warm_min : warm.state.cfg.min ≤ℤ pos (length warm.state.all)
unfolding warm new_pool normalize fill empty_pool create_holder enroll call_new note_new allocate
    register insert has send
warm_min = ground arith

reap_idle_min_example : warm.state.cfg.min ≤ℤ pos (length (reap_idle demo 50 warm).state.all)
reap_idle_min_example = reap_idle_min demo 50 warm warm-IsWarm.inv warm_min

young-warm : young demo 3 0 warm ≡ true
unfolding warm young new_pool normalize fill empty_pool create_holder enroll call_new note_new
    allocate put register insert has send
young-warm = refl

reap_idle_spares_example : count 0 (reap_idle demo 3 warm).state.all ≡ count 0 warm.state.all
reap_idle_spares_example = reap_idle_spares demo 3 warm 0 warm-IsWarm.inv (inr young-warm)

reap_idle_terminates_example : reap_loop demo 9 50 warm ≡ reap_idle demo 50 warm
reap_idle_terminates_example =
    reap_idle_terminates demo 9 50 warm warm-IsWarm.inv (omega (arith, warm-IsWarm.idling))

-- The warm pool with its holder taken out.
taken : (p : Pool ℕ ℕ) × InHand 0 p
unfolding warm new_pool normalize fill empty_pool create_holder enroll call_new note_new allocate
    register insert has send acquire try_receive
taken = (_, acquire-Acquired demo 1 receive warm warm-IsWarm.inv)

run_holder_cases_example :
    RunsOn demo 0 taken.1.ready.0 no_deadline hello taken.0
      (run_holder demo 0 no_deadline 1 hello taken.0)
run_holder_cases_example = run_holder_cases demo 0 no_deadline 1 hello taken.0 taken.1
