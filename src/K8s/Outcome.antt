-- ===== src/K8s/Outcome.antt =====
-- What a run in a pod answers with.
use podman_sandbox_runner.Base.{
  ℤ, pos, ltb_ℤ, false, ◌≡◌, refl, ◌⊎◌, inl, inr, Option, none, some, Text, is_empty, is_some,
  Bool-cases, Option-cases,
}
use mathlib.Core.Path.{subst}
use podman_sandbox_runner.Sandbox.{
  Error, Fallible, ok, err, Fallible-cases, Opts, Result, Ran, is_137,
}
use podman_sandbox_runner.Pool.Ops.{Context}
use podman_sandbox_runner.K8s.Pods.{Pod}
use podman_sandbox_runner.K8s.Cluster.{
  Cluster, Stream, stream_ok, code_exit, stream_failed, kube_client, namespace_of,
}
use podman_sandbox_runner.K8s.Backend.{
  pod_streamed, Visit, asked, at, stream_result, streamed, exec_pod, settled, net_wait, pod_waited,
  deleting, run_in_pod, pod_made, policy_set, named, run,
}

-- A result of a command that came to its end, where 137 stands for the limit on memory; or an error,
-- with a result that may be marked as timed out and holds neither an exit code nor that limit.
abbrev pub ToldBy : Result → Option Error → Type 0
ToldBy r e =
    ((e ≡ none) × (r.timed_out ≡ false) × (r.oom_killed ≡ is_137 r.exit_code))
    ⊎ ((x : Error) × (e ≡ some x) × (r.exit_code ≡ pos 0) × (r.oom_killed ≡ false))

abbrev pub Told : Ran → Type 0
Told r = ToldBy r.result r.failure

pub stream_result-Told :
    (timeout : Error) (failure : Error → Error) (ms : ℤ) (ended : Option Error) (end : Stream)
    → ToldBy
        (stream_result timeout failure ms ended end).0
        (stream_result timeout failure ms ended end).1
unfolding stream_result
stream_result-Told timeout failure ms ended stream_ok = inl (refl, refl, refl)
stream_result-Told timeout failure ms none (code_exit code) = inl (refl, refl, refl)
stream_result-Told timeout failure ms none (stream_failed e) = inr (_, refl, refl, refl)
stream_result-Told timeout failure ms (some x) (code_exit code) = inr (_, refl, refl, refl)
stream_result-Told timeout failure ms (some x) (stream_failed e) = inr (_, refl, refl, refl)

module _ {W : Type 0} (cluster : Cluster W) where
  -- What a part of a run answers, if it has returned.
  abbrev Tells : Option Ran × Visit W → Type 0
  Tells (none, s) = Unit {0}
  Tells (some r, s) = Told r

  exec_pod-Tells :
      (ctx : Context) (o : Opts) (stdin : Option Text) (ns id : Text) (s : Visit W)
      → Tells (exec_pod cluster ctx o stdin ns id s)
  unfolding exec_pod streamed
  exec_pod-Tells ctx o stdin ns id s = elim (Option-cases (cluster.executor ns id s.world)) [
    | inr (e, q) ↦ rw (q, exec_pod) (inr (_, refl, refl, refl))
    | inl q ↦
        rw (q, exec_pod)
          (streamed-Tells (cluster.stream ctx ns id o.cmd stdin o.with_stdin s.world))
  ]
    where
      streamed-Tells :
          (st : Stream × W)
          → Tells (
              streamed cluster ctx o id
                (cluster.now_ms s.world)
                st
                (asked (pod_streamed ns id o.cmd) s))
      streamed-Tells (end, w) = stream_result-Told _ _ _ _ end

  net_wait-Tells :
      (ctx : Context) (o : Opts) (stdin : Option Text) (ns id : Text) (s : Visit W)
      → Tells (net_wait cluster ctx o stdin ns id s)
  unfolding net_wait
  net_wait-Tells ctx o stdin ns id s = elim (Bool-cases (ltb_ℤ (pos 0) o.net_wait)) [
    | inr q ↦ rw (q, net_wait) (exec_pod-Tells ctx o stdin ns id s)
    | inl q ↦ rw (q, net_wait) (settled-Tells (cluster.sleep ctx o.net_wait s.world))
  ]
    where
      settled-Tells : (r : Option Error × W) → Tells (settled cluster ctx o stdin ns id r s)
      settled-Tells (some e, w) = inr (_, refl, refl, refl)
      settled-Tells (none, w) = exec_pod-Tells ctx o stdin ns id (at w s)

  pod_waited-Tells :
      (ctx : Context) (o : Opts) (stdin : Option Text) (ns id : Text)
      (r : Option (Option Error) × W) (s : Visit W)
      → Tells (pod_waited cluster ctx o stdin ns id r s)
  unfolding pod_waited
  pod_waited-Tells ctx o stdin ns id (none, w) s = tt
  pod_waited-Tells ctx o stdin ns id (some none, w) s = net_wait-Tells ctx o stdin ns id (at w s)
  pod_waited-Tells ctx o stdin ns id (some (some e), w) s =
      elim (Bool-cases (is_some (cluster.ctx_err ctx w))) [
        | inl q ↦ rw (q, pod_waited) (inr (_, refl, refl, refl))
        | inr q ↦ rw (q, pod_waited) (inr (_, refl, refl, refl))
      ]

  deleting-Tells :
      (ns id : Text) (q : Option Ran × Visit W) → Tells q → Tells (deleting cluster ns id q)
  unfolding deleting
  deleting-Tells ns id (none, s) v = v
  deleting-Tells ns id (some r, s) v = v

  pod_made-Tells :
      (ctx : Context) (o : Opts) (stdin : Option Text) (ns : Text) (pod : Pod)
      (c : Fallible Text × W) (s : Visit W)
      → Tells (pod_made cluster ctx o stdin ns pod c s)
  unfolding pod_made run_in_pod
  pod_made-Tells ctx o stdin ns pod (err e, w) s = inr (_, refl, refl, refl)
  pod_made-Tells ctx o stdin ns pod (ok id, w) s =
      deleting-Tells ns id _ (pod_waited-Tells _ o stdin ns id _ _)

  run-Tells :
      (ctx : Context) (o : Opts) (stdin : Option Text) (w : W) → Tells (run cluster ctx o stdin w)
  unfolding run policy_set
  run-Tells ctx o stdin w = elim (Fallible-cases (kube_client (cluster.kube w))) [
    | inr (e, q) ↦ rw (q, run) (inr (_, refl, refl, refl))
    | inl (c, q) ↦ elim (Bool-cases (is_empty o.binds)) [
      | inr z ↦ rw (q, z, run) (inr (_, refl, refl, refl))
      | inl z ↦ rw (q, z, run) (named-Tells (cluster.random w))
    ]
  ]
    where
      policy-Tells :
          (pod : Pod) (p : Option Error × W)
          → Tells (policy_set cluster ctx o stdin (namespace_of cluster w) pod p)
      policy-Tells pod (some e, w1) = inr (_, refl, refl, refl)
      policy-Tells pod (none, w1) = pod_made-Tells ctx o stdin (namespace_of cluster w) pod _ _

      named-Tells : (n : Text × W) → Tells (named cluster ctx o stdin (namespace_of cluster w) n)
      named-Tells (random, w1) = policy-Tells _ _

  Tells-some : (q : Option Ran × Visit W) (r : Ran) → Tells q → q.0 ≡ some r → Told r
  Tells-some (none, s) r v e = absurd cc
  Tells-some (some x, s) r v e = let same : x ≡ r = cc e in subst Told same v

  -- An answer of a run in a pod without an error is not marked as timed out, and marked as killed by
  -- the limit on memory exactly where the exit code is 137. An answer with an error has the exit code
  -- 0 and no such mark.
  pub run-Told :
      (ctx : Context) (o : Opts) (stdin : Option Text) (w : W) (r : Ran)
      → (run cluster ctx o stdin w).0 ≡ some r
      → ((r.failure ≡ none)
          × (r.result.timed_out ≡ false)
          × (r.result.oom_killed ≡ is_137 r.result.exit_code))
        ⊎ ((e : Error) × (r.failure ≡ some e)
            × (r.result.exit_code ≡ pos 0)
            × (r.result.oom_killed ≡ false))
  run-Told ctx o stdin w r e = Tells-some (run cluster ctx o stdin w) r (run-Tells ctx o stdin w) e
