-- ===== src/K8s/Served.antt =====
-- What `k8sBackend.Run` leaves in the cluster.
use podman_sandbox_runner.Base.{
  ℤ, pos, ◌+ℤ◌, ltb_ℤ, ◌≡◌, refl, ap, ◌⊎◌, inl, inr, Option, none, some, List, [], ◌∷◌, ◌++◌, Text,
  is_empty, is_some, Bool-cases, Option-cases, List-cases,
}
use podman_sandbox_runner.Sandbox.{Error, Fallible, ok, err, Fallible-cases, Opts, Ran}
use podman_sandbox_runner.Pool.Ops.{Context}
use podman_sandbox_runner.Daemon.Server.{with_timeout, min_ℤ}
use podman_sandbox_runner.K8s.Pods.{run_pod}
use podman_sandbox_runner.K8s.Cluster.{Cluster, Stream, wait_pod_running, kube_client, namespace_of}
use podman_sandbox_runner.K8s.Waiting.{Ticks, Returns, wait_pod_running-Returns}
use podman_sandbox_runner.K8s.Backend.{
  Request, policy_ensured, pod_created, pod_streamed, pod_deleted, Visit, asked, at, streamed,
  exec_pod, settled, net_wait, pod_waited, deleting, run_in_pod, pod_made, policy_set, named, run,
}

-- Every run under `context.WithTimeout` has a deadline.
pub with_timeout-deadline :
    (ctx : Context) (now d : ℤ) → (t : ℤ) × ((with_timeout ctx now d).deadline ≡ some t)
unfolding with_timeout
with_timeout-deadline ctx now d = elim (Option-cases ctx.deadline) [
  | inl e ↦ (now +ℤ d, rw (e, with_timeout) refl)
  | inr (t, e) ↦ (min_ℤ t (now +ℤ d), rw (e, with_timeout) refl)
]

-- What a run for the options `o` may have changed in the cluster.
abbrev pub Served : Opts → List Request → Type 0
Served o rs =
    (rs ≡ [])
    ⊎ ((o.binds ≡ [])
        × ((ns : Text) × ((rs ≡ policy_ensured ns ∷ [])
              ⊎ ((name : Text) × (id : Text) × (mid : List Request) × ((mid ≡ [])
                    ⊎ (mid ≡ pod_streamed ns id o.cmd ∷ []))
                  × (rs
                      ≡ policy_ensured ns ∷ pod_created ns id (run_pod o name) ∷ mid
                        ++ pod_deleted ns id ∷ [])))))

module _ {W : Type 0} (cluster : Cluster W) where
  -- A part of a run that returns and asks for nothing, or for the command to be run.
  abbrev Ends : Opts → Text → Text → Visit W → Option Ran × Visit W → Type 0
  Ends o ns id s q =
      (r : Ran) × (q.0 ≡ some r)
      × ((q.1.requests ≡ s.requests) ⊎ (q.1.requests ≡ s.requests ++ pod_streamed ns id o.cmd ∷ []))

  exec_pod-Ends :
      (ctx : Context) (o : Opts) (stdin : Option Text) (ns id : Text) (s : Visit W)
      → Ends o ns id s (exec_pod cluster ctx o stdin ns id s)
  unfolding exec_pod streamed
  exec_pod-Ends ctx o stdin ns id s = elim (Option-cases (cluster.executor ns id s.world)) [
    | inr (e, q) ↦ rw (q, exec_pod) (_, refl, inl refl)
    | inl q ↦
        rw (q, exec_pod) (streamed-Ends (cluster.stream ctx ns id o.cmd stdin o.with_stdin s.world))
  ]
    where
      streamed-Ends :
          (st : Stream × W)
          → Ends o ns id s (
              streamed cluster ctx o id
                (cluster.now_ms s.world)
                st
                (asked (pod_streamed ns id o.cmd) s))
      streamed-Ends (end, w) = (_, refl, inr refl)

  net_wait-Ends :
      (ctx : Context) (o : Opts) (stdin : Option Text) (ns id : Text) (s : Visit W)
      → Ends o ns id s (net_wait cluster ctx o stdin ns id s)
  unfolding net_wait
  net_wait-Ends ctx o stdin ns id s = elim (Bool-cases (ltb_ℤ (pos 0) o.net_wait)) [
    | inr q ↦ rw (q, net_wait) (exec_pod-Ends ctx o stdin ns id s)
    | inl q ↦ rw (q, net_wait) (settled-Ends (cluster.sleep ctx o.net_wait s.world))
  ]
    where
      settled-Ends : (r : Option Error × W) → Ends o ns id s (settled cluster ctx o stdin ns id r s)
      settled-Ends (some e, w) = (_, refl, inl refl)
      settled-Ends (none, w) = exec_pod-Ends ctx o stdin ns id (at w s)

  -- The rest of a run, once the wait for the pod has returned.
  pod_waited-Ends :
      (ctx : Context) (o : Opts) (stdin : Option Text) (ns id : Text)
      (r : Option (Option Error) × W) (s : Visit W)
      → Returns cluster r
      → Ends o ns id s (pod_waited cluster ctx o stdin ns id r s)
  unfolding pod_waited
  pod_waited-Ends ctx o stdin ns id (none, w) s (a, e) = absurd cc
  pod_waited-Ends ctx o stdin ns id (some none, w) s v = net_wait-Ends ctx o stdin ns id (at w s)
  pod_waited-Ends ctx o stdin ns id (some (some e), w) s v =
      elim (Bool-cases (is_some (cluster.ctx_err ctx w))) [
        | inl q ↦ rw (q, pod_waited) (_, refl, inl refl)
        | inr q ↦ rw (q, pod_waited) (_, refl, inl refl)
      ]

  run_in_pod-Ends :
      Ticks cluster
      → (ctx : Context) (o : Opts) (stdin : Option Text) (ns id : Text) (s : Visit W) (t : ℤ)
      → ctx.deadline ≡ some t
      → Ends o ns id s (run_in_pod cluster ctx o stdin ns id s)
  unfolding run_in_pod
  run_in_pod-Ends ticks ctx o stdin ns id s t e =
      pod_waited-Ends ctx o stdin ns id (wait_pod_running cluster ctx ns id s.world) s
        (wait_pod_running-Returns cluster ticks ctx ns id s.world t e)

  -- A run that has returned, and what it has changed.
  abbrev Serves : Opts → Option Ran × Visit W → Type 0
  Serves o q = (r : Ran) × (q.0 ≡ some r) × Served o q.1.requests

  deleting-Serves :
      (o : Opts) (ns name id : Text) (s : Visit W) (q : Option Ran × Visit W)
      → o.binds ≡ []
      → s.requests ≡ policy_ensured ns ∷ pod_created ns id (run_pod o name) ∷ []
      → Ends o ns id s q
      → Serves o (deleting cluster ns id q)
  unfolding deleting
  deleting-Serves o ns name id s (none, v) b e (r, ended, rest) = absurd cc
  deleting-Serves o ns name id s (some x, v) b e (r, ended, inl same) =
      (x, refl, inr (b, (ns, inr (name, id, [], inl refl, rw (same, e) refl))))
  deleting-Serves o ns name id s (some x, v) b e (r, ended, inr more) = (
    x,
    refl,
    inr (b, (ns, inr (name, id, pod_streamed ns id o.cmd ∷ [], inr refl, rw (more, e) refl))),
  )

  pod_made-Serves :
      Ticks cluster
      → (ctx : Context) (o : Opts) (stdin : Option Text) (ns name : Text) (c : Fallible Text × W)
        (w : W)
      → o.binds ≡ []
      → Serves o (
          pod_made cluster ctx o stdin ns
            (run_pod o name)
            c
            (record { world = w; requests = policy_ensured ns ∷ [] }))
  unfolding pod_made
  pod_made-Serves ticks ctx o stdin ns name (err e, w1) w b = (_, refl, inr (b, (ns, inl refl)))
  pod_made-Serves ticks ctx o stdin ns name (ok id, w1) w b =
      let (t, e) = with_timeout-deadline ctx (cluster.now w1) o.timeout in
      deleting-Serves o ns name id
        (asked (pod_created ns id (run_pod o name))
          (record { world = w1; requests = policy_ensured ns ∷ [] }))
        _ b refl (run_in_pod-Ends ticks _ o stdin ns id _ t e)

  policy_set-Serves :
      Ticks cluster
      → (ctx : Context) (o : Opts) (stdin : Option Text) (ns name : Text) (p : Option Error × W)
      → o.binds ≡ []
      → Serves o (policy_set cluster ctx o stdin ns (run_pod o name) p)
  unfolding policy_set
  policy_set-Serves ticks ctx o stdin ns name (some e, w) b = (_, refl, inl refl)
  policy_set-Serves ticks ctx o stdin ns name (none, w) b =
      pod_made-Serves ticks ctx o stdin ns name _ w b

  -- A run on a cluster whose clock goes on, and which refuses requests of an ended context, returns.
  -- It changes nothing; or, for options without mounts, it only sets the policy that cuts pods off from
  -- the network; or it sets that policy first, makes one pod from the options, runs at most the
  -- command in it, and in any case asks for its deletion last.
  pub run-Served :
      Ticks cluster
      → (ctx : Context) (o : Opts) (stdin : Option Text) (w : W)
      → (r : Ran) × ((run cluster ctx o stdin w).0 ≡ some r)
        × Served o (run cluster ctx o stdin w).1.requests
  unfolding run
  run-Served ticks ctx o stdin w = elim (Fallible-cases (kube_client (cluster.kube w))) [
    | inr (e, q) ↦ rw (q, run) (_, refl, inl refl)
    | inl (c, q) ↦ elim (List-cases o.binds) [
      | inr (b, bs, z) ↦ rw (q, ap (λ l. is_empty l) z, run) (_, refl, inl refl)
      | inl z ↦ rw (q, ap (λ l. is_empty l) z, run) (named-Serves (cluster.random w) z)
    ]
  ]
    where
      named-Serves :
          (n : Text × W)
          → o.binds ≡ []
          → Serves o (named cluster ctx o stdin (namespace_of cluster w) n)
      named-Serves (random, w1) b =
          policy_set-Serves ticks ctx o stdin (namespace_of cluster w) _ _ b
