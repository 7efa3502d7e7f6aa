-- ===== src/K8s/Holder/Start.antt =====
-- pkg/sandbox/poolk8s.go: `newK8sPool`, which starts the pod of a holder.
use podman_sandbox_runner.Base.{
  ℤ, pos, ltb_ℤ, ◌≡◌, refl, ap, ◌⊎◌, inl, inr, Option, none, some, List, [], ◌∷◌, ◌++◌, Text, bytes,
  is_empty, if◌then◌else◌, Bool-cases, List-cases,
}
use podman_sandbox_runner.Sandbox.{Error, errorf, wrapf, Fallible, ok, err, Fallible-cases, Opts}
use podman_sandbox_runner.Pool.Ops.{Context}
use podman_sandbox_runner.Daemon.Server.{with_timeout, background}
use podman_sandbox_runner.K8s.Pods.{Pod, holder_pod}
use podman_sandbox_runner.K8s.Cluster.{
  Cluster, kube_client, namespace_of, ensure_isolation_policy, wait_pod_running,
}
use podman_sandbox_runner.K8s.Waiting.{Ticks, Returns, wait_pod_running-Returns}
use podman_sandbox_runner.K8s.Backend.{
  Request, policy_ensured, pod_created, pod_deleted, Visit, asked, at,
}
use podman_sandbox_runner.K8s.Served.{with_timeout-deadline}
use podman_sandbox_runner.K8s.Holder.{K8sPool}

abbrev pub no_binds : Error
no_binds = errorf "pool: k8s backend does not support Binds" [] []

abbrev thirty_seconds : ℤ
thirty_seconds = pos 30000000000

abbrev sixty_seconds : ℤ
sixty_seconds = pos 60000000000

module _ {W : Type 0} (cluster : Cluster W) where
  -- `fail`: the pod is deleted.
  unfoldable pub fail : Text → Text → Error → Visit W → Option (Fallible K8sPool) × Visit W
  fail ns id e s = (
    some (err e),
    asked (pod_deleted ns id) (
        at
          (cluster.delete_pod (with_timeout background (cluster.now s.world) thirty_seconds) ns id
            s.world).1
          s),
  )

  abbrev pub holder : Opts → Text → Text → Visit W → Option (Fallible K8sPool) × Visit W
  holder o ns id s = (some (ok (record { ns = ns; name = id; opts = o })), s)

  abbrev pub rules_settled :
      Opts → Text → Text → Option Error × W → Visit W → Option (Fallible K8sPool) × Visit W
  rules_settled o ns id (some e, w) s =
      fail ns id (errorf "pool: cancelled during netwait" [] []) (at w s)
  rules_settled o ns id (none, w) s = holder o ns id (at w s)

  unfoldable pub holder_waited :
      Context
      → Opts
      → Text
      → Text
      → Option (Option Error) × W
      → Visit W
      → Option (Fallible K8sPool) × Visit W
  holder_waited ctx o ns id (none, w) s = (none, at w s)
  holder_waited ctx o ns id (some (some e), w) s =
      fail ns id (wrapf "pool: holder pod never started: %w" [] [] e) (at w s)
  holder_waited ctx o ns id (some none, w) s =
      if ltb_ℤ (pos 0) o.net_wait
      then rules_settled o ns id (cluster.sleep ctx o.net_wait w) (at w s)
      else holder o ns id (at w s)

  unfoldable pub start_pod :
      Context → Opts → Text → Text → Visit W → Option (Fallible K8sPool) × Visit W
  start_pod ctx o ns id s =
      holder_waited ctx o ns id
        (wait_pod_running cluster (with_timeout ctx (cluster.now s.world) sixty_seconds) ns id
          s.world)
        s

  unfoldable pub holder_made :
      Context
      → Opts
      → Text
      → Pod
      → Fallible Text × W
      → Visit W
      → Option (Fallible K8sPool) × Visit W
  holder_made ctx o ns pod (err e, w) s =
      (some (err (wrapf "pool: create holder pod: %w" [] [] e)), at w s)
  holder_made ctx o ns pod (ok id, w) s =
      start_pod ctx o ns id (asked (pod_created ns id pod) (at w s))

  unfoldable pub holder_policy :
      Context → Opts → Text → Pod → Option Error × W → Option (Fallible K8sPool) × Visit W
  holder_policy ctx o ns pod (some e, w) = (
    some (err (wrapf "pool: network isolation policy: %w" [] [] e)),
    record { world = w; requests = [] },
  )
  holder_policy ctx o ns pod (none, w) =
      holder_made ctx o ns pod (cluster.create_pod ctx ns pod w)
        (record { world = w; requests = policy_ensured ns ∷ [] })

  abbrev pub holder_named : Context → Opts → Text → Text × W → Option (Fallible K8sPool) × Visit W
  holder_named ctx o ns (random, w) =
      holder_policy ctx o ns (holder_pod o (bytes "sandbox-pool-" ++ random))
        (ensure_isolation_policy cluster ctx ns w)

  unfoldable pub new_k8s_pool : Context → Opts → W → Option (Fallible K8sPool) × Visit W
  new_k8s_pool ctx o w =
      if is_empty o.binds
      then elim (kube_client (cluster.kube w)) [
        | err e ↦ (some (err e), record { world = w; requests = [] })
        | ok _ ↦ holder_named ctx o (namespace_of cluster w) (cluster.random w)
      ]
      else (some (err no_binds), record { world = w; requests = [] })

-- What a start that succeeds and one that fails have changed in the cluster.
abbrev pub Start : Opts → Fallible K8sPool → List Request → Type 0
Start o (ok k) rs =
    (k.opts ≡ o)
    × ((o.binds ≡ [])
        × ((name : Text) × (rs
              ≡ policy_ensured k.ns ∷ pod_created k.ns k.name (holder_pod o name) ∷ [])))
Start o (err e) rs =
    (rs ≡ [])
    ⊎ ((ns : Text) × ((rs ≡ policy_ensured ns ∷ [])
          ⊎ ((name : Text) × (id : Text) × (rs
                ≡ policy_ensured ns
                  ∷ pod_created ns id (holder_pod o name)
                  ∷ pod_deleted ns id
                  ∷ []))))

module _ {W : Type 0} (cluster : Cluster W) where
  abbrev Starts : Opts → Option (Fallible K8sPool) × Visit W → Type 0
  Starts o q = (r : Fallible K8sPool) × (q.0 ≡ some r) × Start o r q.1.requests

  holder_waited-Starts :
      (ctx : Context) (o : Opts) (ns name id : Text) (r : Option (Option Error) × W) (w : W)
      → o.binds ≡ []
      → Returns cluster r
      → Starts o (
          holder_waited cluster ctx o ns id r (record {
            world = w;
            requests = policy_ensured ns ∷ pod_created ns id (holder_pod o name) ∷ [];
          }))
  unfolding holder_waited fail
  holder_waited-Starts ctx o ns name id (none, w1) w b (a, e) = absurd cc
  holder_waited-Starts ctx o ns name id (some (some e), w1) w b v =
      (_, refl, inr (ns, inr (name, id, refl)))
  holder_waited-Starts ctx o ns name id (some none, w1) w b v =
      elim (Bool-cases (ltb_ℤ (pos 0) o.net_wait)) [
        | inr q ↦ rw (q, holder_waited) (_, refl, (refl, (b, (name, refl))))
        | inl q ↦ rw (q, holder_waited) (settled-Starts (cluster.sleep ctx o.net_wait w1))
      ]
    where
      settled-Starts :
          (r : Option Error × W)
          → Starts o (
              rules_settled cluster o ns id r (record {
                world = w1;
                requests = policy_ensured ns ∷ pod_created ns id (holder_pod o name) ∷ [];
              }))
      settled-Starts (some e, w2) = (_, refl, inr (ns, inr (name, id, refl)))
      settled-Starts (none, w2) = (_, refl, (refl, (b, (name, refl))))

  holder_made-Starts :
      Ticks cluster
      → (ctx : Context) (o : Opts) (ns name : Text) (c : Fallible Text × W) (w : W) → o.binds ≡ []
      → Starts o (
          holder_made cluster ctx o ns
            (holder_pod o name)
            c
            (record { world = w; requests = policy_ensured ns ∷ [] }))
  unfolding holder_made start_pod
  holder_made-Starts ticks ctx o ns name (err e, w1) w b = (_, refl, inr (ns, inl refl))
  holder_made-Starts ticks ctx o ns name (ok id, w1) w b =
      let (t, e) = with_timeout-deadline ctx (cluster.now w1) sixty_seconds in
      holder_waited-Starts ctx o ns name id _ w1 b (
        wait_pod_running-Returns cluster ticks (with_timeout ctx (cluster.now w1) sixty_seconds) ns
          id w1 t e)

  -- On a cluster whose clock goes on, and which refuses requests of an ended context, `newK8sPool`
  -- returns. A holder that it returns is one pod made from options without mounts, behind the policy
  -- that cuts pods off from the network. Where it returns an error no pod is left for which it has not
  -- asked the deletion.
  pub new_k8s_pool-Start :
      Ticks cluster
      → (ctx : Context) (o : Opts) (w : W)
      → (r : Fallible K8sPool) × ((new_k8s_pool cluster ctx o w).0 ≡ some r)
        × Start o r (new_k8s_pool cluster ctx o w).1.requests
  unfolding new_k8s_pool holder_policy
  new_k8s_pool-Start ticks ctx o w = elim (List-cases o.binds) [
    | inr (b, bs, z) ↦ rw (ap (λ l. is_empty l) z, new_k8s_pool) (_, refl, inl refl)
    | inl z ↦ elim (Fallible-cases (kube_client (cluster.kube w))) [
      | inr (e, q) ↦ rw (q, ap (λ l. is_empty l) z, new_k8s_pool) (_, refl, inl refl)
      | inl (c, q) ↦
          rw (q, ap (λ l. is_empty l) z, new_k8s_pool) (named-Starts (cluster.random w) z)
    ]
  ]
    where
      policy-Starts :
          (name : Text) (p : Option Error × W)
          → o.binds ≡ []
          → Starts o (holder_policy cluster ctx o (namespace_of cluster w) (holder_pod o name) p)
      policy-Starts name (some e, w1) b = (_, refl, inl refl)
      policy-Starts name (none, w1) b =
          holder_made-Starts ticks ctx o (namespace_of cluster w) name _ w1 b

      named-Starts :
          (n : Text × W)
          → o.binds ≡ []
          → Starts o (holder_named cluster ctx o (namespace_of cluster w) n)
      named-Starts (random, w1) b = policy-Starts _ _ b
