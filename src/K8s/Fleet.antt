-- ===== src/K8s/Fleet.antt =====
-- pkg/sandbox/poolk8s.go: all pods that a pool of Kubernetes holders creates and deletes, with the
-- requests that change the cluster written down in order.
use podman_sandbox_runner.Base.{
  ℕ, ℤ, ◌+◌, pos, ◌==◌, ◌&&◌, ◌||◌, ◌∙◌, ◌++◌, Option-cases, not, Bool, true, false, ◌≡◌, refl, inl,
  inr, Option, none, some, List, [], ◌∷◌, Text, bytes, text_eq, if◌then◌else◌, arith,
}
use podman_sandbox_runner.Sandbox.{Fallible, ok, err, external, Opts}
use podman_sandbox_runner.Pool.Ops.{PoolImpl, Context, Job}
use podman_sandbox_runner.Pool.Accounts.Ledger.{
  tally, tally-append, log_of, worth_answer, ran_through, IsLedger,
}
use podman_sandbox_runner.K8s.Pods.{Policy, deny_all, Pod, holder_pod}
use podman_sandbox_runner.K8s.Cluster.{
  Cluster, Phase, pending, running, succeeded, failed, other_phase, Stream,
}
use podman_sandbox_runner.K8s.Waiting.{Ticks}
use podman_sandbox_runner.K8s.Backend.{Request, pod_created, pod_deleted}
use podman_sandbox_runner.K8s.Holder.{
  K8sPool, k8s_impl, exec, exec_ended, run, cleanup, verdict, check_holder, close,
}
use podman_sandbox_runner.K8s.Holder.Start.{Start, new_k8s_pool, new_k8s_pool-Start}

-- The answer of a start. One that does not return, which no cluster whose clock goes on has, counts
-- as failed here.
abbrev pub answer_of : Option (Fallible K8sPool) → Fallible K8sPool
answer_of (some r) = r
answer_of none = err (external "the start does not return")

-- The cluster of the holders over a world that writes the deletions down: every call of `delete_pod`,
-- and no other.
abbrev pub logged : {W : Type 0} → Cluster W → Cluster (W × List Request)
logged cluster = record {
  kube = λ s. cluster.kube s.0;
  namespace = λ s. cluster.namespace s.0;
  random = λ s. ((cluster.random s.0).0, ((cluster.random s.0).1, s.1));
  create_policy = λ ctx ns policy s. (
    (cluster.create_policy ctx ns policy s.0).0,
    ((cluster.create_policy ctx ns policy s.0).1, s.1),
  );
  create_pod = λ ctx ns pod s.
      ((cluster.create_pod ctx ns pod s.0).0, ((cluster.create_pod ctx ns pod s.0).1, s.1));
  get_phase = λ ctx ns name s.
      ((cluster.get_phase ctx ns name s.0).0, ((cluster.get_phase ctx ns name s.0).1, s.1));
  delete_pod = λ ctx ns name s. (
    (cluster.delete_pod ctx ns name s.0).0,
    ((cluster.delete_pod ctx ns name s.0).1, s.1 ++ pod_deleted ns name ∷ []),
  );
  sleep = λ ctx d s. ((cluster.sleep ctx d s.0).0, ((cluster.sleep ctx d s.0).1, s.1));
  ctx_err = λ ctx s. cluster.ctx_err ctx s.0;
  executor = λ ns name s. cluster.executor ns name s.0;
  stream = λ ctx ns name cmd stdin open_stdin s. (
    (cluster.stream ctx ns name cmd stdin open_stdin s.0).0,
    ((cluster.stream ctx ns name cmd stdin open_stdin s.0).1, s.1),
  );
  copied = λ name s. cluster.copied name s.0;
  now = λ s. cluster.now s.0;
  now_ms = λ s. cluster.now_ms s.0;
}

module _ {W : Type 0} (cluster : Cluster W) (ctx : W → Context) (o : Opts) where
  -- `newK8sPool` in the context `ctx` of the call, its requests behind those before it.
  abbrev pub newly : W × List Request → Fallible K8sPool × (W × List Request)
  newly s = (
    answer_of (new_k8s_pool cluster (ctx s.0) o s.0).0,
    (
      (new_k8s_pool cluster (ctx s.0) o s.0).1.world,
      s.1 ++ (new_k8s_pool cluster (ctx s.0) o s.0).1.requests,
    ),
  )

  -- The holders of a pool, on a cluster whose deletions are written down.
  abbrev pub fleet : PoolImpl K8sPool (W × List Request)
  fleet = k8s_impl (logged cluster) newly

abbrev is_pod : Text → Text → Text → Text → Bool
is_pod ns name ns' name' = text_eq ns ns' && text_eq name name'

-- The pod of the name `x` in the namespace `n`, created and deleted.
abbrev pub makes : Text → Text → Request → ℕ
makes n x (pod_created ns id pod) = if is_pod ns id n x then 1 else 0
makes n x _ = 0

abbrev pub removes : Text → Text → Request → ℕ
removes n x (pod_deleted ns id) = if is_pod ns id n x then 1 else 0
removes n x _ = 0

abbrev pub is_of : Text → Text → K8sPool → ℕ
is_of n x k = if is_pod k.ns k.name n x then 1 else 0

abbrev drops_all : List Text → Bool
drops_all (t ∷ []) = text_eq t (bytes "ALL")
drops_all _ = false

abbrev has_text : Text → List Text → Bool
has_text t [] = false
has_text t (u ∷ us) = text_eq t u || has_text t us

abbrev is_nobody : Option (ℤ × ℤ) → Bool
is_nobody (some (pos u, pos g)) = u == 65534 && g == 65534
is_nobody _ = false

-- A policy that lets nothing through in either direction.
abbrev blocks_all : Policy → Bool
blocks_all q =
    has_text (bytes "Ingress") q.types && has_text (bytes "Egress") q.types && q.rules == 0

-- A pod on a root file system that it cannot write to, without a capability, a way to new privileges,
-- or the token of a service account, under a user and a group that are not root, and with the label
-- that the policy of `ensureIsolationPolicy` selects, which lets nothing through.
abbrev pub is_confined : Pod → Bool
is_confined p =
    p.security.read_only_root
    && not p.security.allow_escalation
    && drops_all p.security.drop
    && is_nobody p.security.run_as
    && not p.automount_token
    && text_eq p.app deny_all.selects
    && blocks_all deny_all

abbrev pub lets_loose : Request → ℕ
lets_loose (pod_created ns id pod) = if is_confined pod then 0 else 1
lets_loose _ = 0

abbrev pub nothing : Request → ℕ
nothing r = 0

pub tally-nothing : (rs : List Request) → tally nothing rs ≡ 0
tally-nothing [] = refl
tally-nothing (r ∷ rs) = omega (arith, tally-nothing rs)

holder_pod-IsConfined : (o : Opts) (name : Text) → is_confined (holder_pod o name) ≡ true
unfolding holder_pod text_eq
holder_pod-IsConfined o name = refl

Start-makes :
    (n x : Text) (o : Opts) (r : Fallible K8sPool) (rs : List Request)
    → Start o r rs
    → tally (makes n x) rs ≡ tally (removes n x) rs + worth_answer (is_of n x) r
Start-makes n x o (ok k) rs (_, (_, (name, e))) = rw e (omega arith)
Start-makes n x o (err e) rs (inl q) = rw q refl
Start-makes n x o (err e) rs (inr (ns, inl q)) = rw q refl
Start-makes n x o (err e) rs (inr (ns, inr (name, id, q))) = rw q (omega arith)

Start-lets_loose :
    (o : Opts) (r : Fallible K8sPool) (rs : List Request) → Start o r rs → tally lets_loose rs ≡ 0
Start-lets_loose o (ok k) rs (_, (_, (name, e))) = rw (e, holder_pod-IsConfined o name) refl
Start-lets_loose o (err e) rs (inl q) = rw q refl
Start-lets_loose o (err e) rs (inr (ns, inl q)) = rw q refl
Start-lets_loose o (err e) rs (inr (ns, inr (name, id, q))) =
    rw (q, holder_pod-IsConfined o name) refl

-- The methods but `close` leave the log as it is.
module _ {W : Type 0} (cluster : Cluster W) where
  exec-log :
      (k : K8sPool) (ctx : Context) (cmd : List Text) (stdin : Option Text) (s : W × List Request)
      → log_of (exec (logged cluster) k ctx cmd stdin s) ≡ s.1
  unfolding exec
  exec-log k ctx cmd stdin s = elim (Option-cases (cluster.executor k.ns k.name s.0)) [
    | inl e ↦ rw (e, exec) refl
    | inr (x, e) ↦ rw (e, exec) refl
  ]

  exec_ended-log :
      (k : K8sPool) (ctx : Context) (began : ℕ) (a : Stream × (W × List Request))
      → log_of (exec_ended (logged cluster) k ctx began a) ≡ log_of a
  unfolding exec_ended
  exec_ended-log k ctx began (end, s) = refl

  run-log :
      (k : K8sPool) (ctx : Context) (job : Job) (s : W × List Request)
      → log_of (run (logged cluster) k ctx job s) ≡ s.1
  unfolding run
  run-log k ctx job s = exec_ended-log k _ _ _ ∙ exec-log k _ _ job.stdin s

  cleanup-log : (k : K8sPool) (s : W × List Request) → (cleanup (logged cluster) k s).1 ≡ s.1
  unfolding cleanup
  cleanup-log k s = exec-log k _ _ none s

  verdict-log :
      (a : Fallible Phase × (W × List Request)) → log_of (verdict (logged cluster) a) ≡ log_of a
  verdict-log (err e, s) = refl
  verdict-log (ok running, s) = refl
  verdict-log (ok pending, s) = refl
  verdict-log (ok succeeded, s) = refl
  verdict-log (ok failed, s) = refl
  verdict-log (ok (other_phase t), s) = refl

  check_holder-log :
      (k : K8sPool) (s : W × List Request) → log_of (check_holder (logged cluster) k s) ≡ s.1
  unfolding check_holder
  check_holder-log k s = verdict-log _

  -- `close` asks once to delete the pod of the holder, and nothing else.
  close-log :
      (k : K8sPool) (s : W × List Request)
      → log_of (close (logged cluster) k s) ≡ s.1 ++ pod_deleted k.ns k.name ∷ []
  unfolding close
  close-log k s = refl

module _ {W : Type 0} (cluster : Cluster W) (ticks : Ticks cluster) (ctx : W → Context)
    (o : Opts) where
  rests_lem :
      (k : K8sPool) (c : Context) (job : Job) (s : W × List Request)
      → (ran_through (fleet cluster ctx o) k c job s).1 ≡ s.1
  rests_lem k c job s =
      check_holder-log cluster k _ ∙ (cleanup-log cluster k _ ∙ run-log cluster k c job s)

  -- The requests of a start.
  abbrev begun : W → List Request
  begun w = (new_k8s_pool cluster (ctx w) o w).1.requests

  newly-Start : (w : W) → Start o (answer_of (new_k8s_pool cluster (ctx w) o w).0) (begun w)
  newly-Start w = let (r, e, s) = new_k8s_pool-Start cluster ticks (ctx w) o w in rw e s

  pub makes_ledger :
      (n x : Text) → IsLedger (fleet cluster ctx o) (makes n x) (removes n x) (is_of n x)
  makes_ledger n x = record {
    starts = λ s. omega (
      arith,
      Start-makes n x o _ _ (newly-Start s.0),
      tally-append (makes n x) s.1 (begun s.0),
      tally-append (removes n x) s.1 (begun s.0),
    );
    ends = λ k s. rw (close-log cluster k s) (
        omega (
          arith,
          tally-append (makes n x) s.1 (pod_deleted k.ns k.name ∷ []),
          tally-append (removes n x) s.1 (pod_deleted k.ns k.name ∷ []),
        ));
    rests = rests_lem;
  }

  pub loose_ledger : IsLedger (fleet cluster ctx o) lets_loose nothing (λ k. 0)
  loose_ledger = record {
    starts = λ s. omega (
      arith,
      Start-lets_loose o _ _ (newly-Start s.0),
      tally-append lets_loose s.1 (begun s.0),
      tally-nothing s.1,
      tally-nothing (s.1 ++ begun s.0),
      no_worth (answer_of (new_k8s_pool cluster (ctx s.0) o s.0).0),
    );
    ends = λ k s. rw (close-log cluster k s) (
        omega (
          arith,
          tally-append lets_loose s.1 (pod_deleted k.ns k.name ∷ []),
          tally-nothing s.1,
          tally-nothing (s.1 ++ pod_deleted k.ns k.name ∷ []),
        ));
    rests = rests_lem;
  }
    where
      no_worth : (r : Fallible K8sPool) → worth_answer (λ (k : K8sPool). 0) r ≡ 0
      no_worth (ok k) = refl
      no_worth (err e) = refl
