-- ===== src/Docker/Fleet.antt =====
-- pkg/sandbox/pooldocker.go: all containers that a pool of Docker holders has its daemon create and
-- remove, with the calls of the daemon written down in order.
use podman_sandbox_runner.Base.{
  ℕ, ◌+◌, ◌∙◌, ◌&&◌, Bool, true, false, ◌≡◌, refl, ◌++◌, inl, inr, List, [], ◌∷◌, Text, bytes,
  text_eq, if◌then◌else◌, arith,
}
use podman_sandbox_runner.Sandbox.{Fallible, ok, err, Opts}
use podman_sandbox_runner.Pool.Ops.{PoolImpl, Context, Job}
use podman_sandbox_runner.Pool.Accounts.Ledger.{
  tally, tally-append, worth_answer, ran_through, IsLedger,
}
use podman_sandbox_runner.Docker.Seccomp.{
  Daemon, security_opts, no_new_privileges, security_opts_cases,
}
use podman_sandbox_runner.Docker.Cleanup.{Started, Life, Lifecycle}
use podman_sandbox_runner.Docker.Backend.{
  spec_of, Engine, Spec, Call, created, runtime_seen, attached, started, waited, removed,
  client_closed,
}
use podman_sandbox_runner.Docker.Holder.{Exec, DockerPool, docker_impl}
use podman_sandbox_runner.Docker.Holder.Start.{
  Start, is_passing, holder_spec, new_docker_pool, new_docker_pool-Start,
}
use podman_sandbox_runner.Docker.Logged.{
  logged, exec_in-log, cleanup-log, check_holder-log, close_holder-log,
}

module _ {W : Type 0} (engine : Engine W) (exec : Exec W) (ctx : W → Context) (o : Opts) where
  -- `newDockerPool` in the context `ctx` of the call, its calls behind those before it.
  abbrev pub newly : W × List Call → Fallible DockerPool × (W × List Call)
  newly s = (
    (new_docker_pool engine (ctx s.0) o s.0).0,
    (
      (new_docker_pool engine (ctx s.0) o s.0).1.world,
      s.1 ++ (new_docker_pool engine (ctx s.0) o s.0).1.log,
    ),
  )

  -- The holders of a pool, over a client whose removals are written down.
  abbrev pub fleet : PoolImpl DockerPool (W × List Call)
  fleet = docker_impl (logged exec) newly

-- The container of the name `x`, made and removed.
abbrev pub makes : Text → Call → ℕ
makes x (created id spec) = if text_eq id x then 1 else 0
makes x _ = 0

abbrev pub removes : Text → Call → ℕ
removes x (removed id) = if text_eq id x then 1 else 0
removes x _ = 0

abbrev denies_privileges : List Text → Bool
denies_privileges [] = false
denies_privileges (t ∷ ts) = text_eq t no_new_privileges

abbrev drops_all : List Text → Bool
drops_all (t ∷ []) = text_eq t (bytes "ALL")
drops_all _ = false

-- A container without a network, on a root file system that it cannot write to, without a capability
-- and without a way to new privileges.
abbrev pub is_confined : Spec → Bool
is_confined s =
    text_eq s.network_mode (bytes "none")
    && s.readonly_rootfs
    && drops_all s.cap_drop
    && denies_privileges s.security_opt

abbrev pub lets_loose : Call → ℕ
lets_loose (created id spec) = if is_confined spec then 0 else 1
lets_loose _ = 0

abbrev pub nothing : Call → ℕ
nothing c = 0

holder_spec-IsConfined :
    (o : Opts) (d : Daemon) → is_confined (holder_spec o (security_opts d)) ≡ true
unfolding holder_spec text_eq
holder_spec-IsConfined o d = elim (security_opts_cases d) [
  | inl (_, e) ↦ rw e refl
  | inr (inl (p, _, _, _, e)) ↦ rw e refl
  | inr (inr (_, _, e)) ↦ rw e refl
]

-- What counts nothing of the calls that neither make nor remove a container.
record Passes (g : Call → ℕ) : Type 0 where
  of_seen : (t : Text) → g (runtime_seen t) ≡ 0
  of_started : (id : Text) → g (started id) ≡ 0
  of_attached : (id : Text) → g (attached id) ≡ 0
  of_waited : (id : Text) → g (waited id) ≡ 0

passing-tally : (g : Call → ℕ) → Passes g → (cs : List Call) → is_passing cs ≡ true → tally g cs ≡ 0
passing-tally g v [] e = refl
passing-tally g v (runtime_seen t ∷ cs) e = omega (arith, v.of_seen t, passing-tally g v cs e)
passing-tally g v (started id ∷ cs) e = omega (arith, v.of_started id, passing-tally g v cs e)
passing-tally g v (attached id ∷ cs) e = omega (arith, v.of_attached id, passing-tally g v cs e)
passing-tally g v (waited id ∷ cs) e = omega (arith, v.of_waited id, passing-tally g v cs e)
passing-tally g v (created id spec ∷ cs) e = absurd cc
passing-tally g v (removed id ∷ cs) e = absurd cc
passing-tally g v (client_closed ∷ cs) e = absurd cc

makes_pass : (x : Text) → Passes (makes x)
makes_pass x = record {
  of_seen = λ t. refl;
  of_started = λ id. refl;
  of_attached = λ id. refl;
  of_waited = λ id. refl;
}

removes_pass : (x : Text) → Passes (removes x)
removes_pass x = record {
  of_seen = λ t. refl;
  of_started = λ id. refl;
  of_attached = λ id. refl;
  of_waited = λ id. refl;
}

loose_pass : Passes lets_loose
loose_pass = record {
  of_seen = λ t. refl;
  of_started = λ id. refl;
  of_attached = λ id. refl;
  of_waited = λ id. refl;
}

-- One container, made and in the end removed, with calls between them that pass.
whole_life :
    (x id : Text) (spec : Spec) (mid : List Call)
    → is_passing mid ≡ true
    → tally (makes x) (created id spec ∷ mid ++ removed id ∷ client_closed ∷ [])
      ≡ tally (removes x) (created id spec ∷ mid ++ removed id ∷ client_closed ∷ [])
whole_life x id spec mid passing = omega (
  arith,
  tally-append (makes x) mid (removed id ∷ client_closed ∷ []),
  tally-append (removes x) mid (removed id ∷ client_closed ∷ []),
  passing-tally (makes x) (makes_pass x) mid passing,
  passing-tally (removes x) (removes_pass x) mid passing,
)

-- Whether the holder `d` is the container `x`.
abbrev pub is_of : Text → DockerPool → ℕ
is_of x d = if text_eq d.id x then 1 else 0

Start-makes :
    (x : Text) (o : Opts) (r : Fallible DockerPool) (cs : List Call)
    → Start o r cs
    → tally (makes x) cs ≡ tally (removes x) cs + worth_answer (is_of x) r
Start-makes x o (ok d) cs (_, (daemon, inl (_, e))) = rw e (omega arith)
Start-makes x o (ok d) cs (_, (daemon, inr e)) = rw e (omega arith)
Start-makes x o (err e) cs (inl q) = rw q refl
Start-makes x o (err e) cs (inr (inl q)) = rw q refl
Start-makes x o (err e) cs (inr (inr (id, daemon, mid, passing, q))) =
    rw q (omega (arith, whole_life x id (holder_spec o (security_opts daemon)) mid passing))

confined :
    (o : Opts) (daemon : Daemon) (id : Text)
    → lets_loose (created id (holder_spec o (security_opts daemon))) ≡ 0
confined o daemon id = rw (holder_spec-IsConfined o daemon) refl

Start-lets_loose :
    (o : Opts) (r : Fallible DockerPool) (cs : List Call) → Start o r cs → tally lets_loose cs ≡ 0
Start-lets_loose o (ok d) cs (_, (daemon, inl (_, e))) =
    rw e (omega (arith, confined o daemon d.id))
Start-lets_loose o (ok d) cs (_, (daemon, inr e)) = rw e (omega (arith, confined o daemon d.id))
Start-lets_loose o (err e) cs (inl q) = rw q refl
Start-lets_loose o (err e) cs (inr (inl q)) = rw q refl
Start-lets_loose o (err e) cs (inr (inr (id, daemon, mid, passing, q))) = rw q (
    omega (
      arith,
      confined o daemon id,
      tally-append lets_loose mid (removed id ∷ client_closed ∷ []),
      passing-tally lets_loose loose_pass mid passing,
    ))

-- A one-shot run makes and removes its container.
Started-passing : (id : Text) (cs : List Call) → Started id cs → is_passing cs ≡ true
Started-passing id cs (inl e) = rw e refl
Started-passing id cs (inr (inl e)) = rw e refl
Started-passing id cs (inr (inr e)) = rw e refl

Life-passing : (id asked : Text) (cs : List Call) → Life id asked cs → is_passing cs ≡ true
Life-passing id asked cs (inl (_, st)) = Started-passing id cs st
Life-passing id asked cs (inr (inl (rest, e, st))) = rw e (Started-passing id rest st)
Life-passing id asked cs (inr (inr (inl (seen, _, e)))) = rw e refl
Life-passing id asked cs (inr (inr (inr e))) = rw e refl

pub Lifecycle-makes :
    (x : Text) (o : Opts) (cs : List Call)
    → Lifecycle o cs
    → tally (makes x) cs ≡ tally (removes x) cs
Lifecycle-makes x o cs (inl e) = rw e refl
Lifecycle-makes x o cs (inr (inl e)) = rw e refl
Lifecycle-makes x o cs (inr (inr (id, d, mid, life, e))) =
    rw e (whole_life x id (spec_of o (security_opts d)) mid (Life-passing id o.runtime mid life))

pub tally-nothing : (cs : List Call) → tally nothing cs ≡ 0
tally-nothing [] = refl
tally-nothing (c ∷ cs) = omega (arith, tally-nothing cs)

module _ {W : Type 0} (engine : Engine W) (exec : Exec W) (ctx : W → Context) (o : Opts) where
  rests_lem :
      (d : DockerPool) (c : Context) (job : Job) (s : W × List Call)
      → (ran_through (fleet engine exec ctx o) d c job s).1 ≡ s.1
  rests_lem d c job s =
      check_holder-log exec d _ ∙ (cleanup-log exec d _ ∙ exec_in-log exec d c job s)

  pub makes_ledger : (x : Text) → IsLedger (fleet engine exec ctx o) (makes x) (removes x) (is_of x)
  makes_ledger x = record {
    starts = λ s. omega (
      arith,
      Start-makes x o _ _ (new_docker_pool-Start engine (ctx s.0) o s.0),
      tally-append (makes x) s.1 (new_docker_pool engine (ctx s.0) o s.0).1.log,
      tally-append (removes x) s.1 (new_docker_pool engine (ctx s.0) o s.0).1.log,
    );
    ends = λ d s. rw (close_holder-log exec d s) (
        omega (
          arith,
          tally-append (makes x) s.1 (removed d.id ∷ []),
          tally-append (removes x) s.1 (removed d.id ∷ []),
        ));
    rests = rests_lem;
  }

  pub loose_ledger : IsLedger (fleet engine exec ctx o) lets_loose nothing (λ d. 0)
  loose_ledger = record {
    starts = λ s. omega (
      arith,
      Start-lets_loose o _ _ (new_docker_pool-Start engine (ctx s.0) o s.0),
      tally-append lets_loose s.1 (new_docker_pool engine (ctx s.0) o s.0).1.log,
      tally-nothing s.1,
      tally-nothing (s.1 ++ (new_docker_pool engine (ctx s.0) o s.0).1.log),
      no_worth (new_docker_pool engine (ctx s.0) o s.0).0,
    );
    ends = λ d s. rw (close_holder-log exec d s) (
        omega (
          arith,
          tally-append lets_loose s.1 (removed d.id ∷ []),
          tally-nothing s.1,
          tally-nothing (s.1 ++ removed d.id ∷ []),
        ));
    rests = rests_lem;
  }
    where
      no_worth : (r : Fallible DockerPool) → worth_answer (λ (d : DockerPool). 0) r ≡ 0
      no_worth (ok d) = refl
      no_worth (err e) = refl
