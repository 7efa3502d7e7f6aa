-- ===== src/Docker/Holder/Start.antt =====
-- pkg/sandbox/pooldocker.go: `newDockerPool`, which starts the container of a holder.
use podman_sandbox_runner.Base.{
  Bool, true, false, ◌≡◌, refl, ap, ◌⊎◌, inl, inr, pos, Option, none, some, List, [], ◌∷◌, ◌++◌,
  Text, bytes, text_eq, text_eq_iff, is_empty, if◌then◌else◌, Bool-cases, List-cases,
}
use podman_sandbox_runner.Sandbox.{Error, errorf, wrapf, Fallible, ok, err, Opts}
use podman_sandbox_runner.Pool.Ops.{Context}
use podman_sandbox_runner.Docker.Seccomp.{Daemon, security_opts}
use podman_sandbox_runner.Docker.Backend.{
  Engine, mebibytes, Spec, Session, Inspected, Call, attached, waited, created, runtime_seen,
  started, removed, client_closed, note,
}
use podman_sandbox_runner.Docker.Holder.{DockerPool}

unfoldable pub holder_spec : Opts → List Text → Spec
holder_spec o sec = record {
  image = o.image;
  cmd = bytes "sleep" ∷ bytes "infinity" ∷ [];
  env = [];
  user = [];
  working_dir = bytes "/work";
  attach_stdin = false;
  open_stdin = false;
  stdin_once = false;
  runtime = o.runtime;
  init = true;
  network_mode = bytes "none";
  auto_remove = false;
  readonly_rootfs = true;
  cap_drop = bytes "ALL" ∷ [];
  security_opt = sec;
  binds = o.binds;
  tmpfs =
      (bytes "/work", bytes "rw,size=64m,mode=1777")
      ∷ (bytes "/tmp", bytes "rw,size=16m,mode=1777")
      ∷ [];
  memory = mebibytes o.mem_mb;
  nano_cpus = o.nano_cpus;
  pids_limit = pos 128;
}

module _ {W : Type 0} (engine : Engine W) where
  -- `fail`: the container is removed and the client closed.
  unfoldable pub fail : Text → Error → Session W → Fallible DockerPool × Session W
  fail id e s = (
    err e,
    note client_closed (note (removed id) (record s { world = engine.remove id s.world })),
  )

  unfoldable pub holder_started :
      Opts → Text → Option Error × W → Session W → Fallible DockerPool × Session W
  holder_started o id (some e, w) s =
      fail id (wrapf "pool: start holder: %w" [] [] e) (record s { world = w })
  holder_started o id (none, w) s = (ok (record { id = id; opts = o }), record s { world = w })

  unfoldable pub start_holder : Context → Opts → Text → Session W → Fallible DockerPool × Session W
  start_holder ctx o id s =
      holder_started o id (engine.start ctx id none s.world) (note (started id) s)

  unfoldable pub holder_verified :
      Context → Opts → Text → Fallible Inspected × W → Session W → Fallible DockerPool × Session W
  holder_verified ctx o id (err e, w) s =
      fail id (wrapf "pool: verifying runtime: %w" [] [] e) (record s { world = w })
  holder_verified ctx o id (ok i, w) s =
      if text_eq i.runtime o.runtime
      then start_holder ctx o id (note (runtime_seen i.runtime) (record s { world = w }))
      else fail id
          (errorf "pool: requested runtime %q but daemon assigned %q" (o.runtime ∷ i.runtime ∷ [])
            [])
          (note (runtime_seen i.runtime) (record s { world = w }))

  unfoldable pub holder_created :
      Context → Opts → Spec → Fallible Text × W → Fallible DockerPool × Session W
  holder_created ctx o spec (err e, w) = (
    err (wrapf "pool: create holder: %w" [] [] e),
    record { world = w; log = client_closed ∷ [] },
  )
  holder_created ctx o spec (ok id, w) =
      if is_empty o.runtime
      then start_holder ctx o id (record { world = w; log = created id spec ∷ [] })
      else holder_verified ctx o id (engine.inspect ctx id w)
          (record { world = w; log = created id spec ∷ [] })

  abbrev fetched : Context → Opts → Option Error × W → W
  fetched ctx o (none, w) = w
  fetched ctx o (some e, w) = engine.image_pull ctx o.image w

  abbrev pub holder_connected :
      Context → Opts → Fallible Daemon × W → Fallible DockerPool × Session W
  holder_connected ctx o (err e, w) =
      (err (wrapf "pool: connecting to socket: %w" [] [] e), record { world = w; log = [] })
  holder_connected ctx o (ok d, w) = holder_created ctx o (holder_spec o (security_opts d)) (
      engine.create ctx (holder_spec o (security_opts d))
        (fetched ctx o (engine.image_inspect ctx o.image w)))

  unfoldable pub new_docker_pool : Context → Opts → W → Fallible DockerPool × Session W
  new_docker_pool ctx o w = holder_connected ctx o (engine.connect w)

-- Calls that neither make nor remove a container.
abbrev pub is_passing : List Call → Bool
is_passing [] = true
is_passing (runtime_seen t ∷ cs) = is_passing cs
is_passing (started id ∷ cs) = is_passing cs
is_passing (attached id ∷ cs) = is_passing cs
is_passing (waited id ∷ cs) = is_passing cs
is_passing (_ ∷ cs) = false

-- What a successful and a failed start have asked of the daemon.
abbrev pub Start : Opts → Fallible DockerPool → List Call → Type 0
Start o (ok d) cs =
    (d.opts ≡ o)
    × ((daemon : Daemon) × (((o.runtime ≡ [])
            × (cs ≡ created d.id (holder_spec o (security_opts daemon)) ∷ started d.id ∷ []))
          ⊎ (cs
              ≡ created d.id (holder_spec o (security_opts daemon))
                ∷ runtime_seen o.runtime
                ∷ started d.id
                ∷ [])))
Start o (err e) cs =
    (cs ≡ [])
    ⊎ ((cs ≡ client_closed ∷ [])
        ⊎ ((id : Text) × (daemon : Daemon) × (mid : List Call) × (is_passing mid ≡ true)
            × (cs
                ≡ created id (holder_spec o (security_opts daemon)) ∷ mid
                  ++ removed id ∷ client_closed ∷ [])))

module _ {W : Type 0} (engine : Engine W) (ctx : Context) (o : Opts) where
  abbrev Starts : Fallible DockerPool × Session W → Type 0
  Starts (r, s) = Start o r s.log

  plain-Starts :
      (d : Daemon) (id : Text) (w : W) (r : Option Error × W)
      → o.runtime ≡ []
      → Starts (
          holder_started engine o id r (record {
            world = w;
            log = created id (holder_spec o (security_opts d)) ∷ started id ∷ [];
          }))
  unfolding holder_started fail
  plain-Starts d id w (some e, w1) q = inr (inr (id, d, started id ∷ [], refl, refl))
  plain-Starts d id w (none, w1) q = (refl, (d, inl (q, refl)))

  seen-Starts :
      (d : Daemon) (id seen : Text) (w : W) (r : Option Error × W)
      → seen ≡ o.runtime
      → Starts (
          holder_started engine o id r (record {
            world = w;
            log =
                created id (holder_spec o (security_opts d)) ∷ runtime_seen seen ∷ started id ∷ [];
          }))
  unfolding holder_started fail
  seen-Starts d id seen w (some e, w1) q =
      inr (inr (id, d, runtime_seen seen ∷ started id ∷ [], refl, refl))
  seen-Starts d id seen w (none, w1) q = (
    refl,
    (
      d,
      inr (
          ap (λ t. created id (holder_spec o (security_opts d)) ∷ runtime_seen t ∷ started id ∷ [])
            q),
    ),
  )

  holder_verified-Starts :
      (d : Daemon) (id : Text) (i : Fallible Inspected × W) (w0 : W)
      → Starts (
          holder_verified engine ctx o id i
            (record { world = w0; log = created id (holder_spec o (security_opts d)) ∷ [] }))
  unfolding holder_verified fail start_holder
  holder_verified-Starts d id (err e, w) w0 = inr (inr (id, d, [], refl, refl))
  holder_verified-Starts d id (ok i, w) w0 = elim (Bool-cases (text_eq i.runtime o.runtime)) [
    | inr q ↦ rw (q, holder_verified) (inr (inr (id, d, runtime_seen i.runtime ∷ [], refl, refl)))
    | inl q ↦
        rw (q, holder_verified)
          (seen-Starts d id i.runtime _ _ ((text_eq_iff i.runtime o.runtime).0 q))
  ]

  holder_created-Starts :
      (d : Daemon) (c : Fallible Text × W)
      → Starts (holder_created engine ctx o (holder_spec o (security_opts d)) c)
  unfolding holder_created start_holder
  holder_created-Starts d (err e, w) = inr (inl refl)
  holder_created-Starts d (ok id, w) = elim (List-cases o.runtime) [
    | inl q ↦ rw (ap (λ t. is_empty t) q) (plain-Starts d id _ _ q)
    | inr (c, rest, q) ↦ rw (ap (λ t. is_empty t) q) (holder_verified-Starts d id _ _)
  ]

  holder_connected-Starts : (c : Fallible Daemon × W) → Starts (holder_connected engine ctx o c)
  holder_connected-Starts (err e, w) = inl refl
  holder_connected-Starts (ok d, w) = holder_created-Starts d _

  -- A holder that `newDockerPool` answers with is one container, made from the pool's options and
  -- started, under the runtime that the options ask for where they ask for one. Where it answers
  -- with an error, no container is left: it made none, or has removed the one it made, and closed
  -- the client if it had connected.
  pub new_docker_pool-Start :
      (w : W) → Start o (new_docker_pool engine ctx o w).0 (new_docker_pool engine ctx o w).1.log
  unfolding new_docker_pool
  new_docker_pool-Start w = holder_connected-Starts (engine.connect w)
