-- ===== src/Docker/Cleanup.antt =====
-- The containers that `dockerBackend.Run` makes, and those that it removes.
use podman_sandbox_runner.Base.{
  ℕ, true, false, ◌≡◌, refl, Option, none, some, List, [], ◌∷◌, ◌++◌, Text, text_eq, text_eq_iff,
  is_empty, ◌⊎◌, inl, inr, ◌≢◌, sym, ◌∙◌, Bool-cases, List-cases, ap,
}
use mathlib.Core.List.{append_assoc, append-nil}
use podman_sandbox_runner.Sandbox.{Error, Fallible, ok, err, Opts, Ran}
use podman_sandbox_runner.Pool.Ops.{Context}
use podman_sandbox_runner.Daemon.Server.{with_timeout}
use podman_sandbox_runner.Docker.Seccomp.{Daemon, security_opts}
use podman_sandbox_runner.Docker.Backend.{
  Engine, Call, created, runtime_seen, attached, started, waited, removed, client_closed, Session,
  Wait, exited, wait_failed, Inspected, note, inspected_last, finish, waited_for, started_on,
  attached_to, attach_and_start, verified, created_as, with_image, run, pulled, spec_of, input_of,
  closing, connected,
}

-- How far a run gets with a container that it may start.
abbrev pub Started : Text → List Call → Type 0
Started id cs =
    (cs ≡ attached id ∷ [])
    ⊎ ((cs ≡ attached id ∷ started id ∷ []) ⊎ (cs ≡ attached id ∷ started id ∷ waited id ∷ []))

-- What happens to a container, by the runtime that was asked for and the one the daemon reports.
abbrev pub Life : Text → Text → List Call → Type 0
Life id asked cs =
    ((asked ≡ []) × Started id cs)
    ⊎ (((rest : List Call) × (cs ≡ runtime_seen asked ∷ rest) × Started id rest)
        ⊎ (((seen : Text) × (seen ≢ asked) × (cs ≡ runtime_seen seen ∷ [])) ⊎ (cs ≡ [])))

-- The shapes that the log of a run can have.
abbrev pub Lifecycle : Opts → List Call → Type 0
Lifecycle o cs =
    (cs ≡ [])
    ⊎ ((cs ≡ client_closed ∷ [])
        ⊎ ((id : Text) × (d : Daemon) × (mid : List Call) × Life id o.runtime mid
            × (cs
                ≡ created id (spec_of o (security_opts d)) ∷ mid
                  ++ removed id ∷ client_closed ∷ [])))

module _ {W : Type 0} (engine : Engine W) where
  -- The log grows by calls that satisfy `P`.
  abbrev Grows : (List Call → Type 0) → Session W → Ran × Session W → Type 0
  Grows P s q = (cs : List Call) × (q.1.log ≡ s.log ++ cs) × P cs

  waited_for_log :
      (o : Opts) (id : Text) (began : ℕ) (wt : Wait × W) (s : Session W)
      → (waited_for engine o id began wt s).1.log ≡ s.log
  unfolding waited_for inspected_last finish
  waited_for_log o id began (exited code, w) s = refl
  waited_for_log o id began (wait_failed e true, w) s = refl
  waited_for_log o id began (wait_failed e false, w) s = refl

  started_on-log :
      (ctx : Context) (o : Opts) (id : Text) (began : ℕ) (r : Option Error × W) (s : Session W)
      → Grows (λ cs. (cs ≡ []) ⊎ (cs ≡ waited id ∷ [])) s (started_on engine ctx o id began r s)
  unfolding started_on finish
  started_on-log ctx o id began (some e, w) s = ([], sym (append-nil s.log), inl refl)
  started_on-log ctx o id began (none, w) s = (
    waited id ∷ [],
    waited_for_log o id began (engine.wait (with_timeout ctx (engine.now w) o.timeout) id w)
        (note (waited id) (record s { world = w })),
    inr refl,
  )

  attached_to-log :
      (ctx : Context) (o : Opts) (stdin : Option Text) (id : Text) (r : Option Error × W)
      (s : Session W)
      → Grows
          (λ cs. (cs ≡ []) ⊎ ((cs ≡ started id ∷ []) ⊎ (cs ≡ started id ∷ waited id ∷ [])))
          s
          (attached_to engine ctx o stdin id r s)
  unfolding attached_to
  attached_to-log ctx o stdin id (some e, w) s = ([], sym (append-nil s.log), inl refl)
  attached_to-log ctx o stdin id (none, w) s =
      let (cs, e, h) =
        started_on-log ctx o id (engine.now_ms w) (engine.start ctx id (input_of engine o stdin) w)
          (note (started id) (record s { world = w })) in
      (
        started id ∷ cs,
        e ∙ append_assoc s.log (started id ∷ []) cs,
        inr (elim h [
          | inl x ↦ inl (ap (λ t. started id ∷ t) x)
          | inr x ↦ inr (ap (λ t. started id ∷ t) x)
        ]),
      )

  attach_and_start-log :
      (ctx : Context) (o : Opts) (stdin : Option Text) (id : Text) (s : Session W)
      → Grows (Started id) s (attach_and_start engine ctx o stdin id s)
  unfolding attach_and_start
  attach_and_start-log ctx o stdin id s =
      let (cs, e, h) =
        attached_to-log ctx o stdin id (engine.attach ctx id o.with_stdin s.world)
          (note (attached id) s) in
      let cons = λ (t : List Call). attached id ∷ t in
      (
        attached id ∷ cs,
        e ∙ append_assoc s.log (attached id ∷ []) cs,
        elim h [
          | inl x ↦ inl (ap cons x)
          | inr (inl x) ↦ inr (inl (ap cons x))
          | inr (inr x) ↦ inr (inr (ap cons x))
        ],
      )

  verified-log :
      (ctx : Context) (o : Opts) (stdin : Option Text) (id : Text) (r : Fallible Inspected × W)
      (s : Session W)
      → Grows (Life id o.runtime) s (verified engine ctx o stdin id r s)
  unfolding verified
  verified-log ctx o stdin id (err e, w) s = ([], sym (append-nil s.log), inr (inr (inr refl)))
  verified-log ctx o stdin id (ok i, w) s = elim (Bool-cases (text_eq i.runtime o.runtime)) [
    | inr q ↦ (
      runtime_seen i.runtime ∷ [],
      rw (q, verified) refl,
      inr (
          inr (
            inl (
              i.runtime,
              (λ same. absurd (cc ((text_eq_iff i.runtime o.runtime).1 same, q))),
              refl,
            ))),
    )
    | inl q ↦
        let (cs, e, h) =
          attach_and_start-log ctx o stdin id
            (note (runtime_seen i.runtime) (record s { world = w })) in
        (
          runtime_seen i.runtime ∷ cs,
          rw (q, verified) (e ∙ append_assoc s.log (runtime_seen i.runtime ∷ []) cs),
          inr (inl (cs, ap (λ t. runtime_seen t ∷ cs) ((text_eq_iff i.runtime o.runtime).0 q), h)),
        )
  ]

  created_as-log :
      (ctx : Context) (o : Opts) (stdin : Option Text) (d : Daemon) (r : Fallible Text × W) (w0 : W)
      (notice : Text)
      → Lifecycle o
          (closing engine notice (
            created_as engine ctx o stdin
              (spec_of o (security_opts d))
              r
              (record { world = w0; log = [] }))).1.log
  unfolding created_as
  created_as-log ctx o stdin d (err e, w) w0 notice = inr (inl refl)
  created_as-log ctx o stdin d (ok id, w) w0 notice = elim (List-cases o.runtime) [
    | inl q ↦
        let (cs, e, h) =
          attach_and_start-log ctx o stdin id
            (record { world = w; log = created id (spec_of o (security_opts d)) ∷ [] }) in
        inr (
          inr (
            id,
            d,
            cs,
            inl (q, h),
            rw (ap (λ t. is_empty t) q, e)
                (ap (λ l. created id (spec_of o (security_opts d)) ∷ l)
                  (append_assoc cs (removed id ∷ []) (client_closed ∷ []))),
          ))
    | inr (c, rest, q) ↦
        let (cs, e, h) =
          verified-log ctx o stdin id (engine.inspect ctx id w)
            (record { world = w; log = created id (spec_of o (security_opts d)) ∷ [] }) in
        inr (
          inr (
            id,
            d,
            cs,
            h,
            rw (ap (λ t. is_empty t) q, e)
                (ap (λ l. created id (spec_of o (security_opts d)) ∷ l)
                  (append_assoc cs (removed id ∷ []) (client_closed ∷ []))),
          ))
  ]

  -- A run does not reach a daemon; or it makes no container and closes the client; or it makes one
  -- container, from the options under the daemon's security options, which it removes exactly once,
  -- after all else that happens to it, and then closes the client.
  -- The container is attached to before it starts and waited for after. It starts only where the
  -- options ask for no runtime or the daemon has reported the very runtime that they ask for.
  pub run-Lifecycle :
      (ctx : Context) (o : Opts) (stdin : Option Text) (w : W)
      → Lifecycle o (run engine ctx o stdin w).1.log
  unfolding run with_image
  run-Lifecycle ctx o stdin w = connected-Lifecycle (engine.connect w)
    where
      connected-Lifecycle :
          (c : Fallible Daemon × W) → Lifecycle o (connected engine ctx o stdin c).1.log
      connected-Lifecycle (err e, w) = inl refl
      connected-Lifecycle (ok d, w) =
          pulled-Lifecycle d (pulled engine ctx o (engine.image_inspect ctx o.image w))
        where
          pulled-Lifecycle :
              (d : Daemon) (i : Text × W) → Lifecycle o (with_image engine ctx o stdin d i).1.log
          pulled-Lifecycle d (notice, w1) =
              created_as-log ctx o stdin d (engine.create ctx (spec_of o (security_opts d)) w1) w1
                notice
