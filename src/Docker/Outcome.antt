-- ===== src/Docker/Outcome.antt =====
-- What `dockerBackend.Run` answers with.
use podman_sandbox_runner.Base.{
  ℕ, pos, true, false, ◌≡◌, ◌≢◌, refl, ◌⊎◌, inl, inr, Option, none, some, [], ◌∷◌, Text, is_empty,
  text_eq, Bool-cases,
}
use podman_sandbox_runner.Sandbox.{Error, Fallible, ok, err, Opts, Ran, errorf}
use podman_sandbox_runner.Pool.Ops.{Context}
use podman_sandbox_runner.Docker.Seccomp.{Daemon}
use podman_sandbox_runner.Docker.Backend.{
  Engine, Session, Spec, Wait, exited, wait_failed, Inspected, inspected_last, finish, waited_for,
  started_on, attached_to, attach_and_start, verified, created_as, with_image, run, pulled,
  connected,
}

-- The error of a timeout.
abbrev pub timed_out_after : Opts → Error
timed_out_after o = errorf "timed out after %s (container killed)" [] (o.timeout ∷ [])

-- Success without a timeout, the error of a timeout, or another error and an empty result.
abbrev pub Answer : Opts → Ran → Type 0
Answer o r =
    ((r.failure ≡ none) × (r.result.timed_out ≡ false))
    ⊎ ((r.result.exit_code ≡ pos 0)
        × (r.result.oom_killed ≡ false)
        × (((r.result.timed_out ≡ true) × (r.failure ≡ some (timed_out_after o)))
            ⊎ ((r.result.timed_out ≡ false)
                × ((e : Error) × (r.failure ≡ some e) × (e ≢ timed_out_after o)))))

module _ {W : Type 0} (engine : Engine W) where
  waited_for-Answer :
      (o : Opts) (id : Text) (began : ℕ) (wt : Wait × W) (s : Session W)
      → Answer o (waited_for engine o id began wt s).0
  unfolding waited_for inspected_last finish
  waited_for-Answer o id began (exited code, w) s = inl (refl, refl)
  waited_for-Answer o id began (wait_failed e true, w) s = inr (refl, refl, inl (refl, refl))
  waited_for-Answer o id began (wait_failed e false, w) s =
      inr (refl, refl, inr (refl, (_, refl, λ q. absurd cc)))

  started_on-Answer :
      (ctx : Context) (o : Opts) (id : Text) (began : ℕ) (r : Option Error × W) (s : Session W)
      → Answer o (started_on engine ctx o id began r s).0
  unfolding started_on finish
  started_on-Answer ctx o id began (some e, w) s =
      inr (refl, refl, inr (refl, (_, refl, λ q. absurd cc)))
  started_on-Answer ctx o id began (none, w) s = waited_for-Answer o id began _ _

  attached_to-Answer :
      (ctx : Context) (o : Opts) (stdin : Option Text) (id : Text) (r : Option Error × W)
      (s : Session W)
      → Answer o (attached_to engine ctx o stdin id r s).0
  unfolding attached_to
  attached_to-Answer ctx o stdin id (some e, w) s =
      inr (refl, refl, inr (refl, (_, refl, λ q. absurd cc)))
  attached_to-Answer ctx o stdin id (none, w) s = started_on-Answer ctx o id _ _ _

  verified-Answer :
      (ctx : Context) (o : Opts) (stdin : Option Text) (id : Text) (r : Fallible Inspected × W)
      (s : Session W)
      → Answer o (verified engine ctx o stdin id r s).0
  unfolding verified attach_and_start
  verified-Answer ctx o stdin id (err e, w) s =
      inr (refl, refl, inr (refl, (_, refl, λ q. absurd cc)))
  verified-Answer ctx o stdin id (ok i, w) s = elim (Bool-cases (text_eq i.runtime o.runtime)) [
    | inl q ↦ rw (q, verified) (attached_to-Answer ctx o stdin id _ _)
    | inr q ↦ rw (q, verified) (inr (refl, refl, inr (refl, (_, refl, λ q. absurd cc))))
  ]

  created_as-Answer :
      (ctx : Context) (o : Opts) (stdin : Option Text) (spec : Spec) (r : Fallible Text × W)
      (s : Session W)
      → Answer o (created_as engine ctx o stdin spec r s).0
  unfolding created_as attach_and_start
  created_as-Answer ctx o stdin spec (err e, w) s =
      inr (refl, refl, inr (refl, (_, refl, λ q. absurd cc)))
  created_as-Answer ctx o stdin spec (ok id, w) s = elim (Bool-cases (is_empty o.runtime)) [
    | inl q ↦ rw (q, created_as) (attached_to-Answer ctx o stdin id _ _)
    | inr q ↦ rw (q, created_as) (verified-Answer ctx o stdin id _ _)
  ]

  -- A run succeeds, and is then not marked as timed out, or it fails with the exit code 0 and no mark of
  -- the memory limit. It is marked as timed out exactly where it fails with the error of a timeout, which
  -- names the limit of the options.
  pub run-Answer :
      (ctx : Context) (o : Opts) (stdin : Option Text) (w : W)
      → Answer o (run engine ctx o stdin w).0
  unfolding run with_image
  run-Answer ctx o stdin w = connected-Answer (engine.connect w)
    where
      pulled-Answer : (d : Daemon) (i : Text × W) → Answer o (with_image engine ctx o stdin d i).0
      pulled-Answer d (notice, w1) = created_as-Answer ctx o stdin _ _ _

      connected-Answer : (c : Fallible Daemon × W) → Answer o (connected engine ctx o stdin c).0
      connected-Answer (err e, w) = inr (refl, refl, inr (refl, (_, refl, λ q. absurd cc)))
      connected-Answer (ok d, w) =
          pulled-Answer d (pulled engine ctx o (engine.image_inspect ctx o.image w))
