-- ===== src/Probe/Laws.antt =====
-- What `Probe` reports, against the answers that the daemon and the cluster give.
use podman_sandbox_runner.Base.{
  Bool, true, false, ◌≡◌, refl, sym, ◌∙◌, inl, inr, Option, none, some, List, [], ◌∷◌, Text,
  text_eq, if◌then◌else◌, Bool-cases, Option-cases,
}
use mathlib.Core.Path.{subst}
use podman_sandbox_runner.Sandbox.{Error, ok, err, Fallible-cases}
use podman_sandbox_runner.Pool.Ops.{Context}
use podman_sandbox_runner.K8s.Cluster.{kube_client}
use podman_sandbox_runner.Probe.{
  five, Prober, ProbeResult, unprobed, noted, pinged, probe_docker, check_runtimes, nodes_listed,
  probe_k8s, probe,
}

-- What was answered about one runtime class: nothing, that it is there, or an error.
abbrev pub Answer : Type 0
Answer = Option (Option Error)

-- The later of two answers.
abbrev pub latest : Answer → Answer → Answer
latest (some x) a = some x
latest none a = a

latest_assoc : (x y z : Answer) → latest (latest x y) z ≡ latest x (latest y z)
latest_assoc none y z = refl
latest_assoc (some x) y z = refl

-- What a report says of the two backends.
abbrev backends : ProbeResult → Bool × Text × Bool × Text
backends r = (r.docker_ok, r.docker_err, r.k8s_ok, r.k8s_err)

module _ {W : Type 0} (prober : Prober W) where
  -- A backend that answers without an error is reachable; of any other the error is told.
  abbrev pub Tells : Option Error → Bool → Text → Type 0
  Tells none up why = (up ≡ true) × (why ≡ [])
  Tells (some e) up why = (up ≡ false) × (why ≡ prober.message e)

  -- The entries for a runtime that an answer calls for. A name that is asked for twice keeps the
  -- message of an earlier error.
  abbrev pub Entered : Answer → Option Bool → Option Text → Type 0
  Entered none there why = (there ≡ none) × (why ≡ none)
  Entered (some none) there why = there ≡ some true
  Entered (some (some e)) there why = (there ≡ some false) × (why ≡ some (prober.message e))

  -- The error on the way to the Docker daemon, or what the ping says.
  abbrev pub docker_answer : Context → W → Option Error
  docker_answer ctx w = elim (prober.docker_client w) [
    | some e ↦ some e
    | none ↦ (prober.ping (five prober ctx w) w).0
  ]

  abbrev pub behind_docker : Context → W → W
  behind_docker ctx w = elim (prober.docker_client w) [
    | some e ↦ w
    | none ↦ (prober.ping (five prober ctx w) w).1
  ]

  -- The error on the way to the cluster, or what the listing of its nodes says.
  abbrev pub cluster_answer : Context → W → Option Error
  cluster_answer ctx w = elim (kube_client (prober.kube w)) [
    | err e ↦ some e
    | ok _ ↦ (prober.list_nodes (five prober ctx w) w).0
  ]

  -- The last answer for `n`, where each of the names is asked for in turn.
  abbrev pub last_answer : Context → List Text → W → Text → Answer
  last_answer ctx [] w n = none
  last_answer ctx (m ∷ ms) w n =
      latest (last_answer ctx ms (prober.get_runtime_class (five prober ctx w) m w).1 n)
        (if text_eq n m then some (prober.get_runtime_class (five prober ctx w) m w).0 else none)

  -- A cluster is only asked for runtimes where it has listed its nodes.
  abbrev pub runtime_answer : Context → List Text → W → Text → Answer
  runtime_answer ctx names w n = elim (kube_client (prober.kube w)) [
    | err e ↦ none
    | ok _ ↦ elim (prober.list_nodes (five prober ctx w) w).0 [
      | some e ↦ none
      | none ↦ last_answer ctx names (prober.list_nodes (five prober ctx w) w).1 n
    ]
  ]

  noted-Entered :
      (name : Text) (a : Option Error) (r : ProbeResult) (n : Text) (b : Answer)
      → Entered b (r.runtimes n) (r.runtime_errs n)
      → Entered
          (latest (if text_eq n name then some a else none) b)
          ((noted prober name a r).runtimes n)
          ((noted prober name a r).runtime_errs n)
  noted-Entered name none r n b x = elim (Bool-cases (text_eq n name)) [
    | inl e ↦ rw e refl
    | inr e ↦ rw e x
  ]
  noted-Entered name (some f) r n b x = elim (Bool-cases (text_eq n name)) [
    | inl e ↦ rw e (refl, refl)
    | inr e ↦ rw e x
  ]

  backends-noted :
      (name : Text) (a : Option Error) (r : ProbeResult)
      → backends (noted prober name a r) ≡ backends r
  backends-noted name none r = refl
  backends-noted name (some e) r = refl

  check_runtimes_lem :
      (ctx : Context) (names : List Text) (r : ProbeResult) (w : W) (n : Text) (b : Answer)
      → Entered b (r.runtimes n) (r.runtime_errs n)
      → Entered
          (latest (last_answer ctx names w n) b)
          ((check_runtimes prober ctx names r w).0.runtimes n)
          ((check_runtimes prober ctx names r w).0.runtime_errs n)
        × (backends (check_runtimes prober ctx names r w).0 ≡ backends r)
  unfolding check_runtimes
  check_runtimes_lem ctx [] r w n b x = (x, refl)
  check_runtimes_lem ctx (name ∷ names) r w n b x =
      let (entered, same) =
        check_runtimes_lem ctx names (noted prober name a r) w1 n (latest here b)
          (noted-Entered name a r n b x) in
      (
        subst
            (λ c.
              Entered c ((check_runtimes prober ctx names (noted prober name a r) w1).0.runtimes n)
                ((check_runtimes prober ctx names (noted prober name a r) w1).0.runtime_errs n))
            (sym (latest_assoc (last_answer ctx names w1 n) here b)) entered,
        same ∙ backends-noted name a r,
      )
    where
      a : Option Error
      a = (prober.get_runtime_class (five prober ctx w) name w).0

      w1 : W
      w1 = (prober.get_runtime_class (five prober ctx w) name w).1

      here : Answer
      here = if text_eq n name then some a else none

  -- A report behind the check of Docker, whose answer was `a`.
  abbrev Docked : Option Error → ProbeResult → Type 0
  Docked a r =
      Tells a r.docker_ok r.docker_err
      × (r.k8s_ok ≡ false)
      × (r.k8s_err ≡ [])
      × ((n : Text) → (r.runtimes n ≡ none) × (r.runtime_errs n ≡ none))

  pinged_lem : (a : Option Error × W) → Docked a.0 (pinged prober unprobed a).0
  pinged_lem (some e, w1) = ((refl, refl), refl, refl, λ n. (refl, refl))
  pinged_lem (none, w1) = ((refl, refl), refl, refl, λ n. (refl, refl))

  pinged_world : (r : ProbeResult) (a : Option Error × W) → (pinged prober r a).1 ≡ a.1
  pinged_world r (some e, w1) = refl
  pinged_world r (none, w1) = refl

  probe_docker_lem :
      (ctx : Context) (w : W)
      → Docked (docker_answer ctx w) (probe_docker prober ctx unprobed w).0
        × ((probe_docker prober ctx unprobed w).1 ≡ behind_docker ctx w)
  unfolding probe_docker
  probe_docker_lem ctx w = elim (Option-cases (prober.docker_client w)) [
    | inl q ↦
        rw (q, probe_docker, docker_answer, behind_docker)
          (
            pinged_lem (prober.ping (five prober ctx w) w),
            pinged_world unprobed (prober.ping (five prober ctx w) w),
          )
    | inr (e, q) ↦
        rw (q, probe_docker, docker_answer, behind_docker)
          (((refl, refl), refl, refl, λ n. (refl, refl)), refl)
  ]

  -- What a report says of Docker, of the cluster and of one runtime.
  abbrev pub Reported : Option Error → Option Error → Answer → ProbeResult → Text → Type 0
  Reported docker cluster runtime r name =
      Tells docker r.docker_ok r.docker_err
      × Tells cluster r.k8s_ok r.k8s_err
      × Entered runtime (r.runtimes name) (r.runtime_errs name)

  listed_lem :
      (ctx : Context) (names : List Text) (r : ProbeResult) (d : Option Error)
      (a : Option Error × W) (name : Text)
      → Docked d r
      → Reported d a.0
          (elim a.0 [ some e ↦ none | none ↦ last_answer ctx names a.1 name ])
          (nodes_listed prober ctx names r a).0
          name
  listed_lem ctx names r d (some e, w1) name (docker, down, silent, empty) =
      (docker, (down, refl), empty name)
  listed_lem ctx names r d (none, w1) name (docker, down, silent, empty) =
      let (entered, same) =
        check_runtimes_lem ctx names (record r { k8s_ok = true }) w1 name none (empty name) in
      (
        subst (λ b. Tells d b.0 b.1) (sym same) docker,
        subst (λ b. Tells none b.2 b.3) (sym same) (refl, silent),
        subst
            (λ c.
              Entered c
                ((check_runtimes prober ctx names (record r { k8s_ok = true }) w1).0.runtimes name)
                ((check_runtimes prober ctx names (record r { k8s_ok = true }) w1).0.runtime_errs
                  name))
            (latest_none (last_answer ctx names w1 name)) entered,
      )
    where
      latest_none : (x : Answer) → latest x none ≡ x
      latest_none none = refl
      latest_none (some x) = refl

  probe_k8s_lem :
      (ctx : Context) (names : List Text) (r : ProbeResult) (d : Option Error) (w : W) (name : Text)
      → Docked d r
      → Reported d
          (cluster_answer ctx w)
          (runtime_answer ctx names w name)
          (probe_k8s prober ctx names (r, w)).0
          name
  unfolding probe_k8s
  probe_k8s_lem ctx names r d w name docked = elim (Fallible-cases (kube_client (prober.kube w))) [
    | inr (e, q) ↦
        rw (q, probe_k8s, cluster_answer, runtime_answer)
          (docked.0, (docked.1, refl), docked.3 name)
    | inl (c, q) ↦
        rw (q, probe_k8s, cluster_answer, runtime_answer)
          (listed_lem ctx names r d (prober.list_nodes (five prober ctx w) w) name docked)
  ]

  -- `Probe` reports Docker as reachable, without an error, exactly where the client is made and the
  -- ping is answered without an error, and else with the message of that error; it reports the
  -- cluster, which is asked behind that, by the same measure of the client and the listing of its
  -- nodes. A runtime is reported as there where the last answer to a request for it is without an
  -- error, and as missing with the message of the error where it is not; it has no entry where it was
  -- not asked for or the cluster is not reachable.
  pub probe-Reported :
      (ctx : Context) (names : List Text) (w : W) (name : Text)
      → Reported
          (docker_answer ctx w)
          (cluster_answer ctx (behind_docker ctx w))
          (runtime_answer ctx names (behind_docker ctx w) name)
          (probe prober ctx names w).0
          name
  unfolding probe
  probe-Reported ctx names w name =
      let (docked, world) = probe_docker_lem ctx w in
      subst
        (λ v.
          Reported (docker_answer ctx w) (cluster_answer ctx v) (runtime_answer ctx names v name)
            (probe prober ctx names w).0 name)
        world
        (probe_k8s_lem ctx names (probe_docker prober ctx unprobed w).0 (docker_answer ctx w)
          (probe_docker prober ctx unprobed w).1 name docked)
