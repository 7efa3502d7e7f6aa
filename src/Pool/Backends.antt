-- ===== src/Pool/Backends.antt =====
-- pkg/sandbox/pool.go: the function `newImpl` of `NewPool`, which is the `new_impl` of `PoolImpl`.
-- `docker` and `k8s` stand for newDockerPool and newK8sPool.
use podman_sandbox_runner.Base.{
  String, Bool-cases, ◌≡◌, refl, ◌⊎◌, inl, inr, [], ◌∷◌, if◌then◌else◌,
}
use podman_sandbox_runner.Sandbox.{
  Error, errorf, Fallible, ok, err, Opts, is_docker, is_k8s, docker_backend, k8s_backend, new,
}

abbrev unknown : String → Opts → Error
unknown format o = errorf format (o.backend ∷ []) []

module _ {I W : Type 0} (docker k8s : Opts → W → Fallible I × W) where
  unfoldable pub new_impl : Opts → W → Fallible I × W
  new_impl o w =
      if is_docker o.backend
      then docker o w
      else if is_k8s o.backend
      then k8s o w
      else (err (unknown "pool: unknown backend %q" o), w)

  -- A pool makes its holders with the backend that a one-shot `Run` under the same options uses, and
  -- it fails, without a call of either, exactly on the options for which `New` has no backend.
  pub new_impl_cases :
      (o : Opts) (w : W)
      → ((new o ≡ ok docker_backend) × (new_impl o w ≡ docker o w))
        ⊎ (((new o ≡ ok k8s_backend) × (new_impl o w ≡ k8s o w))
            ⊎ ((e : Error) × (e' : Error) × (new o ≡ err e) × (new_impl o w ≡ (err e', w))))
  unfolding new_impl new
  new_impl_cases o w = elim (Bool-cases (is_docker o.backend)) [
    | inl d ↦ inl (rw (d, new) refl, rw (d, new_impl) refl)
    | inr d ↦ elim (Bool-cases (is_k8s o.backend)) [
      | inl k ↦ inr (inl (rw (d, k, new) refl, rw (d, k, new_impl) refl))
      | inr k ↦ inr (
          inr (
            unknown "unknown backend %q" o,
            unknown "pool: unknown backend %q" o,
            rw (d, k, new) refl,
            rw (d, k, new_impl) refl,
          ))
    ]
  ]
