-- ===== src/Docker/Seccomp.antt =====
-- pkg/sandbox/seccomp.go: which daemon is at the other end, and the security options for it.
use podman_sandbox_runner.Base.{
  Bool, true, false, ◌≡◌, refl, ◌⊎◌, inl, inr, List, [], ◌∷◌, ◌++◌, Text, bytes, contains, to_lower,
  is_empty, if◌then◌else◌, Bool-cases,
}
use podman_sandbox_runner.Sandbox.{Error, Fallible, ok, err, Fallible-cases}

-- What the daemon says of itself: client.ServerVersionResult.
pub record ServerVersion : Type 0 where
  pub version : Text
  pub platform : Text
  pub components : List Text

-- The connected daemon: its address, its answer to a version request, the embedded profile and
-- the file that holds it, where one could be written.
pub record Daemon : Type 0 where
  pub host : Text
  pub server_version : Fallible ServerVersion
  pub profile_json : Text
  pub profile_file : Fallible Text

-- `strings.Contains(strings.ToLower(s), "podman")`
unfoldable pub names_podman : Text → Bool
names_podman s = contains (to_lower s) (bytes "podman")

unfoldable pub any_podman : List Text → Bool
any_podman [] = false
any_podman (c ∷ cs) = if names_podman c then true else any_podman cs

unfoldable pub server_is_podman : Fallible ServerVersion → Bool
server_is_podman (err e) = false
server_is_podman (ok v) =
    if names_podman v.version
    then true
    else if names_podman v.platform
    then true
    else any_podman v.components

unfoldable pub daemon_is_podman : Daemon → Bool
daemon_is_podman d = if names_podman d.host then true else server_is_podman d.server_version

abbrev pub no_new_privileges : Text
no_new_privileges = bytes "no-new-privileges"

abbrev pub seccomp_opt : Text → Text
seccomp_opt s = bytes "seccomp=" ++ s

unfoldable pub security_opts : Daemon → List Text
security_opts d =
    if daemon_is_podman d
    then elim d.profile_file [
      | err e ↦ no_new_privileges ∷ []
      | ok p ↦ if is_empty p then no_new_privileges ∷ [] else no_new_privileges ∷ seccomp_opt p ∷ []
    ]
    else no_new_privileges ∷ seccomp_opt d.profile_json ∷ []

-- Every daemon is told not to grant new privileges. A daemon that is not known as podman gets the
-- profile itself. One that is gets the path of the file that holds it, or, only where that file
-- could not be written or has an empty path, no profile.
pub security_opts_cases :
    (d : Daemon)
    → ((daemon_is_podman d ≡ false)
        × (security_opts d ≡ no_new_privileges ∷ seccomp_opt d.profile_json ∷ []))
      ⊎ (((p : Text) × (daemon_is_podman d ≡ true)
            × (d.profile_file ≡ ok p)
            × (is_empty p ≡ false)
            × (security_opts d ≡ no_new_privileges ∷ seccomp_opt p ∷ []))
          ⊎ ((daemon_is_podman d ≡ true)
              × (((e : Error) × (d.profile_file ≡ err e)) ⊎ (d.profile_file ≡ ok []))
              × (security_opts d ≡ no_new_privileges ∷ [])))
unfolding security_opts
security_opts_cases d = elim (Bool-cases (daemon_is_podman d)) [
  | inr q ↦ inl (q, rw (q, security_opts) refl)
  | inl q ↦ elim (Fallible-cases d.profile_file) [
    | inr (e, f) ↦ inr (inr (q, inl (e, f), rw (q, f, security_opts) refl))
    | inl ([], f) ↦ inr (inr (q, inr f, rw (q, f, security_opts) refl))
    | inl (c ∷ p, f) ↦ inr (inl (c ∷ p, q, f, refl, rw (q, f, security_opts) refl))
  ]
]
