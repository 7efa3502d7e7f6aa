-- ===== src/Docker/Profile.antt =====
-- pkg/sandbox/seccomp.go: `seccompProfileFile`, which writes the profile once in a process. `Files` is
-- what it uses of package os.
use podman_sandbox_runner.Base.{
  Bool, true, false, ◌≡◌, refl, inl, inr, Option, none, some, [], ◌∷◌, ◌++◌, Text, bytes, is_empty,
  if◌then◌else◌, Bool-cases,
}
use podman_sandbox_runner.Sandbox.{Error, Fallible, ok, err}

pub record Files (W : Type 0) : Type 0 where
  pub user_cache_dir : W → Fallible Text
  pub temp_dir : W → Text
  pub mkdir_all : Text → W → Option Error × W
  pub write_file : Text → Text → W → Option Error × W

-- The three variables of the package.
pub record ProfileFile : Type 0 where
  pub is_done : Bool
  pub path : Text
  pub failure : Option Error

abbrev pub unwritten : ProfileFile
unwritten = record { is_done = false; path = []; failure = none }

-- filepath.Join of a clean directory and one more name.
abbrev pub join : Text → Text → Text
join [] name = name
join (c ∷ dir) name = (c ∷ dir) ++ bytes "/" ++ name

abbrev pub or_temp : Text → Fallible Text → Text
or_temp temp (err e) = temp
or_temp temp (ok dir) = if is_empty dir then temp else dir

abbrev pub answer : ProfileFile → Text × Option Error
answer s = (s.path, s.failure)

module _ {W : Type 0} (files : Files W) where
  abbrev pub cache_dir : W → Text
  cache_dir w =
      join (or_temp (files.temp_dir w) (files.user_cache_dir w)) (bytes "podman-sandbox-runner")

  abbrev pub failed_once : Error → ProfileFile
  failed_once e = record { is_done = true; path = []; failure = some e }

  abbrev pub written_to : Text → Option Error × W → ProfileFile × W
  written_to p (some e, w) = (failed_once e, w)
  written_to p (none, w) = (record { is_done = true; path = p; failure = none }, w)

  abbrev pub made_dir : Text → Text → Option Error × W → ProfileFile × W
  made_dir json dir (some e, w) = (failed_once e, w)
  made_dir json dir (none, w) =
      written_to (join dir (bytes "seccomp.json"))
        (files.write_file (join dir (bytes "seccomp.json")) json w)

  -- The body of the `Do`.
  unfoldable pub materialize : Text → W → ProfileFile × W
  materialize json w = made_dir json (cache_dir w) (files.mkdir_all (cache_dir w) w)

  unfoldable pub seccomp_profile_file :
      Text → ProfileFile → W → (Text × Option Error) × ProfileFile × W
  seccomp_profile_file json s w =
      if s.is_done
      then (answer s, s, w)
      else (answer (materialize json w).0, (materialize json w).0, (materialize json w).1)

  made_dir_done : (json dir : Text) (a : Option Error × W) → (made_dir json dir a).0.is_done ≡ true
  made_dir_done json dir (some e, w) = refl
  made_dir_done json dir (none, w) =
      written_lem (files.write_file (join dir (bytes "seccomp.json")) json w)
    where
      written_lem :
          (b : Option Error × W) → (written_to (join dir (bytes "seccomp.json")) b).0.is_done ≡ true
      written_lem (some e, w1) = refl
      written_lem (none, w1) = refl

  -- However the first call ended, a later one gives the same answer and touches no file.
  pub seccomp_profile_file_once :
      (json : Text) (s : ProfileFile) (w w1 : W)
      → seccomp_profile_file json (seccomp_profile_file json s w).1 w1
        ≡ ((seccomp_profile_file json s w).0, (seccomp_profile_file json s w).1, w1)
  unfolding seccomp_profile_file materialize
  seccomp_profile_file_once json s w w1 = elim (Bool-cases s.is_done) [
    | inl d ↦ rw (d, seccomp_profile_file) refl
    | inr d ↦
        rw
          (
            d,
            made_dir_done json (cache_dir w) (files.mkdir_all (cache_dir w) w),
            seccomp_profile_file,
          )
          refl
  ]
