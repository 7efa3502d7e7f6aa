-- ===== src/Cli/Flags.antt =====
-- cmd/sandbox/opts.go: `buildOpts` and what it makes of -v and -env.
pub mod Binds
use podman_sandbox_runner.Base.{
  ℕ, zero, suc, ℤ, pos, Bool, true, false, ◌&&◌, Option, none, some, List, [], ◌∷◌, ◌++◌, Text,
  bytes, cut, has_prefix, if◌then◌else◌,
}
use podman_sandbox_runner.Sandbox.{Error, errorf, Fallible, ok, err, ◌>>=◌, Opts}

-- The values of the flags, behind `fs.Parse`.
pub record SandboxFlags : Type 0 where
  pub image : Text
  pub timeout : ℤ
  pub netwait : ℤ
  pub mem : ℤ
  pub nano_cpus : ℤ
  pub user : Text
  pub backend : Text
  pub runtime : Text
  pub vols : List Text
  pub envs : List Text

-- The defaults that `registerSandboxFlags` declares.
abbrev pub default_flags : SandboxFlags
default_flags = record {
  image = bytes "docker.io/library/alpine:latest";
  timeout = pos 30000000000;
  netwait = pos 0;
  mem = pos 256;
  nano_cpus = pos 1000000000;
  user = bytes "65534:65534";
  backend = bytes "auto";
  runtime = [];
  vols = [];
  envs = [];
}

-- strings.SplitN, at one byte and into at most `n` parts.
unfoldable pub split_n : Text → ℕ → ℕ → List Text
split_n s d zero = []
split_n s d (suc zero) = s ∷ []
split_n s d (suc (suc n)) = elim (cut s d).1 [
  | none ↦ (cut s d).0 ∷ []
  | some rest ↦ (cut s d).0 ∷ split_n rest d (suc n)
]

abbrev pub bad_volume : Text → Error
bad_volume v = errorf "bad -v %q: want /abs/host/path:/abs/container/path" (v ∷ []) []

abbrev pub bad_env : Text → Error
bad_env e = errorf "bad -env %q: want KEY=VAL" (e ∷ []) []

-- One turn of the loop over -v, on the parts of the flag.
unfoldable pub bind_of : Text → List Text → Fallible Text
bind_of v [] = err (bad_volume v)
bind_of v (host ∷ []) = err (bad_volume v)
bind_of v (host ∷ container ∷ _) =
    if has_prefix host (bytes "/") && has_prefix container (bytes "/")
    then ok (host ++ bytes ":" ++ container ++ bytes ":ro")
    else err (bad_volume v)

unfoldable pub binds_of : List Text → Fallible (List Text)
binds_of [] = ok []
binds_of (v ∷ vs) = do b ← bind_of v (split_n v b':' 3); bs ← binds_of vs; ok (b ∷ bs)

-- The loop over -env: the first entry with no '='.
unfoldable pub bad_entry : List Text → Option Text
bad_entry [] = none
bad_entry (e ∷ es) = elim (cut e b'=').1 [ none ↦ some e | some value ↦ bad_entry es ]

unfoldable pub build_opts : SandboxFlags → List Text → Bool → Fallible Opts
build_opts sf cmd with_stdin = do
  binds ← binds_of sf.vols
  elim (bad_entry sf.envs) [
    | some e ↦ err (bad_env e)
    | none ↦ ok (record {
      image = sf.image;
      cmd = cmd;
      timeout = sf.timeout;
      net_wait = sf.netwait;
      mem_mb = sf.mem;
      nano_cpus = sf.nano_cpus;
      user = sf.user;
      runtime = sf.runtime;
      binds = binds;
      env = sf.envs;
      with_stdin = with_stdin;
      backend = sf.backend;
    })
  ]
