-- ===== src/Docker/Backend.antt =====
-- pkg/sandbox/dockerapi.go: `dockerBackend.Run`. The calls that reach the daemon are kept in order,
-- with what it answered where a guard of the code depends on that.
use podman_sandbox_runner.Base.{
  ℕ, ℤ, pos, negsuc, suc, ltb, ◌-◌, ◌*◌, ◌%◌, ◌^◌, sub_ℕ, Bool, true, false, Option, none, some,
  List, [], ◌∷◌, ◌++◌, Text, bytes, text_eq, is_empty, if◌then◌else◌,
}
use podman_sandbox_runner.Sandbox.{
  Error, errorf, wrapf, Fallible, ok, err, Opts, Result, no_result, Ran, failed,
}
use podman_sandbox_runner.Pool.Ops.{Context}
use podman_sandbox_runner.Daemon.Server.{with_timeout, background}
use podman_sandbox_runner.Docker.Seccomp.{Daemon, security_opts}

-- The number of an int64 with these 64 bits.
unfoldable pub signed : ℕ → ℤ
signed bits = if ltb bits (2 ^ 63) then pos bits else negsuc (2 ^ 64 - 1 - bits)

-- `mb * 1024 * 1024` in an int64.
unfoldable pub mebibytes : ℤ → ℤ
mebibytes (pos n) = signed (n * 1048576 % 2 ^ 64)
mebibytes (negsuc n) = signed ((2 ^ 64 - suc n * 1048576 % 2 ^ 64) % 2 ^ 64)

-- container.Config and container.HostConfig.
pub record Spec : Type 0 where
  pub image : Text
  pub cmd : List Text
  pub env : List Text
  pub user : Text
  pub working_dir : Text
  pub attach_stdin : Bool
  pub open_stdin : Bool
  pub stdin_once : Bool
  pub runtime : Text
  pub init : Bool
  pub network_mode : Text
  pub auto_remove : Bool
  pub readonly_rootfs : Bool
  pub cap_drop : List Text
  pub security_opt : List Text
  pub binds : List Text
  pub tmpfs : List (Text × Text)
  pub memory : ℤ
  pub nano_cpus : ℤ
  pub pids_limit : ℤ

-- What the code learns of a container.
pub record Inspected : Type 0 where
  pub runtime : Text
  pub oom_killed : Option Bool

-- How the wait ends: with the exit code, or with an error that comes with `runCtx.Err() != nil`.
pub data Wait : Type 0 where
  exited : ℤ → Wait
  wait_failed : Error → Bool → Wait

pub record Engine (W : Type 0) : Type 0 where
  pub connect : W → Fallible Daemon × W
  pub image_inspect : Context → Text → W → Option Error × W
  pub image_pull : Context → Text → W → W
  pub create : Context → Spec → W → Fallible Text × W
  pub inspect : Context → Text → W → Fallible Inspected × W
  pub attach : Context → Text → Bool → W → Option Error × W
  pub start : Context → Text → Option Text → W → Option Error × W
  pub wait : Context → Text → W → Wait × W
  pub remove : Text → W → W
  pub now : W → ℤ
  pub now_ms : W → ℕ
  pub copied : Text → W → Text × Text

pub data Call : Type 0 where
  created : Text → Spec → Call
  runtime_seen : Text → Call
  attached started waited removed : Text → Call
  client_closed : Call

pub record Session (W : Type 0) : Type 0 where
  pub world : W
  pub log : List Call

unfoldable pub spec_of : Opts → List Text → Spec
spec_of o sec = record {
  image = o.image;
  cmd = o.cmd;
  env = o.env;
  user = o.user;
  working_dir = bytes "/work";
  attach_stdin = o.with_stdin;
  open_stdin = o.with_stdin;
  stdin_once = o.with_stdin;
  runtime = o.runtime;
  init = false;
  network_mode = bytes "none";
  auto_remove = false;
  readonly_rootfs = true;
  cap_drop = bytes "ALL" ∷ [];
  security_opt = sec;
  binds = o.binds;
  tmpfs =
      (bytes "/work", bytes "rw,size=64m,mode=1777")
      ∷ (bytes "/tmp", bytes "rw,size=16m,mode=1777")
      ∷ [];
  memory = mebibytes o.mem_mb;
  nano_cpus = o.nano_cpus;
  pids_limit = pos 128;
}

abbrev pub note : {W : Type 0} → Call → Session W → Session W
note c s = record s { log = s.log ++ c ∷ [] }

module _ {W : Type 0} (engine : Engine W) where
  -- The result so far, with what the copying goroutine wrote to the two writers.
  unfoldable pub finish : Text → Result → Option Error → Session W → Ran × Session W
  finish id res failure s =
      let (out, err_out) = engine.copied id s.world in
      (record { result = res; failure = failure; out = out; err_out = err_out }, s)

  abbrev pub oom_of : Fallible Inspected → Bool
  oom_of (err e) = false
  oom_of (ok i) = elim i.oom_killed [ none ↦ false | some b ↦ b ]

  unfoldable pub inspected_last :
      Text → Result → Fallible Inspected × W → Session W → Ran × Session W
  inspected_last id res (i, w) s =
      finish id (record res { oom_killed = oom_of i }) none (record s { world = w })

  unfoldable pub waited_for : Opts → Text → ℕ → Wait × W → Session W → Ran × Session W
  waited_for o id began (exited code, w) s =
      inspected_last id
        (record no_result { exit_code = code; duration_ms = sub_ℕ (engine.now_ms w) began })
        (engine.inspect background id w) (record s { world = w })
  waited_for o id began (wait_failed e true, w) s =
      finish id (record no_result { timed_out = true; duration_ms = sub_ℕ (engine.now_ms w) began })
        (some (errorf "timed out after %s (container killed)" [] (o.timeout ∷ [])))
        (record s { world = w })
  waited_for o id began (wait_failed e false, w) s =
      finish id no_result (some (wrapf "wait: %w" [] [] e)) (record s { world = w })

  unfoldable pub started_on :
      Context → Opts → Text → ℕ → Option Error × W → Session W → Ran × Session W
  started_on ctx o id began (some e, w) s =
      finish id no_result (some (wrapf "start: %w" [] [] e)) (record s { world = w })
  started_on ctx o id began (none, w) s =
      waited_for o id began (engine.wait (with_timeout ctx (engine.now w) o.timeout) id w)
        (note (waited id) (record s { world = w }))

  -- What the pump has to send: the input, where both the option and the reader are there.
  abbrev pub input_of : Opts → Option Text → Option Text
  input_of o stdin = if o.with_stdin then stdin else none

  unfoldable pub attached_to :
      Context → Opts → Option Text → Text → Option Error × W → Session W → Ran × Session W
  attached_to ctx o stdin id (some e, w) s =
      (failed (wrapf "attach: %w" [] [] e), record s { world = w })
  attached_to ctx o stdin id (none, w) s =
      started_on ctx o id (engine.now_ms w) (engine.start ctx id (input_of o stdin) w)
        (note (started id) (record s { world = w }))

  unfoldable pub attach_and_start :
      Context → Opts → Option Text → Text → Session W → Ran × Session W
  attach_and_start ctx o stdin id s =
      attached_to ctx o stdin id (engine.attach ctx id o.with_stdin s.world) (note (attached id) s)

  -- The check that the daemon honoured the runtime.
  unfoldable pub verified :
      Context → Opts → Option Text → Text → Fallible Inspected × W → Session W → Ran × Session W
  verified ctx o stdin id (err e, w) s =
      (failed (wrapf "verifying runtime: %w" [] [] e), record s { world = w })
  verified ctx o stdin id (ok i, w) s =
      if text_eq i.runtime o.runtime
      then attach_and_start ctx o stdin id (note (runtime_seen i.runtime) (record s { world = w }))
      else (
        failed (
            errorf
              "requested runtime %q but daemon assigned %q (podman's compat API ignores HostConfig.Runtime; configure the runtime daemon-side or use a Docker daemon)"
              (o.runtime ∷ i.runtime ∷ []) []),
        note (runtime_seen i.runtime) (record s { world = w }),
      )

  -- The deferred removal of the container.
  abbrev pub removing : Text → Ran × Session W → Ran × Session W
  removing id (r, s) = (r, note (removed id) (record s { world = engine.remove id s.world }))

  unfoldable pub created_as :
      Context → Opts → Option Text → Spec → Fallible Text × W → Session W → Ran × Session W
  created_as ctx o stdin spec (err e, w) s =
      (failed (wrapf "create: %w" [] [] e), record s { world = w })
  created_as ctx o stdin spec (ok id, w) s = removing id (
      if is_empty o.runtime
      then attach_and_start ctx o stdin id (note (created id spec) (record s { world = w }))
      else verified ctx o stdin id (engine.inspect ctx id w)
          (note (created id spec) (record s { world = w })))

  -- The notice on stderr, and the pull, whose errors the code ignores.
  abbrev pub pulled : Context → Opts → Option Error × W → Text × W
  pulled ctx o (none, w) = ([], w)
  pulled ctx o (some e, w) =
      (bytes "pulling " ++ o.image ++ bytes "...\n", engine.image_pull ctx o.image w)

  -- What `Run` wrote to stderr before, and the deferred closing of the client.
  abbrev pub closing : Text → Ran × Session W → Ran × Session W
  closing notice (r, s) = (record r { err_out = notice ++ r.err_out }, note client_closed s)

  unfoldable pub with_image : Context → Opts → Option Text → Daemon → Text × W → Ran × Session W
  with_image ctx o stdin d (notice, w) = closing notice (
      created_as ctx o stdin (spec_of o (security_opts d))
        (engine.create ctx (spec_of o (security_opts d)) w) (record { world = w; log = [] }))

  abbrev pub connected : Context → Opts → Option Text → Fallible Daemon × W → Ran × Session W
  connected ctx o stdin (err e, w) =
      (failed (wrapf "connecting to socket: %w" [] [] e), record { world = w; log = [] })
  connected ctx o stdin (ok d, w) =
      with_image ctx o stdin d (pulled ctx o (engine.image_inspect ctx o.image w))

  unfoldable pub run : Context → Opts → Option Text → W → Ran × Session W
  run ctx o stdin w = connected ctx o stdin (engine.connect w)
