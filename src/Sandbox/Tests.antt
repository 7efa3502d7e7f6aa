-- ===== src/Sandbox/Tests.antt =====
-- A writer that collects its bytes: an input of the theorem on `syncWriter`.
use podman_sandbox_runner.Base.{◌≡◌, refl, none, List, [], ◌∷◌, ◌++◌, Text, bytes, length}
use podman_sandbox_runner.Sandbox.SyncWriter.{
  Written, Use, write, close, new_sync_writer, use_all, reaches, writes_before_close,
}

abbrev collect : Text → Text → Written × Text
collect p w = (record { n = length p; failure = none }, w ++ p)

-- A write, a close, and a write of a goroutine that is late.
abbrev late : List Use
late = write (bytes "a") ∷ close ∷ write (bytes "b") ∷ []

late_write_dropped : reaches collect late [] ≡ bytes "a"
late_write_dropped = refl

writes_before_close_example :
    (use_all collect late (new_sync_writer collect [])).w ≡ reaches collect late []
writes_before_close_example = writes_before_close collect late []
