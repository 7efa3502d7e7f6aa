-- ===== src/Cli/Bench/Shown.antt =====
-- What of the cells of `sandbox bench` its dashboard shows.
use podman_sandbox_runner.Base.{
  ℤ, pos, Bool, true, false, ◌&&◌, ◌≡◌, refl, ap, ◌∙◌, some, List, [], ◌∷◌, Text, bytes, text_eq,
  if◌then◌else◌,
}
use podman_sandbox_runner.Probe.{ProbeResult}
use podman_sandbox_runner.Cli.Bench.{Cell, is_shown, max_dur, find_cell}
use podman_sandbox_runner.Cli.Bench.Dashboard.{Painter, render_dashboard}

-- The cells that have a duration.
unfoldable pub shown : List Cell → List Cell
shown [] = []
shown (c ∷ cells) = let rest = shown cells in if is_shown c then c ∷ rest else rest

and_false : (a b c d : Bool) → d ≡ false → a && b && c && d ≡ false
and_false true true true d e = e
and_false true true false d e = refl
and_false true false c d e = refl
and_false false b c d e = refl

find_kept :
    (backend runtime mode : Text) (c : Cell) (rest : List Cell) (s : Bool)
    → is_shown c ≡ s
    → find_cell backend runtime mode (if s then c ∷ rest else rest)
      ≡ find_cell backend runtime mode (c ∷ rest)
unfolding find_cell
find_kept backend runtime mode c rest true e = refl
find_kept backend runtime mode c rest false e =
    rw
      (and_false (text_eq c.backend backend) (text_eq c.runtime runtime) (text_eq c.mode mode)
        (is_shown c) e)
      refl

find_cell-shown :
    (backend runtime mode : Text) (cells : List Cell)
    → find_cell backend runtime mode (shown cells) ≡ find_cell backend runtime mode cells
unfolding find_cell shown
find_cell-shown backend runtime mode [] = refl
find_cell-shown backend runtime mode (c ∷ cells) =
    find_kept backend runtime mode c (shown cells) (is_shown c) refl
    ∙ ap
        (λ r.
          if text_eq c.backend backend
            && text_eq c.runtime runtime
            && text_eq c.mode mode
            && is_shown c
          then some c.dur
          else r)
        (find_cell-shown backend runtime mode cells)

max_kept :
    (c : Cell) (rest : List Cell) (m : ℤ) (s : Bool)
    → is_shown c ≡ s
    → max_dur (if s then c ∷ rest else rest) m ≡ max_dur (c ∷ rest) m
unfolding max_dur
max_kept c rest m true e = refl
max_kept c rest m false e = rw e refl

max_dur-shown : (cells : List Cell) (m : ℤ) → max_dur (shown cells) m ≡ max_dur cells m
unfolding max_dur shown
max_dur-shown [] m = refl
max_dur-shown (c ∷ cells) m = max_kept c (shown cells) m (is_shown c) refl ∙ max_dur-shown cells _

-- The dashboard is drawn from the cells that have a duration: why a backend or a runtime was not
-- measured, and with what error a measurement ended, is nowhere in it.
pub render_dashboard-shown :
    (paint : Painter) (probe : ProbeResult) (runtimes : List Text) (n : ℤ) (cells : List Cell)
    → render_dashboard paint probe runtimes n cells (max_dur cells (pos 0))
      ≡ render_dashboard paint probe runtimes n (shown cells) (max_dur (shown cells) (pos 0))
unfolding render_dashboard
render_dashboard-shown paint probe runtimes n cells =
    rw
      (
        max_dur-shown cells (pos 0),
        find_cell-shown (bytes "docker") (bytes "default") (bytes "cold") cells,
        find_cell-shown (bytes "docker") (bytes "default") (bytes "warm") cells,
        find_cell-shown (bytes "k8s") (bytes "runc") (bytes "cold") cells,
        find_cell-shown (bytes "k8s") (bytes "runc") (bytes "warm") cells,
        find_cell-shown (bytes "k8s") (bytes "gvisor") (bytes "cold") cells,
        find_cell-shown (bytes "k8s") (bytes "kata") (bytes "cold") cells,
      )
      refl
