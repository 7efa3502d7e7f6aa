-- ===== src/Cli/Bench/Dashboard.antt =====
-- The dashboard of `sandbox bench`, as text. `Painter` is what the code uses of lipgloss and of the
-- formatting of floating-point numbers.
use podman_sandbox_runner.Base.{
  ℕ, zero, suc, ℤ, pos, pos_part, leb_ℤ, quot, ◌-ℤ◌, Bool, ◌&&◌, Option, none, some, List, [], ◌∷◌,
  ◌++◌, Text, bytes, trim_right, length, sub_ℕ, if◌then◌else◌,
}
use podman_sandbox_runner.Probe.{ProbeResult}
use podman_sandbox_runner.Cli.Bench.{
  Bencher, Cell, find_cell, bar_fill, max_dur, has_runtime, iterations, runtime_names, probed,
}

pub data Color : Type 0 where
  green yellow red grey track : Color

-- `scaled d max width` is `int(float64(d) / float64(max) * float64(width))`, `is_within d max n` is
-- `float64(d) / float64(max) <= n/100`, `seconds d` is what `%.2f` writes of `d.Seconds()`, `ratio` what
-- `%.1f` writes of the quotient, and `sprint` what `%d` writes. `boxed` is the style of the frame.
pub record Painter : Type 0 where
  pub title : Text → Text
  pub dim : Text → Text
  pub num : Text → Text
  pub label : Text → Text
  pub colored : Color → Text → Text
  pub boxed : Text → Text
  pub scaled : ℤ → ℤ → ℤ → ℤ
  pub is_within : ℤ → ℤ → ℕ → Bool
  pub seconds : ℤ → Text
  pub ratio : ℤ → ℤ → Text
  pub sprint : ℤ → Text

-- "█", "░", "●" and "·" in UTF-8, and "×".
abbrev full_block : Text
full_block = 226 ∷ 150 ∷ 136 ∷ []

abbrev light_block : Text
light_block = 226 ∷ 150 ∷ 145 ∷ []

abbrev bullet : Text
bullet = 226 ∷ 151 ∷ 143 ∷ []

abbrev middle_dot : Text
middle_dot = 194 ∷ 183 ∷ []

abbrev times_sign : Text
times_sign = 195 ∷ 151 ∷ []

abbrev line_end : Text
line_end = bytes "\n"

abbrev pub concat : List Text → Text
concat [] = []
concat (t ∷ ts) = t ++ concat ts

-- strings.Join
abbrev pub join : Text → List Text → Text
join sep [] = []
join sep (t ∷ []) = t
join sep (t ∷ u ∷ ts) = t ++ (sep ++ join sep (u ∷ ts))

-- strings.Repeat, of a count that is not negative.
abbrev pub repeated : ℕ → Text → Text
repeated zero t = []
repeated (suc n) t = t ++ repeated n t

-- `%-7s`
abbrev pub padded : ℕ → Text → Text
padded width t = t ++ repeated (pos_part (sub_ℕ width (length t))) (bytes " ")

module _ (paint : Painter) where
  abbrev is_zero : ℤ → Bool
  is_zero d = leb_ℤ d (pos 0) && leb_ℤ (pos 0) d

  unfoldable pub bar_color : ℤ → ℤ → Color
  bar_color d most =
      if is_zero most
      then grey
      else if paint.is_within d most 34
      then green
      else if paint.is_within d most 67
      then yellow
      else red

  unfoldable pub solid_bar : ℤ → ℤ → ℤ → Text
  solid_bar d most width =
      let f = bar_fill paint.scaled d most width in
      paint.colored (bar_color d most) (repeated (pos_part f) full_block)
      ++ paint.colored track (repeated (pos_part (width -ℤ f)) light_block)

  unfoldable pub speedup : ℤ → ℤ → Text
  speedup cold warm =
      if leb_ℤ warm (pos 0)
      then []
      else paint.colored green (concat (paint.ratio cold warm ∷ times_sign ∷ bytes " warm" ∷ []))

  abbrev dot : Text → Bool → Text
  dot name is_there =
      concat (paint.colored (if is_there then green else red) bullet ∷ bytes " " ∷ name ∷ [])

  abbrev dots : ProbeResult → List Text → List Text
  dots probe [] = []
  dots probe (name ∷ names) = dot name (probe.k8s_ok && has_runtime probe name) ∷ dots probe names

  unfoldable pub env_dots : ProbeResult → List Text → Text
  env_dots probe runtimes =
      join (bytes "  ") (
        dot (bytes "docker") probe.docker_ok ∷ dot (bytes "k8s") probe.k8s_ok ∷ dots probe runtimes)

  unfoldable pub fmt_dur : ℤ → Text
  fmt_dur d =
      if leb_ℤ (pos 1000000000) d
      then paint.seconds d ++ bytes "s"
      else paint.sprint (quot d 1000000) ++ bytes "ms"

  -- The answer of `find` where its second value is not looked at.
  abbrev pub or_zero : Option ℤ → ℤ
  or_zero none = pos 0
  or_zero (some d) = d

  abbrev bar_of : ℤ → ℤ → Text
  bar_of most d = concat (solid_bar d most (pos 20) ∷ bytes "  " ∷ paint.num (fmt_dur d) ∷ [])

  -- The lines of a backend with the times of its cold and of its warm runs.
  unfoldable pub cold_and_warm : Text → ℤ → Option ℤ → ℤ → Text
  cold_and_warm name most none warm = []
  cold_and_warm name most (some cold) warm = concat (
      paint.label name
      ∷ line_end
      ∷ bytes "  cold  "
      ∷ bar_of most cold
      ∷ line_end
      ∷ bytes "  warm  "
      ∷ bar_of most warm
      ∷ bytes "   "
      ∷ speedup cold warm
      ∷ line_end
      ∷ line_end
      ∷ [])

  abbrev part : Text → Text → Text → ℤ → List Cell → Text
  part name backend runtime most cells =
      cold_and_warm name most (find_cell backend runtime (bytes "cold") cells)
        (or_zero (find_cell backend runtime (bytes "warm") cells))

  unfoldable pub runtime_line : Text → ℤ → Option ℤ → Text
  runtime_line name most none = []
  runtime_line name most (some d) =
      concat (bytes "  " ∷ padded 7 name ∷ bytes " " ∷ bar_of most d ∷ line_end ∷ [])

  abbrev runtime_part : ℤ → List Cell → Text → Text
  runtime_part most cells name =
      runtime_line name most (find_cell (bytes "k8s") name (bytes "cold") cells)

  unfoldable pub render_dashboard : ProbeResult → List Text → ℤ → List Cell → ℤ → Text
  render_dashboard probe runtimes n cells most = concat (
      paint.boxed (
        trim_right
          (concat (
            paint.title (bytes "sandbox bench")
            ∷ line_end
            ∷ paint.dim (bytes "env  ")
            ∷ env_dots probe runtimes
            ∷ line_end
            ∷ line_end
            ∷ part (concat (bytes "docker " ∷ middle_dot ∷ bytes " default" ∷ [])) (bytes "docker")
                (bytes "default") most cells
            ∷ part (concat (bytes "k8s " ∷ middle_dot ∷ bytes " runc" ∷ [])) (bytes "k8s")
                (bytes "runc") most cells
            ∷ paint.label
                (concat (bytes "k8s " ∷ middle_dot ∷ bytes " isolation runtimes (cold)" ∷ []))
            ∷ line_end
            ∷ runtime_part most cells (bytes "runc")
            ∷ runtime_part most cells (bytes "gvisor")
            ∷ runtime_part most cells (bytes "kata")
            ∷ []))
          10)
      ∷ line_end
      ∷ paint.dim (
          concat (
            bytes "n="
            ∷ paint.sprint n
            ∷ bytes " "
            ∷ middle_dot
            ∷ bytes " lower is better "
            ∷ middle_dot
            ∷ bytes " warm excludes one-time holder creation"
            ∷ []))
      ∷ [])

module _ {P W : Type 0} (bencher : Bencher P W) (paint : Painter) where
  abbrev drawn : ProbeResult → ℤ → List Cell × W → Text × W
  drawn probe n (cells, w) =
      (render_dashboard paint probe runtime_names n cells (max_dur cells (pos 0)), w)

  abbrev drawn_from : ℤ → Text → ProbeResult × W → Text × W
  drawn_from n image (probe, w) =
      drawn probe (pos (iterations n)) (probed bencher n image (probe, w))

  -- `runBench` from its flags to what it prints.
  unfoldable pub bench_text : ℤ → Text → W → Text × W
  bench_text n image w = drawn_from n image (bencher.probe runtime_names w)
