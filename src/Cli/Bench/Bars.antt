-- ===== src/Cli/Bench/Bars.antt =====
-- The bars of the dashboard of `sandbox bench`.
use podman_sandbox_runner.Base.{
  ℤ, pos, ◌≤ℤ◌, ltb_ℤ, Bool, true, false, ◌&&◌, ◌≡◌, refl, inl, inr, some, List, [], ◌∷◌, Text,
  text_eq, arith, Bool-cases,
}
use mathlib.Core.Path.{subst}
use podman_sandbox_runner.Cli.Bench.{
  Cell, is_shown, max_dur, find_cell, bar_fill, at_least, at_most,
}

-- The longest duration so far is no longer than the longest of all.
max_dur_start : (cells : List Cell) (m : ℤ) → m ≤ℤ max_dur cells m
unfolding max_dur
max_dur_start [] m = ground arith
max_dur_start (c ∷ cells) m = elim (Bool-cases (is_shown c && ltb_ℤ m c.dur)) [
  | inl b ↦ ground (arith, max_dur_start cells c.dur, b)
  | inr b ↦ ground (arith, max_dur_start cells m, b)
]

shown_le :
    (c : Cell) (cells : List Cell) (m : ℤ) → is_shown c ≡ true → c.dur ≤ℤ max_dur (c ∷ cells) m
unfolding max_dur
shown_le c cells m s = elim (Bool-cases (ltb_ℤ m c.dur)) [
  | inl b ↦ ground (arith, max_dur_start cells c.dur, b, s)
  | inr b ↦ ground (arith, max_dur_start cells m, b, s)
]

and_last : (a b c d : Bool) → a && b && c && d ≡ true → d ≡ true
and_last true true true true e = refl
and_last true true true false e = e
and_last true true false d e = absurd cc
and_last true false c d e = absurd cc
and_last false b c d e = absurd cc

find_cell-le :
    (backend runtime mode : Text) (cells : List Cell) (m d : ℤ)
    → find_cell backend runtime mode cells ≡ some d
    → d ≤ℤ max_dur cells m
unfolding find_cell max_dur
find_cell-le backend runtime mode [] m d e = absurd cc
find_cell-le backend runtime mode (c ∷ cells) m d e =
    elim (Bool-cases (
      text_eq c.backend backend
      && text_eq c.runtime runtime
      && text_eq c.mode mode
      && is_shown c)) [
        | inl t ↦
            let same : c.dur ≡ d = cc (rw (t, find_cell) at e) in
            subst (λ x. x ≤ℤ max_dur (c ∷ cells) m) same
              (shown_le c cells m (
                and_last (text_eq c.backend backend) (text_eq c.runtime runtime)
                  (text_eq c.mode mode) (is_shown c) t))
        | inr t ↦ find_cell-le backend runtime mode cells _ d (rw (t, find_cell) at e)
      ]

clamped :
    (f width : ℤ)
    → pos 1 ≤ℤ width
    → (pos 1 ≤ℤ at_least (pos 1) (at_most width f)) × (at_least (pos 1) (at_most width f) ≤ℤ width)
clamped f width room = elim (Bool-cases (ltb_ℤ width f)) [
  | inl b ↦ elim (Bool-cases (ltb_ℤ width (pos 1))) [
    | inl c ↦ rw (b, c) (ground arith, room)
    | inr c ↦ rw (b, c) (room, ground arith)
  ]
  | inr b ↦ elim (Bool-cases (ltb_ℤ f (pos 1))) [
    | inl c ↦ rw (b, c) (ground arith, room)
    | inr c ↦ rw (b, c) (ground (arith, c), ground (arith, b))
  ]
]

bar_fill_bounds :
    (scaled : ℤ → ℤ → ℤ → ℤ) (d most width : ℤ)
    → pos 1 ≤ℤ width
    → (pos 1 ≤ℤ bar_fill scaled d most width) × (bar_fill scaled d most width ≤ℤ width)
unfolding bar_fill
bar_fill_bounds scaled d most width room = clamped _ width room

-- A duration that the dashboard shows is no longer than the longest that it was given, and its bar
-- has a filled part of 1 to 20 places whatever the floating-point product of it comes to, so that
-- neither part of the bar has a negative length.
pub find_cell-bar_fill :
    (scaled : ℤ → ℤ → ℤ → ℤ) (backend runtime mode : Text) (cells : List Cell) (d : ℤ)
    → find_cell backend runtime mode cells ≡ some d
    → (d ≤ℤ max_dur cells (pos 0))
      × (pos 1 ≤ℤ bar_fill scaled d (max_dur cells (pos 0)) (pos 20))
      × (bar_fill scaled d (max_dur cells (pos 0)) (pos 20) ≤ℤ pos 20)
find_cell-bar_fill scaled backend runtime mode cells d e =
    let (low, high) = bar_fill_bounds scaled d (max_dur cells (pos 0)) (pos 20) (ground arith) in
    (find_cell-le backend runtime mode cells (pos 0) d e, low, high)
