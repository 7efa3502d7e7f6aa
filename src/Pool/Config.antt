-- ===== src/Pool/Config.antt =====
-- `PoolConfig` and `normalize` of pkg/sandbox/pool.go. A duration is a number of nanoseconds.
use podman_sandbox_runner.Base.{
  ℤ, pos, ◌≤ℤ◌, ltb_ℤ, ◌≡◌, ◌⊎◌, inl, inr, [], ◌∷◌, arith, if◌then◌else◌, Bool-cases,
}
use podman_sandbox_runner.Sandbox.{Error, Fallible, ok, err, errorf}

pub record PoolConfig : Type 0 where
  pub min : ℤ
  pub max : ℤ
  pub idle_timeout : ℤ

abbrev pub min_negative : Error
min_negative = errorf "pool: Min must be >= 0" [] []

abbrev pub max_below_min : ℤ → ℤ → Error
max_below_min max min = errorf "pool: Max (%d) must be >= Min (%d)" [] (max ∷ min ∷ [])

unfoldable pub normalize : PoolConfig → Fallible PoolConfig
normalize c =
    if ltb_ℤ c.min (pos 0)
    then err min_negative
    else let c' = if ltb_ℤ c.max (pos 1) then record c { max = pos 1 } else c in
      if ltb_ℤ c'.max c'.min then err (max_below_min c'.max c'.min) else ok c'

-- What the rest of the pool may rely on.
pub record IsNormal (c : PoolConfig) : Type 0 where
  pub min_nonneg : pos 0 ≤ℤ c.min
  pub max_positive : pos 1 ≤ℤ c.max
  pub min_le_max : c.min ≤ℤ c.max

pub normalize-IsNormal : (c : PoolConfig) {d : PoolConfig} → normalize c ≡ ok d → IsNormal d
unfolding normalize
normalize-IsNormal c h = ground arith

pub normalize_min : (c : PoolConfig) {d : PoolConfig} → normalize c ≡ ok d → d.min ≡ c.min
unfolding normalize
normalize_min c h = ground arith

-- The configurations that `NewPool` accepts.
abbrev pub IsAcceptable : PoolConfig → Type 0
IsAcceptable c = (pos 0 ≤ℤ c.min) × ((c.min ≤ℤ c.max) ⊎ (c.min ≤ℤ pos 1))

-- `d` is `c` with a Max below 1 raised to 1.
pub record Normalizes (c d : PoolConfig) : Type 0 where
  pub normal : IsNormal d
  pub same_min : d.min ≡ c.min
  pub same_timeout : d.idle_timeout ≡ c.idle_timeout
  pub raised_max : (d.max ≡ c.max) ⊎ ((c.max ≤ℤ pos 0) × (d.max ≡ pos 1))

-- The cases of `normalize`: an acceptable configuration (Min not negative, and at most Max or at
-- most 1) gives one with 0 <= Min <= Max and 1 <= Max that differs at most by a Max below 1 raised
-- to 1; any other configuration gives an error.
pub normalize_cases :
    (c : PoolConfig)
    → (IsAcceptable c × ((d : PoolConfig) × (normalize c ≡ ok d) × Normalizes c d))
      ⊎ ((¬ IsAcceptable c) × ((e : Error) × (normalize c ≡ err e)))
unfolding normalize
normalize_cases c = elim (Bool-cases (ltb_ℤ c.min (pos 0))) [
  | inl neg ↦ inr ((λ a. ground arith), (min_negative, rw neg))
  | inr low ↦ elim (Bool-cases (ltb_ℤ c.max (pos 1))) [
    | inl small ↦ elim (Bool-cases (ltb_ℤ (pos 1) c.min)) [
      | inl above ↦ inr ((λ a. ground arith), (max_below_min (pos 1) c.min, rw (low, small, above)))
      | inr fits ↦ inl (ground arith, (record c { max = pos 1 }, ground arith, ground arith))
    ]
    | inr big ↦ elim (Bool-cases (ltb_ℤ c.max c.min)) [
      | inl above ↦ inr ((λ a. ground arith), (max_below_min c.max c.min, rw (low, big, above)))
      | inr fits ↦ inl (ground arith, (c, ground arith, ground arith))
    ]
  ]
]
