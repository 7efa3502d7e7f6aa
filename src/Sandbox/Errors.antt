-- ===== src/Sandbox/Errors.antt =====
-- Go's `error` values, and the pair (T, error) of a call that returns one or the other.
use podman_sandbox_runner.Base.{List, ℤ, String, Text, ◌≡◌, refl, ◌⊎◌, inl, inr}

-- `fmt.Errorf` keeps its format and its arguments apart, so that two errors with different causes
-- differ. `external` is an error that code outside the repository made, known by its text.
pub data Error : Type 0 where
  external : String → Error
  errorf : String → List Text → List ℤ → Error
  wrapf : String → List Text → List ℤ → Error → Error

pub data Fallible {ℓ} (A : Type ℓ) : Type ℓ where
  ok : A → Fallible A
  err : Error → Fallible A

infixl 5 ◌>>=◌
abbrev pub ◌>>=◌ {ℓ κ} : {A : Type ℓ} {B : Type κ} → Fallible A → (A → Fallible B) → Fallible B
ok a >>= f = f a
err e >>= f = err e

pub Fallible-cases {ℓ} :
    {A : Type ℓ} (r : Fallible A) → ((a : A) × (r ≡ ok a)) ⊎ ((e : Error) × (r ≡ err e))
Fallible-cases (ok a) = inl (a, refl)
Fallible-cases (err e) = inr (e, refl)
