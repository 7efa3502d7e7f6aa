-- ===== src/Base/Lists.antt =====
-- Lists measured by native numbers, occurrences of a number, and sets of numbers as lists.
use Prim.Native.Nat.{ℕ, suc, ◌+◌, ◌<◌, ◌≤◌}
use mathlib.Core.Path.{◌≡◌, refl}
use mathlib.Core.Logic.{◌⊎◌, inl, inr}
use mathlib.Core.Bool.{Bool, true, false, ◌||◌}
use mathlib.Core.List.{List, [], ◌∷◌, ◌++◌}
use native.Mathlib.Omega.{arith}
use podman_sandbox_runner.Base.Tests.{◌==◌, if◌then◌else◌}

module _ {ℓ} {A : Type ℓ} where
  abbrev pub length : List A → ℕ
  length [] = 0
  length (x ∷ xs) = suc (length xs)

  pub length-append : (xs ys : List A) → length (xs ++ ys) ≡ length xs + length ys
  length-append [] ys = omega arith
  length-append (x ∷ xs) ys = omega (arith, length-append xs ys)

pub List-cases {ℓ} : {A : Type ℓ} (l : List A) → (l ≡ []) ⊎ ((x : A) × (xs : List A) × (l ≡ x ∷ xs))
List-cases [] = inl refl
List-cases (x ∷ xs) = inr (x, xs, refl)

-- 1 for `true`, to count with.
abbrev pub bit : Bool → ℕ
bit true = 1
bit false = 0

-- How often `a` occurs.
abbrev pub count : ℕ → List ℕ → ℕ
count a [] = 0
count a (b ∷ rest) = bit (b == a) + count a rest

pub count-append :
    (a : ℕ) (front back : List ℕ) → count a (front ++ back) ≡ count a front + count a back
count-append a [] back = ground arith
count-append a (x ∷ front) back = ground (arith, count-append a front back)

-- A Go map used as a set: membership, insertion and deletion of a key.
unfoldable pub has : ℕ → List ℕ → Bool
has a [] = false
has a (x ∷ xs) = x == a || has a xs

unfoldable pub insert : ℕ → List ℕ → List ℕ
unfolding has
insert a xs = if has a xs then xs else a ∷ xs

unfoldable pub delete : ℕ → List ℕ → List ℕ
delete a [] = []
delete a (x ∷ xs) = if x == a then delete a xs else x ∷ delete a xs

pub has-count : (a : ℕ) (xs : List ℕ) → 0 < count a xs → has a xs ≡ true
unfolding has
has-count a [] h = absurd (omega arith)
has-count a (x ∷ xs) h = ground (arith, has-count a xs)

pub count-has : (a : ℕ) (xs : List ℕ) → has a xs ≡ true → 0 < count a xs
unfolding has
count-has a [] h = ground arith
count-has a (x ∷ xs) h = ground (arith, count-has a xs)

pub count-delete_self : (a : ℕ) (xs : List ℕ) → count a (delete a xs) ≡ 0
unfolding delete
count-delete_self a [] = refl
count-delete_self a (x ∷ xs) = ground (arith, count-delete_self a xs)

pub count-delete :
    (a b : ℕ) (xs : List ℕ) → count b (delete a xs) ≡ (if a == b then 0 else count b xs)
unfolding delete
count-delete a b [] = ground arith
count-delete a b (x ∷ xs) = ground (arith, count-delete a b xs)

pub length-delete : (a : ℕ) (xs : List ℕ) → length (delete a xs) + count a xs ≡ length xs
unfolding delete
length-delete a [] = omega arith
length-delete a (x ∷ xs) = ground (arith, length-delete a xs)

pub insert_fresh : (a : ℕ) (xs : List ℕ) → count a xs ≡ 0 → insert a xs ≡ a ∷ xs
unfolding insert
insert_fresh a xs h = ground (arith, count-has a xs)

pub count-le-length : (a : ℕ) (xs : List ℕ) → count a xs ≤ length xs
count-le-length a [] = omega arith
count-le-length a (x ∷ xs) = ground (arith, count-le-length a xs)

pub empty_of_length {ℓ} : {A : Type ℓ} (xs : List A) → length xs ≡ 0 → xs ≡ []
empty_of_length [] h = refl
empty_of_length (x ∷ xs) h = absurd (omega arith)

pub empty_of_count : (xs : List ℕ) → ((a : ℕ) → count a xs ≡ 0) → xs ≡ []
empty_of_count [] h = refl
empty_of_count (x ∷ xs) h = absurd (ground (arith, h x))

abbrev pub sum : (ℕ → ℕ) → List ℕ → ℕ
sum w [] = 0
sum w (x ∷ xs) = w x + sum w xs

pub sum_ext :
    (w w' : ℕ → ℕ) (xs : List ℕ) → ((x : ℕ) → 0 < count x xs → w x ≡ w' x) → sum w xs ≡ sum w' xs
sum_ext w w' [] same = refl
sum_ext w w' (x ∷ xs) same =
    omega (arith, same x (ground arith), sum_ext w w' xs (λ y k. same y (omega (arith, k))))

pub sum-delete_none :
    (w : ℕ → ℕ) (a : ℕ) (xs : List ℕ) → count a xs ≡ 0 → sum w (delete a xs) ≡ sum w xs
unfolding delete
sum-delete_none w a [] e = refl
sum-delete_none w a (x ∷ xs) e = ground (arith, e, sum-delete_none w a xs)

-- An element that occurs once, taken out.
pub sum-delete :
    (w : ℕ → ℕ) (a : ℕ) (xs : List ℕ) → count a xs ≡ 1 → sum w (delete a xs) + w a ≡ sum w xs
unfolding delete
sum-delete w a [] e = absurd (omega (arith, e))
sum-delete w a (x ∷ xs) e = ground (arith, e, sum-delete w a xs, sum-delete_none w a xs)

-- A weight changed at one element that occurs once.
pub sum_change :
    (w w' : ℕ → ℕ) (a : ℕ) (xs : List ℕ)
    → count a xs ≡ 1
    → ((x : ℕ) → (x == a) ≡ false → w' x ≡ w x)
    → sum w' xs + w a ≡ sum w xs + w' a
sum_change w w' a xs one same = omega (
  arith,
  sum-delete w a xs one,
  sum-delete w' a xs one,
  sum_ext w' w (delete a xs) (λ x k. same x (ground (arith, k, count-delete a x xs))),
)
