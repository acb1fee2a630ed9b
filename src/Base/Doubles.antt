-- ===== src/Base/Doubles.antt =====
-- JavaScript numbers, which are doubles: the integer that a result of integer arithmetic is rounded
-- to. Integers up to 2 ^ 53 = 9007199254740992 are doubles; above, those with 53 significant bits
-- are. (2 ^ 52 = 4503599627370496.)
use Prim.Native.Nat.{ℕ, zero, suc, ◌+◌, ◌*◌, ◌/◌, ◌%◌, ◌≤◌}
use mathlib.Core.Path.{◌≡◌, refl}
use mathlib.Core.Logic.{inl, inr}
use mathlib.Core.Bool.{true, false}
use native.Mathlib.Omega.{arith}
use native.Mathlib.Nat.{mul-le-mul_right, le-div_iff_mul-le}
use fuel_cap.Base.Tests.{ltb, leb, nat_beq, if◌then◌else◌, Bool-cases}
use mathlib.Core.List.{List, [], ◌∷◌, foldl}
use fuel_cap.Base.Int.{ℤ, pos, negsuc, ◌+ℤ◌, ◌≤ℤ◌, negate, int_laws, sum_of}
use fuel_cap.Base.Lists.{All}
use fuel_cap.Base.Products.{at_least_zero}

-- The distance of neighbouring doubles at `n`: the first power of two, from `step`, of which `n` is at
-- most 2 ^ 53 multiples.
unfoldable pub double_step : ℕ → ℕ → ℕ → ℕ
double_step zero step n = step
double_step (suc fuel) step n = elim (leb n (9007199254740992 * step)) [
  | true ↦ step
  | false ↦ double_step fuel (step + step) n
]

-- The multiple of `step` nearest to `n`, of two the even one.
unfoldable pub nearest_multiple : ℕ → ℕ → ℕ
nearest_multiple n step =
    let q = n / step in
    let rest = n % step in
    if ltb (rest + rest) step
    then q * step
    else if ltb step (rest + rest)
    then (q + 1) * step
    else if nat_beq (q % 2) 0
    then q * step
    else (q + 1) * step

-- The double nearest to a natural number. The largest finite double is below 2 ^ 53 * 2 ^ 971.
unfoldable pub to_double_ℕ : ℕ → ℕ
to_double_ℕ n = elim (leb n 9007199254740992) [
  | true ↦ n
  | false ↦ nearest_multiple n (double_step 971 2 n)
]

-- The double nearest to an integer.
unfoldable pub to_double : ℤ → ℤ
to_double (pos n) = pos (to_double_ℕ n)
to_double (negsuc n) = negate (pos (to_double_ℕ (suc n)))

to_double_ℕ-exact : (n : ℕ) → n ≤ 9007199254740992 → to_double_ℕ n ≡ n
unfolding to_double_ℕ
to_double_ℕ-exact n h = elim (Bool-cases (leb n 9007199254740992)) [
  | inl e ↦ rw (to_double_ℕ, e) refl
  | inr e ↦ absurd (ground arith)
]

-- An integer between 0 and 2 ^ 53 is a double.
pub to_double-exact : (a : ℤ) → pos 0 ≤ℤ a → a ≤ℤ pos 9007199254740992 → to_double a ≡ a
unfolding to_double
to_double-exact (pos n) h k = rw (to_double_ℕ-exact n (omega (arith, k))) refl
to_double-exact (negsuc n) h k = absurd (ground arith)

pub to_double-nonnegative : (a : ℤ) → pos 0 ≤ℤ a → pos 0 ≤ℤ to_double a
unfolding to_double
to_double-nonnegative (pos n) h = ground arith
to_double-nonnegative (negsuc n) h = absurd (ground arith)

double_step-low :
    (fuel step n : ℕ)
    → 2 ≤ step
    → 4503599627370496 * step ≤ n
    → (2 ≤ double_step fuel step n) × (4503599627370496 * double_step fuel step n ≤ n)
unfolding double_step
double_step-low zero step n two low = (two, low)
double_step-low (suc fuel) step n two low = elim (Bool-cases (leb n (9007199254740992 * step))) [
  | inl e ↦ rw (double_step, e) (two, low)
  | inr e ↦ rw (double_step, e) (double_step-low fuel (step + step) n (omega arith) (ground arith))
]

multiple_low : (q step : ℕ) → 4503599627370496 ≤ q → 2 ≤ step → 9007199254740992 ≤ q * step
multiple_low q step h k = omega (arith, mul-le-mul_right step h, k)

nearest_multiple-low :
    (n step : ℕ)
    → 2 ≤ step
    → 4503599627370496 ≤ n / step
    → 9007199254740992 ≤ nearest_multiple n step
unfolding nearest_multiple
nearest_multiple-low n step two h =
    let a = multiple_low (n / step) step h two in
    let b = multiple_low (n / step + 1) step (omega (arith, h)) two in ground (arith, a, b)

multiple_of_step :
    (n step : ℕ)
    → 2 ≤ step
    → 4503599627370496 * step ≤ n
    → 9007199254740992 ≤ nearest_multiple n step
multiple_of_step n step two low =
    nearest_multiple-low n step two ((le-div_iff_mul-le (omega (arith, two))).1 low)

to_double_ℕ-low : (n : ℕ) → leb n 9007199254740992 ≡ false → 9007199254740992 ≤ to_double_ℕ n
unfolding to_double_ℕ
to_double_ℕ-low n e =
    let w = double_step-low 971 2 n (omega arith) (twice n e) in
    rw (to_double_ℕ, e) (multiple_of_step n (double_step 971 2 n) w.0 w.1)
  where
    twice : (n : ℕ) → leb n 9007199254740992 ≡ false → 4503599627370496 * 2 ≤ n
    twice n e = ground arith

-- A result that is a safe integer is exact.
pub to_double-safe : (a : ℤ) → pos 0 ≤ℤ a → to_double a ≤ℤ pos 9007199254740991 → to_double a ≡ a
unfolding to_double
to_double-safe (pos n) h k = elim (Bool-cases (leb n 9007199254740992)) [
  | inl e ↦ rw (to_double_ℕ-exact n (ground arith)) refl
  | inr e ↦ absurd (omega (arith, k, to_double_ℕ-low n e))
]
to_double-safe (negsuc n) h k = absurd (ground arith)

at_most_zero : (m : ℕ) → at_least_zero (negate (pos m)) ≡ pos 0
unfolding negate
at_most_zero m = ground arith

-- `Math.max(0, a)` of a rounded number.
pub at_least_zero-to_double :
    (a : ℤ) → a ≤ℤ pos 9007199254740992 → at_least_zero (to_double a) ≡ at_least_zero a
unfolding to_double
at_least_zero-to_double (pos n) h = rw (to_double_ℕ-exact n (omega (arith, h))) refl
at_least_zero-to_double (negsuc n) h = at_most_zero (to_double_ℕ (suc n))

-- `xs.reduce((sum, x) => sum + f(x), 0)`, with every sum rounded.
module _ {ℓ} {A : Type ℓ} (f : A → ℤ) where
  abbrev pub rounded_sum : List A → ℤ
  rounded_sum = foldl (λ sum x. to_double (sum +ℤ f x)) (pos 0)

  pub sum_of-nonnegative : (xs : List A) → All (λ x. pos 0 ≤ℤ f x) xs → pos 0 ≤ℤ sum_of f xs
  sum_of-nonnegative [] h = omega int_laws
  sum_of-nonnegative (x ∷ xs) h = omega (int_laws, h.0, sum_of-nonnegative xs h.1)

  -- No item of a sum of numbers that are not negative is above the sum.
  pub sum_of-bounded :
      (xs : List A) (b : ℤ) → All (λ x. pos 0 ≤ℤ f x) xs → sum_of f xs ≤ℤ b → All (λ x. f x ≤ℤ b) xs
  sum_of-bounded [] b h k = tt
  sum_of-bounded (x ∷ xs) b h k =
      let rest = sum_of-nonnegative xs h.1 in
      (omega (int_laws, rest, k), sum_of-bounded xs b h.1 (omega (int_laws, h.0, k)))

  foldl-exact :
      (acc : ℤ) (xs : List A)
      → pos 0 ≤ℤ acc
      → All (λ x. pos 0 ≤ℤ f x) xs
      → acc +ℤ sum_of f xs ≤ℤ pos 9007199254740992
      → foldl (λ sum x. to_double (sum +ℤ f x)) acc xs ≡ acc +ℤ sum_of f xs
  foldl-exact acc [] a h k = omega int_laws
  foldl-exact acc (x ∷ xs) a h k =
      let rest = sum_of-nonnegative xs h.1 in
      rw
        (
          to_double-exact (acc +ℤ f x) (omega (int_laws, a, h.0)) (omega (int_laws, k, rest)),
          foldl-exact (acc +ℤ f x) xs (omega (int_laws, a, h.0)) h.1 (omega (int_laws, k)),
        )
        (omega int_laws)

  -- A rounded sum of numbers that are not negative is exact up to 2 ^ 53.
  pub rounded_sum-exact :
      (xs : List A)
      → All (λ x. pos 0 ≤ℤ f x) xs
      → sum_of f xs ≤ℤ pos 9007199254740992
      → rounded_sum xs ≡ sum_of f xs
  rounded_sum-exact xs h k =
      rw (foldl-exact (pos 0) xs (omega int_laws) h (omega (int_laws, k))) (omega int_laws)
