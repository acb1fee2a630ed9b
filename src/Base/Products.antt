-- ===== src/Base/Products.antt =====
-- Products and quotients of integers: exact numerators and their rounding to whole units.
use Prim.Native.Nat.{ℕ, ◌+◌, ◌*◌, ◌/◌, ◌≤◌, ◌<◌}
use mathlib.Core.Path.{◌≡◌, ap}
use native.Mathlib.Omega.{arith}
use native.Mathlib.Nat.{mul-le-mul_right}
use fuel_cap.Base.Tests.{if◌then◌else◌}
use fuel_cap.Base.Int.{
  ℤ, pos, negsuc, pos_part, neg_part, sub_ℕ, ◌+ℤ◌, ◌≤ℤ◌, leb_ℤ, negate, +ℤ_parts, eq_of_parts,
}

infixl 70 ◌*ℤ◌
unfoldable pub ◌*ℤ◌ : ℤ → ℤ → ℤ
a *ℤ b =
    sub_ℕ (pos_part a * pos_part b + neg_part a * neg_part b)
      (pos_part a * neg_part b + neg_part a * pos_part b)

pub *ℤ_parts :
    (a b : ℤ)
    → pos_part (a *ℤ b) + (pos_part a * neg_part b + neg_part a * pos_part b)
      ≡ neg_part (a *ℤ b) + (pos_part a * pos_part b + neg_part a * neg_part b)
unfolding ◌*ℤ◌
*ℤ_parts a b = ground arith

pub *ℤ_pos_parts :
    (a : ℤ) (n : ℕ)
    → pos_part (a *ℤ pos n) + neg_part a * n ≡ neg_part (a *ℤ pos n) + pos_part a * n
*ℤ_pos_parts a n = omega (arith, *ℤ_parts a (pos n))

scaled : (x y z u v w n : ℕ) → x + y + z ≡ u + v + w → x * n + y * n + z * n ≡ u * n + v * n + w * n
scaled x y z u v w n h = omega (arith, ap (λ k. k * n) h)

pub add_*ℤ : (a b : ℤ) (n : ℕ) → (a +ℤ b) *ℤ pos n ≡ a *ℤ pos n +ℤ b *ℤ pos n
add_*ℤ a b n = eq_of_parts _ _ (
    omega (
      arith,
      *ℤ_pos_parts (a +ℤ b) n,
      *ℤ_pos_parts a n,
      *ℤ_pos_parts b n,
      +ℤ_parts (a *ℤ pos n) (b *ℤ pos n),
      scaled _ _ _ _ _ _ n (+ℤ_parts a b),
    ))

pub *ℤ-le : (a b : ℤ) (n : ℕ) → a ≤ℤ b → a *ℤ pos n ≤ℤ b *ℤ pos n
*ℤ-le a b n h = omega (arith, *ℤ_pos_parts a n, *ℤ_pos_parts b n, mul-le-mul_right n h)

pub zero_*ℤ : (n : ℕ) → pos 0 *ℤ pos n ≡ pos 0
zero_*ℤ n = eq_of_parts _ _ (omega (arith, *ℤ_pos_parts (pos 0) n))

-- `Math.floor(a / d)` for a positive divisor
unfoldable pub floor_div : ℤ → ℕ → ℤ
floor_div (pos n) d = pos (n / d)
floor_div (negsuc n) d = negsuc (n / d)

-- `Math.ceil(a / d)`
unfoldable pub ceil_div : ℤ → ℕ → ℤ
ceil_div a d = negate (floor_div (negate a) d)

-- `Math.max(0, a)`
abbrev pub at_least_zero : ℤ → ℤ
at_least_zero (pos n) = pos n
at_least_zero (negsuc n) = pos 0

-- `Math.min(a, b)`
abbrev pub min_ℤ : ℤ → ℤ → ℤ
min_ℤ a b = if leb_ℤ a b then a else b

module _ (a : ℤ) where
  -- The rounded quotient of a million, up to the exact numerator.
  pub floor_div-le :
      pos_part (floor_div a 1000000) * 1000000 + neg_part a
      ≤ pos_part a + neg_part (floor_div a 1000000) * 1000000
  unfolding floor_div
  floor_div-le = ground arith

  pub lt-floor_div :
      pos_part a + neg_part (floor_div a 1000000) * 1000000
      < pos_part (floor_div a 1000000) * 1000000 + neg_part a + 1000000
  unfolding floor_div
  lt-floor_div = ground arith

-- `a / d` of two `BigInt`, which rounds towards zero
unfoldable pub trunc_div : ℤ → ℕ → ℤ
trunc_div (pos n) d = pos (n / d)
trunc_div (negsuc n) d = negate (pos ((n + 1) / d))
