-- ===== src/Base/Int.antt =====
-- Signed integers over the native numbers: the integral values of a JavaScript number, added without
-- rounding. Sums and orders go through the two parts of an integer, which `omega` reads.
use Prim.Native.Nat.{ℕ, suc, ◌+◌, ◌-◌, ◌≤◌}
use mathlib.Core.Path.{◌≡◌, refl}
use mathlib.Core.Bool.{Bool, true, ◌&&◌}
use mathlib.Core.List.{List, [], ◌∷◌, ◌++◌, foldl}
use native.Mathlib.Omega.{arith}
use fuel_cap.Base.Tests.{ltb, leb, nat_beq, if◌then◌else◌}

-- `negsuc n` is -(n + 1).
pub data ℤ : Type 0 where
  pos : ℕ → ℤ
  negsuc : ℕ → ℤ

abbrev pub pos_part : ℤ → ℕ
pos_part (pos n) = n
pos_part (negsuc n) = 0

abbrev pub neg_part : ℤ → ℕ
neg_part (pos n) = 0
neg_part (negsuc n) = suc n

-- a - b, as an integer.
abbrev pub sub_ℕ : ℕ → ℕ → ℤ
sub_ℕ a b = if leb b a then pos (a - b) else negsuc (b - a - 1)

infixl 65 ◌+ℤ◌ ◌-ℤ◌
infix 50 ◌≤ℤ◌
unfoldable pub ◌+ℤ◌ : ℤ → ℤ → ℤ
a +ℤ b = sub_ℕ (pos_part a + pos_part b) (neg_part a + neg_part b)

unfoldable pub ◌-ℤ◌ : ℤ → ℤ → ℤ
a -ℤ b = sub_ℕ (pos_part a + neg_part b) (neg_part a + pos_part b)

unfoldable pub negate : ℤ → ℤ
negate a = sub_ℕ (neg_part a) (pos_part a)

abbrev pub ◌≤ℤ◌ : ℤ → ℤ → Type 0
a ≤ℤ b = pos_part a + neg_part b ≤ pos_part b + neg_part a

abbrev pub ltb_ℤ : ℤ → ℤ → Bool
ltb_ℤ a b = ltb (pos_part a + neg_part b) (pos_part b + neg_part a)

abbrev pub leb_ℤ : ℤ → ℤ → Bool
leb_ℤ a b = leb (pos_part a + neg_part b) (pos_part b + neg_part a)

abbrev pub eqb_ℤ : ℤ → ℤ → Bool
eqb_ℤ a b = nat_beq (pos_part a + neg_part b) (pos_part b + neg_part a)

-- `Number.MAX_SAFE_INTEGER`, 2^53 - 1
abbrev pub max_safe_integer : ℕ
max_safe_integer = 9007199254740991

-- `Number.isSafeInteger`
abbrev pub is_safe_integer : ℤ → Bool
is_safe_integer a = leb (pos_part a) max_safe_integer && leb (neg_part a) max_safe_integer

pub +ℤ_parts :
    (a b : ℤ)
    → pos_part (a +ℤ b) + neg_part a + neg_part b ≡ neg_part (a +ℤ b) + pos_part a + pos_part b
unfolding ◌+ℤ◌
+ℤ_parts a b = ground arith

pub -ℤ_parts :
    (a b : ℤ)
    → pos_part (a -ℤ b) + neg_part a + pos_part b ≡ neg_part (a -ℤ b) + pos_part a + neg_part b
unfolding ◌-ℤ◌
-ℤ_parts a b = ground arith

pub negate_parts : (a : ℤ) → pos_part (negate a) + pos_part a ≡ neg_part (negate a) + neg_part a
unfolding negate
negate_parts a = ground arith

pub eq_of_parts : (a b : ℤ) → pos_part a + neg_part b ≡ pos_part b + neg_part a → a ≡ b
eq_of_parts a b h = ground arith

pub ruleset int_laws = (arith, +ℤ_parts, -ℤ_parts, negate_parts, eq_of_parts)

pub eqb_ℤ-eq : (a b : ℤ) → eqb_ℤ a b ≡ true → a ≡ b
eqb_ℤ-eq a b h = ground arith

-- `xs.reduce((sum, x) => sum + f(x), 0)`
module _ {ℓ} {A : Type ℓ} (f : A → ℤ) where
  abbrev pub reduce_sum : List A → ℤ
  reduce_sum = foldl (λ sum x. sum +ℤ f x) (pos 0)

  -- The same sum from the right, for proofs.
  abbrev pub sum_of : List A → ℤ
  sum_of [] = pos 0
  sum_of (x ∷ xs) = f x +ℤ sum_of xs

  foldl-add : (acc : ℤ) (xs : List A) → foldl (λ sum x. sum +ℤ f x) acc xs ≡ acc +ℤ sum_of xs
  foldl-add acc [] = omega int_laws
  foldl-add acc (x ∷ xs) = rw (foldl-add (acc +ℤ f x) xs) (omega int_laws)

  pub reduce_sum-eq-sum_of : (xs : List A) → reduce_sum xs ≡ sum_of xs
  reduce_sum-eq-sum_of xs = rw (foldl-add (pos 0) xs) (omega int_laws)

  pub sum_of-append : (xs ys : List A) → sum_of (xs ++ ys) ≡ sum_of xs +ℤ sum_of ys
  sum_of-append [] ys = omega int_laws
  sum_of-append (x ∷ xs) ys = rw (sum_of-append xs ys) (omega int_laws)

pub zero_add : (a : ℤ) → pos 0 +ℤ a ≡ a
zero_add a = omega int_laws

-- Sums of two functions, of two that agree, and of zeros.
module _ {ℓ} {A : Type ℓ} where
  pub sum_of-add :
      (f g : A → ℤ) (xs : List A) → sum_of (λ x. f x +ℤ g x) xs ≡ sum_of f xs +ℤ sum_of g xs
  sum_of-add f g [] = omega int_laws
  sum_of-add f g (x ∷ xs) = rw (sum_of-add f g xs) (omega int_laws)

  pub sum_of-zero : (xs : List A) → sum_of (λ _. pos 0) xs ≡ pos 0
  sum_of-zero [] = refl
  sum_of-zero (x ∷ xs) = rw (sum_of-zero xs) (omega int_laws)

pub add_assoc : (a b c : ℤ) → a +ℤ b +ℤ c ≡ a +ℤ (b +ℤ c)
add_assoc a b c = omega int_laws
