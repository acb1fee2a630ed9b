-- ===== src/Base/Equality.antt =====
-- Equality tests as an interface, for `===`, `includes`, `Set` and `Map` keys.
use Prim.Native.Nat.{ℕ}
use Prim.Native.String.{String}
use mathlib.Core.Path.{◌≡◌, refl, sym, ◌∙◌}
use mathlib.Core.Logic.{◌↔◌, ◌≢◌}
use mathlib.Core.Bool.{Bool, true, false, false≢true, ◌||◌}
use mathlib.Core.List.{List, [], ◌∷◌}
use native.Mathlib.Omega.{arith}
use text.Mathlib.Text.{◌==◌ as str_eq}
use text.Mathlib.TextEquality.{eq_iff}
use fuel_cap.Base.Tests.{nat_beq, nat_beq_iff}

-- What `===` decides on a type of values without identity.
pub record Eq {ℓ} (A : Type ℓ) : Type ℓ where
  pub is_equal : A → A → Bool
  pub is_equal_iff : (x y : A) → (is_equal x y ≡ true) ↔ (x ≡ y)

infix 50 ◌==◌
abbrev pub ◌==◌ {ℓ} : {A : Type ℓ} ⦃e : Eq A⦄ → A → A → Bool
◌==◌ ⦃e⦄ x y = e.is_equal x y

pub ==-eq {ℓ} : {A : Type ℓ} ⦃e : Eq A⦄ (a b : A) → (a == b) ≡ true → a ≡ b
==-eq ⦃e⦄ a b h = (e.is_equal_iff a b).0 h

pub ==_refl {ℓ} : {A : Type ℓ} ⦃e : Eq A⦄ (a : A) → (a == a) ≡ true
==_refl ⦃e⦄ a = (e.is_equal_iff a a).1 refl

module _ {ℓ} {A : Type ℓ} ⦃e : Eq A⦄ where
  -- `xs.includes(a)` and `set.has(a)`
  abbrev pub includes : List A → A → Bool
  includes [] a = false
  includes (x ∷ xs) a = x == a || includes xs a

  -- `new Set(xs).size !== xs.length`
  abbrev pub has_duplicates : List A → Bool
  has_duplicates [] = false
  has_duplicates (x ∷ xs) = includes xs x || has_duplicates xs

pub eq-== {ℓ} : {A : Type ℓ} ⦃e : Eq A⦄ {a b : A} → a ≡ b → (a == b) ≡ true
eq-== ⦃e⦄ {a} {b} h = (e.is_equal_iff a b).1 h

pub ==_sym {ℓ} : {A : Type ℓ} ⦃e : Eq A⦄ (a b : A) → (a == b) ≡ (b == a)
==_sym ⦃e⦄ a b = ground (arith, e.is_equal_iff a b, e.is_equal_iff b a)

pub ne_of_== {ℓ} : {A : Type ℓ} ⦃e : Eq A⦄ {a b : A} → (a == b) ≡ false → a ≢ b
ne_of_== h p = false≢true (sym h ∙ eq-== p)

instance abbrev pub string_eq : Eq String
string_eq = record { is_equal = λ s t. str_eq s t; is_equal_iff = λ s t. eq_iff s t }

instance abbrev pub nat_eq : Eq ℕ
nat_eq = record { is_equal = λ m n. nat_beq m n; is_equal_iff = λ m n. nat_beq_iff m n }
