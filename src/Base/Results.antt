-- ===== src/Base/Results.antt =====
-- A function that may throw: what it returns, or the error that it throws.
use mathlib.Core.Path.{◌≡◌, refl}
use mathlib.Core.Bool.{Bool, true, false}

pub data Result {ℓ} (E : Type 0) (A : Type ℓ) : Type ℓ where
  ok : A → Result E A
  err : E → Result E A

infixl 5 ◌>>=◌ ◌>>◌
abbrev pub ◌>>=◌ {ℓ κ} :
    {E : Type 0} {A : Type ℓ} {B : Type κ} → Result E A → (A → Result E B) → Result E B
ok a >>= f = f a
err x >>= f = err x

abbrev pub ◌>>◌ {ℓ} : {E : Type 0} {B : Type ℓ} → Result E (Unit {0}) → Result E B → Result E B
m >> k = m >>= λ _. k

-- `if (test) throw error;`
abbrev pub throw_if : {E : Type 0} → Bool → E → Result E (Unit {0})
throw_if true x = err x
throw_if false x = ok tt

pub >>=-eq_ok {ℓ κ} :
    {E : Type 0} {A : Type ℓ} {B : Type κ} (m : Result E A) (f : A → Result E B) {b : B}
    → (m >>= f) ≡ ok b
    → (a : A) × (m ≡ ok a) × (f a ≡ ok b)
>>=-eq_ok (ok a) f h = (a, refl, h)
>>=-eq_ok (err x) f h = absurd (cc)

pub throw_if-eq_ok :
    {E : Type 0} (test : Bool) (x : E) {u : Unit {0}} → throw_if test x ≡ ok u → test ≡ false
throw_if-eq_ok true x h = absurd (cc)
throw_if-eq_ok false x h = refl

pub ok_eq {ℓ} : {E : Type 0} {A : Type ℓ} {a b : A} → ◌≡◌ {A = Result E A} (ok a) (ok b) → a ≡ b
ok_eq h = cc

-- A sequence of two statements that returns: the first does, and then the second.
pub >>-eq_ok {ℓ} :
    {E : Type 0} {B : Type ℓ} (test : Bool) (x : E) (k : Result E B) {b : B}
    → (throw_if test x >> k) ≡ ok b
    → (test ≡ false) × (k ≡ ok b)
>>-eq_ok true x k h = absurd (cc)
>>-eq_ok false x k h = (refl, h)
