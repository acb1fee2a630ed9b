-- ===== src/Base/Lists.antt =====
-- Lists measured by native numbers, and JavaScript's `find`, `some` and `every`.
use Prim.Native.Nat.{ℕ, zero, suc, ◌+◌, ◌-◌}
use mathlib.Core.Path.{◌≡◌, refl, sym, subst}
use mathlib.Core.Logic.{inl, inr}
use mathlib.Core.Bool.{Bool, true, false, false≢true, ◌&&◌, ◌||◌}
use mathlib.Core.Option.{Option, none, some}
use mathlib.Core.List.{List, [], ◌∷◌, ◌++◌, foldl}
use native.Mathlib.Omega.{arith}
use fuel_cap.Base.Tests.{if◌then◌else◌, Bool-cases, none_ne_some, some_eq, ||-eq_false}

module _ {ℓ} {A : Type ℓ} where
  abbrev pub length : List A → ℕ
  length [] = 0
  length (x ∷ xs) = suc (length xs)

  abbrev pub drop : ℕ → List A → List A
  drop zero xs = xs
  drop (suc n) [] = []
  drop (suc n) (x ∷ xs) = drop n xs

  -- `xs.at(-1)`
  abbrev pub get_last? : List A → Option A
  get_last? [] = none
  get_last? (x ∷ []) = some x
  get_last? (x ∷ y ∷ xs) = get_last? (y ∷ xs)

  -- `x?.f ?? d`
  abbrev pub map_or {κ} : {B : Type κ} → B → (A → B) → Option A → B
  map_or d f none = d
  map_or d f (some x) = f x

  pub map_or-get_last? {κ} :
      {B : Type κ} (d : B) (f : A → B) (xs : List A)
      → map_or d f (get_last? xs) ≡ foldl (λ _ x. f x) d xs
  map_or-get_last? d f [] = refl
  map_or-get_last? d f (x ∷ []) = refl
  map_or-get_last? d f (x ∷ y ∷ xs) = map_or-get_last? d f (y ∷ xs)

  abbrev pub find : (A → Bool) → List A → Option A
  find p [] = none
  find p (x ∷ xs) = if p x then some x else find p xs

  -- `xs.some(p)`
  abbrev pub any : (A → Bool) → List A → Bool
  any p [] = false
  any p (x ∷ xs) = p x || any p xs

  -- `xs.every(p)`
  abbrev pub all : (A → Bool) → List A → Bool
  all p [] = true
  all p (x ∷ xs) = p x && all p xs

  -- `xs.filter(p)`
  abbrev pub filter : (A → Bool) → List A → List A
  filter p [] = []
  filter p (x ∷ xs) = if p x then x ∷ filter p xs else filter p xs

  -- `xs.slice(-n)`, for n > 0
  abbrev pub slice_last : ℕ → List A → List A
  slice_last n xs = drop (length xs - n) xs

  pub length-append : (xs ys : List A) → length (xs ++ ys) ≡ length xs + length ys
  length-append [] ys = omega arith
  length-append (x ∷ xs) ys = omega (arith, length-append xs ys)

  pub length-drop : (n : ℕ) (xs : List A) → length (drop n xs) ≡ length xs - n
  length-drop zero xs = omega arith
  length-drop (suc n) [] = omega arith
  length-drop (suc n) (x ∷ xs) = omega (arith, length-drop n xs)

  pub get_last?-snoc : (xs : List A) (x : A) → get_last? (xs ++ x ∷ []) ≡ some x
  get_last?-snoc [] x = refl
  get_last?-snoc (y ∷ []) x = refl
  get_last?-snoc (y ∷ z ∷ xs) x = get_last?-snoc (z ∷ xs) x

  -- A predicate that holds of every element.
  abbrev pub All {κ} : (A → Type κ) → List A → Type κ
  All P [] = Unit
  All P (x ∷ xs) = P x × All P xs

  pub All-append {κ} : (P : A → Type κ) (xs ys : List A) → All P xs → All P ys → All P (xs ++ ys)
  All-append P [] ys h k = k
  All-append P (x ∷ xs) ys h k = (h.0, All-append P xs ys h.1 k)

  pub any-append : (p : A → Bool) (xs ys : List A) → any p (xs ++ ys) ≡ (any p xs || any p ys)
  any-append p [] ys = refl
  any-append p (x ∷ xs) ys = ground (arith, any-append p xs ys)

  pub find-append :
      (p : A → Bool) (xs ys : List A) {a : A} → find p xs ≡ some a → find p (xs ++ ys) ≡ some a
  find-append p [] ys h = absurd (cc)
  find-append p (x ∷ xs) ys {a} h = elim (Bool-cases (p x)) [
    | inl e ↦ rw e (rw e at h)
    | inr e ↦ rw e (find-append p xs ys (rw e at h))
  ]

  pub find-append_none :
      (p : A → Bool) (xs : List A) (x : A)
      → find p xs ≡ none
      → p x ≡ true
      → find p (xs ++ x ∷ []) ≡ some x
  find-append_none p [] x h k = rw k
  find-append_none p (y ∷ xs) x h k = elim (Bool-cases (p y)) [
    | inl e ↦ absurd (none_ne_some (rw e at h))
    | inr e ↦ rw e (find-append_none p xs x (rw e at h) k)
  ]

module _ {ℓ} {A : Type ℓ} where
  -- What is found passes the test, and is one of the list.
  pub find-holds : (p : A → Bool) (xs : List A) {a : A} → find p xs ≡ some a → p a ≡ true
  find-holds p [] h = absurd (none_ne_some (sym h))
  find-holds p (x ∷ xs) h = elim (Bool-cases (p x)) [
    | inl e ↦ subst (λ y. p y ≡ true) (some_eq (rw e at h)) e
    | inr e ↦ find-holds p xs (rw e at h)
  ]

  pub any-find :
      (p q : A → Bool) (xs : List A) {a : A} → any q xs ≡ false → find p xs ≡ some a → q a ≡ false
  any-find p q [] none_bad h = absurd (none_ne_some (sym h))
  any-find p q (x ∷ xs) none_bad h =
      let (first, rest) = ||-eq_false (q x) _ none_bad in
      elim (Bool-cases (p x)) [
        | inl e ↦ subst (λ y. q y ≡ false) (some_eq (rw e at h)) first
        | inr e ↦ any-find p q xs rest (rw e at h)
      ]

  pub map_or-eq_true :
      (f : A → Bool) (o : Option A)
      → map_or false f o ≡ true
      → (a : A) × (o ≡ some a) × (f a ≡ true)
  map_or-eq_true f none h = absurd (false≢true h)
  map_or-eq_true f (some a) h = (a, refl, h)
