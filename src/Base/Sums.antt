-- ===== src/Base/Sums.antt =====
-- Sums over filtered lists and over the values of a map.
use mathlib.Core.Path.{◌≡◌, refl, sym, ap, ◌∙◌}
use mathlib.Core.Logic.{inl, inr}
use mathlib.Core.Bool.{Bool}
use mathlib.Core.Option.{none, some}
use mathlib.Core.List.{List, [], ◌∷◌, map}
use fuel_cap.Base.Tests.{if◌then◌else◌, Bool-cases, some_eq, none_ne_some}
use fuel_cap.Base.Equality.{Eq, ◌==◌}
use fuel_cap.Base.Lists.{filter, All}
use fuel_cap.Base.Dicts.{Dict, values, lookup, insert}
use fuel_cap.Base.Int.{
  ℤ, pos, ◌+ℤ◌, ◌≤ℤ◌, int_laws, sum_of, reduce_sum, reduce_sum-eq-sum_of, add_assoc,
}

abbrev pub where_ {ℓ} : {A : Type ℓ} → (A → Bool) → (A → ℤ) → A → ℤ
where_ p f x = if p x then f x else pos 0

pub sum_of-filter {ℓ} :
    {A : Type ℓ} (p : A → Bool) (f : A → ℤ) (xs : List A)
    → sum_of f (filter p xs) ≡ sum_of (where_ p f) xs
sum_of-filter p f [] = refl
sum_of-filter p f (x ∷ xs) = elim (Bool-cases (p x)) [
  | inl e ↦ rw (e, sum_of-filter p f xs)
  | inr e ↦ rw (e, sum_of-filter p f xs) (omega int_laws)
]

pub reduce_sum-filter {ℓ} :
    {A : Type ℓ} (p : A → Bool) (f : A → ℤ) (xs : List A)
    → reduce_sum f (filter p xs) ≡ sum_of (where_ p f) xs
reduce_sum-filter p f xs = reduce_sum-eq-sum_of f (filter p xs) ∙ sum_of-filter p f xs

module _ {ℓ κ} {K : Type ℓ} {V : Type κ} ⦃e : Eq K⦄ (f : V → ℤ) where
  pub sum_of-insert_new :
      (k : K) (v : V) (d : Dict K V)
      → lookup k d ≡ none
      → sum_of f (values (insert k v d)) ≡ sum_of f (values d) +ℤ f v
  sum_of-insert_new k v [] h = omega int_laws
  sum_of-insert_new k v ((j, w) ∷ d) h = elim (Bool-cases (j == k)) [
    | inl p ↦ absurd (none_ne_some (rw p at h))
    | inr p ↦ rw (p, sum_of-insert_new k v d (rw p at h)) (omega int_laws)
  ]

  pub sum_of-insert_old :
      (k : K) (v : V) (d : Dict K V) {w : V}
      → lookup k d ≡ some w
      → sum_of f (values (insert k v d)) +ℤ f w ≡ sum_of f (values d) +ℤ f v
  sum_of-insert_old k v [] h = absurd (none_ne_some (sym h))
  sum_of-insert_old k v ((j, u) ∷ d) {w} h = elim (Bool-cases (j == k)) [
    | inl p ↦ rw (p, ← ap f (some_eq (rw p at h))) (omega int_laws)
    | inr p ↦ rw p (move (f u) _ _ _ _ (sum_of-insert_old k v d (rw p at h)))
  ]
    where
      move : (a b c g h : ℤ) → b +ℤ c ≡ g +ℤ h → a +ℤ b +ℤ c ≡ a +ℤ g +ℤ h
      move a b c g h e = add_assoc a b c ∙ ap (λ n. a +ℤ n) e ∙ sym (add_assoc a g h)

-- Sums of two functions, one of which is at most the other on every item.
module _ {ℓ} {A : Type ℓ} where
  pub sum_of-le :
      (f g : A → ℤ) (xs : List A) → All (λ x. f x ≤ℤ g x) xs → sum_of f xs ≤ℤ sum_of g xs
  sum_of-le f g [] h = omega int_laws
  sum_of-le f g (x ∷ xs) h = omega (int_laws, h.0, sum_of-le f g xs h.1)

  pub sum_of-map {κ} :
      {B : Type κ} (f : A → ℤ) (g : B → A) (xs : List B)
      → sum_of f (map g xs) ≡ sum_of (λ x. f (g x)) xs
  sum_of-map f g [] = refl
  sum_of-map f g (x ∷ xs) = ap (λ n. f (g x) +ℤ n) (sum_of-map f g xs)
