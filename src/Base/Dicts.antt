-- ===== src/Base/Dicts.antt =====
-- A JavaScript `Map` (or an object used as one) as an association list in insertion order.
use mathlib.Core.Path.{◌≡◌, refl, sym, subst, ◌∙◌}
use mathlib.Core.Logic.{inl, inr}
use mathlib.Core.Bool.{Bool}
use mathlib.Core.Option.{Option, none, some}
use mathlib.Core.List.{List, [], ◌∷◌}
use native.Mathlib.Omega.{arith}
use fuel_cap.Base.Tests.{if◌then◌else◌, is_some, some_eq, Bool-cases}
use fuel_cap.Base.Equality.{Eq, ◌==◌, ==-eq}
use fuel_cap.Base.Lists.{All}

abbrev pub Dict {ℓ κ} : Type ℓ → Type κ → Type (ℓ ⊔ κ)
Dict K V = List (K × V)

module _ {ℓ κ} {K : Type ℓ} {V : Type κ} where
  -- `[...m.values()]`
  abbrev pub values : Dict K V → List V
  values [] = []
  values ((k, v) ∷ d) = v ∷ values d

module _ {ℓ κ} {K : Type ℓ} {V : Type κ} ⦃e : Eq K⦄ where
  -- `m.get(k)`
  abbrev pub lookup : K → Dict K V → Option V
  lookup k [] = none
  lookup k ((j, v) ∷ d) = if j == k then some v else lookup k d

  -- `m.has(k)`
  abbrev pub contains : K → Dict K V → Bool
  contains k d = is_some (lookup k d)

  -- `m.set(k, v)`: an existing key keeps its place
  abbrev pub insert : K → V → Dict K V → Dict K V
  insert k v [] = (k, v) ∷ []
  insert k v ((j, w) ∷ d) = if j == k then (j, v) ∷ d else (j, w) ∷ insert k v d

  pub lookup-insert :
      (k j : K) (v : V) (d : Dict K V)
      → lookup j (insert k v d) ≡ (if k == j then some v else lookup j d)
  lookup-insert k j v [] = refl
  lookup-insert k j v ((i, w) ∷ d) = elim (Bool-cases (i == k)) [
    | inl p ↦ rw p (rw (==-eq i k p) (ground arith))
    | inr p ↦ rw p (
        ground (
          arith,
          lookup-insert k j v d,
          e.is_equal_iff i j,
          e.is_equal_iff k j,
          e.is_equal_iff i k,
        ))
  ]

  -- What holds of all values of a map holds of one that is found.
  pub All-lookup {μ} :
      (P : V → Type μ) (k : K) (d : Dict K V) {v : V} → All P (values d) → lookup k d ≡ some v → P v
  All-lookup P k [] h found = absurd (cc)
  All-lookup P k ((j, w) ∷ d) {v} h found = elim (Bool-cases (j == k)) [
    | inl p ↦ subst P (some_eq (rw p at found)) h.0
    | inr p ↦ All-lookup P k d h.1 (rw p at found)
  ]

  pub All-insert {μ} :
      (P : V → Type μ) (k : K) (v : V) (d : Dict K V)
      → All P (values d)
      → P v
      → All P (values (insert k v d))
  All-insert P k v [] h new = (new, tt)
  All-insert P k v ((j, w) ∷ d) h new = elim (Bool-cases (j == k)) [
    | inl p ↦ rw p (new, h.1)
    | inr p ↦ rw p (h.0, All-insert P k v d h.1 new)
  ]

-- What holds of every entry that can be found.
module _ {ℓ κ μ} {K : Type ℓ} {V : Type κ} ⦃e : Eq K⦄ where
  abbrev pub Each : (K → V → Type μ) → Dict K V → Type (ℓ ⊔ κ ⊔ μ)
  Each P d = (k : K) (v : V) → lookup k d ≡ some v → P k v

  pub Each-insert :
      (P : K → V → Type μ) (k : K) (v : V) (d : Dict K V) → Each P d → P k v → Each P (insert k v d)
  Each-insert P k v d h new j w found =
      let read = sym (lookup-insert k j v d) ∙ found in
      elim (Bool-cases (k == j)) [
        | inl p ↦ subst (λ i. P i w) (==-eq k j p) (subst (P k) (some_eq (rw p at read)) new)
        | inr p ↦ h j w (rw p at read)
      ]
