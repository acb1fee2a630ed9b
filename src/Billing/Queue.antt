-- ===== src/Billing/Queue.antt =====
-- The events of the adapter of packages/billing/src/index.ts, as a queue of those still pending.
use fuel_cap.Base.{
  ℕ, suc, String, ◌≡◌, refl, sym, ap, subst, ◌∙◌, inl, inr, Bool, true, false, none, some, some_eq,
  none_ne_some, List, [], ◌∷◌, find, values, Dict, lookup, insert, lookup-insert, ◌==◌, ==-eq,
  ==_refl, ==_sym, string_eq, if◌then◌else◌, Bool-cases,
}

module _ {V : Type 0} where
  -- No key stands in front of a second entry of its own.
  abbrev pub IsDistinct : Dict String V → Type 0
  IsDistinct [] = Unit {0}
  IsDistinct ((k, v) ∷ d) = (lookup k d ≡ none) × IsDistinct d

  pub insert-IsDistinct :
      (k : String) (v : V) (d : Dict String V) → IsDistinct d → IsDistinct (insert k v d)
  insert-IsDistinct k v [] h = (refl, tt)
  insert-IsDistinct k v ((j, w) ∷ d) h = elim (Bool-cases (j == k)) [
    | inl e ↦ rw e h
    | inr e ↦ rw e (
      lookup-insert k j v d ∙ ap (λ b. if b then some v else lookup j d) (==_sym k j ∙ e) ∙ h.0,
      insert-IsDistinct k v d h.1,
    )
  ]

  -- A value that is found stands under a key.
  pub find-lookup :
      (p : V → Bool) (d : Dict String V) {w : V}
      → IsDistinct d
      → find p (values d) ≡ some w
      → (k : String) × (lookup k d ≡ some w) × (p w ≡ true)
  find-lookup p [] h found = absurd (cc)
  find-lookup p ((j, v) ∷ d) {w = w} h found = elim (Bool-cases (p v)) [
    | inl e ↦
        let same = some_eq (rw e at found) in
        (
          j,
          ap (λ b. if b then some v else lookup j d) (==_refl j) ∙ ap some same,
          subst (λ x. p x ≡ true) same e,
        )
    | inr e ↦
        let (k, read, holds) = find-lookup p d {w = w} h.1 (rw e at found) in
        elim (Bool-cases (j == k)) [
          | inl same ↦
              absurd (none_ne_some (sym read ∙ ap (λ i. lookup i d) (sym (==-eq j k same)) ∙ h.0))
          | inr other ↦ (k, rw other read, holds)
        ]
  ]

  abbrev pub count_if : (V → Bool) → List V → ℕ
  count_if p [] = 0
  count_if p (v ∷ vs) = if p v then suc (count_if p vs) else count_if p vs

  -- Replacing a value that counts by one that does not takes one away.
  pub count_if-insert :
      (p : V → Bool) (k : String) (w v : V) (d : Dict String V)
      → lookup k d ≡ some w
      → p w ≡ true
      → p v ≡ false
      → suc (count_if p (values (insert k v d))) ≡ count_if p (values d)
  count_if-insert p k w v [] found hit miss = absurd (cc)
  count_if-insert p k w v ((j, x) ∷ d) found hit miss = elim (Bool-cases (j == k)) [
    | inl e ↦ rw (e, miss, subst (λ y. p y ≡ true) (sym (some_eq (rw e at found))) hit) refl
    | inr e ↦
        let less = count_if-insert p k w v d (rw e at found) hit miss in
        elim (Bool-cases (p x)) [ inl q ↦ rw (e, q) (ap suc less) | inr q ↦ rw (e, q) less ]
  ]

  pub count_if-none : (p : V → Bool) (vs : List V) → find p vs ≡ none → count_if p vs ≡ 0
  count_if-none p [] h = refl
  count_if-none p (v ∷ vs) h = elim (Bool-cases (p v)) [
    | inl e ↦ absurd (none_ne_some (rw e at h))
    | inr e ↦ rw e (count_if-none p vs (rw e at h))
  ]
