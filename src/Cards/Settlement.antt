-- ===== src/Cards/Settlement.antt =====
-- The clearing instructions of packages/card-simulator/src/index.ts against the authorizations.
use fuel_cap.Base.{
  String, ◌≡◌, refl, sym, ap, subst, ◌∙◌, inl, inr, false, Option, none, some, lookup, insert, Dict,
  values, ◌==◌, string_eq, ==-eq, lookup-insert, Bool-cases, none_ne_some, map_or,
}
use fuel_cap.Base.Int.{ℤ, pos, ◌+ℤ◌, int_laws, sum_of}
use fuel_cap.Base.Sums.{where_, sum_of-insert_new}
use fuel_cap.Cards.{
  Simulator, CardAuthorization, ClearingInstruction, CardClearing, new_authorization,
  clear_authorization, release_authorization, store_authorization, store_clearing, accept_clearing,
  break_clearing, store_reversal, new_clearing, new_instruction,
}
use fuel_cap.Cards.Steps.{Step, replayed, authorized, accepted, broken, released}
use fuel_cap.Cards.Invariant.{IsValid, found_itself}

-- The amount of the instructions for one authorization.
abbrev pub instructed : Dict String ClearingInstruction → String → ℤ
instructed instructions id =
    sum_of (where_ (λ i. i.authorization_id == id) (λ i. i.amount_minor)) (values instructions)

abbrev pub cleared_or_zero : Option CardAuthorization → ℤ
cleared_or_zero = map_or (pos 0) (λ a. a.cleared_minor)

-- An instruction is stored under a clearing's identity only, and the instructions for an
-- authorization add up to what is cleared of it.
pub record IsSettled (s : Simulator) : Type 0 where
  pub instructed_cleared :
      (id : String) → instructed s.instructions id ≡ cleared_or_zero (lookup id s.authorizations)
  pub fresh : (k : String) → lookup k s.clearings ≡ none → lookup k s.instructions ≡ none

-- Storing an authorization with what is cleared of it as before changes no total.
same_cleared :
    (d : Dict String CardAuthorization) (k id : String) (a : CardAuthorization)
    → cleared_or_zero (lookup k d) ≡ a.cleared_minor
    → cleared_or_zero (lookup id (insert k a d)) ≡ cleared_or_zero (lookup id d)
same_cleared d k id a h = rw (lookup-insert k id a d) (elim (Bool-cases (k == id)) [
  | inl p ↦ rw p (sym h ∙ ap (λ i. cleared_or_zero (lookup i d)) (==-eq k id p))
  | inr p ↦ rw p
])

-- A key that is not found after a write was not found before it.
none_before {ℓ} :
    {V : Type ℓ} (k j : String) (v : V) (d : Dict String V)
    → lookup j (insert k v d) ≡ none
    → ((k == j) ≡ false) × (lookup j d ≡ none)
none_before k j v d h = elim (Bool-cases (k == j)) [
  | inl p ↦ absurd (none_ne_some (rw p at (sym (lookup-insert k j v d) ∙ h)))
  | inr p ↦ (p, rw p at (sym (lookup-insert k j v d) ∙ h))
]

module _ (s : Simulator) (w : IsSettled s) where
  -- An instruction for an amount that is now cleared of its authorization.
  settle_instruction :
      (a b : CardAuthorization) (i : ClearingInstruction) (k : String)
      → lookup a.authorization_id s.authorizations ≡ some a
      → lookup k s.instructions ≡ none
      → i.authorization_id ≡ a.authorization_id
      → b.cleared_minor ≡ a.cleared_minor +ℤ i.amount_minor
      → (id : String)
      → instructed (insert k i s.instructions) id
        ≡ cleared_or_zero (lookup id (insert a.authorization_id b s.authorizations))
  settle_instruction a b i k found new names more id =
      sum_of-insert_new (where_ (λ i. i.authorization_id == id) (λ i. i.amount_minor)) k i
        s.instructions new
      ∙ rw (w.instructed_cleared id, lookup-insert a.authorization_id id b s.authorizations, names)
          (elim (Bool-cases (a.authorization_id == id)) [
            | inl p ↦ rw (p, ← ==-eq a.authorization_id id p, found) (sym more)
            | inr p ↦ rw p (omega int_laws)
          ])

  write_fresh :
      (cid : String) (cl : CardClearing) (i : ClearingInstruction) (k : String)
      → lookup k (insert cid cl s.clearings) ≡ none
      → lookup k (insert cid i s.instructions) ≡ none
  write_fresh cid cl i k h =
      let (other, absent) = none_before cid k cl s.clearings h in
      lookup-insert cid k i s.instructions ∙ rw (other, w.fresh k absent)

  keep_fresh :
      (cid : String) (cl : CardClearing) (k : String)
      → lookup k (insert cid cl s.clearings) ≡ none
      → lookup k s.instructions ≡ none
  keep_fresh cid cl k h = w.fresh k (none_before cid k cl s.clearings h).1

-- Every step keeps the instructions in line with what is cleared.
pub Step-IsSettled : {s t : Simulator} → Step s t → IsValid s → IsSettled s → IsSettled t
unfolding store_authorization new_authorization store_clearing accept_clearing break_clearing
    store_reversal clear_authorization release_authorization new_clearing new_instruction
Step-IsSettled (replayed e) v w = subst IsSettled (sym e) w
Step-IsSettled {s} (authorized card c fp _ new p e) v w = subst IsSettled (sym e) (record {
  instructed_cleared = λ id.
      w.instructed_cleared id
      ∙ sym (same_cleared s.authorizations c.authorization_id id _ (rw new));
  fresh = w.fresh;
})
Step-IsSettled {s} (accepted a c fp found new _ p e) v w = subst IsSettled (sym e) (record {
  instructed_cleared =
      settle_instruction s w a _ _ c.clearing_id (found_itself s v c.authorization_id a found)
        (w.fresh _ new) refl refl;
  fresh = write_fresh s w c.clearing_id _ _;
})
Step-IsSettled {s} (broken a c fp _ _ _ e) v w =
    subst IsSettled (sym e)
      (record { instructed_cleared = w.instructed_cleared; fresh = keep_fresh s w c.clearing_id _ })
Step-IsSettled {s} (released a c fp found _ e) v w = subst IsSettled (sym e) (record {
  instructed_cleared = λ id.
      w.instructed_cleared id
      ∙ sym (
          same_cleared s.authorizations a.authorization_id id _
            (ap cleared_or_zero (found_itself s v c.authorization_id a found)));
  fresh = w.fresh;
})
