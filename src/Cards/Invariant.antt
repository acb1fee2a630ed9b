-- ===== src/Cards/Invariant.antt =====
-- What holds of every authorization that the simulator of packages/card-simulator/src/index.ts
-- stores, whatever calls have been made.
use fuel_cap.Base.{
  String, ◌≡◌, refl, sym, subst, true, false, some, lookup, insert, Each, Each-insert, string_eq,
  if◌then◌else◌, arith,
}
use fuel_cap.Base.Int.{ℤ, pos, ◌+ℤ◌, ◌≤ℤ◌, eqb_ℤ-eq, int_laws}
use fuel_cap.Cards.{
  Simulator, CardProfile, CardAuthorization, AuthorizeCardCommand, ClearCardCommand,
  AuthorizationReason, matched_authorization, is_open_status, new_authorization, clearing_reason,
  clear_authorization, release_authorization, store_authorization, store_clearing, accept_clearing,
  break_clearing, store_reversal, new_clearing,
}
use fuel_cap.Cards.Steps.{Step, replayed, authorized, accepted, broken, released}

-- The money of an authorization: an approved one has its whole amount cleared, released or still
-- outstanding, and a declined one has none.
pub record IsSound (a : CardAuthorization) : Type 0 where
  pub positive : pos 1 ≤ℤ a.amount_minor
  pub conserved :
      a.cleared_minor +ℤ a.released_minor +ℤ a.outstanding_minor
      ≡ (if a.is_approved then a.amount_minor else pos 0)
  pub cleared_nonneg : pos 0 ≤ℤ a.cleared_minor
  pub released_nonneg : pos 0 ≤ℤ a.released_minor
  pub outstanding_nonneg : pos 0 ≤ℤ a.outstanding_minor
  pub open_approved : is_open_status a.status ≡ true → a.is_approved ≡ true
  pub open_unreleased : is_open_status a.status ≡ true → a.released_minor ≡ pos 0
  pub open_outstanding : is_open_status a.status ≡ true → pos 1 ≤ℤ a.outstanding_minor
  pub closed_settled : is_open_status a.status ≡ false → a.outstanding_minor ≡ pos 0

new_authorization-IsSound :
    (card : CardProfile) (c : AuthorizeCardCommand) (r : AuthorizationReason)
    → pos 1 ≤ℤ c.amount_minor
    → IsSound (new_authorization card c r)
unfolding new_authorization ◌+ℤ◌
new_authorization-IsSound card c r p = ground arith

-- What a clearing that matched has tested.
pub record IsCovered (a : CardAuthorization) (c : ClearCardCommand) : Type 0 where
  pub is_open : is_open_status a.status ≡ true
  pub covered : c.amount_minor ≤ℤ a.outstanding_minor

pub clearing_reason-IsCovered :
    (a : CardAuthorization) (c : ClearCardCommand)
    → clearing_reason (some a) c ≡ matched_authorization
    → IsCovered a c
unfolding clearing_reason
clearing_reason-IsCovered a c h = ground arith

clear_authorization-IsSound :
    (a : CardAuthorization) (n : ℤ)
    → IsSound a
    → is_open_status a.status ≡ true
    → pos 1 ≤ℤ n
    → n ≤ℤ a.outstanding_minor
    → IsSound (clear_authorization a n)
unfolding clear_authorization
clear_authorization-IsSound a n v o p q = grind (int_laws, eqb_ℤ-eq)

release_authorization-IsSound :
    (a : CardAuthorization) → IsSound a → IsSound (release_authorization a)
unfolding release_authorization
release_authorization-IsSound a v = grind int_laws

-- Every stored authorization is sound and stands under its own identity.
pub record IsValid (s : Simulator) : Type 0 where
  pub keyed : Each (λ k a. a.authorization_id ≡ k) s.authorizations
  pub sound : Each (λ _ a. IsSound a) s.authorizations

module _ (s : Simulator) (v : IsValid s) where
  pub found_itself :
      (id : String) (a : CardAuthorization)
      → lookup id s.authorizations ≡ some a
      → lookup a.authorization_id s.authorizations ≡ some a
  found_itself id a h = subst (λ k. lookup k s.authorizations ≡ some a) (sym (v.keyed id a h)) h

  -- Storing a sound authorization under its identity keeps the invariant.
  insert-IsValid :
      (a : CardAuthorization)
      → IsSound a
      → (Each (λ k b. b.authorization_id ≡ k) (insert a.authorization_id a s.authorizations))
        × (Each (λ _ b. IsSound b) (insert a.authorization_id a s.authorizations))
  insert-IsValid a sound = (
    Each-insert (λ k b. b.authorization_id ≡ k) a.authorization_id a s.authorizations v.keyed refl,
    Each-insert (λ _ b. IsSound b) a.authorization_id a s.authorizations v.sound sound,
  )

-- Every step of the simulator keeps the invariant.
pub Step-IsValid : {s t : Simulator} → Step s t → IsValid s → IsValid t
unfolding store_authorization new_authorization store_clearing accept_clearing break_clearing
    store_reversal clear_authorization release_authorization new_clearing
Step-IsValid (replayed e) v = subst IsValid (sym e) v
Step-IsValid {s} (authorized card c fp _ new p e) v =
    let sound = new_authorization-IsSound card c _ p in
    let (k, m) = insert-IsValid s v _ sound in
    subst IsValid (sym e) (record { keyed = k; sound = m })
Step-IsValid {s} (accepted a c fp found _ matched p e) v =
    let w = clearing_reason-IsCovered a c matched in
    let sound =
      clear_authorization-IsSound a c.amount_minor (v.sound _ a found) w.is_open p w.covered in
    let (k, m) = insert-IsValid s v _ sound in
    subst IsValid (sym e) (record { keyed = k; sound = m })
Step-IsValid (broken a c fp _ _ _ e) v =
    subst IsValid (sym e) (record { keyed = v.keyed; sound = v.sound })
Step-IsValid {s} (released a c fp found _ e) v =
    let sound = release_authorization-IsSound a (v.sound _ a found) in
    let (k, m) = insert-IsValid s v _ sound in
    subst IsValid (sym e) (record { keyed = k; sound = m })
