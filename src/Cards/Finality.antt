-- ===== src/Cards/Finality.antt =====
-- What stays as it is in the simulators of packages/card-simulator/src/index.ts.
use fuel_cap.Base.{
  String, ◌≡◌, sym, ap, ◌∙◌, inl, inr, true, false, false≢true, Option, none, some, lookup, insert,
  Dict, ◌==◌, string_eq, ==-eq, lookup-insert, Bool-cases, some_eq, none_ne_some, ok,
}
use fuel_cap.Cards.{
  Host, Simulator, CardAuthorization, AuthorizeCardCommand, CardClearing, ClearCardCommand,
  AuthorizationReversal, ReverseAuthorizationCommand, is_open_status, authorize, clear, reverse,
  get_authorization, new_authorization, store_authorization, store_clearing, accept_clearing,
  break_clearing, store_reversal,
}
use fuel_cap.Cards.Steps.{
  Step, replayed, authorized, accepted, broken, released, authorize-Step, clear-Step, reverse-Step,
}
use fuel_cap.Cards.Invariant.{IsValid, found_itself, clearing_reason-IsCovered}
use fuel_cap.Cards.Lifecycle.{Reachable, authorizing, clearing, reversing, Reachable-IsConsistent}

open_ne_closed :
    (s : Simulator) (v : IsValid s) (id : String) (a b : CardAuthorization)
    → lookup id s.authorizations ≡ some a
    → is_open_status a.status ≡ false
    → lookup b.authorization_id s.authorizations ≡ some b
    → is_open_status b.status ≡ true
    → (b.authorization_id == id) ≡ false
open_ne_closed s v id a b h closed found is_open = elim (Bool-cases (b.authorization_id == id)) [
  | inl e ↦
      let same = some_eq (sym found ∙ ap (λ k. lookup k s.authorizations) (==-eq _ id e) ∙ h) in
      absurd (false≢true (sym closed ∙ ap (λ c. is_open_status c.status) (sym same) ∙ is_open))
  | inr e ↦ e
]

lookup-other :
    (d : Dict String CardAuthorization) (k id : String) (b : CardAuthorization)
    → (k == id) ≡ false
    → lookup id (insert k b d) ≡ lookup id d
lookup-other d k id b other = lookup-insert k id b d ∙ rw other

new_ne :
    (d : Dict String CardAuthorization) (k id : String) (a : CardAuthorization)
    → lookup id d ≡ some a
    → lookup k d ≡ none
    → (k == id) ≡ false
new_ne d k id a h new = elim (Bool-cases (k == id)) [
  | inl e ↦ absurd (none_ne_some (sym h ∙ ap (λ j. lookup j d) (sym (==-eq k id e)) ∙ new))
  | inr e ↦ e
]

Step-closed :
    {s t : Simulator} (id : String) (a : CardAuthorization)
    → Step s t
    → IsValid s
    → get_authorization s id ≡ some a
    → is_open_status a.status ≡ false
    → get_authorization t id ≡ some a
unfolding get_authorization store_authorization store_clearing accept_clearing break_clearing
    store_reversal new_authorization
Step-closed id a (replayed e) v h closed = ap (λ u. lookup id u.authorizations) e ∙ h
Step-closed {s} id a (authorized card c fp _ new _ e) v h closed =
    ap (λ u. lookup id u.authorizations) e
    ∙ lookup-other s.authorizations c.authorization_id id _
        (new_ne s.authorizations c.authorization_id id a h new)
    ∙ h
Step-closed {s} id a (accepted b c fp found _ matched _ e) v h closed =
    let is_open = (clearing_reason-IsCovered b c matched).is_open in
    let itself = found_itself s v c.authorization_id b found in
    ap (λ u. lookup id u.authorizations) e
    ∙ lookup-other s.authorizations b.authorization_id id _
        (open_ne_closed s v id a b h closed itself is_open)
    ∙ h
Step-closed id a (broken b c fp _ _ _ e) v h closed = ap (λ u. lookup id u.authorizations) e ∙ h
Step-closed {s} id a (released b c fp found is_open e) v h closed =
    let itself = found_itself s v c.authorization_id b found in
    ap (λ u. lookup id u.authorizations) e
    ∙ lookup-other s.authorizations b.authorization_id id _
        (open_ne_closed s v id a b h closed itself is_open)
    ∙ h

-- The simulators that calls make of `s`, one after the other.
pub data Later (host : Host) (s : Simulator) : Simulator → Type 0 where
  itself : Later host s s
  authorizing_later :
      {t u : Simulator} (c : AuthorizeCardCommand) {r : Option CardAuthorization}
      → Later host s t
      → authorize host t c ≡ ok (u, r)
      → Later host s u
  clearing_later :
      {t u : Simulator} (c : ClearCardCommand) {r : Option CardClearing}
      → Later host s t
      → clear host t c ≡ ok (u, r)
      → Later host s u
  reversing_later :
      {t u : Simulator} (c : ReverseAuthorizationCommand) {r : Option AuthorizationReversal}
      → Later host s t
      → reverse host t c ≡ ok (u, r)
      → Later host s u

Later-Reachable :
    (host : Host) (s t : Simulator) → Reachable host s → Later host s t → Reachable host t
Later-Reachable host s t r itself = r
Later-Reachable host s u r (authorizing_later {t} c l h) =
    authorizing c (Later-Reachable host s t r l) h
Later-Reachable host s u r (clearing_later {t} c l h) = clearing c (Later-Reachable host s t r l) h
Later-Reachable host s u r (reversing_later {t} c l h) =
    reversing c (Later-Reachable host s t r l) h

-- A closed authorization is final: once a simulator that calls reach stores an authorization that is
-- no longer open (declined, fully cleared or reversed), every later simulator, after any sequence of
-- authorizations, clearings and reversals, still returns it unchanged.
pub get_authorization-final :
    (host : Host) (s t : Simulator) (id : String) (a : CardAuthorization)
    → Reachable host s
    → get_authorization s id ≡ some a
    → is_open_status a.status ≡ false
    → Later host s t
    → get_authorization t id ≡ some a
get_authorization-final host s t id a r h closed itself = h
get_authorization-final host s u id a r h closed (authorizing_later {t} c l e) =
    Step-closed id a (authorize-Step host t c e)
      (Reachable-IsConsistent host t (Later-Reachable host s t r l)).valid
      (get_authorization-final host s t id a r h closed l) closed
get_authorization-final host s u id a r h closed (clearing_later {t} c l e) =
    Step-closed id a (clear-Step host t c e)
      (Reachable-IsConsistent host t (Later-Reachable host s t r l)).valid
      (get_authorization-final host s t id a r h closed l) closed
get_authorization-final host s u id a r h closed (reversing_later {t} c l e) =
    Step-closed id a (reverse-Step host t c e)
      (Reachable-IsConsistent host t (Later-Reachable host s t r l)).valid
      (get_authorization-final host s t id a r h closed l) closed
