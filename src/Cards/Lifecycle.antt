-- ===== src/Cards/Lifecycle.antt =====
-- The simulators that the constructor and the methods of packages/card-simulator/src/index.ts reach.
use fuel_cap.Base.{
  String, ◌≡◌, refl, sym, subst, false, Option, some, List, [], ◌∷◌, lookup, insert, contains, Dict,
  Each, Each-insert, string_eq, none_ne_some, nat_beq, length, ok, >>-eq_ok, >>=-eq_ok, ok_eq,
  arith,
}
use fuel_cap.Base.Int.{ℤ, pos, ◌≤ℤ◌, int_laws}
use fuel_cap.Cards.{
  Host, Simulator, CardProfile, CardAuthorization, AuthorizeCardCommand, CardClearing,
  ClearCardCommand, AuthorizationReversal, ReverseAuthorizationCommand, CardError,
  not_positive_minor, validate_card, add_cards, create_simulator, empty_simulator, authorize, clear,
  reverse, get_authorization, daily_approved_minor,
}
use fuel_cap.Cards.Steps.{Step, authorize-Step, clear-Step, reverse-Step}
use fuel_cap.Cards.Invariant.{IsSound, IsValid, Step-IsValid}
use fuel_cap.Cards.Settlement.{IsSettled, instructed, Step-IsSettled}
use fuel_cap.Cards.Limits.{IsWithin, Step-IsWithin}

-- A stored card stands under its identity and has a positive limit.
abbrev IsCard : String → CardProfile → Type 0
IsCard k card = (card.card_id ≡ k) × (pos 1 ≤ℤ card.daily_limit_minor)

positive_limit :
    (card : CardProfile) {u : Unit {0}}
    → validate_card card ≡ ok u
    → pos 1 ≤ℤ card.daily_limit_minor
unfolding validate_card
positive_limit card h =
    let (_, h₁) = >>-eq_ok _ CardError.text_required _ h in
    let (_, h₂) = >>-eq_ok _ CardError.category_required _ h₁ in
    let (_, h₃) = >>-eq_ok _ CardError.amount_invalid _ h₂ in
    let (p, _) =
      >>-eq_ok (not_positive_minor card.daily_limit_minor) CardError.amount_invalid _ h₃ in
    positive card.daily_limit_minor p
  where
    positive : (n : ℤ) → not_positive_minor n ≡ false → pos 1 ≤ℤ n
    positive n q = ground arith

add_cards-IsCard :
    (profiles : List CardProfile) (cards : Dict String CardProfile) {d : Dict String CardProfile}
    → Each IsCard cards
    → add_cards profiles cards ≡ ok d
    → Each IsCard d
unfolding add_cards
add_cards-IsCard [] cards h e = subst (Each IsCard) (ok_eq e) h
add_cards-IsCard (p ∷ ps) cards h e =
    let (_, valid, e₁) = >>=-eq_ok (validate_card p) _ e in
    let (_, e₂) = >>-eq_ok (contains p.card_id cards) CardError.card_not_unique _ e₁ in
    add_cards-IsCard ps (insert p.card_id p cards)
      (Each-insert IsCard p.card_id p cards h (refl, positive_limit p valid)) e₂

-- All three invariants.
pub record IsConsistent (s : Simulator) : Type 0 where
  pub valid : IsValid s
  pub settled : IsSettled s
  pub within : IsWithin s

pub Step-IsConsistent : {s t : Simulator} → Step s t → IsConsistent s → IsConsistent t
Step-IsConsistent step v = record {
  valid = Step-IsValid step v.valid;
  settled = Step-IsSettled step v.valid v.settled;
  within = Step-IsWithin step v.valid v.within;
}

create_simulator-IsConsistent :
    (profiles : List CardProfile) {s : Simulator}
    → create_simulator profiles ≡ ok s
    → IsConsistent s
unfolding create_simulator daily_approved_minor
create_simulator-IsConsistent profiles h =
    let (_, h₁) = >>-eq_ok (nat_beq (length profiles) 0) CardError.card_required _ h in
    let (cards, added, h₂) = >>=-eq_ok (add_cards profiles []) _ h₁ in
    let all_cards = add_cards-IsCard profiles [] (λ k v e. absurd (none_ne_some (sym e))) added in
    subst IsConsistent {x = record empty_simulator { cards = cards }} (ok_eq h₂) (record {
      valid = record {
        keyed = λ k a e. absurd (none_ne_some (sym e));
        sound = λ k a e. absurd (none_ne_some (sym e));
      };
      settled = record { instructed_cleared = λ id. refl; fresh = λ k e. refl };
      within = record {
        keyed = λ k card e. (all_cards k card e).0;
        within = λ day k card e. omega (int_laws, (all_cards k card e).1);
      };
    })

-- A simulator after some calls; a call that throws changes nothing and is left out.
pub data Reachable (host : Host) : Simulator → Type 0 where
  created :
      (profiles : List CardProfile) {s : Simulator}
      → create_simulator profiles ≡ ok s
      → Reachable host s
  authorizing :
      {s t : Simulator} (c : AuthorizeCardCommand) {r : Option CardAuthorization}
      → Reachable host s
      → authorize host s c ≡ ok (t, r)
      → Reachable host t
  clearing :
      {s t : Simulator} (c : ClearCardCommand) {r : Option CardClearing}
      → Reachable host s
      → clear host s c ≡ ok (t, r)
      → Reachable host t
  reversing :
      {s t : Simulator} (c : ReverseAuthorizationCommand) {r : Option AuthorizationReversal}
      → Reachable host s
      → reverse host s c ≡ ok (t, r)
      → Reachable host t

pub Reachable-IsConsistent : (host : Host) (s : Simulator) → Reachable host s → IsConsistent s
Reachable-IsConsistent host s (created profiles h) = create_simulator-IsConsistent profiles h
Reachable-IsConsistent host t (authorizing {s} c r h) =
    Step-IsConsistent (authorize-Step host s c h) (Reachable-IsConsistent host s r)
Reachable-IsConsistent host t (clearing {s} c r h) =
    Step-IsConsistent (clear-Step host s c h) (Reachable-IsConsistent host s r)
Reachable-IsConsistent host t (reversing {s} c r h) =
    Step-IsConsistent (reverse-Step host s c h) (Reachable-IsConsistent host s r)

-- Every authorization that a simulator can hold is sound: what is cleared, released and outstanding
-- is never negative and adds up to the approved amount, or to zero if it was declined; one that is
-- open was approved, has released nothing and has money outstanding, and one that is not open has
-- none outstanding.
pub get_authorization-IsSound :
    (host : Host) (s : Simulator) (id : String) (a : CardAuthorization)
    → Reachable host s
    → get_authorization s id ≡ some a
    → IsSound a
unfolding get_authorization
get_authorization-IsSound host s id a r h = (Reachable-IsConsistent host s r).valid.sound id a h

-- On every card of a simulator, and on every day, the approved amounts stay within the daily limit.
pub daily_approved_minor-within :
    (host : Host) (s : Simulator) (card_id day : String) (card : CardProfile)
    → Reachable host s
    → lookup card_id s.cards ≡ some card
    → daily_approved_minor s.authorizations card_id day ≤ℤ card.daily_limit_minor
daily_approved_minor-within host s card_id day card r h =
    (Reachable-IsConsistent host s r).within.within day card_id card h

cleared_le : (a : CardAuthorization) → IsSound a → a.cleared_minor ≤ℤ a.amount_minor
cleared_le a w = grind int_laws

-- The instructions that are issued for an authorization add up to what is cleared of it, and that is
-- at most its amount: no more is ever settled than was authorized.
pub instructed-authorization :
    (host : Host) (s : Simulator) (id : String) (a : CardAuthorization)
    → Reachable host s
    → get_authorization s id ≡ some a
    → (instructed s.instructions id ≡ a.cleared_minor) × (a.cleared_minor ≤ℤ a.amount_minor)
unfolding get_authorization
instructed-authorization host s id a r h =
    let v = Reachable-IsConsistent host s r in
    (rw (v.settled.instructed_cleared id, h), cleared_le a (v.valid.sound id a h))
