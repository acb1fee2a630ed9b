-- ===== src/Cards/Limits.antt =====
-- The daily limit of packages/card-simulator/src/index.ts.
use fuel_cap.Base.{
  String, ◌≡◌, refl, sym, ap, subst, ◌∙◌, inl, inr, true, ◌&&◌, none, some, lookup, insert, Dict,
  Each, values, ◌==◌, string_eq, ==-eq, &&-eq_true, Bool-cases, some_eq, arith,
}
use fuel_cap.Base.Int.{ℤ, pos_part, neg_part, ◌+ℤ◌, ◌≤ℤ◌, int_laws, sum_of}
use fuel_cap.Base.Sums.{where_, reduce_sum-filter, sum_of-insert_new, sum_of-insert_old}
use fuel_cap.Cards.{
  Simulator, CardProfile, CardAuthorization, AuthorizeCardCommand, is_approval, is_approved_on,
  date_key, daily_approved_minor, authorization_reason, new_authorization, clear_authorization,
  release_authorization, store_authorization, store_clearing, accept_clearing, break_clearing,
  store_reversal, new_clearing,
}
use fuel_cap.Cards.Steps.{Step, replayed, authorized, accepted, broken, released}
use fuel_cap.Cards.Invariant.{IsValid, found_itself}

-- What an authorization counts for on a card and a day.
abbrev pub day_share : String → String → CardAuthorization → ℤ
day_share card_id day =
    where_ (λ a. is_approved_on card_id a && date_key a.authorized_at == day) (λ a. a.amount_minor)

daily-sum :
    (d : Dict String CardAuthorization) (card_id day : String)
    → daily_approved_minor d card_id day ≡ sum_of (day_share card_id day) (values d)
unfolding daily_approved_minor
daily-sum d card_id day =
    reduce_sum-filter (λ a. is_approved_on card_id a && date_key a.authorized_at == day)
      (λ a. a.amount_minor) (values d)

-- Cards stand under their identities, and no card has approved more on one day than its limit.
pub record IsWithin (s : Simulator) : Type 0 where
  pub keyed : Each (λ k card. card.card_id ≡ k) s.cards
  pub within :
      (day : String)
      → Each
          (λ k card. daily_approved_minor s.authorizations k day ≤ℤ card.daily_limit_minor)
          s.cards

-- A write that leaves an authorization's card, day and amount as they are changes no day's total.
same_day :
    (d : Dict String CardAuthorization) (k : String) (a b : CardAuthorization)
    (card_id day : String)
    → lookup k d ≡ some a
    → day_share card_id day b ≡ day_share card_id day a
    → daily_approved_minor (insert k b d) card_id day ≡ daily_approved_minor d card_id day
same_day d k a b card_id day found same =
    daily-sum (insert k b d) card_id day
    ∙ cancel _ _ (day_share card_id day a) (
        sum_of-insert_old (day_share card_id day) k b d found
        ∙ ap (λ n. sum_of (day_share card_id day) (values d) +ℤ n) same)
    ∙ sym (daily-sum d card_id day)
  where
    cancel : (x y z : ℤ) → x +ℤ z ≡ y +ℤ z → x ≡ y
    cancel x y z h = omega (int_laws, ap pos_part h, ap neg_part h)

approval-within :
    (d : Dict String CardAuthorization) (card : CardProfile) (c : AuthorizeCardCommand)
    → is_approval (authorization_reason d card c) ≡ true
    → daily_approved_minor d card.card_id (date_key c.occurred_at) +ℤ c.amount_minor
      ≤ℤ card.daily_limit_minor
unfolding authorization_reason
approval-within d card c h = ground arith

-- A new authorization adds to its day only what keeps the card within its limit.
new_day :
    (s : Simulator) (card : CardProfile) (c : AuthorizeCardCommand) (k day : String)
    (other : CardProfile)
    → IsWithin s
    → lookup c.card_id s.cards ≡ some card
    → lookup c.authorization_id s.authorizations ≡ none
    → lookup k s.cards ≡ some other
    → daily_approved_minor
        (insert c.authorization_id
          (new_authorization card c (authorization_reason s.authorizations card c))
          s.authorizations)
        k
        day
      ≤ℤ other.daily_limit_minor
unfolding new_authorization
new_day s card c k day other w found new there =
    let reason = authorization_reason s.authorizations card c in
    let share = day_share k day (new_authorization card c reason) in
    let total =
      daily-sum _ k day
      ∙ sum_of-insert_new (day_share k day) c.authorization_id (new_authorization card c reason)
          s.authorizations new
      ∙ ap (λ n. n +ℤ share) (sym (daily-sum s.authorizations k day)) in
    rw total
      (elim (Bool-cases
        (card.card_id == k && is_approval reason && date_key c.occurred_at == day)) [
          | inl e ↦
              let (front, on_day) = &&-eq_true _ _ e in
              let (on_card, is_new) = &&-eq_true _ _ front in
              let same_card = ==-eq card.card_id k on_card in
              let key = sym (w.keyed c.card_id card found) ∙ same_card in
              let profile = some_eq (sym found ∙ ap (λ i. lookup i s.cards) key ∙ there) in
              let bound = approval-within s.authorizations card c is_new in
              rw e (
                subst
                  (λ (p : String × String × CardProfile).
                    daily_approved_minor s.authorizations p.0 p.1 +ℤ c.amount_minor
                    ≤ℤ p.2.daily_limit_minor)
                  (λ i. (same_card i, ==-eq (date_key c.occurred_at) day on_day i, profile i))
                  bound)
          | inr e ↦ rw e (omega (int_laws, w.within day k other there))
        ])

-- Every step keeps every card within its daily limit.
pub Step-IsWithin : {s t : Simulator} → Step s t → IsValid s → IsWithin s → IsWithin t
unfolding store_authorization store_clearing accept_clearing break_clearing store_reversal
    clear_authorization release_authorization new_authorization new_clearing
Step-IsWithin (replayed e) v w = subst IsWithin (sym e) w
Step-IsWithin {s} (authorized card c fp found new p e) v w = subst IsWithin (sym e) (record {
  keyed = w.keyed;
  within = λ day k other there. new_day s card c k day other w found new there;
})
Step-IsWithin {s} (accepted a c fp found _ _ p e) v w = subst IsWithin (sym e) (record {
  keyed = w.keyed;
  within = λ day k other there.
      subst (λ n. n ≤ℤ other.daily_limit_minor)
        (sym (
          same_day s.authorizations a.authorization_id a (clear_authorization a c.amount_minor) k
            day (found_itself s v c.authorization_id a found) refl))
        (w.within day k other there);
})
Step-IsWithin (broken a c fp _ _ _ e) v w =
    subst IsWithin (sym e) (record { keyed = w.keyed; within = w.within })
Step-IsWithin {s} (released a c fp found _ e) v w = subst IsWithin (sym e) (record {
  keyed = w.keyed;
  within = λ day k other there.
      subst (λ n. n ≤ℤ other.daily_limit_minor)
        (sym (
          same_day s.authorizations a.authorization_id a (release_authorization a) k day
            (found_itself s v c.authorization_id a found) refl))
        (w.within day k other there);
})
