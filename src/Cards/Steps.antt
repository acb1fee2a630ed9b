-- ===== src/Cards/Steps.antt =====
-- Every method of packages/card-simulator/src/index.ts that returns takes one of these steps.
use fuel_cap.Base.{
  String, ◌≡◌, refl, sym, ap, inl, inr, true, false, not, Option, none, some, lookup, contains,
  ◌==◌, string_eq, is_some-eq_false, Bool-cases, not-eq_false, ok, >>-eq_ok, >>=-eq_ok, ok_eq,
  subst, arith,
}
use fuel_cap.Base.Int.{ℤ, pos, ◌≤ℤ◌}
use fuel_cap.Cards.{
  Host, Simulator, CardProfile, CardAuthorization, AuthorizeCardCommand, CardClearing,
  ClearCardCommand, AuthorizationReversal, ReverseAuthorizationCommand, CardError, StoredKey,
  ClearingReason, matched_authorization, is_match, is_open_status, authorization_reason,
  new_authorization, store_authorization, validate_authorization_command, authorize_card,
  authorize_keyed, authorize, clearing_reason, new_clearing, store_clearing, accept_clearing,
  break_clearing, clear_found, clear_keyed, validate_clearing_command, clear, store_reversal,
  reverse_found, reverse_keyed, validate_reversal_command, reverse, not_positive_minor,
}

-- The clearing that a command leaves, against the authorization that it names.
abbrev pub clearing_of : Option CardAuthorization → ClearCardCommand → CardClearing
clearing_of a c = new_clearing a c (clearing_reason a c)

-- The changes of the simulator's state, with what the code has tested before each.
pub data Step (s t : Simulator) : Type 0 where
  replayed : t ≡ s → Step s t
  authorized :
      (card : CardProfile) (c : AuthorizeCardCommand) (fingerprint : String)
      → lookup c.card_id s.cards ≡ some card
      → lookup c.authorization_id s.authorizations ≡ none
      → pos 1 ≤ℤ c.amount_minor
      → t
        ≡ store_authorization s fingerprint c
            (new_authorization card c (authorization_reason s.authorizations card c))
      → Step s t
  accepted :
      (a : CardAuthorization) (c : ClearCardCommand) (fingerprint : String)
      → lookup c.authorization_id s.authorizations ≡ some a
      → lookup c.clearing_id s.clearings ≡ none
      → clearing_reason (some a) c ≡ matched_authorization
      → pos 1 ≤ℤ c.amount_minor
      → t
        ≡ accept_clearing
            (store_clearing s fingerprint c (clearing_of (some a) c))
            a
            (clearing_of (some a) c)
      → Step s t
  broken :
      (a : Option CardAuthorization) (c : ClearCardCommand) (fingerprint : String)
      → lookup c.authorization_id s.authorizations ≡ a
      → lookup c.clearing_id s.clearings ≡ none
      → is_match (clearing_reason a c) ≡ false
      → t ≡ break_clearing (store_clearing s fingerprint c (clearing_of a c)) (clearing_of a c)
      → Step s t
  released :
      (a : CardAuthorization) (c : ReverseAuthorizationCommand) (fingerprint : String)
      → lookup c.authorization_id s.authorizations ≡ some a
      → is_open_status a.status ≡ true
      → t ≡ store_reversal s fingerprint c a
      → Step s t

positive_of_valid : (n : ℤ) → not_positive_minor n ≡ false → pos 1 ≤ℤ n
positive_of_valid n h = ground arith

module _ (host : Host) (s : Simulator) where
  authorize_card-Step :
      (c : AuthorizeCardCommand) (fp : String) (o : Option CardProfile)
      {r : Simulator × Option CardAuthorization}
      → lookup c.card_id s.cards ≡ o
      → lookup c.authorization_id s.authorizations ≡ none
      → pos 1 ≤ℤ c.amount_minor
      → authorize_card s fp c o ≡ ok r
      → Step s r.0
  authorize_card-Step c fp none e new p h = absurd (cc)
  authorize_card-Step c fp (some card) e new p h =
      Step.authorized card c fp e new p (sym (ap (λ q. q.0) (ok_eq h)))

  authorize_keyed-Step :
      (c : AuthorizeCardCommand) (o : Option StoredKey) {r : Simulator × Option CardAuthorization}
      → pos 1 ≤ℤ c.amount_minor
      → authorize_keyed s (host.hash_authorize c) c o ≡ ok r
      → Step s r.0
  authorize_keyed-Step c (some replay) p h =
      let (_, h₁) =
        >>-eq_ok (not (replay.fingerprint == host.hash_authorize c)) CardError.key_reused _ h in
      Step.replayed (sym (ap (λ q. q.0) (ok_eq h₁)))
  authorize_keyed-Step c none p h =
      let (new, h₁) =
        >>-eq_ok (contains c.authorization_id s.authorizations) CardError.id_not_unique _ h in
      authorize_card-Step c (host.hash_authorize c) (lookup c.card_id s.cards) refl
        (is_some-eq_false _ new) p h₁

  validate_authorization-positive :
      (c : AuthorizeCardCommand) {u : Unit {0}}
      → validate_authorization_command host c ≡ ok u
      → pos 1 ≤ℤ c.amount_minor
  unfolding validate_authorization_command
  validate_authorization-positive c h =
      let (_, h₁) = >>-eq_ok _ CardError.live_prohibited _ h in
      let (_, h₂) = >>-eq_ok _ CardError.text_required _ h₁ in
      let (p, _) = >>-eq_ok (not_positive_minor c.amount_minor) CardError.amount_invalid _ h₂ in
      positive_of_valid c.amount_minor p

  pub authorize-Step :
      (c : AuthorizeCardCommand) {r : Simulator × Option CardAuthorization}
      → authorize host s c ≡ ok r
      → Step s r.0
  unfolding authorize
  authorize-Step c h =
      let (_, valid, h₁) = >>=-eq_ok (validate_authorization_command host c) _ h in
      authorize_keyed-Step c (lookup c.idempotency_key s.authorization_keys)
        (validate_authorization-positive c valid) h₁

  clear_found-Step :
      (c : ClearCardCommand) (fp : String) (o : Option CardAuthorization)
      → lookup c.authorization_id s.authorizations ≡ o
      → lookup c.clearing_id s.clearings ≡ none
      → pos 1 ≤ℤ c.amount_minor
      → Step s (clear_found s fp c o).0
  unfolding new_clearing clearing_reason
  clear_found-Step c fp none e new p = Step.broken none c fp e new refl refl
  clear_found-Step c fp (some a) e new p =
      elim (Bool-cases (is_match (clearing_reason (some a) c))) [
        | inl m ↦ Step.accepted a c fp e new (match_reason (clearing_reason (some a) c) m) p (rw m)
        | inr m ↦ Step.broken (some a) c fp e new m (rw m)
      ]
    where
      match_reason : (r : ClearingReason) → is_match r ≡ true → r ≡ matched_authorization
      match_reason r h = ground arith

  clear_keyed-Step :
      (c : ClearCardCommand) (o : Option StoredKey) {r : Simulator × Option CardClearing}
      → pos 1 ≤ℤ c.amount_minor
      → clear_keyed s (host.hash_clear c) c o ≡ ok r
      → Step s r.0
  clear_keyed-Step c (some replay) p h =
      let (_, h₁) =
        >>-eq_ok (not (replay.fingerprint == host.hash_clear c)) CardError.key_reused _ h in
      Step.replayed (sym (ap (λ q. q.0) (ok_eq h₁)))
  clear_keyed-Step c none p h =
      let (new, h₁) = >>-eq_ok (contains c.clearing_id s.clearings) CardError.id_not_unique _ h in
      subst (Step s) (ap (λ q. q.0) (ok_eq h₁)) (
        clear_found-Step c (host.hash_clear c) (lookup c.authorization_id s.authorizations) refl
          (is_some-eq_false _ new) p)

  validate_clearing-positive :
      (c : ClearCardCommand) {u : Unit {0}}
      → validate_clearing_command host c ≡ ok u
      → pos 1 ≤ℤ c.amount_minor
  unfolding validate_clearing_command
  validate_clearing-positive c h =
      let (_, h₁) = >>-eq_ok _ CardError.live_prohibited _ h in
      let (_, h₂) = >>-eq_ok _ CardError.text_required _ h₁ in
      let (p, _) = >>-eq_ok (not_positive_minor c.amount_minor) CardError.amount_invalid _ h₂ in
      positive_of_valid c.amount_minor p

  pub clear-Step :
      (c : ClearCardCommand) {r : Simulator × Option CardClearing}
      → clear host s c ≡ ok r
      → Step s r.0
  unfolding clear
  clear-Step c h =
      let (_, valid, h₁) = >>=-eq_ok (validate_clearing_command host c) _ h in
      clear_keyed-Step c (lookup c.idempotency_key s.clearing_keys)
        (validate_clearing-positive c valid) h₁

  reverse_found-Step :
      (c : ReverseAuthorizationCommand) (fp : String) (o : Option CardAuthorization)
      {r : Simulator × Option AuthorizationReversal}
      → lookup c.authorization_id s.authorizations ≡ o
      → reverse_found s fp c o ≡ ok r
      → Step s r.0
  reverse_found-Step c fp none e h = absurd (cc)
  reverse_found-Step c fp (some a) e h =
      let (open_, h₁) = >>-eq_ok (not (is_open_status a.status)) CardError.not_open _ h in
      Step.released a c fp e (not-eq_false _ open_) (sym (ap (λ q. q.0) (ok_eq h₁)))

  reverse_keyed-Step :
      (c : ReverseAuthorizationCommand) (o : Option StoredKey)
      {r : Simulator × Option AuthorizationReversal}
      → reverse_keyed s (host.hash_reverse c) c o ≡ ok r
      → Step s r.0
  reverse_keyed-Step c (some replay) h =
      let (_, h₁) =
        >>-eq_ok (not (replay.fingerprint == host.hash_reverse c)) CardError.key_reused _ h in
      Step.replayed (sym (ap (λ q. q.0) (ok_eq h₁)))
  reverse_keyed-Step c none h =
      let (_, h₁) = >>-eq_ok (contains c.reversal_id s.reversals) CardError.id_not_unique _ h in
      reverse_found-Step c (host.hash_reverse c) (lookup c.authorization_id s.authorizations) refl
        h₁

  pub reverse-Step :
      (c : ReverseAuthorizationCommand) {r : Simulator × Option AuthorizationReversal}
      → reverse host s c ≡ ok r
      → Step s r.0
  unfolding reverse
  reverse-Step c h =
      let (_, _, h₁) = >>=-eq_ok (validate_reversal_command host c) _ h in
      reverse_keyed-Step c (lookup c.idempotency_key s.reversal_keys) h₁
