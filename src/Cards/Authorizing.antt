-- ===== src/Cards/Authorizing.antt =====
-- The constructor and `authorize` of packages/card-simulator/src/index.ts.
use Prim.Native.String.{String}
use fuel_cap.Base.{
  Bool, true, false, not, ◌&&◌, Option, none, some, List, [], ◌∷◌, Dict, lookup, insert, contains,
  values, ◌==◌, string_eq, includes, filter, length, nat_beq, if◌then◌else◌, Result, ok, err, ◌>>=◌,
  ◌>>◌, throw_if,
}
use fuel_cap.Base.Int.{ℤ, pos, ◌+ℤ◌, ltb_ℤ, reduce_sum}
use fuel_cap.Cards.Types.{
  AuthorizationReason, approved, card_not_active, currency_not_allowed,
  merchant_category_not_allowed, transaction_limit_exceeded, daily_limit_exceeded,
  insufficient_available_value, opened, declined, CardProfile, AuthorizeCardCommand,
  CardAuthorization, StoredKey, Simulator, CardError, card_required, card_not_unique, key_reused,
  id_not_unique, card_not_found, Host,
}
use fuel_cap.Cards.Checks.{
  same_currency, is_active, date_key, validate_card, validate_authorization_command,
}

abbrev pub empty_simulator : Simulator
empty_simulator = record {
  cards = [];
  authorizations = [];
  authorization_keys = [];
  clearings = [];
  clearing_keys = [];
  reversals = [];
  reversal_keys = [];
  instructions = [];
  breaks = [];
}

-- The loop of the constructor.
unfoldable pub add_cards :
    List CardProfile → Dict String CardProfile → Result CardError (Dict String CardProfile)
add_cards [] cards = ok cards
add_cards (c ∷ cs) cards = do
  validate_card c
  throw_if (contains c.card_id cards) card_not_unique
  add_cards cs (insert c.card_id c cards)

-- `constructor`
unfoldable pub create_simulator : List CardProfile → Result CardError Simulator
create_simulator profiles = do
  throw_if (nat_beq (length profiles) 0) card_required
  cards ← add_cards profiles []
  ok (record empty_simulator { cards = cards })

abbrev pub is_approved_on : String → CardAuthorization → Bool
is_approved_on card_id a = a.card_id == card_id && a.is_approved

-- `reservedMinor`
unfoldable pub reserved_minor : Dict String CardAuthorization → String → ℤ
reserved_minor authorizations card_id =
    reduce_sum (λ a. a.outstanding_minor) (filter (is_approved_on card_id) (values authorizations))

-- `dailyApprovedMinor`
unfoldable pub daily_approved_minor : Dict String CardAuthorization → String → String → ℤ
daily_approved_minor authorizations card_id day =
    reduce_sum (λ a. a.amount_minor)
      (filter (λ a. is_approved_on card_id a && date_key a.authorized_at == day)
        (values authorizations))

-- The chain of tests of `authorize`.
unfoldable pub authorization_reason :
    Dict String CardAuthorization → CardProfile → AuthorizeCardCommand → AuthorizationReason
authorization_reason authorizations card c =
    if not (is_active card.status)
    then card_not_active
    else if not (same_currency card.currency c.currency)
    then currency_not_allowed
    else if not (includes card.allowed_merchant_category_codes c.merchant.merchant_category_code)
    then merchant_category_not_allowed
    else if ltb_ℤ card.transaction_limit_minor c.amount_minor
    then transaction_limit_exceeded
    else if ltb_ℤ card.daily_limit_minor (
        daily_approved_minor authorizations card.card_id (date_key c.occurred_at) +ℤ c.amount_minor)
    then daily_limit_exceeded
    else if ltb_ℤ c.available_value_minor
        (reserved_minor authorizations card.card_id +ℤ c.amount_minor)
    then insufficient_available_value
    else approved

abbrev pub is_approval : AuthorizationReason → Bool
is_approval approved = true
is_approval _ = false

unfoldable pub new_authorization :
    CardProfile → AuthorizeCardCommand → AuthorizationReason → CardAuthorization
new_authorization card c reason = record {
  authorization_id = c.authorization_id;
  card_id = card.card_id;
  customer_id = card.customer_id;
  wallet_id = card.wallet_id;
  organisation_id = card.organisation_id;
  amount_minor = c.amount_minor;
  currency = c.currency;
  merchant = c.merchant;
  is_approved = is_approval reason;
  reason = reason;
  status = if is_approval reason then opened else declined;
  cleared_minor = pos 0;
  released_minor = pos 0;
  outstanding_minor = if is_approval reason then c.amount_minor else pos 0;
  authorized_at = c.occurred_at;
  correlation_id = c.correlation_id;
  idempotency_key = c.idempotency_key;
}

-- The writes of `authorize`.
unfoldable pub store_authorization :
    Simulator → String → AuthorizeCardCommand → CardAuthorization → Simulator
store_authorization s fingerprint c a = record s {
  authorizations = insert a.authorization_id a s.authorizations;
  authorization_keys =
      insert c.idempotency_key (record { fingerprint = fingerprint; id = a.authorization_id })
        s.authorization_keys;
}

-- `authorize` after the look-up of the card.
abbrev pub authorize_card :
    Simulator
    → String
    → AuthorizeCardCommand
    → Option CardProfile
    → Result CardError (Simulator × Option CardAuthorization)
authorize_card s fingerprint c none = err card_not_found
authorize_card s fingerprint c (some card) =
    let a = new_authorization card c (authorization_reason s.authorizations card c) in
    ok (store_authorization s fingerprint c a, some a)

-- `authorize` after the look-up of the key.
abbrev pub authorize_keyed :
    Simulator
    → String
    → AuthorizeCardCommand
    → Option StoredKey
    → Result CardError (Simulator × Option CardAuthorization)
authorize_keyed s fingerprint c (some replay) = do
  throw_if (not (replay.fingerprint == fingerprint)) key_reused
  ok (s, lookup replay.id s.authorizations)
authorize_keyed s fingerprint c none = do
  throw_if (contains c.authorization_id s.authorizations) id_not_unique
  authorize_card s fingerprint c (lookup c.card_id s.cards)

unfoldable pub authorize :
    Host
    → Simulator
    → AuthorizeCardCommand
    → Result CardError (Simulator × Option CardAuthorization)
authorize host s c = do
  validate_authorization_command host c
  authorize_keyed s (host.hash_authorize c) c (lookup c.idempotency_key s.authorization_keys)
