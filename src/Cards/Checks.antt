-- ===== src/Cards/Checks.antt =====
-- The checks of commands and cards in packages/card-simulator/src/index.ts.
use Prim.Native.String.{String}
use fuel_cap.Base.{
  ℕ, zero, suc, Bool, true, false, not, ◌||◌, List, [], ◌∷◌, string_eq, any, is_some, length,
  nat_beq, Result, ◌>>◌, throw_if,
}
use fuel_cap.Base.Int.{ℤ, pos, leb_ℤ, ltb_ℤ, is_safe_integer}
use fuel_cap.Base.Text.{is_blank}
use fuel_cap.Cards.Types.{
  CardCurrency, usd, cad, gbp, SimulatorMode, simulated, live, CardStatus, active, CardProfile,
  AuthorizeCardCommand, ClearCardCommand, ReverseAuthorizationCommand, CardError, live_prohibited,
  text_required, timestamp_invalid, amount_invalid, available_value_invalid, category_required,
  limits_disagree, Host,
}

abbrev pub same_currency : CardCurrency → CardCurrency → Bool
same_currency usd usd = true
same_currency cad cad = true
same_currency gbp gbp = true
same_currency _ _ = false

abbrev pub is_live : SimulatorMode → Bool
is_live live = true
is_live simulated = false

abbrev pub is_active : CardStatus → Bool
is_active active = true
is_active _ = false

-- `timestamp.slice(0, 10)`, counted in characters
unfoldable pub first_chars : ℕ → String → String
first_chars zero s = String.[]
first_chars (suc n) String.[] = String.[]
first_chars (suc n) (String.◌∷◌ c s) = String.◌∷◌ c (first_chars n s)

unfoldable pub date_key : String → String
unfolding first_chars
date_key timestamp = first_chars 10 timestamp

-- `requirePositiveMinor` throws
abbrev pub not_positive_minor : ℤ → Bool
not_positive_minor n = not (is_safe_integer n) || leb_ℤ n (pos 0)

abbrev pub any_blank : List String → Bool
any_blank = any is_blank

-- `validateCard`
unfoldable pub validate_card : CardProfile → Result CardError (Unit {0})
validate_card c = do
  throw_if (any_blank (c.card_id ∷ c.customer_id ∷ c.wallet_id ∷ c.organisation_id ∷ []))
      text_required
  throw_if
      (nat_beq (length c.allowed_merchant_category_codes) 0
        || any is_blank c.allowed_merchant_category_codes)
      category_required
  throw_if (not_positive_minor c.transaction_limit_minor) amount_invalid
  throw_if (not_positive_minor c.daily_limit_minor) amount_invalid
  throw_if (ltb_ℤ c.daily_limit_minor c.transaction_limit_minor) limits_disagree

-- `validateAuthorizationCommand`
unfoldable pub validate_authorization_command :
    Host → AuthorizeCardCommand → Result CardError (Unit {0})
validate_authorization_command host c = do
  throw_if (is_live c.mode) live_prohibited
  throw_if
      (any_blank (
        c.command_id ∷ c.idempotency_key ∷ c.authorization_id ∷ c.card_id ∷ c.correlation_id
        ∷ c.merchant.merchant_id ∷ c.merchant.merchant_name ∷ c.merchant.merchant_category_code
        ∷ c.merchant.country_code ∷ []))
      text_required
  throw_if (not_positive_minor c.amount_minor) amount_invalid
  throw_if (not (is_safe_integer c.available_value_minor) || ltb_ℤ c.available_value_minor (pos 0))
      available_value_invalid
  throw_if (not (is_some (host.date_parse c.occurred_at))) timestamp_invalid

-- `validateClearingCommand`
unfoldable pub validate_clearing_command : Host → ClearCardCommand → Result CardError (Unit {0})
validate_clearing_command host c = do
  throw_if (is_live c.mode) live_prohibited
  throw_if
      (any_blank (
        c.command_id ∷ c.idempotency_key ∷ c.clearing_id ∷ c.authorization_id ∷ c.provider_reference
        ∷ []))
      text_required
  throw_if (not_positive_minor c.amount_minor) amount_invalid
  throw_if (not (is_some (host.date_parse c.cleared_at))) timestamp_invalid

-- `validateReversalCommand`
unfoldable pub validate_reversal_command :
    Host → ReverseAuthorizationCommand → Result CardError (Unit {0})
validate_reversal_command host c = do
  throw_if (is_live c.mode) live_prohibited
  throw_if
      (any_blank
        (c.command_id ∷ c.idempotency_key ∷ c.reversal_id ∷ c.authorization_id ∷ c.reason ∷ []))
      text_required
  throw_if (not (is_some (host.date_parse c.reversed_at))) timestamp_invalid
