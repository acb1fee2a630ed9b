-- ===== src/Cards/Types.antt =====
-- The data of packages/card-simulator/src/index.ts. The constants `mode: "SIMULATED"`,
-- `simulatorVersion`, `eventType` and `source` of stored values are left out.
use fuel_cap.Base.{String, Bool, Option, List, Dict}
use fuel_cap.Base.Int.{ℤ}

pub data CardCurrency : Type 0 where
  usd cad gbp : CardCurrency

pub data SimulatorMode : Type 0 where
  simulated live : SimulatorMode

pub data CardStatus : Type 0 where
  active frozen closed : CardStatus

pub data AuthorizationReason : Type 0 where
  approved card_not_active currency_not_allowed merchant_category_not_allowed : AuthorizationReason
  transaction_limit_exceeded daily_limit_exceeded : AuthorizationReason
  insufficient_available_value : AuthorizationReason

-- "OPEN" is spelled `opened`, since `open` is a reserved word.
pub data AuthorizationStatus : Type 0 where
  opened partially_cleared cleared reversed declined : AuthorizationStatus

pub data ClearingReason : Type 0 where
  matched_authorization authorization_not_found authorization_not_open : ClearingReason
  amount_exceeds_authorization currency_mismatch : ClearingReason

pub record CardProfile : Type 0 where
  pub card_id : String
  pub customer_id : String
  pub wallet_id : String
  pub organisation_id : String
  pub currency : CardCurrency
  pub status : CardStatus
  pub allowed_merchant_category_codes : List String
  pub transaction_limit_minor : ℤ
  pub daily_limit_minor : ℤ

pub record Merchant : Type 0 where
  pub merchant_id : String
  pub merchant_name : String
  pub merchant_category_code : String
  pub country_code : String

pub record AuthorizeCardCommand : Type 0 where
  pub command_id : String
  pub idempotency_key : String
  pub authorization_id : String
  pub card_id : String
  pub amount_minor : ℤ
  pub currency : CardCurrency
  pub merchant : Merchant
  pub available_value_minor : ℤ
  pub occurred_at : String
  pub correlation_id : String
  pub mode : SimulatorMode

-- `outcome` is "APPROVED" where `is_approved` holds, and else "DECLINED".
pub record CardAuthorization : Type 0 where
  pub authorization_id : String
  pub card_id : String
  pub customer_id : String
  pub wallet_id : String
  pub organisation_id : String
  pub amount_minor : ℤ
  pub currency : CardCurrency
  pub merchant : Merchant
  pub is_approved : Bool
  pub reason : AuthorizationReason
  pub status : AuthorizationStatus
  pub cleared_minor : ℤ
  pub released_minor : ℤ
  pub outstanding_minor : ℤ
  pub authorized_at : String
  pub correlation_id : String
  pub idempotency_key : String

pub record ClearCardCommand : Type 0 where
  pub command_id : String
  pub idempotency_key : String
  pub clearing_id : String
  pub authorization_id : String
  pub provider_reference : String
  pub amount_minor : ℤ
  pub currency : CardCurrency
  pub cleared_at : String
  pub mode : SimulatorMode

-- `status` is "ACCEPTED" where `is_accepted` holds, and else "BREAK".
pub record CardClearing : Type 0 where
  pub clearing_id : String
  pub authorization_id : Option String
  pub provider_reference : String
  pub amount_minor : ℤ
  pub currency : CardCurrency
  pub is_accepted : Bool
  pub reason : ClearingReason
  pub cleared_at : String
  pub idempotency_key : String

pub record ReverseAuthorizationCommand : Type 0 where
  pub command_id : String
  pub idempotency_key : String
  pub reversal_id : String
  pub authorization_id : String
  pub reason : String
  pub reversed_at : String
  pub mode : SimulatorMode

pub record AuthorizationReversal : Type 0 where
  pub reversal_id : String
  pub authorization_id : String
  pub released_minor : ℤ
  pub reason : String
  pub reversed_at : String
  pub idempotency_key : String

pub record ClearingInstruction : Type 0 where
  pub instruction_id : String
  pub idempotency_key : String
  pub clearing_id : String
  pub authorization_id : String
  pub customer_id : String
  pub wallet_id : String
  pub organisation_id : String
  pub provider_reference : String
  pub merchant_id : String
  pub amount_minor : ℤ
  pub currency : CardCurrency
  pub correlation_id : String

pub record ReconciliationBreak : Type 0 where
  pub break_id : String
  pub clearing_id : String
  pub reason : ClearingReason
  pub amount_minor : ℤ
  pub currency : CardCurrency
  pub created_at : String

-- An idempotency key's fingerprint, and the identity that was stored under it.
pub record StoredKey : Type 0 where
  pub fingerprint : String
  pub id : String

-- The nine private maps of `CardAuthorizationClearingSimulator`.
pub record Simulator : Type 0 where
  pub cards : Dict String CardProfile
  pub authorizations : Dict String CardAuthorization
  pub authorization_keys : Dict String StoredKey
  pub clearings : Dict String CardClearing
  pub clearing_keys : Dict String StoredKey
  pub reversals : Dict String AuthorizationReversal
  pub reversal_keys : Dict String StoredKey
  pub instructions : Dict String ClearingInstruction
  pub breaks : Dict String ReconciliationBreak

-- One constructor for each `throw`.
pub data CardError : Type 0 where
  live_prohibited text_required timestamp_invalid amount_invalid available_value_invalid : CardError
  card_required category_required limits_disagree card_not_unique : CardError
  key_reused id_not_unique card_not_found not_open : CardError

-- What the simulator calls and does not implement: `Date.parse` (`none` for NaN), and the SHA-256
-- digest of the JSON text of each command.
pub record Host : Type 0 where
  pub date_parse : String → Option ℤ
  pub hash_authorize : AuthorizeCardCommand → String
  pub hash_clear : ClearCardCommand → String
  pub hash_reverse : ReverseAuthorizationCommand → String
