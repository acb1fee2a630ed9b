-- ===== src/Settlement/Types.antt =====
-- The data of packages/settlement-engine/src/index.ts. The constants `eventType`,
-- `settlementVersion` and the zero charges and refunds are left out.
use fuel_cap.Base.{String, Option, List, Dict, Bool}
use fuel_cap.Base.Int.{ℤ}

pub data SettlementCurrency : Type 0 where
  usd cad gbp : SettlementCurrency

pub data Provenance : Type 0 where
  actual simulated : Provenance

-- A line of `AllocationEvidence`.
pub record EvidenceLine : Type 0 where
  pub protection_transaction_id : String
  pub allocated_quantity_4dp : ℤ
  pub quote_id : String
  pub spread_decision_version : String
  pub rules_version : String

pub record AllocationEvidence : Type 0 where
  pub allocation_id : String
  pub purchase_id : String
  pub clearing_id : String
  pub customer_id : String
  pub wallet_id : String
  pub organisation_id : String
  pub currency : SettlementCurrency
  pub confirmed_fuel_quantity_4dp : ℤ
  pub unprotected_quantity_4dp : ℤ
  pub non_fuel_amount_minor : ℤ
  pub actual_pump_observation_id : String
  pub provenance : Provenance
  pub correlation_id : String
  pub lines : List EvidenceLine

pub record ProtectionTerms : Type 0 where
  pub protection_transaction_id : String
  pub strike_price_4dp : ℤ
  pub maximum_boundary_price_4dp : ℤ
  pub reference_price_4dp : ℤ

pub record SettlementAccounts : Type 0 where
  pub customer_reserved_account_id : String
  pub customer_available_account_id : String
  pub protection_claim_account_id : String
  pub station_payable_account_id : String

pub record SettlementCommand : Type 0 where
  pub command_id : String
  pub idempotency_key : String
  pub settlement_id : String
  pub allocation : AllocationEvidence
  pub terms : List ProtectionTerms
  pub actual_pump_price_4dp : ℤ
  pub accounts : SettlementAccounts
  pub legal_entity_id : String
  pub market : String
  pub actor_id : String
  pub settled_at : String

pub data Side : Type 0 where
  debit credit : Side

pub record PostingLine : Type 0 where
  pub line_id : String
  pub account_id : String
  pub side : Side
  pub amount_minor : ℤ

pub record SettlementSlice : Type 0 where
  pub protection_transaction_id : Option String
  pub quantity_4dp : ℤ
  pub strike_price_4dp : Option ℤ
  pub maximum_boundary_price_4dp : Option ℤ
  pub station_exact_numerator : ℤ
  pub customer_exact_numerator : ℤ
  pub contribution_exact_numerator : ℤ
  pub lower_price_benefit_exact_numerator : ℤ
  pub above_boundary_exact_numerator : ℤ

pub record PositionRedemption : Type 0 where
  pub protection_transaction_id : String
  pub quantity_4dp : ℤ

pub record PostingInstruction : Type 0 where
  pub idempotency_key : String
  pub lines : List PostingLine
  pub position_redemptions : List PositionRedemption
  pub source_contract_id : String
  pub correlation_id : String
  pub rules_versions : List String
  pub spread_decision_versions : List String
  pub provenance : Provenance

-- The amounts of a decision, which the code computes as local constants.
pub record Amounts : Type 0 where
  pub station_payment_minor : ℤ
  pub customer_debit_minor : ℤ
  pub pool_contribution_minor : ℤ
  pub reserved_debit_minor : ℤ
  pub available_debit_minor : ℤ
  pub lower_price_release_minor : ℤ
  pub above_boundary_customer_minor : ℤ
  pub rounding_residual_numerator : ℤ

pub record SettlementDecision : Type 0 where
  pub settlement_id : String
  pub allocation_id : String
  pub purchase_id : String
  pub customer_id : String
  pub wallet_id : String
  pub organisation_id : String
  pub currency : SettlementCurrency
  pub actual_pump_price_4dp : ℤ
  pub confirmed_fuel_quantity_4dp : ℤ
  pub amounts : Amounts
  pub slices : List SettlementSlice
  pub posting_instruction : PostingInstruction
  pub settled_at : String

pub record StoredSettlement : Type 0 where
  pub fingerprint : String
  pub settlement_id : String

pub record SettlementState : Type 0 where
  pub decisions : List SettlementDecision
  pub idempotency : Dict String StoredSettlement

-- `decision` is an `Option` where the source reads a list with `find(...)!`.
pub record SettlementResult : Type 0 where
  pub state : SettlementState
  pub decision : Option SettlementDecision
  pub idempotent_replay : Bool

pub record CancellationCommand : Type 0 where
  pub cancellation_id : String
  pub idempotency_key : String
  pub protection_transaction_id : String
  pub remaining_quantity_4dp : ℤ
  pub strike_price_4dp : ℤ
  pub currency : SettlementCurrency
  pub customer_reserved_account_id : String
  pub customer_available_account_id : String
  pub canceled_at : String

pub record CancellationDecision : Type 0 where
  pub cancellation_id : String
  pub protection_transaction_id : String
  pub released_quantity_4dp : ℤ
  pub exact_release_numerator : ℤ
  pub customer_credit_minor : ℤ
  pub absorbed_residual_numerator : ℤ
  pub posting_lines : List PostingLine
  pub canceled_at : String

-- One constructor for each `throw`.
pub data SettlementError : Type 0 where
  identity_required price_invalid timestamp_required quantities_disagree terms_invalid :
      SettlementError
  key_reused settlement_not_unique terms_missing unbalanced quantity_invalid : SettlementError

-- What the engine calls and does not implement: `Date.parse` (`none` for NaN), and the SHA-256
-- digest of a command's JSON text.
pub record Host : Type 0 where
  pub date_parse : String → Option ℤ
  pub hash_command : SettlementCommand → String
