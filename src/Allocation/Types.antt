-- ===== src/Allocation/Types.antt =====
-- The data of packages/allocation-engine/src/index.ts. The constants `protectionChargeMinor: 0`,
-- `allocationVersion`, `eventType` and `source`, whose types have one value, are left out.
use fuel_cap.Base.{String, Option, List, Dict, Bool}
use fuel_cap.Base.Int.{ℤ}

pub data AllocationCurrency : Type 0 where
  usd cad gbp : AllocationCurrency

pub data OwnerType : Type 0 where
  customer vehicle pool : OwnerType

pub record ProtectionOwner : Type 0 where
  pub owner_type : OwnerType
  pub owner_id : String

pub data ScopeType : Type 0 where
  station provider geography : ScopeType

pub record ProtectionScope : Type 0 where
  pub scope_type : ScopeType
  pub scope_id : String

pub data ProtectionStatus : Type 0 where
  active canceled expired : ProtectionStatus

pub record ProtectionPosition : Type 0 where
  pub protection_transaction_id : String
  pub owner : ProtectionOwner
  pub country_code : String
  pub currency : AllocationCurrency
  pub fuel_grade_id : String
  pub scope : ProtectionScope
  pub status : ProtectionStatus
  pub starts_at : String
  pub expires_at : String
  pub accepted_at : String
  pub remaining_quantity_4dp : ℤ
  pub reference_price_id : String
  pub quote_id : String
  pub spread_decision_version : String
  pub rules_version : String

pub record ClearingEvidence : Type 0 where
  pub clearing_id : String
  pub authorization_id : String
  pub customer_id : String
  pub wallet_id : String
  pub organisation_id : String
  pub provider_reference : String
  pub merchant_id : String
  pub amount_minor : ℤ
  pub currency : AllocationCurrency
  pub correlation_id : String

pub data Provenance : Type 0 where
  actual simulated : Provenance

pub record PurchaseMatchCommand : Type 0 where
  pub command_id : String
  pub idempotency_key : String
  pub allocation_id : String
  pub purchase_id : String
  pub clearing : ClearingEvidence
  pub customer_id : String
  pub vehicle_id : Option String
  pub protection_pool_id : Option String
  pub country_code : String
  pub currency : AllocationCurrency
  pub fuel_grade_id : String
  pub station_id : String
  pub provider_id : String
  pub geography_id : String
  pub confirmed_fuel_quantity_4dp : ℤ
  pub non_fuel_amount_minor : ℤ
  pub purchased_at : String
  pub actual_pump_observation_id : String
  pub provenance : Provenance

pub record ProtectionAllocationLine : Type 0 where
  pub line_id : String
  pub protection_transaction_id : String
  pub allocated_quantity_4dp : ℤ
  pub expiry : String
  pub reference_price_id : String
  pub quote_id : String
  pub spread_decision_version : String
  pub rules_version : String

pub data UnprotectedReason : Type 0 where
  no_reason no_eligible_protection protection_volume_exhausted : UnprotectedReason

pub record PurchaseAllocation : Type 0 where
  pub allocation_id : String
  pub purchase_id : String
  pub clearing_id : String
  pub authorization_id : String
  pub customer_id : String
  pub vehicle_id : Option String
  pub wallet_id : String
  pub organisation_id : String
  pub currency : AllocationCurrency
  pub fuel_grade_id : String
  pub confirmed_fuel_quantity_4dp : ℤ
  pub protected_quantity_4dp : ℤ
  pub unprotected_quantity_4dp : ℤ
  pub non_fuel_amount_minor : ℤ
  pub lines : List ProtectionAllocationLine
  pub unprotected_reason : UnprotectedReason
  pub actual_pump_observation_id : String
  pub provenance : Provenance
  pub purchased_at : String
  pub correlation_id : String
  pub idempotency_key : String

pub record StoredAllocation : Type 0 where
  pub fingerprint : String
  pub allocation_id : String

pub record AllocationState : Type 0 where
  pub positions : List ProtectionPosition
  pub allocations : List PurchaseAllocation
  pub idempotency : Dict String StoredAllocation

-- `allocation` is an `Option` where the source reads a list with `find(...)!`.
pub record AllocationResult : Type 0 where
  pub state : AllocationState
  pub allocation : Option PurchaseAllocation
  pub idempotent_replay : Bool

-- One constructor for each `throw`.
pub data AllocationError : Type 0 where
  ids_not_unique text_required timestamp_invalid expiry_before_start : AllocationError
  remaining_invalid quantity_invalid amount_invalid key_reused : AllocationError
  allocation_not_unique evidence_mismatch : AllocationError

-- What the engine calls and does not implement: `Date.parse` (`none` for NaN), `localeCompare`, and
-- the SHA-256 digest of a command's JSON text.
pub record Host : Type 0 where
  pub date_parse : String → Option ℤ
  pub locale_compare : String → String → ℤ
  pub hash_command : PurchaseMatchCommand → String
