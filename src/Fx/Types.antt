-- ===== src/Fx/Types.antt =====
-- The data of packages/fx-engine/src/index.ts. The version fields and the constant states are left
-- out. A pair, `BASE/QUOTE` in the code, is the two currencies.
use fuel_cap.Base.{String, Option, List}
use fuel_cap.Base.Int.{ℤ}

pub data Currency : Type 0 where
  usd cad gbp eur : Currency

pub record FxPair : Type 0 where
  pub base : Currency
  pub quote : Currency

pub data Provenance : Type 0 where
  illustrative_fixed provider_reference : Provenance

pub data LicenceClass : Type 0 where
  reference_demonstrator internal_pricing : LicenceClass

pub record FxReferenceObservation : Type 0 where
  pub observation_id : String
  pub pair : FxPair
  pub base_currency : Currency
  pub quote_currency : Currency
  pub rate_6dp : ℤ
  pub provider : String
  pub source_observed_at : String
  pub ingested_at : String
  pub provenance : Provenance
  pub licence_class : LicenceClass
  pub raw_payload_sha256 : String

pub data RateMethod : Type 0 where
  direct triangulated : RateMethod

pub record CanonicalFxRate : Type 0 where
  pub rate_id : String
  pub pair : FxPair
  pub base_currency : Currency
  pub quote_currency : Currency
  pub rate_6dp : ℤ
  pub method : RateMethod
  pub pivot_currency : Option Currency
  pub observation_ids : List String
  pub decided_at : String

pub record FxAdjustmentComponents : Type 0 where
  pub modelled_conversion_cost_bps : ℤ
  pub fuel_cap_fx_margin_bps : ℤ
  pub reserve_buffer_bps : ℤ

pub record FxAdjustmentPolicy : Type 0 where
  pub policy_id : String
  pub maximum_adjustment_bps : ℤ
  pub approved_pivots : List Currency

-- The first argument of `createFxAdjustmentProposal`.
pub record ProposalInput : Type 0 where
  pub proposal_id : String
  pub maker_id : String
  pub reason : String
  pub created_at : String
  pub components : FxAdjustmentComponents

pub record FxAdjustmentProposal : Type 0 where
  pub proposal_id : String
  pub policy_id : String
  pub components : FxAdjustmentComponents
  pub total_adjustment_bps : ℤ
  pub maker_id : String
  pub reason : String
  pub created_at : String

-- The second argument of `approveFxAdjustmentProposal`.
pub record ApprovalInput : Type 0 where
  pub approval_id : String
  pub checker_id : String
  pub assurance : String
  pub approved_at : String

pub record FxAdjustmentApproval : Type 0 where
  pub approval_id : String
  pub proposal_id : String
  pub checker_id : String
  pub assurance : String
  pub approved_at : String

pub record PublishedFxAdjustment : Type 0 where
  pub adjustment_decision_id : String
  pub policy_id : String
  pub components : FxAdjustmentComponents
  pub total_adjustment_bps : ℤ
  pub proposal_id : String
  pub approval_id : String
  pub maker_id : String
  pub checker_id : String
  pub published_at : String

pub record AppliedFxConversion : Type 0 where
  pub conversion_id : String
  pub source_currency : Currency
  pub destination_currency : Currency
  pub source_amount_minor : ℤ
  pub destination_amount_minor : ℤ
  pub reference_rate_6dp : ℤ
  pub customer_rate_6dp : ℤ
  pub canonical_rate_id : String
  pub adjustment_decision_id : String
  pub rate_method : RateMethod
  pub observation_ids : List String
  pub applied_at : String

-- One constructor for each `throw`.
pub data FxError : Type 0 where
  pair_inconsistent rate_invalid timestamps_invalid observation_stale evidence_incomplete : FxError
  path_not_approved components_invalid limit_exceeded proposal_incomplete maker_is_checker : FxError
  approval_invalid lineage_disagrees total_not_derived direction_mismatch time_precedes : FxError
