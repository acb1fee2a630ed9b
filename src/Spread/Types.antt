-- ===== src/Spread/Types.antt =====
-- The data of packages/spread-engine/src/index.ts. The version fields and the constant states and
-- flags are left out.
use fuel_cap.Base.{String, Option, List}
use fuel_cap.Base.Int.{ℤ}

pub record SpreadComponents : Type 0 where
  pub modelled_protection_cost_bps : ℤ
  pub fuel_cap_margin_bps : ℤ
  pub reserve_buffer_bps : ℤ

pub data ChargeCurrency : Type 0 where
  usd cad gbp eur : ChargeCurrency

pub data FuelUnit : Type 0 where
  gallon litre : FuelUnit

pub record FixedUnitCharge : Type 0 where
  pub currency : ChargeCurrency
  pub fuel_unit : FuelUnit
  pub amount_minor_per_unit : ℤ

pub data SpreadCharge : Type 0 where
  percentage_of_reference : SpreadComponents → ℤ → SpreadCharge
  fixed_minor_per_unit : FixedUnitCharge → SpreadCharge

pub record SpreadPolicy : Type 0 where
  pub policy_id : String
  pub maximum_total_charge_bps : ℤ
  pub default_components : SpreadComponents
  pub maximum_change_bps : Option ℤ
  pub minimum_cost_recovery_bps : Option ℤ
  pub maximum_exposure_quantity_4dp : Option ℤ

-- The first argument of `createSpreadProposal`.
pub record ProposalInput : Type 0 where
  pub proposal_id : String
  pub maker_id : String
  pub reason : String
  pub created_at : String
  pub components : SpreadComponents
  pub subsidy_source : Option String

pub record SpreadProposal : Type 0 where
  pub proposal_id : String
  pub policy_id : String
  pub components : SpreadComponents
  pub total_charge_bps : ℤ
  pub maker_id : String
  pub reason : String
  pub subsidy_source : Option String
  pub created_at : String

-- The second argument of `approveSpreadProposal`.
pub record ApprovalInput : Type 0 where
  pub approval_id : String
  pub checker_id : String
  pub assurance : String
  pub approved_at : String

pub record SpreadApproval : Type 0 where
  pub approval_id : String
  pub proposal_id : String
  pub checker_id : String
  pub assurance : String
  pub approved_at : String

pub record PublishedSpreadDecision : Type 0 where
  pub charge_decision_id : String
  pub policy_id : String
  pub components : SpreadComponents
  pub total_charge_bps : ℤ
  pub proposal_id : String
  pub approval_id : String
  pub maker_id : String
  pub checker_id : String
  pub published_at : String

pub record QuoteChargeSnapshot : Type 0 where
  pub charge_decision_id : String
  pub modelled_protection_cost_bps : ℤ
  pub fuel_cap_margin_bps : ℤ
  pub reserve_buffer_bps : ℤ
  pub total_charge_bps : ℤ

pub data AdjustmentKind : Type 0 where
  regulatory_prohibition market_limit exposure_volatility group_policy : AdjustmentKind
  subscription promotion floor_cap_rounding : AdjustmentKind

-- `keyof SpreadComponents`
pub data ComponentKey : Type 0 where
  protection_cost_key margin_key reserve_key : ComponentKey

pub record SpreadAdjustment : Type 0 where
  pub adjustment_id : String
  pub kind : AdjustmentKind
  pub component : ComponentKey
  pub delta_bps : ℤ
  pub reason_code : String

-- The result of `applySpreadAdjustments`.
pub record AdjustedComponents : Type 0 where
  pub components : SpreadComponents
  pub applied_adjustment_ids : List String

pub record SpreadSimulationCohort : Type 0 where
  pub cohort_id : String
  pub customer_count : ℤ
  pub protected_quantity_4dp : ℤ
  pub reference_price_minor_per_unit : ℤ
  pub expected_claim_minor : ℤ

pub data SimulationState : Type 0 where
  simulated blocked : SimulationState

pub data Blocker : Type 0 where
  maximum_change_exceeded minimum_cost_recovery_failed exposure_cap_exceeded : Blocker

-- The sums of `simulateSpreadProposal`.
pub record SimulationTotals : Type 0 where
  pub customers : ℤ
  pub quantity_4dp : ℤ
  pub revenue_delta : ℤ
  pub claims : ℤ
  pub margin : ℤ
  pub reserve : ℤ

pub record SpreadSimulation : Type 0 where
  pub simulation_id : String
  pub proposal_id : String
  pub state : SimulationState
  pub current_total_charge_bps : ℤ
  pub proposed_total_charge_bps : ℤ
  pub totals : SimulationTotals
  pub blockers : List Blocker
  pub simulated_at : String

-- The first argument of `simulateSpreadProposal`.
pub record SimulationInput : Type 0 where
  pub simulation_id : String
  pub proposal : SpreadProposal
  pub current_decision : PublishedSpreadDecision
  pub cohorts : List SpreadSimulationCohort
  pub simulated_at : String

-- The argument of `scheduleSpreadDecision`.
pub record ScheduleInput : Type 0 where
  pub schedule_id : String
  pub charge_decision_id : String
  pub proposal : SpreadProposal
  pub approval : SpreadApproval
  pub effective_from : String
  pub scheduled_by : String
  pub scheduled_at : String
  pub simulation : SpreadSimulation

pub record ScheduledSpreadDecision : Type 0 where
  pub schedule_id : String
  pub charge_decision_id : String
  pub proposal : SpreadProposal
  pub approval : SpreadApproval
  pub effective_from : String
  pub scheduled_by : String
  pub scheduled_at : String

-- The second argument of `withdrawSpreadDecision`.
pub record WithdrawalInput : Type 0 where
  pub withdrawal_id : String
  pub withdrawn_by : String
  pub reason : String
  pub withdrawn_at : String

pub record SpreadWithdrawal : Type 0 where
  pub withdrawal_id : String
  pub charge_decision_id : String
  pub withdrawn_by : String
  pub reason : String
  pub withdrawn_at : String

pub record SpreadSupersession : Type 0 where
  pub supersession_id : String
  pub previous_decision_id : String
  pub replacement_decision_id : String
  pub superseded_at : String

-- One constructor for each `throw`.
pub data SpreadError : Type 0 where
  components_invalid limit_exceeded proposal_incomplete subsidy_required adjustment_invalid :
      SpreadError
  charge_invalid simulation_incomplete simulation_policy_disagrees cohort_invalid : SpreadError
  maker_is_checker approval_invalid simulation_not_passing schedule_disagrees : SpreadError
  not_yet_effective withdrawal_invalid supersession_invalid lineage_disagrees : SpreadError
  total_not_derived : SpreadError

-- What the engine calls: `Date.parse` (`none` for NaN), and `Math.round` of a share of a price, in
-- floating point: `(quantity4dp / 10_000) * price * bps / 10_000`.
pub record Host : Type 0 where
  pub date_parse : String → Option ℤ
  pub round_share : ℤ → ℤ → ℤ → ℤ
