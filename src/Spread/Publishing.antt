-- ===== src/Spread/Publishing.antt =====
-- Approval, scheduling, publication, withdrawal and supersession of packages/spread-engine/src/index.ts.
use fuel_cap.Base.{
  String, Bool, true, false, not, ◌||◌, ◌==◌, string_eq, Result, ok, ◌>>=◌, ◌>>◌, throw_if,
}
use fuel_cap.Base.Int.{eqb_ℤ}
use fuel_cap.Base.Text.{is_blank}
use fuel_cap.Base.Dates.{is_earlier}
use fuel_cap.Spread.Types.{
  SpreadPolicy, SpreadProposal, ApprovalInput, SpreadApproval, PublishedSpreadDecision,
  QuoteChargeSnapshot, SimulationState, simulated, blocked, ScheduleInput, ScheduledSpreadDecision,
  WithdrawalInput, SpreadWithdrawal, SpreadSupersession, SpreadError, maker_is_checker,
  approval_invalid, simulation_not_passing, schedule_disagrees, not_yet_effective,
  withdrawal_invalid, supersession_invalid, lineage_disagrees, total_not_derived, Host,
}
use fuel_cap.Spread.Proposing.{valid_time, validate_components}

-- `approveSpreadProposal`
unfoldable pub approve_spread_proposal :
    Host → SpreadProposal → ApprovalInput → Result SpreadError SpreadApproval
approve_spread_proposal host proposal input = do
  throw_if (input.checker_id == proposal.maker_id) maker_is_checker
  throw_if
      (is_blank input.checker_id
        || not (input.assurance == "STEP_UP")
        || not (valid_time host input.approved_at)
        || is_earlier host.date_parse input.approved_at proposal.created_at)
      approval_invalid
  ok (record {
    approval_id = input.approval_id;
    proposal_id = proposal.proposal_id;
    checker_id = input.checker_id;
    assurance = input.assurance;
    approved_at = input.approved_at;
  })

abbrev pub is_passing : SimulationState → Bool
is_passing simulated = true
is_passing blocked = false

-- `scheduleSpreadDecision`
unfoldable pub schedule_spread_decision :
    Host → ScheduleInput → Result SpreadError ScheduledSpreadDecision
schedule_spread_decision host input = do
  throw_if
      (not (input.simulation.proposal_id == input.proposal.proposal_id)
        || not (is_passing input.simulation.state))
      simulation_not_passing
  throw_if
      (not (input.approval.proposal_id == input.proposal.proposal_id)
        || is_blank input.schedule_id
        || is_blank input.charge_decision_id
        || is_blank input.scheduled_by
        || not (valid_time host input.scheduled_at)
        || not (valid_time host input.effective_from)
        || is_earlier host.date_parse input.scheduled_at input.approval.approved_at
        || is_earlier host.date_parse input.effective_from input.scheduled_at)
      schedule_disagrees
  ok (record {
    schedule_id = input.schedule_id;
    charge_decision_id = input.charge_decision_id;
    proposal = input.proposal;
    approval = input.approval;
    effective_from = input.effective_from;
    scheduled_by = input.scheduled_by;
    scheduled_at = input.scheduled_at;
  })

-- `publishSpreadDecision`
unfoldable pub publish_spread_decision :
    Host
    → String
    → SpreadProposal
    → SpreadApproval
    → String
    → SpreadPolicy
    → Result SpreadError PublishedSpreadDecision
publish_spread_decision host charge_decision_id proposal approval published_at policy = do
  throw_if
      (not (approval.proposal_id == proposal.proposal_id)
        || not (proposal.policy_id == policy.policy_id)
        || is_earlier host.date_parse published_at approval.approved_at)
      lineage_disagrees
  total ← validate_components proposal.components policy
  throw_if (not (eqb_ℤ total proposal.total_charge_bps)) total_not_derived
  ok (record {
    charge_decision_id = charge_decision_id;
    policy_id = policy.policy_id;
    components = proposal.components;
    total_charge_bps = total;
    proposal_id = proposal.proposal_id;
    approval_id = approval.approval_id;
    maker_id = proposal.maker_id;
    checker_id = approval.checker_id;
    published_at = published_at;
  })

-- `publishScheduledSpreadDecision`
unfoldable pub publish_scheduled_spread_decision :
    Host
    → ScheduledSpreadDecision
    → String
    → SpreadPolicy
    → Result SpreadError PublishedSpreadDecision
publish_scheduled_spread_decision host schedule published_at policy = do
  throw_if
      (not (valid_time host published_at)
        || is_earlier host.date_parse published_at schedule.effective_from)
      not_yet_effective
  publish_spread_decision host schedule.charge_decision_id schedule.proposal schedule.approval
      published_at policy

-- `withdrawSpreadDecision`
unfoldable pub withdraw_spread_decision :
    Host → PublishedSpreadDecision → WithdrawalInput → Result SpreadError SpreadWithdrawal
withdraw_spread_decision host decision input = do
  throw_if
      (is_blank input.withdrawal_id
        || is_blank input.withdrawn_by
        || is_blank input.reason
        || not (valid_time host input.withdrawn_at)
        || is_earlier host.date_parse input.withdrawn_at decision.published_at)
      withdrawal_invalid
  ok (record {
    withdrawal_id = input.withdrawal_id;
    charge_decision_id = decision.charge_decision_id;
    withdrawn_by = input.withdrawn_by;
    reason = input.reason;
    withdrawn_at = input.withdrawn_at;
  })

-- `supersedeSpreadDecision`, with the identity and the time of its last argument
unfoldable pub supersede_spread_decision :
    Host
    → PublishedSpreadDecision
    → PublishedSpreadDecision
    → String
    → String
    → Result SpreadError SpreadSupersession
supersede_spread_decision host previous replacement supersession_id superseded_at = do
  throw_if
      (previous.charge_decision_id == replacement.charge_decision_id
        || not (previous.policy_id == replacement.policy_id)
        || is_blank supersession_id
        || not (valid_time host superseded_at)
        || is_earlier host.date_parse superseded_at replacement.published_at)
      supersession_invalid
  ok (record {
    supersession_id = supersession_id;
    previous_decision_id = previous.charge_decision_id;
    replacement_decision_id = replacement.charge_decision_id;
    superseded_at = superseded_at;
  })

-- `toQuoteChargeSnapshot`
abbrev pub to_quote_charge_snapshot : PublishedSpreadDecision → QuoteChargeSnapshot
to_quote_charge_snapshot d = record {
  charge_decision_id = d.charge_decision_id;
  modelled_protection_cost_bps = d.components.modelled_protection_cost_bps;
  fuel_cap_margin_bps = d.components.fuel_cap_margin_bps;
  reserve_buffer_bps = d.components.reserve_buffer_bps;
  total_charge_bps = d.total_charge_bps;
}
