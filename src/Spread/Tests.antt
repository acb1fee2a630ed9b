-- ===== src/Spread/Tests.antt =====
-- Runs of the spread engine, and its theorems there.
use fuel_cap.Base.{◌≡◌, refl, none, some, List, [], ◌∷◌, if◌then◌else◌, ok}
use fuel_cap.Base.Int.{pos, negsuc, ◌+ℤ◌, ◌-ℤ◌, negate}
use fuel_cap.Base.Text.{is_blank, trim}
use fuel_cap.Spread.{
  SpreadComponents, SpreadPolicy, ProposalInput, SpreadProposal, ApprovalInput, SpreadApproval,
  PublishedSpreadDecision, promotion, market_limit, margin_key, reserve_key, SpreadAdjustment,
  AdjustedComponents, SpreadSimulationCohort, simulated, SpreadSimulation, SimulationInput,
  ScheduleInput, ScheduledSpreadDecision, Host, validate_components, create_spread_proposal,
  create_fuel_cap_plus_proposal, apply_ordered, apply_spread_adjustments, add_cohort, cohort_totals,
  simulate_spread_proposal, approve_spread_proposal, schedule_spread_decision,
  publish_spread_decision, publish_scheduled_spread_decision,
}
use fuel_cap.Spread.Adjusted.{IsAdjusted, apply_spread_adjustments-IsAdjusted}
use fuel_cap.Spread.Release.{IsReleased, publish_scheduled_spread_decision-IsReleased}

abbrev host : Host
host = record {
  date_parse = λ t. if is_blank t then none else some (pos 0);
  round_share = λ quantity price bps. pos 0;
}

abbrev components : SpreadComponents
components = record {
  modelled_protection_cost_bps = pos 120;
  fuel_cap_margin_bps = pos 60;
  reserve_buffer_bps = pos 20;
}

abbrev policy : SpreadPolicy
policy = record {
  policy_id = "pol-1";
  maximum_total_charge_bps = pos 500;
  default_components = components;
  maximum_change_bps = some (pos 50);
  minimum_cost_recovery_bps = some (pos 100);
  maximum_exposure_quantity_4dp = some (pos 900000);
}

abbrev input : ProposalInput
input = record {
  proposal_id = "p-1";
  maker_id = "maker";
  reason = "season";
  created_at = "2026-05-01";
  components = record components { modelled_protection_cost_bps = pos 110 };
  subsidy_source = some " fund ";
}

abbrev proposal : SpreadProposal
proposal = record {
  proposal_id = "p-1";
  policy_id = "pol-1";
  components = record components { modelled_protection_cost_bps = pos 110 };
  total_charge_bps = pos 190;
  maker_id = "maker";
  reason = "season";
  subsidy_source = some "fund";
  created_at = "2026-05-01";
}

created : create_spread_proposal host input policy ≡ ok proposal
unfolding create_spread_proposal validate_components is_blank trim ◌+ℤ◌
created = refl

abbrev approval_input : ApprovalInput
approval_input = record {
  approval_id = "a-1";
  checker_id = "checker";
  assurance = "STEP_UP";
  approved_at = "2026-05-02";
}

abbrev approval : SpreadApproval
approval = record {
  approval_id = "a-1";
  proposal_id = "p-1";
  checker_id = "checker";
  assurance = "STEP_UP";
  approved_at = "2026-05-02";
}

abbrev current : PublishedSpreadDecision
current = record {
  charge_decision_id = "d-0";
  policy_id = "pol-1";
  components = components;
  total_charge_bps = pos 200;
  proposal_id = "p-0";
  approval_id = "a-0";
  maker_id = "maker";
  checker_id = "checker";
  published_at = "2026-01-01";
}

abbrev cohort : SpreadSimulationCohort
cohort = record {
  cohort_id = "c-1";
  customer_count = pos 12;
  protected_quantity_4dp = pos 400000;
  reference_price_minor_per_unit = pos 350;
  expected_claim_minor = pos 900;
}

abbrev simulation_input : SimulationInput
simulation_input = record {
  simulation_id = "s-1";
  proposal = proposal;
  current_decision = current;
  cohorts = cohort ∷ cohort ∷ [];
  simulated_at = "2026-05-01";
}

abbrev simulation : SpreadSimulation
simulation = record {
  simulation_id = "s-1";
  proposal_id = "p-1";
  state = simulated;
  current_total_charge_bps = pos 200;
  proposed_total_charge_bps = pos 190;
  totals = record {
    customers = pos 24;
    quantity_4dp = pos 800000;
    revenue_delta = pos 0;
    claims = pos 1800;
    margin = pos 0;
    reserve = pos 0;
  };
  blockers = [];
  simulated_at = "2026-05-01";
}

abbrev plan : ScheduleInput
plan = record {
  schedule_id = "sch-1";
  charge_decision_id = "d-1";
  proposal = proposal;
  approval = approval;
  effective_from = "2026-06-01";
  scheduled_by = "checker";
  scheduled_at = "2026-05-03";
  simulation = simulation;
}

abbrev schedule : ScheduledSpreadDecision
schedule = record {
  schedule_id = "sch-1";
  charge_decision_id = "d-1";
  proposal = proposal;
  approval = approval;
  effective_from = "2026-06-01";
  scheduled_by = "checker";
  scheduled_at = "2026-05-03";
}

abbrev decision : PublishedSpreadDecision
decision = record {
  charge_decision_id = "d-1";
  policy_id = "pol-1";
  components = record components { modelled_protection_cost_bps = pos 110 };
  total_charge_bps = pos 190;
  proposal_id = "p-1";
  approval_id = "a-1";
  maker_id = "maker";
  checker_id = "checker";
  published_at = "2026-06-02";
}

simulates : simulate_spread_proposal host simulation_input policy ≡ ok simulation
unfolding simulate_spread_proposal cohort_totals add_cohort is_blank negate ◌+ℤ◌ ◌-ℤ◌
simulates = refl

approves : approve_spread_proposal host proposal approval_input ≡ ok approval
unfolding approve_spread_proposal is_blank
approves = refl

schedules : schedule_spread_decision host plan ≡ ok schedule
unfolding schedule_spread_decision is_blank
schedules = refl

publishes : publish_scheduled_spread_decision host schedule "2026-06-02" policy ≡ ok decision
unfolding publish_scheduled_spread_decision publish_spread_decision validate_components is_blank
    ◌+ℤ◌
publishes = refl

-- FuelCap Plus is the default without the margin.
plus :
    create_fuel_cap_plus_proposal host input policy
    ≡ ok (record proposal {
      components = record components { fuel_cap_margin_bps = pos 0 };
      total_charge_bps = pos 140;
    })
unfolding create_fuel_cap_plus_proposal create_spread_proposal validate_components is_blank trim
    ◌+ℤ◌
plus = refl

abbrev adjustments : List SpreadAdjustment
adjustments =
    record {
      adjustment_id = "adj-1";
      kind = promotion;
      component = margin_key;
      delta_bps = negsuc 24;
      reason_code = "SPRING";
    }
    ∷ record {
      adjustment_id = "adj-2";
      kind = market_limit;
      component = reserve_key;
      delta_bps = pos 5;
      reason_code = "LIMIT";
    }
    ∷ []

abbrev adjusted : AdjustedComponents
adjusted = record {
  components = record {
    modelled_protection_cost_bps = pos 120;
    fuel_cap_margin_bps = pos 35;
    reserve_buffer_bps = pos 25;
  };
  applied_adjustment_ids = "adj-2" ∷ "adj-1" ∷ [];
}

adjusts : apply_spread_adjustments components adjustments policy ≡ ok adjusted
unfolding apply_spread_adjustments apply_ordered validate_components is_blank ◌+ℤ◌
adjusts = refl

apply_spread_adjustments-IsAdjusted_example :
    (ordered : List SpreadAdjustment) × IsAdjusted components adjustments ordered policy adjusted
apply_spread_adjustments-IsAdjusted_example =
    apply_spread_adjustments-IsAdjusted components adjustments policy adjusted adjusts

publish_scheduled_spread_decision-IsReleased_example :
    IsReleased host simulation_input policy policy plan "2026-06-02" decision
publish_scheduled_spread_decision-IsReleased_example =
    publish_scheduled_spread_decision-IsReleased host simulation_input policy policy simulation
      approval_input approval plan schedule "2026-06-02" decision simulates approves schedules
      publishes
