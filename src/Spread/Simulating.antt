-- ===== src/Spread/Simulating.antt =====
-- `simulateSpreadProposal` of packages/spread-engine/src/index.ts.
use fuel_cap.Base.{
  String, Bool, true, false, not, ◌&&◌, ◌||◌, Option, none, some, List, [], ◌∷◌, ◌++◌, ◌==◌,
  string_eq, if◌then◌else◌, Result, ok, ◌>>=◌, ◌>>◌, throw_if,
}
use fuel_cap.Base.Int.{ℤ, pos, ◌+ℤ◌, ◌-ℤ◌, negate, ltb_ℤ}
use fuel_cap.Base.Text.{is_blank}
use fuel_cap.Base.Dates.{is_earlier}
use fuel_cap.Spread.Types.{
  SpreadPolicy, SpreadProposal, PublishedSpreadDecision, SpreadSimulationCohort, SimulationState,
  simulated, blocked, Blocker, maximum_change_exceeded, minimum_cost_recovery_failed,
  exposure_cap_exceeded, SimulationTotals, SpreadSimulation, SimulationInput, SpreadError,
  simulation_incomplete, simulation_policy_disagrees, cohort_invalid, Host,
}
use fuel_cap.Spread.Proposing.{valid_time}

-- `Math.abs`
abbrev pub abs_ℤ : ℤ → ℤ
abs_ℤ n = if ltb_ℤ n (pos 0) then negate n else n

-- `!subsidySource`
abbrev pub no_source : Option String → Bool
no_source none = true
no_source (some s) = s == ""

-- `limit !== undefined && value > limit`
abbrev pub exceeds : ℤ → Option ℤ → Bool
exceeds value none = false
exceeds value (some limit) = ltb_ℤ limit value

-- `limit !== undefined && value < limit`
abbrev pub falls_below : ℤ → Option ℤ → Bool
falls_below value none = false
falls_below value (some limit) = ltb_ℤ value limit

abbrev pub blocker_if : Bool → Blocker → List Blocker
blocker_if true b = b ∷ []
blocker_if false b = []

-- `changeBps`
abbrev pub change_bps : SpreadProposal → PublishedSpreadDecision → ℤ
change_bps p d = abs_ℤ (p.total_charge_bps -ℤ d.total_charge_bps)

abbrev pub cohort_is_bad : SpreadSimulationCohort → Bool
cohort_is_bad c =
    is_blank c.cohort_id
    || ltb_ℤ c.customer_count (pos 0)
    || ltb_ℤ c.protected_quantity_4dp (pos 0)
    || ltb_ℤ c.reference_price_minor_per_unit (pos 0)
    || ltb_ℤ c.expected_claim_minor (pos 0)

abbrev pub no_totals : SimulationTotals
no_totals = record {
  customers = pos 0;
  quantity_4dp = pos 0;
  revenue_delta = pos 0;
  claims = pos 0;
  margin = pos 0;
  reserve = pos 0;
}

-- One step of the `reduce` over the cohorts.
unfoldable pub add_cohort :
    Host
    → SpreadProposal
    → PublishedSpreadDecision
    → SimulationTotals
    → SpreadSimulationCohort
    → SimulationTotals
add_cohort host p d sum c =
    let share : ℤ → ℤ =
      host.round_share c.protected_quantity_4dp c.reference_price_minor_per_unit in
    record {
      customers = sum.customers +ℤ c.customer_count;
      quantity_4dp = sum.quantity_4dp +ℤ c.protected_quantity_4dp;
      revenue_delta = sum.revenue_delta +ℤ share (p.total_charge_bps -ℤ d.total_charge_bps);
      claims = sum.claims +ℤ c.expected_claim_minor;
      margin = sum.margin +ℤ share p.components.fuel_cap_margin_bps;
      reserve = sum.reserve +ℤ share p.components.reserve_buffer_bps;
    }

-- `totals`
unfoldable pub cohort_totals :
    Host
    → SpreadProposal
    → PublishedSpreadDecision
    → SimulationTotals
    → List SpreadSimulationCohort
    → Result SpreadError SimulationTotals
cohort_totals host p d sum [] = ok sum
cohort_totals host p d sum (c ∷ cs) = do
  throw_if (cohort_is_bad c) cohort_invalid
  cohort_totals host p d (add_cohort host p d sum c) cs

abbrev pub blockers_of :
    SpreadProposal → PublishedSpreadDecision → SpreadPolicy → SimulationTotals → List Blocker
blockers_of p d policy totals =
    blocker_if (exceeds (change_bps p d) policy.maximum_change_bps) maximum_change_exceeded
    ++ blocker_if
        (falls_below p.components.modelled_protection_cost_bps policy.minimum_cost_recovery_bps
          && no_source p.subsidy_source)
        minimum_cost_recovery_failed
    ++ blocker_if (exceeds totals.quantity_4dp policy.maximum_exposure_quantity_4dp)
        exposure_cap_exceeded

abbrev pub state_of : List Blocker → SimulationState
state_of [] = simulated
state_of (b ∷ bs) = blocked

-- `simulateSpreadProposal`
unfoldable pub simulate_spread_proposal :
    Host → SimulationInput → SpreadPolicy → Result SpreadError SpreadSimulation
simulate_spread_proposal host input policy = do
  throw_if
      (is_blank input.simulation_id
        || not (valid_time host input.simulated_at)
        || is_earlier host.date_parse input.simulated_at input.proposal.created_at)
      simulation_incomplete
  throw_if
      (not (input.current_decision.policy_id == policy.policy_id)
        || not (input.proposal.policy_id == policy.policy_id))
      simulation_policy_disagrees
  totals ← cohort_totals host input.proposal input.current_decision no_totals input.cohorts
  let blockers = blockers_of input.proposal input.current_decision policy totals
  ok (record {
    simulation_id = input.simulation_id;
    proposal_id = input.proposal.proposal_id;
    state = state_of blockers;
    current_total_charge_bps = input.current_decision.total_charge_bps;
    proposed_total_charge_bps = input.proposal.total_charge_bps;
    totals = totals;
    blockers = blockers;
    simulated_at = input.simulated_at;
  })
