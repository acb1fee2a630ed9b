-- ===== src/Spread/Proposing.antt =====
-- Components, proposals, adjustments and charges of packages/spread-engine/src/index.ts.
use fuel_cap.Base.{
  ℕ, String, Bool, not, ◌&&◌, ◌||◌, Option, none, some, List, [], ◌∷◌, map, leb, includes, ◌==◌,
  string_eq, is_some, if◌then◌else◌, Result, ok, ◌>>=◌, ◌>>◌, throw_if,
}
use fuel_cap.Base.Int.{ℤ, pos, ◌+ℤ◌, leb_ℤ, ltb_ℤ}
use fuel_cap.Base.Text.{is_blank, trim}
use fuel_cap.Spread.Types.{
  SpreadComponents, FixedUnitCharge, SpreadCharge, percentage_of_reference, fixed_minor_per_unit,
  SpreadPolicy, ProposalInput, SpreadProposal, AdjustmentKind, regulatory_prohibition, market_limit,
  exposure_volatility, group_policy, subscription, promotion, floor_cap_rounding, ComponentKey,
  protection_cost_key, margin_key, reserve_key, SpreadAdjustment, AdjustedComponents, SpreadError,
  components_invalid, limit_exceeded, proposal_incomplete, subsidy_required, adjustment_invalid,
  charge_invalid, Host,
}

-- `totalSpreadBps`
abbrev pub total_spread_bps : SpreadComponents → ℤ
total_spread_bps c = c.modelled_protection_cost_bps +ℤ c.fuel_cap_margin_bps +ℤ c.reserve_buffer_bps

-- `validBps`
abbrev pub valid_bps : ℤ → Bool
valid_bps value = leb_ℤ (pos 0) value

-- `validTime`
abbrev pub valid_time : Host → String → Bool
valid_time host value = is_some (host.date_parse value)

-- `validateComponents`
unfoldable pub validate_components : SpreadComponents → SpreadPolicy → Result SpreadError ℤ
validate_components c policy = do
  throw_if
      (not (valid_bps c.modelled_protection_cost_bps)
        || not (valid_bps c.fuel_cap_margin_bps)
        || not (valid_bps c.reserve_buffer_bps))
      components_invalid
  throw_if (ltb_ℤ policy.maximum_total_charge_bps (total_spread_bps c)) limit_exceeded
  ok (total_spread_bps c)

-- `subsidySource?.trim() || null`
abbrev pub trimmed_source : Option String → Option String
trimmed_source none = none
trimmed_source (some s) = if trim s == "" then none else some (trim s)

-- `createSpreadProposal`
unfoldable pub create_spread_proposal :
    Host → ProposalInput → SpreadPolicy → Result SpreadError SpreadProposal
create_spread_proposal host input policy = do
  throw_if
      (is_blank input.proposal_id
        || is_blank input.maker_id
        || is_blank input.reason
        || not (valid_time host input.created_at))
      proposal_incomplete
  total ← validate_components input.components policy
  throw_if
      (ltb_ℤ input.components.modelled_protection_cost_bps
          policy.default_components.modelled_protection_cost_bps
        && not (is_some (trimmed_source input.subsidy_source)))
      subsidy_required
  ok (record {
    proposal_id = input.proposal_id;
    policy_id = policy.policy_id;
    components = input.components;
    total_charge_bps = total;
    maker_id = input.maker_id;
    reason = input.reason;
    subsidy_source = trimmed_source input.subsidy_source;
    created_at = input.created_at;
  })

-- `createFuelCapPlusProposal`, whose components are given by the policy
unfoldable pub create_fuel_cap_plus_proposal :
    Host → ProposalInput → SpreadPolicy → Result SpreadError SpreadProposal
create_fuel_cap_plus_proposal host input policy =
    create_spread_proposal host
      (record input {
        components = record policy.default_components { fuel_cap_margin_bps = pos 0 };
      })
      policy

-- `precedence.indexOf`
abbrev pub precedence_index : AdjustmentKind → ℕ
precedence_index regulatory_prohibition = 0
precedence_index market_limit = 1
precedence_index exposure_volatility = 2
precedence_index group_policy = 3
precedence_index subscription = 4
precedence_index promotion = 5
precedence_index floor_cap_rounding = 6

-- A stable sort by precedence.
abbrev pub insert_adjustment : SpreadAdjustment → List SpreadAdjustment → List SpreadAdjustment
insert_adjustment a [] = a ∷ []
insert_adjustment a (b ∷ bs) =
    if leb (precedence_index a.kind) (precedence_index b.kind)
    then a ∷ b ∷ bs
    else b ∷ insert_adjustment a bs

-- `ordered`
abbrev pub sort_adjustments : List SpreadAdjustment → List SpreadAdjustment
sort_adjustments [] = []
sort_adjustments (a ∷ as_) = insert_adjustment a (sort_adjustments as_)

-- `components[key] += delta`
abbrev pub add_delta : ComponentKey → ℤ → SpreadComponents → SpreadComponents
add_delta protection_cost_key delta c = record c {
  modelled_protection_cost_bps = c.modelled_protection_cost_bps +ℤ delta;
}
add_delta margin_key delta c = record c { fuel_cap_margin_bps = c.fuel_cap_margin_bps +ℤ delta }
add_delta reserve_key delta c = record c { reserve_buffer_bps = c.reserve_buffer_bps +ℤ delta }

-- The loop of `applySpreadAdjustments`.
unfoldable pub apply_ordered :
    List String → List SpreadAdjustment → SpreadComponents → Result SpreadError SpreadComponents
apply_ordered seen [] c = ok c
apply_ordered seen (a ∷ as_) c = do
  throw_if (is_blank a.adjustment_id || includes seen a.adjustment_id || is_blank a.reason_code)
      adjustment_invalid
  apply_ordered (a.adjustment_id ∷ seen) as_ (add_delta a.component a.delta_bps c)

-- `applySpreadAdjustments`
unfoldable pub apply_spread_adjustments :
    SpreadComponents → List SpreadAdjustment → SpreadPolicy → Result SpreadError AdjustedComponents
apply_spread_adjustments base adjustments policy = do
  components ← apply_ordered [] (sort_adjustments adjustments) base
  _ ← validate_components components policy
  ok (record {
    components = components;
    applied_adjustment_ids = map (λ a. a.adjustment_id) (sort_adjustments adjustments);
  })

-- `createFixedUnitCharge`
unfoldable pub create_fixed_unit_charge : FixedUnitCharge → Result SpreadError SpreadCharge
create_fixed_unit_charge fixed = do
  throw_if (ltb_ℤ fixed.amount_minor_per_unit (pos 0)) charge_invalid
  ok (fixed_minor_per_unit fixed)

-- `createPercentageCharge`
unfoldable pub create_percentage_charge :
    SpreadComponents → SpreadPolicy → Result SpreadError SpreadCharge
create_percentage_charge components policy = do
  total ← validate_components components policy
  ok (percentage_of_reference components total)
