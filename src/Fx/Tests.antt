-- ===== src/Fx/Tests.antt =====
-- Runs of the exchange rate engine, and its theorems there.
use fuel_cap.Base.{String, ◌≡◌, refl, Option, none, some, [], ◌∷◌, if◌then◌else◌, ok, err}
use fuel_cap.Base.Int.{ℤ, pos, ◌+ℤ◌, ◌-ℤ◌}
use fuel_cap.Base.Doubles.{to_double, to_double_ℕ, nearest_multiple, double_step}
use fuel_cap.Base.Products.{◌*ℤ◌, trunc_div}
use fuel_cap.Base.Text.{is_blank}
use fuel_cap.Fx.{
  usd, gbp, eur, FxReferenceObservation, provider_reference, internal_pricing, CanonicalFxRate,
  direct, FxAdjustmentComponents, FxAdjustmentPolicy, ProposalInput, FxAdjustmentProposal,
  ApprovalInput, FxAdjustmentApproval, PublishedFxAdjustment, AppliedFxConversion, FxError, all_hex,
  validate_fx_observation, create_direct_canonical_rate, validate_adjustment,
  create_fx_adjustment_proposal, approve_fx_adjustment_proposal, publish_fx_adjustment,
  customer_rate, destination_amount, apply_fx_conversion,
}
use fuel_cap.Fx.Governance.{IsGoverned, publish_fx_adjustment-IsGoverned}
use fuel_cap.Fx.Rounding.{from_one, IsConverted, apply_fx_conversion-IsConverted}

abbrev date_parse : String → Option ℤ
date_parse t = if is_blank t then none else some (pos 0)

abbrev observation : FxReferenceObservation
observation = record {
  observation_id = "obs-1";
  pair = record { base = usd; quote = gbp };
  base_currency = usd;
  quote_currency = gbp;
  rate_6dp = pos 785432;
  provider = "ecb";
  source_observed_at = "2026-05-01";
  ingested_at = "2026-05-01";
  provenance = provider_reference;
  licence_class = internal_pricing;
  raw_payload_sha256 = "0123456789abcdef0123456789abcdef0123456789abcdef0123456789abcdef";
}

abbrev rate : CanonicalFxRate
rate = record {
  rate_id = "rate-1";
  pair = record { base = usd; quote = gbp };
  base_currency = usd;
  quote_currency = gbp;
  rate_6dp = pos 785432;
  method = direct;
  pivot_currency = none;
  observation_ids = "obs-1" ∷ [];
  decided_at = "2026-05-01";
}

abbrev policy : FxAdjustmentPolicy
policy = record {
  policy_id = "pol-1";
  maximum_adjustment_bps = pos 200;
  approved_pivots = eur ∷ [];
}

abbrev components : FxAdjustmentComponents
components = record {
  modelled_conversion_cost_bps = pos 30;
  fuel_cap_fx_margin_bps = pos 40;
  reserve_buffer_bps = pos 5;
}

abbrev input : ProposalInput
input = record {
  proposal_id = "p-1";
  maker_id = "maker";
  reason = "costs";
  created_at = "2026-05-01";
  components = components;
}

abbrev proposal : FxAdjustmentProposal
proposal = record {
  proposal_id = "p-1";
  policy_id = "pol-1";
  components = components;
  total_adjustment_bps = pos 75;
  maker_id = "maker";
  reason = "costs";
  created_at = "2026-05-01";
}

abbrev approval_input : ApprovalInput
approval_input = record {
  approval_id = "a-1";
  checker_id = "checker";
  assurance = "STEP_UP";
  approved_at = "2026-05-02";
}

abbrev approval : FxAdjustmentApproval
approval = record {
  approval_id = "a-1";
  proposal_id = "p-1";
  checker_id = "checker";
  assurance = "STEP_UP";
  approved_at = "2026-05-02";
}

abbrev adjustment : PublishedFxAdjustment
adjustment = record {
  adjustment_decision_id = "d-1";
  policy_id = "pol-1";
  components = components;
  total_adjustment_bps = pos 75;
  proposal_id = "p-1";
  approval_id = "a-1";
  maker_id = "maker";
  checker_id = "checker";
  published_at = "2026-05-03";
}

abbrev conversion : AppliedFxConversion
conversion = record {
  conversion_id = "c-1";
  source_currency = usd;
  destination_currency = gbp;
  source_amount_minor = pos 12345;
  destination_amount_minor = pos 9769;
  reference_rate_6dp = pos 785432;
  customer_rate_6dp = pos 791323;
  canonical_rate_id = "rate-1";
  adjustment_decision_id = "d-1";
  rate_method = direct;
  observation_ids = "obs-1" ∷ [];
  applied_at = "2026-05-04";
}

created : create_fx_adjustment_proposal date_parse input policy ≡ ok proposal
unfolding create_fx_adjustment_proposal validate_adjustment is_blank ◌+ℤ◌
created = refl

approved : approve_fx_adjustment_proposal date_parse proposal approval_input ≡ ok approval
unfolding approve_fx_adjustment_proposal is_blank
approved = refl

published :
    publish_fx_adjustment date_parse "d-1" proposal approval "2026-05-03" policy ≡ ok adjustment
unfolding publish_fx_adjustment validate_adjustment is_blank ◌+ℤ◌
published = refl

decided :
    create_direct_canonical_rate date_parse "rate-1" observation "2026-05-01" (pos 300) ≡ ok rate
unfolding create_direct_canonical_rate validate_fx_observation is_blank all_hex ◌+ℤ◌ ◌-ℤ◌ ◌*ℤ◌
decided = refl

converted :
    apply_fx_conversion date_parse "c-1" (pos 12345) usd gbp rate adjustment "2026-05-04"
    ≡ ok conversion
unfolding apply_fx_conversion customer_rate destination_amount to_double to_double_ℕ trunc_div
    is_blank ◌+ℤ◌ ◌*ℤ◌
converted = refl

-- A rate is never read in the other direction.
inverted :
    apply_fx_conversion date_parse "c-1" (pos 12345) gbp usd rate adjustment "2026-05-04"
    ≡ err FxError.direction_mismatch
unfolding apply_fx_conversion
inverted = refl

publish_fx_adjustment-IsGoverned_example :
    IsGoverned date_parse input approval_input policy "2026-05-03" adjustment
publish_fx_adjustment-IsGoverned_example =
    publish_fx_adjustment-IsGoverned date_parse input policy policy proposal approval_input approval
      "d-1" "2026-05-03" adjustment created approved published

apply_fx_conversion-IsConverted_example : IsConverted (pos 12345) rate adjustment conversion
apply_fx_conversion-IsConverted_example =
    apply_fx_conversion-IsConverted date_parse rate adjustment proposal approval policy "d-1"
      "2026-05-03" "c-1" (pos 12345) usd gbp "2026-05-04" conversion
      (from_one "rate-1" observation "2026-05-01" (pos 300) decided) published converted refl refl

-- Above 2 ^ 53 the number is rounded to a double, which is no longer the nearest unit.
large : destination_amount (pos 9007199254740991) (pos 1500000) ≡ pos 13510798882111488
unfolding destination_amount to_double to_double_ℕ nearest_multiple double_step trunc_div ◌+ℤ◌ ◌*ℤ◌
large = refl
