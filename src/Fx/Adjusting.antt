-- ===== src/Fx/Adjusting.antt =====
-- Adjustments, from the proposal to the publication, and conversions of
-- packages/fx-engine/src/index.ts.
use fuel_cap.Base.{
  String, Bool, not, ◌||◌, Option, ◌==◌, string_eq, Result, ok, ◌>>=◌, ◌>>◌, throw_if,
}
use fuel_cap.Base.Int.{ℤ, pos, ◌+ℤ◌, leb_ℤ, ltb_ℤ, eqb_ℤ, is_safe_integer}
use fuel_cap.Base.Doubles.{to_double}
use fuel_cap.Base.Products.{◌*ℤ◌}
use fuel_cap.Base.Text.{is_blank}
use fuel_cap.Base.Dates.{is_earlier}
use fuel_cap.Fx.Types.{
  Currency, CanonicalFxRate, FxAdjustmentComponents, FxAdjustmentPolicy, ProposalInput,
  FxAdjustmentProposal, ApprovalInput, FxAdjustmentApproval, PublishedFxAdjustment,
  AppliedFxConversion, FxError, components_invalid, limit_exceeded, proposal_incomplete,
  maker_is_checker, approval_invalid, lineage_disagrees, total_not_derived, direction_mismatch,
  time_precedes,
}
use fuel_cap.Fx.Rates.{currency_eq, fx_rate_scale, pair_differs, valid_instant, rounded_ratio}

-- `validBps`
abbrev pub valid_bps : ℤ → Bool
valid_bps value = leb_ℤ (pos 0) value

-- `totalFxAdjustmentBps`
abbrev pub total_fx_adjustment_bps : FxAdjustmentComponents → ℤ
total_fx_adjustment_bps c =
    c.modelled_conversion_cost_bps +ℤ c.fuel_cap_fx_margin_bps +ℤ c.reserve_buffer_bps

-- `validateAdjustment`
unfoldable pub validate_adjustment : FxAdjustmentComponents → FxAdjustmentPolicy → Result FxError ℤ
validate_adjustment c policy = do
  throw_if
      (not (valid_bps c.modelled_conversion_cost_bps)
        || not (valid_bps c.fuel_cap_fx_margin_bps)
        || not (valid_bps c.reserve_buffer_bps))
      components_invalid
  throw_if (ltb_ℤ policy.maximum_adjustment_bps (total_fx_adjustment_bps c)) limit_exceeded
  ok (total_fx_adjustment_bps c)

-- `createFxAdjustmentProposal`
unfoldable pub create_fx_adjustment_proposal :
    (String → Option ℤ) → ProposalInput → FxAdjustmentPolicy → Result FxError FxAdjustmentProposal
create_fx_adjustment_proposal date_parse input policy = do
  throw_if
      (is_blank input.proposal_id
        || is_blank input.maker_id
        || is_blank input.reason
        || not (valid_instant date_parse input.created_at))
      proposal_incomplete
  total ← validate_adjustment input.components policy
  ok (record {
    proposal_id = input.proposal_id;
    policy_id = policy.policy_id;
    components = input.components;
    total_adjustment_bps = total;
    maker_id = input.maker_id;
    reason = input.reason;
    created_at = input.created_at;
  })

-- `approveFxAdjustmentProposal`
unfoldable pub approve_fx_adjustment_proposal :
    (String → Option ℤ) → FxAdjustmentProposal → ApprovalInput → Result FxError FxAdjustmentApproval
approve_fx_adjustment_proposal date_parse proposal input = do
  throw_if (input.checker_id == proposal.maker_id) maker_is_checker
  throw_if
      (is_blank input.approval_id
        || is_blank input.checker_id
        || not (input.assurance == "STEP_UP")
        || not (valid_instant date_parse input.approved_at)
        || is_earlier date_parse input.approved_at proposal.created_at)
      approval_invalid
  ok (record {
    approval_id = input.approval_id;
    proposal_id = proposal.proposal_id;
    checker_id = input.checker_id;
    assurance = input.assurance;
    approved_at = input.approved_at;
  })

-- `publishFxAdjustment`
unfoldable pub publish_fx_adjustment :
    (String → Option ℤ)
    → String
    → FxAdjustmentProposal
    → FxAdjustmentApproval
    → String
    → FxAdjustmentPolicy
    → Result FxError PublishedFxAdjustment
publish_fx_adjustment date_parse adjustment_decision_id proposal approval published_at policy = do
  throw_if
      (not (approval.proposal_id == proposal.proposal_id)
        || not (proposal.policy_id == policy.policy_id)
        || not (valid_instant date_parse published_at)
        || is_earlier date_parse published_at approval.approved_at)
      lineage_disagrees
  total ← validate_adjustment proposal.components policy
  throw_if (not (eqb_ℤ total proposal.total_adjustment_bps)) total_not_derived
  ok (record {
    adjustment_decision_id = adjustment_decision_id;
    policy_id = policy.policy_id;
    components = proposal.components;
    total_adjustment_bps = total;
    proposal_id = proposal.proposal_id;
    approval_id = approval.approval_id;
    maker_id = proposal.maker_id;
    checker_id = approval.checker_id;
    published_at = published_at;
  })

-- `customerRate6dp` of `applyFxConversion`
unfoldable pub customer_rate : CanonicalFxRate → PublishedFxAdjustment → ℤ
customer_rate rate adjustment =
    to_double
      (rounded_ratio (rate.rate_6dp *ℤ (pos 10000 +ℤ adjustment.total_adjustment_bps)) 10000)

-- `destinationAmountMinor` of `applyFxConversion`
unfoldable pub destination_amount : ℤ → ℤ → ℤ
destination_amount source_amount_minor customer_rate_6dp =
    to_double (rounded_ratio (source_amount_minor *ℤ customer_rate_6dp) fx_rate_scale)

-- `applyFxConversion`
unfoldable pub apply_fx_conversion :
    (String → Option ℤ)
    → String
    → ℤ
    → Currency
    → Currency
    → CanonicalFxRate
    → PublishedFxAdjustment
    → String
    → Result FxError AppliedFxConversion
apply_fx_conversion date_parse conversion_id amount source destination rate adjustment applied_at =
    do
      throw_if
          (not (is_safe_integer amount)
            || leb_ℤ amount (pos 0)
            || not (source == rate.base_currency)
            || not (destination == rate.quote_currency)
            || pair_differs rate.pair source destination)
          direction_mismatch
      throw_if
          (not (valid_instant date_parse applied_at)
            || is_earlier date_parse applied_at rate.decided_at
            || is_earlier date_parse applied_at adjustment.published_at)
          time_precedes
      ok (record {
        conversion_id = conversion_id;
        source_currency = source;
        destination_currency = destination;
        source_amount_minor = amount;
        destination_amount_minor = destination_amount amount (customer_rate rate adjustment);
        reference_rate_6dp = rate.rate_6dp;
        customer_rate_6dp = customer_rate rate adjustment;
        canonical_rate_id = rate.rate_id;
        adjustment_decision_id = adjustment.adjustment_decision_id;
        rate_method = rate.method;
        observation_ids = rate.observation_ids;
        applied_at = applied_at;
      })
