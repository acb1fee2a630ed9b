-- ===== src/Fx/Governance.antt =====
-- The way of an adjustment to its publication in packages/fx-engine/src/index.ts.
use fuel_cap.Base.{
  String, ◌≡◌, sym, ap, subst, ◌∙◌, ◌≢◌, false, not, Option, ==-eq, ne_of_==, string_eq, ok,
  >>-eq_ok, >>=-eq_ok, ok_eq, not-eq_false, ||-eq_false, arith,
}
use fuel_cap.Base.Int.{ℤ, pos, ◌≤ℤ◌, ltb_ℤ}
use fuel_cap.Base.Dates.{is_earlier}
use fuel_cap.Fx.{
  FxAdjustmentComponents, FxAdjustmentPolicy, ProposalInput, FxAdjustmentProposal, ApprovalInput,
  FxAdjustmentApproval, PublishedFxAdjustment, FxError, valid_bps, total_fx_adjustment_bps,
  validate_adjustment, create_fx_adjustment_proposal, approve_fx_adjustment_proposal,
  publish_fx_adjustment,
}

-- Components that a policy admits.
pub record IsWithin (c : FxAdjustmentComponents) (policy : FxAdjustmentPolicy) (total : ℤ)
    : Type 0 where
  pub cost : pos 0 ≤ℤ c.modelled_conversion_cost_bps
  pub margin : pos 0 ≤ℤ c.fuel_cap_fx_margin_bps
  pub reserve : pos 0 ≤ℤ c.reserve_buffer_bps
  pub derived : total_fx_adjustment_bps c ≡ total
  pub limited : total ≤ℤ policy.maximum_adjustment_bps

pub validate_adjustment-IsWithin :
    (c : FxAdjustmentComponents) (policy : FxAdjustmentPolicy) (total : ℤ)
    → validate_adjustment c policy ≡ ok total
    → IsWithin c policy total
unfolding validate_adjustment
validate_adjustment-IsWithin c policy total h =
    let (bps, h₁) = >>-eq_ok _ FxError.components_invalid _ h in
    let (limit, h₂) = >>-eq_ok _ FxError.limit_exceeded _ h₁ in
    let (two, third) = ||-eq_false _ _ bps in
    let (first, second) = ||-eq_false _ _ two in
    record {
      cost = nonnegative _ first;
      margin = nonnegative _ second;
      reserve = nonnegative _ third;
      derived = ok_eq h₂;
      limited =
          subst (λ n. n ≤ℤ policy.maximum_adjustment_bps) (ok_eq h₂)
            (at_most policy.maximum_adjustment_bps (total_fx_adjustment_bps c) limit);
    }
  where
    nonnegative : (n : ℤ) → not (valid_bps n) ≡ false → pos 0 ≤ℤ n
    nonnegative n h = ground arith

    at_most : (a b : ℤ) → ltb_ℤ a b ≡ false → b ≤ℤ a
    at_most a b h = ground arith

-- What stands behind a published adjustment.
pub record IsGoverned (date_parse : String → Option ℤ) (input : ProposalInput)
    (approval : ApprovalInput) (policy : FxAdjustmentPolicy) (published_at : String)
    (d : PublishedFxAdjustment) : Type 0 where
  pub maker_checker : d.maker_id ≢ d.checker_id
  pub maker : d.maker_id ≡ input.maker_id
  pub checker : d.checker_id ≡ approval.checker_id
  pub step_up : approval.assurance ≡ "STEP_UP"
  pub components : d.components ≡ input.components
  pub within : IsWithin d.components policy d.total_adjustment_bps
  pub approved_after : is_earlier date_parse approval.approved_at input.created_at ≡ false
  pub published_after : is_earlier date_parse published_at approval.approved_at ≡ false

pub publish-IsWithin :
    (date_parse : String → Option ℤ) (id : String) (p : FxAdjustmentProposal)
    (a : FxAdjustmentApproval) (at : String) (policy : FxAdjustmentPolicy)
    (d : PublishedFxAdjustment)
    → publish_fx_adjustment date_parse id p a at policy ≡ ok d
    → (d.maker_id ≡ p.maker_id)
      × (d.checker_id ≡ a.checker_id)
      × (d.components ≡ p.components)
      × IsWithin d.components policy d.total_adjustment_bps
      × (is_earlier date_parse at a.approved_at ≡ false)
unfolding publish_fx_adjustment
publish-IsWithin date_parse id p a at policy d h =
    let (lineage, h₁) = >>-eq_ok _ FxError.lineage_disagrees _ h in
    let (total, valid, h₂) = >>=-eq_ok (validate_adjustment p.components policy) _ h₁ in
    let (_, h₃) = >>-eq_ok _ FxError.total_not_derived _ h₂ in
    let e = ok_eq h₃ in
    (
      sym (ap (λ x. x.maker_id) e),
      sym (ap (λ x. x.checker_id) e),
      sym (ap (λ x. x.components) e),
      subst (λ x. IsWithin x.components policy x.total_adjustment_bps) e
          (validate_adjustment-IsWithin p.components policy total valid),
      (||-eq_false _ _ lineage).1,
    )

approve-separate :
    (date_parse : String → Option ℤ) (p : FxAdjustmentProposal) (input : ApprovalInput)
    (a : FxAdjustmentApproval)
    → approve_fx_adjustment_proposal date_parse p input ≡ ok a
    → (p.maker_id ≢ a.checker_id)
      × (a.checker_id ≡ input.checker_id)
      × (a.approved_at ≡ input.approved_at)
      × (input.assurance ≡ "STEP_UP")
      × (is_earlier date_parse input.approved_at p.created_at ≡ false)
unfolding approve_fx_adjustment_proposal
approve-separate date_parse p input a h =
    let (differ, h₁) = >>-eq_ok _ FxError.maker_is_checker _ h in
    let (valid, h₂) = >>-eq_ok _ FxError.approval_invalid _ h₁ in
    let (rest, timely) = ||-eq_false _ _ valid in
    let assured = (||-eq_false _ _ (||-eq_false _ _ rest).0).1 in
    let e = ok_eq h₂ in
    (
      subst (λ x. p.maker_id ≢ x.checker_id) e (λ q. ne_of_== differ (sym q)),
      sym (ap (λ x. x.checker_id) e),
      sym (ap (λ x. x.approved_at) e),
      ==-eq _ _ (not-eq_false _ assured),
      timely,
    )

create-proposed :
    (date_parse : String → Option ℤ) (input : ProposalInput) (policy : FxAdjustmentPolicy)
    (p : FxAdjustmentProposal)
    → create_fx_adjustment_proposal date_parse input policy ≡ ok p
    → (p.maker_id ≡ input.maker_id)
      × (p.created_at ≡ input.created_at)
      × (p.components ≡ input.components)
unfolding create_fx_adjustment_proposal
create-proposed date_parse input policy p h =
    let (_, h₁) = >>-eq_ok _ FxError.proposal_incomplete _ h in
    let (_, _, h₂) = >>=-eq_ok (validate_adjustment input.components policy) _ h₁ in
    let e = ok_eq h₂ in
    (sym (ap (λ x. x.maker_id) e), sym (ap (λ x. x.created_at) e), sym (ap (λ x. x.components) e))

-- An adjustment that was proposed, approved and published, under a policy that may have changed in
-- between, has a maker who is not its checker, a step-up approval, the proposed components, none of
-- them negative and their sum within the limit in force at publication, and times in order.
pub publish_fx_adjustment-IsGoverned :
    (date_parse : String → Option ℤ) (input : ProposalInput) (old policy : FxAdjustmentPolicy)
    (p : FxAdjustmentProposal) (approval : ApprovalInput) (a : FxAdjustmentApproval)
    (id published_at : String) (d : PublishedFxAdjustment)
    → create_fx_adjustment_proposal date_parse input old ≡ ok p
    → approve_fx_adjustment_proposal date_parse p approval ≡ ok a
    → publish_fx_adjustment date_parse id p a published_at policy ≡ ok d
    → IsGoverned date_parse input approval policy published_at d
publish_fx_adjustment-IsGoverned date_parse input old policy p approval a id published_at d created
      approved published =
    let (made, at, proposed) = create-proposed date_parse input old p created in
    let (separate, checked, approved_at, assured, timely) =
      approve-separate date_parse p approval a approved in
    let (maker, checker, kept, within, later) =
      publish-IsWithin date_parse id p a published_at policy d published in
    record {
      maker_checker = λ e. separate (sym maker ∙ e ∙ checker);
      maker = maker ∙ made;
      checker = checker ∙ checked;
      step_up = assured;
      components = kept ∙ proposed;
      within = within;
      approved_after = subst (λ t. is_earlier date_parse approval.approved_at t ≡ false) at timely;
      published_after = subst (λ t. is_earlier date_parse published_at t ≡ false) approved_at later;
    }
