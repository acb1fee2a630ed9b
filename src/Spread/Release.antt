-- ===== src/Spread/Release.antt =====
-- The way of a charge to its publication in packages/spread-engine/src/index.ts.
use fuel_cap.Base.{
  String, ◌≡◌, refl, sym, ap, subst, ◌∙◌, ◌≢◌, Bool, true, false, false≢true, ◌&&◌, List, [], ◌∷◌,
  ◌++◌, ne_of_==, string_eq, ok, >>-eq_ok, >>=-eq_ok, ok_eq, not-eq_false, ||-eq_false,
}
use fuel_cap.Base.Int.{ℤ, pos, ◌+ℤ◌, sum_of, int_laws}
use fuel_cap.Base.Dates.{is_earlier}
use fuel_cap.Spread.{
  SpreadPolicy, SpreadProposal, ApprovalInput, SpreadApproval, PublishedSpreadDecision,
  SpreadSimulationCohort, Blocker, SimulationTotals, SpreadSimulation, SimulationInput,
  ScheduleInput, ScheduledSpreadDecision, SpreadError, Host, validate_components, exceeds,
  falls_below, no_source, blocker_if, change_bps, cohort_is_bad, no_totals, add_cohort,
  cohort_totals, state_of, simulate_spread_proposal, approve_spread_proposal, is_passing,
  schedule_spread_decision, publish_spread_decision, publish_scheduled_spread_decision,
}
use fuel_cap.Spread.Adjusted.{IsWithin, validate_components-IsWithin}

cohort_totals-quantity :
    (host : Host) (p : SpreadProposal) (d : PublishedSpreadDecision) (sum : SimulationTotals)
    (cs : List SpreadSimulationCohort) (r : SimulationTotals)
    → cohort_totals host p d sum cs ≡ ok r
    → r.quantity_4dp ≡ sum.quantity_4dp +ℤ sum_of (λ c. c.protected_quantity_4dp) cs
unfolding cohort_totals add_cohort
cohort_totals-quantity host p d sum [] r h = sym (ap (λ t. t.quantity_4dp) (ok_eq h)) ∙ add_zero _
  where
    add_zero : (n : ℤ) → n ≡ n +ℤ pos 0
    add_zero n = omega int_laws
cohort_totals-quantity host p d sum (c ∷ cs) r h =
    let (_, h₁) = >>-eq_ok (cohort_is_bad c) SpreadError.cohort_invalid _ h in
    cohort_totals-quantity host p d (add_cohort host p d sum c) cs r h₁
    ∙ assoc sum.quantity_4dp c.protected_quantity_4dp _
  where
    assoc : (a b c : ℤ) → a +ℤ b +ℤ c ≡ a +ℤ (b +ℤ c)
    assoc a b c = omega int_laws

-- A simulation without blockers has none of the three reasons for one.
passing-blockers :
    (x y z : Bool) (a b c : Blocker)
    → is_passing (state_of (blocker_if x a ++ blocker_if y b ++ blocker_if z c)) ≡ true
    → (x ≡ false) × (y ≡ false) × (z ≡ false)
passing-blockers true y z a b c h = absurd (false≢true h)
passing-blockers false true z a b c h = absurd (false≢true h)
passing-blockers false false true a b c h = absurd (false≢true h)
passing-blockers false false false a b c h = (refl, refl, refl)

-- A proposal that passes the limits of a policy against the decision in force and the cohorts.
pub record IsPassing (p : SpreadProposal) (current : PublishedSpreadDecision)
    (cohorts : List SpreadSimulationCohort) (policy : SpreadPolicy) : Type 0 where
  pub change : exceeds (change_bps p current) policy.maximum_change_bps ≡ false
  pub cost :
      (falls_below p.components.modelled_protection_cost_bps policy.minimum_cost_recovery_bps
        && no_source p.subsidy_source)
      ≡ false
  pub exposure :
      exceeds (sum_of (λ c. c.protected_quantity_4dp) cohorts) policy.maximum_exposure_quantity_4dp
      ≡ false

simulate-IsPassing :
    (host : Host) (input : SimulationInput) (policy : SpreadPolicy) (s : SpreadSimulation)
    → simulate_spread_proposal host input policy ≡ ok s
    → is_passing s.state ≡ true
    → IsPassing input.proposal input.current_decision input.cohorts policy
unfolding simulate_spread_proposal
simulate-IsPassing host input policy s h passing =
    let (_, h₁) = >>-eq_ok _ SpreadError.simulation_incomplete _ h in
    let (_, h₂) = >>-eq_ok _ SpreadError.simulation_policy_disagrees _ h₁ in
    let (totals, added, h₃) =
      >>=-eq_ok (cohort_totals host input.proposal input.current_decision no_totals input.cohorts) _
        h₂ in
    let (change, cost, exposure) =
      passing-blockers _ _ _ _ _ _
        (subst (λ x. is_passing x.state ≡ true) (sym (ok_eq h₃)) passing) in
    record {
      change = change;
      cost = cost;
      exposure =
          subst (λ n. exceeds n policy.maximum_exposure_quantity_4dp ≡ false)
            (cohort_totals-quantity host input.proposal input.current_decision no_totals
                input.cohorts totals added
              ∙ zero_add _)
            exposure;
    }
  where
    zero_add : (n : ℤ) → pos 0 +ℤ n ≡ n
    zero_add n = omega int_laws

approve-separate :
    (host : Host) (p : SpreadProposal) (input : ApprovalInput) (a : SpreadApproval)
    → approve_spread_proposal host p input ≡ ok a
    → p.maker_id ≢ a.checker_id
unfolding approve_spread_proposal
approve-separate host p input a h =
    let (differ, h₁) = >>-eq_ok _ SpreadError.maker_is_checker _ h in
    let (_, h₂) = >>-eq_ok _ SpreadError.approval_invalid _ h₁ in
    subst (λ x. p.maker_id ≢ x.checker_id) (ok_eq h₂) (λ q. ne_of_== differ (sym q))

-- What stands behind a charge that was published from a schedule.
pub record IsReleased (host : Host) (input : SimulationInput) (limits policy : SpreadPolicy)
    (plan : ScheduleInput) (published_at : String) (d : PublishedSpreadDecision) : Type 0 where
  pub maker_checker : d.maker_id ≢ d.checker_id
  pub maker : d.maker_id ≡ input.proposal.maker_id
  pub components : d.components ≡ input.proposal.components
  pub within : IsWithin d.components policy d.total_charge_bps
  pub passing : IsPassing input.proposal input.current_decision input.cohorts limits
  pub effective : is_earlier host.date_parse published_at plan.effective_from ≡ false
  pub scheduled : is_earlier host.date_parse plan.effective_from plan.scheduled_at ≡ false

publish-kept :
    (host : Host) (id : String) (p : SpreadProposal) (a : SpreadApproval) (at : String)
    (policy : SpreadPolicy) (d : PublishedSpreadDecision)
    → publish_spread_decision host id p a at policy ≡ ok d
    → (d.maker_id ≡ p.maker_id)
      × (d.checker_id ≡ a.checker_id)
      × (d.components ≡ p.components)
      × IsWithin d.components policy d.total_charge_bps
unfolding publish_spread_decision
publish-kept host id p a at policy d h =
    let (_, h₁) = >>-eq_ok _ SpreadError.lineage_disagrees _ h in
    let (total, valid, h₂) = >>=-eq_ok (validate_components p.components policy) _ h₁ in
    let (_, h₃) = >>-eq_ok _ SpreadError.total_not_derived _ h₂ in
    let e = ok_eq h₃ in
    (
      sym (ap (λ x. x.maker_id) e),
      sym (ap (λ x. x.checker_id) e),
      sym (ap (λ x. x.components) e),
      subst (λ x. IsWithin x.components policy x.total_charge_bps) e
          (validate_components-IsWithin p.components policy total valid),
    )

-- A charge that is published from a schedule of its own simulation and approval passed the
-- simulation's limits, has a maker who is not its checker and components within the policy in force,
-- and is published no earlier than its effective time, which is no earlier than its scheduling.
pub publish_scheduled_spread_decision-IsReleased :
    (host : Host) (input : SimulationInput) (limits policy : SpreadPolicy) (s : SpreadSimulation)
    (approval : ApprovalInput) (a : SpreadApproval) (plan : ScheduleInput)
    (schedule : ScheduledSpreadDecision) (published_at : String) (d : PublishedSpreadDecision)
    → simulate_spread_proposal host input limits ≡ ok s
    → approve_spread_proposal host input.proposal approval ≡ ok a
    → schedule_spread_decision host
        (record plan { proposal = input.proposal; approval = a; simulation = s })
      ≡ ok schedule
    → publish_scheduled_spread_decision host schedule published_at policy ≡ ok d
    → IsReleased host input limits policy plan published_at d
unfolding schedule_spread_decision publish_scheduled_spread_decision
publish_scheduled_spread_decision-IsReleased host input limits policy s approval a plan schedule
      published_at d simulated approved scheduled published =
    let (passing, h₁) = >>-eq_ok _ SpreadError.simulation_not_passing _ scheduled in
    let (agrees, h₂) = >>-eq_ok _ SpreadError.schedule_disagrees _ h₁ in
    let e = ok_eq h₂ in
    let (effective, k) = >>-eq_ok _ SpreadError.not_yet_effective _ published in
    let (maker, checker, components, within) =
      publish-kept host schedule.charge_decision_id schedule.proposal schedule.approval published_at
        policy d k in
    let (_, late) = ||-eq_false _ _ effective in
    record {
      maker_checker = λ q. approve-separate host input.proposal approval a approved (
          ap (λ x. x.proposal.maker_id) e
          ∙ sym maker
          ∙ q
          ∙ checker
          ∙ sym (ap (λ x. x.approval.checker_id) e));
      maker = maker ∙ sym (ap (λ x. x.proposal.maker_id) e);
      components = components ∙ sym (ap (λ x. x.proposal.components) e);
      within = within;
      passing =
          simulate-IsPassing host input limits s simulated
            (not-eq_false _ (||-eq_false _ _ passing).1);
      effective =
          subst (λ x. is_earlier host.date_parse published_at x.effective_from ≡ false) (sym e)
            late;
      scheduled = (||-eq_false _ _ agrees).1;
    }
