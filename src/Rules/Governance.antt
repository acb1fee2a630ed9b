-- ===== src/Rules/Governance.antt =====
-- The way of a rule set of packages/rules-engine/src/index.ts from validation to publication.
use Prim.Native.String.{◌++◌ as append}
use fuel_cap.Base.{
  ℕ, suc, ◌≤◌, ◌<◌, String, ◌≡◌, ◌≢◌, refl, sym, subst, ap, ◌∙◌, Bool, true, not, ◌||◌, List, [],
  ◌∷◌, All, ltb→lt, nat_beq_iff, length, ◌==◌, string_eq, ==-eq, ne_of_==, not-eq_false, &&-eq_true,
  ||-eq_false, if◌then◌else◌, ok, >>-eq_ok, >>=-eq_ok, ok_eq, arith,
}
use fuel_cap.Base.Text.{is_blank}
use fuel_cap.Rules.{
  Host, RuleSet, published, VersionedFacts, RuleDecision, RuleValidation, RuleSimulation,
  RuleApproval, ApprovalInput, ScenarioEvaluation, RulesError, validate_rule_set, all_errors,
  valid_instant,
}
use fuel_cap.Rules.Engine.{
  assert_facts, is_effective, evaluate_rules, count_passed, simulate_rule_set, approve_rule_set,
  publish_rule_set, is_unlinked,
}
use fuel_cap.Rules.Evaluation.{evaluate_rules-decides}

-- A scenario that is evaluated to the outcome it expects.
abbrev pub IsPassed : Host → String → RuleSet → ScenarioEvaluation → Type 0
IsPassed host simulation_id s c =
    (d : RuleDecision) × (evaluate_rules host (append simulation_id (append ":" c.scenario_id)) s
        c.facts c.evaluated_at
      ≡ ok d)
    × (d.outcome ≡ c.expected_outcome)

count_passed-le :
    (host : Host) (id : String) (s : RuleSet) (cs : List ScenarioEvaluation) {n : ℕ}
    → count_passed host id s cs ≡ ok n
    → n ≤ length cs
unfolding count_passed
count_passed-le host id s [] h = omega (arith, sym (ok_eq h))
count_passed-le host id s (c ∷ cs) {n} h =
    let (d, _, h₁) =
      >>=-eq_ok
        (evaluate_rules host (append id (append ":" c.scenario_id)) s c.facts c.evaluated_at) _ h in
    let (rest, counted, h₂) = >>=-eq_ok (count_passed host id s cs) _ h₁ in
    let le = count_passed-le host id s cs counted in let e = ok_eq h₂ in ground arith

count_passed-All :
    (host : Host) (id : String) (s : RuleSet) (cs : List ScenarioEvaluation) {n : ℕ}
    → count_passed host id s cs ≡ ok n
    → n ≡ length cs
    → All (IsPassed host id s) cs
unfolding count_passed
count_passed-All host id s [] h full = tt
count_passed-All host id s (c ∷ cs) {n} h full =
    let (d, decided, h₁) =
      >>=-eq_ok
        (evaluate_rules host (append id (append ":" c.scenario_id)) s c.facts c.evaluated_at) _ h in
    let (rest, counted, h₂) = >>=-eq_ok (count_passed host id s cs) _ h₁ in
    let le = count_passed-le host id s cs counted in
    let (same, whole) = passed (d.outcome == c.expected_outcome) rest (ok_eq h₂) le in
    ((d, decided, ==-eq _ _ same), count_passed-All host id s cs counted whole)
  where
    passed :
        (b : Bool) (rest : ℕ)
        → (if b then suc rest else rest) ≡ n
        → rest ≤ length cs
        → (b ≡ true) × (rest ≡ length cs)
    passed b rest e le = ground arith

-- A simulation that passes has at least one scenario, and every scenario was decided as expected by
-- the rule set as if it were published.
pub simulate_rule_set-pass :
    (host : Host) (id : String) (s : RuleSet) (cs : List ScenarioEvaluation) (at_time : String)
    {sim : RuleSimulation}
    → simulate_rule_set host id s cs at_time ≡ ok sim
    → sim.is_pass ≡ true
    → (0 < length cs) × All (IsPassed host id (record s { state = published })) cs
unfolding simulate_rule_set
simulate_rule_set-pass host id s cs at_time {sim} h pass =
    let (n, counted, h₁) =
      >>=-eq_ok (count_passed host id (record s { state = published }) cs) _ h in
    let (full, some_case) = &&-eq_true _ _ (ap (λ r. r.is_pass) (ok_eq h₁) ∙ pass) in
    (
      ltb→lt 0 (length cs) some_case,
      count_passed-All host id _ cs counted ((nat_beq_iff n (length cs)).0 full),
    )

-- What an approval has passed.
pub record IsApproved (input : ApprovalInput) (s : RuleSet) (v : RuleValidation)
    (sim : RuleSimulation) : Type 0 where
  pub two_people : input.maker_id ≢ input.checker_id
  pub validated : v.is_pass ≡ true
  pub simulated : sim.is_pass ≡ true
  pub same_set : (v.rule_set_id ≡ s.rule_set_id) × (sim.rule_set_id ≡ s.rule_set_id)
  pub same_version :
      (v.rule_set_version ≡ s.rule_set_version) × (sim.rule_set_version ≡ s.rule_set_version)

pub approve_rule_set-IsApproved :
    (host : Host) (input : ApprovalInput) (s : RuleSet) (v : RuleValidation) (sim : RuleSimulation)
    {a : RuleApproval}
    → approve_rule_set host input s v sim ≡ ok a
    → IsApproved input s v sim
unfolding approve_rule_set
approve_rule_set-IsApproved host input s v sim h =
    let (two, h₁) = >>-eq_ok (input.maker_id == input.checker_id) RulesError.maker_is_checker _ h in
    let (_, h₂) =
      >>-eq_ok
        (is_blank input.maker_id
          || is_blank input.checker_id
          || not (valid_instant host input.approved_at))
        RulesError.approval_invalid _ h₁ in
    let (linked, _) = >>-eq_ok (is_unlinked s v sim) RulesError.regression_required _ h₂ in
    let (l₁, s_pass) = ||-eq_false _ (not sim.is_pass) linked in
    let (l₂, s_version) = ||-eq_false _ (not (sim.rule_set_version == s.rule_set_version)) l₁ in
    let (l₃, s_id) = ||-eq_false _ (not (sim.rule_set_id == s.rule_set_id)) l₂ in
    let (l₄, v_pass) = ||-eq_false _ (not v.is_pass) l₃ in
    let (v_id, v_version) =
      ||-eq_false (not (v.rule_set_id == s.rule_set_id))
        (not (v.rule_set_version == s.rule_set_version)) l₄ in
    record {
      two_people = ne_of_== two;
      validated = not-eq_false _ v_pass;
      simulated = not-eq_false _ s_pass;
      same_set = (==-eq _ _ (not-eq_false _ v_id), ==-eq _ _ (not-eq_false _ s_id));
      same_version = (==-eq _ _ (not-eq_false _ v_version), ==-eq _ _ (not-eq_false _ s_version));
    }

publish_rule_set-rules :
    (host : Host) (s : RuleSet) (a : RuleApproval) (at_time : String) {p : RuleSet}
    → publish_rule_set host s a at_time ≡ ok p
    → p ≡ record s { state = p.state }
unfolding publish_rule_set
publish_rule_set-rules host s a at_time h =
    let (_, h₁) = >>-eq_ok _ RulesError.lineage_disagrees _ h in
    subst (λ p. p ≡ record s { state = p.state }) (ok_eq h₁) refl

-- A rule set that was validated, simulated, approved and published was approved by two people, every
-- scenario of its simulation was decided as expected, and while it is in force it decides on all
-- facts that fit its schema.
pub publish_rule_set-decides :
    (host : Host) (input : ApprovalInput) (s : RuleSet) (cs : List ScenarioEvaluation)
    (validation_id simulation_id validated_at simulated_at published_at : String)
    {sim : RuleSimulation} {a : RuleApproval} {p : RuleSet}
    → simulate_rule_set host simulation_id s cs simulated_at ≡ ok sim
    → approve_rule_set host input s (validate_rule_set host validation_id s validated_at) sim ≡ ok a
    → publish_rule_set host s a published_at ≡ ok p
    → (input.maker_id ≢ input.checker_id)
      × All (IsPassed host simulation_id (record s { state = published })) cs
      × ((id : String) (facts : VersionedFacts) (at_time : String)
          → is_effective host p at_time ≡ true
          → assert_facts p.schema facts.values ≡ ok tt
          → (d : RuleDecision) × (evaluate_rules host id p facts at_time ≡ ok d))
unfolding validate_rule_set all_errors
publish_rule_set-decides host input s cs validation_id simulation_id validated_at simulated_at
      published_at {sim} {a} {p} simulated approved made =
    let w = approve_rule_set-IsApproved host input s _ sim approved in
    (
      w.two_people,
      (simulate_rule_set-pass host simulation_id s cs simulated_at simulated w.simulated).1,
      λ id facts at_time in_force fit.
          evaluate_rules-decides host validation_id id p facts validated_at at_time
            (still_valid w.validated) in_force fit,
    )
  where
    still_valid :
        (validate_rule_set host validation_id s validated_at).is_pass ≡ true
        → (validate_rule_set host validation_id p validated_at).is_pass ≡ true
    still_valid h =
        subst (λ q. (validate_rule_set host validation_id q validated_at).is_pass ≡ true)
          (sym (publish_rule_set-rules host s a published_at made)) h
