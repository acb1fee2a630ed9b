-- ===== src/Rules/Tests.antt =====
-- Runs of the rules engine, and its theorems at inputs where their hypotheses hold.
use fuel_cap.Base.{
  ◌<◌, String, ◌≡◌, ◌≢◌, refl, true, none, some, [], ◌∷◌, All, string_eq, if◌then◌else◌, ok,
}
use fuel_cap.Base.Int.{pos}
use fuel_cap.Base.Text.{is_blank}
use fuel_cap.Rules.{
  Host, number, amount, single, gt, Rule, RuleSet, prohibition_invalidity, default, pricing,
  approved, published, VersionedFacts, RuleDecision, RuleSimulation, RuleApproval, ApprovalInput,
  ScenarioEvaluation, missing_fallback, condition_matches, read_schema, condition_errors,
  rule_errors, all_errors, validate_rule_set,
}
use fuel_cap.Rules.Engine.{
  condition_text, fact_type, assert_facts, goes_first, insert_rule, sort_rules, rule_matches,
  is_published, is_effective, new_decision, decide, evaluate_rules, count_passed, simulate_rule_set,
  approve_rule_set, publish_rule_set, replay_rule_decision,
}
use fuel_cap.Rules.Evaluation.{
  IsDecidedBy, evaluate_rules-strongest, evaluate_rules-decides,
  replay_rule_decision-evaluate_rules,
}
use fuel_cap.Rules.Governance.{IsPassed, simulate_rule_set-pass, publish_rule_set-decides}

abbrev host : Host
host = record {
  date_parse = λ t. if is_blank t then none else some (pos 0);
  locale_compare = λ a b. pos 0;
  show_number = λ n. "100";
  stringify = λ d. d.outcome;
}

abbrev refuse_large : Rule
refuse_large = record {
  rule_id = "large";
  rule_version = "1";
  precedence = prohibition_invalidity;
  conditions = record { fact = "litres"; operator = gt; value = single (amount (pos 100)) } ∷ [];
  outcome = "REFUSE";
  reason_code = "TOO_LARGE";
  explanation_template = "too large";
  follow_up_actions = [];
  calculated_values = [];
}

abbrev fallback : Rule
fallback = record {
  rule_id = "fallback";
  rule_version = "1";
  precedence = default;
  conditions = [];
  outcome = "ACCEPT";
  reason_code = "DEFAULT";
  explanation_template = "accepted";
  follow_up_actions = [];
  calculated_values = [];
}

abbrev rule_set : RuleSet
rule_set = record {
  rule_set_id = "set";
  rule_set_version = "1";
  domain = pricing;
  state = approved;
  effective_from = "2026-01-01";
  effective_to = none;
  supersedes_version = none;
  schema = ("litres", number) ∷ [];
  rules = fallback ∷ refuse_large ∷ [];
}

abbrev in_force : RuleSet
in_force = record rule_set { state = published }

abbrev large : VersionedFacts
large = record {
  facts_version = "f-1";
  values = ("litres", amount (pos 101)) ∷ [];
  evidence_references = [];
}

abbrev refused : RuleDecision
refused = new_decision host "d-1" in_force large "2026-02-01" refuse_large

refused_text : refused.matched_conditions ≡ "litres GT 100" ∷ []
unfolding new_decision condition_text
refused_text = refl

refused_made : evaluate_rules host "d-1" in_force large "2026-02-01" ≡ ok refused
unfolding evaluate_rules is_effective is_published is_blank assert_facts fact_type decide sort_rules
    insert_rule goes_first rule_matches condition_matches
refused_made = refl

without_fallback :
    (validate_rule_set host "v-0"
      (record rule_set { rules = refuse_large ∷ [] })
      "2026-01-02").errors
    ≡ missing_fallback ∷ []
unfolding validate_rule_set all_errors rule_errors condition_errors read_schema is_blank
without_fallback = refl

rule_set_valid : (validate_rule_set host "v-1" rule_set "2026-01-02").is_pass ≡ true
unfolding validate_rule_set all_errors rule_errors condition_errors read_schema is_blank
rule_set_valid = refl

evaluate_rules-strongest_example : (rule : Rule) × IsDecidedBy host in_force large refused rule
evaluate_rules-strongest_example =
    evaluate_rules-strongest host "d-1" in_force large "2026-02-01" refused_made

evaluate_rules-decides_example :
    (d : RuleDecision) × (evaluate_rules host "d-1" in_force large "2026-02-01" ≡ ok d)
unfolding is_effective is_published is_blank assert_facts fact_type validate_rule_set all_errors
    rule_errors condition_errors read_schema
evaluate_rules-decides_example =
    evaluate_rules-decides host "v-1" "d-1" in_force large "2026-01-02" "2026-02-01" refl refl refl

replay_rule_decision-evaluate_rules_example :
    replay_rule_decision host refused in_force large ≡ ok refused
replay_rule_decision-evaluate_rules_example =
    replay_rule_decision-evaluate_rules host "d-1" in_force large "2026-02-01" refused_made

abbrev scenario : ScenarioEvaluation
scenario = record {
  scenario_id = "c-1";
  facts = large;
  expected_outcome = "REFUSE";
  evaluated_at = "2026-02-01";
}

abbrev simulation : RuleSimulation
simulation = record {
  simulation_id = "s-1";
  rule_set_id = "set";
  rule_set_version = "1";
  scenario_count = 1;
  passed_scenario_count = 1;
  changed_outcome_count = 0;
  is_pass = true;
  evaluated_at = "2026-01-03";
}

simulated : simulate_rule_set host "s-1" rule_set (scenario ∷ []) "2026-01-03" ≡ ok simulation
unfolding simulate_rule_set count_passed evaluate_rules is_effective is_published is_blank
    assert_facts fact_type decide new_decision sort_rules insert_rule goes_first rule_matches
    condition_matches
simulated = refl

abbrev input : ApprovalInput
input = record {
  approval_id = "a-1";
  maker_id = "maker";
  checker_id = "checker";
  approved_at = "2026-01-04";
}

abbrev approval : RuleApproval
approval = record {
  input = input;
  rule_set_id = "set";
  rule_set_version = "1";
  validation_id = "v-1";
  simulation_id = "s-1";
}

approval_given :
    approve_rule_set host input rule_set
      (validate_rule_set host "v-1" rule_set "2026-01-02")
      simulation
    ≡ ok approval
unfolding approve_rule_set validate_rule_set all_errors rule_errors condition_errors read_schema
    is_blank
approval_given = refl

rule_set_published : publish_rule_set host rule_set approval "2026-01-05" ≡ ok in_force
unfolding publish_rule_set is_blank
rule_set_published = refl

simulate_rule_set-pass_example : (0 < 1) × All (IsPassed host "s-1" in_force) (scenario ∷ [])
simulate_rule_set-pass_example =
    simulate_rule_set-pass host "s-1" rule_set (scenario ∷ []) "2026-01-03" simulated refl

publish_rule_set-decides_example :
    (◌≢◌ {A = String} "maker" "checker")
    × All (IsPassed host "s-1" in_force) (scenario ∷ [])
    × ((id : String) (facts : VersionedFacts) (at_time : String)
        → is_effective host in_force at_time ≡ true
        → assert_facts in_force.schema facts.values ≡ ok tt
        → (d : RuleDecision) × (evaluate_rules host id in_force facts at_time ≡ ok d))
publish_rule_set-decides_example =
    publish_rule_set-decides host input rule_set (scenario ∷ []) "v-1" "s-1" "2026-01-02"
      "2026-01-03" "2026-01-05" simulated approval_given rule_set_published
