-- ===== src/Rules/Engine.antt =====
-- Evaluation, simulation, approval, publication and replay in packages/rules-engine/src/index.ts.
use Prim.Native.String.{◌++◌ as append}
use fuel_cap.Base.{
  ℕ, suc, ◌-◌, String, Bool, true, false, not, ◌&&◌, ◌||◌, Option, none, some, List, [], ◌∷◌, map,
  Dict, lookup, ◌==◌, string_eq, nat_beq, ltb, all, length, find, map_or, if◌then◌else◌, Result, ok,
  err, ◌>>=◌, ◌>>◌, throw_if,
}
use fuel_cap.Base.Int.{pos, leb_ℤ}
use fuel_cap.Base.Text.{is_blank}
use fuel_cap.Base.Objects.{is_inherited}
use fuel_cap.Rules.{
  Host, FactType, FactValue, text, amount, flag, ConditionValue, single, several, RuleCondition,
  RestrictedOperator, eq, neq, gt, gte, lt, lte, in_list, boolean, Rule, RuleSet, RuleSetState,
  published, scheduled, VersionedFacts, RuleDecision, RuleValidation, RuleSimulation, RuleApproval,
  ApprovalInput, ScenarioEvaluation, RulesError, fact_missing, not_effective, no_fallback,
  maker_is_checker, approval_invalid, regression_required, lineage_disagrees, versions_disagree,
  replay_diverged, precedence_order, scalar_type, same_type, condition_matches, valid_instant,
  is_before, is_not_after,
}

abbrev pub operator_text : RestrictedOperator → String
operator_text eq = "EQ"
operator_text neq = "NEQ"
operator_text gt = "GT"
operator_text gte = "GTE"
operator_text lt = "LT"
operator_text lte = "LTE"
operator_text in_list = "IN"

-- `String(...)` of a fact value
abbrev pub value_text : Host → FactValue → String
value_text host (text s) = s
value_text host (amount n) = host.show_number n
value_text host (flag b) = if b then "true" else "false"

-- `values.join(",")`
abbrev pub join_values : Host → List FactValue → String
join_values host [] = ""
join_values host (v ∷ []) = value_text host v
join_values host (v ∷ w ∷ vs) = append (value_text host v) (append "," (join_values host (w ∷ vs)))

abbrev pub condition_value_text : Host → ConditionValue → String
condition_value_text host (single v) = value_text host v
condition_value_text host (several vs) = append "[" (append (join_values host vs) "]")

-- `conditionText`
unfoldable pub condition_text : Host → RuleCondition → String
condition_text host c = append c.fact (
    append " " (append (operator_text c.operator) (append " " (condition_value_text host c.value))))

-- `name in values` and `scalarType(values[name])`; an inherited value is neither a string nor a number.
unfoldable pub fact_type : Dict String FactValue → String → Option FactType
fact_type values name = elim (lookup name values) [
  | some v ↦ some (scalar_type v)
  | none ↦ if is_inherited name then some boolean else none
]

-- `assertFacts`, over the entries of the schema
unfoldable pub assert_facts :
    Dict String FactType → Dict String FactValue → Result RulesError (Unit {0})
assert_facts [] values = ok tt
assert_facts ((name, type) ∷ schema) values = do
  throw_if (not (map_or false (same_type type) (fact_type values name))) fact_missing
  assert_facts schema values

-- The comparison by which `evaluateRules` sorts.
unfoldable pub goes_first : Host → Rule → Rule → Bool
goes_first host l r =
    ltb (precedence_order l.precedence) (precedence_order r.precedence)
    || (nat_beq (precedence_order l.precedence) (precedence_order r.precedence)
        && leb_ℤ (host.locale_compare l.rule_id r.rule_id) (pos 0))

unfoldable pub insert_rule : Host → Rule → List Rule → List Rule
insert_rule host r [] = r ∷ []
insert_rule host r (x ∷ xs) = if goes_first host r x then r ∷ x ∷ xs else x ∷ insert_rule host r xs

-- `[...rules].sort(...)`, a stable sort: its result is fixed where `localeCompare` gives an order
unfoldable pub sort_rules : Host → List Rule → List Rule
sort_rules host [] = []
sort_rules host (r ∷ rs) = insert_rule host r (sort_rules host rs)

-- `results.every(({ matched }) => matched)`
unfoldable pub rule_matches : VersionedFacts → Rule → Bool
rule_matches facts rule =
    all (λ c. condition_matches c.operator c.value (lookup c.fact facts.values)) rule.conditions

unfoldable pub is_published : RuleSetState → Bool
is_published published = true
is_published _ = false

-- The first test of `evaluateRules`.
unfoldable pub is_effective : Host → RuleSet → String → Bool
is_effective host s at_time =
    is_published s.state
    && valid_instant host at_time
    && not (is_before host at_time s.effective_from)
    && not (map_or false (λ to. is_not_after host to at_time) s.effective_to)

unfoldable pub new_decision :
    Host → String → RuleSet → VersionedFacts → String → Rule → RuleDecision
new_decision host decision_id s facts evaluated_at rule = record {
  decision_id = decision_id;
  rule_set_id = s.rule_set_id;
  rule_set_version = s.rule_set_version;
  rule_id = rule.rule_id;
  rule_version = rule.rule_version;
  facts_version = facts.facts_version;
  outcome = rule.outcome;
  matched_conditions = map (condition_text host) rule.conditions;
  failed_conditions = [];
  reason_codes = rule.reason_code ∷ [];
  calculated_values = rule.calculated_values;
  follow_up_actions = rule.follow_up_actions;
  explanation_template = rule.explanation_template;
  evidence_references = facts.evidence_references;
  evaluated_at = evaluated_at;
}

-- The end of `evaluateRules`, on the first rule that matches.
unfoldable pub decide :
    Host → String → RuleSet → VersionedFacts → String → Option Rule → Result RulesError RuleDecision
decide host decision_id s facts evaluated_at none = err no_fallback
decide host decision_id s facts evaluated_at (some rule) =
    ok (new_decision host decision_id s facts evaluated_at rule)

-- `evaluateRules`
unfoldable pub evaluate_rules :
    Host → String → RuleSet → VersionedFacts → String → Result RulesError RuleDecision
evaluate_rules host decision_id s facts evaluated_at = do
  throw_if (not (is_effective host s evaluated_at)) not_effective
  assert_facts s.schema facts.values
  decide host decision_id s facts evaluated_at (find (rule_matches facts) (sort_rules host s.rules))

-- The filter of `simulateRuleSet`; the first scenario that throws ends it.
unfoldable pub count_passed :
    Host → String → RuleSet → List ScenarioEvaluation → Result RulesError ℕ
count_passed host simulation_id s [] = ok 0
count_passed host simulation_id s (c ∷ cs) = do
  decision ←
      evaluate_rules host (append simulation_id (append ":" c.scenario_id)) s c.facts c.evaluated_at
  rest ← count_passed host simulation_id s cs
  ok (if decision.outcome == c.expected_outcome then suc rest else rest)

-- `simulateRuleSet`
unfoldable pub simulate_rule_set :
    Host → String → RuleSet → List ScenarioEvaluation → String → Result RulesError RuleSimulation
simulate_rule_set host simulation_id s scenarios evaluated_at = do
  passed ← count_passed host simulation_id (record s { state = published }) scenarios
  ok (record {
    simulation_id = simulation_id;
    rule_set_id = s.rule_set_id;
    rule_set_version = s.rule_set_version;
    scenario_count = length scenarios;
    passed_scenario_count = passed;
    changed_outcome_count = length scenarios - passed;
    is_pass = nat_beq passed (length scenarios) && ltb 0 (length scenarios);
    evaluated_at = evaluated_at;
  })

-- The last test of `approveRuleSet`.
abbrev pub is_unlinked : RuleSet → RuleValidation → RuleSimulation → Bool
is_unlinked s validation simulation =
    not (validation.rule_set_id == s.rule_set_id)
    || not (validation.rule_set_version == s.rule_set_version)
    || not validation.is_pass
    || not (simulation.rule_set_id == s.rule_set_id)
    || not (simulation.rule_set_version == s.rule_set_version)
    || not simulation.is_pass

-- `approveRuleSet`
unfoldable pub approve_rule_set :
    Host
    → ApprovalInput
    → RuleSet
    → RuleValidation
    → RuleSimulation
    → Result RulesError RuleApproval
approve_rule_set host input s validation simulation = do
  throw_if (input.maker_id == input.checker_id) maker_is_checker
  throw_if
      (is_blank input.maker_id
        || is_blank input.checker_id
        || not (valid_instant host input.approved_at))
      approval_invalid
  throw_if (is_unlinked s validation simulation) regression_required
  ok (record {
    input = input;
    rule_set_id = s.rule_set_id;
    rule_set_version = s.rule_set_version;
    validation_id = validation.validation_id;
    simulation_id = simulation.simulation_id;
  })

-- `publishRuleSet`
unfoldable pub publish_rule_set : Host → RuleSet → RuleApproval → String → Result RulesError RuleSet
publish_rule_set host s approval published_at = do
  throw_if
      (not (approval.rule_set_id == s.rule_set_id)
        || not (approval.rule_set_version == s.rule_set_version)
        || not (valid_instant host published_at)
        || is_before host published_at approval.input.approved_at)
      lineage_disagrees
  ok (record s {
    state = if is_before host published_at s.effective_from then scheduled else published;
  })

-- `replayRuleDecision`
unfoldable pub replay_rule_decision :
    Host → RuleDecision → RuleSet → VersionedFacts → Result RulesError RuleDecision
replay_rule_decision host expected s facts = do
  throw_if
      (not (expected.rule_set_version == s.rule_set_version)
        || not (expected.facts_version == facts.facts_version))
      versions_disagree
  replayed ← evaluate_rules host expected.decision_id s facts expected.evaluated_at
  throw_if (not (host.stringify replayed == host.stringify expected)) replay_diverged
  ok replayed
