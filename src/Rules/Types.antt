-- ===== src/Rules/Types.antt =====
-- The data of packages/rules-engine/src/index.ts. Numbers are integers. `engineVersion`, a constant,
-- is left out.
use fuel_cap.Base.{ℕ, String, Bool, List, Option, Dict}
use fuel_cap.Base.Int.{ℤ}

pub data RuleDomain : Type 0 where
  quote_eligibility pricing spread_fx allocation_settlement rollover_cancellation : RuleDomain
  risk_fraud exposure_hedging billing communications admin_authorization : RuleDomain

pub data RulePrecedence : Type 0 where
  prohibition_invalidity regulatory_legal_entity risk_fraud product : RulePrecedence
  organisation_group promotion_customer_choice default : RulePrecedence

pub data RuleSetState : Type 0 where
  draft validated approved scheduled published superseded withdrawn : RuleSetState

pub data FactType : Type 0 where
  string number boolean : FactType

pub data FactValue : Type 0 where
  text : String → FactValue
  amount : ℤ → FactValue
  flag : Bool → FactValue

pub data RestrictedOperator : Type 0 where
  eq neq gt gte lt lte in_list : RestrictedOperator

pub record VersionedFacts : Type 0 where
  pub facts_version : String
  pub values : Dict String FactValue
  pub evidence_references : List String

-- `FactValue | readonly FactValue[]`
pub data ConditionValue : Type 0 where
  single : FactValue → ConditionValue
  several : List FactValue → ConditionValue

pub record RuleCondition : Type 0 where
  pub fact : String
  pub operator : RestrictedOperator
  pub value : ConditionValue

pub record Rule : Type 0 where
  pub rule_id : String
  pub rule_version : String
  pub precedence : RulePrecedence
  pub conditions : List RuleCondition
  pub outcome : String
  pub reason_code : String
  pub explanation_template : String
  pub follow_up_actions : List String
  pub calculated_values : Dict String ℤ

pub record RuleSet : Type 0 where
  pub rule_set_id : String
  pub rule_set_version : String
  pub domain : RuleDomain
  pub state : RuleSetState
  pub effective_from : String
  pub effective_to : Option String
  pub supersedes_version : Option String
  pub schema : Dict String FactType
  pub rules : List Rule

-- The texts that `validateRuleSet` collects.
pub data ValidationError : Type 0 where
  invalid_effective_window invalid_validation_time missing_fallback : ValidationError
  incomplete_rule duplicate_rule unknown_fact type_mismatch : ValidationError
  conflicting_condition : ValidationError

-- `status` is "PASS" where `is_pass` holds, and else "BLOCKED".
pub record RuleValidation : Type 0 where
  pub validation_id : String
  pub rule_set_id : String
  pub rule_set_version : String
  pub is_pass : Bool
  pub errors : List ValidationError
  pub validated_at : String

pub record ScenarioEvaluation : Type 0 where
  pub scenario_id : String
  pub facts : VersionedFacts
  pub expected_outcome : String
  pub evaluated_at : String

pub record RuleSimulation : Type 0 where
  pub simulation_id : String
  pub rule_set_id : String
  pub rule_set_version : String
  pub scenario_count : ℕ
  pub passed_scenario_count : ℕ
  pub changed_outcome_count : ℕ
  pub is_pass : Bool
  pub evaluated_at : String

-- The input of `approveRuleSet`; its type admits no assurance but "STEP_UP".
pub record ApprovalInput : Type 0 where
  pub approval_id : String
  pub maker_id : String
  pub checker_id : String
  pub approved_at : String

pub record RuleApproval : Type 0 where
  pub input : ApprovalInput
  pub rule_set_id : String
  pub rule_set_version : String
  pub validation_id : String
  pub simulation_id : String

pub record RuleDecision : Type 0 where
  pub decision_id : String
  pub rule_set_id : String
  pub rule_set_version : String
  pub rule_id : String
  pub rule_version : String
  pub facts_version : String
  pub outcome : String
  pub matched_conditions : List String
  pub failed_conditions : List String
  pub reason_codes : List String
  pub calculated_values : Dict String ℤ
  pub follow_up_actions : List String
  pub explanation_template : String
  pub evidence_references : List String
  pub evaluated_at : String

-- One constructor for each `throw`.
pub data RulesError : Type 0 where
  fact_missing not_effective no_fallback maker_is_checker approval_invalid : RulesError
  regression_required lineage_disagrees versions_disagree replay_diverged : RulesError

-- What the engine calls and does not implement: `Date.parse` (`none` for NaN), `localeCompare`,
-- `String(...)` of a number, and `JSON.stringify` of a decision.
pub record Host : Type 0 where
  pub date_parse : String → Option ℤ
  pub locale_compare : String → String → ℤ
  pub show_number : ℤ → String
  pub stringify : RuleDecision → String
