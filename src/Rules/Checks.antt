-- ===== src/Rules/Checks.antt =====
-- `validateRuleSet` of packages/rules-engine/src/index.ts.
use Prim.Native.String.{◌++◌ as append}
use fuel_cap.Base.{
  ℕ, String, Bool, true, false, not, ◌&&◌, ◌||◌, none, some, List, [], ◌∷◌, ◌++◌, Dict, lookup,
  insert, string_eq, nat_beq, any, filter, length, includes, map_or, if◌then◌else◌,
}
use fuel_cap.Base.Text.{is_blank}
use fuel_cap.Base.Objects.{is_inherited}
use fuel_cap.Rules.Types.{
  RulePrecedence, default, FactType, number, FactValue, RestrictedOperator, eq, gt, gte, lt, lte,
  in_list, ConditionValue, single, several, RuleCondition, Rule, RuleSet, ValidationError,
  invalid_effective_window, invalid_validation_time, missing_fallback, incomplete_rule,
  duplicate_rule, unknown_fact, type_mismatch, conflicting_condition, RuleValidation, Host,
}
use fuel_cap.Rules.Conditions.{same_type, scalar_type, equals_value, valid_instant, is_not_after}

-- What `schema[fact]` gives: a type, an inherited value, or nothing.
pub data Expected : Type 0 where
  declared : FactType → Expected
  inherited undeclared : Expected

unfoldable pub read_schema : Dict String FactType → String → Expected
read_schema schema fact = elim (lookup fact schema) [
  | some t ↦ declared t
  | none ↦ if is_inherited fact then inherited else undeclared
]

abbrev pub is_expected : Expected → FactType → Bool
is_expected (declared t) u = same_type t u
is_expected _ u = false

abbrev pub is_many : ConditionValue → Bool
is_many (several vs) = true
is_many (single v) = false

-- `values` of a condition
abbrev pub listed : ConditionValue → List FactValue
listed (several vs) = vs
listed (single v) = v ∷ []

abbrev pub is_in : RestrictedOperator → Bool
is_in in_list = true
is_in _ = false

abbrev pub is_order : RestrictedOperator → Bool
is_order gt = true
is_order gte = true
is_order lt = true
is_order lte = true
is_order _ = false

abbrev pub report : {A : Type 0} → Bool → A → List A
report test e = if test then e ∷ [] else []

-- The two type tests of a condition.
abbrev pub type_errors : Expected → RuleCondition → List ValidationError
type_errors expected c =
    report
      ((not (if is_in c.operator then is_many c.value else not (is_many c.value)))
        || any (λ v. not (is_expected expected (scalar_type v))) (listed c.value))
      type_mismatch
    ++ report (is_order c.operator && not (is_expected expected number)) type_mismatch

-- The test of an EQ condition against the one before it on the same fact.
abbrev pub conflict_errors : Dict String FactValue → RuleCondition → List ValidationError
conflict_errors equals c =
    map_or [] (λ prior. report (not (equals_value (some prior) c.value)) conflicting_condition)
      (lookup c.fact equals)

abbrev pub remember : Dict String FactValue → String → ConditionValue → Dict String FactValue
remember equals fact (single v) = insert fact v equals
remember equals fact (several vs) = equals

abbrev pub is_eq : RestrictedOperator → Bool
is_eq eq = true
is_eq _ = false

-- The inner loop of `validateRuleSet`.
unfoldable pub condition_errors :
    Dict String FactType → Dict String FactValue → List RuleCondition → List ValidationError
condition_errors schema equals [] = []
condition_errors schema equals (c ∷ cs) =
    let expected = read_schema schema c.fact in
    let after_eq = condition_errors schema (remember equals c.fact c.value) cs in
    let after = condition_errors schema equals cs in
    elim expected [
      | undeclared ↦ unknown_fact ∷ after
      | inherited ↦
          type_errors inherited c
          ++ (if is_eq c.operator then conflict_errors equals c ++ after_eq else after)
      | declared t ↦
          type_errors (declared t) c
          ++ (if is_eq c.operator then conflict_errors equals c ++ after_eq else after)
    ]

abbrev pub identity : Rule → String
identity rule = append rule.rule_id (append "@" rule.rule_version)

-- The outer loop of `validateRuleSet`, on the identities that it has seen.
unfoldable pub rule_errors : Dict String FactType → List String → List Rule → List ValidationError
rule_errors schema identities [] = []
rule_errors schema identities (rule ∷ rules) =
    report
      (is_blank rule.rule_id
        || is_blank rule.rule_version
        || is_blank rule.reason_code
        || is_blank rule.explanation_template)
      incomplete_rule
    ++ report (includes identities (identity rule)) duplicate_rule
    ++ condition_errors schema [] rule.conditions
    ++ rule_errors schema (identity rule ∷ identities) rules

abbrev pub is_default : RulePrecedence → Bool
is_default default = true
is_default _ = false

abbrev pub is_fallback : Rule → Bool
is_fallback rule = is_default rule.precedence && nat_beq (length rule.conditions) 0

abbrev pub window_is_bad : Host → RuleSet → Bool
window_is_bad host s =
    not (valid_instant host s.effective_from)
    || map_or false (λ to. not (valid_instant host to) || is_not_after host to s.effective_from)
        s.effective_to

unfoldable pub all_errors : Host → RuleSet → String → List ValidationError
all_errors host s validated_at =
    report (window_is_bad host s) invalid_effective_window
    ++ report (not (valid_instant host validated_at)) invalid_validation_time
    ++ report (nat_beq (length s.rules) 0 || not (any is_fallback s.rules)) missing_fallback
    ++ rule_errors s.schema [] s.rules

abbrev pub error_index : ValidationError → ℕ
error_index invalid_effective_window = 0
error_index invalid_validation_time = 1
error_index missing_fallback = 2
error_index incomplete_rule = 3
error_index duplicate_rule = 4
error_index unknown_fact = 5
error_index type_mismatch = 6
error_index conflicting_condition = 7

-- `[...new Set(errors)]`
abbrev pub distinct : List ValidationError → List ValidationError
distinct [] = []
distinct (e ∷ es) = e ∷ filter (λ d. not (nat_beq (error_index d) (error_index e))) (distinct es)

-- `validateRuleSet`
unfoldable pub validate_rule_set : Host → String → RuleSet → String → RuleValidation
validate_rule_set host validation_id s validated_at =
    let errors = all_errors host s validated_at in
    record {
      validation_id = validation_id;
      rule_set_id = s.rule_set_id;
      rule_set_version = s.rule_set_version;
      is_pass = nat_beq (length errors) 0;
      errors = distinct errors;
      validated_at = validated_at;
    }
