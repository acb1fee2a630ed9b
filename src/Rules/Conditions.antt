-- ===== src/Rules/Conditions.antt =====
-- Facts and conditions of packages/rules-engine/src/index.ts.
use fuel_cap.Base.{
  ℕ, String, Bool, true, false, not, Option, some, ◌==◌, string_eq, nat_beq, any, is_some, map_or,
}
use fuel_cap.Base.Int.{ℤ, leb_ℤ, ltb_ℤ, eqb_ℤ}
use fuel_cap.Rules.Types.{
  RulePrecedence, prohibition_invalidity, regulatory_legal_entity, product, organisation_group,
  promotion_customer_choice, default, FactType, string, number, boolean, FactValue, text, amount,
  flag, RestrictedOperator, eq, neq, gt, gte, lt, lte, in_list, ConditionValue, single, several,
  Host,
}

-- `precedenceOrder`
abbrev pub precedence_order : RulePrecedence → ℕ
precedence_order prohibition_invalidity = 0
precedence_order regulatory_legal_entity = 1
precedence_order RulePrecedence.risk_fraud = 2
precedence_order product = 3
precedence_order organisation_group = 4
precedence_order promotion_customer_choice = 5
precedence_order default = 6

abbrev pub type_index : FactType → ℕ
type_index string = 0
type_index number = 1
type_index boolean = 2

abbrev pub same_type : FactType → FactType → Bool
same_type a b = nat_beq (type_index a) (type_index b)

-- `scalarType`
abbrev pub scalar_type : FactValue → FactType
scalar_type (text s) = string
scalar_type (amount n) = number
scalar_type (flag b) = boolean

abbrev pub same_flag : Bool → Bool → Bool
same_flag true b = b
same_flag false b = not b

-- `===` on fact values
abbrev pub same_value : FactValue → FactValue → Bool
same_value (text a) (text b) = a == b
same_value (amount a) (amount b) = eqb_ℤ a b
same_value (flag a) (flag b) = same_flag a b
same_value _ _ = false

-- `actual === condition.value`; an array is not the value of a fact, nor is a missing fact one.
abbrev pub equals_value : Option FactValue → ConditionValue → Bool
equals_value (some a) (single v) = same_value a v
equals_value _ _ = false

-- A comparison of two numbers, false of anything else.
abbrev pub compares : (ℤ → ℤ → Bool) → Option FactValue → ConditionValue → Bool
compares test (some (amount a)) (single (amount v)) = test a v
compares test _ _ = false

-- `conditionMatches`
unfoldable pub condition_matches : RestrictedOperator → ConditionValue → Option FactValue → Bool
condition_matches eq v actual = equals_value actual v
condition_matches neq v actual = not (equals_value actual v)
condition_matches gt v actual = compares (λ a b. ltb_ℤ b a) actual v
condition_matches gte v actual = compares (λ a b. leb_ℤ b a) actual v
condition_matches lt v actual = compares (λ a b. ltb_ℤ a b) actual v
condition_matches lte v actual = compares (λ a b. leb_ℤ a b) actual v
condition_matches in_list (several vs) (some a) = any (λ v. same_value v a) vs
condition_matches in_list _ _ = false

-- `validInstant`
abbrev pub valid_instant : Host → String → Bool
valid_instant host t = is_some (host.date_parse t)

-- `Date.parse(a) < Date.parse(b)`, false where one is NaN
abbrev pub is_before : Host → String → String → Bool
is_before host a b =
    map_or false (λ m. map_or false (λ n. ltb_ℤ m n) (host.date_parse b)) (host.date_parse a)

-- `Date.parse(a) <= Date.parse(b)`
abbrev pub is_not_after : Host → String → String → Bool
is_not_after host a b =
    map_or false (λ m. map_or false (λ n. leb_ℤ m n) (host.date_parse b)) (host.date_parse a)
