-- ===== src/Rules/Evaluation.antt =====
-- What a decision of packages/rules-engine/src/index.ts says, when there is one, and its replay.
use fuel_cap.Base.{
  ◌≤◌, String, ◌≡◌, refl, subst, ap, ◌∙◌, inl, inr, Bool, true, false, false≢true, not, Option,
  none, some, List, [], ◌∷◌, ◌++◌, Memᴰ, find, any, all, length, lookup, nat_beq, string_eq,
  ==_refl, eq-==, not-eq_false, &&-eq_true, Bool-cases, ||-eq_false, ok, >>-eq_ok, >>=-eq_ok, ok_eq,
  arith,
}
use fuel_cap.Rules.{
  Host, Rule, RuleSet, VersionedFacts, RuleDecision, RulesError, RuleCondition, ValidationError,
  condition_matches, validate_rule_set, all_errors, report, is_fallback, precedence_order,
}
use fuel_cap.Rules.Engine.{
  assert_facts, sort_rules, rule_matches, is_effective, new_decision, decide, evaluate_rules,
  replay_rule_decision,
}
use fuel_cap.Rules.Order.{
  any-sort_rules, sort_rules-IsSorted, sort_rules-Memᴰ, Memᴰ-sort_rules, find-strongest,
}

-- The rule that a decision is made by: it is one of the set, it matches, no matching rule of the set
-- has a stronger precedence, and the decision is that rule's.
pub record IsDecidedBy (host : Host) (s : RuleSet) (facts : VersionedFacts) (d : RuleDecision)
    (rule : Rule) : Type 0 where
  pub member : Memᴰ rule s.rules
  pub matches : rule_matches facts rule ≡ true
  pub strongest :
      (r : Rule)
      → Memᴰ r s.rules
      → rule_matches facts r ≡ true
      → precedence_order rule.precedence ≤ precedence_order r.precedence
  pub made : d ≡ new_decision host d.decision_id s facts d.evaluated_at rule

decide-IsDecidedBy :
    (host : Host) (id : String) (s : RuleSet) (facts : VersionedFacts) (at_time : String)
    (o : Option Rule) {d : RuleDecision}
    → find (rule_matches facts) (sort_rules host s.rules) ≡ o
    → decide host id s facts at_time o ≡ ok d
    → (rule : Rule) × IsDecidedBy host s facts d rule
unfolding decide new_decision
decide-IsDecidedBy host id s facts at_time none e h = absurd (cc)
decide-IsDecidedBy host id s facts at_time (some rule) {d} e h =
    let (m, holds, strongest) =
      find-strongest (rule_matches facts) (sort_rules host s.rules)
        (sort_rules-IsSorted host s.rules) e in
    (
      rule,
      subst (λ c. IsDecidedBy host s facts c rule) {x = new_decision host id s facts at_time rule}
          (ok_eq h)
          (record {
            member = Memᴰ-sort_rules host rule s.rules m;
            matches = holds;
            strongest = λ r n k. strongest r (sort_rules-Memᴰ host r s.rules n) k;
            made = refl;
          }),
    )

-- Every decision is made by a rule of the set that matches the facts, and no matching rule of the
-- set has a stronger precedence; so a prohibition that matches is never overruled.
pub evaluate_rules-strongest :
    (host : Host) (id : String) (s : RuleSet) (facts : VersionedFacts) (at_time : String)
    {d : RuleDecision}
    → evaluate_rules host id s facts at_time ≡ ok d
    → (rule : Rule) × IsDecidedBy host s facts d rule
unfolding evaluate_rules
evaluate_rules-strongest host id s facts at_time h =
    let (_, h₁) = >>-eq_ok (not (is_effective host s at_time)) RulesError.not_effective _ h in
    let (_, _, h₂) = >>=-eq_ok (assert_facts s.schema facts.values) _ h₁ in
    decide-IsDecidedBy host id s facts at_time _ refl h₂

third_report :
    (a b c : Bool) (x y z : ValidationError) (rest : List ValidationError)
    → nat_beq (length (report a x ++ report b y ++ report c z ++ rest)) 0 ≡ true
    → c ≡ false
third_report a b c x y z rest h = ground arith

validate_rule_set-fallback :
    (host : Host) (id : String) (s : RuleSet) (at_time : String)
    → (validate_rule_set host id s at_time).is_pass ≡ true
    → any is_fallback s.rules ≡ true
unfolding validate_rule_set all_errors
validate_rule_set-fallback host id s at_time h =
    not-eq_false _ (||-eq_false _ _ (third_report _ _ _ _ _ _ _ h)).1

empty-matches :
    (facts : VersionedFacts) (r : Rule) → is_fallback r ≡ true → rule_matches facts r ≡ true
unfolding rule_matches
empty-matches facts r h = none_fails r.conditions (&&-eq_true _ _ h).1
  where
    none_fails :
        (cs : List RuleCondition)
        → nat_beq (length cs) 0 ≡ true
        → all (λ c. condition_matches c.operator c.value (lookup c.fact facts.values)) cs ≡ true
    none_fails [] k = refl
    none_fails (c ∷ cs) k = ground arith

fallback-matches :
    (facts : VersionedFacts) (rs : List Rule)
    → any is_fallback rs ≡ true
    → any (rule_matches facts) rs ≡ true
fallback-matches facts [] h = h
fallback-matches facts (r ∷ rs) h = elim (Bool-cases (is_fallback r)) [
  | inl e ↦ rw (empty-matches facts r e)
  | inr e ↦ ground (arith, fallback-matches facts rs (rw e at h))
]

find-any : (p : Rule → Bool) (xs : List Rule) → any p xs ≡ true → (a : Rule) × (find p xs ≡ some a)
find-any p [] h = absurd (false≢true h)
find-any p (x ∷ xs) h = elim (Bool-cases (p x)) [
  | inl e ↦ (x, rw e)
  | inr e ↦ let (a, f) = find-any p xs (rw e at h) in (a, rw (e, f))
]

-- A rule set that passed validation always decides: in force, on facts that fit its schema, it
-- returns a decision, since its fallback matches whatever the facts are.
pub evaluate_rules-decides :
    (host : Host) (validation_id id : String) (s : RuleSet) (facts : VersionedFacts)
    (validated_at at_time : String)
    → (validate_rule_set host validation_id s validated_at).is_pass ≡ true
    → is_effective host s at_time ≡ true
    → assert_facts s.schema facts.values ≡ ok tt
    → (d : RuleDecision) × (evaluate_rules host id s facts at_time ≡ ok d)
unfolding evaluate_rules decide
evaluate_rules-decides host validation_id id s facts validated_at at_time pass in_force fit =
    let some_match =
      any-sort_rules host (rule_matches facts) s.rules
      ∙ fallback-matches facts s.rules
          (validate_rule_set-fallback host validation_id s validated_at pass) in
    let (rule, found) = find-any (rule_matches facts) (sort_rules host s.rules) some_match in
    (new_decision host id s facts at_time rule, rw (in_force, fit, found))

-- What a decision keeps of the call that made it.
abbrev IsPinned : String → RuleSet → VersionedFacts → String → RuleDecision → Type 0
IsPinned id s facts at_time d =
    (d.decision_id ≡ id)
    × (d.evaluated_at ≡ at_time)
    × (d.rule_set_version ≡ s.rule_set_version)
    × (d.facts_version ≡ facts.facts_version)

decide-IsPinned :
    (host : Host) (id : String) (s : RuleSet) (facts : VersionedFacts) (at_time : String)
    (o : Option Rule) {d : RuleDecision}
    → decide host id s facts at_time o ≡ ok d
    → IsPinned id s facts at_time d
unfolding decide new_decision
decide-IsPinned host id s facts at_time none h = absurd (cc)
decide-IsPinned host id s facts at_time (some rule) h =
    subst (IsPinned id s facts at_time) {x = new_decision host id s facts at_time rule} (ok_eq h)
      (refl, refl, refl, refl)

evaluate_rules-IsPinned :
    (host : Host) (id : String) (s : RuleSet) (facts : VersionedFacts) (at_time : String)
    {d : RuleDecision}
    → evaluate_rules host id s facts at_time ≡ ok d
    → IsPinned id s facts at_time d
unfolding evaluate_rules
evaluate_rules-IsPinned host id s facts at_time h =
    let (_, h₁) = >>-eq_ok (not (is_effective host s at_time)) RulesError.not_effective _ h in
    let (_, _, h₂) = >>=-eq_ok (assert_facts s.schema facts.values) _ h₁ in
    decide-IsPinned host id s facts at_time _ h₂

-- A decision that was made can be replayed: with the rule set and the facts that it was made from, a
-- replay returns the same decision.
pub replay_rule_decision-evaluate_rules :
    (host : Host) (id : String) (s : RuleSet) (facts : VersionedFacts) (at_time : String)
    {d : RuleDecision}
    → evaluate_rules host id s facts at_time ≡ ok d
    → replay_rule_decision host d s facts ≡ ok d
unfolding replay_rule_decision
replay_rule_decision-evaluate_rules host id s facts at_time {d} h =
    let (same_id, same_time, rules_version, facts_version) =
      evaluate_rules-IsPinned host id s facts at_time h in
    let again =
      ap (λ i. evaluate_rules host i s facts d.evaluated_at) same_id
      ∙ ap (λ t. evaluate_rules host id s facts t) same_time
      ∙ h in
    rw (eq-== rules_version, eq-== facts_version, again, ==_refl (host.stringify d))
