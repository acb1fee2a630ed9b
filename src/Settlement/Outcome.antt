-- ===== src/Settlement/Outcome.antt =====
-- What a settlement of packages/settlement-engine/src/index.ts come to.
use fuel_cap.Base.{
  ◌≡◌, sym, ap, subst, ◌∙◌, inl, inr, false, false≢true, not, ◌||◌, none, some, List, [], All, any,
  lookup, ◌==◌, string_eq, Bool-cases, Option-cases, Result, ok, err, >>-eq_ok, >>=-eq_ok, ok_eq,
  arith,
}
use fuel_cap.Base.Int.{ℤ, pos, ◌+ℤ◌, ◌-ℤ◌, ◌≤ℤ◌, int_laws}
use fuel_cap.Base.Products.{◌*ℤ◌, *ℤ_pos_parts, floor_div, floor_div-le, lt-floor_div}
use fuel_cap.Base.Objects.{is_inherited}
use fuel_cap.Settlement.{
  Host, SettlementState, SettlementCommand, SettlementDecision, SettlementResult, SettlementError,
  floor_minor, not_positive, validate_settlement, terms_by_id, pin_lines, settlement_amounts,
  posting_lines, is_unbalanced, new_decision, store_decision, settle_new, settle_purchase, Amounts,
}
use fuel_cap.Settlement.Exact.{Pinned, exact_amounts, pump_value, charged_value}
use fuel_cap.Settlement.Slices.{IsSensible, slices-IsTotalled}
use fuel_cap.Settlement.Range.{IsInRange}
use fuel_cap.Settlement.Totals.{station-eq, customer-eq, settlement_amounts-exact}
use fuel_cap.Settlement.Posting.{posting_lines-balanced}

positive_price :
    (host : Host) (c : SettlementCommand) {u : Unit {0}}
    → validate_settlement host c ≡ ok u
    → pos 0 ≤ℤ c.actual_pump_price_4dp
unfolding validate_settlement
positive_price host c h =
    let (_, h₁) = >>-eq_ok _ SettlementError.identity_required _ h in
    let (p, _) =
      >>-eq_ok (not_positive c.actual_pump_price_4dp) SettlementError.price_invalid _ h₁ in
    positive c.actual_pump_price_4dp p
  where
    positive : (n : ℤ) → not_positive n ≡ false → pos 0 ≤ℤ n
    positive n q = ground arith

settlement-balanced :
    (c : SettlementCommand) (pinned : List Pinned)
    → pos 0 ≤ℤ c.actual_pump_price_4dp
    → All IsSensible pinned
    → IsInRange c pinned
    → is_unbalanced (posting_lines c.settlement_id c.accounts (settlement_amounts c pinned)) ≡ false
settlement-balanced c pinned h k range =
    let w =
      slices-IsTotalled c.actual_pump_price_4dp c.allocation.unprotected_quantity_4dp pinned h k in
    ap (λ n. is_unbalanced (posting_lines c.settlement_id c.accounts n))
      (settlement_amounts-exact c pinned h k range)
    ∙ posting_lines-balanced _ _ _ _ _
        (record {
          covers = w.covers;
          contributes = w.contributes;
          benefit_nonnegative = w.benefit;
          strike_nonnegative = w.strikes;
        })
        c.settlement_id c.accounts

-- A valid settlement goes through: with a key and identities that are new and terms for every line,
-- with no negative quantity, strike prices that are safe integers and not negative or above their
-- boundary, and values at the pump and at the strike prices that doubles hold exactly, the posting
-- lines balance whatever was rounded, so the call returns the decision and stores it.
pub settle_purchase-settles :
    (host : Host) (s : SettlementState) (c : SettlementCommand) (pinned : List Pinned)
    → validate_settlement host c ≡ ok tt
    → lookup c.idempotency_key s.idempotency ≡ none
    → is_inherited c.idempotency_key ≡ false
    → any
        (λ d. d.settlement_id == c.settlement_id || d.allocation_id == c.allocation.allocation_id)
        s.decisions
      ≡ false
    → pin_lines (terms_by_id c.terms []) c.allocation.lines ≡ ok pinned
    → All IsSensible pinned
    → IsInRange c pinned
    → settle_purchase host s c ≡ ok (store_decision host s c (new_decision c pinned))
unfolding settle_purchase settle_new
settle_purchase-settles host s c pinned valid fresh own new pins sensible range = rw (
  valid,
  fresh,
  own,
  new,
  pins,
  settlement-balanced c pinned (positive_price host c valid) sensible range,
)

-- What a decision charges and pays, against the exact values of the purchase.
pub record IsRounded (c : SettlementCommand) (pinned : List Pinned) (n : Amounts) : Type 0 where
  pub station_low : n.station_payment_minor *ℤ pos 1000000 ≤ℤ pump_value c pinned +ℤ pos 500000
  pub station_high :
      pump_value c pinned +ℤ pos 1 ≤ℤ n.station_payment_minor *ℤ pos 1000000 +ℤ pos 500000
  pub charged :
      n.customer_debit_minor *ℤ pos 1000000 +ℤ n.rounding_residual_numerator
      ≡ charged_value c pinned
  pub residual :
      (pos 0 ≤ℤ n.rounding_residual_numerator)
      × (n.rounding_residual_numerator +ℤ pos 1 ≤ℤ pos 1000000)
  pub contribution :
      pump_value c pinned -ℤ charged_value c pinned
      ≤ℤ n.pool_contribution_minor *ℤ pos 1000000 +ℤ pos 500000

nearest-low : (n : ℤ) → floor_div (n +ℤ pos 500000) 1000000 *ℤ pos 1000000 ≤ℤ n +ℤ pos 500000
nearest-low n = omega (
  int_laws,
  *ℤ_pos_parts (floor_div (n +ℤ pos 500000) 1000000) 1000000,
  floor_div-le (n +ℤ pos 500000),
)

nearest-high :
    (n : ℤ) → n +ℤ pos 1 ≤ℤ floor_div (n +ℤ pos 500000) 1000000 *ℤ pos 1000000 +ℤ pos 500000
nearest-high n = omega (
  int_laws,
  *ℤ_pos_parts (floor_div (n +ℤ pos 500000) 1000000) 1000000,
  lt-floor_div (n +ℤ pos 500000),
)

residual-bounds :
    (n : ℤ)
    → (pos 0 ≤ℤ n -ℤ floor_minor n *ℤ pos 1000000)
      × (n -ℤ floor_minor n *ℤ pos 1000000 +ℤ pos 1 ≤ℤ pos 1000000)
residual-bounds n = (
  omega (int_laws, *ℤ_pos_parts (floor_minor n) 1000000, floor_div-le n),
  omega (int_laws, *ℤ_pos_parts (floor_minor n) 1000000, lt-floor_div n),
)

contribution-high :
    (s c : ℤ)
    → s -ℤ c ≤ℤ (floor_div (s +ℤ pos 500000) 1000000 -ℤ floor_minor c) *ℤ pos 1000000 +ℤ pos 500000
contribution-high s c =
    let m = floor_div (s +ℤ pos 500000) 1000000 in
    let n = floor_minor c in
    omega (int_laws, *ℤ_pos_parts (m -ℤ n) 1000000, lt-floor_div (s +ℤ pos 500000), floor_div-le c)

exact_amounts-IsRounded :
    (c : SettlementCommand) (pinned : List Pinned) (station customer benefit above strikes : ℤ)
    → station ≡ pump_value c pinned
    → customer ≡ charged_value c pinned
    → IsRounded c pinned (exact_amounts station customer benefit above strikes)
unfolding exact_amounts
exact_amounts-IsRounded c pinned station customer benefit above strikes e f =
    let paid = floor_div (station +ℤ pos 500000) 1000000 in
    let pool = (paid -ℤ floor_minor customer) *ℤ pos 1000000 +ℤ pos 500000 in
    record {
      station_low = subst (λ v. paid *ℤ pos 1000000 ≤ℤ v +ℤ pos 500000) e (nearest-low station);
      station_high =
          subst (λ v. v +ℤ pos 1 ≤ℤ paid *ℤ pos 1000000 +ℤ pos 500000) e (nearest-high station);
      charged = add_sub _ customer ∙ f;
      residual = residual-bounds customer;
      contribution =
          subst (λ v. v -ℤ charged_value c pinned ≤ℤ pool) e
            (subst (λ v. station -ℤ v ≤ℤ pool) f (contribution-high station customer));
    }
  where
    add_sub : (a b : ℤ) → a +ℤ (b -ℤ a) ≡ b
    add_sub a b = omega int_laws

settlement_amounts-IsRounded :
    (c : SettlementCommand) (pinned : List Pinned)
    → pos 0 ≤ℤ c.actual_pump_price_4dp
    → All IsSensible pinned
    → IsInRange c pinned
    → IsRounded c pinned (settlement_amounts c pinned)
settlement_amounts-IsRounded c pinned h k range =
    subst (IsRounded c pinned) (sym (settlement_amounts-exact c pinned h k range)) (
      exact_amounts-IsRounded c pinned _ _ _ _ _ (station-eq c pinned h k range)
        (customer-eq c pinned h k range))

-- A new settlement rounds fairly, with no negative quantity, strike prices that are safe integers and
-- not negative or above their boundary, and values at the pump and at the strike prices that doubles
-- hold exactly: the station is paid the pump's price of the fuel to within half a minor unit; the
-- customer is charged the pump price up to the strike price, the strike price up to the boundary and
-- the excess above it, less a residual below one unit; and the pool contributes at least the
-- difference, less half a unit.
pub settle_purchase-IsRounded :
    (host : Host) (s : SettlementState) (c : SettlementCommand) (r : SettlementResult)
    (pinned : List Pinned)
    → settle_purchase host s c ≡ ok r
    → r.idempotent_replay ≡ false
    → pin_lines (terms_by_id c.terms []) c.allocation.lines ≡ ok pinned
    → All IsSensible pinned
    → IsInRange c pinned
    → (d : SettlementDecision) × (r.decision ≡ some d) × IsRounded c pinned d.amounts
unfolding settle_purchase settle_new new_decision
settle_purchase-IsRounded host s c r pinned h new pins sensible range =
    let (_, valid, h₁) = >>=-eq_ok (validate_settlement host c) _ h in
    elim (Option-cases (lookup c.idempotency_key s.idempotency)) [
      | inl e ↦ elim (Bool-cases (is_inherited c.idempotency_key)) [
        | inl i ↦ absurd (refused (rw (e, i) at h₁))
        | inr i ↦
            let (_, h₂) = >>-eq_ok _ SettlementError.settlement_not_unique _ (rw (e, i) at h₁) in
            let (lines, found, h₃) =
              >>=-eq_ok (pin_lines (terms_by_id c.terms []) c.allocation.lines) _ h₂ in
            let (_, h₄) =
              >>-eq_ok
                (is_unbalanced
                  (posting_lines c.settlement_id c.accounts (settlement_amounts c lines)))
                SettlementError.unbalanced _ h₃ in
            (
              new_decision c pinned,
              sym (ap (λ q. q.decision) (ok_eq h₄))
                  ∙ ap (λ l. some (new_decision c l)) (ok_eq (sym found ∙ pins)),
              settlement_amounts-IsRounded c pinned (positive_price host c valid) sensible range,
            )
      ]
      | inr (prior, e) ↦
          let (_, h₂) =
            >>-eq_ok (not (prior.fingerprint == host.hash_command c)) SettlementError.key_reused _
              (rw e at h₁) in
          absurd (false≢true (sym new ∙ sym (ap (λ q. q.idempotent_replay) (ok_eq h₂))))
    ]
  where
    refused :
        ◌≡◌ {A = Result SettlementError SettlementResult} (err SettlementError.key_reused) (ok r)
        → ⊥
    refused k = cc
