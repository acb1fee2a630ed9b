-- ===== src/Settlement/Release.antt =====
-- What a release of the remaining protection in packages/settlement-engine/src/index.ts comes to.
use fuel_cap.Base.{◌≡◌, refl, subst, false, string_eq, ok, >>-eq_ok, ok_eq, arith}
use fuel_cap.Base.Int.{ℤ, pos, ◌+ℤ◌, ◌-ℤ◌, ◌≤ℤ◌, negate, negate_parts, int_laws, zero_add}
use fuel_cap.Base.Products.{◌*ℤ◌, *ℤ_pos_parts, floor_div, ceil_div, floor_div-le, lt-floor_div}
use fuel_cap.Base.Doubles.{to_double-exact}
use fuel_cap.Settlement.{
  Host, SettlementError, CancellationCommand, CancellationDecision, debit, credit, ceil_minor,
  not_positive, side_total, cancel_remaining_protection, release_decision, exact,
}
use fuel_cap.Settlement.Range.{product_nonnegative}

-- What a release of the remaining protection gives the customer, against its value at the strike
-- price.
pub record IsReleased (c : CancellationCommand) (d : CancellationDecision) : Type 0 where
  pub quantity : d.released_quantity_4dp ≡ c.remaining_quantity_4dp
  pub residual :
      (pos 0 ≤ℤ d.absorbed_residual_numerator)
      × (d.absorbed_residual_numerator +ℤ pos 1 ≤ℤ pos 1000000)
  pub credited :
      d.customer_credit_minor *ℤ pos 1000000
      ≡ c.strike_price_4dp *ℤ c.remaining_quantity_4dp +ℤ d.absorbed_residual_numerator
  pub debited : side_total debit d.posting_lines ≡ d.customer_credit_minor
  pub balanced : side_total credit d.posting_lines ≡ d.customer_credit_minor

ceil-bounds :
    (n : ℤ)
    → (pos 0 ≤ℤ ceil_minor n *ℤ pos 1000000 -ℤ n)
      × (ceil_minor n *ℤ pos 1000000 -ℤ n +ℤ pos 1 ≤ℤ pos 1000000)
unfolding ceil_div
ceil-bounds n =
    let m = negate n in
    let f = floor_div m 1000000 in
    (
      omega (
        int_laws,
        *ℤ_pos_parts (negate f) 1000000,
        negate_parts n,
        negate_parts f,
        floor_div-le m,
      ),
      omega (
        int_laws,
        *ℤ_pos_parts (negate f) 1000000,
        negate_parts n,
        negate_parts f,
        lt-floor_div m,
      ),
    )

positive_of_valid : (n : ℤ) → not_positive n ≡ false → pos 0 ≤ℤ n
positive_of_valid n h = ground arith

release_decision-IsReleased :
    (c : CancellationCommand)
    → pos 0 ≤ℤ c.strike_price_4dp *ℤ c.remaining_quantity_4dp
    → c.strike_price_4dp *ℤ c.remaining_quantity_4dp +ℤ pos 1000000 ≤ℤ pos 9007199254740992
    → IsReleased c (release_decision c (exact c.strike_price_4dp c.remaining_quantity_4dp))
release_decision-IsReleased c low range =
    let n = c.strike_price_4dp *ℤ c.remaining_quantity_4dp in
    let credit_value = ceil_minor n *ℤ pos 1000000 in
    let bounds = ceil-bounds n in
    rw
      (
        to_double-exact n low (omega (int_laws, range)),
        to_double-exact credit_value (omega (int_laws, bounds.0, low))
            (omega (int_laws, bounds.1, range)),
        to_double-exact (credit_value -ℤ n) bounds.0 (omega (int_laws, bounds.1)),
      )
      (record {
        quantity = refl;
        residual = bounds;
        credited = add_sub n credit_value;
        debited = zero_add (ceil_minor n);
        balanced = zero_add (ceil_minor n);
      })
  where
    add_sub : (a b : ℤ) → b ≡ a +ℤ (b -ℤ a)
    add_sub a b = omega int_laws

-- Releasing what is left of a protection never costs the customer: if the strike price times the
-- quantity stays a million below 2 ^ 53, the credit is that product in whole minor units, plus a
-- residual of less than one unit that is rounded up, and each side of the posting is the credit.
pub cancel_remaining_protection-IsReleased :
    (host : Host) (c : CancellationCommand) (d : CancellationDecision)
    → cancel_remaining_protection host c ≡ ok d
    → c.strike_price_4dp *ℤ c.remaining_quantity_4dp +ℤ pos 1000000 ≤ℤ pos 9007199254740992
    → IsReleased c d
unfolding cancel_remaining_protection
cancel_remaining_protection-IsReleased host c d h range =
    let (_, h₁) = >>-eq_ok _ SettlementError.identity_required _ h in
    let (quantity, h₂) =
      >>-eq_ok (not_positive c.remaining_quantity_4dp) SettlementError.quantity_invalid _ h₁ in
    let (strike, h₃) =
      >>-eq_ok (not_positive c.strike_price_4dp) SettlementError.price_invalid _ h₂ in
    let (_, h₄) = >>-eq_ok _ SettlementError.timestamp_required _ h₃ in
    subst (IsReleased c) (ok_eq h₄) (
      release_decision-IsReleased c
        (product_nonnegative c.strike_price_4dp c.remaining_quantity_4dp
          (positive_of_valid _ strike) (positive_of_valid _ quantity))
        range)
