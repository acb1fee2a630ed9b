-- ===== src/Settlement/Totals.antt =====
-- The amounts of `settlePurchase` in packages/settlement-engine/src/index.ts, where its
-- doubles are exact.
use fuel_cap.Base.{◌≡◌, refl, ap, ap₂, ◌∙◌, List, map, All, All-append}
use fuel_cap.Base.Int.{ℤ, pos, ◌+ℤ◌, ◌-ℤ◌, ◌≤ℤ◌, int_laws, sum_of, sum_of-append}
use fuel_cap.Base.Sums.{sum_of-le}
use fuel_cap.Base.Products.{◌*ℤ◌, *ℤ_pos_parts, floor_div-le, lt-floor_div}
use fuel_cap.Base.Doubles.{to_double-exact, sum_of-nonnegative, rounded_sum, rounded_sum-exact}
use fuel_cap.Settlement.{
  SettlementCommand, floor_minor, strike_exact, amounts_of, settlement_amounts,
}
use fuel_cap.Settlement.Exact.{
  Pinned, exact_slice, exact_unprotected, exact_slices, exact_amounts, pump_value, charged_value,
  strike_of,
}
use fuel_cap.Settlement.Slices.{
  IsSensible, slices-IsTotalled, station_total, customer_total, benefit_total,
}
use fuel_cap.Settlement.Range.{IsInRange, slices_of-exact}
use fuel_cap.Settlement.Sums.{
  IsBounded, All-imply, All-exact_slice, exact_unprotected-IsBounded, exact_unprotected-IsRest,
  station-sum, customer-sum, benefit-sum, strike_exact-eq,
}

-- Where a numerator and its half unit are in range, so are the products of whole units.
amounts_of-exact :
    (station customer benefit above strikes : ℤ)
    → pos 0 ≤ℤ station
    → station +ℤ pos 500000 ≤ℤ pos 9007199254740992
    → pos 0 ≤ℤ customer
    → customer ≤ℤ station
    → amounts_of station customer benefit above strikes
      ≡ exact_amounts station customer benefit above strikes
unfolding amounts_of exact_amounts
amounts_of-exact station customer benefit above strikes h k l m =
    let debit = floor_minor customer in
    let low = floor_div-le customer in
    let high = lt-floor_div customer in
    let parts = *ℤ_pos_parts debit 1000000 in
    let whole =
      to_double-exact (debit *ℤ pos 1000000) (omega (int_laws, low, high, parts, l))
        (omega (int_laws, low, parts, l, m, k)) in
    let half = to_double-exact (station +ℤ pos 500000) (omega (int_laws, h)) k in
    rw
      (
        whole,
        half,
        to_double-exact (customer -ℤ debit *ℤ pos 1000000) (omega (int_laws, low, parts))
            (omega (int_laws, high, low, parts, l, m, k)),
      )
      refl

module _ (c : SettlementCommand) (pinned : List Pinned)
    (positive : pos 0 ≤ℤ c.actual_pump_price_4dp) (w : All IsSensible pinned)
    (r : IsInRange c pinned) where
  slices-IsBounded : All IsBounded (exact_slices c pinned)
  slices-IsBounded =
      All-append IsBounded _ _ (All-exact_slice c.actual_pump_price_4dp pinned positive w) (
        exact_unprotected-IsBounded c.actual_pump_price_4dp c.allocation.unprotected_quantity_4dp
          positive)

  pub station-eq : station_total (exact_slices c pinned) ≡ pump_value c pinned
  station-eq =
      let pump = c.actual_pump_price_4dp in
      let rest = exact_unprotected-IsRest pump c.allocation.unprotected_quantity_4dp in
      sum_of-append (λ s. s.station_exact_numerator) (map (exact_slice pump) pinned) _
      ∙ ap₂ (λ m n. m +ℤ n) (station-sum pump pinned) rest.station

  pub customer-eq : customer_total (exact_slices c pinned) ≡ charged_value c pinned
  customer-eq =
      let pump = c.actual_pump_price_4dp in
      let rest = exact_unprotected-IsRest pump c.allocation.unprotected_quantity_4dp in
      sum_of-append (λ s. s.customer_exact_numerator) (map (exact_slice pump) pinned) _
      ∙ ap₂ (λ m n. m +ℤ n) (customer-sum pump pinned w) rest.customer

  benefit-le : benefit_total (exact_slices c pinned) ≤ℤ sum_of strike_of pinned
  benefit-le =
      let pump = c.actual_pump_price_4dp in
      let rest = exact_unprotected-IsRest pump c.allocation.unprotected_quantity_4dp in
      rw
        (
          sum_of-append (λ s. s.lower_price_benefit_exact_numerator) (map (exact_slice pump) pinned)
              (exact_unprotected pump c.allocation.unprotected_quantity_4dp),
          rest.benefit,
        )
        (omega (int_laws, benefit-sum pump pinned positive w))

  -- In range the amounts of the code are those of the exact sums.
  pub settlement_amounts-exact :
      settlement_amounts c pinned
      ≡ exact_amounts
          (station_total (exact_slices c pinned))
          (customer_total (exact_slices c pinned))
          (benefit_total (exact_slices c pinned))
          (sum_of (λ s. s.above_boundary_exact_numerator) (exact_slices c pinned))
          (sum_of strike_of pinned)
  settlement_amounts-exact =
      let xs = exact_slices c pinned in
      let bounded = slices-IsBounded in
      let totals =
        slices-IsTotalled c.actual_pump_price_4dp c.allocation.unprotected_quantity_4dp pinned
          positive w in
      let station = station-eq in
      let paid : station_total xs +ℤ pos 500000 ≤ℤ pos 9007199254740992 = rw station r.pump_value in
      let stations = All-imply (λ s (b : IsBounded s). b.station) xs bounded in
      let customers = All-imply (λ s (b : IsBounded s). b.customer) xs bounded in
      let benefits = All-imply (λ s (b : IsBounded s). b.benefit) xs bounded in
      let aboves = All-imply (λ s (b : IsBounded s). b.above) xs bounded in
      let above_le =
        sum_of-le (λ s. s.above_boundary_exact_numerator) (λ s. s.station_exact_numerator) xs
          (All-imply (λ s (b : IsBounded s). b.above_le) xs bounded) in
      ap
        (λ slices.
          amounts_of (rounded_sum (λ s. s.station_exact_numerator) slices)
            (rounded_sum (λ s. s.customer_exact_numerator) slices)
            (rounded_sum (λ s. s.lower_price_benefit_exact_numerator) slices)
            (rounded_sum (λ s. s.above_boundary_exact_numerator) slices) (strike_exact pinned))
        (slices_of-exact c pinned positive w r)
      ∙ rw
          (
            rounded_sum-exact (λ s. s.station_exact_numerator) xs stations (omega (int_laws, paid)),
            rounded_sum-exact (λ s. s.customer_exact_numerator) xs customers
                (omega (int_laws, paid, totals.contributes)),
            rounded_sum-exact (λ s. s.lower_price_benefit_exact_numerator) xs benefits
                (omega (int_laws, benefit-le, r.strike_value)),
            rounded_sum-exact (λ s. s.above_boundary_exact_numerator) xs aboves
                (omega (int_laws, above_le, paid)),
            strike_exact-eq pinned w r.strike_value,
          )
          (amounts_of-exact _ _ _ _ _ (sum_of-nonnegative _ xs stations) paid
            (sum_of-nonnegative _ xs customers) totals.contributes)
