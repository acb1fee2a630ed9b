-- ===== src/Settlement/Exact.antt =====
-- The exact slices and amounts of a settlement, against which `settlePurchase` in
-- packages/settlement-engine/src/index.ts, which computes with doubles, is compared.
use fuel_cap.Base.{none, some, List, [], ◌∷◌, ◌++◌, map, if◌then◌else◌}
use fuel_cap.Base.Int.{ℤ, pos, ◌+ℤ◌, ◌-ℤ◌, ltb_ℤ, leb_ℤ, sum_of}
use fuel_cap.Base.Products.{◌*ℤ◌, floor_div, at_least_zero, min_ℤ}
use fuel_cap.Settlement.{
  EvidenceLine, ProtectionTerms, SettlementCommand, SettlementSlice, Amounts, floor_minor,
  ceil_minor,
}

abbrev pub Pinned : Type 0
Pinned = EvidenceLine × ProtectionTerms

abbrev pub exact_contribution : ℤ → ProtectionTerms → ℤ
exact_contribution pump t =
    at_least_zero (min_ℤ pump t.maximum_boundary_price_4dp -ℤ t.strike_price_4dp)

unfoldable pub exact_slice : ℤ → Pinned → SettlementSlice
exact_slice pump p =
    let q = p.0.allocated_quantity_4dp in
    let t = p.1 in
    record {
      protection_transaction_id = some p.0.protection_transaction_id;
      quantity_4dp = q;
      strike_price_4dp = some t.strike_price_4dp;
      maximum_boundary_price_4dp = some t.maximum_boundary_price_4dp;
      station_exact_numerator = pump *ℤ q;
      customer_exact_numerator = (pump -ℤ exact_contribution pump t) *ℤ q;
      contribution_exact_numerator = exact_contribution pump t *ℤ q;
      lower_price_benefit_exact_numerator = at_least_zero (t.strike_price_4dp -ℤ pump) *ℤ q;
      above_boundary_exact_numerator = at_least_zero (pump -ℤ t.maximum_boundary_price_4dp) *ℤ q;
    }

unfoldable pub exact_unprotected : ℤ → ℤ → List SettlementSlice
exact_unprotected pump q =
    if ltb_ℤ (pos 0) q
    then record {
      protection_transaction_id = none;
      quantity_4dp = q;
      strike_price_4dp = none;
      maximum_boundary_price_4dp = none;
      station_exact_numerator = pump *ℤ q;
      customer_exact_numerator = pump *ℤ q;
      contribution_exact_numerator = pos 0;
      lower_price_benefit_exact_numerator = pos 0;
      above_boundary_exact_numerator = pos 0;
    }
      ∷ []
    else []

abbrev pub exact_slices : SettlementCommand → List Pinned → List SettlementSlice
exact_slices c pinned =
    map (exact_slice c.actual_pump_price_4dp) pinned
    ++ exact_unprotected c.actual_pump_price_4dp c.allocation.unprotected_quantity_4dp

unfoldable pub exact_amounts : ℤ → ℤ → ℤ → ℤ → ℤ → Amounts
exact_amounts station customer benefit above strikes =
    let station_payment = floor_div (station +ℤ pos 500000) 1000000 in
    let customer_debit = floor_minor customer in
    let release = ceil_minor benefit in
    let reserved = floor_minor strikes in
    record {
      station_payment_minor = station_payment;
      customer_debit_minor = customer_debit;
      pool_contribution_minor = station_payment -ℤ customer_debit;
      reserved_debit_minor = reserved;
      available_debit_minor = at_least_zero (customer_debit +ℤ release -ℤ reserved);
      lower_price_release_minor = release;
      above_boundary_customer_minor = floor_minor above;
      rounding_residual_numerator = customer -ℤ customer_debit *ℤ pos 1000000;
    }

-- What a customer pays for a protected unit: the pump price up to the strike price, the strike price
-- up to the boundary, and above that the strike price and what the pump is above the boundary.
abbrev pub charged_price : ℤ → ProtectionTerms → ℤ
charged_price pump t =
    if leb_ℤ pump t.strike_price_4dp
    then pump
    else if leb_ℤ pump t.maximum_boundary_price_4dp
    then t.strike_price_4dp
    else t.strike_price_4dp +ℤ (pump -ℤ t.maximum_boundary_price_4dp)

-- The exact values of a purchase, in millionths of a minor unit: at the pump, to the customer, and
-- at the strike prices.
abbrev pub pump_value : SettlementCommand → List Pinned → ℤ
pump_value c pinned =
    let pump = c.actual_pump_price_4dp in
    sum_of (λ (p : Pinned). pump *ℤ p.0.allocated_quantity_4dp) pinned
    +ℤ pump *ℤ at_least_zero c.allocation.unprotected_quantity_4dp

abbrev pub charged_value : SettlementCommand → List Pinned → ℤ
charged_value c pinned =
    let pump = c.actual_pump_price_4dp in
    sum_of (λ (p : Pinned). charged_price pump p.1 *ℤ p.0.allocated_quantity_4dp) pinned
    +ℤ pump *ℤ at_least_zero c.allocation.unprotected_quantity_4dp

abbrev pub strike_of : Pinned → ℤ
strike_of p = p.1.strike_price_4dp *ℤ p.0.allocated_quantity_4dp
