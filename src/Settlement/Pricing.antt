-- ===== src/Settlement/Pricing.antt =====
-- The slices and amounts of `settlePurchase` in packages/settlement-engine/src/index.ts.
use fuel_cap.Base.{
  String, none, some, List, [], ◌∷◌, ◌++◌, map, Dict, lookup, insert, string_eq, if◌then◌else◌,
  Result, ok, err, ◌>>=◌,
}
use fuel_cap.Base.Int.{ℤ, pos, ◌+ℤ◌, ◌-ℤ◌, ltb_ℤ}
use fuel_cap.Base.Doubles.{to_double, rounded_sum}
use fuel_cap.Base.Products.{◌*ℤ◌, at_least_zero, min_ℤ}
use fuel_cap.Settlement.Types.{
  EvidenceLine, ProtectionTerms, SettlementCommand, SettlementSlice, Amounts, SettlementError,
  terms_missing,
}
use fuel_cap.Settlement.Checks.{denominator, floor_minor, ceil_minor, half_up_minor}

-- `new Map(command.terms.map(...))`: of two terms with one identity the later counts.
unfoldable pub terms_by_id :
    List ProtectionTerms → Dict String ProtectionTerms → Dict String ProtectionTerms
terms_by_id [] d = d
terms_by_id (t ∷ ts) d = terms_by_id ts (insert t.protection_transaction_id t d)

-- The look-up of the terms of each line.
unfoldable pub pin_lines :
    Dict String ProtectionTerms
    → List EvidenceLine
    → Result SettlementError (List (EvidenceLine × ProtectionTerms))
pin_lines terms [] = ok []
pin_lines terms (l ∷ ls) = elim (lookup l.protection_transaction_id terms) [
  | none ↦ err terms_missing
  | some t ↦ do rest ← pin_lines terms ls; ok ((l, t) ∷ rest)
]

-- `contributionPrice4dp`
abbrev pub contribution_price : ℤ → ProtectionTerms → ℤ
contribution_price pump t =
    at_least_zero (to_double (min_ℤ pump t.maximum_boundary_price_4dp -ℤ t.strike_price_4dp))

-- `exact`
abbrev pub exact : ℤ → ℤ → ℤ
exact price quantity = to_double (price *ℤ quantity)

-- The slice of a protected line.
unfoldable pub protected_slice : ℤ → EvidenceLine × ProtectionTerms → SettlementSlice
protected_slice pump p =
    let q = p.0.allocated_quantity_4dp in
    let t = p.1 in
    record {
      protection_transaction_id = some p.0.protection_transaction_id;
      quantity_4dp = q;
      strike_price_4dp = some t.strike_price_4dp;
      maximum_boundary_price_4dp = some t.maximum_boundary_price_4dp;
      station_exact_numerator = exact pump q;
      customer_exact_numerator = exact (to_double (pump -ℤ contribution_price pump t)) q;
      contribution_exact_numerator = exact (contribution_price pump t) q;
      lower_price_benefit_exact_numerator =
          exact (at_least_zero (to_double (t.strike_price_4dp -ℤ pump))) q;
      above_boundary_exact_numerator =
          exact (at_least_zero (to_double (pump -ℤ t.maximum_boundary_price_4dp))) q;
    }

-- The slice of the unprotected quantity, where there is one.
unfoldable pub unprotected_slices : ℤ → ℤ → List SettlementSlice
unprotected_slices pump q =
    if ltb_ℤ (pos 0) q
    then record {
      protection_transaction_id = none;
      quantity_4dp = q;
      strike_price_4dp = none;
      maximum_boundary_price_4dp = none;
      station_exact_numerator = exact pump q;
      customer_exact_numerator = exact pump q;
      contribution_exact_numerator = pos 0;
      lower_price_benefit_exact_numerator = pos 0;
      above_boundary_exact_numerator = pos 0;
    }
      ∷ []
    else []

-- `slices`
abbrev pub slices_of :
    SettlementCommand → List (EvidenceLine × ProtectionTerms) → List SettlementSlice
slices_of c pinned =
    map (protected_slice c.actual_pump_price_4dp) pinned
    ++ unprotected_slices c.actual_pump_price_4dp c.allocation.unprotected_quantity_4dp

-- `protectedStrikeExact`
abbrev pub strike_exact : List (EvidenceLine × ProtectionTerms) → ℤ
strike_exact pinned =
    rounded_sum (λ p. exact p.1.strike_price_4dp p.0.allocated_quantity_4dp) pinned

-- The amounts, from the sums of station, customer, benefit, excess and strikes.
unfoldable pub amounts_of : ℤ → ℤ → ℤ → ℤ → ℤ → Amounts
amounts_of station customer benefit above strikes =
    let station_payment = half_up_minor station in
    let customer_debit = floor_minor customer in
    let release = ceil_minor benefit in
    let reserved = floor_minor strikes in
    record {
      station_payment_minor = station_payment;
      customer_debit_minor = customer_debit;
      pool_contribution_minor = station_payment -ℤ customer_debit;
      reserved_debit_minor = reserved;
      available_debit_minor = at_least_zero (customer_debit +ℤ release -ℤ reserved);
      lower_price_release_minor = release;
      above_boundary_customer_minor = floor_minor above;
      rounding_residual_numerator =
          to_double (customer -ℤ to_double (customer_debit *ℤ pos denominator));
    }

abbrev pub settlement_amounts : SettlementCommand → List (EvidenceLine × ProtectionTerms) → Amounts
settlement_amounts c pinned =
    let slices = slices_of c pinned in
    amounts_of (rounded_sum (λ s. s.station_exact_numerator) slices)
      (rounded_sum (λ s. s.customer_exact_numerator) slices)
      (rounded_sum (λ s. s.lower_price_benefit_exact_numerator) slices)
      (rounded_sum (λ s. s.above_boundary_exact_numerator) slices) (strike_exact pinned)
