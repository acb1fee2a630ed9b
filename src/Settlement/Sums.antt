-- ===== src/Settlement/Sums.antt =====
-- The sums over the exact slices of a settlement in packages/settlement-engine/src/index.ts.
use fuel_cap.Base.{
  true, false, if◌then◌else◌, ◌≡◌, refl, sym, ap, ap₂, ◌∙◌, inl, inr, List, [], ◌∷◌, map, All,
  Bool-cases, arith,
}
use fuel_cap.Base.Int.{ℤ, pos, negsuc, ◌+ℤ◌, ◌-ℤ◌, ◌≤ℤ◌, ltb_ℤ, leb_ℤ, int_laws, sum_of}
use fuel_cap.Base.Products.{◌*ℤ◌, *ℤ-le, *ℤ_pos_parts, at_least_zero, min_ℤ}
use fuel_cap.Base.Doubles.{to_double-nonnegative, sum_of-bounded, rounded_sum-exact}
use fuel_cap.Settlement.{SettlementSlice, exact, strike_exact}
use fuel_cap.Settlement.Exact.{Pinned, exact_slice, exact_unprotected, charged_price, strike_of}
use fuel_cap.Settlement.Slices.{
  IsSensible, station_total, customer_total, benefit_total, at_least_zero-nonnegative,
}
use fuel_cap.Settlement.Range.{
  product_nonnegative, at_least_zero-le, strikes_nonnegative, product-exact,
}

-- No numerator of a slice is negative, and what a customer pays above the boundary is at most the
-- pump's value.
pub record IsBounded (s : SettlementSlice) : Type 0 where
  pub station : pos 0 ≤ℤ s.station_exact_numerator
  pub customer : pos 0 ≤ℤ s.customer_exact_numerator
  pub benefit : pos 0 ≤ℤ s.lower_price_benefit_exact_numerator
  pub above : pos 0 ≤ℤ s.above_boundary_exact_numerator
  pub above_le : s.above_boundary_exact_numerator ≤ℤ s.station_exact_numerator

pub All-imply :
    {P Q : SettlementSlice → Type 0}
    → ((s : SettlementSlice) → P s → Q s)
    → (xs : List SettlementSlice) → All P xs
    → All Q xs
All-imply f [] h = tt
All-imply f (x ∷ xs) h = (f x h.0, All-imply f xs h.1)

product-le : (a b q : ℤ) → a ≤ℤ b → pos 0 ≤ℤ q → a *ℤ q ≤ℤ b *ℤ q
product-le a b (pos n) h k = *ℤ-le a b n h
product-le a b (negsuc n) h k = absurd (ground arith)

exact_slice-IsBounded :
    (pump : ℤ) (p : Pinned) → pos 0 ≤ℤ pump → IsSensible p → IsBounded (exact_slice pump p)
unfolding exact_slice
exact_slice-IsBounded pump p h (quantity, low, high, order) =
    let strike = p.1.strike_price_4dp in
    let bound = p.1.maximum_boundary_price_4dp in
    record {
      station = product_nonnegative _ _ h quantity;
      customer = product_nonnegative _ _ (charged pump strike bound h low) quantity;
      benefit = product_nonnegative _ _ (at_least_zero-nonnegative (strike -ℤ pump)) quantity;
      above = product_nonnegative _ _ (at_least_zero-nonnegative (pump -ℤ bound)) quantity;
      above_le =
          product-le _ pump _
            (at_least_zero-le (pump -ℤ bound) pump (omega (int_laws, low, order)) h) quantity;
    }
  where
    charged : (p s b : ℤ) → pos 0 ≤ℤ p → pos 0 ≤ℤ s → pos 0 ≤ℤ p -ℤ at_least_zero (min_ℤ p b -ℤ s)
    charged p s b h k = grind int_laws

pub exact_unprotected-IsBounded :
    (pump q : ℤ) → pos 0 ≤ℤ pump → All IsBounded (exact_unprotected pump q)
unfolding exact_unprotected
exact_unprotected-IsBounded pump q h = elim (Bool-cases (ltb_ℤ (pos 0) q)) [
  | inl e ↦
      let value = product_nonnegative pump q h (positive q e) in
      rw e (
        record {
          station = value;
          customer = value;
          benefit = omega int_laws;
          above = omega int_laws;
          above_le = omega (int_laws, value);
        },
        tt,
      )
  | inr e ↦ rw e tt
]
  where
    positive : (q : ℤ) → ltb_ℤ (pos 0) q ≡ true → pos 0 ≤ℤ q
    positive q e = ground arith

pub All-exact_slice :
    (pump : ℤ) (pinned : List Pinned)
    → pos 0 ≤ℤ pump
    → All IsSensible pinned
    → All IsBounded (map (exact_slice pump) pinned)
All-exact_slice pump [] h w = tt
All-exact_slice pump (p ∷ ps) h w =
    (exact_slice-IsBounded pump p h w.0, All-exact_slice pump ps h w.1)

times_zero : (a : ℤ) → a *ℤ pos 0 ≡ pos 0
times_zero a = omega (int_laws, *ℤ_pos_parts a 0)

no_quantity : (pump q : ℤ) → ltb_ℤ (pos 0) q ≡ false → pos 0 ≡ pump *ℤ at_least_zero q
no_quantity pump q e = sym (ap (λ n. pump *ℤ n) (zero q e) ∙ times_zero pump)
  where
    zero : (q : ℤ) → ltb_ℤ (pos 0) q ≡ false → at_least_zero q ≡ pos 0
    zero q e = ground arith

some_quantity : (pump q : ℤ) → ltb_ℤ (pos 0) q ≡ true → pump *ℤ q +ℤ pos 0 ≡ pump *ℤ at_least_zero q
some_quantity pump (pos n) e = omega int_laws
some_quantity pump (negsuc n) e = absurd (ground arith)

-- What the rest of the purchase adds to each sum.
pub record IsRest (pump q : ℤ) (slices : List SettlementSlice) : Type 0 where
  pub station : station_total slices ≡ pump *ℤ at_least_zero q
  pub customer : customer_total slices ≡ pump *ℤ at_least_zero q
  pub benefit : benefit_total slices ≡ pos 0

pub exact_unprotected-IsRest : (pump q : ℤ) → IsRest pump q (exact_unprotected pump q)
unfolding exact_unprotected
exact_unprotected-IsRest pump q = elim (Bool-cases (ltb_ℤ (pos 0) q)) [
  | inl e ↦ rw e (record {
    station = some_quantity pump q e;
    customer = some_quantity pump q e;
    benefit = omega int_laws;
  })
  | inr e ↦
      rw e
        (record { station = no_quantity pump q e; customer = no_quantity pump q e; benefit = refl })
]

-- The price of a protected unit, case by case.
charged_price-eq :
    (pump strike bound : ℤ)
    → strike ≤ℤ bound
    → pump -ℤ at_least_zero (min_ℤ pump bound -ℤ strike) ≡ (
        if leb_ℤ pump strike
        then pump
        else if leb_ℤ pump bound
        then strike
        else strike +ℤ (pump -ℤ bound))
charged_price-eq pump strike bound h = grind int_laws

pub station-sum :
    (pump : ℤ) (pinned : List Pinned)
    → station_total (map (exact_slice pump) pinned)
      ≡ sum_of (λ (p : Pinned). pump *ℤ p.0.allocated_quantity_4dp) pinned
unfolding exact_slice
station-sum pump [] = refl
station-sum pump (p ∷ ps) = ap (λ n. pump *ℤ p.0.allocated_quantity_4dp +ℤ n) (station-sum pump ps)

pub customer-sum :
    (pump : ℤ) (pinned : List Pinned)
    → All IsSensible pinned
    → customer_total (map (exact_slice pump) pinned)
      ≡ sum_of (λ (p : Pinned). charged_price pump p.1 *ℤ p.0.allocated_quantity_4dp) pinned
unfolding exact_slice
customer-sum pump [] w = refl
customer-sum pump (p ∷ ps) ((_, _, _, order), w) =
    ap₂ (λ m n. m *ℤ p.0.allocated_quantity_4dp +ℤ n) (charged_price-eq pump _ _ order)
      (customer-sum pump ps w)

pub benefit-sum :
    (pump : ℤ) (pinned : List Pinned)
    → pos 0 ≤ℤ pump
    → All IsSensible pinned
    → benefit_total (map (exact_slice pump) pinned) ≤ℤ sum_of strike_of pinned
unfolding exact_slice
benefit-sum pump [] h w = omega int_laws
benefit-sum pump (p ∷ ps) h ((quantity, low, _, _), w) =
    let strike = p.1.strike_price_4dp in
    omega (
      int_laws,
      product-le _ strike p.0.allocated_quantity_4dp
          (at_least_zero-le (strike -ℤ pump) strike (omega int_laws) low) quantity,
      benefit-sum pump ps h w,
    )

strike_exact-sum :
    (pinned : List Pinned)
    → All IsSensible pinned
    → All (λ p. strike_of p ≤ℤ pos 9007199254740992) pinned
    → sum_of (λ (p : Pinned). exact p.1.strike_price_4dp p.0.allocated_quantity_4dp) pinned
      ≡ sum_of strike_of pinned
strike_exact-sum [] w h = refl
strike_exact-sum (p ∷ ps) ((quantity, low, _, _), w) h =
    ap₂ (λ m n. m +ℤ n)
      (product-exact p.1.strike_price_4dp p.1.strike_price_4dp p.0.allocated_quantity_4dp quantity
        low (omega arith) h.0)
      (strike_exact-sum ps w h.1)

exact_nonnegative :
    (pinned : List Pinned)
    → All IsSensible pinned
    → All (λ (p : Pinned). pos 0 ≤ℤ exact p.1.strike_price_4dp p.0.allocated_quantity_4dp) pinned
exact_nonnegative [] w = tt
exact_nonnegative (p ∷ ps) ((quantity, low, _, _), w) =
    (to_double-nonnegative _ (product_nonnegative _ _ low quantity), exact_nonnegative ps w)

pub strike_exact-eq :
    (pinned : List Pinned)
    → All IsSensible pinned
    → sum_of strike_of pinned ≤ℤ pos 9007199254740992
    → strike_exact pinned ≡ sum_of strike_of pinned
strike_exact-eq pinned w h =
    let same =
      strike_exact-sum pinned w
        (sum_of-bounded strike_of pinned (pos 9007199254740992) (strikes_nonnegative pinned w) h) in
    rounded_sum-exact _ pinned (exact_nonnegative pinned w) (rw same h) ∙ same
