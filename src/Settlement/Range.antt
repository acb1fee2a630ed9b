-- ===== src/Settlement/Range.antt =====
-- Where the doubles of packages/settlement-engine/src/index.ts are exact.
use fuel_cap.Base.{ℕ, false, ◌≡◌, refl, ap₂, List, [], ◌∷◌, ◌++◌, map, All, arith}
use fuel_cap.Base.Int.{ℤ, pos, negsuc, ◌+ℤ◌, ◌-ℤ◌, ◌≤ℤ◌, ltb_ℤ, int_laws, sum_of}
use fuel_cap.Base.Products.{◌*ℤ◌, *ℤ-le, at_least_zero, min_ℤ}
use fuel_cap.Base.Doubles.{
  to_double, to_double-exact, at_least_zero-to_double, sum_of-nonnegative, sum_of-bounded,
}
use fuel_cap.Settlement.{SettlementCommand, exact, protected_slice, unprotected_slices, slices_of}
use fuel_cap.Settlement.Exact.{
  Pinned, exact_slice, exact_unprotected, exact_slices, pump_value, strike_of,
}
use fuel_cap.Settlement.Slices.{
  IsSensible, scaled_nonnegative, price_contributes, at_least_zero-nonnegative,
}

-- Below 2 ^ 53 by the half unit that rounding adds.
pub record IsInRange (c : SettlementCommand) (pinned : List Pinned) : Type 0 where
  pub pump_price : c.actual_pump_price_4dp ≤ℤ pos 9007199254740991
  pub pump_value : pump_value c pinned +ℤ pos 500000 ≤ℤ pos 9007199254740992
  pub strike_value : sum_of strike_of pinned ≤ℤ pos 9007199254740992

module _ (pump strike bound : ℤ) (positive : pos 0 ≤ℤ pump) (safe : pump ≤ℤ pos 9007199254740991)
    (low : pos 0 ≤ℤ strike) (high : strike ≤ℤ pos 9007199254740991) (order : strike ≤ℤ bound) where
  difference-exact :
      at_least_zero (to_double (min_ℤ pump bound -ℤ strike))
      ≡ at_least_zero (min_ℤ pump bound -ℤ strike)
  difference-exact = at_least_zero-to_double _ (below pump strike bound safe low)
    where
      below :
          (p s b : ℤ)
          → p ≤ℤ pos 9007199254740991
          → pos 0 ≤ℤ s
          → min_ℤ p b -ℤ s ≤ℤ pos 9007199254740992
      below p s b h k = grind int_laws

  benefit-exact : at_least_zero (to_double (strike -ℤ pump)) ≡ at_least_zero (strike -ℤ pump)
  benefit-exact = at_least_zero-to_double _ (omega int_laws)

  above-exact : at_least_zero (to_double (pump -ℤ bound)) ≡ at_least_zero (pump -ℤ bound)
  above-exact = at_least_zero-to_double _ (omega int_laws)

  customer_nonnegative : pos 0 ≤ℤ pump -ℤ at_least_zero (min_ℤ pump bound -ℤ strike)
  customer_nonnegative = grind int_laws

  customer-exact :
      to_double (pump -ℤ at_least_zero (min_ℤ pump bound -ℤ strike))
      ≡ pump -ℤ at_least_zero (min_ℤ pump bound -ℤ strike)
  customer-exact =
      to_double-exact _ customer_nonnegative
        (omega (int_laws, safe, price_contributes pump strike bound))

-- A product with a quantity, of a price that is at most another whose product is in range.
pub product-exact :
    (a b q : ℤ)
    → pos 0 ≤ℤ q
    → pos 0 ≤ℤ a
    → a ≤ℤ b
    → b *ℤ q ≤ℤ pos 9007199254740992
    → exact a q ≡ a *ℤ q
product-exact a b (pos n) h k l m =
    to_double-exact (a *ℤ pos n) (scaled_nonnegative a n k) (omega (int_laws, *ℤ-le a b n l, m))
product-exact a b (negsuc n) h k l m = absurd (ground arith)

pub product_nonnegative : (a q : ℤ) → pos 0 ≤ℤ a → pos 0 ≤ℤ q → pos 0 ≤ℤ a *ℤ q
product_nonnegative a (pos n) h k = scaled_nonnegative a n h
product_nonnegative a (negsuc n) h k = absurd (ground arith)

pub at_least_zero-le : (a b : ℤ) → a ≤ℤ b → pos 0 ≤ℤ b → at_least_zero a ≤ℤ b
at_least_zero-le a b h k = grind int_laws

contributed-le :
    (pump strike bound : ℤ)
    → pos 0 ≤ℤ pump
    → pos 0 ≤ℤ strike
    → at_least_zero (min_ℤ pump bound -ℤ strike) ≤ℤ pump
contributed-le pump strike bound h k = grind int_laws

protected_slice-exact :
    (pump : ℤ) (p : Pinned)
    → pos 0 ≤ℤ pump
    → pump ≤ℤ pos 9007199254740991
    → IsSensible p
    → pump *ℤ p.0.allocated_quantity_4dp ≤ℤ pos 9007199254740992
    → strike_of p ≤ℤ pos 9007199254740992
    → protected_slice pump p ≡ exact_slice pump p
unfolding protected_slice exact_slice
protected_slice-exact pump p positive safe (quantity, low, high, order) station strikes =
    let q = p.0.allocated_quantity_4dp in
    let strike = p.1.strike_price_4dp in
    let bound = p.1.maximum_boundary_price_4dp in
    let contributed = difference-exact pump strike bound positive safe low high order in
    let charged = customer-exact pump strike bound positive safe low high order in
    let benefit = benefit-exact pump strike bound positive safe low high order in
    let above = above-exact pump strike bound positive safe low high order in
    rw
      (
        contributed,
        charged,
        benefit,
        above,
        product-exact pump pump q quantity positive (omega arith) station,
        product-exact _ pump q quantity
            (customer_nonnegative pump strike bound positive safe low high order)
            (price_contributes pump strike bound) station,
        product-exact _ pump q quantity (at_least_zero-nonnegative (min_ℤ pump bound -ℤ strike))
            (contributed-le pump strike bound positive low) station,
        product-exact _ strike q quantity (at_least_zero-nonnegative (strike -ℤ pump))
            (at_least_zero-le (strike -ℤ pump) strike (omega int_laws) low) strikes,
        product-exact _ pump q quantity (at_least_zero-nonnegative (pump -ℤ bound))
            (at_least_zero-le (pump -ℤ bound) pump (omega int_laws) positive) station,
      )
      refl

unprotected_slices-exact :
    (pump q : ℤ)
    → pos 0 ≤ℤ pump
    → pump *ℤ at_least_zero q ≤ℤ pos 9007199254740992
    → unprotected_slices pump q ≡ exact_unprotected pump q
unfolding unprotected_slices exact_unprotected
unprotected_slices-exact pump (pos n) positive h =
    rw (product-exact pump pump (pos n) (omega arith) positive (omega arith) h) refl
unprotected_slices-exact pump (negsuc n) positive h = rw (negative n) refl
  where
    negative : (n : ℕ) → ltb_ℤ (pos 0) (negsuc n) ≡ false
    negative n = ground arith

map-exact :
    (pump : ℤ) (pinned : List Pinned)
    → pos 0 ≤ℤ pump
    → pump ≤ℤ pos 9007199254740991
    → All IsSensible pinned
    → All (λ (p : Pinned). pump *ℤ p.0.allocated_quantity_4dp ≤ℤ pos 9007199254740992) pinned
    → All (λ p. strike_of p ≤ℤ pos 9007199254740992) pinned
    → map (protected_slice pump) pinned ≡ map (exact_slice pump) pinned
map-exact pump [] h k w s t = refl
map-exact pump (p ∷ ps) h k w s t =
    ap₂ (λ x xs. x ∷ xs) (protected_slice-exact pump p h k w.0 s.0 t.0)
      (map-exact pump ps h k w.1 s.1 t.1)

pump_nonnegative :
    (pump : ℤ) (pinned : List Pinned)
    → pos 0 ≤ℤ pump
    → All IsSensible pinned
    → All (λ (p : Pinned). pos 0 ≤ℤ pump *ℤ p.0.allocated_quantity_4dp) pinned
pump_nonnegative pump [] h w = tt
pump_nonnegative pump (p ∷ ps) h w =
    (product_nonnegative pump _ h w.0.0, pump_nonnegative pump ps h w.1)

pub strikes_nonnegative :
    (pinned : List Pinned) → All IsSensible pinned → All (λ p. pos 0 ≤ℤ strike_of p) pinned
strikes_nonnegative [] w = tt
strikes_nonnegative (p ∷ ps) w = (product_nonnegative _ _ w.0.1 w.0.0, strikes_nonnegative ps w.1)

module _ (c : SettlementCommand) (pinned : List Pinned)
    (positive : pos 0 ≤ℤ c.actual_pump_price_4dp) (w : All IsSensible pinned)
    (r : IsInRange c pinned) where
  abbrev quantity_value : ℤ
  quantity_value =
      sum_of (λ (p : Pinned). c.actual_pump_price_4dp *ℤ p.0.allocated_quantity_4dp) pinned

  abbrev rest_value : ℤ
  rest_value = c.actual_pump_price_4dp *ℤ at_least_zero c.allocation.unprotected_quantity_4dp

  rest_nonnegative : pos 0 ≤ℤ rest_value
  rest_nonnegative = product_nonnegative _ _ positive (at_least_zero-nonnegative _)

  quantity_nonnegative : pos 0 ≤ℤ quantity_value
  quantity_nonnegative = sum_of-nonnegative _ pinned (pump_nonnegative _ pinned positive w)

  -- In range, the slices of the code are exact.
  pub slices_of-exact : slices_of c pinned ≡ exact_slices c pinned
  slices_of-exact =
      let pump = c.actual_pump_price_4dp in
      ap₂ (λ xs ys. xs ++ ys)
        (map-exact pump pinned positive r.pump_price w
          (sum_of-bounded _ pinned (pos 9007199254740992) (pump_nonnegative pump pinned positive w)
            (omega (int_laws, r.pump_value, rest_nonnegative)))
          (sum_of-bounded strike_of pinned (pos 9007199254740992) (strikes_nonnegative pinned w)
            r.strike_value))
        (unprotected_slices-exact pump c.allocation.unprotected_quantity_4dp positive
          (omega (int_laws, r.pump_value, quantity_nonnegative)))
