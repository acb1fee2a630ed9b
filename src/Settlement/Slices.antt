-- ===== src/Settlement/Slices.antt =====
-- The exact numerators of the slices of packages/settlement-engine/src/index.ts.
use fuel_cap.Base.{
  ℕ, ◌≡◌, refl, subst, inl, inr, false, List, [], ◌∷◌, ◌++◌, map, All, Bool-cases, arith,
}
use fuel_cap.Base.Int.{ℤ, pos, negsuc, ◌+ℤ◌, ◌-ℤ◌, ◌≤ℤ◌, ltb_ℤ, int_laws, sum_of, sum_of-append}
use fuel_cap.Base.Products.{◌*ℤ◌, *ℤ-le, add_*ℤ, at_least_zero, min_ℤ, zero_*ℤ}
use fuel_cap.Settlement.{EvidenceLine, ProtectionTerms, SettlementSlice}
use fuel_cap.Settlement.Exact.{
  Pinned, exact_contribution, exact_slice, exact_unprotected, strike_of,
}

-- The price facts of one protected line, before quantities.
price_covers :
    (pump strike bound : ℤ)
    → strike ≤ℤ pump -ℤ at_least_zero (min_ℤ pump bound -ℤ strike) +ℤ at_least_zero (strike -ℤ pump)
price_covers pump strike bound = grind int_laws

pub price_contributes :
    (pump strike bound : ℤ) → pump -ℤ at_least_zero (min_ℤ pump bound -ℤ strike) ≤ℤ pump
price_contributes pump strike bound = grind int_laws

pub at_least_zero-nonnegative : (a : ℤ) → pos 0 ≤ℤ at_least_zero a
at_least_zero-nonnegative a = grind int_laws

-- What allocation and terms promise: no negative quantity or strike price, a strike price that is a
-- safe integer, and a boundary that is not below it.
abbrev pub IsSensible : Pinned → Type 0
IsSensible p =
    (pos 0 ≤ℤ p.0.allocated_quantity_4dp)
    × (pos 0 ≤ℤ p.1.strike_price_4dp)
    × (p.1.strike_price_4dp ≤ℤ pos 9007199254740991)
    × (p.1.strike_price_4dp ≤ℤ p.1.maximum_boundary_price_4dp)

-- What a protected slice has, on the exact numerators.
record IsCovered (s : SettlementSlice) (strike : ℤ) : Type 0 where
  covers : strike ≤ℤ s.customer_exact_numerator +ℤ s.lower_price_benefit_exact_numerator
  contributes : s.customer_exact_numerator ≤ℤ s.station_exact_numerator
  benefit : pos 0 ≤ℤ s.lower_price_benefit_exact_numerator
  strikes : pos 0 ≤ℤ strike

pub scaled_nonnegative : (a : ℤ) (n : ℕ) → pos 0 ≤ℤ a → pos 0 ≤ℤ a *ℤ pos n
scaled_nonnegative a n h = subst (λ x. x ≤ℤ a *ℤ pos n) (zero_*ℤ n) (*ℤ-le (pos 0) a n h)

exact_slice-IsCovered :
    (pump : ℤ) (l : EvidenceLine) (t : ProtectionTerms) (q : ℤ)
    → l.allocated_quantity_4dp ≡ q
    → pos 0 ≤ℤ q
    → pos 0 ≤ℤ t.strike_price_4dp
    → IsCovered (exact_slice pump (l, t)) (strike_of (l, t))
unfolding exact_slice
exact_slice-IsCovered pump l t (negsuc n) e h k = absurd (omega (arith, h))
exact_slice-IsCovered pump l t (pos n) e h k =
    let strike = t.strike_price_4dp in
    let bound = t.maximum_boundary_price_4dp in
    let customer = pump -ℤ exact_contribution pump t in
    let benefit = at_least_zero (strike -ℤ pump) in
    rw e (record {
      covers =
          subst (λ x. strike *ℤ pos n ≤ℤ x) (add_*ℤ customer benefit n)
            (*ℤ-le strike (customer +ℤ benefit) n (price_covers pump strike bound));
      contributes = *ℤ-le customer pump n (price_contributes pump strike bound);
      benefit = scaled_nonnegative benefit n (at_least_zero-nonnegative (strike -ℤ pump));
      strikes = scaled_nonnegative strike n k;
    })

abbrev pub station_total : List SettlementSlice → ℤ
station_total = sum_of (λ s. s.station_exact_numerator)

abbrev pub customer_total : List SettlementSlice → ℤ
customer_total = sum_of (λ s. s.customer_exact_numerator)

abbrev pub benefit_total : List SettlementSlice → ℤ
benefit_total = sum_of (λ s. s.lower_price_benefit_exact_numerator)

-- The same of the sums over a list of slices.
pub record IsTotalled (slices : List SettlementSlice) (strike : ℤ) : Type 0 where
  pub covers : strike ≤ℤ customer_total slices +ℤ benefit_total slices
  pub contributes : customer_total slices ≤ℤ station_total slices
  pub benefit : pos 0 ≤ℤ benefit_total slices
  pub strikes : pos 0 ≤ℤ strike

empty-IsTotalled : IsTotalled [] (pos 0)
empty-IsTotalled = record {
  covers = omega int_laws;
  contributes = omega int_laws;
  benefit = omega int_laws;
  strikes = omega int_laws;
}

exact_slices-IsTotalled :
    (pump : ℤ) (pinned : List Pinned)
    → All IsSensible pinned
    → IsTotalled (map (exact_slice pump) pinned) (sum_of strike_of pinned)
exact_slices-IsTotalled pump [] h = empty-IsTotalled
exact_slices-IsTotalled pump ((l, t) ∷ ps) h =
    let w = exact_slice-IsCovered pump l t l.allocated_quantity_4dp refl h.0.0 h.0.1 in
    let v = exact_slices-IsTotalled pump ps h.1 in
    record {
      covers = omega (int_laws, w.covers, v.covers);
      contributes = omega (int_laws, w.contributes, v.contributes);
      benefit = omega (int_laws, w.benefit, v.benefit);
      strikes = omega (int_laws, w.strikes, v.strikes);
    }

negative : (n : ℕ) → ltb_ℤ (pos 0) (negsuc n) ≡ false
negative n = ground arith

exact_unprotected-IsTotalled :
    (pump q : ℤ) → pos 0 ≤ℤ pump → IsTotalled (exact_unprotected pump q) (pos 0)
unfolding exact_unprotected
exact_unprotected-IsTotalled pump (negsuc n) h = rw (negative n) empty-IsTotalled
exact_unprotected-IsTotalled pump (pos n) h = elim (Bool-cases (ltb_ℤ (pos 0) (pos n))) [
  | inl e ↦
      let k = scaled_nonnegative pump n h in
      rw e (record {
        covers = omega (int_laws, k);
        contributes = omega int_laws;
        benefit = omega int_laws;
        strikes = omega int_laws;
      })
  | inr e ↦ rw e empty-IsTotalled
]

append-IsTotalled :
    (xs ys : List SettlementSlice) (m n : ℤ)
    → IsTotalled xs m
    → IsTotalled ys n
    → IsTotalled (xs ++ ys) (m +ℤ n)
append-IsTotalled xs ys m n v w =
    let station = sum_of-append (λ s. s.station_exact_numerator) xs ys in
    let customer = sum_of-append (λ s. s.customer_exact_numerator) xs ys in
    let benefit = sum_of-append (λ s. s.lower_price_benefit_exact_numerator) xs ys in
    record {
      covers = rw (customer, benefit) (omega (int_laws, v.covers, w.covers));
      contributes = rw (customer, station) (omega (int_laws, v.contributes, w.contributes));
      benefit = rw benefit (omega (int_laws, v.benefit, w.benefit));
      strikes = omega (int_laws, v.strikes, w.strikes);
    }

-- The slices of a command whose quantities, strike prices and pump price are not negative.
pub slices-IsTotalled :
    (pump q : ℤ) (pinned : List Pinned)
    → pos 0 ≤ℤ pump
    → All IsSensible pinned
    → IsTotalled
        (map (exact_slice pump) pinned ++ exact_unprotected pump q)
        (sum_of strike_of pinned)
slices-IsTotalled pump q pinned h k =
    subst (IsTotalled (map (exact_slice pump) pinned ++ exact_unprotected pump q)) (add_zero _) (
      append-IsTotalled _ _ _ (pos 0) (exact_slices-IsTotalled pump pinned k)
        (exact_unprotected-IsTotalled pump q h))
  where
    add_zero : (n : ℤ) → n +ℤ pos 0 ≡ n
    add_zero n = omega int_laws
