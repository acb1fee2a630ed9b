-- ===== src/Fx/Rounding.antt =====
-- What rates and conversions of packages/fx-engine/src/index.ts come to.
use fuel_cap.Base.{
  ℕ, String, ◌≡◌, sym, ap, ◌∙◌, subst, true, false, not, ◌||◌, Option, ◌==◌, ==-eq, string_eq, ok,
  >>-eq_ok, >>=-eq_ok, ok_eq, not-eq_false, ||-eq_false, arith, ◌+◌, ◌/◌,
}
use fuel_cap.Base.Int.{ℤ, pos, negsuc, ◌+ℤ◌, ◌≤ℤ◌, leb_ℤ, is_safe_integer, int_laws}
use fuel_cap.Base.Doubles.{to_double, to_double-nonnegative, to_double-safe}
use fuel_cap.Base.Products.{◌*ℤ◌, *ℤ_pos_parts, trunc_div}
use fuel_cap.Fx.{
  Currency, FxAdjustmentComponents, FxPair, FxReferenceObservation, CanonicalFxRate,
  FxAdjustmentPolicy, FxAdjustmentProposal, FxAdjustmentApproval, PublishedFxAdjustment,
  AppliedFxConversion, FxError, currency_eq, fx_rate_scale, rounded_ratio, pair_differs,
  validate_fx_observation, create_direct_canonical_rate, create_triangulated_canonical_rate,
  customer_rate, destination_amount, apply_fx_conversion, publish_fx_adjustment,
}
use fuel_cap.Fx.Governance.{IsWithin, publish-IsWithin}

-- `r` is `n / d` to the nearest whole number, a half rounded up.
pub IsNearest : ℤ → ℕ → ℤ → Type 0
IsNearest n d r = (r *ℤ pos d ≤ℤ n +ℤ pos (d / 2)) × (n +ℤ pos 1 ≤ℤ r *ℤ pos d +ℤ pos (d / 2))

pub nonnegative_*ℤ : (a b : ℤ) → pos 0 ≤ℤ a → pos 0 ≤ℤ b → pos 0 ≤ℤ a *ℤ b
unfolding ◌*ℤ◌
nonnegative_*ℤ (pos m) (pos n) h k = ground arith
nonnegative_*ℤ (pos m) (negsuc n) h k = ground arith
nonnegative_*ℤ (negsuc m) b h k = ground arith

rounded_pos : (n d : ℕ) → rounded_ratio (pos n) d ≡ pos ((n + d / 2) / d)
unfolding trunc_div ◌+ℤ◌
rounded_pos n d = ground arith

safe_le : (n : ℤ) → is_safe_integer n ≡ true → n ≤ℤ pos 9007199254740991
safe_le n h = ground arith

scale-IsNearest : (n : ℤ) → pos 0 ≤ℤ n → IsNearest n 1000000 (rounded_ratio n 1000000)
unfolding IsNearest
scale-IsNearest (pos n) h =
    let r : ℕ = (n + 500000) / 1000000 in
    rw (rounded_pos n 1000000) (
      omega (int_laws, *ℤ_pos_parts (pos r) 1000000),
      omega (int_laws, *ℤ_pos_parts (pos r) 1000000),
    )
scale-IsNearest (negsuc n) h = absurd (ground arith)

basis-IsNearest : (n : ℤ) → pos 0 ≤ℤ n → IsNearest n 10000 (rounded_ratio n 10000)
unfolding IsNearest
basis-IsNearest (pos n) h =
    let r : ℕ = (n + 5000) / 10000 in
    rw (rounded_pos n 10000)
      (omega (int_laws, *ℤ_pos_parts (pos r) 10000), omega (int_laws, *ℤ_pos_parts (pos r) 10000))
basis-IsNearest (negsuc n) h = absurd (ground arith)

nonnegative_rounded : (n : ℤ) (d : ℕ) → pos 0 ≤ℤ n → pos 0 ≤ℤ rounded_ratio n d
nonnegative_rounded (pos n) d h = rw (rounded_pos n d) (ground arith)
nonnegative_rounded (negsuc n) d h = absurd (ground arith)

-- The same of the number that a ratio becomes, where that is a safe integer.
number-IsNearest :
    (n : ℤ) (d : ℕ)
    → pos 0 ≤ℤ n
    → IsNearest n d (rounded_ratio n d)
    → is_safe_integer (to_double (rounded_ratio n d)) ≡ true
    → IsNearest n d (to_double (rounded_ratio n d))
number-IsNearest n d h near safe =
    let m = rounded_ratio n d in
    subst (IsNearest n d)
      (sym (to_double-safe m (nonnegative_rounded n d h) (safe_le (to_double m) safe))) near

positive-rate :
    (date_parse : String → Option ℤ) (o : FxReferenceObservation) (at : String) (age : ℤ)
    {u : Unit {0}}
    → validate_fx_observation date_parse o at age ≡ ok u
    → pos 0 ≤ℤ o.rate_6dp
unfolding validate_fx_observation
positive-rate date_parse o at age h =
    let (_, h₁) = >>-eq_ok _ FxError.pair_inconsistent _ h in
    let (positive, _) =
      >>-eq_ok (not (is_safe_integer o.rate_6dp) || leb_ℤ o.rate_6dp (pos 0)) FxError.rate_invalid _
        h₁ in
    above o.rate_6dp positive
  where
    above : (n : ℤ) → (not (is_safe_integer n) || leb_ℤ n (pos 0)) ≡ false → pos 0 ≤ℤ n
    above n q = ground arith

-- A rate that the engine made, from one observation or from two.
pub data IsCanonical (date_parse : String → Option ℤ) (rate : CanonicalFxRate) : Type 0 where
  from_one :
      (id : String) (o : FxReferenceObservation) (at : String) (age : ℤ)
      → create_direct_canonical_rate date_parse id o at age ≡ ok rate
      → IsCanonical date_parse rate
  from_two :
      (id : String) (first second : FxReferenceObservation) (output : FxPair) (pivot : Currency)
      (policy : FxAdjustmentPolicy) (at : String) (age : ℤ)
      → create_triangulated_canonical_rate date_parse id first second output pivot policy at age
        ≡ ok rate
      → IsCanonical date_parse rate

canonical-nonnegative :
    (date_parse : String → Option ℤ) (rate : CanonicalFxRate)
    → IsCanonical date_parse rate
    → pos 0 ≤ℤ rate.rate_6dp
unfolding create_direct_canonical_rate create_triangulated_canonical_rate
canonical-nonnegative date_parse rate (from_one id o at age h) =
    let (_, valid, h₁) = >>=-eq_ok (validate_fx_observation date_parse o at age) _ h in
    subst (λ r. pos 0 ≤ℤ r.rate_6dp) (ok_eq h₁) (positive-rate date_parse o at age valid)
canonical-nonnegative date_parse rate (from_two id first second output pivot policy at age h) =
    let (_, valid, h₁) = >>=-eq_ok (validate_fx_observation date_parse first at age) _ h in
    let (_, valid₂, h₂) = >>=-eq_ok (validate_fx_observation date_parse second at age) _ h₁ in
    let (_, h₃) = >>-eq_ok _ FxError.path_not_approved _ h₂ in
    subst (λ r. pos 0 ≤ℤ r.rate_6dp) (ok_eq h₃)
      (to_double-nonnegative _ (
        nonnegative_rounded (first.rate_6dp *ℤ second.rate_6dp) fx_rate_scale (
          nonnegative_*ℤ _ _ (positive-rate date_parse first at age valid)
            (positive-rate date_parse second at age valid₂))))

-- What a conversion comes to.
pub record IsConverted (amount : ℤ) (rate : CanonicalFxRate) (d : PublishedFxAdjustment)
    (c : AppliedFxConversion) : Type 0 where
  pub source : c.source_currency ≡ rate.base_currency
  pub destination : c.destination_currency ≡ rate.quote_currency
  pub customer_rate :
      IsNearest (rate.rate_6dp *ℤ (pos 10000 +ℤ d.total_adjustment_bps)) 10000 c.customer_rate_6dp
  pub at_least : rate.rate_6dp ≤ℤ c.customer_rate_6dp
  pub amount_rounded : IsNearest (amount *ℤ c.customer_rate_6dp) 1000000 c.destination_amount_minor

add_pos : (m n : ℕ) → pos m +ℤ pos n ≡ pos (m + n)
unfolding ◌+ℤ◌
add_pos m n = ground arith

adjusted-at_least :
    (rate total r : ℤ)
    → pos 0 ≤ℤ rate
    → pos 0 ≤ℤ total
    → IsNearest (rate *ℤ (pos 10000 +ℤ total)) 10000 r
    → rate ≤ℤ r
unfolding IsNearest
adjusted-at_least (pos m) (pos t) r h k near =
    let above = rw (add_pos 10000 t) at near.1 in
    omega (int_laws, *ℤ_pos_parts (pos m) (10000 + t), *ℤ_pos_parts r 10000, above)
adjusted-at_least (pos m) (negsuc t) r h k near = absurd (ground arith)
adjusted-at_least (negsuc m) total r h k near = absurd (ground arith)

adjustment-nonnegative :
    (c : FxAdjustmentComponents) (policy : FxAdjustmentPolicy) (total : ℤ)
    → IsWithin c policy total
    → pos 0 ≤ℤ total
adjustment-nonnegative c policy total w =
    subst (λ n. pos 0 ≤ℤ n) w.derived (omega (int_laws, w.cost, w.margin, w.reserve))

-- A conversion at a rate that the engine made, with an adjustment that it published, goes in the
-- direction of the rate. If the customer's rate and the amount that come out are safe integers, the
-- rate is the adjusted rate to the nearest millionth and never below the reference, and the amount is
-- that of the customer's rate to the nearest minor unit.
pub apply_fx_conversion-IsConverted :
    (date_parse : String → Option ℤ) (rate : CanonicalFxRate) (d : PublishedFxAdjustment)
    (p : FxAdjustmentProposal) (a : FxAdjustmentApproval) (policy : FxAdjustmentPolicy)
    (decision at id : String) (amount : ℤ) (source destination : Currency) (applied_at : String)
    (c : AppliedFxConversion)
    → IsCanonical date_parse rate
    → publish_fx_adjustment date_parse decision p a at policy ≡ ok d
    → apply_fx_conversion date_parse id amount source destination rate d applied_at ≡ ok c
    → is_safe_integer c.customer_rate_6dp ≡ true
    → is_safe_integer c.destination_amount_minor ≡ true
    → IsConverted amount rate d c
unfolding apply_fx_conversion customer_rate destination_amount
apply_fx_conversion-IsConverted date_parse rate d p a policy decision at id amount source
      destination applied_at c made published h safe_rate safe_amount =
    let (valid, h₁) =
      >>-eq_ok
        (not (is_safe_integer amount)
          || leb_ℤ amount (pos 0)
          || not (source == rate.base_currency)
          || not (destination == rate.quote_currency)
          || pair_differs rate.pair source destination)
        FxError.direction_mismatch _ h in
    let (_, h₂) = >>-eq_ok _ FxError.time_precedes _ h₁ in
    let (first, _) = ||-eq_false _ _ valid in
    let (second, to) = ||-eq_false _ _ first in
    let (third, from) = ||-eq_false _ _ second in
    let (_, positive) = ||-eq_false _ _ third in
    let (_, _, _, within, _) = publish-IsWithin date_parse decision p a at policy d published in
    let total = adjustment-nonnegative d.components policy d.total_adjustment_bps within in
    let reference = canonical-nonnegative date_parse rate made in
    let adjusted =
      nonnegative_*ℤ rate.rate_6dp (pos 10000 +ℤ d.total_adjustment_bps) reference
        (omega int_laws) in
    let near = number-IsNearest _ 10000 adjusted (basis-IsNearest _ adjusted) (
      ap (λ (q : AppliedFxConversion). is_safe_integer q.customer_rate_6dp) (ok_eq h₂)
      ∙ safe_rate) in
    let least = adjusted-at_least rate.rate_6dp d.total_adjustment_bps _ reference total near in
    let converted =
      nonnegative_*ℤ amount _ (above amount positive) (omega (int_laws, least, reference)) in
    subst (IsConverted amount rate d) (ok_eq h₂) (record {
      source = ==-eq _ _ (not-eq_false _ from);
      destination = ==-eq _ _ (not-eq_false _ to);
      customer_rate = near;
      at_least = least;
      amount_rounded = number-IsNearest _ 1000000 converted (scale-IsNearest _ converted) (
          ap (λ (q : AppliedFxConversion). is_safe_integer q.destination_amount_minor) (ok_eq h₂)
          ∙ safe_amount);
    })
  where
    above : (n : ℤ) → leb_ℤ n (pos 0) ≡ false → pos 0 ≤ℤ n
    above n q = ground arith
