-- ===== src/Settlement/Posting.antt =====
-- The posting lines of packages/settlement-engine/src/index.ts and their balance.
use fuel_cap.Base.{String, ◌≡◌, refl, ◌∙◌, inl, inr, true, false, not, Bool-cases, arith}
use fuel_cap.Base.Int.{
  ℤ, pos, ◌+ℤ◌, ◌-ℤ◌, ◌≤ℤ◌, eqb_ℤ, ltb_ℤ, negate, negate_parts, int_laws, sum_of, sum_of-append,
}
use fuel_cap.Base.Sums.{where_, reduce_sum-filter}
use fuel_cap.Base.Products.{floor_div, ceil_div, at_least_zero, floor_div-le, lt-floor_div}
use fuel_cap.Settlement.{
  Side, debit, credit, PostingLine, SettlementAccounts, Amounts, floor_minor, ceil_minor,
  line_if_positive, line, posting_lines, is_side, side_total, is_unbalanced,
}
use fuel_cap.Settlement.Exact.{exact_amounts}

-- The amount of a line on a side, and none on the other.
abbrev on_side : Side → PostingLine → ℤ
on_side side = where_ (is_side side) (λ l. l.amount_minor)

zero_of : (n : ℤ) → pos 0 ≤ℤ n → ltb_ℤ (pos 0) n ≡ false → pos 0 ≡ n
zero_of n h e = ground arith

kept :
    (side : Side) (l : PostingLine)
    → is_side side l ≡ true
    → pos 0 ≤ℤ l.amount_minor
    → sum_of (on_side side) (line_if_positive l) ≡ l.amount_minor
kept side l k h = elim (Bool-cases (ltb_ℤ (pos 0) l.amount_minor)) [
  | inl e ↦ rw (e, k) (omega int_laws)
  | inr e ↦ rw e (zero_of l.amount_minor h e)
]

dropped :
    (side : Side) (l : PostingLine)
    → is_side side l ≡ false
    → sum_of (on_side side) (line_if_positive l) ≡ pos 0
dropped side l k = elim (Bool-cases (ltb_ℤ (pos 0) l.amount_minor)) [
  | inl e ↦ rw (e, k) (omega int_laws)
  | inr e ↦ rw e refl
]

-- No amount of the five lines is negative.
pub record IsNonnegative (n : Amounts) : Type 0 where
  pub reserved : pos 0 ≤ℤ n.reserved_debit_minor
  pub available : pos 0 ≤ℤ n.available_debit_minor
  pub pool : pos 0 ≤ℤ n.pool_contribution_minor
  pub release : pos 0 ≤ℤ n.lower_price_release_minor

module _ (id : String) (a : SettlementAccounts) (n : Amounts) (w : IsNonnegative n) where
  debit_total :
      side_total debit (posting_lines id a n)
      ≡ n.reserved_debit_minor +ℤ (n.available_debit_minor +ℤ n.pool_contribution_minor)
  unfolding posting_lines
  debit_total =
      reduce_sum-filter (is_side debit) (λ l. l.amount_minor) (posting_lines id a n)
      ∙ rw
          (
            sum_of-append,
            sum_of-append,
            sum_of-append,
            kept debit
                (line id ":RESERVED" a.customer_reserved_account_id debit n.reserved_debit_minor)
                refl w.reserved,
            kept debit
                (line id ":AVAILABLE-DEBIT" a.customer_available_account_id debit
                  n.available_debit_minor)
                refl w.available,
            kept debit
                (line id ":CLAIM" a.protection_claim_account_id debit n.pool_contribution_minor)
                refl w.pool,
            dropped debit
                (line id ":AVAILABLE-CREDIT" a.customer_available_account_id credit
                  n.lower_price_release_minor)
                refl,
          )
          (omega int_laws)

  credit_total :
      side_total credit (posting_lines id a n)
      ≡ n.station_payment_minor +ℤ n.lower_price_release_minor
  unfolding posting_lines
  credit_total =
      reduce_sum-filter (is_side credit) (λ l. l.amount_minor) (posting_lines id a n)
      ∙ rw
          (
            sum_of-append,
            sum_of-append,
            sum_of-append,
            dropped credit
                (line id ":RESERVED" a.customer_reserved_account_id debit n.reserved_debit_minor)
                refl,
            dropped credit
                (line id ":AVAILABLE-DEBIT" a.customer_available_account_id debit
                  n.available_debit_minor)
                refl,
            dropped credit
                (line id ":CLAIM" a.protection_claim_account_id debit n.pool_contribution_minor)
                refl,
            kept credit
                (line id ":AVAILABLE-CREDIT" a.customer_available_account_id credit
                  n.lower_price_release_minor)
                refl w.release,
          )
          (omega int_laws)

-- The floor of a numerator that covers another, less what it does not cover, rounded up.
floor-ceil : (c b s : ℤ) → s ≤ℤ c +ℤ b → floor_minor s ≤ℤ floor_minor c +ℤ ceil_minor b
unfolding ceil_div
floor-ceil c b s h = omega (
  int_laws,
  h,
  floor_div-le s,
  lt-floor_div c,
  lt-floor_div (negate b),
  floor_div-le (negate b),
  negate_parts b,
  negate_parts (floor_div (negate b) 1000000),
)

floor-half_up : (c s : ℤ) → c ≤ℤ s → floor_minor c ≤ℤ floor_div (s +ℤ pos 500000) 1000000
floor-half_up c s h = omega (int_laws, h, floor_div-le c, lt-floor_div (s +ℤ pos 500000))

floor-nonnegative : (a : ℤ) → pos 0 ≤ℤ a → pos 0 ≤ℤ floor_minor a
floor-nonnegative a h = omega (int_laws, lt-floor_div a)

ceil-nonnegative : (a : ℤ) → pos 0 ≤ℤ a → pos 0 ≤ℤ ceil_minor a
unfolding ceil_div
ceil-nonnegative a h =
    omega (
      int_laws,
      floor_div-le (negate a),
      negate_parts a,
      negate_parts (floor_div (negate a) 1000000),
    )

-- The exact sums that an allocation gives, when nothing in it is negative.
pub record IsCoherent (station customer benefit strike : ℤ) : Type 0 where
  pub covers : strike ≤ℤ customer +ℤ benefit
  pub contributes : customer ≤ℤ station
  pub benefit_nonnegative : pos 0 ≤ℤ benefit
  pub strike_nonnegative : pos 0 ≤ℤ strike

module _ (station customer benefit above strike : ℤ)
    (w : IsCoherent station customer benefit strike) where
  exact_amounts-IsNonnegative : IsNonnegative (exact_amounts station customer benefit above strike)
  unfolding exact_amounts
  exact_amounts-IsNonnegative = record {
    reserved = floor-nonnegative strike w.strike_nonnegative;
    available = bounded _;
    pool = omega (int_laws, floor-half_up customer station w.contributes);
    release = ceil-nonnegative benefit w.benefit_nonnegative;
  }
    where
      bounded : (a : ℤ) → pos 0 ≤ℤ at_least_zero a
      bounded a = grind int_laws

  -- The five lines balance, whatever the roundings were.
  pub posting_lines-balanced :
      (id : String) (a : SettlementAccounts)
      → is_unbalanced (posting_lines id a (exact_amounts station customer benefit above strike))
        ≡ false
  unfolding exact_amounts
  posting_lines-balanced id a =
      let n = exact_amounts station customer benefit above strike in
      rw
        (
          debit_total id a n exact_amounts-IsNonnegative,
          credit_total id a n exact_amounts-IsNonnegative,
        )
        (balance (floor_minor strike) (floor_minor customer) (ceil_minor benefit)
          (floor_div (station +ℤ pos 500000) 1000000) (floor-ceil customer benefit strike w.covers))
    where
      balance :
          (r c l s : ℤ)
          → r ≤ℤ c +ℤ l
          → not (eqb_ℤ (r +ℤ (at_least_zero (c +ℤ l -ℤ r) +ℤ (s -ℤ c))) (s +ℤ l)) ≡ false
      balance r c l s h = grind int_laws
