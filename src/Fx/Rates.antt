-- ===== src/Fx/Rates.antt =====
-- Observations and canonical rates of packages/fx-engine/src/index.ts. `date_parse` is `Date.parse`,
-- `none` for NaN. Numbers are integers; `Number` of a `BigInt` is `to_double`, which rounds above
-- 2 ^ 53.
use Prim.Native.Char.{code}
use Prim.Native.String.{String, count}
use fuel_cap.Base.{
  ℕ, ◌/◌, ◌≡◌, Bool, true, false, not, ◌&&◌, ◌||◌, ◌↔◌, Option, none, some, [], ◌∷◌, Eq, ◌==◌,
  string_eq, nat_beq, leb, includes, is_some, Result, ok, ◌>>◌, throw_if, map_or, arith,
}
use fuel_cap.Base.Int.{ℤ, pos, ◌+ℤ◌, ◌-ℤ◌, leb_ℤ, ltb_ℤ, is_safe_integer}
use fuel_cap.Base.Doubles.{to_double}
use fuel_cap.Base.Products.{◌*ℤ◌, trunc_div}
use fuel_cap.Base.Text.{is_blank}
use fuel_cap.Base.Dates.{is_earlier}
use fuel_cap.Fx.Types.{
  Currency, usd, cad, gbp, eur, FxPair, FxReferenceObservation, CanonicalFxRate, direct,
  triangulated, FxAdjustmentPolicy, FxError, pair_inconsistent, rate_invalid, timestamps_invalid,
  observation_stale, evidence_incomplete, path_not_approved,
}

abbrev pub same_currency : Currency → Currency → Bool
same_currency usd b = elim b [ usd ↦ true | cad ↦ false | gbp ↦ false | eur ↦ false ]
same_currency cad b = elim b [ usd ↦ false | cad ↦ true | gbp ↦ false | eur ↦ false ]
same_currency gbp b = elim b [ usd ↦ false | cad ↦ false | gbp ↦ true | eur ↦ false ]
same_currency eur b = elim b [ usd ↦ false | cad ↦ false | gbp ↦ false | eur ↦ true ]

pub same_currency_iff : (a b : Currency) → (same_currency a b ≡ true) ↔ (a ≡ b)
same_currency_iff a b = ground arith

instance abbrev pub currency_eq : Eq Currency
currency_eq = record { is_equal = same_currency; is_equal_iff = same_currency_iff }

-- `FX_RATE_SCALE`
abbrev pub fx_rate_scale : ℕ
fx_rate_scale = 1000000

-- `observation.pair !== pairOf(base, quote)`
abbrev pub pair_differs : FxPair → Currency → Currency → Bool
pair_differs p base quote = not (p.base == base) || not (p.quote == quote)

-- `validInstant`
abbrev pub valid_instant : (String → Option ℤ) → String → Bool
valid_instant date_parse value = is_some (date_parse value)

-- `[a-f0-9]`
abbrev pub is_hex : ℕ → Bool
is_hex c = (leb 48 c && leb c 57) || (leb 97 c && leb c 102)

unfoldable pub all_hex : String → Bool
all_hex String.[] = true
all_hex (String.◌∷◌ c s) = is_hex (code c) && all_hex s

-- `sha256Pattern.test`
abbrev pub is_sha256 : String → Bool
is_sha256 s = nat_beq (count s) 64 && all_hex s

-- `roundedRatio`
abbrev pub rounded_ratio : ℤ → ℕ → ℤ
rounded_ratio numerator denominator = trunc_div (numerator +ℤ pos (denominator / 2)) denominator

-- The milliseconds from one instant to the other, zero where there is none.
abbrev pub milliseconds_between : (String → Option ℤ) → String → String → ℤ
milliseconds_between date_parse a b =
    map_or (pos 0) (λ m. map_or (pos 0) (λ n. n -ℤ m) (date_parse b)) (date_parse a)

-- `validateFxObservation`
unfoldable pub validate_fx_observation :
    (String → Option ℤ) → FxReferenceObservation → String → ℤ → Result FxError (Unit {0})
validate_fx_observation date_parse o as_of maximum_age_seconds = do
  throw_if
      (pair_differs o.pair o.base_currency o.quote_currency || o.base_currency == o.quote_currency)
      pair_inconsistent
  throw_if (not (is_safe_integer o.rate_6dp) || leb_ℤ o.rate_6dp (pos 0)) rate_invalid
  throw_if
      (not (valid_instant date_parse o.source_observed_at)
        || not (valid_instant date_parse o.ingested_at)
        || not (valid_instant date_parse as_of)
        || is_earlier date_parse o.ingested_at o.source_observed_at)
      timestamps_invalid
  throw_if
      (is_earlier date_parse as_of o.source_observed_at
        || ltb_ℤ (maximum_age_seconds *ℤ pos 1000)
            (milliseconds_between date_parse o.source_observed_at as_of))
      observation_stale
  throw_if (is_blank o.provider || not (is_sha256 o.raw_payload_sha256)) evidence_incomplete

-- `createDirectCanonicalRate`
unfoldable pub create_direct_canonical_rate :
    (String → Option ℤ)
    → String
    → FxReferenceObservation
    → String
    → ℤ
    → Result FxError CanonicalFxRate
create_direct_canonical_rate date_parse rate_id o decided_at maximum_age_seconds = do
  validate_fx_observation date_parse o decided_at maximum_age_seconds
  ok (record {
    rate_id = rate_id;
    pair = o.pair;
    base_currency = o.base_currency;
    quote_currency = o.quote_currency;
    rate_6dp = o.rate_6dp;
    method = direct;
    pivot_currency = none;
    observation_ids = o.observation_id ∷ [];
    decided_at = decided_at;
  })

-- `createTriangulatedCanonicalRate`
unfoldable pub create_triangulated_canonical_rate :
    (String → Option ℤ)
    → String
    → FxReferenceObservation
    → FxReferenceObservation
    → FxPair
    → Currency
    → FxAdjustmentPolicy
    → String
    → ℤ
    → Result FxError CanonicalFxRate
create_triangulated_canonical_rate date_parse rate_id first second output pivot policy decided_at
      age =
    do
      validate_fx_observation date_parse first decided_at age
      validate_fx_observation date_parse second decided_at age
      throw_if
          (not (includes policy.approved_pivots pivot)
            || not (first.base_currency == output.base)
            || not (first.quote_currency == pivot)
            || not (second.base_currency == pivot)
            || not (second.quote_currency == output.quote))
          path_not_approved
      ok (record {
        rate_id = rate_id;
        pair = output;
        base_currency = output.base;
        quote_currency = output.quote;
        rate_6dp = to_double (rounded_ratio (first.rate_6dp *ℤ second.rate_6dp) fx_rate_scale);
        method = triangulated;
        pivot_currency = some pivot;
        observation_ids = first.observation_id ∷ second.observation_id ∷ [];
        decided_at = decided_at;
      })
