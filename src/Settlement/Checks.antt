-- ===== src/Settlement/Checks.antt =====
-- Rounding and validation in packages/settlement-engine/src/index.ts.
use fuel_cap.Base.{ℕ, Bool, not, ◌||◌, [], ◌∷◌, string_eq, any, is_some, Result, ◌>>◌, throw_if}
use fuel_cap.Base.Int.{ℤ, pos, ◌+ℤ◌, eqb_ℤ, leb_ℤ, ltb_ℤ, is_safe_integer}
use fuel_cap.Base.Doubles.{to_double, rounded_sum}
use fuel_cap.Base.Products.{floor_div, ceil_div}
use fuel_cap.Base.Text.{is_blank}
use fuel_cap.Settlement.Types.{
  ProtectionTerms, SettlementCommand, SettlementState, SettlementError, identity_required,
  price_invalid, timestamp_required, quantities_disagree, terms_invalid, Host,
}

abbrev pub denominator : ℕ
denominator = 1000000

-- `floorMinor`
abbrev pub floor_minor : ℤ → ℤ
floor_minor numerator = floor_div numerator 1000000

-- `ceilMinor`
abbrev pub ceil_minor : ℤ → ℤ
ceil_minor numerator = ceil_div numerator 1000000

-- `halfUpMinor`
abbrev pub half_up_minor : ℤ → ℤ
half_up_minor numerator = floor_div (to_double (numerator +ℤ pos 500000)) 1000000

-- `requirePositive` throws
abbrev pub not_positive : ℤ → Bool
not_positive n = not (is_safe_integer n) || leb_ℤ n (pos 0)

-- `createSettlementState`
abbrev pub create_settlement_state : SettlementState
create_settlement_state = record { decisions = []; idempotency = [] }

abbrev pub terms_are_bad : ProtectionTerms → Bool
terms_are_bad t =
    not (is_safe_integer t.strike_price_4dp)
    || not (is_safe_integer t.maximum_boundary_price_4dp)
    || ltb_ℤ t.maximum_boundary_price_4dp t.strike_price_4dp

-- `validateSettlement`
unfoldable pub validate_settlement : Host → SettlementCommand → Result SettlementError (Unit {0})
validate_settlement host c = do
  throw_if
      (any is_blank (
        c.command_id ∷ c.idempotency_key ∷ c.settlement_id ∷ c.legal_entity_id ∷ c.market
        ∷ c.actor_id ∷ c.accounts.customer_reserved_account_id
        ∷ c.accounts.customer_available_account_id ∷ c.accounts.protection_claim_account_id
        ∷ c.accounts.station_payable_account_id ∷ []))
      identity_required
  throw_if (not_positive c.actual_pump_price_4dp) price_invalid
  throw_if (not (is_some (host.date_parse c.settled_at))) timestamp_required
  throw_if
      (not (
        eqb_ℤ
          (to_double (
            rounded_sum (λ l. l.allocated_quantity_4dp) c.allocation.lines
            +ℤ c.allocation.unprotected_quantity_4dp))
          c.allocation.confirmed_fuel_quantity_4dp))
      quantities_disagree
  throw_if (any terms_are_bad c.terms) terms_invalid
