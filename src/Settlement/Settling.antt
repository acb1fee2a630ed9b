-- ===== src/Settlement/Settling.antt =====
-- `settlePurchase` and `cancelRemainingProtection` of packages/settlement-engine/src/index.ts.
use Prim.Native.String.{◌++◌ as append}
use fuel_cap.Base.{
  String, Bool, true, false, not, ◌||◌, none, some, List, [], ◌∷◌, ◌++◌, map, lookup, insert, ◌==◌,
  string_eq, any, filter, find, is_some, if◌then◌else◌, Result, ok, err, ◌>>=◌, ◌>>◌, throw_if,
}
use fuel_cap.Base.Int.{ℤ, pos, ◌-ℤ◌, eqb_ℤ}
use fuel_cap.Base.Doubles.{to_double}
use fuel_cap.Base.Products.{◌*ℤ◌}
use fuel_cap.Base.Text.{is_blank}
use fuel_cap.Base.Objects.{is_inherited}
use fuel_cap.Settlement.Types.{
  EvidenceLine, ProtectionTerms, SettlementCommand, debit, credit, PostingLine, SettlementDecision,
  SettlementState, SettlementResult, CancellationCommand, CancellationDecision, SettlementError,
  identity_required, price_invalid, timestamp_required, key_reused, settlement_not_unique,
  unbalanced, quantity_invalid, Host,
}
use fuel_cap.Settlement.Checks.{denominator, ceil_minor, not_positive, validate_settlement}
use fuel_cap.Settlement.Pricing.{terms_by_id, pin_lines, exact, slices_of, settlement_amounts}
use fuel_cap.Settlement.Instruction.{line, posting_lines, side_total}

-- `[...new Set(xs)]`
abbrev pub distinct : List String → List String
distinct [] = []
distinct (x ∷ xs) = x ∷ filter (λ y. not (y == x)) (distinct xs)

unfoldable pub new_decision :
    SettlementCommand → List (EvidenceLine × ProtectionTerms) → SettlementDecision
new_decision c pinned =
    let a = c.allocation in
    let amounts = settlement_amounts c pinned in
    record {
      settlement_id = c.settlement_id;
      allocation_id = a.allocation_id;
      purchase_id = a.purchase_id;
      customer_id = a.customer_id;
      wallet_id = a.wallet_id;
      organisation_id = a.organisation_id;
      currency = a.currency;
      actual_pump_price_4dp = c.actual_pump_price_4dp;
      confirmed_fuel_quantity_4dp = a.confirmed_fuel_quantity_4dp;
      amounts = amounts;
      slices = slices_of c pinned;
      posting_instruction = record {
        idempotency_key = append "settlement:" c.settlement_id;
        lines = posting_lines c.settlement_id c.accounts amounts;
        position_redemptions =
            map
              (λ l. record {
                protection_transaction_id = l.protection_transaction_id;
                quantity_4dp = l.allocated_quantity_4dp;
              })
              a.lines;
        source_contract_id = a.allocation_id;
        correlation_id = a.correlation_id;
        rules_versions = distinct (map (λ l. l.rules_version) a.lines);
        spread_decision_versions = distinct (map (λ l. l.spread_decision_version) a.lines);
        provenance = a.provenance;
      };
      settled_at = c.settled_at;
    }

-- The last test of `settlePurchase`.
abbrev pub is_unbalanced : List PostingLine → Bool
is_unbalanced lines = not (eqb_ℤ (side_total debit lines) (side_total credit lines))

abbrev pub store_decision :
    Host → SettlementState → SettlementCommand → SettlementDecision → SettlementResult
store_decision host s c d = record {
  state = record {
    decisions = s.decisions ++ d ∷ [];
    idempotency =
        insert c.idempotency_key
          (record { fingerprint = host.hash_command c; settlement_id = c.settlement_id })
          s.idempotency;
  };
  decision = some d;
  idempotent_replay = false;
}

-- `settlePurchase` for a key that is new.
unfoldable pub settle_new :
    Host → SettlementState → SettlementCommand → Result SettlementError SettlementResult
settle_new host s c = do
  throw_if
      (any
        (λ d. d.settlement_id == c.settlement_id || d.allocation_id == c.allocation.allocation_id)
        s.decisions)
      settlement_not_unique
  pinned ← pin_lines (terms_by_id c.terms []) c.allocation.lines
  throw_if (is_unbalanced (posting_lines c.settlement_id c.accounts (settlement_amounts c pinned)))
      unbalanced
  ok (store_decision host s c (new_decision c pinned))

-- `settlePurchase`; a key that `Object.prototype` has finds a value without a fingerprint.
unfoldable pub settle_purchase :
    Host → SettlementState → SettlementCommand → Result SettlementError SettlementResult
settle_purchase host s c = do
  validate_settlement host c
  elim (lookup c.idempotency_key s.idempotency) [
    | some prior ↦ do
      throw_if (not (prior.fingerprint == host.hash_command c)) key_reused
      ok (record {
        state = s;
        decision = find (λ d. d.settlement_id == prior.settlement_id) s.decisions;
        idempotent_replay = true;
      })
    | none ↦ if is_inherited c.idempotency_key then err key_reused else settle_new host s c
  ]

-- The decision of `cancelRemainingProtection`, from the exact value that is released.
abbrev pub release_decision : CancellationCommand → ℤ → CancellationDecision
release_decision c exact_release =
    let customer_credit = ceil_minor exact_release in
    record {
      cancellation_id = c.cancellation_id;
      protection_transaction_id = c.protection_transaction_id;
      released_quantity_4dp = c.remaining_quantity_4dp;
      exact_release_numerator = exact_release;
      customer_credit_minor = customer_credit;
      absorbed_residual_numerator =
          to_double (to_double (customer_credit *ℤ pos denominator) -ℤ exact_release);
      posting_lines =
          line c.cancellation_id ":RESERVED" c.customer_reserved_account_id debit customer_credit
          ∷ line c.cancellation_id ":AVAILABLE" c.customer_available_account_id credit
              customer_credit
          ∷ [];
      canceled_at = c.canceled_at;
    }

-- `cancelRemainingProtection`
unfoldable pub cancel_remaining_protection :
    Host → CancellationCommand → Result SettlementError CancellationDecision
cancel_remaining_protection host c = do
  throw_if
      (any is_blank (
        c.cancellation_id ∷ c.idempotency_key ∷ c.protection_transaction_id
        ∷ c.customer_reserved_account_id ∷ c.customer_available_account_id ∷ []))
      identity_required
  throw_if (not_positive c.remaining_quantity_4dp) quantity_invalid
  throw_if (not_positive c.strike_price_4dp) price_invalid
  throw_if (not (is_some (host.date_parse c.canceled_at))) timestamp_required
  ok (release_decision c (exact c.strike_price_4dp c.remaining_quantity_4dp))
