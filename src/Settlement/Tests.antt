-- ===== src/Settlement/Tests.antt =====
-- Runs of the settlement engine, and its theorems there.
use fuel_cap.Base.{◌≡◌, refl, none, some, All, List, [], ◌∷◌, string_eq, if◌then◌else◌, ok, arith}
use fuel_cap.Base.Int.{pos, ◌+ℤ◌, ◌-ℤ◌, negate}
use fuel_cap.Base.Doubles.{to_double, to_double_ℕ, nearest_multiple, double_step}
use fuel_cap.Base.Products.{◌*ℤ◌, floor_div, ceil_div}
use fuel_cap.Base.Text.{is_blank}
use fuel_cap.Base.Objects.{is_inherited}
use fuel_cap.Settlement.{
  Host, usd, actual, EvidenceLine, ProtectionTerms, SettlementCommand, SettlementDecision,
  SettlementResult, CancellationCommand, CancellationDecision, create_settlement_state,
  validate_settlement, terms_by_id, pin_lines, protected_slice, unprotected_slices, amounts_of,
  posting_lines, new_decision, store_decision, settle_new, settle_purchase,
  cancel_remaining_protection, exact, debit, credit, line,
}
use fuel_cap.Settlement.Exact.{Pinned}
use fuel_cap.Settlement.Slices.{IsSensible}
use fuel_cap.Settlement.Range.{IsInRange}
use fuel_cap.Settlement.Outcome.{IsRounded, settle_purchase-settles, settle_purchase-IsRounded}
use fuel_cap.Settlement.Release.{IsReleased, cancel_remaining_protection-IsReleased}

abbrev host : Host
host = record {
  date_parse = λ t. if is_blank t then none else some (pos 0);
  hash_command = λ c. c.command_id;
}

abbrev evidence_line : EvidenceLine
evidence_line = record {
  protection_transaction_id = "t-1";
  allocated_quantity_4dp = pos 30001;
  quote_id = "q-1";
  spread_decision_version = "s-1";
  rules_version = "r-1";
}

abbrev terms : ProtectionTerms
terms = record {
  protection_transaction_id = "t-1";
  strike_price_4dp = pos 35000;
  maximum_boundary_price_4dp = pos 38000;
  reference_price_4dp = pos 34000;
}

abbrev command : SettlementCommand
command = record {
  command_id = "cmd-1";
  idempotency_key = "key-1";
  settlement_id = "set-1";
  allocation = record {
    allocation_id = "all-1";
    purchase_id = "pur-1";
    clearing_id = "clr-1";
    customer_id = "cust-1";
    wallet_id = "w-1";
    organisation_id = "org-1";
    currency = usd;
    confirmed_fuel_quantity_4dp = pos 50001;
    unprotected_quantity_4dp = pos 20000;
    non_fuel_amount_minor = pos 0;
    actual_pump_observation_id = "obs-1";
    provenance = actual;
    correlation_id = "corr-1";
    lines = evidence_line ∷ [];
  };
  terms = terms ∷ [];
  actual_pump_price_4dp = pos 40000;
  accounts = record {
    customer_reserved_account_id = "reserved";
    customer_available_account_id = "available";
    protection_claim_account_id = "claim";
    station_payable_account_id = "station";
  };
  legal_entity_id = "le-1";
  market = "US";
  actor_id = "actor-1";
  settled_at = "2026-05-01";
}

abbrev pinned : List Pinned
pinned = (evidence_line, terms) ∷ []

abbrev decision : SettlementDecision
decision = new_decision command pinned

abbrev result : SettlementResult
result = store_decision host create_settlement_state command decision

sensible : All IsSensible pinned
sensible = ((omega arith, omega arith, omega arith, omega arith), tt)

in_range : IsInRange command pinned
unfolding ◌*ℤ◌ ◌+ℤ◌
in_range = record { pump_price = omega arith; pump_value = omega arith; strike_value = omega arith }

station_paid : decision.amounts.station_payment_minor ≡ pos 2000
unfolding new_decision amounts_of protected_slice unprotected_slices ◌*ℤ◌ to_double to_double_ℕ ◌+ℤ◌
    ◌-ℤ◌ floor_div ceil_div negate
station_paid = refl

settled : settle_purchase host create_settlement_state command ≡ ok result
unfolding settle_purchase settle_new validate_settlement is_blank is_inherited terms_by_id pin_lines
    amounts_of posting_lines protected_slice unprotected_slices ◌*ℤ◌ to_double to_double_ℕ ◌+ℤ◌ ◌-ℤ◌
    floor_div ceil_div negate
settled = refl

settle_purchase-settles_example : settle_purchase host create_settlement_state command ≡ ok result
unfolding validate_settlement is_blank is_inherited terms_by_id pin_lines to_double to_double_ℕ ◌+ℤ◌
settle_purchase-settles_example =
    settle_purchase-settles host create_settlement_state command pinned refl refl refl refl refl
      sensible in_range

settle_purchase-IsRounded_example :
    (d : SettlementDecision) × (result.decision ≡ some d) × IsRounded command pinned d.amounts
unfolding terms_by_id pin_lines
settle_purchase-IsRounded_example =
    settle_purchase-IsRounded host create_settlement_state command result pinned settled refl refl
      sensible in_range

abbrev cancellation : CancellationCommand
cancellation = record {
  cancellation_id = "can-1";
  idempotency_key = "key-2";
  protection_transaction_id = "t-1";
  remaining_quantity_4dp = pos 3;
  strike_price_4dp = pos 35000;
  currency = usd;
  customer_reserved_account_id = "reserved";
  customer_available_account_id = "available";
  canceled_at = "2026-06-01";
}

abbrev released : CancellationDecision
released = record {
  cancellation_id = "can-1";
  protection_transaction_id = "t-1";
  released_quantity_4dp = pos 3;
  exact_release_numerator = pos 105000;
  customer_credit_minor = pos 1;
  absorbed_residual_numerator = pos 895000;
  posting_lines =
      line "can-1" ":RESERVED" "reserved" debit (pos 1)
      ∷ line "can-1" ":AVAILABLE" "available" credit (pos 1)
      ∷ [];
  canceled_at = "2026-06-01";
}

released_made : cancel_remaining_protection host cancellation ≡ ok released
unfolding cancel_remaining_protection is_blank ◌*ℤ◌ to_double to_double_ℕ ◌-ℤ◌ ceil_div floor_div
    negate
released_made = refl

cancel_remaining_protection-IsReleased_example : IsReleased cancellation released
unfolding ◌*ℤ◌ ◌+ℤ◌
cancel_remaining_protection-IsReleased_example =
    cancel_remaining_protection-IsReleased host cancellation released released_made (omega arith)

-- Above 2 ^ 53 the value of a release is rounded to a double.
rounded_release : exact (pos 100000001) (pos 100000001) ≡ pos 10000000200000000
unfolding to_double to_double_ℕ nearest_multiple double_step ◌*ℤ◌
rounded_release = refl
