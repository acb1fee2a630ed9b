-- ===== src/Allocation/Tests.antt =====
-- A run of the allocation engine, and its theorem there.
use fuel_cap.Base.{
  ◌==◌, String, ◌≡◌, refl, false, none, some, [], ◌∷◌, string_eq, if◌then◌else◌, ok,
}
use fuel_cap.Base.Int.{pos, ◌+ℤ◌, ◌-ℤ◌, negate}
use fuel_cap.Base.Text.{is_blank}
use fuel_cap.Base.Objects.{is_inherited}
use fuel_cap.Allocation.{
  Host, usd, customer, geography, active, actual, ProtectionPosition, ClearingEvidence,
  PurchaseMatchCommand, PurchaseAllocation, AllocationState, AllocationResult, validate_position,
  validate_positions, create_allocation_state, validate_command, is_eligible, compare_positions,
  insert_position, sort_positions, allocate_lines, new_allocation, match_purchase, allocate_new,
  allocate_purchase,
}
use fuel_cap.Allocation.Conservation.{IsConserved, allocate_purchase-IsConserved}

abbrev host : Host
host = record {
  date_parse = λ t.
      if is_blank t
      then none
      else if t == "2026-01-01"
      then some (pos 1)
      else if t == "2026-12-31"
      then some (pos 365)
      else some (pos 100);
  locale_compare = λ a b. pos 0;
  hash_command = λ c. c.command_id;
}

abbrev position : String → ProtectionPosition
position id = record {
  protection_transaction_id = id;
  owner = record { owner_type = customer; owner_id = "cust-1" };
  country_code = "US";
  currency = usd;
  fuel_grade_id = "regular";
  scope = record { scope_type = geography; scope_id = "geo-1" };
  status = active;
  starts_at = "2026-01-01";
  expires_at = "2026-12-31";
  accepted_at = "2026-01-01";
  remaining_quantity_4dp = pos 30;
  reference_price_id = "ref-1";
  quote_id = "quote-1";
  spread_decision_version = "s-1";
  rules_version = "r-1";
}

abbrev evidence : ClearingEvidence
evidence = record {
  clearing_id = "clr-1";
  authorization_id = "auth-1";
  customer_id = "cust-1";
  wallet_id = "w-1";
  organisation_id = "org-1";
  provider_reference = "p-1";
  merchant_id = "m-1";
  amount_minor = pos 900;
  currency = usd;
  correlation_id = "corr-1";
}

abbrev purchase : PurchaseMatchCommand
purchase = record {
  command_id = "cmd-1";
  idempotency_key = "key-1";
  allocation_id = "all-1";
  purchase_id = "pur-1";
  clearing = evidence;
  customer_id = "cust-1";
  vehicle_id = none;
  protection_pool_id = none;
  country_code = "US";
  currency = usd;
  fuel_grade_id = "regular";
  station_id = "st-1";
  provider_id = "prov-1";
  geography_id = "geo-1";
  confirmed_fuel_quantity_4dp = pos 50;
  non_fuel_amount_minor = pos 0;
  purchased_at = "2026-05-01";
  actual_pump_observation_id = "obs-1";
  provenance = actual;
}

abbrev state : AllocationState
state = record {
  positions = position "t-1" ∷ position "t-2" ∷ [];
  allocations = [];
  idempotency = [];
}

state_created : create_allocation_state host (position "t-1" ∷ position "t-2" ∷ []) ≡ ok state
unfolding create_allocation_state validate_positions validate_position is_blank
state_created = refl

abbrev result : AllocationResult
result = record {
  state = record {
    positions =
        record (position "t-1") { remaining_quantity_4dp = pos 0 }
        ∷ record (position "t-2") { remaining_quantity_4dp = pos 10 }
        ∷ [];
    allocations = new_allocation purchase 2 (match_purchase host state purchase) ∷ [];
    idempotency = ("key-1", record { fingerprint = "cmd-1"; allocation_id = "all-1" }) ∷ [];
  };
  allocation = some (new_allocation purchase 2 (match_purchase host state purchase));
  idempotent_replay = false;
}

purchase_allocated : allocate_purchase host state purchase ≡ ok result
unfolding allocate_purchase validate_command allocate_new is_blank is_inherited match_purchase
    is_eligible sort_positions insert_position compare_positions allocate_lines ◌-ℤ◌ ◌+ℤ◌ negate
purchase_allocated = refl

allocate_purchase-IsConserved_example :
    (a : PurchaseAllocation) × (result.allocation ≡ some a) × IsConserved purchase a
allocate_purchase-IsConserved_example =
    allocate_purchase-IsConserved host state purchase result purchase_allocated refl
