-- ===== src/Allocation.antt =====
-- Allocation of a purchase to protection, in packages/allocation-engine/src/index.ts. A `throw` is an
-- error value. The copies that the code makes of positions are the same values here.
mod Types
pub mod Conservation
mod Tests
pub use Types.*
use Prim.Native.String.{◌++◌ as append}
use fuel_cap.Base.{
  ℕ, suc, ◌+◌, String, Bool, true, false, not, ◌&&◌, ◌||◌, Option, none, some, List, [], ◌∷◌, ◌++◌,
  map, Dict, lookup, insert, ◌==◌, string_eq, any, filter, find, length, has_duplicates, is_some,
  map_or, nat_beq, if◌then◌else◌, Result, ok, err, ◌>>=◌, ◌>>◌, throw_if,
}
use fuel_cap.Base.Int.{ℤ, pos, ◌-ℤ◌, eqb_ℤ, leb_ℤ, ltb_ℤ, is_safe_integer}
use fuel_cap.Base.Text.{is_blank, show_ℕ}
use fuel_cap.Base.Objects.{is_inherited}
use fuel_cap.Base.Dates.{is_earlier, is_no_later}

abbrev same_currency : AllocationCurrency → AllocationCurrency → Bool
same_currency usd usd = true
same_currency cad cad = true
same_currency gbp gbp = true
same_currency _ _ = false

abbrev is_active : ProtectionStatus → Bool
is_active active = true
is_active _ = false

abbrev is_date : Host → String → Bool
is_date host t = is_some (host.date_parse t)

-- `validatePosition`
pub validate_position : Host → ProtectionPosition → Result AllocationError (Unit {0})
validate_position host p = do
  throw_if
      (any is_blank (
        p.protection_transaction_id ∷ p.owner.owner_id ∷ p.country_code ∷ p.fuel_grade_id
        ∷ p.scope.scope_id ∷ p.reference_price_id ∷ p.quote_id ∷ p.spread_decision_version
        ∷ p.rules_version ∷ []))
      text_required
  throw_if (any (λ t. not (is_date host t)) (p.starts_at ∷ p.expires_at ∷ p.accepted_at ∷ []))
      timestamp_invalid
  throw_if (is_no_later host.date_parse p.expires_at p.starts_at) expiry_before_start
  throw_if
      (not (is_safe_integer p.remaining_quantity_4dp) || ltb_ℤ p.remaining_quantity_4dp (pos 0))
      remaining_invalid

pub validate_positions : Host → List ProtectionPosition → Result AllocationError (Unit {0})
validate_positions host [] = ok tt
validate_positions host (p ∷ ps) = do validate_position host p; validate_positions host ps

-- `createAllocationState`
pub create_allocation_state :
    Host → List ProtectionPosition → Result AllocationError AllocationState
create_allocation_state host positions = do
  throw_if (has_duplicates (map (λ p. p.protection_transaction_id) positions)) ids_not_unique
  validate_positions host positions
  ok (record { positions = positions; allocations = []; idempotency = [] })

-- `requirePositiveQuantity` throws
abbrev pub quantity_is_bad : ℤ → Bool
quantity_is_bad n = not (is_safe_integer n) || leb_ℤ n (pos 0)

-- `validateCommand`
pub validate_command : Host → PurchaseMatchCommand → Result AllocationError (Unit {0})
validate_command host c = do
  throw_if
      (any is_blank (
        c.command_id ∷ c.idempotency_key ∷ c.allocation_id ∷ c.purchase_id ∷ c.customer_id
        ∷ c.country_code ∷ c.fuel_grade_id ∷ c.station_id ∷ c.provider_id ∷ c.geography_id
        ∷ c.actual_pump_observation_id ∷ c.clearing.clearing_id ∷ c.clearing.authorization_id
        ∷ c.clearing.wallet_id ∷ c.clearing.organisation_id ∷ c.clearing.correlation_id ∷ []))
      text_required
  throw_if (quantity_is_bad c.confirmed_fuel_quantity_4dp) quantity_invalid
  throw_if (not (is_safe_integer c.non_fuel_amount_minor) || ltb_ℤ c.non_fuel_amount_minor (pos 0))
      amount_invalid
  throw_if (not (is_date host c.purchased_at)) timestamp_invalid

abbrev owner_matches : ProtectionOwner → PurchaseMatchCommand → Bool
owner_matches owner c = elim owner.owner_type [
  | customer ↦ owner.owner_id == c.customer_id
  | vehicle ↦ map_or false (λ id. owner.owner_id == id) c.vehicle_id
  | pool ↦ map_or false (λ id. owner.owner_id == id) c.protection_pool_id
]

abbrev scope_matches : ProtectionScope → PurchaseMatchCommand → Bool
scope_matches scope c = elim scope.scope_type [
  | station ↦ scope.scope_id == c.station_id
  | provider ↦ scope.scope_id == c.provider_id
  | geography ↦ scope.scope_id == c.geography_id
]

-- `isEligible`
pub is_eligible : Host → PurchaseMatchCommand → ProtectionPosition → Bool
is_eligible host c p =
    owner_matches p.owner c
    && p.country_code == c.country_code
    && same_currency p.currency c.currency
    && p.fuel_grade_id == c.fuel_grade_id
    && scope_matches p.scope c
    && is_active p.status
    && ltb_ℤ (pos 0) p.remaining_quantity_4dp
    && is_no_later host.date_parse p.starts_at c.purchased_at
    && is_earlier host.date_parse c.purchased_at p.expires_at

-- `left || right` of comparison results
abbrev or_else : ℤ → ℤ → ℤ
or_else m n = if eqb_ℤ m (pos 0) then n else m

-- `comparePositions`
pub compare_positions : Host → ProtectionPosition → ProtectionPosition → ℤ
compare_positions host l r =
    or_else
      (or_else (host.locale_compare l.expires_at r.expires_at)
        (host.locale_compare l.accepted_at r.accepted_at))
      (host.locale_compare l.protection_transaction_id r.protection_transaction_id)

pub insert_position : Host → ProtectionPosition → List ProtectionPosition → List ProtectionPosition
unfolding compare_positions
insert_position host p [] = p ∷ []
insert_position host p (q ∷ qs) =
    if leb_ℤ (compare_positions host p q) (pos 0) then p ∷ q ∷ qs else q ∷ insert_position host p qs

-- `.sort(comparePositions)`, a stable sort: its result is fixed where `localeCompare` gives an order
pub sort_positions : Host → List ProtectionPosition → List ProtectionPosition
sort_positions host [] = []
sort_positions host (p ∷ ps) = insert_position host p (sort_positions host ps)

-- `Math.min`
abbrev pub smaller : ℤ → ℤ → ℤ
smaller m n = if leb_ℤ m n then m else n

-- What the loop of `allocatePurchase` leaves: its lines, `remaining` and `remainingById`.
pub record Allocated : Type 0 where
  pub lines : List ProtectionAllocationLine
  pub remaining : ℤ
  pub remaining_by_id : Dict String ℤ

abbrev pub new_line : String → ℕ → ℤ → ProtectionPosition → ProtectionAllocationLine
new_line allocation_id number quantity p = record {
  line_id = append allocation_id (append ":LINE:" (show_ℕ number));
  protection_transaction_id = p.protection_transaction_id;
  allocated_quantity_4dp = quantity;
  expiry = p.expires_at;
  reference_price_id = p.reference_price_id;
  quote_id = p.quote_id;
  spread_decision_version = p.spread_decision_version;
  rules_version = p.rules_version;
}

-- The loop of `allocatePurchase`, from the line with this number on.
pub allocate_lines : String → ℕ → ℤ → Dict String ℤ → List ProtectionPosition → Allocated
allocate_lines id number remaining by_id [] = record {
  lines = [];
  remaining = remaining;
  remaining_by_id = by_id;
}
allocate_lines id number remaining by_id (p ∷ ps) =
    let quantity = smaller remaining p.remaining_quantity_4dp in
    let skipped = allocate_lines id number remaining by_id ps in
    let rest =
      allocate_lines id (suc number) (remaining -ℤ quantity)
        (insert p.protection_transaction_id (p.remaining_quantity_4dp -ℤ quantity) by_id) ps in
    if eqb_ℤ remaining (pos 0)
    then record { lines = []; remaining = remaining; remaining_by_id = by_id }
    else if eqb_ℤ quantity (pos 0)
    then skipped
    else record rest { lines = new_line id number quantity p ∷ rest.lines }

abbrev pub unprotected_reason_of : ℤ → ℕ → UnprotectedReason
unprotected_reason_of remaining eligible_count =
    if eqb_ℤ remaining (pos 0)
    then no_reason
    else if nat_beq eligible_count 0
    then no_eligible_protection
    else protection_volume_exhausted

pub new_allocation : PurchaseMatchCommand → ℕ → Allocated → PurchaseAllocation
new_allocation c eligible_count a = record {
  allocation_id = c.allocation_id;
  purchase_id = c.purchase_id;
  clearing_id = c.clearing.clearing_id;
  authorization_id = c.clearing.authorization_id;
  customer_id = c.customer_id;
  vehicle_id = c.vehicle_id;
  wallet_id = c.clearing.wallet_id;
  organisation_id = c.clearing.organisation_id;
  currency = c.currency;
  fuel_grade_id = c.fuel_grade_id;
  confirmed_fuel_quantity_4dp = c.confirmed_fuel_quantity_4dp;
  protected_quantity_4dp = c.confirmed_fuel_quantity_4dp -ℤ a.remaining;
  unprotected_quantity_4dp = a.remaining;
  non_fuel_amount_minor = c.non_fuel_amount_minor;
  lines = a.lines;
  unprotected_reason = unprotected_reason_of a.remaining eligible_count;
  actual_pump_observation_id = c.actual_pump_observation_id;
  provenance = c.provenance;
  purchased_at = c.purchased_at;
  correlation_id = c.clearing.correlation_id;
  idempotency_key = c.idempotency_key;
}

-- A position with what `remainingById` has for it; every position is in that map.
abbrev pub with_remaining : Dict String ℤ → ProtectionPosition → ProtectionPosition
with_remaining by_id p = record p {
  remaining_quantity_4dp =
      map_or p.remaining_quantity_4dp (λ n. n) (lookup p.protection_transaction_id by_id);
}

-- The loop on the eligible positions of a state.
pub match_purchase : Host → AllocationState → PurchaseMatchCommand → Allocated
match_purchase host s c =
    allocate_lines c.allocation_id 1 c.confirmed_fuel_quantity_4dp
      (map (λ p. (p.protection_transaction_id, p.remaining_quantity_4dp)) s.positions)
      (sort_positions host (filter (is_eligible host c) s.positions))

-- `allocatePurchase` for a key that is new.
pub allocate_new :
    Host → AllocationState → PurchaseMatchCommand → Result AllocationError AllocationResult
allocate_new host s c = do
  throw_if
      (any (λ a. a.allocation_id == c.allocation_id || a.purchase_id == c.purchase_id)
        s.allocations)
      allocation_not_unique
  throw_if
      (not (c.clearing.customer_id == c.customer_id)
        || not (same_currency c.clearing.currency c.currency))
      evidence_mismatch
  let matched = match_purchase host s c
  let allocation = new_allocation c (length (filter (is_eligible host c) s.positions)) matched
  ok (record {
    state = record {
      positions = map (with_remaining matched.remaining_by_id) s.positions;
      allocations = s.allocations ++ allocation ∷ [];
      idempotency =
          insert c.idempotency_key
            (record { fingerprint = host.hash_command c; allocation_id = c.allocation_id })
            s.idempotency;
    };
    allocation = some allocation;
    idempotent_replay = false;
  })

-- `allocatePurchase`; a key that `Object.prototype` has finds a value without a fingerprint.
pub allocate_purchase :
    Host → AllocationState → PurchaseMatchCommand → Result AllocationError AllocationResult
allocate_purchase host s c = do
  validate_command host c
  elim (lookup c.idempotency_key s.idempotency) [
    | some prior ↦ do
      throw_if (not (prior.fingerprint == host.hash_command c)) key_reused
      ok (record {
        state = s;
        allocation = find (λ a. a.allocation_id == prior.allocation_id) s.allocations;
        idempotent_replay = true;
      })
    | none ↦ if is_inherited c.idempotency_key then err key_reused else allocate_new host s c
  ]
