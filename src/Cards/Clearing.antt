-- ===== src/Cards/Clearing.antt =====
-- `clear` of packages/card-simulator/src/index.ts.
use Prim.Native.String.{String, ◌++◌ as append}
use fuel_cap.Base.{
  Bool, true, false, not, Option, none, some, lookup, insert, contains, ◌==◌, string_eq, map_or,
  if◌then◌else◌, Result, ok, ◌>>◌, throw_if,
}
use fuel_cap.Base.Int.{ℤ, pos, ◌+ℤ◌, ◌-ℤ◌, eqb_ℤ, ltb_ℤ}
use fuel_cap.Cards.Types.{
  AuthorizationStatus, opened, partially_cleared, cleared, ClearingReason, matched_authorization,
  authorization_not_found, authorization_not_open, amount_exceeds_authorization, currency_mismatch,
  CardAuthorization, ClearCardCommand, CardClearing, ClearingInstruction, ReconciliationBreak,
  StoredKey, Simulator, CardError, key_reused, id_not_unique, Host,
}
use fuel_cap.Cards.Checks.{same_currency, validate_clearing_command}

abbrev pub is_open_status : AuthorizationStatus → Bool
is_open_status opened = true
is_open_status partially_cleared = true
is_open_status _ = false

-- The chain of tests of `clear`.
unfoldable pub clearing_reason : Option CardAuthorization → ClearCardCommand → ClearingReason
clearing_reason none c = authorization_not_found
clearing_reason (some a) c =
    if not (is_open_status a.status)
    then authorization_not_open
    else if not (same_currency a.currency c.currency)
    then currency_mismatch
    else if ltb_ℤ a.outstanding_minor c.amount_minor
    then amount_exceeds_authorization
    else matched_authorization

abbrev pub is_match : ClearingReason → Bool
is_match matched_authorization = true
is_match _ = false

unfoldable pub new_clearing :
    Option CardAuthorization → ClearCardCommand → ClearingReason → CardClearing
new_clearing a c reason = record {
  clearing_id = c.clearing_id;
  authorization_id = map_or none (λ b. some b.authorization_id) a;
  provider_reference = c.provider_reference;
  amount_minor = c.amount_minor;
  currency = c.currency;
  is_accepted = is_match reason;
  reason = reason;
  cleared_at = c.cleared_at;
  idempotency_key = c.idempotency_key;
}

unfoldable pub clear_authorization : CardAuthorization → ℤ → CardAuthorization
clear_authorization a amount =
    let cleared_minor = a.cleared_minor +ℤ amount in
    let outstanding = a.amount_minor -ℤ cleared_minor -ℤ a.released_minor in
    record a {
      cleared_minor = cleared_minor;
      outstanding_minor = outstanding;
      status = if eqb_ℤ outstanding (pos 0) then cleared else partially_cleared;
    }

unfoldable pub new_instruction : CardAuthorization → CardClearing → ClearingInstruction
new_instruction a clearing = record {
  instruction_id = append "card-clearing:" clearing.clearing_id;
  idempotency_key = append "card-clearing:" clearing.clearing_id;
  clearing_id = clearing.clearing_id;
  authorization_id = a.authorization_id;
  customer_id = a.customer_id;
  wallet_id = a.wallet_id;
  organisation_id = a.organisation_id;
  provider_reference = clearing.provider_reference;
  merchant_id = a.merchant.merchant_id;
  amount_minor = clearing.amount_minor;
  currency = clearing.currency;
  correlation_id = a.correlation_id;
}

unfoldable pub new_break : CardClearing → ReconciliationBreak
new_break clearing = record {
  break_id = append "card-break:" clearing.clearing_id;
  clearing_id = clearing.clearing_id;
  reason = clearing.reason;
  amount_minor = clearing.amount_minor;
  currency = clearing.currency;
  created_at = clearing.cleared_at;
}

-- The first two writes of `clear`.
unfoldable pub store_clearing : Simulator → String → ClearCardCommand → CardClearing → Simulator
store_clearing s fingerprint c clearing = record s {
  clearings = insert clearing.clearing_id clearing s.clearings;
  clearing_keys =
      insert c.idempotency_key (record { fingerprint = fingerprint; id = clearing.clearing_id })
        s.clearing_keys;
}

unfoldable pub accept_clearing : Simulator → CardAuthorization → CardClearing → Simulator
accept_clearing s a clearing = record s {
  authorizations =
      insert a.authorization_id (clear_authorization a clearing.amount_minor) s.authorizations;
  instructions = insert clearing.clearing_id (new_instruction a clearing) s.instructions;
}

unfoldable pub break_clearing : Simulator → CardClearing → Simulator
break_clearing s clearing = record s {
  breaks = insert clearing.clearing_id (new_break clearing) s.breaks;
}

-- The branch at the end of `clear`.
abbrev pub settle : Simulator → Option CardAuthorization → CardClearing → Simulator
settle s none clearing = break_clearing s clearing
settle s (some a) clearing =
    if clearing.is_accepted then accept_clearing s a clearing else break_clearing s clearing

abbrev pub clear_found :
    Simulator
    → String
    → ClearCardCommand
    → Option CardAuthorization
    → Simulator × Option CardClearing
clear_found s fingerprint c a =
    let clearing = new_clearing a c (clearing_reason a c) in
    (settle (store_clearing s fingerprint c clearing) a clearing, some clearing)

-- `clear` after the look-up of the key.
abbrev pub clear_keyed :
    Simulator
    → String
    → ClearCardCommand
    → Option StoredKey
    → Result CardError (Simulator × Option CardClearing)
clear_keyed s fingerprint c (some replay) = do
  throw_if (not (replay.fingerprint == fingerprint)) key_reused
  ok (s, lookup replay.id s.clearings)
clear_keyed s fingerprint c none = do
  throw_if (contains c.clearing_id s.clearings) id_not_unique
  ok (clear_found s fingerprint c (lookup c.authorization_id s.authorizations))

unfoldable pub clear :
    Host → Simulator → ClearCardCommand → Result CardError (Simulator × Option CardClearing)
clear host s c = do
  validate_clearing_command host c
  clear_keyed s (host.hash_clear c) c (lookup c.idempotency_key s.clearing_keys)
