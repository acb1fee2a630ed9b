-- ===== src/Cards/Reversing.antt =====
-- `reverse` of packages/card-simulator/src/index.ts, and the methods that only read.
use Prim.Native.String.{String}
use fuel_cap.Base.{
  not, Option, none, some, List, lookup, insert, contains, values, ◌==◌, string_eq, Result, ok, err,
  ◌>>◌, throw_if,
}
use fuel_cap.Base.Int.{pos, ◌+ℤ◌}
use fuel_cap.Cards.Types.{
  reversed, CardAuthorization, CardClearing, ReverseAuthorizationCommand, AuthorizationReversal,
  ClearingInstruction, ReconciliationBreak, StoredKey, Simulator, CardError, key_reused,
  id_not_unique, not_open, Host,
}
use fuel_cap.Cards.Checks.{validate_reversal_command}
use fuel_cap.Cards.Clearing.{is_open_status}

unfoldable pub release_authorization : CardAuthorization → CardAuthorization
release_authorization a = record a {
  released_minor = a.released_minor +ℤ a.outstanding_minor;
  outstanding_minor = pos 0;
  status = reversed;
}

unfoldable pub new_reversal :
    CardAuthorization → ReverseAuthorizationCommand → AuthorizationReversal
new_reversal a c = record {
  reversal_id = c.reversal_id;
  authorization_id = a.authorization_id;
  released_minor = a.outstanding_minor;
  reason = c.reason;
  reversed_at = c.reversed_at;
  idempotency_key = c.idempotency_key;
}

-- The writes of `reverse`.
unfoldable pub store_reversal :
    Simulator → String → ReverseAuthorizationCommand → CardAuthorization → Simulator
store_reversal s fingerprint c a = record s {
  authorizations = insert a.authorization_id (release_authorization a) s.authorizations;
  reversals = insert c.reversal_id (new_reversal a c) s.reversals;
  reversal_keys =
      insert c.idempotency_key (record { fingerprint = fingerprint; id = c.reversal_id })
        s.reversal_keys;
}

abbrev pub reverse_found :
    Simulator
    → String
    → ReverseAuthorizationCommand
    → Option CardAuthorization
    → Result CardError (Simulator × Option AuthorizationReversal)
reverse_found s fingerprint c none = err not_open
reverse_found s fingerprint c (some a) = do
  throw_if (not (is_open_status a.status)) not_open
  ok (store_reversal s fingerprint c a, some (new_reversal a c))

-- `reverse` after the look-up of the key.
abbrev pub reverse_keyed :
    Simulator
    → String
    → ReverseAuthorizationCommand
    → Option StoredKey
    → Result CardError (Simulator × Option AuthorizationReversal)
reverse_keyed s fingerprint c (some replay) = do
  throw_if (not (replay.fingerprint == fingerprint)) key_reused
  ok (s, lookup replay.id s.reversals)
reverse_keyed s fingerprint c none = do
  throw_if (contains c.reversal_id s.reversals) id_not_unique
  reverse_found s fingerprint c (lookup c.authorization_id s.authorizations)

unfoldable pub reverse :
    Host
    → Simulator
    → ReverseAuthorizationCommand
    → Result CardError (Simulator × Option AuthorizationReversal)
reverse host s c = do
  validate_reversal_command host c
  reverse_keyed s (host.hash_reverse c) c (lookup c.idempotency_key s.reversal_keys)

-- `getAuthorization`, `listClearings`, `listClearingInstructions`, `listReconciliationBreaks`
unfoldable pub get_authorization : Simulator → String → Option CardAuthorization
get_authorization s id = lookup id s.authorizations

unfoldable pub list_clearings : Simulator → List CardClearing
list_clearings s = values s.clearings

unfoldable pub list_clearing_instructions : Simulator → List ClearingInstruction
list_clearing_instructions s = values s.instructions

unfoldable pub list_reconciliation_breaks : Simulator → List ReconciliationBreak
list_reconciliation_breaks s = values s.breaks
