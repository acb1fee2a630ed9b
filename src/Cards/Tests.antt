-- ===== src/Cards/Tests.antt =====
-- Runs of the card simulator, and its theorems at inputs where their hypotheses hold.
use fuel_cap.Base.{◌≡◌, refl, if◌then◌else◌, none, some, [], ◌∷◌, string_eq, length, ok}
use fuel_cap.Base.Int.{pos, ◌+ℤ◌, ◌-ℤ◌, ◌≤ℤ◌, negate}
use fuel_cap.Base.Text.{is_blank}
use fuel_cap.Cards.{
  Host, Simulator, CardProfile, Merchant, CardAuthorization, AuthorizeCardCommand, CardClearing,
  ClearCardCommand, AuthorizationReason, ClearingReason, usd, simulated, active, approved,
  matched_authorization, validate_card, validate_authorization_command, validate_clearing_command,
  add_cards, create_simulator, empty_simulator, authorize, clear, get_authorization, reserved_minor,
  daily_approved_minor, authorization_reason, new_authorization, clearing_reason, new_clearing,
  clear_authorization, store_authorization, store_clearing, accept_clearing, break_clearing,
  first_chars, date_key, list_clearings, list_clearing_instructions, list_reconciliation_breaks,
}
use fuel_cap.Cards.Invariant.{IsSound}
use fuel_cap.Cards.Settlement.{instructed}
use fuel_cap.Cards.Lifecycle.{
  Reachable, created, authorizing, clearing, get_authorization-IsSound, daily_approved_minor-within,
  instructed-authorization,
}
use fuel_cap.Cards.Finality.{itself, clearing_later, get_authorization-final}
use fuel_cap.Cards.Replay.{authorize-authorize}
use fuel_cap.Cards.ClearingReplay.{clear-clear}

abbrev host : Host
host = record {
  date_parse = λ s. if is_blank s then none else some (pos 0);
  hash_authorize = λ c. c.command_id;
  hash_clear = λ c. c.command_id;
  hash_reverse = λ c. c.command_id;
}

abbrev card : CardProfile
card = record {
  card_id = "card-1";
  customer_id = "cust-1";
  wallet_id = "wallet-1";
  organisation_id = "org-1";
  currency = usd;
  status = active;
  allowed_merchant_category_codes = "5541" ∷ [];
  transaction_limit_minor = pos 100;
  daily_limit_minor = pos 150;
}

abbrev station : Merchant
station = record {
  merchant_id = "m-1";
  merchant_name = "Station";
  merchant_category_code = "5541";
  country_code = "US";
}

abbrev purchase : AuthorizeCardCommand
purchase = record {
  command_id = "cmd-1";
  idempotency_key = "key-1";
  authorization_id = "auth-1";
  card_id = "card-1";
  amount_minor = pos 90;
  currency = usd;
  merchant = station;
  available_value_minor = pos 1000;
  occurred_at = "2026-09-01T12:00:00Z";
  correlation_id = "corr-1";
  mode = simulated;
}

abbrev completion : ClearCardCommand
completion = record {
  command_id = "cmd-2";
  idempotency_key = "key-2";
  clearing_id = "clr-1";
  authorization_id = "auth-1";
  provider_reference = "ref-1";
  amount_minor = pos 90;
  currency = usd;
  cleared_at = "2026-09-02T12:00:00Z";
  mode = simulated;
}

abbrev simulator_0 : Simulator
simulator_0 = record empty_simulator { cards = ("card-1", card) ∷ [] }

abbrev authorization_1 : CardAuthorization
authorization_1 = new_authorization card purchase approved

abbrev simulator_1 : Simulator
simulator_1 = store_authorization simulator_0 "cmd-1" purchase authorization_1

abbrev clearing_1 : CardClearing
clearing_1 = new_clearing (some authorization_1) completion matched_authorization

abbrev authorization_2 : CardAuthorization
authorization_2 = clear_authorization authorization_1 (pos 90)

abbrev simulator_2 : Simulator
simulator_2 =
    accept_clearing (store_clearing simulator_1 "cmd-2" completion clearing_1) authorization_1
      clearing_1

created_0 : create_simulator (card ∷ []) ≡ ok simulator_0
unfolding create_simulator add_cards validate_card is_blank
created_0 = refl

authorized_1 : authorize host simulator_0 purchase ≡ ok (simulator_1, some authorization_1)
unfolding authorize validate_authorization_command is_blank authorization_reason
    daily_approved_minor reserved_minor date_key first_chars ◌+ℤ◌ new_authorization
authorized_1 = refl

cleared_2 : clear host simulator_1 completion ≡ ok (simulator_2, some clearing_1)
unfolding clear validate_clearing_command is_blank clearing_reason store_authorization
    new_authorization new_clearing
cleared_2 = refl

over_daily_limit_declined :
    authorization_reason simulator_1.authorizations card
      (record purchase { authorization_id = "auth-2"; amount_minor = pos 61 })
    ≡ AuthorizationReason.daily_limit_exceeded
unfolding authorization_reason daily_approved_minor date_key first_chars ◌+ℤ◌ store_authorization
    new_authorization
over_daily_limit_declined = refl

one_instruction :
    (length (list_clearings simulator_2) ≡ 1)
    × (length (list_clearing_instructions simulator_2) ≡ 1)
    × (length (list_reconciliation_breaks simulator_2) ≡ 0)
unfolding list_clearings list_clearing_instructions list_reconciliation_breaks accept_clearing
    store_clearing store_authorization
one_instruction = (refl, refl, refl)

simulator_1-Reachable : Reachable host simulator_1
simulator_1-Reachable = authorizing purchase (created (card ∷ []) created_0) authorized_1

simulator_2-Reachable : Reachable host simulator_2
simulator_2-Reachable = clearing completion simulator_1-Reachable cleared_2

daily_approved_minor-within_example :
    daily_approved_minor simulator_1.authorizations "card-1" "2026-09-01" ≤ℤ pos 150
unfolding store_authorization
daily_approved_minor-within_example =
    daily_approved_minor-within host simulator_1 "card-1" "2026-09-01" card simulator_1-Reachable
      refl

instructed-authorization_example :
    (instructed simulator_2.instructions "auth-1" ≡ authorization_2.cleared_minor)
    × (authorization_2.cleared_minor ≤ℤ authorization_2.amount_minor)
unfolding get_authorization accept_clearing store_clearing store_authorization new_authorization
    new_clearing
instructed-authorization_example =
    instructed-authorization host simulator_2 "auth-1" authorization_2 simulator_2-Reachable refl

get_authorization-IsSound_example : IsSound authorization_2
unfolding get_authorization accept_clearing store_clearing store_authorization new_authorization
    new_clearing
get_authorization-IsSound_example =
    get_authorization-IsSound host simulator_2 "auth-1" authorization_2 simulator_2-Reachable refl

authorize-authorize_example :
    authorize host simulator_1 purchase ≡ ok (simulator_1, some authorization_1)
authorize-authorize_example = authorize-authorize host simulator_0 purchase authorized_1

-- A second clearing of the closed authorization is a break.
abbrev late : ClearCardCommand
late = record completion { command_id = "cmd-3"; idempotency_key = "key-3"; clearing_id = "clr-2" }

abbrev clearing_2 : CardClearing
clearing_2 = new_clearing (some authorization_2) late ClearingReason.authorization_not_open

abbrev simulator_3 : Simulator
simulator_3 = break_clearing (store_clearing simulator_2 "cmd-3" late clearing_2) clearing_2

broken_3 : clear host simulator_2 late ≡ ok (simulator_3, some clearing_2)
unfolding clear validate_clearing_command is_blank clearing_reason clear_authorization
    accept_clearing store_clearing store_authorization new_authorization new_clearing ◌+ℤ◌ ◌-ℤ◌
    negate
broken_3 = refl

get_authorization-final_example : get_authorization simulator_3 "auth-1" ≡ some authorization_2
unfolding get_authorization clear_authorization accept_clearing store_clearing store_authorization
    new_authorization new_clearing ◌+ℤ◌ ◌-ℤ◌ negate
get_authorization-final_example =
    get_authorization-final host simulator_2 simulator_3 "auth-1" authorization_2
      simulator_2-Reachable refl refl (clearing_later late itself broken_3)

clear-clear_example : clear host simulator_2 completion ≡ ok (simulator_2, some clearing_1)
clear-clear_example = clear-clear host simulator_1 completion cleared_2
