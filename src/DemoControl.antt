-- ===== src/DemoControl.antt =====
-- The demo control of packages/demo-control/src/index.ts. Prices are whole cents (3.42 is 342). The
-- constants of the snapshot's type that no code changes are left out, except those that
-- `validateDemoControlSnapshot` tests.
pub mod Invariant
mod Tests
use Prim.Native.String.{◌++◌ as append}
use fuel_cap.Base.{
  ℕ, ◌+◌, String, Bool, true, false, not, ◌&&◌, ◌||◌, Option, none, some, List, [], ◌∷◌, ◌++◌, ◌==◌,
  string_eq, nat_eq, any, slice_last, if◌then◌else◌, Result, ok, err, ◌>>=◌, ◌>>◌, throw_if,
}
use fuel_cap.Base.Text.{is_blank, show_ℕ, pad_start}

pub data CommandType : Type 0 where
  reset_baseline publish_price_rise withdraw_new_quotes : CommandType

pub data ControlState : Type 0 where
  baseline price_rise_published new_quotes_withdrawn : ControlState

pub data QuoteAvailability : Type 0 where
  available paused : QuoteAvailability

-- `status: "PRESERVED"` is a text here, since the check reads it.
pub record AcceptedQuote : Type 0 where
  pub quote_id : String
  pub unit_price : ℕ
  pub status : String

pub record DemoControlAudit : Type 0 where
  pub event_id : String
  pub command : CommandType
  pub actor_id : String
  pub role : String
  pub correlation_id : String
  pub sequence : ℕ
  pub occurred_at : String

pub record DemoControlSnapshot : Type 0 where
  pub schema_version : String
  pub channel_id : String
  pub sequence : ℕ
  pub state : ControlState
  pub display_unit_price : ℕ
  pub quote_availability : QuoteAvailability
  pub customer_message : String
  pub decision_id : String
  pub correlation_id : String
  pub accepted_quote : AcceptedQuote
  pub simulation_only : Bool
  pub live_activation_authorised : Bool
  pub updated_at : String
  pub audit : List DemoControlAudit

pub record DemoControlCommand : Type 0 where
  pub command : CommandType
  pub actor_id : String
  pub role : String
  pub idempotency_key : String
  pub occurred_at : String

pub data DemoControlError : Type 0 where
  requires_presenter_or_risk_role requires_named_actor requires_idempotency_key : DemoControlError
  contract_invalid accepted_quote_mutated live_activation_prohibited : DemoControlError
  quote_availability_inconsistent : DemoControlError

abbrev pub demo_control_schema : String
demo_control_schema = "fuelcap.demo-control.v1"

abbrev pub channel : String
channel = "investor-demo-consumer-us"

abbrev initial_quote : AcceptedQuote
initial_quote = record {
  quote_id = "QUOTE-DEMO-ACCEPTED-001";
  unit_price = 342;
  status = "PRESERVED";
}

-- `initialDemoControlSnapshot`
pub initial_snapshot : DemoControlSnapshot
initial_snapshot = record {
  schema_version = demo_control_schema;
  channel_id = channel;
  sequence = 0;
  state = baseline;
  display_unit_price = 342;
  quote_availability = available;
  customer_message = "Demo control connected · baseline pricing available";
  decision_id = "SPREAD-DEMO-BASELINE-v1";
  correlation_id = "DEMO-CONTROL-BASELINE";
  accepted_quote = initial_quote;
  simulation_only = true;
  live_activation_authorised = false;
  updated_at = "2026-09-01T12:00:00.000Z";
  audit = [];
}

-- `...projection`
pub project : CommandType → DemoControlSnapshot → DemoControlSnapshot
project reset_baseline s = record s {
  state = baseline;
  display_unit_price = 342;
  quote_availability = available;
  customer_message = "Demo control connected · baseline pricing available";
  decision_id = "SPREAD-DEMO-BASELINE-v1";
}
project publish_price_rise s = record s {
  state = price_rise_published;
  display_unit_price = 367;
  quote_availability = available;
  customer_message = "Admin published a simulated price rise · new protection price available";
  decision_id = "SPREAD-DEMO-RISE-v2";
}
project withdraw_new_quotes s = record s {
  state = new_quotes_withdrawn;
  quote_availability = paused;
  customer_message = "Admin withdrew new quotes · your accepted quote remains protected";
  decision_id = "SPREAD-DEMO-WITHDRAWN-v3";
}

abbrev pub correlation : ℕ → String
correlation sequence = append "DEMO-CONTROL-" (pad_start 3 (show_ℕ sequence))

pub audit_event : DemoControlCommand → ℕ → DemoControlAudit
audit_event c sequence = record {
  event_id = c.idempotency_key;
  command = c.command;
  actor_id = c.actor_id;
  role = c.role;
  correlation_id = correlation sequence;
  sequence = sequence;
  occurred_at = c.occurred_at;
}

-- What the new snapshot is, for a command that is not a duplicate.
pub advance : DemoControlSnapshot → DemoControlCommand → DemoControlSnapshot
unfolding project audit_event
advance s c =
    let sequence = s.sequence + 1 in
    record (project c.command s) {
      sequence = sequence;
      correlation_id = correlation sequence;
      updated_at = c.occurred_at;
      audit = slice_last 10 (s.audit ++ audit_event c sequence ∷ []);
      accepted_quote = initial_quote;
      simulation_only = true;
      live_activation_authorised = false;
    }

abbrev pub is_duplicate : List DemoControlAudit → String → Bool
is_duplicate audit key = any (λ e. e.event_id == key) audit

-- `applyDemoControlCommand`
pub apply_demo_control_command :
    DemoControlSnapshot → DemoControlCommand → Result DemoControlError DemoControlSnapshot
apply_demo_control_command s c = do
  throw_if (not (c.role == "DP") && not (c.role == "RT")) requires_presenter_or_risk_role
  throw_if (is_blank c.actor_id) requires_named_actor
  throw_if (is_blank c.idempotency_key) requires_idempotency_key
  ok (if is_duplicate s.audit c.idempotency_key then s else advance s c)

abbrev is_paused : QuoteAvailability → Bool
is_paused paused = true
is_paused available = false

abbrev is_withdrawn : ControlState → Bool
is_withdrawn new_quotes_withdrawn = true
is_withdrawn _ = false

-- `validateDemoControlSnapshot`
pub validate_demo_control_snapshot :
    DemoControlSnapshot → Result DemoControlError DemoControlSnapshot
validate_demo_control_snapshot s = do
  throw_if (not (s.schema_version == demo_control_schema) || not (s.channel_id == channel))
      contract_invalid
  throw_if
      (not (s.accepted_quote.status == "PRESERVED") || not (s.accepted_quote.unit_price == 342))
      accepted_quote_mutated
  throw_if (not s.simulation_only || s.live_activation_authorised) live_activation_prohibited
  throw_if (is_paused s.quote_availability && not (is_withdrawn s.state))
      quote_availability_inconsistent
  ok s
