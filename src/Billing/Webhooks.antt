-- ===== src/Billing/Webhooks.antt =====
-- The webhooks of packages/billing/src/index.ts, from their arrival to what they change.
use Prim.Native.String.{◌++◌ as append}
use fuel_cap.Base.{
  String, Bool, true, false, not, ◌||◌, Option, none, some, List, find, values, lookup, insert,
  ◌==◌, string_eq, if◌then◌else◌, Result, ok, err, ◌>>=◌, ◌>>◌, throw_if,
}
use fuel_cap.Base.Int.{ℤ, eqb_ℤ}
use fuel_cap.Base.Text.{is_blank, starts_with}
use fuel_cap.Base.Objects.{is_inherited}
use fuel_cap.Billing.Types.{
  BillingCurrency, usd, cad, gbp, PaymentRecord, succeeded, SubscriptionRecord, SubscriptionStatus,
  incomplete, incomplete_expired, trialing, active, past_due, subscription_canceled, unpaid, paused,
  inherited_member, WebhookRequest, pending, processed, ignored, StoredWebhook,
  LedgerFundingInstruction, Disposition, queued, duplicate, PeriodEnd, no_period, out_of_range,
  ends_at, StripeObject, StripeEvent, Adapter, BillingError, text_required, signature_invalid,
  not_json, live_webhook, event_reused, payment_not_reconciled, subscription_event_invalid,
  range_error, Host,
}

abbrev pub currency_text : BillingCurrency → String
currency_text usd = "USD"
currency_text cad = "CAD"
currency_text gbp = "GBP"

-- `subscriptionStatuses[rawStatus]`, which also finds what every object inherits
abbrev pub subscription_status : String → Option SubscriptionStatus
subscription_status s =
    if s == "incomplete"
    then some incomplete
    else if s == "incomplete_expired"
    then some incomplete_expired
    else if s == "trialing"
    then some trialing
    else if s == "active"
    then some active
    else if s == "past_due"
    then some past_due
    else if s == "canceled"
    then some subscription_canceled
    else if s == "unpaid"
    then some unpaid
    else if s == "paused"
    then some paused
    else if is_inherited s
    then some inherited_member
    else none

abbrev pub new_webhook : Host → WebhookRequest → StripeEvent → StoredWebhook
new_webhook host request event = record {
  event_id = event.id;
  event_type = event.event_type;
  payload_hash = host.hash request.raw_body;
  raw_payload = request.raw_body;
  received_at = request.received_at;
  status = pending;
  processed_at = none;
}

-- `ingestWebhook`
unfoldable pub ingest_webhook :
    Host → WebhookRequest → Adapter → Result BillingError (Disposition × (StoredWebhook × Adapter))
ingest_webhook host request a = do
  throw_if (not (host.verify_webhook request)) signature_invalid
  elim (host.parse_event request.raw_body) [
    | none ↦ err not_json
    | some event ↦ do
      throw_if (is_blank event.id || is_blank event.event_type) text_required
      throw_if event.livemode live_webhook
      elim (lookup event.id a.events) [
        | some prior ↦ do
          throw_if (not (prior.payload_hash == host.hash request.raw_body)) event_reused
          ok (duplicate, (prior, a))
        | none ↦
            let stored = new_webhook host request event in
            ok (queued, (stored, record a { events = insert event.id stored a.events }))
      ]
  ]

abbrev pub amount_differs : Option ℤ → ℤ → Bool
amount_differs none amount = true
amount_differs (some n) amount = not (eqb_ℤ n amount)

abbrev pub new_instruction : String → PaymentRecord → String → LedgerFundingInstruction
new_instruction event_id payment provider_object_id = record {
  instruction_id = append "stripe:" event_id;
  idempotency_key = append "stripe-event:" event_id;
  event_id = event_id;
  provider_object_id = provider_object_id;
  customer_id = payment.customer_id;
  wallet_id = payment.wallet_id;
  amount_minor = payment.amount_minor;
  currency = payment.currency;
}

abbrev pub not_reconciled : Host → StripeObject → PaymentRecord → Bool
not_reconciled host o payment =
    o.is_live
    || amount_differs o.amount_received payment.amount_minor
    || not (host.to_upper_case o.currency == currency_text payment.currency)

abbrev pub succeeded_payment : Host → PaymentRecord → PaymentRecord
succeeded_payment host payment = record payment { status = succeeded; updated_at = host.now }

-- `processPaymentSucceeded`
unfoldable pub process_payment_succeeded :
    Host → StripeEvent → Adapter → Result BillingError (Bool × Adapter)
process_payment_succeeded host event a =
    let id = event.object.object_id in
    elim (lookup id a.payments_by_provider_id) [
      | none ↦ ok (false, a)
      | some payment ↦ do
        throw_if (not_reconciled host event.object payment) payment_not_reconciled
        ok (
          true,
          record a {
            payments_by_provider_id =
                insert id (succeeded_payment host payment) a.payments_by_provider_id;
            payments_by_key =
                insert payment.idempotency_key (succeeded_payment host payment) a.payments_by_key;
            instructions = insert event.id (new_instruction event.id payment id) a.instructions;
          },
        )
    ]

abbrev pub updated_subscription :
    Host → StripeObject → SubscriptionStatus → SubscriptionRecord → SubscriptionRecord
updated_subscription host o status subscription = record subscription {
  status = status;
  current_period_end = elim o.period_end [
    | ends_at t ↦ some t
    | no_period ↦ subscription.current_period_end
    | out_of_range ↦ subscription.current_period_end
  ];
  updated_at = host.now;
}

abbrev pub is_out_of_range : PeriodEnd → Bool
is_out_of_range out_of_range = true
is_out_of_range _ = false

-- `processSubscriptionEvent`
unfoldable pub process_subscription_event :
    Host → StripeEvent → Adapter → Result BillingError (Bool × Adapter)
process_subscription_event host event a =
    let id = event.object.object_id in
    elim (lookup id a.subscriptions_by_provider_id) [
      | none ↦ ok (false, a)
      | some subscription ↦ elim (subscription_status event.object.status) [
        | none ↦ err subscription_event_invalid
        | some status ↦ do
          throw_if event.object.is_live subscription_event_invalid
          throw_if (is_out_of_range event.object.period_end) range_error
          let updated = updated_subscription host event.object status subscription
          ok (
            true,
            record a {
              subscriptions_by_provider_id = insert id updated a.subscriptions_by_provider_id;
              subscriptions_by_key =
                  insert subscription.idempotency_key updated a.subscriptions_by_key;
            },
          )
      ]
    ]

-- What an event does, by its type.
unfoldable pub process_event : Host → StripeEvent → Adapter → Result BillingError (Bool × Adapter)
process_event host event a =
    if event.event_type == "payment_intent.succeeded"
    then process_payment_succeeded host event a
    else if starts_with event.event_type "customer.subscription."
    then process_subscription_event host event a
    else ok (false, a)

abbrev pub is_pending : StoredWebhook → Bool
is_pending w = elim w.status [ pending ↦ true | processed ↦ false | ignored ↦ false ]

abbrev pub settled_webhook : Host → Bool → StoredWebhook → StoredWebhook
settled_webhook host done w = record w {
  status = if done then processed else ignored;
  processed_at = some host.now;
}

-- `processNextWebhook`
unfoldable pub process_next_webhook :
    Host → Adapter → Result BillingError (Option StoredWebhook × Adapter)
process_next_webhook host a = elim (find is_pending (values a.events)) [
  | none ↦ ok (none, a)
  | some w ↦ elim (host.parse_event w.raw_payload) [
    | none ↦ err not_json
    | some event ↦ do
      result ← process_event host event a
      let updated = settled_webhook host result.0 w
      ok (
        some updated,
        record result.1 { events = insert updated.event_id updated result.1.events },
      )
  ]
]

-- `listWebhookEvents`, `listFundingInstructions`, `getPayment`, `getSubscription`
abbrev pub list_webhook_events : Adapter → List StoredWebhook
list_webhook_events a = values a.events

abbrev pub list_funding_instructions : Adapter → List LedgerFundingInstruction
list_funding_instructions a = values a.instructions

abbrev pub get_payment : String → Adapter → Option PaymentRecord
get_payment id a = lookup id a.payments_by_provider_id

abbrev pub get_subscription : String → Adapter → Option SubscriptionRecord
get_subscription id a = lookup id a.subscriptions_by_provider_id
