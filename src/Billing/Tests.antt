-- ===== src/Billing/Tests.antt =====
-- Runs of the billing adapter, and its theorems there.
use fuel_cap.Base.{suc, ◌≡◌, refl, ◌⊎◌, true, false, none, some, [], ◌∷◌, string_eq, ok, err}
use fuel_cap.Base.Int.{pos}
use fuel_cap.Base.Text.{is_blank}
use fuel_cap.Billing.{
  PeriodEnd, usd, processing, test, CreatePaymentCommand, PaymentRecord, WebhookRequest,
  StoredWebhook, LedgerFundingInstruction, queued, duplicate, StripeEvent, Adapter, BillingError,
  Host, empty_adapter, validate_payment, create_payment, new_payment, new_webhook, ingest_webhook,
  process_payment_succeeded, process_event, settled_webhook, succeeded_payment, new_instruction,
  process_next_webhook,
}
use fuel_cap.Billing.Invariant.{
  Reachable, start, next, paying, ingesting, processing_next, IsBacked,
}
use fuel_cap.Billing.Funding.{pending_count, funding-IsBacked, process_next_webhook-pending_count}

abbrev event : StripeEvent
event = record {
  id = "evt-1";
  event_type = "payment_intent.succeeded";
  livemode = false;
  object = record {
    object_id = "pi-1";
    is_live = false;
    amount_received = some (pos 5000);
    currency = "USD";
    status = "succeeded";
    period_end = PeriodEnd.no_period;
  };
}

abbrev host : Host
host = record {
  create_payment_intent = λ c. some (record { id = "pi-1"; status = processing; livemode = false });
  create_subscription = λ c. none;
  verify_webhook = λ q. true;
  now = "2026-05-01";
  hash = λ s. s;
  parse_event = λ s. some event;
  to_upper_case = λ s. s;
}

abbrev command : CreatePaymentCommand
command = record {
  command_id = "cmd-1";
  idempotency_key = "key-1";
  customer_id = "cust-1";
  wallet_id = "w-1";
  amount_minor = pos 5000;
  currency = usd;
  payment_method_reference = "pm-1";
  mode = test;
}

abbrev payment : PaymentRecord
payment = new_payment host command (record { id = "pi-1"; status = processing; livemode = false })

abbrev paid : Adapter
paid = record empty_adapter {
  payments_by_key = ("key-1", payment) ∷ [];
  payment_method_by_key = ("key-1", "pm-1") ∷ [];
  payments_by_provider_id = ("pi-1", payment) ∷ [];
}

pays : create_payment host command empty_adapter ≡ ok (payment, paid)
unfolding create_payment validate_payment is_blank
pays = refl

abbrev request : WebhookRequest
request = record { raw_body = "{}"; signature_header = "t=1"; received_at = "2026-05-01" }

abbrev webhook : StoredWebhook
webhook = new_webhook host request event

abbrev waiting : Adapter
waiting = record paid { events = ("evt-1", webhook) ∷ [] }

queues : ingest_webhook host request paid ≡ ok (queued, (webhook, waiting))
unfolding ingest_webhook is_blank
queues = refl

abbrev instruction : LedgerFundingInstruction
instruction = new_instruction "evt-1" payment "pi-1"

abbrev funded : Adapter
funded = record waiting {
  payments_by_key = ("key-1", succeeded_payment host payment) ∷ [];
  payments_by_provider_id = ("pi-1", succeeded_payment host payment) ∷ [];
  events = ("evt-1", settled_webhook host true webhook) ∷ [];
  instructions = ("evt-1", instruction) ∷ [];
}

processes :
    process_next_webhook host waiting ≡ ok (some (settled_webhook host true webhook), funded)
unfolding process_next_webhook process_event process_payment_succeeded
processes = refl

-- A second arrival of the event changes nothing.
repeats :
    ingest_webhook host request funded ≡ ok (duplicate, (settled_webhook host true webhook, funded))
unfolding ingest_webhook is_blank
repeats = refl

-- An event whose amount is not that of the payment fails, and stays the first that is pending.
unreconciled :
    process_next_webhook
      (record host {
        parse_event = λ s.
            some (record event { object = record event.object { amount_received = some (pos 1) } });
      })
      waiting
    ≡ err BillingError.payment_not_reconciled
unfolding process_next_webhook process_event process_payment_succeeded
unreconciled = refl

reached : Reachable host waiting
reached = next (next start (paying command payment pays)) (ingesting request queued webhook queues)

funding-IsBacked_example : IsBacked host funded.events instruction
funding-IsBacked_example =
    funding-IsBacked host funded "evt-1" instruction
      (next reached (processing_next (some (settled_webhook host true webhook)) processes)) refl

process_next_webhook-pending_count_example :
    ((some (settled_webhook host true webhook) ≡ none)
      × (waiting ≡ funded)
      × (pending_count waiting ≡ 0))
    ⊎ (suc (pending_count funded) ≡ pending_count waiting)
process_next_webhook-pending_count_example =
    process_next_webhook-pending_count host waiting funded
      (some (settled_webhook host true webhook)) reached processes
