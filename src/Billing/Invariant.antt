-- ===== src/Billing/Invariant.antt =====
-- What every adapter of packages/billing/src/index.ts keeps that its methods can reach.
use fuel_cap.Base.{
  String, ◌≡◌, refl, sym, ap, subst, ◌∙◌, inl, inr, Bool, true, false, false≢true, not, ◌||◌,
  Option, some, none_ne_some, Option-cases, Dict, lookup, insert, lookup-insert, Each, Each-insert,
  ◌==◌, ==-eq, string_eq, Bool-cases, Result, ok, err, >>-eq_ok, ok_eq, not-eq_false,
}
use fuel_cap.Base.Text.{is_blank}
use fuel_cap.Billing.{
  CreatePaymentCommand, PaymentRecord, CreateSubscriptionCommand, SubscriptionRecord,
  WebhookRequest, WebhookStatus, StoredWebhook, pending, processed, ignored,
  LedgerFundingInstruction, Disposition, StripeEvent, Adapter, BillingError, Host, empty_adapter,
  create_payment, create_subscription, ingest_webhook, is_pending, process_next_webhook,
}
use fuel_cap.Billing.Queue.{IsDistinct, insert-IsDistinct}

-- One call of a method that returns.
pub data Step (host : Host) (a b : Adapter) : Type 0 where
  paying :
      (c : CreatePaymentCommand) (r : PaymentRecord)
      → create_payment host c a ≡ ok (r, b)
      → Step host a b
  subscribing :
      (c : CreateSubscriptionCommand) (r : SubscriptionRecord)
      → create_subscription host c a ≡ ok (r, b)
      → Step host a b
  ingesting :
      (q : WebhookRequest) (d : Disposition) (w : StoredWebhook)
      → ingest_webhook host q a ≡ ok (d, (w, b))
      → Step host a b
  processing_next :
      (o : Option StoredWebhook) → process_next_webhook host a ≡ ok (o, b) → Step host a b

pub data Reachable (host : Host) : Adapter → Type 0 where
  start : Reachable host empty_adapter
  next : {a b : Adapter} → Reachable host a → Step host a b → Reachable host b

-- A stored event came with a request that was verified, and is kept under its own identity.
pub record IsFiled (host : Host) (k : String) (w : StoredWebhook) : Type 0 where
  pub event : StripeEvent
  pub parses : host.parse_event w.raw_payload ≡ some event
  pub id : event.id ≡ k
  pub own : w.event_id ≡ k
  pub request : WebhookRequest
  pub body : request.raw_body ≡ w.raw_payload
  pub verified : host.verify_webhook request ≡ true

-- A funding instruction rests on a stored event that was processed and says what it says.
pub record IsBacked (host : Host) (events : Dict String StoredWebhook)
    (i : LedgerFundingInstruction) : Type 0 where
  pub webhook : StoredWebhook
  pub stored : lookup i.event_id events ≡ some webhook
  pub done : webhook.status ≡ processed
  pub event : StripeEvent
  pub parses : host.parse_event webhook.raw_payload ≡ some event
  pub succeeded : event.event_type ≡ "payment_intent.succeeded"
  pub test_mode : event.object.is_live ≡ false
  pub object : event.object.object_id ≡ i.provider_object_id
  pub amount : event.object.amount_received ≡ some i.amount_minor

pub record IsSound (host : Host) (a : Adapter) : Type 0 where
  pub distinct : IsDistinct a.events
  pub filed : Each (IsFiled host) a.events
  pub backed : Each (λ k i. IsBacked host a.events i) a.instructions

pub empty-IsSound : (host : Host) → IsSound host empty_adapter
empty-IsSound host = record {
  distinct = tt;
  filed = λ k w h. absurd (cc);
  backed = λ k i h. absurd (cc);
}

-- Only events and instructions count.
pub same-IsSound :
    (host : Host) (a b : Adapter)
    → a.events ≡ b.events
    → a.instructions ≡ b.instructions
    → IsSound host a
    → IsSound host b
same-IsSound host a b e f s = record {
  distinct = subst IsDistinct e s.distinct;
  filed = subst (λ d. Each (IsFiled host) d) e s.filed;
  backed =
      subst (λ d. Each (λ k i. IsBacked host b.events i) d) f
        (subst (λ d. Each (λ k i. IsBacked host d i) a.instructions) e s.backed);
}

-- What backs an instruction stays while an event that is not processed is written.
pub kept-IsBacked :
    (host : Host) (k : String) (v : StoredWebhook) (events : Dict String StoredWebhook)
    (i : LedgerFundingInstruction)
    → ((w : StoredWebhook) → lookup k events ≡ some w → is_pending w ≡ true)
    → IsBacked host events i
    → IsBacked host (insert k v events) i
kept-IsBacked host k v events i is_open r = elim (Bool-cases (k == i.event_id)) [
  | inl e ↦ absurd (
      false≢true (
        ap is_pending_status (sym r.done)
        ∙ is_open r.webhook (ap (λ j. lookup j events) (==-eq k i.event_id e) ∙ r.stored)))
  | inr e ↦ record {
    webhook = r.webhook;
    stored = lookup-insert k i.event_id v events ∙ rw e r.stored;
    done = r.done;
    event = r.event;
    parses = r.parses;
    succeeded = r.succeeded;
    test_mode = r.test_mode;
    object = r.object;
    amount = r.amount;
  }
]
  where
    is_pending_status : WebhookStatus → Bool
    is_pending_status s = elim s [ pending ↦ true | processed ↦ false | ignored ↦ false ]

pub ingest-IsSound :
    (host : Host) (q : WebhookRequest) (a b : Adapter) (d : Disposition) (w : StoredWebhook)
    → ingest_webhook host q a ≡ ok (d, (w, b))
    → IsSound host a
    → IsSound host b
unfolding ingest_webhook
ingest-IsSound host q a b d w h s =
    let (verified, h₁) =
      >>-eq_ok (not (host.verify_webhook q)) BillingError.signature_invalid _ h in
    elim (Option-cases (host.parse_event q.raw_body)) [
      | inl e ↦ absurd (refused (rw e at h₁))
      | inr (event, e) ↦
          let (_, h₂) =
            >>-eq_ok (is_blank event.id || is_blank event.event_type) BillingError.text_required _
              (rw e at h₁) in
          let (_, h₃) = >>-eq_ok event.livemode BillingError.live_webhook _ h₂ in
          elim (Option-cases (lookup event.id a.events)) [
            | inr (prior, f) ↦
                let (_, h₄) =
                  >>-eq_ok (not (prior.payload_hash == host.hash q.raw_body))
                    BillingError.event_reused _ (rw f at h₃) in
                subst (IsSound host)
                  (ap (λ (r : Disposition × (StoredWebhook × Adapter)). r.1.1) (ok_eq h₄)) s
            | inl f ↦
                subst (IsSound host)
                  (ap (λ (r : Disposition × (StoredWebhook × Adapter)). r.1.1) (ok_eq (rw f at h₃)))
                  (record {
                    distinct = insert-IsDistinct event.id _ a.events s.distinct;
                    filed = Each-insert (IsFiled host) event.id _ a.events s.filed (record {
                      event = event;
                      parses = e;
                      id = refl;
                      own = refl;
                      request = q;
                      body = refl;
                      verified = not-eq_false _ verified;
                    });
                    backed = λ k i found.
                        kept-IsBacked host event.id _ a.events i
                          (λ x stored. absurd (none_ne_some (sym stored ∙ f))) (s.backed k i found);
                  })
          ]
    ]
  where
    refused :
        ◌≡◌ {A = Result BillingError (Disposition × (StoredWebhook × Adapter))}
          (err BillingError.not_json)
          (ok (d, (w, b)))
        → ⊥
    refused k = cc
