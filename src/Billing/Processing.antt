-- ===== src/Billing/Processing.antt =====
-- The queue of webhooks of packages/billing/src/index.ts, call by call.
use fuel_cap.Base.{
  ◌≡◌, sym, ap, subst, inl, inr, Bool, not, ◌||◌, Option, none, some, Option-cases, find, values,
  lookup, insert, ◌==◌, string_eq, Result, ok, err, >>-eq_ok, >>=-eq_ok, ok_eq,
}
use fuel_cap.Base.Int.{eqb_ℤ}
use fuel_cap.Billing.{
  validate_payment, validate_subscription, same_currency, reads_other, CreatePaymentCommand,
  PaymentRecord, CreateSubscriptionCommand, SubscriptionRecord, StoredWebhook, StripeEvent, Adapter,
  BillingError, Host, create_payment, create_subscription, process_event, is_pending,
  settled_webhook, process_next_webhook,
}
use fuel_cap.Billing.Invariant.{IsSound, same-IsSound}
use fuel_cap.Billing.Applying.{IsApplied, event-IsApplied}

pub paying-IsSound :
    (host : Host) (c : CreatePaymentCommand) (a b : Adapter) (r : PaymentRecord)
    → create_payment host c a ≡ ok (r, b)
    → IsSound host a
    → IsSound host b
unfolding create_payment
paying-IsSound host c a b r h s =
    let (_, _, h₁) = >>=-eq_ok (validate_payment c) _ h in
    elim (Option-cases (lookup c.idempotency_key a.payments_by_key)) [
      | inr (prior, e) ↦
          let (_, h₂) =
            >>-eq_ok
              (not (prior.customer_id == c.customer_id)
                || not (prior.wallet_id == c.wallet_id)
                || not (eqb_ℤ prior.amount_minor c.amount_minor)
                || not (same_currency prior.currency c.currency)
                || reads_other (lookup c.idempotency_key a.payment_method_by_key)
                    c.payment_method_reference)
              BillingError.key_reused _ (rw e at h₁) in
          subst (IsSound host) (ap (λ (x : PaymentRecord × Adapter). x.1) (ok_eq h₂)) s
      | inl e ↦ elim (Option-cases (host.create_payment_intent c)) [
        | inl f ↦ absurd (refused (rw (e, f) at h₁))
        | inr (result, f) ↦
            let (_, h₂) = >>-eq_ok result.livemode BillingError.live_object _ (rw (e, f) at h₁) in
            let same = ok_eq h₂ in
            same-IsSound host a b (ap (λ x. x.1.events) same) (ap (λ x. x.1.instructions) same) s
      ]
    ]
  where
    refused :
        ◌≡◌ {A = Result BillingError (PaymentRecord × Adapter)}
          (err BillingError.gateway_failed)
          (ok (r, b))
        → ⊥
    refused k = cc

pub subscribing-IsSound :
    (host : Host) (c : CreateSubscriptionCommand) (a b : Adapter) (r : SubscriptionRecord)
    → create_subscription host c a ≡ ok (r, b)
    → IsSound host a
    → IsSound host b
unfolding create_subscription
subscribing-IsSound host c a b r h s =
    let (_, _, h₁) = >>=-eq_ok (validate_subscription c) _ h in
    elim (Option-cases (lookup c.idempotency_key a.subscriptions_by_key)) [
      | inr (prior, e) ↦
          let (_, h₂) =
            >>-eq_ok
              (not (prior.customer_id == c.customer_id)
                || not (prior.plan_id == c.plan_id)
                || not (same_currency prior.currency c.currency)
                || reads_other (lookup c.idempotency_key a.price_by_key) c.price_reference)
              BillingError.key_reused _ (rw e at h₁) in
          subst (IsSound host) (ap (λ (x : SubscriptionRecord × Adapter). x.1) (ok_eq h₂)) s
      | inl e ↦ elim (Option-cases (host.create_subscription c)) [
        | inl f ↦ absurd (refused (rw (e, f) at h₁))
        | inr (result, f) ↦
            let (_, h₂) = >>-eq_ok result.livemode BillingError.live_object _ (rw (e, f) at h₁) in
            let same = ok_eq h₂ in
            same-IsSound host a b (ap (λ x. x.1.events) same) (ap (λ x. x.1.instructions) same) s
      ]
    ]
  where
    refused :
        ◌≡◌ {A = Result BillingError (SubscriptionRecord × Adapter)}
          (err BillingError.gateway_failed)
          (ok (r, b))
        → ⊥
    refused k = cc

-- A call of `processNextWebhook` that returns: there was nothing to do, or the first pending event
-- was applied and settled.
pub data IsProcessed (host : Host) (a : Adapter) (o : Option StoredWebhook) (b : Adapter)
    : Type 0 where
  idle : find is_pending (values a.events) ≡ none → o ≡ none → a ≡ b → IsProcessed host a o b
  settled :
      (w : StoredWebhook) (event : StripeEvent) (done : Bool) (c : Adapter)
      → find is_pending (values a.events) ≡ some w
      → host.parse_event w.raw_payload ≡ some event
      → IsApplied host event done a c
      → o ≡ some (settled_webhook host done w)
      → b ≡ record c { events = insert w.event_id (settled_webhook host done w) c.events }
      → IsProcessed host a o b

pub process_next_webhook-IsProcessed :
    (host : Host) (a b : Adapter) (o : Option StoredWebhook)
    → process_next_webhook host a ≡ ok (o, b)
    → IsProcessed host a o b
unfolding process_next_webhook
process_next_webhook-IsProcessed host a b o h =
    elim (Option-cases (find is_pending (values a.events))) [
      | inl e ↦
          let same = ok_eq (rw (process_next_webhook, e) at h) in
          idle e (sym (ap (λ x. x.0) same)) (ap (λ x. x.1) same)
      | inr (w, e) ↦ elim (Option-cases (host.parse_event w.raw_payload)) [
        | inl f ↦ absurd (refused (rw (process_next_webhook, e, f) at h))
        | inr (event, f) ↦
            let (result, applied, h₁) =
              >>=-eq_ok (process_event host event a) _ (rw (process_next_webhook, e, f) at h) in
            let same = ok_eq h₁ in
            settled w event result.0 result.1 e f
              (event-IsApplied host event a result.1 result.0 applied) (sym (ap (λ x. x.0) same))
              (sym (ap (λ x. x.1) same))
      ]
    ]
  where
    refused :
        ◌≡◌ {A = Result BillingError (Option StoredWebhook × Adapter)}
          (err BillingError.not_json)
          (ok (o, b))
        → ⊥
    refused k = cc
