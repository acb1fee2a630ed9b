-- ===== src/Billing/Applying.antt =====
-- What a webhook event changes in the adapter of packages/billing/src/index.ts.
use fuel_cap.Base.{
  ◌≡◌, sym, ap, inl, inr, ◌⊎◌, Bool, true, false, Option-cases, lookup, insert, ◌==◌, ==-eq,
  string_eq, Bool-cases, Result, ok, err, >>-eq_ok, ok_eq,
}
use fuel_cap.Base.Text.{starts_with}
use fuel_cap.Billing.{
  PaymentRecord, StripeEvent, Adapter, BillingError, Host, not_reconciled, new_instruction,
  subscription_status, is_out_of_range, process_payment_succeeded, process_subscription_event,
  process_event,
}

-- What an event does: it leaves the events, and adds at most the instruction that it is due.
pub record IsApplied (host : Host) (event : StripeEvent) (done : Bool) (a b : Adapter)
    : Type 0 where
  pub events : a.events ≡ b.events
  pub instructions :
      (a.instructions ≡ b.instructions)
      ⊎ ((p : PaymentRecord) × (b.instructions
            ≡ insert event.id (new_instruction event.id p event.object.object_id) a.instructions)
          × (done ≡ true)
          × (event.event_type ≡ "payment_intent.succeeded")
          × (not_reconciled host event.object p ≡ false))

payment-IsApplied :
    (host : Host) (event : StripeEvent) (a b : Adapter) (done : Bool)
    → (event.event_type == "payment_intent.succeeded") ≡ true
    → process_payment_succeeded host event a ≡ ok (done, b)
    → IsApplied host event done a b
unfolding process_payment_succeeded
payment-IsApplied host event a b done t h =
    elim (Option-cases (lookup event.object.object_id a.payments_by_provider_id)) [
      | inl e ↦
          let same =
            ap (λ (r : Bool × Adapter). r.1) (ok_eq (rw (process_payment_succeeded, e) at h)) in
          record {
            events = ap (λ x. x.events) same;
            instructions = inl (ap (λ x. x.instructions) same);
          }
      | inr (p, e) ↦
          let (fits, h₁) =
            >>-eq_ok (not_reconciled host event.object p) BillingError.payment_not_reconciled _
              (rw (process_payment_succeeded, e) at h) in
          let same = ok_eq h₁ in
          record {
            events = ap (λ r. r.1.events) same;
            instructions = inr (
              p,
              sym (ap (λ r. r.1.instructions) same),
              sym (ap (λ r. r.0) same),
              ==-eq _ _ t,
              fits,
            );
          }
    ]

subscription-IsApplied :
    (host : Host) (event : StripeEvent) (a b : Adapter) (done : Bool)
    → process_subscription_event host event a ≡ ok (done, b)
    → IsApplied host event done a b
unfolding process_subscription_event
subscription-IsApplied host event a b done h =
    elim (Option-cases (lookup event.object.object_id a.subscriptions_by_provider_id)) [
      | inl e ↦
          unchanged
            (ap (λ (r : Bool × Adapter). r.1) (ok_eq (rw (process_subscription_event, e) at h)))
      | inr (p, e) ↦ elim (Option-cases (subscription_status event.object.status)) [
        | inl f ↦ absurd (refused (rw (process_subscription_event, e, f) at h))
        | inr (status, f) ↦
            let (_, h₂) =
              >>-eq_ok event.object.is_live BillingError.subscription_event_invalid _
                (rw (process_subscription_event, e, f) at h) in
            let (_, h₁) =
              >>-eq_ok (is_out_of_range event.object.period_end) BillingError.range_error _ h₂ in
            record {
              events = ap (λ r. r.1.events) (ok_eq h₁);
              instructions = inl (ap (λ r. r.1.instructions) (ok_eq h₁));
            }
      ]
    ]
  where
    unchanged : a ≡ b → IsApplied host event done a b
    unchanged same = record {
      events = ap (λ x. x.events) same;
      instructions = inl (ap (λ x. x.instructions) same);
    }

    refused :
        ◌≡◌ {A = Result BillingError (Bool × Adapter)}
          (err BillingError.subscription_event_invalid)
          (ok (done, b))
        → ⊥
    refused k = cc

pub event-IsApplied :
    (host : Host) (event : StripeEvent) (a b : Adapter) (done : Bool)
    → process_event host event a ≡ ok (done, b)
    → IsApplied host event done a b
unfolding process_event
event-IsApplied host event a b done h =
    elim (Bool-cases (event.event_type == "payment_intent.succeeded")) [
      | inl e ↦ payment-IsApplied host event a b done e (rw e at h)
      | inr e ↦ elim (Bool-cases (starts_with event.event_type "customer.subscription.")) [
        | inl f ↦ subscription-IsApplied host event a b done (rw (e, f) at h)
        | inr f ↦
            let same = ap (λ (r : Bool × Adapter). r.1) (ok_eq (rw (e, f) at h)) in
            record {
              events = ap (λ x. x.events) same;
              instructions = inl (ap (λ x. x.instructions) same);
            }
      ]
    ]
