-- ===== src/Billing/Creating.antt =====
-- The constructor, `createPayment` and `createSubscription` of packages/billing/src/index.ts. A call
-- of the gateway is part of its step, so calls do not overlap; `none` is a gateway that throws.
use fuel_cap.Base.{
  String, Bool, true, false, not, ◌||◌, Option, none, some, [], ◌∷◌, any, lookup, insert, ◌==◌,
  string_eq, Result, ok, err, ◌>>◌, throw_if,
}
use fuel_cap.Base.Int.{pos, leb_ℤ, eqb_ℤ, is_safe_integer}
use fuel_cap.Base.Text.{is_blank}
use fuel_cap.Billing.Types.{
  BillingCurrency, usd, cad, gbp, ProviderMode, test, live, CreatePaymentCommand, PaymentRecord,
  CreateSubscriptionCommand, SubscriptionRecord, GatewayPayment, GatewaySubscription, Adapter,
  BillingError, live_mode, text_required, amount_invalid, key_reused, live_object, gateway_failed,
  Host,
}

abbrev pub empty_adapter : Adapter
empty_adapter = record {
  payments_by_key = [];
  subscriptions_by_key = [];
  payment_method_by_key = [];
  price_by_key = [];
  payments_by_provider_id = [];
  subscriptions_by_provider_id = [];
  events = [];
  instructions = [];
}

abbrev pub same_currency : BillingCurrency → BillingCurrency → Bool
same_currency usd b = elim b [ usd ↦ true | cad ↦ false | gbp ↦ false ]
same_currency cad b = elim b [ usd ↦ false | cad ↦ true | gbp ↦ false ]
same_currency gbp b = elim b [ usd ↦ false | cad ↦ false | gbp ↦ true ]

-- `requireTestMode` throws
abbrev pub is_live_mode : ProviderMode → Bool
is_live_mode test = false
is_live_mode live = true

-- `validatePayment`
unfoldable pub validate_payment : CreatePaymentCommand → Result BillingError (Unit {0})
validate_payment c = do
  throw_if (is_live_mode c.mode) live_mode
  throw_if
      (any is_blank (
        c.command_id ∷ c.idempotency_key ∷ c.customer_id ∷ c.wallet_id ∷ c.payment_method_reference
        ∷ []))
      text_required
  throw_if (not (is_safe_integer c.amount_minor) || leb_ℤ c.amount_minor (pos 0)) amount_invalid

-- `validateSubscription`
unfoldable pub validate_subscription : CreateSubscriptionCommand → Result BillingError (Unit {0})
validate_subscription c = do
  throw_if (is_live_mode c.mode) live_mode
  throw_if
      (any is_blank
        (c.command_id ∷ c.idempotency_key ∷ c.customer_id ∷ c.plan_id ∷ c.price_reference ∷ []))
      text_required

-- `map.get(key) !== value`
abbrev pub reads_other : Option String → String → Bool
reads_other none v = true
reads_other (some w) v = not (w == v)

abbrev pub new_payment : Host → CreatePaymentCommand → GatewayPayment → PaymentRecord
new_payment host c result = record {
  payment_id = c.command_id;
  provider_object_id = result.id;
  customer_id = c.customer_id;
  wallet_id = c.wallet_id;
  amount_minor = c.amount_minor;
  currency = c.currency;
  status = result.status;
  idempotency_key = c.idempotency_key;
  updated_at = host.now;
}

-- `createPayment`
unfoldable pub create_payment :
    Host → CreatePaymentCommand → Adapter → Result BillingError (PaymentRecord × Adapter)
create_payment host c a = do
  validate_payment c
  elim (lookup c.idempotency_key a.payments_by_key) [
    | some prior ↦ do
      throw_if
          (not (prior.customer_id == c.customer_id)
            || not (prior.wallet_id == c.wallet_id)
            || not (eqb_ℤ prior.amount_minor c.amount_minor)
            || not (same_currency prior.currency c.currency)
            || reads_other (lookup c.idempotency_key a.payment_method_by_key)
                c.payment_method_reference)
          key_reused
      ok (prior, a)
    | none ↦ elim (host.create_payment_intent c) [
      | none ↦ err gateway_failed
      | some result ↦ do
        throw_if result.livemode live_object
        let payment = new_payment host c result
        ok (
          payment,
          record a {
            payments_by_key = insert c.idempotency_key payment a.payments_by_key;
            payment_method_by_key =
                insert c.idempotency_key c.payment_method_reference a.payment_method_by_key;
            payments_by_provider_id = insert result.id payment a.payments_by_provider_id;
          },
        )
    ]
  ]

abbrev pub new_subscription :
    Host → CreateSubscriptionCommand → GatewaySubscription → SubscriptionRecord
new_subscription host c result = record {
  subscription_id = c.command_id;
  provider_object_id = result.id;
  customer_id = c.customer_id;
  plan_id = c.plan_id;
  currency = c.currency;
  status = result.status;
  idempotency_key = c.idempotency_key;
  current_period_end = result.current_period_end;
  updated_at = host.now;
}

-- `createSubscription`
unfoldable pub create_subscription :
    Host → CreateSubscriptionCommand → Adapter → Result BillingError (SubscriptionRecord × Adapter)
create_subscription host c a = do
  validate_subscription c
  elim (lookup c.idempotency_key a.subscriptions_by_key) [
    | some prior ↦ do
      throw_if
          (not (prior.customer_id == c.customer_id)
            || not (prior.plan_id == c.plan_id)
            || not (same_currency prior.currency c.currency)
            || reads_other (lookup c.idempotency_key a.price_by_key) c.price_reference)
          key_reused
      ok (prior, a)
    | none ↦ elim (host.create_subscription c) [
      | none ↦ err gateway_failed
      | some result ↦ do
        throw_if result.livemode live_object
        let subscription = new_subscription host c result
        ok (
          subscription,
          record a {
            subscriptions_by_key = insert c.idempotency_key subscription a.subscriptions_by_key;
            price_by_key = insert c.idempotency_key c.price_reference a.price_by_key;
            subscriptions_by_provider_id =
                insert result.id subscription a.subscriptions_by_provider_id;
          },
        )
    ]
  ]
