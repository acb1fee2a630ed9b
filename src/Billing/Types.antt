-- ===== src/Billing/Types.antt =====
-- The data of packages/billing/src/index.ts. The provider and mode of a record, which are constant,
-- are left out.
use fuel_cap.Base.{String, Option, Dict, Bool}
use fuel_cap.Base.Int.{ℤ}

pub data BillingCurrency : Type 0 where
  usd cad gbp : BillingCurrency

pub data PaymentStatus : Type 0 where
  requires_payment_method requires_confirmation requires_action processing : PaymentStatus
  requires_capture succeeded canceled : PaymentStatus

-- `inherited_member` is no status: it is what a member of `Object.prototype` reads as.
pub data SubscriptionStatus : Type 0 where
  incomplete incomplete_expired trialing active : SubscriptionStatus
  past_due subscription_canceled unpaid paused inherited_member : SubscriptionStatus

pub data ProviderMode : Type 0 where
  test live : ProviderMode

pub record CreatePaymentCommand : Type 0 where
  pub command_id : String
  pub idempotency_key : String
  pub customer_id : String
  pub wallet_id : String
  pub amount_minor : ℤ
  pub currency : BillingCurrency
  pub payment_method_reference : String
  pub mode : ProviderMode

pub record PaymentRecord : Type 0 where
  pub payment_id : String
  pub provider_object_id : String
  pub customer_id : String
  pub wallet_id : String
  pub amount_minor : ℤ
  pub currency : BillingCurrency
  pub status : PaymentStatus
  pub idempotency_key : String
  pub updated_at : String

pub record CreateSubscriptionCommand : Type 0 where
  pub command_id : String
  pub idempotency_key : String
  pub customer_id : String
  pub plan_id : String
  pub price_reference : String
  pub currency : BillingCurrency
  pub mode : ProviderMode

pub record SubscriptionRecord : Type 0 where
  pub subscription_id : String
  pub provider_object_id : String
  pub customer_id : String
  pub plan_id : String
  pub currency : BillingCurrency
  pub status : SubscriptionStatus
  pub idempotency_key : String
  pub current_period_end : Option String
  pub updated_at : String

-- The answers of `StripeGateway`; the statuses of Stripe are those of the records.
pub record GatewayPayment : Type 0 where
  pub id : String
  pub status : PaymentStatus
  pub livemode : Bool

pub record GatewaySubscription : Type 0 where
  pub id : String
  pub status : SubscriptionStatus
  pub livemode : Bool
  pub current_period_end : Option String

pub record WebhookRequest : Type 0 where
  pub raw_body : String
  pub signature_header : String
  pub received_at : String

pub data WebhookStatus : Type 0 where
  pending processed ignored : WebhookStatus

pub record StoredWebhook : Type 0 where
  pub event_id : String
  pub event_type : String
  pub payload_hash : String
  pub raw_payload : String
  pub received_at : String
  pub status : WebhookStatus
  pub processed_at : Option String

pub record LedgerFundingInstruction : Type 0 where
  pub instruction_id : String
  pub idempotency_key : String
  pub event_id : String
  pub provider_object_id : String
  pub customer_id : String
  pub wallet_id : String
  pub amount_minor : ℤ
  pub currency : BillingCurrency

pub data Disposition : Type 0 where
  queued duplicate : Disposition

-- `new Date(object.current_period_end * 1000).toISOString()`: not computed where the property is no
-- number, and an error where the time is out of range.
pub data PeriodEnd : Type 0 where
  no_period out_of_range : PeriodEnd
  ends_at : String → PeriodEnd

-- What the code reads of the object of an event: `String(object.id ?? "")`, `object.livemode === true`,
-- `Number(object.amount_received)` (`none` for no integer), `String(object.currency)`,
-- `String(object.status)`, and `current_period_end`. An event without `data.object`, which Stripe does
-- not send, is left out.
pub record StripeObject : Type 0 where
  pub object_id : String
  pub is_live : Bool
  pub amount_received : Option ℤ
  pub currency : String
  pub status : String
  pub period_end : PeriodEnd

-- `id` and `type` are blank where the event has none.
pub record StripeEvent : Type 0 where
  pub id : String
  pub event_type : String
  pub livemode : Bool
  pub object : StripeObject

-- The eight maps of `StripeTestBillingAdapter`.
pub record Adapter : Type 0 where
  pub payments_by_key : Dict String PaymentRecord
  pub subscriptions_by_key : Dict String SubscriptionRecord
  pub payment_method_by_key : Dict String String
  pub price_by_key : Dict String String
  pub payments_by_provider_id : Dict String PaymentRecord
  pub subscriptions_by_provider_id : Dict String SubscriptionRecord
  pub events : Dict String StoredWebhook
  pub instructions : Dict String LedgerFundingInstruction

-- One constructor for each `throw`.
pub data BillingError : Type 0 where
  live_mode text_required amount_invalid key_reused live_object gateway_failed : BillingError
  signature_invalid not_json live_webhook event_reused payment_not_reconciled : BillingError
  subscription_event_invalid range_error : BillingError

-- What the adapter calls: the gateway, the verifier, `now`, the digest, `JSON.parse` of an event
-- and `toUpperCase`.
pub record Host : Type 0 where
  pub create_payment_intent : CreatePaymentCommand → Option GatewayPayment
  pub create_subscription : CreateSubscriptionCommand → Option GatewaySubscription
  pub verify_webhook : WebhookRequest → Bool
  pub now : String
  pub hash : String → String
  pub parse_event : String → Option StripeEvent
  pub to_upper_case : String → String
