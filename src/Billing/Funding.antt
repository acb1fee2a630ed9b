-- ===== src/Billing/Funding.antt =====
-- What holds of every adapter of packages/billing/src/index.ts, and that its queue shrinks.
use fuel_cap.Base.{
  ℕ, suc, String, ◌≡◌, refl, sym, ap, subst, ◌∙◌, inl, inr, ◌⊎◌, Bool, true, false, false≢true,
  ◌||◌, Option, none, some, some_eq, find, values, lookup, insert, lookup-insert, Each, Each-insert,
  ◌==◌, ==_refl, string_eq, if◌then◌else◌, ok, not-eq_false, ||-eq_false,
}
use fuel_cap.Base.Int.{ℤ, eqb_ℤ-eq}
use fuel_cap.Billing.{
  StripeObject, list_webhook_events, PaymentRecord, StoredWebhook, processed, ignored,
  LedgerFundingInstruction, StripeEvent, Adapter, Host, amount_differs, not_reconciled, is_pending,
  settled_webhook, process_next_webhook,
}
use fuel_cap.Billing.Queue.{
  insert-IsDistinct, find-lookup, count_if, count_if-insert, count_if-none,
}
use fuel_cap.Billing.Invariant.{
  paying, subscribing, ingesting, processing_next, Reachable, start, next, IsFiled, IsBacked,
  IsSound, empty-IsSound, kept-IsBacked, ingest-IsSound,
}
use fuel_cap.Billing.Applying.{IsApplied}
use fuel_cap.Billing.Processing.{
  paying-IsSound, subscribing-IsSound, IsProcessed, idle, settled, process_next_webhook-IsProcessed,
}

amount_of :
    (host : Host) (o : StripeObject) (p : PaymentRecord)
    → not_reconciled host o p ≡ false
    → (o.is_live ≡ false) × (o.amount_received ≡ some p.amount_minor)
amount_of host o p h =
    let (first, _) =
      ||-eq_false (o.is_live || amount_differs o.amount_received p.amount_minor) _ h in
    let (live, amount) = ||-eq_false _ _ first in
    (live, agrees o.amount_received p.amount_minor amount)
  where
    agrees : (m : Option ℤ) (n : ℤ) → amount_differs m n ≡ false → m ≡ some n
    agrees none n q = absurd (false≢true (sym q))
    agrees (some m) n q = ap some (eqb_ℤ-eq m n (not-eq_false _ q))

-- The first pending event stands under its own identity, and so does what it parses to.
record IsNext (host : Host) (a : Adapter) (w : StoredWebhook) (event : StripeEvent) : Type 0 where
  stored : lookup w.event_id a.events ≡ some w
  open_ : is_pending w ≡ true
  filed : IsFiled host w.event_id w
  id : event.id ≡ w.event_id

first-IsNext :
    (host : Host) (a : Adapter) (w : StoredWebhook) (event : StripeEvent)
    → IsSound host a
    → find is_pending (values a.events) ≡ some w
    → host.parse_event w.raw_payload ≡ some event
    → IsNext host a w event
first-IsNext host a w event s found parses =
    let (k, read, waits) = find-lookup is_pending a.events s.distinct found in
    let f = s.filed k w read in
    record {
      stored = subst (λ i. lookup i a.events ≡ some w) (sym f.own) read;
      open_ = waits;
      filed = subst (λ i. IsFiled host i w) (sym f.own) f;
      id = ap (λ e. e.id) (some_eq (sym parses ∙ f.parses)) ∙ f.id ∙ sym f.own;
    }

settled-IsFiled :
    (host : Host) (k : String) (done : Bool) (w : StoredWebhook)
    → IsFiled host k w
    → IsFiled host k (settled_webhook host done w)
settled-IsFiled host k done w f = record {
  event = f.event;
  parses = f.parses;
  id = f.id;
  own = f.own;
  request = f.request;
  body = f.body;
  verified = f.verified;
}

settled-IsBacked :
    (host : Host) (a c : Adapter) (w : StoredWebhook) (event : StripeEvent) (done : Bool)
    → IsSound host a
    → host.parse_event w.raw_payload ≡ some event
    → IsNext host a w event
    → IsApplied host event done a c
    → Each
        (λ k i. IsBacked host (insert w.event_id (settled_webhook host done w) a.events) i)
        c.instructions
settled-IsBacked host a c w event done s parses n applied =
    let v = settled_webhook host done w in
    let old : Each (λ k i. IsBacked host (insert w.event_id v a.events) i) a.instructions =
      λ k i found.
        kept-IsBacked host w.event_id v a.events i
          (λ x q. subst (λ y. is_pending y ≡ true) (some_eq (sym n.stored ∙ q)) n.open_)
          (s.backed k i found) in
    elim applied.instructions [
      | inl same ↦
          subst (λ d. Each (λ k i. IsBacked host (insert w.event_id v a.events) i) d) same old
      | inr (p, same, effective, succeeds, fits) ↦
          let (live, amount) = amount_of host event.object p fits in
          subst (λ d. Each (λ k i. IsBacked host (insert w.event_id v a.events) i) d) (sym same)
            (Each-insert (λ k i. IsBacked host (insert w.event_id v a.events) i) event.id _
              a.instructions old
              (record {
                webhook = v;
                stored =
                    lookup-insert w.event_id event.id v a.events
                    ∙ ap (λ b. if b then some v else lookup event.id a.events)
                        (ap (λ i. w.event_id == i) n.id ∙ ==_refl w.event_id);
                done = ap (λ b. if b then processed else ignored) effective;
                event = event;
                parses = parses;
                succeeded = succeeds;
                test_mode = live;
                object = refl;
                amount = amount;
              }))
    ]

processing-IsSound :
    (host : Host) (a b : Adapter) (o : Option StoredWebhook)
    → IsProcessed host a o b
    → IsSound host a
    → IsSound host b
processing-IsSound host a b o (idle none_left nothing same) s = subst (IsSound host) same s
processing-IsSound host a b o (settled w event done c found parses applied some_done same) s =
    let v = settled_webhook host done w in
    let n = first-IsNext host a w event s found parses in
    subst (IsSound host) (sym same) (
      subst (λ d. IsSound host (record c { events = insert w.event_id v d })) applied.events
        (record {
          distinct = insert-IsDistinct w.event_id v a.events s.distinct;
          filed =
              Each-insert (IsFiled host) w.event_id v a.events s.filed
                (settled-IsFiled host w.event_id done w n.filed);
          backed = settled-IsBacked host a c w event done s parses n applied;
        }))

pub Reachable-IsSound : (host : Host) (a : Adapter) → Reachable host a → IsSound host a
Reachable-IsSound host a start = empty-IsSound host
Reachable-IsSound host b (next {a} r step) =
    let s = Reachable-IsSound host a r in
    elim step [
      | paying c x h ↦ paying-IsSound host c a b x h s
      | subscribing c x h ↦ subscribing-IsSound host c a b x h s
      | ingesting q d w h ↦ ingest-IsSound host q a b d w h s
      | processing_next o h ↦
          processing-IsSound host a b o (process_next_webhook-IsProcessed host a b o h) s
    ]

-- In every adapter that calls can reach, a funding instruction rests on a stored event that was
-- processed: a payment of the same provider object succeeded, in test mode and with exactly the amount
-- that the instruction credits.
pub funding-IsBacked :
    (host : Host) (a : Adapter) (k : String) (i : LedgerFundingInstruction)
    → Reachable host a
    → lookup k a.instructions ≡ some i
    → IsBacked host a.events i
funding-IsBacked host a k i r found = (Reachable-IsSound host a r).backed k i found

abbrev pub pending_count : Adapter → ℕ
pending_count a = count_if is_pending (list_webhook_events a)

settled-closed :
    (host : Host) (done : Bool) (w : StoredWebhook)
    → is_pending (settled_webhook host done w) ≡ false
settled-closed host true w = refl
settled-closed host false w = refl

-- In every adapter that calls can reach, a call of processNextWebhook that returns either settles one
-- event, so that one event less is pending, or returns nothing, changes nothing, and no event is
-- pending: repeated calls come to an end.
pub process_next_webhook-pending_count :
    (host : Host) (a b : Adapter) (o : Option StoredWebhook)
    → Reachable host a
    → process_next_webhook host a ≡ ok (o, b)
    → ((o ≡ none) × (a ≡ b) × (pending_count a ≡ 0)) ⊎ (suc (pending_count b) ≡ pending_count a)
process_next_webhook-pending_count host a b o r h =
    shrinks (process_next_webhook-IsProcessed host a b o h) (Reachable-IsSound host a r)
  where
    shrinks :
        IsProcessed host a o b
        → IsSound host a
        → ((o ≡ none) × (a ≡ b) × (pending_count a ≡ 0)) ⊎ (suc (pending_count b) ≡ pending_count a)
    shrinks (idle none_left nothing same) s =
        inl (nothing, same, count_if-none is_pending (values a.events) none_left)
    shrinks (settled w event done c found parses applied some_done same) s =
        let n = first-IsNext host a w event s found parses in
        inr (
          ap (λ x. suc (pending_count x)) same
          ∙ ap
              (λ d.
                suc (
                  count_if is_pending (values (insert w.event_id (settled_webhook host done w) d))))
              (sym applied.events)
          ∙ count_if-insert is_pending w.event_id w (settled_webhook host done w) a.events n.stored
              n.open_ (settled-closed host done w))
