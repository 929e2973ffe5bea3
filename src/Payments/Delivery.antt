-- ===== src/Payments/Delivery.antt =====
-- The ways in which the transaction of a delivered event can end.
use spacerocks_coa.Base.{
  ℕ, ◌≡◌, String, true, Option, none, some, arith, ok, >>=-eq-ok, Option-cases, Bool-cases, inl,
  inr,
}
use spacerocks_coa.Db.{Db, Order, StripeEvent}
use spacerocks_coa.Orders.{
  NewIds, find_order_for_event, find_event, record_stripe_event, save_event,
}
use spacerocks_coa.Payments.Models.{ProviderEvent, CanonicalCheckout, Settings}
use spacerocks_coa.Payments.Binding.{valid_binding, apply_event}
use spacerocks_coa.Payments.Webhook.{
  WebhookResult, handle_recorded, process_transaction, duplicate_result, refused, accepted_now,
  processed, apply_bound,
}

module _ (settings : Settings) (uuid_of : String → Option ℕ) (event : ProviderEvent)
    (canonical : Option CanonicalCheckout) (fresh : NewIds) (now : ℕ) where
  -- the end of the transaction after the event was recorded
  pub data Handled (recorded : StripeEvent) (db : Db) (r : WebhookResult × Db) : Type 0 where
    refusal : (code : String) → r ≡ refused recorded code now db → Handled recorded db r
    bound :
        (order : Order) (session_id : String) (checkout : CanonicalCheckout) (applied : Db)
        → find_order_for_event uuid_of event.internal_order_id event.payment_intent_id db
          ≡ some order
        → order.checkout_session_id ≡ some session_id
        → canonical ≡ some checkout
        → valid_binding settings order event checkout ≡ true
        → apply_bound
            (apply_event order event checkout).0
            order
            (apply_event order event checkout).1
            event
            checkout
            fresh
            now
            db
          ≡ ok applied
        → r ≡ (accepted_now, save_event (processed recorded none now) applied)
        → Handled recorded db r

  bound_end :
      (recorded : StripeEvent) (db : Db) (order : Order) (session_id : String)
      (checkout : CanonicalCheckout) (r : WebhookResult × Db)
      → find_order_for_event uuid_of event.internal_order_id event.payment_intent_id db ≡ some order
      → order.checkout_session_id ≡ some session_id
      → canonical ≡ some checkout
      → handle_recorded settings uuid_of recorded event canonical fresh now db ≡ ok r
      → Handled recorded db r
  unfolding handle_recorded
  bound_end recorded db order session_id checkout r found session held e =
      elim (Bool-cases (valid_binding settings order event checkout)) [
        | inr invalid ↦ Handled.refusal "payment_binding_invalid" (ground arith)
        | inl valid ↦
            let (applied, done, last) =
              >>=-eq-ok
                (apply_bound (apply_event order event checkout).0 order
                  (apply_event order event checkout).1 event checkout fresh now db)
                (λ applied. ok (accepted_now, save_event (processed recorded none now) applied))
                {w = r} (ground arith) in
            Handled.bound order session_id checkout applied found session held valid done
              (ground arith)
      ]

  pub handle_recorded-Handled :
      (recorded : StripeEvent) (db : Db) (r : WebhookResult × Db)
      → handle_recorded settings uuid_of recorded event canonical fresh now db ≡ ok r
      → Handled recorded db r
  unfolding handle_recorded
  handle_recorded-Handled recorded db r e =
      elim (Option-cases
        (find_order_for_event uuid_of event.internal_order_id event.payment_intent_id db)) [
          | inl p ↦ Handled.refusal "order_binding_invalid" (ground arith)
          | inr (order, p) ↦ elim (Option-cases order.checkout_session_id) [
            | inl q ↦ Handled.refusal "order_binding_invalid" (ground arith)
            | inr (session_id, q) ↦ elim (Option-cases canonical) [
              | inl c ↦ Handled.refusal "order_binding_invalid" (ground arith)
              | inr (checkout, c) ↦ bound_end recorded db order session_id checkout r p q c e
            ]
          ]
        ]

  -- the end of the whole transaction: a duplicate, or an event that is recorded and handled
  pub data Delivered (racing : Db → Db) (payload_hash : ℕ) (db : Db) (r : WebhookResult × Db)
      : Type 0 where
    repeated :
        (recorded : StripeEvent)
        → find_event db event.event_id ≡ some recorded
        → r ≡ (duplicate_result recorded event payload_hash, db)
        → Delivered racing payload_hash db r
    recorded_first :
        (recorded : StripeEvent) (added : Db)
        → find_event db event.event_id ≡ none
        → record_stripe_event event.event_id event.event_type payload_hash now event.livemode
            (racing db)
          ≡ ok (recorded, added)
        → Handled recorded added r
        → Delivered racing payload_hash db r

  pub process_transaction-Delivered :
      (racing : Db → Db) (payload_hash : ℕ) (db : Db) (r : WebhookResult × Db)
      → process_transaction settings uuid_of racing event canonical payload_hash fresh now db ≡ ok r
      → Delivered racing payload_hash db r
  unfolding process_transaction
  process_transaction-Delivered racing payload_hash db r e =
      elim (Option-cases (find_event db event.event_id)) [
        | inr (recorded, p) ↦ Delivered.repeated recorded p (ground arith)
        | inl p ↦
            let ((recorded, added), q, h) =
              >>=-eq-ok
                (record_stripe_event event.event_id event.event_type payload_hash now event.livemode
                  (racing db))
                (λ (t : StripeEvent × Db).
                  handle_recorded settings uuid_of t.0 event canonical fresh now t.1)
                {w = r} (ground arith) in
            Delivered.recorded_first recorded added p q (handle_recorded-Handled recorded added r h)
      ]
