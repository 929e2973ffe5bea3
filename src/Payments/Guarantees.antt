-- ===== src/Payments/Guarantees.antt =====
-- What the webhook guarantees of the orders and the jobs, whatever event is delivered.
use spacerocks_coa.Base.{
  ℕ, ◌≡◌, refl, sym, ap, ◌∙◌, subst, String, true, ◌==◌, Option, none, some, arith, ok,
  if◌then◌else◌, Bool-cases, inl, inr, ◌⊎◌, find,
}
use spacerocks_coa.Order.Paid.{Reach, here}
use spacerocks_coa.Db.{Db, Order, StripeEvent}
use spacerocks_coa.Db.Laws.{overwrite}
use spacerocks_coa.Orders.{
  NewIds, has_order_id, find_order, find_event, save_event, transition_payment,
}
use spacerocks_coa.Orders.Rows.{
  DistinctOrders, find_order-replace, find_order_for_event-row, record_stripe_event-Recorded,
}
use spacerocks_coa.Payments.Models.{ProviderEvent, CanonicalCheckout, Settings}
use spacerocks_coa.Payments.Binding.{valid_binding, apply_event}
use spacerocks_coa.Payments.Webhook.{
  WebhookResult, process_transaction, processed, apply_bound, updated_order,
}
use spacerocks_coa.Payments.Applying.{apply_bound-Applied}
use spacerocks_coa.Payments.Delivery.{
  Handled, process_transaction-Delivered, refusal, bound, repeated, recorded_first,
}
use spacerocks_coa.Payments.Movement.{order_state, IsWaiting, Moved, apply_event-Moved, Moved-Reach}

pub apply_event-id :
    (order : Order) (event : ProviderEvent) (canonical : CanonicalCheckout)
    → ((apply_event order event canonical).1.id ≡ order.id)
      × ((apply_event order event canonical).1.fulfillment_key ≡ order.fulfillment_key)
unfolding apply_event transition_payment
apply_event-id order event canonical = ground arith

save_event-orders : (e : StripeEvent) (db : Db) → (save_event e db).orders ≡ db.orders
unfolding save_event
save_event-orders e db = refl

module _ (settings : Settings) (uuid_of : String → Option ℕ) (event : ProviderEvent)
    (canonical : Option CanonicalCheckout) (fresh : NewIds) (now : ℕ) where
  -- what the transaction did to the order that the event is bound to
  pub record Bound (start : Db) (order : Order) (checkout : CanonicalCheckout) (written : Order)
      : Type 0 where
    pub held : canonical ≡ some checkout
    pub row : find_order start order.id ≡ some order
    pub valid : valid_binding settings order event checkout ≡ true
    pub movement : Moved order event checkout now written

  -- An order after the transaction: the order of before, or the bound order as it was written.
  abbrev pub OrderAfter : Db → Db → ℕ → Type 0
  OrderAfter start db' i =
      (find_order db' i ≡ find_order start i)
      ⊎ ((order : Order) × (checkout : CanonicalCheckout) × (written : Order) × Bound start order
            checkout written
          × (order.id ≡ i)
          × (find_order db' i ≡ some written))

  -- the rows of the orders after a valid binding
  bound_rows :
      (recorded : StripeEvent) (start : Db) (r : WebhookResult × Db) (order : Order)
      (checkout : CanonicalCheckout) (applied : Db)
      → apply_bound
          (apply_event order event checkout).0
          order
          (apply_event order event checkout).1
          event
          checkout
          fresh
          now
          start
        ≡ ok applied
      → r.1.orders ≡ applied.orders
      → (i : ℕ)
      → find_order r.1 i ≡ (
          if order.id == i
          then overwrite (find_order start i) (
              updated_order
                (apply_event order event checkout).0
                (apply_event order event checkout).1
                checkout
                now)
          else find_order start i)
  unfolding find_order
  bound_rows recorded start r order checkout applied done same i =
      let moved_order = (apply_event order event checkout).1 in
      let changed = (apply_event order event checkout).0 in
      let written = updated_order changed moved_order checkout now in
      let effect =
        apply_bound-Applied changed order moved_order event checkout fresh now start applied done in
      ground (
        arith,
        same,
        effect.orders,
        find_order-replace written i start.orders,
        (apply_event-id order event checkout).0,
      )

  Handled-order :
      (recorded : StripeEvent) (start : Db) (r : WebhookResult × Db) (i : ℕ)
      → DistinctOrders start.orders
      → Handled settings uuid_of event canonical fresh now recorded start r
      → OrderAfter start r.1 i
  unfolding find_order
  Handled-order recorded start r i d (refusal code p) = inl (
      rw (ap (λ (t : WebhookResult × Db). t.1.orders) p) (
        ap (λ rows. find (has_order_id i) rows)
          (save_event-orders (processed recorded (some code) now) start)))
  Handled-order recorded start r i d
        (bound order session_id checkout applied found session held valid done p) =
      let rows =
        bound_rows recorded start r order checkout applied done
          (ap (λ (t : WebhookResult × Db). t.1.orders) p
            ∙ save_event-orders (processed recorded none now) applied)
          i in
      let row =
        find_order_for_event-row uuid_of event.internal_order_id event.payment_intent_id start order
          d found in
      elim (Bool-cases (order.id == i)) [
        | inr other ↦ inl (ground (arith, rows))
        | inl same ↦ inr (
          order,
          checkout,
          updated_order (apply_event order event checkout).0 (apply_event order event checkout).1
              checkout now,
          record {
            held = held;
            row = row;
            valid = valid;
            movement = apply_event-Moved order event checkout now;
          },
          ground arith,
          ground (arith, rows, row),
        )
      ]

  module _ (racing : Db → Db) (payload_hash : ℕ) (db : Db) (r : WebhookResult × Db)
      (distinct : DistinctOrders (racing db).orders) (new : find_event db event.event_id ≡ none)
      (run : process_transaction settings uuid_of racing event canonical payload_hash fresh now db
        ≡ ok r)
      (i : ℕ) where
    pub order_after : OrderAfter (racing db) r.1 i
    unfolding find_order
    order_after =
        elim (process_transaction-Delivered settings uuid_of event canonical fresh now racing
          payload_hash db r run) [
            | repeated recorded p q ↦ absurd (ground arith)
            | recorded_first recorded added p q h ↦
                let rec =
                  record_stripe_event-Recorded event.event_id event.event_type payload_hash now
                    event.livemode recorded (racing db) added q in
                let rows = λ (j : ℕ). ap (λ rows. find (has_order_id j) rows) (rec.orders) in
                elim (Handled-order recorded added r i
                  (subst DistinctOrders (sym (rec.orders)) distinct) h) [
                    | inl same ↦ inl (same ∙ rows i)
                    | inr (order, checkout, written, b, at, found) ↦ inr (
                      order,
                      checkout,
                      written,
                      record {
                        held = b.held;
                        row = sym (rows order.id) ∙ b.row;
                        valid = b.valid;
                        movement = b.movement;
                      },
                      at,
                      found,
                    )
                  ]
          ]

    -- Whatever event is delivered for the first time, every order stays, and goes from its states to
    -- its new ones by transitions of `OrderState`: the webhook moves no payment and queues no work
    -- that the tables of app/domain/order.py forbid. Orders have distinct ids, and the order, if its
    -- payment is still open or in process, waits for it.
    pub webhook-Reach :
        (before : Order)
        → find_order (racing db) i ≡ some before
        → IsWaiting before
        → (after : Order) × (find_order r.1 i ≡ some after)
          × Reach (order_state before) (order_state after)
    webhook-Reach before found w = elim order_after [
      | inl same ↦ (before, same ∙ found, here)
      | inr (order, checkout, written, b, at, last) ↦
          let same : order ≡ before = ground (arith, b.row, found, at) in
          (
            written,
            last,
            Moved-Reach before event checkout now written w
                (subst (λ o. Moved o event checkout now written) same (b.movement)),
          )
    ]
