-- ===== src/Payments/Movement.antt =====
-- How an event whose binding is valid moves its order: the payment and the work that the webhook
-- writes are transitions of app/domain/order.py.
use spacerocks_coa.Base.{
  ℕ, ◌≡◌, ◌≢◌, refl, sym, ◌∙◌, subst, Bool, true, false, none, some, arith, ok, if◌then◌else◌,
  Option-cases, Bool-cases, inl, inr, ◌⊎◌,
}
use spacerocks_coa.Order.{
  PaymentState, FulfillmentState, OrderState, transition_payment as move_payment,
  transition_fulfillment, payment_eq, payment_allowed, fulfillment_allowed,
}
use spacerocks_coa.Order.Paid.{Reach, pay, fulfil, here, next}
use spacerocks_coa.Db.{Order}
use spacerocks_coa.Orders.{transition_payment}
use spacerocks_coa.Payments.Models.{ProviderEvent, CanonicalCheckout}
use spacerocks_coa.Payments.Binding.{apply_event, event_target}
use spacerocks_coa.Payments.Webhook.{updated_order}

-- the two states of an order
abbrev pub order_state : Order → OrderState (Unit {0})
order_state order = record {
  snapshot = tt;
  payment = order.payment_state;
  fulfillment = order.fulfillment_state;
}

-- until its payment an order waits for it
abbrev pub IsWaiting : Order → Type 0
IsWaiting order =
    (order.payment_state ≡ PaymentState.checkout_open)
      ⊎ (order.payment_state ≡ PaymentState.processing)
    → order.fulfillment_state ≡ FulfillmentState.awaiting_payment

-- an order whose payment has moved to `target`
abbrev pub moved_to : Order → PaymentState → Order
moved_to order target = record order { payment_state = target }

-- The two results of `OrderStore.transition_payment`.
pub transition_payment-cases :
    (order : Order) (target : PaymentState)
    → (transition_payment order target ≡ (false, order))
      ⊎ ((transition_payment order target ≡ (true, moved_to order target))
          × (move_payment (order_state order) target ≡ ok (order_state (moved_to order target))))
unfolding transition_payment move_payment
transition_payment-cases order target = ground arith

-- a move into `paid` is from a payment that was not made, so the order waits
move_to_paid :
    (order : Order)
    → IsWaiting order
    → transition_payment order PaymentState.paid ≡ (true, moved_to order PaymentState.paid)
    → (order.fulfillment_state ≡ FulfillmentState.awaiting_payment)
      × (order.payment_state ≢ PaymentState.paid)
unfolding transition_payment move_payment payment_allowed
move_to_paid order w e = ground arith

-- What the order was before decides what is written: nothing of its states changes, or the payment
-- moves by one transition, and a payment that becomes `paid` puts the order into the queue.
pub data Moved (order : Order) (event : ProviderEvent) (canonical : CanonicalCheckout) (now : ℕ)
    (written : Order) : Type 0 where
  unmoved :
      written.payment_state ≡ order.payment_state
      → written.fulfillment_state ≡ order.fulfillment_state
      → Moved order event canonical now written
  moved :
      (target : PaymentState)
      → event_target event canonical ≡ some target
      → transition_payment order target ≡ (true, moved_to order target)
      → move_payment (order_state order) target ≡ ok (order_state (moved_to order target))
      → written.payment_state ≡ target
      → written.fulfillment_state ≡ (
          if payment_eq target PaymentState.paid
          then FulfillmentState.queued
          else order.fulfillment_state)
      → Moved order event canonical now written

apply_event_result :
    (order : Order) (event : ProviderEvent) (canonical : CanonicalCheckout) (target : PaymentState)
    → event_target event canonical ≡ some target
    → apply_event order event canonical ≡ transition_payment order target
unfolding apply_event
apply_event_result order event canonical target p = ground arith

apply_event-none :
    (order : Order) (event : ProviderEvent) (canonical : CanonicalCheckout)
    → event_target event canonical ≡ none
    → apply_event order event canonical ≡ (false, order)
unfolding apply_event
apply_event-none order event canonical p = ground arith

pub apply_event-Moved :
    (order : Order) (event : ProviderEvent) (canonical : CanonicalCheckout) (now : ℕ)
    → Moved order event canonical now (
        updated_order
          (apply_event order event canonical).0
          (apply_event order event canonical).1
          canonical
          now)
apply_event-Moved order event canonical now =
    let by =
      λ (r : Bool × Order) (e : apply_event order event canonical ≡ r)
          (m : Moved order event canonical now (updated_order r.0 r.1 canonical now)).
        subst
          (λ (r : Bool × Order).
            Moved order event canonical now (updated_order r.0 r.1 canonical now))
          (sym e) m in
    elim (Option-cases (event_target event canonical)) [
      | inl p ↦
          by (false, order) (apply_event-none order event canonical p) (Moved.unmoved refl refl)
      | inr (target, p) ↦ elim (transition_payment-cases order target) [
        | inl q ↦
            by (false, order) (apply_event_result order event canonical target p ∙ q)
              (Moved.unmoved refl refl)
        | inr (q, step) ↦
            by (true, moved_to order target) (apply_event_result order event canonical target p ∙ q)
              (Moved.moved target p q step refl refl)
      ]
    ]

-- a paid order that waits enters the queue
enter_queue :
    (order : Order)
    → order.fulfillment_state ≡ FulfillmentState.awaiting_payment
    → transition_fulfillment
        (order_state (moved_to order PaymentState.paid))
        FulfillmentState.queued
      ≡ ok (record {
        snapshot = tt;
        payment = PaymentState.paid;
        fulfillment = FulfillmentState.queued;
      })
unfolding transition_fulfillment fulfillment_allowed
enter_queue order w = ground arith

paid_Reach :
    (order : Order) (target : PaymentState)
    → IsWaiting order
    → target ≡ PaymentState.paid
    → transition_payment order target ≡ (true, moved_to order target)
    → move_payment (order_state order) target ≡ ok (order_state (moved_to order target))
    → Reach (order_state order) (record {
      snapshot = tt;
      payment = PaymentState.paid;
      fulfillment = FulfillmentState.queued;
    })
paid_Reach order target w same q step =
    let at_paid = λ (P : PaymentState → Type 0) (x : P target). subst P same x in
    next
      (next here (
        pay PaymentState.paid (
          at_paid (λ t. move_payment (order_state order) t ≡ ok (order_state (moved_to order t)))
            step)))
      (fulfil FulfillmentState.queued (
        enter_queue order
          (move_to_paid order w
            (at_paid (λ t. transition_payment order t ≡ (true, moved_to order t)) q)).0))

-- An event of the provider takes an order that waits for its payment, or whose payment was made,
-- from its state to the new one by transitions of `OrderState`.
pub Moved-Reach :
    (order : Order) (event : ProviderEvent) (canonical : CanonicalCheckout) (now : ℕ)
    (written : Order)
    → IsWaiting order
    → Moved order event canonical now written
    → Reach (order_state order) (order_state written)
Moved-Reach order event canonical now written w (unmoved p f) =
    subst (Reach (order_state order)) (ground arith) (here)
Moved-Reach order event canonical now written w (moved target t q step p f) =
    elim (Bool-cases (payment_eq target PaymentState.paid)) [
      | inl e ↦
          subst (Reach (order_state order)) (ground arith)
            (paid_Reach order target w (ground arith) q step)
      | inr e ↦
          subst (Reach (order_state order)) {x = order_state (moved_to order target)} (ground arith)
            (next here (pay target step))
    ]
