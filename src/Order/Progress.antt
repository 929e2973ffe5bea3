-- ===== src/Order/Progress.antt =====
-- How far the transitions of app/domain/order.py can take an order, and in which order.
use spacerocks_coa.Base.{ℕ, suc, ◌<◌, ◌≡◌, ◌≢◌, ◌↔◌, ◌⊎◌, arith, ok}
use spacerocks_coa.Order.{
  PaymentState, FulfillmentState, OrderState, paid, queued, manual_review, fulfillment_index,
  transition_payment, transition_fulfillment,
}

-- how late a payment state stands: every transition goes to a later one
abbrev pub payment_rank : PaymentState → ℕ
payment_rank PaymentState.checkout_open = 0
payment_rank PaymentState.processing = 1
payment_rank PaymentState.paid = 2
payment_rank PaymentState.disputed = 3
payment_rank PaymentState.refunded = 4
payment_rank PaymentState.failed = 4
payment_rank PaymentState.expired = 4

module _ {ℓ} {Snapshot : Type ℓ} where
  -- A fulfillment transition is accepted exactly when it goes nowhere, to manual review, or to
  -- the next stage, where leaving `awaiting_payment` for `queued` needs the payment to be `paid`;
  -- what it returns has the target, and the snapshot and payment of before.
  pub transition_fulfillment_iff :
      (s t : OrderState Snapshot) (target : FulfillmentState)
      → (transition_fulfillment s target ≡ ok t) ↔ (
          (t ≡ record s { fulfillment = target })
          × ((target ≡ s.fulfillment)
              ⊎ ((target ≡ manual_review)
                  ⊎ ((fulfillment_index target ≡ suc (fulfillment_index s.fulfillment))
                      × (target ≢ manual_review)
                      × (target ≡ queued → s.payment ≡ paid)))))
  unfolding transition_fulfillment
  transition_fulfillment_iff s t target = (λ h. ground arith, λ h. ground arith)

  -- An accepted payment transition keeps the state or takes the order to a later rank.
  pub transition_payment_later :
      (s t : OrderState Snapshot) (target : PaymentState)
      → transition_payment s target ≡ ok t
      → (t.payment ≡ target)
        × (t.fulfillment ≡ s.fulfillment)
        × ((t ≡ s) ⊎ (payment_rank s.payment < payment_rank t.payment))
  unfolding transition_payment
  transition_payment_later s t target h = ground arith
