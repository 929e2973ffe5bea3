-- ===== src/Order.antt =====
-- app/domain/order.py: the payment and the fulfillment state of an order, and their transitions.
-- The snapshot of an order is a parameter: a transition keeps it and never reads it, and
-- `OrderStore.transition_payment` builds an `OrderState` with `None` in its place.
pub mod Progress
pub mod Paid
mod Tests
use spacerocks_coa.Base.{
  ℕ, Bool, true, false, not, ◌&&◌, ◌==◌, if◌then◌else◌, Result, ok, err, value_error,
}

pub data PaymentState : Type 0 where
  checkout_open processing paid failed expired refunded disputed : PaymentState

pub data FulfillmentState : Type 0 where
  awaiting_payment queued stamping calendar_pending : FulfillmentState
  bitcoin_verified delivered manual_review : FulfillmentState

-- the place of a member in its enumeration
abbrev pub payment_index : PaymentState → ℕ
payment_index checkout_open = 0
payment_index processing = 1
payment_index paid = 2
payment_index failed = 3
payment_index expired = 4
payment_index refunded = 5
payment_index disputed = 6

abbrev pub fulfillment_index : FulfillmentState → ℕ
fulfillment_index awaiting_payment = 0
fulfillment_index queued = 1
fulfillment_index stamping = 2
fulfillment_index calendar_pending = 3
fulfillment_index bitcoin_verified = 4
fulfillment_index delivered = 5
fulfillment_index manual_review = 6

-- `a == b` on members
abbrev pub payment_eq : PaymentState → PaymentState → Bool
payment_eq a b = payment_index a == payment_index b

abbrev pub fulfillment_eq : FulfillmentState → FulfillmentState → Bool
fulfillment_eq a b = fulfillment_index a == fulfillment_index b

-- `target in _PAYMENT_TRANSITIONS[source]`
unfoldable pub payment_allowed : PaymentState → PaymentState → Bool
payment_allowed checkout_open processing = true
payment_allowed checkout_open paid = true
payment_allowed checkout_open failed = true
payment_allowed checkout_open expired = true
payment_allowed checkout_open refunded = true
payment_allowed checkout_open disputed = true
payment_allowed processing paid = true
payment_allowed processing failed = true
payment_allowed processing expired = true
payment_allowed processing refunded = true
payment_allowed processing disputed = true
payment_allowed paid refunded = true
payment_allowed paid disputed = true
payment_allowed disputed refunded = true
payment_allowed _ _ = false

-- `target in _FULFILLMENT_TRANSITIONS[source]`
unfoldable pub fulfillment_allowed : FulfillmentState → FulfillmentState → Bool
fulfillment_allowed awaiting_payment queued = true
fulfillment_allowed awaiting_payment manual_review = true
fulfillment_allowed queued stamping = true
fulfillment_allowed queued manual_review = true
fulfillment_allowed stamping calendar_pending = true
fulfillment_allowed stamping manual_review = true
fulfillment_allowed calendar_pending bitcoin_verified = true
fulfillment_allowed calendar_pending manual_review = true
fulfillment_allowed bitcoin_verified delivered = true
fulfillment_allowed bitcoin_verified manual_review = true
fulfillment_allowed delivered manual_review = true
fulfillment_allowed _ _ = false

pub record OrderState {ℓ} (Snapshot : Type ℓ) : Type ℓ where
  pub snapshot : Snapshot
  pub payment : PaymentState
  pub fulfillment : FulfillmentState

module _ {ℓ} {Snapshot : Type ℓ} where
  unfoldable pub transition_payment :
      OrderState Snapshot → PaymentState → Result (OrderState Snapshot)
  unfolding payment_allowed
  transition_payment s target =
      if payment_eq target s.payment
      then ok s
      else if not (payment_allowed s.payment target)
      then err (value_error "illegal payment transition")
      else ok (record s { payment = target })

  unfoldable pub transition_fulfillment :
      OrderState Snapshot → FulfillmentState → Result (OrderState Snapshot)
  unfolding fulfillment_allowed
  transition_fulfillment s target =
      if fulfillment_eq target s.fulfillment
      then ok s
      else if not (fulfillment_allowed s.fulfillment target)
      then err (value_error "illegal fulfillment transition")
      else let starts_fulfillment =
          fulfillment_eq s.fulfillment awaiting_payment && fulfillment_eq target queued in
        if not (payment_eq s.payment paid) && starts_fulfillment
        then err (value_error "fulfillment cannot be queued before payment")
        else ok (record s { fulfillment = target })
