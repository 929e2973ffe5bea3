-- ===== src/Orders.antt =====
-- `OrderStore` of app/db/repositories.py and the functions beside it: the rows of orders, of the
-- events of their states, of Stripe's events and of the outbox. Each is a part of a transaction that
-- its caller opens. Of the check constraints on an order the one that relates its two states is
-- modelled: the others are on columns that no update writes.
pub mod Keys
pub mod Effects
pub mod Rows
pub mod Tokens
pub mod Issuing
pub mod Revoking
mod Tests
use spacerocks_coa.Base.{
  ℕ, ◌+◌, max, String, Bool, true, false, not, ◌&&◌, ◌||◌, ◌==◌, Option, none, some, List, [], ◌∷◌,
  ◌++◌, if◌then◌else◌, is_some, opt_str_eq, str_eq, find, replace, Result, ok, err, integrity_error,
  ◌>>=◌,
}
use spacerocks_coa.Order.{
  PaymentState, FulfillmentState, OrderState, transition_payment as move_payment, payment_eq,
}
use spacerocks_coa.Db.{Db, Order, StateEvent, StripeEvent, DurableJob, available}
use spacerocks_coa.Db.Evidence.{OutboxMessage, OutboxState}
use spacerocks_coa.Db.Access.{insert_job}
use spacerocks_coa.Tasks.{add_task_dispatch}
use Keys.{joined, uuid_string, given}

abbrev pub has_order_id : ℕ → Order → Bool
has_order_id order_id o = o.id == order_id

unfoldable pub find_order : Db → ℕ → Option Order
find_order db order_id = find (has_order_id order_id) db.orders

-- equal values of a column that is unique, where NULL is equal to nothing
abbrev pub same_text : Option String → Option String → Bool
same_text none t = false
same_text (some s) t = opt_str_eq t s

-- another row has the unique key of a session or of an intent
abbrev pub clashes : Order → Order → Bool
clashes o other =
    not (other.id == o.id)
    && (same_text other.checkout_session_id o.checkout_session_id
        || same_text other.payment_intent_id o.payment_intent_id)

-- ck_orders_paid_before_work
abbrev pub is_paid_before_work : PaymentState → FulfillmentState → Bool
is_paid_before_work p FulfillmentState.awaiting_payment = true
is_paid_before_work p FulfillmentState.manual_review = true
is_paid_before_work PaymentState.paid f = true
is_paid_before_work PaymentState.refunded f = true
is_paid_before_work PaymentState.disputed f = true
is_paid_before_work _ _ = false

-- writes the attributes of an order that was read
unfoldable pub save_order : Order → Db → Result Db
save_order o db =
    if is_some (find (clashes o) db.orders)
      || not (is_paid_before_work o.payment_state o.fulfillment_state)
    then err integrity_error
    else ok (record db { orders = replace (has_order_id o.id) o db.orders })

-- `find_order_for_event`, where `uuid_of` reads an identifier as `uuid.UUID` does
unfoldable pub find_order_for_event :
    (String → Option ℕ) → Option String → Option String → Db → Option Order
find_order_for_event uuid_of internal_order_id payment_intent_id db =
    elim (given internal_order_id) [
      | some text ↦ elim (uuid_of text) [ none ↦ none | some order_id ↦ find_order db order_id ]
      | none ↦ elim (given payment_intent_id) [
        | none ↦ none
        | some intent ↦ find (λ o. opt_str_eq o.payment_intent_id intent) db.orders
      ]
    ]

-- `max(sequence)` of the events of an order, or 0
unfoldable pub last_sequence : ℕ → List StateEvent → ℕ
last_sequence order_id [] = 0
last_sequence order_id (e ∷ es) =
    let rest = last_sequence order_id es in
    if e.order_id == order_id then max e.sequence rest else rest

-- uq_state_event_sequence and uq_state_event_key
abbrev pub same_event : StateEvent → StateEvent → Bool
same_event a b =
    b.order_id == a.order_id && (b.sequence == a.sequence || str_eq b.event_key a.event_key)

unfoldable pub insert_state_event : StateEvent → Db → Result Db
insert_state_event e db =
    if is_some (find (same_event e) db.state_events)
    then err integrity_error
    else ok (record db { state_events = db.state_events ++ e ∷ [] })

unfoldable pub record_state_event :
    Order → String → String → PaymentState → FulfillmentState → ℕ → Db → Result Db
unfolding insert_state_event
record_state_event order event_key source previous_payment previous_fulfillment now db =
    insert_state_event
      (record {
        order_id = order.id;
        sequence = last_sequence order.id db.state_events + 1;
        event_key = event_key;
        source = source;
        previous_payment_state = previous_payment;
        payment_state = order.payment_state;
        previous_fulfillment_state = previous_fulfillment;
        fulfillment_state = order.fulfillment_state;
        evidence = [];
        created_at = now;
      })
      db

-- `OrderStore.transition_payment`: whether the state changed, and the order with its new state. The
-- method of `OrderState` returns the state itself exactly where the payment is the target already.
unfoldable pub transition_payment : Order → PaymentState → Bool × Order
transition_payment order target =
    let state : OrderState (Unit {0}) = record {
      snapshot = tt;
      payment = order.payment_state;
      fulfillment = order.fulfillment_state;
    } in
    elim (move_payment state target) [
      | err e ↦ (false, order)
      | ok changed ↦
          if payment_eq changed.payment order.payment_state
          then (false, order)
          else (true, record order { payment_state = changed.payment })
    ]

abbrev pub fulfillment_job : ℕ → Order → ℕ → DurableJob
fulfillment_job fresh order now = record {
  id = fresh;
  job_key = order.fulfillment_key;
  order_id = order.id;
  kind = "stamp_manifest_digest";
  state = available;
  generation = 1;
  attempt_count = 0;
  max_attempts = 10;
  available_at = now;
  lease_owner = none;
  lease_until = none;
  safe_error_code = none;
  created_at = now;
  updated_at = now;
}

unfoldable pub enqueue_fulfillment_once : ℕ → Order → ℕ → Db → Result Db
enqueue_fulfillment_once fresh order now db =
    let job = fulfillment_job fresh order now in insert_job job db >>= add_task_dispatch job now now

abbrev pub has_event_id : String → StripeEvent → Bool
has_event_id event_id e = str_eq e.stripe_event_id event_id

unfoldable pub find_event : Db → String → Option StripeEvent
find_event db event_id = find (has_event_id event_id) db.stripe_events

-- `unique=True` on stripe_event_id
unfoldable pub record_stripe_event : String → String → ℕ → ℕ → Bool → Db → Result (StripeEvent × Db)
record_stripe_event event_id event_type payload_sha256 now livemode db =
    if is_some (find_event db event_id)
    then err integrity_error
    else let event : StripeEvent = record {
      stripe_event_id = event_id;
      event_type = event_type;
      livemode = livemode;
      payload_sha256 = payload_sha256;
      processed_at = none;
      safe_error_code = none;
      created_at = now;
    } in
      ok (event, record db { stripe_events = db.stripe_events ++ event ∷ [] })

-- writes the attributes of an event that was recorded
unfoldable pub save_event : StripeEvent → Db → Db
save_event e db = record db {
  stripe_events = replace (has_event_id e.stripe_event_id) e db.stripe_events;
}

abbrev pub has_message_key : String → OutboxMessage → Bool
has_message_key key m = str_eq m.message_key key

-- the identifiers that one transaction draws: for a job, and for a message
pub record NewIds : Type 0 where
  pub job : ℕ
  pub message : ℕ

-- 24 hours, the default of idempotency_expires_at
abbrev pub idempotency_day : ℕ
idempotency_day = 86400000000

abbrev pub new_message : ℕ → String → Order → String → ℕ → OutboxMessage
new_message id key order kind now = record {
  id = id;
  message_key = key;
  order_id = order.id;
  kind = kind;
  recipient = order.email;
  payload = ("order_reference", order.order_reference) ∷ [];
  state = OutboxState.available;
  attempt_count = 0;
  max_attempts = 12;
  available_at = now;
  lease_owner = none;
  lease_until = none;
  lease_token = none;
  proof_version = none;
  confirmation_count = none;
  confirmation_observation_id = none;
  provider_message_id = none;
  accepted_at = none;
  delivered_at = none;
  idempotency_expires_at = now + idempotency_day;
  safe_error_code = none;
  created_at = now;
  updated_at = now;
}

-- primary key, and `unique=True` on message_key
unfoldable pub enqueue_outbox_once : ℕ → Order → String → ℕ → Db → Result Db
enqueue_outbox_once id order kind now db =
    let key = joined kind (joined ":" (uuid_string order.id)) in
    if is_some (find (λ m. m.id == id) db.outbox) || is_some (find (has_message_key key) db.outbox)
    then err integrity_error
    else ok (record db { outbox = db.outbox ++ new_message id key order kind now ∷ [] })
