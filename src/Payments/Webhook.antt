-- ===== src/Payments/Webhook.antt =====
-- `WebhookService` of app/payments/service.py. What other transactions commit while the service
-- waits is given by `Others`: before the order is looked up, before the transaction begins, and
-- between its first select and its first insert, where the database is not locked. `sha256` is the
-- digest of the standard library.
use spacerocks_coa.Base.{
  ℕ, String, Bool, true, false, not, ◌&&◌, ◌==◌, Option, none, some, List, if◌then◌else◌, is_some,
  str_eq, find, Result, ok, err, integrity_error, payment_provider_error, payment_signature_error,
  ◌>>=◌, ◌>>◌, raise_if,
}
use spacerocks_coa.Order.{PaymentState, FulfillmentState, payment_eq}
use spacerocks_coa.Db.{Db, Order, StripeEvent}
use spacerocks_coa.Db.Access.{has_job_key}
use spacerocks_coa.Orders.{
  NewIds, find_order_for_event, save_order, record_state_event, enqueue_fulfillment_once,
  record_stripe_event, enqueue_outbox_once, find_event, save_event,
}
use spacerocks_coa.Orders.Keys.{joined, given}
use spacerocks_coa.Payments.Models.{
  ProviderEvent, CanonicalCheckout, Settings, Provider, mode_eq, is_live, bool_eq,
}
use spacerocks_coa.Payments.Binding.{valid_binding, apply_event}

pub record WebhookResult : Type 0 where
  pub duplicate : Bool
  pub accepted : Bool

pub record Others : Type 0 where
  pub before_lookup : Db → Db
  pub before_transaction : Db → Db
  pub before_insert : Db → Db

-- `_duplicate_result`
unfoldable pub duplicate_result : StripeEvent → ProviderEvent → ℕ → WebhookResult
duplicate_result recorded event payload_hash =
    let exact =
      recorded.payload_sha256 == payload_hash
      && (str_eq recorded.event_type event.event_type
          && (bool_eq recorded.livemode event.livemode && is_some recorded.processed_at)) in
    record { duplicate = exact; accepted = exact && not (is_some recorded.safe_error_code) }

abbrev pub rejected : WebhookResult
rejected = record { duplicate = false; accepted = false }

abbrev pub accepted_now : WebhookResult
accepted_now = record { duplicate = false; accepted = true }

abbrev pub is_paid : Order → Bool
is_paid order = payment_eq order.payment_state PaymentState.paid

-- the order with the intent that the provider reports, if it had none
abbrev pub with_intent : Order → CanonicalCheckout → ℕ → Order
with_intent order canonical now = record order {
  updated_at = now;
  payment_intent_id =
      if is_some (given canonical.payment_intent_id) && not (is_some order.payment_intent_id)
      then canonical.payment_intent_id
      else order.payment_intent_id;
}

-- the order that is written: an accepted payment queues it
abbrev pub updated_order : Bool → Order → CanonicalCheckout → ℕ → Order
updated_order changed moved canonical now =
    let stamped = with_intent moved canonical now in
    record stamped {
      fulfillment_state =
          if changed && is_paid stamped then FulfillmentState.queued else stamped.fulfillment_state;
    }

-- the job and the mail of an accepted payment
unfoldable pub enqueue_work : NewIds → Order → ℕ → Db → Result Db
enqueue_work fresh order now db = elim (find (has_job_key order.fulfillment_key) db.durable_jobs) [
  | some _ ↦ ok db
  | none ↦
      enqueue_fulfillment_once fresh.job order now db
      >>= enqueue_outbox_once fresh.message order "payment_confirmed" now
]

-- the first `if` of an event that changed the order
unfoldable pub work_if_paid : Bool → NewIds → Order → ℕ → Db → Result Db
work_if_paid changed fresh written now db =
    if changed && is_paid written then enqueue_work fresh written now db else ok db

-- the event of the state, if the event of the provider changed the order
unfoldable pub note_if_changed : Bool → Order → Order → ProviderEvent → ℕ → Db → Result Db
note_if_changed changed order written event now db =
    if changed
    then record_state_event written (joined "stripe:" event.event_id) "stripe_webhook"
        order.payment_state order.fulfillment_state now db
    else ok db

-- what follows a valid binding: `moved` is the order after `_apply_event`
unfoldable pub apply_bound :
    Bool → Order → Order → ProviderEvent → CanonicalCheckout → NewIds → ℕ → Db → Result Db
apply_bound changed order moved event canonical fresh now db =
    let written = updated_order changed moved canonical now in
    (save_order written db >>= work_if_paid changed fresh written now)
    >>= note_if_changed changed order written event now

-- `recorded` with its end
abbrev pub processed : StripeEvent → Option String → ℕ → StripeEvent
processed recorded code now = record recorded { processed_at = some now; safe_error_code = code }

-- the event ends with a code, and no order changes
abbrev pub refused : StripeEvent → String → ℕ → Db → WebhookResult × Db
refused recorded code now db = (rejected, save_event (processed recorded (some code) now) db)

module _ (settings : Settings) (uuid_of : String → Option ℕ) where
  -- the rest of the transaction, once the event is recorded
  unfoldable pub handle_recorded :
      StripeEvent
      → ProviderEvent
      → Option CanonicalCheckout
      → NewIds
      → ℕ
      → Db
      → Result (WebhookResult × Db)
  handle_recorded recorded event canonical fresh now db =
      elim (find_order_for_event uuid_of event.internal_order_id event.payment_intent_id db) [
        | none ↦ ok (refused recorded "order_binding_invalid" now db)
        | some order ↦ elim order.checkout_session_id [
          | none ↦ ok (refused recorded "order_binding_invalid" now db)
          | some _ ↦ elim canonical [
            | none ↦ ok (refused recorded "order_binding_invalid" now db)
            | some checkout ↦
                if not (valid_binding settings order event checkout)
                then ok (refused recorded "payment_binding_invalid" now db)
                else let (changed, moved) = apply_event order event checkout in
                  do
                    applied ← apply_bound changed order moved event checkout fresh now db
                    ok (accepted_now, save_event (processed recorded none now) applied)
          ]
        ]
      ]

  -- the transaction of `process`; `racing` is what others commit after its first select
  unfoldable pub process_transaction :
      (Db → Db)
      → ProviderEvent
      → Option CanonicalCheckout
      → ℕ
      → NewIds
      → ℕ
      → Db
      → Result (WebhookResult × Db)
  process_transaction racing event canonical payload_hash fresh now db =
      elim (find_event db event.event_id) [
        | some recorded ↦ ok (duplicate_result recorded event payload_hash, db)
        | none ↦ do
          (recorded, added) ←
              record_stripe_event event.event_id event.event_type payload_hash now event.livemode
                (racing db)
          handle_recorded recorded event canonical fresh now added
      ]

  -- `except IntegrityError`, on the database without what was rolled back
  unfoldable pub after_transaction :
      ProviderEvent → ℕ → Result (WebhookResult × Db) → Db → Result WebhookResult × Db
  after_transaction event payload_hash (ok (result, db')) db = (ok result, db')
  after_transaction event payload_hash (err integrity_error) db =
      elim (find_event db event.event_id) [
        | some recorded ↦ (ok (duplicate_result recorded event payload_hash), db)
        | none ↦ (err integrity_error, db)
      ]
  after_transaction event payload_hash (err e) db = (err e, db)

  module _ (provider : Provider) (sha256 : List ℕ → ℕ) (others : Others) (fresh : NewIds)
      (now : ℕ) where
    -- the first lines of `process`: the verified event
    unfoldable pub verified : List ℕ → String → Result ProviderEvent
    verified raw_body signature = do
      raise_if (not (mode_eq provider.payment_mode settings.payment_mode))
          (payment_provider_error "payment provider mode does not match webhook mode")
      event ← provider.verify_event raw_body signature settings.stripe_signature_tolerance_seconds
      raise_if (not (bool_eq event.livemode (is_live settings.payment_mode)))
          (payment_signature_error "webhook event mode does not match the configured payment mode")
      ok event

    -- the event with the identifier that the provider resolves, if it had none
    unfoldable pub resolved : ProviderEvent → Result ProviderEvent
    resolved event = elim event.internal_order_id [
      | some _ ↦ ok event
      | none ↦ do
        internal ← provider.resolve_internal_order_id event
        ok (record event { internal_order_id = internal })
    ]

    -- the checkout that the provider holds for the session of the order
    unfoldable pub canonical_of : ProviderEvent → Db → Result (Option CanonicalCheckout)
    canonical_of event db =
        elim (find_order_for_event uuid_of event.internal_order_id event.payment_intent_id db) [
          | none ↦ ok none
          | some order ↦ elim order.checkout_session_id [
            | none ↦ ok none
            | some session_id ↦ do
              checkout ← provider.retrieve_checkout session_id
              ok (some checkout)
          ]
        ]

    -- from the retrieval of the checkout on
    unfoldable pub process_resolved : ℕ → ProviderEvent → Db → Result WebhookResult × Db
    process_resolved payload_hash event db = elim (canonical_of event db) [
      | err e ↦ (err e, db)
      | ok canonical ↦
          let begun = others.before_transaction db in
          after_transaction event payload_hash
            (process_transaction others.before_insert event canonical payload_hash fresh now begun)
            (others.before_insert begun)
    ]

    -- from the first look for a duplicate on
    unfoldable pub process_event : ℕ → ProviderEvent → Db → Result WebhookResult × Db
    process_event payload_hash event db = elim (find_event db event.event_id) [
      | some recorded ↦ (ok (duplicate_result recorded event payload_hash), db)
      | none ↦ elim (resolved event) [
        | err e ↦ (err e, db)
        | ok found ↦ process_resolved payload_hash found (others.before_lookup db)
      ]
    ]

    unfoldable pub process : List ℕ → String → Db → Result WebhookResult × Db
    process raw_body signature db = elim (verified raw_body signature) [
      | err e ↦ (err e, db)
      | ok event ↦ process_event (sha256 raw_body) event db
    ]
