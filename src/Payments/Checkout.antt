-- ===== src/Payments/Checkout.antt =====
-- The reservation of a checkout, `CheckoutService._reserve` of app/payments/service.py and what it
-- calls. New UUIDs, the random part of a reference and a new token are arguments, and so is
-- `check_url`, for `_validate_checkout_url`, which parses a URL. What others commit after the first
-- select of the reservation is the argument `racing`.
use spacerocks_coa.Base.{
  ℕ, ◌+◌, String, true, not, ◌||◌, ◌==◌, none, some, if◌then◌else◌, is_some, or_else, str_eq, find,
  Result, ok, err, integrity_error, idempotency_conflict, checkout_in_progress, ◌>>=◌, ◌>>◌,
  raise_if, or_raise,
}
use spacerocks_coa.Order.{PaymentState, FulfillmentState}
use spacerocks_coa.Db.{Db, Order, IdempotencyRequest, CheckoutState, PaymentMode}
use spacerocks_coa.Orders.{find_order, record_state_event}
use spacerocks_coa.Orders.Keys.{joined, uuid_string, hex_string, given}
use spacerocks_coa.Orders.Tokens.{Hash, issue_token}
use spacerocks_coa.Payments.Models.{Settings, expected_price, mode_eq}
use spacerocks_coa.Payments.Reservations.{
  CheckoutInput, CheckoutOutput, CheckoutPlan, Fresh, IdempotencyBinding, Reserved, endpoint,
  find_idempotency, insert_order, insert_reservation, invalid_url, is_completed, lease_active,
  save_reservation,
}

module _ (settings : Settings) (hash : Hash) (token_ttl : ℕ)
    (check_url : String → String → PaymentMode → Result (Unit {0})) where
  -- `_lease_expiry`
  abbrev pub lease_expiry : ℕ → ℕ
  lease_expiry now = now + settings.checkout_credential_grace

  -- `_plan`
  unfoldable pub make_plan : IdempotencyRequest → Db → Result CheckoutPlan
  make_plan reservation db = do
    order ←
        or_raise (find_order db reservation.order_id)
          (idempotency_conflict "reserved order is unavailable")
    ok (record {
      reservation_id = reservation.id;
      order_id = order.id;
      order_reference = order.order_reference;
      customer_email = order.email;
      price_id = reservation.provider_price_id;
      amount_minor = order.amount_minor;
      currency = order.currency;
      success_url = reservation.success_url;
      cancel_url = reservation.cancel_url;
      provider_idempotency_key = reservation.provider_idempotency_key;
      lease_id = reservation.checkout_lease_id;
    })

  -- `_replay`: the answer of before, with a new token in place of the old ones
  unfoldable pub replay :
      IdempotencyRequest → IdempotencyBinding → Fresh → ℕ → Db → Result (CheckoutOutput × Db)
  replay existing binding fresh now db = do
    raise_if (not (existing.request_hash == binding.request_sha256))
        (idempotency_conflict "idempotency key is bound to another request")
    raise_if (not (is_completed existing.checkout_state) || not (is_some existing.completed_at))
        (idempotency_conflict "idempotent request is still incomplete")
    body ←
        or_raise existing.response_body
          (idempotency_conflict "idempotent request is still incomplete")
    order ←
        or_raise (find (λ (o : Order). str_eq o.order_reference body.order_reference) db.orders)
          (idempotency_conflict "idempotent order is unavailable")
    session_id ←
        or_raise order.checkout_session_id (idempotency_conflict "idempotent order is unavailable")
    invalid_url (check_url body.checkout_url session_id settings.payment_mode)
    (raw, issued) ← issue_token hash fresh.token token_ttl order now true db
    ok (
      record {
        order_reference = order.order_reference;
        status_token = raw;
        checkout_url = body.checkout_url;
        payment_state = body.payment_state;
        fulfillment_state = body.fulfillment_state;
      },
      issued,
    )

  -- the end of `_resume`, on the reservation with its new lease
  unfoldable pub resume_leased :
      IdempotencyRequest → IdempotencyBinding → Fresh → ℕ → Db → Result (Reserved × Db)
  resume_leased held binding fresh now db =
      let started = record held { checkout_state = CheckoutState.processing } in
      if is_completed held.checkout_state
      then (replay held binding fresh now (save_reservation held db)
          >>= λ (t : CheckoutOutput × Db). ok (Reserved.answered t.0, t.1))
      else (make_plan started db >>= λ planned.
          ok (Reserved.to_create planned, save_reservation started db))

  -- `_resume`
  unfoldable pub resume :
      IdempotencyRequest → IdempotencyBinding → Fresh → ℕ → Db → Result (Reserved × Db)
  resume reservation binding fresh now db = do
    order ←
        or_raise (find_order db reservation.order_id)
          (idempotency_conflict "reserved order is unavailable")
    raise_if (not (mode_eq order.payment_mode settings.payment_mode))
        (idempotency_conflict "reserved order payment mode does not match checkout mode")
    raise_if (lease_active reservation.checkout_lease_expires_at now)
        (checkout_in_progress "checkout credential is in its grace period")
    resume_leased
        (record reservation {
          checkout_lease_id = some fresh.lease_id;
          checkout_lease_expires_at = some (lease_expiry now);
        })
        binding fresh now db

  -- an existing reservation, in both transactions of `_reserve`
  unfoldable pub use_existing :
      IdempotencyRequest → IdempotencyBinding → Fresh → ℕ → Db → Result (Reserved × Db)
  use_existing existing binding fresh now db = do
    raise_if (not (existing.request_hash == binding.request_sha256))
        (idempotency_conflict "idempotency key is bound to another request")
    resume existing binding fresh now db

  abbrev pub new_reservation : IdempotencyBinding → Fresh → ℕ → IdempotencyRequest
  new_reservation binding fresh now = record {
    id = fresh.reservation_id;
    endpoint = endpoint;
    key_hash = binding.key_sha256;
    request_hash = binding.request_sha256;
    order_id = fresh.order_id;
    provider_idempotency_key = hex_string 64 binding.key_sha256;
    provider_price_id = expected_price settings;
    success_url =
        or_else (given settings.checkout_success_url) "https://example.test/timestamp/status";
    cancel_url =
        or_else (given settings.checkout_cancel_url) "https://example.test/timestamp/cancelled";
    checkout_state = CheckoutState.processing;
    checkout_lease_id = some fresh.lease_id;
    checkout_lease_expires_at = some (lease_expiry now);
    response_status = none;
    response_body = none;
    completed_at = none;
    created_at = now;
  }

  abbrev pub new_order : CheckoutInput → Fresh → String → ℕ → Order
  new_order request fresh order_reference now = record {
    id = fresh.order_id;
    order_reference = order_reference;
    certificate_reference = request.certificate_reference;
    manifest_digest = request.manifest_digest;
    email = request.email;
    amount_minor = settings.checkout_amount_minor;
    currency = settings.checkout_currency;
    product_version = settings.product_version;
    payment_mode = settings.payment_mode;
    payment_state = PaymentState.checkout_open;
    fulfillment_state = FulfillmentState.awaiting_payment;
    consent_terms_version = request.terms_version;
    consent_privacy_version = request.privacy_version;
    consent_accepted_at = request.accepted_at;
    checkout_session_id = none;
    payment_intent_id = none;
    fulfillment_key = joined "stamp:" (uuid_string fresh.order_id);
    calendar_submitted_at = none;
    created_at = now;
    updated_at = now;
  }

  -- the rows of a key that is new
  unfoldable pub reserve_new :
      CheckoutInput → IdempotencyBinding → Fresh → ℕ → Db → Result (Reserved × Db)
  reserve_new request binding fresh now db = do
    order_reference ← fresh.order_reference
    let order = new_order request fresh order_reference now
    let reservation = new_reservation binding fresh now
    ordered ← insert_order order db
    reserved ← insert_reservation reservation ordered
    noted ←
        record_state_event order (joined "checkout:" (uuid_string order.id)) "checkout"
          order.payment_state order.fulfillment_state now reserved
    planned ← make_plan reservation noted
    ok (Reserved.to_create planned, noted)

  -- `except IntegrityError` of `_reserve`
  unfoldable pub reserve_again :
      IdempotencyBinding → Fresh → ℕ → Result (Reserved × Db) → Db → Result (Reserved × Db)
  reserve_again binding fresh now (ok r) db = ok r
  reserve_again binding fresh now (err integrity_error) db =
      elim (find_idempotency binding.key_sha256 db) [
        | none ↦ err integrity_error
        | some existing ↦ use_existing existing binding fresh now db
      ]
  reserve_again binding fresh now (err e) db = err e

  -- `_reserve`
  unfoldable pub reserve :
      (Db → Db) → CheckoutInput → IdempotencyBinding → Fresh → ℕ → Db → Result (Reserved × Db)
  reserve racing request binding fresh now db = elim (find_idempotency binding.key_sha256 db) [
    | some existing ↦
        reserve_again binding fresh now (use_existing existing binding fresh now db) db
    | none ↦
        reserve_again binding fresh now (reserve_new request binding fresh now (racing db))
          (racing db)
  ]
