-- ===== src/Payments/Samples.antt =====
-- One order, the event that pays it, and a checkout with its reservation.
use spacerocks_coa.Base.{
  ℕ, ◌≡◌, refl, String, true, false, Option, none, some, [], ◌∷◌, Result, ok, err, find, replace,
  hex_digits, decimal,
}
use spacerocks_coa.Order.{
  PaymentState, FulfillmentState, transition_payment as move_payment, payment_allowed,
}
use spacerocks_coa.Db.{Db, Order, PaymentMode, IdempotencyRequest, CheckoutState}
use spacerocks_coa.Db.Access.{insert_job, insert_dispatch, find_job, find_dispatch}
use spacerocks_coa.Tasks.{add_task_dispatch}
use spacerocks_coa.Tasks.Naming.{deterministic_task_name}
pub use spacerocks_coa.Jobs.Samples.{open_order, one_order}
use spacerocks_coa.Orders.{
  NewIds, find_order, find_order_for_event, find_event, save_event, record_stripe_event, save_order,
  record_state_event, insert_state_event, last_sequence, enqueue_fulfillment_once,
  enqueue_outbox_once, transition_payment,
}
use spacerocks_coa.Orders.Keys.{uuid_string, hex_string, hex_char}
use spacerocks_coa.Orders.Tokens.{Hash, issue_token, last_version}
use spacerocks_coa.Payments.Models.{
  ProviderEvent, CanonicalCheckout, Settings, HostedCheckoutResult,
}
use spacerocks_coa.Payments.Binding.{
  valid_binding, base_valid, intent_required, event_target, apply_event,
}
use spacerocks_coa.Payments.Webhook.{
  WebhookResult, process_transaction, handle_recorded, apply_bound, work_if_paid, enqueue_work,
  note_if_changed, rejected,
}
use spacerocks_coa.Payments.Reservations.{
  CheckoutInput, Reserved, find_idempotency, insert_order, insert_reservation, CheckoutPlan,
  CheckoutOutput, IdempotencyBinding, Fresh, save_reservation,
}
use spacerocks_coa.Payments.Checkout.{reserve, reserve_again, reserve_new, make_plan}
use spacerocks_coa.Payments.Completing.{finalize, finalize_held, finalize_order}

abbrev pub test_settings : Settings
test_settings = record {
  checkout_enabled = true;
  payment_mode = PaymentMode.stripe_test;
  stripe_price_id = some "price_1";
  checkout_amount_minor = 1900;
  checkout_currency = "usd";
  checkout_success_url = none;
  checkout_cancel_url = none;
  expected_terms_version = "t1";
  expected_privacy_version = "p1";
  product_version = "v1";
  checkout_credential_grace = 600;
  stripe_signature_tolerance_seconds = 300;
}

abbrev pub paid_event : ProviderEvent
paid_event = record {
  event_id = "evt_1";
  event_type = "checkout.session.completed";
  livemode = false;
  internal_order_id = some "5";
  session_id = some "cs_test_5";
  payment_intent_id = some "pi_5";
  refund_status = none;
  refunded_amount = none;
}

abbrev pub paid_checkout : CanonicalCheckout
paid_checkout = record {
  session_id = "cs_test_5";
  payment_intent_id = some "pi_5";
  livemode = false;
  mode = "payment";
  status = "complete";
  payment_status = "paid";
  metadata = ("order_id", "00000000-0000-0000-0000-000000000005") ∷ [];
  price_id = "price_1";
  amount_total = 1900;
  currency = "usd";
  quantity = 1;
  refund_status = none;
  refunded_amount_total = 0;
}

-- reads every identifier as 5
abbrev pub five : String → Option ℕ
five text = some 5

abbrev pub unraced : Db → Db
unraced db = db

-- the value of a result, or a given one
abbrev pub value_or {ℓ} : {A : Type ℓ} → Result A → A → A
value_or (ok a) d = a
value_or (err e) d = d

abbrev pub new_ids : NewIds
new_ids = record { job = 7; message = 8 }

abbrev pub paid_run : Result (WebhookResult × Db)
paid_run =
    process_transaction test_settings five unraced paid_event (some paid_checkout) 99 new_ids 50
      one_order

abbrev pub paid_end : WebhookResult × Db
paid_end = value_or paid_run (rejected, one_order)

pub paid_run-ok : paid_run ≡ ok paid_end
unfolding process_transaction find_event find record_stripe_event handle_recorded
    find_order_for_event find_order valid_binding base_valid intent_required event_target
    apply_event transition_payment move_payment payment_allowed apply_bound save_order replace
    work_if_paid enqueue_work enqueue_fulfillment_once insert_job find_job add_task_dispatch
    deterministic_task_name hex_digits decimal insert_dispatch find_dispatch enqueue_outbox_once
    uuid_string hex_string hex_char note_if_changed record_state_event insert_state_event
    last_sequence save_event
paid_run-ok = refl

abbrev pub paid_order : Order
paid_order = record open_order {
  payment_state = PaymentState.paid;
  fulfillment_state = FulfillmentState.queued;
  payment_intent_id = some "pi_5";
  updated_at = 50;
}

pub paid_found : find_order paid_end.1 5 ≡ some paid_order
unfolding process_transaction find_event find record_stripe_event handle_recorded
    find_order_for_event find_order valid_binding base_valid intent_required event_target
    apply_event transition_payment move_payment payment_allowed apply_bound save_order replace
    work_if_paid enqueue_work enqueue_fulfillment_once insert_job find_job add_task_dispatch
    deterministic_task_name hex_digits decimal insert_dispatch find_dispatch enqueue_outbox_once
    uuid_string hex_string hex_char note_if_changed record_state_event insert_state_event
    last_sequence save_event
paid_found = refl

pub paid_accepted : paid_end.0 ≡ record { duplicate = false; accepted = true }
unfolding process_transaction find_event find record_stripe_event handle_recorded
    find_order_for_event find_order valid_binding base_valid intent_required event_target
    apply_event transition_payment move_payment payment_allowed apply_bound save_order replace
    work_if_paid enqueue_work enqueue_fulfillment_once insert_job find_job add_task_dispatch
    deterministic_task_name hex_digits decimal insert_dispatch find_dispatch enqueue_outbox_once
    uuid_string hex_string hex_char note_if_changed record_state_event insert_state_event
    last_sequence save_event
paid_accepted = refl

-- a checkout that is reserved, with the lease 3
abbrev pub reservation : IdempotencyRequest
reservation = record {
  id = 2;
  endpoint = "POST:/v1/checkout";
  key_hash = 21;
  request_hash = 22;
  order_id = 5;
  provider_idempotency_key = "k";
  provider_price_id = "price_1";
  success_url = "https://example.test/timestamp/status";
  cancel_url = "https://example.test/timestamp/cancelled";
  checkout_state = CheckoutState.processing;
  checkout_lease_id = some 3;
  checkout_lease_expires_at = some 700;
  response_status = none;
  response_body = none;
  completed_at = none;
  created_at = 100;
}

abbrev pub reserved_checkout : Db
reserved_checkout = record one_order { idempotency_requests = reservation ∷ [] }

abbrev pub plan_of : ℕ → CheckoutPlan
plan_of lease_id = record {
  reservation_id = 2;
  order_id = 5;
  order_reference = "ts_5";
  customer_email = "a@example.test";
  price_id = "price_1";
  amount_minor = 1900;
  currency = "usd";
  success_url = "https://example.test/timestamp/status";
  cancel_url = "https://example.test/timestamp/cancelled";
  provider_idempotency_key = "k";
  lease_id = some lease_id;
}

abbrev pub binding : IdempotencyBinding
binding = record { key_sha256 = 21; request_sha256 = 22 }

abbrev pub hosted : HostedCheckoutResult
hosted = record {
  session_id = "cs_test_5";
  checkout_url = "https://checkout.stripe.com/c/pay/cs_test_5";
}

abbrev pub drawn : Fresh
drawn = record {
  order_id = 8;
  reservation_id = 9;
  lease_id = 10;
  order_reference = ok "ts_8";
  token = "v1.token";
}

abbrev pub hash_all : Hash
hash_all raw = ok (1, 4711)

abbrev pub any_url : String → String → PaymentMode → Result (Unit {0})
any_url url session_id mode = ok tt

abbrev pub no_output : CheckoutOutput
no_output = record {
  order_reference = "";
  status_token = "";
  checkout_url = "";
  payment_state = PaymentState.failed;
  fulfillment_state = FulfillmentState.manual_review;
}

abbrev pub final_run : Result (CheckoutOutput × Db)
final_run =
    finalize test_settings hash_all 9000 any_url (plan_of 3) binding hosted drawn 120
      reserved_checkout

abbrev pub final_end : CheckoutOutput × Db
final_end = value_or final_run (no_output, reserved_checkout)

pub final_run-ok : final_run ≡ ok final_end
unfolding finalize finalize_held finalize_order save_reservation find find_order save_order replace
    issue_token last_version
final_run-ok = refl

abbrev pub request : CheckoutInput
request = record {
  certificate_reference = "nwa-2";
  manifest_digest = 78;
  email = "b@example.test";
  terms_version = "t1";
  privacy_version = "p1";
  accepted_at = 90;
}

abbrev pub reserve_run : Result (Reserved × Db)
reserve_run =
    reserve test_settings hash_all 9000 any_url unraced request binding drawn 100 one_order

abbrev pub reserve_end : Reserved × Db
reserve_end = value_or reserve_run (Reserved.to_create (plan_of 0), one_order)

abbrev pub plan_from : Reserved → CheckoutPlan
plan_from (Reserved.to_create planned) = planned
plan_from (Reserved.answered _) = plan_of 0

pub reserve_run-ok : reserve_run ≡ ok (Reserved.to_create (plan_from reserve_end.0), reserve_end.1)
unfolding reserve reserve_again find_idempotency find reserve_new insert_order insert_reservation
    record_state_event insert_state_event last_sequence make_plan find_order uuid_string hex_string
    hex_char
reserve_run-ok = refl
