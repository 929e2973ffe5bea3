-- ===== src/Payments/Completing.antt =====
-- The rest of `CheckoutService` of app/payments/service.py: the call of the provider, `_finalize` and
-- `create`. What others commit while the provider is called is the argument `meanwhile`.
use spacerocks_coa.Base.{
  ℕ, String, false, not, ◌||◌, ◌==◌, some, str_eq, find, Result, ok, err, value_error,
  checkout_unavailable, idempotency_conflict, checkout_in_progress, ◌>>=◌, ◌>>◌, raise_if, or_raise,
}
use spacerocks_coa.Db.{Db, Order, IdempotencyRequest, ResponseBody, CheckoutState, PaymentMode}
use spacerocks_coa.Orders.{find_order, save_order}
use spacerocks_coa.Orders.Keys.{uuid_string}
use spacerocks_coa.Orders.Tokens.{Hash, issue_token}
use spacerocks_coa.Payments.Models.{
  HostedCheckoutResult, ProviderPrice, Settings, Provider, expected_price, mode_eq,
}
use spacerocks_coa.Payments.Binding.{none_or}
use spacerocks_coa.Payments.Reservations.{
  CheckoutInput, CheckoutOutput, CheckoutPlan, Fresh, IdempotencyBinding, Reserved,
  has_reservation_id, is_completed, is_processing, lease_active, same_lease, save_reservation,
}
use spacerocks_coa.Payments.Checkout.{lease_expiry, reserve}

module _ (settings : Settings) (hash : Hash) (token_ttl : ℕ)
    (check_url : String → String → PaymentMode → Result (Unit {0})) where
  -- `safe_response`
  abbrev pub answer_body : Order → HostedCheckoutResult → ResponseBody
  answer_body opened result = record {
    order_reference = opened.order_reference;
    checkout_url = result.checkout_url;
    payment_state = opened.payment_state;
    fulfillment_state = opened.fulfillment_state;
  }

  abbrev pub ended_reservation : IdempotencyRequest → ResponseBody → ℕ → IdempotencyRequest
  ended_reservation reservation body now = record reservation {
    checkout_state = CheckoutState.completed;
    response_status = some 201;
    response_body = some body;
    completed_at = some now;
    checkout_lease_expires_at = some (lease_expiry settings hash token_ttl check_url now);
  }

  -- the end of `_finalize`: the order gets the session, and the reservation its answer
  unfoldable pub finalize_order :
      Order
      → IdempotencyRequest
      → HostedCheckoutResult
      → Fresh
      → ℕ
      → Db
      → Result (CheckoutOutput × Db)
  finalize_order order reservation result fresh now db = do
    let opened = record order { checkout_session_id = some result.session_id; updated_at = now }
    saved ← save_order opened db
    (raw, issued) ← issue_token hash fresh.token token_ttl opened now false saved
    let body = answer_body opened result
    let ended = ended_reservation reservation body now
    ok (
      record {
        order_reference = body.order_reference;
        status_token = raw;
        checkout_url = body.checkout_url;
        payment_state = body.payment_state;
        fulfillment_state = body.fulfillment_state;
      },
      save_reservation ended issued,
    )

  -- `_finalize`, once the lease is checked
  unfoldable pub finalize_held :
      IdempotencyRequest → HostedCheckoutResult → Fresh → ℕ → Db → Result (CheckoutOutput × Db)
  finalize_held reservation result fresh now db = do
    order ←
        or_raise (find_order db reservation.order_id)
          (idempotency_conflict "idempotent order is unavailable")
    raise_if (not (mode_eq order.payment_mode settings.payment_mode))
        (idempotency_conflict "reserved order payment mode does not match checkout mode")
    raise_if (not (none_or order.checkout_session_id (some result.session_id)))
        (idempotency_conflict "provider session conflicts with reserved order")
    finalize_order order reservation result fresh now db

  -- `_finalize`
  unfoldable pub finalize :
      CheckoutPlan
      → IdempotencyBinding
      → HostedCheckoutResult
      → Fresh
      → ℕ
      → Db
      → Result (CheckoutOutput × Db)
  finalize planned binding result fresh now db = do
    reservation ←
        or_raise (find (has_reservation_id planned.reservation_id) db.idempotency_requests)
          (idempotency_conflict "idempotent reservation is unavailable")
    raise_if (not (reservation.request_hash == binding.request_sha256))
        (idempotency_conflict "idempotent reservation is unavailable")
    raise_if (is_completed reservation.checkout_state)
        (checkout_in_progress "checkout credential is in its grace period")
    raise_if
        (not (is_processing reservation.checkout_state)
          || (not (same_lease reservation.checkout_lease_id planned.lease_id)
              || not (lease_active reservation.checkout_lease_expires_at now)))
        (checkout_in_progress "checkout processing lease is unavailable")
    finalize_held reservation result fresh now db

  module _ (provider : Provider) where
    -- `get_checkout_price`
    unfoldable pub get_checkout_price : Result ProviderPrice
    get_checkout_price = do
      raise_if (not settings.checkout_enabled || mode_eq settings.payment_mode PaymentMode.disabled)
          (checkout_unavailable "checkout is disabled")
      raise_if (not (mode_eq provider.payment_mode settings.payment_mode))
          (checkout_unavailable "payment provider mode does not match checkout mode")
      price ← provider.retrieve_price (expected_price settings)
      raise_if
          (not (str_eq price.price_id (expected_price settings))
            || (not (price.amount_minor == settings.checkout_amount_minor)
                || not (str_eq price.currency settings.checkout_currency)))
          (checkout_unavailable "provider Price does not match checkout configuration")
      ok price

    -- `_call_provider`
    unfoldable pub call_provider : CheckoutPlan → Result HostedCheckoutResult
    call_provider planned = do
      price ← get_checkout_price
      raise_if
          (not (str_eq price.price_id planned.price_id)
            || (not (price.amount_minor == planned.amount_minor)
                || not (str_eq price.currency planned.currency)))
          (checkout_unavailable "provider Price does not match reserved checkout")
      provider.create_checkout
          (record {
            internal_order_id = uuid_string planned.order_id;
            order_reference = planned.order_reference;
            customer_email = planned.customer_email;
            price_id = planned.price_id;
            amount_minor = planned.amount_minor;
            currency = planned.currency;
            success_url = planned.success_url;
            cancel_url = planned.cancel_url;
          })
          planned.provider_idempotency_key

    -- the guards of `create`
    unfoldable pub admitted : CheckoutInput → Result (Unit {0})
    admitted request = do
      raise_if (not settings.checkout_enabled) (checkout_unavailable "checkout is disabled")
      raise_if (mode_eq settings.payment_mode PaymentMode.disabled)
          (checkout_unavailable "checkout is disabled")
      raise_if
          (not (str_eq request.terms_version settings.expected_terms_version)
            || not (str_eq request.privacy_version settings.expected_privacy_version))
          (value_error "checkout policy version mismatch")
      raise_if (not (mode_eq provider.payment_mode settings.payment_mode))
          (checkout_unavailable "payment provider mode does not match checkout mode")

    -- the call of the provider, with the check of the URL that it answers
    unfoldable pub call_checked : CheckoutPlan → Result HostedCheckoutResult
    call_checked planned = do
      result ← call_provider planned
      check_url result.checkout_url result.session_id settings.payment_mode
      ok result

    -- what `create` does with a reservation; `db` is the database that the reservation left
    unfoldable pub complete_plan :
        (Db → Db) → Reserved → IdempotencyBinding → Fresh → ℕ → Db → Result CheckoutOutput × Db
    complete_plan meanwhile (Reserved.answered answer) binding fresh later db = (ok answer, db)
    complete_plan meanwhile (Reserved.to_create planned) binding fresh later db =
        elim (call_checked planned >>= λ result.
        finalize planned binding result fresh later (meanwhile db)) [
          | err e ↦ (err e, meanwhile db)
          | ok (answer, db') ↦ (ok answer, db')
        ]

    -- `create`
    unfoldable pub create :
        (Db → Db)
        → (Db → Db)
        → CheckoutInput
        → IdempotencyBinding
        → Fresh
        → ℕ
        → ℕ
        → Db
        → Result CheckoutOutput × Db
    create racing meanwhile request binding fresh now later db =
        elim (admitted request
          >> reserve settings hash token_ttl check_url racing request binding fresh now db) [
            | err e ↦ (err e, db)
            | ok (reserved, db') ↦ complete_plan meanwhile reserved binding fresh later db'
          ]
