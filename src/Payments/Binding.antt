-- ===== src/Payments/Binding.antt =====
-- Which events of the provider concern an order, and the payment state that an event asks for:
-- `_valid_binding`, `_apply_event` and `_authoritative_full_refund` of app/payments/service.py.
use spacerocks_coa.Base.{
  ℕ, String, Bool, true, false, not, ◌&&◌, ◌||◌, ◌==◌, ltb, Option, none, some, List, [], ◌∷◌,
  if◌then◌else◌, str_eq, opt_str_eq,
}
use spacerocks_coa.Order.{PaymentState}
use spacerocks_coa.Db.{Order, PaymentMode}
use spacerocks_coa.Orders.{transition_payment, same_text}
use spacerocks_coa.Orders.Keys.{uuid_string}
use spacerocks_coa.Payments.Models.{
  ProviderEvent, CanonicalCheckout, Settings, expected_price, mode_eq, is_live, bool_eq,
}

-- `metadata == {"order_id": str(order.id)}`, on the entries of a dictionary
abbrev pub is_metadata_of : ℕ → List (String × String) → Bool
is_metadata_of order_id ((key, value) ∷ []) =
    str_eq key "order_id" && str_eq value (uuid_string order_id)
is_metadata_of order_id _ = false

-- `v in {None, w}`
abbrev pub none_or : Option String → Option String → Bool
none_or none w = true
none_or (some v) w = opt_str_eq w v

abbrev pub is_enabled : PaymentMode → Bool
is_enabled PaymentMode.disabled = false
is_enabled _ = true

-- `all(...)`
abbrev pub all : List Bool → Bool
all [] = true
all (b ∷ bs) = b && all bs

-- the tests of `base_valid`
abbrev pub base_tests : Settings → Order → ProviderEvent → CanonicalCheckout → List Bool
base_tests settings order event canonical =
    bool_eq event.livemode (is_live settings.payment_mode)
    ∷ bool_eq canonical.livemode (is_live settings.payment_mode)
    ∷ str_eq canonical.mode "payment"
    ∷ is_metadata_of order.id canonical.metadata
    ∷ opt_str_eq order.checkout_session_id canonical.session_id
    ∷ none_or event.session_id (some canonical.session_id)
    ∷ none_or event.payment_intent_id canonical.payment_intent_id
    ∷ none_or order.payment_intent_id canonical.payment_intent_id
    ∷ str_eq canonical.price_id (expected_price settings)
    ∷ (canonical.amount_total == order.amount_minor)
    ∷ str_eq canonical.currency order.currency
    ∷ (canonical.quantity == 1)
    ∷ mode_eq order.payment_mode settings.payment_mode
    ∷ is_enabled settings.payment_mode
    ∷ []

unfoldable pub base_valid : Settings → Order → ProviderEvent → CanonicalCheckout → Bool
base_valid settings order event canonical = all (base_tests settings order event canonical)

abbrev pub is_complete_event : String → Bool
is_complete_event t =
    str_eq t "checkout.session.completed"
    || (str_eq t "checkout.session.async_payment_succeeded"
        || str_eq t "checkout.session.async_payment_failed")

abbrev pub is_refund_event : String → Bool
is_refund_event t =
    str_eq t "charge.refunded" || (str_eq t "refund.created" || str_eq t "refund.updated")

abbrev pub is_dispute_event : String → Bool
is_dispute_event t = str_eq t "charge.dispute.created" || str_eq t "charge.dispute.updated"

-- `o is not None and o > 0`
abbrev pub is_positive : Option ℕ → Bool
is_positive none = false
is_positive (some n) = ltb 0 n

unfoldable pub authoritative_full_refund : ProviderEvent → CanonicalCheckout → Bool
authoritative_full_refund event canonical =
    opt_str_eq event.refund_status "succeeded"
    && (is_positive event.refunded_amount
        && (opt_str_eq canonical.refund_status "succeeded"
            && (canonical.refunded_amount_total == canonical.amount_total
                && ltb 0 canonical.amount_total)))

-- `pi_required`
unfoldable pub intent_required : ProviderEvent → CanonicalCheckout → Bool
intent_required event canonical =
    str_eq event.event_type "checkout.session.async_payment_succeeded"
    || (is_refund_event event.event_type
        || (is_dispute_event event.event_type
            || (str_eq event.event_type "checkout.session.completed"
                && str_eq canonical.payment_status "paid")))

unfoldable pub valid_binding : Settings → Order → ProviderEvent → CanonicalCheckout → Bool
valid_binding settings order event canonical =
    if not (base_valid settings order event canonical)
    then false
    else if is_complete_event event.event_type && not (str_eq canonical.status "complete")
    then false
    else if str_eq event.event_type "checkout.session.expired"
        && not (str_eq canonical.status "expired")
    then false
    else if is_refund_event event.event_type && not (authoritative_full_refund event canonical)
    then true
    else not (intent_required event canonical)
      || same_text event.payment_intent_id canonical.payment_intent_id

-- the state that an event asks for, or nothing where `_apply_event` returns False
unfoldable pub event_target : ProviderEvent → CanonicalCheckout → Option PaymentState
event_target event canonical =
    if str_eq event.event_type "checkout.session.completed"
    then if str_eq canonical.payment_status "paid"
      then some PaymentState.paid
      else if str_eq canonical.payment_status "unpaid"
      then some PaymentState.processing
      else none
    else if str_eq event.event_type "checkout.session.async_payment_succeeded"
    then if not (str_eq canonical.payment_status "paid") then none else some PaymentState.paid
    else if str_eq event.event_type "checkout.session.async_payment_failed"
    then if str_eq canonical.payment_status "paid" then none else some PaymentState.failed
    else if str_eq event.event_type "checkout.session.expired"
    then some PaymentState.expired
    else if is_refund_event event.event_type
    then if not (authoritative_full_refund event canonical)
      then none
      else some PaymentState.refunded
    else if is_dispute_event event.event_type
    then some PaymentState.disputed
    else none

-- `_apply_event`
unfoldable pub apply_event : Order → ProviderEvent → CanonicalCheckout → Bool × Order
apply_event order event canonical = elim (event_target event canonical) [
  | none ↦ (false, order)
  | some target ↦ transition_payment order target
]
