-- ===== src/Payments/Paying.antt =====
-- When the webhook takes a payment as made.
use spacerocks_coa.Base.{
  ℕ, ◌≡◌, ◌≢◌, refl, ap, ◌∙◌, subst, String, Bool, true, false, not, ◌==◌, Option, none, some,
  arith, ok, if◌then◌else◌, inl, inr, str_eq, opt_str_eq, eq_iff, List, [], ◌∷◌, ==_iff,
}
use spacerocks_coa.Order.{PaymentState, FulfillmentState}
use spacerocks_coa.Db.{Db, Order}
use spacerocks_coa.Orders.{NewIds, find_order, find_event}
use spacerocks_coa.Orders.Rows.{DistinctOrders}
use spacerocks_coa.Payments.Models.{ProviderEvent, CanonicalCheckout, Settings, expected_price}
use spacerocks_coa.Payments.Binding.{
  all, base_tests, valid_binding, base_valid, is_metadata_of, event_target, is_complete_event,
}
use spacerocks_coa.Payments.Webhook.{WebhookResult, process_transaction}
use spacerocks_coa.Payments.Movement.{unmoved, moved}
use spacerocks_coa.Payments.Guarantees.{order_after}

-- what the provider says of the checkout of an order that was paid in full
pub record IsFullPayment (settings : Settings) (order : Order) (checkout : CanonicalCheckout)
    : Type 0 where
  pub paid : checkout.payment_status ≡ "paid"
  pub amount : checkout.amount_total ≡ order.amount_minor
  pub currency : checkout.currency ≡ order.currency
  pub price : checkout.price_id ≡ expected_price settings
  pub quantity : checkout.quantity ≡ 1
  pub session : order.checkout_session_id ≡ some checkout.session_id
  pub metadata : is_metadata_of order.id checkout.metadata ≡ true
  pub complete : checkout.status ≡ "complete"

str_eq→path : (s t : String) → str_eq s t ≡ true → s ≡ t
str_eq→path s t h = (eq_iff s t).0 h

opt_str_eq→path : (o : Option String) (t : String) → opt_str_eq o t ≡ true → o ≡ some t
opt_str_eq→path none t h = cc
opt_str_eq→path (some s) t h = ap some (str_eq→path s t h)

abbrev AllTrue : List Bool → Type 0
AllTrue [] = Unit
AllTrue (b ∷ bs) = (b ≡ true) × AllTrue bs

all-AllTrue : (bs : List Bool) → all bs ≡ true → AllTrue bs
all-AllTrue [] h = tt
all-AllTrue (true ∷ bs) h = (refl, all-AllTrue bs h)
all-AllTrue (false ∷ bs) h = cc

if_not : (b x : Bool) → (if not b then false else x) ≡ true → b ≡ true
if_not true x h = refl
if_not false x h = cc

valid_base :
    (settings : Settings) (order : Order) (event : ProviderEvent) (checkout : CanonicalCheckout)
    → valid_binding settings order event checkout ≡ true
    → base_valid settings order event checkout ≡ true
unfolding valid_binding
valid_base settings order event checkout v = if_not (base_valid settings order event checkout) _ v

base_parts :
    (settings : Settings) (order : Order) (event : ProviderEvent) (checkout : CanonicalCheckout)
    → base_valid settings order event checkout ≡ true
    → (is_metadata_of order.id checkout.metadata ≡ true)
      × (opt_str_eq order.checkout_session_id checkout.session_id ≡ true)
      × (str_eq checkout.price_id (expected_price settings) ≡ true)
      × ((checkout.amount_total == order.amount_minor) ≡ true)
      × (str_eq checkout.currency order.currency ≡ true)
      × ((checkout.quantity == 1) ≡ true)
unfolding base_valid
base_parts settings order event checkout h =
    let from_metadata = (all-AllTrue (base_tests settings order event checkout) h).1.1.1 in
    let from_price = from_metadata.1.1.1.1.1 in
    (
      from_metadata.0, from_metadata.1.0, from_price.0, from_price.1.0, from_price.1.1.0,
      from_price.1.1.1.0,
    )

target_paid :
    (event : ProviderEvent) (checkout : CanonicalCheckout)
    → event_target event checkout ≡ some PaymentState.paid
    → (str_eq checkout.payment_status "paid" ≡ true) × (is_complete_event event.event_type ≡ true)
unfolding event_target
target_paid event checkout t = ground arith

complete_status :
    (settings : Settings) (order : Order) (event : ProviderEvent) (checkout : CanonicalCheckout)
    → valid_binding settings order event checkout ≡ true
    → is_complete_event event.event_type ≡ true
    → str_eq checkout.status "complete" ≡ true
unfolding valid_binding
complete_status settings order event checkout v c = ground arith

full_payment :
    (settings : Settings) (order : Order) (event : ProviderEvent) (checkout : CanonicalCheckout)
    → valid_binding settings order event checkout ≡ true
    → event_target event checkout ≡ some PaymentState.paid
    → IsFullPayment settings order checkout
full_payment settings order event checkout v t =
    let (metadata, session, price, amount, currency, quantity) =
      base_parts settings order event checkout (valid_base settings order event checkout v) in
    let (paid, completes) = target_paid event checkout t in
    let complete = complete_status settings order event checkout v completes in
    record {
      paid = str_eq→path checkout.payment_status "paid" paid;
      amount = (==_iff checkout.amount_total order.amount_minor).0 amount;
      currency = str_eq→path checkout.currency order.currency currency;
      price = str_eq→path checkout.price_id (expected_price settings) price;
      quantity = (==_iff checkout.quantity 1).0 quantity;
      session = opt_str_eq→path order.checkout_session_id checkout.session_id session;
      metadata = metadata;
      complete = str_eq→path checkout.status "complete" complete;
    }

module _ (settings : Settings) (uuid_of : String → Option ℕ) (event : ProviderEvent)
    (canonical : Option CanonicalCheckout) (fresh : NewIds) (now : ℕ) (racing : Db → Db)
    (payload_hash : ℕ) (db : Db) (r : WebhookResult × Db)
    (distinct : DistinctOrders (racing db).orders) (new : find_event db event.event_id ≡ none)
    (run : process_transaction settings uuid_of racing event canonical payload_hash fresh now db
      ≡ ok r)
    (i : ℕ) where
  -- Where orders have distinct ids, an order becomes paid by an event that is new only if the provider's own record of the checkout of that order
  -- says that it is complete and paid, in the order's amount and currency, at the configured price,
  -- once, and with the metadata of that order; the order is then queued.
  pub paid_in_full :
      (before after : Order)
      → find_order (racing db) i ≡ some before
      → find_order r.1 i ≡ some after
      → before.payment_state ≢ PaymentState.paid
      → after.payment_state ≡ PaymentState.paid
      → (checkout : CanonicalCheckout) × (canonical ≡ some checkout)
        × IsFullPayment settings before checkout
        × (after.fulfillment_state ≡ FulfillmentState.queued)
  paid_in_full before after found last unpaid paid =
      elim (order_after settings uuid_of event canonical fresh now racing payload_hash db r distinct
        new run i) [
          | inl same ↦ absurd (unpaid (ground arith))
          | inr (order, checkout, written, b, at, ended) ↦
              let same : order ≡ before = ground (arith, b.row, found, at) in
              let final : written ≡ after = ground (arith, ended, last) in
              elim b.movement [
                | unmoved p f ↦ absurd (unpaid (ground arith))
                | moved target t q step p f ↦
                    let is_paid : target ≡ PaymentState.paid = ground arith in
                    (
                      checkout,
                      b.held,
                      subst (λ o. IsFullPayment settings o checkout) same
                          (full_payment settings order event checkout (b.valid)
                            (t ∙ ap some is_paid)),
                      ground arith,
                    )
              ]
        ]
