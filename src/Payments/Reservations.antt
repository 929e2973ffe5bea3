-- ===== src/Payments/Reservations.antt =====
-- The values of `CheckoutService` of app/payments/service.py, and the rows of reservations: an insert
-- that breaks a unique constraint of app/db/models.py raises `IntegrityError`.
use spacerocks_coa.Base.{
  ℕ, String, Bool, true, false, ◌&&◌, ◌||◌, ◌==◌, ltb, Option, none, some, [], ◌∷◌, ◌++◌,
  if◌then◌else◌, is_some, opt_eq, str_eq, find, replace, Result, ok, err, integrity_error,
  idempotency_conflict, payment_provider_error,
}
use spacerocks_coa.Order.{PaymentState, FulfillmentState}
use spacerocks_coa.Db.{Db, Order, IdempotencyRequest, CheckoutState}

pub record CheckoutInput : Type 0 where
  pub certificate_reference : String
  pub manifest_digest : ℕ
  pub email : String
  pub terms_version : String
  pub privacy_version : String
  pub accepted_at : ℕ

-- app/security/idempotency.py
pub record IdempotencyBinding : Type 0 where
  pub key_sha256 : ℕ
  pub request_sha256 : ℕ

pub record CheckoutOutput : Type 0 where
  pub order_reference : String
  pub status_token : String
  pub checkout_url : String
  pub payment_state : PaymentState
  pub fulfillment_state : FulfillmentState

pub record CheckoutPlan : Type 0 where
  pub reservation_id : ℕ
  pub order_id : ℕ
  pub order_reference : String
  pub customer_email : String
  pub price_id : String
  pub amount_minor : ℕ
  pub currency : String
  pub success_url : String
  pub cancel_url : String
  pub provider_idempotency_key : String
  pub lease_id : Option ℕ

-- `CheckoutPlan | CheckoutOutput`
pub data Reserved : Type 0 where
  to_create : CheckoutPlan → Reserved
  answered : CheckoutOutput → Reserved

-- what one call of the service draws: UUIDs, a reference and a token
pub record Fresh : Type 0 where
  pub order_id : ℕ
  pub reservation_id : ℕ
  pub lease_id : ℕ
  pub order_reference : Result String
  pub token : String

abbrev pub endpoint : String
endpoint = "POST:/v1/checkout"

abbrev pub is_completed : CheckoutState → Bool
is_completed CheckoutState.completed = true
is_completed _ = false

abbrev pub is_processing : CheckoutState → Bool
is_processing CheckoutState.processing = true
is_processing _ = false

abbrev pub has_key : ℕ → IdempotencyRequest → Bool
has_key key_hash r = str_eq r.endpoint endpoint && r.key_hash == key_hash

-- `OrderStore.find_idempotency`
unfoldable pub find_idempotency : ℕ → Db → Option IdempotencyRequest
find_idempotency key_hash db = find (has_key key_hash) db.idempotency_requests

abbrev pub has_reservation_id : ℕ → IdempotencyRequest → Bool
has_reservation_id id r = r.id == id

unfoldable pub save_reservation : IdempotencyRequest → Db → Db
save_reservation r db = record db {
  idempotency_requests = replace (has_reservation_id r.id) r db.idempotency_requests;
}

-- the unique columns of an order that is new
unfoldable pub insert_order : Order → Db → Result Db
insert_order o db =
    if is_some (
      find
        (λ (x : Order).
          x.id == o.id
          || (str_eq x.order_reference o.order_reference
              || str_eq x.fulfillment_key o.fulfillment_key))
        db.orders)
    then err integrity_error
    else ok (record db { orders = db.orders ++ o ∷ [] })

-- uq_idempotency_endpoint_key, and the unique columns order_id and provider_idempotency_key
unfoldable pub insert_reservation : IdempotencyRequest → Db → Result Db
insert_reservation r db =
    if is_some (
      find
        (λ (x : IdempotencyRequest).
          x.id == r.id
          || ((str_eq x.endpoint r.endpoint && x.key_hash == r.key_hash)
              || (x.order_id == r.order_id
                  || str_eq x.provider_idempotency_key r.provider_idempotency_key)))
        db.idempotency_requests)
    then err integrity_error
    else ok (record db { idempotency_requests = db.idempotency_requests ++ r ∷ [] })

-- `lease_expires_at is not None and lease_expires_at > now`
abbrev pub lease_active : Option ℕ → ℕ → Bool
lease_active none now = false
lease_active (some t) now = ltb now t

-- equality of the texts of two leases, which are texts of UUIDs or `None`
abbrev pub same_lease : Option ℕ → Option ℕ → Bool
same_lease none none = true
same_lease none (some b) = false
same_lease (some a) l = opt_eq l a

-- `except PaymentProviderError` of `_replay`
abbrev pub invalid_url : Result (Unit {0}) → Result (Unit {0})
invalid_url (err (payment_provider_error _)) =
    err (idempotency_conflict "idempotent checkout URL is invalid")
invalid_url r = r
