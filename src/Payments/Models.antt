-- ===== src/Payments/Models.antt =====
-- app/payments/models.py, the settings and the payment provider that the services of
-- app/payments/service.py read. The provider is a service outside the repository: its methods are the
-- fields of a record. Amounts are whole numbers of the minor unit, which Stripe never sends negative.
use spacerocks_coa.Base.{ℕ, String, Bool, true, false, Option, List, Result, or_else}
use spacerocks_coa.Db.{PaymentMode}
use spacerocks_coa.Orders.Keys.{given}

pub record HostedCheckoutRequest : Type 0 where
  pub internal_order_id : String
  pub order_reference : String
  pub customer_email : String
  pub price_id : String
  pub amount_minor : ℕ
  pub currency : String
  pub success_url : String
  pub cancel_url : String

pub record HostedCheckoutResult : Type 0 where
  pub session_id : String
  pub checkout_url : String

pub record ProviderPrice : Type 0 where
  pub price_id : String
  pub amount_minor : ℕ
  pub currency : String

pub record ProviderEvent : Type 0 where
  pub event_id : String
  pub event_type : String
  pub livemode : Bool
  pub internal_order_id : Option String
  pub session_id : Option String
  pub payment_intent_id : Option String
  pub refund_status : Option String
  pub refunded_amount : Option ℕ

pub record CanonicalCheckout : Type 0 where
  pub session_id : String
  pub payment_intent_id : Option String
  pub livemode : Bool
  pub mode : String
  pub status : String
  pub payment_status : String
  pub metadata : List (String × String)
  pub price_id : String
  pub amount_total : ℕ
  pub currency : String
  pub quantity : ℕ
  pub refund_status : Option String
  pub refunded_amount_total : ℕ

-- the settings that checkout and webhooks read, with the grace as a span
pub record Settings : Type 0 where
  pub checkout_enabled : Bool
  pub payment_mode : PaymentMode
  pub stripe_price_id : Option String
  pub checkout_amount_minor : ℕ
  pub checkout_currency : String
  pub checkout_success_url : Option String
  pub checkout_cancel_url : Option String
  pub expected_terms_version : String
  pub expected_privacy_version : String
  pub product_version : String
  pub checkout_credential_grace : ℕ
  pub stripe_signature_tolerance_seconds : ℕ

-- `PaymentProvider`
pub record Provider : Type 0 where
  pub payment_mode : PaymentMode
  pub retrieve_price : String → Result ProviderPrice
  pub create_checkout : HostedCheckoutRequest → String → Result HostedCheckoutResult
  pub verify_event : List ℕ → String → ℕ → Result ProviderEvent
  pub resolve_internal_order_id : ProviderEvent → Result (Option String)
  pub retrieve_checkout : String → Result CanonicalCheckout

-- `settings.stripe_price_id or "fixture_price"`
abbrev pub expected_price : Settings → String
expected_price settings = or_else (given settings.stripe_price_id) "fixture_price"

-- equality of members of PaymentMode
abbrev pub mode_eq : PaymentMode → PaymentMode → Bool
mode_eq PaymentMode.disabled PaymentMode.disabled = true
mode_eq PaymentMode.fixture PaymentMode.fixture = true
mode_eq PaymentMode.stripe_test PaymentMode.stripe_test = true
mode_eq PaymentMode.stripe_live PaymentMode.stripe_live = true
mode_eq _ _ = false

abbrev pub is_live : PaymentMode → Bool
is_live mode = mode_eq mode PaymentMode.stripe_live

abbrev pub bool_eq : Bool → Bool → Bool
bool_eq true b = b
bool_eq false true = false
bool_eq false false = true
