-- ===== src/Db.antt =====
-- app/db/models.py: the rows of the tables that the modelled code reads and writes, and the
-- database as one record of tables. A time is the number of microseconds since the epoch, aware of
-- its zone, and a span is a number of microseconds. A UUID is its 128-bit number, and a digest of
-- 32 bytes the number that the bytes spell. The key `id` of a table is left out where no modelled
-- code reads it. A table is the list of its rows, in the order of their insertion.
pub mod Evidence
pub mod Access
pub mod Laws
pub mod Frames
use spacerocks_coa.Base.{ℕ, String, Bool, Option, List}
use spacerocks_coa.Order.{PaymentState, FulfillmentState}
use Evidence.{
  OutboxMessage, ProofVersion, ProofVerification, ProofBundle, BitcoinConfirmationObservation,
  NotificationAttempt, ResendWebhookEvent,
}

-- app/config/settings.py
pub data PaymentMode : Type 0 where
  disabled fixture stripe_test stripe_live : PaymentMode

-- app/jobs/models.py
pub data JobState : Type 0 where
  available leased retry complete manual_review dead_letter : JobState

-- 'reserved', 'processing', 'completed' of idempotency_requests.checkout_state
pub data CheckoutState : Type 0 where
  reserved processing completed : CheckoutState

-- 'pending', 'dispatched' of task_dispatches.state
pub data DispatchState : Type 0 where
  pending dispatched : DispatchState

pub record Order : Type 0 where
  pub id : ℕ
  pub order_reference : String
  pub certificate_reference : String
  pub manifest_digest : ℕ
  pub email : String
  pub amount_minor : ℕ
  pub currency : String
  pub product_version : String
  pub payment_mode : PaymentMode
  pub payment_state : PaymentState
  pub fulfillment_state : FulfillmentState
  pub consent_terms_version : String
  pub consent_privacy_version : String
  pub consent_accepted_at : ℕ
  pub checkout_session_id : Option String
  pub payment_intent_id : Option String
  pub fulfillment_key : String
  pub calendar_submitted_at : Option ℕ
  pub created_at : ℕ
  pub updated_at : ℕ

pub record OrderToken : Type 0 where
  pub order_id : ℕ
  pub version : ℕ
  pub pepper_version : ℕ
  pub token_hash : ℕ
  pub revoked_at : Option ℕ
  pub expires_at : ℕ
  pub created_at : ℕ

-- the keys of `response_body`
pub record ResponseBody : Type 0 where
  pub order_reference : String
  pub checkout_url : String
  pub payment_state : PaymentState
  pub fulfillment_state : FulfillmentState

pub record IdempotencyRequest : Type 0 where
  pub id : ℕ
  pub endpoint : String
  pub key_hash : ℕ
  pub request_hash : ℕ
  pub order_id : ℕ
  pub provider_idempotency_key : String
  pub provider_price_id : String
  pub success_url : String
  pub cancel_url : String
  pub checkout_state : CheckoutState
  pub checkout_lease_id : Option ℕ
  pub checkout_lease_expires_at : Option ℕ
  pub response_status : Option ℕ
  pub response_body : Option ResponseBody
  pub completed_at : Option ℕ
  pub created_at : ℕ

pub record StripeEvent : Type 0 where
  pub stripe_event_id : String
  pub event_type : String
  pub livemode : Bool
  pub payload_sha256 : ℕ
  pub processed_at : Option ℕ
  pub safe_error_code : Option String
  pub created_at : ℕ

pub record DurableJob : Type 0 where
  pub id : ℕ
  pub job_key : String
  pub order_id : ℕ
  pub kind : String
  pub state : JobState
  pub generation : ℕ
  pub attempt_count : ℕ
  pub max_attempts : ℕ
  pub available_at : ℕ
  pub lease_owner : Option String
  pub lease_until : Option ℕ
  pub safe_error_code : Option String
  pub created_at : ℕ
  pub updated_at : ℕ

pub record TaskDispatch : Type 0 where
  pub job_id : ℕ
  pub generation : ℕ
  pub task_name : List ℕ
  pub schedule_at : ℕ
  pub state : DispatchState
  pub attempt_count : ℕ
  pub dispatched_at : Option ℕ
  pub safe_error_code : Option String
  pub created_at : ℕ
  pub updated_at : ℕ

pub record JobAttempt : Type 0 where
  pub job_id : ℕ
  pub attempt_number : ℕ
  pub worker_id : String
  pub started_at : ℕ
  pub finished_at : Option ℕ
  pub outcome : Option JobState
  pub safe_error_code : Option String
  pub created_at : ℕ

pub record StateEvent : Type 0 where
  pub order_id : ℕ
  pub sequence : ℕ
  pub event_key : String
  pub source : String
  pub previous_payment_state : PaymentState
  pub payment_state : PaymentState
  pub previous_fulfillment_state : FulfillmentState
  pub fulfillment_state : FulfillmentState
  pub evidence : List (String × String)
  pub created_at : ℕ

pub record Db : Type 0 where
  pub orders : List Order
  pub order_tokens : List OrderToken
  pub idempotency_requests : List IdempotencyRequest
  pub stripe_events : List StripeEvent
  pub durable_jobs : List DurableJob
  pub task_dispatches : List TaskDispatch
  pub job_attempts : List JobAttempt
  pub state_events : List StateEvent
  pub outbox : List OutboxMessage
  pub proof_versions : List ProofVersion
  pub proof_verifications : List ProofVerification
  pub proof_bundles : List ProofBundle
  pub confirmation_observations : List BitcoinConfirmationObservation
  pub notification_attempts : List NotificationAttempt
  pub resend_webhook_events : List ResendWebhookEvent
