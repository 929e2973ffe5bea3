-- ===== src/Db/Evidence.antt =====
-- app/db/models.py: the rows of proofs, of what was verified and observed of them, and of mails. A
-- string of bytes is the list of its bytes.
use spacerocks_coa.Base.{ℕ, String, Option, List}

-- app/ports/proof.py
pub data ProofState : Type 0 where
  calendar_pending bitcoin_verified : ProofState

-- the keys of `verification_metadata`, the nested ones of "bitcoin" included, with a time in place
-- of its text
pub record VerificationPayload : Type 0 where
  pub block_height : ℕ
  pub block_hash : String
  pub block_time : ℕ
  pub confirmation_policy : String
  pub confirmations : ℕ
  pub verification_method : String
  pub verified_at : ℕ

pub record ProofVersion : Type 0 where
  pub id : ℕ
  pub order_id : ℕ
  pub version : ℕ
  pub target_digest : ℕ
  pub proof_bytes : List ℕ
  pub proof_sha256 : ℕ
  pub proof_byte_length : ℕ
  pub proof_state : ProofState
  pub calendar_submitted_at : ℕ
  pub verification_metadata : Option VerificationPayload
  pub created_at : ℕ

pub record ProofVerification : Type 0 where
  pub order_id : ℕ
  pub proof_version : ℕ
  pub method : String
  pub verified_at : ℕ
  pub block_height : ℕ
  pub block_hash : String
  pub block_time : ℕ
  pub confirmation_policy : String
  pub created_at : ℕ

pub record ProofBundle : Type 0 where
  pub order_id : ℕ
  pub proof_version : ℕ
  pub bundle_bytes : List ℕ
  pub bundle_sha256 : ℕ
  pub bundle_byte_length : ℕ
  pub created_at : ℕ

pub record BitcoinConfirmationObservation : Type 0 where
  pub id : ℕ
  pub order_id : ℕ
  pub proof_version : ℕ
  pub observed_confirmations : ℕ
  pub block_height : ℕ
  pub block_hash : String
  pub method : String
  pub confirmation_policy : String
  pub observed_at : ℕ
  pub event_key : String
  pub created_at : ℕ

-- the values of outbox.state
pub data OutboxState : Type 0 where
  available leased retry accepted delivered failed dead_letter : OutboxState
  -- the outcome of an attempt only
  lease_expired : OutboxState

pub record OutboxMessage : Type 0 where
  pub id : ℕ
  pub message_key : String
  pub order_id : ℕ
  pub kind : String
  pub recipient : String
  pub payload : List (String × String)
  pub state : OutboxState
  pub attempt_count : ℕ
  pub max_attempts : ℕ
  pub available_at : ℕ
  pub lease_owner : Option String
  pub lease_until : Option ℕ
  pub lease_token : Option ℕ
  pub proof_version : Option ℕ
  pub confirmation_count : Option ℕ
  pub confirmation_observation_id : Option ℕ
  pub provider_message_id : Option String
  pub accepted_at : Option ℕ
  pub delivered_at : Option ℕ
  pub idempotency_expires_at : ℕ
  pub safe_error_code : Option String
  pub created_at : ℕ
  pub updated_at : ℕ

pub record NotificationAttempt : Type 0 where
  pub outbox_id : ℕ
  pub attempt_number : ℕ
  pub worker_id : String
  pub lease_token : ℕ
  pub started_at : ℕ
  pub finished_at : Option ℕ
  pub outcome : Option OutboxState
  pub response_status : Option ℕ
  pub provider_message_id : Option String
  pub safe_error_code : Option String
  pub created_at : ℕ

pub record ResendWebhookEvent : Type 0 where
  pub svix_event_id : String
  pub event_type : String
  pub provider_message_id : String
  pub payload_sha256 : ℕ
  pub event_created_at : ℕ
  pub processed_at : ℕ
  pub created_at : ℕ
