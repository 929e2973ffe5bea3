-- ===== src/Notifications/Samples.antt =====
-- An order whose proof is verified, observed with two confirmations and bundled, and its first mail.
use spacerocks_coa.Base.{ℕ, none, some, List, [], ◌∷◌, length}
use spacerocks_coa.Order.{PaymentState, FulfillmentState}
use spacerocks_coa.Db.{Db, Order}
use spacerocks_coa.Db.Evidence.{
  ProofState, ProofVersion, ProofVerification, ProofBundle, BitcoinConfirmationObservation,
  OutboxMessage, OutboxState,
}
use spacerocks_coa.Jobs.Samples.{empty}
use spacerocks_coa.Payments.Samples.{open_order}
use spacerocks_coa.Notifications.Outbox.{payload_of}
use spacerocks_coa.Notifications.Messages.{initial_confirmation}
use spacerocks_coa.Notifications.Resend.{VerifiedResendEvent}

-- in place of SHA-256
abbrev pub digest_sample : List ℕ → ℕ
digest_sample = length

abbrev pub verified_order : Order
verified_order = record open_order {
  payment_state = PaymentState.paid;
  fulfillment_state = FulfillmentState.bitcoin_verified;
  calendar_submitted_at = some 500;
}

abbrev pub verified_version : ProofVersion
verified_version = record {
  id = 9;
  order_id = 5;
  version = 1;
  target_digest = 77;
  proof_bytes = 1 ∷ 2 ∷ 3 ∷ [];
  proof_sha256 = 3;
  proof_byte_length = 3;
  proof_state = ProofState.calendar_pending;
  calendar_submitted_at = 500;
  verification_metadata = none;
  created_at = 600;
}

abbrev pub verification_row : ProofVerification
verification_row = record {
  order_id = 5;
  proof_version = 1;
  method = "rpc";
  verified_at = 900;
  block_height = 800000;
  block_hash = "00000000000000000002a7c4c1e48d76c5a37902165a270156b7a8d72728a054";
  block_time = 800;
  confirmation_policy = "1";
  created_at = 901;
}

abbrev pub observation_row : BitcoinConfirmationObservation
observation_row = record {
  id = 11;
  order_id = 5;
  proof_version = 1;
  observed_confirmations = 2;
  block_height = 800000;
  block_hash = "00000000000000000002a7c4c1e48d76c5a37902165a270156b7a8d72728a054";
  method = "rpc";
  confirmation_policy = "1";
  observed_at = 900;
  event_key = "bitcoin-observed-v1-2-900";
  created_at = 902;
}

abbrev pub bundle_row : ProofBundle
bundle_row = record {
  order_id = 5;
  proof_version = 1;
  bundle_bytes = 7 ∷ 8 ∷ [];
  bundle_sha256 = 2;
  bundle_byte_length = 2;
  created_at = 903;
}

abbrev pub waiting_mail : OutboxMessage
waiting_mail = record {
  id = 12;
  message_key = "bitcoin-confirmed-initial-v1-ts_5";
  order_id = 5;
  kind = "bitcoin-confirmed-initial";
  recipient = "a@example.test";
  payload = payload_of initial_confirmation "ts_5";
  state = OutboxState.available;
  attempt_count = 0;
  max_attempts = 12;
  available_at = 904;
  lease_owner = none;
  lease_until = none;
  lease_token = none;
  proof_version = some 1;
  confirmation_count = some 2;
  confirmation_observation_id = some 11;
  provider_message_id = none;
  accepted_at = none;
  delivered_at = none;
  idempotency_expires_at = 86400000904;
  safe_error_code = none;
  created_at = 904;
  updated_at = 904;
}

abbrev pub verified_db : Db
verified_db = record empty {
  orders = verified_order ∷ [];
  proof_versions = verified_version ∷ [];
  proof_verifications = verification_row ∷ [];
  confirmation_observations = observation_row ∷ [];
  proof_bundles = bundle_row ∷ [];
  outbox = waiting_mail ∷ [];
}

-- the mail once its provider has accepted it
abbrev pub sent_mail : OutboxMessage
sent_mail = record waiting_mail {
  state = OutboxState.accepted;
  attempt_count = 1;
  provider_message_id = some "re_1";
  accepted_at = some 910;
}

abbrev pub sent_db : Db
sent_db = record verified_db { outbox = sent_mail ∷ [] }

abbrev pub delivery_report : VerifiedResendEvent
delivery_report = record {
  svix_event_id = "evt_1";
  event_type = "email.delivered";
  provider_message_id = "re_1";
  event_created_at = 920;
}
