-- ===== src/Notifications/Delivery.antt =====
-- What makes a mail delivered, in app/db/notification_adapters.py: the evidence that it must have, and
-- what its delivery does to its order.
use spacerocks_coa.Base.{
  ℕ, ◌+◌, String, Bool, true, false, not, ◌&&◌, ◌||◌, ◌==◌, leb, Option, none, some, List, [], ◌∷◌,
  if◌then◌else◌, is_some, length, str_eq, opt_str_eq, Result, ok, ◌>>=◌,
}
use spacerocks_coa.Order.{FulfillmentState, bitcoin_verified, delivered, fulfillment_eq}
use spacerocks_coa.Db.{Db, Order, StateEvent}
use spacerocks_coa.Db.Evidence.{
  OutboxMessage, OutboxState, ProofVersion, ProofVerification, ProofBundle,
  BitcoinConfirmationObservation, VerificationPayload, ResendWebhookEvent,
}
use spacerocks_coa.Orders.{find_order, save_order, last_sequence, insert_state_event}
use spacerocks_coa.Orders.Keys.{joined, decimal_string}
use spacerocks_coa.Proofs.Rows.{latest_version, find_verification, find_bundle, latest_observation}
use spacerocks_coa.Proofs.Evidence.{observation_matches_verification}
use spacerocks_coa.Notifications.Messages.{
  NotificationKind, initial_confirmation, final_confirmation, kind_value, notification_kind,
  minimum_confirmations, message_key_of,
}
use spacerocks_coa.Notifications.Outbox.{same_payload, get_observation}
use spacerocks_coa.Notifications.Leases.{state_eq, save_message}

-- a number of the evidence as JSON writes it
abbrev pub optional_text : Option ℕ → String
optional_text none = "null"
optional_text (some n) = decimal_string n

-- whether the mail became delivered, and whether the order moved
abbrev pub WebhookOutcome : Type 0
WebhookOutcome = Bool × Bool

-- `_verification_metadata_matches`
abbrev pub metadata_matches : VerificationPayload → ProofVerification → Bool
metadata_matches m v =
    str_eq m.verification_method v.method
    && (m.verified_at == v.verified_at
        && (m.block_height == v.block_height
            && (str_eq m.block_hash v.block_hash
                && (m.block_time == v.block_time
                    && str_eq m.confirmation_policy v.confirmation_policy))))

abbrev pub no_metadata_or_matches : Option VerificationPayload → ProofVerification → Bool
no_metadata_or_matches none v = true
no_metadata_or_matches (some m) v = metadata_matches m v

-- an observation of the version with enough confirmations, as it was verified
abbrev pub enough_confirmations : BitcoinConfirmationObservation → ProofVerification → ℕ → Bool
enough_confirmations o v threshold =
    leb threshold o.observed_confirmations && observation_matches_verification o v

-- `_notification_observation_matches`, on the bound and the current observation
abbrev pub observations_match :
    Option BitcoinConfirmationObservation
    → Option BitcoinConfirmationObservation
    → ℕ
    → ℕ
    → ℕ
    → ProofVerification
    → ℕ
    → Bool
observations_match (some bound) (some current) order_id version count v threshold =
    bound.order_id == order_id
    && (bound.proof_version == version
        && (bound.observed_confirmations == count
            && (enough_confirmations bound v threshold
                && enough_confirmations current v threshold)))
observations_match _ _ order_id version count v threshold = false

-- the text of the message is the one of its kind, for its order
abbrev pub message_matches : OutboxMessage → Order → NotificationKind → ℕ → ℕ → Bool
message_matches m order kind version count =
    leb (minimum_confirmations kind) count
    && (str_eq m.message_key (message_key_of kind version order.order_reference)
        && (str_eq m.recipient order.email && same_payload m.payload kind order.order_reference))

abbrev pub delivered_message : OutboxMessage → ResendWebhookEvent → ℕ → OutboxMessage
delivered_message m event now = record m {
  state = OutboxState.delivered;
  delivered_at = some event.event_created_at;
  safe_error_code = none;
  updated_at = now;
}

abbrev pub delivered_order : Order → ℕ → Order
delivered_order order now = record order {
  fulfillment_state = FulfillmentState.delivered;
  updated_at = now;
}

abbrev pub delivered_event :
    Order → OutboxMessage → NotificationKind → ResendWebhookEvent → ℕ → ℕ → StateEvent
delivered_event order m kind event sequence now = record {
  order_id = order.id;
  sequence = sequence;
  event_key = joined "resend-delivered:" event.svix_event_id;
  source = "resend_webhook";
  previous_payment_state = order.payment_state;
  payment_state = order.payment_state;
  previous_fulfillment_state = order.fulfillment_state;
  fulfillment_state = FulfillmentState.delivered;
  evidence =
      ("notification_kind", kind_value kind)
      ∷ ("proof_version", optional_text m.proof_version)
      ∷ ("confirmation_count", optional_text m.confirmation_count)
      ∷ [];
  created_at = now;
}

abbrev pub is_final : NotificationKind → Bool
is_final initial_confirmation = false
is_final final_confirmation = true

-- the last part of `_apply_delivered_event`: the order moves with its first mail
unfoldable pub move_delivered :
    Order
    → OutboxMessage
    → NotificationKind
    → ResendWebhookEvent
    → ℕ
    → Db
    → Result (WebhookOutcome × Db)
move_delivered order m kind event now db =
    if is_final kind || fulfillment_eq order.fulfillment_state delivered
    then ok ((true, false), db)
    else (do
      saved ← save_order (delivered_order order now) db
      noted ←
          insert_state_event
            (delivered_event order m kind event (last_sequence order.id db.state_events + 1) now)
            saved
      ok ((true, true), noted))

-- the first test of `_apply_delivered_event`
abbrev pub may_deliver : OutboxMessage → ResendWebhookEvent → Bool
may_deliver m event =
    not (state_eq m.state OutboxState.delivered)
    && (is_some m.accepted_at
        && (opt_str_eq m.provider_message_id event.provider_message_id
            && str_eq event.event_type "email.delivered"))

module _ (sha256 : List ℕ → ℕ) where
  -- the tests of the last version of the proof; every value of its state is one of the two
  abbrev pub proof_matches : ProofVersion → Order → ℕ → Bool
  proof_matches proof order version =
      proof.version == version
      && (proof.target_digest == order.manifest_digest
          && (proof.proof_byte_length == length proof.proof_bytes
              && sha256 proof.proof_bytes == proof.proof_sha256))

  abbrev pub bundle_matches : ProofBundle → Bool
  bundle_matches bundle =
      bundle.bundle_byte_length == length bundle.bundle_bytes
      && sha256 bundle.bundle_bytes == bundle.bundle_sha256

  -- the tests of the rows beside the message
  unfoldable pub rows_match : Order → OutboxMessage → NotificationKind → ℕ → ℕ → Db → Bool
  rows_match order m kind version count db = elim (latest_version order.id db) [
    | none ↦ false
    | some proof ↦ elim (find_verification db order.id version) [
      | none ↦ false
      | some v ↦ elim (find_bundle db order.id version) [
        | none ↦ false
        | some bundle ↦
            proof_matches proof order version
            && (observations_match (get_observation db m.confirmation_observation_id)
                  (latest_observation order.id version db) order.id version count v
                  (minimum_confirmations kind)
                && (no_metadata_or_matches proof.verification_metadata v && bundle_matches bundle))
      ]
    ]
  ]

  -- `_delivery_evidence_matches`
  unfoldable pub delivery_evidence_matches : Order → OutboxMessage → Db → Bool
  delivery_evidence_matches order m db = elim m.proof_version [
    | none ↦ false
    | some version ↦ elim m.confirmation_count [
      | none ↦ false
      | some count ↦ elim (notification_kind m.kind) [
        | none ↦ false
        | some kind ↦
            (state_eq m.state OutboxState.accepted || state_eq m.state OutboxState.failed)
            && (is_some m.confirmation_observation_id
                && (is_some m.provider_message_id
                    && (message_matches m order kind version count
                        && rows_match order m kind version count db)))
      ]
    ]
  ]

  -- the order and the kind of a mail whose delivery is proven: the tests of
  -- `_apply_delivered_event`
  unfoldable pub deliverable :
      OutboxMessage → ResendWebhookEvent → Db → Option (Order × NotificationKind)
  deliverable m event db =
      if not (may_deliver m event) then none else elim (find_order db m.order_id) [
        | none ↦ none
        | some order ↦
            if not (delivery_evidence_matches order m db)
            then none
            else elim (notification_kind m.kind) [
              | none ↦ none
              | some kind ↦
                  if not (
                    fulfillment_eq order.fulfillment_state bitcoin_verified
                    || fulfillment_eq order.fulfillment_state delivered)
                  then none
                  else some (order, kind)
            ]
      ]

  -- `_apply_delivered_event`: whether the mail became delivered, and whether the order moved
  unfoldable pub apply_delivered_event :
      OutboxMessage → ResendWebhookEvent → ℕ → Db → Result (WebhookOutcome × Db)
  apply_delivered_event m event now db = elim (deliverable m event db) [
    | none ↦ ok ((false, false), db)
    | some (order, kind) ↦
        move_delivered order m kind event now (save_message (delivered_message m event now) db)
  ]
