-- ===== src/Notifications/Outbox.antt =====
-- `SqlNotificationOutbox.enqueue` of app/db/notification_adapters.py: a mail that confirms a proof is
-- put into the outbox once, and only with the observation that it reports.
use spacerocks_coa.Base.{
  ℕ, ◌+◌, String, Bool, false, not, ◌&&◌, ◌||◌, ◌==◌, leb, Option, none, some, List, [], ◌∷◌, ◌++◌,
  if◌then◌else◌, is_some, find, map, codes, contains_text, lower_ascii, str_eq, opt_eq, Result, ok,
  err, value_error, integrity_error, ◌>>=◌, raise_if, or_raise,
}
use spacerocks_coa.Db.{Db, Order}
use spacerocks_coa.Db.Evidence.{
  OutboxMessage, OutboxState, ProofVersion, ProofVerification, BitcoinConfirmationObservation,
}
use spacerocks_coa.Orders.{has_message_key}
use spacerocks_coa.Proofs.Rows.{
  find_order_by_reference, latest_version, find_verification, latest_observation,
}
use spacerocks_coa.Proofs.Evidence.{observation_matches_verification}
use spacerocks_coa.Notifications.Messages.{
  NotificationKind, kind_value, notification_kind, Message, minimum_confirmations,
  notification_message,
}

-- a string of pairs, compared as `dict` compares one pair
abbrev pub same_variables : List (String × String) → String → Bool
same_variables ((key, value) ∷ []) reference =
    str_eq key "order_reference" && str_eq value reference
same_variables _ reference = false

-- the keys of the payload, in the order of their insertion
abbrev pub payload_of : NotificationKind → String → List (String × String)
payload_of kind reference = ("template", kind_value kind) ∷ ("order_reference", reference) ∷ []

abbrev pub same_pair : String × String → String → String → Bool
same_pair (key, value) expected_key expected = str_eq key expected_key && str_eq value expected

-- `existing.payload == payload`, where the keys may stand in either order
abbrev pub same_payload : List (String × String) → NotificationKind → String → Bool
same_payload (a ∷ b ∷ []) kind reference =
    same_pair a "template" (kind_value kind) && same_pair b "order_reference" reference
    || (same_pair b "template" (kind_value kind) && same_pair a "order_reference" reference)
same_payload _ kind reference = false

abbrev forbids : List ℕ → String → Bool
forbids serialized word = contains_text (codes word) serialized

-- the search of the serialized payload for what a mail must not hold: the keys and values of a
-- payload are ASCII text without quotes, so it is searched in the values and the keys
unfoldable pub is_forbidden : NotificationKind → String → Bool
is_forbidden kind reference =
    let text = map lower_ascii (
      codes "{\"order_reference\": \""
      ++ codes reference
      ++ codes "\", \"template\": \""
      ++ codes (kind_value kind)
      ++ codes "\"}") in
    forbids text "bearer"
    || (forbids text "token"
        || (forbids text "digest"
            || (forbids text "certificate" || (forbids text "proof_bytes" || forbids text "@"))))

-- `_validate_message`
unfoldable pub validate_message : Message → Result (NotificationKind × ℕ × ℕ)
validate_message message = do
  kind ← or_raise (notification_kind message.template) (value_error "notification_kind_invalid")
  proof_version ← or_raise message.proof_version (value_error "notification_milestone_missing")
  confirmation_count ←
      or_raise message.confirmation_count (value_error "notification_milestone_missing")
  expected ←
      notification_message kind message.order_reference message.recipient proof_version
        confirmation_count
  _ ←
      raise_if (not (str_eq message.message_key expected.message_key))
        (value_error "notification_message_key_invalid")
  _ ←
      raise_if (not (same_variables message.variables message.order_reference))
        (value_error "outbox_variables_not_allowlisted")
  ok (kind, proof_version, confirmation_count)

-- the last version of the proof is this version, for the digest of the order
abbrev pub is_current_proof : Option ProofVersion → ℕ → Order → Bool
is_current_proof none version order = false
is_current_proof (some proof) version order =
    proof.version == version && proof.target_digest == order.manifest_digest

abbrev pub is_verified_by : BitcoinConfirmationObservation → Option ProofVerification → Bool
is_verified_by o none = false
is_verified_by o (some v) = observation_matches_verification o v

-- `_authoritative_observation_for_enqueue`
unfoldable pub authoritative_observation :
    Order → ℕ → ℕ → Db → Result BitcoinConfirmationObservation
authoritative_observation order version count db = do
  _ ←
      raise_if (not (is_current_proof (latest_version order.id db) version order))
        (value_error "notification_confirmation_observation_missing")
  observation ←
      or_raise (latest_observation order.id version db)
        (value_error "notification_confirmation_observation_missing")
  _ ←
      raise_if
        (not (
          observation.observed_confirmations == count
          && is_verified_by observation (find_verification db order.id version)))
        (value_error "notification_confirmation_observation_missing")
  ok observation

-- `session.get(BitcoinConfirmationObservation, id)`
unfoldable pub get_observation : Db → Option ℕ → Option BitcoinConfirmationObservation
get_observation db none = none
get_observation db (some id) = find (λ o. o.id == id) db.confirmation_observations

-- the observation that a message is bound to, beside the current one
abbrev pub is_bound :
    Option BitcoinConfirmationObservation → ℕ → ℕ → ℕ → BitcoinConfirmationObservation → Bool
is_bound none order_id version count current = false
is_bound (some bound) order_id version count current =
    bound.order_id == order_id
    && (bound.proof_version == version
        && (bound.observed_confirmations == count
            && (bound.block_height == current.block_height
                && (str_eq bound.block_hash current.block_hash
                    && (str_eq bound.method current.method
                        && str_eq bound.confirmation_policy current.confirmation_policy)))))

-- `_same_message`
unfoldable pub same_message :
    OutboxMessage
    → Order
    → Message
    → NotificationKind
    → ℕ
    → BitcoinConfirmationObservation
    → Db
    → Bool
same_message existing order message kind version current db = elim existing.confirmation_count [
  | none ↦ false
  | some count ↦
      existing.order_id == order.id
      && (str_eq existing.kind message.template
          && (str_eq existing.recipient message.recipient
              && (same_payload existing.payload kind message.order_reference
                  && (opt_eq existing.proof_version version
                      && (leb (minimum_confirmations kind) count
                          && is_bound (get_observation db existing.confirmation_observation_id)
                              order.id version count current)))))
]

abbrev pub has_message_id : ℕ → OutboxMessage → Bool
has_message_id id m = m.id == id

-- primary key and `unique=True` on message_key
unfoldable pub insert_message : OutboxMessage → Db → Result Db
insert_message m db =
    if is_some (find (has_message_id m.id) db.outbox)
      || is_some (find (has_message_key m.message_key) db.outbox)
    then err integrity_error
    else ok (record db { outbox = db.outbox ++ m ∷ [] })

-- the values of `SqlNotificationOutbox.__init__`
pub record OutboxSettings : Type 0 where
  pub idempotency_horizon : ℕ
  pub max_attempts : ℕ

module _ (settings : OutboxSettings) where
  abbrev pub confirmation_mail :
      ℕ
      → Order
      → Message
      → NotificationKind
      → ℕ
      → ℕ
      → BitcoinConfirmationObservation
      → ℕ
      → OutboxMessage
  confirmation_mail id order message kind version count observation now = record {
    id = id;
    message_key = message.message_key;
    order_id = order.id;
    kind = kind_value kind;
    recipient = message.recipient;
    payload = payload_of kind message.order_reference;
    state = OutboxState.available;
    attempt_count = 0;
    max_attempts = settings.max_attempts;
    available_at = now;
    lease_owner = none;
    lease_until = none;
    lease_token = none;
    proof_version = some version;
    confirmation_count = some count;
    confirmation_observation_id = some observation.id;
    provider_message_id = none;
    accepted_at = none;
    delivered_at = none;
    idempotency_expires_at = now + settings.idempotency_horizon;
    safe_error_code = none;
    created_at = now;
    updated_at = now;
  }

  -- the rest of `enqueue`, where the observation is known
  unfoldable pub put_message :
      ℕ
      → Order
      → Message
      → NotificationKind
      → ℕ
      → ℕ
      → BitcoinConfirmationObservation
      → ℕ
      → Db
      → Result Db
  put_message id order message kind version count observation now db =
      elim (find (has_message_key message.message_key) db.outbox) [
        | none ↦
            insert_message (confirmation_mail id order message kind version count observation now)
              db
        | some existing ↦
            if same_message existing order message kind version observation db
            then ok db
            else err (value_error "outbox_message_key_conflict")
      ]

  unfoldable pub enqueue : Message → ℕ → ℕ → Db → Result Db
  enqueue message id now db = do
    (kind, version, count) ← validate_message message
    _ ←
        raise_if (is_forbidden kind message.order_reference)
          (value_error "outbox_payload_contains_sensitive_data")
    order ←
        or_raise (find_order_by_reference db message.order_reference)
          (value_error "outbox_order_not_found")
    _ ←
        raise_if (not (str_eq message.recipient order.email))
          (value_error "outbox_recipient_does_not_match_order")
    observation ← authoritative_observation order version count db
    put_message id order message kind version count observation now db
