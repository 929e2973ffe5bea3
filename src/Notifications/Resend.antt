-- ===== src/Notifications/Resend.antt =====
-- `SqlResendWebhookStore.process` of app/db/notification_adapters.py: an event of the provider of
-- mails is recorded once. What other transactions commit between its first select and its lock on
-- the message is the argument `racing`, whichever way it goes; then the transaction runs alone.
use spacerocks_coa.Base.{
  ℕ, String, Bool, true, false, not, ◌&&◌, ◌||◌, ◌==◌, Option, none, some, List, [], ◌∷◌, ◌++◌,
  if◌then◌else◌, is_some, find, str_eq, Result, ok, value_error, ◌>>=◌, raise_if,
}
use spacerocks_coa.Db.{Db}
use spacerocks_coa.Db.Evidence.{OutboxMessage, OutboxState, ResendWebhookEvent}
use spacerocks_coa.Notifications.Leases.{state_eq, save_message}
use spacerocks_coa.Notifications.Delivery.{WebhookOutcome, apply_delivered_event}
use spacerocks_coa.Notifications.Ending.{has_provider_id}

-- app/ports/notifications.py
pub record VerifiedResendEvent : Type 0 where
  pub svix_event_id : String
  pub event_type : String
  pub provider_message_id : String
  pub event_created_at : ℕ

pub record WebhookProcessResult : Type 0 where
  pub duplicate : Bool
  pub notification_delivered : Bool
  pub order_transitioned : Bool

abbrev pub has_svix_id : String → ResendWebhookEvent → Bool
has_svix_id id e = str_eq e.svix_event_id id

unfoldable pub find_resend_event : Db → String → Option ResendWebhookEvent
find_resend_event db id = find (has_svix_id id) db.resend_webhook_events

-- `_validate_replay`
unfoldable pub validate_replay : ResendWebhookEvent → VerifiedResendEvent → ℕ → Result (Unit {0})
validate_replay existing event payload_sha256 =
    raise_if
      (not (
        str_eq existing.event_type event.event_type
        && (str_eq existing.provider_message_id event.provider_message_id
            && (existing.payload_sha256 == payload_sha256
                && existing.event_created_at == event.event_created_at))))
      (value_error "resend_webhook_replay_conflict")

abbrev pub new_resend_event : VerifiedResendEvent → ℕ → ℕ → ResendWebhookEvent
new_resend_event event payload_sha256 now = record {
  svix_event_id = event.svix_event_id;
  event_type = event.event_type;
  provider_message_id = event.provider_message_id;
  payload_sha256 = payload_sha256;
  event_created_at = event.event_created_at;
  processed_at = now;
  created_at = now;
}

-- `_insert_webhook_event`, of an event that is not there
abbrev pub insert_webhook_event : ResendWebhookEvent → Db → Db
insert_webhook_event e db = record db { resend_webhook_events = db.resend_webhook_events ++ e ∷ [] }

abbrev pub is_bad_news : String → Bool
is_bad_news kind =
    str_eq kind "email.bounced" || (str_eq kind "email.failed" || str_eq kind "email.complained")

-- `event_type.replace("email.", "email_")`, for the types of bad news
abbrev pub bad_news_code : String → String
bad_news_code kind =
    if str_eq kind "email.bounced"
    then "email_bounced"
    else if str_eq kind "email.failed"
    then "email_failed"
    else "email_complained"

abbrev pub failed_message : OutboxMessage → String → ℕ → OutboxMessage
failed_message m code now = record m {
  state = OutboxState.failed;
  safe_error_code = some code;
  updated_at = now;
}

abbrev pub answer : Bool → WebhookOutcome → WebhookProcessResult
answer duplicate (delivered, moved) = record {
  duplicate = duplicate;
  notification_delivered = delivered;
  order_transitioned = moved;
}

module _ (sha256 : List ℕ → ℕ) where
  -- `_apply_delivered_event` with the result of its caller
  unfoldable pub applied :
      Bool → OutboxMessage → ResendWebhookEvent → ℕ → Db → Result (WebhookProcessResult × Db)
  applied duplicate m event now db = do
    (outcome, db') ← apply_delivered_event sha256 m event now db
    ok (answer duplicate outcome, db')

  -- `_reconcile_replayed_event`
  unfoldable pub reconcile_replayed_event :
      ResendWebhookEvent → ℕ → Db → Result (WebhookProcessResult × Db)
  reconcile_replayed_event event now db =
      if not (str_eq event.event_type "email.delivered")
      then ok (answer true (false, false), db)
      else elim (find (has_provider_id event.provider_message_id) db.outbox) [
        | none ↦ ok (answer true (false, false), db)
        | some m ↦
            if not (is_some m.accepted_at)
            then ok (answer true (false, false), db)
            else applied true m event now db
      ]

  -- an event that is recorded already
  unfoldable pub replayed :
      ResendWebhookEvent → VerifiedResendEvent → ℕ → ℕ → Db → Result (WebhookProcessResult × Db)
  replayed existing event payload_sha256 now db = do
    _ ← validate_replay existing event payload_sha256
    reconcile_replayed_event existing now db

  -- a new event of a message that was accepted
  unfoldable pub new_event_of :
      OutboxMessage → ResendWebhookEvent → ℕ → Db → Result (WebhookProcessResult × Db)
  new_event_of m event now db =
      if is_bad_news event.event_type
      then (if state_eq m.state OutboxState.delivered
          then ok (answer false (false, false), db)
          else ok (
            answer false (false, false),
            save_message (failed_message m (bad_news_code event.event_type) now) db,
          ))
      else if not (str_eq event.event_type "email.delivered")
      then ok (answer false (false, false), db)
      else applied false m event now db

  -- the event is recorded, and changes the message that the provider accepted under its identifier
  unfoldable pub record_new_event :
      VerifiedResendEvent → ℕ → ℕ → Db → Result (WebhookProcessResult × Db)
  record_new_event event payload_sha256 now db =
      let row = new_resend_event event payload_sha256 now in
      let added = insert_webhook_event row db in
      elim (find (has_provider_id event.provider_message_id) db.outbox) [
        | none ↦ ok (answer false (false, false), added)
        | some m ↦
            if is_some m.accepted_at
            then new_event_of m row now added
            else ok (answer false (false, false), added)
      ]

  unfoldable pub process_resend :
      (Db → Db) → VerifiedResendEvent → ℕ → ℕ → Db → Result (WebhookProcessResult × Db)
  process_resend racing event payload_sha256 now db =
      elim (find_resend_event db event.svix_event_id) [
        | some existing ↦ replayed existing event payload_sha256 now (racing db)
        | none ↦
            let raced = racing db in
            elim (find_resend_event raced event.svix_event_id) [
              | some existing ↦ replayed existing event payload_sha256 now raced
              | none ↦ record_new_event event payload_sha256 now raced
            ]
      ]
