-- ===== src/Notifications/Ending.antt =====
-- The ends of an attempt in `SqlNotificationOutbox` of app/db/notification_adapters.py: an acceptance,
-- a retry and a failure, each by the holder of the lease only.
use spacerocks_coa.Base.{
  ℕ, String, Bool, true, false, not, ◌&&◌, ◌||◌, ◌==◌, ltb, leb, Option, none, some, List, [], ◌∷◌,
  if◌then◌else◌, is_some, find, order_by, first, select, length, codes, str_eq, opt_eq, opt_str_eq,
  Result, ok, value_error, integrity_error, ◌>>=◌, raise_if, or_raise,
}
use spacerocks_coa.Db.{Db}
use spacerocks_coa.Db.Evidence.{OutboxMessage, OutboxState, NotificationAttempt, ResendWebhookEvent}
use spacerocks_coa.Notifications.Leases.{
  ClaimedNotification, find_message, save_message, state_eq, lease_before, finished, released,
  save_notification_attempt,
}
use spacerocks_coa.Notifications.Delivery.{WebhookOutcome, apply_delivered_event}

-- a character of `_SAFE_ERROR_CODE`
abbrev is_code_char : ℕ → Bool
is_code_char c = leb 97 c && leb c 122 || (leb 48 c && leb c 57 || c == 95)

-- a character of `_SAFE_PROVIDER_ID`
abbrev is_provider_char : ℕ → Bool
is_provider_char c = is_code_char c || (leb 65 c && leb c 90 || c == 45)

unfoldable pub all_chars : (ℕ → Bool) → List ℕ → Bool
all_chars p [] = true
all_chars p (c ∷ rest) = p c && all_chars p rest

-- `_validate_safe_error`
abbrev pub validate_safe_error : String → Result (Unit {0})
validate_safe_error value =
    raise_if
      (not (
        leb 1 (length (codes value))
        && (leb (length (codes value)) 64 && all_chars is_code_char (codes value))))
      (value_error "notification_safe_error_code_invalid")

abbrev pub is_safe_provider_id : String → Bool
is_safe_provider_id value =
    leb 1 (length (codes value))
    && (leb (length (codes value)) 128 && all_chars is_provider_char (codes value))

abbrev pub bad_status : Option ℕ → Bool
bad_status none = false
bad_status (some status) = not (leb 100 status && leb status 599)

-- the message is leased by this claim, and the lease has not ended
unfoldable pub holds_lease : OutboxMessage → ClaimedNotification → ℕ → Bool
holds_lease m claimed now =
    state_eq m.state OutboxState.leased
    && (opt_str_eq m.lease_owner claimed.lease_owner
        && (opt_eq m.lease_token claimed.lease_token
            && (m.attempt_count == claimed.attempt
                && (is_some m.lease_until
                    && (not (lease_before m.lease_until now)
                        && not (is_some m.provider_message_id))))))

abbrev pub is_its_attempt : ClaimedNotification → NotificationAttempt → Bool
is_its_attempt claimed a =
    a.outbox_id == claimed.id
    && (a.attempt_number == claimed.attempt
        && (a.lease_token == claimed.lease_token && not (is_some a.finished_at)))

-- `_active_lease`
unfoldable pub active_lease :
    ClaimedNotification → ℕ → Db → Result (OutboxMessage × NotificationAttempt)
active_lease claimed now db = do
  m ← or_raise (find_message db claimed.id) (value_error "notification_lease_stale")
  _ ← raise_if (not (holds_lease m claimed now)) (value_error "notification_lease_stale")
  attempt ←
      or_raise (find (is_its_attempt claimed) db.notification_attempts)
        (value_error "notification_attempt_missing")
  ok (m, attempt)

-- the retry of a message that has no attempt or no time left
abbrev pub exhausts : OutboxMessage → ℕ → Bool
exhausts m retry_at = leb m.idempotency_expires_at retry_at || leb m.max_attempts m.attempt_count

abbrev pub retry_state : OutboxMessage → ℕ → OutboxState
retry_state m retry_at = if exhausts m retry_at then OutboxState.dead_letter else OutboxState.retry

abbrev pub retried_message : OutboxMessage → ℕ → ℕ → String → OutboxMessage
retried_message m now retry_at safe_error_code =
    record (released m (retry_state m retry_at) (some safe_error_code) now) {
      available_at = retry_at;
    }

unfoldable pub record_retry : ClaimedNotification → ℕ → ℕ → String → Option ℕ → Db → Result Db
record_retry claimed now retry_at safe_error_code response_status db = do
  _ ← validate_safe_error safe_error_code
  _ ← raise_if (bad_status response_status) (value_error "notification_response_status_invalid")
  _ ← raise_if (leb retry_at now) (value_error "notification_retry_time_invalid")
  (m, attempt) ← active_lease claimed now db
  ok (
      save_notification_attempt
        (finished attempt now (retry_state m retry_at) response_status none (some safe_error_code))
        (save_message (retried_message m now retry_at safe_error_code) db))

unfoldable pub record_terminal_failure :
    ClaimedNotification → ℕ → String → Option ℕ → Db → Result Db
record_terminal_failure claimed now safe_error_code response_status db = do
  _ ← validate_safe_error safe_error_code
  _ ← raise_if (bad_status response_status) (value_error "notification_response_status_invalid")
  (m, attempt) ← active_lease claimed now db
  ok (
      save_notification_attempt
        (finished attempt now OutboxState.failed response_status none (some safe_error_code))
        (save_message (released m OutboxState.failed (some safe_error_code) now) db))

-- another message has the identifier of the provider, which is unique
abbrev pub has_provider_id : String → OutboxMessage → Bool
has_provider_id id m = opt_str_eq m.provider_message_id id

abbrev pub accepted_message : OutboxMessage → String → ℕ → OutboxMessage
accepted_message m id now = record (released m OutboxState.accepted none now) {
  provider_message_id = some id;
  accepted_at = some now;
}

abbrev pub is_delivery_of : String → ResendWebhookEvent → Bool
is_delivery_of id e = str_eq e.provider_message_id id && str_eq e.event_type "email.delivered"

abbrev pub event_before : ResendWebhookEvent → ResendWebhookEvent → Bool
event_before a b =
    ltb a.event_created_at b.event_created_at
    || (a.event_created_at == b.event_created_at && ltb a.created_at b.created_at)

module _ (sha256 : List ℕ → ℕ) where
  -- a delivery that was reported before the acceptance is applied
  unfoldable pub apply_early_delivery :
      OutboxMessage → String → ℕ → Db → Result (WebhookOutcome × Db)
  apply_early_delivery m id now db =
      elim (first (order_by event_before (select (is_delivery_of id) db.resend_webhook_events))) [
        | none ↦ ok ((false, false), db)
        | some event ↦ apply_delivered_event sha256 m event now db
      ]

  unfoldable pub record_accepted :
      ClaimedNotification → String → ℕ → ℕ → Db → Result (WebhookOutcome × Db)
  record_accepted claimed message_id response_status now db = do
    _ ←
        raise_if (not (response_status == 200) || not (is_safe_provider_id message_id))
          (value_error "notification_provider_acceptance_invalid")
    (m, attempt) ← active_lease claimed now db
    _ ← raise_if (is_some (find (has_provider_id message_id) db.outbox)) integrity_error
    apply_early_delivery (accepted_message m message_id now) message_id now (
        save_notification_attempt
          (finished attempt now OutboxState.accepted (some response_status) (some message_id) none)
          (save_message (accepted_message m message_id now) db))
