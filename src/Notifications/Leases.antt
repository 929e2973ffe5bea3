-- ===== src/Notifications/Leases.antt =====
-- The leases of `SqlNotificationOutbox` of app/db/notification_adapters.py: `claim`, what ends an
-- attempt, and `_expire_unclaimable`. A row that another transaction locks is skipped; the token of a
-- lease is the number of its UUID. A message that is given back is read by its identifier.
use spacerocks_coa.Base.{
  ℕ, ◌+◌, String, Bool, false, not, ◌&&◌, ◌||◌, ◌==◌, ltb, leb, Option, none, some, List, [], ◌∷◌,
  ◌++◌, if◌then◌else◌, is_some, find, replace, select, order_by, first, take, length, codes, str_eq,
  Result, ok, err, value_error, integrity_error, ◌>>=◌, ◌>>◌, raise_if, or_raise,
}
use spacerocks_coa.Db.{Db}
use spacerocks_coa.Db.Evidence.{OutboxMessage, OutboxState, NotificationAttempt}
use spacerocks_coa.Notifications.Messages.{NotificationKind, notification_kind}
use spacerocks_coa.Notifications.Outbox.{has_message_id}

-- the place of a state in the order of their values
abbrev pub state_index : OutboxState → ℕ
state_index OutboxState.available = 0
state_index OutboxState.leased = 1
state_index OutboxState.retry = 2
state_index OutboxState.accepted = 3
state_index OutboxState.delivered = 4
state_index OutboxState.failed = 5
state_index OutboxState.dead_letter = 6
state_index OutboxState.lease_expired = 7

abbrev pub state_eq : OutboxState → OutboxState → Bool
state_eq a b = state_index a == state_index b

-- `state in ("available", "retry")`
abbrev pub is_waiting : OutboxState → Bool
is_waiting s = state_eq s OutboxState.available || state_eq s OutboxState.retry

-- `lease_until < now`, where NULL is before nothing
abbrev pub lease_before : Option ℕ → ℕ → Bool
lease_before none now = false
lease_before (some time) now = ltb time now

unfoldable pub find_message : Db → ℕ → Option OutboxMessage
find_message db id = find (has_message_id id) db.outbox

unfoldable pub save_message : OutboxMessage → Db → Db
save_message m db = record db { outbox = replace (has_message_id m.id) m db.outbox }

-- `kind.in_(_SUPPORTED_KINDS)`
abbrev pub is_supported : OutboxMessage → Bool
is_supported m = is_some (notification_kind m.kind)

-- no attempt or no time is left
abbrev pub is_exhausted : ℕ → OutboxMessage → Bool
is_exhausted now m = leb m.idempotency_expires_at now || leb m.max_attempts m.attempt_count

-- `terminal_candidate`, with the other conditions of its query
unfoldable pub is_unclaimable : ℕ → OutboxMessage → Bool
is_unclaimable now m =
    is_supported m
    && (((is_waiting m.state
            || (state_eq m.state OutboxState.leased && lease_before m.lease_until now))
          && is_exhausted now m)
        && not (is_some m.provider_message_id))

-- the conditions of the query of `claim`
unfoldable pub is_claimable_message : ℕ → OutboxMessage → Bool
is_claimable_message now m =
    (is_waiting m.state || (state_eq m.state OutboxState.leased && lease_before m.lease_until now))
    && (leb m.available_at now
        && (not (is_some m.provider_message_id)
            && (is_supported m
                && (is_some m.confirmation_observation_id
                    && (ltb now m.idempotency_expires_at && ltb m.attempt_count m.max_attempts)))))

-- `order_by(available_at, created_at, id)`
unfoldable pub message_before : OutboxMessage → OutboxMessage → Bool
message_before a b =
    ltb a.available_at b.available_at
    || (a.available_at == b.available_at
        && (ltb a.created_at b.created_at || (a.created_at == b.created_at && ltb a.id b.id)))

-- an attempt of a message that is not finished
abbrev pub is_open_attempt : ℕ → NotificationAttempt → Bool
is_open_attempt outbox_id a = a.outbox_id == outbox_id && not (is_some a.finished_at)

abbrev pub has_number : ℕ → ℕ → NotificationAttempt → Bool
has_number outbox_id number a = a.outbox_id == outbox_id && a.attempt_number == number

unfoldable pub save_notification_attempt : NotificationAttempt → Db → Db
save_notification_attempt a db = record db {
  notification_attempts =
      replace (has_number a.outbox_id a.attempt_number) a db.notification_attempts;
}

-- uq_notification_attempt_number
unfoldable pub insert_notification_attempt : NotificationAttempt → Db → Result Db
insert_notification_attempt a db =
    if is_some (find (has_number a.outbox_id a.attempt_number) db.notification_attempts)
    then err integrity_error
    else ok (record db { notification_attempts = db.notification_attempts ++ a ∷ [] })

-- `_finish_attempt`
abbrev pub finished :
    NotificationAttempt
    → ℕ
    → OutboxState
    → Option ℕ
    → Option String
    → Option String
    → NotificationAttempt
finished attempt now outcome response_status provider_message_id safe_error_code = record attempt {
  finished_at = some now;
  outcome = some outcome;
  response_status = response_status;
  provider_message_id = provider_message_id;
  safe_error_code = safe_error_code;
}

-- the message without a lease
abbrev pub released : OutboxMessage → OutboxState → Option String → ℕ → OutboxMessage
released m state safe_error_code now = record m {
  state = state;
  lease_owner = none;
  lease_until = none;
  lease_token = none;
  safe_error_code = safe_error_code;
  updated_at = now;
}

-- the open attempt of a message whose lease has ended
abbrev pub bury_attempt : ℕ → OutboxMessage → Db → Db
bury_attempt now m db =
    if state_eq m.state OutboxState.leased
    then elim (find (is_open_attempt m.id) db.notification_attempts) [
      | none ↦ db
      | some attempt ↦
          save_notification_attempt
            (finished attempt now OutboxState.dead_letter none none
              (some "idempotency_horizon_exhausted"))
            db
    ]
    else db

-- `for record in expired`
unfoldable pub bury_each : ℕ → List OutboxMessage → Db → Db
bury_each now [] db = db
bury_each now (m ∷ rest) db = bury_each now rest (
    save_message (released m OutboxState.dead_letter (some "idempotency_horizon_exhausted") now)
      (bury_attempt now m db))

-- `_expire_unclaimable`
unfoldable pub expire_unclaimable : (OutboxMessage → Bool) → ℕ → Db → Db
expire_unclaimable locked now db =
    bury_each now (take 100 (select (λ m. is_unclaimable now m && not (locked m)) db.outbox)) db

-- app/ports/notifications.py
pub record ClaimedNotification : Type 0 where
  pub id : ℕ
  pub message_key : String
  pub order_reference : String
  pub kind : NotificationKind
  pub recipient : String
  pub proof_version : ℕ
  pub confirmation_count : ℕ
  pub attempt : ℕ
  pub lease_owner : String
  pub lease_token : ℕ
  pub lease_until : ℕ

-- `payload.get("order_reference")`
unfoldable pub payload_reference : List (String × String) → Option String
payload_reference [] = none
payload_reference ((key, value) ∷ rest) =
    let later = payload_reference rest in if str_eq key "order_reference" then some value else later

-- `_claimed`, without the key that the sender derives from the key of the message
unfoldable pub claimed_notification :
    OutboxMessage → ℕ → String → ℕ → ℕ → Result ClaimedNotification
claimed_notification m attempt worker_id lease_token lease_until = do
  proof_version ← or_raise m.proof_version (value_error "stored_notification_milestone_missing")
  count ← or_raise m.confirmation_count (value_error "stored_notification_milestone_missing")
  reference ←
      or_raise (payload_reference m.payload) (value_error "stored_notification_payload_invalid")
  kind ← or_raise (notification_kind m.kind) (value_error "notification_kind_invalid")
  ok (record {
    id = m.id;
    message_key = m.message_key;
    order_reference = reference;
    kind = kind;
    recipient = m.recipient;
    proof_version = proof_version;
    confirmation_count = count;
    attempt = attempt;
    lease_owner = worker_id;
    lease_token = lease_token;
    lease_until = lease_until;
  })

-- the message as `claim` leases it
abbrev pub leased_message : OutboxMessage → String → ℕ → ℕ → ℕ → OutboxMessage
leased_message m worker_id lease_token lease_for now = record m {
  state = OutboxState.leased;
  attempt_count = m.attempt_count + 1;
  lease_owner = some worker_id;
  lease_until = some (now + lease_for);
  lease_token = some lease_token;
  safe_error_code = none;
  updated_at = now;
}

abbrev pub new_notification_attempt : OutboxMessage → String → ℕ → ℕ → NotificationAttempt
new_notification_attempt m worker_id lease_token now = record {
  outbox_id = m.id;
  attempt_number = m.attempt_count + 1;
  worker_id = worker_id;
  lease_token = lease_token;
  started_at = now;
  finished_at = none;
  outcome = none;
  response_status = none;
  provider_message_id = none;
  safe_error_code = none;
  created_at = now;
}

-- the attempt whose lease has ended without an answer
abbrev pub close_previous : ℕ → Option NotificationAttempt → Db → Db
close_previous now none db = db
close_previous now (some attempt) db =
    save_notification_attempt
      (record attempt {
        finished_at = some now;
        outcome = some OutboxState.lease_expired;
        safe_error_code = some "lease_expired";
      })
      db

-- `_validate_worker_and_time`: a lease takes between a second and an hour
abbrev pub valid_claim : String → ℕ → Result (Unit {0})
valid_claim worker_id lease_for =
    raise_if (not (leb 1 (length (codes worker_id)) && leb (length (codes worker_id)) 128))
      (value_error "notification_claim_invalid")
    >> raise_if (not (leb 1000000 lease_for && leb lease_for 3600000000))
        (value_error "notification_lease_duration_invalid")

-- the query of `claim`
unfoldable pub next_message : (OutboxMessage → Bool) → ℕ → Db → Option OutboxMessage
next_message locked now db =
    first (
      order_by message_before
        (select (λ m. is_claimable_message now m && not (locked m)) db.outbox))

-- the writes of `claim` on the message that it found. Its row is locked, so the `UPDATE` with the
-- values that were read changes it.
unfoldable pub lease_message :
    String → ℕ → ℕ → ℕ → OutboxMessage → Db → Result (Option ClaimedNotification × Db)
lease_message worker_id lease_token now lease_for m db =
    let previous = find (is_open_attempt m.id) db.notification_attempts in
    let written = save_message (leased_message m worker_id lease_token lease_for now) db in
    do
      added ←
          insert_notification_attempt (new_notification_attempt m worker_id lease_token now)
            (close_previous now previous written)
      claimed ← claimed_notification m (m.attempt_count + 1) worker_id lease_token (now + lease_for)
      ok (some claimed, added)

unfoldable pub claim_notification :
    (OutboxMessage → Bool) → String → ℕ → ℕ → ℕ → Db → Result (Option ClaimedNotification × Db)
claim_notification locked worker_id lease_token now lease_for db = do
  _ ← valid_claim worker_id lease_for
  let swept = expire_unclaimable locked now db
  elim (next_message locked now swept) [
    | none ↦ ok (none, swept)
    | some m ↦ lease_message worker_id lease_token now lease_for m swept
  ]
