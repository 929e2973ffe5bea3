-- ===== src/Notifications/Concluding.antt =====
-- About the mail that `dispatch_once` has claimed and ended.
use spacerocks_coa.Base.{
  ℕ, ◌+◌, ◌-◌, ◌≤◌, ◌≡◌, refl, sym, ◌∙◌, subst, String, Bool, true, Option, none, some, List, arith,
  ok, Result-cases, Option-cases, find, replace, find-test, find-replace_self, order_by, select,
  first, inl, inr, ◌⊎◌, ==_refl, pow_positive,
}
use spacerocks_coa.Db.{Db}
use spacerocks_coa.Db.Evidence.{OutboxState, OutboxMessage, NotificationAttempt, ResendWebhookEvent}
use spacerocks_coa.Notifications.Outbox.{has_message_id}
use spacerocks_coa.Notifications.Leases.{
  ClaimedNotification, claim_notification, find_message, save_message, save_notification_attempt,
  released, finished,
}
use spacerocks_coa.Notifications.Delivery.{
  WebhookOutcome, apply_delivered_event, deliverable, delivered_message,
}
use spacerocks_coa.Notifications.Ending.{
  active_lease, accepted_message, apply_early_delivery, record_accepted, record_retry,
  record_terminal_failure, retried_message, retry_state, event_before, is_delivery_of,
}
use spacerocks_coa.Notifications.Settling.{move_delivered-Moved}
use spacerocks_coa.Notifications.Sending.{
  Answer, acceptance, retryable, permanent, raised, retry_delay, record_answer, dispatch_once,
}

-- the first retry waits half a minute, and none waits longer than six hours
retry_delay_bounds :
    (attempt : ℕ) → (30000000 ≤ retry_delay attempt) × (retry_delay attempt ≤ 21600000000)
unfolding retry_delay
retry_delay_bounds attempt = let p = pow_positive (attempt - 1) in (omega arith, omega arith)

lease_found :
    (c : ClaimedNotification) (now : ℕ) (db : Db) (m : OutboxMessage) (a : NotificationAttempt)
    → active_lease c now db ≡ ok (m, a)
    → find_message db c.id ≡ some m
unfolding active_lease
lease_found c now db m a e = elim (Option-cases (find_message db c.id)) [
  | inl p ↦ absurd (ground arith)
  | inr (x, p) ↦ ground arith
]

saved_found :
    (db : Db) (i : ℕ) (m x : OutboxMessage)
    → find_message db i ≡ some m
    → x.id ≡ m.id
    → find_message (save_message x db) i ≡ some x
unfolding find_message save_message
saved_found db i m x found same =
    let test = find-test (has_message_id i) db.outbox m found in
    let id : i ≡ x.id = ground arith in
    subst (λ n. find (has_message_id n) (replace (has_message_id x.id) x db.outbox) ≡ some x)
      (sym id)
      (find-replace_self (has_message_id x.id) db.outbox m x
        (subst (λ n. find (has_message_id n) db.outbox ≡ some m) id found) (==_refl x.id))

attempt_found :
    (a : NotificationAttempt) (db : Db) (i : ℕ)
    → find_message (save_notification_attempt a db) i ≡ find_message db i
unfolding find_message save_notification_attempt
attempt_found a db i = refl

same_mail :
    (d d' : Db) (i : ℕ) (x : OutboxMessage)
    → d'.outbox ≡ d.outbox
    → find_message d i ≡ some x
    → find_message d' i ≡ some x
unfolding find_message
same_mail d d' i x same there = rw same there

-- how the sender's answer ends the mail
abbrev pub IsEnded : Answer → ℕ → OutboxMessage → Type 0
IsEnded (acceptance message_id status) now x =
    (x.provider_message_id ≡ some message_id)
    × ((x.state ≡ OutboxState.accepted) ⊎ (x.state ≡ OutboxState.delivered))
IsEnded (retryable code status) now x =
    (x.state ≡ OutboxState.dead_letter)
    ⊎ ((x.state ≡ OutboxState.retry)
        × (now + 30000000 ≤ x.available_at)
        × (x.available_at ≤ now + 21600000000))
IsEnded (permanent code status) now x = x.state ≡ OutboxState.failed
IsEnded (raised e) now x = ⊥

-- the mail of a claim is ended, and nobody holds it
pub record Concluded (c : ClaimedNotification) (answer : Answer) (now : ℕ) (db' : Db) : Type 0 where
  pub message : OutboxMessage
  pub found : find_message db' c.id ≡ some message
  pub no_owner : message.lease_owner ≡ none
  pub no_token : message.lease_token ≡ none
  pub ended : IsEnded answer now message

module _ (sha256 : List ℕ → ℕ) (c : ClaimedNotification) (now : ℕ) (db db' : Db) where
  -- what was written for the holder of the lease
  written :
      (m x : OutboxMessage) (a b : NotificationAttempt)
      → active_lease c now db ≡ ok (m, a)
      → x.id ≡ m.id
      → find_message (save_notification_attempt b (save_message x db)) c.id ≡ some x
  written m x a b e same =
      attempt_found b (save_message x db) c.id
      ∙ saved_found db c.id m x (lease_found c now db m a e) same

  retried :
      (code : String) (status : Option ℕ)
      → record_answer sha256 c (retryable code status) now db ≡ ok db'
      → Concluded c (retryable code status) now db'
  unfolding record_answer record_retry
  retried code status e = elim (Result-cases (active_lease c now db)) [
    | inr (x, p) ↦ absurd (ground arith)
    | inl ((m, a), p) ↦
        let x = retried_message m now (now + retry_delay c.attempt) code in
        let bounds = retry_delay_bounds c.attempt in
        let b =
          finished a now (retry_state m (now + retry_delay c.attempt)) status none (some code) in
        let same : save_notification_attempt b (save_message x db) ≡ db' = ground arith in
        record {
          message = x;
          found = subst (λ d. find_message d c.id ≡ some x) same (written m x a b p refl);
          no_owner = refl;
          no_token = refl;
          ended = ground (arith, bounds);
        }
  ]

  failed :
      (code : String) (status : Option ℕ)
      → record_answer sha256 c (permanent code status) now db ≡ ok db'
      → Concluded c (permanent code status) now db'
  unfolding record_answer record_terminal_failure
  failed code status e = elim (Result-cases (active_lease c now db)) [
    | inr (x, p) ↦ absurd (ground arith)
    | inl ((m, a), p) ↦
        let x = released m OutboxState.failed (some code) now in
        let b = finished a now OutboxState.failed status none (some code) in
        let same : save_notification_attempt b (save_message x db) ≡ db' = ground arith in
        record {
          message = x;
          found = subst (λ d. find_message d c.id ≡ some x) same (written m x a b p refl);
          no_owner = refl;
          no_token = refl;
          ended = refl;
        }
  ]

  -- the mail after an early delivery of it was applied, or not
  early_found :
      (m : OutboxMessage) (event : ResendWebhookEvent) (start : Db) (outcome : WebhookOutcome)
      → find_message start c.id ≡ some m
      → apply_delivered_event sha256 m event now start ≡ ok (outcome, db')
      → (find_message db' c.id ≡ some m)
        ⊎ (find_message db' c.id ≡ some (delivered_message m event now))
  unfolding apply_delivered_event
  early_found m event start outcome found e =
      elim (Option-cases (deliverable sha256 m event start)) [
        | inl p ↦
            let same : start ≡ db' = ground arith in
            inl (subst (λ d. find_message d c.id ≡ some m) same found)
        | inr ((order, kind), p) ↦
            let x = delivered_message m event now in
            let moved =
              move_delivered-Moved order m kind event now (save_message x start) db' outcome
                (ground arith) in
            inr (
              same_mail (save_message x start) db' c.id x (moved.outbox)
                (saved_found start c.id m x found refl))
      ]

  early :
      (message_id : String) (m : OutboxMessage) (start : Db) (outcome : WebhookOutcome)
      → find_message start c.id ≡ some m
      → apply_early_delivery sha256 m message_id now start ≡ ok (outcome, db')
      → (find_message db' c.id ≡ some m)
        ⊎ ((event : ResendWebhookEvent) × (find_message db' c.id
              ≡ some (delivered_message m event now)))
  unfolding apply_early_delivery
  early message_id m start outcome found e =
      let rows =
        order_by event_before (select (is_delivery_of message_id) start.resend_webhook_events) in
      elim (Option-cases (first rows)) [
        | inl p ↦
            let same : start ≡ db' = ground arith in
            inl (subst (λ d. find_message d c.id ≡ some m) same found)
        | inr (event, p) ↦ elim (early_found m event start outcome found (ground arith)) [
          | inl kept ↦ inl kept
          | inr delivered ↦ inr (event, delivered)
        ]
      ]

  accepted :
      (message_id : String) (status : ℕ)
      → record_answer sha256 c (acceptance message_id status) now db ≡ ok db'
      → Concluded c (acceptance message_id status) now db'
  unfolding record_answer record_accepted
  accepted message_id status e = elim (Result-cases (active_lease c now db)) [
    | inr (x, p) ↦ absurd (ground arith)
    | inl ((m, a), p) ↦
        let x = accepted_message m message_id now in
        let b = finished a now OutboxState.accepted (some status) (some message_id) none in
        let start = save_notification_attempt b (save_message x db) in
        let there = written m x a b p refl in
        elim (Result-cases (apply_early_delivery sha256 x message_id now start)) [
          | inr (x, q) ↦ absurd (ground arith)
          | inl ((outcome, end), q) ↦
              let same : end ≡ db' = ground arith in
              elim (early message_id x start outcome there (
                subst (λ d. apply_early_delivery sha256 x message_id now start ≡ ok (outcome, d))
                  same q)) [
                    | inl found ↦ record {
                      message = x;
                      found = found;
                      no_owner = refl;
                      no_token = refl;
                      ended = (refl, inl refl);
                    }
                    | inr (event, found) ↦ record {
                      message = delivered_message x event now;
                      found = found;
                      no_owner = refl;
                      no_token = refl;
                      ended = (refl, inr refl);
                    }
                  ]
        ]
  ]

answer_Concluded :
    (sha256 : List ℕ → ℕ) (c : ClaimedNotification) (answer : Answer) (now : ℕ) (db db' : Db)
    → record_answer sha256 c answer now db ≡ ok db'
    → Concluded c answer now db'
unfolding record_answer
answer_Concluded sha256 c (acceptance message_id status) now db db' e =
    accepted sha256 c now db db' message_id status e
answer_Concluded sha256 c (retryable code status) now db db' e =
    retried sha256 c now db db' code status e
answer_Concluded sha256 c (permanent code status) now db db' e =
    failed sha256 c now db db' code status e
answer_Concluded sha256 c (raised x) now db db' e = absurd (ground arith)

-- A `dispatch_once` that has handled a mail has claimed it and ended it as its sender answered,
-- whatever others committed while it was sent: nobody holds the mail, and it is accepted, or already
-- delivered, under the identifier of the answer; or it waits for a retry between half a minute and
-- six hours later, or is a dead letter; or it has failed.
pub dispatch_once-Concluded :
    (sha256 : List ℕ → ℕ) (locked : OutboxMessage → Bool) (send : ClaimedNotification → Answer)
    (others : Db → Db) (worker_id : String) (token now lease_for : ℕ) (db db' : Db)
    → dispatch_once sha256 locked send others worker_id token now lease_for db ≡ (ok true, db')
    → (c : ClaimedNotification) × (claimed : Db) × (claim_notification locked worker_id token now
          lease_for db
        ≡ ok (some c, claimed))
      × Concluded c (send c) now db'
unfolding dispatch_once
dispatch_once-Concluded sha256 locked send others worker_id token now lease_for db db' e =
    elim (Result-cases (claim_notification locked worker_id token now lease_for db)) [
      | inr (x, p) ↦ absurd (ground arith)
      | inl ((none, claimed), p) ↦ absurd (ground arith)
      | inl ((some c, claimed), p) ↦
          elim (Result-cases (record_answer sha256 c (send c) now (others claimed))) [
            | inr (x, q) ↦ absurd (ground arith)
            | inl (end, q) ↦
                let same : end ≡ db' = ground arith in
                (
                  c,
                  claimed,
                  p,
                  subst (Concluded c (send c) now) same
                      (answer_Concluded sha256 c (send c) now (others claimed) end q),
                )
          ]
    ]
