-- ===== src/Notifications/Holding.antt =====
-- About a claim of a mail after another claim has taken the mail.
use spacerocks_coa.Base.{
  ℕ, ◌+◌, ◌≡◌, ◌≢◌, refl, sym, ap, ◌∙◌, subst, String, Bool, true, not, ◌&&◌, Option, none, some,
  List, [], ◌∷◌, arith, ok, find, replace, find-replace_self, select, order_by, Result-cases,
  Option-cases, Bool-cases, inl, inr, ==_refl,
}
use spacerocks_coa.Base.Ordering.{IsRow, IsRow-first, IsRow-order_by, IsRow-select}
use spacerocks_coa.Db.{Db}
use spacerocks_coa.Db.Evidence.{OutboxMessage, NotificationAttempt}
use spacerocks_coa.Notifications.Outbox.{has_message_id}
use spacerocks_coa.Notifications.Leases.{
  ClaimedNotification, find_message, save_message, leased_message, claimed_notification,
  close_previous, insert_notification_attempt, new_notification_attempt, next_message,
  message_before, is_claimable_message, lease_message, claim_notification, expire_unclaimable,
  save_notification_attempt, is_open_attempt,
}
use spacerocks_coa.Notifications.Ending.{
  active_lease, holds_lease, record_accepted, record_retry, record_terminal_failure,
}

row_found :
    (p : OutboxMessage → Bool) (rows : List OutboxMessage) (m : OutboxMessage)
    → IsRow m rows
    → p m ≡ true
    → (found : OutboxMessage) × (find p rows ≡ some found)
unfolding find
row_found p [] m r t = absurd r
row_found p (x ∷ xs) m (inl e) t = (x, ground arith)
row_found p (x ∷ xs) m (inr r) t = elim (Bool-cases (p x)) [
  | inl q ↦ (x, ground arith)
  | inr q ↦ let (found, f) = row_found p xs m r t in (found, ground arith)
]

next_message-IsRow :
    (locked : OutboxMessage → Bool) (now : ℕ) (db : Db) (m : OutboxMessage)
    → next_message locked now db ≡ some m
    → IsRow m db.outbox × (is_claimable_message now m && not (locked m) ≡ true)
unfolding next_message
next_message-IsRow locked now db m e =
    let due = λ (x : OutboxMessage). is_claimable_message now x && not (locked x) in
    let rows = select due db.outbox in
    IsRow-select due db.outbox m
      (IsRow-order_by message_before rows m (IsRow-first (order_by message_before rows) m e))

close_previous-outbox :
    (now : ℕ) (previous : Option NotificationAttempt) (db : Db)
    → (close_previous now previous db).outbox ≡ db.outbox
unfolding save_notification_attempt
close_previous-outbox now none db = refl
close_previous-outbox now (some a) db = refl

inserted-outbox :
    (a : NotificationAttempt) (db db' : Db)
    → insert_notification_attempt a db ≡ ok db'
    → db'.outbox ≡ db.outbox
unfolding insert_notification_attempt
inserted-outbox a db db' e = ground arith

claimed_fields :
    (m : OutboxMessage) (attempt : ℕ) (worker_id : String) (token until : ℕ)
    (c : ClaimedNotification)
    → claimed_notification m attempt worker_id token until ≡ ok c
    → (c.id ≡ m.id) × (c.attempt ≡ attempt) × (c.lease_token ≡ token)
unfolding claimed_notification
claimed_fields m attempt worker_id token until c e = ground arith

-- the message that a claim returns is leased in its name
pub record IsHeld (c : ClaimedNotification) (db : Db) : Type 0 where
  pub message : OutboxMessage
  pub found : find_message db c.id ≡ some message
  pub attempt : message.attempt_count ≡ c.attempt
  pub token : message.lease_token ≡ some c.lease_token

lease_message-IsHeld :
    (worker_id : String) (token now lease_for : ℕ) (m : OutboxMessage) (db db' : Db)
    (c : ClaimedNotification)
    → IsRow m db.outbox
    → lease_message worker_id token now lease_for m db ≡ ok (some c, db')
    → IsHeld c db'
unfolding lease_message find_message save_message
lease_message-IsHeld worker_id token now lease_for m db db' c row e =
    let previous = find (is_open_attempt m.id) db.notification_attempts in
    let leased = leased_message m worker_id token lease_for now in
    let written = save_message leased db in
    let call =
      insert_notification_attempt (new_notification_attempt m worker_id token now)
        (close_previous now previous written) in
    elim (Result-cases call) [
      | inr (x, p) ↦ absurd (ground arith)
      | inl (added, p) ↦
          elim (Result-cases
            (claimed_notification m (m.attempt_count + 1) worker_id token (now + lease_for))) [
              | inr (x, q) ↦ absurd (ground arith)
              | inl (claimed, q) ↦
                  let (id, attempt, held) =
                    claimed_fields m (m.attempt_count + 1) worker_id token (now + lease_for) claimed
                      q in
                  let same : claimed ≡ c = ground arith in
                  let end : added ≡ db' = ground arith in
                  let outbox : db'.outbox ≡ replace (has_message_id m.id) leased db.outbox =
                    ap (λ (d : Db). d.outbox) (sym end)
                    ∙ (inserted-outbox (new_notification_attempt m worker_id token now)
                          (close_previous now previous written) added p
                        ∙ close_previous-outbox now previous written) in
                  let same_id : m.id ≡ c.id =
                    sym id ∙ ap (λ (x : ClaimedNotification). x.id) same in
                  let (old, there) =
                    row_found (has_message_id m.id) db.outbox m row (==_refl m.id) in
                  record {
                    message = leased;
                    found =
                        subst (λ i. find (has_message_id i) db'.outbox ≡ some leased) same_id
                          (rw outbox (
                            find-replace_self (has_message_id m.id) db.outbox old leased there
                              (==_refl m.id)));
                    attempt = ground arith;
                    token = ground arith;
                  }
            ]
    ]

claim_notification-IsHeld :
    (locked : OutboxMessage → Bool) (worker_id : String) (token now lease_for : ℕ) (db db' : Db)
    (c : ClaimedNotification)
    → claim_notification locked worker_id token now lease_for db ≡ ok (some c, db')
    → IsHeld c db'
unfolding claim_notification
claim_notification-IsHeld locked worker_id token now lease_for db db' c e =
    let swept = expire_unclaimable locked now db in
    elim (Option-cases (next_message locked now swept)) [
      | inl p ↦ absurd (ground arith)
      | inr (m, p) ↦
          lease_message-IsHeld worker_id token now lease_for m swept db' c
            (next_message-IsRow locked now swept m p).0 (ground arith)
    ]

-- a claim that is not the one in whose name the message is leased has no lease
stale :
    (c old : ClaimedNotification) (later : ℕ) (db : Db) (r : OutboxMessage × NotificationAttempt)
    → IsHeld c db
    → old.id ≡ c.id
    → old.lease_token ≢ c.lease_token
    → active_lease old later db ≢ ok r
unfolding active_lease holds_lease
stale c old later db r h same other e =
    let found : find_message db old.id ≡ some h.message =
      subst (λ i. find_message db i ≡ some h.message) (sym same) h.found in
    ground (arith, h.token, found)

module _ (locked : OutboxMessage → Bool) (worker_id : String) (token now lease_for : ℕ)
    (db db' : Db) (c old : ClaimedNotification) where
  -- Once a claim has taken a mail, whoever claimed it before under another token can neither record
  -- that it was accepted, nor a retry, nor a failure.
  pub superseded_mail :
      claim_notification locked worker_id token now lease_for db ≡ ok (some c, db')
      → old.id ≡ c.id
      → old.lease_token ≢ c.lease_token
      → (sha256 : List ℕ → ℕ) → (later status retry_at : ℕ) → (provider_id code : String)
      → (answered : Option ℕ)
      → ((r : (Bool × Bool) × Db) → record_accepted sha256 old provider_id status later db' ≢ ok r)
        × ((r : Db) → record_retry old later retry_at code answered db' ≢ ok r)
        × ((r : Db) → record_terminal_failure old later code answered db' ≢ ok r)
  unfolding record_accepted record_retry record_terminal_failure
  superseded_mail e same other sha256 later status retry_at provider_id code answered =
      let h = claim_notification-IsHeld locked worker_id token now lease_for db db' c e in
      elim (Result-cases (active_lease old later db')) [
        | inl (r, p) ↦ absurd (stale c old later db' r h same other p)
        | inr (x, p) ↦ (λ r q. ground arith, λ r q. ground arith, λ r q. ground arith)
      ]
