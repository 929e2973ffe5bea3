-- ===== src/Notifications/Sending.antt =====
-- `NotificationDispatcher.dispatch_once` of app/notifications/dispatch.py: one mail is claimed, sent,
-- and ended by how the sender answered. The sender is the argument `send`; what other processes
-- commit while it waits is the argument `others`. A claimed mail has an attempt of at least one.
use spacerocks_coa.Base.{
  ℕ, ◌+◌, ◌-◌, ◌*◌, ◌^◌, String, Bool, true, false, min, Option, none, some, List, Result, ok, err,
  Exn, ◌>>=◌,
}
use spacerocks_coa.Db.{Db}
use spacerocks_coa.Db.Evidence.{OutboxMessage}
use spacerocks_coa.Notifications.Leases.{ClaimedNotification, claim_notification}
use spacerocks_coa.Notifications.Ending.{record_accepted, record_retry, record_terminal_failure}

-- how `sender.send` ends
pub data Answer : Type 0 where
  acceptance : String → ℕ → Answer
  retryable permanent : String → Option ℕ → Answer
  raised : Exn → Answer

-- `min(21600, 30 * (2 ** (attempt - 1)))` seconds
unfoldable pub retry_delay : ℕ → ℕ
retry_delay attempt = min 21600000000 (30000000 * 2 ^ (attempt - 1))

module _ (sha256 : List ℕ → ℕ) where
  -- the branches of `dispatch_once` on the answer
  unfoldable pub record_answer : ClaimedNotification → Answer → ℕ → Db → Result Db
  record_answer claimed (acceptance message_id status) now db = do
    (outcome, db') ← record_accepted sha256 claimed message_id status now db
    ok db'
  record_answer claimed (retryable code status) now db =
      record_retry claimed now (now + retry_delay claimed.attempt) code status db
  record_answer claimed (permanent code status) now db =
      record_terminal_failure claimed now code status db
  record_answer claimed (raised e) now db = err e

  abbrev pub recorded : Result Db → Db → Result Bool × Db
  recorded (ok db') seen = (ok true, db')
  recorded (err e) seen = (err e, seen)

  module _ (locked : OutboxMessage → Bool) (send : ClaimedNotification → Answer)
      (others : Db → Db) where
    unfoldable pub dispatch_once : String → ℕ → ℕ → ℕ → Db → Result Bool × Db
    dispatch_once worker_id token now lease_for db =
        elim (claim_notification locked worker_id token now lease_for db) [
          | err e ↦ (err e, db)
          | ok (none, db') ↦ (ok false, db')
          | ok (some claimed, db') ↦
              recorded (record_answer claimed (send claimed) now (others db')) (others db')
        ]
