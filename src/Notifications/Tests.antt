-- ===== src/Notifications/Tests.antt =====
-- The first mail of a verified order: claimed twice, and reported delivered.
use spacerocks_coa.Base.{
  ◌≡◌, ◌≢◌, refl, Bool, true, false, none, some, Option, Result, ok, find, replace, select,
  order_by, insert_by, arith,
}
use spacerocks_coa.Db.{Db, Order}
use spacerocks_coa.Db.Evidence.{OutboxMessage}
use spacerocks_coa.Orders.{find_order, save_order, last_sequence, insert_state_event}
use spacerocks_coa.Orders.Keys.{decimal_string, decimal_string_from, decimal_char}
use spacerocks_coa.Payments.Samples.{value_or}
use spacerocks_coa.Proofs.Rows.{latest_version, find_verification, find_bundle, latest_observation}
use spacerocks_coa.Notifications.Messages.{initial_confirmation, notification_kind}
use spacerocks_coa.Notifications.Outbox.{get_observation}
use spacerocks_coa.Notifications.Leases.{
  ClaimedNotification, claim_notification, expire_unclaimable, bury_each, is_unclaimable,
  is_claimable_message, next_message, message_before, lease_message, claimed_notification,
  payload_reference, insert_notification_attempt, save_message, find_message,
  save_notification_attempt,
}
use spacerocks_coa.Notifications.Ending.{
  record_accepted, record_retry, record_terminal_failure, active_lease, all_chars, holds_lease,
}
use spacerocks_coa.Notifications.Delivery.{
  WebhookOutcome, deliverable, delivery_evidence_matches, rows_match, move_delivered,
  apply_delivered_event,
}
use spacerocks_coa.Notifications.Resend.{
  WebhookProcessResult, answer, new_resend_event, find_resend_event, process_resend,
  record_new_event, new_event_of, applied,
}
use spacerocks_coa.Notifications.Holding.{superseded_mail}
use spacerocks_coa.Notifications.Repeated.{resend_again}
use spacerocks_coa.Notifications.Samples.{
  digest_sample, verified_db, sent_mail, sent_db, delivery_report,
}
use spacerocks_coa.Notifications.Sending.{
  Answer, retryable, retry_delay, record_answer, dispatch_once,
}
use spacerocks_coa.Notifications.Concluding.{Concluded, dispatch_once-Concluded}

abbrev unlocked : OutboxMessage → Bool
unlocked m = false

abbrev claim_run : Result (Option ClaimedNotification × Db)
claim_run = claim_notification unlocked "w2" 31 1000 60000000 verified_db

abbrev claim_end : Option ClaimedNotification × Db
claim_end = value_or claim_run (none, verified_db)

abbrev holder : ClaimedNotification
holder = record {
  id = 12;
  message_key = "bitcoin-confirmed-initial-v1-ts_5";
  order_reference = "ts_5";
  kind = initial_confirmation;
  recipient = "a@example.test";
  proof_version = 1;
  confirmation_count = 2;
  attempt = 1;
  lease_owner = "w2";
  lease_token = 31;
  lease_until = 60001000;
}

claim_run-ok : claim_run ≡ ok (some holder, claim_end.1)
unfolding claim_notification expire_unclaimable bury_each select is_unclaimable notification_kind
    next_message order_by insert_by is_claimable_message message_before lease_message find
    save_message replace insert_notification_attempt claimed_notification payload_reference
claim_run-ok = refl

-- a claim of the mail under another token
abbrev earlier : ClaimedNotification
earlier = record holder { lease_token = 30; lease_owner = "w1" }

superseded_mail_example :
    ((r : WebhookOutcome × Db)
      → record_accepted digest_sample earlier "re_1" 200 1100 claim_end.1 ≢ ok r)
    × ((r : Db) → record_retry earlier 1100 2000 "http_500" (some 500) claim_end.1 ≢ ok r)
    × ((r : Db) → record_terminal_failure earlier 1100 "http_500" (some 500) claim_end.1 ≢ ok r)
superseded_mail_example =
    superseded_mail unlocked "w2" 31 1000 60000000 verified_db claim_end.1 holder earlier
      claim_run-ok refl (omega arith) digest_sample 1100 200 2000 "re_1" "http_500" (some 500)

abbrev delivery_run : Result (WebhookOutcome × Db)
delivery_run =
    apply_delivered_event digest_sample sent_mail (new_resend_event delivery_report 4 930) 930
      sent_db

abbrev delivered_db : Db
delivered_db = (value_or delivery_run ((false, false), sent_db)).1

abbrev alone : Db → Db
alone db = db

abbrev report_run : Result (WebhookProcessResult × Db)
report_run = process_resend digest_sample alone delivery_report 4 930 sent_db

abbrev reported : Db
reported = (value_or report_run (answer false (false, false), sent_db)).1

report_run-ok : report_run ≡ ok (answer false (true, true), reported)
unfolding process_resend find_resend_event record_new_event new_event_of applied
    apply_delivered_event deliverable find_order find delivery_evidence_matches notification_kind
    decimal_string decimal_string_from decimal_char rows_match latest_version order_by insert_by
    select find_verification find_bundle get_observation latest_observation move_delivered
    save_message replace save_order insert_state_event last_sequence
report_run-ok = refl

resend_again_example :
    process_resend digest_sample alone delivery_report 4 990 reported
    ≡ ok (answer true (false, false), reported)
resend_again_example =
    resend_again digest_sample delivery_report 4 alone 930 990 sent_db reported
      (answer false (true, true)) (λ d row found. found) report_run-ok

abbrev busy_sender : ClaimedNotification → Answer
busy_sender c = retryable "http_500" (some 500)

abbrev dispatch_run : Result Bool × Db
dispatch_run =
    dispatch_once digest_sample unlocked busy_sender alone "w2" 31 1000 60000000 verified_db

dispatch_run-ok : dispatch_run ≡ (ok true, dispatch_run.1)
unfolding dispatch_once record_answer record_retry active_lease find_message all_chars retry_delay
    save_notification_attempt claim_notification expire_unclaimable bury_each select is_unclaimable
    notification_kind next_message order_by insert_by is_claimable_message message_before
    lease_message find save_message replace insert_notification_attempt claimed_notification
    payload_reference holds_lease
dispatch_run-ok = refl

dispatch_once-Concluded_example :
    (c : ClaimedNotification) × (claimed : Db) × (claim_notification unlocked "w2" 31 1000 60000000
        verified_db
      ≡ ok (some c, claimed))
    × Concluded c (busy_sender c) 1000 dispatch_run.1
dispatch_once-Concluded_example =
    dispatch_once-Concluded digest_sample unlocked busy_sender alone "w2" 31 1000 60000000
      verified_db dispatch_run.1 dispatch_run-ok
