-- ===== src/Fulfillment/Tests.antt =====
-- The handlers on one order: unpaid, queued, and verified.
use spacerocks_coa.Base.{
  map, ℕ, ◌+◌, ◌≡◌, ◌≢◌, refl, true, none, some, List, [], ◌∷◌, Result, ok, err, cancelled_error,
  confirmation_pending, find, replace, select, order_by, insert_by, arith, hex_digits, decimal,
}
use spacerocks_coa.Order.{
  PaymentState, FulfillmentState, transition_fulfillment, fulfillment_allowed, stamping,
}
use spacerocks_coa.Db.{Db, Order}
use spacerocks_coa.Db.Access.{
  references_order, find_job, insert_job, insert_dispatch, find_dispatch,
}
use spacerocks_coa.Tasks.{add_task_dispatch}
use spacerocks_coa.Tasks.Naming.{deterministic_task_name}
use spacerocks_coa.Jobs.{enqueue_once, enqueue_transaction, after_commit}
use spacerocks_coa.Jobs.Models.{job_spec}
use spacerocks_coa.Jobs.Samples.{empty, one_order-IsConsistent}
use spacerocks_coa.Orders.{find_order, save_order, last_sequence, insert_state_event}
use spacerocks_coa.Orders.Keys.{
  joined, uuid_string, hex_string, hex_char, decimal_string, decimal_string_from, decimal_char,
}
use spacerocks_coa.Payments.Samples.{open_order, one_order, value_or}
use spacerocks_coa.Proofs.Models.{BitcoinVerification}
use spacerocks_coa.Proofs.Rows.{
  find_order_by_reference, merge_calendar_time, latest_version, find_verification,
}
use spacerocks_coa.Proofs.Store.{latest, latest_for_order}
use spacerocks_coa.Proofs.Observations.{
  record_once, record_observation, validate_observation_input, all_key_chars, find_observation,
}
use spacerocks_coa.Notifications.Samples.{digest_sample, verified_db}
use spacerocks_coa.Notifications.Outbox.{OutboxSettings}
use spacerocks_coa.Fulfillment.Repository.{
  FulfillmentOrder, fulfillment_order, get_for_fulfillment, find_state_event, make_transition,
  transition_fulfillment_once,
}
use spacerocks_coa.Fulfillment.Implementing.{Implements, transition_once-Implements}
use spacerocks_coa.Fulfillment.Once.{transition_once_again}
use spacerocks_coa.Fulfillment.Steps.{Surroundings, Tools, move}
use spacerocks_coa.Fulfillment.Stamping.{PendingProof, stamp_handler}
use spacerocks_coa.Fulfillment.Upgrading.{
  observe, observation_event_key, same_reverification_evidence,
}
use spacerocks_coa.Fulfillment.Delivering.{
  confirmation_handler, check_monitored, read_verified, read_confirmation, confirmed_again, confirm,
}
use spacerocks_coa.Timestamping.Detached.{timestamp, bitcoin_block_header, no_more}
use spacerocks_coa.Fulfillment.Terminal.{terminal_failure}
use spacerocks_coa.Jobs.Frames.{SameJobs}
use spacerocks_coa.Fulfillment.Guarding.{ReviewOf, terminal_failure-Reviewed}
use spacerocks_coa.Fulfillment.Unpaid.{unpaid_unproven}
use spacerocks_coa.Fulfillment.Monitoring.{NeverFewer, monitor-NeverFewer}
use spacerocks_coa.Fulfillment.JobHandlers.{
  leave_job, stamp_job, upgrade_job, unless_pending, leave_upgrade_poll, order_key, poll_key,
}
use spacerocks_coa.Fulfillment.Queueing.{Leaves}
use spacerocks_coa.Fulfillment.Following.{stamp_job-Leaves, upgrade_job-polls}
use spacerocks_coa.Fulfillment.Steps.{load, read_latest}
use spacerocks_coa.Proofs.Rows.{get_version, latest_observation}
use spacerocks_coa.Proofs.Store.{
  stored_proof_of, shown_verification, separate_verification, shown_confirmations, verification_of,
  valid_metadata, matches_metadata,
}
use spacerocks_coa.Timestamping.Detached.{
  validate_exact_proof, deserialize_exact_proof, validate_timestamp_tree, visit_all, visit,
  count_attestations, push_children,
}
use spacerocks_coa.Proofs.Evidence.{get_verified}
use spacerocks_coa.Proofs.Observations.{latest_confirmation}
use spacerocks_coa.Proofs.Models.{stored_proof, check_state, bitcoin_verification, is_block_hash}
use spacerocks_coa.Db.Evidence.{BitcoinConfirmationObservation}

abbrev quiet : Surroundings
quiet = record {
  others = λ step db. db;
  clock = λ step. 1000000000 + step;
  new_id = λ step. 20 + step;
}

abbrev tools : Tools
tools = record {
  sha256 = digest_sample;
  isoformat = λ time. "1970-01-01T00:00:00+00:00";
  apply = λ op msg. msg;
  deserialize = λ bytes. none;
}

abbrev queued_order : Order
queued_order = record open_order {
  payment_state = PaymentState.paid;
  fulfillment_state = FulfillmentState.queued;
}

abbrev queued_db : Db
queued_db = record empty { orders = queued_order ∷ [] }

abbrev start_run : Result (FulfillmentOrder × Db)
start_run =
    transition_fulfillment_once tools.isoformat 5 stamping "stamp-start-v1" none 1000 queued_db

abbrev started : FulfillmentOrder × Db
started = value_or start_run (fulfillment_order queued_order, queued_db)

start_run-ok : start_run ≡ ok started
unfolding transition_fulfillment_once find_order find find_state_event make_transition
    transition_fulfillment fulfillment_allowed merge_calendar_time save_order replace
    insert_state_event last_sequence
start_run-ok = refl

transition_once_again_example :
    transition_fulfillment_once tools.isoformat 5 stamping "stamp-start-v1" none 2000 started.1
    ≡ ok started
transition_once_again_example =
    transition_once_again tools.isoformat 5 stamping "stamp-start-v1" none 1000 2000 queued_db
      started start_run-ok

transition_once-Implements_example :
    Implements tools.isoformat 5 stamping "stamp-start-v1" none 1000 queued_db started
transition_once-Implements_example =
    transition_once-Implements tools.isoformat 5 stamping "stamp-start-v1" none 1000 queued_db
      started start_run-ok

-- calendars that never answer
abbrev silent_stamp : ℕ → Result PendingProof
silent_stamp digest = err cancelled_error

open_loaded : get_for_fulfillment 5 one_order ≡ some (fulfillment_order open_order)
unfolding get_for_fulfillment find_order find
open_loaded = refl

unpaid_unproven_example :
    (stamp_handler tools quiet silent_stamp 5 one_order).1.proof_versions ≡ one_order.proof_versions
unpaid_unproven_example =
    unpaid_unproven tools quiet (λ step db. refl) one_order silent_stamp 5
      (fulfillment_order open_order) (ground arith) open_loaded

abbrev reviewed : Db
reviewed = (terminal_failure tools quiet 5 "job_kind_unknown" queued_db).1

terminal_run : terminal_failure tools quiet 5 "job_kind_unknown" queued_db ≡ (ok tt, reviewed)
unfolding terminal_failure move transition_fulfillment_once find_order find find_state_event
    make_transition transition_fulfillment fulfillment_allowed merge_calendar_time save_order
    replace insert_state_event last_sequence
terminal_run = refl

terminal_failure-Reviewed_example :
    (before : Order) × (after : Order) × (find_order queued_db 5 ≡ some before)
    × (find_order reviewed 5 ≡ some after)
    × ReviewOf (joined "worker-terminal-" "job_kind_unknown") 5 queued_db before after
    × ((i : ℕ) → i ≢ 5 → find_order reviewed i ≡ find_order queued_db i)
    × SameJobs queued_db reviewed
terminal_failure-Reviewed_example =
    terminal_failure-Reviewed tools quiet 5 "job_kind_unknown" queued_db reviewed terminal_run

-- a verification of the sample, at a time and with a count
abbrev seen_at : ℕ → ℕ → BitcoinVerification
seen_at time count = record {
  verified = true;
  method = "rpc";
  verified_at = some time;
  block_height = some 800000;
  block_hash = some "00000000000000000002a7c4c1e48d76c5a37902165a270156b7a8d72728a054";
  block_time = some 800;
  confirmation_policy = some "1";
  confirmations = some count;
}

abbrev node : ℕ → List ℕ → Result BitcoinVerification
node digest proof_bytes = ok (seen_at 1900 3)

abbrev mails : OutboxSettings
mails = record { idempotency_horizon = 86400000000; max_attempts = 12 }

-- a proof of one node, for the digest of the order
abbrev readable : Tools
readable = record tools {
  deserialize = λ bytes. some (record {
    hash_is_sha256 = true;
    file_digest = 77;
    tree = timestamp [] (bitcoin_block_header ∷ []) no_more;
  });
}

abbrev monitored : Db
monitored = (confirmation_handler readable quiet mails node 5 verified_db).1

monitor-NeverFewer_example : NeverFewer 5 verified_db monitored
monitor-NeverFewer_example =
    monitor-NeverFewer readable quiet mails node (λ step db. refl) 5 verified_db

abbrev done : ℕ → Db → Result (Unit {0}) × Db
done order_id db = (ok tt, db)

abbrev after_stamp : Db
after_stamp = (stamp_job quiet none done 5 one_order).1

stamp_job_run : stamp_job quiet none done 5 one_order ≡ (ok tt, after_stamp)
unfolding stamp_job leave_job job_spec uuid_string hex_string hex_char enqueue_once
    enqueue_transaction insert_job find_job find add_task_dispatch deterministic_task_name
    hex_digits decimal insert_dispatch find_dispatch after_commit
stamp_job_run = refl

unused : (id : ℕ) → find_job one_order id ≡ none
unfolding find_job find
unused id = refl

order_there : references_order 5 one_order ≡ true
unfolding find
order_there = refl

stamp_job-Leaves_example :
    Leaves (order_key "upgrade" 5) "upgrade_timestamp" 5 1000000010 one_order after_stamp
stamp_job-Leaves_example =
    stamp_job-Leaves quiet none tt done 5 one_order one_order after_stamp refl
      (record { unused = unused 30; known = order_there; consistent = one_order-IsConsistent })
      stamp_job_run

abbrev waits : ℕ → Db → Result (Unit {0}) × Db
waits order_id db = (err (confirmation_pending "bitcoin_confirmation_pending"), db)

abbrev after_poll : Db
after_poll = (upgrade_job quiet none waits 5 one_order).1

upgrade_job_run : upgrade_job quiet none waits 5 one_order ≡ (ok tt, after_poll)
unfolding upgrade_job unless_pending leave_upgrade_poll leave_job job_spec uuid_string hex_string
    hex_char decimal_string decimal_string_from decimal_char enqueue_once enqueue_transaction
    insert_job find_job find add_task_dispatch deterministic_task_name hex_digits decimal
    insert_dispatch find_dispatch after_commit
upgrade_job_run = refl

upgrade_job-polls_example :
    Leaves
      (poll_key "upgrade-poll" 5 22600000010)
      "upgrade_timestamp"
      5
      22600000010
      one_order
      after_poll
upgrade_job-polls_example =
    upgrade_job-polls quiet none tt waits 5 "bitcoin_confirmation_pending" one_order one_order
      after_poll refl
      (record { unused = unused 31; known = order_there; consistent = one_order-IsConsistent })
      upgrade_job_run

-- the monitor sees three confirmations, where two were recorded, and waits for six
monitor_run :
    confirmation_handler readable quiet mails node 5 verified_db
    ≡ (err (confirmation_pending "bitcoin_final_confirmation_pending"), monitored)
unfolding confirmation_handler load get_for_fulfillment find_order find read_latest latest
    find_order_by_reference latest_for_order latest_version order_by insert_by select get_version
    stored_proof_of find_verification latest_observation check_monitored validate_exact_proof
    deserialize_exact_proof validate_timestamp_tree visit_all visit count_attestations push_children
    read_verified get_verified read_confirmation latest_confirmation confirmed_again
    same_reverification_evidence confirm observe observation_event_key decimal_string
    decimal_string_from decimal_char record_once validate_observation_input all_key_chars
    record_observation find_observation stored_proof shown_verification separate_verification
    shown_confirmations verification_of valid_metadata matches_metadata check_state
    bitcoin_verification is_block_hash
monitor_run = refl

monitor_counts :
    map
      (λ (o : BitcoinConfirmationObservation). o.observed_confirmations)
      monitored.confirmation_observations
    ≡ 2 ∷ 3 ∷ []
unfolding confirmation_handler load get_for_fulfillment find_order find read_latest latest
    find_order_by_reference latest_for_order latest_version order_by insert_by select get_version
    stored_proof_of find_verification latest_observation check_monitored validate_exact_proof
    deserialize_exact_proof validate_timestamp_tree visit_all visit count_attestations push_children
    read_verified get_verified read_confirmation latest_confirmation confirmed_again
    same_reverification_evidence confirm observe observation_event_key decimal_string
    decimal_string_from decimal_char record_once validate_observation_input all_key_chars
    record_observation find_observation stored_proof shown_verification separate_verification
    shown_confirmations verification_of valid_metadata matches_metadata check_state
    bitcoin_verification is_block_hash
monitor_counts = refl
