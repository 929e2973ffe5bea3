-- ===== src/Operator.antt =====
-- `SqlOperatorCommands` of app/worker/operator.py: an operator sends a waiting job again, and asks
-- for another run on a proof. A step of a command is one transaction, numbered as in
-- Fulfillment.Steps. `_uuid` has read the identifier of a job, or has refused it.
use spacerocks_coa.Base.{
  ℕ, ◌+◌, String, Bool, true, false, not, ◌&&◌, ◌||◌, ◌==◌, leb, Option, none, some, List, [], ◌∷◌,
  if◌then◌else◌, Result, ok, err, value_error, runtime_error, ◌>>=◌, ◌>>◌, raise_if, or_raise,
  codes, length, str_eq,
}
use spacerocks_coa.Order.{FulfillmentState, fulfillment_eq}
use spacerocks_coa.Db.{Db, DurableJob, JobState}
use spacerocks_coa.Db.Access.{find_job, save_job}
use spacerocks_coa.Tasks.{add_task_dispatch}
use spacerocks_coa.Jobs.{Dispatcher}
use spacerocks_coa.Orders.Keys.{joined, decimal_string}
use spacerocks_coa.Proofs.Models.{StoredProof}
use spacerocks_coa.Fulfillment.Repository.{FulfillmentOrder, get_for_fulfillment}
use spacerocks_coa.Fulfillment.Steps.{Surroundings, Tools, commit, after, validate, read_latest}
use spacerocks_coa.Fulfillment.JobHandlers.{order_key, leave_job}
use spacerocks_coa.Notifications.Ending.{all_chars}
pub mod Replaying
mod Tests

-- what the transaction of `replay` decides: an order to look at, or a dispatch to ask for
pub data Replay : Type 0 where
  terminal_order : ℕ → Replay
  dispatch_again : ℕ → ℕ → Replay

-- `max(max_attempts, attempt_count + 10)`
abbrev pub extended_attempts : DurableJob → ℕ
extended_attempts job =
    if leb (job.attempt_count + 10) job.max_attempts
    then job.max_attempts
    else job.attempt_count + 10

-- the row of a job that is sent again
unfoldable pub replayed_job : DurableJob → ℕ → DurableJob
replayed_job job now = record job {
  state = JobState.available;
  available_at = now;
  lease_owner = none;
  lease_until = none;
  safe_error_code = none;
  max_attempts = extended_attempts job;
  generation = job.generation + 1;
  updated_at = now;
}

-- the branches of `replay` on the state of the job
unfoldable pub replay_found : JobState → DurableJob → ℕ → Db → Result (Replay × Db)
replay_found JobState.manual_review job now db = ok (terminal_order job.order_id, db)
replay_found JobState.dead_letter job now db = ok (terminal_order job.order_id, db)
replay_found JobState.retry job now db = do
  added ← add_task_dispatch (replayed_job job now) now now (save_job (replayed_job job now) db)
  ok (dispatch_again job.id (job.generation + 1), added)
replay_found _ job now db = err (value_error "job_not_replayable")

-- the transaction of `replay`
unfoldable pub replay_transaction : Option ℕ → ℕ → Db → Result (Replay × Db)
replay_transaction job_id now db = do
  identifier ← or_raise job_id (value_error "identifier_must_be_uuid")
  job ← or_raise (find_job db identifier) (value_error "job_not_found")
  replay_found job.state job now db

-- a character of `_REVERIFICATION_REQUEST_ID`, and one that may come first
abbrev is_first_char : ℕ → Bool
is_first_char c = leb 65 c && leb c 90 || (leb 97 c && leb c 122 || leb 48 c && leb c 57)

abbrev is_request_char : ℕ → Bool
is_request_char c = is_first_char c || (c == 95 || c == 45)

-- `_REVERIFICATION_REQUEST_ID.fullmatch`
abbrev pub is_request_id : List ℕ → Bool
is_request_id [] = false
is_request_id (c ∷ rest) =
    is_first_char c && (leb (length rest) 31 && all_chars is_request_char rest)

abbrev refuses_request : Option String → Bool
refuses_request none = false
refuses_request (some request_id) = not (is_request_id (codes request_id))

-- `request_id or "default"`
abbrev pub request_key : Option String → String
request_key none = "default"
request_key (some request_id) = if str_eq request_id "" then "default" else request_id

-- `a is None or time != a`
abbrev differs_from : Option ℕ → ℕ → Bool
differs_from none time = true
differs_from (some known) time = not (time == known)

module _ (tools : Tools) (around : Surroundings) (task_dispatch : Option Dispatcher) where
  -- the tests of `_validate_terminal_recovery` on the rows that it read
  unfoldable pub check_recovery : FulfillmentOrder → Option StoredProof → Result (Unit {0})
  check_recovery order none = err (value_error "terminal_recovery_proof_missing")
  check_recovery order (some proof) = do
    raise_if (not (proof.target_digest == order.state.snapshot.manifest_digest))
        (value_error "terminal_recovery_target_mismatch")
    raise_if (differs_from order.calendar_submitted_at proof.calendar_submitted_at)
        (value_error "terminal_recovery_calendar_time_mismatch")
    validate tools around order.state.snapshot.manifest_digest proof.proof_bytes
        (some proof.proof_sha256)

  -- `_validate_terminal_recovery`, in steps 1 and 2
  unfoldable pub validate_terminal_recovery : ℕ → Db → Result (Unit {0}) × Db
  validate_terminal_recovery order_id db =
      let seen = around.others 1 db in
      elim (get_for_fulfillment order_id seen) [
        | none ↦ (err (value_error "terminal_recovery_order_state_invalid"), seen)
        | some order ↦
            if not (fulfillment_eq order.state.fulfillment FulfillmentState.manual_review)
            then (err (value_error "terminal_recovery_order_state_invalid"), seen)
            else after (read_latest tools around 2 order.state.snapshot.order_reference seen)
                (λ proof db'. (check_recovery order proof, db'))
      ]

  -- what `replay` does after its transaction
  unfoldable pub after_replay : Replay → Db → Result (Unit {0}) × Db
  after_replay (dispatch_again job_id generation) db = elim task_dispatch [
    | none ↦ (ok tt, db)
    | some send ↦ after (send job_id generation db) (λ _ db'. (ok tt, db'))
  ]
  after_replay (terminal_order order_id) db =
      after (validate_terminal_recovery order_id db)
        (λ _ db'. (err (runtime_error "terminal_recovery_requires_ws1_state_transition"), db'))

  -- `replay`, whose transaction is step 0
  unfoldable pub replay : Option ℕ → Db → Result (Unit {0}) × Db
  replay job_id db =
      let seen = around.others 0 db in
      after (commit (replay_transaction job_id (around.clock 0) seen) seen) after_replay

  -- f"{prefix}:{order_id}:v{proof.version}:{request_key}"
  abbrev proof_job_key : String → ℕ → ℕ → Option String → String
  proof_job_key prefix order_id version request_id =
      joined (order_key prefix order_id)
        (joined ":v" (joined (decimal_string version) (joined ":" (request_key request_id))))

  -- `_enqueue_proof_job`
  unfoldable pub enqueue_proof_job :
      ℕ → String → (FulfillmentState → Bool) → Option String → Db → Result (Unit {0}) × Db
  enqueue_proof_job order_id prefix allowed request_id db =
      let seen = around.others 0 db in
      elim (get_for_fulfillment order_id seen) [
        | none ↦ (err (value_error "order_not_found"), seen)
        | some order ↦
            if not (allowed order.state.fulfillment)
            then (err (value_error "order_not_eligible"), seen)
            else after (read_latest tools around 1 order.state.snapshot.order_reference seen)
                (λ found db'. elim found [
                  | none ↦ (err (value_error "proof_not_found"), db')
                  | some proof ↦
                      leave_job around task_dispatch 2
                        (proof_job_key prefix order_id proof.version request_id) "upgrade_timestamp"
                        order_id (around.clock 2) (around.clock 3) db'
                ])
      ]

  abbrev is_verified_state : FulfillmentState → Bool
  is_verified_state s =
      fulfillment_eq s FulfillmentState.bitcoin_verified
      || fulfillment_eq s FulfillmentState.delivered

  unfoldable pub reverify : ℕ → Option String → Db → Result (Unit {0}) × Db
  reverify order_id request_id db =
      if refuses_request request_id
      then (err (value_error "reverification_request_id_invalid"), db)
      else enqueue_proof_job order_id "reverify" is_verified_state request_id db

  unfoldable pub upgrade : ℕ → Db → Result (Unit {0}) × Db
  upgrade order_id =
      enqueue_proof_job order_id "upgrade-manual" (fulfillment_eq FulfillmentState.calendar_pending)
        none
