-- ===== src/Jobs.antt =====
-- `SqlJobClaimStore` of app/db/repositories.py: durable jobs, leases and attempts. A method is a
-- transaction on the database; a failed one leaves it as it was. The clock, new UUIDs, the rows
-- that other transactions lock and the dispatcher of tasks are arguments.
pub mod Models
pub mod Effects
pub mod Consistency
pub mod Frames
pub mod Leasing
pub mod Claiming
pub mod Exclusion
pub mod Finishing
pub mod Endings
pub mod Enqueueing
pub mod Specific
pub mod Lifecycle
pub mod Backoff
pub mod Samples
mod Tests
use spacerocks_coa.Base.{
  ℕ, zero, suc, ◌+◌, String, Bool, true, false, not, ◌&&◌, ◌||◌, ◌==◌, ltb, leb, Option, none, some,
  List, if◌then◌else◌, is_some, or_else, opt_eq, opt_str_eq, find, select, order_by, first, Result,
  ok, err, Exn, value_error, integrity_error, specific_job_retryable, ◌>>=◌, ◌>>◌, raise_if,
  or_raise,
}
use spacerocks_coa.Db.{Db, DurableJob, JobAttempt, JobState, available, leased}
use spacerocks_coa.Db.Access.{
  find_job, find_attempt, find_dispatch, save_job, save_attempt, insert_job, insert_attempt,
  has_job_key,
}
use spacerocks_coa.Tasks.{add_task_dispatch}
use spacerocks_coa.Tasks.Recovery.{is_open, lease_free}
use Models.{JobOutcome, JobSpec, ClaimedJob, job_spec, outcome_state, retry, dead_letter}

-- `TaskDispatchCoordinator.dispatch`, which the store calls after it has committed
abbrev pub Dispatcher : Type 0
Dispatcher = ℕ → ℕ → Db → Result Bool × Db

-- the conditions of `claim_query`
unfoldable pub is_claimable : ℕ → DurableJob → Bool
is_claimable now job =
    is_open job.state
    && (leb job.available_at now
        && (lease_free job.lease_until now && ltb job.attempt_count job.max_attempts))

unfoldable pub due_before : DurableJob → DurableJob → Bool
due_before a b =
    ltb a.available_at b.available_at
    || (a.available_at == b.available_at && ltb a.created_at b.created_at)

unfoldable pub claim_query : (DurableJob → Bool) → ℕ → Db → Option DurableJob
unfolding is_claimable due_before
claim_query locked now db =
    first (order_by due_before (select (λ j. is_claimable now j && not (locked j)) db.durable_jobs))

-- the row that `_lease` writes
abbrev pub held_job : DurableJob → String → ℕ → ℕ → DurableJob
held_job job worker_id now lease_for = record job {
  attempt_count = job.attempt_count + 1;
  state = leased;
  lease_owner = some worker_id;
  lease_until = some (now + lease_for);
  updated_at = now;
}

abbrev pub new_attempt : DurableJob → String → ℕ → JobAttempt
new_attempt job worker_id now = record {
  job_id = job.id;
  attempt_number = job.attempt_count;
  worker_id = worker_id;
  started_at = now;
  finished_at = none;
  outcome = none;
  safe_error_code = none;
  created_at = now;
}

-- `_lease`
unfoldable pub lease : DurableJob → String → ℕ → ℕ → Db → Result (ClaimedJob × Db)
lease job worker_id now lease_for db = do
  let held = held_job job worker_id now lease_for
  added ← insert_attempt (new_attempt held worker_id now) (save_job held db)
  spec ← job_spec held.job_key held.kind held.order_id held.max_attempts
  ok (
    record {
      id = held.id;
      spec = spec;
      attempt = held.attempt_count;
      lease_owner = worker_id;
      lease_until = now + lease_for;
    },
    added,
  )

-- a claim, or the result of a method that may find nothing to claim
unfoldable pub claimed : Result (ClaimedJob × Db) → Result (Option ClaimedJob × Db)
claimed (ok (c, db)) = ok (some c, db)
claimed (err e) = err e

unfoldable pub claim : (DurableJob → Bool) → String → ℕ → ℕ → Db → Result (Option ClaimedJob × Db)
unfolding claimed
claim locked worker_id now lease_for db = elim (claim_query locked now db) [
  | none ↦ ok (none, db)
  | some job ↦ claimed (lease job worker_id now lease_for db)
]

-- the tests of `claim_specific` on the row that it locks
unfoldable pub claim_found : DurableJob → ℕ → String → ℕ → ℕ → Db → Result (Option ClaimedJob × Db)
unfolding claimed
claim_found job generation worker_id now lease_for db =
    if not (is_some (find_dispatch db job.id generation))
    then err (specific_job_retryable "specific_dispatch_not_committed")
    else if not (job.generation == generation)
    then ok (none, db)
    else if not (is_open job.state)
    then ok (none, db)
    else if ltb now job.available_at
    then err (specific_job_retryable "specific_job_not_due")
    else if not (lease_free job.lease_until now)
    then err (specific_job_retryable "specific_job_lease_active")
    else if leb job.max_attempts job.attempt_count
    then ok (none, db)
    else claimed (lease job worker_id now lease_for db)

-- `job_id` is the parsed identifier, or nothing where `uuid.UUID` refuses the text
unfoldable pub claim_specific : Option ℕ → ℕ → String → ℕ → ℕ → Db → Result (Option ClaimedJob × Db)
claim_specific job_id generation worker_id now lease_for db = do
  raise_if (ltb generation 1) (value_error "task_generation_invalid")
  identifier ← or_raise job_id (value_error "job_id_must_be_uuid")
  job ← or_raise (find_job db identifier) (specific_job_retryable "specific_job_not_committed")
  claim_found job generation worker_id now lease_for db

abbrev pub is_leased : JobState → Bool
is_leased leased = true
is_leased _ = false

unfoldable pub heartbeat : ℕ → String → ℕ → ℕ → ℕ → Db → Bool × Db
heartbeat job_id worker_id attempt lease_until now db = elim (find_job db job_id) [
  | none ↦ (false, db)
  | some job ↦
      if not (opt_str_eq job.lease_owner worker_id)
        || (not (job.attempt_count == attempt) || not (is_leased job.state))
      then (false, db)
      else (true, save_job (record job { lease_until = some lease_until; updated_at = now }) db)
]

abbrev pub is_retry : JobOutcome → Bool
is_retry retry = true
is_retry _ = false

-- a retry of the last attempt ends as a dead letter
unfoldable pub final_outcome : DurableJob → JobOutcome → JobOutcome
final_outcome stored outcome =
    if is_retry outcome && leb stored.max_attempts stored.attempt_count
    then dead_letter
    else outcome

-- the row after `finish`, before its generation is raised
unfoldable pub finished_job : DurableJob → JobOutcome → ℕ → Option ℕ → Option String → DurableJob
finished_job stored outcome now retry_at safe_error_code = record stored {
  state = outcome_state outcome;
  available_at = or_else retry_at stored.available_at;
  lease_owner = none;
  lease_until = none;
  safe_error_code = safe_error_code;
  updated_at = now;
}

abbrev pub finished_attempt : JobAttempt → JobOutcome → ℕ → Option String → JobAttempt
finished_attempt attempt outcome now safe_error_code = record attempt {
  finished_at = some now;
  outcome = some (outcome_state outcome);
  safe_error_code = safe_error_code;
}

-- the last `if` of the transaction of `finish`
unfoldable pub raise_generation :
    JobOutcome → DurableJob → Option ℕ → ℕ → Db → Result (Option (ℕ × ℕ) × Db)
raise_generation retry job (some retry_at) now db = do
  let again = record job { generation = job.generation + 1 }
  added ← add_task_dispatch again retry_at now (save_job again db)
  ok (some (again.id, again.generation), added)
raise_generation retry job none now db = err (value_error "retry outcome requires retry_at")
raise_generation _ job retry_at now db = ok (none, db)

-- the transaction of `finish`: the dispatch that it asks for, and the new state
unfoldable pub finish_transaction :
    ClaimedJob → JobOutcome → ℕ → Option ℕ → Option String → Db → Result (Option (ℕ × ℕ) × Db)
finish_transaction job outcome now retry_at safe_error_code db = do
  stored ←
      or_raise (find_job db job.id) (value_error "job lease is no longer owned by this attempt")
  raise_if
      (not (opt_str_eq stored.lease_owner job.lease_owner)
        || not (stored.attempt_count == job.attempt))
      (value_error "job lease is no longer owned by this attempt")
  attempt ←
      or_raise (find_attempt db stored.id stored.attempt_count)
        (value_error "job attempt history is missing")
  let final = final_outcome stored outcome
  raise_if (is_retry final && not (is_some retry_at))
      (value_error "retry outcome requires retry_at")
  let job' = finished_job stored final now retry_at safe_error_code
  raise_generation final job' retry_at now
      (save_attempt (finished_attempt attempt final now safe_error_code) (save_job job' db))

-- what follows a transaction that may ask for a dispatch
unfoldable pub after_commit :
    Option Dispatcher → Result (Option (ℕ × ℕ) × Db) → Db → Result (Unit {0}) × Db
after_commit task_dispatch (err e) db = (err e, db)
after_commit task_dispatch (ok (none, db')) db = (ok tt, db')
after_commit none (ok (some key, db')) db = (ok tt, db')
after_commit (some send) (ok (some (job_id, generation), db')) db =
    let (r, db'') = send job_id generation db' in ((do r; ok tt), db'')

unfoldable pub finish :
    Option Dispatcher
    → ClaimedJob
    → JobOutcome
    → ℕ
    → Option ℕ
    → Option String
    → Db
    → Result (Unit {0}) × Db
unfolding after_commit
finish task_dispatch job outcome now retry_at safe_error_code db =
    after_commit task_dispatch (finish_transaction job outcome now retry_at safe_error_code db) db

-- the row of `enqueue_once`
abbrev pub new_job : ℕ → JobSpec → ℕ → ℕ → DurableJob
new_job fresh spec available_at now = record {
  id = fresh;
  job_key = spec.job_key;
  order_id = spec.order_id;
  kind = spec.kind;
  state = available;
  generation = 1;
  attempt_count = 0;
  max_attempts = spec.max_attempts;
  available_at = available_at;
  lease_owner = none;
  lease_until = none;
  safe_error_code = none;
  created_at = now;
  updated_at = now;
}

-- `except IntegrityError`: the job that has the key, if any, and its generation
unfoldable pub existing_key : Option DurableJob → Option (ℕ × ℕ)
existing_key none = none
existing_key (some job) = some (job.id, job.generation)

-- what the insert and its `except` leave: whether a job was created, and the dispatch to ask for
unfoldable pub created_or_existing :
    DurableJob → Db → Result Db → Result (Bool × Option (ℕ × ℕ) × Db)
created_or_existing job db (ok db') = ok (true, some (job.id, 1), db')
created_or_existing job db (err integrity_error) =
    ok (false, existing_key (find (has_job_key job.job_key) db.durable_jobs), db)
created_or_existing job db (err e) = err e

-- the transaction of `enqueue_once`
unfoldable pub enqueue_transaction : ℕ → JobSpec → ℕ → ℕ → Db → Result (Bool × Option (ℕ × ℕ) × Db)
unfolding created_or_existing existing_key
enqueue_transaction fresh spec available_at now db =
    let job = new_job fresh spec available_at now in
    created_or_existing job db (insert_job job db >>= add_task_dispatch job available_at now)

unfoldable pub enqueue_once : Option Dispatcher → ℕ → JobSpec → ℕ → ℕ → Db → Result Bool × Db
unfolding after_commit
enqueue_once task_dispatch fresh spec available_at now db =
    elim (enqueue_transaction fresh spec available_at now db) [
      | err e ↦ (err e, db)
      | ok (created, key, db') ↦
          let (r, db'') = after_commit task_dispatch (ok (key, db')) db' in
          ((do r; ok created), db'')
    ]
