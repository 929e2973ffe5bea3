-- ===== src/Worker.antt =====
-- app/worker/runner.py: a worker claims a job, runs its handler while it extends the lease, and ends
-- the job by how the handler ended. One execution of a handler is given by what is committed while
-- it runs, in order, and by its result; the moments at which the clock is read are arguments. That
-- the worker's own task is cancelled from outside during the wait is not modelled, nor is the log.
pub mod Endings
mod Tests
use spacerocks_coa.Base.{
  ℕ, ◌+◌, String, Bool, true, false, leb, Option, none, some, List, [], ◌∷◌, if◌then◌else◌, Result,
  ok, err, Exn, manual_review_error, retryable_fulfillment_error, cancelled_error, ◌>>=◌,
}
use spacerocks_coa.Db.{Db, DurableJob}
use spacerocks_coa.Jobs.{Dispatcher, claim, claim_specific, heartbeat, finish}
use spacerocks_coa.Jobs.Models.{
  JobOutcome, ClaimedJob, BackoffPolicy, delay, complete, retry, manual_review, dead_letter,
}

-- what happens between the start of a handler and its end
pub data Event : Type 0 where
  -- the handler, or another process, commits a change
  work : (Db → Db) → Event
  -- the heartbeat's wait times out at this moment
  beat : ℕ → Event

pub record Execution : Type 0 where
  pub events : List Event
  pub result : Result (Unit {0})

-- readings of the clock after the handler has ended: for the last heartbeat, for the start of the
-- delay, and for the finish
pub record Moments : Type 0 where
  pub checked : ℕ
  pub delayed : ℕ
  pub finished : ℕ

pub record Worker : Type 0 where
  pub worker_id : String
  pub handlers : String → Option (ℕ → Execution)
  pub terminal_failure : ℕ → String → Db → Result (Unit {0}) × Db
  pub task_dispatch : Option Dispatcher
  pub lease_for : ℕ
  pub backoff : BackoffPolicy

-- one statement after another, where the first may raise
abbrev pub and_then :
    Result (Unit {0}) × Db → (Db → Result (Unit {0}) × Db) → Result (Unit {0}) × Db
and_then (ok _, db) next = next db
and_then (err e, db) next = (err e, db)

-- The handler runs beside `_heartbeat`; the flag says whether the lease was lost.
unfoldable pub run_events : Worker → ClaimedJob → List Event → Db → Bool × Db
run_events w job [] db = (false, db)
run_events w job (work change ∷ events) db = run_events w job events (change db)
run_events w job (beat at ∷ events) db =
    let (kept, db') = heartbeat job.id w.worker_id job.attempt (at + w.lease_for) at db in
    let rest = run_events w job events db' in if kept then rest else (true, db')

-- `_finish`
unfoldable pub finish_job :
    Worker → ClaimedJob → JobOutcome → Option String → Moments → Db → Result (Unit {0}) × Db
finish_job w job outcome safe_code moments db =
    finish w.task_dispatch job outcome moments.finished none safe_code db

-- the `finish` of `_retry_or_exhaust`, where `delay` may refuse its arguments
unfoldable pub retry_later :
    Worker → ClaimedJob → String → Moments → Result ℕ → Db → Result (Unit {0}) × Db
retry_later w job safe_code moments (err e) db = (err e, db)
retry_later w job safe_code moments (ok wait) db =
    finish w.task_dispatch job retry moments.finished (some (moments.delayed + wait))
      (some safe_code) db

unfoldable pub retry_or_exhaust :
    Worker → ClaimedJob → String → ℕ → Moments → Db → Result (Unit {0}) × Db
retry_or_exhaust w job safe_code jitter moments db =
    if leb job.spec.max_attempts job.attempt
    then and_then (w.terminal_failure job.spec.order_id safe_code db)
        (finish_job w job dead_letter (some safe_code) moments)
    else retry_later w job safe_code moments (delay w.backoff job.attempt jitter) db

-- the branches of `_run_claimed` on the error of the handler
unfoldable pub conclude :
    Worker → ClaimedJob → Result (Unit {0}) → ℕ → Moments → Db → Result (Unit {0}) × Db
conclude w job (ok _) jitter moments db = finish_job w job complete none moments db
conclude w job (err (manual_review_error code)) jitter moments db =
    and_then (w.terminal_failure job.spec.order_id code db)
      (finish_job w job manual_review (some code) moments)
conclude w job (err (retryable_fulfillment_error code)) jitter moments db =
    retry_or_exhaust w job code jitter moments db
conclude w job (err cancelled_error) jitter moments db = (err cancelled_error, db)
conclude w job (err e) jitter moments db =
    retry_or_exhaust w job "job_unexpected_failure" jitter moments db

-- the last heartbeat, which decides whether the worker may end the job
unfoldable pub confirm :
    Worker → ClaimedJob → Result (Unit {0}) → ℕ → Moments → Db → Result (Unit {0}) × Db
confirm w job result jitter moments db =
    let (kept, db') =
      heartbeat job.id w.worker_id job.attempt (moments.checked + w.lease_for) moments.checked db in
    if kept then conclude w job result jitter moments db' else (ok tt, db')

-- `_run_claimed`
unfoldable pub run_claimed : Worker → ClaimedJob → ℕ → Moments → Db → Result (Unit {0}) × Db
run_claimed w job jitter moments db = elim (w.handlers job.spec.kind) [
  | none ↦
      and_then (w.terminal_failure job.spec.order_id "job_kind_unknown" db)
        (finish_job w job manual_review (some "job_kind_unknown") moments)
  | some handler ↦
      let execution = handler job.spec.order_id in
      let (lost, db') = run_events w job execution.events db in
      if lost then (ok tt, db') else confirm w job execution.result jitter moments db'
]

-- whether a job was handled
handled : Result (Unit {0}) × Db → Result Bool × Db
handled (ok _, db) = (ok true, db)
handled (err e, db) = (err e, db)

unfoldable pub run_taken :
    Worker → ℕ → Moments → Result (Option ClaimedJob × Db) → Db → Result Bool × Db
unfolding handled
run_taken w jitter moments (err e) db = (err e, db)
run_taken w jitter moments (ok (none, db')) db = (ok false, db')
run_taken w jitter moments (ok (some job, db')) db = handled (run_claimed w job jitter moments db')

unfoldable pub run_once : Worker → (DurableJob → Bool) → ℕ → ℕ → Moments → Db → Result Bool × Db
unfolding run_taken
run_once w locked now jitter moments db =
    run_taken w jitter moments (claim locked w.worker_id now w.lease_for db) db

unfoldable pub run_specific : Worker → Option ℕ → ℕ → ℕ → ℕ → Moments → Db → Result Bool × Db
unfolding run_taken
run_specific w job_id generation now jitter moments db =
    run_taken w jitter moments (claim_specific job_id generation w.worker_id now w.lease_for db) db
