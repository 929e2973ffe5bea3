-- ===== src/Tasks/Recovery.antt =====
-- The two sweeps of app/tasks/dispatch.py: tasks that were never created, and tasks that were
-- created and have not led to a claim of their job for too long.
use spacerocks_coa.Base.{
  ℕ, ◌+◌, ◌-◌, ◌*◌, Bool, true, false, not, ◌&&◌, ◌||◌, ◌==◌, ltb, leb, Option, none, some, List,
  [], ◌∷◌, ◌++◌, map, if◌then◌else◌, is_some, length, select, order_by, take, Result, ok, err,
  value_error, ◌>>=◌,
}
use spacerocks_coa.Db.{Db, DurableJob, TaskDispatch, JobAttempt, JobState}
use spacerocks_coa.Db.Access.{
  find_job, find_dispatch, find_attempt, save_job, save_dispatch, save_attempt,
}
use spacerocks_coa.Tasks.{add_task_dispatch, is_dispatched, dispatch_all}

pub record ReconcileResult : Type 0 where
  pub selected : ℕ
  pub dispatched : ℕ

-- `order_id is None or job.order_id == order_id`, and False for a dispatch without a job
of_order : Option ℕ → Option DurableJob → Bool
of_order order_id none = false
of_order none (some job) = true
of_order (some o) (some job) = job.order_id == o

by_schedule : TaskDispatch → TaskDispatch → Bool
by_schedule a b =
    ltb a.schedule_at b.schedule_at
    || (a.schedule_at == b.schedule_at && ltb a.created_at b.created_at)

unfoldable pub pending_query : (TaskDispatch → Bool) → ℕ → Option ℕ → Db → List TaskDispatch
unfolding of_order by_schedule
pending_query locked limit order_id db = take limit (
    order_by by_schedule (
      select
        (λ d.
          not (is_dispatched d.state)
          && (of_order order_id (find_job db d.job_id) && not (locked d)))
        db.task_dispatches))

task_key : TaskDispatch → ℕ × ℕ
task_key d = (d.job_id, d.generation)

abbrev valid_limit : ℕ → Bool
valid_limit limit = leb 1 limit && leb limit 1000

-- an hour in microseconds
abbrev hour : ℕ
hour = 3600000000

abbrev valid_grace : ℕ → Bool
valid_grace grace = leb (2 * hour) grace && leb grace (30 * 24 * hour)

-- AVAILABLE, RETRY or LEASED
abbrev pub is_open : JobState → Bool
is_open JobState.available = true
is_open JobState.retry = true
is_open JobState.leased = true
is_open _ = false

-- `value <= bound` in SQL, where NULL is not selected
abbrev at_most : Option ℕ → ℕ → Bool
at_most none bound = false
at_most (some v) bound = leb v bound

-- `lease_until IS NULL OR lease_until < now`
abbrev pub lease_free : Option ℕ → ℕ → Bool
lease_free none now = true
lease_free (some t) now = ltb t now

-- the join of a job with the dispatch of its generation
with_dispatch : Db → List DurableJob → List (DurableJob × TaskDispatch)
with_dispatch db [] = []
with_dispatch db (job ∷ jobs) = elim (find_dispatch db job.id job.generation) [
  | none ↦ with_dispatch db jobs
  | some d ↦ (job, d) ∷ with_dispatch db jobs
]

unfoldable pub is_stale : ℕ → ℕ → DurableJob → TaskDispatch → Bool
is_stale stale_before recovered_at job d =
    is_dispatched d.state
    && (leb d.schedule_at stale_before
        && (at_most d.dispatched_at stale_before
            && (is_open job.state
                && (leb job.available_at stale_before
                    && (ltb job.attempt_count job.max_attempts
                        && lease_free job.lease_until recovered_at)))))

-- `order_by` puts NULL last
dispatched_before : Option ℕ → Option ℕ → Bool
dispatched_before (some a) (some b) = ltb a b
dispatched_before (some a) none = true
dispatched_before none _ = false

by_availability : DurableJob × TaskDispatch → DurableJob × TaskDispatch → Bool
unfolding dispatched_before
by_availability (j, d) (k, e) =
    ltb j.available_at k.available_at
    || (j.available_at == k.available_at && dispatched_before d.dispatched_at e.dispatched_at)

-- `expired_attempt`: the unfinished attempt that held the lease
close_attempt : Option JobAttempt → ℕ → Db → Db
close_attempt none recovered_at db = db
close_attempt (some a) recovered_at db =
    if is_some a.finished_at
    then db
    else save_attempt
        (record a {
          finished_at = some recovered_at;
          outcome = some JobState.retry;
          safe_error_code = some "lease_expired_recovered";
        })
        db

-- the body of the `if job.lease_owner is not None`
release : ℕ → DurableJob → Db → DurableJob × Db
unfolding find_attempt close_attempt save_attempt
release recovered_at job db =
    if is_some job.lease_owner
    then (
      record job { state = JobState.available; lease_owner = none; lease_until = none },
      close_attempt (find_attempt db job.id job.attempt_count) recovered_at db,
    )
    else (job, db)

-- the body of the loop of `recover_stale_dispatched`
unfoldable pub recover_one : ℕ → DurableJob → TaskDispatch → Db → Result ((ℕ × ℕ) × Db)
unfolding release save_dispatch save_job
recover_one recovered_at job old_dispatch db = do
  let marked =
      save_dispatch
        (record old_dispatch {
          safe_error_code = some "superseded_stale_dispatch";
          updated_at = recovered_at;
        })
        db
  let released = release recovered_at job marked
  let job' = record (released.0) {
    generation = released.0.generation + 1;
    updated_at = recovered_at;
  }
  added ← add_task_dispatch job' recovered_at recovered_at (save_job job' (released.1))
  ok ((job'.id, job'.generation), added)

recover_each : ℕ → List (DurableJob × TaskDispatch) → List (ℕ × ℕ) → Db → Result (List (ℕ × ℕ) × Db)
unfolding recover_one
recover_each recovered_at [] done db = ok (done, db)
recover_each recovered_at ((job, d) ∷ rest) done db = elim (recover_one recovered_at job d db) [
  | err e ↦ err e
  | ok (key, db') ↦ recover_each recovered_at rest (done ++ key ∷ []) db'
]

-- the transaction of `recover_stale_dispatched`
unfoldable pub recover_stale : (DurableJob → Bool) → ℕ → ℕ → ℕ → Db → Result (List (ℕ × ℕ) × Db)
unfolding with_dispatch is_stale by_availability recover_each
recover_stale locked stale_grace limit recovered_at db =
    let stale =
      select
        (λ (pair : DurableJob × TaskDispatch).
          not (locked pair.0) && is_stale (recovered_at - stale_grace) recovered_at pair.0 pair.1)
        (with_dispatch db db.durable_jobs) in
    recover_each recovered_at (take limit (order_by by_availability stale)) [] db

module _ (create : List ℕ → List ℕ → ℕ → Result (Unit {0})) (meanwhile : Db → Db) (now : ℕ) where
  report : ℕ → Result ℕ × Db → Result ReconcileResult × Db
  report selected (ok sent, db) = (ok (record { selected = selected; dispatched = sent }), db)
  report selected (err e, db) = (err e, db)

  unfoldable pub reconcile : (TaskDispatch → Bool) → ℕ → Option ℕ → Db → Result ReconcileResult × Db
  unfolding pending_query task_key dispatch_all report
  reconcile locked limit order_id db =
      if not (valid_limit limit)
      then (err (value_error "task_reconcile_limit_invalid"), db)
      else let keys = map task_key (pending_query locked limit order_id db) in
        report (length keys) (dispatch_all create meanwhile now keys 0 db)

  after_recovery : Result (List (ℕ × ℕ) × Db) → Db → Result ReconcileResult × Db
  unfolding report dispatch_all
  after_recovery (err e) db = (err e, db)
  after_recovery (ok (recovered, db')) db =
      report (length recovered) (dispatch_all create meanwhile now recovered 0 db')

  unfoldable pub recover_stale_dispatched :
      (DurableJob → Bool) → ℕ → ℕ → ℕ → Db → Result ReconcileResult × Db
  unfolding recover_stale after_recovery
  recover_stale_dispatched locked stale_grace limit recovered_at db =
      if not (valid_limit limit)
      then (err (value_error "task_reconcile_limit_invalid"), db)
      else if not (valid_grace stale_grace)
      then (err (value_error "task_stale_grace_invalid"), db)
      else after_recovery (recover_stale locked stale_grace limit recovered_at db) db
