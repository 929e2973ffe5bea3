-- ===== src/Tasks.antt =====
-- app/tasks/dispatch.py: the tasks that wake a worker for one generation of a job. The client of
-- Cloud Tasks is the parameter `create`; what other transactions commit while a task is being
-- created is the parameter `meanwhile`, and a row that another transaction locks is skipped.
pub mod Naming
pub mod Recovery
pub mod Effects
use spacerocks_coa.Base.{
  ℕ, zero, suc, ◌+◌, ◌-◌, String, Bool, true, false, not, ◌&&◌, ◌||◌, ◌==◌, ltb, leb, Option, none,
  some, List, [], ◌∷◌, ◌++◌, if◌then◌else◌, is_some, length, select, order_by, take, codes, Result,
  ok, err, Exn, value_error, task_dispatch_unavailable, cancelled_error, ◌>>=◌, raise_if,
}
use spacerocks_coa.Db.{Db, DurableJob, TaskDispatch, DispatchState, pending, dispatched}
use spacerocks_coa.Db.Access.{find_job, find_dispatch, save_dispatch, insert_dispatch}
use Naming.{deterministic_task_name, task_payload}

abbrev pub new_dispatch : DurableJob → List ℕ → ℕ → ℕ → TaskDispatch
new_dispatch job name schedule_at now = record {
  job_id = job.id;
  generation = job.generation;
  task_name = name;
  schedule_at = schedule_at;
  state = pending;
  attempt_count = 0;
  dispatched_at = none;
  safe_error_code = none;
  created_at = now;
  updated_at = now;
}

unfoldable pub add_task_dispatch : DurableJob → ℕ → ℕ → Db → Result Db
add_task_dispatch job schedule_at now db = do
  name ← deterministic_task_name job.id job.generation
  insert_dispatch (new_dispatch job name schedule_at now) db

abbrev pub is_dispatched : DispatchState → Bool
is_dispatched pending = false
is_dispatched dispatched = true

-- `except Exception` catches every exception but the cancellation of the task
abbrev is_exception : Exn → Bool
is_exception cancelled_error = false
is_exception _ = true

-- the transaction of the `except` block of `dispatch`
unfoldable pub record_failure : ℕ → ℕ → ℕ → Db → Db
unfolding find_dispatch save_dispatch
record_failure job_id generation now db = elim (find_dispatch db job_id generation) [
  | none ↦ db
  | some current ↦
      if is_dispatched current.state
      then db
      else save_dispatch
          (record current {
            attempt_count = current.attempt_count + 1;
            safe_error_code = some "cloud_tasks_create_failed";
            updated_at = now;
          })
          db
]

-- the last transaction of `dispatch`
unfoldable pub record_dispatched : ℕ → ℕ → ℕ → Db → Bool × Db
unfolding find_dispatch save_dispatch
record_dispatched job_id generation now db = elim (find_dispatch db job_id generation) [
  | none ↦ (false, db)
  | some current ↦ if is_dispatched current.state then (false, db) else (
    true,
    save_dispatch
        (record current {
          state = dispatched;
          attempt_count = current.attempt_count + 1;
          dispatched_at = some now;
          safe_error_code = none;
          updated_at = now;
        })
        db,
  )
]

-- What follows the call of the client, by how it ended.
unfoldable pub settle : ℕ → ℕ → ℕ → Result (Unit {0}) → Db → Result Bool × Db
unfolding record_failure record_dispatched
settle job_id generation now (ok _) db =
    let (sent, db') = record_dispatched job_id generation now db in (ok sent, db')
settle job_id generation now (err e) db =
    if is_exception e
    then (
      err (task_dispatch_unavailable "cloud_tasks_create_failed"),
      record_failure job_id generation now db,
    )
    else (err e, db)

module _ (create : List ℕ → List ℕ → ℕ → Result (Unit {0})) (meanwhile : Db → Db) (now : ℕ) where
  unfoldable pub dispatch : ℕ → ℕ → Db → Result Bool × Db
  unfolding find_dispatch settle
  dispatch job_id generation db = elim (find_dispatch db job_id generation) [
    | none ↦ (ok false, db)
    | some found ↦
        if is_dispatched found.state
        then (ok false, db)
        else settle job_id generation now
            (do
              payload ← task_payload job_id generation
              create found.task_name payload found.schedule_at)
            (meanwhile db)
  ]

  -- `for job_id, generation in selected: dispatched += int(await self.dispatch(...))`
  unfoldable pub dispatch_all : List (ℕ × ℕ) → ℕ → Db → Result ℕ × Db
  unfolding dispatch
  dispatch_all [] sent db = (ok sent, db)
  dispatch_all ((job_id, generation) ∷ rest) sent db =
      let (r, db') = dispatch job_id generation db in
      elim r [ ok b ↦ dispatch_all rest (if b then sent + 1 else sent) db' | err e ↦ (err e, db') ]
