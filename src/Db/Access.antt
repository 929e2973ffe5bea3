-- ===== src/Db/Access.antt =====
-- Reads and writes of single rows by their keys, with the constraints of app/db/models.py:
-- an insert that breaks one raises `IntegrityError`.
use spacerocks_coa.Base.{
  ℕ, String, Bool, not, ◌&&◌, ◌||◌, ◌==◌, Option, [], ◌∷◌, ◌++◌, if◌then◌else◌, is_some, str_eq,
  find, replace, Result, ok, err, integrity_error,
}
use spacerocks_coa.Db.{Db, Order, DurableJob, TaskDispatch, JobAttempt}

module _ (job_id : ℕ) where
  abbrev pub has_job_id : DurableJob → Bool
  has_job_id j = j.id == job_id

  abbrev pub has_attempt : ℕ → JobAttempt → Bool
  has_attempt number a = a.job_id == job_id && a.attempt_number == number

  abbrev pub has_dispatch : ℕ → TaskDispatch → Bool
  has_dispatch generation d = d.job_id == job_id && d.generation == generation

abbrev pub has_job_key : String → DurableJob → Bool
has_job_key key j = str_eq j.job_key key

unfoldable pub find_job : Db → ℕ → Option DurableJob
find_job db job_id = find (has_job_id job_id) db.durable_jobs

unfoldable pub find_attempt : Db → ℕ → ℕ → Option JobAttempt
find_attempt db job_id number = find (has_attempt job_id number) db.job_attempts

unfoldable pub find_dispatch : Db → ℕ → ℕ → Option TaskDispatch
find_dispatch db job_id generation = find (has_dispatch job_id generation) db.task_dispatches

-- writes the attributes of a row that was read
unfoldable pub save_job : DurableJob → Db → Db
save_job j db = record db { durable_jobs = replace (has_job_id j.id) j db.durable_jobs }

unfoldable pub save_attempt : JobAttempt → Db → Db
save_attempt a db = record db {
  job_attempts = replace (has_attempt a.job_id a.attempt_number) a db.job_attempts;
}

unfoldable pub save_dispatch : TaskDispatch → Db → Db
save_dispatch d db = record db {
  task_dispatches = replace (has_dispatch d.job_id d.generation) d db.task_dispatches;
}

-- `ForeignKey("orders.id")`
abbrev pub references_order : ℕ → Db → Bool
references_order order_id db = is_some (find (λ (o : Order). o.id == order_id) db.orders)

-- primary key, `unique=True` on job_key, and the foreign key of the order
unfoldable pub insert_job : DurableJob → Db → Result Db
insert_job j db =
    if is_some (find_job db j.id)
      || (is_some (find (has_job_key j.job_key) db.durable_jobs)
          || not (references_order j.order_id db))
    then err integrity_error
    else ok (record db { durable_jobs = db.durable_jobs ++ j ∷ [] })

-- uq_job_attempt_number
unfoldable pub insert_attempt : JobAttempt → Db → Result Db
insert_attempt a db =
    if is_some (find_attempt db a.job_id a.attempt_number)
    then err integrity_error
    else ok (record db { job_attempts = db.job_attempts ++ a ∷ [] })

-- uq_task_dispatch_job_generation
unfoldable pub insert_dispatch : TaskDispatch → Db → Result Db
insert_dispatch d db =
    if is_some (find_dispatch db d.job_id d.generation)
    then err integrity_error
    else ok (record db { task_dispatches = db.task_dispatches ++ d ∷ [] })
