-- ===== src/Tasks/Effects.antt =====
-- What `add_task_dispatch` leaves in the tables.
use spacerocks_coa.Base.{ℕ, ◌≡◌, ◌&&◌, ◌==◌, none, some, List, if◌then◌else◌, arith, ok, >>=-eq-ok}
use spacerocks_coa.Db.{Db, DurableJob, TaskDispatch}
use spacerocks_coa.Db.Access.{find_job, find_attempt, find_dispatch, insert_dispatch}
use spacerocks_coa.Db.Laws.{find_dispatch-insert_dispatch}
use spacerocks_coa.Db.Frames.{find_job-insert_dispatch, find_attempt-insert_dispatch}
use spacerocks_coa.Tasks.{add_task_dispatch, new_dispatch}
use spacerocks_coa.Tasks.Naming.{deterministic_task_name}

-- the dispatch of the job's generation is new, and nothing else changes
pub record DispatchAdded (job : DurableJob) (schedule_at now : ℕ) (db db' : Db) : Type 0 where
  pub name : List ℕ
  pub named : deterministic_task_name job.id job.generation ≡ ok name
  pub fresh : find_dispatch db job.id job.generation ≡ none
  pub jobs : db'.durable_jobs ≡ db.durable_jobs
  pub job_at : (i : ℕ) → find_job db' i ≡ find_job db i
  pub attempt_at : (i n : ℕ) → find_attempt db' i n ≡ find_attempt db i n
  pub dispatch_at :
      (i g : ℕ)
      → find_dispatch db' i g ≡ (
          if job.id == i && job.generation == g
          then some (new_dispatch job name schedule_at now)
          else find_dispatch db i g)

inserted_jobs :
    (d : TaskDispatch) (db db' : Db)
    → insert_dispatch d db ≡ ok db'
    → (db'.durable_jobs ≡ db.durable_jobs) × (find_dispatch db d.job_id d.generation ≡ none)
unfolding insert_dispatch
inserted_jobs d db db' e = ground arith

pub add_task_dispatch_effect :
    (job : DurableJob) (schedule_at now : ℕ) (db db' : Db)
    → add_task_dispatch job schedule_at now db ≡ ok db'
    → DispatchAdded job schedule_at now db db'
unfolding add_task_dispatch
add_task_dispatch_effect job schedule_at now db db' e =
    let (name, named, added) =
      >>=-eq-ok (deterministic_task_name job.id job.generation)
        (λ name. insert_dispatch (new_dispatch job name schedule_at now) db) e in
    let row = new_dispatch job name schedule_at now in
    let (jobs, fresh) = inserted_jobs row db db' added in
    record {
      name = name;
      named = named;
      fresh = fresh;
      jobs = jobs;
      job_at = λ i. find_job-insert_dispatch db row i added;
      attempt_at = λ i n. find_attempt-insert_dispatch db row i n added;
      dispatch_at = λ i g. find_dispatch-insert_dispatch db row i g added;
    }
