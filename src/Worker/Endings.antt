-- ===== src/Worker/Endings.antt =====
-- The state in which a worker leaves the job that it ended, by how the handler ended.
use spacerocks_coa.Base.{
  ℕ, ◌≡◌, String, leb, Option, none, some, if◌then◌else◌, Result, ok, err, manual_review_error,
  cancelled_error,
}
use spacerocks_coa.Db.{Db, DurableJob}
use spacerocks_coa.Db.Access.{find_job}
use spacerocks_coa.Jobs.{Dispatcher}
use spacerocks_coa.Jobs.Models.{
  JobOutcome, ClaimedJob, outcome_state, complete, retry, manual_review, dead_letter,
}
use spacerocks_coa.Worker.{Worker, Moments}

-- a dispatcher, if there is one, changes no job
abbrev pub SendKeepsJobs : Option Dispatcher → Type 0
SendKeepsJobs none = Unit
SendKeepsJobs (some send) =
    (job_id generation i : ℕ) (db : Db) → find_job (send job_id generation db).1 i ≡ find_job db i

-- the terminal handler writes to the order alone, and keeps the tables of the jobs
pub record TerminalKeepsJobs (w : Worker) : Type 0 where
  pub jobs :
      (order_id : ℕ) (code : String) (db : Db)
      → (w.terminal_failure order_id code db).1.durable_jobs ≡ db.durable_jobs
  pub attempts :
      (order_id : ℕ) (code : String) (db : Db)
      → (w.terminal_failure order_id code db).1.job_attempts ≡ db.job_attempts
  pub dispatches :
      (order_id : ℕ) (code : String) (db : Db)
      → (w.terminal_failure order_id code db).1.task_dispatches ≡ db.task_dispatches

-- How a job ends whose handler had this result, at the given attempt of so many; a cancelled handler
-- ends no job.
abbrev pub ending : Result (Unit {0}) → ℕ → ℕ → Option JobOutcome
ending (ok _) attempt max_attempts = some complete
ending (err (manual_review_error _)) attempt max_attempts = some manual_review
ending (err cancelled_error) attempt max_attempts = none
ending (err _) attempt max_attempts = some (if leb max_attempts attempt then dead_letter else retry)

module _ (w : Worker) (job : ClaimedJob) (jitter : ℕ) (moments : Moments) (stored : DurableJob)
    (terminal : TerminalKeepsJobs w) (keeps : SendKeepsJobs w.task_dispatch)
    (current : stored.attempt_count ≡ job.attempt)
    (limit : stored.max_attempts ≡ job.spec.max_attempts) where
  -- the row of the job, with the state of its ending
  abbrev pub EndsAs : Option JobOutcome → Db → Type 0
  EndsAs none db = ⊥
  EndsAs (some outcome) db =
      (row : DurableJob) × (find_job db job.id ≡ some row)
      × (row.state ≡ outcome_state outcome)
      × (row.lease_owner ≡ none)
