-- ===== src/Db/Frames.antt =====
-- A write or an insert in one of the tables of jobs, attempts and dispatches leaves the other two
-- as they were.
use spacerocks_coa.Base.{ℕ, ◌≡◌, refl, arith, ok}
use spacerocks_coa.Db.{Db, DurableJob, TaskDispatch, JobAttempt}
use spacerocks_coa.Db.Access.{
  find_job, find_attempt, find_dispatch, save_job, save_attempt, save_dispatch, insert_job,
  insert_attempt, insert_dispatch,
}

module _ (db : Db) where
  pub find_attempt-save_job :
      (r : DurableJob) (i n : ℕ) → find_attempt (save_job r db) i n ≡ find_attempt db i n
  unfolding find_attempt save_job
  find_attempt-save_job r i n = refl

  pub find_attempt-insert_job :
      (r : DurableJob) {db' : Db} (i n : ℕ)
      → insert_job r db ≡ ok db'
      → find_attempt db' i n ≡ find_attempt db i n
  unfolding find_attempt insert_job
  find_attempt-insert_job r i n e = ground arith

  pub find_dispatch-save_job :
      (r : DurableJob) (i g : ℕ) → find_dispatch (save_job r db) i g ≡ find_dispatch db i g
  unfolding find_dispatch save_job
  find_dispatch-save_job r i g = refl

  pub find_dispatch-insert_job :
      (r : DurableJob) {db' : Db} (i g : ℕ)
      → insert_job r db ≡ ok db'
      → find_dispatch db' i g ≡ find_dispatch db i g
  unfolding find_dispatch insert_job
  find_dispatch-insert_job r i g e = ground arith

  pub find_job-save_attempt :
      (r : JobAttempt) (i : ℕ) → find_job (save_attempt r db) i ≡ find_job db i
  unfolding find_job save_attempt
  find_job-save_attempt r i = refl

  pub find_job-insert_attempt :
      (r : JobAttempt) {db' : Db} (i : ℕ)
      → insert_attempt r db ≡ ok db'
      → find_job db' i ≡ find_job db i
  unfolding find_job insert_attempt
  find_job-insert_attempt r i e = ground arith

  pub find_dispatch-save_attempt :
      (r : JobAttempt) (i g : ℕ) → find_dispatch (save_attempt r db) i g ≡ find_dispatch db i g
  unfolding find_dispatch save_attempt
  find_dispatch-save_attempt r i g = refl

  pub find_dispatch-insert_attempt :
      (r : JobAttempt) {db' : Db} (i g : ℕ)
      → insert_attempt r db ≡ ok db'
      → find_dispatch db' i g ≡ find_dispatch db i g
  unfolding find_dispatch insert_attempt
  find_dispatch-insert_attempt r i g e = ground arith

  pub find_job-save_dispatch :
      (r : TaskDispatch) (i : ℕ) → find_job (save_dispatch r db) i ≡ find_job db i
  unfolding find_job save_dispatch
  find_job-save_dispatch r i = refl

  pub find_job-insert_dispatch :
      (r : TaskDispatch) {db' : Db} (i : ℕ)
      → insert_dispatch r db ≡ ok db'
      → find_job db' i ≡ find_job db i
  unfolding find_job insert_dispatch
  find_job-insert_dispatch r i e = ground arith

  pub find_attempt-save_dispatch :
      (r : TaskDispatch) (i n : ℕ) → find_attempt (save_dispatch r db) i n ≡ find_attempt db i n
  unfolding find_attempt save_dispatch
  find_attempt-save_dispatch r i n = refl

  pub find_attempt-insert_dispatch :
      (r : TaskDispatch) {db' : Db} (i n : ℕ)
      → insert_dispatch r db ≡ ok db'
      → find_attempt db' i n ≡ find_attempt db i n
  unfolding find_attempt insert_dispatch
  find_attempt-insert_dispatch r i n e = ground arith
