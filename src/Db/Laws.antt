-- ===== src/Db/Laws.antt =====
-- What a read finds after a write or an insert, for the tables of jobs, attempts and dispatches.
use spacerocks_coa.Base.{
  ℕ, ◌≡◌, ◌&&◌, ◌==◌, Option, none, some, List, [], ◌∷◌, if◌then◌else◌, arith, find, replace,
  find-append, find-test, ok,
}
use spacerocks_coa.Db.{Db, DurableJob, TaskDispatch, JobAttempt}
use spacerocks_coa.Db.Access.{
  has_job_id, has_attempt, has_dispatch, find_job, find_attempt, find_dispatch, save_job,
  save_attempt, save_dispatch, insert_job, insert_attempt, insert_dispatch,
}

-- a row that was found has new values, and one that was not found is not added
abbrev pub overwrite : {A : Type 0} → Option A → A → Option A
overwrite none a = none
overwrite (some _) a = some a

pub find_job-replace :
    (j : DurableJob) (i : ℕ) (jobs : List DurableJob)
    → find (has_job_id i) (replace (has_job_id j.id) j jobs)
      ≡ (if j.id == i then overwrite (find (has_job_id i) jobs) j else find (has_job_id i) jobs)
unfolding find replace
find_job-replace j i [] = ground arith
find_job-replace j i (x ∷ xs) = ground (arith, find_job-replace j i xs)

find_attempt-replace :
    (a : JobAttempt) (i n : ℕ) (rows : List JobAttempt)
    → find (has_attempt i n) (replace (has_attempt a.job_id a.attempt_number) a rows) ≡ (
        if a.job_id == i && a.attempt_number == n
        then overwrite (find (has_attempt i n) rows) a
        else find (has_attempt i n) rows)
unfolding find replace
find_attempt-replace a i n [] = ground arith
find_attempt-replace a i n (x ∷ xs) = ground (arith, find_attempt-replace a i n xs)

find_dispatch-replace :
    (d : TaskDispatch) (i g : ℕ) (rows : List TaskDispatch)
    → find (has_dispatch i g) (replace (has_dispatch d.job_id d.generation) d rows) ≡ (
        if d.job_id == i && d.generation == g
        then overwrite (find (has_dispatch i g) rows) d
        else find (has_dispatch i g) rows)
unfolding find replace
find_dispatch-replace d i g [] = ground arith
find_dispatch-replace d i g (x ∷ xs) = ground (arith, find_dispatch-replace d i g xs)

module _ (db : Db) where
  pub find_job-save_job :
      (j : DurableJob) (i : ℕ)
      → find_job (save_job j db) i
        ≡ (if j.id == i then overwrite (find_job db i) j else find_job db i)
  unfolding find_job save_job
  find_job-save_job j i = find_job-replace j i db.durable_jobs

  pub find_attempt-save_attempt :
      (a : JobAttempt) (i n : ℕ)
      → find_attempt (save_attempt a db) i n ≡ (
          if a.job_id == i && a.attempt_number == n
          then overwrite (find_attempt db i n) a
          else find_attempt db i n)
  unfolding find_attempt save_attempt
  find_attempt-save_attempt a i n = find_attempt-replace a i n db.job_attempts

  pub find_dispatch-save_dispatch :
      (d : TaskDispatch) (i g : ℕ)
      → find_dispatch (save_dispatch d db) i g ≡ (
          if d.job_id == i && d.generation == g
          then overwrite (find_dispatch db i g) d
          else find_dispatch db i g)
  unfolding find_dispatch save_dispatch
  find_dispatch-save_dispatch d i g = find_dispatch-replace d i g db.task_dispatches

  pub find_job-insert_job :
      (j : DurableJob) {db' : Db} (i : ℕ)
      → insert_job j db ≡ ok db'
      → find_job db' i ≡ (if j.id == i then some j else find_job db i)
  unfolding find_job insert_job find
  find_job-insert_job j i e = ground (arith, find-append (has_job_id i) db.durable_jobs (j ∷ []))

  pub find_attempt-insert_attempt :
      (a : JobAttempt) {db' : Db} (i n : ℕ)
      → insert_attempt a db ≡ ok db'
      → find_attempt db' i n
        ≡ (if a.job_id == i && a.attempt_number == n then some a else find_attempt db i n)
  unfolding find_attempt insert_attempt find
  find_attempt-insert_attempt a i n e =
      ground (arith, find-append (has_attempt i n) db.job_attempts (a ∷ []))

  pub find_dispatch-insert_dispatch :
      (d : TaskDispatch) {db' : Db} (i g : ℕ)
      → insert_dispatch d db ≡ ok db'
      → find_dispatch db' i g
        ≡ (if d.job_id == i && d.generation == g then some d else find_dispatch db i g)
  unfolding find_dispatch insert_dispatch find
  find_dispatch-insert_dispatch d i g e =
      ground (arith, find-append (has_dispatch i g) db.task_dispatches (d ∷ []))

-- a row that is found has the keys of the search
pub find_attempt-keys :
    (db : Db) (i n : ℕ) (a : JobAttempt)
    → find_attempt db i n ≡ some a
    → (a.job_id ≡ i) × (a.attempt_number ≡ n)
unfolding find_attempt
find_attempt-keys db i n a e = ground (arith, find-test (has_attempt i n) db.job_attempts a e)

pub find_job-keys : (db : Db) (i : ℕ) (j : DurableJob) → find_job db i ≡ some j → j.id ≡ i
unfolding find_job
find_job-keys db i j e = ground (arith, find-test (has_job_id i) db.durable_jobs j e)
