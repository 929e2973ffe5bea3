-- ===== src/Jobs/Frames.antt =====
-- A change that keeps the tables of jobs, attempts and dispatches keeps their invariant.
use spacerocks_coa.Base.{ℕ, ◌≡◌, sym, ◌∙◌, arith}
use spacerocks_coa.Db.{Db}
use spacerocks_coa.Db.Access.{find_job, find_attempt, find_dispatch}
use spacerocks_coa.Jobs.Consistency.{IsConsistent}

-- the tables of jobs are the same, so the invariant and the lookups are
pub record SameJobs (a b : Db) : Type 0 where
  pub jobs : b.durable_jobs ≡ a.durable_jobs
  pub attempts : b.job_attempts ≡ a.job_attempts
  pub dispatches : b.task_dispatches ≡ a.task_dispatches

pub SameJobs-find_job : (a b : Db) (i : ℕ) → SameJobs a b → find_job b i ≡ find_job a i
unfolding find_job
SameJobs-find_job a b i s = rw (s.jobs)

SameJobs-find_attempt :
    (a b : Db) (i n : ℕ) → SameJobs a b → find_attempt b i n ≡ find_attempt a i n
unfolding find_attempt
SameJobs-find_attempt a b i n s = rw (s.attempts)

SameJobs-find_dispatch :
    (a b : Db) (i g : ℕ) → SameJobs a b → find_dispatch b i g ≡ find_dispatch a i g
unfolding find_dispatch
SameJobs-find_dispatch a b i g s = rw (s.dispatches)

pub SameJobs-IsConsistent : (a b : Db) → SameJobs a b → IsConsistent a → IsConsistent b
SameJobs-IsConsistent a b s k =
    let job_at = λ (i : ℕ). SameJobs-find_job a b i s in
    let attempt_at = λ (i n : ℕ). SameJobs-find_attempt a b i n s in
    let dispatch_at = λ (i g : ℕ). SameJobs-find_dispatch a b i g s in
    record {
      distinct = rw (s.jobs) (k.distinct);
      valid = λ i j p. k.valid i j (sym (job_at i) ∙ p);
      last_attempt =
          λ i j p pos. ground (arith, job_at i, attempt_at i j.attempt_count, k.last_attempt i j);
      no_later_attempt =
          λ i n j p lt. ground (arith, job_at i, attempt_at i n, k.no_later_attempt i n j);
      last_dispatch =
          λ i j p. ground (arith, job_at i, dispatch_at i j.generation, k.last_dispatch i j);
      no_later_dispatch =
          λ i g j p lt. ground (arith, job_at i, dispatch_at i g, k.no_later_dispatch i g j);
      attempt_has_job = λ i n p. ground (arith, job_at i, attempt_at i n, k.attempt_has_job i n);
      dispatch_has_job = λ i g p. ground (arith, job_at i, dispatch_at i g, k.dispatch_has_job i g);
    }
