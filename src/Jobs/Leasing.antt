-- ===== src/Jobs/Leasing.antt =====
-- A lease keeps the invariant of the tables.
use spacerocks_coa.Base.{ℕ, ◌<◌, ◌≡◌, String, some, arith}
use spacerocks_coa.Db.{Db, DurableJob}
use spacerocks_coa.Db.Access.{find_job}
use spacerocks_coa.Jobs.{held_job}
use spacerocks_coa.Jobs.Models.{ClaimedJob}
use spacerocks_coa.Jobs.Consistency.{IsValidJob, IsConsistent, Distinct-replace}
use spacerocks_coa.Jobs.Effects.{LeaseEffect}

module _ (job : DurableJob) (worker_id : String) (now lease_for : ℕ) (db : Db)
    (found : find_job db job.id ≡ some job) (room : job.attempt_count < job.max_attempts)
    (h : IsConsistent db) where
  held_job-IsValidJob : IsValidJob (held_job job worker_id now lease_for)
  held_job-IsValidJob = ground (arith, h.valid job.id job found)

  pub LeaseEffect-IsConsistent :
      (c : ClaimedJob) (db' : Db)
      → LeaseEffect job worker_id now lease_for db c db'
      → IsConsistent db'
  LeaseEffect-IsConsistent c db' e = record {
    distinct =
        rw (e.jobs)
          (Distinct-replace (held_job job worker_id now lease_for) db.durable_jobs h.distinct);
    valid = λ i j p. ground (arith, e.job_at i, h.valid i j, held_job-IsValidJob);
    last_attempt =
        λ i j p pos. ground (arith, e.job_at i, e.attempt_at i j.attempt_count, h.last_attempt i j);
    no_later_attempt = λ i n j p lt. ground (
      arith,
      found,
      e.job_at i,
      e.attempt_at i n,
      h.no_later_attempt i n j,
      h.no_later_attempt i n job,
    );
    last_dispatch = λ i j p. ground (
      arith,
      found,
      e.job_at i,
      e.dispatch_at i j.generation,
      h.last_dispatch i j,
      h.last_dispatch i job,
    );
    no_later_dispatch = λ i g j p lt. ground (
      arith,
      found,
      e.job_at i,
      e.dispatch_at i g,
      h.no_later_dispatch i g j,
      h.no_later_dispatch i g job,
    );
    attempt_has_job =
        λ i n p. ground (arith, found, e.job_at i, e.attempt_at i n, h.attempt_has_job i n);
    dispatch_has_job =
        λ i g p. ground (arith, e.job_at i, e.dispatch_at i g, h.dispatch_has_job i g);
  }
