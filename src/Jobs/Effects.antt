-- ===== src/Jobs/Effects.antt =====
-- What the transactions of `SqlJobClaimStore` leave in the tables of jobs, attempts and dispatches,
-- as lookups: the form in which the other proofs use them.
use spacerocks_coa.Base.{
  ℕ, ◌+◌, ◌≡◌, ◌∙◌, ◌&&◌, ◌==◌, some, if◌then◌else◌, arith, String, replace, ok,
}
use spacerocks_coa.Db.{Db, DurableJob}
use spacerocks_coa.Db.Access.{
  has_job_id, find_job, find_attempt, find_dispatch, save_job, insert_attempt,
}
use spacerocks_coa.Db.Laws.{overwrite, find_job-save_job, find_attempt-insert_attempt}
use spacerocks_coa.Db.Frames.{
  find_job-insert_attempt, find_dispatch-insert_attempt, find_dispatch-save_job,
  find_attempt-save_job,
}
use spacerocks_coa.Jobs.{held_job, new_attempt, lease}
use spacerocks_coa.Jobs.Models.{ClaimedJob}

module _ (job : DurableJob) (worker_id : String) (now lease_for : ℕ) (db : Db) where
  -- what a lease returns and writes
  pub record LeaseEffect (c : ClaimedJob) (db' : Db) : Type 0 where
    pub id : c.id ≡ job.id
    pub attempt : c.attempt ≡ job.attempt_count + 1
    pub lease_owner : c.lease_owner ≡ worker_id
    pub lease_until : c.lease_until ≡ now + lease_for
    pub job_at :
        (i : ℕ)
        → find_job db' i ≡ (
            if job.id == i
            then overwrite (find_job db i) (held_job job worker_id now lease_for)
            else find_job db i)
    pub attempt_at :
        (i n : ℕ)
        → find_attempt db' i n ≡ (
            if job.id == i && (job.attempt_count + 1) == n
            then some (new_attempt (held_job job worker_id now lease_for) worker_id now)
            else find_attempt db i n)
    pub dispatch_at : (i g : ℕ) → find_dispatch db' i g ≡ find_dispatch db i g
    pub jobs :
        db'.durable_jobs
        ≡ replace (has_job_id job.id) (held_job job worker_id now lease_for) db.durable_jobs

  pub lease_inversion :
      {c : ClaimedJob} {db' : Db}
      → lease job worker_id now lease_for db ≡ ok (c, db')
      → (insert_attempt
            (new_attempt (held_job job worker_id now lease_for) worker_id now)
            (save_job (held_job job worker_id now lease_for) db)
          ≡ ok db')
        × (c.id ≡ job.id)
        × (c.attempt ≡ job.attempt_count + 1)
        × (c.lease_owner ≡ worker_id)
        × (c.lease_until ≡ now + lease_for)
  unfolding lease
  lease_inversion e = ground arith

  lease_jobs :
      {c : ClaimedJob} {db' : Db}
      → lease job worker_id now lease_for db ≡ ok (c, db')
      → db'.durable_jobs
        ≡ replace (has_job_id job.id) (held_job job worker_id now lease_for) db.durable_jobs
  unfolding lease insert_attempt save_job
  lease_jobs e = ground arith

  pub lease_effect :
      {c : ClaimedJob} {db' : Db}
      → lease job worker_id now lease_for db ≡ ok (c, db')
      → LeaseEffect c db'
  lease_effect e =
      let held = held_job job worker_id now lease_for in
      let saved = save_job held db in
      let row = new_attempt held worker_id now in
      let (added, id, attempt, lease_owner, lease_until) = lease_inversion e in
      record {
        id = id;
        attempt = attempt;
        lease_owner = lease_owner;
        lease_until = lease_until;
        job_at = λ i. find_job-insert_attempt saved row i added ∙ find_job-save_job db held i;
        attempt_at = λ i n.
            rw (← find_attempt-save_job db held i n)
              (find_attempt-insert_attempt saved row i n added);
        dispatch_at = λ i g.
            find_dispatch-insert_attempt saved row i g added ∙ find_dispatch-save_job db held i g;
        jobs = lease_jobs e;
      }
