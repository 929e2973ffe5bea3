-- ===== src/Jobs/Claiming.antt =====
-- Which job a claim takes, that it never fails on a consistent database, and that it keeps the
-- database consistent.
use spacerocks_coa.Base.{
  ℕ, ◌+◌, ◌≤◌, ◌<◌, ◌≡◌, String, Bool, true, false, not, ◌&&◌, none, some, arith, ok, err, Exn,
  ok_of_no_error, select, order_by,
}
use spacerocks_coa.Base.Ordering.{
  IsRow, IsRow-select, select-IsRow, IsRow-order_by, order_by-IsRow, IsRow-first, first-none,
  first-order_by,
}
use spacerocks_coa.Db.{Db, DurableJob}
use spacerocks_coa.Db.Access.{find_job, insert_attempt}
use spacerocks_coa.Db.Frames.{find_attempt-save_job}
use spacerocks_coa.Jobs.{is_claimable, due_before, claim_query, lease, held_job}
use spacerocks_coa.Tasks.Recovery.{is_open, lease_free}
use spacerocks_coa.Jobs.Models.{ClaimedJob, job_spec}
use spacerocks_coa.Jobs.Consistency.{IsConsistent}

due_before_asym : (a b : DurableJob) → due_before a b ≡ true → due_before b a ≡ false
unfolding due_before
due_before_asym a b h = ground arith

due_before_chain :
    (a b c : DurableJob) → due_before b a ≡ false → due_before c b ≡ false → due_before c a ≡ false
unfolding due_before
due_before_chain a b c h k = ground arith

module _ (locked : DurableJob → Bool) (now : ℕ) (db : Db) where
  -- the row is one that the query may return
  abbrev pub IsCandidate : DurableJob → Type 0
  IsCandidate j = IsRow j db.durable_jobs × (is_claimable now j ≡ true) × (locked j ≡ false)

  abbrev due : DurableJob → Bool
  due j = is_claimable now j && not (locked j)

  IsCandidate-select : (j : DurableJob) → IsRow j (select due db.durable_jobs) → IsCandidate j
  IsCandidate-select j r = ground (arith, IsRow-select due db.durable_jobs j r)

  select-IsCandidate :
      (j : DurableJob) → IsCandidate j → IsRow j (order_by due_before (select due db.durable_jobs))
  select-IsCandidate j c =
      order_by-IsRow due_before (select due db.durable_jobs) j
        (select-IsRow due db.durable_jobs j (c.0) (ground arith))

  pub claim_query-some :
      (job : DurableJob)
      → claim_query locked now db ≡ some job
      → IsCandidate job × ((j : DurableJob) → IsCandidate j → due_before j job ≡ false)
  unfolding claim_query
  claim_query-some job e = (
    IsCandidate-select job
        (IsRow-order_by due_before (select due db.durable_jobs) job (IsRow-first _ job e)),
    λ j c.
        first-order_by due_before due_before_asym due_before_chain (select due db.durable_jobs) job
          j e (select-IsRow due db.durable_jobs j (c.0) (ground arith)),
  )

  pub claim_query-none : (j : DurableJob) → claim_query locked now db ≡ none → ¬ IsCandidate j
  unfolding claim_query
  claim_query-none j e c =
      first-none (order_by due_before (select due db.durable_jobs)) j e (select-IsCandidate j c)

pub claimable_parts :
    (now : ℕ) (j : DurableJob)
    → is_claimable now j ≡ true
    → (is_open j.state ≡ true)
      × (j.available_at ≤ now)
      × (lease_free j.lease_until now ≡ true)
      × (j.attempt_count < j.max_attempts)
unfolding is_claimable
claimable_parts now j e = ground arith

module _ (job : DurableJob) (worker_id : String) (now lease_for : ℕ) (db : Db)
    (found : find_job db job.id ≡ some job) (room : job.attempt_count < job.max_attempts)
    (h : IsConsistent db) where
  lease_no_error : (e : Exn) → lease job worker_id now lease_for db ≡ err e → ⊥
  unfolding lease insert_attempt job_spec
  lease_no_error e p = ground (
    arith,
    h.valid job.id job found,
    find_attempt-save_job db (held_job job worker_id now lease_for) job.id (job.attempt_count + 1),
    h.no_later_attempt job.id (job.attempt_count + 1) job found,
  )

  -- A lease of a job with an attempt left succeeds on a consistent database.
  pub lease_total : (r : ClaimedJob × Db) × (lease job worker_id now lease_for db ≡ ok r)
  lease_total = ok_of_no_error (lease job worker_id now lease_for db) lease_no_error
