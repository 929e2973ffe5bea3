-- ===== src/Jobs/Lifecycle.antt =====
-- Every sequence of the operations of `SqlJobClaimStore`, in any order and by any workers, keeps the
-- database consistent.
use spacerocks_coa.Base.{
  ℕ, ◌≡◌, sym, subst, ap, String, Bool, true, false, ◌&&◌, ◌==◌, Option, some, arith, Result, ok,
  opt_str_eq, inl, inr, ◌⊎◌, Option-cases, Bool-cases,
}
use spacerocks_coa.Db.{Db, DurableJob}
use spacerocks_coa.Db.Access.{find_job, save_job}
use spacerocks_coa.Db.Laws.{find_job-keys, find_job-save_job}
use spacerocks_coa.Db.Frames.{find_attempt-save_job, find_dispatch-save_job}
use spacerocks_coa.Jobs.{
  heartbeat, is_leased, claim, claim_specific, finish_transaction, enqueue_transaction,
}
use spacerocks_coa.Jobs.Models.{JobSpec, JobOutcome, ClaimedJob}
use spacerocks_coa.Jobs.Consistency.{IsValidJob, IsConsistent, Distinct-replace}
use spacerocks_coa.Jobs.Exclusion.{ClaimOutcome, nothing, taken, claim_outcome}
use spacerocks_coa.Jobs.Specific.{
  SpecificOutcome, granted, moved_on, repeated, claim_specific_outcome, specific_answer,
}
use spacerocks_coa.Jobs.Endings.{finish-Ended}
use spacerocks_coa.Jobs.Enqueueing.{IsValidSpec, enqueue-IsConsistent}

heartbeat_split :
    (job_id : ℕ) (worker_id : String) (attempt lease_until now : ℕ) (db : Db)
    → (heartbeat job_id worker_id attempt lease_until now db ≡ (false, db))
      ⊎ ((job : DurableJob) × (find_job db job_id ≡ some job)
          × (is_leased job.state ≡ true)
          × (opt_str_eq job.lease_owner worker_id ≡ true)
          × (job.attempt_count ≡ attempt)
          × (heartbeat job_id worker_id attempt lease_until now db ≡ (
            true,
            save_job (record job { lease_until = some lease_until; updated_at = now }) db,
          )))
unfolding heartbeat
heartbeat_split job_id worker_id attempt lease_until now db =
    elim (Option-cases (find_job db job_id)) [
      | inl p ↦ inl (ground arith)
      | inr (job, p) ↦
          elim (Bool-cases (
            opt_str_eq job.lease_owner worker_id
            && (job.attempt_count == attempt && is_leased job.state))) [
              | inl held ↦ inr (job, p, ground arith, ground arith, ground arith, ground arith)
              | inr other ↦ inl (ground arith)
            ]
    ]

module _ (job : DurableJob) (lease_until now : ℕ) (db : Db) (found : find_job db job.id ≡ some job)
    (held : is_leased job.state ≡ true) (k : IsConsistent db) where
  abbrev extended : DurableJob
  extended = record job { lease_until = some lease_until; updated_at = now }

  extended-IsValidJob : IsValidJob extended
  extended-IsValidJob = ground (arith, k.valid job.id job found)

  -- an extended lease keeps the database consistent
  extended-IsConsistent : IsConsistent (save_job extended db)
  extended-IsConsistent = record {
    distinct = unfold save_job in Distinct-replace extended db.durable_jobs (k.distinct);
    valid =
        λ i j p. ground (arith, find_job-save_job db extended i, k.valid i j, extended-IsValidJob);
    last_attempt = λ i j p pos. ground (
      arith,
      find_job-save_job db extended i,
      found,
      find_attempt-save_job db extended i j.attempt_count,
      k.last_attempt i j,
      k.last_attempt i job,
    );
    no_later_attempt = λ i n j p lt. ground (
      arith,
      find_job-save_job db extended i,
      found,
      find_attempt-save_job db extended i n,
      k.no_later_attempt i n j,
      k.no_later_attempt i n job,
    );
    last_dispatch = λ i j p. ground (
      arith,
      find_job-save_job db extended i,
      found,
      find_dispatch-save_job db extended i j.generation,
      k.last_dispatch i j,
      k.last_dispatch i job,
    );
    no_later_dispatch = λ i g j p lt. ground (
      arith,
      find_job-save_job db extended i,
      found,
      find_dispatch-save_job db extended i g,
      k.no_later_dispatch i g j,
      k.no_later_dispatch i g job,
    );
    attempt_has_job = λ i n p. ground (
      arith,
      find_job-save_job db extended i,
      found,
      find_attempt-save_job db extended i n,
      k.attempt_has_job i n,
    );
    dispatch_has_job = λ i g p. ground (
      arith,
      find_job-save_job db extended i,
      found,
      find_dispatch-save_job db extended i g,
      k.dispatch_has_job i g,
    );
  }

-- One call of the store that commits: a job is enqueued, claimed from the queue or for a task, its
-- lease is extended, or it is finished. Any worker makes any call at any time.
pub data Call (db : Db) : Db → Type 0 where
  enqueued :
      (fresh : ℕ) (spec : JobSpec) (available_at now : ℕ) (created : Bool) (key : Option (ℕ × ℕ))
      {db' : Db}
      → IsValidSpec spec
      → enqueue_transaction fresh spec available_at now db ≡ ok (created, key, db')
      → Call db db'
  claimed_next :
      (locked : DurableJob → Bool) (worker_id : String) (now lease_for : ℕ) (c : Option ClaimedJob)
      {db' : Db}
      → claim locked worker_id now lease_for db ≡ ok (c, db')
      → Call db db'
  claimed_for_task :
      (job_id generation : ℕ) (worker_id : String) (now lease_for : ℕ) (c : Option ClaimedJob)
      {db' : Db}
      → claim_specific (some job_id) generation worker_id now lease_for db ≡ ok (c, db')
      → Call db db'
  beaten :
      (job_id : ℕ) (worker_id : String) (attempt lease_until now : ℕ) (kept : Bool) {db' : Db}
      → heartbeat job_id worker_id attempt lease_until now db ≡ (kept, db')
      → Call db db'
  finished :
      (c : ClaimedJob) (outcome : JobOutcome) (now : ℕ) (retry_at : Option ℕ) (code : Option String)
      (key : Option (ℕ × ℕ)) {db' : Db}
      → finish_transaction c outcome now retry_at code db ≡ ok (key, db')
      → Call db db'

pub data Calls (db : Db) : Db → Type 0 where
  none_yet : Calls db db
  one_more : {db' db'' : Db} → Calls db db' → Call db' db'' → Calls db db''

claim-IsConsistent :
    (locked : DurableJob → Bool) (worker_id : String) (now lease_for : ℕ) (db : Db)
    (r : Result (Option ClaimedJob × Db)) (c : Option ClaimedJob) (db' : Db)
    → IsConsistent db
    → r ≡ ok (c, db')
    → ClaimOutcome locked worker_id now lease_for db r
    → IsConsistent db'
claim-IsConsistent locked worker_id now lease_for db r c db' k e (nothing p _) =
    subst IsConsistent {x = db} (cc) k
claim-IsConsistent locked worker_id now lease_for db r c db' k e (taken job d db'' p _ _ _ _ fine) =
    subst IsConsistent {x = db''} (cc) fine

specific-IsConsistent :
    (job : DurableJob) (generation : ℕ) (worker_id : String) (now lease_for : ℕ) (db : Db)
    (r : Result (Option ClaimedJob × Db)) (c : Option ClaimedJob) (db' : Db)
    → IsConsistent db
    → r ≡ ok (c, db')
    → SpecificOutcome job generation worker_id now lease_for db r
    → IsConsistent db'
specific-IsConsistent job generation worker_id now lease_for db r c db' k e
      (granted d db'' p _ _ fine) =
    subst IsConsistent {x = db''} (cc) fine
specific-IsConsistent job generation worker_id now lease_for db r c db' k e (moved_on p _) =
    subst IsConsistent {x = db} (cc) k
specific-IsConsistent job generation worker_id now lease_for db r c db' k e (repeated code p _) =
    absurd (cc)

task-IsConsistent :
    (job_id generation : ℕ) (worker_id : String) (now lease_for : ℕ) (db : Db)
    (c : Option ClaimedJob) (db' : Db)
    → IsConsistent db
    → claim_specific (some job_id) generation worker_id now lease_for db ≡ ok (c, db')
    → IsConsistent db'
task-IsConsistent job_id generation worker_id now lease_for db c db' k e =
    let (pos, (job, found)) =
      specific_answer job_id generation worker_id now lease_for db (c, db') e in
    let same : job_id ≡ job.id = sym (find_job-keys db job_id job found) in
    specific-IsConsistent job generation worker_id now lease_for db _ c db' k
      (subst (λ i. claim_specific (some i) generation worker_id now lease_for db ≡ ok (c, db')) same
        e)
      (claim_specific_outcome job generation worker_id now lease_for db k
        (subst (λ i. find_job db i ≡ some job) same found) pos)

beat-IsConsistent :
    (job_id : ℕ) (worker_id : String) (attempt lease_until now : ℕ) (db : Db)
    → IsConsistent db
    → IsConsistent (heartbeat job_id worker_id attempt lease_until now db).1
beat-IsConsistent job_id worker_id attempt lease_until now db k =
    elim (heartbeat_split job_id worker_id attempt lease_until now db) [
      | inl same ↦ rw same k
      | inr (job, found, held, _, _, same) ↦ rw same (
          extended-IsConsistent job lease_until now db
            (subst (λ i. find_job db i ≡ some job) (sym (find_job-keys db job_id job found)) found)
            held k)
    ]

Call-IsConsistent : {db db' : Db} → IsConsistent db → Call db db' → IsConsistent db'
Call-IsConsistent k (enqueued fresh spec available_at now created key {db'} v e) =
    enqueue-IsConsistent fresh spec available_at now _ (created, key, db') v k e
Call-IsConsistent {db} k (claimed_next locked worker_id now lease_for c {db'} e) =
    claim-IsConsistent locked worker_id now lease_for db _ c db' k e
      (claim_outcome locked worker_id now lease_for db k)
Call-IsConsistent {db} k (claimed_for_task job_id generation worker_id now lease_for c {db'} e) =
    task-IsConsistent job_id generation worker_id now lease_for db c db' k e
Call-IsConsistent {db} k (beaten job_id worker_id attempt lease_until now kept {db'} e) =
    subst IsConsistent (ap (λ (t : Bool × Db). t.1) e)
      (beat-IsConsistent job_id worker_id attempt lease_until now db k)
Call-IsConsistent {db} k (finished c outcome now retry_at code key {db'} e) =
    (finish-Ended c outcome now retry_at code db key db' k e).consistent

-- Whatever the workers do and in whatever order, the database stays consistent: no attempt count
-- passes its maximum, a job has a lease exactly while it is leased, its last attempt and its current
-- generation are on record, and no later ones are.
pub Calls-IsConsistent : {db db' : Db} → IsConsistent db → Calls db db' → IsConsistent db'
Calls-IsConsistent k none_yet = k
Calls-IsConsistent k (one_more calls call) = Call-IsConsistent (Calls-IsConsistent k calls) call
