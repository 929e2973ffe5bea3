-- ===== src/Jobs/Specific.antt =====
-- `claim_specific`: what a task may claim.
use spacerocks_coa.Base.{
  ℕ, ◌≤◌, ◌<◌, ◌≡◌, ◌≢◌, sym, subst, ◌∙◌, String, true, false, ◌==◌, ltb, leb, Option, none, some,
  arith, Result, ok, err, is_some, inl, inr, ◌⊎◌, specific_job_retryable, Option-cases, Bool-cases,
}
use spacerocks_coa.Db.{Db, DurableJob}
use spacerocks_coa.Db.Access.{find_job, find_dispatch}
use spacerocks_coa.Tasks.Recovery.{is_open, lease_free}
use spacerocks_coa.Jobs.{is_claimable, claimed, claim_found, claim_specific, lease}
use spacerocks_coa.Jobs.Models.{ClaimedJob}
use spacerocks_coa.Jobs.Consistency.{IsConsistent}
use spacerocks_coa.Jobs.Effects.{LeaseEffect, lease_effect}
use spacerocks_coa.Jobs.Leasing.{LeaseEffect-IsConsistent}
use spacerocks_coa.Jobs.Claiming.{claimable_parts, lease_total}

module _ (job : DurableJob) (generation : ℕ) (worker_id : String) (now lease_for : ℕ)
    (db : Db) where
  -- the task is the one that the job waits for
  abbrev pub IsAwaited : Type 0
  IsAwaited =
      (is_some (find_dispatch db job.id generation) ≡ true)
      × (job.generation ≡ generation)
      × (is_claimable now job ≡ true)

  -- the task was recorded, names the generation of the job, and the job is open
  abbrev pub IsCurrent : Type 0
  IsCurrent =
      (is_some (find_dispatch db job.id generation) ≡ true)
      × (job.generation ≡ generation)
      × (is_open job.state ≡ true)

  -- why a task that was recorded gets nothing
  pub data HasMovedOn : Type 0 where
    superseded :
        is_some (find_dispatch db job.id generation) ≡ true
        → job.generation ≢ generation
        → HasMovedOn
    ended :
        is_some (find_dispatch db job.id generation) ≡ true
        → job.generation ≡ generation
        → is_open job.state ≡ false
        → HasMovedOn
    spent :
        IsCurrent
        → job.available_at ≤ now
        → lease_free job.lease_until now ≡ true
        → job.max_attempts ≤ job.attempt_count
        → HasMovedOn

  -- why a task comes too early, with the code that says so
  pub data IsEarly : String → Type 0 where
    not_committed :
        is_some (find_dispatch db job.id generation) ≡ false
        → IsEarly "specific_dispatch_not_committed"
    not_due : IsCurrent → now < job.available_at → IsEarly "specific_job_not_due"
    lease_active :
        IsCurrent
        → job.available_at ≤ now
        → lease_free job.lease_until now ≡ false
        → IsEarly "specific_job_lease_active"

  -- What a task may get: the lease that it was sent for; nothing, where the job has moved on; or an
  -- exception after which the task is repeated, where the claim is too early.
  pub data SpecificOutcome (r : Result (Option ClaimedJob × Db)) : Type 0 where
    granted :
        (c : ClaimedJob) (db' : Db)
        → r ≡ ok (some c, db')
        → IsAwaited
        → LeaseEffect job worker_id now lease_for db c db'
        → IsConsistent db'
        → SpecificOutcome r
    moved_on : r ≡ ok (none, db) → HasMovedOn → SpecificOutcome r
    repeated :
        (code : String) → r ≡ err (specific_job_retryable code) → IsEarly code → SpecificOutcome r

  abbrev answer : Result (Option ClaimedJob × Db)
  answer = claim_found job generation worker_id now lease_for db

  -- what the tests of `claim_found` decide
  abbrev Decided : Type 0
  Decided =
      (IsAwaited × (answer ≡ claimed (lease job worker_id now lease_for db)))
      ⊎ (((answer ≡ ok (none, db)) × HasMovedOn)
          ⊎ ((code : String) × (answer ≡ err (specific_job_retryable code)) × IsEarly code))

  decide : Decided
  unfolding claim_found is_claimable
  decide = elim (Bool-cases (is_some (find_dispatch db job.id generation))) [
    | inr absent ↦ inr (inr ("specific_dispatch_not_committed", ground arith, not_committed absent))
    | inl sent ↦ elim (Bool-cases (job.generation == generation)) [
      | inr other ↦ inr (inl (ground arith, superseded sent (ground arith)))
      | inl same ↦ elim (Bool-cases (is_open job.state)) [
        | inr closed ↦ inr (inl (ground arith, ended sent (ground arith) closed))
        | inl opened ↦
            let current : IsCurrent = (sent, ground arith, opened) in
            elim (Bool-cases (ltb now job.available_at)) [
              | inl early ↦
                  inr (inr ("specific_job_not_due", ground arith, not_due current (ground arith)))
              | inr due ↦ elim (Bool-cases (lease_free job.lease_until now)) [
                | inr held ↦ inr (
                    inr (
                      "specific_job_lease_active",
                      ground arith,
                      lease_active current (ground arith) held,
                    ))
                | inl free ↦ elim (Bool-cases (leb job.max_attempts job.attempt_count)) [
                  | inl none_left ↦
                      inr (inl (ground arith, spent current (ground arith) free (ground arith)))
                  | inr room ↦ inl ((sent, ground arith, ground arith), ground arith)
                ]
              ]
            ]
      ]
    ]
  ]

  claimed_ok :
      (c : ClaimedJob) (db' : Db) (x : Result (ClaimedJob × Db))
      → x ≡ ok (c, db')
      → claimed x ≡ ok (some c, db')
  unfolding claimed
  claimed_ok c db' x e = ground arith

  outcome_of : find_job db job.id ≡ some job → IsConsistent db → Decided → SpecificOutcome answer
  outcome_of found k (inl (awaited, e)) =
      let room : job.attempt_count < job.max_attempts = (claimable_parts now job (awaited.2)).3 in
      let ((c, db'), p) = lease_total job worker_id now lease_for db found room k in
      let effect = lease_effect job worker_id now lease_for db p in
      granted c db' (e ∙ claimed_ok c db' (lease job worker_id now lease_for db) p) awaited effect
        (LeaseEffect-IsConsistent job worker_id now lease_for db found room k c db' effect)
  outcome_of found k (inr (inl (e, why))) = moved_on e why
  outcome_of found k (inr (inr (code, e, why))) = repeated code e why

specific_found :
    (job : DurableJob) (generation : ℕ) (worker_id : String) (now lease_for : ℕ) (db : Db)
    → find_job db job.id ≡ some job
    → 1 ≤ generation
    → claim_specific (some job.id) generation worker_id now lease_for db
      ≡ claim_found job generation worker_id now lease_for db
unfolding claim_specific
specific_found job generation worker_id now lease_for db found pos = ground (arith, found)

-- A task for a generation of an existing job gets one of three answers. It leases the job where the
-- task was recorded, names the job's generation and the job is claimable. It gets nothing where it
-- was recorded and the job has another generation; or has this one and has ended, whatever its due
-- time and its lease; or is open, due and free and has no attempt left. It is told to come again
-- where its record is not yet committed; or names the generation of an open job that is not due, or
-- is due and leased. The database changes only with a lease, and stays consistent.
pub claim_specific_outcome :
    (job : DurableJob) (generation : ℕ) (worker_id : String) (now lease_for : ℕ) (db : Db)
    → IsConsistent db
    → find_job db job.id ≡ some job
    → 1 ≤ generation
    → SpecificOutcome job generation worker_id now lease_for db
        (claim_specific (some job.id) generation worker_id now lease_for db)
claim_specific_outcome job generation worker_id now lease_for db k found pos =
    subst (SpecificOutcome job generation worker_id now lease_for db)
      (sym (specific_found job generation worker_id now lease_for db found pos))
      (outcome_of job generation worker_id now lease_for db found k
        (decide job generation worker_id now lease_for db))

-- a task that gets an answer names a generation and a job that exists
pub specific_answer :
    (job_id generation : ℕ) (worker_id : String) (now lease_for : ℕ) (db : Db)
    (r : Option ClaimedJob × Db)
    → claim_specific (some job_id) generation worker_id now lease_for db ≡ ok r
    → (1 ≤ generation) × ((job : DurableJob) × (find_job db job_id ≡ some job))
unfolding claim_specific
specific_answer job_id generation worker_id now lease_for db r e =
    elim (Option-cases (find_job db job_id)) [
      | inl p ↦ absurd (ground arith)
      | inr (job, p) ↦ (ground arith, (job, p))
    ]
