-- ===== src/Jobs/Exclusion.antt =====
-- One holder at a time: what a claim returns, that nobody claims a leased job before its lease ends,
-- and that a holder whose job was claimed again can neither extend nor finish it.
use spacerocks_coa.Base.{
  ℕ, ◌+◌, ◌≤◌, ◌<◌, ◌≡◌, ◌≢◌, subst, String, Bool, true, false, Option, none, some, arith, Result,
  ok, err, value_error, Option-cases, inl, inr,
}
use spacerocks_coa.Db.{Db, DurableJob}
use spacerocks_coa.Db.Access.{find_job}
use spacerocks_coa.Jobs.{
  is_claimable, due_before, claim_query, lease, held_job, claim, claim_found, claim_specific,
  heartbeat, finish_transaction,
}
use spacerocks_coa.Jobs.Models.{ClaimedJob, JobOutcome}
use spacerocks_coa.Jobs.Consistency.{IsConsistent, IsRow-find_job}
use spacerocks_coa.Jobs.Effects.{LeaseEffect, lease_effect}
use spacerocks_coa.Jobs.Leasing.{LeaseEffect-IsConsistent}
use spacerocks_coa.Jobs.Claiming.{
  IsCandidate, claim_query-some, claim_query-none, claimable_parts, lease_total,
}

module _ (locked : DurableJob → Bool) (worker_id : String) (now lease_for : ℕ) (db : Db) where
  -- What a claim may return: nothing, where no row is a candidate, with the database as it was; or
  -- a lease of a candidate that has no candidate due before it.
  pub data ClaimOutcome (r : Result (Option ClaimedJob × Db)) : Type 0 where
    nothing :
        r ≡ ok (none, db) → ((j : DurableJob) → ¬ IsCandidate locked now db j) → ClaimOutcome r
    taken :
        (job : DurableJob) (c : ClaimedJob) (db' : Db)
        → r ≡ ok (some c, db')
        → IsCandidate locked now db job
        → ((j : DurableJob) → IsCandidate locked now db j → due_before j job ≡ false)
        → find_job db job.id ≡ some job
        → LeaseEffect job worker_id now lease_for db c db'
        → IsConsistent db'
        → ClaimOutcome r

  claim_empty :
      claim_query locked now db ≡ none → claim locked worker_id now lease_for db ≡ ok (none, db)
  unfolding claim
  claim_empty e = ground arith

  claim_leased :
      (job : DurableJob) (c : ClaimedJob) (db' : Db)
      → claim_query locked now db ≡ some job
      → lease job worker_id now lease_for db ≡ ok (c, db')
      → claim locked worker_id now lease_for db ≡ ok (some c, db')
  unfolding claim
  claim_leased job c db' e p = ground arith

  claim-some :
      (job : DurableJob)
      → IsConsistent db
      → claim_query locked now db ≡ some job
      → ClaimOutcome (claim locked worker_id now lease_for db)
  claim-some job h e =
      let (candidate, earliest) = claim_query-some locked now db job e in
      let found = IsRow-find_job db job h.distinct candidate.0 in
      let room = (claimable_parts now job candidate.1).3 in
      let ((c, db'), p) = lease_total job worker_id now lease_for db found room h in
      let effect = lease_effect job worker_id now lease_for db p in
      taken job c db' (claim_leased job c db' e p) candidate earliest found effect
        (LeaseEffect-IsConsistent job worker_id now lease_for db found room h c db' effect)

  -- On a consistent database a claim never raises. It returns nothing and changes nothing where no
  -- unlocked job is claimable; otherwise it leases a claimable job that no other comes before, and
  -- leaves the database consistent.
  pub claim_outcome : IsConsistent db → ClaimOutcome (claim locked worker_id now lease_for db)
  claim_outcome h = elim (Option-cases (claim_query locked now db)) [
    | inl e ↦ nothing (claim_empty e) (λ j. claim_query-none locked now db j e)
    | inr (job, e) ↦ claim-some job h e
  ]

-- A row that a lease has written is not claimable before the lease has ended.
held_job_not_claimable :
    (job : DurableJob) (worker_id : String) (now lease_for later : ℕ)
    → later ≤ now + lease_for
    → is_claimable later (held_job job worker_id now lease_for) ≡ false
unfolding is_claimable
held_job_not_claimable job worker_id now lease_for later h = ground arith

module _ (locked : DurableJob → Bool) (worker_id : String) (now lease_for : ℕ) (db : Db)
    (h : IsConsistent db) (c : ClaimedJob) (db' : Db)
    (claimed_c : claim locked worker_id now lease_for db ≡ ok (some c, db')) where
  -- the row of the claimed job after the claim
  pub record LeasedRow : Type 0 where
    pub job : DurableJob
    pub found : find_job db job.id ≡ some job
    pub claimable : is_claimable now job ≡ true
    pub room : job.attempt_count < job.max_attempts
    pub row : find_job db' c.id ≡ some (held_job job worker_id now lease_for)
    pub id : c.id ≡ job.id
    pub attempt : c.attempt ≡ job.attempt_count + 1
    pub lease_owner : c.lease_owner ≡ worker_id
    pub lease_until : c.lease_until ≡ now + lease_for
    pub consistent : IsConsistent db'

  leased_row_of :
      ClaimOutcome locked worker_id now lease_for db (claim locked worker_id now lease_for db)
      → LeasedRow
  leased_row_of (nothing e none_due) = cc
  leased_row_of (taken job d db'' e candidate earliest found effect consistent) =
      let id : c.id ≡ job.id = ground (arith, effect.id) in
      let same : db'' ≡ db' = cc in
      record {
        job = job;
        found = found;
        claimable = candidate.1;
        room = (claimable_parts now job (candidate.1)).3;
        row = rw id (rw (← same) (ground (arith, effect.job_at job.id)));
        id = id;
        attempt = ground (arith, effect.attempt);
        lease_owner = ground (arith, effect.lease_owner);
        lease_until = ground (arith, effect.lease_until);
        consistent = subst IsConsistent same consistent;
      }

  pub leased_row : LeasedRow
  leased_row = leased_row_of (claim_outcome locked worker_id now lease_for db h)

module _ (locked : DurableJob → Bool) (worker_id : String) (now lease_for : ℕ) (db : Db)
    (h : IsConsistent db) (c : ClaimedJob) (db' : Db)
    (claimed_c : claim locked worker_id now lease_for db ≡ ok (some c, db')) where
  abbrev first_row : LeasedRow locked worker_id now lease_for db h c db' claimed_c
  first_row = leased_row locked worker_id now lease_for db h c db' claimed_c

  -- After a claim of a job from the queue on a consistent database, the next claim from the queue, by
  -- whatever worker, does not take the same job up to the end of the lease.
  pub exclusive_claim :
      (locked' : DurableJob → Bool) (worker' : String) (later lease' : ℕ) (c' : ClaimedJob)
      (db'' : Db)
      → later ≤ c.lease_until
      → claim locked' worker' later lease' db' ≡ ok (some c', db'')
      → c'.id ≢ c.id
  exclusive_claim locked' worker' later lease' c' db'' within e same =
      let second = leased_row locked' worker' later lease' db' (first_row.consistent) c' db'' e in
      ground (
        arith,
        first_row.row,
        first_row.lease_until,
        second.found,
        second.claimable,
        second.id,
        held_job_not_claimable (first_row.job) worker_id now lease_for later,
      )

  -- After a claim of a job from the queue on a consistent database, a claim for a task of that job does
  -- not get it up to the end of the lease, whatever generation the task names.
  pub exclusive_claim_specific :
      (generation : ℕ) (worker' : String) (later lease' : ℕ) (c' : ClaimedJob) (db'' : Db)
      → later ≤ c.lease_until
      → claim_specific (some c.id) generation worker' later lease' db' ≢ ok (some c', db'')
  unfolding claim_specific claim_found is_claimable
  exclusive_claim_specific generation worker' later lease' c' db'' within e =
      ground (arith, first_row.row, first_row.lease_until)

  -- When a job that was claimed from the queue on a consistent database is claimed from the queue
  -- again, by anybody and also under the same worker's name, the first holder can neither extend its
  -- lease nor finish the job: nothing changes.
  pub superseded_holder :
      (locked' : DurableJob → Bool) (worker' : String) (later lease' : ℕ) (c' : ClaimedJob)
      (db'' : Db)
      → claim locked' worker' later lease' db' ≡ ok (some c', db'')
      → c'.id ≡ c.id
      → ((until at : ℕ) → heartbeat c.id worker_id c.attempt until at db'' ≡ (false, db''))
        × ((outcome : JobOutcome) (at : ℕ) (retry_at : Option ℕ) (code : Option String)
            → finish_transaction c outcome at retry_at code db''
              ≡ err (value_error "job lease is no longer owned by this attempt"))
  unfolding heartbeat finish_transaction
  superseded_holder locked' worker' later lease' c' db'' e same =
      let second = leased_row locked' worker' later lease' db' (first_row.consistent) c' db'' e in
      (
        λ until at.
            ground (arith, first_row.row, first_row.attempt, second.found, second.id, second.row),
        λ outcome at retry_at code.
            ground (arith, first_row.row, first_row.attempt, second.found, second.id, second.row),
      )
