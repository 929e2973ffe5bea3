-- ===== src/Jobs/Endings.antt =====
-- How a job ends: every effect of a successful `finish` on the tables, and what that gives.
use spacerocks_coa.Base.{
  ℕ, ◌+◌, ◌≡◌, refl, ◌∙◌, sym, false≢true, subst, String, true, false, Option, none, some, arith,
  ok, if◌then◌else◌, List, ◌⊎◌, inl, inr,
}
use spacerocks_coa.Db.{Db, DurableJob}
use spacerocks_coa.Db.Access.{find_job, find_dispatch, save_job}
use spacerocks_coa.Db.Laws.{find_job-keys, find_job-save_job}
use spacerocks_coa.Db.Frames.{find_attempt-save_job, find_dispatch-save_job}
use spacerocks_coa.Tasks.{add_task_dispatch, new_dispatch}
use spacerocks_coa.Tasks.Effects.{DispatchAdded, add_task_dispatch_effect}
use spacerocks_coa.Jobs.{
  final_outcome, finished_job, is_retry, raise_generation, finish_transaction,
}
use spacerocks_coa.Jobs.Models.{ClaimedJob, JobOutcome, outcome_state}
use spacerocks_coa.Jobs.Consistency.{IsValidJob, IsConsistent, Distinct, Distinct-replace}
use spacerocks_coa.Jobs.Finishing.{
  finished_row, Held, written, FinishEffect, finish_inversion, written_job, written_attempt,
  written_dispatch, written-Distinct,
}

-- The two ways in which `raise_generation` succeeds.
abbrev again : DurableJob → DurableJob
again job = record job { generation = job.generation + 1 }

raise_split :
    (outcome : JobOutcome) (job : DurableJob) (retry_at : Option ℕ) (now : ℕ) (db : Db)
    (key : Option (ℕ × ℕ)) (db' : Db)
    → raise_generation outcome job retry_at now db ≡ ok (key, db')
    → ((is_retry outcome ≡ false) × (key ≡ none) × (db' ≡ db))
      ⊎ ((is_retry outcome ≡ true)
          × ((at : ℕ) × (retry_at ≡ some at)
              × (key ≡ some (job.id, job.generation + 1))
              × (add_task_dispatch (again job) at now (save_job (again job) db) ≡ ok db')))
unfolding raise_generation
raise_split JobOutcome.retry job none now db key db' e = cc
raise_split JobOutcome.retry job (some at) now db key db' e =
    inr (refl, (at, refl, ground arith, ground arith))
raise_split JobOutcome.complete job retry_at now db key db' e =
    inl (refl, ground arith, ground arith)
raise_split JobOutcome.manual_review job retry_at now db key db' e =
    inl (refl, ground arith, ground arith)
raise_split JobOutcome.dead_letter job retry_at now db key db' e =
    inl (refl, ground arith, ground arith)

saved-Distinct :
    (j : DurableJob) (db : Db) → Distinct db.durable_jobs → Distinct (save_job j db).durable_jobs
unfolding save_job
saved-Distinct j db = Distinct-replace j db.durable_jobs

module _ (c : ClaimedJob) (outcome : JobOutcome) (now : ℕ) (retry_at : Option ℕ)
    (code : Option String) (db : Db) where
  abbrev Holder : Type 0
  Holder = Held c outcome now retry_at code db

  abbrev result_row : Holder → DurableJob
  result_row h = finished_job (h.stored) (final_outcome (h.stored) outcome) now retry_at code

  no_retry_effect :
      (h : Holder)
      → is_retry (final_outcome (h.stored) outcome) ≡ false
      → FinishEffect c outcome now retry_at code db h (written c outcome now retry_at code db h)
  no_retry_effect h e = record {
    job_at = λ i. ground (arith, written_job c outcome now retry_at code db h i);
    attempt_at = written_attempt c outcome now retry_at code db h;
    dispatch_at = λ i g _. written_dispatch c outcome now retry_at code db h i g;
    scheduled = λ r. absurd (false≢true (sym e ∙ r));
    distinct = written-Distinct c outcome now retry_at code db h;
  }

  retry_effect :
      (h : Holder) (at : ℕ) (db' : Db)
      → is_retry (final_outcome (h.stored) outcome) ≡ true
      → retry_at ≡ some at
      → DispatchAdded
          (again (result_row h))
          at
          now
          (save_job (again (result_row h)) (written c outcome now retry_at code db h))
          db'
      → FinishEffect c outcome now retry_at code db h db'
  unfolding finished_job
  retry_effect h at db' e r d =
      let before = written c outcome now retry_at code db h in
      record {
        job_at = λ i. ground (
          arith,
          d.job_at i,
          find_job-save_job before (again (result_row h)) i,
          written_job c outcome now retry_at code db h i,
        );
        attempt_at = λ i n. ground (
          arith,
          d.attempt_at i n,
          find_attempt-save_job before (again (result_row h)) i n,
          written_attempt c outcome now retry_at code db h i n,
        );
        dispatch_at = λ i g other. ground (
          arith,
          d.dispatch_at i g,
          find_dispatch-save_job before (again (result_row h)) i g,
          written_dispatch c outcome now retry_at code db h i g,
        );
        scheduled = λ _.
            (at, d.name, r, ground (arith, d.dispatch_at (h.stored.id) (h.stored.generation + 1)));
        distinct = λ distinct. rw (d.jobs) (
            saved-Distinct (again (result_row h)) before
              (written-Distinct c outcome now retry_at code db h distinct));
      }

  pub finish_effect :
      (key : Option (ℕ × ℕ)) (db' : Db)
      → finish_transaction c outcome now retry_at code db ≡ ok (key, db')
      → (h : Holder) × FinishEffect c outcome now retry_at code db h db'
        × (key ≡ (
            if is_retry (final_outcome (h.stored) outcome)
            then some (h.stored.id, h.stored.generation + 1)
            else none))
  unfolding finished_job
  finish_effect key db' e =
      let (h, raised) = finish_inversion c outcome now retry_at code db e in
      let before = written c outcome now retry_at code db h in
      elim (raise_split (final_outcome (h.stored) outcome) (result_row h) retry_at now before key
        db' raised) [
          | inl (r, no_key, same) ↦ (
            h,
            subst (FinishEffect c outcome now retry_at code db h) (sym same) (no_retry_effect h r),
            rw r no_key,
          )
          | inr (r, (at, given, new_key, added)) ↦ (
            h,
            retry_effect h at db' r given (
                add_task_dispatch_effect (again (result_row h)) at now
                  (save_job (again (result_row h)) before) db' added),
            rw r new_key,
          )
        ]

  -- the id of the row that was read finds it
  stored_found : (h : Holder) → find_job db (h.stored.id) ≡ some (h.stored)
  stored_found h =
      subst (λ i. find_job db i ≡ some (h.stored))
        (sym (find_job-keys db c.id (h.stored) (h.found))) (h.found)

  finished_row-IsValidJob :
      (h : Holder)
      → IsConsistent db
      → IsValidJob (finished_row (h.stored) (final_outcome (h.stored) outcome) now retry_at code)
  unfolding finished_job final_outcome
  finished_row-IsValidJob h k = ground (arith, k.valid c.id (h.stored) (h.found))

  pub FinishEffect-IsConsistent :
      (h : Holder) (db' : Db)
      → IsConsistent db
      → FinishEffect c outcome now retry_at code db h db'
      → IsConsistent db'
  unfolding finished_job
  FinishEffect-IsConsistent h db' k e =
      let stored = h.stored in
      let found = stored_found h in
      record {
        distinct = e.distinct (k.distinct);
        valid = λ i j p. ground (arith, e.job_at i, k.valid i j, finished_row-IsValidJob h k);
        last_attempt = λ i j p pos.
            ground (arith, e.job_at i, e.attempt_at i j.attempt_count, k.last_attempt i j);
        no_later_attempt = λ i n j p lt. ground (
          arith,
          found,
          e.job_at i,
          e.attempt_at i n,
          k.no_later_attempt i n j,
          k.no_later_attempt i n stored,
        );
        last_dispatch = λ i j p. ground (
          arith,
          found,
          e.job_at i,
          e.dispatch_at i j.generation,
          e.scheduled,
          k.last_dispatch i j,
          k.last_dispatch i stored,
        );
        no_later_dispatch = λ i g j p lt. ground (
          arith,
          found,
          e.job_at i,
          e.dispatch_at i g,
          k.no_later_dispatch i g j,
          k.no_later_dispatch i g stored,
        );
        attempt_has_job =
            λ i n p. ground (arith, found, e.job_at i, e.attempt_at i n, k.attempt_has_job i n);
        dispatch_has_job =
            λ i g p. ground (arith, found, e.job_at i, e.dispatch_at i g, k.dispatch_has_job i g);
      }

  -- the end of a job that `finish` gave it
  pub record Ended (key : Option (ℕ × ℕ)) (db' : Db) : Type 0 where
    pub stored : DurableJob
    pub job : DurableJob
    pub found : find_job db c.id ≡ some stored
    pub ended : find_job db' c.id ≡ some job
    pub state : job.state ≡ outcome_state (final_outcome stored outcome)
    pub no_owner : job.lease_owner ≡ none
    pub no_lease : job.lease_until ≡ none
    pub attempts : job.attempt_count ≡ stored.attempt_count
    -- what is not retried keeps its generation and asks for no task
    pub kept :
        is_retry (final_outcome stored outcome) ≡ false
        → (job.generation ≡ stored.generation) × (key ≡ none)
    -- a retry has a new generation, and a pending task for it at the time that was given
    pub retried :
        is_retry (final_outcome stored outcome) ≡ true
        → (job.generation ≡ stored.generation + 1)
          × (key ≡ some (c.id, job.generation))
          × ((at : ℕ) × (name : List ℕ) × (retry_at ≡ some at)
              × (job.available_at ≡ at)
              × (find_dispatch db' c.id job.generation ≡ some (new_dispatch job name at now)))
    pub consistent : IsConsistent db'

  -- A `finish` that succeeds gives up the lease, puts the outcome into the job, and counts no
  -- attempt; a retry raises the generation by one and has a pending task for it at the given time,
  -- and any other outcome asks for no task. The database stays consistent.
  pub finish-Ended :
      (key : Option (ℕ × ℕ)) (db' : Db)
      → IsConsistent db
      → finish_transaction c outcome now retry_at code db ≡ ok (key, db')
      → Ended key db'
  unfolding finished_job
  finish-Ended key db' k e =
      let (h, effect, asked) = finish_effect key db' e in
      let stored = h.stored in
      let same_id : stored.id ≡ c.id = find_job-keys db c.id stored (h.found) in
      record {
        stored = stored;
        job = finished_row stored (final_outcome stored outcome) now retry_at code;
        found = h.found;
        ended = ground (arith, h.found, same_id, effect.job_at c.id);
        state = ground arith;
        no_owner = ground arith;
        no_lease = ground arith;
        attempts = ground arith;
        kept = λ r. ground (arith, asked);
        retried = λ r.
            let (at, name, given, pending) = effect.scheduled r in
            (
              ground arith,
              ground (arith, asked, same_id),
              (at, name, given, ground (arith, given), ground (arith, pending, same_id)),
            );
        consistent = FinishEffect-IsConsistent h db' k effect;
      }
