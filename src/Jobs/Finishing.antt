-- ===== src/Jobs/Finishing.antt =====
-- What `finish` of `SqlJobClaimStore` does: how a job ends, and what a retry schedules.
use spacerocks_coa.Base.{
  ℕ, ◌+◌, ◌≡◌, ◌∙◌, String, true, false, ◌&&◌, ◌==◌, Option, some, arith, ok, opt_str_eq,
  if◌then◌else◌, List, inl, inr, Option-cases,
}
use spacerocks_coa.Db.{Db, DurableJob, JobAttempt}
use spacerocks_coa.Db.Access.{find_job, find_attempt, find_dispatch, save_job, save_attempt}
use spacerocks_coa.Db.Laws.{
  find_attempt-keys, overwrite, find_job-save_job, find_attempt-save_attempt,
}
use spacerocks_coa.Db.Frames.{
  find_job-save_attempt, find_attempt-save_job, find_dispatch-save_job, find_dispatch-save_attempt,
}
use spacerocks_coa.Tasks.{new_dispatch}
use spacerocks_coa.Jobs.{
  final_outcome, finished_job, finished_attempt, is_retry, raise_generation, finish_transaction,
}
use spacerocks_coa.Jobs.Models.{ClaimedJob, JobOutcome}
use spacerocks_coa.Jobs.Consistency.{Distinct, Distinct-replace}

-- the row of the job after `finish`
abbrev pub finished_row : DurableJob → JobOutcome → ℕ → Option ℕ → Option String → DurableJob
finished_row stored outcome now retry_at code =
    let job = finished_job stored outcome now retry_at code in
    if is_retry outcome then record job { generation = job.generation + 1 } else job

module _ (c : ClaimedJob) (outcome : JobOutcome) (now : ℕ) (retry_at : Option ℕ)
    (code : Option String) (db : Db) where
  -- what a successful `finish` read: the row of the job, held by the claim, and its last attempt
  pub record Held : Type 0 where
    pub stored : DurableJob
    pub attempt : JobAttempt
    pub found : find_job db c.id ≡ some stored
    pub owned : opt_str_eq stored.lease_owner c.lease_owner ≡ true
    pub current : stored.attempt_count ≡ c.attempt
    pub attempt_found : find_attempt db stored.id stored.attempt_count ≡ some attempt

  -- the state before the generation of the job is raised
  abbrev pub written : Held → Db
  written h =
      let final = final_outcome (h.stored) outcome in
      save_attempt (finished_attempt (h.attempt) final now code)
        (save_job (finished_job (h.stored) final now retry_at code) db)

  -- what a successful `finish` leaves in the tables
  pub record FinishEffect (h : Held) (db' : Db) : Type 0 where
    pub job_at :
        (i : ℕ)
        → find_job db' i ≡ (
            if h.stored.id == i
            then overwrite
                (find_job db i)
                (finished_row (h.stored) (final_outcome (h.stored) outcome) now retry_at code)
            else find_job db i)
    pub attempt_at :
        (i n : ℕ)
        → find_attempt db' i n ≡ (
            if h.stored.id == i && h.stored.attempt_count == n
            then some (finished_attempt (h.attempt) (final_outcome (h.stored) outcome) now code)
            else find_attempt db i n)
    pub dispatch_at :
        (i g : ℕ)
        → (is_retry (final_outcome (h.stored) outcome)
            && (h.stored.id == i && (h.stored.generation + 1) == g))
          ≡ false
        → find_dispatch db' i g ≡ find_dispatch db i g
    pub scheduled :
        is_retry (final_outcome (h.stored) outcome) ≡ true
        → (at : ℕ) × (name : List ℕ) × (retry_at ≡ some at)
          × (find_dispatch db' (h.stored.id) (h.stored.generation + 1)
              ≡ some (
                  new_dispatch
                    (finished_row (h.stored) (final_outcome (h.stored) outcome) now retry_at code)
                    name
                    at
                    now))
    pub distinct : Distinct db.durable_jobs → Distinct db'.durable_jobs

  pub finish_inversion :
      {key : Option (ℕ × ℕ)} {db' : Db}
      → finish_transaction c outcome now retry_at code db ≡ ok (key, db')
      → (h : Held) × (raise_generation
            (final_outcome (h.stored) outcome)
            (finished_job (h.stored) (final_outcome (h.stored) outcome) now retry_at code)
            retry_at
            now
            (written h)
          ≡ ok (key, db'))
  unfolding finish_transaction
  finish_inversion e = elim (Option-cases (find_job db c.id)) [
    | inl p ↦ absurd (ground arith)
    | inr (stored, p) ↦ elim (Option-cases (find_attempt db stored.id stored.attempt_count)) [
      | inl q ↦ absurd (ground arith)
      | inr (attempt, q) ↦ (
        record {
          stored = stored;
          attempt = attempt;
          found = p;
          owned = ground arith;
          current = ground arith;
          attempt_found = q;
        },
        ground arith,
      )
    ]
  ]

  pub written_job :
      (h : Held) (i : ℕ)
      → find_job (written h) i ≡ (
          if h.stored.id == i
          then overwrite
              (find_job db i)
              (finished_job (h.stored) (final_outcome (h.stored) outcome) now retry_at code)
          else find_job db i)
  unfolding finished_job
  written_job h i =
      let job = finished_job (h.stored) (final_outcome (h.stored) outcome) now retry_at code in
      let row = finished_attempt (h.attempt) (final_outcome (h.stored) outcome) now code in
      find_job-save_attempt (save_job job db) row i ∙ find_job-save_job db job i

  pub written_attempt :
      (h : Held) (i n : ℕ)
      → find_attempt (written h) i n ≡ (
          if h.stored.id == i && h.stored.attempt_count == n
          then some (finished_attempt (h.attempt) (final_outcome (h.stored) outcome) now code)
          else find_attempt db i n)
  written_attempt h i n =
      let job = finished_job (h.stored) (final_outcome (h.stored) outcome) now retry_at code in
      let row = finished_attempt (h.attempt) (final_outcome (h.stored) outcome) now code in
      ground (
        arith,
        h.attempt_found,
        find_attempt-keys db (h.stored.id) (h.stored.attempt_count) (h.attempt) (h.attempt_found),
        find_attempt-save_attempt (save_job job db) row i n,
        find_attempt-save_job db job i n,
      )

  pub written_dispatch : (h : Held) (i g : ℕ) → find_dispatch (written h) i g ≡ find_dispatch db i g
  written_dispatch h i g =
      let job = finished_job (h.stored) (final_outcome (h.stored) outcome) now retry_at code in
      let row = finished_attempt (h.attempt) (final_outcome (h.stored) outcome) now code in
      find_dispatch-save_attempt (save_job job db) row i g ∙ find_dispatch-save_job db job i g

  pub written-Distinct : (h : Held) → Distinct db.durable_jobs → Distinct (written h).durable_jobs
  unfolding save_job save_attempt
  written-Distinct h =
      Distinct-replace
        (finished_job (h.stored) (final_outcome (h.stored) outcome) now retry_at code)
        db.durable_jobs
