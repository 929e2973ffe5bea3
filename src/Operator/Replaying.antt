-- ===== src/Operator/Replaying.antt =====
-- About a job that an operator sends again.
use spacerocks_coa.Base.{
  ℕ, ◌+◌, ◌≤◌, ◌≡◌, refl, sym, subst, ◌∙◌, String, true, false, ◌==◌, none, some, arith, ok,
  is_some, inl, inr, ◌⊎◌, Option-cases, >>=-eq-ok, if◌then◌else◌,
}
use spacerocks_coa.Db.{Db, DurableJob, JobState}
use spacerocks_coa.Db.Access.{find_job, find_dispatch, find_attempt, save_job}
use spacerocks_coa.Db.Laws.{find_job-keys, find_job-save_job}
use spacerocks_coa.Db.Frames.{find_attempt-save_job, find_dispatch-save_job}
use spacerocks_coa.Tasks.{add_task_dispatch}
use spacerocks_coa.Tasks.Effects.{DispatchAdded, add_task_dispatch_effect}
use spacerocks_coa.Jobs.{is_claimable, claim_specific}
use spacerocks_coa.Jobs.Models.{ClaimedJob}
use spacerocks_coa.Jobs.Consistency.{IsValidJob, IsConsistent, Distinct-replace}
use spacerocks_coa.Jobs.Claiming.{claimable_parts}
use spacerocks_coa.Jobs.Specific.{
  claim_specific_outcome, granted, moved_on, repeated, superseded, ended, spent, not_committed,
  not_due, lease_active,
}
use spacerocks_coa.Operator.{
  Replay, terminal_order, dispatch_again, replayed_job, replay_found, replay_transaction,
}

-- a job that waited for its next attempt, and the writes that send it again
pub record SentAgain (now : ℕ) (db : Db) (job : DurableJob) (r : Replay) (db' : Db) : Type 0 where
  pub waited : job.state ≡ JobState.retry
  pub asked : r ≡ dispatch_again job.id (job.generation + 1)
  pub added : DispatchAdded (replayed_job job now) now now (save_job (replayed_job job now) db) db'

found_outcome :
    (state : JobState) (now : ℕ) (db db' : Db) (job : DurableJob) (r : Replay)
    → job.state ≡ state
    → replay_found state job now db ≡ ok (r, db')
    → ((r ≡ terminal_order job.order_id) × (db' ≡ db)) ⊎ SentAgain now db job r db'
unfolding replay_found
found_outcome JobState.manual_review now db db' job r p e = inl (ground arith, ground arith)
found_outcome JobState.dead_letter now db db' job r p e = inl (ground arith, ground arith)
found_outcome JobState.available now db db' job r p e = absurd (ground arith)
found_outcome JobState.leased now db db' job r p e = absurd (ground arith)
found_outcome JobState.complete now db db' job r p e = absurd (ground arith)
found_outcome JobState.retry now db db' job r p e =
    let again = replayed_job job now in
    let (added, q, same) =
      >>=-eq-ok (add_task_dispatch again now now (save_job again db))
        (λ x. ok (dispatch_again job.id (job.generation + 1), x)) e in
    inr (record {
      waited = p;
      asked = ground arith;
      added =
          subst (DispatchAdded again now now (save_job again db)) (ground arith)
            (add_task_dispatch_effect again now now (save_job again db) added q);
    })

-- The two ways in which the transaction of `replay` succeeds.
pub replay_outcome :
    (job_id now : ℕ) (db db' : Db) (r : Replay)
    → replay_transaction (some job_id) now db ≡ ok (r, db')
    → (job : DurableJob) × (find_job db job_id ≡ some job)
      × (((r ≡ terminal_order job.order_id) × (db' ≡ db)) ⊎ SentAgain now db job r db')
unfolding replay_transaction
replay_outcome job_id now db db' r e = elim (Option-cases (find_job db job_id)) [
  | inl p ↦ absurd (ground arith)
  | inr (job, p) ↦ (job, p, found_outcome job.state now db db' job r refl (ground arith))
]

again-IsValidJob : (job : DurableJob) (now : ℕ) → IsValidJob job → IsValidJob (replayed_job job now)
unfolding replayed_job
again-IsValidJob job now v = ground (arith, v)

module _ (now : ℕ) (db db' : Db) (job : DurableJob) (r : Replay)
    (found : find_job db job.id ≡ some job) (s : SentAgain now db job r db') where
  abbrev again : DurableJob
  again = replayed_job job now

  job_after : (i : ℕ) → find_job db' i ≡ (if job.id == i then some again else find_job db i)
  unfolding replayed_job
  job_after i =
      let before = s.added.job_at i ∙ find_job-save_job db again i in ground (arith, before, found)

  dispatch_after :
      (i g : ℕ)
      → ((job.id == i) ≡ false) ⊎ (((job.generation + 1) == g) ≡ false)
      → find_dispatch db' i g ≡ find_dispatch db i g
  unfolding replayed_job
  dispatch_after i g other =
      ground (arith, s.added.dispatch_at i g, find_dispatch-save_job db again i g)

  dispatched : is_some (find_dispatch db' job.id (job.generation + 1)) ≡ true
  unfolding replayed_job
  dispatched = ground (arith, s.added.dispatch_at job.id (job.generation + 1))

  attempt_after : (i n : ℕ) → find_attempt db' i n ≡ find_attempt db i n
  attempt_after i n = s.added.attempt_at i n ∙ find_attempt-save_job db again i n

  SentAgain-IsConsistent : IsConsistent db → IsConsistent db'
  unfolding replayed_job save_job
  SentAgain-IsConsistent k =
      let valid = again-IsValidJob job now (k.valid job.id job found) in
      record {
        distinct = rw (s.added.jobs) (Distinct-replace again db.durable_jobs (k.distinct));
        valid = λ i j p. ground (arith, job_after i, k.valid i j, valid);
        last_attempt = λ i j p pos. ground (
          arith,
          found,
          job_after i,
          attempt_after i j.attempt_count,
          k.last_attempt i j,
          k.last_attempt i job,
        );
        no_later_attempt = λ i n j p lt. ground (
          arith,
          found,
          job_after i,
          attempt_after i n,
          k.no_later_attempt i n j,
          k.no_later_attempt i n job,
        );
        last_dispatch = λ i j p. ground (
          arith,
          found,
          dispatched,
          job_after i,
          dispatch_after i j.generation,
          k.last_dispatch i j,
        );
        no_later_dispatch = λ i g j p lt. ground (
          arith,
          found,
          job_after i,
          dispatch_after i g,
          k.no_later_dispatch i g j,
          k.no_later_dispatch i g job,
        );
        attempt_has_job =
            λ i n p. ground (arith, found, job_after i, attempt_after i n, k.attempt_has_job i n);
        dispatch_has_job =
            λ i g p. ground (arith, found, job_after i, dispatch_after i g, k.dispatch_has_job i g);
      }

  again_claimable : (later : ℕ) → now ≤ later → is_claimable later again ≡ true
  unfolding is_claimable replayed_job
  again_claimable later after = ground arith

  -- the task of the new generation leases the job
  new_task :
      (worker_id : String) (later lease_for : ℕ)
      → IsConsistent db'
      → now ≤ later
      → (c : ClaimedJob) × (db'' : Db) × (claim_specific
            (some job.id)
            (job.generation + 1)
            worker_id
            later
            lease_for
            db'
          ≡ ok (some c, db''))
  unfolding replayed_job
  new_task worker_id later lease_for k after =
      let row : find_job db' job.id ≡ some again = ground (arith, job_after job.id) in
      let claimable = again_claimable later after in
      let parts = claimable_parts later again claimable in
      elim (claim_specific_outcome again (job.generation + 1) worker_id later lease_for db' k row
        (omega arith)) [
          | granted c db'' e awaited effect kept ↦ (c, db'', e)
          | moved_on e (superseded sent other) ↦ absurd (other refl)
          | moved_on e (ended sent same closed) ↦ absurd (ground arith)
          | moved_on e (spent current due free none_left) ↦ absurd (ground (arith, parts))
          | repeated code e (not_committed unsent) ↦ absurd (ground (arith, dispatched))
          | repeated code e (not_due current early) ↦ absurd (ground (arith, parts))
          | repeated code e (lease_active current due held) ↦ absurd (ground arith)
        ]

  -- the task of the old generation gets nothing
  old_task :
      (worker_id : String) (later lease_for : ℕ)
      → IsConsistent db
      → IsConsistent db'
      → now ≤ later
      → claim_specific (some job.id) job.generation worker_id later lease_for db' ≡ ok (none, db')
  unfolding replayed_job
  old_task worker_id later lease_for k k' after =
      let row : find_job db' job.id ≡ some again = ground (arith, job_after job.id) in
      let sent = k.last_dispatch job.id job found in
      let kept = dispatch_after job.id job.generation (inr (ground arith)) in
      elim (claim_specific_outcome again job.generation worker_id later lease_for db' k' row
        (k.valid job.id job found).generation_positive) [
          | granted c db'' e awaited effect consistent ↦ absurd (ground (arith, awaited))
          | moved_on e why ↦ e
          | repeated code e (not_committed unsent) ↦ absurd (ground (arith, sent, kept))
          | repeated code e (not_due current early) ↦ absurd (ground (arith, current))
          | repeated code e (lease_active current due held) ↦ absurd (ground (arith, current))
        ]

found_row :
    (db : Db) (i : ℕ) (job : DurableJob) → find_job db i ≡ some job → find_job db job.id ≡ some job
found_row db i job found =
    subst (λ n. find_job db n ≡ some job) (sym (find_job-keys db i job found)) found

-- A `replay` that succeeds keeps the tables of jobs, attempts and dispatches consistent.
pub replay-IsConsistent :
    (job_id now : ℕ) (db db' : Db) (r : Replay)
    → IsConsistent db
    → replay_transaction (some job_id) now db ≡ ok (r, db')
    → IsConsistent db'
replay-IsConsistent job_id now db db' r k e =
    let (job, found, outcome) = replay_outcome job_id now db db' r e in
    elim outcome [
      | inl (terminal, same) ↦ subst IsConsistent (sym same) k
      | inr s ↦ SentAgain-IsConsistent now db db' job r (found_row db job_id job found) s k
    ]

-- A `replay` that sends a job again hands it to its new task at once, in a consistent database: the
-- task of the generation that the replay asks for leases the job, whatever attempts it had used up,
-- and the task of the generation before gets nothing.
pub replay_hands_over :
    (job_id now next generation : ℕ) (worker_id : String) (later lease_for : ℕ) (db db' : Db)
    → IsConsistent db
    → replay_transaction (some job_id) now db ≡ ok (dispatch_again next generation, db')
    → now ≤ later
    → ((c : ClaimedJob) × (db'' : Db) × (claim_specific
            (some next)
            generation
            worker_id
            later
            lease_for
            db'
          ≡ ok (some c, db'')))
      × ((old : ℕ) × (generation ≡ old + 1)
          × (claim_specific (some next) old worker_id later lease_for db' ≡ ok (none, db')))
replay_hands_over job_id now next generation worker_id later lease_for db db' k e after =
    let k' = replay-IsConsistent job_id now db db' (dispatch_again next generation) k e in
    let (job, found, outcome) =
      replay_outcome job_id now db db' (dispatch_again next generation) e in
    let row = found_row db job_id job found in
    elim outcome [
      | inl (terminal, same) ↦ absurd (ground arith)
      | inr s ↦
          let same_job : next ≡ job.id = ground (arith, s.asked) in
          let raised : generation ≡ job.generation + 1 = ground (arith, s.asked) in
          let r = dispatch_again next generation in
          (
            rw same_job
                (rw raised (new_task now db db' job r row s worker_id later lease_for k' after)),
            (
              job.generation,
              raised,
              rw same_job (old_task now db db' job r row s worker_id later lease_for k k' after),
            ),
          )
    ]
