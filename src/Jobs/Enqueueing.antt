-- ===== src/Jobs/Enqueueing.antt =====
-- `enqueue_once`: one job for a key, however often it is asked for.
use spacerocks_coa.Base.{
  ℕ, ◌≤◌, ◌<◌, ◌≡◌, refl, sym, subst, Bool, true, false, Option, none, some, [], ◌∷◌, ◌++◌, arith,
  Result, ok, err, integrity_error, ◌>>=◌, >>=-eq-ok, length, codes, find, find-append, eq_iff, inl,
  inr, ◌⊎◌, ap,
}
use spacerocks_coa.Db.{Db, DurableJob}
use spacerocks_coa.Db.Access.{has_job_id, has_job_key, find_job, insert_job}
use spacerocks_coa.Db.Laws.{find_job-insert_job}
use spacerocks_coa.Db.Frames.{find_attempt-insert_job, find_dispatch-insert_job}
use spacerocks_coa.Tasks.{add_task_dispatch}
use spacerocks_coa.Tasks.Effects.{DispatchAdded, add_task_dispatch_effect}
use spacerocks_coa.Jobs.{created_or_existing, enqueue_transaction, new_job, existing_key}
use spacerocks_coa.Jobs.Models.{JobSpec}
use spacerocks_coa.Jobs.Consistency.{IsConsistent, Distinct-append}

-- what `JobSpec.__post_init__` has tested
pub record IsValidSpec (spec : JobSpec) : Type 0 where
  pub key_given : 1 ≤ length (codes spec.job_key)
  pub key_fits : length (codes spec.job_key) ≤ 160
  pub attempts_allowed : 0 < spec.max_attempts

inserted_job :
    (j : DurableJob) (db db' : Db)
    → insert_job j db ≡ ok db'
    → (find_job db j.id ≡ none)
      × (find (has_job_id j.id) db.durable_jobs ≡ none)
      × (find (has_job_key j.job_key) db.durable_jobs ≡ none)
      × (db'.durable_jobs ≡ db.durable_jobs ++ j ∷ [])
unfolding insert_job find_job
inserted_job j db db' e = ground arith

module _ (fresh : ℕ) (spec : JobSpec) (available_at now : ℕ) (db : Db) where
  abbrev row : DurableJob
  row = new_job fresh spec available_at now

  -- a job was created: it is new, and has a pending dispatch of its first generation
  pub record Created (db' : Db) : Type 0 where
    pub inserted : Db
    pub added_job : insert_job row db ≡ ok inserted
    pub added_dispatch : DispatchAdded row available_at now inserted db'

  abbrev existing : Bool × Option (ℕ × ℕ) × Db
  existing = (false, existing_key (find (has_job_key spec.job_key) db.durable_jobs), db)

  split_insert :
      (x : Result Db) (r : Bool × Option (ℕ × ℕ) × Db)
      → created_or_existing row db x ≡ ok r
      → ((db' : Db) × (x ≡ ok db') × (r ≡ (true, some (fresh, 1), db'))) ⊎ (r ≡ existing)
  unfolding created_or_existing
  split_insert (ok db') r e = inl (db', refl, cc)
  split_insert (err integrity_error) r e = inr (cc)
  split_insert (err x) r e = absurd (cc)

  -- The two ways in which the transaction can end without an exception.
  pub enqueue_split :
      (r : Bool × Option (ℕ × ℕ) × Db)
      → enqueue_transaction fresh spec available_at now db ≡ ok r
      → ((db' : Db) × Created db' × (r ≡ (true, some (fresh, 1), db'))) ⊎ (r ≡ existing)
  unfolding enqueue_transaction
  enqueue_split r e =
      elim (split_insert (insert_job row db >>= add_task_dispatch row available_at now) r e) [
        | inl (db', p, same) ↦
            let (inserted, q, d) =
              >>=-eq-ok (insert_job row db) (add_task_dispatch row available_at now) p in
            inl (
              db',
              record {
                inserted = inserted;
                added_job = q;
                added_dispatch = add_task_dispatch_effect row available_at now inserted db' d;
              },
              same,
            )
        | inr same ↦ inr same
      ]

  Created-IsConsistent :
      (db' : Db) → IsValidSpec spec → IsConsistent db → Created db' → IsConsistent db'
  Created-IsConsistent db' v k made =
      let d = made.added_dispatch in
      let (absent, no_job, no_key, jobs) = inserted_job row db (made.inserted) (made.added_job) in
      let job_at = λ (i : ℕ). find_job-insert_job db row i (made.added_job) in
      let attempt_at = λ (i n : ℕ). find_attempt-insert_job db row i n (made.added_job) in
      let dispatch_at = λ (i g : ℕ). find_dispatch-insert_job db row i g (made.added_job) in
      record {
        distinct = rw (d.jobs) (rw jobs (Distinct-append row db.durable_jobs (k.distinct) no_job));
        valid = λ i j p. ground (arith, d.job_at i, job_at i, k.valid i j);
        last_attempt = λ i j p pos. ground (
          arith,
          d.job_at i,
          job_at i,
          d.attempt_at i j.attempt_count,
          attempt_at i j.attempt_count,
          k.last_attempt i j,
        );
        no_later_attempt = λ i n j p lt. ground (
          arith,
          d.job_at i,
          job_at i,
          d.attempt_at i n,
          attempt_at i n,
          k.no_later_attempt i n j,
          absent,
          k.attempt_has_job i n,
        );
        last_dispatch = λ i j p. ground (
          arith,
          d.job_at i,
          job_at i,
          d.dispatch_at i j.generation,
          dispatch_at i j.generation,
          k.last_dispatch i j,
        );
        no_later_dispatch = λ i g j p lt. ground (
          arith,
          d.job_at i,
          job_at i,
          d.dispatch_at i g,
          dispatch_at i g,
          k.no_later_dispatch i g j,
          absent,
          k.dispatch_has_job i g,
        );
        attempt_has_job = λ i n p.
            ground (
              arith,
              d.job_at i,
              job_at i,
              d.attempt_at i n,
              attempt_at i n,
              k.attempt_has_job i n,
            );
        dispatch_has_job = λ i g p. ground (
          arith,
          d.job_at i,
          job_at i,
          d.dispatch_at i g,
          dispatch_at i g,
          k.dispatch_has_job i g,
        );
      }

  -- An `enqueue_once` that succeeds keeps the database consistent.
  pub enqueue-IsConsistent :
      (r : Bool × Option (ℕ × ℕ) × Db)
      → IsValidSpec spec
      → IsConsistent db
      → enqueue_transaction fresh spec available_at now db ≡ ok r
      → IsConsistent (r.2)
  enqueue-IsConsistent r v k e = elim (enqueue_split r e) [
    | inl (db', made, same) ↦
        subst IsConsistent (ap (λ (t : Bool × Option (ℕ × ℕ) × Db). t.2) (sym same))
          (Created-IsConsistent db' v k made)
    | inr same ↦ subst IsConsistent (ap (λ (t : Bool × Option (ℕ × ℕ) × Db). t.2) (sym same)) k
  ]

  -- the key of the job is in the table, with its id and generation
  key_known :
      (created : Bool) (key : ℕ × ℕ) (db' : Db)
      → enqueue_transaction fresh spec available_at now db ≡ ok (created, some key, db')
      → existing_key (find (has_job_key spec.job_key) db'.durable_jobs) ≡ some key
  unfolding existing_key find
  key_known created key db' e = elim (enqueue_split (created, some key, db') e) [
    | inl (made_db, made, same) ↦
        let (absent, no_job, no_key, jobs) = inserted_job row db (made.inserted) (made.added_job) in
        ground (
          arith,
          same,
          no_key,
          jobs,
          made.added_dispatch.jobs,
          find-append (has_job_key spec.job_key) db.durable_jobs (row ∷ []),
          eq_iff spec.job_key spec.job_key,
        )
    | inr same ↦ ground (arith, same)
  ]

known_key_again :
    (fresh : ℕ) (spec : JobSpec) (available_at now : ℕ) (db : Db) (key : ℕ × ℕ)
    → existing_key (find (has_job_key spec.job_key) db.durable_jobs) ≡ some key
    → enqueue_transaction fresh spec available_at now db ≡ ok (false, some key, db)
unfolding enqueue_transaction insert_job existing_key
known_key_again fresh spec available_at now db key e = ground arith

-- A job is created once for its key: whatever a further call asks for under that key, it creates
-- nothing, changes nothing, and returns the dispatch of the same job.
pub enqueue_twice :
    (fresh fresh' : ℕ) (spec spec' : JobSpec) (available_at available_at' now now' : ℕ) (db : Db)
    (created : Bool) (key : ℕ × ℕ) (db' : Db)
    → enqueue_transaction fresh spec available_at now db ≡ ok (created, some key, db')
    → spec'.job_key ≡ spec.job_key
    → enqueue_transaction fresh' spec' available_at' now' db' ≡ ok (false, some key, db')
enqueue_twice fresh fresh' spec spec' available_at available_at' now now' db created key db' e
      same =
    known_key_again fresh' spec' available_at' now' db' key
      (rw same (key_known fresh spec available_at now db created key db' e))
