-- ===== src/Fulfillment/Queueing.antt =====
-- About the row of a job that has the key after an `enqueue_once`.
use spacerocks_coa.Base.{
  ℕ, ◌≡◌, ◌≢◌, ◌∙◌, subst, String, Bool, true, Option, none, some, [], ◌∷◌, arith, ok, err, Exn,
  integrity_error, Result-cases, Option-cases, inl, inr, ◌⊎◌, find, find-append, eq_refl,
}
use spacerocks_coa.Db.{Db, DurableJob, JobState}
use spacerocks_coa.Db.Access.{
  references_order, has_job_key, insert_job, insert_dispatch, find_job, find_dispatch,
}
use spacerocks_coa.Db.Frames.{find_dispatch-insert_job}
use spacerocks_coa.Tasks.Naming.{deterministic_task_name}
use spacerocks_coa.Jobs.Consistency.{IsConsistent}
use spacerocks_coa.Tasks.{add_task_dispatch}
use spacerocks_coa.Jobs.{
  Dispatcher, enqueue_once, enqueue_transaction, created_or_existing, new_job, after_commit,
}
use spacerocks_coa.Jobs.Models.{JobSpec}

-- a job that waits for its first attempt
pub record IsNew (key kind : String) (order_id available_at : ℕ) (job : DurableJob) : Type 0 where
  pub job_key : job.job_key ≡ key
  pub job_kind : job.kind ≡ kind
  pub order : job.order_id ≡ order_id
  pub state : job.state ≡ JobState.available
  pub due : job.available_at ≡ available_at
  pub unstarted : job.attempt_count ≡ 0
  pub attempts : job.max_attempts ≡ 10
  pub no_owner : job.lease_owner ≡ none

-- after `seen`, a job with this key is in the queue: the one that had the key, or a new one
pub record Leaves (key kind : String) (order_id available_at : ℕ) (seen db' : Db) : Type 0 where
  pub job : DurableJob
  pub queued : find (has_job_key key) db'.durable_jobs ≡ some job
  pub kept_or_new :
      (find (has_job_key key) seen.durable_jobs ≡ some job)
      ⊎ ((find (has_job_key key) seen.durable_jobs ≡ none)
          × IsNew key kind order_id available_at job)

-- a dispatcher, if there is one, leaves the table of jobs as it is
abbrev pub SendLeavesJobs : Option Dispatcher → Type 0
SendLeavesJobs none = Unit
SendLeavesJobs (some send) =
    (job_id generation : ℕ) (db : Db) → (send job_id generation db).1.durable_jobs ≡ db.durable_jobs

added_dispatch-jobs :
    (j : DurableJob) (at now : ℕ) (db db' : Db)
    → add_task_dispatch j at now db ≡ ok db'
    → db'.durable_jobs ≡ db.durable_jobs
unfolding add_task_dispatch insert_dispatch
added_dispatch-jobs j at now db db' e = ground arith

inserted_key :
    (j : DurableJob) (db db' : Db)
    → insert_job j db ≡ ok db'
    → (find (has_job_key j.job_key) db.durable_jobs ≡ none)
      × (find (has_job_key j.job_key) db'.durable_jobs ≡ some j)
unfolding insert_job find
inserted_key j db db' e = (
  ground arith,
  ground (arith, find-append (has_job_key j.job_key) db.durable_jobs (j ∷ []), eq_refl j.job_key),
)

refused_key :
    (j : DurableJob) (db : Db)
    → insert_job j db ≡ err integrity_error
    → find_job db j.id ≡ none
    → references_order j.order_id db ≡ true
    → (old : DurableJob) × (find (has_job_key j.job_key) db.durable_jobs ≡ some old)
unfolding insert_job
refused_key j db e fresh known =
    elim (Option-cases (find (has_job_key j.job_key) db.durable_jobs)) [
      | inl p ↦ absurd (ground arith)
      | inr found ↦ found
    ]

dispatch_taken :
    (j : DurableJob) (at now : ℕ) (db : Db)
    → add_task_dispatch j at now db ≡ err integrity_error
    → find_dispatch db j.id j.generation ≢ none
unfolding add_task_dispatch insert_dispatch deterministic_task_name
dispatch_taken j at now db e none_there = ground arith

module _ (fresh : ℕ) (spec : JobSpec) (at now : ℕ) (db : Db) (unused : find_job db fresh ≡ none)
    (known : references_order spec.order_id db ≡ true) (h : IsConsistent db) where
  abbrev row : DurableJob
  row = new_job fresh spec at now

  -- the row that has the key after an `enqueue_once`
  abbrev pub Holds : Db → Type 0
  Holds db' =
      ((old : DurableJob) × (find (has_job_key spec.job_key) db.durable_jobs ≡ some old)
        × (find (has_job_key spec.job_key) db'.durable_jobs ≡ some old))
      ⊎ ((find (has_job_key spec.job_key) db.durable_jobs ≡ none)
          × (find (has_job_key spec.job_key) db'.durable_jobs ≡ some row))

  Holds-same : (d d' : Db) → d'.durable_jobs ≡ d.durable_jobs → Holds d → Holds d'
  Holds-same d d' same (inl (old, before, there)) = inl (old, before, rw same there)
  Holds-same d d' same (inr (before, there)) = inr (before, rw same there)

  dispatched_key :
      (inserted : Db) (r : Bool × Option (ℕ × ℕ) × Db)
      → insert_job row db ≡ ok inserted
      → created_or_existing row db (add_task_dispatch row at now inserted) ≡ ok r
      → Holds r.2
  unfolding created_or_existing
  dispatched_key inserted r p e = elim (Result-cases (add_task_dispatch row at now inserted)) [
    | inl (db', q) ↦
        let same : db' ≡ r.2 = ground arith in
        subst Holds same (
          Holds-same inserted db' (added_dispatch-jobs row at now inserted db' q)
            (inr (inserted_key row db inserted p)))
    | inr (integrity_error, q) ↦ absurd (
        dispatch_taken row at now inserted q
          (find_dispatch-insert_job db row fresh 1 p ∙ h.dispatch_has_job fresh 1 unused))
    | inr (x, q) ↦ absurd (ground arith)
  ]

  refused_row :
      (x : Exn) (r : Bool × Option (ℕ × ℕ) × Db)
      → insert_job row db ≡ err x
      → created_or_existing row db (err x) ≡ ok r
      → Holds r.2
  unfolding created_or_existing
  refused_row integrity_error r p e =
      let (old, there) = refused_key row db p unused known in
      let same : db ≡ r.2 = ground arith in subst Holds same (inl (old, there, there))
  refused_row x r p e = absurd (ground arith)

  enqueue_transaction-Holds :
      (r : Bool × Option (ℕ × ℕ) × Db) → enqueue_transaction fresh spec at now db ≡ ok r → Holds r.2
  unfolding enqueue_transaction
  enqueue_transaction-Holds r e = elim (Result-cases (insert_job row db)) [
    | inl (inserted, p) ↦ dispatched_key inserted r p (ground arith)
    | inr (x, p) ↦ refused_row x r p (ground arith)
  ]

  pub enqueue_once-Holds :
      (send : Option Dispatcher) (created : Bool) (db' : Db)
      → SendLeavesJobs send
      → enqueue_once send fresh spec at now db ≡ (ok created, db')
      → Holds db'
  unfolding enqueue_once after_commit
  enqueue_once-Holds none created db' keeps e =
      elim (Result-cases (enqueue_transaction fresh spec at now db)) [
        | inr (x, p) ↦ absurd (ground arith)
        | inl ((made, none, end), p) ↦
            let ends : end ≡ db' = ground arith in
            subst Holds ends (enqueue_transaction-Holds (made, none, end) p)
        | inl ((made, some key, end), p) ↦
            let ends : end ≡ db' = ground arith in
            subst Holds ends (enqueue_transaction-Holds (made, some key, end) p)
      ]
  enqueue_once-Holds (some send) created db' keeps e =
      elim (Result-cases (enqueue_transaction fresh spec at now db)) [
        | inr (x, p) ↦ absurd (ground arith)
        | inl ((made, none, end), p) ↦
            let ends : end ≡ db' = ground arith in
            subst Holds ends (enqueue_transaction-Holds (made, none, end) p)
        | inl ((made, some (job_id, generation), end), p) ↦
            let sent : (send job_id generation end).1 ≡ db' = ground arith in
            subst Holds sent (
              Holds-same end (send job_id generation end).1 (keeps job_id generation end)
                (enqueue_transaction-Holds (made, some (job_id, generation), end) p))
      ]
