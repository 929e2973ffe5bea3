-- ===== src/Fulfillment/Following.antt =====
-- About the job of the next stage that a job handler leaves in the queue.
use spacerocks_coa.Base.{
  ℕ, ◌+◌, ◌≡◌, refl, subst, String, true, Option, none, arith, Result, ok, err, Exn,
  confirmation_pending, Result-cases, inl, inr, ◌⊎◌,
}
use spacerocks_coa.Db.{Db}
use spacerocks_coa.Db.Access.{references_order, find_job}
use spacerocks_coa.Jobs.Consistency.{IsConsistent}
use spacerocks_coa.Jobs.{Dispatcher, enqueue_once, new_job}
use spacerocks_coa.Jobs.Models.{JobSpec, job_spec}
use spacerocks_coa.Fulfillment.Steps.{Surroundings}
use spacerocks_coa.Fulfillment.JobHandlers.{
  leave_job, stamp_job, upgrade_job, leave_upgrade_poll, unless_pending, order_key, poll_key,
}
use spacerocks_coa.Fulfillment.Queueing.{Leaves, SendLeavesJobs, enqueue_once-Holds}

pair_cases :
    {A : Type 0} (p : Result A × Db)
    → ((a : A) × (db : Db) × (p ≡ (ok a, db))) ⊎ ((e : Exn) × (db : Db) × (p ≡ (err e, db)))
pair_cases (ok a, db) = inl (a, db, refl)
pair_cases (err e, db) = inr (e, db, refl)

spec_fields :
    (key kind : String) (order_id n : ℕ) (spec : JobSpec)
    → job_spec key kind order_id n ≡ ok spec
    → spec ≡ record { job_key = key; kind = kind; order_id = order_id; max_attempts = n }
unfolding job_spec
spec_fields key kind order_id n spec e = ground arith

module _ (around : Surroundings) (send : Option Dispatcher) (keeps : SendLeavesJobs send) where
  -- the database that a step reads is consistent and has the order, and the identifier that the step
  -- draws is not used
  pub record IsReady (step order_id : ℕ) (db : Db) : Type 0 where
    pub unused : find_job (around.others step db) (around.new_id step) ≡ none
    pub known : references_order order_id (around.others step db) ≡ true
    pub consistent : IsConsistent (around.others step db)

  leave_job-Leaves :
      (step : ℕ) (key kind : String) (order_id at now : ℕ) (db db' : Db)
      → IsReady step order_id db
      → leave_job around send step key kind order_id at now db ≡ (ok tt, db')
      → Leaves key kind order_id at (around.others step db) db'
  unfolding leave_job
  leave_job-Leaves step key kind order_id at now db db' ready e =
      let seen = around.others step db in
      let fresh = around.new_id step in
      let spec : JobSpec = record {
        job_key = key;
        kind = kind;
        order_id = order_id;
        max_attempts = 10;
      } in
      elim (Result-cases (job_spec key kind order_id 10)) [
        | inr (x, p) ↦ absurd (ground arith)
        | inl (made, p) ↦
            let same : made ≡ spec = spec_fields key kind order_id 10 made p in
            elim (pair_cases (enqueue_once send fresh spec at now seen)) [
              | inr (x, end, q) ↦ absurd (ground (arith, same))
              | inl (created, end, q) ↦
                  let ends : end ≡ db' = ground (arith, same) in
                  subst (Leaves key kind order_id at seen) ends
                    (elim (enqueue_once-Holds fresh spec at now seen ready.unused ready.known
                      ready.consistent send created end keeps q) [
                        | inl (old, before, there) ↦ record {
                          job = old;
                          queued = there;
                          kept_or_new = inl before;
                        }
                        | inr (before, there) ↦ record {
                          job = new_job fresh spec at now;
                          queued = there;
                          kept_or_new = inr (
                            before,
                            record {
                              job_key = refl;
                              job_kind = refl;
                              order = refl;
                              state = refl;
                              due = refl;
                              unstarted = refl;
                              attempts = refl;
                              no_owner = refl;
                            },
                          );
                        }
                      ])
            ]
      ]

  module _ (run : ℕ → Db → Result (Unit {0}) × Db) where
    -- A stamp job that ends well has left a job of kind `upgrade_timestamp` for its order, due at
    -- once with ten attempts, unless a job with its key was there, which it keeps. The jobs were
    -- consistent, the order was there, the identifier was not used, and the dispatch of a task leaves
    -- the jobs as they are.
    pub stamp_job-Leaves :
        (order_id : ℕ) (db middle db' : Db)
        → run order_id db ≡ (ok tt, middle)
        → IsReady 10 order_id middle
        → stamp_job around send run order_id db ≡ (ok tt, db')
        → Leaves
            (order_key "upgrade" order_id)
            "upgrade_timestamp"
            order_id
            (around.clock 10)
            (around.others 10 middle)
            db'
    unfolding stamp_job
    stamp_job-Leaves order_id db middle db' ran ready e =
        leave_job-Leaves 10 (order_key "upgrade" order_id) "upgrade_timestamp" order_id
          (around.clock 10) (around.clock 11) middle db' ready (ground arith)

    -- When an upgrade job whose handler finds the proof still unconfirmed ends well, it has left a job
    -- of kind `upgrade_timestamp` for its order, due six hours later with ten attempts, unless a job
    -- with the key of that poll was there, which it keeps. The jobs were consistent, the order was
    -- there, the identifier was not used, and the dispatch of a task leaves the jobs as they are.
    pub upgrade_job-polls :
        (order_id : ℕ) (code : String) (db middle db' : Db)
        → run order_id db ≡ (err (confirmation_pending code), middle)
        → IsReady 11 order_id middle
        → upgrade_job around send run order_id db ≡ (ok tt, db')
        → Leaves
            (poll_key "upgrade-poll" order_id (around.clock 10 + 21600000000))
            "upgrade_timestamp"
            order_id
            (around.clock 10 + 21600000000)
            (around.others 11 middle)
            db'
    unfolding upgrade_job unless_pending leave_upgrade_poll
    upgrade_job-polls order_id code db middle db' ran ready e =
        leave_job-Leaves 11 (poll_key "upgrade-poll" order_id (around.clock 10 + 21600000000))
          "upgrade_timestamp" order_id (around.clock 10 + 21600000000) (around.clock 12) middle db'
          ready (ground arith)
