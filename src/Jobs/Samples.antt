-- ===== src/Jobs/Samples.antt =====
-- A small database in the states that a few calls of the job store take it through.
use spacerocks_coa.Base.{
  ◌≡◌, refl, Bool, true, false, none, some, [], ◌∷◌, arith, ok, codes, find, replace, select,
  order_by, insert_by, hex_digits, decimal,
}
use spacerocks_coa.Order.{PaymentState, FulfillmentState}
use spacerocks_coa.Jobs.Frames.{SameJobs-IsConsistent}
use spacerocks_coa.Db.{Order, PaymentMode, Db, DurableJob, TaskDispatch, dead_letter, pending}
use spacerocks_coa.Db.Access.{
  find_job, find_attempt, find_dispatch, insert_job, insert_dispatch, insert_attempt, save_job,
  save_attempt,
}
use spacerocks_coa.Tasks.{add_task_dispatch}
use spacerocks_coa.Tasks.Naming.{deterministic_task_name}
use spacerocks_coa.Jobs.{
  enqueue_transaction, claim, claim_query, finish_transaction, final_outcome, finished_job, lease,
  raise_generation, new_job, held_job, new_attempt,
}
use spacerocks_coa.Jobs.Models.{JobSpec, ClaimedJob, retry, job_spec}
use spacerocks_coa.Jobs.Consistency.{IsConsistent}
use spacerocks_coa.Jobs.Enqueueing.{enqueue-IsConsistent}
use spacerocks_coa.Jobs.Lifecycle.{Call, Calls, Calls-IsConsistent}

abbrev pub empty : Db
empty = record {
  orders = [];
  order_tokens = [];
  idempotency_requests = [];
  stripe_events = [];
  durable_jobs = [];
  task_dispatches = [];
  job_attempts = [];
  state_events = [];
  outbox = [];
  proof_versions = [];
  proof_verifications = [];
  proof_bundles = [];
  confirmation_observations = [];
  notification_attempts = [];
  resend_webhook_events = [];
}

pub empty-IsConsistent : IsConsistent empty
unfolding find_job find_attempt find_dispatch find
empty-IsConsistent = record {
  distinct = tt;
  valid = λ i j p. absurd (cc);
  last_attempt = λ i j p pos. absurd (cc);
  no_later_attempt = λ i n j p lt. refl;
  last_dispatch = λ i j p. absurd (cc);
  no_later_dispatch = λ i g j p lt. refl;
  attempt_has_job = λ i n p. refl;
  dispatch_has_job = λ i g p. refl;
}

abbrev pub open_order : Order
open_order = record {
  id = 5;
  order_reference = "ts_5";
  certificate_reference = "nwa-1";
  manifest_digest = 77;
  email = "a@example.test";
  amount_minor = 1900;
  currency = "usd";
  product_version = "v1";
  payment_mode = PaymentMode.stripe_test;
  payment_state = PaymentState.checkout_open;
  fulfillment_state = FulfillmentState.awaiting_payment;
  consent_terms_version = "t1";
  consent_privacy_version = "p1";
  consent_accepted_at = 1;
  checkout_session_id = some "cs_test_5";
  payment_intent_id = none;
  fulfillment_key = "stamp:5";
  calendar_submitted_at = none;
  created_at = 1;
  updated_at = 1;
}

abbrev pub one_order : Db
one_order = record empty { orders = open_order ∷ [] }

pub one_order-IsConsistent : IsConsistent one_order
one_order-IsConsistent =
    SameJobs-IsConsistent empty one_order
      (record { jobs = refl; attempts = refl; dispatches = refl }) empty-IsConsistent

abbrev pub stamp_spec : JobSpec
stamp_spec = record {
  job_key = "stamp:5";
  kind = "stamp_manifest_digest";
  order_id = 5;
  max_attempts = 2;
}

abbrev pub queued_job : DurableJob
queued_job = new_job 7 stamp_spec 100 50

abbrev pub first_dispatch : TaskDispatch
first_dispatch = record {
  job_id = 7;
  generation = 1;
  task_name = codes "timestamp-00000000000000000000000000000007-g1";
  schedule_at = 100;
  state = pending;
  attempt_count = 0;
  dispatched_at = none;
  safe_error_code = none;
  created_at = 50;
  updated_at = 50;
}

-- after one `enqueue_once`
abbrev pub with_job : Db
with_job = record one_order {
  durable_jobs = queued_job ∷ [];
  task_dispatches = first_dispatch ∷ [];
}

pub enqueue_run :
    enqueue_transaction 7 stamp_spec 100 50 one_order ≡ ok (true, some (7, 1), with_job)
unfolding enqueue_transaction insert_job find_job find add_task_dispatch insert_dispatch
    find_dispatch deterministic_task_name hex_digits decimal
enqueue_run = refl

pub with_job-IsConsistent : IsConsistent with_job
with_job-IsConsistent =
    enqueue-IsConsistent 7 stamp_spec 100 50 one_order (true, some (7, 1), with_job) (omega arith)
      one_order-IsConsistent enqueue_run

abbrev pub upgrade_spec : JobSpec
upgrade_spec = record {
  job_key = "upgrade:5";
  kind = "upgrade_proof";
  order_id = 5;
  max_attempts = 10;
}

abbrev pub upgrade_job : DurableJob
upgrade_job = new_job 8 upgrade_spec 110 60

-- after a second `enqueue_once`
abbrev pub two_jobs : Db
two_jobs = record with_job {
  durable_jobs = queued_job ∷ upgrade_job ∷ [];
  task_dispatches =
      first_dispatch
      ∷ (record first_dispatch {
        job_id = 8;
        task_name = codes "timestamp-00000000000000000000000000000008-g1";
        schedule_at = 110;
        created_at = 60;
        updated_at = 60;
      })
      ∷ [];
}

pub enqueue_second :
    enqueue_transaction 8 upgrade_spec 110 60 with_job ≡ ok (true, some (8, 1), two_jobs)
unfolding enqueue_transaction insert_job find_job find add_task_dispatch insert_dispatch
    find_dispatch deterministic_task_name hex_digits decimal
enqueue_second = refl

pub two_jobs-IsConsistent : IsConsistent two_jobs
two_jobs-IsConsistent =
    enqueue-IsConsistent 8 upgrade_spec 110 60 with_job (true, some (8, 1), two_jobs) (omega arith)
      with_job-IsConsistent enqueue_second

-- no row is locked by another transaction
abbrev pub unlocked : DurableJob → Bool
unlocked j = false

abbrev pub first_holder : ClaimedJob
first_holder = record {
  id = 7;
  spec = stamp_spec;
  attempt = 1;
  lease_owner = "w1";
  lease_until = 180;
}

-- after the first claim, at 120 for 60
abbrev pub one_leased : Db
one_leased =
    let held = held_job queued_job "w1" 120 60 in
    record two_jobs {
      durable_jobs = held ∷ upgrade_job ∷ [];
      job_attempts = new_attempt held "w1" 120 ∷ [];
    }

pub claim_first : claim unlocked "w1" 120 60 two_jobs ≡ ok (some first_holder, one_leased)
unfolding claim claim_query order_by insert_by select lease save_job replace insert_attempt
    find_attempt find job_spec
claim_first = refl

pub one_leased-IsConsistent : IsConsistent one_leased
one_leased-IsConsistent = Calls-IsConsistent two_jobs-IsConsistent (
    Calls.one_more Calls.none_yet
      (Call.claimed_next unlocked "w1" 120 60 (some first_holder) claim_first))

abbrev pub other_holder : ClaimedJob
other_holder = record {
  id = 8;
  spec = upgrade_spec;
  attempt = 1;
  lease_owner = "w2";
  lease_until = 210;
}

-- after a second claim, at 150
abbrev pub both_leased : Db
both_leased =
    let held = held_job upgrade_job "w2" 150 60 in
    record one_leased {
      durable_jobs = held_job queued_job "w1" 120 60 ∷ held ∷ [];
      job_attempts =
          new_attempt (held_job queued_job "w1" 120 60) "w1" 120 ∷ new_attempt held "w2" 150 ∷ [];
    }

pub claim_other : claim unlocked "w2" 150 60 one_leased ≡ ok (some other_holder, both_leased)
unfolding claim claim_query order_by insert_by select lease save_job replace insert_attempt
    find_attempt find job_spec
claim_other = refl

abbrev pub second_holder : ClaimedJob
second_holder = record {
  id = 7;
  spec = stamp_spec;
  attempt = 2;
  lease_owner = "w1";
  lease_until = 260;
}

abbrev pub twice_held : DurableJob
twice_held = held_job (held_job queued_job "w1" 120 60) "w1" 200 60

-- after the lease has ended and the same worker has claimed the job again, at 200
abbrev pub reclaimed : Db
reclaimed = record one_leased {
  durable_jobs = twice_held ∷ upgrade_job ∷ [];
  job_attempts =
      new_attempt (held_job queued_job "w1" 120 60) "w1" 120 ∷ new_attempt twice_held "w1" 200 ∷ [];
}

pub claim_again : claim unlocked "w1" 200 60 one_leased ≡ ok (some second_holder, reclaimed)
unfolding claim claim_query order_by insert_by select lease save_job replace insert_attempt
    find_attempt find job_spec
claim_again = refl

-- The last attempt fails: the retry becomes a dead letter.
abbrev pub buried : Db
buried = record reclaimed {
  durable_jobs =
      (record twice_held {
        state = dead_letter;
        available_at = 900;
        lease_owner = none;
        lease_until = none;
        safe_error_code = some "calendar_submit_unavailable";
        updated_at = 210;
      })
      ∷ upgrade_job
      ∷ [];
  job_attempts =
      new_attempt (held_job queued_job "w1" 120 60) "w1" 120
      ∷ (record (new_attempt twice_held "w1" 200) {
        finished_at = some 210;
        outcome = some dead_letter;
        safe_error_code = some "calendar_submit_unavailable";
      })
      ∷ [];
}

pub finish_last :
    finish_transaction second_holder retry 210
      (some 900)
      (some "calendar_submit_unavailable")
      reclaimed
    ≡ ok (none, buried)
unfolding finish_transaction raise_generation final_outcome finished_job save_job save_attempt
    replace find_job find_attempt find
finish_last = refl

pub reclaimed-IsConsistent : IsConsistent reclaimed
reclaimed-IsConsistent = Calls-IsConsistent one_leased-IsConsistent (
    Calls.one_more Calls.none_yet
      (Call.claimed_next unlocked "w1" 200 60 (some second_holder) claim_again))
