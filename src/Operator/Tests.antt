-- ===== src/Operator/Tests.antt =====
-- A job that waits for its second attempt, and an operator who sends it again.
use spacerocks_coa.Base.{
  ℕ, ◌+◌, ◌≡◌, refl, none, some, [], ◌∷◌, ◌++◌, arith, ok, codes, decimal, hex_digits, find,
  replace,
}
use spacerocks_coa.Db.{Db, DurableJob, JobState, TaskDispatch}
use spacerocks_coa.Db.Access.{
  find_job, find_attempt, find_dispatch, save_job, save_attempt, insert_dispatch,
}
use spacerocks_coa.Tasks.{add_task_dispatch}
use spacerocks_coa.Tasks.Naming.{deterministic_task_name}
use spacerocks_coa.Jobs.{
  held_job, new_attempt, finish_transaction, final_outcome, finished_job, raise_generation,
  claim_specific,
}
use spacerocks_coa.Jobs.Models.{ClaimedJob, JobOutcome}
use spacerocks_coa.Jobs.Consistency.{IsConsistent}
use spacerocks_coa.Jobs.Lifecycle.{Call, Calls, Calls-IsConsistent}
use spacerocks_coa.Jobs.Samples.{
  queued_job, upgrade_job, first_dispatch, first_holder, one_leased, one_leased-IsConsistent,
  two_jobs,
}
use spacerocks_coa.Operator.{dispatch_again, replayed_job, replay_found, replay_transaction}
use spacerocks_coa.Operator.Replaying.{replay-IsConsistent, replay_hands_over}

abbrev waiting_job : DurableJob
waiting_job = record (held_job queued_job "w1" 120 60) {
  state = JobState.retry;
  generation = 2;
  available_at = 900;
  lease_owner = none;
  lease_until = none;
  safe_error_code = some "calendar_submit_unavailable";
  updated_at = 150;
}

abbrev next_dispatch : ℕ → TaskDispatch
next_dispatch generation = record first_dispatch {
  generation = generation;
  task_name = codes "timestamp-00000000000000000000000000000007-g" ++ decimal generation;
  schedule_at = 900;
  created_at = 150;
  updated_at = 150;
}

-- after its first holder has failed, at 150, to be tried again at 900
abbrev waiting : Db
waiting = record one_leased {
  durable_jobs = waiting_job ∷ upgrade_job ∷ [];
  job_attempts =
      (record (new_attempt (held_job queued_job "w1" 120 60) "w1" 120) {
        finished_at = some 150;
        outcome = some JobState.retry;
        safe_error_code = some "calendar_submit_unavailable";
      })
      ∷ [];
  task_dispatches = two_jobs.task_dispatches ++ next_dispatch 2 ∷ [];
}

finish_first :
    finish_transaction first_holder JobOutcome.retry 150
      (some 900)
      (some "calendar_submit_unavailable")
      one_leased
    ≡ ok (some (7, 2), waiting)
unfolding finish_transaction raise_generation final_outcome finished_job save_job save_attempt
    replace find_job find_attempt find add_task_dispatch insert_dispatch find_dispatch
    deterministic_task_name hex_digits decimal
finish_first = refl

waiting-IsConsistent : IsConsistent waiting
waiting-IsConsistent = Calls-IsConsistent one_leased-IsConsistent (
    Calls.one_more Calls.none_yet (
      Call.finished first_holder JobOutcome.retry 150 (some 900)
        (some "calendar_submit_unavailable") (some (7, 2)) finish_first))

-- after the operator has sent it again, at 300
abbrev sent_again : Db
sent_again = record waiting {
  durable_jobs = replayed_job waiting_job 300 ∷ upgrade_job ∷ [];
  task_dispatches =
      waiting.task_dispatches
      ++ (record (next_dispatch 3) { schedule_at = 300; created_at = 300; updated_at = 300 }) ∷ [];
}

replay_run : replay_transaction (some 7) 300 waiting ≡ ok (dispatch_again 7 3, sent_again)
unfolding replay_transaction replay_found replayed_job save_job replace find_job find
    add_task_dispatch insert_dispatch find_dispatch deterministic_task_name hex_digits decimal
replay_run = refl

replay-IsConsistent_example : IsConsistent sent_again
replay-IsConsistent_example =
    replay-IsConsistent 7 300 waiting sent_again (dispatch_again 7 3) waiting-IsConsistent
      replay_run

replay_hands_over_example :
    ((c : ClaimedJob) × (db' : Db) × (claim_specific (some 7) 3 "w2" 310 60 sent_again
        ≡ ok (some c, db')))
    × ((old : ℕ) × (3 ≡ old + 1)
        × (claim_specific (some 7) old "w2" 310 60 sent_again ≡ ok (none, sent_again)))
replay_hands_over_example =
    replay_hands_over 7 300 7 3 "w2" 310 60 waiting sent_again waiting-IsConsistent replay_run
      (omega arith)
