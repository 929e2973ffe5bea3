-- ===== src/Jobs/Tests.antt =====
-- The theorems of the job store at the samples.
use spacerocks_coa.Base.{
  ℕ, ◌≡◌, ◌≢◌, refl, String, true, false, Option, none, some, arith, ok, err, value_error, find,
}
use spacerocks_coa.Db.Access.{find_job}
use spacerocks_coa.Jobs.{enqueue_transaction, claim, claim_specific, heartbeat, finish_transaction}
use spacerocks_coa.Jobs.Models.{JobOutcome, retry}
use spacerocks_coa.Jobs.Consistency.{IsConsistent}
use spacerocks_coa.Jobs.Enqueueing.{enqueue_twice}
use spacerocks_coa.Jobs.Exclusion.{
  ClaimOutcome, claim_outcome, exclusive_claim, exclusive_claim_specific, superseded_holder,
}
use spacerocks_coa.Jobs.Specific.{SpecificOutcome, claim_specific_outcome}
use spacerocks_coa.Jobs.Endings.{Ended, finish-Ended}
use spacerocks_coa.Jobs.Lifecycle.{Call, Calls, Calls-IsConsistent}
use spacerocks_coa.Jobs.Samples.{
  one_order, stamp_spec, queued_job, with_job, enqueue_run, two_jobs, two_jobs-IsConsistent,
  unlocked, first_holder, one_leased, claim_first, other_holder, both_leased, claim_other,
  second_holder, reclaimed, claim_again, buried, finish_last, reclaimed-IsConsistent,
}

enqueue_twice_example :
    enqueue_transaction 9 stamp_spec 400 300 with_job ≡ ok (false, some (7, 1), with_job)
enqueue_twice_example =
    enqueue_twice 7 9 stamp_spec stamp_spec 100 400 50 300 one_order true (7, 1) with_job
      enqueue_run refl

claim_outcome_example :
    ClaimOutcome unlocked "w1" 120 60 two_jobs (claim unlocked "w1" 120 60 two_jobs)
claim_outcome_example = claim_outcome unlocked "w1" 120 60 two_jobs two_jobs-IsConsistent

exclusive_claim_example : other_holder.id ≢ first_holder.id
exclusive_claim_example =
    exclusive_claim unlocked "w1" 120 60 two_jobs two_jobs-IsConsistent first_holder one_leased
      claim_first unlocked "w2" 150 60 other_holder both_leased (omega arith) claim_other

exclusive_claim_specific_example :
    claim_specific (some 7) 1 "w2" 150 60 one_leased ≢ ok (some other_holder, both_leased)
exclusive_claim_specific_example =
    exclusive_claim_specific unlocked "w1" 120 60 two_jobs two_jobs-IsConsistent first_holder
      one_leased claim_first 1 "w2" 150 60 other_holder both_leased (omega arith)

superseded_holder_example :
    ((until at : ℕ) → heartbeat 7 "w1" 1 until at reclaimed ≡ (false, reclaimed))
    × ((outcome : JobOutcome) (at : ℕ) (retry_at : Option ℕ) (code : Option String)
        → finish_transaction first_holder outcome at retry_at code reclaimed
          ≡ err (value_error "job lease is no longer owned by this attempt"))
superseded_holder_example =
    superseded_holder unlocked "w1" 120 60 two_jobs two_jobs-IsConsistent first_holder one_leased
      claim_first unlocked "w1" 200 60 second_holder reclaimed claim_again refl

claim_specific_outcome_example :
    SpecificOutcome queued_job 1 "w1" 120 60 two_jobs
      (claim_specific (some 7) 1 "w1" 120 60 two_jobs)
unfolding find_job find
claim_specific_outcome_example =
    claim_specific_outcome queued_job 1 "w1" 120 60 two_jobs two_jobs-IsConsistent refl
      (omega arith)

finish-Ended_example :
    Ended second_holder retry 210
      (some 900)
      (some "calendar_submit_unavailable")
      reclaimed
      none
      buried
finish-Ended_example =
    finish-Ended second_holder retry 210 (some 900) (some "calendar_submit_unavailable") reclaimed
      none buried reclaimed-IsConsistent finish_last

Calls-IsConsistent_example : IsConsistent buried
Calls-IsConsistent_example = Calls-IsConsistent reclaimed-IsConsistent (
    Calls.one_more Calls.none_yet (
      Call.finished second_holder retry 210 (some 900) (some "calendar_submit_unavailable") none
        finish_last))
