-- ===== src/Jobs/Models.antt =====
-- app/jobs/models.py: what a job is asked to do, a claim on it, and the delay before a retry.
-- Seconds and ratios are floats in the source; here a span is in microseconds and a ratio in
-- millionths, with the division last, so a delay differs by less than a microsecond and the
-- rounding of floats.
use spacerocks_coa.Base.{
  ℕ, ◌+◌, ◌-◌, ◌*◌, ◌/◌, ◌^◌, String, ◌||◌, ltb, if◌then◌else◌, length, codes, min, Result, ok, err,
  value_error,
}
use spacerocks_coa.Db.{JobState}

pub data JobOutcome : Type 0 where
  complete retry manual_review dead_letter : JobOutcome

-- the member of JobState with the value of the outcome
abbrev pub outcome_state : JobOutcome → JobState
outcome_state complete = JobState.complete
outcome_state retry = JobState.retry
outcome_state manual_review = JobState.manual_review
outcome_state dead_letter = JobState.dead_letter

pub record JobSpec : Type 0 where
  pub job_key : String
  pub kind : String
  pub order_id : ℕ
  pub max_attempts : ℕ

-- `JobSpec(...)` with the test of `__post_init__`
unfoldable pub job_spec : String → String → ℕ → ℕ → Result JobSpec
job_spec job_key kind order_id max_attempts =
    if ltb (length (codes job_key)) 1 || (ltb 160 (length (codes job_key)) || ltb max_attempts 1)
    then err (value_error "invalid durable job specification")
    else ok (record {
      job_key = job_key;
      kind = kind;
      order_id = order_id;
      max_attempts = max_attempts;
    })

pub record ClaimedJob : Type 0 where
  pub id : ℕ
  pub spec : JobSpec
  pub attempt : ℕ
  pub lease_owner : String
  pub lease_until : ℕ

pub record BackoffPolicy : Type 0 where
  pub base : ℕ
  pub maximum : ℕ
  pub jitter_ratio : ℕ

abbrev pub default_backoff : BackoffPolicy
default_backoff = record { base = 30000000; maximum = 21600000000; jitter_ratio = 200000 }

-- one as a ratio
abbrev pub unit_ratio : ℕ
unit_ratio = 1000000

-- `delay(attempt, jitter_unit)`. The factor is not negative where the ratio is at most one.
unfoldable pub delay : BackoffPolicy → ℕ → ℕ → Result ℕ
delay policy attempt jitter_unit =
    if ltb attempt 1 || (ltb unit_ratio jitter_unit || ltb unit_ratio policy.jitter_ratio)
    then err (value_error "invalid retry calculation inputs")
    else let exponential = min policy.maximum (policy.base * 2 ^ (attempt - 1)) in
      let factor =
        unit_ratio * unit_ratio
        - policy.jitter_ratio * unit_ratio
        + 2 * policy.jitter_ratio * jitter_unit in
      ok (exponential * factor / (unit_ratio * unit_ratio))
