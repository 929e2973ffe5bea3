-- ===== src/Jobs/Consistency.antt =====
-- The invariant of the tables of jobs, attempts and dispatches.
use spacerocks_coa.Base.{
  ℕ, ◌≤◌, ◌<◌, ◌≡◌, ◌≢◌, refl, true, none, some, List, [], ◌∷◌, ◌++◌, arith, is_some, length, codes,
  find, replace, find-append,
}
use spacerocks_coa.Base.Ordering.{IsRow}
use spacerocks_coa.Db.{Db, DurableJob, leased}
use spacerocks_coa.Db.Access.{has_job_id, find_job, find_attempt, find_dispatch}
use spacerocks_coa.Db.Laws.{find_job-replace}

-- The check constraints of durable_jobs, and what ties its columns to one another.
pub record IsValidJob (j : DurableJob) : Type 0 where
  pub key_given : 1 ≤ length (codes j.job_key)
  pub key_fits : length (codes j.job_key) ≤ 160
  pub attempts_allowed : 0 < j.max_attempts
  pub attempts_capped : j.attempt_count ≤ j.max_attempts
  pub generation_positive : 0 < j.generation
  pub held : j.state ≡ leased → (is_some j.lease_owner ≡ true) × (is_some j.lease_until ≡ true)
  pub free : j.state ≢ leased → (j.lease_owner ≡ none) × (j.lease_until ≡ none)

-- no two rows have one id
abbrev pub Distinct : List DurableJob → Type 0
Distinct [] = Unit
Distinct (x ∷ xs) = (find (has_job_id x.id) xs ≡ none) × Distinct xs

pub record IsConsistent (db : Db) : Type 0 where
  pub distinct : Distinct db.durable_jobs
  pub valid : (i : ℕ) (j : DurableJob) → find_job db i ≡ some j → IsValidJob j
  -- the last attempt of a job has a row, and no later attempt has one
  pub last_attempt :
      (i : ℕ) (j : DurableJob)
      → find_job db i ≡ some j
      → 0 < j.attempt_count
      → find_attempt db i j.attempt_count ≢ none
  pub no_later_attempt :
      (i n : ℕ) (j : DurableJob)
      → find_job db i ≡ some j
      → j.attempt_count < n
      → find_attempt db i n ≡ none
  -- the generation of a job has a dispatch, and no later generation has one
  pub last_dispatch :
      (i : ℕ) (j : DurableJob) → find_job db i ≡ some j → find_dispatch db i j.generation ≢ none
  pub no_later_dispatch :
      (i g : ℕ) (j : DurableJob)
      → find_job db i ≡ some j
      → j.generation < g
      → find_dispatch db i g ≡ none
  -- attempts and dispatches have a job
  pub attempt_has_job : (i n : ℕ) → find_job db i ≡ none → find_attempt db i n ≡ none
  pub dispatch_has_job : (i g : ℕ) → find_job db i ≡ none → find_dispatch db i g ≡ none

Distinct-row :
    (rows : List DurableJob) (j : DurableJob)
    → Distinct rows
    → IsRow j rows
    → find (has_job_id j.id) rows ≡ some j
unfolding find
Distinct-row [] j d h = absurd h
Distinct-row (x ∷ xs) j d h = ground (arith, Distinct-row xs j d.1)

-- a row of the table is the one that its id finds
pub IsRow-find_job :
    (db : Db) (j : DurableJob)
    → Distinct db.durable_jobs
    → IsRow j db.durable_jobs
    → find_job db j.id ≡ some j
unfolding find_job
IsRow-find_job db j = Distinct-row db.durable_jobs j

pub Distinct-replace :
    (j : DurableJob) (rows : List DurableJob)
    → Distinct rows
    → Distinct (replace (has_job_id j.id) j rows)
unfolding replace
Distinct-replace j [] d = tt
Distinct-replace j (x ∷ xs) d =
    ground (arith, find_job-replace j x.id xs, Distinct-replace j xs d.1)

pub Distinct-append :
    (j : DurableJob) (rows : List DurableJob)
    → Distinct rows
    → find (has_job_id j.id) rows ≡ none
    → Distinct (rows ++ j ∷ [])
unfolding find
Distinct-append j [] d e = (refl, tt)
Distinct-append j (x ∷ xs) d e =
    ground (arith, find-append (has_job_id x.id) xs (j ∷ []), Distinct-append j xs d.1)
