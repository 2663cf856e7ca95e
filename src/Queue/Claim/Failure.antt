-- ===== src/Queue/Claim/Failure.antt =====
-- What a failure does to its row, and when the row may be claimed again.
use think_tank.Prelude.{
  ℕ, ◌+◌, ◌≡◌, ◌<◌, refl, String, true, false, ◌&&◌, Option, none, some, List, ltb, leb,
  if◌then◌else◌, arith, ==_self,
}
use think_tank.Queue.Job.{Job, retrying, failed, ErrorCategory, find_job}
use think_tank.Queue.Rows.{KeepsId, find_job-update}
use think_tank.Queue.Claim.{
  is_eligible, mark_done, complete_job, retry_delay, mark_failed, attempt_limit, fail_job,
}

pub mark_failed_id :
    (now : ℕ) (msg : String) (c : ErrorCategory) (n : ℕ) (retry_after : Option ℕ)
    → KeepsId (mark_failed now msg c n retry_after)
unfolding mark_failed
mark_failed_id now msg c n retry_after j = ground arith

pub mark_done_id : (now : ℕ) → KeepsId (mark_done now)
unfolding mark_done
mark_done_id now j = refl

pub find_job-complete_job :
    (now i : ℕ) (jobs : List Job) {j : Job}
    → find_job i jobs ≡ some j
    → find_job i (complete_job now i jobs) ≡ some (mark_done now j)
unfolding complete_job
find_job-complete_job now i jobs {j} h =
    rw (find_job-update i i (mark_done now) (mark_done_id now) jobs, ==_self i, h) refl

module _ (now i : ℕ) (msg : String) (c : ErrorCategory) (limit : Option ℕ) (retry_after : Option ℕ)
    (jobs : List Job) {j : Job} (found : find_job i jobs ≡ some j) where
  -- The row as it stands after the failure.
  pub find_job-fail_job :
      find_job i (fail_job now i msg c limit retry_after jobs)
      ≡ some (mark_failed now msg c (attempt_limit limit j.job_type) retry_after j)
  unfolding fail_job
  find_job-fail_job =
      let n = attempt_limit limit j.job_type in
      let f = mark_failed now msg c n retry_after in
      rw (found, fail_job)
        (rw (find_job-update i i f (mark_failed_id now msg c n retry_after) jobs, ==_self i, found)
          refl)

-- A row as `fail_job` leaves it.
pub record FailedRow (now : ℕ) (msg : String) (c : ErrorCategory) (limit delay : ℕ) (j j' : Job)
    : Type 0 where
  pub job_kept :
      (j'.id ≡ j.id)
      × (j'.job_type ≡ j.job_type)
      × (j'.payload ≡ j.payload)
      × (j'.attempts ≡ j.attempts)
  pub reported :
      (j'.error ≡ some msg) × (j'.error_category ≡ some c) × (j'.last_error_at ≡ some now)
  pub outcome : j'.status ≡ (if ltb j.attempts limit then retrying else failed)
  pub released : j'.worker_id ≡ (if ltb j.attempts limit then none else j.worker_id)
  pub ended : j'.completed_at ≡ (if ltb j.attempts limit then j.completed_at else some now)
  pub claimable :
      (t : ℕ) → is_eligible t none (λ _. false) j' ≡ (ltb j.attempts limit && leb (now + delay) t)

mark_failed-FailedRow :
    (now : ℕ) (msg : String) (c : ErrorCategory) (limit : ℕ) (retry_after : Option ℕ) (j : Job)
    → FailedRow now msg c limit
        (retry_delay j.attempts retry_after)
        j
        (mark_failed now msg c limit retry_after j)
unfolding mark_failed is_eligible
mark_failed-FailedRow now msg c limit retry_after j = record {
  job_kept = ground arith;
  reported = ground arith;
  outcome = ground arith;
  released = ground arith;
  ended = ground arith;
  claimable = λ t. ground arith;
}

-- After `fail_job` the row of a known job keeps its identity, payload and attempts and carries the
-- report; it is 'retrying' and without a worker while attempts remain under the limit, and 'failed'
-- and completed now otherwise; and it can be claimed at time t exactly when attempts remain and the delay (the upstream's hint, else the
-- backoff) has passed.
pub fail_job-FailedRow :
    (now i : ℕ) (msg : String) (c : ErrorCategory) (limit : Option ℕ) (retry_after : Option ℕ)
    (jobs : List Job) {j : Job}
    → find_job i jobs ≡ some j
    → (j' : Job) × (find_job i (fail_job now i msg c limit retry_after jobs) ≡ some j')
      × FailedRow now msg c
          (attempt_limit limit j.job_type)
          (retry_delay j.attempts retry_after)
          j
          j'
fail_job-FailedRow now i msg c limit retry_after jobs {j} h =
    let n = attempt_limit limit j.job_type in
    (
      mark_failed now msg c n retry_after j,
      find_job-fail_job now i msg c limit retry_after jobs h,
      mark_failed-FailedRow now msg c n retry_after j,
    )

-- Neither operation looks at the status or at the owner: a failure that is reported after the job
-- was completed, with attempts left, puts the completed job back in the queue.
pub fail_job-complete_job :
    (t now i : ℕ) (msg : String) (c : ErrorCategory) (limit : Option ℕ) (retry_after : Option ℕ)
    (jobs : List Job) {j : Job}
    → find_job i jobs ≡ some j
    → j.attempts < attempt_limit limit j.job_type
    → (j' : Job) × (find_job i (fail_job now i msg c limit retry_after (complete_job t i jobs))
        ≡ some j')
      × (is_eligible (now + retry_delay j.attempts retry_after) none (λ _. false) j' ≡ true)
unfolding mark_done
fail_job-complete_job t now i msg c limit retry_after jobs {j} h less =
    let (j', at, row) =
      fail_job-FailedRow now i msg c limit retry_after (complete_job t i jobs)
        (find_job-complete_job t i jobs h) in
    (j', at, ground (arith, row.claimable (now + retry_delay j.attempts retry_after)))
