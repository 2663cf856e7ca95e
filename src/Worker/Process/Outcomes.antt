-- ===== src/Worker/Process/Outcomes.antt =====
-- How a claimed job ends.
use think_tank.Prelude.{ℕ, ◌+◌, ◌≡◌, ap, ◌<◌, refl, String, Option, none, some, List, arith}
use think_tank.Queue.Job.{Job, done, failed, handler_not_found, find_job, ErrorCategory}
use think_tank.Queue.Retry.{get_max_attempts}
use think_tank.Queue.Errors.{Exc, categorize_error}
use think_tank.Queue.Claim.{mark_done, retry_delay, attempt_limit}
use think_tank.Queue.Claim.Failure.{FailedRow, fail_job-FailedRow, find_job-complete_job}
use think_tank.Worker.Process.{Handler, retry_hint, finish, run_handler, process_job}

-- How the row of a processed job ends.
pub data Ends (now : ℕ) (message : String) (h : Option Handler) (job j j' : Job) (jobs : List Job)
    : Type 0 where
  unhandled :
      h ≡ none
      → FailedRow now message handler_not_found 1 (retry_delay j.attempts none) j j'
      → j'.status ≡ failed
      → Ends now message h job j j' jobs
  completed :
      (f : Handler)
      → h ≡ some f
      → (f job jobs).0 ≡ none
      → j'.status ≡ done
      → Ends now message h job j j' jobs
  raised :
      (f : Handler) (e : Exc)
      → h ≡ some f
      → (f job jobs).0 ≡ some e
      → FailedRow now e.text
          (categorize_error e)
          (get_max_attempts job.job_type)
          (retry_delay j.attempts (retry_hint e))
          j
          j'
      → Ends now message h job j j' jobs

-- The table that the handler leaves; without a handler nothing ran.
abbrev pub left_by : Option Handler → Job → List Job → List Job
left_by none job jobs = jobs
left_by (some f) job jobs = (f job jobs).1

-- One attempt is all that a job without a handler gets.
one_attempt :
    {now : ℕ} {msg : String} {c : ErrorCategory} (delay : ℕ) {j j' : Job}
    → FailedRow now msg c 1 delay j j'
    → 0 < j.attempts
    → j'.status ≡ failed
one_attempt delay row pos = ground (arith, row.outcome)

module _ (now : ℕ) (message : String → String) (job : Job) (jobs : List Job) where
  finish-Ends :
      (f : Handler) (out : Option Exc × List Job) {j : Job}
      → f job jobs ≡ out
      → find_job job.id out.1 ≡ some j
      → (j' : Job) × (find_job job.id (finish now job out) ≡ some j')
        × Ends now (message job.job_type) (some f) job j j' jobs
  unfolding finish
  finish-Ends f (none, left) {j} e found = (
    mark_done now j,
    find_job-complete_job now job.id left found,
    completed f refl (ap (λ o. o.0) e) (unfold mark_done in refl),
  )
  finish-Ends f (some x, left) {j} e found =
      let (j', at, row) =
        fail_job-FailedRow now job.id x.text (categorize_error x)
          (some (get_max_attempts job.job_type)) (retry_hint x) left found in
      (j', at, raised f x refl (ap (λ o. o.0) e) (unfold attempt_limit in row))

  run_handler-Ends :
      (h : Option Handler) {j : Job}
      → find_job job.id (left_by h job jobs) ≡ some j
      → 0 < j.attempts
      → (j' : Job) × (find_job job.id (run_handler now message h job jobs) ≡ some j')
        × Ends now (message job.job_type) h job j j' jobs
  unfolding run_handler attempt_limit
  run_handler-Ends none {j} found pos =
      let (j', at, row) =
        fail_job-FailedRow now job.id (message job.job_type) handler_not_found (some 1) none jobs
          found in
      (j', at, unhandled refl row (one_attempt (retry_delay j.attempts none) row pos))
  run_handler-Ends (some f) found pos = finish-Ends f (f job jobs) refl found

  -- A claimed job (it has at least one attempt) whose row is there when its handler returns ends
  -- in one of three ways, and a permit is released in each: without a handler the row is 'failed'
  -- for good; after a normal return it is 'done'; after an exception it carries the exception's
  -- text and category, is retried while attempts remain under the limit of its type, after the
  -- upstream's hint or else the backoff, and is 'failed' otherwise.
  pub process_job-Ends :
      (get_handler : String → Option Handler) (permits : ℕ) {j : Job}
      → find_job job.id (left_by (get_handler job.job_type) job jobs) ≡ some j
      → 0 < j.attempts
      → (j' : Job) × (find_job job.id (process_job now message get_handler job permits jobs).0
          ≡ some j')
        × Ends now (message job.job_type) (get_handler job.job_type) job j j' jobs
        × ((process_job now message get_handler job permits jobs).1 ≡ permits + 1)
  unfolding process_job
  process_job-Ends get_handler permits found pos =
      let (j', at, ends) = run_handler-Ends (get_handler job.job_type) found pos in
      (j', at, ends, refl)
