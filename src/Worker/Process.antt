-- ===== src/Worker/Process.antt =====
-- `_process_job` of worker/loop.py.
pub mod Outcomes
use think_tank.Prelude.{ℕ, ◌+◌, String, Bool, true, false, Option, none, some, List, if◌then◌else◌}
use think_tank.Queue.Job.{Job, handler_not_found}
use think_tank.Queue.Retry.{get_max_attempts}
use think_tank.Queue.Errors.{Exc, ExcClass, categorize_error}
use think_tank.Queue.Claim.{complete_job, fail_job}

-- What a handler leaves in the table `jobs` (its own commits stay, also when it raises), and the
-- exception if it raised one.
abbrev pub Handler : Type 0
Handler = Job → List Job → Option Exc × List Job

-- `exc.retry_after_seconds if isinstance(exc, RateLimitedError) else None`
unfoldable pub retry_hint : Exc → Option ℕ
retry_hint e = if e.isinstance ExcClass.rate_limited_error then e.retry_after_seconds else none

unfoldable pub finish : ℕ → Job → Option Exc × List Job → List Job
unfolding retry_hint
finish now job (none, jobs) = complete_job now job.id jobs
finish now job (some e, jobs) =
    fail_job now job.id e.text (categorize_error e) (some (get_max_attempts job.job_type))
      (retry_hint e) jobs

-- The message is `f"No handler registered for job type: {job.job_type}"`, given as an input.
unfoldable pub run_handler : ℕ → (String → String) → Option Handler → Job → List Job → List Job
unfolding finish
run_handler now message none job jobs =
    fail_job now job.id (message job.job_type) handler_not_found (some 1) none jobs
run_handler now message (some handler) job jobs = finish now job (handler job jobs)

-- The table afterwards, and the permits of the semaphore, which is released on every path.
unfoldable pub process_job :
    ℕ → (String → String) → (String → Option Handler) → Job → ℕ → List Job → List Job × ℕ
unfolding run_handler
process_job now message get_handler job permits jobs =
    (run_handler now message (get_handler job.job_type) job jobs, permits + 1)
