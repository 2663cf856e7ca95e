-- ===== src/Queue/Claim.antt =====
-- queue/claim.py: claim, complete and fail a job.
pub mod Order
pub mod Ownership
pub mod Failure
use think_tank.Prelude.{
  ℕ, ◌+◌, ◌*◌, String, Bool, true, false, not, ◌&&◌, ◌||◌, Option, none, some, List, [], ◌∷◌, any,
  ltb, leb, ◌==◌, str_eq, if◌then◌else◌,
}
use think_tank.Queue.Job.{
  Job, Status, running, retrying, done, failed, ErrorCategory, second, is_queued, find_job,
  update_job,
}
use think_tank.Queue.Retry.{get_max_attempts, calculate_backoff, should_retry}

-- `scheduled_at IS NULL OR scheduled_at <= now`
unfoldable pub is_scheduled : ℕ → Option ℕ → Bool
is_scheduled now none = true
is_scheduled now (some t) = leb t now

-- `job_type IN (…)`, absent when the worker takes every type.
unfoldable pub takes_type : Option (List String) → String → Bool
takes_type none t = true
takes_type (some types) t = any (λ u. str_eq t u) types

-- The rows that the SELECT sees: `locked` are those that another transaction holds (SKIP LOCKED).
unfoldable pub is_eligible : ℕ → Option (List String) → (ℕ → Bool) → Job → Bool
unfolding is_queued is_scheduled takes_type
is_eligible now types locked j =
    is_queued j.status
    && is_scheduled now j.scheduled_at
    && takes_type types j.job_type
    && not (locked j.id)

-- `scheduled_at ASC NULLS FIRST`, strictly.
unfoldable pub earlier : Option ℕ → Option ℕ → Bool
earlier none none = false
earlier none (some t) = true
earlier (some s) none = false
earlier (some s) (some t) = ltb s t

-- `ORDER BY priority ASC, scheduled_at ASC NULLS FIRST`, strictly.
unfoldable pub sooner : Job → Job → Bool
unfolding earlier
sooner a b =
    ltb a.priority b.priority || (a.priority == b.priority && earlier a.scheduled_at b.scheduled_at)

keep_best : Job → Option Job → Job
unfolding sooner
keep_best j none = j
keep_best j (some k) = if sooner k j then k else j

-- `ORDER BY … LIMIT 1` over the rows that pass. Among rows that tie the database may return any;
-- here it is the first of the table.
unfoldable pub select_first : (Job → Bool) → List Job → Option Job
unfolding keep_best
select_first p [] = none
select_first p (j ∷ js) =
    let rest = select_first p js in if p j then some (keep_best j rest) else rest

-- What the claim writes to the row.
unfoldable pub mark_running : ℕ → String → Job → Job
mark_running now worker_id j = record j {
  status = running;
  worker_id = some worker_id;
  started_at = some now;
  attempts = j.attempts + 1;
}

-- The claimed job as it is returned, and the table after the commit.
unfoldable pub claim_job :
    ℕ → String → Option (List String) → (ℕ → Bool) → List Job → Option Job × List Job
unfolding mark_running
claim_job now worker_id types locked jobs =
    elim (select_first (is_eligible now types locked) jobs) [
      | none ↦ (none, jobs)
      | some j ↦
          (some (mark_running now worker_id j), update_job j.id (mark_running now worker_id) jobs)
    ]

unfoldable pub mark_done : ℕ → Job → Job
mark_done now j = record j {
  status = done;
  completed_at = some now;
  error = none;
  error_category = none;
}

unfoldable pub complete_job : ℕ → ℕ → List Job → List Job
unfolding mark_done
complete_job now i jobs = update_job i (mark_done now) jobs

-- The delay before the next try: the upstream's hint (seconds), else the backoff.
unfoldable pub retry_delay : ℕ → Option ℕ → ℕ
retry_delay attempts none = calculate_backoff attempts
retry_delay attempts (some seconds) = seconds * second

-- The row that `fail_job` has read, as it writes it back.
unfoldable pub mark_failed : ℕ → String → ErrorCategory → ℕ → Option ℕ → Job → Job
unfolding retry_delay
mark_failed now msg category max_attempts retry_after j =
    let reported = record j {
      error = some msg;
      error_category = some category;
      last_error_at = some now;
    } in
    if ltb j.attempts max_attempts
    then record reported {
      status = retrying;
      scheduled_at = some (now + retry_delay j.attempts retry_after);
      worker_id = none;
    }
    else record reported { status = failed; completed_at = some now }

-- `max_attempts` left out means the limit of the job's type.
unfoldable pub attempt_limit : Option ℕ → String → ℕ
attempt_limit none t = get_max_attempts t
attempt_limit (some n) t = n

unfoldable pub fail_job : ℕ → ℕ → String → ErrorCategory → Option ℕ → Option ℕ → List Job → List Job
unfolding mark_failed attempt_limit
fail_job now i msg category max_attempts retry_after jobs = elim (find_job i jobs) [
  | none ↦ jobs
  | some j ↦
      update_job i
        (mark_failed now msg category (attempt_limit max_attempts j.job_type) retry_after) jobs
]
