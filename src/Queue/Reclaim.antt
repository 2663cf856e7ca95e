-- ===== src/Queue/Reclaim.antt =====
-- queue/reclaim.py: jobs stuck in 'running' go back to the queue, or fail.
pub mod Settles
use think_tank.Prelude.{
  ℕ, ◌+◌, ◌*◌, ℤ, pos, pos_part, neg_part, String, Bool, true, false, not, ◌&&◌, Option, none, some,
  List, [], ◌∷◌, ltb, leb, ◌==◌, if◌then◌else◌, select,
}
use think_tank.Json.{Result, ok, ◌>>=◌}
use think_tank.Config.{SystemConfig, config_value, int_setting_or}
use think_tank.Queue.Job.{
  Job, Status, retrying, failed, worker_timeout, minute, is_running, update_job,
}
use think_tank.Queue.Retry.{backoff_minutes}

unfoldable pub get_stale_timeout : List SystemConfig → Result ℤ
unfolding int_setting_or config_value
get_stale_timeout config = int_setting_or (pos 30) (config_value "stale_job_timeout_minutes" config)

-- `started_at < NOW() - MAKE_INTERVAL(mins => timeout)`; a NULL compares as false, and a negative
-- timeout moves the bound into the future.
unfoldable pub started_before : ℕ → ℤ → Option ℕ → Bool
started_before now timeout none = false
started_before now timeout (some t) =
    ltb (t + pos_part timeout * minute) (now + neg_part timeout * minute)

-- The candidates of the SELECT … FOR UPDATE SKIP LOCKED.
unfoldable pub is_stale : ℕ → ℤ → (ℕ → Bool) → Job → Bool
unfolding is_running started_before
is_stale now timeout locked j =
    is_running j.status && started_before now timeout j.started_at && not (locked j.id)

-- The columns that the UPDATEs set, from the `attempts` and `max_attempts` that were read.
unfoldable pub mark_reclaimed : ℕ → ℕ → ℕ → Job → Job
mark_reclaimed now attempts max_attempts j =
    let released = record j {
      worker_id = none;
      attempts = attempts + 1;
      error = some "Reclaimed: exceeded stale_job_timeout_minutes";
      error_category = some worker_timeout;
      last_error_at = some now;
    } in
    if leb max_attempts (attempts + 1)
    then record released { status = failed; scheduled_at = none; completed_at = some now }
    else record released {
      status = retrying;
      scheduled_at = some (now + backoff_minutes (attempts + 1) * minute);
      completed_at = none;
    }

-- The loop over the candidates, one UPDATE by id for each.
unfoldable pub reclaim_each : ℕ → List Job → List Job → List Job
unfolding mark_reclaimed
reclaim_each now [] jobs = jobs
reclaim_each now (row ∷ rows) jobs =
    reclaim_each now rows
      (update_job row.id (mark_reclaimed now row.attempts row.max_attempts) jobs)

-- The candidates as they were read (the report that the source returns), and the table.
unfoldable pub reclaim_stale_jobs :
    ℕ → List SystemConfig → (ℕ → Bool) → List Job → Result (List Job × List Job)
unfolding reclaim_each
reclaim_stale_jobs now config locked jobs = do
  timeout ← get_stale_timeout config
  let rows = select (is_stale now timeout locked) jobs
  ok (rows, reclaim_each now rows jobs)
