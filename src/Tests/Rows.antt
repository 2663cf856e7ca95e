-- ===== src/Tests/Rows.antt =====
-- Rows and settings for the tests.
use think_tank.Prelude.{ℕ, String, none, some, List, [], ◌∷◌, pos, Bool, false, arith}
use think_tank.Json.{obj, empty, int, entry, bool}
use think_tank.Config.{SystemConfig}
use think_tank.Queue.Rows.{Distinct}
use think_tank.Queue.Job.{Job, Status, pending, retrying, running, done}

abbrev pub row : ℕ → String → Status → ℕ → ℕ → Job
row id job_type status priority attempts = record {
  id = id;
  job_type = job_type;
  payload = obj empty;
  status = status;
  priority = priority;
  attempts = attempts;
  max_attempts = 3;
  error = none;
  error_category = none;
  last_error_at = none;
  worker_id = none;
  llm_review_id = none;
  scheduled_at = none;
  started_at = none;
  completed_at = none;
  created_at = 0;
}

abbrev pub table : List Job
table =
    row 1 "fetch_podcast_feed" pending 5 0
    ∷ row 2 "process_content" pending 3 0
    ∷ row 3 "process_content" done 1 1
    ∷ record (row 4 "process_content" retrying 3 1) { scheduled_at = some 100 }
    ∷ record (row 5 "fetch_podcast_feed" running 5 1) { started_at = some 10 }
    ∷ []

abbrev pub unlocked : ℕ → Bool
unlocked i = false

abbrev pub config : List SystemConfig
config =
    record { key = "max_pending_transcriptions"; value = obj (entry "value" (int (pos 1)) empty) }
    ∷ record { key = "stale_job_timeout_minutes"; value = int (pos 1) }
    ∷ record { key = "workers_active"; value = obj (entry "value" (bool false) empty) }
    ∷ []

pub table-Distinct : Distinct table
table-Distinct = omega arith
