-- ===== src/Queue/Job.antt =====
-- models/job.py, and the closed set of error categories of queue/errors.py.
use think_tank.Prelude.{
  ℕ, String, Bool, pos, true, false, Option, none, some, List, [], ◌∷◌, ◌==◌, if◌then◌else◌,
}
use think_tank.Json.{Value, obj, int, null, get}

-- ALLOWED_JOB_STATUSES, the domain of the CHECK constraint.
pub data Status : Type 0 where
  pending running retrying done failed cancelled awaiting_llm : Status

pub data ErrorCategory : Type 0 where
  rss_parse http_timeout http_error rate_limited youtube_rate_limit : ErrorCategory
  podcastindex_error api_error : ErrorCategory
  transcription_failed audio_download_failed audio_conversion_failed : ErrorCategory
  llm_api_error llm_timeout llm_parse_error : ErrorCategory
  worker_timeout database_error payload_invalid handler_not_found unknown : ErrorCategory

-- Times are microseconds since the epoch, in UTC; ids stand for UUIDs. Priorities and attempts are
-- never negative: the columns start at 5 and 0, and the code only adds to them.
pub record Job : Type 0 where
  pub id : ℕ
  pub job_type : String
  pub payload : Value
  pub status : Status
  pub priority : ℕ
  pub attempts : ℕ
  pub max_attempts : ℕ
  pub error : Option String
  pub error_category : Option ErrorCategory
  pub last_error_at : Option ℕ
  pub worker_id : Option String
  pub llm_review_id : Option ℕ
  pub scheduled_at : Option ℕ
  pub started_at : Option ℕ
  pub completed_at : Option ℕ
  pub created_at : ℕ

-- A row that `session.add(Job(…))` inserts; the columns that the call leaves out have the defaults
-- of the table.
unfoldable pub new_job : ℕ → ℕ → String → Value → ℕ → Job
new_job now i job_type payload priority = record {
  id = i;
  job_type = job_type;
  payload = payload;
  status = pending;
  priority = priority;
  attempts = 0;
  max_attempts = 3;
  error = none;
  error_category = none;
  last_error_at = none;
  worker_id = none;
  llm_review_id = none;
  scheduled_at = none;
  started_at = none;
  completed_at = none;
  created_at = now;
}

abbrev pub minute : ℕ
minute = 60000000

abbrev pub second : ℕ
second = 1000000

-- `status IN ('pending', 'retrying')`
unfoldable pub is_queued : Status → Bool
is_queued pending = true
is_queued retrying = true
is_queued _ = false

unfoldable pub is_running : Status → Bool
is_running running = true
is_running _ = false

unfoldable pub is_done : Status → Bool
is_done done = true
is_done _ = false

-- `session.get(Job, id)`: by the primary key.
unfoldable pub find_job : ℕ → List Job → Option Job
find_job i [] = none
find_job i (j ∷ js) = if j.id == i then some j else find_job i js

-- `UPDATE jobs SET … WHERE id = i`
unfoldable pub update_job : ℕ → (Job → Job) → List Job → List Job
update_job i f [] = []
update_job i f (j ∷ js) = (if j.id == i then f j else j) ∷ update_job i f js

-- `payload[key].astext == str(i)`: in a payload the number of an id stands for its text.
unfoldable pub payload_is : String → ℕ → Value → Bool
unfolding get
payload_is key i (obj fs) = elim (get fs key null) [ int (pos n) ↦ n == i | _ ↦ false ]
payload_is key i _ = false
