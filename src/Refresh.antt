-- ===== src/Refresh.antt =====
-- handlers/refresh_due_sources.py: a fetch job for each source that is due, unless it has one.
pub mod Single
use think_tank.Prelude.{
  ℕ, ◌+◌, ◌*◌, pos, String, Bool, true, false, ◌&&◌, ◌||◌, Option, none, some, List, [], ◌∷◌, ◌++◌,
  ltb, leb, ◌==◌, str_eq, select, tally, if◌then◌else◌,
}
use think_tank.Json.{int, obj, entry, empty}
use think_tank.Queue.Job.{Job, minute, is_queued, is_running, new_job, payload_is}
use think_tank.Governance.{Source}

-- `last_fetched IS NULL OR last_fetched + MAKE_INTERVAL(hours) < LOCALTIMESTAMP`; a NULL interval
-- compares as false.
unfoldable pub is_past : ℕ → Option ℕ → Option ℕ → Bool
is_past now none hours = true
is_past now (some t) none = false
is_past now (some t) (some hours) = ltb (t + hours * (60 * minute)) now

unfoldable pub is_due : ℕ → Source → Bool
unfolding is_past
is_due now s =
    s.active
    && str_eq s.approval_status "approved"
    && is_past now s.last_fetched s.refresh_interval_hours

unfoldable pub fetch_job_type : Source → String
fetch_job_type s =
    if str_eq s.source_type "youtube_channel" then "fetch_youtube_channel" else "fetch_podcast_feed"

-- Pending, running or retrying, of this type and for this source.
unfoldable pub fetches : String → ℕ → Job → Bool
unfolding is_queued is_running payload_is
fetches job_type i j =
    str_eq j.job_type job_type
    && payload_is "source_id" i j.payload
    && (is_queued j.status || is_running j.status)

unfoldable pub in_flight : String → ℕ → List Job → ℕ
unfolding fetches
in_flight job_type i jobs = tally (fetches job_type i) jobs

unfoldable pub fetch_job : ℕ → ℕ → Source → Job
unfolding new_job fetch_job_type
fetch_job now i s =
    new_job now i (fetch_job_type s) (obj (entry "source_id" (int (pos s.id)) empty)) 2

-- One source; `none` is the MultipleResultsFound of `scalar_one_or_none()`.
unfoldable pub refresh_source : ℕ → ℕ → Source → List Job → Option (List Job)
unfolding in_flight fetch_job
refresh_source now i s jobs =
    let n = in_flight (fetch_job_type s) s.id jobs in
    if n == 0 then some (jobs ++ fetch_job now i s ∷ []) else if n == 1 then some jobs else none

-- The loop; the n-th id is drawn for the n-th source.
unfoldable pub refresh_each : ℕ → (ℕ → ℕ) → ℕ → List Source → List Job → Option (List Job)
unfolding refresh_source
refresh_each now uuid4 n [] jobs = some jobs
refresh_each now uuid4 n (s ∷ ss) jobs = elim (refresh_source now (uuid4 n) s jobs) [
  | none ↦ none
  | some after ↦ refresh_each now uuid4 (n + 1) ss after
]

unfoldable pub handle_refresh_due_sources : ℕ → (ℕ → ℕ) → List Source → List Job → Option (List Job)
unfolding refresh_each is_due
handle_refresh_due_sources now uuid4 sources jobs =
    refresh_each now uuid4 0 (select (is_due now) sources) jobs
