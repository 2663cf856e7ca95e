-- ===== src/Pipeline.antt =====
-- admin/routers/pipeline.py: the list of jobs, page by page, and the actions on a job.
pub mod Ties
pub mod Pages
pub mod Cancel
use think_tank.Prelude.{
  ℕ, suc, ◌+◌, ◌-◌, ◌*◌, ◌/◌, max, min, ℤ, pos, pos_part, String, Bool, true, false, not, ◌&&◌,
  ◌||◌, Option, none, some, List, [], ◌∷◌, ◌++◌, length, take, drop, select, any, codes, strip,
  is_blank, same, leb, ltb, ◌==◌, str_eq, if◌then◌else◌,
}
use think_tank.Json.{Value, str, null, obj, empty, entry, Fields, put, truthy}
use think_tank.Queue.Job.{
  Job, Status, pending, running, retrying, done, failed, cancelled, awaiting_llm, new_job, find_job,
  update_job,
}
use think_tank.Schedule.{Clock, hour}

-- The query string; `none` is a parameter that is missing.
pub record Filters : Type 0 where
  pub status : Option String
  pub job_type : Option String
  pub date_from : Option String
  pub date_to : Option String

-- The text of the column `status`.
unfoldable pub status_text : Status → String
status_text pending = "pending"
status_text running = "running"
status_text retrying = "retrying"
status_text done = "done"
status_text failed = "failed"
status_text cancelled = "cancelled"
status_text awaiting_llm = "awaiting_llm"

-- `value and value.strip()`
unfoldable pub given : Option String → Option String
unfolding is_blank
given none = none
given (some s) = if is_blank (codes s) then none else some s

unfoldable pub matches_text : Option String → String → Bool
matches_text none column = true
matches_text (some s) column = str_eq column s

abbrev pub page_size : ℕ
page_size = 25

module _ (clock : Clock) where
  -- A date that cannot be read filters nothing.
  unfoldable pub since : Option String → ℕ → Bool
  since none t = true
  since (some s) t = elim (clock.fromisoformat s) [ none ↦ true | some from ↦ leb from t ]

  -- The day of the date itself is in.
  unfoldable pub until : Option String → ℕ → Bool
  until none t = true
  until (some s) t = elim (clock.fromisoformat s) [ none ↦ true | some to ↦ ltb t (to + 24 * hour) ]

  unfoldable pub passes_filters : Filters → Job → Bool
  unfolding given matches_text status_text since until
  passes_filters f j =
      matches_text (given f.status) (status_text j.status)
      && matches_text (given f.job_type) j.job_type
      && since (given f.date_from) j.created_at
      && until (given f.date_to) j.created_at

  unfoldable pub filtered_jobs : Filters → List Job → List Job
  unfolding passes_filters
  filtered_jobs f jobs = select (passes_filters f) jobs

  unfoldable pub total_pages : Filters → List Job → ℕ
  unfolding filtered_jobs
  total_pages f jobs = max 1 ((length (filtered_jobs f jobs) + page_size - 1) / page_size)

  -- The page that is shown, and its rows. `ordered` is the ORDER BY of this query: the database puts
  -- rows of the same `created_at` in any order, which may be another for the next query.
  unfoldable pub job_list_partial : (List Job → List Job) → Filters → ℤ → List Job → ℕ × List Job
  unfolding total_pages filtered_jobs
  job_list_partial ordered f page jobs =
      let shown = min (max 1 (pos_part page)) (total_pages f jobs) in
      (shown, take page_size (drop ((shown - 1) * page_size) (ordered (filtered_jobs f jobs))))

-- The answers of the actions: 404, 422, a message that nothing was done, or the new table.
pub data Answer : Type 0 where
  not_found : Answer
  unprocessable : Answer
  refused : Answer
  changed : List Job → Answer

abbrev pub allowed_trigger_types : List String
allowed_trigger_types =
    "refresh_due_sources" ∷ "scan_for_candidates" ∷ "discover_guests_podcastindex"
    ∷ "discover_thinker" ∷ "enqueue_pending_transcriptions" ∷ "expert_search" ∷ []

-- `payload[key] = value.strip()` of a value that is given; `text` is the text of code points.
unfoldable pub add_field : (List ℕ → String) → String → Option String → Fields → Fields
unfolding given put strip
add_field text key value payload = elim (given value) [
  | none ↦ payload
  | some s ↦ put payload key (str (text (strip (codes s))))
]

unfoldable pub is_given : Option String → Bool
unfolding given
is_given value = elim (given value) [ none ↦ false | some s ↦ true ]

unfoldable pub trigger_job :
    (List ℕ → String) → ℕ → ℕ → String → Option String → Option String → String → List Job → Answer
unfolding new_job add_field is_given
trigger_job text now i job_type thinker_id area principal jobs =
    let triggered =
      add_field text "thinker_id" thinker_id (entry "triggered_by" (str principal) empty) in
    let is_search = str_eq job_type "expert_search" in
    let payload = if is_search then add_field text "area" area triggered else triggered in
    if not (any (λ t. str_eq t job_type) allowed_trigger_types)
    then unprocessable
    else if is_search && not (is_given area)
    then unprocessable
    else changed (jobs ++ new_job now i job_type (obj payload) 5 ∷ [])

-- `dict(job.payload) if job.payload else {}`
unfoldable pub copied_payload : Value → Value
unfolding truthy
copied_payload v = if truthy v then v else obj empty

unfoldable pub is_failed : Status → Bool
is_failed failed = true
is_failed s = false

unfoldable pub is_pending : Status → Bool
is_pending pending = true
is_pending s = false

unfoldable pub retry_job : ℕ → ℕ → ℕ → List Job → Answer
unfolding find_job is_failed new_job copied_payload
retry_job now new_id job_id jobs = elim (find_job job_id jobs) [
  | none ↦ not_found
  | some j ↦
      if is_failed j.status
      then changed (jobs ++ new_job now new_id j.job_type (copied_payload j.payload) 5 ∷ [])
      else refused
]

unfoldable pub cancel_job : ℕ → List Job → Answer
unfolding find_job is_pending update_job
cancel_job job_id jobs = elim (find_job job_id jobs) [
  | none ↦ not_found
  | some j ↦
      if is_pending j.status
      then changed (update_job job_id (λ k. record k { status = cancelled }) jobs)
      else refused
]
