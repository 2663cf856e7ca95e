-- ===== src/Transcription/Sweep.antt =====
-- handlers/enqueue_pending_transcriptions.py: pending content without a job gets one, up to the
-- depth that the transcription queue may have.
pub mod Budget
use think_tank.Prelude.{
  ℕ, ◌-◌, pos, pos_part, leb_ℤ, String, Bool, true, false, not, ◌&&◌, Option, none, List, [], ◌∷◌,
  ◌++◌, map, take, select, any, order_by, str_eq, if◌then◌else◌,
}
use think_tank.Json.{int, obj, entry, empty, Result, ok, ◌>>=◌}
use think_tank.Config.{SystemConfig}
use think_tank.Content.{Content}
use think_tank.Queue.Job.{Job, new_job, is_done, payload_is}
use think_tank.Queue.Retry.{get_max_attempts}
use think_tank.Queue.Backpressure.{get_queue_depth, get_threshold}
use think_tank.Transcription.{get_transcription_age_cutoff, is_transcribable}

-- A `process_content` job in any status but 'done' covers the content of its payload.
unfoldable pub covers : ℕ → Job → Bool
unfolding is_done payload_is
covers i j =
    str_eq j.job_type "process_content"
    && not (is_done j.status)
    && payload_is "content_id" i j.payload

unfoldable pub is_due : Option ℕ → Content → Bool
unfolding is_transcribable
is_due cutoff c = str_eq c.status "pending" && is_transcribable c.published_at cutoff

-- `pending_ids`: oldest discovery first, then those without a job.
unfoldable pub pending_uncovered : Option ℕ → List Job → List Content → List Content
unfolding covers is_due order_by
pending_uncovered cutoff jobs contents =
    select (λ c. not (any (covers c.id) jobs))
      (order_by (λ c. c.discovered_at) (select (is_due cutoff) contents))

-- `uuid4` gives the id of the job for a content.
unfoldable pub process_content_job : ℕ → (ℕ → ℕ) → Content → Job
unfolding get_max_attempts new_job
process_content_job now uuid4 c =
    let payload = obj (entry "content_id" (int (pos c.id)) empty) in
    record (new_job now (uuid4 c.id) "process_content" payload 5) {
      max_attempts = get_max_attempts "process_content";
    }

-- `to_enqueue` and its jobs, below the threshold.
unfoldable pub enqueue_pending :
    ℕ → (ℕ → ℕ) → ℕ → List SystemConfig → List Content → List Job → Result (List Job)
unfolding pending_uncovered process_content_job get_transcription_age_cutoff
enqueue_pending now uuid4 budget config contents jobs = do
  cutoff ← get_transcription_age_cutoff now config
  let added = take budget (pending_uncovered cutoff jobs contents)
  ok (jobs ++ map (process_content_job now uuid4) added)

unfoldable pub handle_enqueue_pending_transcriptions :
    ℕ → (ℕ → ℕ) → List SystemConfig → List Content → List Job → Result (List Job)
unfolding get_queue_depth enqueue_pending
handle_enqueue_pending_transcriptions now uuid4 config contents jobs = do
  threshold ← get_threshold config
  let depth = get_queue_depth jobs "process_content"
  if leb_ℤ threshold (pos depth)
      then ok jobs
      else enqueue_pending now uuid4 (pos_part threshold - depth) config contents jobs
