-- ===== src/Tests/Transcription.antt =====
-- A sweep over four contents: an old one, one with a job, and two that wait.
use think_tank.Prelude.{ℕ, ◌+◌, ◌*◌, ◌≡◌, refl, pos, none, some, List, [], ◌∷◌, map}
use think_tank.Json.{ok, raise, overflow_error, int, obj, entry, empty}
use think_tank.Config.{SystemConfig}
use think_tank.Content.{Content}
use think_tank.Queue.Job.{Job, running}
use think_tank.Queue.Backpressure.{get_threshold}
use think_tank.Transcription.{day, get_transcription_age_cutoff}
use think_tank.Transcription.Sweep.{handle_enqueue_pending_transcriptions, pending_uncovered}
use think_tank.Transcription.Sweep.Budget.{Swept, handle_enqueue_pending_transcriptions-Swept}
use think_tank.Tests.Rows.{row, table}

abbrev now : ℕ
now = 5000 * day

abbrev settings : List SystemConfig
settings = record { key = "max_pending_transcriptions"; value = int (pos 3) } ∷ []

abbrev episode : ℕ → ℕ → ℕ → Content
episode id published_day discovered_at = record {
  id = id;
  url = "https://example.org/episode";
  canonical_url = "https://example.org/episode";
  content_fingerprint = none;
  source_guid = none;
  title = "An episode";
  description = none;
  duration_seconds = none;
  body_text = none;
  published_at = some (published_day * day);
  status = "pending";
  discovered_at = discovered_at;
}

abbrev pub episodes : List Content
episodes =
    episode 1 4900 30
    ∷ record (episode 2 0 20) { published_at = none }
    ∷ episode 3 100 10
    ∷ episode 4 4900 5
    ∷ []

abbrev jobs : List Job
jobs =
    record (row 9 "process_content" running 5 1) {
      payload = obj (entry "content_id" (int (pos 4)) empty);
    }
    ∷ table

threshold_three : get_threshold settings ≡ ok (pos 3)
unfolding get_threshold
threshold_three = refl

-- The undated episode was discovered before the first one.
waiting : map (λ c. c.id) (pending_uncovered (some (3175 * day)) jobs episodes) ≡ 2 ∷ 1 ∷ []
unfolding pending_uncovered
waiting = refl

aged : get_transcription_age_cutoff now settings ≡ ok (some (3175 * day))
unfolding get_transcription_age_cutoff
aged = refl

-- 2,000 years and more before the epoch there is no date.
too_old :
    get_transcription_age_cutoff now
      (record { key = "transcription_max_age_days"; value = int (pos 1000000) } ∷ [])
    ≡ raise overflow_error
unfolding get_transcription_age_cutoff think_tank.Json.to_int
too_old = refl

handle_enqueue_pending_transcriptions-Swept_example :
    (jobs' : List Job) × (handle_enqueue_pending_transcriptions now
        (λ i. 100 + i)
        settings
        episodes
        jobs
      ≡ ok jobs')
    × Swept now (λ i. 100 + i) (some (3175 * day)) (pos 3) episodes jobs jobs'
handle_enqueue_pending_transcriptions-Swept_example =
    handle_enqueue_pending_transcriptions-Swept now (λ i. 100 + i) settings episodes jobs
      threshold_three aged
