-- ===== src/Queue/Backpressure.antt =====
-- queue/backpressure.py: discovery jobs are demoted while the transcription queue is deep.
pub mod Demotion
use think_tank.Prelude.{
  ℕ, ◌+◌, ◌*◌, ◌≤◌, ◌<◌, min, ℤ, pos, pos_part, neg_part, ◌≡◌, String, Bool, true, false, ◌&&◌,
  ◌||◌, List, [], ◌∷◌, ltb, ltb_ℤ, str_eq, if◌then◌else◌, tally, any, arith,
}
use think_tank.Json.{Result, ok, raise, ◌>>=◌}
use think_tank.Config.{SystemConfig, config_value, int_setting_or}
use think_tank.Queue.Job.{Job, is_queued}

abbrev pub backpressure_job_types : List String
backpressure_job_types =
    "discover_thinker" ∷ "refresh_due_sources" ∷ "fetch_podcast_feed" ∷ "scrape_substack"
    ∷ "fetch_youtube_channel" ∷ "fetch_guest_feed" ∷ "discover_guests_podcastindex"
    ∷ "search_youtube_appearances" ∷ "scan_for_candidates" ∷ []

unfoldable pub is_queued_of : String → Job → Bool
unfolding is_queued
is_queued_of t j = str_eq j.job_type t && is_queued j.status

unfoldable pub get_queue_depth : List Job → String → ℕ
unfolding is_queued_of
get_queue_depth jobs t = tally (is_queued_of t) jobs

unfoldable pub get_threshold : List SystemConfig → Result ℤ
unfolding int_setting_or config_value
get_threshold config = int_setting_or (pos 500) (config_value "max_pending_transcriptions" config)

-- `depth < threshold * 0.8`, over the integers: 5 depth < 4 threshold.
unfoldable pub below_restore : ℕ → ℤ → Bool
below_restore depth threshold = ltb (5 * depth + 4 * neg_part threshold) (4 * pos_part threshold)

unfoldable pub demote : ℕ → ℤ → ℕ → ℕ
unfolding below_restore
demote depth threshold priority =
    if ltb_ℤ threshold (pos depth)
    then min (priority + 3) 10
    else if below_restore depth threshold
    then priority
    else priority

unfoldable pub is_discovery : String → Bool
is_discovery t = any (λ u. str_eq t u) backpressure_job_types

unfoldable pub get_effective_priority : List SystemConfig → List Job → Job → Result ℕ
unfolding demote
get_effective_priority config jobs j =
    if is_discovery j.job_type
    then (do
      threshold ← get_threshold config
      ok (demote (get_queue_depth jobs "process_content") threshold j.priority))
    else ok j.priority
