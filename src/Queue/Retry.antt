-- ===== src/Queue/Retry.antt =====
-- queue/retry.py: attempts allowed per job type, and the exponential backoff.
pub mod Bounds
use think_tank.Prelude.{
  ℕ, zero, suc, ◌+◌, ◌*◌, ◌^◌, ◌≤◌, ◌<◌, min, ◌≡◌, String, Bool, arith, ltb, str_eq, if◌then◌else◌,
}
use think_tank.Queue.Job.{minute}

-- MAX_ATTEMPTS_BY_TYPE, with the default for the types that it does not list.
unfoldable pub get_max_attempts : String → ℕ
get_max_attempts t =
    if str_eq t "process_content"
    then 2
    else if str_eq t "fetch_podcast_feed"
    then 4
    else if str_eq t "fetch_youtube_channel"
    then 4
    else if str_eq t "scrape_substack"
    then 4
    else if str_eq t "fetch_guest_feed"
    then 4
    else 3

-- `min(2**attempts, 60)`
unfoldable pub backoff_minutes : ℕ → ℕ
backoff_minutes attempts = min (2 ^ attempts) 60

-- The timedelta, in microseconds.
unfoldable pub calculate_backoff : ℕ → ℕ
unfolding backoff_minutes
calculate_backoff attempts = backoff_minutes attempts * minute

unfoldable pub should_retry : ℕ → ℕ → Bool
should_retry attempts max_attempts = ltb attempts max_attempts
