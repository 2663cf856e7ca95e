-- ===== src/Tests/HttpUtils.antt =====
-- Retry-After headers.
use think_tank.Prelude.{ℕ, ◌*◌, ◌≡◌, refl, Option, some, List, codes, same, strip}
use think_tank.Json.{parse_int}
use think_tank.Queue.Job.{second}
use think_tank.HttpUtils.{parse_retry_after}

-- The one date of these tests is 90 seconds after the epoch.
abbrev a_date : List ℕ → Option ℕ
a_date text = some (90 * second)

seconds : parse_retry_after 0 a_date (some (codes " 120 ")) ≡ some 120
unfolding parse_retry_after strip same parse_int
seconds = refl

too_long : parse_retry_after 0 a_date (some (codes "86400")) ≡ some 300
unfolding parse_retry_after strip same parse_int
too_long = refl

a_later_date : parse_retry_after (30 * second) a_date (some (codes "Thu")) ≡ some 60
unfolding parse_retry_after strip same parse_int
a_later_date = refl
