-- ===== src/Queue/RateLimiter.antt =====
-- queue/rate_limiter.py: a sliding window over the rows of `rate_limit_usage`.
pub mod Window
use think_tank.Prelude.{
  ℕ, ◌+◌, ◌*◌, ◌≤◌, ◌<◌, ℤ, pos, String, Bool, true, false, ◌&&◌, Option, none, some, List, [], ◌∷◌,
  ltb, leb_ℤ, str_eq, if◌then◌else◌, tally,
}
use think_tank.Json.{Value, null, Result, ok, raise, ◌>>=◌}
use think_tank.Config.{SystemConfig, config_value, int_setting}
use think_tank.Queue.Job.{minute}

-- models/rate_limit.py
pub record RateLimitUsage : Type 0 where
  pub api_name : String
  pub worker_id : String
  pub called_at : ℕ

-- The key is `f"{api_name}_calls_per_hour"`.
unfoldable pub limit_of : Value → Result (Option ℤ)
unfolding int_setting
limit_of null = ok none
limit_of v = do n ← int_setting (pos 0) v; ok (some n)

unfoldable pub get_rate_limit_config : List SystemConfig → String → Result (Option ℤ)
unfolding limit_of config_value
get_rate_limit_config config key = limit_of (config_value key config)

-- `called_at > NOW() - MAKE_INTERVAL(mins => window)` of one API.
unfoldable pub is_recent : ℕ → String → ℕ → RateLimitUsage → Bool
is_recent now api window u = str_eq u.api_name api && ltb now (u.called_at + window * minute)

unfoldable pub recent_calls : ℕ → String → ℕ → List RateLimitUsage → ℕ
unfolding is_recent
recent_calls now api window = tally (is_recent now api window)

-- The check behind the advisory lock: the slot is taken in the same transaction.
unfoldable pub acquire :
    ℕ → String → String → ℕ → Option ℤ → List RateLimitUsage → Bool × List RateLimitUsage
unfolding recent_calls
acquire now api worker window none usage = (true, usage)
acquire now api worker window (some limit) usage =
    if leb_ℤ limit (pos (recent_calls now api window usage))
    then (false, usage)
    else (true, record { api_name = api; worker_id = worker; called_at = now } ∷ usage)

unfoldable pub check_and_acquire_rate_limit :
    ℕ
    → List SystemConfig
    → (String → String)
    → String
    → String
    → ℕ
    → List RateLimitUsage
    → Result (Bool × List RateLimitUsage)
unfolding acquire
check_and_acquire_rate_limit now config key_of api worker window usage = do
  limit ← get_rate_limit_config config (key_of api)
  ok (acquire now api worker window limit usage)
