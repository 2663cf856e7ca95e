-- ===== src/Scaling.antt =====
-- scaling/railway.py: manage_gpu_scaling, with the calls of the Railway API as requests.
pub mod IdleTime
use think_tank.Prelude.{
  ℕ, suc, ◌+◌, ◌*◌, ◌/◌, ◌^◌, ℤ, pos, negsuc, sub_ℕ, pos_part, neg_part, ltb_ℤ, Bool, true, false,
  ◌&&◌, Option, none, some, List, ltb, ◌==◌, if◌then◌else◌,
}
use think_tank.Json.{
  Value, null, bool, int, float, str, arr, obj, Result, ok, raise, type_error, ◌>>=◌,
}
use think_tank.Config.{SystemConfig, get_config_value}
use think_tank.Queue.Job.{Job, minute}
use think_tank.Queue.Backpressure.{get_queue_depth}

-- `depth > threshold`
unfoldable pub is_above : ℕ → Value → Result Bool
is_above depth (int n) = ok (ltb_ℤ n (pos depth))
is_above depth (bool b) = ok (ltb (if b then 1 else 0) depth)
is_above depth (float (pos m) k) = ok (ltb m (depth * 10 ^ k))
is_above depth (float (negsuc m) k) = ok true
is_above depth _ = raise type_error

-- `timedelta(minutes=v)` in whole microseconds.
unfoldable pub minutes_of : Value → Result ℤ
minutes_of (int (pos n)) = ok (pos (n * minute))
minutes_of (int (negsuc n)) = ok (sub_ℕ 0 (suc n * minute))
minutes_of (bool b) = ok (if b then pos minute else pos 0)
minutes_of (float (pos m) k) = ok (pos (m * minute / 10 ^ k))
minutes_of (float (negsuc m) k) = ok (sub_ℕ 0 (suc m * minute / 10 ^ k))
minutes_of _ = raise type_error

-- The result of one check, and the replicas that it asks Railway for.
pub record Scaling : Type 0 where
  pub scaled : Bool
  pub idle_since : Option ℕ
  pub request : Option ℕ

-- `current_replicas is None or current_replicas == 0`
unfoldable pub is_off : Option ℕ → Bool
is_off none = true
is_off (some n) = n == 0

-- `now - idle_since > timeout`
unfoldable pub is_over : ℕ → ℕ → ℤ → Bool
is_over now since timeout = ltb (since + pos_part timeout) (now + neg_part timeout)

-- The queue is empty.
unfoldable pub idle_check : ℕ → Value → Option ℕ → Result Scaling
unfolding minutes_of is_over
idle_check now minutes none = ok (record { scaled = false; idle_since = some now; request = none })
idle_check now minutes (some since) = do
  timeout ← minutes_of minutes
  ok (
      if is_over now since timeout
      then record { scaled = true; idle_since = none; request = some 0 }
      else record { scaled = false; idle_since = some since; request = none })

unfoldable pub check_depth : ℕ → Value → ℕ → Option ℕ → Option ℕ → Bool → Result Scaling
unfolding idle_check is_off
check_depth now minutes depth replicas idle_since above =
    if above && is_off replicas
    then ok (record { scaled = true; idle_since = none; request = some 1 })
    else if ltb 0 depth
    then ok (record { scaled = false; idle_since = none; request = none })
    else idle_check now minutes idle_since

unfoldable pub manage_gpu_scaling :
    ℕ → List SystemConfig → List Job → Option ℕ → Option ℕ → Result Scaling
unfolding check_depth is_above get_queue_depth get_config_value
manage_gpu_scaling now config jobs replicas idle_since =
    let depth = get_queue_depth jobs "process_content" in
    let minutes = get_config_value config "gpu_idle_minutes_before_shutdown" (int (pos 30)) in
    is_above depth (get_config_value config "gpu_queue_threshold" (int (pos 5)))
    >>= check_depth now minutes depth replicas idle_since
