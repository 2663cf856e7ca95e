-- ===== src/HttpUtils.antt =====
-- http_utils.py: the Retry-After header of a 429 response.
pub mod Ceiling
use think_tank.Prelude.{
  ℕ, ◌-◌, ◌/◌, ℤ, pos, negsuc, sub_ℕ, min, Bool, Option, none, some, List, [], leb, same, strip,
  if◌then◌else◌,
}
use think_tank.Json.{parse_int}
use think_tank.Queue.Job.{second}

-- Between 0 and `_MAX_RETRY_AFTER_SECONDS`.
unfoldable pub clamp : ℤ → ℕ
clamp (pos n) = min n 300
clamp (negsuc n) = 0

-- `int((when - now).total_seconds())`
unfoldable pub seconds_until : ℕ → ℕ → ℤ
seconds_until now when =
    if leb now when then pos ((when - now) / second) else sub_ℕ 0 ((now - when) / second)

-- `parse_date` is `parsedate_to_datetime`, with none for what it does not read.
unfoldable pub parse_retry_after : ℕ → (List ℕ → Option ℕ) → Option (List ℕ) → Option ℕ
unfolding clamp seconds_until
parse_retry_after now parse_date none = none
parse_retry_after now parse_date (some raw) =
    let text = strip raw in
    if same text [] then none else elim (parse_int text) [
      | some n ↦ some (clamp n)
      | none ↦ elim (parse_date text) [
        | none ↦ none
        | some when ↦ some (clamp (seconds_until now when))
      ]
    ]
