-- ===== src/Governance/Escalation.antt =====
-- llm/escalation.py: jobs that wait for a review too long are flagged for a human.
pub mod Once
use think_tank.Prelude.{
  ℕ, suc, ◌+◌, ◌*◌, ℤ, pos, negsuc, String, Bool, true, false, not, ◌&&◌, List, [], ◌∷◌, map,
  select, ltb, if◌then◌else◌,
}
use think_tank.Json.{
  Value, null, bool, int, obj, empty, put, get, Result, ok, raise, type_error, ◌>>=◌,
}
use think_tank.Config.{SystemConfig, get_config_value}
use think_tank.Queue.Job.{Job, Status, awaiting_llm}
use think_tank.Schedule.{hour, fields_or}

unfoldable pub is_awaiting : Status → Bool
is_awaiting awaiting_llm = true
is_awaiting s = false

-- `COALESCE((payload->>'needs_human_review')::boolean, false)` of a flag that is a Boolean.
unfoldable pub is_flagged : Value → Bool
unfolding get fields_or
is_flagged v = elim (get (fields_or empty v) "needs_human_review" (bool false)) [
  | bool b ↦ b
  | v ↦ false
]

-- `created_at < LOCALTIMESTAMP - MAKE_INTERVAL(hours => h)`
unfoldable pub is_overdue : ℕ → ℤ → Job → Bool
is_overdue now (pos h) j = ltb (j.created_at + h * hour) now
is_overdue now (negsuc h) j = ltb j.created_at (now + suc h * hour)

-- The WHERE of the UPDATE.
unfoldable pub is_escalated : ℕ → ℤ → Job → Bool
unfolding is_awaiting is_flagged is_overdue
is_escalated now hours j =
    is_awaiting j.status && is_overdue now hours j && not (is_flagged j.payload)

-- The SET of the UPDATE; a payload is an object or NULL.
unfoldable pub flag : Job → Job
unfolding put fields_or
flag j = record j {
  payload = obj (put (fields_or empty j.payload) "needs_human_review" (bool true));
}

-- The row of `llm_reviews`, by the snapshot that it has.
pub record Escalation : Type 0 where
  pub job_id : ℕ
  pub job_type : String

unfoldable pub timeout_hours : List SystemConfig → Result ℤ
unfolding get_config_value
timeout_hours config = elim (get_config_value config "llm_timeout_hours" (int (pos 2))) [
  | int n ↦ ok n
  | v ↦ raise type_error
]

-- The jobs after the UPDATE, and the reviews that are added.
unfoldable pub escalate_timed_out_reviews :
    ℕ → List SystemConfig → List Job → Result (List Job × List Escalation)
unfolding is_escalated flag timeout_hours
escalate_timed_out_reviews now config jobs = do
  hours ← timeout_hours config
  ok (
    map (λ j. if is_escalated now hours j then flag j else j) jobs,
    map (λ j. record { job_id = j.id; job_type = j.job_type })
        (select (is_escalated now hours) jobs),
  )
