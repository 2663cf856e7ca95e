-- ===== src/Schedule.antt =====
-- The recurring tasks: queue/scheduled_tasks.py, the executor worker/recurring.py (Recurring) and
-- the scheduler editor of admin/routers/pipeline.py (Editor).
pub mod Recurring
pub mod Editor
use think_tank.Prelude.{
  ℕ, suc, ◌+◌, ◌-◌, ◌*◌, ◌/◌, ◌%◌, ◌^◌, ◌≡◌, pos, negsuc, String, Bool, true, false, ◌&&◌, ◌||◌,
  Option, none, some, List, [], ◌∷◌, ltb, leb, ◌==◌, str_eq, if◌then◌else◌,
}
use Prim.Native.String.{◌++◌ as append}
use think_tank.Json.{
  Value, null, bool, int, float, str, obj, Fields, empty, entry, Result, ok, raise, type_error,
  overflow_error, get, put, truthy,
}
use think_tank.Config.{SystemConfig}
use think_tank.Queue.Job.{Job, minute}

-- One entry of SCHEDULED_TASKS, without its label.
pub record TaskDef : Type 0 where
  pub key : String
  pub default_hours : ℕ
  pub job_type : Option String

abbrev pub task : String → ℕ → TaskDef
task key hours = record { key = key; default_hours = hours; job_type = some key }

abbrev pub llm_task : String → ℕ → TaskDef
llm_task key hours = record { key = key; default_hours = hours; job_type = none }

abbrev pub scheduled_tasks : List TaskDef
scheduled_tasks =
    task "refresh_due_sources" 1
    ∷ task "scan_for_candidates" 24
    ∷ task "enqueue_pending_transcriptions" 1
    ∷ task "embed_pending_content" 1
    ∷ task "rollup_api_usage" 1
    ∷ llm_task "llm_health_check" 6
    ∷ llm_task "llm_daily_digest" 24
    ∷ llm_task "llm_weekly_audit" 168
    ∷ []

-- `SCHEDULED_TASK_MAP.get(key)`
unfoldable pub find_task : String → List TaskDef → Option TaskDef
find_task k [] = none
find_task k (t ∷ ts) = if str_eq t.key k then some t else find_task k ts

-- `f"scheduler_{key}"`
abbrev pub config_key : String → String
config_key key = append "scheduler_" key

-- `row.value = v` on the row of a key, or a new row.
unfoldable pub put_config : String → Value → List SystemConfig → List SystemConfig
put_config k v [] = record { key = k; value = v } ∷ []
put_config k v (row ∷ rows) =
    if str_eq row.key k then record row { value = v } ∷ rows else row ∷ put_config k v rows

-- `datetime.isoformat` and `datetime.fromisoformat`, where `none` is ValueError and a text without
-- a zone is in UTC.
pub record Clock : Type 0 where
  pub isoformat : ℕ → String
  pub fromisoformat : String → Option ℕ

abbrev pub ReadsBack : Clock → Type 0
ReadsBack clock = (t : ℕ) → clock.fromisoformat (clock.isoformat t) ≡ some t

abbrev pub hour : ℕ
hour = 60 * minute

-- The last microsecond of the year 9999, and the time from the year 1 to the epoch.
abbrev pub max_time : ℕ
max_time = 253402300799999999

abbrev pub before_epoch : ℕ
before_epoch = 62135596800000000

-- To the nearest, a half to the even one.
unfoldable pub round_div : ℕ → ℕ → ℕ
round_div a b =
    let q = a / b in
    let r = a % b in if ltb b (2 * r) || (2 * r == b && q % 2 == 1) then q + 1 else q

unfoldable pub later : ℕ → ℕ → Result ℕ
later now d = if leb (now + d) max_time then ok (now + d) else raise overflow_error

-- What is before the epoch is the epoch, which no time of this model is before.
unfoldable pub sooner : ℕ → ℕ → Result ℕ
sooner now d = if leb d (now + before_epoch) then ok (now - d) else raise overflow_error

-- `now + timedelta(hours=v)`
unfoldable pub hours_from : ℕ → Value → Result ℕ
unfolding later sooner round_div
hours_from now (bool b) = later now (if b then hour else 0)
hours_from now (int (pos n)) = later now (n * hour)
hours_from now (int (negsuc n)) = sooner now (suc n * hour)
hours_from now (float (pos m) k) = later now (round_div (m * hour) (10 ^ k))
hours_from now (float (negsuc m) k) = sooner now (round_div (suc m * hour) (10 ^ k))
hours_from now v = raise type_error

-- `value if isinstance(value, dict) else base`
unfoldable pub fields_or : Fields → Value → Fields
fields_or base (obj fs) = fs
fields_or base v = base

-- `v.get(key, default)` of a dict, the default of anything else.
unfoldable pub setting : Value → String → Value → Value
unfolding get
setting (obj fs) k default = get fs k default
setting v k default = default
