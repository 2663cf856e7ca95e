-- ===== src/Schedule/Recurring.antt =====
-- worker/recurring.py: a job for each enabled task that is due and has no job in the queue.
pub mod Rounds
pub mod Ticks
pub mod Promise
use think_tank.Prelude.{
  ℕ, zero, suc, ◌+◌, ◌≡◌, pos, String, Bool, true, false, not, ◌&&◌, ◌||◌, Option, none, some, List,
  [], ◌∷◌, ◌++◌, ltb, leb, ◌==◌, str_eq, if◌then◌else◌,
}
use think_tank.Json.{
  Value, null, bool, int, str, obj, Fields, empty, entry, Result, ok, raise, ◌>>=◌, get, put,
  truthy,
}
use think_tank.Config.{SystemConfig, config_value}
use think_tank.Queue.Job.{Job, new_job}
use think_tank.Queue.Retry.{get_max_attempts}
use think_tank.Queue.Backpressure.{get_queue_depth}
use think_tank.Schedule.{
  TaskDef, scheduled_tasks, config_key, put_config, Clock, hours_from, fields_or, setting,
}

-- The session of a tick.
pub record Tick : Type 0 where
  pub config : List SystemConfig
  pub jobs : List Job
  pub enqueued : ℕ

unfoldable pub recurring_job : ℕ → ℕ → String → Job
unfolding new_job get_max_attempts
recurring_job now i job_type =
    let payload = obj (entry "triggered_by" (str "recurring_scheduler") empty) in
    record (new_job now i job_type payload 5) { max_attempts = get_max_attempts job_type }

module _ (clock : Clock) where
  -- `_parse_iso`
  unfoldable pub parse_iso : Value → Option ℕ
  parse_iso (str s) = clock.fromisoformat s
  parse_iso v = none

  -- `_is_due`
  unfoldable pub is_due : Value → ℕ → Bool
  unfolding parse_iso get truthy
  is_due (obj fs) now =
      if truthy (get fs "enabled" (bool true))
      then elim (parse_iso (get fs "next_run_at" null)) [ none ↦ true | some next ↦ leb next now ]
      else false
  is_due v now = true

  -- `new_value`
  unfoldable pub advanced : ℕ → ℕ → TaskDef → Value → Value
  unfolding put fields_or setting
  advanced now next t raw =
      let hours = setting raw "frequency_hours" (int (pos t.default_hours)) in
      let base = fields_or (entry "enabled" (bool true) empty) raw in
      obj (
        put (put (put base "frequency_hours" hours) "last_run_at" (str (clock.isoformat now)))
          "next_run_at" (str (clock.isoformat next)))

  -- The job and the advanced schedule of a task; its hours may be no number.
  unfoldable pub enqueue_task : ℕ → (ℕ → ℕ) → TaskDef → String → Tick → Result Tick
  unfolding advanced recurring_job put_config hours_from setting config_value
  enqueue_task now uuid4 t job_type s = do
    let raw = config_value (config_key t.key) s.config
    next ← hours_from now (setting raw "frequency_hours" (int (pos t.default_hours)))
    ok (record {
      config = put_config (config_key t.key) (advanced now next t raw) s.config;
      jobs = s.jobs ++ recurring_job now (uuid4 s.enqueued) job_type ∷ [];
      enqueued = s.enqueued + 1;
    })

  -- One round of the loop over the tasks.
  unfoldable pub run_task : ℕ → (ℕ → ℕ) → TaskDef → Tick → Result Tick
  unfolding is_due enqueue_task get_queue_depth config_value
  run_task now uuid4 t s = elim t.job_type [
    | none ↦ ok s
    | some job_type ↦
        if not (is_due (config_value (config_key t.key) s.config) now)
          || ltb 0 (get_queue_depth s.jobs job_type)
        then ok s
        else enqueue_task now uuid4 t job_type s
  ]

  unfoldable pub run_tasks : ℕ → (ℕ → ℕ) → List TaskDef → Tick → Result Tick
  unfolding run_task
  run_tasks now uuid4 [] s = ok s
  run_tasks now uuid4 (t ∷ ts) s = run_task now uuid4 t s >>= run_tasks now uuid4 ts

  -- The flag says that this replica has the advisory lock.
  unfoldable pub run_due_scheduled_tasks :
      ℕ → (ℕ → ℕ) → Bool → List SystemConfig → List Job → Result Tick
  unfolding run_tasks
  run_due_scheduled_tasks now uuid4 locked config jobs =
      let start : Tick = record { config = config; jobs = jobs; enqueued = 0 } in
      if locked then run_tasks now uuid4 scheduled_tasks start else ok start

  -- One round of `recurring_task_scheduler`: what raises is rolled back and logged.
  unfoldable pub recurring_tick :
      ℕ → (ℕ → ℕ) → Bool → List SystemConfig × List Job → List SystemConfig × List Job
  unfolding run_due_scheduled_tasks
  recurring_tick now uuid4 locked (config, jobs) =
      elim (run_due_scheduled_tasks now uuid4 locked config jobs) [
        | ok s ↦ (s.config, s.jobs)
        | raise e ↦ (config, jobs)
      ]
