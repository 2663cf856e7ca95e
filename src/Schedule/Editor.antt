-- ===== src/Schedule/Editor.antt =====
-- admin/routers/pipeline.py: the scheduler editor, which shows and writes the rows that the executor
-- reads.
pub mod Readback
pub mod Disabled
pub mod Switch
use think_tank.Prelude.{
  ℕ, zero, suc, ◌+◌, max, ◌≡◌, ℤ, pos, pos_part, String, Bool, true, false, not, ◌&&◌, ◌||◌, Option,
  none, some, List, [], ◌∷◌, ◌++◌, map, codes, same, str_eq, if◌then◌else◌,
}
use Prim.Native.String.{◌++◌ as append}
use think_tank.Json.{
  Value, null, bool, int, str, obj, Fields, empty, entry, PyError, Result, ok, raise, ◌>>=◌, get,
  put, truthy,
}
use think_tank.Config.{SystemConfig, config_value}
use think_tank.Queue.Job.{Job, new_job}
use think_tank.Schedule.{
  TaskDef, scheduled_tasks, find_task, config_key, put_config, Clock, hours_from, fields_or,
  setting,
}

-- A cell of the editor: a time, or what else the JSON holds.
pub data Shown : Type 0 where
  nothing : Shown
  moment : ℕ → Shown
  other : Value → Shown

-- One entry of the context, without the label.
pub record TaskView : Type 0 where
  pub key : String
  pub frequency_hours : Value
  pub enabled : Value
  pub last_run_at : Shown
  pub next_run_at : Shown
  pub has_job_type : Bool

unfoldable pub is_some {ℓ} : {A : Type ℓ} → Option A → Bool
is_some none = false
is_some (some x) = true

-- `existing.value` of the row of a key.
unfoldable pub find_config : String → List SystemConfig → Option Value
find_config k [] = none
find_config k (row ∷ rows) = if str_eq row.key k then some row.value else find_config k rows

pub record Board : Type 0 where
  pub config : List SystemConfig
  pub jobs : List Job

-- 404, the committed tables, or an exception, which leaves them.
pub data Reply : Type 0 where
  unknown_task : Reply
  committed : Board → Reply
  failed : PyError → Reply

unfoldable pub reply : Result Board → Reply
reply (ok b) = committed b
reply (raise e) = failed e

module _ (clock : Clock) where
  unfoldable pub shown : Value → Shown
  shown null = nothing
  shown (str s) = elim (clock.fromisoformat s) [ none ↦ nothing | some t ↦ moment t ]
  shown v = other v

  -- One round of `_build_scheduler_context`. An empty dict has the defaults of no row.
  unfoldable pub task_view : List SystemConfig → TaskDef → TaskView
  unfolding shown setting config_value is_some
  task_view config t =
      let raw = config_value (config_key t.key) config in
      record {
        key = t.key;
        frequency_hours = setting raw "frequency_hours" (int (pos t.default_hours));
        enabled = setting raw "enabled" (bool true);
        last_run_at = shown (setting raw "last_run_at" null);
        next_run_at = shown (setting raw "next_run_at" null);
        has_job_type = is_some t.job_type;
      }

  unfoldable pub build_scheduler_context : List SystemConfig → List TaskView
  unfolding task_view
  build_scheduler_context config = map (task_view config) scheduled_tasks

  unfoldable pub iso : ℕ → Value
  iso t = str (clock.isoformat t)

  -- The time that the next run is counted from: the last run, when it is a readable text.
  unfoldable pub last_or : ℕ → Value → ℕ
  last_or now (str s) =
      if same (codes s) [] then now else elim (clock.fromisoformat s) [ none ↦ now | some t ↦ t ]
  last_or now v = now

  unfoldable pub saved : ℕ → ℕ → Option Value → Result Value
  unfolding iso last_or hours_from fields_or get put
  saved now hours none = do
    next ← hours_from now (int (pos hours))
    ok (
        obj (
          entry "frequency_hours" (int (pos hours)) (
            entry "enabled" (bool true)
              (entry "last_run_at" null (entry "next_run_at" (iso next) empty)))))
  saved now hours (some v) = do
    let val = put (fields_or empty v) "frequency_hours" (int (pos hours))
    next ← hours_from (last_or now (get val "last_run_at" null)) (int (pos hours))
    ok (obj (put val "next_run_at" (iso next)))

  unfoldable pub scheduler_save : ℕ → String → ℤ → Board → Reply
  unfolding find_task find_config saved put_config reply
  scheduler_save now task_key frequency_hours b = elim (find_task task_key scheduled_tasks) [
    | none ↦ unknown_task
    | some t ↦ reply (do
      let k = config_key task_key
      v ← saved now (max 1 (pos_part frequency_hours)) (find_config k b.config)
      ok (record b { config = put_config k v b.config }))
  ]

  unfoldable pub toggled : ℕ → ℕ → Option Value → Result Value
  unfolding iso hours_from fields_or get put truthy
  toggled now default_hours none = ok (
      obj (
        entry "frequency_hours" (int (pos default_hours)) (
          entry "enabled" (bool false)
            (entry "last_run_at" null (entry "next_run_at" null empty)))))
  toggled now default_hours (some v) =
      let val = fields_or empty v in
      if truthy (get val "enabled" (bool true))
      then ok (obj (put val "enabled" (bool false)))
      else hours_from now (get val "frequency_hours" (int (pos default_hours)))
        >>= (λ next. ok (obj (put (put val "enabled" (bool true)) "next_run_at" (iso next))))

  unfoldable pub scheduler_toggle : ℕ → String → Board → Reply
  unfolding find_task find_config toggled put_config reply
  scheduler_toggle now task_key b = elim (find_task task_key scheduled_tasks) [
    | none ↦ unknown_task
    | some t ↦ reply (do
      let k = config_key task_key
      v ← toggled now t.default_hours (find_config k b.config)
      ok (record b { config = put_config k v b.config }))
  ]

  unfoldable pub ran : ℕ → ℕ → Option Value → Result Value
  unfolding iso hours_from fields_or get put
  ran now default_hours none = do
    next ← hours_from now (int (pos default_hours))
    ok (
        obj (
          entry "frequency_hours" (int (pos default_hours)) (
            entry "enabled" (bool true)
              (entry "last_run_at" (iso now) (entry "next_run_at" (iso next) empty)))))
  ran now default_hours (some v) = do
    let val = fields_or empty v
    next ← hours_from now (get val "frequency_hours" (int (pos default_hours)))
    ok (obj (put (put val "last_run_at" (iso now)) "next_run_at" (iso next)))

  -- `i` is the id of the new job; an LLM task has none.
  unfoldable pub scheduler_run_now : ℕ → ℕ → String → String → Board → Reply
  unfolding find_task find_config ran put_config reply new_job
  scheduler_run_now now i principal task_key b = elim (find_task task_key scheduled_tasks) [
    | none ↦ unknown_task
    | some t ↦ elim t.job_type [
      | none ↦ committed b
      | some job_type ↦ reply (do
        let k = config_key task_key
        let by = str (append principal ":scheduler_run_now")
        v ← ran now t.default_hours (find_config k b.config)
        ok (record {
          config = put_config k v b.config;
          jobs = b.jobs ++ new_job now i job_type (obj (entry "triggered_by" by empty)) 5 ∷ [];
        }))
    ]
  ]
