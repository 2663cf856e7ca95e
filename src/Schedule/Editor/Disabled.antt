-- ===== src/Schedule/Editor/Disabled.antt =====
-- A disabled task through the ticks of the executor: its row stays as it is.
use think_tank.Prelude.{
  ℕ, ◌≡◌, inl, inr, refl, sym, subst, ap, ◌∙◌, String, Bool, true, false, List, [], ◌∷◌, str_eq,
  eq_iff, All, Bool-cases, arith,
}
use think_tank.Json.{Value, null, bool, int, str, obj, truthy, ok, Result-cases}
use think_tank.Config.{SystemConfig, config_value}
use think_tank.Queue.Job.{Job}
use think_tank.Queue.Backpressure.{get_queue_depth}
use think_tank.Schedule.{TaskDef, scheduled_tasks, config_key, Clock, setting}
use think_tank.Schedule.Recurring.{
  Tick, is_due, advanced, run_task, run_tasks, run_due_scheduled_tasks, recurring_tick,
}
use think_tank.Schedule.Recurring.Rounds.{config_value-put_config, run_task-cases}
use think_tank.Schedule.Recurring.Ticks.{row, run_tasks-split}
use think_tank.Schedule.Recurring.Promise.{Silent, run_due_scheduled_tasks_quiet}

-- `enabled` as the executor reads it.
abbrev pub is_enabled : Value → Bool
is_enabled v = truthy (setting v "enabled" (bool true))

-- What a tick meets: the time, new ids, whether it gets the lock, and the jobs of the table.
pub record Attempt : Type 0 where
  pub now : ℕ
  pub uuid4 : ℕ → ℕ
  pub locked : Bool
  pub jobs : List Job

module _ (clock : Clock) where
  pub is_due-disabled : (v : Value) (now : ℕ) → is_enabled v ≡ false → is_due clock v now ≡ false
  unfolding is_due setting truthy
  is_due-disabled (obj fs) now h = rw h refl
  is_due-disabled null now h = cc
  is_due-disabled (bool b) now h = cc
  is_due-disabled (int n) now h = cc
  is_due-disabled (Value.float m e) now h = cc
  is_due-disabled (str s) now h = cc
  is_due-disabled (Value.arr xs) now h = cc

  abbrev pub attempt : Attempt → List SystemConfig → List SystemConfig × List Job
  attempt a config = recurring_tick clock a.now a.uuid4 a.locked (config, a.jobs)

  -- The configuration after ticks, one after the other.
  abbrev pub config_after : List Attempt → List SystemConfig → List SystemConfig
  config_after [] config = config
  config_after (a ∷ attempts) config = config_after attempts (attempt a config).0

  module _ (k : String) where
    abbrev IsOff : List SystemConfig → Type 0
    IsOff config = is_enabled (config_value k config) ≡ false

    module _ (now : ℕ) (uuid4 : ℕ → ℕ) where
      run_task-disabled :
          (t : TaskDef) (s m : Tick)
          → run_task clock now uuid4 t s ≡ ok m
          → IsOff s.config
          → IsOff m.config
      run_task-disabled t s m h off = elim (run_task-cases clock now uuid4 t s m h) [
        | inl (same, r) ↦ subst (λ (x : Tick). IsOff x.config) (sym same) off
        | inr q ↦ elim (Bool-cases (str_eq (config_key t.key) k)) [
          | inl e ↦
              let late : is_due clock (config_value (config_key t.key) s.config) now ≡ false =
                subst (λ x. is_due clock (config_value x s.config) now ≡ false)
                  (sym ((eq_iff (config_key t.key) k).0 e))
                  (is_due-disabled (config_value k s.config) now off) in
              let due = q.due in cc
          | inr e ↦
              let kept : config_value k m.config ≡ config_value k s.config =
                ap (λ (x : Tick). config_value k x.config) q.result
                ∙ config_value-put_config (config_key t.key) k
                    (advanced clock now q.next t (row clock now uuid4 t s)) s.config
                ∙ ground (arith, e) in
              subst (λ v. is_enabled v ≡ false) (sym kept) off
        ]
      ]

      run_tasks-disabled :
          (ts : List TaskDef) (s s' : Tick)
          → run_tasks clock now uuid4 ts s ≡ ok s'
          → IsOff s.config
          → IsOff s'.config
      unfolding run_tasks
      run_tasks-disabled [] s s' h off =
          let same : s ≡ s' = cc in subst (λ (x : Tick). IsOff x.config) same off
      run_tasks-disabled (t ∷ ts) s s' h off =
          let (m, e, r) = run_tasks-split clock now uuid4 t ts s s' h in
          run_tasks-disabled ts m s' r (run_task-disabled t s m e off)

    tick-disabled :
        (now : ℕ) (uuid4 : ℕ → ℕ) (locked : Bool) (config : List SystemConfig) (jobs : List Job)
        (s : Tick)
        → run_due_scheduled_tasks clock now uuid4 locked config jobs ≡ ok s
        → IsOff config
        → IsOff s.config
    unfolding run_due_scheduled_tasks
    tick-disabled now uuid4 true config jobs s h off =
        run_tasks-disabled now uuid4 scheduled_tasks
          (record { config = config; jobs = jobs; enqueued = 0 }) s h off
    tick-disabled now uuid4 false config jobs s h off =
        let start : Tick = record { config = config; jobs = jobs; enqueued = 0 } in
        let same : start ≡ s = cc in subst (λ (x : Tick). IsOff x.config) same off

    attempt-disabled :
        (a : Attempt) (config : List SystemConfig) → IsOff config → IsOff (attempt a config).0
    unfolding recurring_tick
    attempt-disabled a config off =
        elim (Result-cases (run_due_scheduled_tasks clock a.now a.uuid4 a.locked config a.jobs)) [
          | inl (s, e) ↦
              rw (e, recurring_tick) (tick-disabled a.now a.uuid4 a.locked config a.jobs s e off)
          | inr (x, e) ↦ rw (e, recurring_tick) off
        ]

    pub config_after-disabled :
        (attempts : List Attempt) (config : List SystemConfig)
        → IsOff config
        → IsOff (config_after attempts config)
    config_after-disabled [] config off = off
    config_after-disabled (a ∷ attempts) config off =
        config_after-disabled attempts (attempt a config).0 (attempt-disabled a config off)

    -- A tick enqueues nothing of a type whose tasks are silent, also when it raises.
    pub attempt_quiet :
        (a : Attempt) (config : List SystemConfig)
        → All (Silent clock a.now k config) scheduled_tasks
        → get_queue_depth (attempt a config).1 k ≡ get_queue_depth a.jobs k
    unfolding recurring_tick
    attempt_quiet a config h =
        elim (Result-cases (run_due_scheduled_tasks clock a.now a.uuid4 a.locked config a.jobs)) [
          | inl (s, e) ↦
              rw (e, recurring_tick)
                (run_due_scheduled_tasks_quiet clock a.now a.uuid4 k config a.jobs a.locked s h e)
          | inr (x, e) ↦ rw (e, recurring_tick) refl
        ]
