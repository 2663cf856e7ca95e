-- ===== src/Tests/Schedule.antt =====
-- A clock that writes a time as its binary digits, and the schedules of two tasks.
use Prim.Native.Char.{char, code}
use Prim.Native.String.{String}
use think_tank.Prelude.{
  ℕ, zero, suc, ◌+◌, ◌*◌, ◌/◌, ◌%◌, ◌≤◌, max, ◌≡◌, refl, ap, pos, pos_part, true, false, some, List,
  [], ◌∷◌, All, In, ◌==◌, str_eq, Bool-cases, if◌then◌else◌, inl, inr, arith,
}
use think_tank.Json.{null, bool, int, str, obj, entry, empty, truthy, Result, ok}
use think_tank.Config.{SystemConfig, config_value}
use think_tank.Queue.Job.{Job, pending}
use think_tank.Queue.Backpressure.{get_queue_depth}
use think_tank.Schedule.{
  TaskDef, task, scheduled_tasks, config_key, Clock, ReadsBack, hour, hours_from, setting,
}
use think_tank.Schedule.Recurring.{Tick, is_due, advanced, run_due_scheduled_tasks}
use think_tank.Schedule.Recurring.Promise.{
  run_due_scheduled_tasks-again, run_due_scheduled_tasks-serves, Numeric,
}
use think_tank.Schedule.Editor.{
  Board, Reply, committed, scheduler_save, scheduler_toggle, task_view, last_or, moment,
}
use think_tank.Schedule.Editor.Readback.{is_due-advanced, scheduler_save-reads_back}
use think_tank.Schedule.Editor.Disabled.{Attempt, attempt, config_after}
use think_tank.Schedule.Editor.Switch.{scheduler_toggle-silences}
use think_tank.Tests.Rows.{row}

-- The digits from the last one on.
bits : ℕ → ℕ → String
bits zero n = String.[]
bits (suc fuel) n = elim (n == 0) [
  | true ↦ String.[]
  | false ↦ String.◌∷◌ (if n % 2 == 1 then char 49 tt else char 48 tt) (bits fuel (n / 2))
]

value_of : String → ℕ
value_of String.[] = 0
value_of (String.◌∷◌ c s) = (if code c == 49 then 1 else 0) + 2 * value_of s

value_of-bits : (fuel n : ℕ) → n ≤ fuel → value_of (bits fuel n) ≡ n
unfolding value_of bits
value_of-bits zero n h = omega (arith, h)
value_of-bits (suc fuel) n h = elim (Bool-cases (n == 0)) [
  | inl e ↦ rw (e, bits) (ground (arith, e))
  | inr e ↦
      let half : n / 2 ≤ fuel = ground (arith, e, h) in
      let ih = value_of-bits fuel (n / 2) half in
      rw (e, bits)
        (elim (Bool-cases (n % 2 == 1)) [
          | inl o ↦ rw o (rw ih (ground (arith, o)))
          | inr o ↦ rw o (rw ih (ground (arith, o)))
        ])
]

abbrev clock : Clock
clock = record { isoformat = λ t. bits t t; fromisoformat = λ s. some (value_of s) }

clock-ReadsBack : ReadsBack clock
clock-ReadsBack t = ap some (value_of-bits t t (omega arith))

abbrev now : ℕ
now = 1000 * hour

abbrev uuid4 : ℕ → ℕ
uuid4 n = 100 + n

-- Feeds were refreshed lately, the usage is rolled up too late, and one task is off.
abbrev config : List SystemConfig
config =
    record {
      key = "scheduler_refresh_due_sources";
      value = obj (entry "next_run_at" (str (bits (now + 1) (now + 1))) empty);
    }
    ∷ record {
      key = "scheduler_rollup_api_usage";
      value =
          obj (
            entry "frequency_hours" (int (pos 2)) (entry "next_run_at" (str (bits now now)) empty));
    }
    ∷ record {
      key = "scheduler_scan_for_candidates";
      value = obj (entry "enabled" (bool false) empty);
    }
    ∷ []

abbrev jobs : List Job
jobs = row 1 "embed_pending_content" pending 5 0 ∷ []

abbrev start : Tick
start = record { config = config; jobs = jobs; enqueued = 0 }

tick_or : Result Tick → Tick
tick_or (ok s) = s
tick_or _ = start

abbrev ticked : Tick
unfolding tick_or
ticked = tick_or (run_due_scheduled_tasks clock now uuid4 true config jobs)

-- Of the five tasks two are enqueued: one is early, one is off, one has a job already.
ticked_ok : run_due_scheduled_tasks clock now uuid4 true config jobs ≡ ok ticked
unfolding run_due_scheduled_tasks ticked tick_or bits value_of config_value hours_from setting
ticked_ok = refl

enqueued_two : ticked.enqueued ≡ 2
unfolding run_due_scheduled_tasks ticked tick_or bits value_of config_value hours_from setting
enqueued_two = refl

run_due_scheduled_tasks-again_example :
    run_due_scheduled_tasks clock now uuid4 true ticked.config ticked.jobs
    ≡ ok (record ticked { enqueued = 0 })
run_due_scheduled_tasks-again_example =
    run_due_scheduled_tasks-again clock now uuid4 uuid4 config jobs ticked ticked_ok

numeric : All (Numeric clock now config) scheduled_tasks
unfolding hours_from config_value setting
numeric = (
  (1001 * hour, refl),
  (
    (1024 * hour, refl),
    (
      (1001 * hour, refl),
      (
        (1001 * hour, refl),
        (
          (1002 * hour, refl),
          ((1006 * hour, refl), ((1024 * hour, refl), ((1168 * hour, refl), tt))),
        ),
      ),
    ),
  ),
)

run_due_scheduled_tasks-serves_example :
    (s : Tick) × (run_due_scheduled_tasks clock now uuid4 true config jobs ≡ ok s)
    × ((t : TaskDef) (j : String)
        → In t scheduled_tasks
        → t.job_type ≡ some j
        → is_due clock (config_value (config_key t.key) config) now ≡ true
        → 1 ≤ get_queue_depth s.jobs j)
    × ((j : String) → get_queue_depth s.jobs j ≤ max 1 (get_queue_depth jobs j))
run_due_scheduled_tasks-serves_example =
    run_due_scheduled_tasks-serves clock now uuid4 config jobs numeric

abbrev rollup : TaskDef
rollup = task "rollup_api_usage" 1

is_due-advanced_example :
    is_due clock (advanced clock now (now + hour) rollup null) (now + 2 * hour) ≡ true
unfolding setting truthy
is_due-advanced_example =
    is_due-advanced clock clock-ReadsBack now (now + hour) (now + 2 * hour) rollup null

abbrev board : Board
board = record { config = config; jobs = jobs }

board_or : Reply → Board
board_or (committed b) = b
board_or _ = board

abbrev saved_board : Board
unfolding board_or
saved_board = board_or (scheduler_save clock now "rollup_api_usage" (pos 0) board)

saved_ok : scheduler_save clock now "rollup_api_usage" (pos 0) board ≡ committed saved_board
unfolding scheduler_save saved_board board_or bits value_of hours_from
saved_ok = refl

scheduler_save-reads_back_example :
    let before = config_value (config_key rollup.key) board.config in
    let hours = max 1 (pos_part (pos 0)) in
    ((task_view clock saved_board.config rollup).frequency_hours ≡ int (pos hours))
    × ((task_view clock saved_board.config rollup).enabled
        ≡ (task_view clock board.config rollup).enabled)
    × ((next : ℕ) × (hours_from
            (last_or clock now (setting before "last_run_at" null))
            (int (pos hours))
          ≡ ok next)
        × ((task_view clock saved_board.config rollup).next_run_at ≡ moment next))
    × ((u : TaskDef)
        → str_eq (config_key rollup.key) (config_key u.key) ≡ false
        → task_view clock saved_board.config u ≡ task_view clock board.config u)
    × (saved_board.jobs ≡ board.jobs)
scheduler_save-reads_back_example =
    scheduler_save-reads_back clock clock-ReadsBack now rollup (pos 0) board saved_board saved_ok

abbrev silent_board : Board
unfolding board_or
silent_board = board_or (scheduler_toggle clock now "rollup_api_usage" board)

silent_ok : scheduler_toggle clock now "rollup_api_usage" board ≡ committed silent_board
unfolding scheduler_toggle silent_board board_or
silent_ok = refl

-- Two hours later the other tasks are due, and an hour after that comes the next tick.
abbrev earlier_ticks : List Attempt
earlier_ticks =
    record { now = now + 2 * hour; uuid4 = uuid4; locked = true; jobs = jobs }
    ∷ record { now = now + 2 * hour; uuid4 = uuid4; locked = false; jobs = [] }
    ∷ []

abbrev next_tick : Attempt
next_tick = record { now = now + 3 * hour; uuid4 = uuid4; locked = true; jobs = jobs }

scheduler_toggle-silences_example :
    get_queue_depth
      (attempt clock next_tick (config_after clock earlier_ticks silent_board.config)).1
      "rollup_api_usage"
    ≡ get_queue_depth jobs "rollup_api_usage"
unfolding config_value setting truthy
scheduler_toggle-silences_example =
    scheduler_toggle-silences clock now "rollup_api_usage" board silent_board earlier_ticks
      next_tick refl silent_ok
