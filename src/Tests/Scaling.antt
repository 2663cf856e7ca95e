-- ===== src/Tests/Scaling.antt =====
-- Three checks: the timer starts, runs, and expires.
use think_tank.Prelude.{ℕ, ◌*◌, ◌≡◌, refl, true, Option, none, some, [], ◌∷◌}
use think_tank.Json.{ok}
use think_tank.Queue.Job.{minute, done}
use think_tank.Scaling.{Scaling, is_above, is_off, manage_gpu_scaling}
use think_tank.Scaling.IdleTime.{
  Tick, check, next_timer, depth_at, threshold_at, begun, tick, Stopped, check-Stopped,
}
use think_tank.Tests.Rows.{row}

abbrev at : ℕ → Tick
at now = record {
  now = now;
  config = [];
  jobs = row 1 "process_content" done 5 1 ∷ [];
  replicas = some 1;
}

abbrev stop : Scaling
stop = record { scaled = true; idle_since = none; request = some 0 }

abbrev first : Tick
first = at (5 * minute)

abbrev second : Tick
second = at (20 * minute)

abbrev third : Tick
third = at (36 * minute)

-- The timer after the first two checks.
abbrev timer : Option ℕ
timer =
    next_timer (next_timer none (check first none))
      (check second (next_timer none (check first none)))

stops : check third timer ≡ ok stop
unfolding manage_gpu_scaling
stops = refl

check-Stopped_example :
    (stop.request ≡ some 0 → Stopped (second ∷ first ∷ []) third)
    × (stop.request ≡ some 1
        → (is_above (depth_at third) (threshold_at third) ≡ ok true)
          × (is_off third.replicas ≡ true))
check-Stopped_example = check-Stopped (tick second (tick first begun)) third stop stops
