-- ===== src/Tests/Worker.antt =====
-- Tests of Worker.
use think_tank.Prelude.{◌≡◌, refl, String, false, not, ◌||◌, Option, none, some, [], arith}
use think_tank.Queue.Job.{Job, running, find_job}
use think_tank.Queue.Claim.{claim_job, select_first, is_eligible}
use think_tank.Queue.Backpressure.{get_effective_priority, is_discovery}
use think_tank.Queue.KillSwitch.{is_workers_active}
use think_tank.Worker.Process.{Handler, process_job}
use think_tank.Worker.Process.Outcomes.{Ends, process_job-Ends}
use think_tank.Worker.Poll.{WorkerSettings, Surroundings, dispatch, loop_pass}
use think_tank.Worker.Poll.Dispatch.{Dispatched, loop_pass-Dispatched}
use think_tank.Worker.Pool.{Pool, start, start_task}
use think_tank.Tests.Rows.{row, table, unlocked, table-Distinct}

abbrev busy : Job
busy = record (row 5 "fetch_podcast_feed" running 5 1) { started_at = some 10 }

abbrev raises : Handler
raises j jobs = (
  some (record {
    isinstance = λ c. false;
    status_code = 0;
    retry_after_seconds = none;
    text = "boom";
  }),
  jobs,
)

abbrev handlers : String → Option Handler
handlers t = some raises

abbrev message : String → String
message t = t

process_job-Ends_example :
    (j' : Job) × (find_job 5 (process_job 20 message handlers busy 3 table).0 ≡ some j')
    × Ends 20 "fetch_podcast_feed" (some raises) busy busy j' table
    × ((process_job 20 message handlers busy 3 table).1 ≡ 4)
unfolding find_job
process_job-Ends_example =
    process_job-Ends 20 message busy table handlers 3 {j = busy} refl (omega arith)

abbrev settings : WorkerSettings
settings = record {
  poll_interval = 2000000;
  max_idle_backoff = 30000000;
  multiplier_num = 3;
  multiplier_den = 2;
  max_concurrency = 4;
  job_types = none;
}

abbrev calm : Surroundings
calm = record {
  now = 200;
  locked = unlocked;
  switch_fails = false;
  claim_fails = false;
  backpressure_fails = false;
}

abbrev taken : Job
taken = record (row 2 "process_content" running 3 1) { worker_id = some "w"; started_at = some 200 }

takes_two : (loop_pass settings calm "w" [] 2 table).action ≡ dispatch taken
unfolding loop_pass claim_job is_workers_active select_first is_eligible get_effective_priority
    is_discovery
takes_two = refl

loop_pass-Dispatched_example :
    ((false || not (is_workers_active []) || false) ≡ false)
    × Dispatched settings calm "w" table taken
    × (find_job 2 (loop_pass settings calm "w" [] 2 table).jobs ≡ some taken)
    × ((loop_pass settings calm "w" [] 2 table).idle_count ≡ 0)
loop_pass-Dispatched_example =
    loop_pass-Dispatched settings calm "w" [] 2 table table-Distinct taken takes_two

abbrev one_started : Pool
one_started = record { permits = 3; active = 1 }

start_one : start_task (start 4) ≡ some one_started
unfolding start_task
start_one = refl
