-- ===== src/Worker/Poll.antt =====
-- One pass of the main loop of worker/loop.py: kill switch, claim, backpressure, dispatch.
pub mod Dispatch
use think_tank.Prelude.{
  ℕ, suc, ◌+◌, ◌*◌, ◌/◌, ◌^◌, min, String, Bool, true, false, not, ◌||◌, Option, none, some, List,
  ◌==◌, if◌then◌else◌,
}
use think_tank.Json.{Result, ok, raise}
use think_tank.Config.{SystemConfig}
use think_tank.Queue.Job.{Job, update_job}
use think_tank.Queue.Claim.{claim_job}
use think_tank.Queue.KillSwitch.{is_workers_active}
use think_tank.Queue.Backpressure.{get_effective_priority}

-- worker/config.py. Durations are microseconds, and the multiplier is a fraction.
pub record WorkerSettings : Type 0 where
  pub poll_interval : ℕ
  pub max_idle_backoff : ℕ
  pub multiplier_num : ℕ
  pub multiplier_den : ℕ
  pub max_concurrency : ℕ
  pub job_types : Option (List String)

-- What the worker sees in one pass: the time, the rows that others hold locked, and which of its
-- three sessions fails with a database error.
pub record Surroundings : Type 0 where
  pub now : ℕ
  pub locked : ℕ → Bool
  pub switch_fails : Bool
  pub claim_fails : Bool
  pub backpressure_fails : Bool

pub data Action : Type 0 where
  sleep : ℕ → Action
  dispatch : Job → Action

pub record Pass : Type 0 where
  pub action : Action
  pub idle_count : ℕ
  pub jobs : List Job

-- `min(poll_interval * multiplier ** min(idle_count, 50), max_idle_backoff)`, in whole
-- microseconds.
unfoldable pub idle_wait : WorkerSettings → ℕ → ℕ
idle_wait s idle_count =
    let k = min idle_count 50 in
    min (s.poll_interval * s.multiplier_num ^ k / s.multiplier_den ^ k) s.max_idle_backoff

-- The write-back of step 4d: the detached job is merged onto its row.
unfoldable pub merge_priority : ℕ → Job → List Job → List Job
merge_priority p job jobs = update_job job.id (λ _. record job { priority = p }) jobs

keep : Job → List Job → Pass
keep job jobs = record { action = dispatch job; idle_count = 0; jobs = jobs }

-- What follows the computation of the effective priority.
unfoldable pub settle : Result ℕ → Job → List Job → Pass
unfolding merge_priority keep
settle (raise e) job jobs = keep job jobs
settle (ok p) job jobs = if p == job.priority then keep job jobs else record {
  action = dispatch (record job { priority = p });
  idle_count = 0;
  jobs = merge_priority p job jobs;
}

-- Steps 4d and 4e. On an error the priority is the one that was claimed.
unfoldable pub dispatch_job : Surroundings → List SystemConfig → Job → List Job → Pass
unfolding settle
dispatch_job env config job jobs =
    if env.backpressure_fails
    then keep job jobs
    else settle (get_effective_priority config jobs job) job jobs

unfoldable pub after_claim :
    WorkerSettings → Surroundings → List SystemConfig → ℕ → Option Job × List Job → Pass
unfolding dispatch_job
after_claim s env config idle_count (none, jobs) = record {
  action = sleep (idle_wait s (idle_count + 1));
  idle_count = idle_count + 1;
  jobs = jobs;
}
after_claim s env config idle_count (some job, jobs) = dispatch_job env config job jobs

unfoldable pub loop_pass :
    WorkerSettings → Surroundings → String → List SystemConfig → ℕ → List Job → Pass
unfolding after_claim
loop_pass s env worker_id config idle_count jobs =
    if env.switch_fails || not (is_workers_active config) || env.claim_fails
    then record { action = sleep s.poll_interval; idle_count = idle_count; jobs = jobs }
    else after_claim s env config idle_count
        (claim_job env.now worker_id s.job_types env.locked jobs)
