-- ===== src/Worker/Poll/Dispatch.antt =====
-- What a pass may do to the table, and what it hands to a task.
use think_tank.Prelude.{
  ℕ, ◌+◌, ◌≡◌, ◌≢◌, refl, sym, ◌∙◌, subst, String, Bool, true, false, not, ◌||◌, Option, some, List,
  In, ◌==◌, ==_self, Bool-cases, inl, inr, if◌then◌else◌, arith,
}
use think_tank.Json.{Result, ok, raise}
use think_tank.Config.{SystemConfig}
use think_tank.Queue.Job.{Job, running, find_job, update_job}
use think_tank.Queue.Rows.{Distinct, find_job-update, find_job_of_In, find_job-overwrite}
use think_tank.Queue.Claim.{is_eligible, mark_running, claim_job}
use think_tank.Queue.Claim.Ownership.{Claimed, idle, claimed, claim_job-Claimed, mark_running_id}
use think_tank.Queue.KillSwitch.{is_workers_active}
use think_tank.Queue.Backpressure.{get_effective_priority}
use think_tank.Worker.Poll.{
  WorkerSettings, Surroundings, sleep, dispatch, Pass, merge_priority, settle, dispatch_job,
  after_claim, loop_pass,
}

-- A worker that is switched off, or that cannot read the switch, claims nothing: the pass sleeps
-- and leaves the table and the idle count as they were.
pub loop_pass_paused :
    (s : WorkerSettings) (env : Surroundings) (w : String) (config : List SystemConfig) (n : ℕ)
    (jobs : List Job)
    → (env.switch_fails || not (is_workers_active config)) ≡ true
    → loop_pass s env w config n jobs
      ≡ record { action = sleep s.poll_interval; idle_count = n; jobs = jobs }
unfolding loop_pass
loop_pass_paused s env w config n jobs h = ground arith

-- What a pass hands out: a row that was eligible, now running for this worker with one more
-- attempt.
pub record Dispatched (s : WorkerSettings) (env : Surroundings) (w : String) (jobs : List Job)
    (job : Job) : Type 0 where
  pub row : Job
  pub was_there : In row jobs
  pub was_eligible : is_eligible env.now s.job_types env.locked row ≡ true
  pub same_id : job.id ≡ row.id
  pub is_running : job.status ≡ running
  pub owned : job.worker_id ≡ some w
  pub counted : job.attempts ≡ row.attempts + 1

-- A pass that hands out the claimed job, with this priority, and with the row to match.
pub record Hands (claim : Job) (out : Pass) : Type 0 where
  pub priority : ℕ
  pub action_is : out.action ≡ dispatch (record claim { priority = priority })
  pub stored : find_job claim.id out.jobs ≡ some (record claim { priority = priority })
  pub reset : out.idle_count ≡ 0

settle-Hands :
    (r : Result ℕ) (job : Job) (jobs : List Job)
    → find_job job.id jobs ≡ some job
    → Hands job (settle r job jobs)
unfolding settle
settle-Hands (raise e) job jobs h = record {
  priority = job.priority;
  action_is = refl;
  stored = h;
  reset = refl;
}
settle-Hands (ok p) job jobs h = elim (Bool-cases (p == job.priority)) [
  | inl e ↦ rw e (record { priority = job.priority; action_is = refl; stored = h; reset = refl })
  | inr e ↦ rw e (record {
    priority = p;
    action_is = refl;
    stored = unfold merge_priority in find_job-overwrite (record job { priority = p }) jobs h;
    reset = refl;
  })
]

dispatch_job-Hands :
    (env : Surroundings) (config : List SystemConfig) (job : Job) (jobs : List Job)
    → find_job job.id jobs ≡ some job
    → Hands job (dispatch_job env config job jobs)
unfolding dispatch_job
dispatch_job-Hands env config job jobs h = elim (Bool-cases env.backpressure_fails) [
  | inl e ↦ rw e (record { priority = job.priority; action_is = refl; stored = h; reset = refl })
  | inr e ↦ rw e (settle-Hands (get_effective_priority config jobs job) job jobs h)
]

mark_running_stored :
    (now : ℕ) (w : String) (row : Job) (jobs : List Job)
    → Distinct jobs
    → In row jobs
    → find_job (mark_running now w row).id (update_job row.id (mark_running now w) jobs)
      ≡ some (mark_running now w row)
unfolding mark_running
mark_running_stored now w row jobs d m =
    rw
      (
        find_job-update row.id row.id (mark_running now w) (mark_running_id now w) jobs,
        ==_self row.id,
        find_job_of_In jobs d m,
      )
      refl

module _ (s : WorkerSettings) (env : Surroundings) (w : String) (config : List SystemConfig) (n : ℕ)
    (jobs : List Job) (d : Distinct jobs) where
  handed :
      (row : Job) (out : Pass)
      → In row jobs
      → is_eligible env.now s.job_types env.locked row ≡ true
      → Hands (mark_running env.now w row) out
      → (job : Job) → out.action ≡ dispatch job
      → Dispatched s env w jobs job × (find_job job.id out.jobs ≡ some job) × (out.idle_count ≡ 0)
  unfolding mark_running
  handed row out m p h job e =
      subst
        (λ k. Dispatched s env w jobs k × (find_job k.id out.jobs ≡ some k) × (out.idle_count ≡ 0))
        (same_job (sym h.action_is ∙ e))
        (
          record {
            row = row;
            was_there = m;
            was_eligible = p;
            same_id = refl;
            is_running = refl;
            owned = refl;
            counted = refl;
          },
          h.stored,
          h.reset,
        )
    where
      same_job : {a b : Job} → dispatch a ≡ dispatch b → a ≡ b
      same_job q = cc

  -- A pass that gets as far as the claim.
  after_claim-Dispatched :
      {out : Option Job × List Job}
      → Claimed env.now w s.job_types env.locked jobs out
      → (job : Job) → (after_claim s env config n out).action ≡ dispatch job
      → Dispatched s env w jobs job
        × (find_job job.id (after_claim s env config n out).jobs ≡ some job)
        × ((after_claim s env config n out).idle_count ≡ 0)
  unfolding after_claim
  after_claim-Dispatched (idle h) job e = cc
  after_claim-Dispatched (claimed row m p l _) job e =
      let c = mark_running env.now w row in
      let t = update_job row.id (mark_running env.now w) jobs in
      handed row (dispatch_job env config c t) m p
        (dispatch_job-Hands env config c t (mark_running_stored env.now w row jobs d m)) job e

  -- Either the pass stops before the claim, or it goes on.
  stops_or_claims :
      (stop : Bool) (still : Pass) (job : Job)
      → ((k : Job) → still.action ≢ dispatch k)
      → (if stop
          then still
          else after_claim s env config n (claim_job env.now w s.job_types env.locked jobs)).action
        ≡ dispatch job
      → let out =
          (if stop
            then still
            else after_claim s env config n (claim_job env.now w s.job_types env.locked jobs)) in
        (stop ≡ false)
        × Dispatched s env w jobs job
        × (find_job job.id out.jobs ≡ some job)
        × (out.idle_count ≡ 0)
  stops_or_claims true still job h e = absurd (h job e)
  stops_or_claims false still job h e =
      let (d, st, r) =
        after_claim-Dispatched (claim_job-Claimed env.now w s.job_types env.locked jobs) job e in
      (refl, d, st, r)

  -- Over a table with distinct ids, whatever fails on the way: a pass hands out a job only when
  -- the switch could be read and was on and the claim worked; the job was an eligible row and is
  -- now running for this worker with one more attempt; the job in memory is the row as stored, its
  -- priority included; and the idle count is back at 0.
  pub loop_pass-Dispatched :
      (job : Job)
      → (loop_pass s env w config n jobs).action ≡ dispatch job
      → ((env.switch_fails || not (is_workers_active config) || env.claim_fails) ≡ false)
        × Dispatched s env w jobs job
        × (find_job job.id (loop_pass s env w config n jobs).jobs ≡ some job)
        × ((loop_pass s env w config n jobs).idle_count ≡ 0)
  unfolding loop_pass
  loop_pass-Dispatched job e =
      stops_or_claims (env.switch_fails || not (is_workers_active config) || env.claim_fails)
        (record { action = sleep s.poll_interval; idle_count = n; jobs = jobs }) job (λ k q. cc) e
