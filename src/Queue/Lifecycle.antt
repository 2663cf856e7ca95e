-- ===== src/Queue/Lifecycle.antt =====
-- The life of the rows of `jobs` under the operations of queue/: any sequence of inserts, claims,
-- completions, failures and reclamations.
pub mod Bounds
use think_tank.Prelude.{
  ℕ, ◌+◌, ◌≡◌, ◌≢◌, ◌≤◌, ◌<◌, max, refl, sym, ℤ, String, Bool, true, false, not, Option, none, some,
  List, [], ◌∷◌, map, Bool-cases, Option-cases, inl, inr, if◌then◌else◌, All, All-In, In, arith,
  ltb,
}
use think_tank.Json.{Result, ok}
use think_tank.Config.{SystemConfig}
use think_tank.Queue.Job.{
  Job, Status, pending, ErrorCategory, is_queued, is_running, find_job, update_job,
}
use think_tank.Queue.Rows.{
  Distinct, KeepsId, find_job-In, row_unique, update_job-All, update_job-Distinct,
}
use think_tank.Queue.Retry.{get_max_attempts}
use think_tank.Queue.Claim.{
  is_eligible, mark_running, claim_job, mark_done, complete_job, mark_failed, attempt_limit,
  fail_job,
}
use think_tank.Queue.Claim.Ownership.{Claimed, idle, claimed, claim_job-Claimed}
use think_tank.Queue.Claim.Failure.{mark_failed_id, mark_done_id}
use think_tank.Queue.Reclaim.{get_stale_timeout, is_stale, mark_reclaimed, reclaim_stale_jobs}
use think_tank.Queue.Reclaim.Settles.{reclaim_row, mark_reclaimed_id, reclaim_stale_jobs-map}

-- The larger of the row's own limit, which the reclamation reads, and the limit of its type, which
-- `fail_job` reads.
abbrev pub limit : Job → ℕ
limit j = max j.max_attempts (get_max_attempts j.job_type)

-- One operation on the table. An insert is of a fresh pending row; a failure names no limit above
-- that of the type (the worker passes 1, or the limit of the type).
pub data Step (jobs : List Job) : List Job → Type 0 where
  insert :
      (j : Job)
      → j.status ≡ pending
      → j.attempts ≡ 0
      → All (λ k. j.id ≢ k.id) jobs
      → Step jobs (j ∷ jobs)
  claim :
      (now : ℕ) (w : String) (types : Option (List String)) (locked : ℕ → Bool)
      → Step jobs (claim_job now w types locked jobs).1
  complete : (now i : ℕ) → Step jobs (complete_job now i jobs)
  fail :
      (now i : ℕ) (msg : String) (c : ErrorCategory) (cap retry_after : Option ℕ)
      → ((t : String) → attempt_limit cap t ≤ get_max_attempts t)
      → Step jobs (fail_job now i msg c cap retry_after jobs)
  reclaim :
      (now : ℕ) (config : List SystemConfig) (locked : ℕ → Bool) (timeout : ℤ)
      (out : List Job × List Job)
      → get_stale_timeout config ≡ ok timeout
      → reclaim_stale_jobs now config locked jobs ≡ ok out
      → Step jobs out.1

pub data Reach (start : List Job) : List Job → Type 0 where
  here : Reach start start
  next : {jobs jobs' : List Job} → Reach start jobs → Step jobs jobs' → Reach start jobs'

-- A row may be claimed only with attempts to spare, and never has more than one beyond its limit.
pub record IsBounded (j : Job) : Type 0 where
  pub spare : is_queued j.status ≡ true → j.attempts < limit j
  pub busy : is_running j.status ≡ true → j.attempts ≤ limit j
  pub total : j.attempts ≤ limit j + 1

pub record IsSound (jobs : List Job) : Type 0 where
  pub distinct : Distinct jobs
  pub bounded : All IsBounded jobs

max_attempts_pos : (t : String) → 0 < get_max_attempts t
unfolding get_max_attempts
max_attempts_pos t = ground arith

insert-IsBounded : (j : Job) → j.status ≡ pending → j.attempts ≡ 0 → IsBounded j
unfolding is_queued is_running
insert-IsBounded j s a = omega (arith, max_attempts_pos j.job_type)

mark_running-IsBounded :
    (now : ℕ) (w : String) (j : Job)
    → is_queued j.status ≡ true
    → IsBounded j
    → IsBounded (mark_running now w j)
unfolding mark_running is_queued is_running
mark_running-IsBounded now w j q b = ground (arith, b.spare q)

mark_done-IsBounded : (now : ℕ) (j : Job) → IsBounded j → IsBounded (mark_done now j)
unfolding mark_done is_queued is_running
mark_done-IsBounded now j b = ground arith

mark_failed-IsBounded :
    (now : ℕ) (msg : String) (c : ErrorCategory) (n : ℕ) (retry_after : Option ℕ) (j : Job)
    → n ≤ limit j
    → IsBounded j
    → IsBounded (mark_failed now msg c n retry_after j)
unfolding mark_failed is_queued is_running
mark_failed-IsBounded now msg c n retry_after j h b = ground arith

mark_reclaimed-IsBounded :
    (now : ℕ) (j : Job)
    → is_running j.status ≡ true
    → IsBounded j
    → IsBounded (mark_reclaimed now j.attempts j.max_attempts j)
unfolding mark_reclaimed is_queued is_running
mark_reclaimed-IsBounded now j r b = ground (arith, b.busy r)
