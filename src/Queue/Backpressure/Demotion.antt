-- ===== src/Queue/Backpressure/Demotion.antt =====
-- The demotion is bounded and one-way.
use think_tank.Prelude.{
  ℕ, ◌+◌, ◌≤◌, min, ℤ, pos, ltb_ℤ, ◌≡◌, refl, inl, inr, Bool, true, Bool-cases, List, arith,
}
use think_tank.Json.{ok}
use think_tank.Config.{SystemConfig}
use think_tank.Queue.Job.{Job}
use think_tank.Queue.Backpressure.{
  get_queue_depth, get_threshold, demote, get_effective_priority, is_discovery,
}

demote_bounds :
    (depth : ℕ) (threshold : ℤ) (p : ℕ)
    → p ≤ 10
    → (p ≤ demote depth threshold p) × (demote depth threshold p ≤ 10)
unfolding demote
demote_bounds depth threshold p h = ground arith

-- What the check is meant to return.
abbrev pub demoted : Bool → Bool → ℕ → ℕ
demoted true true p = min (p + 3) 10
demoted _ _ p = p

-- For a readable threshold and a priority number of at most 10 the new one lies between the old one and 10, so the check
-- demotes or keeps and never restores; it demotes (by 3, up to 10) exactly when the job is a
-- discovery job and more transcriptions wait than the threshold allows.
pub get_effective_priority_lem :
    (config : List SystemConfig) (jobs : List Job) (j : Job) {threshold : ℤ}
    → j.priority ≤ 10
    → get_threshold config ≡ ok threshold
    → (p : ℕ) × (get_effective_priority config jobs j ≡ ok p)
      × (j.priority ≤ p)
      × (p ≤ 10)
      × (p
          ≡ demoted
              (is_discovery j.job_type)
              (ltb_ℤ threshold (pos (get_queue_depth jobs "process_content")))
              j.priority)
unfolding get_effective_priority demote
get_effective_priority_lem config jobs j {threshold} h e =
    elim (Bool-cases (is_discovery j.job_type)) [
      | inl d ↦ (
        demote (get_queue_depth jobs "process_content") threshold j.priority,
        rw (d, e, get_effective_priority) refl,
        (demote_bounds (get_queue_depth jobs "process_content") threshold j.priority h).0,
        (demote_bounds (get_queue_depth jobs "process_content") threshold j.priority h).1,
        rw d (ground arith),
      )
      | inr d ↦ (j.priority, rw d refl, omega arith, h, rw d (ground arith))
    ]
