-- ===== src/Governance/Escalation/Once.antt =====
-- A job is escalated once.
use think_tank.Prelude.{
  ℕ, ◌≡◌, refl, ap, subst, inl, inr, ℤ, true, false, List, [], ◌∷◌, map, select, Bool-cases,
  if◌then◌else◌, arith,
}
use think_tank.Json.{bool, empty, get-put, ok, raise, Result-cases}
use think_tank.Config.{SystemConfig}
use think_tank.Queue.Job.{Job}
use think_tank.Schedule.{fields_or}
use think_tank.Governance.Escalation.{
  is_flagged, is_escalated, flag, Escalation, timeout_hours, escalate_timed_out_reviews,
}

flag-is_flagged : (j : Job) → is_flagged (flag j).payload ≡ true
unfolding flag is_flagged fields_or
flag-is_flagged j =
    rw
      (
        get-put (fields_or empty j.payload) "needs_human_review" (bool true) (bool false),
        is_flagged,
      )
      refl

flag-is_escalated : (now : ℕ) (hours : ℤ) (j : Job) → is_escalated now hours (flag j) ≡ false
unfolding is_escalated
flag-is_escalated now hours j = ground (arith, flag-is_flagged j)

-- The row after the UPDATE.
settle : ℕ → ℤ → Job → Job
settle now hours j = if is_escalated now hours j then flag j else j

settle-is_escalated :
    (now : ℕ) (hours : ℤ) (j : Job) → is_escalated now hours (settle now hours j) ≡ false
unfolding settle
settle-is_escalated now hours j = elim (Bool-cases (is_escalated now hours j)) [
  | inl e ↦ rw e (flag-is_escalated now hours j)
  | inr e ↦ rw e e
]

settle-settle :
    (now : ℕ) (hours : ℤ) (j : Job) → settle now hours (settle now hours j) ≡ settle now hours j
unfolding settle
settle-settle now hours j = elim (Bool-cases (is_escalated now hours j)) [
  | inl e ↦ rw e (rw (flag-is_escalated now hours j) refl)
  | inr e ↦ rw e (rw e refl)
]

settled_rows :
    (now : ℕ) (hours : ℤ) (js : List Job)
    → (map (settle now hours) (map (settle now hours) js) ≡ map (settle now hours) js)
      × (select (is_escalated now hours) (map (settle now hours) js) ≡ [])
settled_rows now hours [] = (refl, refl)
settled_rows now hours (j ∷ js) =
    let (rows, none_left) = settled_rows now hours js in
    (
      rw (settle-settle now hours j) (ap (λ xs. settle now hours j ∷ xs) rows),
      rw (settle-is_escalated now hours j) none_left,
    )

settle-status :
    (now : ℕ) (hours : ℤ) (js : List Job)
    → map (λ j. j.status) (map (settle now hours) js) ≡ map (λ j. j.status) js
unfolding settle flag
settle-status now hours [] = refl
settle-status now hours (j ∷ js) = ground (arith, settle-status now hours js)

-- An escalation that succeeds flags each job that it adds a review for, so that another one at the
-- same time under the same settings changes no job and adds no review; and it leaves the status of
-- every job as it was.
pub escalate_timed_out_reviews-again :
    (now : ℕ) (config : List SystemConfig) (jobs after : List Job) (reviews : List Escalation)
    → escalate_timed_out_reviews now config jobs ≡ ok (after, reviews)
    → (escalate_timed_out_reviews now config after ≡ ok (after, []))
      × (map (λ j. j.status) after ≡ map (λ j. j.status) jobs)
unfolding escalate_timed_out_reviews settle
escalate_timed_out_reviews-again now config jobs after reviews h =
    elim (Result-cases (timeout_hours config)) [
      | inl (hours, e) ↦
          let u : escalate_timed_out_reviews now config jobs
              ≡ ok (
                map (settle now hours) jobs,
                map (λ j. record { job_id = j.id; job_type = j.job_type })
                    (select (is_escalated now hours) jobs),
              ) =
            rw e refl in
          let same : map (settle now hours) jobs ≡ after = cc in
          let (rows, none_left) = settled_rows now hours jobs in
          subst
            (λ x.
              (escalate_timed_out_reviews now config x ≡ ok (x, []))
              × (map (λ j. j.status) x ≡ map (λ j. j.status) jobs))
            same (rw e (rw rows (rw none_left refl)), settle-status now hours jobs)
      | inr (x, e) ↦ let u : escalate_timed_out_reviews now config jobs ≡ raise x = rw e refl in cc
    ]
