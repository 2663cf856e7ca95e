-- ===== src/Pipeline/Cancel.antt =====
-- A cancelled job is never claimed.
use think_tank.Prelude.{
  ℕ, ◌≡◌, ◌≢◌, refl, subst, inl, inr, List, [], ◌∷◌, ◌==◌, All, Bool-cases, Option-cases, arith,
}
use think_tank.Queue.Job.{Job, cancelled, is_queued, find_job, update_job}
use think_tank.Queue.Claim.Ownership.{Request, claimed_ids, Held, Held-absent}
use think_tank.Pipeline.{not_found, refused, changed, is_pending, cancel_job}

cancelled-Held :
    (i : ℕ) (jobs : List Job) → Held i (update_job i (λ k. record k { status = cancelled }) jobs)
unfolding update_job is_queued
cancelled-Held i [] = tt
cancelled-Held i (j ∷ js) = elim (Bool-cases (j.id == i)) [
  | inl e ↦ rw e (λ _. refl, cancelled-Held i js)
  | inr e ↦ rw e (λ p. absurd (ground (arith, p, e)), cancelled-Held i js)
]

-- After a cancellation that succeeds no sequence of claims, by any workers and with any locks, returns
-- the job.
pub cancel_job-claimed_ids :
    (i : ℕ) (jobs after : List Job) (rs : List Request)
    → cancel_job i jobs ≡ changed after
    → All (λ k. i ≢ k) (claimed_ids rs after)
unfolding cancel_job
cancel_job-claimed_ids i jobs after rs h = elim (Option-cases (find_job i jobs)) [
  | inl e ↦ let u : cancel_job i jobs ≡ not_found = rw (e, cancel_job) refl in cc
  | inr (j, e) ↦ elim (Bool-cases (is_pending j.status)) [
    | inl p ↦
        let u : cancel_job i jobs
            ≡ changed (update_job i (λ k. record k { status = cancelled }) jobs) =
          rw (e, cancel_job) (rw p refl) in
        let same : update_job i (λ k. record k { status = cancelled }) jobs ≡ after = cc in
        Held-absent i rs after (subst (Held i) same (cancelled-Held i jobs))
    | inr p ↦ let u : cancel_job i jobs ≡ refused = rw (e, cancel_job) (rw p refl) in cc
  ]
]
