-- ===== src/Governance/Apply.antt =====
-- apply_decision of llm/decisions.py: the decision, and the job that waited for it.
pub mod Jobs
pub mod Permission
use think_tank.Prelude.{ℕ, String, Bool, true, false, Option, none, some, List, if◌then◌else◌}
use think_tank.Queue.Job.{Job, pending, done, update_job}
use think_tank.Governance.{Store, Approval, allows}
use think_tank.Governance.Thinkers.{ThinkerApproval, apply_thinker_decision}
use think_tank.Governance.Sources.{SourceApproval, apply_source_decision}
use think_tank.Governance.Candidates.{CandidateReview, Verdict, apply_candidate_decision}

-- The type of the review, with its parsed response and its target. Only a candidate review may come
-- without a target.
pub data Review : Type 0 where
  thinker_approval : ℕ → ThinkerApproval → Review
  source_approval : ℕ → SourceApproval → Review
  candidate_review : Option ℕ → CandidateReview → Review

unfoldable pub decision_allows_processing : Review → Bool
unfolding allows
decision_allows_processing (thinker_approval i r) = allows r.decision
decision_allows_processing (source_approval i r) = allows r.decision
decision_allows_processing (candidate_review i r) = elim r.decision [
  | Verdict.approved ↦ true
  | _ ↦ false
]

unfoldable pub apply_review : ℕ → (ℕ → ℕ) → String → Review → ℕ → Store → Option Store
unfolding apply_thinker_decision apply_source_decision apply_candidate_decision
apply_review now uuid4 slug (thinker_approval i r) review_id s =
    apply_thinker_decision now uuid4 i r s
apply_review now uuid4 slug (source_approval i r) review_id s =
    some (apply_source_decision now uuid4 i r s)
apply_review now uuid4 slug (candidate_review i r) review_id s =
    apply_candidate_decision now uuid4 slug i r review_id s

unfoldable pub resume : Bool → ℕ → Job → Job
resume allowed review_id j = record j {
  llm_review_id = some review_id;
  status = if allowed then pending else done;
}

-- `session.get(Job, pending_job_id)`; a job that is not there is left out.
unfoldable pub resume_job : Bool → ℕ → Option ℕ → Store → Store
unfolding resume
resume_job allowed review_id none s = s
resume_job allowed review_id (some i) s = record s {
  jobs = update_job i (resume allowed review_id) s.jobs;
}

unfoldable pub apply_decision : ℕ → (ℕ → ℕ) → String → Review → Option ℕ → ℕ → Store → Option Store
unfolding apply_review resume_job decision_allows_processing
apply_decision now uuid4 slug review pending_job_id review_id s =
    elim (apply_review now uuid4 slug review review_id s) [
      | none ↦ none
      | some t ↦ some (resume_job (decision_allows_processing review) review_id pending_job_id t)
    ]
