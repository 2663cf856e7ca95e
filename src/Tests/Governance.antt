-- ===== src/Tests/Governance.antt =====
-- Decisions on a store with one candidate, whose channel is reachable.
use think_tank.Prelude.{
  ℕ, ◌+◌, ◌*◌, ◌≡◌, refl, String, true, false, ◌||◌, Option, none, some, List, [], ◌∷◌, map,
}
use think_tank.Queue.Job.{Job, awaiting_llm}
use think_tank.Discovery.Quota.{Candidate}
use think_tank.Discovery.Scan.{new_candidate}
use think_tank.Governance.{Store}
use think_tank.Governance.Candidates.{
  CandidateReview, Verdict, promoted_thinker, apply_candidate_decision,
}
use think_tank.Governance.Candidates.Promotion.{Reviewed, apply_candidate_decision-Reviewed}
use think_tank.Governance.Critique.{maybe_enqueue_roster_critique}
use think_tank.Governance.Critique.Once.{Triggered, maybe_enqueue_roster_critique-Triggered}
use think_tank.Governance.Apply.{
  candidate_review, decision_allows_processing, resume_job, apply_decision,
}
use think_tank.Governance.Apply.Permission.{
  Resumed, target_found, is_source, apply_decision-Resumed,
}
use think_tank.Json.{ok}
use think_tank.Schedule.{hour}
use think_tank.Governance.Escalation.{flag, escalate_timed_out_reviews}
use think_tank.Governance.Escalation.Once.{escalate_timed_out_reviews-again}
use think_tank.Governance.Vetting.{Findings, handle_vet_candidate, is_skipped, gate}
use think_tank.Governance.Vetting.Routes.{Vetted, handle_vet_candidate-Vetted}
use think_tank.Tests.Discovery.{rich}
use think_tank.Tests.Rows.{row}

abbrev grace : Candidate
grace = record (new_candidate 5 1 "Grace") {
  status = "awaiting_llm";
  search_area = some "compilers";
  youtube =
      some (record { checked = true; reachable = true; url = some "https://youtube.com/@grace" });
}

abbrev store : Store
store = record {
  jobs = row 3 "discover_thinker" awaiting_llm 5 0 ∷ [];
  thinkers = [];
  sources = [];
  source_thinkers = [];
  candidates = grace ∷ [];
  critiques = [];
}

abbrev uuid4 : ℕ → ℕ
uuid4 n = 100 + n

abbrev approval : CandidateReview
approval = record { decision = Verdict.approved; tier = none }

abbrev job_types : Option Store → List String
job_types none = []
job_types (some s) = map (λ j. j.job_type) s.jobs

-- The candidate was the last of its area, so the critic starts as well.
started :
    job_types
      (apply_decision 9 uuid4 "grace" (candidate_review (some 1) approval) (some 3) 50 store)
    ≡ "discover_thinker" ∷ "discover_thinker" ∷ "rescan_cataloged_for_thinker"
      ∷ "discover_expert_sources" ∷ "ingest_expert_papers" ∷ "llm_approval_check"
      ∷ "critique_roster" ∷ []
unfolding apply_decision new_candidate think_tank.Queue.Job.update_job maybe_enqueue_roster_critique
started = refl

-- The review job of a scan has no target: its decision raises.
no_target : apply_decision 9 uuid4 "grace" (candidate_review none approval) none 50 store ≡ none
unfolding apply_decision
no_target = refl

apply_decision-Resumed_example :
    ((target_found (candidate_review (some 1) approval) store
          || is_source (candidate_review (some 1) approval))
        ≡ true
      → (t : Store) × (apply_decision 9 uuid4 "grace"
            (candidate_review (some 1) approval)
            (some 3)
            50
            store
          ≡ some t)
        × Resumed
            (decision_allows_processing (candidate_review (some 1) approval))
            (some 3)
            50
            store.jobs
            t.jobs)
    × ((target_found (candidate_review (some 1) approval) store
            || is_source (candidate_review (some 1) approval))
          ≡ false
        → apply_decision 9 uuid4 "grace" (candidate_review (some 1) approval) (some 3) 50 store
          ≡ none)
    × (is_source (candidate_review (some 1) approval) ≡ true
        → target_found (candidate_review (some 1) approval) store ≡ false
        → apply_decision 9 uuid4 "grace" (candidate_review (some 1) approval) (some 3) 50 store
          ≡ some (
              resume_job
                (decision_allows_processing (candidate_review (some 1) approval))
                50
                (some 3)
                store))
apply_decision-Resumed_example =
    apply_decision-Resumed 9 uuid4 "grace" (candidate_review (some 1) approval) (some 3) 50 store

apply_candidate_decision-Reviewed_example :
    (t : Store) × (apply_candidate_decision 9 uuid4 "grace" (some 1) approval 50 store ≡ some t)
    × Reviewed 50 Verdict.approved
        (promoted_thinker 9 (uuid4 0) "grace" approval grace)
        grace
        store
        t
unfolding new_candidate
apply_candidate_decision-Reviewed_example =
    apply_candidate_decision-Reviewed 9 uuid4 "grace" 1 approval 50 store refl

maybe_enqueue_roster_critique-Triggered_example :
    Triggered 9 7 "compilers" store (maybe_enqueue_roster_critique 9 7 (some "compilers") store)
maybe_enqueue_roster_critique-Triggered_example =
    maybe_enqueue_roster_critique-Triggered 9 7 "compilers" store

abbrev findings : Findings
findings = record {
  dossier = rich;
  youtube = none;
  peers = 7;
  centrality = none;
  has_basis = true;
  legitimate = true;
}

abbrev vetting : Store
vetting = record store { candidates = record grace { status = "vetting" } ∷ [] }

abbrev statuses : Option Store → List String
statuses none = []
statuses (some s) = map (λ c. c.status) s.candidates

vetted : statuses (handle_vet_candidate 9 uuid4 [] false findings 1 vetting) ≡ "awaiting_llm" ∷ []
unfolding handle_vet_candidate new_candidate think_tank.Discovery.Rubric.gate_decision
    think_tank.Discovery.Rubric.score_dossier think_tank.Discovery.Rubric.content_score
    think_tank.Discovery.Rubric.band think_tank.Discovery.Rubric.load_thresholds
    think_tank.Discovery.Rubric.fit_outcome think_tank.Discovery.Rubric.base_outcome
    think_tank.Discovery.Rubric.scholarship_score think_tank.Discovery.Rubric.notability_score
    think_tank.Discovery.Rubric.authorship_score think_tank.Discovery.Rubric.peer_score
    think_tank.Config.config_value think_tank.Json.to_int maybe_enqueue_roster_critique
vetted = refl

handle_vet_candidate-Vetted_example :
    (t : Store) × (handle_vet_candidate 9 uuid4 [] false findings 1 vetting ≡ some t)
    × (is_skipped false "vetting" ≡ true → t ≡ vetting)
    × (is_skipped false "vetting" ≡ false
        → Vetted 9
            (uuid4 0)
            findings
            (gate [] findings)
            (record grace { status = "vetting" })
            vetting
            t)
unfolding new_candidate
handle_vet_candidate-Vetted_example =
    handle_vet_candidate-Vetted 9 uuid4 [] false findings 1 vetting refl

-- One job waits for three hours, one for one, and one was flagged before.
abbrev waiting : List Job
waiting =
    row 1 "process_content" awaiting_llm 5 0
    ∷ record (row 2 "process_content" awaiting_llm 5 0) { created_at = 2 * hour }
    ∷ flag (row 3 "process_content" awaiting_llm 5 0)
    ∷ []

abbrev flagged : List Job
flagged =
    flag (row 1 "process_content" awaiting_llm 5 0)
    ∷ record (row 2 "process_content" awaiting_llm 5 0) { created_at = 2 * hour }
    ∷ flag (row 3 "process_content" awaiting_llm 5 0)
    ∷ []

escalated :
    escalate_timed_out_reviews (3 * hour) [] waiting
    ≡ ok (flagged, record { job_id = 1; job_type = "process_content" } ∷ [])
unfolding escalate_timed_out_reviews flag
escalated = refl

escalate_timed_out_reviews-again_example :
    (escalate_timed_out_reviews (3 * hour) [] flagged ≡ ok (flagged, []))
    × (map (λ j. j.status) flagged ≡ map (λ j. j.status) waiting)
escalate_timed_out_reviews-again_example =
    escalate_timed_out_reviews-again (3 * hour) [] waiting flagged
      (record { job_id = 1; job_type = "process_content" } ∷ []) escalated
