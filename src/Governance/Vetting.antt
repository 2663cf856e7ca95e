-- ===== src/Governance/Vetting.antt =====
-- handle_vet_candidate of handlers/vet_candidate.py: evidence, score, gate, and the route of the
-- candidate. What the evidence gathering and the LLM calls return is an input.
pub mod Routes
use think_tank.Prelude.{
  ℕ, pos, String, Bool, true, false, not, ◌&&◌, ◌||◌, Option, none, some, List, [], ◌∷◌, str_eq,
  find_by, update_by, if◌then◌else◌,
}
use think_tank.Json.{int, str, arr, item, no_items, obj, entry, empty}
use think_tank.Config.{SystemConfig}
use think_tank.Queue.Job.{Job, new_job}
use think_tank.Queue.Retry.{get_max_attempts}
use think_tank.Discovery.Quota.{Candidate, YoutubeEvidence}
use think_tank.Discovery.Rubric.{
  Dossier, Outcome, auto_rejected, borderline, score_dossier, gate_decision, load_thresholds,
}
use think_tank.Governance.{Store, add_jobs}
use think_tank.Governance.Critique.{maybe_enqueue_roster_critique}

-- The dossier and its YouTube block, the peer count, the centrality (none without a fit), whether
-- the seed claim has a basis, and what `review_rejection` answers.
pub record Findings : Type 0 where
  pub dossier : Dossier
  pub youtube : Option YoutubeEvidence
  pub peers : ℕ
  pub centrality : Option String
  pub has_basis : Bool
  pub legitimate : Bool

-- `_rejection_is_suspicious`
unfoldable pub rejection_is_suspicious : Findings → Bool
rejection_is_suspicious f =
    f.has_basis && not f.dossier.openalex_found && not f.dossier.wikidata_found

-- `status == "promoted" or (status not in allowed and not force)`
unfoldable pub is_skipped : Bool → String → Bool
is_skipped force status =
    str_eq status "promoted"
    || (not (str_eq status "pending_llm" || str_eq status "vetting" || str_eq status "seeded")
        && not force)

unfoldable pub judge_job : ℕ → ℕ → ℕ → Job
unfolding new_job
judge_job now i candidate_id =
    let ids = arr (item (int (pos candidate_id)) no_items) in
    let fields =
      entry "review_type" (str "candidate_review")
        (entry "target_id" (int (pos candidate_id)) (entry "candidate_ids" ids empty)) in
    record (new_job now i "llm_approval_check" (obj fields) 5) {
      max_attempts = get_max_attempts "llm_approval_check";
    }

unfoldable pub save : Candidate → Store → Store
save c s = record s { candidates = update_by (λ x. x.id) c.id (λ _. c) s.candidates }

unfoldable pub gate : List SystemConfig → Findings → Outcome
gate config f =
    let (total, breakdown) = score_dossier f.dossier f.peers in
    gate_decision total breakdown (load_thresholds config) f.centrality

-- The commit and the trigger of the critic, which an overturned rejection does not reach.
unfoldable pub route : ℕ → (ℕ → ℕ) → Findings → Candidate → Outcome → Store → Store
unfolding judge_job save rejection_is_suspicious add_jobs
route now uuid4 f c outcome s = elim outcome [
  | auto_rejected ↦
      if rejection_is_suspicious f && not f.legitimate
      then save (record c { status = "pending_human" }) s
      else maybe_enqueue_roster_critique now (uuid4 1) c.search_area (
          save
            (record c {
              status = "auto_rejected";
              reviewed_by = some "vetting_gate";
              reviewed_at = some now;
            })
            s)
  | borderline ↦
      maybe_enqueue_roster_critique now (uuid4 1) c.search_area
        (save (record c { status = "pending_human" }) s)
  | _ ↦
      maybe_enqueue_roster_critique now (uuid4 1) c.search_area (
        add_jobs (judge_job now (uuid4 0) c.id ∷ [])
          (save (record c { status = "awaiting_llm" }) s))
]

-- `none` is the ValueError for a candidate that is not there.
unfoldable pub handle_vet_candidate :
    ℕ → (ℕ → ℕ) → List SystemConfig → Bool → Findings → ℕ → Store → Option Store
unfolding gate is_skipped route
handle_vet_candidate now uuid4 config force f candidate_id s =
    elim (find_by (λ c. c.id) candidate_id s.candidates) [
      | none ↦ none
      | some c ↦ some (
          if is_skipped force c.status
          then s
          else route now uuid4 f
              (record c {
                youtube = f.youtube;
                qualification_score = some (score_dossier f.dossier f.peers).0;
              })
              (gate config f) s)
    ]
