-- ===== src/Governance/Sources.antt =====
-- apply_source_decision of llm/decisions.py.
use think_tank.Prelude.{
  ℕ, pos, String, ◌&&◌, ◌||◌, Option, none, some, List, [], ◌∷◌, ◌==◌, str_eq, find_by, update_by,
  if◌then◌else◌,
}
use think_tank.Json.{Value, null, Fields, int, obj, entry, empty}
use think_tank.Queue.Job.{Job, new_job}
use think_tank.Governance.{
  Source, SourceThinker, Store, Approval, approved, rejected, approved_with_modifications,
  escalate_to_human, add_jobs, modified,
}

-- `approved_backfill_days` is null for None.
pub record SourceApproval : Type 0 where
  pub decision : Approval
  pub approved_backfill_days : Value
  pub modifications : Option Fields

unfoldable pub if_given : Value → Value → Value
if_given null old = old
if_given v old = v

unfoldable pub decide_source : SourceApproval → Source → Source
unfolding if_given modified
decide_source r s = elim r.decision [
  | approved ↦ record s {
    approval_status = "approved";
    approved_backfill_days = if_given r.approved_backfill_days s.approved_backfill_days;
  }
  | rejected ↦ record s { approval_status = "rejected_by_llm" }
  | approved_with_modifications ↦ record s {
    approval_status = "approved";
    approved_backfill_days =
        modified r.modifications "approved_backfill_days"
          (if_given r.approved_backfill_days s.approved_backfill_days);
  }
  | escalate_to_human ↦ record s { approval_status = "pending_human" }
]

-- The first thinker that only appears as a guest; the query takes any.
unfoldable pub guest_of : ℕ → List SourceThinker → Option ℕ
guest_of source_id [] = none
guest_of source_id (l ∷ ls) =
    let rest = guest_of source_id ls in
    if l.source_id == source_id && str_eq l.relationship_type "guest_appearance"
    then some l.thinker_id
    else rest

unfoldable pub ingestion_job_type : String → String
ingestion_job_type source_type =
    if str_eq source_type "website" || str_eq source_type "substack"
    then "ingest_owned_text_source"
    else if str_eq source_type "youtube_channel"
    then "fetch_youtube_channel"
    else "fetch_podcast_feed"

-- The guest filter goes with the podcast feeds only.
unfoldable pub fetch_payload : Source → List SourceThinker → Value
unfolding guest_of
fetch_payload s links =
    let plain = entry "source_id" (int (pos s.id)) empty in
    if str_eq (ingestion_job_type s.source_type) "fetch_podcast_feed"
    then elim (guest_of s.id links) [
      | none ↦ obj plain
      | some i ↦
          obj (
            entry "source_id" (int (pos s.id))
              (entry "guest_filter_thinker_id" (int (pos i)) empty))
    ]
    else obj plain

unfoldable pub ingestion_jobs : ℕ → (ℕ → ℕ) → Source → List SourceThinker → List Job
unfolding fetch_payload ingestion_job_type new_job
ingestion_jobs now uuid4 s links =
    if str_eq s.approval_status "approved"
    then new_job now (uuid4 0) (ingestion_job_type s.source_type) (fetch_payload s links) 3 ∷ []
    else []

unfoldable pub apply_source_decision : ℕ → (ℕ → ℕ) → ℕ → SourceApproval → Store → Store
unfolding decide_source ingestion_jobs add_jobs
apply_source_decision now uuid4 source_id result st =
    elim (find_by (λ s. s.id) source_id st.sources) [
      | none ↦ st
      | some s ↦
          let decided = decide_source result s in
          add_jobs (ingestion_jobs now uuid4 decided st.source_thinkers)
            (record st { sources = update_by (λ x. x.id) source_id (λ _. decided) st.sources })
    ]
