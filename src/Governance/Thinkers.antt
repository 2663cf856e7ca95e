-- ===== src/Governance/Thinkers.antt =====
-- apply_thinker_decision of llm/decisions.py.
use think_tank.Prelude.{
  ℕ, pos, Option, none, some, List, [], ◌∷◌, str_eq, find_by, update_by, if◌then◌else◌,
}
use think_tank.Json.{Fields, int, str, obj, entry, empty}
use think_tank.Queue.Job.{Job, new_job}
use think_tank.Governance.{
  Thinker, Store, Approval, approved, rejected, approved_with_modifications, escalate_to_human,
  add_jobs, modified,
}

pub record ThinkerApproval : Type 0 where
  pub decision : Approval
  pub modifications : Option Fields

unfoldable pub decide_thinker : ThinkerApproval → Thinker → Thinker
unfolding modified
decide_thinker r t = elim r.decision [
  | approved ↦ record t { approval_status = "approved" }
  | rejected ↦ record t { approval_status = "rejected_by_llm" }
  | approved_with_modifications ↦ record t {
    approval_status = "approved";
    approved_backfill_days =
        modified r.modifications "approved_backfill_days" t.approved_backfill_days;
    approved_source_types =
        modified r.modifications "approved_source_types" t.approved_source_types;
  }
  | escalate_to_human ↦ record t { approval_status = "pending_human" }
]

-- The `discover_thinker` job of a thinker.
unfoldable pub discover_job : ℕ → ℕ → ℕ → Job
unfolding new_job
discover_job now i thinker_id =
    new_job now i "discover_thinker" (obj (entry "thinker_id" (int (pos thinker_id)) empty)) 5

-- The `rescan_cataloged_for_thinker` job.
unfoldable pub rescan_job : ℕ → ℕ → Thinker → Job
unfolding new_job
rescan_job now i t =
    let fields = entry "thinker_id" (int (pos t.id)) (entry "thinker_name" (str t.name) empty) in
    new_job now i "rescan_cataloged_for_thinker" (obj fields) 4

unfoldable pub discovery_jobs : ℕ → (ℕ → ℕ) → Thinker → List Job
unfolding discover_job rescan_job
discovery_jobs now uuid4 t =
    if str_eq t.approval_status "approved"
    then discover_job now (uuid4 0) t.id ∷ rescan_job now (uuid4 1) t ∷ []
    else []

-- `none` is the AttributeError on a thinker that is not there. `uuid4 n` is the id drawn n-th.
unfoldable pub apply_thinker_decision : ℕ → (ℕ → ℕ) → ℕ → ThinkerApproval → Store → Option Store
unfolding decide_thinker discovery_jobs add_jobs
apply_thinker_decision now uuid4 thinker_id result s =
    elim (find_by (λ t. t.id) thinker_id s.thinkers) [
      | none ↦ none
      | some t ↦
          let decided = decide_thinker result t in
          some (
            add_jobs (discovery_jobs now uuid4 decided)
              (record s { thinkers = update_by (λ u. u.id) thinker_id (λ _. decided) s.thinkers }))
    ]
