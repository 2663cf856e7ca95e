-- ===== src/Governance/Candidates.antt =====
-- apply_candidate_decision and promote_candidate_to_thinker of llm/decisions.py.
pub mod Promotion
use think_tank.Prelude.{
  ℕ, pos, String, Bool, true, false, not, ◌&&◌, Option, none, some, List, [], ◌∷◌, ◌++◌, any,
  str_eq, find_by, update_by, if◌then◌else◌,
}
use think_tank.Json.{Value, null, int, str, obj, entry, empty}
use think_tank.Queue.Job.{Job, new_job}
use think_tank.Discovery.Quota.{Candidate, YoutubeEvidence}
use think_tank.Governance.{Thinker, Source, SourceThinker, Store, add_jobs}
use think_tank.Governance.Thinkers.{discover_job, rescan_job}
use think_tank.Governance.Critique.{maybe_enqueue_roster_critique}
use Prim.Native.String.{◌++◌ as append}

-- The decisions on candidates (llm/schemas.py).
pub data Verdict : Type 0 where
  approved rejected duplicate need_more_appearances escalate_to_human : Verdict

pub record CandidateReview : Type 0 where
  pub decision : Verdict
  pub tier : Option ℕ

unfoldable pub thinker_job : ℕ → ℕ → String → ℕ → Job
unfolding new_job
thinker_job now i job_type thinker_id =
    new_job now i job_type (obj (entry "thinker_id" (int (pos thinker_id)) empty)) 5

unfoldable pub tier_or_three : Option ℕ → ℕ
tier_or_three none = 3
tier_or_three (some t) = t

-- The new row; its generated `bio` is no column of this model.
unfoldable pub promoted_thinker : ℕ → ℕ → String → CandidateReview → Candidate → Thinker
unfolding tier_or_three
promoted_thinker now i slug r c = record {
  id = i;
  name = c.name;
  slug = slug;
  tier = tier_or_three r.tier;
  approval_status = "approved";
  approved_backfill_days = null;
  approved_source_types = null;
  active = true;
  added_at = now;
}

unfoldable pub promotion_jobs : ℕ → (ℕ → ℕ) → Thinker → List Job
unfolding discover_job rescan_job thinker_job
promotion_jobs now uuid4 t =
    discover_job now (uuid4 1) t.id
    ∷ rescan_job now (uuid4 2) t
    ∷ thinker_job now (uuid4 3) "discover_expert_sources" t.id
    ∷ thinker_job now (uuid4 4) "ingest_expert_papers" t.id
    ∷ []

-- The verified channel of a candidate, unless its URL is empty or a source already.
unfoldable pub reachable_url : Option YoutubeEvidence → Option String
reachable_url none = none
reachable_url (some y) = elim y.url [
  | none ↦ none
  | some url ↦ if y.checked && y.reachable && not (str_eq url "") then some url else none
]

unfoldable pub approval_job : ℕ → ℕ → ℕ → Job
unfolding new_job
approval_job now i source_id =
    let fields =
      entry "review_type" (str "source_approval") (entry "target_id" (int (pos source_id)) empty) in
    new_job now i "llm_approval_check" (obj fields) 5

unfoldable pub channel_source : ℕ → String → String → Source
channel_source i name url = record {
  id = i;
  source_type = "youtube_channel";
  name = append name " (YouTube)";
  url = url;
  approval_status = "pending_llm";
  approved_backfill_days = null;
  host_name = some name;
  active = true;
  refresh_interval_hours = none;
  last_fetched = none;
  config = empty;
  backfill_complete = false;
  latest_published_at = none;
  item_count = 0;
}

-- A pending source with the thinker as its host, and its review.
unfoldable pub add_channel : ℕ → (ℕ → ℕ) → Thinker → String → Store → Store
unfolding channel_source approval_job add_jobs
add_channel now uuid4 t url s = add_jobs (approval_job now (uuid4 6) (uuid4 5) ∷ []) (record s {
  sources = s.sources ++ channel_source (uuid4 5) t.name url ∷ [];
  source_thinkers =
      s.source_thinkers
      ++ record {
        source_id = uuid4 5;
        thinker_id = t.id;
        relationship_type = "host";
        added_at = now;
      }
        ∷ [];
})

unfoldable pub seed_channel : ℕ → (ℕ → ℕ) → Thinker → Option YoutubeEvidence → Store → Store
unfolding reachable_url add_channel
seed_channel now uuid4 t y s = elim (reachable_url y) [
  | none ↦ s
  | some url ↦ if any (λ x. str_eq x.url url) s.sources then s else add_channel now uuid4 t url s
]

-- `slug` is what `_unique_thinker_slug` returned.
unfoldable pub promote_candidate_to_thinker :
    ℕ → (ℕ → ℕ) → String → CandidateReview → Candidate → Store → Candidate × Store
unfolding promoted_thinker promotion_jobs seed_channel add_jobs
promote_candidate_to_thinker now uuid4 slug r c s =
    let t = promoted_thinker now (uuid4 0) slug r c in
    (
      record c { thinker_id = some t.id; status = "promoted" },
      seed_channel now uuid4 t c.youtube
          (add_jobs (promotion_jobs now uuid4 t) (record s { thinkers = s.thinkers ++ t ∷ [] })),
    )

unfoldable pub decide_candidate :
    ℕ → (ℕ → ℕ) → String → CandidateReview → Candidate → Store → Candidate × Store
unfolding promote_candidate_to_thinker
decide_candidate now uuid4 slug r c s = elim r.decision [
  | approved ↦ promote_candidate_to_thinker now uuid4 slug r c s
  | rejected ↦ (record c { status = "rejected" }, s)
  | duplicate ↦ (record c { status = "rejected_duplicate" }, s)
  | need_more_appearances ↦ (record c { status = "needs_more_data" }, s)
  | escalate_to_human ↦ (record c { status = "pending_human" }, s)
]

-- The flush of the candidate, and the trigger of the critic.
unfoldable pub settle_candidate : ℕ → (ℕ → ℕ) → Candidate × Store → Store
settle_candidate now uuid4 (c, s) =
    maybe_enqueue_roster_critique now (uuid4 7) c.search_area
      (record s { candidates = update_by (λ x. x.id) c.id (λ _. c) s.candidates })

unfoldable pub mark_reviewed : ℕ → ℕ → Candidate → Candidate
mark_reviewed now review_id c = record c {
  llm_review_id = some review_id;
  reviewed_by = some "llm";
  reviewed_at = some now;
}

-- `none` is the AttributeError on a candidate that is not there, or on no target at all.
unfoldable pub apply_candidate_decision :
    ℕ → (ℕ → ℕ) → String → Option ℕ → CandidateReview → ℕ → Store → Option Store
unfolding decide_candidate settle_candidate mark_reviewed
apply_candidate_decision now uuid4 slug none r review_id s = none
apply_candidate_decision now uuid4 slug (some i) r review_id s =
    elim (find_by (λ c. c.id) i s.candidates) [
      | none ↦ none
      | some c ↦ some (
          settle_candidate now uuid4
            (decide_candidate now uuid4 slug r (mark_reviewed now review_id c) s))
    ]
