-- ===== src/Discovery/Scan.antt =====
-- handlers/scan_for_candidates.py: candidates from the names in episodes, within the daily quota.
pub mod Growth
pub mod DailyLimit
use think_tank.Prelude.{
  ℕ, ◌+◌, ℤ, pos, leb_ℤ, ltb, String, Bool, true, false, Option, none, some, List, [], ◌∷◌, ◌++◌,
  ◌==◌, if◌then◌else◌,
}
use think_tank.Json.{str, obj, entry, empty, Result, ok, ◌>>=◌}
use think_tank.Config.{SystemConfig}
use think_tank.Content.{Content, find_content}
use think_tank.Queue.Job.{Job, new_job}
use think_tank.Discovery.Quota.{
  Candidate, check_daily_quota, get_pending_candidate_count, should_trigger_llm_review,
}

-- `session.get(CandidateThinker, id)` and the two assignments: nothing for an unknown id.
unfoldable pub count_appearance : ℕ → ℕ → List Candidate → List Candidate
count_appearance now i [] = []
count_appearance now i (c ∷ cs) =
    (if c.id == i
      then record c { appearance_count = c.appearance_count + 1; last_seen_at = now }
      else c)
    ∷ count_appearance now i cs

unfoldable pub new_candidate : ℕ → ℕ → String → Candidate
new_candidate now i name = record {
  id = i;
  name = name;
  normalized_name = name;
  status = "pending_llm";
  appearance_count = 1;
  first_seen_at = now;
  last_seen_at = now;
  search_area = none;
  youtube = none;
  llm_review_id = none;
  reviewed_by = none;
  reviewed_at = none;
  thinker_id = none;
  qualification_score = none;
}

-- The table, and the local `candidates_today`.
pub record Progress : Type 0 where
  pub candidates : List Candidate
  pub candidates_today : ℕ

-- The searches of the scan: the trigram match against the thinkers, the best trigram match among
-- the candidates that the search sees, the names that `extract_names` finds, and the new ids.
pub record Searches : Type 0 where
  pub is_thinker : String → Bool
  pub similar_candidate : List Candidate → String → Option ℕ
  pub extract_names : String → String → List String
  pub new_id : List Candidate → ℕ

-- One name; `none` is the `break` at the quota.
unfoldable pub scan_name : ℕ → ℤ → Searches → String → Progress → Option Progress
unfolding count_appearance new_candidate
scan_name now daily_limit s name p = elim (s.is_thinker name) [
  | true ↦ some p
  | false ↦ elim (s.similar_candidate p.candidates name) [
    | some i ↦ some (record p { candidates = count_appearance now i p.candidates })
    | none ↦ elim (leb_ℤ daily_limit (pos p.candidates_today)) [
      | true ↦ none
      | false ↦ some (record {
        candidates = p.candidates ++ new_candidate now (s.new_id p.candidates) name ∷ [];
        candidates_today = p.candidates_today + 1;
      })
    ]
  ]
]

unfoldable pub scan_names : ℕ → ℤ → Searches → List String → Progress → Progress
unfolding scan_name
scan_names now daily_limit s [] p = p
scan_names now daily_limit s (name ∷ names) p = elim (scan_name now daily_limit s name p) [
  | none ↦ p
  | some q ↦ scan_names now daily_limit s names q
]

unfoldable pub body_or_empty : Option String → String
body_or_empty none = ""
body_or_empty (some b) = b

-- One entry of `content_ids`; `none` is an entry that is no UUID.
unfoldable pub scan_content : ℕ → ℤ → Searches → List Content → Option ℕ → Progress → Progress
unfolding scan_names body_or_empty
scan_content now daily_limit s contents none p = p
scan_content now daily_limit s contents (some i) p = elim (find_content i contents) [
  | none ↦ p
  | some c ↦ scan_names now daily_limit s (s.extract_names c.title (body_or_empty c.body_text)) p
]

unfoldable pub scan_contents :
    ℕ → ℤ → Searches → List Content → List (Option ℕ) → Progress → Progress
unfolding scan_content
scan_contents now daily_limit s contents [] p = p
scan_contents now daily_limit s contents (i ∷ ids) p =
    scan_contents now daily_limit s contents ids (scan_content now daily_limit s contents i p)

unfoldable pub review_job : ℕ → ℕ → Job
unfolding new_job
review_job now i =
    new_job now i "llm_approval_check" (obj (entry "review_type" (str "candidate_review") empty)) 1

-- The batch within the quota: the candidates, and the review job when it is due.
unfoldable pub scan_batch :
    ℕ → ℤ → Searches → List Content → List (Option ℕ) → ℕ → Progress → List Candidate × List Job
unfolding scan_contents review_job
scan_batch now daily_limit s contents ids job_id start =
    let end = scan_contents now daily_limit s contents ids start in
    (
      end.candidates,
      if should_trigger_llm_review end.candidates_today daily_limit
          then review_job now job_id ∷ []
          else [],
    )

-- The candidates afterwards, and the jobs that are added. `today_start` is the midnight before
-- `now`.
unfoldable pub handle_scan_for_candidates :
    ℕ
    → ℕ
    → List SystemConfig
    → Searches
    → List Content
    → List (Option ℕ)
    → ℕ
    → List Candidate
    → Result (List Candidate × List Job)
unfolding scan_batch check_daily_quota get_pending_candidate_count
handle_scan_for_candidates now today_start config s contents [] job_id candidates =
    ok (candidates, [])
handle_scan_for_candidates now today_start config s contents (i ∷ ids) job_id candidates =
    if ltb 40 (get_pending_candidate_count candidates) then ok (candidates, []) else (do
      (can_continue, today, daily_limit) ← check_daily_quota today_start config candidates
      ok (
          if can_continue
          then scan_batch now daily_limit s contents (i ∷ ids) job_id
              (record { candidates = candidates; candidates_today = today })
          else (candidates, [])))
