-- ===== src/Discovery/Quota.antt =====
-- discovery/quota.py: the daily limit on candidates.
use think_tank.Prelude.{
  ℕ, ◌*◌, ◌/◌, ℤ, pos, negsuc, ltb_ℤ, String, Option, Bool, true, List, leb, str_eq, tally,
}
use think_tank.Json.{int, Result, ok, ◌>>=◌}
use think_tank.Config.{SystemConfig, get_config_value, int_setting}

-- The block "youtube" of a dossier.
pub record YoutubeEvidence : Type 0 where
  pub checked : Bool
  pub reachable : Bool
  pub url : Option String

-- The columns of `candidate_thinkers` that discovery reads and writes.
pub record Candidate : Type 0 where
  pub id : ℕ
  pub name : String
  pub normalized_name : String
  pub status : String
  pub appearance_count : ℕ
  pub first_seen_at : ℕ
  pub last_seen_at : ℕ
  pub search_area : Option String
  pub youtube : Option YoutubeEvidence
  pub llm_review_id : Option ℕ
  pub reviewed_by : Option String
  pub reviewed_at : Option ℕ
  pub thinker_id : Option ℕ
  pub qualification_score : Option ℕ

-- The reads of the quota, behind the advisory lock: `today_start` is the midnight (UTC) before.
unfoldable pub daily_limit : List SystemConfig → Result ℤ
unfolding int_setting get_config_value
daily_limit config =
    int_setting (pos 20) (get_config_value config "max_candidates_per_day" (int (pos 20)))

unfoldable pub candidates_since : ℕ → List Candidate → ℕ
candidates_since today_start = tally (λ c. leb today_start c.first_seen_at)

unfoldable pub check_daily_quota : ℕ → List SystemConfig → List Candidate → Result (Bool × ℕ × ℤ)
check_daily_quota today_start config candidates = do
  limit ← daily_limit config
  let today = candidates_since today_start candidates
  ok (ltb_ℤ (pos today) limit, today, limit)

-- `candidates_today >= int(daily_limit * 0.8)`, the fifths cut towards zero.
unfoldable pub should_trigger_llm_review : ℕ → ℤ → Bool
should_trigger_llm_review today (pos limit) = leb (limit * 4 / 5) today
should_trigger_llm_review today (negsuc n) = true

unfoldable pub get_pending_candidate_count : List Candidate → ℕ
get_pending_candidate_count = tally (λ c. str_eq c.status "pending_llm")
