-- ===== src/Tests/Scan.antt =====
-- A scan of two contents with a limit of one candidate per day.
use think_tank.Prelude.{
  ℕ, ◌+◌, ◌≡◌, refl, pos, String, Option, none, some, List, [], ◌∷◌, map, str_eq, length,
  if◌then◌else◌, arith,
}
use think_tank.Json.{Result, ok, raise, int}
use think_tank.Config.{SystemConfig}
use think_tank.Queue.Job.{Job}
use think_tank.Discovery.Quota.{Candidate, daily_limit}
use think_tank.Discovery.Scan.{Searches, handle_scan_for_candidates, new_candidate}
use think_tank.Discovery.Scan.DailyLimit.{Scanned, handle_scan_for_candidates-Scanned}
use think_tank.Tests.Transcription.{episodes}

abbrev settings : List SystemConfig
settings = record { key = "max_candidates_per_day"; value = int (pos 1) } ∷ []

-- "Ada" is a thinker; a candidate is similar to a name that it has.
abbrev searches : Searches
searches = record {
  is_thinker = λ n. str_eq n "Ada";
  similar_candidate = λ cs n. find n cs;
  extract_names = λ title body. "Ada" ∷ "Grace" ∷ "Edsger" ∷ "Barbara" ∷ [];
  new_id = λ cs. length cs + 1;
}
  where
    find : String → List Candidate → Option ℕ
    find n [] = none
    find n (c ∷ cs) = if str_eq c.normalized_name n then some c.id else find n cs

abbrev before : List Candidate
before = new_candidate 5 1 "Grace" ∷ []

abbrev ids : List (Option ℕ)
ids = some 1 ∷ none ∷ some 77 ∷ some 2 ∷ []

one_per_day : daily_limit settings ≡ ok (pos 1)
unfolding daily_limit
one_per_day = refl

-- Grace is seen twice; Edsger is new, and then seen again; the limit stops Barbara. "Grace" is of
-- the day before.
abbrev appearances : Result (List Candidate × List Job) → List ℕ
appearances (ok (cs, js)) = length js ∷ map (λ c. c.appearance_count) cs
appearances (raise e) = []

counts :
    appearances (handle_scan_for_candidates 20 10 settings searches episodes ids 9 before)
    ≡ 1 ∷ 3 ∷ 2 ∷ []
unfolding handle_scan_for_candidates daily_limit think_tank.Discovery.Quota.candidates_since
    think_tank.Discovery.Quota.should_trigger_llm_review think_tank.Content.find_content
counts = refl

handle_scan_for_candidates-Scanned_example :
    (cs' : List Candidate) × (js : List Job) × (handle_scan_for_candidates 20 10 settings searches
        episodes ids 9 before
      ≡ ok (cs', js))
    × Scanned 20 10 (pos 1) searches ids 9 before cs' js
handle_scan_for_candidates-Scanned_example =
    handle_scan_for_candidates-Scanned 20 10 (omega arith) settings one_per_day searches episodes 9
      before ids
