-- ===== src/Tests/Queue.antt =====
-- Tests of Queue.
use think_tank.Prelude.{
  ℕ, ◌+◌, ◌*◌, ◌≡◌, ◌≤◌, ltb, refl, ℤ, pos, String, true, false, Option, none, some, List, [], ◌∷◌,
  map, select, All, ltb_ℤ, arith,
}
use think_tank.Json.{ok, str}
use think_tank.Queue.Job.{Job, minute, pending, running, http_timeout, find_job, update_job}
use think_tank.Queue.Retry.{get_max_attempts}
use think_tank.Queue.Claim.{
  is_eligible, select_first, claim_job, complete_job, fail_job, attempt_limit, retry_delay,
}
use think_tank.Queue.Claim.Ownership.{
  Claimed, claim_job-Claimed, Request, AllDifferent, claimed_ids, claimed_ids_different,
}
use think_tank.Queue.Claim.Failure.{FailedRow, fail_job-FailedRow, fail_job-complete_job}
use think_tank.Queue.Reclaim.{get_stale_timeout, is_stale, reclaim_stale_jobs}
use think_tank.Queue.Reclaim.Settles.{
  reclaim_row, reclaim_stale_jobs-map, reclaim_stale_jobs_settles,
}
use think_tank.Queue.Lifecycle.{insert, claim, Reach, here, next, IsSound}
use think_tank.Queue.Lifecycle.Bounds.{Reach-IsSound}
use think_tank.Queue.Backpressure.{
  get_effective_priority, get_threshold, get_queue_depth, is_discovery,
}
use think_tank.Queue.Backpressure.Demotion.{demoted, get_effective_priority_lem}
use think_tank.Queue.RateLimiter.{recent_calls, acquire}
use think_tank.Queue.RateLimiter.Window.{Call, issue_all, issue_all-window}
use think_tank.Queue.KillSwitch.{is_workers_active}
use think_tank.Queue.KillSwitch.Forms.{set_to}
use think_tank.Queue.Errors.{Exc, ExcClass}
use think_tank.Tests.Rows.{row, table, unlocked, config, table-Distinct}

abbrev ids : List Job → List ℕ
ids = map (λ j. j.id)

-- The pending row of priority 3 goes before the retrying one, whose schedule is set.
claim_job-Claimed_example :
    Claimed 200 "w" none unlocked table (claim_job 200 "w" none unlocked table)
claim_job-Claimed_example = claim_job-Claimed 200 "w" none unlocked table

abbrev requests : List Request
requests =
    record { now = 50; worker_id = "a"; types = none; locked = unlocked }
    ∷ record {
      now = 150;
      worker_id = "b";
      types = some ("process_content" ∷ []);
      locked = unlocked;
    }
    ∷ record { now = 160; worker_id = "a"; types = none; locked = unlocked }
    ∷ record { now = 170; worker_id = "b"; types = none; locked = unlocked }
    ∷ []

claimed_in_turn : claimed_ids requests table ≡ 2 ∷ 4 ∷ 1 ∷ []
unfolding claimed_ids claim_job select_first is_eligible update_job
claimed_in_turn = refl

claimed_ids_different_example : AllDifferent (claimed_ids requests table)
claimed_ids_different_example = claimed_ids_different requests table

abbrev one_job : List Job
one_job = row 7 "process_content" pending 5 0 ∷ []

insert_one : Reach [] one_job
insert_one = next here (insert (row 7 "process_content" pending 5 0) refl refl tt)

Reach-IsSound_example : IsSound (claim_job 9 "w" none unlocked one_job).1
Reach-IsSound_example = Reach-IsSound (next insert_one (claim 9 "w" none unlocked))

find_five :
    find_job 5 table
    ≡ some (record (row 5 "fetch_podcast_feed" running 5 1) { started_at = some 10 })
unfolding find_job
find_five = refl

fail_job-FailedRow_example :
    (j' : Job) × (find_job 5 (fail_job 20 5 "boom" http_timeout none none table) ≡ some j')
    × FailedRow 20 "boom" http_timeout
        (attempt_limit none "fetch_podcast_feed")
        (retry_delay 1 none)
        (record (row 5 "fetch_podcast_feed" running 5 1) { started_at = some 10 })
        j'
fail_job-FailedRow_example = fail_job-FailedRow 20 5 "boom" http_timeout none none table find_five

fail_job-complete_job_example :
    (j' : Job) × (find_job 5 (fail_job 20 5 "late" http_timeout none none (complete_job 15 5 table))
      ≡ some j')
    × (is_eligible (20 + retry_delay 1 none) none (λ _. false) j' ≡ true)
unfolding attempt_limit get_max_attempts
fail_job-complete_job_example =
    fail_job-complete_job 15 20 5 "late" http_timeout none none table find_five (omega arith)

timeout_one : get_stale_timeout config ≡ ok (pos 1)
unfolding get_stale_timeout
timeout_one = refl

abbrev late : ℕ
late = 100 * minute

reclaim_stale_jobs-map_example :
    reclaim_stale_jobs late config unlocked table
    ≡ ok (
      select (is_stale late (pos 1) unlocked) table,
      map (reclaim_row late (is_stale late (pos 1) unlocked)) table,
    )
reclaim_stale_jobs-map_example =
    reclaim_stale_jobs-map late config unlocked table table-Distinct timeout_one

stale_one : ids (select (is_stale late (pos 1) unlocked) table) ≡ 5 ∷ []
unfolding is_stale
stale_one = refl

reclaim_stale_jobs_settles_example :
    (out : List Job × List Job) × (reclaim_stale_jobs late config unlocked table ≡ ok out)
    × All (λ j. is_stale late (pos 1) unlocked j ≡ false) out.1
reclaim_stale_jobs_settles_example =
    reclaim_stale_jobs_settles late config unlocked table table-Distinct timeout_one

threshold_one : get_threshold config ≡ ok (pos 1)
unfolding get_threshold
threshold_one = refl

abbrev feed : Job
feed = row 1 "fetch_podcast_feed" pending 5 0

get_effective_priority_lem_example :
    (p : ℕ) × (get_effective_priority config table feed ≡ ok p)
    × (5 ≤ p)
    × (p ≤ 10)
    × (p
        ≡ demoted
            (is_discovery "fetch_podcast_feed")
            (ltb_ℤ (pos 1) (pos (get_queue_depth table "process_content")))
            5)
get_effective_priority_lem_example =
    get_effective_priority_lem config table feed (omega arith) threshold_one

demoted_eight : get_effective_priority config table feed ≡ ok 8
unfolding get_effective_priority get_threshold get_queue_depth is_discovery
demoted_eight = refl

abbrev calls : List Call
calls =
    record { at = 0; api = "youtube"; worker = "a" }
    ∷ record { at = 5; api = "podcastindex"; worker = "a" }
    ∷ record { at = 9; api = "youtube"; worker = "b" }
    ∷ record { at = 12; api = "youtube"; worker = "b" }
    ∷ []

abbrev limits : String → Option ℤ
limits a = some (pos 2)

issue_all-window_example :
    (recent_calls 20 "youtube" 60 (issue_all limits 60 calls []) ≤ 2)
    × ((worker : String)
        → (acquire 20 "youtube" worker 60 (limits "youtube") (issue_all limits 60 calls [])).0
          ≡ ltb (recent_calls 20 "youtube" 60 (issue_all limits 60 calls [])) 2)
issue_all-window_example = issue_all-window "youtube" 60 2 limits 20 calls refl (omega arith)

switched_off : is_workers_active (set_to (str " Off ")) ≡ false
unfolding is_workers_active
switched_off = refl

abbrev too_many_requests : Exc
too_many_requests = record {
  isinstance = λ c. elim c [ ExcClass.httpx_status ↦ true | _ ↦ false ];
  status_code = 429;
  retry_after_seconds = none;
  text = "429";
}
