-- ===== src/Tests/Pipeline.antt =====
-- The list of the jobs of the table, a cancelled job, and a second thinker of one name.
use mathlib.Core.List.{reverse, Permᴰ}
use think_tank.Prelude.{
  ℕ, ◌≤◌, ◌≢◌, ◌≡◌, ◌⊎◌, refl, ℤ, pos, true, false, none, some, List, [], ◌∷◌, map, length, any,
  codes, All, order_by, arith,
}
use think_tank.Json.{null}
use think_tank.Queue.Job.{Job, pending, done}
use think_tank.Queue.Claim.{claim_job, select_first, is_eligible}
use think_tank.Queue.Claim.Ownership.{Request, claimed_ids}
use think_tank.Governance.{Thinker}
use think_tank.Governance.Slug.{slugify, numbered, has_slug, unique_thinker_slug}
use think_tank.Governance.Slug.Free.{unique_thinker_slug-IsFree}
use think_tank.Schedule.{Clock}
use think_tank.Pipeline.{
  Answer, changed, Filters, page_size, filtered_jobs, total_pages, job_list_partial, cancel_job,
}
use think_tank.Pipeline.Ties.{Answers}
use think_tank.Pipeline.Pages.{pages, pages-Answers}
use think_tank.Pipeline.Cancel.{cancel_job-claimed_ids}
use think_tank.Tests.Rows.{row, table, unlocked}

abbrev clock : Clock
clock = record { isoformat = λ t. ""; fromisoformat = λ s. none }

abbrev process_content : Filters
process_content = record {
  status = some " ";
  job_type = some "process_content";
  date_from = some "yesterday";
  date_to = none;
}

-- Rows of different times.
abbrev dated : List Job
dated =
    record (row 2 "process_content" pending 3 0) { created_at = 5 }
    ∷ row 1 "fetch_podcast_feed" pending 5 0
    ∷ record (row 3 "process_content" done 1 1) { created_at = 8 }
    ∷ []

abbrev newest_first : List Job → List Job
unfolding order_by
newest_first js = reverse (order_by (λ j. j.created_at) js)

-- A blank status and a date that is none filter nothing; the page after the last one is the last one.
listed_ids :
    map (λ j. j.id) (job_list_partial clock newest_first process_content (pos 9) dated).1
    ≡ 3 ∷ 2 ∷ []
unfolding job_list_partial newest_first
listed_ids = refl

pages-Answers_example :
    Answers (filtered_jobs clock process_content dated) (
      pages clock process_content dated
        (λ _. newest_first)
        (total_pages clock process_content dated))
    × ((page : ℤ) (n : ℕ)
        → length (job_list_partial clock newest_first process_content page dated).1 ≤ page_size)
unfolding filtered_jobs newest_first
pages-Answers_example =
    pages-Answers clock process_content dated (λ _. newest_first)
      (λ _. (Permᴰ.swap refl refl, ((omega arith, tt), (tt, tt)))) ((omega arith, tt), (tt, tt))

answer_or : Answer → List Job
answer_or (changed jobs) = jobs
answer_or _ = []

abbrev cancelled_table : List Job
unfolding answer_or
cancelled_table = answer_or (cancel_job 2 table)

cancelled_ok : cancel_job 2 table ≡ changed cancelled_table
unfolding cancel_job answer_or cancelled_table
cancelled_ok = refl

abbrev requests : List Request
requests = record { now = 50; worker_id = "a"; types = none; locked = unlocked } ∷ []

-- The job of the best priority is passed by.
claimed_other : claimed_ids requests cancelled_table ≡ 1 ∷ []
unfolding claimed_ids cancel_job answer_or cancelled_table claim_job select_first is_eligible
claimed_other = refl

cancel_job-claimed_ids_example : All (λ k. 2 ≢ k) (claimed_ids requests cancelled_table)
cancel_job-claimed_ids_example =
    cancel_job-claimed_ids 2 table cancelled_table requests cancelled_ok

abbrev jane : Thinker
jane = record {
  id = 1;
  name = "Jane Smith";
  slug = "jane-smith";
  tier = 2;
  approval_status = "approved";
  approved_backfill_days = null;
  approved_source_types = null;
  active = true;
  added_at = 1;
}

second_jane : unique_thinker_slug (jane ∷ []) " Jane  (Smith)" ≡ some (codes "jane-smith-2")
unfolding unique_thinker_slug
second_jane = refl

unique_thinker_slug-IsFree_example :
    (slug : List ℕ) × (unique_thinker_slug (jane ∷ []) "Jane Smith" ≡ some slug)
    × (any (has_slug slug) (jane ∷ []) ≡ false)
    × ((slug ≡ slugify "Jane Smith")
        ⊎ ((k : ℕ) × (2 ≤ k) × (slug ≡ numbered (slugify "Jane Smith") k)))
unique_thinker_slug-IsFree_example = unique_thinker_slug-IsFree (jane ∷ []) "Jane Smith"
