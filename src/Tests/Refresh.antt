-- ===== src/Tests/Refresh.antt =====
-- A refresh of three sources: one has a fetch job, one is due, and one is not active.
use think_tank.Prelude.{
  ℕ, ◌+◌, ◌≡◌, refl, pos, String, true, false, Option, none, some, List, [], ◌∷◌, map, select,
  tally-le-length,
}
use think_tank.Json.{null, int, obj, entry, empty}
use think_tank.Queue.Job.{Job, running}
use think_tank.Governance.{Source}
use think_tank.Refresh.{is_due, fetches, in_flight, handle_refresh_due_sources}
use think_tank.Refresh.Single.{Single, Refreshed, handle_refresh_due_sources-Refreshed}
use think_tank.Tests.Rows.{row}

abbrev source : ℕ → String → Source
source id source_type = record {
  id = id;
  source_type = source_type;
  name = "A source";
  url = "https://example.org";
  approval_status = "approved";
  approved_backfill_days = null;
  host_name = none;
  active = true;
  refresh_interval_hours = some 6;
  last_fetched = none;
  config = empty;
  backfill_complete = false;
  latest_published_at = none;
  item_count = 0;
}

abbrev sources : List Source
sources =
    source 1 "podcast_rss"
    ∷ source 2 "youtube_channel"
    ∷ record (source 3 "podcast_rss") { active = false }
    ∷ []

abbrev jobs : List Job
jobs =
    record (row 9 "fetch_podcast_feed" running 2 1) {
      payload = obj (entry "source_id" (int (pos 1)) empty);
    }
    ∷ []

jobs-Single : Single jobs
unfolding in_flight
jobs-Single = record { at_most = λ job_type i. tally-le-length (fetches job_type i) jobs }

abbrev job_types : Option (List Job) → List String
job_types none = []
job_types (some js) = map (λ j. j.job_type) js

fetched :
    job_types (handle_refresh_due_sources 10 (λ n. 100 + n) sources jobs)
    ≡ "fetch_podcast_feed" ∷ "fetch_youtube_channel" ∷ []
unfolding handle_refresh_due_sources
fetched = refl

handle_refresh_due_sources-Refreshed_example :
    (after : List Job) × (handle_refresh_due_sources 10 (λ n. 100 + n) sources jobs ≡ some after)
    × Refreshed (select (is_due 10) sources) jobs after
handle_refresh_due_sources-Refreshed_example =
    handle_refresh_due_sources-Refreshed 10 (λ n. 100 + n) sources jobs jobs-Single
