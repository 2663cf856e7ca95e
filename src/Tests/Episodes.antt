-- ===== src/Tests/Episodes.antt =====
-- A host's feed with two episodes, a guest's source, and a thinker who is approved later.
use think_tank.Prelude.{
  ℕ, ◌+◌, ◌≤◌, ◌≡◌, refl, pos, String, true, false, Option, none, some, List, [], ◌∷◌, map, tally,
  str_eq, same, codes, arith,
}
use think_tank.Json.{null, empty, Result, ok}
use think_tank.Governance.{Thinker, Source}
use think_tank.Transcription.{get_transcription_age_cutoff}
use think_tank.Episodes.{is_link}
use think_tank.Episodes.Matcher.{Named, match_thinker, match_thinkers_in_text}
use think_tank.Episodes.Matcher.Reference.{collect, Graded, match_thinkers_in_text-collect}
use think_tank.Episodes.Scan.{ScanPayload, Catalog, find_source, handle_scan_episodes_for_thinkers}
use think_tank.Episodes.Scan.Promotion.{
  Promotes, handle_scan_episodes_for_thinkers-Promotes, handle_scan_episodes_for_thinkers_unique,
}
use think_tank.Episodes.Scan.Branches.{Tables, left}
use think_tank.Episodes.Scan.Rerun.{handle_scan_episodes_for_thinkers-again}
use think_tank.Episodes.Rescan.{
  Rescan, find_thinker, matching_content, handle_rescan_cataloged_for_thinker,
}
use think_tank.Episodes.Rescan.Reference.{
  promoting, unlinked, handle_rescan_cataloged_for_thinker-promoting,
}
use think_tank.Episodes.Feed.{
  FeedEntry, FeedTables, FetchedFeed, is_fingerprint, handle_fetch_podcast_feed,
}
use think_tank.Episodes.Feed.Refetch.{handle_fetch_podcast_feed-again}
use think_tank.Episodes.Feed.Fetch.{
  Effect, handle_fetch_podcast_feed-Effect, handle_fetch_podcast_feed-distinct,
}

names : List Named
names = record { id = 1; name = "Ada Lovelace" } ∷ record { id = 2; name = "Alan Turing" } ∷ []

-- The owner, and a guest in the description.
match_thinkers_in_text-collect_example :
    (match_thinkers_in_text "Numbers" "with ALAN Turing." names (some "ada lovelace")
      ≡ collect
          (match_thinker (some "ada lovelace") (codes "Numbers") (codes "with ALAN Turing."))
          names)
    × Graded
        (some "ada lovelace")
        (codes "Numbers")
        (codes "with ALAN Turing.")
        names
        (match_thinkers_in_text "Numbers" "with ALAN Turing." names (some "ada lovelace"))
unfolding names
match_thinkers_in_text-collect_example =
    match_thinkers_in_text-collect "Numbers" "with ALAN Turing." names (some "ada lovelace")
      (((omega arith, tt), (tt, tt)))

confidences :
    map
      (λ m. m.confidence)
      (match_thinkers_in_text "Numbers" "with ALAN Turing." names (some "ada lovelace"))
    ≡ 10 ∷ 6 ∷ []
unfolding match_thinkers_in_text names
confidences = refl

abbrev thinker : ℕ → String → Thinker
thinker id name = record {
  id = id;
  name = name;
  slug = name;
  tier = 2;
  approval_status = "approved";
  approved_backfill_days = null;
  approved_source_types = null;
  active = true;
  added_at = 1;
}

abbrev thinkers : List Thinker
thinkers = thinker 1 "Ada Lovelace" ∷ thinker 2 "Alan Turing" ∷ []

abbrev feed_source : Source
feed_source = record {
  id = 5;
  source_type = "podcast_rss";
  name = "Engines";
  url = "https://engines.org/feed";
  approval_status = "approved";
  approved_backfill_days = null;
  host_name = some "Ada Lovelace";
  active = true;
  refresh_interval_hours = some 6;
  last_fetched = none;
  config = empty;
  backfill_complete = false;
  latest_published_at = none;
  item_count = 0;
}

abbrev catalog : Catalog
catalog = record {
  sources = feed_source ∷ [];
  source_thinkers =
      record { source_id = 5; thinker_id = 1; relationship_type = "host"; added_at = 1 } ∷ [];
  thinkers = thinkers;
}

abbrev entry_of : String → String → FeedEntry
entry_of title url = record {
  title = title;
  url = url;
  published_at = some 86400000000;
  duration_seconds = some (pos 3600);
  description = some "with Alan Turing";
  guid = some url;
}

abbrev feed : FetchedFeed
feed = record {
  entries =
      entry_of "Numbers" "https://engines.org/1"
      ∷ entry_of "A teaser" "https://engines.org/2"
      ∷ entry_of "Numbers again" "https://engines.org/1"
      ∷ [];
  persons_by_guid = [];
}

abbrev uuid4 : ℕ → ℕ
uuid4 n = 100 + n

abbrev by_title : FeedEntry → Option String
by_title e = some e.title

abbrev tables : FeedTables
tables = record { sources = feed_source ∷ []; contents = [] }

feed_or : Result (FeedTables × Option ScanPayload) → FeedTables × Option ScanPayload
feed_or (ok r) = r
feed_or _ = (tables, none)

abbrev fetched : FeedTables × Option ScanPayload
unfolding feed_or
fetched =
    feed_or
      (handle_fetch_podcast_feed (λ s. s) by_title 9 uuid4 [] thinkers (some 5) none feed tables)

-- One episode is cataloged, one is skipped by its title, and one is there already.
fetched_ok :
    handle_fetch_podcast_feed (λ s. s) by_title 9 uuid4 [] thinkers (some 5) none feed tables
    ≡ ok (fetched.0, fetched.1)
unfolding handle_fetch_podcast_feed feed_or fetched
fetched_ok = refl

fetched_statuses : map (λ c. c.status) fetched.0.contents ≡ "cataloged" ∷ "skipped" ∷ []
unfolding handle_fetch_podcast_feed feed_or fetched
fetched_statuses = refl

handle_fetch_podcast_feed-Effect_example :
    Effect (λ s. s) by_title 9 uuid4 [] thinkers 5 none feed tables feed_source fetched.0 fetched.1
unfolding find_source
handle_fetch_podcast_feed-Effect_example =
    handle_fetch_podcast_feed-Effect (λ s. s) by_title 9 uuid4 [] thinkers 5 none feed tables
      feed_source fetched.0 fetched.1 refl refl fetched_ok

handle_fetch_podcast_feed-distinct_example :
    (tally (λ c. str_eq c.canonical_url "https://engines.org/1") tables.contents ≤ 1
      → tally (λ c. str_eq c.canonical_url "https://engines.org/1") fetched.0.contents ≤ 1)
    × (tally (λ c. is_fingerprint "Numbers" c.content_fingerprint) tables.contents ≤ 1
        → tally (λ c. is_fingerprint "Numbers" c.content_fingerprint) fetched.0.contents ≤ 1)
unfolding find_source
handle_fetch_podcast_feed-distinct_example =
    handle_fetch_podcast_feed-distinct (λ s. s) by_title 9 uuid4 [] thinkers 5 none feed tables
      feed_source fetched.0 fetched.1 "https://engines.org/1" "Numbers" refl refl fetched_ok

payload_or : Option ScanPayload → ScanPayload
payload_or (some p) = p
payload_or none = record {
  content_ids = [];
  source_id = none;
  descriptions = [];
  content_persons = [];
}

abbrev payload : ScanPayload
unfolding payload_or
payload = payload_or fetched.1

abbrev scanned : Tables
scanned =
    left (fetched.0.contents, [], [])
      (handle_scan_episodes_for_thinkers 9 uuid4 [] catalog payload (fetched.0.contents, [], []))

scanned_ok :
    handle_scan_episodes_for_thinkers 9 uuid4 [] catalog payload (fetched.0.contents, [], [])
    ≡ ok scanned
unfolding handle_scan_episodes_for_thinkers handle_fetch_podcast_feed feed_or payload_or fetched
    payload scanned
scanned_ok = refl

-- The host is linked as such, and the guest by the description; the skipped one is left.
scanned_links :
    map {B = ℕ × ℕ} (λ l. (l.content_id, l.thinker_id)) scanned.1 ≡ (100, 1) ∷ (100, 2) ∷ []
unfolding handle_scan_episodes_for_thinkers handle_fetch_podcast_feed feed_or payload_or fetched
    payload scanned
scanned_links = refl

aged : get_transcription_age_cutoff 9 [] ≡ ok (some 0)
unfolding get_transcription_age_cutoff
aged = refl

handle_scan_episodes_for_thinkers-Promotes_example :
    (after : Tables) × (handle_scan_episodes_for_thinkers 9 uuid4 [] catalog payload
        (fetched.0.contents, [], [])
      ≡ ok after)
    × Promotes 9 uuid4 catalog payload fetched.0.contents [] [] (some 0) after
handle_scan_episodes_for_thinkers-Promotes_example =
    handle_scan_episodes_for_thinkers-Promotes 9 uuid4 catalog payload fetched.0.contents [] []
      (some 0) [] aged

handle_scan_episodes_for_thinkers_unique_example : tally (is_link 100 1) scanned.1 ≤ 1
handle_scan_episodes_for_thinkers_unique_example =
    handle_scan_episodes_for_thinkers_unique 9 uuid4 [] catalog payload fetched.0.contents [] [] 100
      1 (omega arith)

handle_scan_episodes_for_thinkers-again_example :
    left scanned (handle_scan_episodes_for_thinkers 10 uuid4 [] catalog payload scanned) ≡ scanned
handle_scan_episodes_for_thinkers-again_example =
    handle_scan_episodes_for_thinkers-again catalog payload 9 10 uuid4 uuid4 [] []
      (fetched.0.contents, [], []) scanned scanned_ok

abbrev archive : Rescan
archive = record { contents = fetched.0.contents; links = []; jobs = [] }

handle_rescan_cataloged_for_thinker-promoting_example :
    handle_rescan_cataloged_for_thinker 9 uuid4 [] thinkers (some 2) "Alan Turing" archive
    ≡ ok (
        promoting 9 uuid4
          (some 0)
          2
          (unlinked 2 archive.links (matching_content 2 "Alan Turing" archive.contents))
          archive)
unfolding same find_thinker handle_fetch_podcast_feed feed_or fetched
handle_rescan_cataloged_for_thinker-promoting_example =
    handle_rescan_cataloged_for_thinker-promoting 9 uuid4 [] thinkers 2 "Alan Turing"
      (thinker 2 "Alan Turing") archive (some 0) aged refl refl refl (omega arith)

handle_fetch_podcast_feed-again_example :
    (after : FeedTables) × (handle_fetch_podcast_feed
        (λ s. s)
        by_title
        20
        uuid4
        []
        thinkers
        (some 5)
        none
        feed
        fetched.0
      ≡ ok (after, none))
    × (after.contents ≡ fetched.0.contents)
unfolding find_source
handle_fetch_podcast_feed-again_example =
    handle_fetch_podcast_feed-again (λ s. s) by_title 9 20 uuid4 uuid4 [] thinkers 5 none feed
      tables feed_source fetched.0 fetched.1 refl refl tt fetched_ok
